-- ===== src/UsageProvenance/Laws.antt =====
-- `capture`, and the attributes of a capture for what was emitted.
use otelcol_genai_sketches.Base.{
  ℕ, ◌≤◌, String, Bool, true, false, List, [], ◌∷◌, if◌then◌else◌, Option, none, some, one_of, all,
  ◌≡◌, refl, arith, ◌↔◌,
}
use otelcol_genai_sketches.Base.Errors.{ok, ◌>>=◌}
use otelcol_genai_sketches.Json.{Value, int, pos, get}
use otelcol_genai_sketches.UsageProvenance.{
  max_count, valid_count, ProviderUsage, provider_reported, inferred, as_dict, source_of, Sources,
  attribute_sources, subset_value, subset_values, capture, total, subset, is_bad_count,
  is_bad_subset, to_option, sources,
}

-- A captured count or nothing, bounded by its parent.
abbrev pub Part : Option ℕ → Option ℕ → Type 0
Part none parent = Unit {0}
Part (some n) none = ⊥
Part (some n) (some m) = (n ≤ m) × (m ≤ max_count)

-- What `capture` returns for one raw value: the usage with its counts in range.
pub record IsCaptured (raw : Value) (u : ProviderUsage) : Type 0 where
  pub input : u.input ≡ (
      if valid_count (get "prompt_tokens" (as_dict raw))
      then to_option (get "prompt_tokens" (as_dict raw))
      else none)
  pub output : u.output ≡ (
      if valid_count (get "completion_tokens" (as_dict raw))
      then to_option (get "completion_tokens" (as_dict raw))
      else none)
  pub cache_read : Part u.cache_read_input u.input
  pub reasoning : Part u.reasoning_output u.output

total_lem : (v : Value) → is_bad_count (total v) ≡ false
total_lem (int (pos n)) = ground arith
total_lem _ = refl

subset_lem : (v p : Value) → is_bad_subset (subset v (total p)) (total p) ≡ false
subset_lem (int (pos n)) (int (pos m)) = ground arith
subset_lem (int (pos n)) _ = refl
subset_lem _ _ = refl

-- The record that `capture` builds.
abbrev captured : Value → ProviderUsage
captured raw =
    let input = total (get "prompt_tokens" (as_dict raw)) in
    let output = total (get "completion_tokens" (as_dict raw)) in
    record {
      input = to_option input;
      output = to_option output;
      cache_read_input = to_option (
          subset (get "cached_tokens" (as_dict (get "prompt_tokens_details" (as_dict raw)))) input);
      reasoning_output = to_option (
          subset (get "reasoning_tokens" (as_dict (get "completion_tokens_details" (as_dict raw))))
            output);
    }

capture-eq-captured : (raw : Value) → capture raw ≡ ok (captured raw)
unfolding capture
capture-eq-captured raw =
    let p = get "prompt_tokens" (as_dict raw) in
    let c = get "completion_tokens" (as_dict raw) in
    let r = get "cached_tokens" (as_dict (get "prompt_tokens_details" (as_dict raw))) in
    let s = get "reasoning_tokens" (as_dict (get "completion_tokens_details" (as_dict raw))) in
    rw (total_lem p, total_lem c, subset_lem r p, subset_lem s c) refl

to_option-total : (v : Value) → to_option (total v) ≡ (if valid_count v then to_option v else none)
to_option-total (int (pos n)) = ground arith
to_option-total _ = refl

Part-subset : (v p : Value) → Part (to_option (subset v (total p))) (to_option (total p))
Part-subset (int (pos n)) (int (pos m)) = ground arith
Part-subset (int (pos n)) _ = tt
Part-subset _ _ = tt

-- `capture` raises for no raw value. Of each total it keeps exactly a valid count, and each subset that
-- it keeps is at most its total, which is in range.
pub capture-IsCaptured :
    (raw : Value) → (u : ProviderUsage) × (capture raw ≡ ok u) × IsCaptured raw u
capture-IsCaptured raw = (
  captured raw,
  capture-eq-captured raw,
  record {
    input = to_option-total (get "prompt_tokens" (as_dict raw));
    output = to_option-total (get "completion_tokens" (as_dict raw));
    cache_read =
        Part-subset (get "cached_tokens" (as_dict (get "prompt_tokens_details" (as_dict raw))))
          (get "prompt_tokens" (as_dict raw));
    reasoning =
        Part-subset
          (get "reasoning_tokens" (as_dict (get "completion_tokens_details" (as_dict raw))))
          (get "completion_tokens" (as_dict raw));
  },
)

-- The two raw values are one count.
abbrev pub SameCount : Value → Value → Type 0
SameCount (int (pos n)) (int (pos m)) = (n ≡ m) × (n ≤ max_count)
SameCount _ _ = ⊥

-- The emitted value, where it is a valid count that the raw value does not back.
abbrev pub ByEstimate : Value → Value → Bool → Type 0
ByEstimate raw emitted is_inferred =
    (valid_count raw ≡ false) × (valid_count emitted ≡ true) × (is_inferred ≡ true)

source_reported_iff :
    (raw emitted : Value) (i : Bool)
    → (source_of (to_option (total raw)) emitted i ≡ provider_reported) ↔ SameCount raw emitted
unfolding source_of
source_reported_iff (int (pos n)) (int (pos m)) i = ground arith
source_reported_iff (int (pos n)) _ i = ground arith
source_reported_iff _ _ i = ground arith

source_inferred_iff :
    (raw emitted : Value) (i : Bool)
    → (source_of (to_option (total raw)) emitted i ≡ inferred) ↔ ByEstimate raw emitted i
unfolding source_of
source_inferred_iff (int (pos n)) emitted i = ground arith
source_inferred_iff _ emitted i = ground arith

-- What the sources of a capture say of the raw and the emitted usage.
pub record IsHonest (raw emitted : Value) (inferred_fields : List String) (s : Sources)
    : Type 0 where
  pub input_reported :
      (s.input ≡ provider_reported)
      ↔ SameCount (get "prompt_tokens" (as_dict raw)) (get "prompt_tokens" (as_dict emitted))
  pub input_inferred :
      (s.input ≡ inferred)
      ↔ ByEstimate
          (get "prompt_tokens" (as_dict raw))
          (get "prompt_tokens" (as_dict emitted))
          (one_of "input" inferred_fields)
  pub output_reported :
      (s.output ≡ provider_reported)
      ↔ SameCount
          (get "completion_tokens" (as_dict raw))
          (get "completion_tokens" (as_dict emitted))
  pub output_inferred :
      (s.output ≡ inferred)
      ↔ ByEstimate
          (get "completion_tokens" (as_dict raw))
          (get "completion_tokens" (as_dict emitted))
          (one_of "output" inferred_fields)

-- With inferred fields among `input` and `output`, capturing a raw usage and asking for the attributes
-- of an emitted one raises nothing. A field is called provider-reported exactly when the raw and the
-- emitted value are the same count in range, and inferred exactly when the raw value is no count, the
-- emitted one is, and the caller declared the field inferred.
pub provenance-IsHonest :
    (raw emitted : Value) (inferred_fields : List String)
    → all (λ f. one_of f ("input" ∷ "output" ∷ [])) inferred_fields ≡ true
    → (s : Sources) × ((capture raw >>= λ u. attribute_sources u emitted inferred_fields) ≡ ok s)
      × IsHonest raw emitted inferred_fields s
unfolding attribute_sources
provenance-IsHonest raw emitted inferred_fields h = (
  sources (captured raw) emitted inferred_fields,
  rw (capture-eq-captured raw, h) refl,
  record {
    input_reported = source_reported_iff (get "prompt_tokens" (as_dict raw)) _ _;
    input_inferred = source_inferred_iff (get "prompt_tokens" (as_dict raw)) _ _;
    output_reported = source_reported_iff (get "completion_tokens" (as_dict raw)) _ _;
    output_inferred = source_inferred_iff (get "completion_tokens" (as_dict raw)) _ _;
  },
)

-- A subset that is emitted is at most the emitted total, which is a count in range.
abbrev pub Backed : Option ℕ → Value → Type 0
Backed none total = Unit {0}
Backed (some n) (int (pos m)) = (n ≤ m) × (m ≤ max_count)
Backed (some n) _ = ⊥

subset_value-Backed :
    (part raw emitted details : Value) (key : String) (i : Bool)
    → Backed
        (subset_value
          (to_option (subset part (total raw)))
          (source_of (to_option (total raw)) emitted i)
          details
          key)
        emitted
unfolding subset_value source_of
subset_value-Backed (int (pos k)) (int (pos n)) (int (pos m)) details key i = ground arith
subset_value-Backed (int (pos k)) (int (pos n)) _ details key i = ground arith
subset_value-Backed (int (pos k)) _ emitted details key i = ground arith
subset_value-Backed _ raw emitted details key i = ground arith

abbrev subset_pair : ProviderUsage → Value → Option ℕ × Option ℕ
subset_pair u emitted = (
  subset_value u.cache_read_input (sources u emitted []).input
      (get "prompt_tokens_details" (as_dict emitted)) "cached_tokens",
  subset_value u.reasoning_output (sources u emitted []).output
      (get "completion_tokens_details" (as_dict emitted)) "reasoning_tokens",
)

-- The subset attributes of a capture, for any emitted usage: asking for them raises nothing, and each
-- one that is emitted is at most the total that was emitted beside it, which is a count in range.
pub subset_values-Backed :
    (raw emitted : Value)
    → (v : Option ℕ × Option ℕ) × ((capture raw >>= λ u. subset_values u emitted) ≡ ok v)
      × Backed v.0 (get "prompt_tokens" (as_dict emitted))
      × Backed v.1 (get "completion_tokens" (as_dict emitted))
unfolding subset_values
subset_values-Backed raw emitted = (
  subset_pair (captured raw) emitted,
  rw (capture-eq-captured raw) refl,
  subset_value-Backed (get "cached_tokens" (as_dict (get "prompt_tokens_details" (as_dict raw))))
      (get "prompt_tokens" (as_dict raw)) _ _ _ _,
  subset_value-Backed
      (get "reasoning_tokens" (as_dict (get "completion_tokens_details" (as_dict raw))))
      (get "completion_tokens" (as_dict raw)) _ _ _ _,
)
