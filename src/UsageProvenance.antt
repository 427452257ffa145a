-- ===== src/UsageProvenance.antt =====
-- examples/integrations/litellm/usage_provenance.py: what a provider reported, captured before
-- normalization, and the provenance attributes for the counts that were emitted.
pub mod Laws
use otelcol_genai_sketches.Base.{
  ℕ, ◌-◌, ◌^◌, ◌≤◌, String, Bool, true, false, List, [], ◌∷◌, ◌++◌, ◌||◌, ◌&&◌, not, if◌then◌else◌,
  Option, none, some, ◌==◌, leb, ltb, str_eq, one_of, all,
}
use otelcol_genai_sketches.Base.Errors.{Result, ok, err, value_error, ◌>>=◌, ◌>>◌, raise_if}
use otelcol_genai_sketches.Json.{
  Value, null, bool, int, pos, str, dict, arr, Fields, end, field, nat, fields, has, get, is_dict,
  is_null, put, num_eq,
}

abbrev pub max_count : ℕ
max_count = 2 ^ 63 - 1

abbrev pub valid_count : Value → Bool
valid_count (int (pos n)) = leb n max_count
valid_count _ = false

-- `ProviderUsage`
pub record ProviderUsage : Type 0 where
  pub input : Option ℕ
  pub output : Option ℕ
  pub cache_read_input : Option ℕ
  pub reasoning_output : Option ℕ

abbrev is_bad_count : Value → Bool
is_bad_count v = not (is_null v) && not (valid_count v)

abbrev to_option : Value → Option ℕ
to_option (int (pos n)) = some n
to_option _ = none

-- `not valid_count(value) or parent is None or value > parent`, of a subset that is given.
abbrev is_bad_subset : Value → Value → Bool
is_bad_subset null parent = false
is_bad_subset (int (pos n)) (int (pos m)) = not (leb n max_count) || ltb m n
is_bad_subset _ _ = true

-- The constructor, with the checks of `__post_init__`.
unfoldable pub provider_usage : Value → Value → Value → Value → Result ProviderUsage
provider_usage input output cache_read reasoning =
    raise_if (is_bad_count input || is_bad_count output) value_error
    >> raise_if (is_bad_subset cache_read input || is_bad_subset reasoning output) value_error
    >> ok (record {
      input = to_option input;
      output = to_option output;
      cache_read_input = to_option cache_read;
      reasoning_output = to_option reasoning;
    })

pub data Source : Type 0 where
  provider_reported unknown inferred unavailable : Source

abbrev pub source_name : Source → String
source_name provider_reported = "provider_reported"
source_name unknown = "unknown"
source_name inferred = "inferred"
source_name unavailable = "unavailable"

-- `emitted_usage if isinstance(emitted_usage, dict) else {}`
abbrev pub as_dict : Value → Fields
as_dict (dict fs) = fs
as_dict _ = end

-- The source of one field: its captured count, its emitted value, and whether it was inferred.
unfoldable pub source_of : Option ℕ → Value → Bool → Source
source_of (some original) value is_inferred =
    if valid_count value && num_eq original value then provider_reported else unknown
source_of none value is_inferred =
    if is_inferred && valid_count value then inferred else unavailable

pub record Sources : Type 0 where
  pub input : Source
  pub output : Source

abbrev sources : ProviderUsage → Value → List String → Sources
sources u emitted inferred_fields = record {
  input =
      source_of u.input (get "prompt_tokens" (as_dict emitted)) (one_of "input" inferred_fields);
  output =
      source_of u.output (get "completion_tokens" (as_dict emitted))
        (one_of "output" inferred_fields);
}

-- `ProviderUsage.attributes`, before the sources are spelled.
unfoldable pub attribute_sources : ProviderUsage → Value → List String → Result Sources
unfolding source_of
attribute_sources u emitted inferred_fields =
    raise_if (not (all (λ f. one_of f ("input" ∷ "output" ∷ [])) inferred_fields)) value_error
    >> ok (sources u emitted inferred_fields)

-- `ProviderUsage.attributes`
unfoldable pub attributes : ProviderUsage → Value → List String → Result Fields
unfolding attribute_sources
attributes u emitted inferred_fields = attribute_sources u emitted inferred_fields >>= λ s. ok (
    fields (
      ("gen_ai_sketch.usage.input.provenance", str (source_name s.input))
      ∷ ("gen_ai_sketch.usage.output.provenance", str (source_name s.output))
      ∷ []))

-- Whether the emitted details leave a captured subset as it was.
abbrev keeps_subset : ℕ → Value → String → Bool
keeps_subset n null key = true
keeps_subset n (dict details) key =
    not (has key details) || valid_count (get key details) && num_eq n (get key details)
keeps_subset n _ key = false

abbrev is_reported : Source → Bool
is_reported provider_reported = true
is_reported _ = false

-- One round of the loop of `subset_attributes`: the attribute's value, if it is emitted.
unfoldable pub subset_value : Option ℕ → Source → Value → String → Option ℕ
subset_value none source details key = none
subset_value (some n) source details key =
    if is_reported source && keeps_subset n details key then some n else none

abbrev add : String → Option ℕ → Fields → Fields
add k none fs = fs
add k (some n) fs = put k (nat n) fs

-- The two values of `subset_attributes`.
unfoldable pub subset_values : ProviderUsage → Value → Result (Option ℕ × Option ℕ)
unfolding attribute_sources subset_value
subset_values u emitted = attribute_sources u emitted [] >>= λ s. ok (
  subset_value u.cache_read_input s.input (get "prompt_tokens_details" (as_dict emitted))
      "cached_tokens",
  subset_value u.reasoning_output s.output (get "completion_tokens_details" (as_dict emitted))
      "reasoning_tokens",
)

-- `ProviderUsage.subset_attributes`
unfoldable pub subset_attributes : ProviderUsage → Value → Result Fields
unfolding subset_values
subset_attributes u emitted = subset_values u emitted >>= λ v. ok (
    add "gen_ai.usage.reasoning.output_tokens" v.1
      (add "gen_ai.usage.cache_read.input_tokens" v.0 end))

abbrev total : Value → Value
total v = if valid_count v then v else null

-- `value if valid_count(value) and parent is not None and value <= parent else None`
abbrev subset : Value → Value → Value
subset (int (pos n)) (int (pos m)) = if leb n max_count && leb n m then nat n else null
subset _ _ = null

unfoldable pub capture : Value → Result ProviderUsage
unfolding provider_usage
capture raw =
    let input = total (get "prompt_tokens" (as_dict raw)) in
    let output = total (get "completion_tokens" (as_dict raw)) in
    provider_usage input output
      (subset (get "cached_tokens" (as_dict (get "prompt_tokens_details" (as_dict raw)))) input)
      (subset (get "reasoning_tokens" (as_dict (get "completion_tokens_details" (as_dict raw))))
        output)
