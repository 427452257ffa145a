-- ===== src/Verify/Rows.antt =====
-- examples/gateway-accounting/verify.py: what holds of an observation that `verify` accepts.
use otelcol_genai_sketches.Base.{
  ℕ, ◌<◌, ◌≢◌, ◌⊎◌, String, Bool, true, false, List, [], ◌∷◌, ◌++◌, ◌||◌, ◌&&◌, not, str_eq,
  if◌then◌else◌, Option, none, some, ◌==◌, ==_iff, ◌≡◌, refl, sym, ap, ◌∙◌, subst, arith, inl, inr,
  eq_iff, Bool-cases,
}
use otelcol_genai_sketches.Json.{Fields}
use otelcol_genai_sketches.Analyze.Counts.{
  input, output, Comparison, equal, absent, reference_unknown, under_counted, over_counted, unknown,
  UsageState, complete, missing, partial, ambiguous,
}
use otelcol_genai_sketches.Analyze.Record.{Record}
use otelcol_genai_sketches.Analyze.Surface.{Surface}
use otelcol_genai_sketches.Analyze.Case.{Report}
use otelcol_genai_sketches.Analyze.Run.{is_control}
use otelcol_genai_sketches.Analyze.Run.Sound.{In}
use otelcol_genai_sketches.Verify.{
  Complaint, complain, is_capture_failure, is_final, is_complete, is_equal, has_records,
  is_positive, is_cache_case, cache_of, lacks_capture, control_complaints, row_complaints,
  rows_complaints,
}

-- The surface was read, unless it has no reader.
abbrev pub Captured : Surface → Type 0
Captured s = (s.reader_status ≢ "reader_error") × (s.reader_status ≢ "capture_missing")

-- The surface cannot be read, or it has records and shows the whole usage.
abbrev pub FullyCaptured : Surface → Type 0
FullyCaptured s =
    (s.reader_status ≡ "reader_unsupported") ⊎ ((s.records ≢ []) × (s.usage_state ≡ complete))

abbrev pub IsPositive : Option ℕ → Type 0
IsPositive c = (n : ℕ) × (c ≡ some n) × (0 < n)

-- A control that passed: one attempt, a final client response that agrees with the provider in input
-- and output, and, for a normal response, a complete capture wherever one is read.
pub record ControlPassed (r : Report) : Type 0 where
  pub attempts : r.provider_attempts ≡ 1
  pub final : r.client_response.surface.final ≡ some true
  pub same_input : (r.client_response.dimensions input).comparison ≡ equal
  pub same_output : (r.client_response.dimensions output).comparison ≡ equal
  pub gateway : r.name.case ≡ "complete" → FullyCaptured r.gateway_accounting.surface
  pub telemetry : r.name.case ≡ "complete" → FullyCaptured r.exported_telemetry.surface

-- The provider's response is final and its usage complete.
abbrev pub IsReference : Surface → Type 0
IsReference s = (s.final ≡ some true) × (s.usage_state ≡ complete)

pub record RowPassed (manifest : Fields) (r : Report) : Type 0 where
  pub provider : Captured r.provider_response.surface
  pub client : Captured r.client_response.surface
  pub gateway : Captured r.gateway_accounting.surface
  pub telemetry : Captured r.exported_telemetry.surface
  pub control :
      is_control r.name.case r.name.upstream_protocol manifest ≡ true
      → IsReference r.provider_response.surface × ControlPassed r
  pub cache_write :
      r.name.case ≡ "cache_write"
      → IsReference r.provider_response.surface
        × ((r.comparison_basis ≡ "provider_response_metadata")
            × IsPositive r.provider_response.surface.cache_creation)
  pub cache_read :
      r.name.case ≡ "cache_read"
      → IsReference r.provider_response.surface
        × ((r.comparison_basis ≡ "provider_response_metadata")
            × IsPositive r.provider_response.surface.usage.cache_read)

captured_of : (s : Surface) → is_capture_failure s ≡ false → Captured s
captured_of s h = (
  (λ same. grind (arith, eq_iff s.reader_status "reader_error")),
  λ same. grind (arith, eq_iff s.reader_status "capture_missing"),
)

is_positive-true : (c : Option ℕ) → is_positive c ≡ true → IsPositive c
is_positive-true none h = cc
is_positive-true (some n) h = (let above : 0 < n = ground arith in (n, refl, above))

append-empty : (xs ys : List Complaint) → xs ++ ys ≡ [] → (xs ≡ []) × (ys ≡ [])
append-empty [] ys h = (refl, h)
append-empty (x ∷ xs) ys h = cc

pub no_complaint :
    (b : Bool) (c : Complaint) (rest : List Complaint)
    → complain b c ++ rest ≡ []
    → (b ≡ false) × (rest ≡ [])
no_complaint false c rest h = (refl, h)
no_complaint true c rest h = cc

last_complaint : (b : Bool) (c : Complaint) → complain b c ≡ [] → b ≡ false
last_complaint false c h = refl
last_complaint true c h = cc

is_final-true : (f : Option Bool) → is_final f ≡ true → f ≡ some true
is_final-true (some true) h = refl
is_final-true (some false) h = cc
is_final-true none h = cc

is_complete-true : (s : UsageState) → is_complete s ≡ true → s ≡ complete
is_complete-true complete h = refl
is_complete-true missing h = cc
is_complete-true partial h = cc
is_complete-true ambiguous h = cc

neither : (a b : Bool) → (not a || not b) ≡ false → (a ≡ true) × (b ≡ true)
neither a b h = ground arith

when_true : (a b : Bool) → (a && b) ≡ false → a ≡ true → b ≡ false
when_true a b h t = ground arith

pub not-false : (b : Bool) → not b ≡ false → b ≡ true
not-false b h = ground arith

is_equal-true : (c : Comparison) → is_equal c ≡ true → c ≡ equal
is_equal-true equal h = refl
is_equal-true absent h = cc
is_equal-true reference_unknown h = cc
is_equal-true under_counted h = cc
is_equal-true over_counted h = cc
is_equal-true unknown h = cc

records_of : (s : Surface) → has_records s ≡ true → s.records ≢ []
records_of s h none_there = (let bad = sym (ap some_records none_there) ∙ h in cc)
  where
    some_records : List Record → Bool
    some_records rs = elim rs [ [] ↦ false | q ∷ qs ↦ true ]

fully_captured : (s : Surface) → lacks_capture s ≡ false → FullyCaptured s
fully_captured s h = elim (Bool-cases (str_eq s.reader_status "reader_unsupported")) [
  | inl unsupported ↦ inl ((eq_iff s.reader_status "reader_unsupported").0 unsupported)
  | inr supported ↦
      let (recorded, whole) = neither (has_records s) (is_complete s.usage_state) (
        sym (ap (λ b. not b && (not (has_records s) || not (is_complete s.usage_state))) supported)
        ∙ h) in
      inr (records_of s recorded, is_complete-true s.usage_state whole)
]

complete_captured :
    (case : String) (s : Surface)
    → (str_eq case "complete" && lacks_capture s) ≡ false
    → case ≡ "complete"
    → FullyCaptured s
complete_captured case s h same =
    fully_captured s (when_true _ (lacks_capture s) h ((eq_iff case "complete").1 same))

control_complaints-ControlPassed : (r : Report) → control_complaints r ≡ [] → ControlPassed r
unfolding control_complaints
control_complaints-ControlPassed r h =
    let (attempts, h₁) = no_complaint (not (r.provider_attempts == 1)) _ _ h in
    let (final, h₂) = no_complaint (not (is_final r.client_response.surface.final)) _ _ h₁ in
    let (differ, h₃) =
      no_complaint
        (not (is_equal (r.client_response.dimensions input).comparison)
          || not (is_equal (r.client_response.dimensions output).comparison))
        _ _ h₂ in
    let (gateway, h₄) =
      no_complaint (str_eq r.name.case "complete" && lacks_capture r.gateway_accounting.surface) _ _
        h₃ in
    let telemetry =
      last_complaint (str_eq r.name.case "complete" && lacks_capture r.exported_telemetry.surface) _
        h₄ in
    let (same_input, same_output) =
      neither (is_equal (r.client_response.dimensions input).comparison)
        (is_equal (r.client_response.dimensions output).comparison) differ in
    record {
      attempts = (==_iff r.provider_attempts 1).0 (not-false (r.provider_attempts == 1) attempts);
      final = is_final-true r.client_response.surface.final (not-false _ final);
      same_input = is_equal-true (r.client_response.dimensions input).comparison same_input;
      same_output = is_equal-true (r.client_response.dimensions output).comparison same_output;
      gateway = complete_captured r.name.case r.gateway_accounting.surface gateway;
      telemetry = complete_captured r.name.case r.exported_telemetry.surface telemetry;
    }

of_control :
    (b : Bool) (r : Report)
    → (if b then control_complaints r else []) ≡ []
    → b ≡ true
    → ControlPassed r
of_control true r h t = control_complaints-ControlPassed r h
of_control false r h t = cc

or_right : (a b : Bool) → b ≡ true → (a || b) ≡ true
or_right a b h = ground arith

reference_of :
    (s : Surface) (needed : Bool)
    → (needed && (not (is_final s.final) || not (is_complete s.usage_state))) ≡ false
    → needed ≡ true
    → IsReference s
reference_of s needed h is_needed =
    let (is_last, whole) =
      neither (is_final s.final) (is_complete s.usage_state) (when_true needed _ h is_needed) in
    (is_final-true s.final is_last, is_complete-true s.usage_state whole)

-- A case in which the cache must be proved.
proved_cache :
    (case basis : String) (s : Surface)
    → (is_cache_case case
        && (not (str_eq basis "provider_response_metadata") || not (is_positive (cache_of case s))))
      ≡ false
    → is_cache_case case ≡ true
    → (basis ≡ "provider_response_metadata") × IsPositive (cache_of case s)
proved_cache case basis s h cached =
    let (same, positive) =
      neither (str_eq basis "provider_response_metadata") (is_positive (cache_of case s))
        (when_true (is_cache_case case) _ h cached) in
    (
      (eq_iff basis "provider_response_metadata").0 same,
      is_positive-true (cache_of case s) positive,
    )

row_complaints-RowPassed :
    (manifest : Fields) (r : Report) → row_complaints manifest r ≡ [] → RowPassed manifest r
unfolding row_complaints
row_complaints-RowPassed manifest r h =
    let control = is_control r.name.case r.name.upstream_protocol manifest in
    let cached = is_cache_case r.name.case in
    let provider = r.provider_response.surface in
    let (p, h₁) = no_complaint (is_capture_failure provider) _ _ h in
    let (c, h₂) = no_complaint (is_capture_failure r.client_response.surface) _ _ h₁ in
    let (g, h₃) = no_complaint (is_capture_failure r.gateway_accounting.surface) _ _ h₂ in
    let (t, h₄) = no_complaint (is_capture_failure r.exported_telemetry.surface) _ _ h₃ in
    let (final, h₅) = no_complaint _ _ _ h₄ in
    let (cache, h₆) = no_complaint _ _ _ h₅ in
    let cache_of_case = proved_cache r.name.case r.comparison_basis provider cache in
    let reference = reference_of provider (control || cached) final in
    record {
      provider = captured_of provider p;
      client = captured_of r.client_response.surface c;
      gateway = captured_of r.gateway_accounting.surface g;
      telemetry = captured_of r.exported_telemetry.surface t;
      control = λ is. (reference (ap (λ b. b || cached) is), of_control control r h₆ is);
      cache_write = λ is.
          let here : cached ≡ true = ap is_cache_case is in
          let (basis, positive) = cache_of_case here in
          (
            reference (or_right control cached here),
            (basis, subst IsPositive (ap (λ case. cache_of case provider) is) positive),
          );
      cache_read = λ is.
          let here : cached ≡ true = ap is_cache_case is in
          let (basis, positive) = cache_of_case here in
          (
            reference (or_right control cached here),
            (basis, subst IsPositive (ap (λ case. cache_of case provider) is) positive),
          );
    }

pub rows_complaints-RowPassed :
    (manifest : Fields) (rs : List Report) (r : Report)
    → rows_complaints manifest rs ≡ []
    → In r rs
    → RowPassed manifest r
unfolding rows_complaints
rows_complaints-RowPassed manifest [] r h i = absurd i
rows_complaints-RowPassed manifest (q ∷ rs) r h (inl same) =
    let (first, rest) = append-empty (row_complaints manifest q) (rows_complaints manifest rs) h in
    subst (RowPassed manifest) (sym same) (row_complaints-RowPassed manifest q first)
rows_complaints-RowPassed manifest (q ∷ rs) r h (inr i) =
    let (first, rest) = append-empty (row_complaints manifest q) (rows_complaints manifest rs) h in
    rows_complaints-RowPassed manifest rs r rest i
