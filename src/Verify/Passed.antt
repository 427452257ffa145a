-- ===== src/Verify/Passed.antt =====
-- examples/gateway-accounting/verify.py: what holds of a report that `verify` accepts.
use otelcol_genai_sketches.Base.{
  ◌*◌, true, List, [], ◌∷◌, not, length, ◌==◌, ==_iff, ◌≡◌, sym, ap, ◌∙◌,
}
use otelcol_genai_sketches.Base.Errors.{ok, ◌>>=◌}
use otelcol_genai_sketches.Base.Errors.Laws.{>>=-ok, ok-inj}
use otelcol_genai_sketches.Json.{Value, Fields, get, has, iterate}
use otelcol_genai_sketches.Analyze.Case.{Report, lookup}
use otelcol_genai_sketches.Analyze.Run.{case_count}
use otelcol_genai_sketches.Analyze.Run.Whole.{RunReport}
use otelcol_genai_sketches.Analyze.Run.Sound.{In}
use otelcol_genai_sketches.Verify.{incomplete, has_excluded, verify}
use otelcol_genai_sketches.Verify.Rows.{
  RowPassed, no_complaint, not-false, rows_complaints-RowPassed,
}
use otelcol_genai_sketches.Verify.Outcomes.{AllCompleted, lookup_of, incomplete-AllCompleted}

-- What `verify` accepts as a whole: there is an outcome, all of them are completed, no pair is excluded,
-- and there is an observation for each outcome and each case of the manifest.
abbrev pub Passed : Fields → Value → RunReport → Type 0
Passed manifest outcomes report =
    (o : Value) × (os : List Value) × (names : List Value) × (iterate outcomes ≡ ok (o ∷ os))
    × AllCompleted (o ∷ os)
    × (report.excluded_runs ≡ [])
    × (has "cases" manifest ≡ true)
    × (iterate (get "cases" manifest) ≡ ok names)
    × (length report.observations ≡ length (o ∷ os) * length names)
    × ((r : Report) → In r report.observations → RowPassed manifest r)

-- If `verify` returns no complaint, then there is an outcome, all outcomes are completed and no pair is
-- excluded, the report has as many observations as there are outcomes and cases, and in each of them no
-- surface had a reader error or a missing capture (it may be one that cannot be read). For a control or
-- a cache case the provider's response is final and complete; a cache case is compared with the
-- provider's metadata and proves a positive cache count of its kind; a control had one attempt and a
-- final client response that equals the provider's in input and output, and a control of the case
-- `complete` has records and the whole usage in the gateway's accounting and in the telemetry, wherever
-- these can be read.
pub verify-Passed :
    (manifest : Fields) (outcomes : Value) (report : RunReport)
    → verify manifest outcomes report ≡ ok []
    → Passed manifest outcomes report
unfolding verify
verify-Passed manifest outcomes report h =
    let (failed, checked, h₁) =
      >>=-ok (incomplete outcomes (has_excluded report.excluded_runs)) _ [] h in
    let (pairs, counted, h₂) = >>=-ok (case_count outcomes) _ [] h₁ in
    let (listed, found, h₃) = >>=-ok (lookup "cases" manifest) _ [] h₂ in
    let (cases, sized, h₄) = >>=-ok (case_count listed) _ [] h₃ in
    let (whole, h₅) = no_complaint failed _ _ (ok-inj _ [] h₄) in
    let (covered, rows) = no_complaint (not (length report.observations == pairs * cases)) _ _ h₅ in
    let (o, os, given, done, none_out) =
      incomplete-AllCompleted outcomes report.excluded_runs (checked ∙ ap ok whole) in
    let (names, named, counted_names) = >>=-ok (iterate listed) _ cases sized in
    let (there, looked) = lookup_of manifest listed found in
    let pairs_counted =
      ok-inj _ pairs (sym (ap (λ r. r >>= λ xs. ok (length xs)) given) ∙ counted) in
    (
      o,
      os,
      names,
      given,
      done,
      none_out,
      there,
      ap iterate looked ∙ named,
      (==_iff (length report.observations) (pairs * cases)).0 (not-false _ covered)
          ∙ sym (ap (λ n. n * cases) pairs_counted)
          ∙ ap (λ n. length (o ∷ os) * n) (sym (ok-inj _ cases counted_names)),
      λ r i. rows_complaints-RowPassed manifest report.observations r rows i,
    )
