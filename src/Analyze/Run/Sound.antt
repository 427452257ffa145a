-- ===== src/Analyze/Run/Sound.antt =====
-- examples/gateway-accounting/analyze.py: where the observations of `analyze_run` come from.
use otelcol_genai_sketches.Base.{
  String, List, [], ◌∷◌, ◌++◌, Option, none, some, ◌≡◌, refl, sym, ap, ◌∙◌, subst, ◌⊎◌, inl, inr,
}
use otelcol_genai_sketches.Base.Errors.{ok}
use otelcol_genai_sketches.Base.Errors.Laws.{>>=-ok, ok-inj}
use otelcol_genai_sketches.Json.{ℤ, Value, Fields}
use otelcol_genai_sketches.Analyze.Counts.{Protocol}
use otelcol_genai_sketches.Analyze.Native.Dispatch.{Gateway}
use otelcol_genai_sketches.Analyze.Case.{Report}
use otelcol_genai_sketches.Analyze.Run.{
  Pair, PairResult, excluded, observed, gateways, analyze_pair,
}
use otelcol_genai_sketches.Analyze.Run.Whole.{
  Root, RunReport, start_report, add_result, manifest_of, with_protocols, run_pairs, analyze_run,
}
use otelcol_genai_sketches.Analyze.Run.Completed.{IsCompleted, analyze_pair-IsCompleted}

abbrev pub In : Report → List Report → Type 0
In r [] = ⊥
In r (x ∷ xs) = (r ≡ x) ⊎ In r xs

In-append : (r : Report) (xs ys : List Report) → In r (xs ++ ys) → In r xs ⊎ In r ys
In-append r [] ys i = inr i
In-append r (x ∷ xs) ys (inl same) = inl (inl same)
In-append r (x ∷ xs) ys (inr i) = elim (In-append r xs ys i) [ inl a ↦ inl (inr a) | inr b ↦ inr b ]

module _ (loads : String → Option Value) (iso_ns : String → Option ℤ)
    (to_int : Value → Option ℤ) where
  -- The observation is one of a completed pair.
  abbrev pub Explained : (Gateway → Protocol → Option Pair) → String → Fields → Report → Type 0
  Explained pairs mode manifest r =
      (gateway : Gateway) × (protocol : Protocol) × (pair : Pair) × (reports : List Report) × (pairs
          gateway protocol
        ≡ some pair)
      × IsCompleted loads iso_ns to_int gateway protocol pair mode manifest reports
      × In r reports

  abbrev AllExplained : (Gateway → Protocol → Option Pair) → String → Fields → RunReport → Type 0
  AllExplained pairs mode manifest report =
      (r : Report) → In r report.observations → Explained pairs mode manifest r

  add_result_mode :
      (g : Gateway) (p : Protocol) (result : Option PairResult) (report : RunReport)
      → (add_result g p result report).mode ≡ report.mode
  add_result_mode g p none report = refl
  add_result_mode g p (some (excluded status n)) report = refl
  add_result_mode g p (some (observed reports)) report = refl

  add_result-AllExplained :
      (pairs : Gateway → Protocol → Option Pair) (mode : String) (manifest : Fields) (g : Gateway)
      (p : Protocol) (result : Option PairResult) (report : RunReport)
      → ((reports : List Report) (r : Report)
          → result ≡ some (observed reports)
          → In r reports
          → Explained pairs mode manifest r)
      → AllExplained pairs mode manifest report
      → AllExplained pairs mode manifest (add_result g p result report)
  add_result-AllExplained pairs mode manifest g p none report new all = all
  add_result-AllExplained pairs mode manifest g p (some (excluded status n)) report new all = all
  add_result-AllExplained pairs mode manifest g p (some (observed reports)) report new all = λ r i.
      elim (In-append r report.observations reports i) [
        | inl old ↦ all r old
        | inr fresh ↦ new reports r refl fresh
      ]

  pair-Explained :
      (pairs : Gateway → Protocol → Option Pair) (mode : String) (manifest : Fields) (g : Gateway)
      (p : Protocol) (pair : Option Pair) (reports : List Report) (r : Report)
      → pairs g p ≡ pair
      → analyze_pair loads iso_ns to_int g p pair mode manifest ≡ some (observed reports)
      → In r reports
      → Explained pairs mode manifest r
  unfolding analyze_pair
  pair-Explained pairs mode manifest g p none reports r same h i = cc
  pair-Explained pairs mode manifest g p (some pair) reports r same h i = (
    g,
    p,
    pair,
    reports,
    same,
    analyze_pair-IsCompleted loads iso_ns to_int g p pair mode manifest reports h,
    i,
  )

  run_pairs-AllExplained :
      (pairs : Gateway → Protocol → Option Pair) (mode : String) (manifest : Fields)
      (report : RunReport) (rest : List (Gateway × Protocol))
      → report.mode ≡ mode
      → AllExplained pairs mode manifest report
      → AllExplained pairs mode manifest (run_pairs loads iso_ns to_int pairs manifest report rest)
  unfolding run_pairs
  run_pairs-AllExplained pairs mode manifest report [] same all = all
  run_pairs-AllExplained pairs mode manifest report ((g, p) ∷ rest) same all =
      let result = analyze_pair loads iso_ns to_int g p (pairs g p) report.mode manifest in
      run_pairs-AllExplained pairs mode manifest (add_result g p result report) rest
        (add_result_mode g p result report ∙ same)
        (add_result-AllExplained pairs mode manifest g p result report
          (λ reports r h i.
            pair-Explained pairs mode manifest g p (pairs g p) reports r refl
              (ap (λ m. analyze_pair loads iso_ns to_int g p (pairs g p) m manifest) (sym same) ∙ h)
              i)
          all)

  -- If `analyze_run` returns, then each observation of its report is one of a pair whose outcome is
  -- completed and lists its cases, all of which were read with a known client protocol that agrees with
  -- the manifest, and none of which is a control that failed; a pair for which this does not hold adds
  -- no observation.
  pub analyze_run-Explained :
      (root : Root) (report : RunReport)
      → analyze_run loads iso_ns to_int root ≡ ok report
      → (manifest : Fields) × (manifest_of root.manifest ≡ ok manifest)
        × ((r : Report)
            → In r report.observations
            → Explained root.pairs (start_report manifest).mode manifest r)
  unfolding analyze_run
  analyze_run-Explained root report h =
      let (manifest, read, same) = >>=-ok (manifest_of root.manifest) _ report h in
      (
        manifest,
        read,
        subst (AllExplained root.pairs (start_report manifest).mode manifest) (ok-inj _ report same)
            (run_pairs-AllExplained root.pairs (start_report manifest).mode manifest
              (start_report manifest) (with_protocols gateways) refl (λ r i. absurd i)),
      )
