-- ===== src/Analyze/Run/Completed.antt =====
-- examples/gateway-accounting/analyze.py: the pairs whose observations `analyze_run` keeps.
use otelcol_genai_sketches.Base.{
  ℕ, String, Bool, true, false, List, [], ◌∷◌, ◌&&◌, str_eq, one_of, if◌then◌else◌, Option, none,
  some, ◌≡◌, refl, ap, ◌∙◌, subst,
}
use otelcol_genai_sketches.Base.Errors.{Result, ok, err, value_error, map_result, ◌>>=◌}
use otelcol_genai_sketches.Base.Errors.Laws.{>>=-ok, ok-inj, raise_if-ok}
use otelcol_genai_sketches.Json.{
  ℤ, Value, null, bool, int, real, str, arr, dict, Fields, nil, get, get_or, is_text,
}
use otelcol_genai_sketches.Analyze.Counts.{Protocol, obj, enum_or}
use otelcol_genai_sketches.Analyze.Native.Dispatch.{Gateway}
use otelcol_genai_sketches.Analyze.Case.{Report}
use otelcol_genai_sketches.Analyze.Run.{
  Pair, PairResult, excluded, observed, Loaded, is_control, has_failed, disagrees, protocol_of,
  load_case, after_case, load_cases, outcome_statuses, case_count, listed_cases, analyze_loaded,
  after_cases, after_status, try_pair, caught, analyze_pair,
}

-- A case that may be analysed: its client's protocol is known and agrees with the manifest, and it is
-- no control that failed.
abbrev pub IsSound : Pair → Protocol → Fields → String → Loaded → Type 0
IsSound pair protocol manifest name (case, (client, value)) =
    (read : Value) × (case ≡ name)
    × (pair.case_value name ≡ ok read)
    × (value ≡ obj read)
    × (protocol_of (get "client_protocol" value) ≡ ok client)
    × (disagrees manifest client ≡ false)
    × (is_control name protocol manifest ≡ true → has_failed value ≡ false)

abbrev pub AllSound : Pair → Protocol → Fields → List String → List Loaded → Type 0
AllSound pair protocol manifest [] [] = Unit {0}
AllSound pair protocol manifest (name ∷ names) (l ∷ ls) =
    IsSound pair protocol manifest name l × AllSound pair protocol manifest names ls
AllSound pair protocol manifest [] (l ∷ ls) = ⊥
AllSound pair protocol manifest (name ∷ names) [] = ⊥

kept_case :
    (control failed : Bool) (x l : Loaded)
    → ok (if control && failed then none else some x) ≡ ok (some l)
    → (x ≡ l) × (control ≡ true → failed ≡ false)
kept_case true true x l h = cc
kept_case true false x l h = (cc, λ c. refl)
kept_case false failed x l h = (cc, λ c. cc)

load_case-IsSound :
    (pair : Pair) (protocol : Protocol) (manifest : Fields) (name : String) (l : Loaded)
    → load_case pair protocol manifest name ≡ ok (some l)
    → IsSound pair protocol manifest name l
unfolding load_case
load_case-IsSound pair protocol manifest name l h =
    let (read, found, h₁) = >>=-ok (pair.case_value name) _ (some l) h in
    let (client, known, h₂) =
      >>=-ok (protocol_of (get "client_protocol" (obj read))) _ (some l) h₁ in
    let (agrees, h₃) = raise_if-ok (disagrees manifest client) value_error _ (some l) h₂ in
    let (same, passed) =
      kept_case (is_control name protocol manifest) (has_failed (obj read))
        (name, (client, obj read)) l h₃ in
    subst (IsSound pair protocol manifest name) same
      (read, refl, found, refl, known, agrees, passed)

abbrev Extends : Option Loaded → Result (Option (List Loaded)) → List Loaded → Type 0
Extends loaded rest ls =
    (l : Loaded) × (more : List Loaded) × (loaded ≡ some l)
    × (rest ≡ ok (some more))
    × (l ∷ more ≡ ls)

after_case-Extends :
    (loaded : Option Loaded) (rest : Result (Option (List Loaded))) (ls : List Loaded)
    → after_case loaded rest ≡ ok (some ls)
    → Extends loaded rest ls
after_case-Extends none rest ls h = cc
after_case-Extends (some l) (err e) ls h = cc
after_case-Extends (some l) (ok none) ls h = cc
after_case-Extends (some l) (ok (some more)) ls h = (l, more, refl, refl, cc)

load_cases-AllSound :
    (pair : Pair) (protocol : Protocol) (manifest : Fields) (names : List String) (ls : List Loaded)
    → load_cases pair protocol manifest names ≡ ok (some ls)
    → AllSound pair protocol manifest names ls
unfolding load_cases
load_cases-AllSound pair protocol manifest [] [] h = tt
load_cases-AllSound pair protocol manifest [] (l ∷ ls) h = cc
load_cases-AllSound pair protocol manifest (name ∷ names) ls h =
    let (loaded, found, after) = >>=-ok (load_case pair protocol manifest name) _ (some ls) h in
    let (l, more, same, rest, all) =
      after_case-Extends loaded (load_cases pair protocol manifest names) ls after in
    subst (AllSound pair protocol manifest (name ∷ names)) all (
      load_case-IsSound pair protocol manifest name l (found ∙ ap ok same),
      load_cases-AllSound pair protocol manifest names more rest,
    )

chosen_text :
    (b : Bool) (s : String)
    → str_eq (if b then s else "incomplete") "completed" ≡ true
    → str_eq s "completed" ≡ true
chosen_text true s h = h
chosen_text false s h = cc

completed_status :
    (status : Value)
    → str_eq (enum_or "incomplete" status outcome_statuses) "completed" ≡ true
    → is_text "completed" status ≡ true
completed_status (str s) h = chosen_text (one_of s outcome_statuses) s h
completed_status null h = cc
completed_status (bool b) h = cc
completed_status (int n) h = cc
completed_status (real x) h = cc
completed_status (arr vs) h = cc
completed_status (dict fs) h = cc

on_completed :
    (b : Bool) (r : Result PairResult) (size : Result ℕ) (status : String) (reports : List Report)
    → (if b then r else (size >>= λ n. ok (excluded status (some n)))) ≡ ok (observed reports)
    → (b ≡ true) × (r ≡ ok (observed reports))
on_completed true r size status reports h = (refl, h)
on_completed false r (ok n) status reports h = cc
on_completed false r (err e) status reports h = cc

module _ (loads : String → Option Value) (iso_ns : String → Option ℤ)
    (to_int : Value → Option ℤ) where
  -- The observations of a pair: its outcome is completed, and all its listed cases are sound and are
  -- analysed, in their order.
  abbrev pub IsCompleted : Gateway → Protocol → Pair → String → Fields → List Report → Type 0
  IsCompleted gateway protocol pair mode manifest reports =
      (read : Value) × (names : List String) × (cases : List Loaded) × (pair.outcome ≡ ok read)
      × (is_text "completed" (get "status" (obj read)) ≡ true)
      × (listed_cases manifest (obj read) ≡ ok names)
      × AllSound pair protocol manifest names cases
      × (map_result (analyze_loaded loads iso_ns to_int gateway protocol pair mode) cases
          ≡ ok reports)

  after_cases-observed :
      (gateway : Gateway) (protocol : Protocol) (pair : Pair) (mode : String)
      (loaded : Option (List Loaded)) (reports : List Report)
      → after_cases loads iso_ns to_int gateway protocol pair mode loaded ≡ ok (observed reports)
      → (cases : List Loaded) × (loaded ≡ some cases)
        × (map_result (analyze_loaded loads iso_ns to_int gateway protocol pair mode) cases
            ≡ ok reports)
  after_cases-observed gateway protocol pair mode none reports h = cc
  after_cases-observed gateway protocol pair mode (some cases) reports h =
      let (made, analysed, same) =
        >>=-ok (map_result (analyze_loaded loads iso_ns to_int gateway protocol pair mode) cases) _
          (observed reports) h in
      (cases, refl, analysed ∙ ap ok (observed-inj made reports (ok-inj _ (observed reports) same)))
    where
      observed-inj : (rs ss : List Report) → observed rs ≡ observed ss → rs ≡ ss
      observed-inj rs ss h = cc

  after_status-observed :
      (gateway : Gateway) (protocol : Protocol) (pair : Pair) (mode : String)
      (manifest outcome : Fields) (status : String) (reports : List Report)
      → after_status loads iso_ns to_int gateway protocol pair mode manifest outcome status
        ≡ ok (observed reports)
      → (names : List String) × (cases : List Loaded) × (str_eq status "completed" ≡ true)
        × (listed_cases manifest outcome ≡ ok names)
        × AllSound pair protocol manifest names cases
        × (map_result (analyze_loaded loads iso_ns to_int gateway protocol pair mode) cases
            ≡ ok reports)
  after_status-observed gateway protocol pair mode manifest outcome status reports h =
      let (completed, h₁) =
        on_completed (str_eq status "completed") _ (case_count (get_or "cases" (arr nil) outcome))
          status reports h in
      let (names, listed, h₂) = >>=-ok (listed_cases manifest outcome) _ (observed reports) h₁ in
      let (loaded, found, h₃) =
        >>=-ok (load_cases pair protocol manifest names) _ (observed reports) h₂ in
      let (cases, same, analysed) =
        after_cases-observed gateway protocol pair mode loaded reports h₃ in
      (
        names,
        cases,
        completed,
        listed,
        load_cases-AllSound pair protocol manifest names cases (found ∙ ap ok same),
        analysed,
      )

  try_pair-IsCompleted :
      (gateway : Gateway) (protocol : Protocol) (pair : Pair) (mode : String) (manifest : Fields)
      (reports : List Report)
      → try_pair loads iso_ns to_int gateway protocol pair mode manifest ≡ ok (observed reports)
      → IsCompleted gateway protocol pair mode manifest reports
  unfolding try_pair
  try_pair-IsCompleted gateway protocol pair mode manifest reports h =
      let (read, found, h₁) = >>=-ok pair.outcome _ (observed reports) h in
      let status = get "status" (obj read) in
      let (names, cases, completed, listed, sound, analysed) =
        after_status-observed gateway protocol pair mode manifest (obj read)
          (enum_or "incomplete" status outcome_statuses) reports h₁ in
      (read, names, cases, found, completed_status status completed, listed, sound, analysed)

  pub analyze_pair-IsCompleted :
      (gateway : Gateway) (protocol : Protocol) (pair : Pair) (mode : String) (manifest : Fields)
      (reports : List Report)
      → analyze_pair loads iso_ns to_int gateway protocol (some pair) mode manifest
        ≡ some (observed reports)
      → IsCompleted gateway protocol pair mode manifest reports
  unfolding analyze_pair
  analyze_pair-IsCompleted gateway protocol pair mode manifest reports h =
      try_pair-IsCompleted gateway protocol pair mode manifest reports (
        caught-observed (try_pair loads iso_ns to_int gateway protocol pair mode manifest) reports
          h)
    where
      caught-observed :
          (r : Result PairResult) (reports : List Report)
          → some (caught loads iso_ns to_int r) ≡ some (observed reports)
          → r ≡ ok (observed reports)
      caught-observed (err e) reports h = cc
      caught-observed (ok result) reports h = cc
