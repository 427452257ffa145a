-- ===== src/Verify/Outcomes.antt =====
-- examples/gateway-accounting/verify.py: what holds of the outcomes that `verify` accepts.
use otelcol_genai_sketches.Base.{
  String, Bool, true, false, List, [], ◌∷◌, ◌||◌, if◌then◌else◌, ◌≡◌, refl, sym, ap, ◌∙◌, inl, inr,
  Bool-cases,
}
use otelcol_genai_sketches.Base.Errors.{Result, ok, err, key_error, ◌>>=◌}
use otelcol_genai_sketches.Base.Errors.Laws.{>>=-ok, ok-inj}
use otelcol_genai_sketches.Json.{
  Value, null, bool, int, real, str, arr, dict, nil, cons, end, field, Fields, get, has, truthy,
  is_text, iterate,
}
use otelcol_genai_sketches.Json.Laws.{is_text_str}
use otelcol_genai_sketches.Analyze.Case.{lookup}
use otelcol_genai_sketches.Analyze.Run.{Excluded}
use otelcol_genai_sketches.Verify.{status_of, any_incomplete, incomplete, has_excluded}

abbrev pub AllCompleted : List Value → Type 0
AllCompleted [] = Unit {0}
AllCompleted (o ∷ os) =
    ((fs : Fields) × (o ≡ dict fs) × (get "status" fs ≡ str "completed")) × AllCompleted os

completed_or :
    (status : Value) (rest : Result Bool)
    → (if is_text "completed" status then rest else ok true) ≡ ok false
    → (status ≡ str "completed") × (rest ≡ ok false)
completed_or status rest h = elim (Bool-cases (is_text "completed" status)) [
  | inl done ↦
      (is_text_str "completed" status done, sym (ap (λ b. if b then rest else ok true) done) ∙ h)
  | inr other ↦ (let bad = sym (ap (λ b. if b then rest else ok true) other) ∙ h in cc)
]

pub lookup_of :
    (fs : Fields) (value : Value)
    → lookup "cases" fs ≡ ok value
    → (has "cases" fs ≡ true) × (get "cases" fs ≡ value)
lookup_of fs value h = elim (Bool-cases (has "cases" fs)) [
  | inl there ↦ (
    there,
    ok-inj _ value (sym (ap (λ b. if b then ok (get "cases" fs) else err key_error) there) ∙ h),
  )
  | inr lost ↦
      let bad = sym (ap (λ b. if b then ok (get "cases" fs) else err key_error) lost) ∙ h in cc
]

status_value :
    (b : Bool) (v status : Value) → (if b then ok v else err key_error) ≡ ok status → v ≡ status
status_value true v status h = ok-inj v status h
status_value false v status h = cc

status_is :
    (o status : Value)
    → status_of o ≡ ok status
    → (fs : Fields) × (o ≡ dict fs) × (get "status" fs ≡ status)
status_is (dict fs) status h = (fs, refl, status_value (has "status" fs) (get "status" fs) status h)
status_is null status h = cc
status_is (bool b) status h = cc
status_is (int n) status h = cc
status_is (real x) status h = cc
status_is (str s) status h = cc
status_is (arr vs) status h = cc

neither_of : (a b : Bool) → (a || b) ≡ false → (a ≡ false) × (b ≡ false)
neither_of true b h = cc
neither_of false b h = (refl, h)

no_excluded : (excluded : List Excluded) → has_excluded excluded ≡ false → excluded ≡ []
no_excluded [] h = refl
no_excluded (e ∷ es) h = cc

-- The truth value of a container, from its members.
abbrev has_members : Result (List Value) → Bool
has_members (ok []) = false
has_members _ = true

truthy-has_members : (v : Value) → truthy v ≡ true → has_members (iterate v) ≡ true
truthy-has_members (arr nil) h = cc
truthy-has_members (arr (cons v vs)) h = refl
truthy-has_members (str String.[]) h = cc
truthy-has_members (str (String.◌∷◌ c s)) h = refl
truthy-has_members (dict end) h = cc
truthy-has_members (dict (field k v fs)) h = refl
truthy-has_members null h = refl
truthy-has_members (bool b) h = refl
truthy-has_members (int n) h = refl
truthy-has_members (real x) h = refl

abbrev counted : Value → List Excluded → Result Bool
counted outcomes excluded = iterate outcomes >>= any_incomplete >>= λ some_incomplete.
    ok (some_incomplete || has_excluded excluded)

of_values :
    (outcomes : Value) (values : List Value) {excluded : List Excluded}
    → truthy outcomes ≡ true
    → iterate outcomes ≡ ok values
    → AllCompleted values
    → excluded ≡ []
    → (o : Value) × (os : List Value) × (iterate outcomes ≡ ok (o ∷ os))
      × AllCompleted (o ∷ os)
      × (excluded ≡ [])
of_values outcomes [] there read done none_out =
    let bad = sym (ap has_members read) ∙ truthy-has_members outcomes there in cc
of_values outcomes (o ∷ os) there read done none_out = (o, os, read, done, none_out)

any_incomplete-AllCompleted : (os : List Value) → any_incomplete os ≡ ok false → AllCompleted os
any_incomplete-AllCompleted [] h = tt
any_incomplete-AllCompleted (o ∷ os) h =
    let (status, found, rest) =
      >>=-ok (status_of o) (λ v. if is_text "completed" v then any_incomplete os else ok true) false
        h in
    let (completed, later) = completed_or status (any_incomplete os) rest in
    let (fs, same, held) = status_is o status found in
    ((fs, same, held ∙ completed), any_incomplete-AllCompleted os later)

-- The outcomes are not empty, and all of them completed.
pub incomplete-AllCompleted :
    (outcomes : Value) (excluded : List Excluded)
    → incomplete outcomes (has_excluded excluded) ≡ ok false
    → (o : Value) × (os : List Value) × (iterate outcomes ≡ ok (o ∷ os))
      × AllCompleted (o ∷ os)
      × (excluded ≡ [])
incomplete-AllCompleted outcomes excluded h = elim (Bool-cases (truthy outcomes)) [
  | inl some_there ↦
      let h₀ = sym (ap (λ b. if b then counted outcomes excluded else ok true) some_there) ∙ h in
      let (listed, given, h₁) = >>=-ok (iterate outcomes >>= any_incomplete) _ false h₀ in
      let (values, read, h₂) = >>=-ok (iterate outcomes) any_incomplete listed given in
      let (all_done, none_out) = neither_of listed (has_excluded excluded) (ok-inj _ false h₁) in
      let done = any_incomplete-AllCompleted values (h₂ ∙ ap ok all_done) in
      of_values outcomes values some_there read done (no_excluded excluded none_out)
  | inr empty ↦
      let bad = sym (ap (λ b. if b then counted outcomes excluded else ok true) empty) ∙ h in cc
]
