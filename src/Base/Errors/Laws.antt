-- ===== src/Base/Errors/Laws.antt =====
-- What a call that raised nothing went through.
use mathlib.Core.Path.{◌≡◌, refl, subst}
use mathlib.Core.List.{List, [], ◌∷◌}
use mathlib.Core.Bool.{Bool, true, false, not}
use otelcol_genai_sketches.Base.Errors.{Error, Result, ok, err, raise_if, fold_result, ◌>>=◌, ◌>>◌}

pub >>=-ok {ℓ κ} :
    {A : Type ℓ} {B : Type κ} (r : Result A) (k : A → Result B) (b : B)
    → (r >>= k) ≡ ok b
    → (a : A) × (r ≡ ok a) × (k a ≡ ok b)
>>=-ok (err e) k b h = cc
>>=-ok (ok a) k b h = (a, refl, h)

pub raise_if-ok {ℓ} :
    {A : Type ℓ} (b : Bool) (e : Error) (r : Result A) (a : A)
    → (raise_if b e >> r) ≡ ok a
    → (b ≡ false) × (r ≡ ok a)
raise_if-ok true e r a h = cc
raise_if-ok false e r a h = (refl, h)

pub >>-ok {ℓ} :
    {A : Type ℓ} (first : Result (Unit {0})) (r : Result A) (a : A)
    → (first >> r) ≡ ok a
    → (first ≡ ok tt) × (r ≡ ok a)
>>-ok (err e) r a h = cc
>>-ok (ok passed) r a h = (refl, h)

pub raise_if-passed : (b : Bool) (e : Error) → raise_if (not b) e ≡ ok tt → b ≡ true
raise_if-passed true e h = refl
raise_if-passed false e h = cc

pub ok-inj {ℓ} : {A : Type ℓ} (a b : A) → ok a ≡ ok b → a ≡ b
ok-inj a b h = cc

-- A property that each round keeps holds at the end of the loop.
pub fold_result-Keeps {ℓ κ μ} :
    {A : Type ℓ} {S : Type κ} (P : S → Type μ) (f : S → A → Result S)
    → ((s : S) (x : A) (t : S) → P s → f s x ≡ ok t → P t)
    → (s : S) (xs : List A) (t : S) → P s
    → fold_result f s xs ≡ ok t
    → P t
fold_result-Keeps P f keeps s [] t p h = subst P (ok-inj s t h) p
fold_result-Keeps P f keeps s (x ∷ xs) t p h =
    let (next, round, rest) = >>=-ok (f s x) (λ u. fold_result f u xs) t h in
    fold_result-Keeps P f keeps next xs t (keeps s x next p round) rest
