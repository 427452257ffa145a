-- ===== src/Base/Errors.antt =====
-- Python's exceptions as values. The kinds are the classes that the programs' handlers tell apart.
pub mod Laws
use mathlib.Core.List.{List, [], ◌∷◌}
use mathlib.Core.Bool.{Bool, true, false}

pub data Error : Type 0 where
  value_error type_error attribute_error key_error os_error : Error

-- What a call ends with: an exception, or its value.
pub data Result {ℓ} (A : Type ℓ) : Type ℓ where
  err : Error → Result A
  ok : A → Result A

-- `if b: raise e`
abbrev pub raise_if : Bool → Error → Result (Unit {0})
raise_if false e = ok tt
raise_if true e = err e

infixl 5 ◌>>=◌ ◌>>◌
abbrev pub ◌>>=◌ {ℓ κ} : {A : Type ℓ} {B : Type κ} → Result A → (A → Result B) → Result B
err raised >>= k = err raised
ok value >>= k = k value

-- A statement whose value is not used.
abbrev pub ◌>>◌ {ℓ} : {A : Type ℓ} → Result (Unit {0}) → Result A → Result A
err raised >> after = err raised
ok done >> after = after

-- A comprehension whose element may raise: the first exception ends it.
abbrev pub map_result {ℓ κ} : {A : Type ℓ} {B : Type κ} → (A → Result B) → List A → Result (List B)
map_result f [] = ok []
map_result f (x ∷ xs) = f x >>= λ y. map_result f xs >>= λ ys. ok (y ∷ ys)

-- A loop that changes a state and may raise.
abbrev pub fold_result {ℓ κ} :
    {A : Type ℓ} {S : Type κ} → (S → A → Result S) → S → List A → Result S
fold_result f s [] = ok s
fold_result f s (x ∷ xs) = f s x >>= λ t. fold_result f t xs
