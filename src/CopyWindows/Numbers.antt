-- ===== src/CopyWindows/Numbers.antt =====
-- deploy/kubernetes/summary-export/copy-windows.py: the numbers that a window's times may be in JSON. The
-- order of Python's numbers is exact, also between an int and a float, and a sum of ints is exact; that
-- of numbers of which one is a float is a parameter.
use otelcol_genai_sketches.Base.{
  ℕ, zero, suc, ◌+◌, ◌-◌, ◌*◌, ◌^◌, Bool, true, false, ◌&&◌, not, Option, none, some, ltb, ◌==◌,
  if◌then◌else◌, ◌≡◌, refl, arith,
}
use otelcol_genai_sketches.Base.Errors.{Result, ok, err, type_error}
use otelcol_genai_sketches.Json.{
  ℤ, pos, negsuc, Value, bool, int, real, Double, finite, infinity, not_a_number,
}
use otelcol_genai_sketches.Json.Equality.{value_eq}

-- An int as a number.
abbrev pub whole : ℕ → Double
whole n = finite false n 0

abbrev of_int : ℤ → Double
of_int (pos n) = finite false n 0
of_int (negsuc n) = finite true (suc n) 0

-- The value of a number, and a TypeError for anything else: `+` and `>` with the time raise it.
abbrev pub number : Value → Result Double
number (bool true) = ok (whole 1)
number (bool false) = ok (whole 0)
number (int n) = ok (of_int n)
number (real x) = ok x
number _ = err type_error

-- `a - b`, of naturals.
abbrev difference : ℕ → ℕ → ℤ
difference a b = if ltb a b then negsuc (b - a - 1) else pos (a - b)

abbrev int_add : ℤ → ℤ → ℤ
int_add (pos a) (pos b) = pos (a + b)
int_add (pos a) (negsuc b) = difference a (suc b)
int_add (negsuc a) (pos b) = difference b (suc a)
int_add (negsuc a) (negsuc b) = negsuc (suc (a + b))

-- An int; a bool is one of them.
abbrev as_int : Value → Option ℤ
as_int (int n) = some n
as_int (bool true) = some (pos 1)
as_int (bool false) = some (pos 0)
as_int _ = none

abbrev sum_of : Option ℤ → Option ℤ → Result Double → Result Double
sum_of (some a) (some b) floats = ok (of_int (int_add a b))
sum_of _ _ floats = floats

-- `+`, of two numbers.
abbrev pub sum : (Value → Value → Result Double) → Value → Value → Result Double
sum float_add v w = sum_of (as_int v) (as_int w) (float_add v w)

-- `<`, of m / 2^e and n / 2^f with their signs.
abbrev less_finite : Bool → ℕ → ℕ → Bool → ℕ → ℕ → Bool
less_finite false m e false n f = ltb (m * 2 ^ f) (n * 2 ^ e)
less_finite true m e true n f = ltb (n * 2 ^ e) (m * 2 ^ f)
less_finite true m e false n f = not (m == 0 && n == 0)
less_finite false m e true n f = false

-- `<`; a NaN is less than nothing, and nothing is less than it.
abbrev pub less : Double → Double → Bool
less (finite s m e) (finite t n f) = less_finite s m e t n f
less (finite s m e) (infinity t) = not t
less (infinity s) (finite t n f) = s
less (infinity s) (infinity t) = s && not t
less _ _ = false

-- `==`
abbrev pub same_number : Double → Double → Bool
same_number a b = value_eq (real a) (real b)

less_finite_asym :
    (s : Bool) (m e : ℕ) (t : Bool) (n f : ℕ)
    → less_finite s m e t n f ≡ true
    → less_finite t n f s m e ≡ false
less_finite_asym false m e false n f h = by_order (m * 2 ^ f) (n * 2 ^ e) h
  where
    by_order : (a b : ℕ) → ltb a b ≡ true → ltb b a ≡ false
    by_order a b h = ground arith
less_finite_asym true m e true n f h = by_order (n * 2 ^ e) (m * 2 ^ f) h
  where
    by_order : (a b : ℕ) → ltb a b ≡ true → ltb b a ≡ false
    by_order a b h = ground arith
less_finite_asym true m e false n f h = refl
less_finite_asym false m e true n f h = cc

-- Of two numbers at most one is less than the other.
pub less_asym : (a b : Double) → less a b ≡ true → less b a ≡ false
less_asym (finite s m e) (finite t n f) h = less_finite_asym s m e t n f h
less_asym (finite s m e) (infinity false) h = refl
less_asym (finite s m e) (infinity true) h = cc
less_asym (infinity true) (finite t n f) h = refl
less_asym (infinity false) (finite t n f) h = cc
less_asym (infinity true) (infinity false) h = refl
less_asym (infinity true) (infinity true) h = cc
less_asym (infinity false) (infinity t) h = cc
less_asym (finite s m e) not_a_number h = cc
less_asym (infinity s) not_a_number h = cc
less_asym not_a_number b h = cc

same_sign :
    (a b m : ℕ)
    → ltb b a ≡ false
    → (a == b && (if m == 0 then true else true)) ≡ false
    → ltb a b ≡ true
same_sign a b m h d = ground arith

same_sign_below :
    (a b m : ℕ)
    → ltb a b ≡ false
    → (a == b && (if m == 0 then true else true)) ≡ false
    → ltb b a ≡ true
same_sign_below a b m h d = ground arith

not_both_zero :
    (m n x y : ℕ)
    → (m * x == n * y && (if m == 0 then true else false)) ≡ false
    → not (m == 0 && n == 0) ≡ true
not_both_zero zero zero x y h = ground arith
not_both_zero zero (suc n) x y h = ground arith
not_both_zero (suc m) n x y h = ground arith

-- Two numbers, neither of which is less, are equal, but for a NaN.
pub less_total :
    (a b : Double)
    → same_number a a ≡ true
    → same_number b b ≡ true
    → less b a ≡ false
    → same_number a b ≡ false
    → less a b ≡ true
unfolding value_eq
less_total (finite false m e) (finite false n f) ha hb h d = same_sign (m * 2 ^ f) (n * 2 ^ e) m h d
less_total (finite true m e) (finite true n f) ha hb h d =
    same_sign_below (m * 2 ^ f) (n * 2 ^ e) m h d
less_total (finite true m e) (finite false n f) ha hb h d = not_both_zero m n (2 ^ f) (2 ^ e) d
less_total (finite false m e) (finite true n f) ha hb h d =
    (let some_there = not_both_zero m n (2 ^ f) (2 ^ e) d in ground arith)
less_total (finite s m e) (infinity false) ha hb h d = refl
less_total (finite s m e) (infinity true) ha hb h d = cc
less_total (infinity true) (finite t n f) ha hb h d = refl
less_total (infinity false) (finite t n f) ha hb h d = cc
less_total (infinity true) (infinity false) ha hb h d = refl
less_total (infinity true) (infinity true) ha hb h d = cc
less_total (infinity false) (infinity false) ha hb h d = cc
less_total (infinity false) (infinity true) ha hb h d = cc
less_total not_a_number b ha hb h d = cc
less_total a not_a_number ha hb h d = cc
