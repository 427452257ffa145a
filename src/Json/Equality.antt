-- ===== src/Json/Equality.antt =====
-- `==` on JSON values as Python has it: True is 1, a float is compared by its value, and the order of a
-- dict's keys does not matter.
use otelcol_genai_sketches.Base.{
  ◌≡◌, ap, sym, eq_iff, ℕ, suc, ◌*◌, ◌^◌, String, Bool, true, false, ◌&&◌, not, ◌==◌, str_eq,
  if◌then◌else◌, Option, none, some,
}
use otelcol_genai_sketches.Json.{
  Value, null, bool, int, real, str, arr, dict, Items, nil, cons, Fields, end, field, pos, negsuc,
  Double, finite, infinity, not_a_number, get, has,
}

-- A number as its sign and two naturals m, e with the value m / 2^e, where it is finite.
abbrev as_number : Value → Option (Bool × ℕ × ℕ)
as_number (bool true) = some (false, 1, 0)
as_number (bool false) = some (false, 0, 0)
as_number (int (pos n)) = some (false, n, 0)
as_number (int (negsuc n)) = some (true, suc n, 0)
as_number (real (finite negative m e)) = some (negative, m, e)
as_number _ = none

abbrev same_flag : Bool → Bool → Bool
same_flag true b = b
same_flag false b = not b

abbrev same_number : Option (Bool × ℕ × ℕ) → Option (Bool × ℕ × ℕ) → Bool
same_number (some (s, m, e)) (some (t, n, f)) =
    (m * 2 ^ f) == (n * 2 ^ e) && (if m == 0 then true else same_flag s t)
same_number _ _ = false

-- Infinities are equal by their sign; a NaN equals nothing.
abbrev same_real : Double → Value → Bool
same_real (finite s m e) v = same_number (some (s, m, e)) (as_number v)
same_real (infinity s) v = elim v [ real (infinity t) ↦ same_flag s t | _ ↦ false ]
same_real not_a_number v = false

abbrev pub size_of : Fields → ℕ
size_of end = 0
size_of (field k v fs) = suc (size_of fs)

abbrev pub is_text_of : String → Value → Bool
is_text_of s (str t) = str_eq s t
is_text_of s _ = false

unfoldable mutual
  pub value_eq : Value → Value → Bool
  value_eq null w = elim w [ null ↦ true | _ ↦ false ]
  value_eq (bool b) w = same_number (as_number (bool b)) (as_number w)
  value_eq (int n) w = same_number (as_number (int n)) (as_number w)
  value_eq (real x) w = same_real x w
  value_eq (str s) w = is_text_of s w
  value_eq (arr vs) (arr ws) = items_eq vs ws
  value_eq (arr vs) w = false
  value_eq (dict fs) (dict gs) = size_of fs == size_of gs && all_in fs gs
  value_eq (dict fs) w = false

  pub items_eq : Items → Items → Bool
  items_eq nil nil = true
  items_eq nil (cons w ws) = false
  items_eq (cons v vs) nil = false
  items_eq (cons v vs) (cons w ws) = value_eq v w && items_eq vs ws

  -- Each field stands in the other dict with an equal value.
  pub all_in : Fields → Fields → Bool
  all_in end gs = true
  all_in (field k v fs) gs = (has k gs && value_eq v (get k gs)) && all_in fs gs

pub is_text_of_str : (s : String) (v : Value) → is_text_of s v ≡ true → v ≡ str s
is_text_of_str s (str t) h = ap str (sym ((eq_iff s t).0 h))
is_text_of_str s null h = cc
is_text_of_str s (bool b) h = cc
is_text_of_str s (int n) h = cc
is_text_of_str s (real r) h = cc
is_text_of_str s (arr vs) h = cc
is_text_of_str s (dict fs) h = cc
