-- ===== src/Json/Laws.antt =====
-- Lookups after each dict operation.
use otelcol_genai_sketches.Base.{
  String, eq_iff, ap, true, ◌≡◌, refl, false, ◌||◌, arith, str_eq, if◌then◌else◌,
}
use otelcol_genai_sketches.Json.{
  Value, null, bool, int, real, str, arr, dict, is_text, Fields, end, field, get_or, has, put,
  update, pop,
}

-- A dict's keys are distinct.
abbrev pub IsDict : Fields → Type 0
IsDict end = Unit {0}
IsDict (field k v fs) = (has k fs ≡ false) × IsDict fs

pub get-put :
    (k j : String) (d v : Value) (fs : Fields)
    → get_or j d (put k v fs) ≡ (if str_eq j k then v else get_or j d fs)
get-put k j d v end = refl
get-put k j d v (field i w fs) =
    ground (arith, eq_iff k i, eq_iff j i, eq_iff j k, get-put k j d v fs)

pub has-put :
    (k j : String) (v : Value) (fs : Fields) → has j (put k v fs) ≡ (str_eq j k || has j fs)
has-put k j v end = refl
has-put k j v (field i w fs) = ground (arith, eq_iff k i, eq_iff j i, eq_iff j k, has-put k j v fs)

-- The right operand of an update wins, key by key.
pub get-update :
    (j : String) (d : Value) (a b : Fields)
    → IsDict b
    → get_or j d (update a b) ≡ (if has j b then get_or j d b else get_or j d a)
get-update j d a end h = refl
get-update j d a (field k v fs) h =
    ground (arith, eq_iff j k, get-update j d (put k v a) fs h.1, get-put k j d v a)

pub has-update : (j : String) (a b : Fields) → has j (update a b) ≡ (has j b || has j a)
has-update j a end = refl
has-update j a (field k v fs) = ground (arith, has-update j (put k v a) fs, has-put k j v a)

pub put-IsDict : (k : String) (v : Value) (fs : Fields) → IsDict fs → IsDict (put k v fs)
put-IsDict k v end h = (refl, tt)
put-IsDict k v (field i w fs) h =
    ground (arith, put-IsDict k v fs h.1, has-put k i v fs, eq_iff k i, eq_iff i k)

pub update-IsDict : (a b : Fields) → IsDict a → IsDict (update a b)
update-IsDict a end h = h
update-IsDict a (field k v fs) h = update-IsDict (put k v a) fs (put-IsDict k v a h)

pub get-missing : (k : String) (d : Value) (fs : Fields) → has k fs ≡ false → get_or k d fs ≡ d
get-missing k d end h = refl
get-missing k d (field i w fs) h = ground (arith, get-missing k d fs)

pub has-pop :
    (k j : String) (fs : Fields)
    → IsDict fs
    → has j (pop k fs) ≡ (if str_eq j k then false else has j fs)
has-pop k j end h = ground arith
has-pop k j (field i w fs) h =
    ground (arith, eq_iff k i, eq_iff j i, eq_iff j k, has-pop k j fs h.1)

pub get-pop :
    (k j : String) (d : Value) (fs : Fields)
    → IsDict fs
    → get_or j d (pop k fs) ≡ (if str_eq j k then d else get_or j d fs)
get-pop k j d end h = ground arith
get-pop k j d (field i w fs) h =
    ground (arith, eq_iff k i, eq_iff j i, eq_iff j k, get-pop k j d fs h.1, get-missing j d fs)

pub pop-IsDict : (k : String) (fs : Fields) → IsDict fs → IsDict (pop k fs)
pop-IsDict k end h = tt
pop-IsDict k (field i w fs) h =
    ground (arith, eq_iff k i, eq_iff i k, has-pop k i fs h.1, pop-IsDict k fs h.1)

pub is_text_str : (s : String) (v : Value) → is_text s v ≡ true → v ≡ str s
is_text_str s (str t) h = ap str ((eq_iff t s).0 h)
is_text_str s null h = cc
is_text_str s (bool b) h = cc
is_text_str s (int n) h = cc
is_text_str s (real r) h = cc
is_text_str s (arr vs) h = cc
is_text_str s (dict fs) h = cc
