-- ===== src/Json.antt =====
-- JSON values as Python's `json.loads` returns them, and the dict operations that the programs use.
-- A dict keeps insertion order and `put` replaces in place, as Python does.
pub mod Laws
pub mod Equality
use otelcol_genai_sketches.Base.Errors.{Result, ok, err, type_error}
use Prim.Native.Char.{code}
use otelcol_genai_sketches.Base.{
  ℕ, zero, suc, ◌+◌, ◌*◌, ◌^◌, String, Bool, true, false, List, [], ◌∷◌, ◌||◌, ◌&&◌, not, ltb, leb,
  ◌==◌, str_eq, if◌then◌else◌,
}
use otelcol_genai_sketches.Base.Errors.{Result, ok, err, type_error, attribute_error}

-- A Python int: `negsuc n` is -(n + 1).
pub data ℤ : Type 0 where
  pos : ℕ → ℤ
  negsuc : ℕ → ℤ

-- A Python float. Every finite double is ±m / 2^e; the flag is the sign bit.
pub data Double : Type 0 where
  finite : Bool → ℕ → ℕ → Double
  infinity : Bool → Double
  not_a_number : Double

mutual
  pub data Value : Type 0 where
    null : Value
    bool : Bool → Value
    int : ℤ → Value
    real : Double → Value
    str : String → Value
    arr : Items → Value
    dict : Fields → Value

  pub data Items : Type 0 where
    nil : Items
    cons : Value → Items → Items

  pub data Fields : Type 0 where
    end : Fields
    field : String → Value → Fields → Fields

-- `{}` and `{k: v, **d}` in the order written.
abbrev pub nat : ℕ → Value
nat n = int (pos n)

-- `d.get(k, default)`
abbrev pub get_or : String → Value → Fields → Value
get_or k d end = d
get_or k d (field j v fs) = if str_eq k j then v else get_or k d fs

-- `d.get(k)`
abbrev pub get : String → Fields → Value
get k fs = get_or k null fs

-- `k in d`
abbrev pub has : String → Fields → Bool
has k end = false
has k (field j v fs) = str_eq k j || has k fs

-- `d[k] = v`
abbrev pub put : String → Value → Fields → Fields
put k v end = field k v end
put k v (field j w fs) = if str_eq k j then field j v fs else field j w (put k v fs)

-- `{**d, **e}`, and `d.update(e)`
abbrev pub update : Fields → Fields → Fields
update d end = d
update d (field k v fs) = update (put k v d) fs

-- `d.pop(k, None)`
abbrev pub pop : String → Fields → Fields
pop k end = end
pop k (field j v fs) = if str_eq k j then fs else field j v (pop k fs)

abbrev pub items : Items → List Value
items nil = []
items (cons v vs) = v ∷ items vs

abbrev pub keys : Fields → List String
keys end = []
keys (field k v fs) = k ∷ keys fs

abbrev pub is_dict : Value → Bool
is_dict (dict fs) = true
is_dict _ = false

abbrev pub is_null : Value → Bool
is_null null = true
is_null _ = false

abbrev pub is_str : Value → Bool
is_str (str s) = true
is_str _ = false

-- `v == "…"`
abbrev pub is_text : String → Value → Bool
is_text s (str t) = str_eq t s
is_text s _ = false

-- `v is True`
abbrev pub is_true : Value → Bool
is_true (bool b) = b
is_true _ = false

-- `v == n` for a number: Python's True is 1, and a float is compared by its value.
abbrev pub num_eq : ℕ → Value → Bool
num_eq n (int (pos m)) = m == n
num_eq n (bool true) = n == 1
num_eq n (bool false) = n == 0
num_eq n (real (finite negative m e)) = m == n * 2 ^ e && (not negative || m == 0)
num_eq n _ = false

-- A dict and a list as the source writes them.
abbrev pub fields : List (String × Value) → Fields
fields [] = end
fields ((k, v) ∷ kvs) = field k v (fields kvs)

abbrev pub object : List (String × Value) → Value
object kvs = dict (fields kvs)

abbrev pub items_of : List Value → Items
items_of [] = nil
items_of (v ∷ vs) = cons v (items_of vs)

abbrev pub array : List Value → Value
array vs = arr (items_of vs)

-- The characters of a text, each a text.
abbrev pub chars : String → List Value
chars String.[] = []
chars (String.◌∷◌ c s) = str (String.◌∷◌ c String.[]) ∷ chars s

abbrev pub texts : List String → List Value
texts [] = []
texts (s ∷ ss) = str s ∷ texts ss

-- `for x in value`
abbrev pub iterate : Value → Result (List Value)
iterate (arr xs) = ok (items xs)
iterate (str s) = ok (chars s)
iterate (dict fs) = ok (texts (keys fs))
iterate _ = err type_error

-- `str.isspace` of one character, by its code point.
abbrev pub is_space : ℕ → Bool
is_space c =
    leb 9 c && leb c 13
    || leb 28 c && leb c 32
    || c == 133
    || c == 160
    || c == 5760
    || leb 8192 c && leb c 8202
    || c == 8232
    || c == 8233
    || c == 8239
    || c == 8287
    || c == 12288

-- `not s.strip()`
abbrev pub is_blank : String → Bool
is_blank String.[] = true
is_blank (String.◌∷◌ c s) = is_space (code c) && is_blank s

-- `bool(v)`
abbrev pub truthy : Value → Bool
truthy null = false
truthy (bool b) = b
truthy (int (pos n)) = not (n == 0)
truthy (int (negsuc n)) = true
truthy (real (finite negative m e)) = not (m == 0)
truthy (real _) = true
truthy (str s) = not (str_eq s "")
truthy (arr nil) = false
truthy (arr (cons v vs)) = true
truthy (dict end) = false
truthy (dict (field k v fs)) = true
