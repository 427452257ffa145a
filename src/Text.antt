-- ===== src/Text.antt =====
-- The regular expressions that deploy/kubernetes/summary-export/copy-windows.py and
-- examples/gateway-accounting/analyze.py match against texts.
use Prim.Native.Char.{code}
use otelcol_genai_sketches.Base.{
  ℕ, zero, suc, String, Bool, true, false, ◌||◌, ◌&&◌, leb, ◌==◌, if◌then◌else◌, Option, none, some,
}

-- `[0-9]`
abbrev pub is_digit : ℕ → Bool
is_digit c = leb 48 c && leb c 57

-- `[a-f0-9]`
abbrev pub is_hex : ℕ → Bool
is_hex c = leb 97 c && leb c 102 || is_digit c

-- What follows `n` characters of a kind.
abbrev pub eat : (ℕ → Bool) → ℕ → String → Option String
eat p zero s = some s
eat p (suc n) String.[] = none
eat p (suc n) (String.◌∷◌ c s) = let rest = eat p n s in if p (code c) then rest else none

-- What follows a prefix.
abbrev pub after_prefix : String → String → Option String
after_prefix String.[] s = some s
after_prefix (String.◌∷◌ a p) String.[] = none
after_prefix (String.◌∷◌ a p) (String.◌∷◌ c s) =
    let rest = after_prefix p s in if code a == code c then rest else none

-- All characters of a text, no more than a number of them, are of a kind.
abbrev pub all_within : (ℕ → Bool) → ℕ → String → Bool
all_within p n String.[] = true
all_within p zero (String.◌∷◌ c s) = false
all_within p (suc n) (String.◌∷◌ c s) = p (code c) && all_within p n s

-- A text whose first character is of one kind, and the others, up to a number, of another.
abbrev pub is_word : (ℕ → Bool) → (ℕ → Bool) → ℕ → String → Bool
is_word p q n String.[] = false
is_word p q n (String.◌∷◌ c s) = p (code c) && all_within q n s
