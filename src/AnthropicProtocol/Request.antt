-- ===== src/AnthropicProtocol/Request.antt =====
-- examples/gateway-accounting/anthropic_protocol.py: `cache_prefix` and `request_body`,
-- the fixed study request.
pub mod Check
pub mod Said
pub mod Fixed
pub mod Accepts
use Prim.Native.Char.{code}
use Prim.Native.String.{◌++◌ as concat}
use otelcol_genai_sketches.Base.{
  ℕ, zero, suc, ◌+◌, ◌-◌, ◌*◌, ◌/◌, ◌%◌, String, Bool, true, false, List, [], ◌∷◌, ◌++◌, ◌||◌, ◌&&◌,
  not, if◌then◌else◌, Option, none, some, ◌==◌, leb, ltb, length, str_eq, one_of, any, all, map,
}
use otelcol_genai_sketches.Base.Errors.{Result, ok, err, value_error, raise_if, ◌>>=◌, ◌>>◌}
use otelcol_genai_sketches.Json.{
  Value, null, bool, int, pos, str, dict, arr, Fields, end, field, Items, nil, cons, nat, fields,
  object, array, items, keys, has, get, get_or, is_text, chars,
}
use otelcol_genai_sketches.Analyze.Counts.{Protocol, openai, anthropic}
use otelcol_genai_sketches.AnthropicProtocol.{model_name, max_output}

-- `PROMPT`
abbrev pub prompt : String
prompt = "Write the numbers from 1 through 200, one number per line. No other text."

-- `LIVE_CASES`
abbrev pub live_cases : List String
live_cases =
    "complete" ∷ "stream_standard" ∷ "stream_complete" ∷ "stream_cut" ∷ "client_disconnect"
    ∷ "missing" ∷ "stream_missing" ∷ "retry429" ∷ "cache_write" ∷ "cache_read" ∷ []

-- `[a-f0-9]`
abbrev is_hex : ℕ → Bool
is_hex c = leb 97 c && leb c 102 || leb 48 c && leb c 57

abbrev all_hex : String → Bool
all_hex String.[] = true
all_hex (String.◌∷◌ c s) = is_hex (code c) && all_hex s

-- `re.fullmatch(r"[a-f0-9]{32}", nonce)`, of a text.
abbrev pub is_nonce : Value → Bool
is_nonce (str s) = length (chars s) == 32 && all_hex s
is_nonce _ = false

abbrev text_at : ℕ → List String → String
text_at n [] = ""
text_at zero (s ∷ ss) = s
text_at (suc n) (s ∷ ss) = text_at n ss

abbrev digit : ℕ → String
digit n = text_at n ("0" ∷ "1" ∷ "2" ∷ "3" ∷ "4" ∷ "5" ∷ "6" ∷ "7" ∷ "8" ∷ "9" ∷ [])

-- `{i:04d}`, of a number below 10000.
abbrev pub four_digits : ℕ → String
four_digits i =
    concat (digit (i / 1000 % 10))
      (concat (digit (i / 100 % 10)) (concat (digit (i / 10 % 10)) (digit (i % 10))))

abbrev record_line : ℕ → String
record_line i = concat "Record " (concat (four_digits i) ": violet harbor rectangle copper meadow.")

-- The joined lines of the `n` records from the `i`th on.
unfoldable pub record_lines : ℕ → ℕ → String
record_lines i zero = ""
record_lines i (suc zero) = record_line i
record_lines i (suc (suc n)) = concat (record_line i) (concat "\n" (record_lines (suc i) (suc n)))

unfoldable pub cache_prefix : Value → Result String
unfolding record_lines
cache_prefix (str s) =
    if is_nonce (str s)
    then ok (concat "Synthetic cache study " (concat s (concat ".\n" (record_lines 0 800))))
    else err value_error
cache_prefix _ = err value_error

-- `case in ("cache_write", "cache_read")`
abbrev pub is_cache_case : String → Bool
is_cache_case case = one_of case ("cache_write" ∷ "cache_read" ∷ [])

-- `case.startswith("stream_") or case == "client_disconnect"`; of the live cases, which are the only
-- ones that get here.
abbrev pub streams : String → Bool
streams case = one_of case (
    "stream_standard" ∷ "stream_complete" ∷ "stream_cut" ∷ "stream_missing" ∷ "client_disconnect"
    ∷ [])

abbrev pub text_block : String → Value
text_block s = object (("type", str "text") ∷ ("text", str s) ∷ [])

abbrev pub cache_block : String → Value
cache_block s = object (
    ("type", str "text")
    ∷ ("text", str s)
    ∷ ("cache_control", object (("type", str "ephemeral") ∷ []))
    ∷ [])

abbrev pub cache_content : Result String → Result Value
cache_content (err e) = err e
cache_content (ok prefix) = ok (array (cache_block prefix ∷ text_block "Reply only OK." ∷ []))

unfoldable pub content_of : String → Value → Result Value
unfolding cache_prefix
content_of case nonce =
    if is_cache_case case then cache_content (cache_prefix nonce) else ok (str prompt)

abbrev pub stream_options : Protocol → Bool → List (String × Value)
stream_options openai true = ("stream_options", object (("include_usage", bool true) ∷ [])) ∷ []
stream_options _ _ = []

abbrev pub body_of : Value → String → Protocol → Value → Fields
body_of model case client_protocol content = fields (
    ("model", model)
    ∷ ("max_tokens", nat max_output)
    ∷ ("messages", array (object (("role", str "user") ∷ ("content", content) ∷ []) ∷ []))
    ∷ ("stream", bool (streams case))
    ∷ stream_options client_protocol (streams case))

unfoldable pub request_body : Value → String → Protocol → Value → Result Fields
unfolding content_of
request_body model case client_protocol cache_nonce =
    raise_if (not (one_of case live_cases)) value_error
    >> (content_of case cache_nonce >>= λ content. ok (body_of model case client_protocol content))
