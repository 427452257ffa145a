-- ===== src/Trial/Validate/Bounded.antt =====
-- examples/integrations/litellm/provider-trial/relay.py: what `validate` lets through.
use otelcol_genai_sketches.Base.{
  ℕ, ◌≤◌, Bool, true, false, List, [], ◌∷◌, not, ◌≡◌, refl, and_both, leb, leb→le, if◌then◌else◌,
}
use otelcol_genai_sketches.Base.Errors.{Result, ok, err, raise_if, value_error, type_error}
use otelcol_genai_sketches.Base.Errors.Laws.{raise_if-passed, >>-ok}
use otelcol_genai_sketches.Json.{
  Value, null, bool, int, real, pos, negsuc, str, arr, dict, Fields, end, Items, nat, get, get_or,
  items, nil, is_text, num_eq,
}
use otelcol_genai_sketches.Json.Laws.{is_text_str}
use otelcol_genai_sketches.Trial.{model_name, max_output_tokens}
use otelcol_genai_sketches.Trial.Validate.{
  validate, in_range, check_function, check_tool, check_tools, check_tool_list, has_bounds,
  has_allowed_keys, unhashable,
}

-- The tool is the inert one.
abbrev pub IsInert : Value → Type 0
IsInert v =
    (tool : Fields) × (f : Fields) × (v ≡ dict tool)
    × (get "type" tool ≡ str "function")
    × (get_or "function" (dict end) tool ≡ dict f)
    × (get "name" f ≡ str "lookup_number")

abbrev pub AllInert : List Value → Type 0
AllInert [] = Unit {0}
AllInert (v ∷ vs) = IsInert v × AllInert vs

-- The body asks for the model, for between one and the limit of output tokens, and for no tool but the
-- inert one, in the allowed fields.
abbrev pub IsBounded : Fields → Type 0
IsBounded body =
    (n : ℕ) × (get "max_completion_tokens" body ≡ nat n)
    × (1 ≤ n)
    × (n ≤ max_output_tokens)
    × (get "model" body ≡ str model_name)
    × (has_allowed_keys body ≡ true)
    × (tools : Items) × (get_or "tools" (arr nil) body ≡ arr tools)
    × AllInert (items tools)

in_range-nat : (n : ℕ) (v : Value) → in_range n v ≡ true → (m : ℕ) × (v ≡ nat m) × (1 ≤ m) × (m ≤ n)
in_range-nat n (int (pos m)) h =
    let (low, high) = and_both (leb 1 m) (leb m n) h in (m, refl, leb→le 1 m low, leb→le m n high)
in_range-nat n (int (negsuc m)) h = cc
in_range-nat n null h = cc
in_range-nat n (bool b) h = cc
in_range-nat n (real r) h = cc
in_range-nat n (arr vs) h = cc
in_range-nat n (str s) h = cc
in_range-nat n (dict fs) h = cc

check_function-dict :
    (v : Value)
    → check_function v ≡ ok tt
    → (f : Fields) × (v ≡ dict f) × (get "name" f ≡ str "lookup_number")
check_function-dict (dict f) h =
    (f, refl, is_text_str "lookup_number" (get "name" f) (raise_if-passed _ value_error h))
check_function-dict null h = cc
check_function-dict (bool b) h = cc
check_function-dict (int n) h = cc
check_function-dict (real r) h = cc
check_function-dict (arr vs) h = cc
check_function-dict (str s) h = cc

if_ok :
    (b : Bool) (r : Result (Unit {0}))
    → (if b then r else err value_error) ≡ ok tt
    → (b ≡ true) × (r ≡ ok tt)
if_ok true r h = (refl, h)
if_ok false r h = cc

check_tool-IsInert : (v : Value) → check_tool v ≡ ok tt → IsInert v
check_tool-IsInert (dict tool) h =
    let (kind, checked) =
      if_ok (is_text "function" (get "type" tool))
        (check_function (get_or "function" (dict end) tool)) h in
    let (f, same, name) = check_function-dict (get_or "function" (dict end) tool) checked in
    (tool, f, refl, is_text_str "function" (get "type" tool) kind, same, name)
check_tool-IsInert null h = cc
check_tool-IsInert (bool b) h = cc
check_tool-IsInert (int n) h = cc
check_tool-IsInert (real r) h = cc
check_tool-IsInert (arr vs) h = cc
check_tool-IsInert (str s) h = cc

check_tools-AllInert : (vs : List Value) → check_tools vs ≡ ok tt → AllInert vs
check_tools-AllInert [] h = tt
check_tools-AllInert (v ∷ vs) h =
    let (first, rest) = >>-ok (check_tool v) (check_tools vs) tt h in
    (check_tool-IsInert v first, check_tools-AllInert vs rest)

check_tool_list-AllInert :
    (v : Value)
    → check_tool_list v ≡ ok tt
    → (tools : Items) × (v ≡ arr tools) × AllInert (items tools)
check_tool_list-AllInert (arr tools) h = (tools, refl, check_tools-AllInert (items tools) h)
check_tool_list-AllInert null h = cc
check_tool_list-AllInert (bool b) h = cc
check_tool_list-AllInert (int n) h = cc
check_tool_list-AllInert (real r) h = cc
check_tool_list-AllInert (str s) h = cc
check_tool_list-AllInert (dict fs) h = cc

has_bounds-parts :
    (body : Fields)
    → has_bounds body ≡ true
    → (is_text model_name (get "model" body) ≡ true)
      × (in_range max_output_tokens (get "max_completion_tokens" body) ≡ true)
has_bounds-parts body h =
    let (model, rest) = and_both (is_text model_name (get "model" body)) _ h in
    let (once, rest') = and_both (num_eq 1 (get_or "n" (nat 1) body)) _ rest in
    (model, (and_both (in_range max_output_tokens (get "max_completion_tokens" body)) _ rest').0)

-- A body that passes the check is bounded.
pub validate-IsBounded : (body : Fields) → validate (dict body) ≡ ok tt → IsBounded body
unfolding validate
validate-IsBounded body h =
    let (allowed, typed) = >>-ok (raise_if (not (has_allowed_keys body)) value_error) _ tt h in
    let (hashed, bounds) = >>-ok (raise_if (unhashable (get "model" body)) type_error) _ tt typed in
    let (bounded, checked) =
      >>-ok (raise_if (not (has_bounds body)) value_error)
        (check_tool_list (get_or "tools" (arr nil) body)) tt bounds in
    let (model, limit) =
      has_bounds-parts body (raise_if-passed (has_bounds body) value_error bounded) in
    let (n, same, low, high) =
      in_range-nat max_output_tokens (get "max_completion_tokens" body) limit in
    let (tools, listed, inert) = check_tool_list-AllInert (get_or "tools" (arr nil) body) checked in
    (
      n,
      same,
      low,
      high,
      is_text_str model_name (get "model" body) model,
      raise_if-passed (has_allowed_keys body) value_error allowed,
      tools,
      listed,
      inert,
    )
