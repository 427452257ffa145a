-- ===== src/LiveOpenai/Request.antt =====
-- examples/gateway-accounting/live.py: `checked_body`. A key that is no text can only come from a list of
-- pairs, and is no field that `validate` allows, so that the dict keeps no more than that there is one.
pub mod Fixed
use otelcol_genai_sketches.Base.{
  ℕ, String, Bool, true, false, List, [], ◌∷◌, ◌||◌, ◌&&◌, not, ltb, ◌==◌, length, if◌then◌else◌,
  str_eq, one_of,
}
use otelcol_genai_sketches.Base.Errors.{
  Result, ok, err, raise_if, value_error, type_error, ◌>>=◌, ◌>>◌,
}
use otelcol_genai_sketches.Json.{
  Value, null, bool, int, real, pos, str, arr, dict, Fields, end, field, get, get_or, has, put, pop,
  truthy, object, iterate, items,
}
use otelcol_genai_sketches.Json.Equality.{value_eq}
use otelcol_genai_sketches.Trial.Validate.{validate}

-- `LIVE_CASES`
abbrev pub live_cases : List String
live_cases =
    "complete" ∷ "stream_complete" ∷ "stream_cut" ∷ "client_disconnect" ∷ "missing"
    ∷ "stream_missing" ∷ "retry429" ∷ []

-- A dict, with whether it has a key that is no text.
abbrev pub Keyed : Type 0
Keyed = Bool × Fields

abbrev set_key : Value → Value → Keyed → Result Keyed
set_key (str k) v (odd, fs) = ok (odd, put k v fs)
set_key (arr vs) v keyed = err type_error
set_key (dict ks) v keyed = err type_error
set_key _ v (odd, fs) = ok (true, fs)

abbrev set_pair : List Value → Keyed → Result Keyed
set_pair (k ∷ v ∷ []) keyed = set_key k v keyed
set_pair _ keyed = err value_error

abbrev set_pairs : List Value → Keyed → Result Keyed
set_pairs [] keyed = ok keyed
set_pairs (element ∷ elements) keyed =
    iterate element >>= λ pair. set_pair pair keyed >>= set_pairs elements

-- `dict(value)`
abbrev pub dict_of : Value → Result Keyed
dict_of (dict fs) = ok (false, fs)
dict_of value = iterate value >>= λ elements. set_pairs elements (false, end)

-- `max_tokens` takes the place of `max_completion_tokens`.
abbrev pub rename_limit : Fields → Result Fields
rename_limit body =
    let renamed = put "max_completion_tokens" (get "max_tokens" body) (pop "max_tokens" body) in
    if has "max_tokens" body
    then (if has "max_completion_tokens" body
          && not (value_eq (get "max_tokens" body) (get "max_completion_tokens" body))
        then err value_error
        else ok renamed)
    else ok body

abbrev pub fixed_prompt : String
fixed_prompt = "Write the numbers from 1 through 200, one number per line. No other text."

abbrev pub fixed_message : Value
fixed_message = object (("role", str "user") ∷ ("content", str fixed_prompt) ∷ [])

-- The limit is an int, and the messages a list, where `validate` passed.
abbrev pub over_limit : Value → Bool
over_limit (int (pos n)) = ltb 512 n
over_limit _ = false

abbrev pub is_fixed : Value → Bool
is_fixed (arr messages) = elim (items messages) [ m ∷ [] ↦ value_eq fixed_message m | _ ↦ false ]
is_fixed _ = false

abbrev pub include_usage : Value
include_usage = object (("include_usage", bool true) ∷ [])

-- `body.update(…)`, and then the stream options.
abbrev pub updated : Fields → Fields
updated body = put "service_tier" (str "default") (put "store" (bool false) body)

abbrev pub settled : Fields → Fields
settled body =
    if truthy (get "stream" (updated body))
    then put "stream_options" include_usage (updated body)
    else updated body

abbrev pub check_study : Fields → Result Fields
check_study body =
    validate (dict body)
    >> (raise_if
          (over_limit (get "max_completion_tokens" body)
            || (not (is_fixed (get "messages" body)) || truthy (get "tools" body)))
          value_error
        >> ok (settled body))

-- After `dict(value)` and the renaming.
abbrev pub check_keyed : Keyed → Result Fields
check_keyed (odd, fs) = rename_limit fs >>= λ body. raise_if odd value_error >> check_study body

unfoldable pub checked_body : Value → Result Fields
unfolding validate value_eq
checked_body value = dict_of value >>= check_keyed
