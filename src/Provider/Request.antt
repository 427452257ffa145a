-- ===== src/Provider/Request.antt =====
-- examples/gateway-accounting/provider.py: what `Handler.do_POST` checks before it answers: the
-- request's framing, its route and its fields.
use Prim.Native.Char.{code}
use otelcol_genai_sketches.Base.{
  ℕ, suc, zero, ◌+◌, ◌-◌, ◌*◌, String, Bool, true, false, List, [], ◌∷◌, ◌||◌, ◌&&◌, if◌then◌else◌,
  Option, none, some, leb, ltb, length, str_eq, one_of,
}
use otelcol_genai_sketches.Json.{Value, null, bool, str, dict, Fields, object, get, get_or, chars}
use otelcol_genai_sketches.Analyze.Counts.{Protocol, openai, anthropic, protocol_name, obj}
use otelcol_genai_sketches.Provider.{
  Case, complete, stream_complete, stream_cut, client_disconnect, missing, stream_missing, retry429,
  zero_usage, partial_input, partial_output, cache_only, stream_standard, is_deferred,
}

pub record Server : Type 0 where
  pub case : Case
  pub attempts : ℕ
  pub rows : List Fields

pub data Reply : Type 0 where
  reply : ℕ → Value → Reply
  streamed : Bool → Reply
  dropped : Reply

pub record Request : Type 0 where
  pub path : String
  pub transfer_encoding : Bool
  pub lengths : List String
  pub received : ℕ
  pub body : Option Value
  pub accepts : Option ℕ

abbrev pub empty_reply : ℕ → Reply
empty_reply status = reply status (object [])

abbrev pub profile : Protocol → Bool → Case → String
profile anthropic true case =
    if is_deferred case then "anthropic_compatible_deferred" else "anthropic_standard"
profile protocol _ case = protocol_name protocol

abbrev pub is_retry : Case → Bool
is_retry retry429 = true
is_retry _ = false

abbrev pub rate_limited : Protocol → Value
rate_limited anthropic = object (
    ("error", object (("type", str "rate_limit_error") ∷ ("message", str "synthetic retry") ∷ []))
    ∷ ("type", str "error")
    ∷ ("request_id", str "req-study")
    ∷ [])
rate_limited openai = object (
    (
      "error",
      object (
          ("type", str "rate_limit_error")
          ∷ ("message", str "synthetic retry")
          ∷ ("code", str "rate_limit_exceeded")
          ∷ ("param", null)
          ∷ []),
    )
    ∷ [])

-- The checked fields of a completion request.
abbrev pub checked : Value → Value → Value → Value → Option (String × Bool × Bool)
checked (str model) (bool stream) (dict options) (bool include_usage) =
    if ltb 0 (length (chars model)) && leb (length (chars model)) 256
    then some (model, stream, include_usage)
    else none
checked _ _ _ _ = none

abbrev pub options_of : Value → Value
options_of null = object []
options_of v = v

unfoldable pub check_request : Fields → Option (String × Bool × Bool)
check_request body =
    let options = options_of (get "stream_options" body) in
    checked (get_or "model" (str "study-model") body) (get_or "stream" (bool false) body) options
      (get_or "include_usage" (bool false) (obj options))

-- `protocol` of a completion path, `none` where the path is unknown.
abbrev pub path_protocol : String → Option Protocol
path_protocol path =
    if one_of path ("/messages" ∷ "/v1/messages" ∷ [])
    then some anthropic
    else if one_of path ("/chat/completions" ∷ "/v1/chat/completions" ∷ [])
    then some openai
    else none

abbrev pub case_of : String → Option Case
case_of name =
    if str_eq name "complete"
    then some complete
    else if str_eq name "stream_complete"
    then some stream_complete
    else if str_eq name "stream_cut"
    then some stream_cut
    else if str_eq name "client_disconnect"
    then some client_disconnect
    else if str_eq name "missing"
    then some missing
    else if str_eq name "stream_missing"
    then some stream_missing
    else if str_eq name "retry429"
    then some retry429
    else if str_eq name "zero"
    then some zero_usage
    else if str_eq name "partial_input"
    then some partial_input
    else if str_eq name "partial_output"
    then some partial_output
    else if str_eq name "cache_only"
    then some cache_only
    else if str_eq name "stream_standard"
    then some stream_standard
    else none

abbrev pub select_case : Option Case → Server → Server × Reply
select_case none s = (s, empty_reply 400)
select_case (some c) s = (record s { case = c; attempts = 0 }, empty_reply 200)

-- `/control`: the next case, with its attempts counted from zero.
unfoldable pub control : Server → Fields → Server × Reply
control s body = elim (get "case" body) [
  | str name ↦ select_case (case_of name) s
  | _ ↦ (s, empty_reply 400)
]

-- `isascii() and isdecimal()`, then `int`, which refuses more than 4300 digits.
abbrev pub digits_from : ℕ → String → Option ℕ
digits_from n String.[] = some n
digits_from n (String.◌∷◌ c s) =
    let rest = digits_from (n * 10 + (code c - 48)) s in
    if leb 48 (code c) && leb (code c) 57 then rest else none

abbrev pub size_of : List String → Option ℕ
size_of (text ∷ []) =
    if str_eq text "" || ltb 4300 (length (chars text)) then none else digits_from 0 text
size_of _ = none

-- The writes that are left to a peer after one more; `none` if this one fails.
abbrev pub take_write : Option ℕ → Option (Option ℕ)
take_write none = some none
take_write (some zero) = none
take_write (some (suc n)) = some (some n)
