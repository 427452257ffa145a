-- ===== src/Provider/Stream.antt =====
-- examples/gateway-accounting/provider.py: `stream_events`, for both protocols.
use otelcol_genai_sketches.Base.{
  ℕ, suc, zero, String, Bool, true, false, List, [], ◌∷◌, ◌++◌, ◌&&◌, if◌then◌else◌, Option, none,
  some, ◌==◌,
}
use otelcol_genai_sketches.Json.{
  Value, null, int, pos, str, dict, Fields, nat, object, array, fields, put, has, get, update, end,
}
use otelcol_genai_sketches.Analyze.Counts.{Protocol, openai, anthropic}
use otelcol_genai_sketches.Provider.{
  Case, stream_cut, client_disconnect, zero_usage, cache_only, is_deferred, drops_usage,
  native_usage, response_body,
}

-- An event name, where there is one, with the value sent.
abbrev pub Frame : Type 0
Frame = Option String × Value

abbrev pub repeat {ℓ} : {A : Type ℓ} → ℕ → A → List A
repeat zero a = []
repeat (suc n) a = a ∷ repeat n a

-- `count` of `stream_events`
abbrev delta_count : Case → ℕ
delta_count zero_usage = 0
delta_count cache_only = 0
delta_count client_disconnect = 40
delta_count _ = 3

abbrev chunk : String → Fields → Value → Fields
chunk model delta finish = fields (
    ("id", str "chatcmpl-study")
    ∷ ("object", str "chat.completion.chunk")
    ∷ ("created", nat 1791072000)
    ∷ ("model", str model)
    ∷ (
      "choices",
      array
          (object (("index", nat 0) ∷ ("delta", dict delta) ∷ ("finish_reason", finish) ∷ []) ∷ []),
    )
    ∷ ("usage", null)
    ∷ [])

abbrev is_cut : Case → Bool
is_cut stream_cut = true
is_cut _ = false

abbrev openai_tail : Case → String → List Frame
openai_tail case model =
    (none, dict (chunk model end (str "stop")))
    ∷ ((if drops_usage case
          then []
          else (
            none,
            dict (
                update (chunk model end null) (
                  fields
                    (("choices", array []) ∷ ("usage", dict (native_usage openai case)) ∷ []))),
          )
            ∷ [])
        ++ (none, str "[DONE]") ∷ [])

-- `min(1, n)`
abbrev min_one : Value → Value
min_one (int (pos n)) = if n == 0 then nat 0 else nat 1
min_one v = v

-- The `message` of `message_start`.
abbrev start_body : Case → String → Fields
start_body case model =
    let body =
      update (response_body anthropic case model)
        (fields (("content", array []) ∷ ("stop_reason", null) ∷ [])) in
    if is_deferred case
    then put "usage" (dict (native_usage anthropic zero_usage)) body
    else if has "usage" body && has "output_tokens" (native_usage anthropic case)
    then put "usage"
        (dict (
          put "output_tokens" (min_one (get "output_tokens" (native_usage anthropic case)))
            (native_usage anthropic case)))
        body
    else body

abbrev final_usage_of : Case → Fields
final_usage_of case =
    if is_deferred case
    then native_usage anthropic case
    else if has "output_tokens" (native_usage anthropic case)
    then fields (("output_tokens", get "output_tokens" (native_usage anthropic case)) ∷ [])
    else end

abbrev bare_delta : Fields
bare_delta = fields (
    ("type", str "message_delta")
    ∷ ("delta", object (("stop_reason", str "end_turn") ∷ ("stop_sequence", null) ∷ []))
    ∷ [])

abbrev message_delta : Case → Fields
message_delta case =
    if drops_usage case then bare_delta else put "usage" (dict (final_usage_of case)) bare_delta

abbrev anthropic_tail : Case → List Frame
anthropic_tail case =
    (some "content_block_stop", object (("type", str "content_block_stop") ∷ ("index", nat 0) ∷ []))
    ∷ (some "message_delta", dict (message_delta case))
    ∷ (some "message_stop", object (("type", str "message_stop") ∷ []))
    ∷ []

-- What the generator yields, in order.
unfoldable pub stream_events : Protocol → Case → String → List Frame
unfolding native_usage response_body
stream_events openai case model =
    (none, dict (chunk model (fields (("role", str "assistant") ∷ ("content", str "") ∷ [])) null))
    ∷ (repeat (delta_count case)
          (none, dict (chunk model (fields (("content", str "OK ") ∷ [])) null))
        ++ (if is_cut case then [] else openai_tail case model))
stream_events anthropic case model =
    (
      some "message_start",
      object (("type", str "message_start") ∷ ("message", dict (start_body case model)) ∷ []),
    )
    ∷ (
      some "content_block_start",
      object (
          ("type", str "content_block_start")
          ∷ ("index", nat 0)
          ∷ ("content_block", object (("type", str "text") ∷ ("text", str "") ∷ []))
          ∷ []),
    )
    ∷ (repeat (delta_count case) (
      some "content_block_delta",
      object (
          ("type", str "content_block_delta")
          ∷ ("index", nat 0)
          ∷ ("delta", object (("type", str "text_delta") ∷ ("text", str "OK ") ∷ []))
          ∷ []),
    )
        ++ (if is_cut case then [] else anthropic_tail case))
