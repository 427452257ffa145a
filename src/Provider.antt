-- ===== src/Provider.antt =====
-- examples/gateway-accounting/provider.py: the synthetic provider's cases, configured usage,
-- and response bodies. `Stream` has the stream events and `Server` the handler.
pub mod Stream
pub mod Request
pub mod Server
pub mod Recovery
use otelcol_genai_sketches.Base.{
  ℕ, suc, zero, ◌+◌, String, Bool, true, false, List, [], ◌∷◌, ◌++◌, ◌||◌, ◌&&◌, not, if◌then◌else◌,
  Option, none, some,
}
use otelcol_genai_sketches.Json.{
  Value, null, bool, str, dict, arr, Fields, nat, object, array, fields, put, pop, has, get, update,
  nil, end,
}
use otelcol_genai_sketches.Analyze.Counts.{Protocol, openai, anthropic}

-- `CASES`
pub data Case : Type 0 where
  complete stream_complete stream_cut client_disconnect missing stream_missing : Case
  retry429 zero_usage partial_input partial_output cache_only stream_standard : Case

-- `FIXTURE_KINDS[case]`
abbrev pub fixture_kind : Case → String
fixture_kind complete = "protocol_control"
fixture_kind stream_complete = "protocol_control"
fixture_kind stream_standard = "protocol_control"
fixture_kind stream_cut = "transport_fault"
fixture_kind client_disconnect = "cancellation_probe"
fixture_kind missing = "missing_usage_fault"
fixture_kind stream_missing = "missing_usage_fault"
fixture_kind retry429 = "retry_control"
fixture_kind zero_usage = "synthetic_zero_boundary"
fixture_kind cache_only = "synthetic_cache_boundary"
fixture_kind partial_input = "malformed_usage_fault"
fixture_kind partial_output = "malformed_usage_fault"

abbrev pub case_name : Case → String
case_name complete = "complete"
case_name stream_complete = "stream_complete"
case_name stream_cut = "stream_cut"
case_name client_disconnect = "client_disconnect"
case_name missing = "missing"
case_name stream_missing = "stream_missing"
case_name retry429 = "retry429"
case_name zero_usage = "zero"
case_name partial_input = "partial_input"
case_name partial_output = "partial_output"
case_name cache_only = "cache_only"
case_name stream_standard = "stream_standard"

-- `case in DEFERRED_USAGE_CASES`
abbrev pub is_deferred : Case → Bool
is_deferred stream_complete = true
is_deferred stream_cut = true
is_deferred stream_missing = true
is_deferred client_disconnect = true
is_deferred _ = false

-- `case in ("missing", "stream_missing")`
abbrev pub drops_usage : Case → Bool
drops_usage missing = true
drops_usage stream_missing = true
drops_usage _ = false

-- `case in ("zero", "cache_only")`
abbrev pub is_empty_text : Case → Bool
is_empty_text zero_usage = true
is_empty_text cache_only = true
is_empty_text _ = false

abbrev openai_usage : Case → Fields
openai_usage zero_usage =
    fields (("prompt_tokens", nat 0) ∷ ("completion_tokens", nat 0) ∷ ("total_tokens", nat 0) ∷ [])
openai_usage cache_only = fields (
    ("prompt_tokens", nat 64)
    ∷ ("completion_tokens", nat 0)
    ∷ ("total_tokens", nat 64)
    ∷ ("prompt_tokens_details", object (("cached_tokens", nat 64) ∷ []))
    ∷ [])
openai_usage partial_input = fields (("prompt_tokens", nat 100) ∷ [])
openai_usage partial_output = fields (("completion_tokens", nat 20) ∷ [])
openai_usage _ =
    fields
      (("prompt_tokens", nat 100) ∷ ("completion_tokens", nat 20) ∷ ("total_tokens", nat 120) ∷ [])

abbrev anthropic_counts : ℕ → ℕ → Fields
anthropic_counts inp out = fields (
    ("input_tokens", nat inp)
    ∷ ("output_tokens", nat out)
    ∷ ("cache_read_input_tokens", nat 0)
    ∷ ("cache_creation_input_tokens", nat 0)
    ∷ [])

abbrev anthropic_usage : Case → Fields
anthropic_usage zero_usage = anthropic_counts 0 0
anthropic_usage cache_only = update (anthropic_counts 100 20) (
    fields (
      ("input_tokens", nat 0)
      ∷ ("output_tokens", nat 0)
      ∷ ("cache_read_input_tokens", nat 64)
      ∷ []))
anthropic_usage partial_input = pop "output_tokens" (anthropic_counts 100 20)
anthropic_usage partial_output = fields (("output_tokens", nat 20) ∷ [])
anthropic_usage _ = anthropic_counts 100 20

unfoldable pub native_usage : Protocol → Case → Fields
native_usage openai case = openai_usage case
native_usage anthropic case = anthropic_usage case

abbrev text_of : Case → String
text_of case = if is_empty_text case then "" else "OK"

abbrev is_missing : Case → Bool
is_missing missing = true
is_missing _ = false

-- The body before `usage` is added.
abbrev bare_body : Protocol → Case → String → Fields
bare_body openai case model = fields (
    ("id", str "chatcmpl-study")
    ∷ ("object", str "chat.completion")
    ∷ ("created", nat 1791072000)
    ∷ ("model", str model)
    ∷ (
      "choices",
      array (
          object (
            ("index", nat 0)
            ∷ ("message", object (("role", str "assistant") ∷ ("content", str (text_of case)) ∷ []))
            ∷ ("finish_reason", str "stop")
            ∷ [])
          ∷ []),
    )
    ∷ [])
bare_body anthropic case model = fields (
    ("id", str "msg-study")
    ∷ ("type", str "message")
    ∷ ("role", str "assistant")
    ∷ ("model", str model)
    ∷ (
      "content",
      (if is_empty_text case
          then array []
          else array (object (("type", str "text") ∷ ("text", str (text_of case)) ∷ []) ∷ [])),
    )
    ∷ ("stop_reason", str "end_turn")
    ∷ ("stop_sequence", null)
    ∷ [])

unfoldable pub response_body : Protocol → Case → String → Fields
unfolding native_usage
response_body protocol case model =
    if is_missing case
    then bare_body protocol case model
    else put "usage" (dict (native_usage protocol case)) (bare_body protocol case model)
