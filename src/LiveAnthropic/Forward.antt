-- ===== src/LiveAnthropic/Forward.antt =====
-- examples/gateway-accounting/live_anthropic.py: `LiveHandler.forward`. A request is what
-- its headers and its body hold, and the provider's answer is a function of the body that it is sent.
-- `dumped_size` is the length of `json.dumps(body).encode()`. What `reply` writes is a value here: a
-- peer that resets the connection then changes nothing that the relay keeps.
pub mod Calls
pub mod Post
use otelcol_genai_sketches.Base.{
  ℕ, suc, zero, ◌+◌, ◌-◌, ◌≤◌, String, Bool, true, false, List, [], ◌∷◌, ◌++◌, ◌||◌, ◌&&◌, not,
  if◌then◌else◌, Option, none, some, ◌==◌, leb, ltb, length, str_eq, one_of, keep, map,
}
use otelcol_genai_sketches.Base.Errors.{
  Result, ok, err, Error, value_error, attribute_error, os_error, type_error, key_error, ◌>>=◌,
  ◌>>◌, raise_if,
}
use otelcol_genai_sketches.Json.{
  Value, null, bool, str, nat, arr, dict, Fields, end, fields, get, get_or, has, pop, is_text,
  is_dict, is_true, items, object, nil,
}
use otelcol_genai_sketches.Analyze.Counts.{obj}
use otelcol_genai_sketches.AnthropicProtocol.Request.{is_cache_case}
use otelcol_genai_sketches.AnthropicProtocol.Request.Check.{checked_body}
use otelcol_genai_sketches.LiveAnthropic.{LiveServer, reserve, observed_usage, append_record}
use otelcol_genai_sketches.LiveAnthropic.Stream.{
  Stream, Outcome, going, returned, raised, forward_stream,
}

-- The rest of `LiveServer`'s state, beside its ledger and its records.
pub record Relay : Type 0 where
  pub server : LiveServer
  pub case : String
  pub attempts : ℕ
  pub active : ℕ
  pub failed : Bool
  pub cache_nonce : Value

-- A Content-Length is the number that it writes in ASCII digits, if it does. `received` is how many
-- bytes of the body came, `value` what `json.loads` makes of them.
pub record Request : Type 0 where
  pub transfer_encoding : Bool
  pub content_lengths : List (Option ℕ)
  pub received : ℕ
  pub value : Option Value

-- A whole answer is read as one JSON value of some length, a stream as frames.
pub data Upstream : Type 0 where
  rejected : ℕ → Upstream
  unreachable : Error → Upstream
  answered : ℕ → Option Value → List Fields → Upstream

pub data Answer : Type 0 where
  replied : ℕ → Value → Answer
  streamed : Stream → Answer
  failed_with broken : Error → Answer

-- How a request ends, and the call of the provider that it made: the body, and the server at that
-- time.
pub record Run : Type 0 where
  pub answer : Answer
  pub relay : Relay
  pub call : Option (Fields × LiveServer)

-- `protocol.MAX_BODY`
abbrev pub max_body : ℕ
max_body = 65536

unfoldable pub check_framing : Request → Result (Unit {0})
check_framing request = elim (request.content_lengths) [
  | some size ∷ [] ↦
      raise_if
        (request.transfer_encoding
          || not (ltb 0 size && leb size max_body)
          || not (request.received == size))
        value_error
  | _ ↦ err value_error
]

abbrev pub log : Relay → List (String × Value) → Relay
log r kvs = record r { server = append_record r.server kvs }

abbrev error_body : String → String → Value
error_body kind message = object (
    ("type", str "error")
    ∷ ("error", object (("type", str kind) ∷ ("message", str message) ∷ []))
    ∷ [])

-- The blocks of the messages whose content is a list.
abbrev list_blocks : List Value → List Value
list_blocks [] = []
list_blocks (m ∷ ms) = elim (get "content" (obj m)) [
  | arr vs ↦ items vs ++ list_blocks ms
  | _ ↦ list_blocks ms
]

abbrev elements : Value → List Value
elements (arr vs) = items vs
elements _ = []

-- `provider_request_shape`, in a case with a cache.
abbrev log_shape : Relay → Fields → Relay
log_shape r body =
    if is_cache_case r.case
    then log r (
        ("event", str "provider_request_shape")
        ∷ ("case", str r.case)
        ∷ ("attempt", nat r.attempts)
        ∷ ("message_count", nat (length (elements (get "messages" body))))
        ∷ (
          "cache_marker_count",
          nat (
              length (
                keep (λ b. has "cache_control" (obj b))
                  (list_blocks (elements (get "messages" body))))),
        )
        ∷ [])
    else r

abbrev log_attempt : Relay → Fields → Relay
log_attempt r body = log r (
    ("event", str "relay_attempt")
    ∷ ("case", str r.case)
    ∷ ("attempt", nat r.attempts)
    ∷ ("protocol", str "anthropic")
    ∷ ("stream", get_or "stream" (bool false) body)
    ∷ ("mode", str "live_provider")
    ∷ [])

abbrev ends : Answer → Relay → Run
ends answer r = record { answer = answer; relay = r; call = none }

abbrev called : Fields → LiveServer → Answer → Relay → Run
called body s answer r = record { answer = answer; relay = r; call = some (body, s) }

-- A whole answer that is a message.
abbrev accept_message : Relay → ℕ → Value → Answer × Relay
accept_message r attempt (dict value) =
    if is_text "message" (get "type" value)
    then (
      replied 200 (dict (if str_eq r.case "missing" then pop "usage" value else value)),
      record r {
        server =
            observed_usage r.server attempt r.case r.attempts (get "usage" value)
              (get "model" value) true;
      },
    )
    else (failed_with value_error, r)
accept_message r attempt _ = (failed_with value_error, r)

abbrev read_whole : Relay → ℕ → ℕ → Option Value → Answer × Relay
read_whole r attempt size none = (failed_with value_error, r)
read_whole r attempt size (some value) =
    if ltb 2000000 size then (failed_with value_error, r) else accept_message r attempt value

abbrev after_stream : Relay → Outcome → Answer × Relay
after_stream r (going st) = (streamed st, record r { server = st.server })
after_stream r (returned st) = (streamed st, record r { server = st.server })
after_stream r (raised e st) = (broken e, record r { server = st.server })

-- After the call of the provider.
unfoldable pub receive : Relay → ℕ → Fields → Upstream → Option ℕ → Answer × Relay
unfolding observed_usage forward_stream
receive r attempt body (unreachable e) accepts = (failed_with e, r)
receive r attempt body (rejected status) accepts = (
  replied status (error_body "api_error" "provider rejected study request"),
  log (record r { failed = true })
      (("event", str "provider_error")
        ∷ ("case", str r.case)
        ∷ ("attempt", nat r.attempts)
        ∷ ("status", nat status)
        ∷ []),
)
receive r attempt body (answered size value frames) accepts =
    if is_true (get "stream" body)
    then after_stream r (forward_stream attempt r.case r.attempts frames r.server accepts)
    else read_whole r attempt size value

abbrev log_forward : Relay → Relay
log_forward r = log r (
    ("event", str "provider_forward")
    ∷ ("case", str r.case)
    ∷ ("attempt", nat r.attempts)
    ∷ ("protocol", str "anthropic")
    ∷ [])

-- After `reserve`.
unfoldable pub call_provider :
    Relay → Fields → (Fields → Upstream) → Option ℕ → Result ℕ × LiveServer → Run
unfolding receive
call_provider r body upstream accepts (err e, s) =
    ends (replied 403 (error_body "permission_error" "study spend or attempt guard reached")) (
      log (record r { server = s; failed = true })
        (("event", str "guard_rejected")
          ∷ ("case", str r.case)
          ∷ ("attempt", nat r.attempts)
          ∷ ("forwarded", bool false)
          ∷ []))
call_provider r body upstream accepts (ok attempt, s) =
    let sending = log_forward (record r { server = s }) in
    let (answer, after) = receive sending attempt body (upstream body) accepts in
    called body sending.server answer after

-- `json.loads(raw)`
abbrev pub loaded : Option Value → Result Value
loaded none = err value_error
loaded (some v) = ok v

module _ (dumped_size : Fields → ℕ) where
  -- After `checked_body`.
  unfoldable pub relay_body : Relay → Fields → (Fields → Upstream) → Option ℕ → Run
  unfolding reserve call_provider
  relay_body r body upstream accepts =
      let logged = log_attempt (log_shape r body) body in
      if str_eq r.case "retry429" && r.attempts == 1
      then ends (replied 429 (error_body "rate_limit_error" "synthetic retry")) (
          log logged (
            ("event", str "injected_429")
            ∷ ("case", str r.case)
            ∷ ("attempt", nat r.attempts)
            ∷ ("forwarded", bool false)
            ∷ []))
      else call_provider logged body upstream accepts (reserve logged.server (dumped_size body))

  abbrev pub after_check : Relay → Result Fields → (Fields → Upstream) → Option ℕ → Run
  after_check r (err e) upstream accepts = ends (failed_with e) r
  after_check r (ok body) upstream accepts = relay_body r body upstream accepts

  -- The request is counted once it has been read.
  unfoldable pub after_framing :
      Relay → Result (Unit {0}) → Request → (Fields → Upstream) → Option ℕ → Run
  unfolding checked_body relay_body
  after_framing r (err e) request upstream accepts = ends (failed_with e) r
  after_framing r (ok framed) request upstream accepts =
      after_check (record r { attempts = r.attempts + 1 })
        (loaded request.value >>= λ v. checked_body v r.case r.cache_nonce) upstream accepts

  unfoldable pub forward : Relay → Request → (Fields → Upstream) → Option ℕ → Run
  unfolding check_framing after_framing
  forward r request upstream accepts =
      after_framing r (check_framing request) request upstream accepts
