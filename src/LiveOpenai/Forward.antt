-- ===== src/LiveOpenai/Forward.antt =====
-- examples/gateway-accounting/live.py: `LiveHandler.forward`, and how `do_POST` ends it for the path of
-- chat completions. A request is what its headers and its body hold, and the provider's answer is a
-- function of the body that it is sent. `dumped_size` is the length of `json.dumps(body).encode()`. What
-- `reply` writes is a value here; the records leave out the names of exceptions.
pub mod Calls
pub mod Active
use otelcol_genai_sketches.Base.{
  ℕ, ◌+◌, ◌-◌, String, Bool, true, false, List, [], ◌∷◌, ◌||◌, ◌&&◌, not, if◌then◌else◌, Option,
  none, some, ◌==◌, leb, ltb, str_eq, one_of,
}
use otelcol_genai_sketches.Base.Errors.{
  Result, ok, err, Error, value_error, attribute_error, os_error, type_error, key_error, ◌>>=◌,
}
use otelcol_genai_sketches.Json.{
  Value, null, bool, str, nat, dict, Fields, end, get, get_or, pop, truthy, object,
}
use otelcol_genai_sketches.Trial.{max_input_bytes}
use otelcol_genai_sketches.Trial.Relay.{output_limit}
use otelcol_genai_sketches.LiveAnthropic.{LiveServer, append_record}
use otelcol_genai_sketches.LiveOpenai.{reserve, observed_usage}
use otelcol_genai_sketches.LiveOpenai.Request.{checked_body, live_cases}
use otelcol_genai_sketches.LiveOpenai.Stream.{
  Line, Stream, Outcome, going, continued, returned, raised, forward_stream,
}

-- The rest of the server's state, beside its ledger and its records.
pub record Relay : Type 0 where
  pub server : LiveServer
  pub case : String
  pub attempts : ℕ
  pub active : ℕ
  pub failed : Bool

-- A Content-Length is the number that it writes in decimal digits, if it does. `value` is what
-- `json.loads` makes of the body.
pub record Request : Type 0 where
  pub transfer_encoding : Bool
  pub content_lengths : List (Option ℕ)
  pub value : Option Value

-- The exceptions that `do_POST` tells apart. An HTTPException counts as an OSError.
pub data Failure : Type 0 where
  timed_out : Failure
  connection_reset : Failure
  failure : Error → Failure

-- A whole answer is read as one JSON value of some length, a stream as lines.
pub data Upstream : Type 0 where
  rejected : ℕ → Upstream
  unreachable : Failure → Upstream
  answered : ℕ → Option Value → List Line → Upstream

-- A reply, a stream that ended by itself or by a disconnect, and an exception before the response or
-- after it has started.
pub data Answer : Type 0 where
  replied : ℕ → Value → Answer
  streamed : Stream → Answer
  failed_with : Failure → Answer
  broken : Error → Stream → Answer

-- How a request ends, and the call of the provider that it made: the body, and the server at that
-- time.
pub record Run : Type 0 where
  pub answer : Answer
  pub relay : Relay
  pub call : Option (Fields × LiveServer)

abbrev pub log : Relay → List (String × Value) → Relay
log r kvs = record r { server = append_record r.server kvs }

abbrev pub log_case : Relay → String → List (String × Value) → Relay
log_case r event more =
    log r (("event", str event) ∷ ("case", str r.case) ∷ ("attempt", nat r.attempts) ∷ more)

abbrev pub ends : Answer → Relay → Run
ends answer r = record { answer = answer; relay = r; call = none }

abbrev pub message_body : String → Value
message_body message = object (("error", object (("message", str message) ∷ [])) ∷ [])

-- A whole answer; its usage is taken out in the case missing.
abbrev pub read_whole : Relay → ℕ → ℕ → Option Value → Answer × Relay
read_whole r attempt size none = (failed_with (failure value_error), r)
read_whole r attempt size (some (dict value)) =
    if ltb 2000000 size then (failed_with (failure value_error), r) else (
      replied 200 (dict (if str_eq r.case "missing" then pop "usage" value else value)),
      record r { server = observed_usage r.server attempt r.case r.attempts value },
    )
read_whole r attempt size (some value) =
    (failed_with (failure (if ltb 2000000 size then value_error else attribute_error)), r)

abbrev pub after_stream : Relay → Outcome → Answer × Relay
after_stream r (going st) = (streamed st, record r { server = st.server })
after_stream r (continued st) = (streamed st, record r { server = st.server })
after_stream r (returned st) = (streamed st, record r { server = st.server })
after_stream r (raised e st) = (broken e st, record r { server = st.server })

-- After the call of the provider.
unfoldable pub receive : Relay → ℕ → Fields → Upstream → Option ℕ → Answer × Relay
unfolding observed_usage forward_stream
receive r attempt body (unreachable e) accepts = (failed_with e, r)
receive r attempt body (rejected status) accepts = (
  replied status (message_body "provider rejected study request"),
  log_case (record r { failed = true }) "provider_error" (("status", nat status) ∷ []),
)
receive r attempt body (answered size value lines) accepts =
    if truthy (get "stream" body)
    then after_stream r (forward_stream attempt r.case r.attempts lines r.server accepts)
    else read_whole r attempt size value

-- After `reserve`: only a ValueError is a refusal by the guard.
unfoldable pub call_provider :
    Relay → Fields → (Fields → Upstream) → Option ℕ → Result ℕ × LiveServer → Run
unfolding receive
call_provider r body upstream accepts (err value_error, s) =
    ends (replied 403 (message_body "study spend or attempt guard reached")) (
      log_case (record r { server = s; failed = true }) "guard_rejected"
        (("forwarded", bool false) ∷ []))
call_provider r body upstream accepts (err e, s) =
    ends (failed_with (failure e)) (record r { server = s })
call_provider r body upstream accepts (ok attempt, s) =
    let sending =
      log_case (record r { server = s }) "provider_forward" (("protocol", str "openai") ∷ []) in
    let (answer, after) = receive sending attempt body (upstream body) accepts in
    record { answer = answer; relay = after; call = some (body, sending.server) }

abbrev pub retry_body : Value
retry_body = object (
    ("error", object (("type", str "rate_limit_error") ∷ ("message", str "synthetic retry") ∷ []))
    ∷ [])

abbrev pub log_attempt : Relay → Fields → Relay
log_attempt r body = log_case r "relay_attempt" (
    ("protocol", str "openai")
    ∷ ("stream", get_or "stream" (bool false) body)
    ∷ ("mode", str "live_provider")
    ∷ [])

-- `json.loads`
abbrev pub loaded : Option Value → Result Value
loaded none = err value_error
loaded (some v) = ok v

module _ (dumped_size : Fields → ℕ) where
  -- In a case that the relay knows.
  unfoldable pub relay_body : Relay → Fields → (Fields → Upstream) → Option ℕ → Run
  unfolding reserve call_provider
  relay_body r body upstream accepts =
      let logged = log_attempt r body in
      if str_eq r.case "retry429" && r.attempts == 1
      then ends (replied 429 retry_body)
          (log_case logged "injected_429" (("forwarded", bool false) ∷ []))
      else call_provider logged body upstream accepts
          (reserve logged.server (dumped_size body) (output_limit body))

  -- A checked request is counted.
  abbrev pub after_check : Relay → Result Fields → (Fields → Upstream) → Option ℕ → Run
  after_check r (err e) upstream accepts = ends (failed_with (failure e)) r
  after_check r (ok body) upstream accepts =
      let counted = record r { attempts = r.attempts + 1 } in
      if one_of r.case live_cases
      then relay_body counted body upstream accepts
      else ends (replied 400 (dict end)) counted

  -- Of one Content-Length.
  abbrev pub after_length : Relay → ℕ → Option Value → (Fields → Upstream) → Option ℕ → Run
  after_length r size value upstream accepts =
      if ltb 0 size && leb size max_input_bytes
      then after_check r (loaded value >>= checked_body) upstream accepts
      else ends (replied 413 (dict end)) r

  abbrev pub after_lengths :
      Relay → List (Option ℕ) → Option Value → (Fields → Upstream) → Option ℕ → Run
  after_lengths r (some size ∷ []) value upstream accepts =
      after_length r size value upstream accepts
  after_lengths r _ value upstream accepts = ends (replied 400 (dict end)) r

  unfoldable pub forward : Relay → Request → (Fields → Upstream) → Option ℕ → Run
  unfolding checked_body relay_body
  forward r request upstream accepts =
      if request.transfer_encoding
      then ends (replied 400 (dict end)) r
      else after_lengths r request.content_lengths request.value upstream accepts

-- The handlers of `do_POST`. An AttributeError and a KeyError pass through them.
abbrev pub caught : Relay → Answer → Answer × Relay
caught r (replied status value) = (replied status value, r)
caught r (streamed st) = (streamed st, r)
caught r (failed_with timed_out) = (
  failed_with timed_out,
  log (record r { failed = true }) (("event", str "provider_transport_error") ∷ []),
)
caught r (failed_with connection_reset) = (failed_with connection_reset, r)
caught r (failed_with (failure attribute_error)) = (failed_with (failure attribute_error), r)
caught r (failed_with (failure key_error)) = (failed_with (failure key_error), r)
caught r (failed_with (failure e)) = (
  replied 502 (message_body "bounded study relay rejected request"),
  log (record r { failed = true }) (("event", str "relay_error") ∷ []),
)
caught r (broken attribute_error st) = (broken attribute_error st, r)
caught r (broken key_error st) = (broken key_error st, r)
caught r (broken e st) =
    (broken e st, log (record r { failed = true }) (("event", str "relay_error") ∷ []))

abbrev pub finally : Run → Run
finally run =
    let (answer, after) = caught run.relay run.answer in
    record run { answer = answer; relay = record after { active = after.active - 1 } }

unfoldable pub do_post : (Fields → ℕ) → Relay → Request → (Fields → Upstream) → Option ℕ → Run
unfolding forward
do_post dumped_size r request upstream accepts =
    finally (forward dumped_size (record r { active = r.active + 1 }) request upstream accepts)
