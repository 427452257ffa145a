-- ===== src/Trial/Relay.antt =====
-- examples/integrations/litellm/provider-trial/relay.py: `Handler.handle_post` for a chat completion.
-- The ledger's rows stand apart by kind: those that `budget_used` reads, the cases of the received
-- requests of this run, and all other events. A lock makes each of its two sections one step.
pub mod Stream
pub mod Calls
pub mod Stuck
use otelcol_genai_sketches.Base.{
  ℕ, suc, ◌+◌, ◌≤◌, String, Bool, true, false, List, [], ◌∷◌, ◌++◌, ◌||◌, ◌&&◌, not, if◌then◌else◌,
  Option, none, some, ◌==◌, leb, ltb, length, str_eq, one_of, keep,
}
use otelcol_genai_sketches.Base.Errors.{
  Result, ok, err, Error, value_error, attribute_error, ◌>>=◌, ◌>>◌,
}
use otelcol_genai_sketches.Json.{
  Value, null, bool, int, pos, str, nat, dict, Fields, end, fields, get, get_or, put, truthy,
  is_text,
}
use otelcol_genai_sketches.Ledger.{History, reserved, provider_complete, reserved_count}
use otelcol_genai_sketches.Trial.{max_input_bytes, budget_used, reserve_cost, usage_only}
use otelcol_genai_sketches.Trial.Validate.{validate}
use otelcol_genai_sketches.Trial.Relay.Stream.{
  Relay, Line, Drain, Outcome, drained, stopped, drain, log_event, log_complete,
}

-- `CASES`
abbrev pub cases : List String
cases =
    "baseline" ∷ "retry429" ∷ "timeout" ∷ "stream_complete" ∷ "stream_cut" ∷ "cache" ∷ "reasoning"
    ∷ "tools" ∷ "retry429_enabled" ∷ "timeout_enabled" ∷ []

-- `MANIFEST['max_provider_attempts']`
abbrev pub max_provider_attempts : ℕ
max_provider_attempts = 12

-- The case that the path names, if it has the form of one; the Content-Length; and what `json.loads`
-- makes of the body.
pub record Request : Type 0 where
  pub case : Option String
  pub size : ℕ
  pub body : Option Value

-- An error status with its body, a transport error, or an answer: whole with its length, and as lines.
pub data Upstream : Type 0 where
  rejected : ℕ → Option Value → Upstream
  unreachable : String → Upstream
  answered : ℕ → Option Value → List Line → Upstream

pub data Answer : Type 0 where
  refused : ℕ → Answer
  delivered : Fields → Answer
  streamed : List Line → Answer
  failed_with : Error → Answer

-- How a request ends, and the call of the provider that it made: the body, and the relay then.
pub record Run : Type 0 where
  pub answer : Answer
  pub relay : Relay
  pub call : Option (Fields × Relay)

abbrev pub starts_retry : String → Bool
starts_retry case = one_of case ("retry429" ∷ "retry429_enabled" ∷ [])

abbrev starts_timeout : String → Bool
starts_timeout case = one_of case ("timeout" ∷ "timeout_enabled" ∷ [])

-- `safe_code`, of the body of an error.
abbrev error_of : Option Value → Value
error_of (some (dict fs)) = if truthy (get "error" fs) then get "error" fs else dict end
error_of _ = dict end

abbrev known_codes : List String
known_codes =
    "model_not_found" ∷ "unsupported_parameter" ∷ "unsupported_value" ∷ "invalid_api_key"
    ∷ "insufficient_quota" ∷ "rate_limit_exceeded" ∷ "context_length_exceeded" ∷ []

abbrev code_of : Value → String
code_of (str s) = if one_of s known_codes then s else "unclassified"
code_of _ = "unclassified"

abbrev pub safe_code : Option Value → String
safe_code body = elim (error_of body) [ dict fs ↦ code_of (get "code" fs) | _ ↦ "unclassified" ]

-- A whole answer. A timeout is injected after its usage has been written.
abbrev pub read_whole : Relay → ℕ → String → Bool → ℕ → Option Value → Answer × Relay
read_whole r attempt case first size (some (dict decoded)) =
    if ltb 2000000 size
    then (failed_with value_error, r)
    else let late = starts_timeout case && first in
      let logged = log_complete r attempt (get "usage" decoded) (get "model" decoded) in
      (
        delivered decoded,
        if late
            then log_event logged "injected_timeout_after_provider_completion" case
                (("attempt", nat attempt) ∷ [])
            else logged,
      )
read_whole r attempt case first size (some value) =
    (failed_with (if ltb 2000000 size then value_error else attribute_error), r)
read_whole r attempt case first size none = (failed_with value_error, r)

abbrev after_drain : Outcome → Answer × Relay
after_drain (drained st) = (streamed st.sent, st.relay)
after_drain (stopped e st) = (failed_with e, st.relay)

-- After the call of the provider. `shutdown` is whether the injected disconnect succeeds.
unfoldable pub receive :
    Relay → ℕ → String → Bool → Fields → Upstream → Option ℕ → Bool → Answer × Relay
unfolding drain
receive r attempt case first body (rejected status error) accepts shutdown = (
  refused status,
  log_event r "provider_error" case
      (("attempt", nat attempt) ∷ ("status", nat status) ∷ ("code", str (safe_code error)) ∷ []),
)
receive r attempt case first body (unreachable kind) accepts shutdown = (
  refused 502,
  log_event r "provider_transport_error" case (("attempt", nat attempt) ∷ ("type", str kind) ∷ []),
)
receive r attempt case first body (answered size value lines) accepts shutdown =
    if truthy (get "stream" body)
    then after_drain (drain r attempt case lines accepts shutdown)
    else read_whole r attempt case first size value

abbrev pub ends : Answer → Relay → Run
ends answer r = record { answer = answer; relay = r; call = none }

-- `body['max_completion_tokens']`, which `validate` has checked.
abbrev pub output_limit : Fields → ℕ
output_limit body = elim (get "max_completion_tokens" body) [ int (pos n) ↦ n | _ ↦ 0 ]

-- The second section under the lock; `none` is the status 403.
unfoldable pub reserve : Relay → ℕ → ℕ → Result (Option ℕ × Relay)
unfolding budget_used reserve_cost reserved_count
reserve r size tokens =
    if r.budget == 0
    then ok (none, r)
    else (budget_used r.history >>= λ used. ok (
        if ltb r.budget (used + reserve_cost size tokens)
          || ltb max_provider_attempts (reserved_count r.history + 1)
        then (none, r)
        else (
          some (reserved_count r.history + 1),
          record r {
            history =
                r.history
                ++ reserved (reserved_count r.history + 1) (reserve_cost size tokens) ∷ [];
          },
        )))

abbrev pub after_reserve :
    Relay
    → String
    → Bool
    → Fields
    → (Fields → Upstream)
    → Option ℕ
    → Bool
    → Result (Option ℕ × Relay)
    → Run
after_reserve r case first body upstream accepts shutdown (err e) = ends (failed_with e) r
after_reserve r case first body upstream accepts shutdown (ok (none, s)) = ends (refused 403) s
after_reserve r case first body upstream accepts shutdown (ok (some attempt, s)) =
    let (answer, after) = receive s attempt case first body (upstream body) accepts shutdown in
    record { answer = answer; relay = after; call = some (body, s) }

-- `prior`: how often the case has been received in this run.
abbrev pub prior : String → Relay → ℕ
prior case r = length (keep (λ c. str_eq c case) r.received)

-- After the checks of the request; `store` is switched off.
unfoldable pub relay_body :
    Relay → String → ℕ → Fields → (Fields → Upstream) → Option ℕ → Bool → Run
unfolding reserve receive
relay_body r case size body upstream accepts shutdown =
    let first = prior case r == 0 in
    let received = record r { received = r.received ++ case ∷ [] } in
    if starts_retry case && first
    then ends (refused 429)
        (log_event received "injected_429" case (("forwarded", bool false) ∷ []))
    else after_reserve received case first body upstream accepts shutdown
        (reserve received size (output_limit body))

abbrev pub checked : Option Value → Result Fields
checked (some (dict body)) = validate (dict body) >> ok (put "store" (bool false) body)
checked _ = err value_error

abbrev pub after_check :
    Relay → String → ℕ → (Fields → Upstream) → Option ℕ → Bool → Result Fields → Run
after_check r case size upstream accepts shutdown (err e) = ends (failed_with e) r
after_check r case size upstream accepts shutdown (ok body) =
    relay_body r case size body upstream accepts shutdown

-- `match[1] in CASES and 0 < size <= MAX_INPUT_BYTES`
abbrev pub is_framed : String → ℕ → Bool
is_framed case size = one_of case cases && (ltb 0 size && leb size max_input_bytes)

abbrev pub after_match :
    Relay → Option String → Request → (Fields → Upstream) → Option ℕ → Bool → Run
after_match r none request upstream accepts shutdown = ends (refused 400) r
after_match r (some case) request upstream accepts shutdown =
    if is_framed case request.size
    then after_check r case request.size upstream accepts shutdown (checked request.body)
    else ends (refused 400) r

unfoldable pub handle_post : Relay → Request → (Fields → Upstream) → Option ℕ → Bool → Run
unfolding validate relay_body
handle_post r request upstream accepts shutdown =
    after_match r request.case request upstream accepts shutdown
