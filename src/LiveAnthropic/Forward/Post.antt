-- ===== src/LiveAnthropic/Forward/Post.antt =====
-- examples/gateway-accounting/live_anthropic.py: `LiveHandler.do_POST` for a message, and what `do_GET` says
-- of an idle relay. An OSError here is none of a peer that resets the connection, which only closes it.
use otelcol_genai_sketches.Base.{
  ℕ, ◌+◌, ◌-◌, Bool, true, false, [], ◌∷◌, Option, if◌then◌else◌, ◌==◌,
}
use otelcol_genai_sketches.Base.Errors.{
  Error, value_error, type_error, attribute_error, key_error, os_error,
}
use otelcol_genai_sketches.Json.{str, Fields}
use otelcol_genai_sketches.LiveAnthropic.Forward.{
  Relay, Request, Upstream, Answer, replied, streamed, failed_with, broken, Run, log, error_body,
  forward,
}

-- The exceptions that `do_POST` catches.
abbrev pub is_caught : Error → Bool
is_caught value_error = true
is_caught type_error = true
is_caught os_error = true
is_caught attribute_error = false
is_caught key_error = false

-- `failed` and the record of the error.
abbrev pub mark_failed : Relay → Relay
mark_failed r = log (record r { failed = true }) (("event", str "relay_error") ∷ [])

-- The `except` clause: a status 502, unless the response has started.
abbrev pub caught : Relay → Answer → Answer × Relay
caught r (replied status value) = (replied status value, r)
caught r (streamed st) = (streamed st, r)
caught r (failed_with e) =
    if is_caught e
    then (
      replied 502 (error_body "api_error" "bounded study relay rejected request"),
      mark_failed r,
    )
    else (failed_with e, r)
caught r (broken e) = if is_caught e then (broken e, mark_failed r) else (broken e, r)

abbrev pub finally : Run → Run
finally run =
    let (answer, after) = caught run.relay run.answer in
    record run { answer = answer; relay = record after { active = after.active - 1 } }

unfoldable pub do_post : (Fields → ℕ) → Relay → Request → (Fields → Upstream) → Option ℕ → Run
unfolding forward
do_post dumped_size r request upstream accepts =
    finally (forward dumped_size (record r { active = r.active + 1 }) request upstream accepts)

-- The status of `/idle`.
abbrev pub idle_status : Relay → ℕ
idle_status r = if r.failed then 409 else if r.active == 0 then 200 else 202
