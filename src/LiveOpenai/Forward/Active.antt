-- ===== src/LiveOpenai/Forward/Active.antt =====
-- examples/gateway-accounting/live.py: the count of active requests, which `do_GET` reports as idle.
use otelcol_genai_sketches.Base.{
  ℕ, ◌+◌, ◌-◌, List, [], ◌∷◌, ◌&&◌, Option, none, some, ◌==◌, leb, ltb, str_eq, one_of, ◌≡◌, refl,
  ap, ◌∙◌, arith, Bool-cases, inl, inr,
}
use otelcol_genai_sketches.Base.Errors.{
  Result, ok, err, value_error, type_error, attribute_error, key_error, os_error, ◌>>=◌,
}
use otelcol_genai_sketches.Json.{Value, null, bool, int, real, str, arr, dict, Fields, get, truthy}
use otelcol_genai_sketches.Trial.{max_input_bytes}
use otelcol_genai_sketches.Trial.Relay.{output_limit}
use otelcol_genai_sketches.LiveAnthropic.{LiveServer}
use otelcol_genai_sketches.LiveOpenai.{reserve}
use otelcol_genai_sketches.LiveOpenai.Request.{checked_body, live_cases}
use otelcol_genai_sketches.LiveOpenai.Stream.{
  Outcome, going, continued, returned, raised, forward_stream,
}
use otelcol_genai_sketches.LiveOpenai.Forward.{
  Relay, Request, Upstream, rejected, unreachable, answered, Answer, replied, streamed, failed_with,
  broken, timed_out, connection_reset, failure, read_whole, after_stream, receive, log_case,
  call_provider, log_attempt, relay_body, after_check, after_length, after_lengths, loaded, forward,
  caught, do_post,
}

after_stream_active : (r : Relay) (o : Outcome) → (after_stream r o).1.active ≡ r.active
after_stream_active r (going st) = refl
after_stream_active r (continued st) = refl
after_stream_active r (returned st) = refl
after_stream_active r (raised e st) = refl

read_whole_active :
    (r : Relay) (attempt size : ℕ) (value : Option Value)
    → (read_whole r attempt size value).1.active ≡ r.active
read_whole_active r attempt size none = refl
read_whole_active r attempt size (some (dict fs)) = elim (Bool-cases (ltb 2000000 size)) [
  | inl large ↦ rw large refl
  | inr small ↦ rw small refl
]
read_whole_active r attempt size (some null) = refl
read_whole_active r attempt size (some (bool b)) = refl
read_whole_active r attempt size (some (int n)) = refl
read_whole_active r attempt size (some (real x)) = refl
read_whole_active r attempt size (some (str s)) = refl
read_whole_active r attempt size (some (arr vs)) = refl

receive_active :
    (r : Relay) (attempt : ℕ) (body : Fields) (upstream : Upstream) (accepts : Option ℕ)
    → (receive r attempt body upstream accepts).1.active ≡ r.active
unfolding receive
receive_active r attempt body (unreachable e) accepts = refl
receive_active r attempt body (rejected status) accepts = refl
receive_active r attempt body (answered size value lines) accepts =
    elim (Bool-cases (truthy (get "stream" body))) [
      | inl streams ↦
          rw streams (
            after_stream_active r (forward_stream attempt r.case r.attempts lines r.server accepts))
      | inr whole ↦ rw whole (read_whole_active r attempt size value)
    ]

call_provider_active :
    (r : Relay) (body : Fields) (upstream : Fields → Upstream) (accepts : Option ℕ)
    (reservation : Result ℕ × LiveServer)
    → (call_provider r body upstream accepts reservation).relay.active ≡ r.active
unfolding call_provider
call_provider_active r body upstream accepts (ok attempt, s) =
    receive_active
      (log_case (record r { server = s }) "provider_forward" (("protocol", str "openai") ∷ []))
      attempt body (upstream body) accepts
call_provider_active r body upstream accepts (err value_error, s) = refl
call_provider_active r body upstream accepts (err type_error, s) = refl
call_provider_active r body upstream accepts (err attribute_error, s) = refl
call_provider_active r body upstream accepts (err key_error, s) = refl
call_provider_active r body upstream accepts (err os_error, s) = refl

module _ (dumped_size : Fields → ℕ) (upstream : Fields → Upstream) (accepts : Option ℕ) where
  relay_body_active :
      (r : Relay) (body : Fields)
      → (relay_body dumped_size r body upstream accepts).relay.active ≡ r.active
  unfolding relay_body
  relay_body_active r body = elim (Bool-cases (str_eq r.case "retry429" && r.attempts == 1)) [
    | inl retry ↦ rw retry refl
    | inr other ↦ rw other (
        call_provider_active (log_attempt r body) body upstream accepts
          (reserve (log_attempt r body).server (dumped_size body) (output_limit body)))
  ]

  after_check_active :
      (r : Relay) (checked : Result Fields)
      → (after_check dumped_size r checked upstream accepts).relay.active ≡ r.active
  after_check_active r (err e) = refl
  after_check_active r (ok body) = elim (Bool-cases (one_of r.case live_cases)) [
    | inl known ↦ rw known (relay_body_active (record r { attempts = r.attempts + 1 }) body)
    | inr unknown ↦ rw unknown refl
  ]

  after_length_active :
      (r : Relay) (size : ℕ) (value : Option Value)
      → (after_length dumped_size r size value upstream accepts).relay.active ≡ r.active
  after_length_active r size value = elim (Bool-cases (ltb 0 size && leb size max_input_bytes)) [
    | inl sized ↦ rw sized (after_check_active r (loaded value >>= checked_body))
    | inr unsized ↦ rw unsized refl
  ]

  after_lengths_active :
      (r : Relay) (lengths : List (Option ℕ)) (value : Option Value)
      → (after_lengths dumped_size r lengths value upstream accepts).relay.active ≡ r.active
  after_lengths_active r [] value = refl
  after_lengths_active r (none ∷ lengths) value = refl
  after_lengths_active r (some size ∷ []) value = after_length_active r size value
  after_lengths_active r (some size ∷ n ∷ lengths) value = refl

  forward_active :
      (r : Relay) (request : Request)
      → (forward dumped_size r request upstream accepts).relay.active ≡ r.active
  unfolding forward
  forward_active r request = elim (Bool-cases request.transfer_encoding) [
    | inl encoded ↦ rw encoded refl
    | inr plain ↦ rw plain (after_lengths_active r request.content_lengths request.value)
  ]

caught_active : (r : Relay) (answer : Answer) → (caught r answer).1.active ≡ r.active
caught_active r (replied status value) = refl
caught_active r (streamed st) = refl
caught_active r (failed_with timed_out) = refl
caught_active r (failed_with connection_reset) = refl
caught_active r (failed_with (failure value_error)) = refl
caught_active r (failed_with (failure type_error)) = refl
caught_active r (failed_with (failure attribute_error)) = refl
caught_active r (failed_with (failure key_error)) = refl
caught_active r (failed_with (failure os_error)) = refl
caught_active r (broken value_error st) = refl
caught_active r (broken type_error st) = refl
caught_active r (broken attribute_error st) = refl
caught_active r (broken key_error st) = refl
caught_active r (broken os_error st) = refl

-- However a request ends, also by an exception that no handler takes, the count of active requests is
-- what it was before: the relay becomes idle again.
pub do_post_active :
    (dumped_size : Fields → ℕ) (r : Relay) (request : Request) (upstream : Fields → Upstream)
    (accepts : Option ℕ)
    → (do_post dumped_size r request upstream accepts).relay.active ≡ r.active
unfolding do_post
do_post_active dumped_size r request upstream accepts =
    let entered = record r { active = r.active + 1 } in
    let run = forward dumped_size entered request upstream accepts in
    let back : (r.active + 1) - 1 ≡ r.active = omega arith in
    ap (λ n. n - 1)
      (caught_active run.relay run.answer
        ∙ forward_active dumped_size upstream accepts entered request)
    ∙ back
