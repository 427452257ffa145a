-- ===== src/LiveOpenai/Forward/Calls.antt =====
-- examples/gateway-accounting/live.py: the calls of the provider that `LiveHandler.do_POST` makes.
use otelcol_genai_sketches.Base.{
  ℕ, ◌+◌, ◌≤◌, false, List, [], ◌∷◌, ◌++◌, ◌&&◌, Option, none, some, ◌==◌, leb, ltb, str_eq, one_of,
  ◌≡◌, refl, ◌∙◌, arith, Bool-cases, inl, inr,
}
use otelcol_genai_sketches.Base.Errors.{
  Result, ok, err, value_error, type_error, attribute_error, key_error, os_error, ◌>>=◌,
}
use otelcol_genai_sketches.Json.{Value, Fields}
use otelcol_genai_sketches.Ledger.{reserved, reserved_count, Within, total_used}
use otelcol_genai_sketches.Ledger.Budget.{total_used-reserve}
use otelcol_genai_sketches.Trial.{budget_used, reserve_cost, max_input_bytes}
use otelcol_genai_sketches.Trial.Costs.{completion_cost, budget_used-total_used}
use otelcol_genai_sketches.Trial.Relay.{output_limit}
use otelcol_genai_sketches.LiveAnthropic.{LiveServer, next_attempt, append_row}
use otelcol_genai_sketches.LiveOpenai.{reserve, reserve_within}
use otelcol_genai_sketches.LiveOpenai.Request.{checked_body, live_cases}
use otelcol_genai_sketches.LiveOpenai.Request.Fixed.{IsFixed, checked_body-IsFixed}
use otelcol_genai_sketches.LiveOpenai.Forward.{
  Relay, Request, Upstream, Answer, replied, streamed, failed_with, broken, timed_out,
  connection_reset, failure, Run, loaded, call_provider, log_attempt, relay_body, after_check,
  after_length, after_lengths, forward, caught, finally, do_post,
}

-- The attempts of the ledger are numbered up to their count.
abbrev pub IsNumbered : LiveServer → Type 0
IsNumbered s = Within (reserved_count s.history) s.history

-- The ledger of `t` is that of `s` with one more reserve, whose number is within the limit and whose
-- total is within the budget.
abbrev pub PaidFrom : LiveServer → ℕ → LiveServer → Type 0
PaidFrom s cost t =
    (t.history ≡ s.history ++ reserved (next_attempt s) cost ∷ [])
    × (next_attempt s ≤ s.max_attempts)
    × (total_used completion_cost t.history ≤ s.budget)

abbrev Reserved : LiveServer → ℕ → Result ℕ × LiveServer → Type 0
Reserved s cost (err e, t) = t.history ≡ s.history
Reserved s cost (ok a, t) = PaidFrom s cost t

granted :
    (s : LiveServer) (cost used : ℕ)
    → IsNumbered s
    → used ≡ total_used completion_cost s.history
    → ltb s.budget (used + cost) ≡ false
    → ltb s.max_attempts (next_attempt s) ≡ false
    → PaidFrom s cost (append_row s (reserved (next_attempt s) cost))
granted s cost used numbered same room slot = (
  refl,
  ground arith,
  ground (
    arith,
    total_used-reserve completion_cost s.history (next_attempt s) (reserved_count s.history) cost
        numbered (omega arith),
  ),
)

reserve_within-Reserved :
    (s : LiveServer) (cost used : ℕ)
    → IsNumbered s
    → used ≡ total_used completion_cost s.history
    → Reserved s cost (reserve_within s cost used)
reserve_within-Reserved s cost used numbered same = elim (Bool-cases (ltb s.budget (used + cost))) [
  | inl over ↦ rw over refl
  | inr room ↦ rw room (elim (Bool-cases (ltb s.max_attempts (next_attempt s))) [
    | inl full ↦ rw full refl
    | inr slot ↦ rw slot (granted s cost used numbered same room slot)
  ])
]

after_total :
    (s : LiveServer) (cost : ℕ) (total : Result ℕ)
    → IsNumbered s
    → ((n : ℕ) → total ≡ ok n → n ≡ total_used completion_cost s.history)
    → Reserved s cost (elim total [ ok used ↦ reserve_within s cost used | err e ↦ (err e, s) ])
after_total s cost (err e) numbered same = refl
after_total s cost (ok used) numbered same =
    reserve_within-Reserved s cost used numbered (same used refl)

reserve-Reserved :
    (s : LiveServer) (size tokens : ℕ)
    → IsNumbered s
    → Reserved s (reserve_cost size tokens) (reserve s size tokens)
unfolding reserve
reserve-Reserved s size tokens numbered =
    after_total s (reserve_cost size tokens) (budget_used s.history) numbered
      (budget_used-total_used s.history)

-- A run that called the provider sent a fixed body, and had paid for it; one that did not call it left
-- the ledger as it was.
abbrev pub CallsSafely : (Fields → ℕ) → LiveServer → Run → Option (Fields × LiveServer) → Type 0
CallsSafely dumped_size s run none = run.relay.server.history ≡ s.history
CallsSafely dumped_size s run (some (sent, t)) =
    PaidFrom s (reserve_cost (dumped_size sent) (output_limit sent)) t × IsFixed sent

call_provider-CallsSafely :
    (dumped_size : Fields → ℕ) (r : Relay) (body : Fields) (upstream : Fields → Upstream)
    (accepts : Option ℕ) (reservation : Result ℕ × LiveServer)
    → Reserved r.server (reserve_cost (dumped_size body) (output_limit body)) reservation
    → IsFixed body
    → CallsSafely dumped_size r.server
        (call_provider r body upstream accepts reservation)
        (call_provider r body upstream accepts reservation).call
unfolding call_provider
call_provider-CallsSafely dumped_size r body upstream accepts (ok a, t) paid fixed = (paid, fixed)
call_provider-CallsSafely dumped_size r body upstream accepts (err value_error, t) paid fixed = paid
call_provider-CallsSafely dumped_size r body upstream accepts (err type_error, t) paid fixed = paid
call_provider-CallsSafely dumped_size r body upstream accepts (err attribute_error, t) paid fixed =
    paid
call_provider-CallsSafely dumped_size r body upstream accepts (err key_error, t) paid fixed = paid
call_provider-CallsSafely dumped_size r body upstream accepts (err os_error, t) paid fixed = paid

relay_body-CallsSafely :
    (dumped_size : Fields → ℕ) (r : Relay) (body : Fields) (upstream : Fields → Upstream)
    (accepts : Option ℕ)
    → IsNumbered r.server
    → IsFixed body
    → CallsSafely dumped_size r.server
        (relay_body dumped_size r body upstream accepts)
        (relay_body dumped_size r body upstream accepts).call
unfolding relay_body
relay_body-CallsSafely dumped_size r body upstream accepts numbered fixed =
    elim (Bool-cases (str_eq r.case "retry429" && r.attempts == 1)) [
      | inl retry ↦ rw retry refl
      | inr other ↦ rw other (
          let logged = log_attempt r body in
          call_provider-CallsSafely dumped_size logged body upstream accepts
            (reserve logged.server (dumped_size body) (output_limit body))
            (reserve-Reserved logged.server (dumped_size body) (output_limit body) numbered) fixed)
    ]

after_check-CallsSafely :
    (dumped_size : Fields → ℕ) (r : Relay) (checked : Result Fields) (upstream : Fields → Upstream)
    (accepts : Option ℕ)
    → IsNumbered r.server
    → ((body : Fields) → checked ≡ ok body → IsFixed body)
    → CallsSafely dumped_size r.server
        (after_check dumped_size r checked upstream accepts)
        (after_check dumped_size r checked upstream accepts).call
after_check-CallsSafely dumped_size r (err e) upstream accepts numbered fixed = refl
after_check-CallsSafely dumped_size r (ok body) upstream accepts numbered fixed =
    elim (Bool-cases (one_of r.case live_cases)) [
      | inl known ↦ rw known (
          relay_body-CallsSafely dumped_size (record r { attempts = r.attempts + 1 }) body upstream
            accepts numbered (fixed body refl))
      | inr unknown ↦ rw unknown refl
    ]

loaded-IsFixed :
    (value : Option Value) (body : Fields)
    → (loaded value >>= checked_body) ≡ ok body
    → IsFixed body
loaded-IsFixed none body h = cc
loaded-IsFixed (some v) body h = checked_body-IsFixed v body h

after_length-CallsSafely :
    (dumped_size : Fields → ℕ) (r : Relay) (size : ℕ) (value : Option Value)
    (upstream : Fields → Upstream) (accepts : Option ℕ)
    → IsNumbered r.server
    → CallsSafely dumped_size r.server
        (after_length dumped_size r size value upstream accepts)
        (after_length dumped_size r size value upstream accepts).call
after_length-CallsSafely dumped_size r size value upstream accepts numbered =
    elim (Bool-cases (ltb 0 size && leb size max_input_bytes)) [
      | inl sized ↦ rw sized (
          after_check-CallsSafely dumped_size r (loaded value >>= checked_body) upstream accepts
            numbered (loaded-IsFixed value))
      | inr unsized ↦ rw unsized refl
    ]

lengths-CallsSafely :
    (dumped_size : Fields → ℕ) (r : Relay) (lengths : List (Option ℕ)) (value : Option Value)
    (upstream : Fields → Upstream) (accepts : Option ℕ)
    → IsNumbered r.server
    → CallsSafely dumped_size r.server
        (after_lengths dumped_size r lengths value upstream accepts)
        (after_lengths dumped_size r lengths value upstream accepts).call
lengths-CallsSafely dumped_size r [] value upstream accepts numbered = refl
lengths-CallsSafely dumped_size r (none ∷ lengths) value upstream accepts numbered = refl
lengths-CallsSafely dumped_size r (some size ∷ []) value upstream accepts numbered =
    after_length-CallsSafely dumped_size r size value upstream accepts numbered
lengths-CallsSafely dumped_size r (some size ∷ n ∷ lengths) value upstream accepts numbered = refl

forward-CallsSafely :
    (dumped_size : Fields → ℕ) (r : Relay) (request : Request) (upstream : Fields → Upstream)
    (accepts : Option ℕ)
    → IsNumbered r.server
    → CallsSafely dumped_size r.server
        (forward dumped_size r request upstream accepts)
        (forward dumped_size r request upstream accepts).call
unfolding forward
forward-CallsSafely dumped_size r request upstream accepts numbered =
    elim (Bool-cases request.transfer_encoding) [
      | inl encoded ↦ rw encoded refl
      | inr plain ↦ rw plain (
          lengths-CallsSafely dumped_size r request.content_lengths request.value upstream accepts
            numbered)
    ]

-- The handlers leave the ledger as it is.
caught_history :
    (r : Relay) (answer : Answer) → (caught r answer).1.server.history ≡ r.server.history
caught_history r (replied status value) = refl
caught_history r (streamed st) = refl
caught_history r (failed_with timed_out) = refl
caught_history r (failed_with connection_reset) = refl
caught_history r (failed_with (failure value_error)) = refl
caught_history r (failed_with (failure type_error)) = refl
caught_history r (failed_with (failure attribute_error)) = refl
caught_history r (failed_with (failure key_error)) = refl
caught_history r (failed_with (failure os_error)) = refl
caught_history r (broken value_error st) = refl
caught_history r (broken type_error st) = refl
caught_history r (broken attribute_error st) = refl
caught_history r (broken key_error st) = refl
caught_history r (broken os_error st) = refl

finally-CallsSafely :
    (dumped_size : Fields → ℕ) (s : LiveServer) (run : Run) (call : Option (Fields × LiveServer))
    → CallsSafely dumped_size s run call
    → CallsSafely dumped_size s (finally run) call
finally-CallsSafely dumped_size s run none safe = caught_history run.relay run.answer ∙ safe
finally-CallsSafely dumped_size s run (some (sent, t)) safe = safe

-- Where the attempts of the ledger are numbered up to their count, whatever the request and whatever
-- the provider answers: a run that calls the provider sends the fixed prompt, with between one and 512
-- output tokens, without tools and storage, and at that time the ledger has just gained the reserve for
-- the size of that body and its output limit, with a number within the limit and a total within the
-- budget; a run that does not call the provider leaves the ledger as it was.
pub do_post-CallsSafely :
    (dumped_size : Fields → ℕ) (r : Relay) (request : Request) (upstream : Fields → Upstream)
    (accepts : Option ℕ)
    → IsNumbered r.server
    → CallsSafely dumped_size r.server
        (do_post dumped_size r request upstream accepts)
        (do_post dumped_size r request upstream accepts).call
unfolding do_post
do_post-CallsSafely dumped_size r request upstream accepts numbered =
    let entered = record r { active = r.active + 1 } in
    let run = forward dumped_size entered request upstream accepts in
    finally-CallsSafely dumped_size r.server run run.call
      (forward-CallsSafely dumped_size entered request upstream accepts numbered)
