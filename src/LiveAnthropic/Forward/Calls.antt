-- ===== src/LiveAnthropic/Forward/Calls.antt =====
-- examples/gateway-accounting/live_anthropic.py: the calls of the provider that `LiveHandler.forward`
-- makes.
use otelcol_genai_sketches.Base.{
  ℕ, ◌+◌, ◌≤◌, [], ◌∷◌, ◌++◌, ◌&&◌, Option, none, some, ◌==◌, ltb, str_eq, ◌≡◌, refl, sym, ◌∙◌,
  subst, Bool-cases, inl, inr,
}
use otelcol_genai_sketches.Base.Errors.{Result, ok, err, ◌>>=◌}
use otelcol_genai_sketches.Json.{Value, str, Fields}
use otelcol_genai_sketches.Analyze.Counts.{anthropic}
use otelcol_genai_sketches.AnthropicProtocol.{budget_used, reserve_cost, model_name}
use otelcol_genai_sketches.Ledger.{reserved}
use otelcol_genai_sketches.AnthropicProtocol.Request.{request_body, is_cache_case}
use otelcol_genai_sketches.AnthropicProtocol.Request.Check.{checked_body}
use otelcol_genai_sketches.AnthropicProtocol.Request.Fixed.{AgreesWith, checked_body-AgreesWith}
use otelcol_genai_sketches.LiveAnthropic.{LiveServer, reserve, next_attempt}
use otelcol_genai_sketches.LiveAnthropic.Guard.{IsGuarded, Reserves, reserve-Reserves}
use otelcol_genai_sketches.LiveAnthropic.Forward.{
  Relay, Request, Upstream, Run, check_framing, log_shape, log_attempt, call_provider, relay_body,
  after_check, after_framing, loaded, forward,
}

-- The ledger and the limits are the same.
abbrev SameLedger : LiveServer → LiveServer → Type 0
SameLedger s t = (t.history ≡ s.history) × (t.budget ≡ s.budget) × (t.max_attempts ≡ s.max_attempts)

-- A granted reservation stands at the end of the ledger; a refused one leaves it as it was.
abbrev Paid : LiveServer → ℕ → Result ℕ × LiveServer → Type 0
Paid s n (ok a, t) = t.history ≡ s.history ++ reserved (next_attempt s) (reserve_cost n) ∷ []
Paid s n (err e, t) = t.history ≡ s.history

reserve-Paid : (s : LiveServer) (n : ℕ) → Paid s n (reserve s n)
unfolding reserve
reserve-Paid s n = elim (Bool-cases (ltb s.budget (budget_used s.history + reserve_cost n))) [
  | inl over ↦ rw over refl
  | inr room ↦ rw room (elim (Bool-cases (ltb s.max_attempts (next_attempt s))) [
    | inl full ↦ rw full refl
    | inr slot ↦ rw slot refl
  ])
]

-- The relay paid `n` bytes from the ledger of `s` before the call: the reserve is the ledger's last
-- row, its number is within the limit, and the total is within the budget.
abbrev pub PaidCall : LiveServer → ℕ → LiveServer → Type 0
PaidCall s n t =
    (t.history ≡ s.history ++ reserved (next_attempt s) (reserve_cost n) ∷ [])
    × (next_attempt s ≤ s.max_attempts)
    × (budget_used t.history ≤ s.budget)

-- What a run did to the ledger of `s`: it called the provider with a paid body, or left it.
abbrev Settles : LiveServer → (Fields → ℕ) → Fields → Run → Option (Fields × LiveServer) → Type 0
Settles s dumped_size body run (some (sent, t)) = (sent ≡ body) × PaidCall s (dumped_size body) t
Settles s dumped_size body run none = run.relay.server.history ≡ s.history

call_provider-Settles :
    (dumped_size : Fields → ℕ) (r : Relay) (body : Fields) (upstream : Fields → Upstream)
    (accepts : Option ℕ) (reservation : Result ℕ × LiveServer)
    → Reserves r.server (dumped_size body) reservation
    → Paid r.server (dumped_size body) reservation
    → Settles r.server dumped_size body
        (call_provider r body upstream accepts reservation)
        ((call_provider r body upstream accepts reservation).call)
unfolding call_provider
call_provider-Settles dumped_size r body upstream accepts (err e, t) reserves paid = paid
call_provider-Settles dumped_size r body upstream accepts (ok a, t) (number, limit, total, room)
      paid =
    (refl, (paid, subst (λ n. n ≤ r.server.max_attempts) number limit, room))

log_shape-SameLedger : (r : Relay) (body : Fields) → SameLedger r.server (log_shape r body).server
log_shape-SameLedger r body = elim (Bool-cases (is_cache_case r.case)) [
  | inl cached ↦ rw cached (refl, refl, refl)
  | inr plain ↦ rw plain (refl, refl, refl)
]

SameLedger-IsGuarded : (s t : LiveServer) → SameLedger s t → IsGuarded s → IsGuarded t
SameLedger-IsGuarded s t (history, budget, limit) g = record {
  within_budget = rw (history, budget) g.within_budget;
  within_limit = rw (history, limit) g.within_limit;
  numbered = rw history g.numbered;
}

Settles-SameLedger :
    (dumped_size : Fields → ℕ) (s t : LiveServer) (body : Fields) (run : Run)
    (call : Option (Fields × LiveServer))
    → SameLedger s t
    → Settles t dumped_size body run call
    → Settles s dumped_size body run call
Settles-SameLedger dumped_size s t body run none (history, budget, limit) h = h ∙ history
Settles-SameLedger dumped_size s t body run (some (sent, u)) (history, budget, limit) h =
    rw (sym history, sym budget, sym limit) h

relay_body-Settles :
    (dumped_size : Fields → ℕ) (r : Relay) (body : Fields) (upstream : Fields → Upstream)
    (accepts : Option ℕ)
    → IsGuarded r.server
    → Settles r.server dumped_size body
        (relay_body dumped_size r body upstream accepts)
        ((relay_body dumped_size r body upstream accepts).call)
unfolding relay_body
relay_body-Settles dumped_size r body upstream accepts g =
    elim (Bool-cases (str_eq r.case "retry429" && r.attempts == 1)) [
      | inl retry ↦ rw retry (log_shape-SameLedger r body).0
      | inr other ↦ rw other (
          let logged = log_attempt (log_shape r body) body in
          let same = log_shape-SameLedger r body in
          let n = dumped_size body in
          Settles-SameLedger dumped_size r.server logged.server body
            (call_provider logged body upstream accepts (reserve logged.server n))
            (call_provider logged body upstream accepts (reserve logged.server n)).call same
            (call_provider-Settles dumped_size logged body upstream accepts
              (reserve logged.server n)
              (reserve-Reserves logged.server n
                (SameLedger-IsGuarded r.server logged.server same g))
              (reserve-Paid logged.server n)))
    ]

-- The body agrees with the fixed request of the case.
abbrev pub Checked : Relay → Fields → Type 0
Checked r body =
    (fixed : Fields) × (request_body (str model_name) r.case anthropic r.cache_nonce ≡ ok fixed)
    × AgreesWith body fixed

-- A run that called the provider sent a body that agrees with the fixed request of the case, and had
-- paid for it.
abbrev pub CallsSafely : (Fields → ℕ) → Relay → Run → Option (Fields × LiveServer) → Type 0
CallsSafely dumped_size r run none = run.relay.server.history ≡ r.server.history
CallsSafely dumped_size r run (some (sent, t)) =
    PaidCall r.server (dumped_size sent) t × Checked r sent

Settles-CallsSafely :
    (dumped_size : Fields → ℕ) (r : Relay) (body : Fields) (run : Run)
    (call : Option (Fields × LiveServer))
    → Checked r body
    → Settles r.server dumped_size body run call
    → CallsSafely dumped_size r run call
Settles-CallsSafely dumped_size r body run none checked h = h
Settles-CallsSafely dumped_size r body run (some (sent, t)) checked (same, paid) =
    subst (λ b. PaidCall r.server (dumped_size b) t × Checked r b) (sym same) (paid, checked)

after_check-CallsSafely :
    (dumped_size : Fields → ℕ) (r : Relay) (checked : Result Fields) (upstream : Fields → Upstream)
    (accepts : Option ℕ)
    → IsGuarded r.server
    → ((body : Fields) → checked ≡ ok body → Checked r body)
    → CallsSafely dumped_size r
        (after_check dumped_size r checked upstream accepts)
        (after_check dumped_size r checked upstream accepts).call
after_check-CallsSafely dumped_size r (err e) upstream accepts g agrees = refl
after_check-CallsSafely dumped_size r (ok body) upstream accepts g agrees =
    Settles-CallsSafely dumped_size r body (relay_body dumped_size r body upstream accepts)
      (relay_body dumped_size r body upstream accepts).call (agrees body refl)
      (relay_body-Settles dumped_size r body upstream accepts g)

loaded-Checked :
    (r : Relay) (value : Option Value) (body : Fields)
    → (loaded value >>= λ v. checked_body v r.case r.cache_nonce) ≡ ok body
    → Checked r body
loaded-Checked r none body h = cc
loaded-Checked r (some v) body h =
    let (_, fixed, requested, agrees) = checked_body-AgreesWith v r.case r.cache_nonce body h in
    (fixed, requested, agrees)

after_framing-CallsSafely :
    (dumped_size : Fields → ℕ) (r : Relay) (framing : Result (Unit {0})) (request : Request)
    (upstream : Fields → Upstream) (accepts : Option ℕ)
    → IsGuarded r.server
    → CallsSafely dumped_size r
        (after_framing dumped_size r framing request upstream accepts)
        (after_framing dumped_size r framing request upstream accepts).call
unfolding after_framing
after_framing-CallsSafely dumped_size r (err e) request upstream accepts g = refl
after_framing-CallsSafely dumped_size r (ok framed) request upstream accepts g =
    after_check-CallsSafely dumped_size (record r { attempts = r.attempts + 1 })
      (loaded request.value >>= λ v. checked_body v r.case r.cache_nonce) upstream accepts g
      (loaded-Checked (record r { attempts = r.attempts + 1 }) request.value)

-- On a guarded server, whatever the request and whatever the provider answers: a run that calls the
-- provider sends a body that agrees with the fixed request of the case, and at that time the ledger has
-- just gained the reserve for that body's size, with a number within the limit and a total within the
-- budget; a run that does not call the provider leaves the ledger as it was.
pub forward-CallsSafely :
    (dumped_size : Fields → ℕ) (r : Relay) (request : Request) (upstream : Fields → Upstream)
    (accepts : Option ℕ)
    → IsGuarded r.server
    → CallsSafely dumped_size r
        (forward dumped_size r request upstream accepts)
        (forward dumped_size r request upstream accepts).call
unfolding forward
forward-CallsSafely dumped_size r request upstream accepts g =
    after_framing-CallsSafely dumped_size r (check_framing request) request upstream accepts g
