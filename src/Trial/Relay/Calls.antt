-- ===== src/Trial/Relay/Calls.antt =====
-- examples/integrations/litellm/provider-trial/relay.py: the calls of the provider that
-- `Handler.handle_post` makes.
use otelcol_genai_sketches.Base.{
  ℕ, ◌+◌, ◌≤◌, String, Bool, false, [], ◌∷◌, ◌++◌, ◌||◌, ◌&&◌, if◌then◌else◌, Option, none, some,
  ◌==◌, ltb, ◌≡◌, refl, sym, arith, Bool-cases, inl, inr,
}
use otelcol_genai_sketches.Base.Errors.{Result, ok, err, ◌>>=◌}
use otelcol_genai_sketches.Base.Errors.Laws.{ok-inj, >>-ok}
use otelcol_genai_sketches.Json.{Value, bool, null, int, real, str, arr, dict, Fields, put}
use otelcol_genai_sketches.Ledger.{reserved, reserved_count, Within, total_used}
use otelcol_genai_sketches.Ledger.Budget.{total_used-reserve}
use otelcol_genai_sketches.Trial.{budget_used, reserve_cost}
use otelcol_genai_sketches.Trial.Costs.{completion_cost, budget_used-total_used}
use otelcol_genai_sketches.Trial.Validate.{validate}
use otelcol_genai_sketches.Trial.Validate.Bounded.{IsBounded, validate-IsBounded}
use otelcol_genai_sketches.Trial.Relay.Stream.{Relay}
use otelcol_genai_sketches.Trial.Relay.{
  Request, Upstream, Run, max_provider_attempts, reserve, output_limit, after_reserve, relay_body,
  checked, after_check, is_framed, after_match, handle_post, starts_retry, prior,
}

-- The number of the next attempt.
abbrev next_number : Relay → ℕ
next_number r = reserved_count r.history + 1

-- The ledger of `s` is that of `r` with one more reserve for the size and the output limit, whose
-- number is within the limit and whose total is within the budget.
abbrev pub PaidFrom : Relay → ℕ → ℕ → Relay → Type 0
PaidFrom r size tokens s =
    (s.history ≡ r.history ++ reserved (next_number r) (reserve_cost size tokens) ∷ [])
    × (next_number r ≤ max_provider_attempts)
    × (total_used completion_cost s.history ≤ r.budget)

abbrev Reserved : Relay → ℕ → ℕ → Result (Option ℕ × Relay) → Type 0
Reserved r size tokens (err e) = Unit {0}
Reserved r size tokens (ok (none, s)) = s.history ≡ r.history
Reserved r size tokens (ok (some a, s)) = PaidFrom r size tokens s

-- The attempts of the ledger are numbered up to their count.
abbrev pub IsNumbered : Relay → Type 0
IsNumbered r = Within (reserved_count r.history) r.history

granted :
    (r : Relay) (used size tokens : ℕ)
    → IsNumbered r
    → used ≡ total_used completion_cost r.history
    → (ltb r.budget (used + reserve_cost size tokens) || ltb max_provider_attempts (next_number r))
      ≡ false
    → PaidFrom r size tokens (record r {
      history = r.history ++ reserved (next_number r) (reserve_cost size tokens) ∷ [];
    })
granted r used size tokens numbered same fits = (
  refl,
  ground arith,
  ground (
    arith,
    total_used-reserve completion_cost r.history (next_number r) (reserved_count r.history)
        (reserve_cost size tokens) numbered (omega arith),
  ),
)

choose :
    (r : Relay) (used size tokens : ℕ)
    → IsNumbered r
    → used ≡ total_used completion_cost r.history
    → Reserved r size tokens (
        ok (
          if ltb r.budget (used + reserve_cost size tokens)
            || ltb max_provider_attempts (next_number r)
          then (none, r)
          else (
            some (next_number r),
            record r {
              history = r.history ++ reserved (next_number r) (reserve_cost size tokens) ∷ [];
            },
          )))
choose r used size tokens numbered same =
    elim (Bool-cases (
      ltb r.budget (used + reserve_cost size tokens)
      || ltb max_provider_attempts (next_number r))) [
        | inl full ↦ rw full refl
        | inr fits ↦ rw fits (granted r used size tokens numbered same fits)
      ]

after_total :
    (r : Relay) (total : Result ℕ) (size tokens : ℕ)
    → IsNumbered r
    → ((n : ℕ) → total ≡ ok n → n ≡ total_used completion_cost r.history)
    → Reserved r size tokens (
        total >>= λ used. ok (
          if ltb r.budget (used + reserve_cost size tokens)
            || ltb max_provider_attempts (next_number r)
          then (none, r)
          else (
            some (next_number r),
            record r {
              history = r.history ++ reserved (next_number r) (reserve_cost size tokens) ∷ [];
            },
          )))
after_total r (err e) size tokens numbered same = tt
after_total r (ok used) size tokens numbered same =
    choose r used size tokens numbered (same used refl)

reserve-Reserved :
    (r : Relay) (size tokens : ℕ) → IsNumbered r → Reserved r size tokens (reserve r size tokens)
unfolding reserve
reserve-Reserved r size tokens numbered = elim (Bool-cases (r.budget == 0)) [
  | inl empty ↦ rw empty refl
  | inr funded ↦ rw funded (
      after_total r (budget_used r.history) size tokens numbered (budget_used-total_used r.history))
]

-- What a run did: it called the provider with a bounded body, which had been paid for, or it left the
-- ledger as it was.
abbrev pub CallsSafely : Relay → ℕ → Run → Option (Fields × Relay) → Type 0
CallsSafely r size run none = run.relay.history ≡ r.history
CallsSafely r size run (some (body, s)) =
    PaidFrom r size (output_limit body) s
    × (asked : Fields) × (body ≡ put "store" (bool false) asked)
    × IsBounded asked

abbrev Asked : Fields → Type 0
Asked body = (asked : Fields) × (body ≡ put "store" (bool false) asked) × IsBounded asked

after_reserve-CallsSafely :
    (r : Relay) (case : String) (first : Bool) (size : ℕ) (body : Fields)
    (upstream : Fields → Upstream) (accepts : Option ℕ) (shutdown : Bool)
    (reservation : Result (Option ℕ × Relay))
    → Reserved r size (output_limit body) reservation
    → Asked body
    → CallsSafely r size
        (after_reserve r case first body upstream accepts shutdown reservation)
        (after_reserve r case first body upstream accepts shutdown reservation).call
after_reserve-CallsSafely r case first size body upstream accepts shutdown (err e) paid asked = refl
after_reserve-CallsSafely r case first size body upstream accepts shutdown (ok (none, s)) paid
      asked =
    paid
after_reserve-CallsSafely r case first size body upstream accepts shutdown (ok (some a, s)) paid
      (q, e, b) =
    (paid, q, e, b)

relay_body-CallsSafely :
    (r : Relay) (case : String) (size : ℕ) (body : Fields) (upstream : Fields → Upstream)
    (accepts : Option ℕ) (shutdown : Bool)
    → IsNumbered r
    → Asked body
    → CallsSafely r size
        (relay_body r case size body upstream accepts shutdown)
        (relay_body r case size body upstream accepts shutdown).call
unfolding relay_body
relay_body-CallsSafely r case size body upstream accepts shutdown numbered asked =
    elim (Bool-cases (starts_retry case && prior case r == 0)) [
      | inl retry ↦ rw retry refl
      | inr other ↦ rw other (
          let received = record r { received = r.received ++ case ∷ [] } in
          after_reserve-CallsSafely received case (prior case r == 0) size body upstream accepts
            shutdown (reserve received size (output_limit body))
            (reserve-Reserved received size (output_limit body) numbered) asked)
    ]

checked-Asked : (value : Option Value) (body : Fields) → checked value ≡ ok body → Asked body
checked-Asked (some (dict asked)) body h =
    let (valid, same) =
      >>-ok (validate (dict asked)) (ok (put "store" (bool false) asked)) body h in
    (asked, sym (ok-inj (put "store" (bool false) asked) body same), validate-IsBounded asked valid)
checked-Asked none body h = cc
checked-Asked (some null) body h = cc
checked-Asked (some (bool b)) body h = cc
checked-Asked (some (int n)) body h = cc
checked-Asked (some (real x)) body h = cc
checked-Asked (some (str s)) body h = cc
checked-Asked (some (arr vs)) body h = cc

after_check-CallsSafely :
    (r : Relay) (case : String) (size : ℕ) (upstream : Fields → Upstream) (accepts : Option ℕ)
    (shutdown : Bool) (checked_body : Result Fields)
    → IsNumbered r
    → ((body : Fields) → checked_body ≡ ok body → Asked body)
    → CallsSafely r size
        (after_check r case size upstream accepts shutdown checked_body)
        (after_check r case size upstream accepts shutdown checked_body).call
after_check-CallsSafely r case size upstream accepts shutdown (err e) numbered asked = refl
after_check-CallsSafely r case size upstream accepts shutdown (ok body) numbered asked =
    relay_body-CallsSafely r case size body upstream accepts shutdown numbered (asked body refl)

after_match-CallsSafely :
    (r : Relay) (case : Option String) (request : Request) (upstream : Fields → Upstream)
    (accepts : Option ℕ) (shutdown : Bool)
    → IsNumbered r
    → CallsSafely r request.size
        (after_match r case request upstream accepts shutdown)
        (after_match r case request upstream accepts shutdown).call
after_match-CallsSafely r none request upstream accepts shutdown numbered = refl
after_match-CallsSafely r (some case) request upstream accepts shutdown numbered =
    elim (Bool-cases (is_framed case request.size)) [
      | inl framed ↦ rw framed (
          after_check-CallsSafely r case request.size upstream accepts shutdown
            (checked request.body) numbered (checked-Asked request.body))
      | inr unframed ↦ rw unframed refl
    ]

-- Where the attempts of the ledger are numbered up to their count, whatever the request and whatever
-- the provider answers: a run that calls the provider sends a body that the checks have bounded, with
-- store switched off, and at that time the ledger has just gained the reserve for the size of the
-- request and the output limit of that body, with a number within the limit and a total within the
-- budget; a run that does not call the provider leaves the ledger as it was.
pub handle_post-CallsSafely :
    (r : Relay) (request : Request) (upstream : Fields → Upstream) (accepts : Option ℕ)
    (shutdown : Bool)
    → IsNumbered r
    → CallsSafely r request.size
        (handle_post r request upstream accepts shutdown)
        (handle_post r request upstream accepts shutdown).call
unfolding handle_post
handle_post-CallsSafely r request upstream accepts shutdown numbered =
    after_match-CallsSafely r request.case request upstream accepts shutdown numbered
