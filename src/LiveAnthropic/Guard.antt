-- ===== src/LiveAnthropic/Guard.antt =====
-- The spend guard of `LiveServer`, over every sequence of reservations and observations.
use otelcol_genai_sketches.Base.{
  ℕ, suc, ◌+◌, ◌<◌, ◌≤◌, String, true, false, [], ◌∷◌, none, ltb, ◌≡◌, refl, arith, Bool-cases, inl,
  inr, ◌⊎◌, ltb→lt,
}
use otelcol_genai_sketches.Base.Errors.{Result, ok, err}
use otelcol_genai_sketches.Json.{Value, dict}
use otelcol_genai_sketches.AnthropicProtocol.{
  completion_cost, budget_used, reserve_cost, usage_only,
}
use otelcol_genai_sketches.Ledger.{reserved, provider_complete, completed}
use otelcol_genai_sketches.AnthropicProtocol.Budget.{budget_used-reserve, budget_used_complete}
use otelcol_genai_sketches.Ledger.{reserved_count, Within, Covers}
use otelcol_genai_sketches.Ledger.Rows.{
  Within-weaken, Within-append, reserved_count-append_reserved, reserved_count-append_complete,
}
use otelcol_genai_sketches.LiveAnthropic.{
  LiveServer, append_row, reserve, observed_usage, next_attempt, is_empty,
}

-- A successful reservation or a refusal, or the observation of a provider's answer. A final
-- observation is the attempt's first, of an attempt that was reserved, and costs at most its reserve.
pub data Step : LiveServer → LiveServer → Type 0 where
  reserving : (s : LiveServer) (byte_count : ℕ) → Step s (reserve s byte_count).1
  observing :
      (s : LiveServer) (attempt : ℕ) (case : String) (case_attempt : ℕ) (usage model : Value)
      → Step s (observed_usage s attempt case case_attempt usage model false)
  completing :
      (s : LiveServer) (attempt : ℕ) (case : String) (case_attempt : ℕ) (usage model : Value)
      → attempt ≤ reserved_count s.history
      → completed attempt s.history ≡ none
      → Covers completion_cost attempt (dict (usage_only usage)) model s.history
      → Step s (observed_usage s attempt case case_attempt usage model true)

pub data Reach (s : LiveServer) : LiveServer → Type 0 where
  here : Reach s s
  next : {t u : LiveServer} → Reach s t → Step t u → Reach s u

-- The estimated total is within the budget, the attempts are within the limit, and every row's
-- attempt has been reserved.
pub record IsGuarded (s : LiveServer) : Type 0 where
  pub within_budget : budget_used s.history ≤ s.budget
  pub within_limit : reserved_count s.history ≤ s.max_attempts
  pub numbered : Within (reserved_count s.history) s.history

append_reserved-IsGuarded :
    (s : LiveServer) (r : ℕ)
    → IsGuarded s
    → budget_used s.history + r ≤ s.budget
    → next_attempt s ≤ s.max_attempts
    → IsGuarded (append_row s (reserved (next_attempt s) r))
append_reserved-IsGuarded s r g room slot =
    let grown = reserved_count-append_reserved s.history (next_attempt s) r in
    record {
      within_budget =
          rw
            (budget_used-reserve s.history (next_attempt s) (reserved_count s.history) r g.numbered
              (omega arith))
            room;
      within_limit = rw grown (omega arith);
      numbered = rw grown (
          Within-append (suc (reserved_count s.history)) s.history
            (reserved (next_attempt s) r ∷ [])
            (Within-weaken (reserved_count s.history) (suc (reserved_count s.history)) s.history
              (omega arith) g.numbered)
            (omega arith, tt));
    }

reserve-IsGuarded : (s : LiveServer) (n : ℕ) → IsGuarded s → IsGuarded (reserve s n).1
unfolding reserve
reserve-IsGuarded s n g =
    elim (Bool-cases (ltb s.budget (budget_used s.history + reserve_cost n))) [
      | inl over ↦ rw over g
      | inr room ↦ rw room (elim (Bool-cases (ltb s.max_attempts (next_attempt s))) [
        | inl full ↦ rw full g
        | inr slot ↦
            rw slot (append_reserved-IsGuarded s (reserve_cost n) g (ground arith) (ground arith))
      ])
    ]

complete-IsGuarded :
    (s : LiveServer) (attempt : ℕ) (case : String) (case_attempt : ℕ) (usage model : Value)
    → attempt ≤ reserved_count s.history
    → completed attempt s.history ≡ none
    → Covers completion_cost attempt (dict (usage_only usage)) model s.history
    → IsGuarded s
    → IsGuarded (observed_usage s attempt case case_attempt usage model true)
unfolding observed_usage
complete-IsGuarded s attempt case case_attempt usage model le fresh covers g =
    elim (Bool-cases (is_empty (usage_only usage))) [
      | inl nothing ↦ rw nothing g
      | inr something ↦ rw something (
          let u = dict (usage_only usage) in
          let same = reserved_count-append_complete s.history attempt u model in
          record {
            within_budget = omega (
              arith,
              budget_used_complete s.history attempt u model fresh covers,
              g.within_budget,
            );
            within_limit = rw same g.within_limit;
            numbered = rw same (
                Within-append (reserved_count s.history) s.history
                  (provider_complete attempt u model ∷ []) g.numbered (le, tt));
          })
    ]

observe-IsGuarded :
    (s : LiveServer) (attempt : ℕ) (case : String) (case_attempt : ℕ) (usage model : Value)
    → IsGuarded s
    → IsGuarded (observed_usage s attempt case case_attempt usage model false)
unfolding observed_usage
observe-IsGuarded s attempt case case_attempt usage model g =
    elim (Bool-cases (is_empty (usage_only usage))) [
      | inl nothing ↦ rw nothing g
      | inr something ↦ rw something (record {
        within_budget = g.within_budget;
        within_limit = g.within_limit;
        numbered = g.numbered;
      })
    ]

Step-IsGuarded : {s t : LiveServer} → Step s t → IsGuarded s → IsGuarded t
Step-IsGuarded (reserving s n) g = reserve-IsGuarded s n g
Step-IsGuarded (observing s a c ca u m) g = observe-IsGuarded s a c ca u m g
Step-IsGuarded (completing s a c ca u m le fresh covers) g =
    complete-IsGuarded s a c ca u m le fresh covers g

-- From a guarded server, after any sequence of reservations (granted or refused), provisional
-- observations and first completions within their reserves, the estimated total of the ledger is at
-- most the budget, the number of reserved attempts is at most the limit, and every row names one of
-- the reserved attempts.
pub Reach-IsGuarded : {s t : LiveServer} → IsGuarded s → Reach s t → IsGuarded t
Reach-IsGuarded g here = g
Reach-IsGuarded g (next r st) = Step-IsGuarded st (Reach-IsGuarded g r)

-- A granted reservation takes the next number and adds exactly its reserve to the total; a refused
-- one changes nothing and is refused only where the reserve does not fit the budget or the attempts
-- are used up.
abbrev pub Reserves : LiveServer → ℕ → Result ℕ × LiveServer → Type 0
Reserves s n (ok a, t) =
    (a ≡ next_attempt s)
    × (a ≤ s.max_attempts)
    × (budget_used t.history ≡ budget_used s.history + reserve_cost n)
    × (budget_used t.history ≤ s.budget)
Reserves s n (err e, t) =
    (t ≡ s)
    × ((s.budget < budget_used s.history + reserve_cost n) ⊎ (s.max_attempts < next_attempt s))

pub reserve-Reserves : (s : LiveServer) (n : ℕ) → IsGuarded s → Reserves s n (reserve s n)
unfolding reserve
reserve-Reserves s n g =
    let e =
      budget_used-reserve s.history (next_attempt s) (reserved_count s.history) (reserve_cost n)
        g.numbered (omega arith) in
    elim (Bool-cases (ltb s.budget (budget_used s.history + reserve_cost n))) [
      | inl over ↦ rw over (refl, inl (ltb→lt _ _ over))
      | inr room ↦ rw room (elim (Bool-cases (ltb s.max_attempts (next_attempt s))) [
        | inl full ↦ rw full (refl, inr (ltb→lt _ _ full))
        | inr slot ↦ rw slot (refl, ground arith, e, rw e (ground arith))
      ])
    ]
