-- ===== src/Trial/Costs.antt =====
-- examples/integrations/litellm/provider-trial/relay.py: a cost against its reserve, and the total of
-- the ledger by the laws of `Ledger`.
use otelcol_genai_sketches.Base.{
  ℕ, ◌+◌, ◌≤◌, Bool, true, false, [], ◌∷◌, Option, none, some, if◌then◌else◌, ◌≡◌, sym, ap, ◌∙◌,
  arith,
}
use otelcol_genai_sketches.Base.Errors.{Result, ok, err, ◌>>=◌}
use otelcol_genai_sketches.Base.Errors.Laws.{>>=-ok, ok-inj}
use otelcol_genai_sketches.Json.{Value, dict, Fields, get, is_text}
use otelcol_genai_sketches.Analyze.Counts.{or_zero}
use otelcol_genai_sketches.Ledger.{
  reserved, provider_complete, History, completed, or_reserve, known_cost, charge,
  used_by as ledger_used_by, total_used,
}
use otelcol_genai_sketches.Trial.{
  usage_cost, reserve_cost, actual_cost, used_by, budget_used, priced, natural, cached_of,
  model_name,
}

some-inj : (m n : ℕ) → some m ≡ some n → m ≡ n
some-inj m n h = cc

priced-bound :
    (inp out cached : Option ℕ) (c size tokens : ℕ)
    → priced inp out cached ≡ some c
    → or_zero inp ≤ size + 4096
    → or_zero out ≤ tokens
    → c ≤ reserve_cost size tokens
unfolding reserve_cost
priced-bound none out cached c size tokens h within few = cc
priced-bound (some i) none cached c size tokens h within few = cc
priced-bound (some i) (some o) none c size tokens h within few = cc
priced-bound (some i) (some o) (some k) c size tokens h within few = ground arith

-- A known cost is at most the reserve of the request, if the prompt tokens are no more than its bytes
-- and the allowance of 4096, and the completion tokens are within its limit.
pub usage_cost-le_reserve :
    (usage : Fields) (c size tokens : ℕ)
    → usage_cost (dict usage) ≡ ok (some c)
    → or_zero (natural (get "prompt_tokens" usage)) ≤ size + 4096
    → or_zero (natural (get "completion_tokens" usage)) ≤ tokens
    → c ≤ reserve_cost size tokens
unfolding usage_cost
usage_cost-le_reserve usage c size tokens h within few =
    let (cached, read, cost) =
      >>=-ok (cached_of (get "prompt_tokens_details" usage)) _ (some c) h in
    priced-bound (natural (get "prompt_tokens" usage)) (natural (get "completion_tokens" usage))
      (natural cached) c size tokens (ok-inj _ (some c) cost) within few

-- A cost that raises is taken as unknown.
abbrev or_unknown : Result (Option ℕ) → Option ℕ
or_unknown (ok cost) = cost
or_unknown (err e) = none

abbrev pub completion_cost : Value → Value → Option ℕ
completion_cost usage model =
    if is_text model_name model then or_unknown (usage_cost usage) else none

known_if :
    (b : Bool) (r : Result (Option ℕ)) (cost : Option ℕ)
    → (if b then r else ok none) ≡ ok cost
    → cost ≡ (if b then or_unknown r else none)
known_if true r cost h = sym (ap or_unknown h)
known_if false r cost h = sym (ok-inj none cost h)

actual_cost-known_cost :
    (done : Option (Value × Value)) (cost : Option ℕ)
    → actual_cost done ≡ ok cost
    → cost ≡ known_cost completion_cost done
unfolding actual_cost
actual_cost-known_cost none cost h = sym (ok-inj none cost h)
actual_cost-known_cost (some (usage, model)) cost h =
    known_if (is_text model_name model) (usage_cost usage) cost h

used_by-ledger_used_by :
    (all history : History) (n : ℕ)
    → used_by all history ≡ ok n
    → n ≡ ledger_used_by completion_cost all history
unfolding used_by ledger_used_by charge
used_by-ledger_used_by all [] n h = sym (ok-inj 0 n h)
used_by-ledger_used_by all (reserved a r ∷ history) n h =
    let (cost, actual, after) =
      >>=-ok (actual_cost (completed a all))
        (λ cost. used_by all history >>= λ total. ok (or_reserve cost r + total)) n h in
    let (total, rest, sum) =
      >>=-ok (used_by all history) (λ total. ok (or_reserve cost r + total)) n after in
    sym (ok-inj (or_reserve cost r + total) n sum)
    ∙ ap (λ c. or_reserve c r + total) (actual_cost-known_cost (completed a all) cost actual)
    ∙ ap (λ t. or_reserve (known_cost completion_cost (completed a all)) r + t)
        (used_by-ledger_used_by all history total rest)
used_by-ledger_used_by all (provider_complete a u m ∷ history) n h =
    used_by-ledger_used_by all history n h

-- Where it raises nothing, the total is that of `Ledger`.
pub budget_used-total_used :
    (history : History) (n : ℕ)
    → budget_used history ≡ ok n
    → n ≡ total_used completion_cost history
unfolding budget_used total_used
budget_used-total_used history n h = used_by-ledger_used_by history history n h
