-- ===== src/AnthropicProtocol/Budget.antt =====
-- examples/gateway-accounting/anthropic_protocol.py: the total of the ledger, by the laws of `Ledger`.
use otelcol_genai_sketches.Base.{ℕ, ◌+◌, ◌<◌, ◌≤◌, [], ◌∷◌, ◌++◌, none, some, ◌≡◌}
use otelcol_genai_sketches.Json.{Value}
use otelcol_genai_sketches.Ledger.{
  reserved, provider_complete, History, completed, Within, Covers, known_cost,
}
use otelcol_genai_sketches.Ledger.Budget.{
  total_used-reserve, total_used_complete, total_used-unknown,
}
use otelcol_genai_sketches.AnthropicProtocol.{budget_used, completion_cost}

pub budget_used-reserve :
    (h : History) (a n r : ℕ)
    → Within n h
    → n < a
    → budget_used (h ++ reserved a r ∷ []) ≡ budget_used h + r
unfolding budget_used
budget_used-reserve = total_used-reserve completion_cost

pub budget_used_complete :
    (h : History) (b : ℕ) (u m : Value)
    → completed b h ≡ none
    → Covers completion_cost b u m h
    → budget_used (h ++ provider_complete b u m ∷ []) ≤ budget_used h
unfolding budget_used
budget_used_complete = total_used_complete completion_cost

pub budget_used-unknown :
    (h : History) (b : ℕ) (u m : Value)
    → known_cost completion_cost (completed b h) ≡ none
    → known_cost completion_cost (some (u, m)) ≡ none
    → budget_used (h ++ provider_complete b u m ∷ []) ≡ budget_used h
unfolding budget_used
budget_used-unknown = total_used-unknown completion_cost
