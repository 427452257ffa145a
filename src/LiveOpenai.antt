-- ===== src/LiveOpenai.antt =====
-- examples/gateway-accounting/live.py: the relay for OpenAI, which reuses the guards of the provider
-- trial (`Trial`). Its `LiveServer` keeps the same state as that of live_anthropic.py. A lock makes each
-- method one step.
pub mod Request
pub mod Stream
pub mod Forward
use otelcol_genai_sketches.Base.{
  ℕ, ◌+◌, String, Bool, true, false, List, [], ◌∷◌, if◌then◌else◌, ltb, not,
}
use otelcol_genai_sketches.Base.Errors.{Result, ok, err, value_error, attribute_error}
use otelcol_genai_sketches.Json.{Value, str, nat, dict, Fields, get, truthy}
use otelcol_genai_sketches.Ledger.{reserved, provider_complete}
use otelcol_genai_sketches.LiveAnthropic.{LiveServer, append_row, append_record, next_attempt}
use otelcol_genai_sketches.Trial.{budget_used, reserve_cost, usage_only}

-- The tests of `reserve`, once the total is known.
abbrev pub reserve_within : LiveServer → ℕ → ℕ → Result ℕ × LiveServer
reserve_within s cost used =
    if ltb s.budget (used + cost)
    then (err value_error, s)
    else if ltb s.max_attempts (next_attempt s)
    then (err value_error, s)
    else (ok (next_attempt s), append_row s (reserved (next_attempt s) cost))

-- The state comes back beside the attempt's number or the exception.
unfoldable pub reserve : LiveServer → ℕ → ℕ → Result ℕ × LiveServer
unfolding reserve_cost
reserve s byte_count tokens = elim (budget_used s.history) [
  | ok used ↦ reserve_within s (reserve_cost byte_count tokens) used
  | err e ↦ (err e, s)
]

abbrev reference : String → ℕ → Value → List (String × Value)
reference case case_attempt usage =
    ("event", str "reference")
    ∷ ("attempt", nat case_attempt)
    ∷ ("case", str case)
    ∷ ("protocol", str "openai")
    ∷ ("usage", usage)
    ∷ ("basis", str "provider_response_metadata")
    ∷ []

-- Of a value that is a dict; the source raises an AttributeError for any other.
unfoldable pub observed_usage : LiveServer → ℕ → String → ℕ → Fields → LiveServer
unfolding usage_only
observed_usage s attempt case case_attempt value =
    let usage = usage_only (get "usage" value) in
    if truthy usage
    then append_record (append_row s (provider_complete attempt usage (get "model" value)))
        (reference case case_attempt usage)
    else s
