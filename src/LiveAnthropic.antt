-- ===== src/LiveAnthropic.antt =====
-- examples/gateway-accounting/live_anthropic.py: `LiveServer`, which reserves an estimated cost
-- before each provider call, and `LiveHandler.forward_stream`. A lock makes each method one step.
pub mod Guard
pub mod Stream
pub mod Frames
pub mod Forward
use otelcol_genai_sketches.Base.{
  ℕ, suc, zero, ◌+◌, ◌-◌, ◌*◌, ◌<◌, ◌≤◌, String, Bool, true, false, List, [], ◌∷◌, ◌++◌, ◌||◌, ◌&&◌,
  not, if◌then◌else◌, Option, none, some, ◌==◌, leb, ltb, length, str_eq, one_of, ◌≡◌, refl, arith,
  any,
}
use otelcol_genai_sketches.Base.Errors.{Result, ok, err, value_error}
use otelcol_genai_sketches.Json.{Value, null, bool, str, nat, dict, Fields, end, fields}
use otelcol_genai_sketches.AnthropicProtocol.{budget_used, reserve_cost, usage_only}
use otelcol_genai_sketches.Ledger.{Row, reserved, provider_complete, History}
use otelcol_genai_sketches.Ledger.{reserved_count}

-- `config["cut_mode"]`
pub data CutMode : Type 0 where
  drain cancel : CutMode

-- The budget is in the ledger's units; `records` is provider.jsonl, without its time stamps.
pub record LiveServer : Type 0 where
  pub budget : ℕ
  pub max_attempts : ℕ
  pub cut_mode : CutMode
  pub history : History
  pub records : List Fields

-- `ledger`
abbrev pub append_row : LiveServer → Row → LiveServer
append_row s row = record s { history = s.history ++ row ∷ [] }

-- `StudyServer.record`
abbrev pub append_record : LiveServer → List (String × Value) → LiveServer
append_record s kvs = record s { records = s.records ++ fields kvs ∷ [] }

-- The number that the next attempt takes.
abbrev pub next_attempt : LiveServer → ℕ
next_attempt s = reserved_count s.history + 1

-- The state comes back beside the attempt's number or the exception.
unfoldable pub reserve : LiveServer → ℕ → Result ℕ × LiveServer
unfolding reserve_cost
reserve s byte_count =
    if ltb s.budget (budget_used s.history + reserve_cost byte_count)
    then (err value_error, s)
    else if ltb s.max_attempts (next_attempt s)
    then (err value_error, s)
    else (ok (next_attempt s), append_row s (reserved (next_attempt s) (reserve_cost byte_count)))

abbrev pub is_empty : Fields → Bool
is_empty end = true
is_empty _ = false

abbrev reference : String → ℕ → Fields → Bool → List (String × Value)
reference case case_attempt clean final =
    ("event", str "reference")
    ∷ ("attempt", nat case_attempt)
    ∷ ("case", str case)
    ∷ ("protocol", str "anthropic")
    ∷ ("usage", dict clean)
    ∷ ("basis", str "provider_response_metadata")
    ∷ ("final", bool final)
    ∷ []

unfoldable pub observed_usage : LiveServer → ℕ → String → ℕ → Value → Value → Bool → LiveServer
unfolding usage_only
observed_usage s attempt case case_attempt usage model final =
    let clean = usage_only usage in
    if is_empty clean
    then s
    else if final
    then append_record (append_row s (provider_complete attempt (dict clean) model))
        (reference case case_attempt clean true)
    else append_record s (reference case case_attempt clean false)
