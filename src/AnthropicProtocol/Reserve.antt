-- ===== src/AnthropicProtocol/Reserve.antt =====
-- examples/gateway-accounting/anthropic_protocol.py: `usage_cost` against `reserve_cost`.
use otelcol_genai_sketches.Base.{
  ℕ, ◌+◌, ◌*◌, ◌≤◌, Bool, true, false, ◌||◌, not, if◌then◌else◌, none, some, ◌≡◌, sym, arith,
}
use otelcol_genai_sketches.Json.{Value, has}
use otelcol_genai_sketches.Analyze.Counts.{obj}
use otelcol_genai_sketches.AnthropicProtocol.{
  usage_only, usage_cost, reserve_cost, amount, cost_of, has_invalid, max_output,
}

some-inj : (m n : ℕ) → some m ≡ some n → m ≡ n
some-inj m n h = cc

-- The only cost that `usage_cost` returns is that of the valid counts.
select_cost :
    (lacking invalid : Bool) (total c : ℕ)
    → (if lacking then none else if invalid then none else some total) ≡ some c
    → total ≡ c
select_cost true invalid total c h = cc
select_cost false true total c h = cc
select_cost false false total c h = some-inj total c h

usage_cost-cost_of : (v : Value) (c : ℕ) → usage_cost v ≡ some c → cost_of (usage_only v) ≡ c
unfolding usage_cost
usage_cost-cost_of v c h =
    select_cost
      (not (has "input_tokens" (usage_only v)) || not (has "output_tokens" (usage_only v)))
      (has_invalid (obj v) (usage_only v)) (cost_of (usage_only v)) c h

-- The dearest input rate is that of a cache write.
cost_bound :
    (input output creation read n : ℕ)
    → input + creation + read ≤ n + 4096
    → output ≤ 512
    → input * 300 + output * 1500 + creation * 375 + read * 30 ≤ (n + 4096) * 375 + 512 * 1500
cost_bound input output creation read n within few = omega arith

-- An answer costs no more than the reserve of its request, if its input tokens, cached or not, are no
-- more than the request's bytes and the wrapper allowance, and its output is within the limit.
pub usage_cost-reserve_cost :
    (v : Value) (c byte_count : ℕ)
    → usage_cost v ≡ some c
    → amount "input_tokens" (usage_only v)
        + amount "cache_creation_input_tokens" (usage_only v)
        + amount "cache_read_input_tokens" (usage_only v)
      ≤ byte_count + 4096
    → amount "output_tokens" (usage_only v) ≤ max_output
    → c ≤ reserve_cost byte_count
unfolding reserve_cost
usage_cost-reserve_cost v c byte_count cost within few = rw (sym (usage_cost-cost_of v c cost)) (
    cost_bound (amount "input_tokens" (usage_only v)) (amount "output_tokens" (usage_only v))
      (amount "cache_creation_input_tokens" (usage_only v))
      (amount "cache_read_input_tokens" (usage_only v)) byte_count within few)
