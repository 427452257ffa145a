-- ===== src/AnthropicProtocol.antt =====
-- examples/gateway-accounting/anthropic_protocol.py: the costs of the local spend guard. Costs are counted in units of 10^-8 USD: each rate per million tokens is a
-- whole number of units per token, so the sums that the source makes in Decimal are whole numbers
-- here. (Decimal rounds at 28 digits, which no sum below 10^20 USD reaches.)
pub mod Budget
pub mod Request
pub mod Reserve
use otelcol_genai_sketches.Base.{
  ℕ, suc, zero, ◌+◌, ◌-◌, ◌*◌, ◌<◌, String, Bool, true, false, List, [], ◌∷◌, ◌++◌, ◌||◌, ◌&&◌, not,
  if◌then◌else◌, Option, none, some, ◌==◌, leb, ltb, length, str_eq, one_of, ◌≡◌, refl, arith, any,
}
use otelcol_genai_sketches.Ledger.{History, total_used}
use otelcol_genai_sketches.Json.{
  Value, null, bool, int, pos, str, dict, arr, Fields, end, field, nat, object, array, fields, has,
  get, get_or, is_text,
}
use otelcol_genai_sketches.Analyze.Counts.{count, obj, or_zero, is_some}

-- `MODEL`
abbrev pub model_name : String
model_name = "claude-sonnet-4-6"

-- `MAX_OUTPUT`
abbrev pub max_output : ℕ
max_output = 512

-- `RATES`, in units per token.
abbrev pub input_rate : ℕ
input_rate = 300

abbrev pub output_rate : ℕ
output_rate = 1500

abbrev pub cache_creation_rate : ℕ
cache_creation_rate = 375

abbrev pub cache_read_rate : ℕ
cache_read_rate = 30

-- `USAGE_FIELDS`
abbrev pub usage_fields : List String
usage_fields =
    "input_tokens" ∷ "output_tokens" ∷ "cache_creation_input_tokens" ∷ "cache_read_input_tokens"
    ∷ []

abbrev add_count : String → Option ℕ → Fields → Fields
add_count k none rest = rest
add_count k (some n) rest = field k (nat n) rest

abbrev counts_of : List String → Fields → Fields
counts_of [] fs = end
counts_of (k ∷ ks) fs = add_count k (count (get k fs)) (counts_of ks fs)

unfoldable pub usage_only : Value → Fields
usage_only (dict fs) = counts_of usage_fields fs
usage_only _ = end

-- `any(key in value and key not in usage for key in USAGE_FIELDS)`
abbrev pub has_invalid : Fields → Fields → Bool
has_invalid value usage = any (λ k. has k value && not (has k usage)) usage_fields

abbrev pub amount : String → Fields → ℕ
amount k usage = or_zero (count (get k usage))

abbrev pub cost_of : Fields → ℕ
cost_of usage =
    amount "input_tokens" usage * input_rate
    + amount "output_tokens" usage * output_rate
    + amount "cache_creation_input_tokens" usage * cache_creation_rate
    + amount "cache_read_input_tokens" usage * cache_read_rate

unfoldable pub usage_cost : Value → Option ℕ
unfolding usage_only
usage_cost value =
    let usage = usage_only value in
    if not (has "input_tokens" usage) || not (has "output_tokens" usage)
    then none
    else if has_invalid (obj value) usage
    then none
    else some (cost_of usage)

unfoldable pub reserve_cost : ℕ → ℕ
reserve_cost byte_count = (byte_count + 4096) * cache_creation_rate + max_output * output_rate

-- The cost of a completion, where it is known: `result` is of the model that was asked for.
abbrev pub completion_cost : Value → Value → Option ℕ
completion_cost usage model = if is_text model_name model then usage_cost usage else none

unfoldable pub budget_used : History → ℕ
unfolding usage_cost total_used
budget_used h = total_used completion_cost h
