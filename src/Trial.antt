-- ===== src/Trial.antt =====
-- examples/integrations/litellm/provider-trial/relay.py: the estimated costs of OpenAI usage and the
-- total of the trial's ledger. `MANIFEST` is manifest.json beside it. Costs are counted in units of
-- 10^-8 USD, as in `AnthropicProtocol`.
pub mod Validate
pub mod Relay
pub mod Costs
use otelcol_genai_sketches.Base.{
  ℕ, ◌+◌, ◌-◌, ◌*◌, String, Bool, List, [], ◌∷◌, Option, none, some, ltb, if◌then◌else◌, one_of,
}
use otelcol_genai_sketches.Base.Errors.{Result, ok, err, attribute_error, ◌>>=◌}
use otelcol_genai_sketches.Json.{
  Value, null, bool, int, real, pos, negsuc, str, arr, dict, Fields, end, field, nat, get, get_or,
  truthy, is_text,
}
use otelcol_genai_sketches.Ledger.{History, Row, reserved, provider_complete, completed, or_reserve}

-- `MODEL`
abbrev pub model_name : String
model_name = "gpt-5.4-2026-03-05"

-- `MAX_INPUT_BYTES`
abbrev pub max_input_bytes : ℕ
max_input_bytes = 65536

-- `MAX_OUTPUT_TOKENS`
abbrev pub max_output_tokens : ℕ
max_output_tokens = 2048

-- `RATES`, in units per token.
abbrev pub input_rate : ℕ
input_rate = 250

abbrev pub cached_rate : ℕ
cached_rate = 25

abbrev pub output_rate : ℕ
output_rate = 1500

-- `type(v) is int` and not negative.
abbrev pub natural : Value → Option ℕ
natural (int (pos n)) = some n
natural _ = none

-- `(details or {}).get('cached_tokens', 0)`
abbrev pub cached_of : Value → Result Value
cached_of (dict fs) = ok (get_or "cached_tokens" (nat 0) fs)
cached_of details = if truthy details then err attribute_error else ok (nat 0)

abbrev pub priced : Option ℕ → Option ℕ → Option ℕ → Option ℕ
priced (some inp) (some out) (some cached) =
    if ltb inp cached
    then none
    else some ((inp - cached) * input_rate + cached * cached_rate + out * output_rate)
priced _ _ _ = none

unfoldable pub usage_cost : Value → Result (Option ℕ)
usage_cost (dict usage) = do
  cached ← cached_of (get "prompt_tokens_details" usage)
  ok (
      priced (natural (get "prompt_tokens" usage)) (natural (get "completion_tokens" usage))
        (natural cached))
usage_cost _ = ok none

unfoldable pub reserve_cost : ℕ → ℕ → ℕ
reserve_cost input_bytes output_tokens =
    (input_bytes + 4096) * input_rate + output_tokens * output_rate

-- `actual`
unfoldable pub actual_cost : Option (Value × Value) → Result (Option ℕ)
unfolding usage_cost
actual_cost none = ok none
actual_cost (some (usage, model)) = if is_text model_name model then usage_cost usage else ok none

-- The loop over the history; a completion whose details are no dict raises.
unfoldable pub used_by : History → History → Result ℕ
unfolding actual_cost
used_by all [] = ok 0
used_by all (reserved a r ∷ history) = actual_cost (completed a all) >>= λ actual.
    used_by all history >>= λ total. ok (or_reserve actual r + total)
used_by all (provider_complete a u m ∷ history) = used_by all history

unfoldable pub budget_used : History → Result ℕ
unfolding used_by
budget_used history = used_by history history

-- The fields that `usage_only` lets through.
abbrev pub allowed_usage : List String
allowed_usage =
    "prompt_tokens" ∷ "completion_tokens" ∷ "total_tokens" ∷ "prompt_tokens_details"
    ∷ "completion_tokens_details" ∷ "cached_tokens" ∷ "reasoning_tokens" ∷ "audio_tokens"
    ∷ "accepted_prediction_tokens" ∷ "rejected_prediction_tokens" ∷ []

abbrev keep_field : String → Option Value → Fields → Fields
keep_field k none rest = rest
keep_field k (some v) rest = if one_of k allowed_usage then field k v rest else rest

-- Counts, and dicts of such; the keys of a dict keep their order.
unfoldable mutual
  pub usage_fields : Fields → Fields
  usage_fields end = end
  usage_fields (field k v fs) = keep_field k (usage_value v) (usage_fields fs)

  pub usage_value : Value → Option Value
  usage_value (int n) = some (int n)
  usage_value (dict fs) = some (dict (usage_fields fs))
  usage_value null = none
  usage_value (bool b) = none
  usage_value (real r) = none
  usage_value (str s) = none
  usage_value (arr vs) = none

-- `None` where the value is no dict.
unfoldable pub usage_only : Value → Value
unfolding usage_fields usage_value
usage_only (dict fs) = dict (usage_fields fs)
usage_only _ = null
