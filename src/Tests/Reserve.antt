-- ===== src/Tests/Reserve.antt =====
-- The cost of an answer against the reserve of its request (anthropic_protocol.py).
use otelcol_genai_sketches.Base.{◌≤◌, [], ◌∷◌, refl, arith}
use otelcol_genai_sketches.Json.{Value, nat, object}
use otelcol_genai_sketches.AnthropicProtocol.{usage_only, usage_cost, reserve_cost}
use otelcol_genai_sketches.AnthropicProtocol.Reserve.{usage_cost-reserve_cost}

abbrev cache_usage : Value
cache_usage = object (
    ("input_tokens", nat 20)
    ∷ ("output_tokens", nat 512)
    ∷ ("cache_creation_input_tokens", nat 4000)
    ∷ [])

usage_cost-reserve_cost_example : 2274000 ≤ reserve_cost 300
unfolding usage_cost usage_only
usage_cost-reserve_cost_example =
    usage_cost-reserve_cost cache_usage 2274000 300 refl (omega arith) (omega arith)
