-- ===== src/Analyze/Counts.antt =====
-- examples/gateway-accounting/analyze.py: whitelisting of counts, `normalize` and `compare`.
use otelcol_genai_sketches.Base.{
  ℕ, ◌+◌, ◌^◌, String, Bool, true, false, List, ◌||◌, ◌&&◌, not, ltb, ◌==◌, one_of, if◌then◌else◌,
  Option, none, some,
}
use otelcol_genai_sketches.Json.{Value, int, str, dict, Fields, end, pos, get, has}

-- `provider.PROTOCOLS`
pub data Protocol : Type 0 where
  openai anthropic : Protocol

abbrev pub protocol_name : Protocol → String
protocol_name openai = "openai"
protocol_name anthropic = "anthropic"

-- `DIMENSIONS`
pub data Dimension : Type 0 where
  input output cache_read : Dimension

pub record Usage : Type 0 where
  pub input : Option ℕ
  pub output : Option ℕ
  pub cache_read : Option ℕ

-- `usage[d]`
abbrev pub at : Dimension → Usage → Option ℕ
at input u = u.input
at output u = u.output
at cache_read u = u.cache_read

-- `2**63`
abbrev pub count_bound : ℕ
count_bound = 2 ^ 63

abbrev pub count : Value → Option ℕ
count (int (pos n)) = if ltb n count_bound then some n else none
count _ = none

abbrev pub obj : Value → Fields
obj (dict fs) = fs
obj _ = end

abbrev pub enum_or : String → Value → List String → String
enum_or default (str s) allowed = if one_of s allowed then s else default
enum_or default _ allowed = default

abbrev pub enum : Value → List String → String
enum v allowed = enum_or "unknown" v allowed

abbrev pub is_some : Option ℕ → Bool
is_some none = false
is_some (some n) = true

-- `n or 0`
abbrev pub or_zero : Option ℕ → ℕ
or_zero none = 0
or_zero (some n) = n

-- `k not in usage or count(usage[k]) is not None`
abbrev pub absent_or_count : String → Fields → Bool
absent_or_count k usage = not (has k usage) || is_some (count (get k usage))

abbrev anthropic_input : Option ℕ → Option ℕ → Option ℕ → Bool → Option ℕ
anthropic_input none read write caches_valid = none
anthropic_input (some n) read write caches_valid =
    if caches_valid then some (n + or_zero read + or_zero write) else none

unfoldable pub normalize : Value → Protocol → Usage
normalize usage openai = record {
  input = count (get "prompt_tokens" (obj usage));
  output = count (get "completion_tokens" (obj usage));
  cache_read = count (get "cached_tokens" (obj (get "prompt_tokens_details" (obj usage))));
}
normalize usage anthropic = record {
  input =
      anthropic_input (count (get "input_tokens" (obj usage)))
        (count (get "cache_read_input_tokens" (obj usage)))
        (count (get "cache_creation_input_tokens" (obj usage)))
        (absent_or_count "cache_read_input_tokens" (obj usage)
          && absent_or_count "cache_creation_input_tokens" (obj usage));
  output = count (get "output_tokens" (obj usage));
  cache_read = count (get "cache_read_input_tokens" (obj usage));
}

-- `normalize(None)`
abbrev pub no_usage : Usage
no_usage = record { input = none; output = none; cache_read = none }

pub data Comparison : Type 0 where
  absent reference_unknown equal under_counted over_counted unknown : Comparison

abbrev pub compare_count : Option ℕ → Option ℕ → Comparison
compare_count ref none = absent
compare_count none (some obs) = reference_unknown
compare_count (some ref) (some obs) =
    if obs == ref then equal else if ltb obs ref then under_counted else over_counted

-- `compare(reference, observed)[d]`
unfoldable pub compare : Usage → Usage → Dimension → Comparison
compare reference observed d = compare_count (at d reference) (at d observed)

pub data UsageState : Type 0 where
  missing complete partial ambiguous : UsageState

unfoldable pub usage_state : Usage → UsageState
usage_state u =
    if not (is_some u.input) && not (is_some u.output) && not (is_some u.cache_read)
    then missing
    else if is_some u.input && is_some u.output
    then complete
    else partial
