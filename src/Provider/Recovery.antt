-- ===== src/Provider/Recovery.antt =====
-- The analysis (analyze.py) of the rows that the synthetic provider (provider.py) leaves.
use otelcol_genai_sketches.Base.{
  ℕ, String, Bool, true, false, [], if◌then◌else◌, Option, none, some, ◌≡◌, refl,
}
use otelcol_genai_sketches.Base.Errors.{Result, ok, ◌>>=◌}
use otelcol_genai_sketches.Json.{dict}
use otelcol_genai_sketches.Analyze.Counts.{Usage, Protocol, openai, anthropic, no_usage, normalize}
use otelcol_genai_sketches.Analyze.Surface.Attempts.{provider_surface}
use otelcol_genai_sketches.Provider.{
  Case, complete, stream_cut, missing, stream_missing, retry429, native_usage,
}
use otelcol_genai_sketches.Provider.Request.{Server}
use otelcol_genai_sketches.Provider.Server.{completion}

-- The server just after `/control` has chosen a case.
abbrev pub fresh : Case → Server
fresh c = record { case = c; attempts = 0; rows = [] }

-- The final usage that the analysis of the server's rows reports.
abbrev pub final_of : Protocol → Server → Result (Option Usage)
final_of p s = provider_surface s.rows p "delivered_usage" >>= λ r. ok r.final_usage

-- The cases whose stream carries no usage to its end.
abbrev pub streams_usage : Case → Bool
streams_usage stream_cut = false
streams_usage missing = false
streams_usage stream_missing = false
streams_usage retry429 = false
streams_usage _ = true

-- After a request that asks for a stream with usage and whose peer reads to the end, the analysis of
-- the provider's rows reports as final exactly the configured usage, for each protocol and each case
-- but those that withhold it: a cut, a case that drops usage, and the first attempt of `retry429`
-- report no final usage.
pub stream_recovery :
    (clock : ℕ → ℕ) (p : Protocol) (c : Case) (model : String)
    → final_of p (completion clock (fresh c) p model true true none).0
      ≡ ok (some (if streams_usage c then normalize (dict (native_usage p c)) p else no_usage))
unfolding completion provider_surface normalize native_usage
stream_recovery clock openai complete model = refl
stream_recovery clock openai _ model = refl
stream_recovery clock anthropic complete model = refl
stream_recovery clock anthropic _ model = refl

-- The cases whose whole response carries usage on the first attempt.
abbrev pub replies_usage : Case → Bool
replies_usage missing = false
replies_usage retry429 = false
replies_usage _ = true

-- The same for a request that asks for no stream: only `missing` and the first attempt of `retry429`
-- report no final usage.
pub whole_recovery :
    (clock : ℕ → ℕ) (p : Protocol) (c : Case) (model : String) (include_usage : Bool)
    → final_of p (completion clock (fresh c) p model false include_usage none).0
      ≡ ok (some (if replies_usage c then normalize (dict (native_usage p c)) p else no_usage))
unfolding completion provider_surface normalize native_usage
whole_recovery clock openai complete model include_usage = refl
whole_recovery clock openai _ model include_usage = refl
whole_recovery clock anthropic complete model include_usage = refl
whole_recovery clock anthropic _ model include_usage = refl

-- The gateway's retry: a second request after the first. Both ask for the usage of a stream, and are read
-- to the end.
abbrev pub retried : (ℕ → ℕ) → Protocol → String → Bool → Bool → Server
retried clock p model first_stream stream =
    (completion clock (completion clock (fresh retry429) p model first_stream true none).0 p model
      stream true none).0

-- In the `retry429` case, if both requests ask for the usage of a stream (`include_usage`) and both peers
-- read to the end, the rejected first attempt leaves no usage row: the analysis reports the configured
-- usage of the second attempt once, whichever of the two requests asked for a stream.
pub retry_recovery :
    (clock : ℕ → ℕ) (p : Protocol) (model : String) (first_stream stream : Bool)
    → final_of p (retried clock p model first_stream stream)
      ≡ ok (some (normalize (dict (native_usage p retry429)) p))
unfolding completion provider_surface normalize native_usage
retry_recovery clock openai model true true = refl
retry_recovery clock openai model true false = refl
retry_recovery clock openai model false true = refl
retry_recovery clock openai model false false = refl
retry_recovery clock anthropic model true true = refl
retry_recovery clock anthropic model true false = refl
retry_recovery clock anthropic model false true = refl
retry_recovery clock anthropic model false false = refl
