-- ===== src/Tests/Run.antt =====
-- The analysis of a run with one pair (gateway-accounting/analyze.py).
use otelcol_genai_sketches.Base.{true, [], ◌∷◌, Option, none, some, length, ◌≡◌, refl}
use otelcol_genai_sketches.Base.Errors.{ok}
use otelcol_genai_sketches.Json.{Value, str, nat, bool, Fields, object, array}
use otelcol_genai_sketches.Analyze.Counts.{Protocol, openai, anthropic}
use otelcol_genai_sketches.Analyze.Native.Dispatch.{
  Gateway, litellm, bifrost, agentgateway, portkey,
}
use otelcol_genai_sketches.Analyze.Case.{Report}
use otelcol_genai_sketches.Analyze.Run.{Pair, image_digest}
use otelcol_genai_sketches.Analyze.Run.Whole.{
  Root, RunReport, start_report, manifest_of, analyze_run,
}
use otelcol_genai_sketches.Analyze.Run.Sound.{In, Explained, analyze_run-Explained}
use otelcol_genai_sketches.Tests.Case.{loads, iso_ns, to_int, files, start_event, value_of}

abbrev case_value : Value
case_value = object (
    ("client_protocol", str "anthropic")
    ∷ ("started_ns", nat 10)
    ∷ ("deadline_ns", nat 20)
    ∷ ("terminal", bool true)
    ∷ ("usage_events", array (start_event ∷ []))
    ∷ [])

abbrev pair : Pair
pair = record {
  outcome =
      ok (object (("status", str "completed") ∷ ("cases", array (str "stream_missing" ∷ [])) ∷ []));
  case_value = λ name. ok case_value;
  files = λ name. files;
}

abbrev pairs : Gateway → Protocol → Option Pair
pairs bifrost openai = some pair
pairs bifrost anthropic = none
pairs litellm protocol = none
pairs agentgateway protocol = none
pairs portkey protocol = none

abbrev manifest : Value
manifest = object (("mode", str "live_provider") ∷ ("client_protocol", str "anthropic") ∷ [])

abbrev root : Root
root = record { manifest = some (ok manifest); pairs = pairs }

abbrev report : RunReport
unfolding analyze_run
report = value_of (analyze_run loads iso_ns to_int root) refl

analyze_run-Explained_example :
    (manifest_fields : Fields) × (manifest_of root.manifest ≡ ok manifest_fields)
    × ((r : Report)
        → In r report.observations
        → Explained loads iso_ns to_int pairs (start_report manifest_fields).mode manifest_fields r)
unfolding analyze_run
analyze_run-Explained_example = analyze_run-Explained loads iso_ns to_int root report refl

observations_run : length report.observations ≡ 1
unfolding analyze_run
observations_run = refl

digest_run :
    image_digest "gw:1@sha256:00000000000000000000000000000000000000000000000000000000000000ff"
    ≡ some "00000000000000000000000000000000000000000000000000000000000000ff"
unfolding image_digest
digest_run = refl
