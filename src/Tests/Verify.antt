-- ===== src/Tests/Verify.antt =====
-- The verification of a run with one control (gateway-accounting/verify.py).
use otelcol_genai_sketches.Base.{String, true, [], ◌∷◌, Option, none, some, ◌≡◌, refl}
use otelcol_genai_sketches.Base.Errors.{ok}
use otelcol_genai_sketches.Json.{Value, str, nat, bool, Fields, fields, object, array, dict}
use otelcol_genai_sketches.Analyze.Counts.{Protocol, openai, anthropic, usage_state, compare}
use otelcol_genai_sketches.Analyze.Rows.{json}
use otelcol_genai_sketches.Analyze.Native.Dispatch.{
  Gateway, litellm, bifrost, agentgateway, portkey,
}
use otelcol_genai_sketches.Analyze.Case.{CaseFiles}
use otelcol_genai_sketches.Analyze.Run.{Pair}
use otelcol_genai_sketches.Analyze.Run.Whole.{RunReport, analyze_run}
use otelcol_genai_sketches.Verify.{verify, pairs_incomplete}
use otelcol_genai_sketches.Verify.Passed.{Passed, verify-Passed}
use otelcol_genai_sketches.Tests.Case.{loads, iso_ns, to_int, value_of}

abbrev usage : Value
usage = object (("prompt_tokens", nat 30) ∷ ("completion_tokens", nat 9) ∷ [])

abbrev case_value : Value
case_value = object (
    ("client_protocol", str "openai")
    ∷ ("started_ns", nat 10)
    ∷ ("deadline_ns", nat 20)
    ∷ ("status", nat 200)
    ∷ ("terminal", bool true)
    ∷ ("usage_events", array (object (("usage", usage) ∷ []) ∷ []))
    ∷ ("native", object (("records", array (object (("token_usage", usage) ∷ []) ∷ [])) ∷ []))
    ∷ [])

abbrev files : CaseFiles
files = record {
  provider = some (record {
    size = 300;
    lines =
        json (
          object (
            ("time_ns", nat 14)
            ∷ ("case", str "complete")
            ∷ ("event", str "attempt")
            ∷ ("attempt", nat 1)
            ∷ []))
        ∷ json (
            object (
              ("time_ns", nat 15)
              ∷ ("case", str "complete")
              ∷ ("event", str "delivered_usage")
              ∷ ("attempt", nat 1)
              ∷ ("protocol", str "openai")
              ∷ ("usage", usage)
              ∷ []))
        ∷ [];
  });
  native = record { native = none; logs = none };
  telemetry = none;
}

abbrev pair : Pair
pair = record {
  outcome = ok (object (("status", str "completed") ∷ ("cases", array (str "complete" ∷ [])) ∷ []));
  case_value = λ name. ok case_value;
  files = λ name. files;
}

abbrev pairs : Gateway → Protocol → Option Pair
pairs bifrost openai = some pair
pairs bifrost anthropic = none
pairs litellm protocol = none
pairs agentgateway protocol = none
pairs portkey protocol = none

abbrev manifest : Fields
manifest = fields (("cases", array (str "complete" ∷ [])) ∷ [])

abbrev report : RunReport
unfolding analyze_run
report =
    value_of
      (analyze_run loads iso_ns to_int
        (record { manifest = some (ok (dict manifest)); pairs = pairs }))
      refl

abbrev outcome : String → Value
outcome status = array (object (("status", str status) ∷ []) ∷ [])

verify-Passed_example : Passed manifest (outcome "completed") report
unfolding verify analyze_run usage_state compare
verify-Passed_example = verify-Passed manifest (outcome "completed") report refl

-- A pair that did not complete is a complaint.
failed_run : verify manifest (outcome "running") report ≡ ok (pairs_incomplete ∷ [])
unfolding verify analyze_run usage_state compare
failed_run = refl
