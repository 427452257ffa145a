-- ===== src/Tests/Case.antt =====
-- The analysis of one case whose stream lost its final usage (gateway-accounting/analyze.py).
use otelcol_genai_sketches.Base.{
  String, Bool, true, false, List, [], ◌∷◌, Option, none, some, ◌≡◌, refl,
}
use otelcol_genai_sketches.Base.Errors.{Result, ok, err, map_result}
use otelcol_genai_sketches.Json.{
  ℤ, Value, str, nat, bool, arr, nil, Fields, fields, object, array, get_or, iterate,
}
use otelcol_genai_sketches.Analyze.Counts.{openai, anthropic, no_usage}
use otelcol_genai_sketches.Analyze.Rows.{json}
use otelcol_genai_sketches.Analyze.Native.Dispatch.{bifrost}
use otelcol_genai_sketches.Analyze.Telemetry.{as_dict}
use otelcol_genai_sketches.Analyze.Case.{CaseName, CaseFiles, Report, analyze_case}
use otelcol_genai_sketches.Analyze.Case.Client.{Shows, analyze_case-Shows}

abbrev pub loads : String → Option Value
loads s = none

abbrev pub iso_ns : String → Option ℤ
iso_ns s = none

abbrev pub to_int : Value → Option ℤ
to_int v = none

abbrev name : CaseName
name = record {
  gateway = bifrost;
  upstream_protocol = openai;
  client_protocol = anthropic;
  case = "stream_missing";
}

-- The provider delivered a usage, but its final event did not reach the client.
abbrev pub files : CaseFiles
files = record {
  provider = some (record {
    size = 300;
    lines =
        json (
          object (
            ("time_ns", nat 15)
            ∷ ("case", str "stream_missing")
            ∷ ("event", str "delivered_usage")
            ∷ ("attempt", nat 1)
            ∷ ("protocol", str "openai")
            ∷ ("usage", object (("prompt_tokens", nat 30) ∷ ("completion_tokens", nat 9) ∷ []))
            ∷ []))
        ∷ [];
  });
  native = record { native = none; logs = none };
  telemetry = none;
}

abbrev pub start_event : Value
start_event = object (
    ("event", str "message_start")
    ∷ ("usage", object (("input_tokens", nat 30) ∷ ("output_tokens", nat 1) ∷ []))
    ∷ [])

abbrev value : Fields
value = fields (
    ("started_ns", nat 10)
    ∷ ("deadline_ns", nat 20)
    ∷ ("terminal", bool true)
    ∷ ("usage_events", array (start_event ∷ []))
    ∷ [])

abbrev pub is_ok {ℓ} : {A : Type ℓ} → Result A → Bool
is_ok (ok a) = true
is_ok (err e) = false

abbrev pub value_of {ℓ} : {A : Type ℓ} (r : Result A) → is_ok r ≡ true → A
value_of (ok a) h = a
value_of (err e) h = absurd (differ h)
  where
    differ : false ≡ true → ⊥
    differ h = cc

abbrev report : Report
unfolding analyze_case
report = value_of (analyze_case loads iso_ns to_int name files value "live_provider") refl

analyze_case-Shows_example :
    (listed : List Value) × (events : List Fields) × (iterate
        (get_or "usage_events" (arr nil) value)
      ≡ ok listed)
    × (map_result as_dict listed ≡ ok events)
    × Shows anthropic "stream_missing" value events report.client_response.surface
unfolding analyze_case
analyze_case-Shows_example =
    analyze_case-Shows loads iso_ns to_int name files value "live_provider" report refl

-- The provisional count is not taken for a final one.
final_run : report.client_response.surface.final_usage ≡ some no_usage
unfolding analyze_case
final_run = refl
