-- ===== src/Tests/Telemetry.antt =====
-- Spans of one request (gateway-accounting/analyze.py).
use otelcol_genai_sketches.Base.{ℕ, String, true, List, [], ◌∷◌, Option, none, some, ◌≡◌, refl}
use otelcol_genai_sketches.Base.Errors.{ok, err}
use otelcol_genai_sketches.Json.{ℤ, Value, int, str, nat, object, array}
use otelcol_genai_sketches.Analyze.Counts.{usage_state}
use otelcol_genai_sketches.Analyze.Record.{Record}
use otelcol_genai_sketches.Analyze.Rows.{File, json}
use otelcol_genai_sketches.Analyze.Native.Dispatch.{litellm}
use otelcol_genai_sketches.Analyze.Lineage.Leaves.{distinct}
use otelcol_genai_sketches.Analyze.Telemetry.{Span, collect, span_records, telemetry_surface}
use otelcol_genai_sketches.Analyze.Lineage.{Node}
use otelcol_genai_sketches.Analyze.Telemetry.Selected.{Selects, Marks, span_records-Selects}

abbrev to_int : Value → Option ℤ
to_int (int n) = some n
to_int _ = none

abbrev attribute : String → ℕ → Value
attribute k n = object (("key", str k) ∷ ("value", object (("intValue", nat n) ∷ [])) ∷ [])

abbrev span : String → String → ℕ → Value
span sid parent n = object (
    ("traceId", str "t")
    ∷ ("spanId", str sid)
    ∷ ("parentSpanId", str parent)
    ∷ ("startTimeUnixNano", nat 15)
    ∷ (
      "attributes",
      array
          (attribute "gen_ai.usage.input_tokens" n ∷ attribute "gen_ai.usage.output_tokens" 9 ∷ []),
    )
    ∷ [])

-- A request span, and the model call under it, which repeats the usage.
abbrev file : Option File
file = some (record {
  size = 900;
  lines =
      json (
        object (
          ("time_ns", nat 16)
          ∷ (
            "body",
            object (
                (
                  "resourceSpans",
                  array (
                      object (
                        (
                          "scopeSpans",
                          array (
                              object (("spans", array (span "a" "" 30 ∷ span "b" "a" 30 ∷ [])) ∷ [])
                              ∷ []),
                        )
                        ∷ [])
                      ∷ []),
                )
                ∷ []),
          )
          ∷ []))
      ∷ [];
})

abbrev records : List Record
unfolding span_records
records = elim (span_records to_int file 10 20) [ ok rs ↦ rs | err e ↦ [] ]

span_records-Selects_example :
    (spans : List Span) × (collect to_int 10 20 file ≡ ok spans)
    × (nodes : List Node) × Marks nodes spans
    × (distinct nodes ≡ true)
    × Selects nodes spans records
unfolding span_records
span_records-Selects_example = span_records-Selects to_int file 10 20 records refl

-- The usage is that of the call, once.
surface_run :
    (telemetry_surface to_int litellm file 10 20).usage
    ≡ record { input = some 30; output = some 9; cache_read = none }
unfolding telemetry_surface usage_state
surface_run = refl
