-- ===== src/Analyze/Case.antt =====
-- examples/gateway-accounting/analyze.py: `analyze_case`, which compares what each surface reports with
-- what the provider delivered. `loads`, `iso_ns` and `to_int` are those of `Native` and `Telemetry`. A
-- float is kept as a JSON value.
pub mod Final
pub mod Client
use otelcol_genai_sketches.Base.{
  ℕ, suc, ◌+◌, ◌*◌, ◌^◌, String, Bool, true, false, List, [], ◌∷◌, ◌||◌, ◌&&◌, not, ltb, leb,
  str_eq, one_of, any, keep, length, last?, if◌then◌else◌, Option, none, some, ◌==◌,
}
use otelcol_genai_sketches.Base.Errors.{
  Result, ok, err, key_error, type_error, value_error, ◌>>=◌, ◌>>◌, raise_if, map_result,
}
use otelcol_genai_sketches.Json.{
  ℤ, Value, null, int, real, pos, finite, str, arr, dict, Fields, end, nil, get, get_or, has,
  is_text, is_true, is_null, iterate,
}
use otelcol_genai_sketches.Analyze.Counts.{
  Usage, Protocol, openai, anthropic, protocol_name, count, obj, enum_or, no_usage, normalize,
}
use otelcol_genai_sketches.Analyze.Record.{Record, make_record, client_extra}
use otelcol_genai_sketches.Analyze.Merge.{merge_usage}
use otelcol_genai_sketches.Analyze.Rows.{File, rows, in_window}
use otelcol_genai_sketches.Analyze.Surface.{Surface, surface, Compared, add_comparisons}
use otelcol_genai_sketches.Analyze.Surface.Attempts.{provider_surface}
use otelcol_genai_sketches.Analyze.Native.Dispatch.{Gateway, NativeFiles, native_surface, exists}
use otelcol_genai_sketches.Analyze.Telemetry.{as_dict, telemetry_surface}

-- `value[k]`
abbrev pub lookup : String → Fields → Result Value
lookup k fs = if has k fs then ok (get k fs) else err key_error

abbrev reference_bases : List String
reference_bases = "synthetic_configured_usage" ∷ "provider_response_metadata" ∷ []

-- `case.startswith("stream_")`
abbrev pub streams : String → Bool
streams
      (String.◌∷◌ a (
        String.◌∷◌ b
          (String.◌∷◌ c (String.◌∷◌ d (String.◌∷◌ e (String.◌∷◌ f (String.◌∷◌ g s))))))) =
    str_eq
      (String.◌∷◌ a (
        String.◌∷◌ b
          (String.◌∷◌ c (String.◌∷◌ d (String.◌∷◌ e (String.◌∷◌ f (String.◌∷◌ g String.[])))))))
      "stream_"
streams _ = false

-- `r.get("event") == name`
abbrev pub is_event : String → Fields → Bool
is_event name e = is_text name (get "event" e)

abbrev pub has_basis : String → Fields → Bool
has_basis basis e = is_text basis (get "basis" e)

-- The last event that has an output count, and `{}` if none has.
abbrev pub has_output : Fields → Bool
has_output e = has "output_tokens" (obj (get "usage" e))

abbrev or_empty : Option Fields → Fields
or_empty none = end
or_empty (some e) = e

unfoldable pub output_event : List Fields → Fields
output_event events = or_empty (last? (keep has_output events))

abbrev pub counts : Value → Bool
counts v = elim (count v) [ none ↦ false | some n ↦ true ]

-- A final count of the output: one of `message_delta`.
abbrev pub is_final_output : Fields → Bool
is_final_output e =
    is_event "message_delta" e
    && (is_text "final" (get_or "phase" (str "final") e)
        && counts (get "output_tokens" (obj (get "usage" e))))

-- The cases in which an Anthropic client saw a stream.
abbrev pub is_streamed : Protocol → String → List Fields → Bool
is_streamed openai case events = false
is_streamed anthropic case events =
    streams case
    || (str_eq case "client_disconnect"
        || any (λ e. is_event "message_start" e || is_event "message_delta" e) events)

-- `terminal`, without a cancellation and without an error.
abbrev pub ended_well : Fields → Bool
ended_well value =
    is_true (get "terminal" value)
    && (not (is_true (get "client_cancelled" value))
        && (not (is_true (get "error_present" value)) && is_null (get "transport_error" value)))

-- `client_record["final"]`
unfoldable pub client_final : Protocol → String → Fields → List Fields → Bool
unfolding output_event
client_final protocol case value events =
    ended_well value
    && (not (is_streamed protocol case events) || is_final_output (output_event events))

abbrev pub final_or_none : Bool → Usage → Usage
final_or_none true usage = usage
final_or_none false usage = no_usage

unfoldable pub client_record : Protocol → String → Fields → List Fields → Result Record
unfolding client_final make_record merge_usage normalize
client_record protocol case value events =
    let usage = merge_usage events in
    let final = client_final protocol case value events in
    make_record (normalize (dict usage) protocol) (dict value)
      (get "cache_creation_input_tokens" usage)
    >>= λ item. ok (record item {
      final = some final;
      extra =
          client_extra (is_true (get "terminal" value)) (is_true (get "client_cancelled" value))
            (is_true (get "error_present" value)) (not (is_null (get "transport_error" value)))
            (final_or_none final item.usage);
    })

-- The elements of a set of `count(…)`, in which None is one.
abbrev same_count : Option ℕ → Option ℕ → Bool
same_count none none = true
same_count (some m) (some n) = m == n
same_count _ _ = false

unfoldable pub distinct_counts : List (Option ℕ) → ℕ
distinct_counts [] = 0
distinct_counts (a ∷ as') =
    let rest = distinct_counts as' in if any (same_count a) as' then rest else suc rest

abbrev attempt_counts : List Fields → List (Option ℕ)
attempt_counts [] = []
attempt_counts (e ∷ es) = count (get "attempt" e) ∷ attempt_counts es

-- `settle_seconds`, where it is an int or a float in range.
abbrev pub settle_seconds : Value → Option Value
settle_seconds (int (pos n)) = if leb n 86400 then some (int (pos n)) else none
settle_seconds (real (finite negative m e)) =
    if (not negative || m == 0) && leb m (86400 * 2 ^ e)
    then some (real (finite negative m e))
    else none
settle_seconds _ = none

-- The files of one pair.
pub record CaseFiles : Type 0 where
  pub provider : Option File
  pub native : NativeFiles
  pub telemetry : Option File

-- What identifies a case, which `analyze_run` has checked.
pub record CaseName : Type 0 where
  pub gateway : Gateway
  pub upstream_protocol : Protocol
  pub client_protocol : Protocol
  pub case : String

pub record Report : Type 0 where
  pub name : CaseName
  pub provider_attempts : ℕ
  pub relay_attempts : Option ℕ
  pub injected_rejections : ℕ
  pub reference_basis : String
  pub comparison_basis : String
  pub configured : Surface
  pub settle : Option Value
  pub cancellation_observed_upstream : Bool
  pub provider_response : Compared
  pub client_response : Compared
  pub gateway_accounting : Compared
  pub exported_telemetry : Compared

-- `start` and `end`, checked.
abbrev pub window_of : Option ℕ → Option ℕ → Result (ℕ × ℕ)
window_of (some start) (some stop) = if leb start stop then ok (start, stop) else err value_error
window_of _ _ = err value_error

abbrev pub bounds : Fields → Result (ℕ × ℕ)
bounds value = lookup "started_ns" value >>= λ first.
    lookup "deadline_ns" value >>= λ last. window_of (count first) (count last)

-- `enum(refs[-1].get("basis"), REFERENCE_BASES, mode) if refs else mode`
abbrev pub basis_of : Option Fields → String → String
basis_of none mode = mode
basis_of (some r) mode = enum_or mode (get "basis" r) reference_bases

abbrev pub metadata_of : List Fields → List Fields
metadata_of events =
    keep (has_basis "provider_response_metadata") (keep (is_event "reference") events)

abbrev pub delivered_from : List Fields → List Fields → Protocol → Result Surface
delivered_from [] events protocol = provider_surface events protocol "delivered_usage"
delivered_from (r ∷ refs) events protocol = provider_surface (r ∷ refs) protocol "reference"

abbrev pub comparison_basis : List Fields → String
comparison_basis [] = "delivered_usage_capture"
comparison_basis (r ∷ refs) = "provider_response_metadata"

abbrev mark_missing : Bool → Surface → Surface
mark_missing true s = s
mark_missing false s = record s { reader_status = "capture_missing" }

abbrev usage_or_none : Option Usage → Usage
usage_or_none none = no_usage
usage_or_none (some u) = u

-- `surface([client_record])`, with its final usage.
unfoldable pub client_surface : Record → Bool → Surface
unfolding surface
client_surface item final = record (surface (item ∷ []) "observed" "single_record") {
  final_usage = some (final_or_none final item.usage);
}

abbrev pub relays : List Fields → Bool
relays events = any (is_event "relay_attempt") events

-- The events of the case in the window.
abbrev pub case_events : String → ℕ → ℕ → List Fields → List Fields
case_events case start stop all_rows =
    keep (λ r. is_text case (get "case" r) && in_window r start stop) all_rows

abbrev pub event_count : String → List Fields → ℕ
event_count name events = length (keep (is_event name) events)

module _ (loads : String → Option Value) (iso_ns : String → Option ℤ)
    (to_int : Value → Option ℤ) where
  -- After the surfaces that may raise.
  abbrev pub report_of :
      CaseName
      → CaseFiles
      → Fields
      → String
      → ℕ
      → ℕ
      → List Fields
      → Surface
      → Surface
      → Surface
      → Report
  report_of name files value mode start stop events delivered configured client =
      let reference = usage_or_none delivered.final_usage in
      let refs = keep (is_event "reference") events in
      let live = relays events in
      record {
        name = name;
        provider_attempts = distinct_counts (
            attempt_counts
              (keep (is_event (if live then "provider_forward" else "attempt")) events));
        relay_attempts = if live then some (event_count "relay_attempt" events) else none;
        injected_rejections = event_count "injected_429" events;
        reference_basis = basis_of (last? refs) mode;
        comparison_basis = comparison_basis (metadata_of events);
        configured = configured;
        settle = settle_seconds (get "settle_seconds" value);
        cancellation_observed_upstream = any (is_event "downstream_closed") events;
        provider_response = add_comparisons delivered reference;
        client_response = add_comparisons client reference;
        gateway_accounting =
            add_comparisons
              (native_surface loads iso_ns name.gateway files.native (get "native" value) start
                stop)
              reference;
        exported_telemetry =
            add_comparisons (telemetry_surface to_int name.gateway files.telemetry start stop)
              reference;
      }

  unfoldable pub analyze_case : CaseName → CaseFiles → Fields → String → Result Report
  unfolding rows in_window provider_surface client_record client_surface add_comparisons
      native_surface telemetry_surface distinct_counts
  analyze_case name files value mode = do
    window ← bounds value
    all_rows ← rows false files.provider
    let events = case_events name.case window.0 window.1 all_rows
    delivered ← delivered_from (metadata_of events) events name.upstream_protocol
    configured ←
        provider_surface
          (keep (has_basis "synthetic_configured_usage") (keep (is_event "reference") events))
          name.upstream_protocol "reference"
    listed ← iterate (get_or "usage_events" (arr nil) value)
    client_events ← map_result as_dict listed
    item ← client_record name.client_protocol name.case value client_events
    ok (
        report_of name files value mode window.0 window.1 events
          (mark_missing (exists files.provider) delivered) configured
          (client_surface item (client_final name.client_protocol name.case value client_events)))
