-- ===== src/Analyze/Case/Client.antt =====
-- examples/gateway-accounting/analyze.py: what `analyze_case` says of the client's own usage.
use otelcol_genai_sketches.Base.{
  String, Bool, true, false, List, not, keep, Option, some, ◌≡◌, refl, ap, subst, ◌↔◌,
}
use otelcol_genai_sketches.Base.Errors.{ok, map_result}
use otelcol_genai_sketches.Base.Errors.Laws.{>>=-ok, ok-inj}
use otelcol_genai_sketches.Json.{
  ℤ, Value, arr, nil, dict, Fields, get, get_or, is_true, is_null, iterate,
}
use otelcol_genai_sketches.Analyze.Counts.{Usage, Protocol, no_usage, normalize}
use otelcol_genai_sketches.Analyze.Record.{Record, make_record, client_extra}
use otelcol_genai_sketches.Analyze.Merge.{merge_usage}
use otelcol_genai_sketches.Analyze.Rows.{rows}
use otelcol_genai_sketches.Analyze.Surface.{Surface, surface, add_comparisons}
use otelcol_genai_sketches.Analyze.Surface.Attempts.{provider_surface}
use otelcol_genai_sketches.Analyze.Telemetry.{as_dict}
use otelcol_genai_sketches.Analyze.Case.Final.{IsFinal, client_final_iff}
use otelcol_genai_sketches.Analyze.Case.{
  CaseName, CaseFiles, Report, bounds, case_events, metadata_of, delivered_from, has_basis,
  is_event, client_final, client_record, final_or_none, client_surface, analyze_case,
}

-- What the surface of the client shows.
abbrev pub Shows : Protocol → String → Fields → List Fields → Surface → Type 0
Shows protocol case value events s =
    (s.usage ≡ normalize (dict (merge_usage events)) protocol)
    × ((s.final ≡ some true) ↔ IsFinal protocol case value events)
    × (IsFinal protocol case value events
        → s.final_usage ≡ some (normalize (dict (merge_usage events)) protocol))
    × (¬ IsFinal protocol case value events → s.final_usage ≡ some no_usage)

some-true : (b : Bool) → some b ≡ some true → b ≡ true
some-true b h = cc

final_when : (b : Bool) (u : Usage) → b ≡ true → some (final_or_none b u) ≡ some u
final_when true u h = refl
final_when false u h = cc

none_unless : (b : Bool) (u : Usage) → (b ≡ true → ⊥) → some (final_or_none b u) ≡ some no_usage
none_unless true u h = absurd (h refl)
none_unless false u h = refl

client_record-Shows :
    (protocol : Protocol) (case : String) (value : Fields) (events : List Fields) (item : Record)
    → client_record protocol case value events ≡ ok item
    → Shows protocol case value events
        (client_surface item (client_final protocol case value events))
unfolding client_record client_surface surface make_record
client_record-Shows protocol case value events item h =
    let final = client_final protocol case value events in
    let usage = normalize (dict (merge_usage events)) protocol in
    let (made, built, same) =
      >>=-ok
        (make_record usage (dict value) (get "cache_creation_input_tokens" (merge_usage events))) _
        item h in
    let (reasons, listed, same_made) =
      >>=-ok (iterate (get_or "finish_reasons" (arr nil) value)) _ made built in
    let iff = client_final_iff protocol case value events in
    subst (λ i. Shows protocol case value events (client_surface i final)) (ok-inj _ item same)
      (subst
        (λ i. Shows protocol case value events (
          client_surface
            (record i {
              final = some final;
              extra =
                  client_extra (is_true (get "terminal" value))
                    (is_true (get "client_cancelled" value)) (is_true (get "error_present" value))
                    (not (is_null (get "transport_error" value))) (final_or_none final i.usage);
            })
            final))
        (ok-inj _ made same_made)
        (
          refl,
          (λ h. iff.0 (some-true final h), λ is_final. ap some (iff.1 is_final)),
          (λ is_final. final_when final usage (iff.1 is_final)),
          λ not_final. none_unless final usage (λ f. not_final (iff.0 f)),
        ))

-- If `analyze_case` returns, then the client's surface shows the merged usage of the events that the
-- client recorded. It is final exactly if the response ended well (`terminal` is true, neither
-- `client_cancelled` nor `error_present` is, and `transport_error` is None), and, where an Anthropic
-- response was streamed, the last event with an output count is a message_delta of the phase `final`
-- (which an event without a phase has) whose output count is an int from 0 to below 2^63. The final usage is then the merged one, and
-- otherwise none.
pub analyze_case-Shows :
    (loads : String → Option Value) (iso_ns : String → Option ℤ) (to_int : Value → Option ℤ)
    (name : CaseName) (files : CaseFiles) (value : Fields) (mode : String) (report : Report)
    → analyze_case loads iso_ns to_int name files value mode ≡ ok report
    → (listed : List Value) × (events : List Fields) × (iterate
          (get_or "usage_events" (arr nil) value)
        ≡ ok listed)
      × (map_result as_dict listed ≡ ok events)
      × Shows name.client_protocol name.case value events report.client_response.surface
unfolding analyze_case add_comparisons
analyze_case-Shows loads iso_ns to_int name files value mode report h =
    let (window, bounded, h₁) = >>=-ok (bounds value) _ report h in
    let (all_rows, read, h₂) = >>=-ok (rows false files.provider) _ report h₁ in
    let seen = case_events name.case window.0 window.1 all_rows in
    let (delivered, done, h₃) =
      >>=-ok (delivered_from (metadata_of seen) seen name.upstream_protocol) _ report h₂ in
    let (configured, set, h₄) =
      >>=-ok
        (provider_surface
          (keep (has_basis "synthetic_configured_usage") (keep (is_event "reference") seen))
          name.upstream_protocol "reference")
        _ report h₃ in
    let (listed, given, h₅) =
      >>=-ok (iterate (get_or "usage_events" (arr nil) value)) _ report h₄ in
    let (events, typed, h₆) = >>=-ok (map_result as_dict listed) _ report h₅ in
    let (item, made, same) =
      >>=-ok (client_record name.client_protocol name.case value events) _ report h₆ in
    (
      listed,
      events,
      given,
      typed,
      subst (λ r. Shows name.client_protocol name.case value events r.client_response.surface)
          (ok-inj _ report same)
          (client_record-Shows name.client_protocol name.case value events item made),
    )
