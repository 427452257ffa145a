-- ===== src/Verify.antt =====
-- examples/gateway-accounting/verify.py: `verify`, over the report of `analyze_run`. A complaint stands
-- for its text; the source returns the sorted set of them.
pub mod Rows
pub mod Outcomes
pub mod Passed
use otelcol_genai_sketches.Base.{
  ℕ, ◌*◌, String, Bool, true, false, List, [], ◌∷◌, ◌++◌, ◌||◌, ◌&&◌, not, str_eq, one_of, length,
  if◌then◌else◌, Option, none, some, ◌==◌, ltb,
}
use otelcol_genai_sketches.Base.Errors.{Result, ok, err, type_error, key_error, ◌>>=◌}
use otelcol_genai_sketches.Json.{Value, dict, Fields, get, has, truthy, is_text, iterate}
use otelcol_genai_sketches.Analyze.Counts.{
  Dimension, input, output, Comparison, equal, UsageState, complete,
}
use otelcol_genai_sketches.Analyze.Surface.{Surface, Compared}
use otelcol_genai_sketches.Analyze.Case.{CaseName, Report, lookup}
use otelcol_genai_sketches.Analyze.Run.{is_control, case_count, Excluded}
use otelcol_genai_sketches.Analyze.Run.Whole.{RunReport}

-- The surfaces, in the order of `SURFACES`.
pub data SurfaceName : Type 0 where
  provider_response client_response gateway_accounting exported_telemetry : SurfaceName

pub data Complaint : Type 0 where
  pairs_incomplete cases_uncovered : Complaint
  capture_failed reference_not_final no_cache_event attempts_differ client_not_final
        client_disagrees :
      CaseName → Complaint
  capture_not_final : CaseName → SurfaceName → Complaint

abbrev pub complain : Bool → Complaint → List Complaint
complain false c = []
complain true c = c ∷ []

abbrev pub surface_at : SurfaceName → Report → Compared
surface_at provider_response r = r.provider_response
surface_at client_response r = r.client_response
surface_at gateway_accounting r = r.gateway_accounting
surface_at exported_telemetry r = r.exported_telemetry

abbrev pub is_capture_failure : Surface → Bool
is_capture_failure s = one_of s.reader_status ("reader_error" ∷ "capture_missing" ∷ [])

abbrev pub is_final : Option Bool → Bool
is_final (some true) = true
is_final _ = false

abbrev pub is_complete : UsageState → Bool
is_complete complete = true
is_complete _ = false

abbrev pub is_equal : Comparison → Bool
is_equal equal = true
is_equal _ = false

abbrev pub is_positive : Option ℕ → Bool
is_positive none = false
is_positive (some n) = ltb 0 n

abbrev pub is_cache_case : String → Bool
is_cache_case case = one_of case ("cache_write" ∷ "cache_read" ∷ [])

abbrev pub cache_of : String → Surface → Option ℕ
cache_of case s = if str_eq case "cache_write" then s.cache_creation else s.usage.cache_read

-- A normal response that a surface which can be read does not show in full.
abbrev pub has_records : Surface → Bool
has_records s = elim (s.records) [ [] ↦ false | r ∷ rs ↦ true ]

abbrev pub lacks_capture : Surface → Bool
lacks_capture s =
    not (str_eq s.reader_status "reader_unsupported")
    && (not (has_records s) || not (is_complete s.usage_state))

abbrev pub capture_complaint : SurfaceName → Report → List Complaint
capture_complaint n r =
    complain (is_capture_failure (surface_at n r).surface) (capture_failed r.name)

-- The tests of a control.
unfoldable pub control_complaints : Report → List Complaint
control_complaints r =
    complain (not (r.provider_attempts == 1)) (attempts_differ r.name)
    ++ (complain (not (is_final r.client_response.surface.final)) (client_not_final r.name)
        ++ (complain
              (not (is_equal (r.client_response.dimensions input).comparison)
                || not (is_equal (r.client_response.dimensions output).comparison))
              (client_disagrees r.name)
            ++ (complain
                  (str_eq r.name.case "complete" && lacks_capture r.gateway_accounting.surface)
                  (capture_not_final r.name gateway_accounting)
                ++ complain
                    (str_eq r.name.case "complete" && lacks_capture r.exported_telemetry.surface)
                    (capture_not_final r.name exported_telemetry))))

-- One round of the loop over the observations.
unfoldable pub row_complaints : Fields → Report → List Complaint
unfolding control_complaints
row_complaints manifest r =
    let provider = r.provider_response.surface in
    let control = is_control r.name.case r.name.upstream_protocol manifest in
    let cached = is_cache_case r.name.case in
    capture_complaint provider_response r
    ++ (capture_complaint client_response r
        ++ (capture_complaint gateway_accounting r
            ++ (capture_complaint exported_telemetry r
                ++ (complain
                      ((control || cached)
                        && (not (is_final provider.final)
                            || not (is_complete provider.usage_state)))
                      (reference_not_final r.name)
                    ++ (complain
                          (cached
                            && (not (str_eq r.comparison_basis "provider_response_metadata")
                                || not (is_positive (cache_of r.name.case provider))))
                          (no_cache_event r.name)
                        ++ (if control then control_complaints r else []))))))

unfoldable pub rows_complaints : Fields → List Report → List Complaint
unfolding row_complaints
rows_complaints manifest [] = []
rows_complaints manifest (r ∷ rs) = row_complaints manifest r ++ rows_complaints manifest rs

-- `o["status"]`
abbrev pub status_of : Value → Result Value
status_of (dict fs) = lookup "status" fs
status_of _ = err type_error

-- `any(o["status"] != "completed" for o in outcomes)`, which stops at the first.
abbrev pub any_incomplete : List Value → Result Bool
any_incomplete [] = ok false
any_incomplete (o ∷ os) =
    let rest = any_incomplete os in
    status_of o >>= λ status. if is_text "completed" status then rest else ok true

abbrev pub incomplete : Value → Bool → Result Bool
incomplete outcomes has_excluded =
    if truthy outcomes
    then (iterate outcomes >>= any_incomplete >>= λ some_incomplete.
        ok (some_incomplete || has_excluded))
    else ok true

abbrev pub has_excluded : List Excluded → Bool
has_excluded [] = false
has_excluded (e ∷ es) = true

unfoldable pub verify : Fields → Value → RunReport → Result (List Complaint)
unfolding rows_complaints
verify manifest outcomes report = do
  failed ← incomplete outcomes (has_excluded report.excluded_runs)
  pairs ← case_count outcomes
  listed ← lookup "cases" manifest
  cases ← case_count listed
  ok (
      complain failed pairs_incomplete
      ++ (complain (not (length report.observations == pairs * cases)) cases_uncovered
          ++ rows_complaints manifest report.observations))
