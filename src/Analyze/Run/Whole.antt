-- ===== src/Analyze/Run/Whole.antt =====
-- examples/gateway-accounting/analyze.py: `analyze_run` over all pairs.
use otelcol_genai_sketches.Base.{String, List, [], ◌∷◌, ◌++◌, Option, none, some}
use otelcol_genai_sketches.Base.Errors.{Result, ok, ◌>>=◌}
use otelcol_genai_sketches.Json.{ℤ, Value, Fields, end, get}
use otelcol_genai_sketches.Analyze.Counts.{Protocol, openai, anthropic, obj, enum, enum_or}
use otelcol_genai_sketches.Analyze.Native.Dispatch.{Gateway}
use otelcol_genai_sketches.Analyze.Case.{Report}
use otelcol_genai_sketches.Analyze.Run.{
  Pair, PairResult, excluded, observed, Excluded, Version, manifest_versions, gateways,
  analyze_pair,
}

-- The manifest, if its file is there, and the pairs whose directories are.
pub record Root : Type 0 where
  pub manifest : Option (Result Value)
  pub pairs : Gateway → Protocol → Option Pair

-- `report`, whose schema version is 2.
pub record RunReport : Type 0 where
  pub mode : String
  pub client_protocol : String
  pub live_provider : String
  pub cut_mode : String
  pub versions : List Version
  pub observations : List Report
  pub excluded_runs : List Excluded

abbrev modes : List String
modes = "deterministic_mock" ∷ "real_provider" ∷ "live_provider" ∷ []

abbrev protocol_names : List String
protocol_names = "openai" ∷ "anthropic" ∷ []

abbrev pub start_report : Fields → RunReport
start_report manifest = record {
  mode = enum (get "mode" manifest) modes;
  client_protocol = enum (get "client_protocol" manifest) protocol_names;
  live_provider = enum (get "provider" (obj (get "live" manifest))) protocol_names;
  cut_mode =
      enum_or "not_applicable" (get "cut_mode" (obj (get "live" manifest)))
        ("drain" ∷ "cancel" ∷ []);
  versions = manifest_versions manifest;
  observations = [];
  excluded_runs = [];
}

-- What one pair adds.
abbrev pub add_result : Gateway → Protocol → Option PairResult → RunReport → RunReport
add_result gateway protocol none report = report
add_result gateway protocol (some (excluded status count)) report = record report {
  excluded_runs =
      report.excluded_runs
      ++ (record {
        gateway = gateway;
        upstream_protocol = protocol;
        status = status;
        observed_case_count = count;
      })
        ∷ [];
}
add_result gateway protocol (some (observed reports)) report = record report {
  observations = report.observations ++ reports;
}

abbrev pub manifest_of : Option (Result Value) → Result Fields
manifest_of none = ok end
manifest_of (some read) = read >>= λ value. ok (obj value)

-- The two nested loops, as one over the pairs in their order.
abbrev pub with_protocols : List Gateway → List (Gateway × Protocol)
with_protocols [] = []
with_protocols (g ∷ gs) = (g, openai) ∷ (g, anthropic) ∷ with_protocols gs

module _ (loads : String → Option Value) (iso_ns : String → Option ℤ)
    (to_int : Value → Option ℤ) where
  unfoldable pub run_pairs :
      (Gateway → Protocol → Option Pair)
      → Fields
      → RunReport
      → List (Gateway × Protocol)
      → RunReport
  unfolding analyze_pair
  run_pairs pairs manifest report [] = report
  run_pairs pairs manifest report ((g, p) ∷ rest) =
      run_pairs pairs manifest
        (add_result g p (analyze_pair loads iso_ns to_int g p (pairs g p) report.mode manifest)
          report)
        rest

  unfoldable pub analyze_run : Root → Result RunReport
  unfolding run_pairs manifest_versions
  analyze_run root = manifest_of root.manifest >>= λ manifest.
      ok (run_pairs root.pairs manifest (start_report manifest) (with_protocols gateways))
