-- ===== src/Analyze/Native/Dispatch.antt =====
-- examples/gateway-accounting/analyze.py: `native_surface`, which picks a gateway's reader and turns
-- its exceptions into a reader error.
use otelcol_genai_sketches.Base.{
  ℕ, String, Bool, true, false, List, [], ◌∷◌, ◌||◌, ◌&&◌, not, if◌then◌else◌, Option, none, some,
}
use otelcol_genai_sketches.Base.Errors.{Result, ok, err}
use otelcol_genai_sketches.Json.{Value, Fields, get, has, truthy, num_eq, is_text, ℤ}
use otelcol_genai_sketches.Analyze.Counts.{obj}
use otelcol_genai_sketches.Analyze.Record.{Record}
use otelcol_genai_sketches.Analyze.Surface.{Surface, surface}
use otelcol_genai_sketches.Analyze.Rows.{File}
use otelcol_genai_sketches.Analyze.Native.{litellm_records, bifrost_records, portkey_records}
use otelcol_genai_sketches.Analyze.Native.Attributes.{agentgateway_records}

-- `GATEWAYS`
pub data Gateway : Type 0 where
  litellm bifrost agentgateway portkey : Gateway

-- The files of one pair: `native.jsonl`, and the gateway's log of the case.
pub record NativeFiles : Type 0 where
  pub native : Option File
  pub logs : Option File

abbrev pub exists {ℓ} : {A : Type ℓ} → Option A → Bool
exists none = false
exists (some f) = true

abbrev status_of : List Record → Bool → String
status_of (r ∷ rs) captured = "observed"
status_of [] true = "no_record_by_deadline"
status_of [] false = "capture_missing"

-- The surface of what a reader returned; each exception that a reader raises is caught.
unfoldable pub surface_of_read : Result (List Record) → Bool → Surface
unfolding surface
surface_of_read (err e) captured = surface [] "reader_error" "single_record"
surface_of_read (ok records) captured = surface records (status_of records captured) "single_record"

-- `native.get("reader_error")`, or a status that is neither 200 nor `read_only_sqlite`.
abbrev pub is_reader_error : Fields → Bool
is_reader_error native =
    truthy (get "reader_error" native)
    || has "status" native
      && not (num_eq 200 (get "status" native) || is_text "read_only_sqlite" (get "status" native))

module _ (loads : String → Option Value) (iso_ns : String → Option ℤ) where
  unfoldable pub native_surface : Gateway → NativeFiles → Value → ℕ → ℕ → Surface
  unfolding surface surface_of_read litellm_records bifrost_records portkey_records
      agentgateway_records
  native_surface litellm files native start stop =
      surface_of_read (litellm_records files.native start stop) (exists files.native)
  native_surface agentgateway files native start stop =
      surface_of_read (agentgateway_records iso_ns files.logs start stop) (exists files.logs)
  native_surface bifrost files native start stop =
      if is_reader_error (obj native)
      then surface [] "reader_error" "single_record"
      else surface_of_read (bifrost_records loads (obj native)) (has "records" (obj native))
  native_surface portkey files native start stop =
      if is_reader_error (obj native)
      then surface [] "reader_error" "single_record"
      else surface_of_read (portkey_records (obj native)) (has "records" (obj native))
