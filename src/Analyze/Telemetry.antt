-- ===== src/Analyze/Telemetry.antt =====
-- examples/gateway-accounting/analyze.py: the collection of spans in `span_records`, and
-- `telemetry_surface`. `to_int` is Python's `int` of a value, `none` where it raises. Trace and span ids
-- are texts: any other id that is there raises a TypeError here, where the source would take a number.
pub mod Selected
use otelcol_genai_sketches.Base.{
  ℕ, suc, ◌+◌, String, Bool, true, false, List, [], ◌∷◌, ◌||◌, ◌&&◌, not, leb, str_eq, length, map,
  if◌then◌else◌, Option, none, some,
}
use otelcol_genai_sketches.Base.Errors.{
  Result, ok, err, type_error, value_error, attribute_error, ◌>>=◌, fold_result,
}
use otelcol_genai_sketches.Json.{
  ℤ, Value, null, str, arr, dict, Fields, nil, nat, get, get_or, truthy, num_eq, is_text, is_null,
  iterate,
}
use otelcol_genai_sketches.Analyze.Counts.{obj, UsageState, missing, usage_state}
use otelcol_genai_sketches.Analyze.Record.{Record, Origins, span_extra}
use otelcol_genai_sketches.Analyze.Surface.{Surface, surface}
use otelcol_genai_sketches.Analyze.Rows.{File, rows, in_window}
use otelcol_genai_sketches.Analyze.Native.Attributes.{usage_attributes, otlp_attributes, in_range}
use otelcol_genai_sketches.Analyze.Native.Dispatch.{
  Gateway, litellm, bifrost, agentgateway, portkey, exists,
}
use otelcol_genai_sketches.Analyze.Lineage.{
  Key, identified, anonymous, key_eq, Node, is_leaf, selection_role,
}

-- An entry of `nodes`, with its `incomplete`.
pub record Span : Type 0 where
  pub key : Key
  pub parent : Option Key
  pub item : Record
  pub incomplete : Option Bool

-- `d.get(k, d.get(j, default))`
abbrev pub get_either : String → String → Value → Fields → Value
get_either k j default fs = get_or k (get_or j default fs) fs

-- The receiver of a `get`.
abbrev pub as_dict : Value → Result Fields
as_dict (dict fs) = ok fs
as_dict _ = err attribute_error

-- The key of a span, where `n` entries are there. The ids are texts, as the provider keeps them: here
-- another true value raises a TypeError, and another parent is none.
abbrev pub key_of : Value → Value → ℕ → Result Key
key_of (str t) (str s) n = ok (if str_eq t "" || str_eq s "" then anonymous n else identified t s)
key_of trace sid n = if truthy trace && truthy sid then err type_error else ok (anonymous n)

abbrev pub parent_of : Value → Value → Option Key
parent_of (str t) (str p) = some (identified t p)
parent_of _ _ = none

-- `{0: "unset", …}.get(code, "unknown")`
abbrev pub status_name : Value → Result String
status_name (arr vs) = err type_error
status_name (dict fs) = err type_error
status_name code = ok (
    if num_eq 0 code || is_text "STATUS_CODE_UNSET" code
    then "unset"
    else if num_eq 1 code || is_text "STATUS_CODE_OK" code
    then "ok"
    else if num_eq 2 code || is_text "STATUS_CODE_ERROR" code
    then "error"
    else "unknown")

-- `nodes[key] = …`
unfoldable pub put_span : Span → List Span → List Span
put_span s [] = s ∷ []
put_span s (x ∷ xs) = if key_eq s.key x.key then s ∷ xs else x ∷ put_span s xs

-- The entry of a span in the window, where `n` entries are there.
unfoldable pub entry_of : Fields → ℕ → Result Span
unfolding usage_attributes otlp_attributes
entry_of span n = do
  attributes ← otlp_attributes (get_or "attributes" (arr nil) span)
  item ← usage_attributes attributes
  status ← status_name (get_or "code" (nat 0) (obj (get "status" span)))
  key ←
      key_of (get_either "traceId" "trace_id" null span) (get_either "spanId" "span_id" null span) n
  ok (record {
    key = key;
    parent =
        parent_of (get_either "traceId" "trace_id" null span)
          (get_either "parentSpanId" "parent_span_id" null span);
    item = record (item.0) { status = status };
    incomplete = item.1;
  })

unfoldable pub read_span : List Span → Fields → Result (List Span)
unfolding entry_of put_span
read_span nodes span = entry_of span (length nodes) >>= λ entry. ok (put_span entry nodes)

module _ (to_int : Value → Option ℤ) (start stop : ℕ) where
  -- `stamp is not None and not start <= int(stamp) <= end`
  abbrev pub is_outside : Value → Result Bool
  is_outside stamp = if is_null stamp then ok false else elim (to_int stamp) [
    | none ↦ err value_error
    | some n ↦ ok (not (in_range start stop (some n)))
  ]

  abbrev pub add_span : List Span → Value → Result (List Span)
  add_span nodes value = do
    span ← as_dict value
    outside ← is_outside (get_either "startTimeUnixNano" "start_time_unix_nano" null span)
    if outside then ok nodes else read_span nodes span

  abbrev pub add_scope : List Span → Value → Result (List Span)
  add_scope nodes value = do
    scope ← as_dict value
    spans ← iterate (get_or "spans" (arr nil) scope)
    fold_result add_span nodes spans

  abbrev pub add_resource : List Span → Value → Result (List Span)
  add_resource nodes value = do
    resource ← as_dict value
    scopes ← iterate (get_either "scopeSpans" "scope_spans" (arr nil) resource)
    fold_result add_scope nodes scopes

  abbrev pub add_body : List Span → Fields → Result (List Span)
  add_body nodes body =
      iterate (get_either "resourceSpans" "resource_spans" (arr nil) body)
      >>= fold_result add_resource nodes

  abbrev pub add_row : List Span → Fields → Result (List Span)
  add_row nodes row =
      if in_window row start stop then add_body nodes (obj (get "body" row)) else ok nodes

  unfoldable pub collect : Option File → Result (List Span)
  unfolding rows in_window read_span
  collect file = rows false file >>= fold_result add_row []

abbrev pub is_missing : UsageState → Bool
is_missing missing = true
is_missing _ = false

abbrev pub any_known : Option Origins → Bool
any_known none = false
any_known (some o) =
    not (str_eq o.input "unknown")
    || (not (str_eq o.output "unknown") || not (str_eq o.cache_read "unknown"))

abbrev pub is_flag : Option Bool → Bool
is_flag none = false
is_flag (some b) = true

-- `candidates`
unfoldable pub is_candidate : Span → Bool
is_candidate s =
    not (is_missing (usage_state s.item.usage))
    || (any_known s.item.origins || is_flag s.incomplete)

abbrev pub node_of : Span → Node
node_of s = record { key = s.key; parent = s.parent; candidate = is_candidate s }

abbrev is_identified : Key → Bool
is_identified (identified t s) = true
is_identified (anonymous n) = false

-- The last loop: `n` items are there.
abbrev pub finish_item : List Node → ℕ → Span → Record
finish_item nodes n s = record (s.item) {
  selected_for_usage = some (is_leaf nodes (node_of s));
  extra = span_extra (suc n) (is_identified s.key) (selection_role nodes (node_of s)) s.incomplete;
}

unfoldable pub finish_items : List Node → ℕ → List Span → List Record
unfolding is_leaf selection_role is_candidate
finish_items nodes n [] = []
finish_items nodes n (s ∷ spans) = finish_item nodes n s ∷ finish_items nodes (suc n) spans

unfoldable pub span_records : (Value → Option ℤ) → Option File → ℕ → ℕ → Result (List Record)
unfolding collect finish_items
span_records to_int file start stop =
    collect to_int start stop file >>= λ spans. ok (finish_items (map node_of spans) 0 spans)

-- The gateways whose adapters configure an exporter.
abbrev exports : Gateway → Bool
exports litellm = true
exports agentgateway = true
exports bifrost = false
exports portkey = false

abbrev status_of : List Record → Bool → String
status_of (r ∷ rs) captured = "observed"
status_of [] true = "no_record_by_deadline"
status_of [] false = "capture_missing"

abbrev surface_of_read : Result (List Record) → Bool → Surface
surface_of_read (err e) captured = surface [] "reader_error" "single_record"
surface_of_read (ok records) captured =
    surface records (status_of records captured) "usage_leaves_no_hierarchy_sum"

unfoldable pub telemetry_surface : (Value → Option ℤ) → Gateway → Option File → ℕ → ℕ → Surface
unfolding surface span_records
telemetry_surface to_int gateway file start stop =
    if not (exists file) && not (exports gateway)
    then surface [] "reader_unsupported" "export_not_configured_in_harness"
    else surface_of_read (span_records to_int file start stop) (exists file)
