-- ===== src/Analyze/Native.antt =====
-- examples/gateway-accounting/analyze.py: the readers of the gateways' own records, `litellm_records`,
-- `bifrost_records` and `portkey_records`. `loads` is Python's `json.loads` on a text, `none` where it
-- raises.
pub mod Attributes
pub mod Dispatch
use otelcol_genai_sketches.Base.{
  ℕ, ◌≤◌, ◌<◌, String, Bool, true, false, List, [], ◌∷◌, ◌||◌, ◌&&◌, not, ltb, leb, map, ◌++◌, ◌==◌,
  str_eq, one_of, if◌then◌else◌, Option, none, some, any, all, keep,
}
use otelcol_genai_sketches.Base.Errors.{Result, ok, err, value_error, ◌>>=◌, map_result}
use otelcol_genai_sketches.Json.{
  Value, null, bool, int, real, str, arr, dict, Fields, end, field, nat, get, get_or, has, put,
  update, fields, object, array, iterate, is_blank, is_dict, Items, nil, cons, items,
}
use otelcol_genai_sketches.Analyze.Counts.{
  Usage, Protocol, openai, anthropic, count, obj, normalize, no_usage, is_some,
}
use otelcol_genai_sketches.Analyze.Record.{
  Record, make_record, litellm_extra, bifrost_extra, portkey_extra, flag, finish_reasons,
}
use otelcol_genai_sketches.Analyze.Rows.{File, rows, in_window}

abbrev pub opt_value : Option ℕ → Value
opt_value none = null
opt_value (some n) = nat n

-- `evidence`, in the order in which its keys are added.
abbrev pub Evidence : Type 0
Evidence = List (String × ℕ)

abbrev add_evidence : String → Option ℕ → Evidence → Evidence
add_evidence k none rest = rest
add_evidence k (some n) rest = (k, n) ∷ rest

unfoldable pub cache_evidence : Fields → Evidence
cache_evidence cache =
    let details = obj (get "prompt_tokens_details" cache) in
    add_evidence "cache_read_input_tokens" (count (get "cache_read_input_tokens" cache)) (
      add_evidence "cache_creation_input_tokens" (count (get "cache_creation_input_tokens" cache)) (
        add_evidence "prompt_tokens_details.cached_tokens" (count (get "cached_tokens" details)) (
          add_evidence "prompt_tokens_details.cache_write_tokens"
            (count (get "cache_write_tokens" details))
            (add_evidence "prompt_tokens_details.cache_creation_tokens"
              (count (get "cache_creation_tokens" details)) []))))

abbrev pub read_aliases : List String
read_aliases = "cache_read_input_tokens" ∷ "prompt_tokens_details.cached_tokens" ∷ []

abbrev pub creation_aliases : List String
creation_aliases =
    "cache_creation_input_tokens" ∷ "prompt_tokens_details.cache_write_tokens"
    ∷ "prompt_tokens_details.cache_creation_tokens" ∷ []

-- `{evidence[key] for key in keys if key in evidence}`, with repetitions.
unfoldable pub alias_values : Evidence → List String → List ℕ
alias_values [] names = []
alias_values ((k, n) ∷ evidence) names =
    let rest = alias_values evidence names in if one_of k names then n ∷ rest else rest

-- The only value of the set, if it has one element.
unfoldable pub resolved : List ℕ → Option ℕ
resolved [] = none
resolved (n ∷ ns) = if all (λ m. m == n) ns then some n else none

-- `len(values) > 1`, of the set.
unfoldable pub conflicting : List ℕ → Bool
conflicting [] = false
conflicting (n ∷ ns) = not (all (λ m. m == n) ns)

abbrev conflict_names : Bool → Bool → List String
conflict_names true true = "cache_read" ∷ "cache_creation" ∷ []
conflict_names true false = "cache_read" ∷ []
conflict_names false true = "cache_creation" ∷ []
conflict_names false false = []

-- `usage["cache_read"] = …`, where cache fields were captured.
abbrev with_cache : Bool → Option ℕ → Usage → Usage
with_cache false read usage = usage
with_cache true read usage = record usage { cache_read = read }

unfoldable pub litellm_record : Fields → Result Record
unfolding cache_evidence alias_values resolved conflicting normalize make_record
litellm_record row =
    let raw = obj (get_or "standard_logging_object" (dict row) row) in
    let captured = has "cache_fields" raw in
    let evidence = cache_evidence (obj (get "cache_fields" raw)) in
    let reads = alias_values evidence read_aliases in
    let writes = alias_values evidence creation_aliases in
    make_record (with_cache captured (resolved reads) (normalize (dict raw) openai)) (dict raw)
      (opt_value (resolved writes))
    >>= λ item. ok (record item {
      extra =
          litellm_extra captured evidence (conflict_names (conflicting reads) (conflicting writes))
            (flag (get "callback_success" row));
    })

unfoldable pub litellm_records : Option File → ℕ → ℕ → Result (List Record)
unfolding litellm_record rows in_window
litellm_records file start stop = do
  all_rows ← rows false file
  map_result litellm_record (keep (λ row. in_window row start stop) all_rows)

-- `token_usage`, read where it is a text.
abbrev read_usage : (String → Option Value) → Value → Result Value
read_usage loads (str s) =
    if is_blank s then ok null else elim (loads s) [ none ↦ err value_error | some v ↦ ok v ]
read_usage loads v = ok v

unfoldable pub bifrost_record : (String → Option Value) → Value → Result Record
unfolding normalize make_record
bifrost_record loads value =
    let raw = obj value in
    let columns =
      normalize
        (dict (
          put "prompt_tokens_details"
            (object (("cached_tokens", get "cached_read_tokens" raw) ∷ [])) raw))
        openai in
    read_usage loads (get "token_usage" raw) >>= λ token_usage.
    make_record (if has "token_usage" raw then normalize token_usage openai else columns)
      (dict (put "finish_reasons" (array (get "stop_reason" raw ∷ [])) raw)) null
    >>= λ item. ok (record item {
      extra =
          bifrost_extra columns (count (get "number_of_retries" raw))
            (if has "token_usage" raw then "token_usage" else "selected_columns");
    })

unfoldable pub bifrost_records : (String → Option Value) → Fields → Result (List Record)
unfolding bifrost_record
bifrost_records loads native = do
  raws ← iterate (get_or "records" (arr nil) native)
  map_result (bifrost_record loads) raws

-- The response that holds the usage, and where it stands.
abbrev response_of : Fields → Fields × String
response_of option =
    let response = obj (get "response" option) in
    let original = obj (get "body" (obj (get "originalResponse" option))) in
    if is_dict (get "usage" response)
    then (response, "response")
    else if is_dict (get "usage" original)
    then (original, "original_response")
    else (response, "response")

-- OpenAI's names decide; Anthropic's do only where those are absent.
abbrev wire_of : Fields → Protocol
wire_of usage =
    if has "prompt_tokens" usage || has "completion_tokens" usage
    then openai
    else if has "input_tokens" usage
        || has "output_tokens" usage
        || has "cache_read_input_tokens" usage
        || has "cache_creation_input_tokens" usage
    then anthropic
    else openai

unfoldable pub portkey_record : Fields → Value → Result Record
unfolding finish_reasons normalize make_record
portkey_record raw option =
    let (response, location) = response_of (obj option) in
    let usage = obj (get "usage" response) in
    finish_reasons (dict response) >>= λ reasons.
    make_record (normalize (dict usage) (wire_of usage))
      (object (("status", get "status" raw) ∷ ("finish_reasons", array (map str reasons)) ∷ []))
      (get "cache_creation_input_tokens" usage)
    >>= λ item. ok (record item { extra = portkey_extra location })

-- `raw["requestOptions"] or [{}]`, and no option of a row that is skipped.
abbrev options_of : Value → List Value
options_of (arr nil) = object [] ∷ []
options_of (arr (cons v vs)) = v ∷ items vs
options_of _ = []

unfoldable pub portkey_rows : List Value → Result (List Record)
unfolding portkey_record
portkey_rows [] = ok []
portkey_rows (raw ∷ raws) =
    map_result (portkey_record (obj raw)) (options_of (get "requestOptions" (obj raw))) >>= λ here.
    portkey_rows raws >>= λ rest. ok (here ++ rest)

unfoldable pub portkey_records : Fields → Result (List Record)
unfolding portkey_rows
portkey_records native = do raws ← iterate (get_or "records" (arr nil) native); portkey_rows raws
