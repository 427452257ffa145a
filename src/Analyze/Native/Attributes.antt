-- ===== src/Analyze/Native/Attributes.antt =====
-- examples/gateway-accounting/analyze.py: `canonical_key`, `usage_attributes`, `otlp_attributes` and
-- `agentgateway_records`. A canonical key is the list of its code points.
use Prim.Native.Char.{code}
use otelcol_genai_sketches.Base.{
  ℕ, ◌+◌, String, Bool, true, false, List, [], ◌∷◌, ◌||◌, ◌&&◌, ltb, leb, length, ◌==◌, str_eq,
  if◌then◌else◌, Option, none, some, keep,
}
use otelcol_genai_sketches.Base.Errors.{Result, ok, err, type_error, ◌>>=◌, map_result}
use otelcol_genai_sketches.Json.{
  Value, null, str, arr, dict, Fields, end, field, nat, get, get_or, has, put, iterate, chars, pos,
  negsuc, ℤ, is_text,
}
use otelcol_genai_sketches.Analyze.Counts.{Usage, count, obj, enum}
use otelcol_genai_sketches.Analyze.Record.{Record, Origins, make_record, flag, origins, http_status}
use otelcol_genai_sketches.Analyze.Rows.{File, rows}
use otelcol_genai_sketches.Provider.Request.{digits_from}

-- Lower case, where the result is in ASCII: A to Z, and the Kelvin sign. Any other character keeps a
-- code point outside ASCII, and only ASCII keys are looked up.
abbrev lower : ℕ → ℕ
lower c = if leb 65 c && leb c 90 then c + 32 else if c == 8490 then 107 else c

-- `[a-z0-9]`
abbrev is_lower_or_digit : ℕ → Bool
is_lower_or_digit c = leb 97 c && leb c 122 || leb 48 c && leb c 57

abbrev is_upper : ℕ → Bool
is_upper c = leb 65 c && leb c 90

-- With the code point before, 0 at the start.
unfoldable pub canonical_from : ℕ → String → List ℕ
canonical_from before String.[] = []
canonical_from before (String.◌∷◌ c s) =
    let rest = canonical_from (code c) s in
    if is_lower_or_digit before && is_upper (code c)
    then 95 ∷ lower (code c) ∷ rest
    else lower (code c) ∷ rest

unfoldable pub canonical_key : String → List ℕ
unfolding canonical_from
canonical_key key = canonical_from 0 key

abbrev pub codes_eq : List ℕ → List ℕ → Bool
codes_eq [] [] = true
codes_eq (a ∷ as') (b ∷ bs) = a == b && codes_eq as' bs
codes_eq _ _ = false

abbrev pub codes : String → List ℕ
codes String.[] = []
codes (String.◌∷◌ c s) = code c ∷ codes s

-- `attrs[k]`, if `k` is there: of several raw keys of one canonical key the last one counts.
unfoldable pub attribute : List ℕ → Fields → Option Value
unfolding canonical_key
attribute k end = none
attribute k (field j v fs) = elim (attribute k fs) [
  | some w ↦ some w
  | none ↦ if codes_eq (canonical_key j) k then some v else none
]

-- `first(*keys)`
unfoldable pub first : List String → Fields → Value
unfolding attribute
first [] raw = null
first (k ∷ ks) raw = elim (attribute (codes k) raw) [ some v ↦ v | none ↦ first ks raw ]

abbrev attribute_usage : Fields → Usage
attribute_usage raw = record {
  input = count (first ("gen_ai.usage.input_tokens" ∷ "gen_ai.usage.prompt_tokens" ∷ []) raw);
  output = count (first ("gen_ai.usage.output_tokens" ∷ "gen_ai.usage.completion_tokens" ∷ []) raw);
  cache_read = count (
      first ("gen_ai.usage.cache_read.input_tokens" ∷ "gen_ai.usage.cache_read_input_tokens" ∷ [])
        raw);
}

abbrev attribute_origins : Fields → Origins
attribute_origins raw = record {
  input =
      enum
        (first ("gen_ai_sketch.usage.input.provenance" ∷ "gen_ai.usage.input.provenance" ∷ []) raw)
        origins;
  output =
      enum
        (first ("gen_ai_sketch.usage.output.provenance" ∷ "gen_ai.usage.output.provenance" ∷ [])
          raw)
        origins;
  cache_read =
      enum
        (first
          ("gen_ai_sketch.usage.cache_read.provenance" ∷ "gen_ai.usage.cache_read.provenance" ∷ [])
          raw)
        origins;
}

-- The record, with `incomplete`.
unfoldable pub usage_attributes : Fields → Result (Record × Option Bool)
unfolding first make_record
usage_attributes raw =
    make_record (attribute_usage raw) null (
      first
        ("gen_ai.usage.cache_write.input_tokens" ∷ "gen_ai.usage.cache_creation.input_tokens"
          ∷ "gen_ai.usage.cache_creation_input_tokens" ∷ [])
        raw)
    >>= λ item. ok (
      record item {
        http_status =
            http_status
              (first ("http.response.status_code" ∷ "http.status_code" ∷ "http.status" ∷ []) raw);
        origins = some (attribute_origins raw);
      },
      flag (first ("gen_ai.usage.incomplete" ∷ "gen_ai_sketch.usage.incomplete" ∷ []) raw),
    )

-- `re.fullmatch(r"[0-9]{1,19}", scalar)`, then `int(scalar)`.
abbrev int_text : String → Value
int_text s =
    if str_eq s "" || ltb 19 (length (chars s))
    then str s
    else elim (digits_from 0 s) [ some n ↦ nat n | none ↦ str s ]

abbrev int_scalar : Value → Value
int_scalar (str s) = int_text s
int_scalar v = v

-- The scalar of the first typed key that is there.
unfoldable pub scalar_of : Fields → Option Value
scalar_of value =
    if has "intValue" value
    then some (int_scalar (get "intValue" value))
    else if has "int_value" value
    then some (int_scalar (get "int_value" value))
    else if has "stringValue" value
    then some (get "stringValue" value)
    else if has "string_value" value
    then some (get "string_value" value)
    else if has "boolValue" value
    then some (get "boolValue" value)
    else if has "bool_value" value
    then some (get "bool_value" value)
    else none

-- `result[key] = scalar`. A key that is no text is dropped by `usage_attributes`, and a key that cannot
-- be hashed raises.
abbrev assign : Value → Value → Fields → Result Fields
assign (str k) v result = ok (put k v result)
assign (arr xs) v result = err type_error
assign (dict fs) v result = err type_error
assign _ v result = ok result

abbrev assign_scalar : Value → Option Value → Fields → Result Fields
assign_scalar key none result = ok result
assign_scalar key (some v) result = assign key v result

unfoldable pub otlp_from : Fields → List Value → Result Fields
unfolding scalar_of
otlp_from result [] = ok result
otlp_from result (a ∷ attributes) =
    assign_scalar (get_or "key" (str "") (obj a)) (scalar_of (obj (get "value" (obj a)))) result
    >>= λ next. otlp_from next attributes

unfoldable pub otlp_attributes : Value → Result Fields
unfolding otlp_from
otlp_attributes attributes = iterate attributes >>= λ list. otlp_from end list

-- `start <= stamp <= end`
abbrev pub in_range : ℕ → ℕ → Option ℤ → Bool
in_range start stop none = false
in_range start stop (some (pos n)) = leb start n && leb n stop
in_range start stop (some (negsuc n)) = false

-- `iso_ns` is `datetime.fromisoformat` of the text, with Z for +00:00, in nanoseconds: `none` where it
-- raises or has no time zone.
module _ (iso_ns : String → Option ℤ) where
  unfoldable pub timestamp_ns : Value → Option ℤ
  timestamp_ns (str s) = iso_ns s
  timestamp_ns _ = none

  abbrev is_request : ℕ → ℕ → Fields → Bool
  is_request start stop row =
      is_text "request" (get "scope" row) && in_range start stop (timestamp_ns (get "time" row))

  -- The item's `incomplete` is not part of a surface.
  abbrev request_record : Fields → Result Record
  request_record row = usage_attributes row >>= λ item. ok item.0

  unfoldable pub agentgateway_records : Option File → ℕ → ℕ → Result (List Record)
  unfolding usage_attributes rows timestamp_ns
  agentgateway_records file start stop = do
    all_rows ← rows true file
    map_result request_record (keep (is_request start stop) all_rows)
