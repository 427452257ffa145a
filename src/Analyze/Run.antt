-- ===== src/Analyze/Run.antt =====
-- examples/gateway-accounting/analyze.py: `is_control`, `manifest_versions` and one pair of `analyze_run`. A run has
-- the directories of its pairs; a file read by `read_json` is a
-- value or an exception. Every exception in a pair has the same effect.
pub mod Whole
pub mod Completed
pub mod Sound
use Prim.Native.Char.{code}
use otelcol_genai_sketches.Base.{
  ℕ, String, Bool, true, false, List, [], ◌∷◌, ◌++◌, ◌||◌, ◌&&◌, not, leb, str_eq, one_of, any, all,
  length, map, if◌then◌else◌, Option, none, some, ◌==◌,
}
use otelcol_genai_sketches.Base.Errors.{
  Result, ok, err, type_error, value_error, ◌>>=◌, ◌>>◌, raise_if, map_result,
}
use otelcol_genai_sketches.Json.{
  ℤ, Value, null, str, arr, dict, Fields, end, nil, get, get_or, has, truthy, is_text, is_true,
  num_eq, iterate,
}
use otelcol_genai_sketches.Analyze.Counts.{Protocol, openai, anthropic, obj, enum, enum_or}
use otelcol_genai_sketches.Analyze.Native.Dispatch.{
  Gateway, litellm, bifrost, agentgateway, portkey,
}
use otelcol_genai_sketches.Analyze.Case.{CaseFiles, CaseName, Report, analyze_case}
use otelcol_genai_sketches.Text.{is_digit, is_hex, eat, after_prefix, is_word}

abbrev pub gateway_name : Gateway → String
gateway_name litellm = "litellm"
gateway_name bifrost = "bifrost"
gateway_name agentgateway = "agentgateway"
gateway_name portkey = "portkey"

abbrev pub gateways : List Gateway
gateways = litellm ∷ bifrost ∷ agentgateway ∷ portkey ∷ []

abbrev pub is_control : String → Protocol → Fields → Bool
is_control case protocol manifest =
    one_of case ("complete" ∷ "stream_standard" ∷ [])
    || (str_eq case "stream_complete" && elim protocol [
      | openai ↦ true
      | anthropic ↦ is_text "anthropic" (get "provider" (obj (get "live" manifest)))
    ])

abbrev is_alphanumeric : ℕ → Bool
is_alphanumeric c = leb 97 c && leb c 122 || (leb 65 c && leb c 90 || is_digit c)

-- `[A-Za-z0-9.+_-]`
abbrev is_version_char : ℕ → Bool
is_version_char c = is_alphanumeric c || (c == 46 || (c == 43 || (c == 95 || c == 45)))

abbrev pub version_of : Value → Option String
version_of (str s) = if is_word is_alphanumeric is_version_char 127 s then some s else none
version_of _ = none

-- `$` also matches before a line break that ends the text.
abbrev ends_here : Option String → Bool
ends_here none = false
ends_here (some s) = str_eq s "" || str_eq s "\n"

-- The first `n` characters.
abbrev take_text : ℕ → String → String
take_text n String.[] = ""
take_text Prim.Native.Nat.zero (String.◌∷◌ c s) = ""
take_text (Prim.Native.Nat.suc n) (String.◌∷◌ c s) = String.◌∷◌ c (take_text n s)

abbrev digest_after : Option String → Option String
digest_after none = none
digest_after (some s) = if ends_here (eat is_hex 64 s) then some (take_text 64 s) else none

-- `re.search(r"@sha256:([0-9a-f]{64})$", image)`
unfoldable pub image_digest : String → Option String
image_digest String.[] = none
image_digest (String.◌∷◌ c s) =
    let rest = image_digest s in
    elim (digest_after (after_prefix "@sha256:" (String.◌∷◌ c s))) [ some d ↦ some d | none ↦ rest ]

abbrev digest_of : Value → Option String
digest_of (str s) = image_digest s
digest_of _ = none

pub record Version : Type 0 where
  pub gateway : Gateway
  pub version : Option String
  -- Without the prefix `sha256:`.
  pub digest : Option String

unfoldable pub manifest_versions : Fields → List Version
unfolding image_digest
manifest_versions manifest =
    map
      (λ g.
        let metadata = obj (get (gateway_name g) (obj (get "images" manifest))) in
        record {
          gateway = g;
          version = version_of (get "version" metadata);
          digest = digest_of (get_or "image" (str "") metadata);
        })
      gateways

-- The directory of a gateway and a protocol.
pub record Pair : Type 0 where
  pub outcome : Result Value
  pub case_value : String → Result Value
  pub files : String → CaseFiles

-- `diagnostic`
pub record Excluded : Type 0 where
  pub gateway : Gateway
  pub upstream_protocol : Protocol
  pub status : String
  pub observed_case_count : Option ℕ

-- What a pair adds to the report.
pub data PairResult : Type 0 where
  excluded : String → Option ℕ → PairResult
  observed : List Report → PairResult

abbrev pub outcome_statuses : List String
outcome_statuses = "completed" ∷ "running" ∷ "setup_or_control_failed" ∷ []

-- `[a-z]`, and `[a-z0-9_]`
abbrev is_lower : ℕ → Bool
is_lower c = leb 97 c && leb c 122

abbrev is_case_char : ℕ → Bool
is_case_char c = is_lower c || (is_digit c || c == 95)

-- The case names, each of which matches the expression.
abbrev case_name : Value → Result String
case_name (str s) = if is_word is_lower is_case_char 63 s then ok s else err value_error
case_name _ = err value_error

-- `set(requested) - set(case_names)` is empty.
abbrev is_requested : List String → Value → Bool
is_requested names (str s) = one_of s names
is_requested names _ = false

unfoldable pub listed_cases : Fields → Fields → Result (List String)
listed_cases manifest outcome =
    let cases = get_or "cases" (arr nil) outcome in
    raise_if (not (truthy cases)) value_error
    >> (iterate cases >>= map_result case_name >>= λ names.
        iterate (get_or "cases" cases manifest) >>= λ requested.
        raise_if (not (all (is_requested names) requested)) value_error >> ok names)

abbrev pub protocol_of : Value → Result Protocol
protocol_of (str s) =
    if str_eq s "openai"
    then ok openai
    else if str_eq s "anthropic"
    then ok anthropic
    else err value_error
protocol_of _ = err value_error

abbrev protocol_text : Protocol → String
protocol_text openai = "openai"
protocol_text anthropic = "anthropic"

-- `"client_protocol" in manifest and value["client_protocol"] != manifest["client_protocol"]`
abbrev pub disagrees : Fields → Protocol → Bool
disagrees manifest protocol =
    has "client_protocol" manifest
    && not (is_text (protocol_text protocol) (get "client_protocol" manifest))

abbrev pub has_failed : Fields → Bool
has_failed value = not (num_eq 200 (get "status" value)) || not (is_true (get "terminal" value))

-- A case with its client's protocol; `none` where a control failed.
abbrev pub Loaded : Type 0
Loaded = String × (Protocol × Fields)

unfoldable pub load_case : Pair → Protocol → Fields → String → Result (Option Loaded)
load_case pair protocol manifest case = pair.case_value case >>= λ read.
    protocol_of (get "client_protocol" (obj read)) >>= λ client.
    raise_if (disagrees manifest client) value_error
    >> ok (
        if is_control case protocol manifest && has_failed (obj read)
        then none
        else some (case, (client, obj read)))

abbrev pub add_case : Loaded → Option (List Loaded) → Option (List Loaded)
add_case l none = none
add_case l (some ls) = some (l ∷ ls)

abbrev pub after_case :
    Option Loaded → Result (Option (List Loaded)) → Result (Option (List Loaded))
after_case none rest = ok none
after_case (some l) rest = rest >>= λ ls. ok (add_case l ls)

-- The loop over the cases: the first control that failed ends it.
unfoldable pub load_cases : Pair → Protocol → Fields → List String → Result (Option (List Loaded))
unfolding load_case
load_cases pair protocol manifest [] = ok (some [])
load_cases pair protocol manifest (case ∷ cases) =
    load_case pair protocol manifest case >>= λ loaded.
    after_case loaded (load_cases pair protocol manifest cases)

-- `len(case_names)`
abbrev pub case_count : Value → Result ℕ
case_count cases = iterate cases >>= λ names. ok (length names)

module _ (loads : String → Option Value) (iso_ns : String → Option ℤ)
    (to_int : Value → Option ℤ) where
  abbrev pub analyze_loaded : Gateway → Protocol → Pair → String → Loaded → Result Report
  analyze_loaded gateway protocol pair mode (case, (client, value)) =
      analyze_case loads iso_ns to_int
        (record {
          gateway = gateway;
          upstream_protocol = protocol;
          client_protocol = client;
          case = case;
        })
        (pair.files case) value mode

  -- After the cases have been loaded.
  abbrev pub after_cases :
      Gateway → Protocol → Pair → String → Option (List Loaded) → Result PairResult
  after_cases gateway protocol pair mode none = ok (excluded "control_failed" none)
  after_cases gateway protocol pair mode (some cases) =
      map_result (analyze_loaded gateway protocol pair mode) cases >>= λ reports.
      ok (observed reports)

  abbrev pub after_status :
      Gateway → Protocol → Pair → String → Fields → Fields → String → Result PairResult
  after_status gateway protocol pair mode manifest outcome status =
      if str_eq status "completed"
      then (listed_cases manifest outcome >>= λ names.
          load_cases pair protocol manifest names >>= after_cases gateway protocol pair mode)
      else (case_count (get_or "cases" (arr nil) outcome) >>= λ n. ok (excluded status (some n)))

  -- The body of `try`.
  unfoldable pub try_pair : Gateway → Protocol → Pair → String → Fields → Result PairResult
  unfolding analyze_case listed_cases load_cases
  try_pair gateway protocol pair mode manifest = pair.outcome >>= λ read.
      after_status gateway protocol pair mode manifest (obj read)
        (enum_or "incomplete" (get "status" (obj read)) outcome_statuses)

  -- With the handler of its exceptions.
  abbrev pub caught : Result PairResult → PairResult
  caught (ok result) = result
  caught (err e) = excluded "incomplete_or_unreadable" none

  unfoldable pub analyze_pair :
      Gateway → Protocol → Option Pair → String → Fields → Option PairResult
  unfolding try_pair
  analyze_pair gateway protocol none mode manifest = none
  analyze_pair gateway protocol (some pair) mode manifest =
      some (caught (try_pair gateway protocol pair mode manifest))
