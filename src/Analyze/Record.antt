-- ===== src/Analyze/Record.antt =====
-- examples/gateway-accounting/analyze.py: the whitelisted record of one observation.
use otelcol_genai_sketches.Base.{
  ℕ, String, Bool, List, [], ◌∷◌, ◌&&◌, leb, str_eq, if◌then◌else◌, Option, none, some, any, keep,
}
use otelcol_genai_sketches.Base.Errors.{Result, ok, ◌>>=◌}
use otelcol_genai_sketches.Json.{
  Value, bool, int, arr, pos, get, get_or, nil, is_null, is_str, iterate,
}
use otelcol_genai_sketches.Analyze.Counts.{Usage, Protocol, count, obj, enum}

abbrev pub origins : List String
origins =
    "reported" ∷ "provider_reported" ∷ "estimated" ∷ "inferred" ∷ "missing" ∷ "unavailable"
    ∷ "unknown" ∷ []

abbrev pub finish_reason_names : List String
finish_reason_names =
    "stop" ∷ "length" ∷ "tool_calls" ∷ "function_call" ∷ "content_filter" ∷ "end_turn"
    ∷ "max_tokens" ∷ "stop_sequence" ∷ "tool_use" ∷ "pause_turn" ∷ "refusal" ∷ "error" ∷ []

-- What `enum(v, FINISH_REASONS)` can return, in the order of `sorted`.
abbrev pub sorted_reasons : List String
sorted_reasons =
    "content_filter" ∷ "end_turn" ∷ "error" ∷ "function_call" ∷ "length" ∷ "max_tokens"
    ∷ "pause_turn" ∷ "refusal" ∷ "stop" ∷ "stop_sequence" ∷ "tool_calls" ∷ "tool_use" ∷ "unknown"
    ∷ []

abbrev pub statuses : List String
statuses = "success" ∷ "failure" ∷ "failed" ∷ "error" ∷ "pending" ∷ "processing" ∷ "cancelled" ∷ []

-- `value if type(value) is bool else None`
abbrev pub flag : Value → Option Bool
flag (bool b) = some b
flag _ = none

abbrev pub http_status : Value → Option ℕ
http_status (int (pos n)) = if leb 100 n && leb n 599 then some n else none
http_status _ = none

-- Keys that one adapter adds with `item.update`.
pub data Extra : Type 0 where
  no_extra : Extra
  litellm_extra : Bool → List (String × ℕ) → List String → Option Bool → Extra
  bifrost_extra : Usage → Option ℕ → String → Extra
  portkey_extra : String → Extra
  span_extra : ℕ → Bool → String → Option Bool → Extra
  attempt_extra : Option ℕ → Protocol → ℕ → Usage → Extra
  client_extra : Bool → Bool → Bool → Bool → Usage → Extra

-- One origin for each dimension.
pub record Origins : Type 0 where
  pub input : String
  pub output : String
  pub cache_read : String

pub record Record : Type 0 where
  pub usage : Usage
  pub cache_creation : Option ℕ
  pub final : Option Bool
  pub status : String
  pub http_status : Option ℕ
  pub declared_origin : String
  pub finish_reasons : List String
  pub origins : Option Origins
  pub selected_for_usage : Option Bool
  pub extra : Extra

-- `{enum(v, FINISH_REASONS) for v in values if isinstance(v, str)}`, sorted.
abbrev pub sorted_set : List Value → List String
sorted_set values =
    keep (λ r. any (λ v. is_str v && str_eq (enum v finish_reason_names) r) values) sorted_reasons

unfoldable pub make_record : Usage → Value → Value → Result Record
make_record usage raw cache_creation = do
  reasons ← iterate (get_or "finish_reasons" (arr nil) (obj raw))
  ok (record {
    usage = usage;
    cache_creation = count cache_creation;
    final = flag (get "final" (obj raw));
    status = enum (get "status" (obj raw)) statuses;
    http_status = http_status (get "status" (obj raw));
    declared_origin = enum (get "usage_origin" (obj raw)) origins;
    finish_reasons = sorted_set reasons;
    origins = none;
    selected_for_usage = none;
    extra = no_extra;
  })

-- `[enum(v, FINISH_REASONS) for v in values if v is not None]`
abbrev pub reasons_of : List Value → List String
reasons_of [] = []
reasons_of (v ∷ vs) =
    let rest = reasons_of vs in if is_null v then rest else enum v finish_reason_names ∷ rest

-- `[obj(c).get("finish_reason") for c in …]`
abbrev pub choice_reasons : List Value → List Value
choice_reasons [] = []
choice_reasons (c ∷ cs) = get "finish_reason" (obj c) ∷ choice_reasons cs

unfoldable pub finish_reasons : Value → Result (List String)
finish_reasons response = do
  choices ← iterate (get_or "choices" (arr nil) (obj response))
  ok (reasons_of (get "stop_reason" (obj response) ∷ choice_reasons choices))
