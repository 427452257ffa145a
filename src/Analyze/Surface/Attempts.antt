-- ===== src/Analyze/Surface/Attempts.antt =====
-- examples/gateway-accounting/analyze.py: `provider_surface`, the provider's own evidence, one
-- record for each attempt.
use otelcol_genai_sketches.Base.{
  ℕ, String, Bool, true, false, List, [], ◌∷◌, ◌||◌, ◌&&◌, not, ◌++◌, ◌==◌, str_eq, if◌then◌else◌,
  Option, none, some, any, all, length, last?,
}
use otelcol_genai_sketches.Base.Errors.{Result, ok, ◌>>=◌, map_result}
use otelcol_genai_sketches.Json.{Value, null, dict, Fields, end, get, has, is_text, is_true, num_eq}
use otelcol_genai_sketches.Analyze.Counts.{
  Usage, Protocol, openai, anthropic, count, no_usage, normalize,
}
use otelcol_genai_sketches.Analyze.Record.{Record, make_record, attempt_extra, flag}
use otelcol_genai_sketches.Analyze.Merge.{merge_usage}
use otelcol_genai_sketches.Analyze.Surface.{Surface, surface}

-- A key of `attempts`: a counted attempt, or `("unattributed", n)`.
pub data Key : Type 0 where
  attributed unattributed : ℕ → Key

abbrev pub key_eq : Key → Key → Bool
key_eq (attributed m) (attributed n) = m == n
key_eq (unattributed m) (unattributed n) = m == n
key_eq _ _ = false

abbrev pub Groups : Type 0
Groups = List (Key × List Fields)

-- `attempts.setdefault(key, []).append(event)`
unfoldable pub append_to : Key → Fields → Groups → Groups
append_to k e [] = (k, e ∷ []) ∷ []
append_to k e ((j, es) ∷ gs) =
    if key_eq k j then (j, es ++ e ∷ []) ∷ gs else (j, es) ∷ append_to k e gs

abbrev key_of : Option ℕ → ℕ → Key
key_of none n = unattributed n
key_of (some a) n = attributed a

unfoldable pub group_from : Groups → String → List Fields → Groups
unfolding append_to
group_from groups event_name [] = groups
group_from groups event_name (e ∷ es) =
    group_from
      (if is_text event_name (get "event" e)
        then append_to (key_of (count (get "attempt" e)) (length groups)) e groups
        else groups)
      event_name es

-- `enum(values[-1].get("protocol"), PROTOCOLS, protocol)`
unfoldable pub wire_protocol : Option Fields → Protocol → Protocol
wire_protocol none protocol = protocol
wire_protocol (some e) protocol =
    if is_text "openai" (get "protocol" e)
    then openai
    else if is_text "anthropic" (get "protocol" e)
    then anthropic
    else protocol

-- `values[-1].get("basis") == "provider_response_metadata"`
abbrev is_metadata : Option Fields → Bool
is_metadata none = false
is_metadata (some e) = is_text "provider_response_metadata" (get "basis" e)

-- `next(v["final"] for v in reversed(values) if "final" in v)`; `none` if no event has the key.
unfoldable pub last_final : List Fields → Option Value
last_final [] = none
last_final (v ∷ vs) = elim (last_final vs) [
  | some f ↦ some f
  | none ↦ if has "final" v then some (get "final" v) else none
]

-- `e.get("attempt") == attempt`, where `attempt` is the group's key; a tuple equals no JSON value.
abbrev same_attempt : Key → Value → Bool
same_attempt (attributed n) v = num_eq n v
same_attempt (unattributed n) v = false

abbrev is_stream_end : Key → Fields → Bool
is_stream_end key e =
    is_text "stream_end" (get "event" e)
    && same_attempt key (get "attempt" e)
    && is_true (get "terminal_sent" e)

abbrev is_empty : Fields → Bool
is_empty end = true
is_empty _ = false

-- The finality of an attempt with no explicit `final`.
unfoldable pub implied_final :
    List Fields → Key → List Fields → Protocol → Bool → String → Option Bool
implied_final events key values openai has_usage event_name =
    if has_usage && (str_eq event_name "delivered_usage" || is_metadata (last? values))
    then some true
    else none
implied_final events key values anthropic has_usage event_name =
    if str_eq event_name "delivered_usage" && has_usage
    then some (all (λ v. not (has "usage_event" v)) values || any (is_stream_end key) events)
    else none

unfoldable pub attempt_final :
    List Fields → Key → List Fields → Protocol → Bool → String → Option Bool
unfolding last_final implied_final
attempt_final events key values wire has_usage event_name = elim (last_final values) [
  | some f ↦ flag f
  | none ↦ implied_final events key values wire has_usage event_name
]

-- `item["usage"].copy() if final is True else normalize(None)`
abbrev pub usage_if_final : Option Bool → Usage → Usage
usage_if_final (some true) u = u
usage_if_final _ u = no_usage

abbrev key_count : Key → Option ℕ
key_count (attributed n) = some n
key_count (unattributed n) = none

abbrev creation_of : Protocol → Fields → Value
creation_of anthropic usage = get "cache_creation_input_tokens" usage
creation_of openai usage = null

-- One round of the loop over `attempts`.
unfoldable pub attempt_record : List Fields → Protocol → String → Key × List Fields → Result Record
unfolding attempt_final wire_protocol make_record merge_usage normalize
attempt_record events protocol event_name (key, values) =
    let wire = wire_protocol (last? values) protocol in
    let usage = merge_usage values in
    let final = attempt_final events key values wire (not (is_empty usage)) event_name in
    make_record (normalize (dict usage) wire) null (creation_of wire usage) >>= λ item.
    ok (record item {
      final = final;
      declared_origin =
          if str_eq event_name "delivered_usage" || is_metadata (last? values)
          then "provider_reported"
          else "unknown";
      extra = attempt_extra (key_count key) wire (length values) (usage_if_final final item.usage);
    })

unfoldable pub provider_surface : List Fields → Protocol → String → Result Surface
unfolding attempt_record group_from surface
provider_surface events protocol event_name =
    map_result (attempt_record events protocol event_name) (group_from [] event_name events)
    >>= λ records.
        let result =
          surface records (elim records [ [] ↦ "no_record_by_deadline" | r ∷ rs ↦ "observed" ])
            "per_attempt_cumulative_not_sum" in
        ok (record result { final_usage = some (usage_if_final result.final result.usage) })
