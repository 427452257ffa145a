-- ===== src/Analyze/Merge.antt =====
-- examples/gateway-accounting/analyze.py: `merge_usage` and `final_usage`, the cumulative usage of
-- the events of one attempt.
pub mod Laws
use otelcol_genai_sketches.Base.{String, Bool, true, false, List, [], ◌∷◌, ◌&&◌, if◌then◌else◌}
use otelcol_genai_sketches.Json.{
  Value, null, bool, int, real, str, arr, dict, Fields, end, field, get, has, put, update, is_dict,
}
use otelcol_genai_sketches.Analyze.Counts.{Usage, Protocol, obj, normalize}

-- The value that one key takes: two dicts are joined, anything else replaces.
abbrev pub joined : Value → Value → Value
joined (dict old) (dict new) = dict (update old new)
joined _ new = new

-- The inner loop, over the items of one event's usage.
unfoldable pub merge_fields : Fields → Fields → Fields
merge_fields merged end = merged
merge_fields merged (field k v fs) = merge_fields (put k (joined (get k merged) v) merged) fs

unfoldable pub merge_from : Fields → List Fields → Fields
merge_from merged [] = merged
merge_from merged (event ∷ events) =
    merge_from (merge_fields merged (obj (get "usage" event))) events

unfoldable pub merge_usage : List Fields → Fields
unfolding merge_from merge_fields
merge_usage events = merge_from end events

unfoldable pub final_usage : List Fields → Protocol → Usage
unfolding merge_usage normalize
final_usage events protocol = normalize (dict (merge_usage events)) protocol
