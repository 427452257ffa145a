-- ===== src/Analyze/Merge/Laws.antt =====
-- examples/gateway-accounting/analyze.py: lookups in the result of `merge_usage`.
use otelcol_genai_sketches.Base.{
  true, false, ◌||◌, sym, ap, ◌∙◌, subst, String, ◌≡◌, refl, List, [], ◌∷◌, ◌++◌, if◌then◌else◌,
  arith, eq_iff,
}
use otelcol_genai_sketches.Json.{
  Value, null, bool, int, real, str, arr, dict, update, Fields, end, field, get, has, put,
}
use otelcol_genai_sketches.Json.Laws.{IsDict, get-put, get-update, has-update}
use otelcol_genai_sketches.Analyze.Counts.{obj}
use otelcol_genai_sketches.Analyze.Merge.{joined, merge_fields, merge_from, merge_usage}

pub get-merge_fields :
    (j : String) (merged fs : Fields)
    → IsDict fs
    → get j (merge_fields merged fs)
      ≡ (if has j fs then joined (get j merged) (get j fs) else get j merged)
unfolding merge_fields
get-merge_fields j merged end h = refl
get-merge_fields j merged (field k v fs) h = ground (
  arith,
  eq_iff j k,
  get-merge_fields j (put k (joined (get k merged) v) merged) fs h.1,
  get-put k j null (joined (get k merged) v) merged,
)

merge_from-append :
    (merged : Fields) (events : List Fields) (e : Fields)
    → merge_from merged (events ++ e ∷ [])
      ≡ merge_fields (merge_from merged events) (obj (get "usage" e))
unfolding merge_from
merge_from-append merged [] e = refl
merge_from-append merged (x ∷ xs) e =
    merge_from-append (merge_fields merged (obj (get "usage" x))) xs e

merge_usage-append :
    (events : List Fields) (e : Fields)
    → merge_usage (events ++ e ∷ []) ≡ merge_fields (merge_usage events) (obj (get "usage" e))
unfolding merge_usage
merge_usage-append events e = merge_from-append end events e

-- The keys of a nested dict are distinct.
abbrev pub IsNested : Value → Type 0
IsNested (dict fs) = IsDict fs
IsNested _ = Unit {0}

-- What becomes of an old value under a new one: of two dicts, a dict in which the new keys hold their new
-- values and all others their old ones; otherwise the new value.
abbrev pub Joins : Value → Value → Value → Type 0
Joins (dict old) (dict new) now =
    (both : Fields) × (now ≡ dict both)
    × ((k : String) → get k both ≡ (if has k new then get k new else get k old))
    × ((k : String) → has k both ≡ (has k new || has k old))
Joins _ new now = now ≡ new

-- What becomes of one key after an event with the given usage.
abbrev pub Merges : String → Fields → Value → Value → Type 0
Merges j usage old now =
    (has j usage ≡ true → Joins old (get j usage) now) × (has j usage ≡ false → now ≡ old)

joined-Joins : (old new : Value) → IsNested new → Joins old new (joined old new)
joined-Joins (dict old) (dict new) h =
    (update old new, refl, (λ k. get-update k null old new h), λ k. has-update k old new)
joined-Joins (dict old) null h = refl
joined-Joins (dict old) (bool b) h = refl
joined-Joins (dict old) (int n) h = refl
joined-Joins (dict old) (real x) h = refl
joined-Joins (dict old) (str s) h = refl
joined-Joins (dict old) (arr vs) h = refl
joined-Joins null new h = refl
joined-Joins (bool b) new h = refl
joined-Joins (int n) new h = refl
joined-Joins (real x) new h = refl
joined-Joins (str s) new h = refl
joined-Joins (arr vs) new h = refl

-- After one more event whose usage has distinct keys, also in a dict that it holds: a key of that usage
-- holds the event's value, or, where that value and the old one are dicts, a dict in which each key of
-- the event's dict holds its new value and every other key its old one; a key that the usage lacks holds
-- what it held before.
pub get-merge_usage :
    (events : List Fields) (e : Fields) (j : String)
    → IsDict (obj (get "usage" e))
    → IsNested (get j (obj (get "usage" e)))
    → Merges j
        (obj (get "usage" e))
        (get j (merge_usage events))
        (get j (merge_usage (events ++ e ∷ [])))
get-merge_usage events e j h nested =
    let usage = obj (get "usage" e) in
    let old = get j (merge_usage events) in
    let looked =
      ap (get j) (merge_usage-append events e) ∙ get-merge_fields j (merge_usage events) usage h in
    (
      (λ here.
          subst (Joins old (get j usage))
            (sym (looked ∙ ap (λ b. if b then joined old (get j usage) else old) here))
            (joined-Joins old (get j usage) nested)),
      λ missing. looked ∙ ap (λ b. if b then joined old (get j usage) else old) missing,
    )
