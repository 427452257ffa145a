-- ===== src/Analyze/Telemetry/Selected.antt =====
-- examples/gateway-accounting/analyze.py: the spans that `span_records` selects for their usage.
use otelcol_genai_sketches.Base.{
  or_iff, String, eq_iff, str_eq, ◌≢◌, ◌⊎◌, none, some, not, ◌&&◌, ℕ, suc, Bool, true, false, List,
  [], ◌∷◌, ◌||◌, if◌then◌else◌, Option, length, map, ◌≡◌, refl, sym, ap, ◌∙◌, subst, arith, ◌↔◌,
  inl, inr, Bool-cases,
}
use otelcol_genai_sketches.Base.Errors.{ok}
use otelcol_genai_sketches.Base.Errors.Laws.{>>=-ok, ok-inj, fold_result-Keeps}
use otelcol_genai_sketches.Json.{ℤ, Value, arr, nil, Fields, get, get_or, null, iterate}
use otelcol_genai_sketches.Analyze.Counts.{
  obj, Usage, missing, complete, partial, is_some, usage_state,
}
use otelcol_genai_sketches.Analyze.Record.{Record, Origins}
use otelcol_genai_sketches.Analyze.Surface.{is_selected}
use otelcol_genai_sketches.Analyze.Rows.{File, rows, in_window}
use otelcol_genai_sketches.Analyze.Lineage.{Key, key_eq, key_eq_iff, Node, inside, is_leaf}
use otelcol_genai_sketches.Analyze.Lineage.Leaves.{distinct, Covered, is_leaf-Covered}
use otelcol_genai_sketches.Analyze.Telemetry.{
  Span, entry_of, put_span, read_span, is_outside, add_span, add_scope, add_resource, add_body,
  add_row, collect, is_missing, any_known, is_flag, is_candidate, node_of, finish_items,
  span_records, get_either, as_dict,
}

-- The keys of the entries differ, as those of a dict do.
abbrev IsDict : List Span → Type 0
IsDict spans = distinct (map node_of spans) ≡ true

inside-put_span :
    (k : Key) (s : Span) (spans : List Span)
    → inside k (map node_of (put_span s spans)) ≡ (key_eq k s.key || inside k (map node_of spans))
unfolding inside put_span
inside-put_span k s [] = refl
inside-put_span k s (x ∷ xs) =
    ground (
      arith,
      key_eq_iff s.key x.key,
      key_eq_iff k s.key,
      key_eq_iff k x.key,
      inside-put_span k s xs,
    )

put_span-IsDict : (s : Span) (spans : List Span) → IsDict spans → IsDict (put_span s spans)
unfolding put_span distinct
put_span-IsDict s [] d = refl
put_span-IsDict s (x ∷ xs) d = elim (Bool-cases (key_eq s.key x.key)) [
  | inl same ↦
      rw same
        (ground (arith, d, ap (λ k. inside k (map node_of xs)) ((key_eq_iff s.key x.key).0 same)))
  | inr other ↦ rw other (
      ground (
        arith,
        d,
        key_eq_iff s.key x.key,
        key_eq_iff x.key s.key,
        inside-put_span x.key s xs,
        put_span-IsDict s xs,
      ))
]

read_span-IsDict :
    (nodes : List Span) (span : Fields) (last : List Span)
    → IsDict nodes
    → read_span nodes span ≡ ok last
    → IsDict last
unfolding read_span
read_span-IsDict nodes span last d h =
    let (entry, found, same) = >>=-ok (entry_of span (length nodes)) _ last h in
    subst IsDict (ok-inj (put_span entry nodes) last same) (put_span-IsDict entry nodes d)

module _ (to_int : Value → Option ℤ) (start stop : ℕ) where
  add_span-IsDict :
      (nodes : List Span) (value : Value) (last : List Span)
      → IsDict nodes
      → add_span to_int start stop nodes value ≡ ok last
      → IsDict last
  add_span-IsDict nodes value last d h =
      let (span, typed, h₁) = >>=-ok (as_dict value) _ last h in
      let (outside, timed, h₂) =
        >>=-ok
          (is_outside to_int start stop
            (get_either "startTimeUnixNano" "start_time_unix_nano" null span))
          _ last h₁ in
      skip_or outside nodes span last d h₂
    where
      skip_or :
          (outside : Bool) (nodes : List Span) (span : Fields) (last : List Span)
          → IsDict nodes
          → (if outside then ok nodes else read_span nodes span) ≡ ok last
          → IsDict last
      skip_or true nodes span last d h = subst IsDict (ok-inj nodes last h) d
      skip_or false nodes span last d h = read_span-IsDict nodes span last d h

  add_scope-IsDict :
      (nodes : List Span) (value : Value) (last : List Span)
      → IsDict nodes
      → add_scope to_int start stop nodes value ≡ ok last
      → IsDict last
  add_scope-IsDict nodes value last d h =
      let (scope, typed, h₁) = >>=-ok (as_dict value) _ last h in
      let (spans, listed, h₂) = >>=-ok (iterate (get_or "spans" (arr nil) scope)) _ last h₁ in
      fold_result-Keeps IsDict (add_span to_int start stop) add_span-IsDict nodes spans last d h₂

  add_resource-IsDict :
      (nodes : List Span) (value : Value) (last : List Span)
      → IsDict nodes
      → add_resource to_int start stop nodes value ≡ ok last
      → IsDict last
  add_resource-IsDict nodes value last d h =
      let (resource, typed, h₁) = >>=-ok (as_dict value) _ last h in
      let (scopes, listed, h₂) =
        >>=-ok (iterate (get_either "scopeSpans" "scope_spans" (arr nil) resource)) _ last h₁ in
      fold_result-Keeps IsDict (add_scope to_int start stop) add_scope-IsDict nodes scopes last d h₂

  add_body-IsDict :
      (nodes : List Span) (body : Fields) (last : List Span)
      → IsDict nodes
      → add_body to_int start stop nodes body ≡ ok last
      → IsDict last
  add_body-IsDict nodes body last d h =
      let (resources, listed, h₁) =
        >>=-ok (iterate (get_either "resourceSpans" "resource_spans" (arr nil) body)) _ last h in
      fold_result-Keeps IsDict (add_resource to_int start stop) add_resource-IsDict nodes resources
        last d h₁

  add_row-IsDict :
      (nodes : List Span) (row : Fields) (last : List Span)
      → IsDict nodes
      → add_row to_int start stop nodes row ≡ ok last
      → IsDict last
  add_row-IsDict nodes row last d h = elim (Bool-cases (in_window row start stop)) [
    | inl inside_window ↦ add_body-IsDict nodes (obj (get "body" row)) last d (
        sym (
          ap (λ b. if b then add_body to_int start stop nodes (obj (get "body" row)) else ok nodes)
            inside_window)
        ∙ h)
    | inr outside ↦
        subst IsDict
          (ok-inj nodes last (
            sym (
              ap
                (λ b.
                  if b then add_body to_int start stop nodes (obj (get "body" row)) else ok nodes)
                outside)
            ∙ h))
          d
  ]

  collect-IsDict :
      (file : Option File) (spans : List Span)
      → collect to_int start stop file ≡ ok spans
      → IsDict spans
  unfolding collect distinct
  collect-IsDict file spans h =
      let (all_rows, read, h₁) = >>=-ok (rows false file) _ spans h in
      fold_result-Keeps IsDict (add_row to_int start stop) add_row-IsDict [] all_rows spans refl h₁

-- An origin other than `unknown` is declared for some count.
abbrev pub IsDeclared : Option Origins → Type 0
IsDeclared none = ⊥
IsDeclared (some o) = (o.input ≢ "unknown") ⊎ ((o.output ≢ "unknown") ⊎ (o.cache_read ≢ "unknown"))

-- The span carries a known count, a declared origin, or the flag of an incomplete response.
abbrev pub Bears : Span → Type 0
Bears s =
    (s.item.usage.input ≢ none)
    ⊎ ((s.item.usage.output ≢ none)
        ⊎ ((s.item.usage.cache_read ≢ none) ⊎ (IsDeclared s.item.origins ⊎ (s.incomplete ≢ none))))

-- Each record is that of a span; it is selected just if the span bears on usage and no other span that
-- does stands under it.
abbrev pub Selects : List Node → List Span → List Record → Type 0
Selects nodes [] [] = Unit {0}
Selects nodes [] (r ∷ rs) = ⊥
Selects nodes (s ∷ ss) [] = ⊥
Selects nodes (s ∷ ss) (r ∷ rs) =
    (r.usage ≡ s.item.usage)
    × ((is_selected r ≡ true) ↔ (Bears s × (¬ Covered nodes s.key)))
    × Selects nodes ss rs

-- The nodes are those of the spans, and a candidate is one that bears on usage.
abbrev pub Marks : List Node → List Span → Type 0
Marks [] [] = Unit {0}
Marks [] (s ∷ ss) = ⊥
Marks (n ∷ ns) [] = ⊥
Marks (n ∷ ns) (s ∷ ss) =
    (n.key ≡ s.key) × (n.parent ≡ s.parent) × ((n.candidate ≡ true) ↔ Bears s) × Marks ns ss

known_iff : (c : Option ℕ) → (is_some c ≡ true) ↔ (c ≢ none)
known_iff none = ((λ h. cc), λ h. absurd (h refl))
known_iff (some n) = ((λ h. λ same. cc), λ h. refl)

flag_iff : (f : Option Bool) → (is_flag f ≡ true) ↔ (f ≢ none)
flag_iff none = ((λ h. cc), λ h. absurd (h refl))
flag_iff (some b) = ((λ h. λ same. cc), λ h. refl)

differs_iff : (s t : String) → (not (str_eq s t) ≡ true) ↔ (s ≢ t)
differs_iff s t = (
  (λ h. λ same. grind (arith, eq_iff s t)),
  λ h. elim (Bool-cases (str_eq s t)) [
    | inl same ↦ absurd (h ((eq_iff s t).0 same))
    | inr other ↦ ap not other
  ],
)

any_known_iff : (o : Option Origins) → (any_known o ≡ true) ↔ IsDeclared o
any_known_iff none = ((λ h. cc), λ h. absurd h)
any_known_iff (some o) =
    or_iff _ _ (differs_iff o.input "unknown")
      (or_iff _ _ (differs_iff o.output "unknown") (differs_iff o.cache_read "unknown"))

-- The test of the usage's state, as one of its counts.
some_count :
    (u : Usage) (rest : Bool)
    → (not (is_missing (usage_state u)) || rest)
      ≡ (is_some u.input || (is_some u.output || (is_some u.cache_read || rest)))
unfolding usage_state
some_count u rest = by_flags (is_some u.input) (is_some u.output) (is_some u.cache_read)
  where
    by_flags :
        (i o c : Bool)
        → (not (
              is_missing
                (if not i && not o && not c then missing else if i && o then complete else partial))
            || rest)
          ≡ (i || (o || (c || rest)))
    by_flags true true c = refl
    by_flags true false c = refl
    by_flags false true c = refl
    by_flags false false true = refl
    by_flags false false false = refl

is_candidate_iff : (s : Span) → (is_candidate s ≡ true) ↔ Bears s
unfolding is_candidate
is_candidate_iff s =
    let u = s.item.usage in
    let split = some_count u (any_known s.item.origins || is_flag s.incomplete) in
    let iff = or_iff _ _ (known_iff u.input) (
      or_iff _ _ (known_iff u.output) (
        or_iff _ _ (known_iff u.cache_read)
          (or_iff _ _ (any_known_iff s.item.origins) (flag_iff s.incomplete)))) in
    ((λ h. iff.0 (sym split ∙ h)), λ bears. split ∙ iff.1 bears)

nodes-Marks : (spans : List Span) → Marks (map node_of spans) spans
nodes-Marks [] = tt
nodes-Marks (s ∷ spans) = (refl, refl, is_candidate_iff s, nodes-Marks spans)

is_leaf-candidate : (nodes : List Node) (n : Node) → is_leaf nodes n ≡ true → n.candidate ≡ true
unfolding is_leaf
is_leaf-candidate nodes n h = ground arith

finish_items-Selects :
    (nodes : List Node) (n : ℕ) (spans : List Span)
    → distinct nodes ≡ true
    → Selects nodes spans (finish_items nodes n spans)
unfolding finish_items
finish_items-Selects nodes n [] d = tt
finish_items-Selects nodes n (s ∷ spans) d = (
  refl,
  (
    (λ leaf.
        let candidate = is_leaf-candidate nodes (node_of s) leaf in
        ((is_candidate_iff s).0 candidate, (is_leaf-Covered nodes (node_of s) d candidate).0 leaf)),
    (λ free. (is_leaf-Covered nodes (node_of s) d ((is_candidate_iff s).1 free.0)).1 free.1),
  ),
  finish_items-Selects nodes (suc n) spans d,
)

-- If `span_records` returns, then it has collected a dict of spans and returns one record for each, in
-- their order and with its usage. A record is selected just if its span bears on usage and no other span
-- that does stands under it along links between recorded spans, where a span bears on usage if it
-- carries a known count, a declared origin other than `unknown`, or the flag of an incomplete response.
pub span_records-Selects :
    (to_int : Value → Option ℤ) (file : Option File) (start stop : ℕ) (records : List Record)
    → span_records to_int file start stop ≡ ok records
    → (spans : List Span) × (collect to_int start stop file ≡ ok spans)
      × (nodes : List Node) × Marks nodes spans
      × (distinct nodes ≡ true)
      × Selects nodes spans records
unfolding span_records
span_records-Selects to_int file start stop records h =
    let (spans, collected, same) = >>=-ok (collect to_int start stop file) _ records h in
    let d = collect-IsDict to_int start stop file spans collected in
    (
      spans,
      collected,
      map node_of spans,
      nodes-Marks spans,
      d,
      subst (Selects (map node_of spans) spans) (ok-inj _ records same)
          (finish_items-Selects (map node_of spans) 0 spans d),
    )
