-- ===== src/Analyze/Lineage.antt =====
-- examples/gateway-accounting/analyze.py: the selection of usage leaves in `span_records`. Ancestors
-- of spans with usage are found by climbing parent links, which may form a cycle.
pub mod Reach
pub mod Leaves
pub mod Ends
use otelcol_genai_sketches.Base.{
  ℕ, zero, suc, ◌+◌, ◌≤◌, ◌<◌, String, Bool, true, false, List, [], ◌∷◌, ◌++◌, ◌||◌, ◌&&◌, not,
  if◌then◌else◌, Option, none, some, ◌≡◌, refl, arith, length, str_eq, eq_iff, ◌==◌, ◌↔◌, ==_iff,
  map,
}

-- A key of `nodes`: `(trace, sid)`, or `(None, n)` where an id is missing.
pub data Key : Type 0 where
  identified : String → String → Key
  anonymous : ℕ → Key

abbrev pub key_eq : Key → Key → Bool
key_eq (identified t s) (identified u r) = str_eq t u && str_eq s r
key_eq (anonymous m) (anonymous n) = m == n
key_eq _ _ = false

pub key_eq_iff : (a b : Key) → (key_eq a b ≡ true) ↔ (a ≡ b)
key_eq_iff (identified t s) (identified u r) = ground (arith, eq_iff t u, eq_iff s r)
key_eq_iff (anonymous m) (anonymous n) = ground arith
key_eq_iff (identified t s) (anonymous n) = ground arith
key_eq_iff (anonymous n) (identified t s) = ground arith

-- An entry of `nodes`: the parent's key, if both of its ids are there, and whether the span is a
-- candidate.
pub record Node : Type 0 where
  pub key : Key
  pub parent : Option Key
  pub candidate : Bool

-- `parent in nodes`
unfoldable pub inside : Key → List Node → Bool
inside k [] = false
inside k (n ∷ nodes) = key_eq k n.key || inside k nodes

-- `nodes[k][0]`
unfoldable pub up : Key → List Node → Option Key
up k [] = none
up k (n ∷ nodes) = if key_eq k n.key then n.parent else up k nodes

-- `k in visited`
unfoldable pub member : Key → List Key → Bool
member k [] = false
member k (j ∷ js) = key_eq k j || member k js

-- The `while` loop: the keys that it adds to `ancestors`.
unfoldable pub climb : ℕ → List Node → List Key → Option Key → List Key
unfolding inside up member
climb zero nodes visited parent = []
climb (suc fuel) nodes visited none = []
climb (suc fuel) nodes visited (some p) = elim (inside p nodes && not (member p visited)) [
  | true ↦ p ∷ climb fuel nodes (p ∷ visited) (up p nodes)
  | false ↦ []
]

-- The loop over the candidates, each with as much fuel as there are nodes.
unfoldable pub ancestors_of : List Node → List Node → List Key
unfolding climb
ancestors_of nodes [] = []
ancestors_of nodes (n ∷ rest) =
    (if n.candidate then climb (length nodes) nodes (n.key ∷ []) n.parent else [])
    ++ ancestors_of nodes rest

-- `key in candidates - ancestors`
unfoldable pub is_leaf : List Node → Node → Bool
unfolding ancestors_of
is_leaf nodes n = n.candidate && not (member n.key (ancestors_of nodes nodes))

-- `selection_role`
unfoldable pub selection_role : List Node → Node → String
unfolding is_leaf
selection_role nodes n =
    if is_leaf nodes n
    then "usage_leaf"
    else if n.candidate
    then "usage_ancestor"
    else "status_only"
