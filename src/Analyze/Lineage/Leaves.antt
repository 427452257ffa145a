-- ===== src/Analyze/Lineage/Leaves.antt =====
-- examples/gateway-accounting/analyze.py: the leaves that `span_records` selects.
use otelcol_genai_sketches.Base.{
  Bool, true, false, List, [], ◌∷◌, ◌++◌, ◌||◌, ◌&&◌, not, if◌then◌else◌, ◌≡◌, refl, arith, length,
  ◌↔◌, ◌⊎◌, inl, inr, Bool-cases, sym, ◌∙◌, ap,
}
use otelcol_genai_sketches.Analyze.Lineage.{
  Key, key_eq, key_eq_iff, Node, inside, up, member, climb, ancestors_of, is_leaf,
}
use otelcol_genai_sketches.Analyze.Lineage.Reach.{
  Above, Closed, unvisited-le-length, climb_finds, climb_sound, member-cons, not_in_empty,
  member_here,
}

-- `n` is one of the list.
abbrev pub In : Node → List Node → Type 0
In n [] = ⊥
In n (m ∷ ms) = (n ≡ m) ⊎ In n ms

member-append : (k : Key) (js ks : List Key) → member k (js ++ ks) ≡ (member k js || member k ks)
unfolding member
member-append k [] ks = refl
member-append k (j ∷ js) ks = ground (arith, member-append k js ks)

-- A candidate of the list whose climb finds `k`.
abbrev Finds : List Node → List Node → Key → Type 0
Finds nodes rest k =
    (m : Node) × In m rest
    × (m.candidate ≡ true)
    × (member k (climb (length nodes) nodes (m.key ∷ []) m.parent) ≡ true)

member_if :
    (k : Key) (b : Bool) (js : List Key) → member k (if b then js else []) ≡ (b && member k js)
unfolding member
member_if k true js = refl
member_if k false js = refl

member-ancestors_of :
    (nodes rest : List Node) (n : Node) (k : Key)
    → member k (ancestors_of nodes (n ∷ rest)) ≡ (
        (n.candidate && member k (climb (length nodes) nodes (n.key ∷ []) n.parent))
        || member k (ancestors_of nodes rest))
unfolding ancestors_of
member-ancestors_of nodes rest n k =
    member-append k _ (ancestors_of nodes rest)
    ∙ ap (λ b. b || member k (ancestors_of nodes rest))
        (member_if k n.candidate (climb (length nodes) nodes (n.key ∷ []) n.parent))

or_cases : (a b c : Bool) → ((a && b) || c) ≡ true → ((a ≡ true) × (b ≡ true)) ⊎ (c ≡ true)
or_cases true true c h = inl (refl, refl)
or_cases true false c h = inr h
or_cases false b c h = inr h

or_left : (a b c : Bool) → a ≡ true → b ≡ true → ((a && b) || c) ≡ true
or_left a b c h i = ground arith

or_right : (a c : Bool) → c ≡ true → (a || c) ≡ true
or_right a c h = ground arith

empty_ancestors : (nodes : List Node) (k : Key) → member k (ancestors_of nodes []) ≡ true → ⊥
unfolding ancestors_of
empty_ancestors nodes k h = not_in_empty k h

pub ancestors_of-Finds :
    (nodes rest : List Node) (k : Key)
    → member k (ancestors_of nodes rest) ≡ true
    → Finds nodes rest k
ancestors_of-Finds nodes [] k h = absurd (empty_ancestors nodes k h)
ancestors_of-Finds nodes (n ∷ rest) k h =
    elim (or_cases n.candidate (member k (climb (length nodes) nodes (n.key ∷ []) n.parent))
      (member k (ancestors_of nodes rest)) (sym (member-ancestors_of nodes rest n k) ∙ h)) [
        | inl here ↦ (n, inl refl, here.0, here.1)
        | inr later ↦
            let (m, i, c, found) = ancestors_of-Finds nodes rest k later in (m, inr i, c, found)
      ]

pub Finds-ancestors_of :
    (nodes rest : List Node) (k : Key)
    → Finds nodes rest k
    → member k (ancestors_of nodes rest) ≡ true
Finds-ancestors_of nodes [] k (m, i, c, h) = absurd i
Finds-ancestors_of nodes (n ∷ rest) k (m, inl same, c, h) =
    member-ancestors_of nodes rest n k
    ∙ or_left n.candidate _ _ (sym (ap (λ x. x.candidate) same) ∙ c)
        (ap (λ x. member k (climb (length nodes) nodes (x.key ∷ []) x.parent)) (sym same) ∙ h)
Finds-ancestors_of nodes (n ∷ rest) k (m, inr i, c, h) =
    member-ancestors_of nodes rest n k ∙ or_right _ _ (Finds-ancestors_of nodes rest k (m, i, c, h))

-- The keys of a dict differ.
unfoldable pub distinct : List Node → Bool
unfolding inside
distinct [] = true
distinct (n ∷ nodes) = not (inside n.key nodes) && distinct nodes

inside-In : (nodes : List Node) (m : Node) → In m nodes → inside m.key nodes ≡ true
unfolding inside
inside-In [] m i = absurd i
inside-In (n ∷ nodes) m (inl same) = ground (arith, key_eq_iff m.key n.key, ap (λ x. x.key) same)
inside-In (n ∷ nodes) m (inr i) = ground (arith, inside-In nodes m i)

distinct-head :
    (nodes : List Node) (n : Node) → distinct (n ∷ nodes) ≡ true → inside n.key nodes ≡ false
unfolding distinct
distinct-head nodes n d = ground arith

distinct-tail : (nodes : List Node) (n : Node) → distinct (n ∷ nodes) ≡ true → distinct nodes ≡ true
unfolding distinct
distinct-tail nodes n d = ground arith

up_here : (nodes : List Node) (n : Node) → up n.key (n ∷ nodes) ≡ n.parent
unfolding up
up_here nodes n = ground (arith, key_eq_iff n.key n.key)

other_key :
    (nodes : List Node) (n m : Node)
    → distinct (n ∷ nodes) ≡ true
    → In m nodes
    → key_eq m.key n.key ≡ false
other_key nodes n m d i = elim (Bool-cases (key_eq m.key n.key)) [
  | inr other ↦ other
  | inl same ↦ absurd (
      ground (
        arith,
        distinct-head nodes n d,
        inside-In nodes m i,
        ap (λ k. inside k nodes) ((key_eq_iff m.key n.key).0 same),
      ))
]

up_there :
    (nodes : List Node) (n : Node) (k : Key)
    → key_eq k n.key ≡ false
    → up k (n ∷ nodes) ≡ up k nodes
unfolding up
up_there nodes n k other = ground arith

-- The entry of a listed node is its own.
up-In :
    (nodes : List Node) (m : Node) → distinct nodes ≡ true → In m nodes → up m.key nodes ≡ m.parent
up-In [] m d i = absurd i
up-In (n ∷ nodes) m d (inl same) =
    ap (λ x. up x.key (n ∷ nodes)) same ∙ up_here nodes n ∙ ap (λ x. x.parent) (sym same)
up-In (n ∷ nodes) m d (inr i) =
    up_there nodes n m.key (other_key nodes n m d i) ∙ up-In nodes m (distinct-tail nodes n d) i

-- The keys of a dict differ, and the climb of a listed span starts at its own link.
start-Closed :
    (nodes : List Node) (m : Node)
    → distinct nodes ≡ true
    → In m nodes
    → Closed nodes (m.key ∷ []) m.parent
start-Closed nodes m d i v w seen e _ = elim (member-cons v m.key [] seen) [
  | inl same ↦ inr (sym (up-In nodes m d i) ∙ ap (λ k. up k nodes) (sym same) ∙ e)
  | inr none_yet ↦ absurd (not_in_empty v none_yet)
]

-- A listed candidate that stands under `k`, with another key.
abbrev pub Covered : List Node → Key → Type 0
Covered nodes k =
    (m : Node) × In m nodes × (m.candidate ≡ true) × Above nodes m.parent k × (¬ (k ≡ m.key))

Finds-Covered : (nodes : List Node) (k : Key) → Finds nodes nodes k → Covered nodes k
Finds-Covered nodes k (m, i, c, h) =
    let (above, new) = climb_sound (length nodes) nodes (m.key ∷ []) m.parent k h in
    (m, i, c, above, λ same. different m.key same new)
  where
    different : (j : Key) → k ≡ j → member k (j ∷ []) ≡ false → ⊥
    different j same new = ground (arith, member_here j [], ap (λ x. member x (j ∷ [])) same)

Covered-Finds :
    (nodes : List Node) (k : Key) → distinct nodes ≡ true → Covered nodes k → Finds nodes nodes k
Covered-Finds nodes k d (m, i, c, above, other) =
    elim (climb_finds nodes (length nodes) (m.key ∷ []) m.parent k
      (unvisited-le-length nodes (m.key ∷ [])) (start-Closed nodes m d i) above) [
        | inl start ↦ elim (member-cons k m.key [] start) [
          | inl same ↦ absurd (other same)
          | inr no_more ↦ absurd (not_in_empty k no_more)
        ]
        | inr found ↦ (m, i, c, found)
      ]

leaf_uncovered :
    (nodes : List Node) (n : Node)
    → member n.key (ancestors_of nodes nodes) ≡ true
    → is_leaf nodes n ≡ true
    → ⊥
unfolding is_leaf
leaf_uncovered nodes n found leaf = ground arith

leaf_free :
    (nodes : List Node) (n : Node)
    → n.candidate ≡ true
    → member n.key (ancestors_of nodes nodes) ≡ false
    → is_leaf nodes n ≡ true
unfolding is_leaf
leaf_free nodes n c free = ground arith

-- In a dict of spans, a candidate is a leaf just if it does not stand, along links between recorded
-- spans, above another candidate; links may form a cycle.
pub is_leaf-Covered :
    (nodes : List Node) (n : Node)
    → distinct nodes ≡ true
    → n.candidate ≡ true
    → (is_leaf nodes n ≡ true) ↔ (¬ Covered nodes n.key)
is_leaf-Covered nodes n d c = (
  λ leaf covered.
      leaf_uncovered nodes n
        (Finds-ancestors_of nodes nodes n.key (Covered-Finds nodes n.key d covered)) leaf,
  λ uncovered. elim (Bool-cases (member n.key (ancestors_of nodes nodes))) [
    | inl found ↦
        absurd (uncovered (Finds-Covered nodes n.key (ancestors_of-Finds nodes nodes n.key found)))
    | inr free ↦ leaf_free nodes n c free
  ],
)
