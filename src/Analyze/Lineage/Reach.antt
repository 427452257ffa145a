-- ===== src/Analyze/Lineage/Reach.antt =====
-- examples/gateway-accounting/analyze.py: lemmas on the climb of `span_records`, and the relation of a
-- parent link to the spans above it.
use otelcol_genai_sketches.Base.{
  ℕ, zero, suc, ◌≤◌, ◌<◌, Bool, true, false, List, [], ◌∷◌, ◌&&◌, not, if◌then◌else◌, Option, none,
  some, ◌≡◌, refl, arith, length, ◌⊎◌, inl, inr, Bool-cases, sym, ◌∙◌, ap, subst,
}
use otelcol_genai_sketches.Analyze.Lineage.{Key, key_eq_iff, Node, inside, up, member, climb}

-- The nodes that have not been visited, as often as they are listed.
unfoldable pub unvisited : List Node → List Key → ℕ
unvisited [] visited = 0
unvisited (n ∷ nodes) visited =
    let rest = unvisited nodes visited in if member n.key visited then rest else suc rest

unvisited-cons-le :
    (nodes : List Node) (visited : List Key) (p : Key)
    → unvisited nodes (p ∷ visited) ≤ unvisited nodes visited
unfolding unvisited member
unvisited-cons-le [] visited p = omega arith
unvisited-cons-le (n ∷ nodes) visited p = ground (arith, unvisited-cons-le nodes visited p)

-- A new visit of a node leaves fewer.
unvisited-cons-lt :
    (nodes : List Node) (visited : List Key) (p : Key)
    → inside p nodes ≡ true
    → member p visited ≡ false
    → unvisited nodes (p ∷ visited) < unvisited nodes visited
unfolding unvisited member inside
unvisited-cons-lt [] visited p h m = cc
unvisited-cons-lt (n ∷ nodes) visited p h m = ground (
  arith,
  key_eq_iff p n.key,
  key_eq_iff n.key p,
  unvisited-cons-lt nodes visited p,
  unvisited-cons-le nodes visited p,
)

pub unvisited-le-length :
    (nodes : List Node) (visited : List Key) → unvisited nodes visited ≤ length nodes
unfolding unvisited
unvisited-le-length [] visited = omega arith
unvisited-le-length (n ∷ nodes) visited = ground (arith, unvisited-le-length nodes visited)

-- With fuel for the nodes left, one more unit changes nothing.
pub climb_enough :
    (fuel : ℕ) (nodes : List Node) (visited : List Key) (parent : Option Key)
    → unvisited nodes visited ≤ fuel
    → climb (suc fuel) nodes visited parent ≡ climb fuel nodes visited parent
unfolding climb
climb_enough zero nodes visited none h = refl
climb_enough zero nodes visited (some p) h = ground (arith, unvisited-cons-lt nodes visited p)
climb_enough (suc fuel) nodes visited none h = refl
climb_enough (suc fuel) nodes visited (some p) h =
    ground
      (arith, unvisited-cons-lt nodes visited p, climb_enough fuel nodes (p ∷ visited) (up p nodes))

-- `k` stands at the parent link `o` or above it, along links between recorded spans.
pub data Above (nodes : List Node) : Option Key → Key → Type 0 where
  there : (k : Key) → inside k nodes ≡ true → Above nodes (some k) k
  higher : (p k : Key) → inside p nodes ≡ true → Above nodes (up p nodes) k → Above nodes (some p) k

-- Every link out of a visited span leads to a visited one or to the parent at hand.
abbrev pub Closed : List Node → List Key → Option Key → Type 0
Closed nodes visited parent =
    (v w : Key)
    → member v visited ≡ true
    → up v nodes ≡ some w
    → inside w nodes ≡ true
    → (member w visited ≡ true) ⊎ (parent ≡ some w)

-- Where the links stay among visited spans, so does all that is above.
Above-visited :
    (nodes : List Node) (visited : List Key)
    → ((v w : Key)
        → member v visited ≡ true
        → up v nodes ≡ some w
        → inside w nodes ≡ true
        → member w visited ≡ true)
    → (o : Option Key) (k : Key)
    → ((w : Key) → o ≡ some w → inside w nodes ≡ true → member w visited ≡ true)
    → Above nodes o k
    → member k visited ≡ true
Above-visited nodes visited closed o k from (there _ h) = from k refl h
Above-visited nodes visited closed o k from (higher p _ h a) =
    Above-visited nodes visited closed (up p nodes) k (λ w e i. closed p w (from p refl h) e i) a

visited-Closed :
    (nodes : List Node) (visited : List Key) (p k : Key)
    → member p visited ≡ true
    → Closed nodes visited (some p)
    → Above nodes (some p) k
    → member k visited ≡ true
visited-Closed nodes visited p k seen closed a =
    Above-visited nodes visited
      (λ v w m e i. elim (closed v w m e i) [ inl yes' ↦ yes' | inr same ↦ some_visited w same ])
      (some p) k (λ w e i. some_visited w e) a
  where
    some_visited : (w : Key) → some p ≡ some w → member w visited ≡ true
    some_visited w e = ground (arith, seen, e)

pub member-cons :
    (k p : Key) (js : List Key) → member k (p ∷ js) ≡ true → (k ≡ p) ⊎ (member k js ≡ true)
unfolding member
member-cons k p js h = ground (arith, key_eq_iff k p)

pub member_here : (k : Key) (js : List Key) → member k (k ∷ js) ≡ true
unfolding member
member_here k js = ground (arith, key_eq_iff k k)

member_there : (k p : Key) (js : List Key) → member k js ≡ true → member k (p ∷ js) ≡ true
unfolding member
member_there k p js h = ground (arith, key_eq_iff k p)

Closed-cons :
    (nodes : List Node) (visited : List Key) (p : Key)
    → Closed nodes visited (some p)
    → Closed nodes (p ∷ visited) (up p nodes)
Closed-cons nodes visited p closed v w m e i = elim (member-cons v p visited m) [
  | inl new ↦ inr (ap (λ x. up x nodes) (sym new) ∙ e)
  | inr old ↦ inl (elim (closed v w old e i) [
    | inl seen ↦ member_there w p visited seen
    | inr same ↦ moved w same
  ])
]
  where
    moved : (w : Key) → some p ≡ some w → member w (p ∷ visited) ≡ true
    moved w same = ground (arith, member_here w visited, same)

climb_step :
    (fuel : ℕ) (nodes : List Node) (visited : List Key) (p : Key)
    → inside p nodes ≡ true
    → member p visited ≡ false
    → climb (suc fuel) nodes visited (some p) ≡ p ∷ climb fuel nodes (p ∷ visited) (up p nodes)
unfolding climb
climb_step fuel nodes visited p h m = ground arith

-- With enough fuel the climb finds all that is above and was not visited.
pub climb_finds :
    (nodes : List Node) (fuel : ℕ) (visited : List Key) (parent : Option Key) (k : Key)
    → unvisited nodes visited ≤ fuel
    → Closed nodes visited parent
    → Above nodes parent k
    → (member k visited ≡ true) ⊎ (member k (climb fuel nodes visited parent) ≡ true)
climb_finds nodes fuel visited parent k room closed (there _ h) =
    elim (Bool-cases (member k visited)) [
      | inl seen ↦ inl seen
      | inr new ↦ inr (found fuel room new)
    ]
  where
    found :
        (f : ℕ)
        → unvisited nodes visited ≤ f
        → member k visited ≡ false
        → member k (climb f nodes visited (some k)) ≡ true
    found zero r new = absurd (omega (arith, unvisited-cons-lt nodes visited k h new))
    found (suc f) r new =
        rw (climb_step f nodes visited k h new)
          (member_here k (climb f nodes (k ∷ visited) (up k nodes)))
climb_finds nodes zero visited parent k room closed (higher p _ h a) =
    elim (Bool-cases (member p visited)) [
      | inl seen ↦ inl (visited-Closed nodes visited p k seen closed (higher p k h a))
      | inr new ↦ absurd (omega (arith, unvisited-cons-lt nodes visited p h new))
    ]
climb_finds nodes (suc fuel) visited parent k room closed (higher p _ h a) =
    elim (Bool-cases (member p visited)) [
      | inl seen ↦ inl (visited-Closed nodes visited p k seen closed (higher p k h a))
      | inr new ↦ rw (climb_step fuel nodes visited p h new) (
          sorted (
            climb_finds nodes fuel (p ∷ visited) (up p nodes) k
              (omega (arith, unvisited-cons-lt nodes visited p h new))
              (Closed-cons nodes visited p closed) a))
    ]
  where
    sorted :
        (member k (p ∷ visited) ≡ true)
          ⊎ (member k (climb fuel nodes (p ∷ visited) (up p nodes)) ≡ true)
        → (member k visited ≡ true)
          ⊎ (member k (p ∷ climb fuel nodes (p ∷ visited) (up p nodes)) ≡ true)
    sorted (inr below) = inr (member_there k p _ below)
    sorted (inl here) = elim (member-cons k p visited here) [
      | inl same ↦ inr (
          ap (λ x. member x (p ∷ climb fuel nodes (p ∷ visited) (up p nodes))) same
          ∙ member_here p (climb fuel nodes (p ∷ visited) (up p nodes)))
      | inr old ↦ inl old
    ]

pub not_in_empty : (k : Key) → member k [] ≡ true → ⊥
unfolding member
not_in_empty k h = cc

no_fuel :
    (nodes : List Node) (visited : List Key) (parent : Option Key) (k : Key)
    → member k (climb zero nodes visited parent) ≡ true
    → ⊥
unfolding climb
no_fuel nodes visited parent k h = not_in_empty k h

no_parent :
    (fuel : ℕ) (nodes : List Node) (visited : List Key) (k : Key)
    → member k (climb (suc fuel) nodes visited none) ≡ true
    → ⊥
unfolding climb
no_parent fuel nodes visited k h = not_in_empty k h

climb_stop :
    (fuel : ℕ) (nodes : List Node) (visited : List Key) (p : Key)
    → (inside p nodes && not (member p visited)) ≡ false
    → climb (suc fuel) nodes visited (some p) ≡ []
unfolding climb
climb_stop fuel nodes visited p h = ground arith

and_left : (a b : Bool) → (a && not b) ≡ true → a ≡ true
and_left a b h = ground arith

and_right : (a b : Bool) → (a && not b) ≡ true → b ≡ false
and_right a b h = ground arith

not_member-tail : (k p : Key) (js : List Key) → member k (p ∷ js) ≡ false → member k js ≡ false
unfolding member
not_member-tail k p js h = ground arith

-- What the climb finds is above, and was not visited before.
pub climb_sound :
    (fuel : ℕ) (nodes : List Node) (visited : List Key) (parent : Option Key) (k : Key)
    → member k (climb fuel nodes visited parent) ≡ true
    → Above nodes parent k × (member k visited ≡ false)
climb_sound zero nodes visited parent k h = absurd (no_fuel nodes visited parent k h)
climb_sound (suc fuel) nodes visited none k h = absurd (no_parent fuel nodes visited k h)
climb_sound (suc fuel) nodes visited (some p) k h =
    elim (Bool-cases (inside p nodes && not (member p visited))) [
      | inr stop ↦ absurd (not_in_empty k (rw (climb_stop fuel nodes visited p stop) at h))
      | inl go ↦
          elim (member-cons k p (climb fuel nodes (p ∷ visited) (up p nodes)) (
            rw
              (climb_step fuel nodes visited p (and_left (inside p nodes) (member p visited) go)
                (and_right (inside p nodes) (member p visited) go))
              at h)) [
                | inl same ↦ (
                  subst (λ x. Above nodes (some p) x) (sym same)
                      (there p (and_left (inside p nodes) (member p visited) go)),
                  ap (λ x. member x visited) same
                      ∙ and_right (inside p nodes) (member p visited) go,
                )
                | inr above ↦
                    let ih = climb_sound fuel nodes (p ∷ visited) (up p nodes) k above in
                    (
                      higher p k (and_left (inside p nodes) (member p visited) go) ih.0,
                      not_member-tail k p visited ih.1,
                    )
              ]
    ]
