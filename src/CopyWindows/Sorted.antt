-- ===== src/CopyWindows/Sorted.antt =====
-- deploy/kubernetes/summary-export/copy-windows.py: the order of the windows.
use mathlib.Core.List.{Permᴰ}
use mathlib.Core.List.Permᴰ as PermD
use otelcol_genai_sketches.Base.{
  Bool, true, false, List, [], ◌∷◌, ◌++◌, not, all, and_both, ◌≡◌, refl, arith, Bool-cases, inl,
  inr,
}
use otelcol_genai_sketches.CopyWindows.Numbers.{less, same_number, less_asym, less_total}
use otelcol_genai_sketches.CopyWindows.{Entry, insert, sort, starts_differ}

-- The first of the windows, if there is one, does not start before the given one.
abbrev FirstFrom : Entry → List Entry → Type 0
FirstFrom e [] = Unit {0}
FirstFrom e (x ∷ xs) = less x.start e.start ≡ false

-- No window starts before the one that it follows.
abbrev NonDecreasing : List Entry → Type 0
NonDecreasing [] = Unit {0}
NonDecreasing (e ∷ es) = FirstFrom e es × NonDecreasing es

abbrev FirstAfter : Entry → List Entry → Type 0
FirstAfter e [] = Unit {0}
FirstAfter e (x ∷ xs) = less e.start x.start ≡ true

-- Each window starts after the one that it follows.
abbrev pub Ascending : List Entry → Type 0
Ascending [] = Unit {0}
Ascending (e ∷ es) = FirstAfter e es × Ascending es

-- The starts are numbers, and no NaN.
abbrev pub AllNumbers : List Entry → Type 0
AllNumbers [] = Unit {0}
AllNumbers (e ∷ es) = (same_number e.start e.start ≡ true) × AllNumbers es

pub AllNumbers-append : (xs ys : List Entry) → AllNumbers xs → AllNumbers ys → AllNumbers (xs ++ ys)
AllNumbers-append [] ys h k = k
AllNumbers-append (x ∷ xs) ys h k = (h.0, AllNumbers-append xs ys h.1 k)

FirstFrom-insert :
    (x e : Entry) (xs : List Entry)
    → less e.start x.start ≡ false
    → FirstFrom x xs
    → FirstFrom x (insert e xs)
FirstFrom-insert x e [] h first = h
FirstFrom-insert x e (y ∷ ys) h first = elim (Bool-cases (less y.start e.start)) [
  | inl before ↦ rw before first
  | inr after ↦ rw after h
]

insert-NonDecreasing :
    (e : Entry) (es : List Entry) → NonDecreasing es → NonDecreasing (insert e es)
insert-NonDecreasing e [] ordered = (tt, tt)
insert-NonDecreasing e (x ∷ xs) (first, ordered) = elim (Bool-cases (less x.start e.start)) [
  | inl before ↦ rw before (
    FirstFrom-insert x e xs (less_asym x.start e.start before) first,
    insert-NonDecreasing e xs ordered,
  )
  | inr after ↦ rw after (after, (first, ordered))
]

sort-NonDecreasing : (es : List Entry) → NonDecreasing (sort es)
unfolding sort
sort-NonDecreasing [] = tt
sort-NonDecreasing (e ∷ es) = insert-NonDecreasing e (sort es) (sort-NonDecreasing es)

insert-AllNumbers :
    (e : Entry) (es : List Entry)
    → same_number e.start e.start ≡ true
    → AllNumbers es
    → AllNumbers (insert e es)
insert-AllNumbers e [] h numbers = (h, tt)
insert-AllNumbers e (x ∷ xs) h (first, numbers) = elim (Bool-cases (less x.start e.start)) [
  | inl before ↦ rw before (first, insert-AllNumbers e xs h numbers)
  | inr after ↦ rw after (h, (first, numbers))
]

sort-AllNumbers : (es : List Entry) → AllNumbers es → AllNumbers (sort es)
unfolding sort
sort-AllNumbers [] numbers = tt
sort-AllNumbers (e ∷ es) (first, numbers) =
    insert-AllNumbers e (sort es) first (sort-AllNumbers es numbers)

not-true : (b : Bool) → not b ≡ true → b ≡ false
not-true b h = ground arith

NonDecreasing-Ascending :
    (es : List Entry) → NonDecreasing es → AllNumbers es → starts_differ es ≡ true → Ascending es
NonDecreasing-Ascending [] ordered numbers differ = tt
NonDecreasing-Ascending (e ∷ []) ordered numbers differ = (tt, tt)
NonDecreasing-Ascending (e ∷ x ∷ es) (first, ordered) (here, numbers) differ =
    let (others, rest) =
      and_both (all (λ f. not (same_number e.start f.start)) (x ∷ es)) (starts_differ (x ∷ es))
        differ in
    let (one, more) =
      and_both (not (same_number e.start x.start)) (all (λ f. not (same_number e.start f.start)) es)
        others in
    (
      less_total e.start x.start here numbers.0 first (not-true (same_number e.start x.start) one),
      NonDecreasing-Ascending (x ∷ es) ordered numbers rest,
    )

pub sort-Ascending :
    (es : List Entry) → AllNumbers es → starts_differ (sort es) ≡ true → Ascending (sort es)
sort-Ascending es numbers differ =
    NonDecreasing-Ascending (sort es) (sort-NonDecreasing es) (sort-AllNumbers es numbers) differ

insert-Permᴰ : (e : Entry) (es : List Entry) → Permᴰ (insert e es) (e ∷ es)
insert-Permᴰ e [] = PermD.refl (e ∷ [])
insert-Permᴰ e (x ∷ xs) = elim (Bool-cases (less x.start e.start)) [
  | inl before ↦
      rw before (PermD.trans (PermD.cons refl (insert-Permᴰ e xs)) (PermD.swap refl refl))
  | inr after ↦ rw after (PermD.refl (e ∷ x ∷ xs))
]

-- Sorting only permutes.
pub sort-Permᴰ : (es : List Entry) → Permᴰ (sort es) es
unfolding sort
sort-Permᴰ [] = PermD.refl []
sort-Permᴰ (e ∷ es) = PermD.trans (insert-Permᴰ e (sort es)) (PermD.cons refl (sort-Permᴰ es))
