-- ===== src/Analyze/Surface/Laws.antt =====
-- The record that a surface shows.
use otelcol_genai_sketches.Base.{
  ℕ, String, Bool, true, false, ◌||◌, List, [], ◌∷◌, ◌++◌, some, if◌then◌else◌, any, ◌≡◌, refl, ap,
  ◌∙◌, subst, arith, ◌↔◌, ◌⊎◌, inl, inr, keep,
}
use otelcol_genai_sketches.Analyze.Counts.{Dimension, input, output, cache_read, at, no_usage}
use otelcol_genai_sketches.Analyze.Record.{Record}
use otelcol_genai_sketches.Analyze.Surface.{surface, surface_of, is_selected}

-- The record is the only selected one.
abbrev pub IsOnly : Record → List Record → Type 0
IsOnly r records =
    (before after : List Record) × (records ≡ before ++ r ∷ after)
    × (is_selected r ≡ true)
    × (any is_selected (before ++ after) ≡ false)

head_or_skip :
    (b : Bool) (x r : Record) (rest : List Record)
    → (if b then x ∷ rest else rest) ≡ r ∷ []
    → ((b ≡ true) × (x ≡ r) × (rest ≡ [])) ⊎ ((b ≡ false) × (rest ≡ r ∷ []))
head_or_skip true x r rest h = inl (refl, cc, cc)
head_or_skip false x r rest h = inr (refl, h)

none_of :
    (b : Bool) (x : Record) (xs : List Record)
    → (if b then x ∷ keep is_selected xs else keep is_selected xs) ≡ []
    → (keep is_selected xs ≡ [] → any is_selected xs ≡ false)
    → (b || any is_selected xs) ≡ false
none_of true x xs h later = cc
none_of false x xs h later = later h

none_kept : (xs : List Record) → keep is_selected xs ≡ [] → any is_selected xs ≡ false
none_kept [] h = refl
none_kept (x ∷ xs) h = none_of (is_selected x) x xs h (none_kept xs)

keep-IsOnly : (xs : List Record) (r : Record) → keep is_selected xs ≡ r ∷ [] → IsOnly r xs
keep-IsOnly [] r h = cc
keep-IsOnly (x ∷ xs) r h = elim (head_or_skip (is_selected x) x r (keep is_selected xs) h) [
  | inl (selected, same, rest) ↦
      subst (λ y. IsOnly y (x ∷ xs)) same ([], xs, refl, selected, none_kept xs rest)
  | inr (other, rest) ↦
      let (before, after, listed, selected, alone) = keep-IsOnly xs r rest in
      (
        x ∷ before,
        after,
        ap (λ ys. x ∷ ys) listed,
        selected,
        ap (λ b. b || any is_selected (before ++ after)) other ∙ alone,
      )
]

keep_none : (xs : List Record) → any is_selected xs ≡ false → keep is_selected xs ≡ []
keep_none [] h = refl
keep_none (x ∷ xs) h = ground (arith, keep_none xs)

IsOnly-keep :
    (before : List Record) (r : Record) (after : List Record)
    → is_selected r ≡ true
    → any is_selected (before ++ after) ≡ false
    → keep is_selected (before ++ r ∷ after) ≡ r ∷ []
IsOnly-keep [] r after selected alone = rw selected (ap (λ xs. r ∷ xs) (keep_none after alone))
IsOnly-keep (x ∷ before) r after selected alone =
    ground (arith, IsOnly-keep before r after selected)

no_count : (d : Dimension) (n : ℕ) → at d no_usage ≡ some n → ⊥
no_count input n h = cc
no_count output n h = cc
no_count cache_read n h = cc

one_kept :
    (kept records : List Record) (reader_status selection : String) (d : Dimension) (n : ℕ)
    → at d (surface_of kept records reader_status selection).usage ≡ some n
    → (r : Record) × (kept ≡ r ∷ []) × (at d r.usage ≡ some n)
one_kept [] records reader_status selection d n h = absurd (no_count d n h)
one_kept (r ∷ []) records reader_status selection d n h = (r, refl, h)
one_kept (r ∷ q ∷ rs) records reader_status selection d n h = absurd (no_count d n h)

-- A surface never adds records up: it shows a count in a dimension exactly if just one of its records is
-- selected, and that record has this count.
pub surface-IsOnly :
    (records : List Record) (reader_status selection : String) (d : Dimension) (n : ℕ)
    → (at d (surface records reader_status selection).usage ≡ some n)
      ↔ ((r : Record) × IsOnly r records × (at d r.usage ≡ some n))
unfolding surface
surface-IsOnly records reader_status selection d n = (
  (λ shown.
      let (r, kept, counted) =
        one_kept (keep is_selected records) records reader_status selection d n shown in
      (r, keep-IsOnly records r kept, counted)),
  λ (r, (before, after, listed, selected, alone), counted).
      ap (λ kept. at d (surface_of kept records reader_status selection).usage)
        (ap (keep is_selected) listed ∙ IsOnly-keep before r after selected alone)
      ∙ counted,
)
