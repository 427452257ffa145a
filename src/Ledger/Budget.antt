-- ===== src/Ledger/Budget.antt =====
-- How the total of a ledger changes as rows are appended.
use otelcol_genai_sketches.Base.{
  ℕ, ◌+◌, ◌<◌, ◌≤◌, [], ◌∷◌, ◌++◌, if◌then◌else◌, Option, none, some, ◌==◌, ◌≡◌, refl, arith, ap,
  ◌∙◌, ==_iff, sym, Bool-cases, inl, inr,
}
use otelcol_genai_sketches.Json.{Value}
use otelcol_genai_sketches.Ledger.{
  reserved, provider_complete, History, completed, Within, or_reserve, known_cost, charge, used_by,
  total_used, Covers,
}
use otelcol_genai_sketches.Ledger.Rows.{
  completed_above, completed-append_reserved, completed-append_complete,
}

module _ (cost : Value → Value → Option ℕ) where
  -- `used_by` looks at the whole ledger only through `completed`.
  used_by-congr :
      (g all h : History)
      → ((a : ℕ) → completed a g ≡ completed a all)
      → used_by cost g h ≡ used_by cost all h
  unfolding used_by
  used_by-congr g all [] e = refl
  used_by-congr g all (reserved a r ∷ h) e = cc (e a, used_by-congr g all h e)
  used_by-congr g all (provider_complete a u m ∷ h) e = used_by-congr g all h e

  used_by-append :
      (all h g : History) → used_by cost all (h ++ g) ≡ used_by cost all h + used_by cost all g
  unfolding used_by
  used_by-append all [] g = omega arith
  used_by-append all (reserved a r ∷ h) g = omega (arith, used_by-append all h g)
  used_by-append all (provider_complete a u m ∷ h) g = used_by-append all h g

  charge_new :
      (h : History) (a n r : ℕ)
      → Within n h
      → n < a
      → charge cost (completed a (h ++ reserved a r ∷ [])) r ≡ r
  unfolding charge
  charge_new h a n r w lt = rw (completed-append_reserved a a r h, completed_above a n h w lt)

  -- A reservation with a new number adds exactly its reserve to the total.
  pub total_used-reserve :
      (h : History) (a n r : ℕ)
      → Within n h
      → n < a
      → total_used cost (h ++ reserved a r ∷ []) ≡ total_used cost h + r
  unfolding total_used
  total_used-reserve h a n r w lt = omega (
    arith,
    used_by-append (h ++ reserved a r ∷ []) h (reserved a r ∷ []),
    used_by-congr (h ++ reserved a r ∷ []) h h (λ b. completed-append_reserved b a r h),
    charge_new h a n r w lt,
  )

  charge-none : (r : ℕ) → charge cost none r ≡ r
  unfolding charge
  charge-none r = refl

  charge_lowered :
      (g h : History) (a b r : ℕ) (u m : Value)
      → completed a g ≡ (if b == a then some (u, m) else completed a h)
      → completed b h ≡ none
      → (a ≡ b → charge cost (some (u, m)) r ≤ r)
      → charge cost (completed a g) r ≤ charge cost (completed a h) r
  charge_lowered g h a b r u m e fresh covers = elim (Bool-cases (b == a)) [
    | inl same ↦
        let p : a ≡ b = sym ((==_iff b a).0 same) in
        let q : completed a h ≡ none = ap (λ x. completed x h) p ∙ fresh in
        rw (e, same, q, charge-none r) (covers p)
    | inr other ↦ rw (e, other) (omega arith)
  ]

  used_by-lowered :
      (g h k : History) (b : ℕ) (u m : Value)
      → ((a : ℕ) → completed a g ≡ (if b == a then some (u, m) else completed a h))
      → completed b h ≡ none
      → Covers cost b u m k
      → used_by cost g k ≤ used_by cost h k
  unfolding used_by
  used_by-lowered g h [] b u m e fresh covers = omega arith
  used_by-lowered g h (reserved a r ∷ k) b u m e fresh covers = omega (
    arith,
    charge_lowered g h a b r u m (e a) fresh covers.0,
    used_by-lowered g h k b u m e fresh covers.1,
  )
  used_by-lowered g h (provider_complete a v n ∷ k) b u m e fresh covers =
      used_by-lowered g h k b u m e fresh covers

  -- A first completion that its reservation covers does not raise the total.
  pub total_used_complete :
      (h : History) (b : ℕ) (u m : Value)
      → completed b h ≡ none
      → Covers cost b u m h
      → total_used cost (h ++ provider_complete b u m ∷ []) ≤ total_used cost h
  unfolding total_used used_by
  total_used_complete h b u m fresh covers = omega (
    arith,
    used_by-append (h ++ provider_complete b u m ∷ []) h (provider_complete b u m ∷ []),
    used_by-lowered (h ++ provider_complete b u m ∷ []) h h b u m
        (λ a. completed-append_complete a b u m h) fresh covers,
  )

  charge_unknown :
      (g h : History) (a b r : ℕ) (u m : Value)
      → completed a g ≡ (if b == a then some (u, m) else completed a h)
      → known_cost cost (completed b h) ≡ none
      → known_cost cost (some (u, m)) ≡ none
      → charge cost (completed a g) r ≡ charge cost (completed a h) r
  unfolding charge
  charge_unknown g h a b r u m e before now = elim (Bool-cases (b == a)) [
    | inl same ↦
        let p : a ≡ b = sym ((==_iff b a).0 same) in
        let q : known_cost cost (completed a h) ≡ none =
          ap (λ x. known_cost cost (completed x h)) p ∙ before in
        rw (e, same) (cc (ap (λ x. or_reserve x r) q))
    | inr other ↦ rw (e, other) refl
  ]

  used_by-unknown :
      (g h k : History) (b : ℕ) (u m : Value)
      → ((a : ℕ) → completed a g ≡ (if b == a then some (u, m) else completed a h))
      → known_cost cost (completed b h) ≡ none
      → known_cost cost (some (u, m)) ≡ none
      → used_by cost g k ≡ used_by cost h k
  unfolding used_by
  used_by-unknown g h [] b u m e before now = refl
  used_by-unknown g h (reserved a r ∷ k) b u m e before now = omega (
    arith,
    charge_unknown g h a b r u m (e a) before now,
    used_by-unknown g h k b u m e before now,
  )
  used_by-unknown g h (provider_complete a v n ∷ k) b u m e before now =
      used_by-unknown g h k b u m e before now

  -- A completion whose cost is not known, of an attempt that had no known cost, keeps the total.
  pub total_used-unknown :
      (h : History) (b : ℕ) (u m : Value)
      → known_cost cost (completed b h) ≡ none
      → known_cost cost (some (u, m)) ≡ none
      → total_used cost (h ++ provider_complete b u m ∷ []) ≡ total_used cost h
  unfolding total_used used_by
  total_used-unknown h b u m before now = omega (
    arith,
    used_by-append (h ++ provider_complete b u m ∷ []) h (provider_complete b u m ∷ []),
    used_by-unknown (h ++ provider_complete b u m ∷ []) h h b u m
        (λ a. completed-append_complete a b u m h) before now,
  )
