-- ===== src/Ledger/Rows.antt =====
-- How the rows of a ledger grow: the reserved attempts, their numbers, and the completions.
use otelcol_genai_sketches.Base.{
  ℕ, suc, ◌<◌, ◌≤◌, [], ◌∷◌, ◌++◌, if◌then◌else◌, none, some, ◌==◌, ◌≡◌, refl, arith, ap,
}
use otelcol_genai_sketches.Json.{Value}
use otelcol_genai_sketches.Ledger.{
  reserved, provider_complete, History, completed, reserved_count, Within,
}

pub reserved_count-append_reserved :
    (h : History) (a r : ℕ) → reserved_count (h ++ reserved a r ∷ []) ≡ suc (reserved_count h)
unfolding reserved_count
reserved_count-append_reserved [] a r = refl
reserved_count-append_reserved (reserved b s ∷ h) a r =
    ap suc (reserved_count-append_reserved h a r)
reserved_count-append_reserved (provider_complete b u m ∷ h) a r =
    reserved_count-append_reserved h a r

pub reserved_count-append_complete :
    (h : History) (a : ℕ) (u m : Value)
    → reserved_count (h ++ provider_complete a u m ∷ []) ≡ reserved_count h
unfolding reserved_count
reserved_count-append_complete [] a u m = refl
reserved_count-append_complete (reserved b s ∷ h) a u m =
    ap suc (reserved_count-append_complete h a u m)
reserved_count-append_complete (provider_complete b v n ∷ h) a u m =
    reserved_count-append_complete h a u m

pub Within-weaken : (n k : ℕ) (h : History) → n ≤ k → Within n h → Within k h
Within-weaken n k [] le w = tt
Within-weaken n k (reserved a r ∷ h) le w = (omega arith, Within-weaken n k h le w.1)
Within-weaken n k (provider_complete a u m ∷ h) le w = (omega arith, Within-weaken n k h le w.1)

pub Within-append : (n : ℕ) (h g : History) → Within n h → Within n g → Within n (h ++ g)
Within-append n [] g w v = v
Within-append n (reserved a r ∷ h) g w v = (w.0, Within-append n h g w.1 v)
Within-append n (provider_complete a u m ∷ h) g w v = (w.0, Within-append n h g w.1 v)

-- An attempt above the bound has no completion.
pub completed_above : (a n : ℕ) (h : History) → Within n h → n < a → completed a h ≡ none
unfolding completed
completed_above a n [] w lt = refl
completed_above a n (reserved b r ∷ h) w lt = completed_above a n h w.1 lt
completed_above a n (provider_complete b u m ∷ h) w lt =
    ground (arith, completed_above a n h w.1 lt)

pub completed-append_reserved :
    (a b r : ℕ) (h : History) → completed a (h ++ reserved b r ∷ []) ≡ completed a h
unfolding completed
completed-append_reserved a b r [] = refl
completed-append_reserved a b r (reserved c s ∷ h) = completed-append_reserved a b r h
completed-append_reserved a b r (provider_complete c u m ∷ h) =
    ground (arith, completed-append_reserved a b r h)

pub completed-append_complete :
    (a b : ℕ) (u m : Value) (h : History)
    → completed a (h ++ provider_complete b u m ∷ [])
      ≡ (if b == a then some (u, m) else completed a h)
unfolding completed
completed-append_complete a b u m [] = refl
completed-append_complete a b u m (reserved c s ∷ h) = completed-append_complete a b u m h
completed-append_complete a b u m (provider_complete c v n ∷ h) =
    ground (arith, completed-append_complete a b u m h)
