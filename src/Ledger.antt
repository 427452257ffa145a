-- ===== src/Ledger.antt =====
-- The ledger of a spend guard, as examples/gateway-accounting/anthropic_protocol.py and
-- examples/integrations/litellm/provider-trial/relay.py read it: an attempt counts with its cost, where
-- that is known, and with its reserve otherwise. What a completion costs is a parameter, which each
-- of the two protocols fills.
pub mod Rows
pub mod Budget
use otelcol_genai_sketches.Base.{
  ℕ, suc, ◌+◌, ◌≤◌, List, [], ◌∷◌, if◌then◌else◌, Option, none, some, ◌==◌, ◌≡◌,
}
use otelcol_genai_sketches.Json.{Value}

-- A row of the ledger.
pub data Row : Type 0 where
  reserved : ℕ → ℕ → Row
  provider_complete : ℕ → Value → Value → Row

abbrev pub History : Type 0
History = List Row

-- `completed.get(attempt)`: of several rows of one attempt the dict keeps the last.
unfoldable pub completed : ℕ → History → Option (Value × Value)
completed a [] = none
completed a (reserved b r ∷ h) = completed a h
completed a (provider_complete b usage model ∷ h) =
    let rest = completed a h in
    elim rest [ some c ↦ some c | none ↦ if b == a then some (usage, model) else none ]

-- The reserved attempts of a ledger: `sum(row["event"] == "reserved" for row in history)`.
unfoldable pub reserved_count : History → ℕ
reserved_count [] = 0
reserved_count (reserved a r ∷ h) = suc (reserved_count h)
reserved_count (provider_complete a u m ∷ h) = reserved_count h

-- Every attempt that a row names is at most `n`.
abbrev pub Within : ℕ → History → Type 0
Within n [] = Unit {0}
Within n (reserved a r ∷ h) = (a ≤ n) × Within n h
Within n (provider_complete a u m ∷ h) = (a ≤ n) × Within n h

abbrev pub or_reserve : Option ℕ → ℕ → ℕ
or_reserve none r = r
or_reserve (some c) r = c

module _ (cost : Value → Value → Option ℕ) where
  -- The cost of a completion, where it is known.
  abbrev pub known_cost : Option (Value × Value) → Option ℕ
  known_cost none = none
  known_cost (some (usage, model)) = cost usage model

  -- What one reserved attempt adds to the total.
  unfoldable pub charge : Option (Value × Value) → ℕ → ℕ
  charge done r = or_reserve (known_cost done) r

  unfoldable pub used_by : History → History → ℕ
  used_by all [] = 0
  used_by all (reserved a r ∷ h) = charge (completed a all) r + used_by all h
  used_by all (provider_complete a u m ∷ h) = used_by all h

  unfoldable pub total_used : History → ℕ
  unfolding used_by
  total_used h = used_by h h

  -- No reservation of the attempt is below the cost of the completion.
  abbrev pub Covers : ℕ → Value → Value → History → Type 0
  Covers b u m [] = Unit {0}
  Covers b u m (reserved a r ∷ h) = (a ≡ b → charge (some (u, m)) r ≤ r) × Covers b u m h
  Covers b u m (provider_complete a v n ∷ h) = Covers b u m h
