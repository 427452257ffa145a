-- ===== src/Analyze/Surface.antt =====
-- examples/gateway-accounting/analyze.py: `surface`, `add_comparisons` and `provider_surface`. A
-- surface shows the usage of its one selected record, or none, and never a sum.
pub mod Laws
pub mod Attempts
use otelcol_genai_sketches.Base.{
  ℕ, ◌≤◌, ◌<◌, String, Bool, true, false, List, [], ◌∷◌, ◌||◌, ◌&&◌, not, ltb, leb, map, ◌++◌, ◌==◌,
  str_eq, one_of, if◌then◌else◌, Option, none, some, ◌≡◌, arith, any, keep, length,
}
use otelcol_genai_sketches.Analyze.Counts.{
  Usage, Dimension, input, output, cache_read, at, no_usage, Comparison, unknown, compare,
  UsageState, ambiguous, usage_state,
}
use otelcol_genai_sketches.Analyze.Record.{Record, Origins}

pub record Surface : Type 0 where
  pub reader_status : String
  pub usage : Usage
  pub usage_state : UsageState
  pub final : Option Bool
  pub cache_creation : Option ℕ
  pub selection : String
  pub record_count : ℕ
  pub selected_count : ℕ
  pub records : List Record
  pub final_usage : Option Usage

-- `r.get("selected_for_usage", True)`
abbrev pub is_selected : Record → Bool
is_selected r = elim (r.selected_for_usage) [ none ↦ true | some b ↦ b ]

abbrev pub surface_of : List Record → List Record → String → String → Surface
surface_of (r ∷ []) records reader_status selection = record {
  reader_status = reader_status;
  usage = r.usage;
  usage_state = usage_state r.usage;
  final = r.final;
  cache_creation = r.cache_creation;
  selection = selection;
  record_count = length records;
  selected_count = 1;
  records = records;
  final_usage = none;
}
surface_of [] records reader_status selection = record {
  reader_status = reader_status;
  usage = no_usage;
  usage_state = usage_state no_usage;
  final = none;
  cache_creation = none;
  selection = selection;
  record_count = length records;
  selected_count = 0;
  records = records;
  final_usage = none;
}
surface_of (r ∷ q ∷ selected) records reader_status selection = record {
  reader_status = reader_status;
  usage = no_usage;
  usage_state = ambiguous;
  final = none;
  cache_creation = none;
  selection = "multiple_records_not_aggregated";
  record_count = length records;
  selected_count = length (r ∷ q ∷ selected);
  records = records;
  final_usage = none;
}

unfoldable pub surface : List Record → String → String → Surface
surface records reader_status selection =
    surface_of (keep is_selected records) records reader_status selection

-- One cell of `item["dimensions"]`.
pub record Cell : Type 0 where
  pub value : Option ℕ
  pub comparison : Comparison
  pub declared_origin : String

abbrev origin_at : Dimension → Origins → String
origin_at input o = o.input
origin_at output o = o.output
origin_at cache_read o = o.cache_read

-- `r.get("origins", {}).get(d, r.get("declared_origin", "unknown"))`
unfoldable pub origin_of : Record → Dimension → String
origin_of r d = elim (r.origins) [ none ↦ r.declared_origin | some o ↦ origin_at d o ]

-- The cell of a record of the surface.
unfoldable pub record_cell : Usage → Record → Dimension → Cell
unfolding origin_of
record_cell reference r d = record {
  value = at d r.usage;
  comparison = compare reference r.usage d;
  declared_origin = origin_of r d;
}

abbrev surface_origin : List Record → Dimension → String
surface_origin (r ∷ []) d = origin_of r d
surface_origin _ d = "unknown"

abbrev is_ambiguous : UsageState → Bool
is_ambiguous ambiguous = true
is_ambiguous _ = false

-- The cell of the surface itself.
unfoldable pub surface_cell : Usage → Surface → Dimension → Cell
unfolding origin_of
surface_cell reference s d = record {
  value = at d s.usage;
  comparison = if is_ambiguous s.usage_state then unknown else compare reference s.usage d;
  declared_origin = surface_origin (keep is_selected s.records) d;
}

pub record Compared : Type 0 where
  pub surface : Surface
  pub dimensions : Dimension → Cell
  pub record_dimensions : List (Dimension → Cell)

unfoldable pub add_comparisons : Surface → Usage → Compared
unfolding surface_cell record_cell
add_comparisons s reference = record {
  surface = s;
  dimensions = surface_cell reference s;
  record_dimensions = map (record_cell reference) s.records;
}
