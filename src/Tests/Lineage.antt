-- ===== src/Tests/Lineage.antt =====
-- Spans with parent links (analyze.py).
use otelcol_genai_sketches.Base.{
  String, Bool, true, false, List, [], ◌∷◌, Option, some, ◌≡◌, refl, ◌↔◌, length, ◌+◌,
}
use otelcol_genai_sketches.Analyze.Lineage.{Key, identified, Node, is_leaf, selection_role, climb}
use otelcol_genai_sketches.Analyze.Lineage.Ends.{climb_ends}
use otelcol_genai_sketches.Analyze.Lineage.Leaves.{distinct, Covered, is_leaf-Covered}

abbrev span : String → Option Key → Bool → Node
span id parent candidate = record {
  key = identified "t" id;
  parent = parent;
  candidate = candidate;
}

-- Two candidates whose links form a cycle with a span that has no usage, and one below them.
abbrev looped : List Node
looped =
    span "a" (some (identified "t" "b")) true
    ∷ span "b" (some (identified "t" "c")) false
    ∷ span "c" (some (identified "t" "a")) true
    ∷ span "d" (some (identified "t" "c")) true
    ∷ []

is_leaf-Covered_example :
    (is_leaf looped (span "d" (some (identified "t" "c")) true) ≡ true)
    ↔ (¬ Covered looped (identified "t" "d"))
unfolding distinct
is_leaf-Covered_example =
    is_leaf-Covered looped (span "d" (some (identified "t" "c")) true) refl refl

leaf_run : is_leaf looped (span "d" (some (identified "t" "c")) true) ≡ true
unfolding is_leaf
leaf_run = refl

ancestor_run : selection_role looped (span "a" (some (identified "t" "b")) true) ≡ "usage_ancestor"
unfolding selection_role
ancestor_run = refl

climb_ends_example :
    climb (7 + length looped) looped (identified "t" "a" ∷ []) (some (identified "t" "b"))
    ≡ climb (length looped) looped (identified "t" "a" ∷ []) (some (identified "t" "b"))
climb_ends_example = climb_ends 7 looped (identified "t" "a" ∷ []) (some (identified "t" "b"))
