-- ===== src/Analyze/Lineage/Ends.antt =====
-- examples/gateway-accounting/analyze.py: how long `span_records` climbs.
use otelcol_genai_sketches.Base.{ℕ, zero, suc, ◌+◌, ◌≤◌, List, Option, ◌≡◌, ap, ◌∙◌, arith, length}
use otelcol_genai_sketches.Analyze.Lineage.{Key, Node, climb}
use otelcol_genai_sketches.Analyze.Lineage.Reach.{unvisited, climb_enough, unvisited-le-length}

-- The climb from any parent ends within as many rounds as there are spans, whatever has been visited
-- and also where the links form a cycle: more fuel changes nothing.
pub climb_ends :
    (extra : ℕ) (nodes : List Node) (visited : List Key) (parent : Option Key)
    → climb (extra + length nodes) nodes visited parent ≡ climb (length nodes) nodes visited parent
climb_ends zero nodes visited parent =
    let same : 0 + length nodes ≡ length nodes = omega arith in
    ap (λ fuel. climb fuel nodes visited parent) same
climb_ends (suc extra) nodes visited parent =
    let next : suc extra + length nodes ≡ suc (extra + length nodes) = omega arith in
    let few = unvisited-le-length nodes visited in
    let enough : unvisited nodes visited ≤ extra + length nodes = omega (arith, few) in
    ap (λ fuel. climb fuel nodes visited parent) next
    ∙ climb_enough (extra + length nodes) nodes visited parent enough
    ∙ climb_ends extra nodes visited parent
