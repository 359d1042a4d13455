-- ===== src/Graph/Samples.antt =====
-- A small graph for the tests of crates/cognis-core/src/graph.rs and of the solvers.
use cognis.Base.{ℕ, ◌≡◌, refl, true, List, [], ◌∷◌, arith}
use cognis.BtreeMap.{nat_order, get, insert}
use cognis.Scalars.Fractions.{Fraction, fractions, ratio, lifted}
use cognis.Graph.{
  CodeGraph, nnz, from_weighted_triples, accumulate, add_triple, add_entry, push_rows, push_row,
}
use cognis.Graph.Formed.{IsWellFormed, from_weighted_triples-IsWellFormed}

abbrev pub nodes : List ℕ
nodes = 10 ∷ 20 ∷ 30 ∷ 40 ∷ []

-- Two parallel edges, one that is left out, and node 3 without a neighbour.
abbrev pub edges : List (ℕ × ℕ × Fraction)
edges = (0, 1, ratio 1 2) ∷ (1, 2, ratio 2 1) ∷ (0, 1, ratio 1 2) ∷ (2, 2, ratio 1 1) ∷ []

abbrev pub graph : CodeGraph ℕ Fraction
graph = from_weighted_triples fractions nodes edges true

pub nnz-graph : nnz graph ≡ 5
unfolding from_weighted_triples accumulate add_triple add_entry push_rows push_row lifted insert get
nnz-graph = refl

pub graph-IsWellFormed : IsWellFormed fractions graph
unfolding lifted
graph-IsWellFormed =
    from_weighted_triples-IsWellFormed fractions nodes edges true refl (omega arith)
      (omega (arith, nnz-graph))
