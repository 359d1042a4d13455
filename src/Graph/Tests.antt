-- ===== src/Graph/Tests.antt =====
-- Tests of the code graph, crates/cognis-core/src/graph.rs.
use cognis.Base.{
  ℕ, ◌+◌, ◌-◌, ◌*◌, ◌/◌, ◌==◌, false, not, ltb, leb, Option, ◌≡◌, refl, Bool, true, List, [], ◌∷◌,
  some, none, arith, ℤ, pos, get_elem?,
}
use cognis.BtreeMap.{nat_order, get, insert, has}
use cognis.Table.{put, lookup}
use cognis.Scalars.{Scalars}
use cognis.Scalars.Fractions.{Fraction, fractions, lifted}
use cognis.Graph.{
  neighbors, nnz, from_weighted_triples, index_nodes, accumulate, add_triple, add_entry, push_rows,
  push_row,
}
use cognis.Graph.Indices.{slice, i32_order}
use cognis.Graph.Rows.{ends, shares, closed, degree_of}
use cognis.Graph.Weights.{IsRow, matching, total_from}
use cognis.Graph.Formed.{IsWellFormed, neighbors-matching, from_weighted_triples-IsWellFormed}
use cognis.Graph.Impact.{EdgeKind, Edge, Readings, edge_triples, dst_missing, depth_entry, build}
use cognis.Graph.Reversed.{KeepsSign, has_edge, build-reversed}
use cognis.Graph.Samples.{nodes, edges, graph, nnz-graph}

graph_indices : graph.indices ≡ pos 1 ∷ pos 0 ∷ pos 2 ∷ pos 1 ∷ pos 3 ∷ []
unfolding from_weighted_triples accumulate add_triple add_entry push_rows push_row lifted insert get
graph_indices = refl

graph_indptr : graph.indptr ≡ pos 0 ∷ pos 1 ∷ pos 3 ∷ pos 4 ∷ pos 5 ∷ []
unfolding from_weighted_triples accumulate add_triple add_entry push_rows push_row lifted insert get
graph_indptr = refl

neighbors-matching_example :
    (row : List (ℤ × Fraction)) × (neighbors graph 1
      ≡ some (ends (closed fractions 1 row), shares (closed fractions 1 row)))
    × IsRow 4 row
    × (get_elem? graph.degree 1 ≡ some (degree_of fractions row))
    × (get (pos 0) row ≡ total_from fractions none (matching fractions true 4 1 0 edges))
neighbors-matching_example =
    neighbors-matching fractions nodes edges true 1 0 (omega arith) (omega arith) (omega arith)
      (omega (arith, nnz-graph))

from_weighted_triples-IsWellFormed_example : IsWellFormed fractions graph
unfolding lifted
from_weighted_triples-IsWellFormed_example =
    from_weighted_triples-IsWellFormed fractions nodes edges true refl (omega arith)
      (omega (arith, nnz-graph))

-- Numbers for weights, each factor 1.
abbrev counts : Scalars ℕ
counts = record {
  zero = 0;
  one = 1;
  add = ◌+◌;
  sub = ◌-◌;
  mul = ◌*◌;
  div = ◌/◌;
  lt = ltb;
  le = leb;
  is_nan = λ x. false;
  is_nonzero = λ x. not (x == 0);
}

abbrev plain : Readings ℕ (Option Bool)
plain = record { missing = λ b. b; loop_depth = λ b. none; hundredths = λ k. 1; powi = λ b d. 1 }

plain-KeepsSign : KeepsSign counts plain
plain-KeepsSign = record { struct = λ c k. ground arith; cplx = λ c k d. ground arith }

abbrev edge : ℕ → ℕ → EdgeKind → Option Bool → Edge ℕ ℕ (Option Bool)
edge a b k m = record { src_id = a; dst_id = b; kind = k; confidence = 7; meta = m }

abbrev calls_and_tests : List (Edge ℕ ℕ (Option Bool))
calls_and_tests =
    edge 10 20 EdgeKind.calls none
    ∷ edge 30 20 EdgeKind.tests (some false)
    ∷ edge 20 30 EdgeKind.reads (some true)
    ∷ []

build_forward : has_edge (build counts plain nodes calls_and_tests []).forward 2 1 ≡ true
unfolding build edge_triples dst_missing depth_entry index_nodes from_weighted_triples accumulate
    add_triple add_entry push_rows push_row insert get put lookup neighbors slice has
build_forward = refl

nnz-build : nnz (build counts plain nodes calls_and_tests []).forward ≡ 4
unfolding build edge_triples dst_missing depth_entry index_nodes from_weighted_triples accumulate
    add_triple add_entry push_rows push_row insert get put lookup
nnz-build = refl

build-reversed_example :
    (has_edge (build counts plain nodes calls_and_tests []).reverse_structural 1 0
      ≡ has_edge (build counts plain nodes calls_and_tests []).forward 0 1)
    × (has_edge (build counts plain nodes calls_and_tests []).reverse_complexity 1 0
        ≡ has_edge (build counts plain nodes calls_and_tests []).forward 0 1)
unfolding build edge_triples dst_missing depth_entry index_nodes from_weighted_triples accumulate
    add_triple add_entry push_rows push_row insert get put lookup
build-reversed_example =
    build-reversed counts plain plain-KeepsSign nodes calls_and_tests [] 0 1 (omega arith)
      (omega arith) refl (omega arith) (omega arith) (omega arith) (omega arith)
