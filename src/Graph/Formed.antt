-- ===== src/Graph/Formed.antt =====
-- The graphs of `CodeGraph::from_weighted_triples` are well-formed and hold the triples' weights,
-- crates/cognis-core/src/graph.rs.
use cognis.Base.{
  ℕ, ◌^◌, ◌≡◌, ◌<◌, ◌≤◌, refl, ap, ◌∙◌, Bool, List, [], ◌∷◌, none, some, arith, ℤ, pos, as_i32,
  length, get_elem?, get_or, replicate, length-replicate, get_or-replicate, get_elem?-map, Each,
  Each-intro,
}
use cognis.BtreeMap.{KeyOrd, get, IsSorted}
use cognis.Scalars.{Scalars}
use cognis.Graph.{CodeGraph, neighbors, n, nnz, from_weighted_triples, Csr}
use cognis.Graph.Indices.{i32_order, as_i32_small}
use cognis.Graph.Rows.{ends, shares, closed, degree_of, sum_from}
use cognis.Graph.Neighbors.{built, length-built, neighbors-built, csr_lem}
use cognis.Graph.Weights.{Within, IsRow, matching, total_from, accumulate-IsRow, get-accumulate}

module _ {K S : Type 0} ⦃o : KeyOrd K⦄ (f : Scalars S) (node_ids : List K)
    (triples : List (ℕ × ℕ × S)) (symmetrize : Bool) where
  built-IsRow :
      (u : ℕ)
      → u < length node_ids
      → length node_ids ≤ 2 ^ 31
      → IsRow (length node_ids) (get_or [] (built f node_ids triples symmetrize) u)
  built-IsRow u h bound =
      accumulate-IsRow f symmetrize (length node_ids) bound triples (replicate (length node_ids) [])
        (length-replicate (length node_ids) [])
        (λ k hk.
          rw (get_or-replicate {A = List (ℤ × S)} (length node_ids) [] k)
            (record { sorted = tt; within = tt }))
        u h

  get-built :
      (u v : ℕ)
      → u < length node_ids
      → v < length node_ids
      → length node_ids ≤ 2 ^ 31
      → get (pos v) (get_or [] (built f node_ids triples symmetrize) u)
        ≡ total_from f none (matching f symmetrize (length node_ids) u v triples)
  get-built u v hu hv bound = rw (← (as_i32_small v (omega arith))) (
      get-accumulate f symmetrize (length node_ids) u v hu hv bound triples
        (replicate (length node_ids) []) (length-replicate (length node_ids) [])
      ∙ rw (get_or-replicate {A = List (ℤ × S)} (length node_ids) [] u) (unfold get in refl))

  degree-built :
      (u : ℕ)
      → u < length node_ids
      → get_elem? (from_weighted_triples f node_ids triples symmetrize).degree u
        ≡ some (degree_of f (get_or [] (built f node_ids triples symmetrize) u))
  unfolding from_weighted_triples
  degree-built u h =
      ap (λ (c : Csr S). get_elem? c.degree u) (csr_lem f node_ids triples symmetrize)
      ∙ get_elem?-map [] (degree_of f) (built f node_ids triples symmetrize) u
          (omega (arith, length-built f node_ids triples symmetrize))

  -- Row `u` of a graph of at most 2³¹ nodes and fewer than 2³¹ entries is a sorted row of nodes,
  -- closed by a loop of weight one where it is empty, its weights sum to the node's degree, and it
  -- holds for a node `v` the sum of the weights, in their order, of the triples from `u` to `v` (and
  -- from `v` to `u` where the graph is symmetrized) that are not left out, and nothing where there
  -- are none.
  pub neighbors-matching :
      (u v : ℕ)
      → u < length node_ids
      → v < length node_ids
      → length node_ids ≤ 2 ^ 31
      → nnz (from_weighted_triples f node_ids triples symmetrize) < 2 ^ 31
      → (row : List (ℤ × S)) × (neighbors (from_weighted_triples f node_ids triples symmetrize) u
          ≡ some (ends (closed f u row), shares (closed f u row)))
        × IsRow (length node_ids) row
        × (get_elem? (from_weighted_triples f node_ids triples symmetrize).degree u
            ≡ some (degree_of f row))
        × (get (pos v) row
            ≡ total_from f none (matching f symmetrize (length node_ids) u v triples))
  neighbors-matching u v hu hv bound small = (
    get_or [] (built f node_ids triples symmetrize) u,
    neighbors-built f node_ids triples symmetrize u hu small,
    built-IsRow u hu bound,
    degree-built u hu,
    get-built u v hu hv bound,
  )

-- A row that the solvers may read: not empty, sorted, of nodes, with its sum as the degree.
pub record IsNode {K S : Type 0} (f : Scalars S) (g : CodeGraph K S) (u : ℕ) : Type 0 where
  pub row : List (ℤ × S)
  pub neighbors_eq : neighbors g u ≡ some (ends row, shares row)
  pub not_empty : 0 < length row
  pub sorted : IsSorted (ends row)
  pub within : Within (n g) row
  pub degree_eq : get_elem? g.degree u ≡ some (sum_from f f.zero row)

abbrev pub IsWellFormed : {K S : Type 0} → Scalars S → CodeGraph K S → Type 0
IsWellFormed f g = Each (n g) (IsNode f g)

module _ {K S : Type 0} ⦃o : KeyOrd K⦄ (f : Scalars S) (node_ids : List K)
    (triples : List (ℕ × ℕ × S)) (symmetrize : Bool) where
  closed_node :
      (u : ℕ) (row : List (ℤ × S))
      → f.add f.zero f.one ≡ f.one
      → u < length node_ids
      → length node_ids ≤ 2 ^ 31
      → neighbors (from_weighted_triples f node_ids triples symmetrize) u
        ≡ some (ends (closed f u row), shares (closed f u row))
      → IsRow (length node_ids) row
      → get_elem? (from_weighted_triples f node_ids triples symmetrize).degree u
        ≡ some (degree_of f row)
      → IsNode f (from_weighted_triples f node_ids triples symmetrize) u
  closed_node u [] law h bound neighbors_eq r degree_eq = record {
    row = (as_i32 u, f.one) ∷ [];
    neighbors_eq = neighbors_eq;
    not_empty = omega arith;
    sorted = (tt, tt);
    within = unfold from_weighted_triples in ((u, as_i32_small u (omega arith), h), tt);
    degree_eq = degree_eq ∙ rw law;
  }
  closed_node u (e ∷ row) law h bound neighbors_eq r degree_eq = record {
    row = e ∷ row;
    neighbors_eq = neighbors_eq;
    not_empty = omega arith;
    sorted = r.sorted;
    within = unfold from_weighted_triples in r.within;
    degree_eq = degree_eq;
  }

  -- A graph of at most 2³¹ nodes and fewer than 2³¹ entries is well-formed, where 0.0 + 1.0 is 1.0:
  -- each node has a row, not empty and in ascending order, of nodes of the graph, and its degree is
  -- the sum of the row's weights.
  pub from_weighted_triples-IsWellFormed :
      f.add f.zero f.one ≡ f.one
      → length node_ids ≤ 2 ^ 31
      → nnz (from_weighted_triples f node_ids triples symmetrize) < 2 ^ 31
      → IsWellFormed f (from_weighted_triples f node_ids triples symmetrize)
  from_weighted_triples-IsWellFormed law bound small =
      let count : n (from_weighted_triples f node_ids triples symmetrize) ≡ length node_ids =
        unfold from_weighted_triples in refl in
      Each-intro (IsNode f (from_weighted_triples f node_ids triples symmetrize)) _ (λ u hu.
        let h : u < length node_ids = omega (arith, count) in
        let (row, neighbors_eq, r, degree_eq, _) =
          neighbors-matching f node_ids triples symmetrize u u h h bound small in
        closed_node u row law h bound neighbors_eq r degree_eq)
