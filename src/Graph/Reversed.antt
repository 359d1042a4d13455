-- ===== src/Graph/Reversed.antt =====
-- The reverse graphs hold the forward graph's edges, reversed, `ImpactGraph::build` of
-- crates/cognis-core/src/graph.rs.
use cognis.Base.{
  ℕ, Bool-cases, inl, inr, ◌^◌, ◌≡◌, ◌<◌, ◌≤◌, refl, sym, ap, ◌∙◌, Bool, true, false, not, ◌||◌,
  List, [], ◌∷◌, Option, none, some, ◌==◌, arith, ℤ, pos, as_i32, length,
}
use cognis.BtreeMap.{KeyOrd, get, has}
use cognis.Table.{lookup}
use cognis.Scalars.{Scalars}
use cognis.Graph.{CodeGraph, index_nodes, or_insert, neighbors, nnz, from_weighted_triples}
use cognis.Graph.Impact.{
  EdgeKind, Edge, Readings, Triples, struct_gamma, cplx_gamma, loop_boost, depth_at, dst_missing,
  push_edge, edge_triples, build,
}
use cognis.Graph.Indices.{i32_order, as_i32_small}
use cognis.Graph.Rows.{ends, closed}
use cognis.Graph.Formed.{neighbors-matching}
use cognis.Graph.Weights.{matching, total_from}

abbrev pub is_nil : {A : Type 0} → List A → Bool
is_nil [] = true
is_nil (x ∷ xs) = false

-- No weight of a kept edge is rounded to 0 or below by the edge's factors.
pub record KeepsSign {S J : Type 0} (f : Scalars S) (j : Readings S J) : Type 0 where
  pub struct : (c : S) (k : EdgeKind) → f.le (f.mul c (struct_gamma j k)) f.zero ≡ f.le c f.zero
  pub cplx :
      (c : S) (k : EdgeKind) (d : ℕ)
      → f.le (f.mul (f.mul c (cplx_gamma j k)) (loop_boost j d)) f.zero ≡ f.le c f.zero

-- The reverse lists hold a pair just where the forward list does, the other way round.
abbrev AreReversed : {S : Type 0} → Scalars S → ℕ → ℕ → ℕ → Triples S → Type 0
AreReversed f n u v t =
    (is_nil (matching f false n v u t.rev_struct) ≡ is_nil (matching f false n u v t.fwd))
    × (is_nil (matching f false n v u t.rev_cplx) ≡ is_nil (matching f false n u v t.fwd))

-- An end among a row, by a search of its ascending ends.
abbrev pub in_row : {S : Type 0} → ℤ → Option (List ℤ × List S) → Bool
in_row v none = false
in_row v (some (idx, w)) = has v idx

abbrev pub has_edge : {K S : Type 0} → CodeGraph K S → ℕ → ℕ → Bool
has_edge g u v = in_row (as_i32 v) (neighbors g u)

abbrev is_some : {A : Type 0} → Option A → Bool
is_some none = false
is_some (some x) = true

is_some-get : {S : Type 0} (k : ℤ) (row : List (ℤ × S)) → is_some (get k row) ≡ has k (ends row)
unfolding get has
is_some-get k [] = refl
is_some-get k ((j, w) ∷ row) = ground (arith, is_some-get k row)

is_some-total_from :
    {S : Type 0} (f : Scalars S) (o : Option S) (ws : List S)
    → is_some (total_from f o ws) ≡ (is_some o || not (is_nil ws))
is_some-total_from f none [] = refl
is_some-total_from f (some x) [] = refl
is_some-total_from f o (w ∷ ws) =
    ground (arith, is_some-total_from f (some (f.add (or_insert f o) w)) ws)

module _ {K S : Type 0} ⦃o : KeyOrd K⦄ (f : Scalars S) (node_ids : List K)
    (triples : List (ℕ × ℕ × S)) (symmetrize : Bool) where
  has-closed :
      (u v : ℕ) (row : List (ℤ × S))
      → u < 2 ^ 31
      → v < 2 ^ 31
      → (u == v) ≡ false
      → has (as_i32 v) (ends (closed f u row)) ≡ is_some (get (pos v) row)
  unfolding get has
  has-closed u v [] hu hv apart = rw (as_i32_small u hu, as_i32_small v hv) (ground (arith, apart))
  has-closed u v (e ∷ row) hu hv apart =
      ap (λ k. has k (ends (e ∷ row))) (as_i32_small v hv) ∙ sym (is_some-get (pos v) (e ∷ row))

  pub has_edge-matching :
      (u v : ℕ)
      → u < length node_ids
      → v < length node_ids
      → (u == v) ≡ false
      → length node_ids ≤ 2 ^ 31
      → nnz (from_weighted_triples f node_ids triples symmetrize) < 2 ^ 31
      → has_edge (from_weighted_triples f node_ids triples symmetrize) u v
        ≡ not (is_nil (matching f symmetrize (length node_ids) u v triples))
  has_edge-matching u v hu hv apart bound small =
      let (row, found, _, _, weight) =
        neighbors-matching f node_ids triples symmetrize u v hu hv bound small in
      rw found (
        has-closed u v row (omega arith) (omega arith) apart
        ∙ ap is_some weight
        ∙ is_some-total_from f none (matching f symmetrize (length node_ids) u v triples))

module _ {K S J : Type 0} ⦃o : KeyOrd K⦄ (f : Scalars S) (j : Readings S J) where
  at_ends :
      KeepsSign f j
      → (n u v : ℕ) (depths : List ((K × K) × ℕ)) (e : Edge K S J) (a b : Option ℕ) (t : Triples S)
      → f.le e.confidence f.zero ≡ false
      → AreReversed f n u v t
      → AreReversed f n u v (push_edge f j depths e a b t)
  unfolding matching
  at_ends sign n u v depths e none b t kept r = r
  at_ends sign n u v depths e (some a) none t kept r = r
  at_ends sign n u v depths e (some a) (some b) t kept r = ground (
    arith,
    sign.struct e.confidence e.kind,
    sign.cplx e.confidence e.kind (depth_at f j depths e),
  )

  matching-reversed :
      KeepsSign f j
      → (n u v : ℕ) (index : List (K × ℕ)) (depths : List ((K × K) × ℕ)) (edges : List (Edge K S J))
      → AreReversed f n u v (edge_triples f j index depths edges)
  unfolding edge_triples matching
  matching-reversed sign n u v index depths [] = (refl, refl)
  matching-reversed sign n u v index depths (e ∷ edges) =
      elim (Bool-cases (dst_missing f j e || f.le e.confidence f.zero)) [
        | inl dropped ↦ rw dropped (matching-reversed sign n u v index depths edges)
        | inr kept ↦ rw kept (
            at_ends sign n u v depths e (lookup e.src_id index) (lookup e.dst_id index)
              (edge_triples f j index depths edges) (ground (arith, kept))
              (matching-reversed sign n u v index depths edges))
      ]

  -- On at most 2³¹ nodes, where the factors of an edge keep the sign of every confidence and the graphs
  -- have fewer than 2³¹ entries: the two reverse graphs have an edge from `v` to another node `u` just
  -- where the forward graph has one from `u` to `v`.
  pub build-reversed :
      KeepsSign f j
      → (node_ids : List K) (edges : List (Edge K S J)) (depths : List ((K × K) × ℕ)) (u v : ℕ)
      → u < length node_ids
      → v < length node_ids
      → (u == v) ≡ false
      → length node_ids ≤ 2 ^ 31
      → nnz (build f j node_ids edges depths).forward < 2 ^ 31
      → nnz (build f j node_ids edges depths).reverse_structural < 2 ^ 31
      → nnz (build f j node_ids edges depths).reverse_complexity < 2 ^ 31
      → (has_edge (build f j node_ids edges depths).reverse_structural v u
          ≡ has_edge (build f j node_ids edges depths).forward u v)
        × (has_edge (build f j node_ids edges depths).reverse_complexity v u
            ≡ has_edge (build f j node_ids edges depths).forward u v)
  unfolding build
  build-reversed sign node_ids edges depths u v hu hv apart bound small small' small'' =
      let t : Triples S = edge_triples f j (index_nodes 0 node_ids []) depths edges in
      let back : (v == u) ≡ false = ground (arith, apart) in
      let (structural, complexity) =
        matching-reversed sign (length node_ids) u v (index_nodes 0 node_ids []) depths edges in
      let ahead : has_edge (from_weighted_triples f node_ids t.fwd false) u v
          ≡ not (is_nil (matching f false (length node_ids) u v t.fwd)) =
        has_edge-matching f node_ids t.fwd false u v hu hv apart bound small in
      (
        has_edge-matching f node_ids t.rev_struct false v u hv hu back bound small'
            ∙ ap not structural
            ∙ sym ahead,
        has_edge-matching f node_ids t.rev_cplx false v u hv hu back bound small''
            ∙ ap not complexity
            ∙ sym ahead,
      )
