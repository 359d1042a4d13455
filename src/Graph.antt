-- ===== src/Graph.antt =====
-- The code graph in compressed rows, crates/cognis-core/src/graph.rs.
pub mod Indices
pub mod Rows
pub mod Neighbors
pub mod Weights
pub mod Formed
pub mod Samples
pub mod Impact
pub mod Reversed
mod Tests
use cognis.Base.{
  ℕ, suc, ◌+◌, Bool, ◌||◌, List, [], ◌∷◌, ◌++◌, Option, none, some, if◌then◌else◌, leb, ◌==◌, ◌>>=◌,
  ℤ, as_i32, as_unsigned, length, get_elem?, modify, replicate,
}
use cognis.BtreeMap.{KeyOrd, get, insert}
use cognis.Table.{put}
use cognis.Scalars.{Scalars}
use cognis.Graph.Indices.{i32_order, slice}

pub record CodeGraph (K S : Type 0) : Type 0 where
  pub indptr : List ℤ
  pub indices : List ℤ
  pub weights : List S
  pub degree : List S
  pub node_ids : List K
  pub index : List (K × ℕ)

module _ {S : Type 0} where
  -- A range outside the vectors panics, `none`.
  abbrev pub row_slices : List ℤ → List ℤ → List S → ℕ → Option (List ℤ × List S)
  row_slices indptr indices weights u = do
    start ← get_elem? indptr u
    end ← get_elem? indptr (u + 1)
    idx ← slice (as_unsigned 64 start) (as_unsigned 64 end) indices
    w ← slice (as_unsigned 64 start) (as_unsigned 64 end) weights
    some (idx, w)

module _ {K S : Type 0} where
  abbrev pub n : CodeGraph K S → ℕ
  n g = length g.node_ids

  abbrev pub nnz : CodeGraph K S → ℕ
  nnz g = length g.indices

  unfoldable pub neighbors : CodeGraph K S → ℕ → Option (List ℤ × List S)
  neighbors g u = if leb (n g) u then some ([], []) else row_slices g.indptr g.indices g.weights u

-- `for (i, id) in node_ids.iter().enumerate()`, where a later node takes the entry of an earlier one.
unfoldable pub index_nodes : {K : Type 0} ⦃o : KeyOrd K⦄ → ℕ → List K → List (K × ℕ) → List (K × ℕ)
index_nodes i [] index = index
index_nodes i (id ∷ ids) index = index_nodes (suc i) ids (put id i index)

-- What the second loop of `from_weighted_triples` fills.
pub record Csr (S : Type 0) : Type 0 where
  pub indptr : List ℤ
  pub indices : List ℤ
  pub weights : List S
  pub degree : List S

module _ {S : Type 0} (f : Scalars S) where
  abbrev pub or_insert : Option S → S
  or_insert none = f.zero
  or_insert (some w) = w

  -- `*entry(v as i32).or_insert(0.0) += w`
  unfoldable pub add_entry : ℕ → S → List (ℤ × S) → List (ℤ × S)
  add_entry v w m = insert (as_i32 v) (f.add (or_insert (get (as_i32 v) m)) w) m

  -- The triples that the graph leaves out.
  abbrev pub is_skipped : ℕ → ℕ × ℕ × S → Bool
  is_skipped n (u, v, w) = leb n u || leb n v || (u == v) || f.le w f.zero

  unfoldable pub add_triple : Bool → ℕ → ℕ × ℕ × S → List (List (ℤ × S)) → List (List (ℤ × S))
  add_triple symmetrize n (u, v, w) acc =
      if is_skipped n (u, v, w)
      then acc
      else let acc' = modify (add_entry v w) acc u in
        if symmetrize then modify (add_entry u w) acc' v else acc'

  unfoldable pub accumulate :
      Bool → ℕ → List (ℕ × ℕ × S) → List (List (ℤ × S)) → List (List (ℤ × S))
  accumulate symmetrize n [] acc = acc
  accumulate symmetrize n (t ∷ ts) acc = accumulate symmetrize n ts (add_triple symmetrize n t acc)

  abbrev pub push_all : List (ℤ × S) → S → Csr S → S × Csr S
  push_all [] d c = (d, c)
  push_all ((v, w) ∷ row) d c =
      push_all row (f.add d w)
        (record c { indices = c.indices ++ v ∷ []; weights = c.weights ++ w ∷ [] })

  abbrev pub push_degree : S × Csr S → Csr S
  push_degree (d, c) = record c { degree = c.degree ++ d ∷ [] }

  -- A node without neighbours has a loop of weight one.
  unfoldable pub push_row : ℕ → List (ℤ × S) → Csr S → Csr S
  push_row u [] c = record c {
    indices = c.indices ++ as_i32 u ∷ [];
    weights = c.weights ++ f.one ∷ [];
    degree = c.degree ++ f.one ∷ [];
  }
  push_row u (e ∷ row) c = push_degree (push_all (e ∷ row) f.zero c)

  abbrev pub push_pointer : Csr S → Csr S
  push_pointer c = record c { indptr = c.indptr ++ as_i32 (length c.indices) ∷ [] }

  unfoldable pub push_rows : ℕ → List (List (ℤ × S)) → Csr S → Csr S
  push_rows u [] c = c
  push_rows u (row ∷ rows) c = push_rows (suc u) rows (push_pointer (push_row u row c))

  abbrev pub empty_csr : Csr S
  empty_csr = record { indptr = as_i32 0 ∷ []; indices = []; weights = []; degree = [] }

  unfoldable pub from_weighted_triples :
      {K : Type 0} ⦃o : KeyOrd K⦄ → List K → List (ℕ × ℕ × S) → Bool → CodeGraph K S
  from_weighted_triples node_ids triples symmetrize =
      let count = length node_ids in
      let c = push_rows 0 (accumulate symmetrize count triples (replicate count [])) empty_csr in
      record {
        indptr = c.indptr;
        indices = c.indices;
        weights = c.weights;
        degree = c.degree;
        node_ids = node_ids;
        index = index_nodes 0 node_ids [];
      }
