-- ===== src/Graph/Neighbors.antt =====
-- The rows that a graph of `CodeGraph::from_weighted_triples` hands out, crates/cognis-core/src/graph.rs.
use cognis.Base.{
  ℕ, suc, ◌+◌, ◌^◌, ◌≡◌, ◌<◌, refl, ap, ◌∙◌, Bool, false, List, [], ◌∷◌, ◌++◌, map, some, arith, ℤ,
  as_i32, as_unsigned, length, take, drop, get_elem?, get_or, replicate, modify, length-append,
  length-map, length-modify, length-replicate, ◌>>=◌, leb,
}
use mathlib.Core.List.{map-append}
use native.Mathlib.Nat.{zero-add}
use cognis.BtreeMap.{KeyOrd}
use cognis.Scalars.{Scalars}
use cognis.Graph.{
  Csr, row_slices, neighbors, n, nnz, add_entry, add_triple, accumulate, push_rows, empty_csr,
  from_weighted_triples,
}
use cognis.Graph.Indices.{slice, slice_middle, as_i32_small, as_unsigned_small}
use cognis.Graph.Rows.{
  ends, shares, closed, degree_of, entries, pointers, push_rows_lem, length-entries-take,
  entries-split, entries-take-suc,
}

as_unsigned-as_i32 : (k : ℕ) → k < 2 ^ 31 → as_unsigned 64 (as_i32 k) ≡ k
as_unsigned-as_i32 k h = ap (as_unsigned 64) (as_i32_small k h) ∙ as_unsigned_small k h

slice-map :
    {A B : Type 0} (g : A → B) (xs ys zs : List A)
    → slice (length xs) (length xs + length ys) (map g (xs ++ (ys ++ zs))) ≡ some (map g ys)
slice-map g xs ys zs =
    rw (map-append g xs (ys ++ zs), map-append g ys zs, ← (length-map xs g), ← (length-map ys g))
      (slice_middle (map g xs) (map g ys) (map g zs))

module _ {S : Type 0} (f : Scalars S) where
  pub length-add_triple :
      (s : Bool) (n : ℕ) (t : ℕ × ℕ × S) (acc : List (List (ℤ × S)))
      → length (add_triple f s n t acc) ≡ length acc
  unfolding add_triple
  length-add_triple s n t acc = ground (
    arith,
    length-modify (add_entry f t.1 t.2) acc t.0,
    length-modify (add_entry f t.0 t.2) (modify (add_entry f t.1 t.2) acc t.0) t.1,
  )

  pub length-accumulate :
      (s : Bool) (n : ℕ) (ts : List (ℕ × ℕ × S)) (acc : List (List (ℤ × S)))
      → length (accumulate f s n ts acc) ≡ length acc
  unfolding accumulate
  length-accumulate s n [] acc = refl
  length-accumulate s n (t ∷ ts) acc =
      length-accumulate s n ts (add_triple f s n t acc) ∙ length-add_triple s n t acc

  module _ (rows : List (List (ℤ × S))) (u : ℕ) (h : u < length rows) where
    -- The entries before row `u`, of the row and after it.
    pub before : List (ℤ × S)
    before = entries f 0 (take u rows)

    unfoldable pub stored : List (ℤ × S)
    stored = closed f u (get_or [] rows u)

    after : List (ℤ × S)
    after = entries f (suc u) (drop (suc u) rows)

    parts : entries f 0 rows ≡ before ++ (stored ++ after)
    unfolding before stored after
    parts = let z : 0 + u ≡ u = omega arith in rw z at (entries-split f 0 u rows h)

    starts : get_elem? (as_i32 0 ∷ pointers f 0 0 rows) u ≡ some (as_i32 (length before))
    unfolding before
    starts =
        length-entries-take f 0 0 u rows (omega arith)
        ∙ rw (zero-add (length (entries f 0 (take u rows))))

    ends_at :
        get_elem? (as_i32 0 ∷ pointers f 0 0 rows) (u + 1)
        ≡ some (as_i32 (length before + length stored))
    unfolding before stored
    ends_at =
        let z : 0 + u ≡ u = omega arith in
        let split : entries f 0 (take (suc u) rows) ≡ before ++ stored =
          rw z at (entries-take-suc f 0 u rows h) in
        let e : u + 1 ≡ suc u = omega arith in
        rw e (
          length-entries-take f 0 0 (suc u) rows (omega arith)
          ∙ rw (
            zero-add (length (entries f 0 (take (suc u) rows))),
            split,
            length-append before stored,
          ))

    module _ (small : length (entries f 0 rows) < 2 ^ 31) where
      fits : length before + length stored < 2 ^ 31
      fits = omega (
        arith,
        ap length parts,
        length-append before (stored ++ after),
        length-append stored after,
        small,
      )

      sliced :
          {B : Type 0} (g : ℤ × S → B)
          → slice
              (as_unsigned 64 (as_i32 (length before)))
              (as_unsigned 64 (as_i32 (length before + length stored)))
              (map g (entries f 0 rows))
            ≡ some (map g stored)
      sliced g =
          rw
            (
              as_unsigned-as_i32 (length before) (omega (arith, fits)),
              as_unsigned-as_i32 (length before + length stored) fits,
              parts,
            )
            (slice-map g before stored after)

      pub read_row :
          row_slices
            (as_i32 0 ∷ pointers f 0 0 rows)
            (ends (entries f 0 rows))
            (shares (entries f 0 rows))
            u
          ≡ some (ends stored, shares stored)
      read_row = rw (starts, ends_at, ◌>>=◌, sliced (λ e. e.0), sliced (λ e. e.1))

  -- The rows that the second loop reads.
  abbrev pub built : {K : Type 0} → List K → List (ℕ × ℕ × S) → Bool → List (List (ℤ × S))
  built node_ids triples symmetrize =
      accumulate f symmetrize (length node_ids) triples (replicate (length node_ids) [])

  pub length-built :
      {K : Type 0} (node_ids : List K) (triples : List (ℕ × ℕ × S)) (symmetrize : Bool)
      → length (built node_ids triples symmetrize) ≡ length node_ids
  length-built node_ids triples symmetrize =
      length-accumulate symmetrize (length node_ids) triples (replicate (length node_ids) [])
      ∙ length-replicate (length node_ids) []

module _ {K S : Type 0} ⦃o : KeyOrd K⦄ (f : Scalars S) (node_ids : List K)
    (triples : List (ℕ × ℕ × S)) (symmetrize : Bool) where
  pub csr_lem : push_rows f 0 (built f node_ids triples symmetrize) (empty_csr f) ≡ record {
    indptr = as_i32 0 ∷ pointers f 0 0 (built f node_ids triples symmetrize);
    indices = ends (entries f 0 (built f node_ids triples symmetrize));
    weights = shares (entries f 0 (built f node_ids triples symmetrize));
    degree = map (degree_of f) (built f node_ids triples symmetrize);
  }
  csr_lem = push_rows_lem f 0 (built f node_ids triples symmetrize) (empty_csr f)

  pub neighbors-built :
      (u : ℕ)
      → u < length node_ids
      → nnz (from_weighted_triples f node_ids triples symmetrize) < 2 ^ 31
      → neighbors (from_weighted_triples f node_ids triples symmetrize) u
        ≡ some (
          ends (closed f u (get_or [] (built f node_ids triples symmetrize) u)),
          shares (closed f u (get_or [] (built f node_ids triples symmetrize) u)),
        )
  unfolding from_weighted_triples neighbors stored
  neighbors-built u h small =
      let rows : List (List (ℤ × S)) = built f node_ids triples symmetrize in
      let out : leb (length node_ids) u ≡ false = ground arith in
      let fits : length (entries f 0 rows) < 2 ^ 31 = omega (
        arith,
        small,
        ap (λ (c : Csr S). length c.indices) csr_lem,
        length-map (entries f 0 rows) (λ e. e.0),
      ) in
      rw (csr_lem, out)
        (read_row f rows u (omega (arith, length-built f node_ids triples symmetrize)) fits)
