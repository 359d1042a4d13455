-- ===== src/Publish/Success.antt =====
-- A publication succeeds where SQLite refuses no statement, the generation row is there and the
-- vectors fit their space.
use cognis.Base.{
  ℕ, ◌≡◌, refl, Bool, true, false, ◌&&◌, not, List, [], ◌∷◌, Option, none, some, arith,
}
use cognis.BtreeMap.{KeyOrd}
use cognis.Sqlite.{◌>>=◌, ◌>>◌, for_each}
use cognis.Sqlite.Effects.{query-Runs}
use cognis.Sqlite.Success.{
  Succeeds, weaken, bind-Succeeds, seq-Always, seq-Succeeds, for_each-Always, query-Always,
}
use cognis.Publish.{VectorSpaceFingerprint, PublishBatch, Store}
use cognis.Publish.Apply.{Setup}
use cognis.Publish.Steps.{ready, not_equal}
use cognis.Publish.Vectors.{
  active_dim, check_dims, install, replace_vector, write_rows, upsert_vector_space_and_vectors,
}
use cognis.Publish.Refinement.{ready-Runs}
use cognis.Publish.Space.{existing, existing-Runs, check_dims-Runs}
use cognis.Publish.Accepted.{ready-Always, existing-Always, install-Always, replace_vector-Always}

abbrev pub space_dim :
    Option VectorSpaceFingerprint → Option (VectorSpaceFingerprint × ℕ) → Option ℕ
space_dim (some f) persisted = some f.dim
space_dim none (some (f, t)) = some f.dim
space_dim none none = none

false-ne-true : false ≡ true → ⊥
false-ne-true e = cc

module _ {K V : Type 0} (len : V → ℕ) where
  abbrev pub dims_fit : ℕ → List (K × V) → Bool
  dims_fit dim [] = true
  dims_fit dim ((k, v) ∷ rows) = not (not_equal (len v) dim) && dims_fit dim rows

  -- The vectors have the dimension of their space, and there is a space if there are vectors.
  abbrev pub rows_fit : Option ℕ → List (K × V) → Bool
  rows_fit dim [] = true
  rows_fit none (row ∷ rows) = false
  rows_fit (some dim) (row ∷ rows) = dims_fit dim (row ∷ rows)

  dims_rows :
      (dim : ℕ) (rows : List (K × V)) → dims_fit dim rows ≡ true → rows_fit (some dim) rows ≡ true
  dims_rows dim [] e = refl
  dims_rows dim (row ∷ rows) e = e

  abbrev pub PersistedFit :
      Option VectorSpaceFingerprint → List (K × V) → Option (VectorSpaceFingerprint × ℕ) → Type 0
  PersistedFit fingerprint rows persisted = rows_fit (space_dim fingerprint persisted) rows ≡ true

module _ {K R V F J : Type 0} ⦃o : KeyOrd K⦄ (setup : Setup V J)
    (never : (n : ℕ) → setup.refuses n ≡ none) where
  check_dims-Succeeds :
      (dim : ℕ) (rows : List (K × V))
      → Succeeds
          (λ d. dims_fit setup.vector_len dim rows ≡ true)
          (check_dims {R = R} {F = F} setup dim rows)
  unfolding check_dims
  check_dims-Succeeds dim [] = record { succeeds = λ c p. refl }
  check_dims-Succeeds dim ((k, v) ∷ rows) = record {
    succeeds = λ c p. ground (arith, p, (check_dims-Succeeds dim rows).succeeds c);
  }

  existing-dims :
      (dim : ℕ) (rows : List (K × V)) (d : Store K R V F J)
      → dims_fit setup.vector_len dim rows ≡ true
      → dims_fit setup.vector_len dim (existing setup rows d) ≡ true
  existing-dims dim [] d e = refl
  existing-dims dim ((k, v) ∷ rows) d e = ground (arith, e, existing-dims dim rows d)

  existing-fit :
      (dim : Option ℕ) (rows : List (K × V)) (d : Store K R V F J)
      → rows_fit setup.vector_len dim rows ≡ true
      → rows_fit setup.vector_len dim (existing setup rows d) ≡ true
  existing-fit dim [] d e = refl
  existing-fit none (row ∷ rows) d e = absurd (false-ne-true e)
  existing-fit (some n) (row ∷ rows) d e =
      dims_rows setup.vector_len n (existing setup (row ∷ rows) d)
        (existing-dims n (row ∷ rows) d e)

  with_dim :
      (fingerprint : Option VectorSpaceFingerprint)
      (persisted : Option (VectorSpaceFingerprint × ℕ)) (now dim : ℕ) (row : K × V)
      (rows : List (K × V))
      → Succeeds {D = Store K R V F J}
          (λ d. dims_fit setup.vector_len dim (row ∷ rows) ≡ true)
          (do
            check_dims setup dim (row ∷ rows)
            install setup fingerprint persisted now
            ready setup
            ready setup
            for_each (replace_vector setup) (row ∷ rows))
  with_dim fingerprint persisted now dim row rows =
      seq-Succeeds (λ d. dims_fit setup.vector_len dim (row ∷ rows) ≡ true) (λ d. Unit)
        (check_dims-Runs setup dim (row ∷ rows)) (check_dims-Succeeds dim (row ∷ rows))
        (weaken (λ d. Unit)
          (seq-Always (install-Always setup never fingerprint persisted now) (
            seq-Always (ready-Always setup never) (
              seq-Always (ready-Always setup never) (
                for_each-Always (replace_vector setup) (replace_vector-Always setup never)
                  (row ∷ rows))))))
        (λ d p. tt)

  write_tail :
      (fingerprint : Option VectorSpaceFingerprint)
      (persisted : Option (VectorSpaceFingerprint × ℕ)) (now : ℕ) (row : K × V)
      (rows : List (K × V))
      → Succeeds {D = Store K R V F J}
          (λ d. PersistedFit setup.vector_len fingerprint (row ∷ rows) persisted)
          (do
            dim ← active_dim setup fingerprint persisted
            check_dims setup dim (row ∷ rows)
            install setup fingerprint persisted now
            ready setup
            ready setup
            for_each (replace_vector setup) (row ∷ rows))
  write_tail (some f) persisted now row rows = with_dim (some f) persisted now f.dim row rows
  write_tail none (some (f, t)) now row rows = with_dim none (some (f, t)) now f.dim row rows
  write_tail none none now row rows = record { succeeds = λ c p. absurd (false-ne-true p) }

  write_rows-Succeeds :
      (fingerprint : Option VectorSpaceFingerprint) (now : ℕ) (rows : List (K × V))
      → Succeeds {D = Store K R V F J}
          (λ d. PersistedFit setup.vector_len fingerprint rows d.vector_space)
          (write_rows setup fingerprint now rows)
  unfolding write_rows
  write_rows-Succeeds fingerprint now [] = record { succeeds = λ c p. refl }
  write_rows-Succeeds fingerprint now (row ∷ rows) =
      bind-Succeeds (λ d. PersistedFit setup.vector_len fingerprint (row ∷ rows) d.vector_space)
        (λ persisted d. PersistedFit setup.vector_len fingerprint (row ∷ rows) persisted)
        (query-Runs setup.refuses (λ d. d.vector_space))
        (weaken (λ d. PersistedFit setup.vector_len fingerprint (row ∷ rows) d.vector_space)
          (query-Always setup.refuses never (λ d. d.vector_space)))
        (λ persisted. write_tail fingerprint persisted now row rows) (λ d p. p)

  pub vectors-Succeeds :
      (b : PublishBatch K R V F J) (now : ℕ)
      → Succeeds {D = Store K R V F J}
          (λ d. PersistedFit setup.vector_len b.fingerprint b.vector_upserts d.vector_space)
          (upsert_vector_space_and_vectors setup b now)
  unfolding upsert_vector_space_and_vectors
  vectors-Succeeds b now =
      let P = λ (d : Store K R V F J).
        PersistedFit setup.vector_len b.fingerprint b.vector_upserts d.vector_space in
      seq-Succeeds P P (ready-Runs setup) (weaken P (ready-Always setup never))
        (bind-Succeeds P (λ rows d. PersistedFit setup.vector_len b.fingerprint rows d.vector_space)
          (existing-Runs setup b.vector_upserts)
          (weaken P (existing-Always setup never b.vector_upserts))
          (λ rows. write_rows-Succeeds b.fingerprint now rows)
          (λ d p. existing-fit (space_dim b.fingerprint d.vector_space) b.vector_upserts d p))
        (λ d p. p)
