-- ===== src/Publish/Space.antt =====
-- What the statements on the vectors and their space do where none is refused.
use cognis.Base.{ℕ, Bool, ◌||◌, List, [], ◌∷◌, Option, none, some, if◌then◌else◌}
use cognis.BtreeMap.{KeyOrd}
use cognis.Table.{has_key}
use cognis.Sqlite.{◌>>=◌, ◌>>◌, pure}
use cognis.Sqlite.Effects.{
  Runs, fold, bind-Runs, seq-Runs, pure-Runs, fail-Runs, if-Runs, answer-Runs, for_each-Runs,
  query-Runs,
}
use cognis.Publish.{VectorSpaceFingerprint, PublishBatch, Store}
use cognis.Publish.Apply.{Setup, vector_delete, vector_insert, clear_vectors, set_space}
use cognis.Publish.Steps.{not_equal, run, ask}
use cognis.Publish.Vectors.{
  not_equal_bool, compatible, existing_rows, active_dim, check_dims, recreate_vec_table,
  space_changed, other_dim, preserves, reshape, insert_preserved, install, replace_vector,
  write_rows, upsert_vector_space_and_vectors,
}
use cognis.Publish.Refinement.{ready-Runs, run-Runs, with_vector}

module _ {K R V F J : Type 0} ⦃o : KeyOrd K⦄ (setup : Setup V J) where
  abbrev pub existing : List (K × V) → Store K R V F J → List (K × V)
  existing [] d = []
  existing ((k, v) ∷ rows) d =
      if has_key k d.symbols then (k, v) ∷ existing rows d else existing rows d

  pub existing-Runs :
      (rows : List (K × V)) → Runs (existing_rows setup rows) (λ d. d) (existing rows)
  unfolding existing_rows
  existing-Runs [] = pure-Runs []
  existing-Runs ((k, v) ∷ rows) =
      bind-Runs (query-Runs setup.refuses (λ d. has_key k d.symbols)) (λ found.
        bind-Runs (existing-Runs rows) (λ rest. pure-Runs (if found then (k, v) ∷ rest else rest)))

  pub check_dims-Runs :
      (dim : ℕ) (rows : List (K × V))
      → Runs (check_dims {R = R} {F = F} setup dim rows) (λ d. d) (λ d. tt)
  unfolding check_dims
  check_dims-Runs dim [] = pure-Runs tt
  check_dims-Runs dim ((k, v) ∷ rows) =
      answer-Runs (not_equal (setup.vector_len v) dim)
        (fail-Runs (setup.wrong_dim (setup.vector_len v) dim) (λ d. d) (λ d. tt))
        (check_dims-Runs dim rows)

  abbrev pub reshaped :
      VectorSpaceFingerprint → Bool → Bool → Option ℕ → Store K R V F J → Store K R V F J
  reshaped f moved is_vec0 vec_dim d =
      if not_equal_bool setup.vec_ext_ok is_vec0 || other_dim f.dim vec_dim
      then fold vector_insert
          (if preserves moved (other_dim f.dim vec_dim) is_vec0 setup.vec_ext_ok
            then compatible setup.vector_len f.dim d.vectors
            else [])
          (recreate_vec_table setup f.dim d)
      else if moved
      then clear_vectors d
      else d

  insert_preserved-Runs :
      (rows : List (K × V))
      → Runs (insert_preserved {R = R} {F = F} setup rows) (fold vector_insert rows) (λ d. tt)
  unfolding insert_preserved
  insert_preserved-Runs [] = pure-Runs tt
  insert_preserved-Runs (row ∷ rows) = seq-Runs (ready-Runs setup) (
      for_each-Runs (λ r. run setup (vector_insert r)) vector_insert
        (λ r. run-Runs setup (vector_insert r)) (row ∷ rows))

  moving-Runs :
      (f : VectorSpaceFingerprint) (keep : Bool)
      → Runs
          (do
            kept ←
                (if keep
                  then ask {K = K} {R = R} {F = F} setup
                      (λ d. compatible setup.vector_len f.dim d.vectors)
                  else pure [])
            run setup (recreate_vec_table {R = R} {F = F} setup f.dim)
            insert_preserved setup kept)
          (λ d.
            fold vector_insert
              (if keep then compatible setup.vector_len f.dim d.vectors else [])
              (recreate_vec_table setup f.dim d))
          (λ d. tt)
  moving-Runs f keep =
      bind-Runs
        (answer-Runs keep
          (query-Runs setup.refuses (λ d. compatible setup.vector_len f.dim d.vectors))
          (pure-Runs []))
        (λ kept.
          seq-Runs (run-Runs setup (recreate_vec_table setup f.dim)) (insert_preserved-Runs kept))

  reshape-Runs :
      (f : VectorSpaceFingerprint) (moved is_vec0 : Bool) (vec_dim : Option ℕ)
      → Runs (reshape setup f moved is_vec0 vec_dim) (reshaped f moved is_vec0 vec_dim) (λ d. tt)
  unfolding reshape
  reshape-Runs f moved is_vec0 vec_dim =
      if-Runs (not_equal_bool setup.vec_ext_ok is_vec0 || other_dim f.dim vec_dim)
        (moving-Runs f (preserves moved (other_dim f.dim vec_dim) is_vec0 setup.vec_ext_ok))
        (if-Runs moved (run-Runs setup clear_vectors) (pure-Runs tt))

  pub active_dim-Runs :
      (fingerprint : Option VectorSpaceFingerprint)
      (persisted : Option (VectorSpaceFingerprint × ℕ))
      → (n : ℕ) × Runs
          (active_dim {K = K} {R = R} {F = F} setup fingerprint persisted)
          (λ d. d)
          (λ d. n)
  active_dim-Runs (some f) persisted = (f.dim, pure-Runs f.dim)
  active_dim-Runs none (some (f, t)) = (f.dim, pure-Runs f.dim)
  active_dim-Runs none none =
      (0, fail-Runs "first vector write requires a vector-space fingerprint" (λ d. d) (λ d. 0))

  abbrev pub installed :
      Option VectorSpaceFingerprint
      → Option (VectorSpaceFingerprint × ℕ)
      → ℕ
      → Store K R V F J
      → Store K R V F J
  installed none persisted now d = d
  installed (some f) persisted now d =
      set_space f now (reshaped f (space_changed f persisted) d.is_vec0 d.vec_dim d)

  install-Runs :
      (fingerprint : Option VectorSpaceFingerprint)
      (persisted : Option (VectorSpaceFingerprint × ℕ)) (now : ℕ)
      → Runs
          (install setup fingerprint persisted now)
          (installed fingerprint persisted now)
          (λ d. tt)
  unfolding install
  install-Runs none persisted now = pure-Runs tt
  install-Runs (some f) persisted now =
      bind-Runs (query-Runs setup.refuses (λ d. d.is_vec0)) (λ is_vec0.
        bind-Runs (query-Runs setup.refuses (λ d. d.vec_dim)) (λ vec_dim.
          seq-Runs (reshape-Runs f (space_changed f persisted) is_vec0 vec_dim)
            (run-Runs setup (set_space f now))))

  replace_vector-Runs :
      (row : K × V)
      → Runs (replace_vector {R = R} {F = F} setup row) (with_vector setup row) (λ d. tt)
  unfolding replace_vector
  replace_vector-Runs (k, v) =
      seq-Runs (run-Runs setup (vector_delete k)) (run-Runs setup (vector_insert (k, v)))

  abbrev pub with_vectors :
      Option VectorSpaceFingerprint → ℕ → List (K × V) → Store K R V F J → Store K R V F J
  with_vectors fingerprint now [] d = d
  with_vectors fingerprint now (row ∷ rows) d =
      fold (with_vector setup) (row ∷ rows) (installed fingerprint d.vector_space now d)

  write_rows-Runs :
      (fingerprint : Option VectorSpaceFingerprint) (now : ℕ) (rows : List (K × V))
      → Runs (write_rows setup fingerprint now rows) (with_vectors fingerprint now rows) (λ d. tt)
  unfolding write_rows
  write_rows-Runs fingerprint now [] = pure-Runs tt
  write_rows-Runs fingerprint now (row ∷ rows) =
      bind-Runs (query-Runs setup.refuses (λ d. d.vector_space)) (λ persisted.
        bind-Runs (active_dim-Runs fingerprint persisted).1 (λ dim.
          seq-Runs (check_dims-Runs dim (row ∷ rows)) (
            seq-Runs (install-Runs fingerprint persisted now) (
              seq-Runs (ready-Runs setup) (
                seq-Runs (ready-Runs setup) (
                  for_each-Runs (replace_vector setup) (with_vector setup) replace_vector-Runs
                    (row ∷ rows)))))))

  pub vectors-Runs :
      (b : PublishBatch K R V F J) (now : ℕ)
      → Runs
          (upsert_vector_space_and_vectors setup b now)
          (λ d. with_vectors b.fingerprint now (existing b.vector_upserts d) d)
          (λ d. tt)
  unfolding upsert_vector_space_and_vectors
  vectors-Runs b now =
      seq-Runs (ready-Runs setup) (
        bind-Runs (existing-Runs b.vector_upserts) (λ rows. write_rows-Runs b.fingerprint now rows))
