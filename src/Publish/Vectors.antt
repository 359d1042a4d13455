-- ===== src/Publish/Vectors.antt =====
-- The statements on the vectors and their space.
use text.Mathlib.Text.{◌==◌ as str_eq}
use cognis.Base.{
  ℕ, ◌*◌, ◌^◌, ◌-◌, min, Bool, true, false, ◌||◌, ◌&&◌, not, List, [], ◌∷◌, Option, none, some,
  ◌==◌, if◌then◌else◌,
}
use cognis.BtreeMap.{KeyOrd}
use cognis.Table.{has_key}
use cognis.Sqlite.{Io, ◌>>=◌, ◌>>◌, pure, fail, for_each}
use cognis.Publish.{VectorSpaceFingerprint, PublishBatch, Store}
use cognis.Publish.Apply.{Setup, vector_delete, vector_insert, clear_vectors, set_space}
use cognis.Publish.Steps.{run, ask, ready, not_equal}

abbrev pub not_equal_bool : Bool → Bool → Bool
not_equal_bool true b = not b
not_equal_bool false b = b

abbrev pub space_changed : VectorSpaceFingerprint → Option (VectorSpaceFingerprint × ℕ) → Bool
space_changed f none = false
space_changed f (some (g, t)) = not (str_eq g.digest "") && not (str_eq g.digest f.digest)

abbrev pub other_dim : ℕ → Option ℕ → Bool
other_dim dim none = false
other_dim dim (some d) = not_equal d dim

-- Whether the vectors of the old table move to the new one.
abbrev pub preserves : Bool → Bool → Bool → Bool → Bool
preserves moved resized is_vec0 vec_ext_ok = not moved && not resized && not is_vec0 && vec_ext_ok

-- `read_compatible_blob_vectors`: a blob has four bytes for each component.
module _ {K V : Type 0} where
  unfoldable pub compatible : (V → ℕ) → ℕ → List (K × V) → List (K × V)
  compatible len dim [] = []
  compatible len dim ((k, v) ∷ rows) =
      let rest = compatible len dim rows in
      if 4 * len v == min (dim * 4) (2 ^ 64 - 1) then (k, v) ∷ rest else rest

module _ {K R V F J : Type 0} ⦃o : KeyOrd K⦄ (setup : Setup V J) where
  unfoldable pub existing_rows : List (K × V) → Io (Store K R V F J) (List (K × V))
  existing_rows [] = pure []
  existing_rows ((k, v) ∷ rows) = do
    found ← ask setup (λ d. has_key k d.symbols)
    rest ← existing_rows rows
    pure (if found then (k, v) ∷ rest else rest)

  abbrev pub active_dim :
      Option VectorSpaceFingerprint → Option (VectorSpaceFingerprint × ℕ) → Io (Store K R V F J) ℕ
  active_dim (some f) persisted = pure f.dim
  active_dim none (some (f, t)) = pure f.dim
  active_dim none none = fail "first vector write requires a vector-space fingerprint"

  unfoldable pub check_dims : ℕ → List (K × V) → Io (Store K R V F J) (Unit {0})
  check_dims dim [] = pure tt
  check_dims dim ((k, v) ∷ rows) =
      let rest = check_dims dim rows in
      if not_equal (setup.vector_len v) dim
      then fail (setup.wrong_dim (setup.vector_len v) dim)
      else rest

  abbrev pub recreate_vec_table : ℕ → Store K R V F J → Store K R V F J
  recreate_vec_table dim d = record d {
    vectors = [];
    is_vec0 = setup.vec_ext_ok;
    vec_dim = if setup.vec_ext_ok then some dim else none;
  }

  -- The vectors that move to the new table.
  unfoldable pub insert_preserved : List (K × V) → Io (Store K R V F J) (Unit {0})
  insert_preserved [] = pure tt
  insert_preserved (row ∷ rows) = do
    ready setup
    for_each (λ r. run setup (vector_insert r)) (row ∷ rows)

  -- The form of the table after the tests on it.
  unfoldable pub reshape :
      VectorSpaceFingerprint → Bool → Bool → Option ℕ → Io (Store K R V F J) (Unit {0})
  unfolding compatible insert_preserved
  reshape f moved is_vec0 vec_dim =
      if not_equal_bool setup.vec_ext_ok is_vec0 || other_dim f.dim vec_dim
      then (do
        kept ←
            (if preserves moved (other_dim f.dim vec_dim) is_vec0 setup.vec_ext_ok
              then ask setup (λ d. compatible setup.vector_len f.dim d.vectors)
              else pure [])
        run setup (recreate_vec_table f.dim)
        insert_preserved kept)
      else if moved
      then run setup clear_vectors
      else pure tt

  unfoldable pub install :
      Option VectorSpaceFingerprint
      → Option (VectorSpaceFingerprint × ℕ)
      → ℕ
      → Io (Store K R V F J) (Unit {0})
  unfolding reshape
  install none persisted now = pure tt
  install (some f) persisted now = do
    is_vec0 ← ask setup (λ d. d.is_vec0)
    vec_dim ← ask setup (λ d. d.vec_dim)
    reshape f (space_changed f persisted) is_vec0 vec_dim
    run setup (set_space f now)

  unfoldable pub replace_vector : K × V → Io (Store K R V F J) (Unit {0})
  replace_vector (k, v) = do run setup (vector_delete k); run setup (vector_insert (k, v))

  unfoldable pub write_rows :
      Option VectorSpaceFingerprint → ℕ → List (K × V) → Io (Store K R V F J) (Unit {0})
  unfolding check_dims install replace_vector
  write_rows fingerprint now [] = pure tt
  write_rows fingerprint now (row ∷ rows) = do
    persisted ← ask setup (λ d. d.vector_space)
    dim ← active_dim fingerprint persisted
    check_dims dim (row ∷ rows)
    install fingerprint persisted now
    ready setup
    ready setup
    for_each replace_vector (row ∷ rows)

  unfoldable pub upsert_vector_space_and_vectors :
      PublishBatch K R V F J → ℕ → Io (Store K R V F J) (Unit {0})
  unfolding existing_rows write_rows
  upsert_vector_space_and_vectors b now = do
    ready setup
    rows ← existing_rows b.vector_upserts
    write_rows b.fingerprint now rows
