-- ===== src/Publish/Consistency.antt =====
-- The tables of symbols, of text and of vectors agree after every publication.
use cognis.Base.{
  ℕ, ◌≡◌, refl, ap, ◌∙◌, Bool, true, false, ◌||◌, ◌&&◌, not, List, [], ◌∷◌, Option, none, some,
  if◌then◌else◌, arith,
}
use cognis.BtreeMap.{KeyOrd}
use cognis.Table.{has_key, has_key-put, has_key-drop_key}
use cognis.Sqlite.{opened, on_disk, Result, ok, err}
use cognis.Sqlite.Effects.{fold}
use cognis.Publish.{
  Symbol, VectorSpaceFingerprint, PublishBatch, covered_paths, Store, PublishReceipt,
}
use cognis.Publish.Apply.{
  Setup, upsert_edge_row, vector_delete, vector_insert, upsert_file, enqueue_row, edge_delete,
  queue_delete, file_queue_delete, file_delete, insert_batch_file, clear_vectors,
}
use cognis.Publish.Vectors.{
  not_equal_bool, other_dim, space_changed, compatible, preserves, recreate_vec_table,
}
use cognis.Publish.Statements.{publish}
use cognis.Publish.Refinement.{with_symbol, with_vector, erase, changes_of}
use cognis.Publish.Space.{existing, with_vectors, installed, reshaped}
use cognis.Publish.Published.{mutated, published, upserted, doomed, generations, bumped_store}
use cognis.Publish.Outcome.{publish-refines, publish-atomic, untimed}
use cognis.Publish.Kept.{installed-keeps}

-- What every step preserves holds after a change of the rows.
pub fold-invariant :
    {D X : Type 0} (P : D → Type 0) (e : X → D → D)
    → ((x : X) (d : D) → P d → P (e x d))
    → (xs : List X) (d : D) → P d
    → P (fold e xs d)
fold-invariant P e h [] d p = p
fold-invariant P e h (x ∷ xs) d p = fold-invariant P e h xs (e x d) (h x d p)

pub if-holds :
    {D : Type 0} (P : D → Type 0) (b : Bool) (x y : D) → P x → P y → P (if b then x else y)
if-holds P true x y p q = p
if-holds P false x y p q = q

module _ {K V : Type 0} ⦃o : KeyOrd K⦄ where
  compatible-keys :
      (len : V → ℕ) (dim : ℕ) (k : K) (rows : List (K × V))
      → has_key k (compatible len dim rows) ≡ true
      → has_key k rows ≡ true
  unfolding has_key compatible
  compatible-keys len dim k [] e = e
  compatible-keys len dim k ((j, v) ∷ rows) e = ground (arith, e, compatible-keys len dim k rows)

module _ {K R V F J : Type 0} ⦃o : KeyOrd K⦄ where
  -- A symbol has a row of text exactly where it has a row of its own, and a vector only there.
  abbrev pub agrees : K → Store K R V F J → Bool
  agrees k d =
      (if has_key k d.fts then has_key k d.symbols else not (has_key k d.symbols))
      && (not (has_key k d.vectors) || has_key k d.symbols)

  abbrev pub IsConsistent : Store K R V F J → Type 0
  IsConsistent d = (k : K) → agrees k d ≡ true

  -- The rows of vectors for `k` have a symbol.
  abbrev pub backed : K → List (K × V) → Store K R V F J → Bool
  backed k rows d = not (has_key k rows) || has_key k d.symbols

module _ {K R V F J : Type 0} ⦃o : KeyOrd K⦄ (setup : Setup V J) (k : K) where
  with_symbol-agrees :
      (s : Symbol K R) (d : Store K R V F J)
      → agrees k d ≡ true
      → agrees k (with_symbol setup s d) ≡ true
  unfolding has_key
  with_symbol-agrees s d e =
      ground (arith, e, has_key-put k s.id s d.symbols, has_key-drop_key k s.id d.fts)

  erase-agrees :
      (j : K) (d : Store K R V F J) → agrees k d ≡ true → agrees k (erase setup j d) ≡ true
  unfolding has_key
  erase-agrees j d e = ground (
    arith,
    e,
    has_key-drop_key k j d.symbols,
    has_key-drop_key k j d.fts,
    has_key-drop_key k j d.vectors,
  )

  vector_delete-agrees :
      (j : K) (d : Store K R V F J) → agrees k d ≡ true → agrees k (vector_delete j d) ≡ true
  vector_delete-agrees j d e = ground (arith, e, has_key-drop_key k j d.vectors)

  insert_rows-agrees :
      (rows : List (K × V)) (d : Store K R V F J)
      → backed k rows d ≡ true
      → agrees k d ≡ true
      → agrees k (fold vector_insert rows d) ≡ true
  unfolding has_key
  insert_rows-agrees [] d b e = e
  insert_rows-agrees ((j, v) ∷ rows) d b e =
      insert_rows-agrees rows (vector_insert (j, v) d) (ground (arith, b)) (ground (arith, b, e))

  replace_rows-agrees :
      (rows : List (K × V)) (d : Store K R V F J)
      → backed k rows d ≡ true
      → agrees k d ≡ true
      → agrees k (fold (with_vector setup) rows d) ≡ true
  unfolding has_key
  replace_rows-agrees [] d b e = e
  replace_rows-agrees ((j, v) ∷ rows) d b e =
      replace_rows-agrees rows (with_vector setup (j, v) d) (ground (arith, b))
        (ground (arith, b, e, has_key-drop_key k j d.vectors))

  existing-backed :
      (rows : List (K × V)) (d : Store K R V F J) → backed k (existing setup rows d) d ≡ true
  unfolding has_key
  existing-backed [] d = refl
  existing-backed ((j, v) ∷ rows) d = ground (arith, o.eq_iff k j, existing-backed rows d)

  reshaped-agrees :
      (f : VectorSpaceFingerprint) (moved is_vec0 : Bool) (vec_dim : Option ℕ) (d : Store K R V F J)
      → agrees k d ≡ true
      → agrees k (reshaped setup f moved is_vec0 vec_dim d) ≡ true
  unfolding has_key
  reshaped-agrees f moved is_vec0 vec_dim d e =
      let keep = preserves moved (other_dim f.dim vec_dim) is_vec0 setup.vec_ext_ok in
      let kept = if keep then compatible setup.vector_len f.dim d.vectors else [] in
      let d' = recreate_vec_table setup f.dim d in
      if-holds (λ d. agrees k d ≡ true)
        (not_equal_bool setup.vec_ext_ok is_vec0 || other_dim f.dim vec_dim)
        (fold vector_insert kept d') (if moved then clear_vectors d else d)
        (insert_rows-agrees kept d'
          (if-holds (λ rows. backed k rows d' ≡ true) keep
            (compatible setup.vector_len f.dim d.vectors) []
            (ground (arith, e, compatible-keys setup.vector_len f.dim k d.vectors)) refl)
          (ground (arith, e)))
        (if-holds (λ d. agrees k d ≡ true) moved (clear_vectors d) d (ground (arith, e)) e)

  installed-agrees :
      (f : Option VectorSpaceFingerprint) (p : Option (VectorSpaceFingerprint × ℕ)) (now : ℕ)
      (d : Store K R V F J)
      → agrees k d ≡ true
      → agrees k (installed setup f p now d) ≡ true
  installed-agrees none p now d e = e
  installed-agrees (some f) p now d e =
      reshaped-agrees f (space_changed f p) d.is_vec0 d.vec_dim d e

  with_vectors-agrees :
      (f : Option VectorSpaceFingerprint) (now : ℕ) (rows : List (K × V)) (d : Store K R V F J)
      → backed k rows d ≡ true
      → agrees k d ≡ true
      → agrees k (with_vectors setup f now rows d) ≡ true
  with_vectors-agrees f now [] d b e = e
  with_vectors-agrees f now (row ∷ rows) d b e =
      replace_rows-agrees (row ∷ rows) (installed setup f d.vector_space now d)
        (ap (λ m. not (has_key k (row ∷ rows)) || has_key k m)
            (installed-keeps setup (λ d. d.symbols) (λ x d. refl) (λ n d. refl) (λ d. refl)
              (λ g n d. refl) f d.vector_space now d)
          ∙ b)
        (installed-agrees f d.vector_space now d e)

  upserted-agrees :
      (b : PublishBatch K R V F J) (now : ℕ) (d : Store K R V F J)
      → agrees k d ≡ true
      → agrees k (upserted setup b now d) ≡ true
  upserted-agrees b now d e =
      let P = λ (d : Store K R V F J). agrees k d ≡ true in
      let d₁ = fold upsert_edge_row b.edge_upserts (fold (with_symbol setup) b.symbol_upserts d) in
      let rows = existing setup b.vector_upserts d₁ in
      let d₂ = with_vectors setup b.fingerprint now rows d₁ in
      fold-invariant P (enqueue_row now) (λ x d p. p) b.queue_enqueue
        (fold upsert_file b.file_rows d₂)
        (fold-invariant P upsert_file (λ x d p. p) b.file_rows d₂
          (with_vectors-agrees b.fingerprint now rows d₁ (existing-backed b.vector_upserts d₁) (
            fold-invariant P upsert_edge_row (λ x d p. p) b.edge_upserts
              (fold (with_symbol setup) b.symbol_upserts d)
              (fold-invariant P (with_symbol setup) with_symbol-agrees b.symbol_upserts d e))))

  mutated-agrees :
      (b : PublishBatch K R V F J) (now : ℕ) (d : Store K R V F J)
      → agrees k d ≡ true
      → agrees k (mutated setup b now d) ≡ true
  mutated-agrees b now d e =
      let P = λ (d : Store K R V F J). agrees k d ≡ true in
      let d₀ = upserted setup b now d in
      let d₁ = fold edge_delete b.edge_deletes d₀ in
      let d₂ = fold vector_delete b.vector_deletes d₁ in
      let d₃ = fold queue_delete b.queue_remove d₂ in
      let d₄ = fold (erase setup) (doomed setup b d₃) d₃ in
      fold-invariant P file_delete (λ x d p. p) b.file_deletes
        (fold file_queue_delete b.file_deletes d₄)
        (fold-invariant P file_queue_delete (λ x d p. p) b.file_deletes d₄
          (fold-invariant P (erase setup) erase-agrees (doomed setup b d₃) d₃ (
            fold-invariant P queue_delete (λ x d p. p) b.queue_remove d₂
              (fold-invariant P vector_delete vector_delete-agrees b.vector_deletes d₁ (
                fold-invariant P edge_delete (λ x d p. p) b.edge_deletes d₀
                  (upserted-agrees b now d e))))))

  published-agrees :
      (b : PublishBatch K R V F J) (now : ℕ) (d : Store K R V F J)
      → agrees k d ≡ true
      → agrees k (published setup (0, 0) b now d) ≡ true
  published-agrees b now d e =
      fold-invariant (λ (d : Store K R V F J). agrees k d ≡ true)
        (insert_batch_file
          (generations (0, 0) (bumped_store setup now (mutated setup b now d)).generation).0)
        (λ x d p. p) (changes_of setup b.file_deletes (covered_paths b) d) _
        (mutated-agrees b now d e)

  succeeded-agrees :
      (b : PublishBatch K R V F J) (d : Store K R V F J) (tick now : ℕ)
      (r : Result (PublishReceipt K))
      → setup.unix_timestamp ≡ ok now
      → (publish setup b (opened d tick)).0 ≡ r
      → agrees k d ≡ true
      → agrees k (on_disk (publish setup b (opened d tick)).1) ≡ true
  succeeded-agrees b d tick now (ok r) t q e =
      ap (agrees k) (publish-refines setup (0, 0) b d tick now r t q).1 ∙ published-agrees b now d e
  succeeded-agrees b d tick now (err m) t q e =
      ap (agrees k) (publish-atomic setup b d tick m q) ∙ e

  timed-agrees :
      (b : PublishBatch K R V F J) (d : Store K R V F J) (tick : ℕ) (t : Result ℕ)
      → setup.unix_timestamp ≡ t
      → agrees k d ≡ true
      → agrees k (on_disk (publish setup b (opened d tick)).1) ≡ true
  timed-agrees b d tick (err m) t e =
      ap (λ x. agrees k (on_disk x.1)) (untimed setup b m (opened d tick) t) ∙ e
  timed-agrees b d tick (ok now) t e =
      succeeded-agrees b d tick now (publish setup b (opened d tick)).0 t refl e

-- A publication, whether it succeeds or fails, keeps the tables in agreement: every symbol has its
-- row of the full-text index and no row of the index or vector stands without its symbol, where this
-- was so before.
pub publish-IsConsistent :
    {K R V F J : Type 0} ⦃o : KeyOrd K⦄ (setup : Setup V J) (b : PublishBatch K R V F J)
    (d : Store K R V F J) (tick : ℕ)
    → IsConsistent d
    → IsConsistent (on_disk (publish setup b (opened d tick)).1)
publish-IsConsistent setup b d tick h k =
    timed-agrees setup k b d tick setup.unix_timestamp refl (h k)
