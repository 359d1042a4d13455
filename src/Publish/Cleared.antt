-- ===== src/Publish/Cleared.antt =====
-- What a publication deletes, a symbol or a file, is in no table afterwards.
use cognis.Base.{
  ℕ, ◌≡◌, refl, ap, subst, ◌∙◌, true, false, ◌||◌, ◌&&◌, not, List, [], ◌∷◌, arith, Bool-cases, inl,
  inr,
}
use cognis.BtreeMap.{KeyOrd}
use cognis.Table.{has_key, has_key-drop_key}
use cognis.Sqlite.{opened, on_disk, ok}
use cognis.Sqlite.Effects.{fold}
use cognis.Publish.{PublishBatch, covered_paths, Store, PublishReceipt, none_in}
use cognis.Publish.Apply.{
  Setup, contains, vector_delete, edge_delete, queue_delete, file_queue_delete, file_delete,
  insert_batch_file, ids_in_file, add_all,
}
use cognis.Publish.Statements.{publish}
use cognis.Publish.Refinement.{erase, changes_of, collected}
use cognis.Publish.Published.{mutated, upserted, doomed, generations, bumped_store}
use cognis.Publish.Outcome.{publish-refines}
use cognis.Publish.Kept.{fold-keeps}
use cognis.Publish.Consistency.{fold-invariant}
use cognis.Publish.Deleted.{
  eq_refl, contains-add_all, contains-drop_key, queued_in-drop, collected-keeps,
  mutated-symbol_deletes, fold-hits, holds_symbol, holds_file, queued_in,
}

module _ {K : Type 0} ⦃o : KeyOrd K⦄ where
  empty_of : (ks : List K) → ((k : K) → contains k ks ≡ false) → none_in ks ≡ true
  unfolding contains
  empty_of [] h = refl
  empty_of (k ∷ ks) h = ground (arith, h k, eq_refl k)

module _ {K R V F J : Type 0} ⦃o : KeyOrd K⦄ (setup : Setup V J) where
  collected-contains :
      (p k : K) (ps ids : List K) (d : Store K R V F J)
      → contains p ps ≡ true
      → contains k (ids_in_file p d.symbols) ≡ true
      → contains k (collected setup ps ids d) ≡ true
  unfolding contains
  collected-contains p k [] ids d c e = ground (arith, c)
  collected-contains p k (q ∷ ps) ids d c e = elim (Bool-cases (o.eq p q)) [
    | inl t ↦ collected-keeps setup k ps (add_all (ids_in_file q d.symbols) ids) d (
        contains-add_all k (ids_in_file q d.symbols) ids
        ∙ ap (λ x. x || contains k ids)
            (subst (λ q. contains k (ids_in_file q d.symbols) ≡ true) ((o.eq_iff p q).0 t) e))
    | inr f ↦
        collected-contains p k ps (add_all (ids_in_file q d.symbols) ids) d (ground (arith, c, f)) e
  ]

  ids_in_file-erase :
      (p k : K) (ids : List K) (d : Store K R V F J)
      → contains k (ids_in_file p (fold (erase setup) ids d).symbols)
        ≡ (not (contains k ids) && contains k (ids_in_file p d.symbols))
  unfolding contains
  ids_in_file-erase p k [] d = refl
  ids_in_file-erase p k (j ∷ ids) d =
      ground (arith, ids_in_file-erase p k ids (erase setup j d), contains-drop_key p k j d.symbols)

  doomed-symbols :
      (b : PublishBatch K R V F J) (p : K) (d : Store K R V F J)
      → contains p b.file_deletes ≡ true
      → none_in (ids_in_file p (fold (erase setup) (doomed setup b d) d).symbols) ≡ true
  doomed-symbols b p d c =
      empty_of (ids_in_file p (fold (erase setup) (doomed setup b d) d).symbols) (λ k. ground (
        arith,
        c,
        ids_in_file-erase p k (doomed setup b d) d,
        collected-contains p k b.file_deletes (add_all b.symbol_deletes []) d c,
      ))

  mutated-file_deletes :
      (b : PublishBatch K R V F J) (now : ℕ) (d : Store K R V F J) (p : K)
      → contains p b.file_deletes ≡ true
      → holds_file p (mutated setup b now d) ≡ false
  mutated-file_deletes b now d p c =
      let d₁ =
        fold vector_delete b.vector_deletes
          (fold edge_delete b.edge_deletes (upserted setup b now d)) in
      let d₃ = fold queue_delete b.queue_remove d₁ in
      let d₄ = fold (erase setup) (doomed setup b d₃) d₃ in
      let d₅ = fold file_queue_delete b.file_deletes d₄ in
      let files =
        fold-hits (λ (d : Store K R V F J). has_key p d.files ≡ false) file_delete p
          (λ d. ground (arith, eq_refl p, has_key-drop_key p p d.files))
          (λ j d e. ground (arith, e, has_key-drop_key p j d.files)) b.file_deletes d₅ c in
      let queue =
        fold-hits (λ (d : Store K R V F J). queued_in p d.queue ≡ false) file_queue_delete p
          (λ d. ground (arith, eq_refl p, queued_in-drop p p d.queue))
          (λ j d e. ground (arith, e, queued_in-drop p j d.queue)) b.file_deletes d₄ c in
      let symbols =
        ap (λ m. none_in (ids_in_file p m))
          (fold-keeps (λ (d : Store K R V F J). d.symbols) file_delete (λ x d. refl) b.file_deletes
              d₅
            ∙ fold-keeps (λ (d : Store K R V F J). d.symbols) file_queue_delete (λ x d. refl)
                b.file_deletes d₄)
        ∙ doomed-symbols b p d₃ c in
      let kept =
        fold-keeps (λ (d : Store K R V F J). d.queue) file_delete (λ x d. refl) b.file_deletes d₅ in
      ground (arith, files, queue, symbols, kept)

  -- After a publication that succeeds, a symbol that the batch deletes has no row among the symbols,
  -- in the full-text index, among the vectors and in the queue, and no edge leaves it.
  pub publish-symbol_deletes :
      (b : PublishBatch K R V F J) (d : Store K R V F J) (tick now : ℕ) (r : PublishReceipt K)
      (k : K)
      → setup.unix_timestamp ≡ ok now
      → (publish setup b (opened d tick)).0 ≡ ok r
      → contains k b.symbol_deletes ≡ true
      → holds_symbol k (on_disk (publish setup b (opened d tick)).1) ≡ false
  publish-symbol_deletes b d tick now r k t e c =
      let g = (generations (0, 0) (bumped_store setup now (mutated setup b now d)).generation).0 in
      ap (holds_symbol k) (publish-refines setup (0, 0) b d tick now r t e).1
      ∙ fold-invariant (λ (d : Store K R V F J). holds_symbol k d ≡ false) (insert_batch_file g)
          (λ x d p. p) (changes_of setup b.file_deletes (covered_paths b) d) _
          (mutated-symbol_deletes setup b now d k c)

  -- After a publication that succeeds, a file that the batch deletes has no row in the file table, no
  -- symbol of the table lies in it, and no row of the queue names it.
  pub publish-file_deletes :
      (b : PublishBatch K R V F J) (d : Store K R V F J) (tick now : ℕ) (r : PublishReceipt K)
      (p : K)
      → setup.unix_timestamp ≡ ok now
      → (publish setup b (opened d tick)).0 ≡ ok r
      → contains p b.file_deletes ≡ true
      → holds_file p (on_disk (publish setup b (opened d tick)).1) ≡ false
  publish-file_deletes b d tick now r p t e c =
      let g = (generations (0, 0) (bumped_store setup now (mutated setup b now d)).generation).0 in
      ap (holds_file p) (publish-refines setup (0, 0) b d tick now r t e).1
      ∙ fold-invariant (λ (d : Store K R V F J). holds_file p d ≡ false) (insert_batch_file g)
          (λ x d q. q) (changes_of setup b.file_deletes (covered_paths b) d) _
          (mutated-file_deletes b now d p c)
