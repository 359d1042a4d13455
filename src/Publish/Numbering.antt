-- ===== src/Publish/Numbering.antt =====
-- How a publication numbers the generation.
use cognis.Base.{
  ℕ, ◌+◌, ◌≡◌, refl, sym, ap, ◌∙◌, List, [], ◌∷◌, Option, none, some, ◌==◌, length, if◌then◌else◌,
  arith,
}
use cognis.BtreeMap.{KeyOrd}
use cognis.Sqlite.{opened, on_disk, ok}
use cognis.Sqlite.Effects.{fold}
use cognis.Publish.{
  VectorSpaceFingerprint, PublishBatch, covered_paths, Generation, Store, PublishReceipt,
}
use cognis.Publish.Apply.{
  Setup, upsert_edge_row, vector_delete, upsert_file, enqueue_row, edge_delete, queue_delete,
  file_queue_delete, file_delete, insert_batch_file, bumped,
}
use cognis.Publish.Statements.{publish}
use cognis.Publish.Refinement.{with_symbol, with_vector, erase, changes_of}
use cognis.Publish.Space.{existing, with_vectors, installed}
use cognis.Publish.Published.{mutated, published, upserted, doomed, generations, bumped_store}
use cognis.Publish.Outcome.{publish-refines}
use cognis.Publish.Kept.{fold-keeps, installed-keeps}

abbrev pub source_of : Option Generation → ℕ
source_of none = 0
source_of (some g) = g.source_generation

abbrev pub semantic_of : Option Generation → ℕ
semantic_of none = 0
semantic_of (some g) = g.semantic_generation

published_numbers :
    {K : Type 0} (now n : ℕ) (g g' : Option Generation) (r : PublishReceipt K) (files : List K)
    → r ≡ record {
      source_generation = (generations (0, 0) g').0;
      semantic_generation = (generations (0, 0) g').1;
      pending_vector_count = n;
      files = files;
    }
    → r.source_generation ≡ (generations (1, 1) g').0
    → g' ≡ bumped n now g
    → (r.source_generation ≡ source_of g + 1)
      × (r.semantic_generation ≡ (if n == 0 then r.source_generation else semantic_of g))
      × (g'
          ≡ some (record {
            source_generation = r.source_generation;
            semantic_generation = r.semantic_generation;
            updated_at = now;
          }))
      × (r.pending_vector_count ≡ n)
published_numbers now n none g' r files e f h = ground (arith, e, f, h)
published_numbers now n (some g) g' r files e f h = ground (arith, e, f, h)

module _ {K R V F J : Type 0} ⦃o : KeyOrd K⦄ (setup : Setup V J) where
  with_vectors-generation :
      (f : Option VectorSpaceFingerprint) (now : ℕ) (rows : List (K × V)) (d : Store K R V F J)
      → (with_vectors setup f now rows d).generation ≡ d.generation
  with_vectors-generation f now [] d = refl
  with_vectors-generation f now (row ∷ rows) d =
      fold-keeps (λ d. d.generation) (with_vector setup) (λ x d. refl) (row ∷ rows)
        (installed setup f d.vector_space now d)
      ∙ installed-keeps setup (λ d. d.generation) (λ x d. refl) (λ n d. refl) (λ d. refl)
          (λ g n d. refl) f d.vector_space now d

  upserted-generation :
      (b : PublishBatch K R V F J) (now : ℕ) (d : Store K R V F J)
      → (upserted setup b now d).generation ≡ d.generation
  upserted-generation b now d =
      let d₁ = fold upsert_edge_row b.edge_upserts (fold (with_symbol setup) b.symbol_upserts d) in
      let d₂ = with_vectors setup b.fingerprint now (existing setup b.vector_upserts d₁) d₁ in
      fold-keeps (λ d. d.generation) (enqueue_row now) (λ x d. refl) b.queue_enqueue
        (fold upsert_file b.file_rows d₂)
      ∙ fold-keeps (λ d. d.generation) upsert_file (λ x d. refl) b.file_rows d₂
      ∙ with_vectors-generation b.fingerprint now (existing setup b.vector_upserts d₁) d₁
      ∙ fold-keeps (λ d. d.generation) upsert_edge_row (λ x d. refl) b.edge_upserts
          (fold (with_symbol setup) b.symbol_upserts d)
      ∙ fold-keeps (λ d. d.generation) (with_symbol setup) (λ x d. refl) b.symbol_upserts d

  pub mutated-generation :
      (b : PublishBatch K R V F J) (now : ℕ) (d : Store K R V F J)
      → (mutated setup b now d).generation ≡ d.generation
  mutated-generation b now d =
      let d₀ = upserted setup b now d in
      let d₁ = fold edge_delete b.edge_deletes d₀ in
      let d₂ = fold vector_delete b.vector_deletes d₁ in
      let d₃ = fold queue_delete b.queue_remove d₂ in
      let d₄ = fold (erase setup) (doomed setup b d₃) d₃ in
      fold-keeps (λ d. d.generation) file_delete (λ x d. refl) b.file_deletes
        (fold file_queue_delete b.file_deletes d₄)
      ∙ fold-keeps (λ d. d.generation) file_queue_delete (λ x d. refl) b.file_deletes d₄
      ∙ fold-keeps (λ d. d.generation) (erase setup) (λ x d. refl) (doomed setup b d₃) d₃
      ∙ fold-keeps (λ d. d.generation) queue_delete (λ x d. refl) b.queue_remove d₂
      ∙ fold-keeps (λ d. d.generation) vector_delete (λ x d. refl) b.vector_deletes d₁
      ∙ fold-keeps (λ d. d.generation) edge_delete (λ x d. refl) b.edge_deletes d₀
      ∙ upserted-generation b now d

  published-generation :
      (missing : ℕ × ℕ) (b : PublishBatch K R V F J) (now : ℕ) (d : Store K R V F J)
      → (published setup missing b now d).generation
        ≡ bumped (length (mutated setup b now d).queue) now (mutated setup b now d).generation
  published-generation missing b now d =
      fold-keeps (λ (d : Store K R V F J). d.generation)
        (insert_batch_file
          (generations missing (bumped_store setup now (mutated setup b now d)).generation).0)
        (λ x d. refl) (changes_of setup b.file_deletes (covered_paths b) d) _

  published-queue :
      (missing : ℕ × ℕ) (b : PublishBatch K R V F J) (now : ℕ) (d : Store K R V F J)
      → (published setup missing b now d).queue ≡ (mutated setup b now d).queue
  published-queue missing b now d =
      fold-keeps (λ (d : Store K R V F J). d.queue)
        (insert_batch_file
          (generations missing (bumped_store setup now (mutated setup b now d)).generation).0)
        (λ x d. refl) (changes_of setup b.file_deletes (covered_paths b) d) _

  -- A publication that succeeds found the generation row. It adds one to the source generation; the
  -- semantic generation follows it exactly where no vector is left to compute, and otherwise stays.
  -- The row on disk and the receipt carry these numbers, and the receipt counts the rows of the queue
  -- on disk.
  pub publish-numbers :
      (b : PublishBatch K R V F J) (d : Store K R V F J) (tick now : ℕ) (r : PublishReceipt K)
      → setup.unix_timestamp ≡ ok now
      → (publish setup b (opened d tick)).0 ≡ ok r
      → (r.source_generation ≡ source_of d.generation + 1)
        × (r.semantic_generation ≡ (
            if r.pending_vector_count == 0 then r.source_generation else semantic_of d.generation))
        × ((on_disk (publish setup b (opened d tick)).1).generation
            ≡ some (record {
              source_generation = r.source_generation;
              semantic_generation = r.semantic_generation;
              updated_at = now;
            }))
        × (r.pending_vector_count ≡ length (on_disk (publish setup b (opened d tick)).1).queue)
  publish-numbers b d tick now r t e =
      let (p, q) = publish-refines setup (0, 0) b d tick now r t e in
      let (p', q') = publish-refines setup (1, 1) b d tick now r t e in
      let n = length (mutated setup b now d).queue in
      let (source, semantic, row, pending) =
        published_numbers now n d.generation (bumped n now (mutated setup b now d).generation) r
          (covered_paths b) p (ap (λ r. r.source_generation) p')
          (ap (bumped n now) (mutated-generation b now d)) in
      (
        source,
        semantic
            ∙ ap (λ k. if k == 0 then r.source_generation else semantic_of d.generation)
                (sym pending),
        ap (λ d. d.generation) q ∙ published-generation (0, 0) b now d ∙ row,
        pending ∙ sym (ap (λ d. length d.queue) q ∙ ap length (published-queue (0, 0) b now d)),
      )
