-- ===== src/Publish/Published.antt =====
-- A whole publication: what it has committed where it succeeds, and nothing where it fails.
use cognis.Base.{ℕ, List, [], Option, none, some, length}
use cognis.BtreeMap.{KeyOrd}
use cognis.Sqlite.Effects.{
  Runs, fold, bind-Runs, seq-Runs, pure-Runs, fail-Runs, answer-Runs, query-Runs,
  execute_count-Runs,
}
use cognis.Publish.{
  PublishBatch, as_db_str, covered_paths, Change, Generation, Store, PublishReceipt,
}
use cognis.Publish.Apply.{
  Setup, add_all, upsert_edge_row, vector_delete, upsert_file, enqueue_row, edge_delete,
  queue_delete, file_queue_delete, file_delete, bump, generation_rows, insert_batch,
  insert_batch_file,
}
use cognis.Publish.Steps.{not_equal}
use cognis.Publish.Statements.{read_generation, mutate, record_batch, publish_body}
use cognis.Publish.Refinement.{
  ready-Runs, run-Runs, each-Runs, upsert_symbols-Runs, upsert_edges-Runs, classify_all-Runs,
  collect-Runs, delete_symbols-Runs, with_symbol, erase, changes_of, collected,
}
use cognis.Publish.Space.{existing, with_vectors, vectors-Runs}

-- The two counters of the generation row, with an answer where the row is missing.
abbrev pub generations : ℕ × ℕ → Option Generation → ℕ × ℕ
generations missing none = missing
generations missing (some g) = (g.source_generation, g.semantic_generation)

module _ {K R V F J : Type 0} ⦃o : KeyOrd K⦄ (setup : Setup V J) where
  abbrev pub upserted : PublishBatch K R V F J → ℕ → Store K R V F J → Store K R V F J
  upserted b now d₀ =
      let d₁ = fold upsert_edge_row b.edge_upserts (fold (with_symbol setup) b.symbol_upserts d₀) in
      let d₂ = with_vectors setup b.fingerprint now (existing setup b.vector_upserts d₁) d₁ in
      fold (enqueue_row now) b.queue_enqueue (fold upsert_file b.file_rows d₂)

  -- The symbols that go: those of the batch and those of its deleted files.
  abbrev pub doomed : PublishBatch K R V F J → Store K R V F J → List K
  doomed b d = collected setup b.file_deletes (add_all b.symbol_deletes []) d

  -- The tables after every change of rows.
  abbrev pub mutated : PublishBatch K R V F J → ℕ → Store K R V F J → Store K R V F J
  mutated b now d₀ =
      let d₁ =
        fold vector_delete b.vector_deletes (fold edge_delete b.edge_deletes (upserted b now d₀)) in
      let d₂ = fold queue_delete b.queue_remove d₁ in
      let d₃ = fold (erase setup) (doomed b d₂) d₂ in
      fold file_delete b.file_deletes (fold file_queue_delete b.file_deletes d₃)

  pub mutate-Runs :
      (b : PublishBatch K R V F J) (now : ℕ) → Runs (mutate setup b now) (mutated b now) (λ d. tt)
  unfolding mutate
  mutate-Runs b now = seq-Runs (upsert_symbols-Runs setup b.symbol_upserts) (
      seq-Runs (upsert_edges-Runs setup b.edge_upserts) (
        seq-Runs (vectors-Runs setup b now) (
          seq-Runs (each-Runs setup upsert_file b.file_rows) (
            seq-Runs (each-Runs setup (enqueue_row now) b.queue_enqueue) (
              seq-Runs (each-Runs setup edge_delete b.edge_deletes) (
                seq-Runs (each-Runs setup vector_delete b.vector_deletes) (
                  seq-Runs (each-Runs setup queue_delete b.queue_remove) (
                    seq-Runs (ready-Runs setup) (
                      bind-Runs (collect-Runs setup b.file_deletes (add_all b.symbol_deletes []))
                        (λ ids. seq-Runs (delete_symbols-Runs setup ids) (
                          seq-Runs (each-Runs setup file_queue_delete b.file_deletes)
                            (each-Runs setup file_delete b.file_deletes))))))))))))

  abbrev pub bumped_store : ℕ → Store K R V F J → Store K R V F J
  bumped_store now d = bump (length d.queue) now d

  abbrev pub receipt : ℕ × ℕ → ℕ → List K → Store K R V F J → PublishReceipt K
  receipt missing now files d =
      let g = generations missing (bumped_store now d).generation in
      record {
        source_generation = g.0;
        semantic_generation = g.1;
        pending_vector_count = length d.queue;
        files = files;
      }

  -- The tables with the record of the batch.
  abbrev pub recorded :
      ℕ × ℕ
      → PublishBatch K R V F J
      → ℕ
      → List K
      → List (K × Change)
      → Store K R V F J
      → Store K R V F J
  recorded missing b now files changes d =
      let g = generations missing (bumped_store now d).generation in
      fold (insert_batch_file g.0) changes (
        insert_batch
          (record {
            source_generation = g.0;
            committed_at = now;
            file_count = length files;
            reason = as_db_str b.reason;
          })
          (bumped_store now d))

  pub read_generation-Runs :
      (missing : ℕ × ℕ) (stored : Option Generation)
      → Runs
          (read_generation {K = K} {R = R} {F = F} setup stored)
          (λ d. d)
          (λ d. generations missing stored)
  read_generation-Runs missing none = fail-Runs "Query returned no rows" (λ d. d) (λ d. missing)
  read_generation-Runs missing (some g) = pure-Runs (g.source_generation, g.semantic_generation)

  record_batch-Runs :
      (missing : ℕ × ℕ) (b : PublishBatch K R V F J) (now : ℕ) (files : List K)
      (changes : List (K × Change))
      → Runs
          (record_batch setup b now files changes)
          (recorded missing b now files changes)
          (receipt missing now files)
  unfolding record_batch
  record_batch-Runs missing b now files changes =
      bind-Runs (query-Runs setup.refuses (λ d. length d.queue)) (λ pending.
        bind-Runs (execute_count-Runs setup.refuses (bump pending now) generation_rows) (λ updated.
          seq-Runs
            (answer-Runs (not_equal updated 1)
              (fail-Runs "generation singleton row is missing" (λ d. d) (λ d. tt)) (pure-Runs tt))
            (bind-Runs (query-Runs setup.refuses (λ d. d.generation)) (λ stored.
              bind-Runs (read_generation-Runs missing stored) (λ g.
                seq-Runs
                  (run-Runs setup (
                    insert_batch (record {
                      source_generation = g.0;
                      committed_at = now;
                      file_count = length files;
                      reason = as_db_str b.reason;
                    })))
                  (seq-Runs (each-Runs setup (insert_batch_file g.0) changes) (
                    pure-Runs (record {
                      source_generation = g.0;
                      semantic_generation = g.1;
                      pending_vector_count = pending;
                      files = files;
                    }))))))))

  -- The publication as one change of the database, and its receipt.
  abbrev pub published : ℕ × ℕ → PublishBatch K R V F J → ℕ → Store K R V F J → Store K R V F J
  published missing b now d =
      recorded missing b now (covered_paths b) (changes_of setup b.file_deletes (covered_paths b) d)
        (mutated b now d)

  abbrev pub published_receipt :
      ℕ × ℕ → PublishBatch K R V F J → ℕ → Store K R V F J → PublishReceipt K
  published_receipt missing b now d = receipt missing now (covered_paths b) (mutated b now d)

  pub publish_body-Runs :
      (missing : ℕ × ℕ) (b : PublishBatch K R V F J) (now : ℕ)
      → Runs (publish_body setup b now) (published missing b now) (published_receipt missing b now)
  unfolding publish_body
  publish_body-Runs missing b now = seq-Runs (ready-Runs setup) (
      bind-Runs (classify_all-Runs setup b.file_deletes (covered_paths b)) (λ changes.
        seq-Runs (mutate-Runs b now) (record_batch-Runs missing b now (covered_paths b) changes)))
