-- ===== src/Publish/Liveness.antt =====
-- A publication is not refused for ever: where SQLite takes every statement, the generation row is
-- there and the vectors fit their space, it succeeds.
use cognis.Base.{
  ℕ, ◌≡◌, refl, sym, ap, subst, ◌∙◌, true, List, [], Option, none, some, length, arith,
}
use cognis.BtreeMap.{KeyOrd}
use cognis.Sqlite.{opened, ok}
use cognis.Sqlite.Effects.{pure-Runs, fail-Runs, answer-Runs, query-Runs, execute_count-Runs}
use cognis.Sqlite.Success.{
  is_ok, Succeeds, weaken, bind-Always, bind-Succeeds, seq-Always, seq-Succeeds, pure-Always,
  query-Always, execute_count-Always, with_write_txn-Succeeds,
}
use cognis.Publish.{PublishBatch, as_db_str, covered_paths, Change, Generation, Store}
use cognis.Publish.Apply.{
  Setup, add_all, upsert_edge_row, vector_delete, upsert_file, enqueue_row, edge_delete,
  queue_delete, file_queue_delete, file_delete, bump, generation_rows, insert_batch,
  insert_batch_file,
}
use cognis.Publish.Steps.{not_equal}
use cognis.Publish.Statements.{read_generation, mutate, record_batch, publish_body, publish}
use cognis.Publish.Refinement.{
  ready-Runs, upsert_symbols-Runs, upsert_edges-Runs, classify_all-Runs, with_symbol,
}
use cognis.Publish.Space.{vectors-Runs}
use cognis.Publish.Published.{mutate-Runs, read_generation-Runs}
use cognis.Publish.Outcome.{timed}
use cognis.Publish.Kept.{fold-keeps}
use cognis.Publish.Success.{PersistedFit, rows_fit, space_dim, vectors-Succeeds}
use cognis.Publish.Numbering.{mutated-generation}
use cognis.Publish.Accepted.{
  ready-Always, run-Always, each-Always, upsert_symbols-Always, upsert_edges-Always,
  classify_all-Always, collect-Always, delete_symbols-Always,
}

zero-ne-one : ◌≡◌ {A = ℕ} 0 1 → ⊥
zero-ne-one e = omega arith

-- The rows of the generation table.
abbrev pub found : Option Generation → ℕ
found none = 0
found (some g) = 1

module _ {K R V F J : Type 0} ⦃o : KeyOrd K⦄ (setup : Setup V J)
    (never : (n : ℕ) → setup.refuses n ≡ none) where
  mutate-Succeeds :
      (b : PublishBatch K R V F J) (now : ℕ)
      → Succeeds {D = Store K R V F J}
          (λ d. PersistedFit setup.vector_len b.fingerprint b.vector_upserts d.vector_space)
          (mutate setup b now)
  unfolding mutate
  mutate-Succeeds b now =
      let P = λ (d : Store K R V F J).
        PersistedFit setup.vector_len b.fingerprint b.vector_upserts d.vector_space in
      let fit = PersistedFit setup.vector_len b.fingerprint b.vector_upserts in
      seq-Succeeds P P (upsert_symbols-Runs setup b.symbol_upserts)
        (weaken P (upsert_symbols-Always setup never b.symbol_upserts))
        (seq-Succeeds P P (upsert_edges-Runs setup b.edge_upserts)
          (weaken P (upsert_edges-Always setup never b.edge_upserts))
          (seq-Succeeds P (λ d. Unit) (vectors-Runs setup b now)
            (vectors-Succeeds setup never b now)
            (weaken (λ d. Unit)
              (seq-Always (each-Always setup never upsert_file b.file_rows) (
                seq-Always (each-Always setup never (enqueue_row now) b.queue_enqueue) (
                  seq-Always (each-Always setup never edge_delete b.edge_deletes) (
                    seq-Always (each-Always setup never vector_delete b.vector_deletes) (
                      seq-Always (each-Always setup never queue_delete b.queue_remove) (
                        seq-Always (ready-Always setup never) (
                          bind-Always
                            (collect-Always setup never b.file_deletes
                              (add_all b.symbol_deletes []))
                            (λ ids. seq-Always (delete_symbols-Always setup never ids) (
                              seq-Always (each-Always setup never file_queue_delete b.file_deletes)
                                (each-Always setup never file_delete b.file_deletes)))))))))))
            (λ d p. tt))
          (λ d p.
            subst fit
              (sym (
                fold-keeps (λ (d : Store K R V F J). d.vector_space) upsert_edge_row (λ x d. refl)
                  b.edge_upserts d))
              p))
        (λ d p.
          subst fit
            (sym (
              fold-keeps (λ (d : Store K R V F J). d.vector_space) (with_symbol setup) (λ x d. refl)
                b.symbol_upserts d))
            p)

  read_generation-Succeeds :
      (stored : Option Generation)
      → Succeeds {D = Store K R V F J} (λ d. found stored ≡ 1) (read_generation setup stored)
  read_generation-Succeeds none = record { succeeds = λ c p. absurd (zero-ne-one p) }
  read_generation-Succeeds (some g) = record { succeeds = λ c p. refl }

  found_rows : (d : Store K R V F J) → generation_rows d ≡ found d.generation
  found_rows d = ground arith

  bump-found :
      (pending now : ℕ) (d : Store K R V F J)
      → found d.generation ≡ 1
      → (generation_rows d ≡ 1) × (found (bump pending now d).generation ≡ 1)
  bump-found pending now d p = ground (arith, p)

  record_batch-Succeeds :
      (b : PublishBatch K R V F J) (now : ℕ) (files : List K) (changes : List (K × Change))
      → Succeeds {D = Store K R V F J}
          (λ d. found d.generation ≡ 1)
          (record_batch setup b now files changes)
  unfolding record_batch
  record_batch-Succeeds b now files changes =
      let P = λ (d : Store K R V F J). found d.generation ≡ 1 in
      bind-Succeeds P (λ pending. P) (query-Runs setup.refuses (λ d. length d.queue))
        (weaken P (query-Always setup.refuses never (λ d. length d.queue)))
        (λ pending.
          bind-Succeeds P (λ updated d. (updated ≡ 1) × P d)
            (execute_count-Runs setup.refuses (bump pending now) generation_rows)
            (weaken P (execute_count-Always setup.refuses never (bump pending now) generation_rows))
            (λ updated.
              seq-Succeeds (λ d. (updated ≡ 1) × P d) P
                (answer-Runs (not_equal updated 1)
                  (fail-Runs "generation singleton row is missing" (λ d. d) (λ d. tt))
                  (pure-Runs tt))
                (record { succeeds = λ c p. ground (arith, p) })
                (bind-Succeeds P (λ stored d. found stored ≡ 1)
                  (query-Runs setup.refuses (λ d. d.generation))
                  (weaken P (query-Always setup.refuses never (λ d. d.generation)))
                  (λ stored.
                    bind-Succeeds (λ d. found stored ≡ 1) (λ g d. Unit)
                      (read_generation-Runs setup (0, 0) stored) (read_generation-Succeeds stored)
                      (λ g.
                        weaken (λ d. Unit)
                          (seq-Always
                            (run-Always setup never (
                              insert_batch (record {
                                source_generation = g.0;
                                committed_at = now;
                                file_count = length files;
                                reason = as_db_str b.reason;
                              })))
                            (seq-Always (each-Always setup never (insert_batch_file g.0) changes) (
                              pure-Always (record {
                                source_generation = g.0;
                                semantic_generation = g.1;
                                pending_vector_count = pending;
                                files = files;
                              })))))
                      (λ d p. tt))
                  (λ d p. p))
                (λ d p. p.1))
            (λ d p. bump-found pending now d p))
        (λ d p. p)

  abbrev Admits : PublishBatch K R V F J → Store K R V F J → Type 0
  Admits b d =
      PersistedFit setup.vector_len b.fingerprint b.vector_upserts d.vector_space
      × (found d.generation ≡ 1)

  publish_body-Succeeds :
      (b : PublishBatch K R V F J) (now : ℕ) → Succeeds (Admits b) (publish_body setup b now)
  unfolding publish_body
  publish_body-Succeeds b now =
      seq-Succeeds (Admits b) (Admits b) (ready-Runs setup)
        (weaken (Admits b) (ready-Always setup never))
        (bind-Succeeds (Admits b) (λ changes. Admits b)
          (classify_all-Runs setup b.file_deletes (covered_paths b))
          (weaken (Admits b) (classify_all-Always setup never b.file_deletes (covered_paths b)))
          (λ changes.
            seq-Succeeds (Admits b) (λ d. found d.generation ≡ 1) (mutate-Runs setup b now)
              (record { succeeds = λ c p. (mutate-Succeeds b now).succeeds c p.0 })
              (record_batch-Succeeds b now (covered_paths b) changes)
              (λ d p. ap found (mutated-generation setup b now d) ∙ p.1))
          (λ d p. p))
        (λ d p. p)

-- Where the clock is read, SQLite refuses no statement, the generation row is there and the vectors
-- have the dimension of the batch's space or else of the stored one, the publication succeeds.
pub publish-succeeds :
    {K R V F J : Type 0} ⦃o : KeyOrd K⦄ (setup : Setup V J) (b : PublishBatch K R V F J)
    (d : Store K R V F J) (tick now : ℕ)
    → ((n : ℕ) → setup.refuses n ≡ none)
    → setup.unix_timestamp ≡ ok now
    → found d.generation ≡ 1
    → rows_fit setup.vector_len (space_dim b.fingerprint d.vector_space) b.vector_upserts ≡ true
    → is_ok (publish setup b (opened d tick)).0 ≡ true
publish-succeeds setup b d tick now never t g f =
    ap (λ x. is_ok x.0) (timed setup b now (opened d tick) t)
    ∙ with_write_txn-Succeeds setup.refuses never (Admits setup never b) (publish_body setup b now)
        d tick (publish_body-Succeeds setup never b now) (f, g)
