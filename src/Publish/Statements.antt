-- ===== src/Publish/Statements.antt =====
-- The sequence of statements of one publication, in one write transaction. The test hooks between
-- them are left out: outside tests they do nothing.
use cognis.Base.{ℕ, List, [], ◌∷◌, Option, none, some, length, if◌then◌else◌}
use cognis.BtreeMap.{KeyOrd}
use cognis.Table.{has_key}
use cognis.Sqlite.{ok, err, Io, ◌>>=◌, ◌>>◌, pure, fail, for_each, execute_count, with_write_txn}
use cognis.Publish.{
  Symbol, Edge, PublishBatch, as_db_str, covered_paths, Change, removed, changed, added, Generation,
  Store, PublishReceipt,
}
use cognis.Publish.Apply.{
  Setup, contains, add_all, ids_in_file, upsert_row, fts_delete, fts_insert, upsert_edge_row,
  vector_delete, upsert_file, enqueue_row, edge_delete, queue_delete, symbol_delete,
  outbound_delete, inbound_flag, file_queue_delete, file_delete, bump, generation_rows,
  insert_batch, insert_batch_file,
}
use cognis.Publish.Steps.{run, ask, ready, each, not_equal}
use cognis.Publish.Vectors.{upsert_vector_space_and_vectors}

module _ {K R V F J : Type 0} ⦃o : KeyOrd K⦄ (setup : Setup V J) where
  unfoldable pub classify : List K → K → Io (Store K R V F J) Change
  classify deletes p =
      if contains p deletes
      then pure removed
      else ask setup (λ d. if has_key p d.files then changed else added)

  unfoldable pub classify_all : List K → List K → Io (Store K R V F J) (List (K × Change))
  unfolding classify
  classify_all deletes [] = pure []
  classify_all deletes (p ∷ ps) = do
    c ← classify deletes p
    rest ← classify_all deletes ps
    pure ((p, c) ∷ rest)

  unfoldable pub upsert_symbol : Symbol K R → Io (Store K R V F J) (Unit {0})
  upsert_symbol s = do
    run setup (upsert_row s)
    run setup (fts_delete s.id)
    run setup (fts_insert s)

  unfoldable pub upsert_symbols : List (Symbol K R) → Io (Store K R V F J) (Unit {0})
  unfolding upsert_symbol
  upsert_symbols [] = pure tt
  upsert_symbols (s ∷ ss) = do
    ready setup
    ready setup
    ready setup
    for_each upsert_symbol (s ∷ ss)

  unfoldable pub upsert_edges : List (Edge K F J) → Io (Store K R V F J) (Unit {0})
  upsert_edges es = do ready setup; for_each (λ e. run setup (upsert_edge_row e)) es

  unfoldable pub collect_file_symbol_ids : List K → List K → Io (Store K R V F J) (List K)
  collect_file_symbol_ids [] ids = pure ids
  collect_file_symbol_ids (p ∷ ps) ids = do
    found ← ask setup (λ d. ids_in_file p d.symbols)
    collect_file_symbol_ids ps (add_all found ids)

  unfoldable pub delete_symbol : K → Io (Store K R V F J) (Unit {0})
  delete_symbol k = do
    run setup (symbol_delete k)
    run setup (fts_delete k)
    run setup (vector_delete k)
    run setup (queue_delete k)
    run setup (outbound_delete k)
    run setup (inbound_flag setup.dst_missing k)

  unfoldable pub delete_symbols : List K → Io (Store K R V F J) (Unit {0})
  unfolding delete_symbol
  delete_symbols ks = do
    ready setup
    ready setup
    ready setup
    ready setup
    ready setup
    ready setup
    for_each delete_symbol ks

  abbrev pub read_generation : Option Generation → Io (Store K R V F J) (ℕ × ℕ)
  read_generation none = fail "Query returned no rows"
  read_generation (some g) = pure (g.source_generation, g.semantic_generation)

  unfoldable pub mutate : PublishBatch K R V F J → ℕ → Io (Store K R V F J) (Unit {0})
  unfolding upsert_symbols upsert_edges upsert_vector_space_and_vectors each collect_file_symbol_ids
      delete_symbols
  mutate b now = do
    upsert_symbols b.symbol_upserts
    upsert_edges b.edge_upserts
    upsert_vector_space_and_vectors setup b now
    each setup upsert_file b.file_rows
    each setup (enqueue_row now) b.queue_enqueue
    each setup edge_delete b.edge_deletes
    each setup vector_delete b.vector_deletes
    each setup queue_delete b.queue_remove
    ready setup
    ids ← collect_file_symbol_ids b.file_deletes (add_all b.symbol_deletes [])
    delete_symbols ids
    each setup file_queue_delete b.file_deletes
    each setup file_delete b.file_deletes

  unfoldable pub record_batch :
      PublishBatch K R V F J
      → ℕ
      → List K
      → List (K × Change)
      → Io (Store K R V F J) (PublishReceipt K)
  record_batch b now files changes = do
    pending ← ask setup (λ d. length d.queue)
    updated ← execute_count setup.refuses (bump pending now) generation_rows
    (if not_equal updated 1 then fail "generation singleton row is missing" else pure tt)
    stored ← ask setup (λ d. d.generation)
    generations ← read_generation stored
    run setup (
        insert_batch (record {
          source_generation = generations.0;
          committed_at = now;
          file_count = length files;
          reason = as_db_str b.reason;
        }))
    each setup (insert_batch_file generations.0) changes
    pure (record {
      source_generation = generations.0;
      semantic_generation = generations.1;
      pending_vector_count = pending;
      files = files;
    })

  unfoldable pub publish_body : PublishBatch K R V F J → ℕ → Io (Store K R V F J) (PublishReceipt K)
  unfolding classify_all mutate record_batch
  publish_body b now = do
    ready setup
    changes ← classify_all b.file_deletes (covered_paths b)
    mutate b now
    record_batch b now (covered_paths b) changes

  unfoldable pub publish : PublishBatch K R V F J → Io (Store K R V F J) (PublishReceipt K)
  unfolding publish_body
  publish b c = elim setup.unix_timestamp [
    | err e ↦ (err e, c)
    | ok now ↦ with_write_txn setup.refuses (publish_body b now) c
  ]
