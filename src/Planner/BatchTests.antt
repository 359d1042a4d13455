-- ===== src/Planner/BatchTests.antt =====
-- Tests of the batch of a plan and of its publication with numbers for keys, and its theorems there.
use cognis.Base.{ℕ, ◌≡◌, refl, true, false, List, [], ◌∷◌, none, some}
use cognis.BtreeMap.{nat_order, add}
use cognis.Table.{has_key, put, drop_key}
use cognis.Sort.{sort_by, place}
use cognis.Sqlite.{ok, opened, on_disk, query, execute, execute_count, with_write_txn, for_each}
use cognis.Publish.{
  FileCacheRow, parsed, Symbol, Edge, PublishBatch, incremental, empty, Store, PublishReceipt,
  covered_paths, dedup, dedup_after,
}
use cognis.Publish.Apply.{contains, add_all, Setup, drop_edge, drop_outbound, flag_inbound}
use cognis.Publish.Steps.{each}
use cognis.Publish.Vectors.{upsert_vector_space_and_vectors, existing_rows, write_rows}
use cognis.Publish.Statements.{
  publish, publish_body, classify_all, classify, mutate, record_batch, upsert_symbols,
  upsert_symbol, upsert_edges, collect_file_symbol_ids, delete_symbols, delete_symbol,
}
use cognis.Publish.Deleted.{holds_symbol}
use cognis.Planner.Scan.{PlannedFile}
use cognis.Planner.Batch.{
  Queries, gather, assemble, sort_batch, stale, without_keys, has_edge_key, is_owned, dedup_keys,
  dedup_keys_after, build_batch, old_of, ids,
}
use cognis.Planner.Stale.{Partitioned, build_batch-Partitioned}
use cognis.Planner.Applied.{build_batch-publish}

abbrev row_five : FileCacheRow ℕ
row_five = record {
  path = 5;
  language = "rust";
  size_bytes = 10;
  content_hash = "h";
  parsed_at = 100;
  parse_status = parsed;
}

abbrev symbol : ℕ → Symbol ℕ ℕ
symbol id = record {
  id = id;
  name = "f";
  qualified_name = "module.f";
  file_path = 5;
  signature = none;
  docstring = none;
  body_excerpt = none;
  rest = 0;
}

abbrev calls : Edge ℕ ℕ ℕ
calls = record { src_id = 1; dst_id = 2; kind = "calls"; confidence = 1; meta = 0 }

abbrev queries : Queries ℕ ℕ ℕ ℕ
queries = record {
  symbol_ids_in_file = λ p. ok [];
  symbols_in_file = λ p. ok [];
  outgoing_edges = λ ks. ok (calls ∷ []);
  bounded_resolver_symbols = λ ss ps. ok ss;
  resolve_edges = λ ss. [];
}

-- File 5 had the symbols 1 and 2 and has the symbol 1.
abbrev changed_five : List (ℕ × PlannedFile ℕ (Symbol ℕ ℕ))
changed_five =
    (5, record { row = row_five; symbols = symbol 1 ∷ []; old_symbols = symbol 2 ∷ symbol 1 ∷ [] })
    ∷ []

abbrev batch : PublishBatch ℕ ℕ ℕ ℕ ℕ
batch = record (empty incremental) {
  symbol_upserts = symbol 1 ∷ [];
  symbol_deletes = 2 ∷ [];
  edge_deletes = (1, 2, "calls") ∷ [];
  vector_deletes = 2 ∷ [];
  file_rows = row_five ∷ [];
  queue_enqueue = record { symbol_id = 1; file_path = 5 } ∷ [];
  queue_remove = 2 ∷ [];
}

built : build_batch queries incremental changed_five [] ≡ ok batch
unfolding build_batch gather assemble sort_batch stale without_keys has_edge_key is_owned contains
    add dedup dedup_after dedup_keys dedup_keys_after sort_by place
built = refl

build_batch-Partitioned_example : Partitioned 2 (old_of changed_five) batch
build_batch-Partitioned_example =
    build_batch-Partitioned queries incremental changed_five [] batch 2 built

abbrev setup : Setup ℕ ℕ
setup = record {
  refuses = λ n. none;
  unix_timestamp = ok 100;
  vector_len = λ v. 4;
  dst_missing = λ j. j;
  vec_ext_ok = false;
  wrong_dim = λ n m. "wrong dimension";
}

abbrev store : Store ℕ ℕ ℕ ℕ ℕ
store = record {
  symbols = (1, symbol 1) ∷ (2, symbol 2) ∷ [];
  fts = [];
  edges = calls ∷ [];
  vectors = [];
  vector_space = none;
  is_vec0 = false;
  vec_dim = none;
  files = [];
  queue = [];
  generation = some (record { source_generation = 6; semantic_generation = 6; updated_at = 0 });
  batches = [];
  batch_files = [];
}

abbrev received : PublishReceipt ℕ
received = record {
  source_generation = 7;
  semantic_generation = 6;
  pending_vector_count = 1;
  files = 5 ∷ [];
}

received_by : (publish setup batch (opened store 0)).0 ≡ ok received
unfolding publish publish_body classify_all classify mutate record_batch upsert_symbols
    upsert_symbol upsert_edges upsert_vector_space_and_vectors existing_rows write_rows each
    collect_file_symbol_ids delete_symbols delete_symbol query execute execute_count with_write_txn
    for_each covered_paths dedup dedup_after sort_by place contains add_all put drop_key drop_edge
    drop_outbound flag_inbound has_key add
received_by = refl

old_two : contains 2 (ids (old_of changed_five)) ≡ true
unfolding contains
old_two = refl

not_written : contains 2 (ids batch.symbol_upserts) ≡ false
unfolding contains
not_written = refl

build_batch-publish_example :
    holds_symbol 2 (on_disk (publish setup batch (opened store 0)).1) ≡ false
build_batch-publish_example =
    build_batch-publish queries incremental changed_five [] batch setup store 0 100 received 2 built
      refl received_by old_two not_written
