-- ===== src/Publish/Tests.antt =====
-- Tests of the publication with numbers for keys and rows, and its theorems there.
use Prim.Native.String.{String}
use cognis.Base.{
  ℕ, suc, ◌≡◌, ◌↔◌, refl, true, false, [], ◌∷◌, Option, none, some, arith, ◌==◌, if◌then◌else◌,
  length, ◌+◌,
}
use cognis.BtreeMap.{nat_order, add}
use cognis.Sort.{place, sort_by}
use cognis.Table.{has_key, put, drop_key}
use cognis.Sqlite.{
  opened, ok, err, on_disk, query, execute, execute_count, with_write_txn, for_each,
}
use cognis.Sqlite.Success.{is_ok}
use cognis.Publish.{
  Symbol, FileCacheRow, VectorSpaceFingerprint, PublishBatch, empty, incremental, re_embed,
  as_db_str, parse_db_str, parsed, covered_paths, dedup, dedup_after, Store, PublishReceipt,
}
use cognis.Publish.Apply.{
  Setup, contains, add_all, ids_in_file, put_edge, drop_edge, drop_outbound, flag_inbound,
  drop_queued_file,
}
use cognis.Publish.Steps.{each}
use cognis.Publish.Vectors.{
  upsert_vector_space_and_vectors, existing_rows, write_rows, check_dims, install, reshape,
  compatible, replace_vector,
}
use cognis.Publish.Statements.{
  publish, publish_body, classify_all, classify, mutate, record_batch, upsert_symbols,
  upsert_symbol, upsert_edges, collect_file_symbol_ids, delete_symbols, delete_symbol,
}
use cognis.Publish.Published.{published, published_receipt}
use cognis.Publish.Outcome.{publish-refines, publish-atomic}
use cognis.Publish.Numbering.{publish-numbers, source_of, semantic_of}
use cognis.Publish.Consistency.{IsConsistent, publish-IsConsistent}
use cognis.Publish.Cleared.{publish-file_deletes}
use cognis.Publish.Deleted.{holds_file}
use cognis.Publish.Liveness.{publish-succeeds}
use cognis.Publish.Texts.{parse_db_str-as_db_str}

abbrev never : ℕ → Option String
never n = none

abbrev setup_with : (ℕ → Option String) → Setup ℕ ℕ
setup_with refuses = record {
  refuses = refuses;
  unix_timestamp = ok 100;
  vector_len = λ v. 4;
  dst_missing = λ j. suc j;
  vec_ext_ok = false;
  wrong_dim = λ n m. "wrong dimension";
}

abbrev setup : Setup ℕ ℕ
setup = setup_with never

abbrev symbol : ℕ → ℕ → Symbol ℕ ℕ
symbol id file = record {
  id = id;
  name = "f";
  qualified_name = "module.f";
  file_path = file;
  signature = none;
  docstring = none;
  body_excerpt = none;
  rest = 0;
}

abbrev file_row : ℕ → FileCacheRow ℕ
file_row path = record {
  path = path;
  language = "rust";
  size_bytes = 12;
  content_hash = "00";
  parsed_at = 90;
  parse_status = parsed;
}

abbrev space : VectorSpaceFingerprint
space = record { digest = "a"; dim = 4; model_id = "m" }

-- Symbol 1 of file 5 is new, symbol 2 goes, and with file 8 symbol 3.
abbrev batch : PublishBatch ℕ ℕ ℕ ℕ ℕ
batch = record (empty incremental) {
  symbol_upserts = symbol 1 5 ∷ [];
  symbol_deletes = 2 ∷ [];
  edge_upserts = record { src_id = 1; dst_id = 3; kind = "calls"; confidence = 1; meta = 0 } ∷ [];
  vector_upserts = (1, 77) ∷ [];
  file_rows = file_row 5 ∷ [];
  file_deletes = 8 ∷ [];
  queue_enqueue = record { symbol_id = 1; file_path = 5 } ∷ [];
  fingerprint = some space;
}

-- The tables before any publication, but for the generation row.
abbrev fresh : Store ℕ ℕ ℕ ℕ ℕ
fresh = record {
  symbols = [];
  fts = [];
  edges = [];
  vectors = [];
  vector_space = none;
  is_vec0 = false;
  vec_dim = none;
  files = [];
  queue = [];
  generation = some (record { source_generation = 6; semantic_generation = 6; updated_at = 0 });
  batches = [];
  batch_files = [];
}

abbrev store : Store ℕ ℕ ℕ ℕ ℕ
store = record fresh {
  symbols = (2, symbol 2 5) ∷ (3, symbol 3 8) ∷ [];
  fts =
      (
        2,
        record {
          name = "f";
          qualified_name = "module.f";
          signature = "";
          docstring = "";
          body_excerpt = "";
        },
      )
      ∷ (
        3,
        record {
          name = "f";
          qualified_name = "module.f";
          signature = "";
          docstring = "";
          body_excerpt = "";
        },
      )
      ∷ [];
  vectors = (3, 70) ∷ [];
  files = (8, file_row 8) ∷ [];
}

abbrev received : PublishReceipt ℕ
received = record {
  source_generation = 7;
  semantic_generation = 6;
  pending_vector_count = 1;
  files = 5 ∷ 8 ∷ [];
}

received_by : (publish setup batch (opened store 0)).0 ≡ ok received
unfolding publish publish_body classify_all classify mutate record_batch upsert_symbols
    upsert_symbol upsert_edges upsert_vector_space_and_vectors existing_rows write_rows check_dims
    install reshape compatible replace_vector each collect_file_symbol_ids delete_symbols
    delete_symbol query execute execute_count with_write_txn for_each covered_paths dedup
    dedup_after sort_by place contains add_all ids_in_file put_edge drop_edge drop_outbound
    flag_inbound drop_queued_file has_key put drop_key add
received_by = refl

publish-refines_example :
    (received ≡ published_receipt setup (0, 0) batch 100 store)
    × (on_disk (publish setup batch (opened store 0)).1 ≡ published setup (0, 0) batch 100 store)
publish-refines_example = publish-refines setup (0, 0) batch store 0 100 received refl received_by

publish-numbers_example :
    (7 ≡ source_of store.generation + 1)
    × (6 ≡ (if 1 == 0 then 7 else semantic_of store.generation))
    × ((on_disk (publish setup batch (opened store 0)).1).generation
        ≡ some (record { source_generation = 7; semantic_generation = 6; updated_at = 100 }))
    × (1 ≡ length (on_disk (publish setup batch (opened store 0)).1).queue)
publish-numbers_example = publish-numbers setup batch store 0 100 received refl received_by

-- SQLite refuses one of the statements on the vectors.
abbrev refuses_late : ℕ → Option String
refuses_late n = if n == 9 then some "disk I/O error" else none

refused : (publish (setup_with refuses_late) batch (opened store 0)).0 ≡ err "disk I/O error"
unfolding publish publish_body classify_all classify mutate record_batch upsert_symbols
    upsert_symbol upsert_edges upsert_vector_space_and_vectors existing_rows write_rows check_dims
    install reshape compatible replace_vector each collect_file_symbol_ids delete_symbols
    delete_symbol query execute execute_count with_write_txn for_each covered_paths dedup
    dedup_after sort_by place contains add_all ids_in_file put_edge drop_edge drop_outbound
    flag_inbound drop_queued_file has_key put drop_key add
refused = refl

publish-atomic_example :
    on_disk (publish (setup_with refuses_late) batch (opened store 0)).1 ≡ store
publish-atomic_example =
    publish-atomic (setup_with refuses_late) batch store 0 "disk I/O error" refused

store-IsConsistent : IsConsistent store
unfolding has_key
store-IsConsistent k = ground arith

publish-IsConsistent_example : IsConsistent (on_disk (publish setup batch (opened store 0)).1)
publish-IsConsistent_example = publish-IsConsistent setup batch store 0 store-IsConsistent

deletes_two : contains 2 batch.symbol_deletes ≡ true
unfolding contains
deletes_two = refl

deletes_eight : contains 8 batch.file_deletes ≡ true
unfolding contains
deletes_eight = refl

publish-succeeds_example : is_ok (publish setup batch (opened store 0)).0 ≡ true
publish-succeeds_example = publish-succeeds setup batch store 0 100 (λ n. refl) refl refl refl

parse_db_str-as_db_str_example :
    (parse_db_str "reembed" ≡ some re_embed) ↔ ("reembed" ≡ as_db_str re_embed)
parse_db_str-as_db_str_example = parse_db_str-as_db_str "reembed" re_embed

publish-file_deletes_example :
    holds_file 8 (on_disk (publish setup batch (opened store 0)).1) ≡ false
unfolding contains
publish-file_deletes_example =
    publish-file_deletes setup batch store 0 100 received 8 refl received_by refl
