-- ===== src/EmbedQueue/Tests.antt =====
-- Tests of the embedding queue with numbers for keys, vectors and embedders, and its theorems there.
use Prim.Native.String.{String}
use cognis.Base.{ℕ, ◌≡◌, refl, false, [], ◌∷◌, Option, none, some, ◌==◌, if◌then◌else◌}
use cognis.BtreeMap.{nat_order, has}
use cognis.Sort.{place, sort_by}
use cognis.ModelSlot.{built, ready, try_borrow}
use cognis.Sqlite.{opened, ok, on_disk, query, execute, with_write_txn}
use cognis.EmbedQueue.{QueueRow, Symbol, Db, delete_queue_row, due_rows, pending_files}
use cognis.EmbedQueue.Writes.{Setup, embedding_text, persist_success, remove_stale_queue_row}
use cognis.EmbedQueue.Drain.{drain}
use cognis.EmbedQueue.Generation.{IsCaughtUp, drain-IsCaughtUp}
use cognis.EmbedQueue.Atomic.{persist_success-atomic}

abbrev never : ℕ → Option String
never n = none

abbrev setup_with : (ℕ → Option String) → Setup ℕ ℕ
setup_with refuses = record {
  refuses = refuses;
  unix_timestamp = ok 100;
  embed_backoff_ms = 1000 ∷ 2500 ∷ [];
  allow_demand_load = false;
  failure_cooldown = 30;
  instant = λ n. n;
  factory = λ n. built 7;
  embedding_dim = λ m. m;
  embed_batch = λ m texts. ok (42 ∷ []);
  mismatch = λ n. "embed batch length mismatch";
  vec_ext_ok = false;
}

abbrev setup : Setup ℕ ℕ
setup = setup_with never

abbrev symbol : Symbol
symbol = record {
  qualified_name = "module.f";
  signature = some "fn f()";
  docstring = none;
  body_excerpt = some "";
}

abbrev row : ℕ → ℕ → QueueRow ℕ
row id t = record {
  symbol_id = id;
  file_path = 5;
  enqueued_at = 1;
  attempts = 0;
  next_attempt_at = t;
  last_error = none;
}

abbrev db : Db ℕ ℕ
db = record {
  symbols = (1, symbol) ∷ [];
  queue = row 1 50 ∷ row 2 20 ∷ row 3 900 ∷ [];
  vectors = (1, 9) ∷ [];
  source_generation = 4;
  semantic_generation = 3;
  updated_at = 0;
  dim = 7;
  is_vec0 = false;
  vec_dim = none;
}

text_of_symbol : embedding_text symbol ≡ "module.f\nfn f()"
unfolding embedding_text
text_of_symbol = refl

due_first : due_rows 100 2 db.queue ≡ row 2 20 ∷ row 1 50 ∷ []
unfolding due_rows sort_by place
due_first = refl

-- One row is stale, one is embedded, and the third is not due.
drained_one :
    (drain setup 8 (ready 7 0 0) (opened db 0)).0
    ≡ ok (record { drained = 1; pending_vector_count = 1; pending_files = 5 ∷ [] })
unfolding drain query due_rows sort_by place remove_stale_queue_row with_write_txn execute
    delete_queue_row try_borrow persist_success pending_files has
drained_one = refl

drain-IsCaughtUp_example : IsCaughtUp db (on_disk (drain setup 8 (ready 7 0 0) (opened db 0)).2)
drain-IsCaughtUp_example = drain-IsCaughtUp setup 8 0 (ready 7 0 0) db

-- SQLite refuses the deletion of the queue's row.
abbrev refuses_third : ℕ → Option String
refuses_third n = if n == 4 then some "disk I/O error" else none

persist_success-atomic_example :
    on_disk (persist_success (setup_with refuses_third) 1 (42 ∷ []) 100 (opened db 0)).1 ≡ db
unfolding persist_success with_write_txn query execute
persist_success-atomic_example =
    persist_success-atomic (setup_with refuses_third) 1 (42 ∷ []) 100 0 db "disk I/O error" refl
