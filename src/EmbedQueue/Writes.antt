-- ===== src/EmbedQueue/Writes.antt =====
-- The writes of the drainer, each of them one statement or one transaction, and what it is given.
use Prim.Native.String.{String, ◌++◌ as append}
use text.Mathlib.Text.{◌==◌ as str_eq}
use cognis.Base.{
  ℕ, zero, suc, ◌+◌, ◌-◌, ◌/◌, ◌^◌, Bool, List, [], ◌∷◌, Option, none, some, ◌==◌, length, min,
  if◌then◌else◌,
}
use cognis.BtreeMap.{KeyOrd}
use cognis.ModelSlot.{Loaded}
use cognis.Sqlite.{Result, ok, Io, chain, query, execute, with_write_txn}
use cognis.EmbedQueue.{QueueRow, Symbol, Db, delete_queue_row, pending_files}

pub record DrainOutcome (K : Type 0) : Type 0 where
  pub drained : ℕ
  pub pending_vector_count : ℕ
  pub pending_files : List K

abbrev pub pushed : Option String → List String → List String
pushed none parts = parts
pushed (some s) parts = s ∷ parts

unfoldable pub non_empty : List String → List String
non_empty [] = []
non_empty (s ∷ parts) = let rest = non_empty parts in if str_eq s "" then rest else s ∷ rest

unfoldable pub join_lines : List String → String
join_lines [] = ""
join_lines (s ∷ []) = s
join_lines (s ∷ t ∷ parts) = append s (append "\n" (join_lines (t ∷ parts)))

-- `embedding_text`, crates/cognis-indexer/src/pipeline.rs.
unfoldable pub embedding_text : Symbol → String
unfolding non_empty join_lines
embedding_text s = join_lines (
    non_empty
      (s.qualified_name ∷ pushed s.signature (pushed s.docstring (pushed s.body_excerpt []))))

-- `OwnerConfig::backoff_ms_for_attempt`, crates/cognis-core/src/config.rs.
unfoldable pub backoff_ms_for_attempt : List ℕ → ℕ → ℕ
backoff_ms_for_attempt [] attempt = 0
backoff_ms_for_attempt (b ∷ []) attempt = b
backoff_ms_for_attempt (b ∷ c ∷ bs) zero = b
backoff_ms_for_attempt (b ∷ c ∷ bs) (suc attempt) = backoff_ms_for_attempt (c ∷ bs) attempt

-- Rounded up to seconds.
abbrev pub delay_s : ℕ → ℕ
delay_s ms = (ms + 999) / 1000

-- The saturating additions of `u32` and `i64`.
abbrev pub next_attempts : ℕ → ℕ
next_attempts n = min (n + 1) (2 ^ 32 - 1)

abbrev pub later : ℕ → ℕ → ℕ
later now delay = min (now + delay) (2 ^ 63 - 1)

-- What the drainer is given: SQLite's answers, the clock, the retry ladder, and for each call of the
-- embedder the factory's result; the embedder's own functions; whether sqlite-vec can be loaded.
pub record Setup (V M : Type 0) : Type 0 where
  pub refuses : ℕ → Option String
  pub unix_timestamp : Result ℕ
  pub embed_backoff_ms : List ℕ
  pub allow_demand_load : Bool
  pub failure_cooldown : ℕ
  pub instant : ℕ → ℕ
  pub factory : ℕ → Loaded M
  pub embedding_dim : M → ℕ
  pub embed_batch : M → List String → Result (List V)
  pub mismatch : ℕ → String
  pub vec_ext_ok : Bool

module _ {K V M : Type 0} ⦃o : KeyOrd K⦄ (setup : Setup V M) where
  unfoldable pub pending_snapshot : Io (Db K V) (DrainOutcome K)
  pending_snapshot c = chain (query setup.refuses (λ d. length d.queue) c) (λ n c₁.
      chain (query setup.refuses (λ d. pending_files d.queue) c₁) (λ files c₂.
        (ok (record { drained = 0; pending_vector_count = n; pending_files = files }), c₂)))

  abbrev pub catch_up : ℕ → Db K V → Db K V
  catch_up now d = record d { semantic_generation = d.source_generation; updated_at = now }

  unfoldable pub advance_semantic_if_queue_empty : ℕ → Io (Db K V) (Unit {0})
  advance_semantic_if_queue_empty now c =
      chain (query setup.refuses (λ d. length d.queue) c) (λ pending c₁.
        if pending == 0 then execute setup.refuses (catch_up now) c₁ else (ok tt, c₁))

  abbrev pub without_row : K → Db K V → Db K V
  without_row k d = record d { queue = delete_queue_row k d.queue }

  unfoldable pub remove_row : K → ℕ → Io (Db K V) (Unit {0})
  unfolding advance_semantic_if_queue_empty
  remove_row k now c =
      chain (execute setup.refuses (without_row k) c) (λ _. advance_semantic_if_queue_empty now)

  unfoldable pub remove_stale_queue_row : K → ℕ → Io (Db K V) (Unit {0})
  unfolding remove_row
  remove_stale_queue_row k now = with_write_txn setup.refuses (remove_row k now)

  unfoldable pub find : K → List (K × Symbol) → Option Symbol
  find k [] = none
  find k ((j, s) ∷ m) = if o.eq k j then some s else find k m

  unfoldable pub delete_vectors : K → List (K × V) → List (K × V)
  delete_vectors k [] = []
  delete_vectors k ((j, v) ∷ m) =
      let rest = delete_vectors k m in if o.eq k j then rest else (j, v) ∷ rest

  unfoldable pub replace_vectors : K → List V → Io (Db K V) (Unit {0})
  unfolding delete_vectors
  replace_vectors k [] c = (ok tt, c)
  replace_vectors k (v ∷ vs) c =
      chain (execute setup.refuses (λ d. record d { vectors = delete_vectors k d.vectors }) c)
        (λ _ c₁.
          chain (execute setup.refuses (λ d. record d { vectors = (k, v) ∷ d.vectors }) c₁)
            (λ _. replace_vectors k vs))

  unfoldable pub upsert_symbol_vectors : K → List V → Io (Db K V) (Unit {0})
  unfolding find replace_vectors
  upsert_symbol_vectors k vs c =
      chain (query setup.refuses (λ d. find k d.symbols) c)
        (λ found c₁. elim found [ none ↦ (ok tt, c₁) | some s ↦ replace_vectors k vs c₁ ])

  unfoldable pub store_and_remove : K → List V → ℕ → Io (Db K V) (Unit {0})
  unfolding upsert_symbol_vectors remove_row
  store_and_remove k vs now c = chain (upsert_symbol_vectors k vs c) (λ _. remove_row k now)

  unfoldable pub persist_success : K → List V → ℕ → Io (Db K V) (Unit {0})
  unfolding store_and_remove
  persist_success k vs now = with_write_txn setup.refuses (store_and_remove k vs now)

  unfoldable pub fail_row : QueueRow K → String → ℕ → List (QueueRow K) → List (QueueRow K)
  unfolding backoff_ms_for_attempt
  fail_row row message now [] = []
  fail_row row message now (r ∷ rs) =
      let attempts = next_attempts row.attempts in
      let backoff_ms = backoff_ms_for_attempt setup.embed_backoff_ms (attempts - 1) in
      let rest = fail_row row message now rs in
      if o.eq row.symbol_id r.symbol_id
      then record r {
        attempts = attempts;
        last_error = some message;
        next_attempt_at = later now (delay_s backoff_ms);
      }
        ∷ rest
      else r ∷ rest

  unfoldable pub record_failure : QueueRow K → String → ℕ → Io (Db K V) (Unit {0})
  unfolding fail_row
  record_failure row message now =
      execute setup.refuses (λ d. record d { queue = fail_row row message now d.queue })
