-- ===== src/EmbedQueue/Atomic.antt =====
-- A write transaction that fails changes nothing that is committed.
use Prim.Native.String.{String}
use cognis.Base.{ℕ, ◌≡◌, refl, List, [], ◌∷◌, Option, none, some, length, ◌==◌, if◌then◌else◌}
use cognis.BtreeMap.{KeyOrd}
use cognis.Sqlite.{Conn, opened, Result, ok, err, on_disk, chain, query, execute}
use cognis.EmbedQueue.{Symbol, Db}
use cognis.Sqlite.Atomic.{
  IsContained, chain-IsContained, if-committed, query-IsContained, execute-IsContained,
  with_write_txn-failed,
}
use cognis.EmbedQueue.Writes.{
  Setup, catch_up, without_row, find, advance_semantic_if_queue_empty, remove_row, delete_vectors,
  replace_vectors, upsert_symbol_vectors, store_and_remove, persist_success,
}

module _ {K V M : Type 0} ⦃o : KeyOrd K⦄ (setup : Setup V M) where
  advance-IsContained : (now : ℕ) → IsContained (advance_semantic_if_queue_empty {K = K} setup now)
  unfolding advance_semantic_if_queue_empty
  advance-IsContained now c =
      chain-IsContained (query setup.refuses (λ d. length d.queue) c)
        (λ pending c₁.
          if pending == 0 then execute setup.refuses (catch_up setup now) c₁ else (ok tt, c₁))
        c (query-IsContained setup.refuses (λ d. length d.queue) c)
        (λ pending c₁.
          if-committed (pending == 0) (execute setup.refuses (catch_up setup now) c₁) (ok tt, c₁) c₁
            (execute-IsContained setup.refuses (catch_up setup now) c₁) refl)

  remove_row-IsContained : (k : K) (now : ℕ) → IsContained (remove_row setup k now)
  unfolding remove_row
  remove_row-IsContained k now c =
      chain-IsContained (execute setup.refuses (without_row setup k) c)
        (λ _. advance_semantic_if_queue_empty setup now) c
        (execute-IsContained setup.refuses (without_row setup k) c) (λ _. advance-IsContained now)

  replace-IsContained : (k : K) (vs : List V) → IsContained (replace_vectors setup k vs)
  unfolding replace_vectors
  replace-IsContained k [] c = refl
  replace-IsContained k (v ∷ vs) c =
      chain-IsContained
        (execute setup.refuses (λ d. record d { vectors = delete_vectors setup k d.vectors }) c)
        (λ _ c₁.
          chain (execute setup.refuses (λ d. record d { vectors = (k, v) ∷ d.vectors }) c₁)
            (λ _. replace_vectors setup k vs))
        c
        (execute-IsContained setup.refuses
          (λ d. record d { vectors = delete_vectors setup k d.vectors }) c)
        (λ _ c₁.
          chain-IsContained
            (execute setup.refuses (λ d. record d { vectors = (k, v) ∷ d.vectors }) c₁)
            (λ _. replace_vectors setup k vs) c₁
            (execute-IsContained setup.refuses (λ d. record d { vectors = (k, v) ∷ d.vectors }) c₁)
            (λ _. replace-IsContained k vs))

  found-committed :
      (k : K) (vs : List V) (found : Option Symbol) (c : Conn (Db K V))
      → (elim found as (λ _. Result (Unit {0}) × Conn (Db K V)) [
        | none ↦ (ok tt, c)
        | some s ↦ replace_vectors setup k vs c
      ]).1.committed
        ≡ c.committed
  found-committed k vs none c = refl
  found-committed k vs (some s) c = replace-IsContained k vs c

  store-IsContained :
      (k : K) (vs : List V) (now : ℕ) → IsContained (store_and_remove setup k vs now)
  unfolding store_and_remove upsert_symbol_vectors
  store-IsContained k vs now c =
      chain-IsContained (upsert_symbol_vectors setup k vs c) (λ _. remove_row setup k now) c
        (chain-IsContained (query setup.refuses (λ d. find setup k d.symbols) c)
          (λ found c₁. elim found [ none ↦ (ok tt, c₁) | some s ↦ replace_vectors setup k vs c₁ ]) c
          (query-IsContained setup.refuses (λ d. find setup k d.symbols) c)
          (λ found c₁. found-committed k vs found c₁))
        (λ _. remove_row-IsContained k now)

  -- Where the transaction that stores a symbol's vectors and removes its row fails at any statement, the
  -- rollback's included, the committed database is as before.
  pub persist_success-atomic :
      (k : K) (vs : List V) (now tick : ℕ) (d : Db K V) (message : String)
      → (persist_success setup k vs now (opened d tick)).0 ≡ err message
      → on_disk (persist_success setup k vs now (opened d tick)).1 ≡ d
  unfolding persist_success
  persist_success-atomic k vs now tick d message =
      with_write_txn-failed setup.refuses (store_and_remove setup k vs now) d tick message
        (store-IsContained k vs now)
