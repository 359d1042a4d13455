-- ===== src/EmbedQueue/Kept.antt =====
-- What the drainer's writes keep of the database, whatever SQLite refuses on the way.
use Prim.Native.String.{String}
use cognis.Base.{
  ℕ, ◌≡◌, subst, true, List, [], ◌∷◌, Option, none, some, arith, length, ◌==◌, if◌then◌else◌,
}
use cognis.BtreeMap.{KeyOrd}
use cognis.Sqlite.{Conn, Result, ok, chain, query, execute}
use cognis.EmbedQueue.{QueueRow, Symbol, Db, pending_files}
use cognis.EmbedQueue.Writes.{
  Setup, catch_up, without_row, find, advance_semantic_if_queue_empty, remove_row,
  remove_stale_queue_row, delete_vectors, replace_vectors, upsert_symbol_vectors, store_and_remove,
  persist_success, fail_row, record_failure, pending_snapshot,
}
use cognis.EmbedQueue.Drain.{recreate}
use cognis.Sqlite.Transactions.{
  Holds, Keeps, chain-Keeps, chain-Holds, if-Holds, query_ok, query-Keeps, execute-Holds,
  execute-Keeps, with_write_txn-Keeps,
}

length-none : {A : Type 0} (xs : List A) → (length xs == 0) ≡ true → xs ≡ []
length-none xs h = ground arith

module _ {K V M : Type 0} ⦃o : KeyOrd K⦄ (setup : Setup V M) where
  -- A property that each change of a drain keeps where it applies.
  pub record IsKept (P : Db K V → Type 0) : Type 0 where
    pub caught_up : (now : ℕ) (d : Db K V) → d.queue ≡ [] → P d → P (catch_up setup now d)
    pub removed : (k : K) (d : Db K V) → P d → P (without_row setup k d)
    pub stored : (vs : List (K × V)) (d : Db K V) → P d → P (record d { vectors = vs })
    pub redimensioned : (dim : ℕ) (d : Db K V) → P d → P (record d { dim = dim })
    pub recreated : (dim : ℕ) (d : Db K V) → P d → P (recreate setup dim d)
    pub failed :
        (row : QueueRow K) (message : String) (now : ℕ) (d : Db K V)
        → P d
        → P (record d { queue = fail_row setup row message now d.queue })

  module _ (P : Db K V → Type 0) (kept : IsKept P) where
    advance-Keeps : (now : ℕ) → Keeps P (advance_semantic_if_queue_empty setup now)
    unfolding advance_semantic_if_queue_empty
    advance-Keeps now c h =
        let m = query setup.refuses (λ d. length d.queue) c in
        let q = query-Keeps setup.refuses P (λ d. length d.queue) c h in
        chain-Holds P m
          (λ pending c₁.
            if pending == 0 then execute setup.refuses (catch_up setup now) c₁ else (ok tt, c₁))
          q
          (λ pending e.
            if-Holds P (pending == 0) (execute setup.refuses (catch_up setup now) m.1) (ok tt, m.1)
              (λ z.
                execute-Holds setup.refuses P (catch_up setup now) m.1
                  (kept.caught_up now m.1.view
                    (length-none m.1.view.queue (
                      subst (λ n. (n == 0) ≡ true)
                        (query_ok setup.refuses (λ d. length d.queue) c pending e) z))
                    q.0)
                  q)
              (λ z. q))

    remove_row-Keeps : (k : K) (now : ℕ) → Keeps P (remove_row setup k now)
    unfolding remove_row
    remove_row-Keeps k now c h =
        chain-Keeps P (execute setup.refuses (without_row setup k) c)
          (λ _. advance_semantic_if_queue_empty setup now)
          (execute-Keeps setup.refuses P (without_row setup k) (kept.removed k) c h)
          (λ _. advance-Keeps now)

    pub remove_stale-Keeps : (k : K) (now : ℕ) → Keeps P (remove_stale_queue_row setup k now)
    unfolding remove_stale_queue_row
    remove_stale-Keeps k now =
        with_write_txn-Keeps setup.refuses P (remove_row setup k now) (remove_row-Keeps k now)

    replace-Keeps : (k : K) (vs : List V) → Keeps P (replace_vectors setup k vs)
    unfolding replace_vectors
    replace-Keeps k [] c h = h
    replace-Keeps k (v ∷ vs) c h =
        chain-Keeps P
          (execute setup.refuses (λ d. record d { vectors = delete_vectors setup k d.vectors }) c)
          (λ _ c₁.
            chain (execute setup.refuses (λ d. record d { vectors = (k, v) ∷ d.vectors }) c₁)
              (λ _. replace_vectors setup k vs))
          (execute-Keeps setup.refuses P
            (λ d. record d { vectors = delete_vectors setup k d.vectors })
            (λ d. kept.stored (delete_vectors setup k d.vectors) d) c h)
          (λ _ c₁ h₁.
            chain-Keeps P
              (execute setup.refuses (λ d. record d { vectors = (k, v) ∷ d.vectors }) c₁)
              (λ _. replace_vectors setup k vs)
              (execute-Keeps setup.refuses P (λ d. record d { vectors = (k, v) ∷ d.vectors })
                (λ d. kept.stored ((k, v) ∷ d.vectors) d) c₁ h₁)
              (λ _. replace-Keeps k vs))

    found-Keeps :
        (k : K) (vs : List V) (found : Option Symbol) (c : Conn (Db K V))
        → Holds P c
        → Holds P
            (elim found as (λ _. Result (Unit {0}) × Conn (Db K V)) [
              | none ↦ (ok tt, c)
              | some s ↦ replace_vectors setup k vs c
            ]).1
    found-Keeps k vs none c h = h
    found-Keeps k vs (some s) c h = replace-Keeps k vs c h

    upsert-Keeps : (k : K) (vs : List V) → Keeps P (upsert_symbol_vectors setup k vs)
    unfolding upsert_symbol_vectors
    upsert-Keeps k vs c h =
        chain-Keeps P (query setup.refuses (λ d. find setup k d.symbols) c)
          (λ found c₁. elim found [ none ↦ (ok tt, c₁) | some s ↦ replace_vectors setup k vs c₁ ])
          (query-Keeps setup.refuses P (λ d. find setup k d.symbols) c h)
          (λ found c₁ h₁. found-Keeps k vs found c₁ h₁)

    store-Keeps : (k : K) (vs : List V) (now : ℕ) → Keeps P (store_and_remove setup k vs now)
    unfolding store_and_remove
    store-Keeps k vs now c h =
        chain-Keeps P (upsert_symbol_vectors setup k vs c) (λ _. remove_row setup k now)
          (upsert-Keeps k vs c h) (λ _. remove_row-Keeps k now)

    pub persist-Keeps : (k : K) (vs : List V) (now : ℕ) → Keeps P (persist_success setup k vs now)
    unfolding persist_success
    persist-Keeps k vs now =
        with_write_txn-Keeps setup.refuses P (store_and_remove setup k vs now)
          (store-Keeps k vs now)

    pub failure-Keeps :
        (row : QueueRow K) (message : String) (now : ℕ)
        → Keeps P (record_failure setup row message now)
    unfolding record_failure
    failure-Keeps row message now =
        execute-Keeps setup.refuses P
          (λ d. record d { queue = fail_row setup row message now d.queue })
          (kept.failed row message now)

    pub snapshot-Keeps : Keeps P (pending_snapshot setup)
    unfolding pending_snapshot
    snapshot-Keeps c h =
        chain-Keeps P (query setup.refuses (λ d. length d.queue) c)
          (λ n c₁. chain (query setup.refuses (λ d. pending_files d.queue) c₁) (λ files c₂.
            (ok (record { drained = 0; pending_vector_count = n; pending_files = files }), c₂)))
          (query-Keeps setup.refuses P (λ d. length d.queue) c h)
          (λ n c₁ h₁.
            chain-Keeps P (query setup.refuses (λ d. pending_files d.queue) c₁)
              (λ files c₂.
                (ok (record { drained = 0; pending_vector_count = n; pending_files = files }), c₂))
              (query-Keeps setup.refuses P (λ d. pending_files d.queue) c₁ h₁) (λ files c₂ h₂. h₂))
