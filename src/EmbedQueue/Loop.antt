-- ===== src/EmbedQueue/Loop.antt =====
-- What a whole drain keeps of the database.
use cognis.Base.{
  ℕ, zero, suc, Bool, true, false, List, [], ◌∷◌, Option, none, some, ltb, if◌then◌else◌,
}
use cognis.BtreeMap.{KeyOrd}
use cognis.ModelSlot.{SlotState}
use cognis.Sqlite.{Conn, Result, ok, err, chain, query, execute, with_write_txn}
use cognis.EmbedQueue.{QueueRow, Symbol, Db, due_rows}
use cognis.EmbedQueue.Writes.{
  Setup, find, remove_stale_queue_row, persist_success, record_failure, pending_snapshot,
  embedding_text,
}
use cognis.EmbedQueue.Drain.{
  recreate, matches, reconcile_embedding_dim, borrow, one_vector, embed, with_borrow, embed_symbol,
  settle, hydrated, drain_row, drain_rows, with_drained, drain_due, timed, drain,
}
use cognis.Sqlite.Transactions.{
  Holds, Keeps, chain-Keeps, if-Holds, query-Keeps, execute-Keeps, with_write_txn-Keeps,
}
use cognis.EmbedQueue.Kept.{
  IsKept, remove_stale-Keeps, persist-Keeps, failure-Keeps, snapshot-Keeps,
}

module _ {K V M : Type 0} ⦃o : KeyOrd K⦄ (setup : Setup V M) (P : Db K V → Type 0)
    (kept : IsKept setup P) where
  reconcile-Keeps : (dim : ℕ) → Keeps P (reconcile_embedding_dim setup dim)
  unfolding reconcile_embedding_dim
  reconcile-Keeps dim c h =
      chain-Keeps P (query setup.refuses (matches setup dim) c)
        (λ same c₁.
          if same
          then (ok tt, c₁)
          else with_write_txn setup.refuses
              (λ c₂.
                chain (execute setup.refuses (λ d. record d { dim = dim }) c₂)
                  (λ _. execute setup.refuses (recreate setup dim)))
              c₁)
        (query-Keeps setup.refuses P (matches setup dim) c h)
        (λ same c₁ h₁.
          if-Holds P same (ok tt, c₁)
            (with_write_txn setup.refuses
              (λ c₂.
                chain (execute setup.refuses (λ d. record d { dim = dim }) c₂)
                  (λ _. execute setup.refuses (recreate setup dim)))
              c₁)
            (λ _. h₁)
            (λ _.
              with_write_txn-Keeps setup.refuses P
                (λ c₂.
                  chain (execute setup.refuses (λ d. record d { dim = dim }) c₂)
                    (λ _. execute setup.refuses (recreate setup dim)))
                (λ c₂ h₂.
                  chain-Keeps P (execute setup.refuses (λ d. record d { dim = dim }) c₂)
                    (λ _. execute setup.refuses (recreate setup dim))
                    (execute-Keeps setup.refuses P (λ d. record d { dim = dim })
                      (kept.redimensioned dim) c₂ h₂)
                    (λ _. execute-Keeps setup.refuses P (recreate setup dim) (kept.recreated dim)))
                c₁ h₁))

  embed-Keeps : (m : M) (s : Symbol) → Keeps P (embed setup m s)
  unfolding embed
  embed-Keeps m s c h =
      let dim = setup.embedding_dim m in
      chain-Keeps P (if ltb 0 dim then reconcile_embedding_dim setup dim c else (ok tt, c))
        (λ _ c₁. (one_vector setup (setup.embed_batch m (embedding_text s ∷ [])), c₁))
        (if-Holds P (ltb 0 dim) (reconcile_embedding_dim setup dim c) (ok tt, c)
          (λ _. reconcile-Keeps dim c h) (λ _. h))
        (λ _ c₁ h₁. h₁)

  with_borrow-Holds :
      (s : Symbol) (slot : SlotState M) (c : Conn (Db K V)) (b : Option M)
      → Holds P c
      → Holds P (with_borrow setup s slot c b).2
  with_borrow-Holds s slot c none h = h
  with_borrow-Holds s slot c (some m) h = embed-Keeps m s c h

  settle-Holds :
      (row : QueueRow K) (now : ℕ) (r : Result (List V)) (slot : SlotState M) (c : Conn (Db K V))
      → Holds P c
      → Holds P (settle setup row now (r, slot, c)).2
  settle-Holds row now (ok vs) slot c h =
      chain-Keeps P (persist_success setup row.symbol_id vs now c) (λ _ c₁. (ok true, c₁))
        (persist-Keeps setup P kept row.symbol_id vs now c h) (λ _ c₁ h₁. h₁)
  settle-Holds row now (err message) slot c h =
      chain-Keeps P (record_failure setup row message now c) (λ _ c₁. (ok false, c₁))
        (failure-Keeps setup P kept row message now c h) (λ _ c₁ h₁. h₁)

  hydrated-Holds :
      (row : QueueRow K) (now : ℕ) (slot : SlotState M) (r : Result (Option Symbol))
      (c : Conn (Db K V))
      → Holds P c
      → Holds P (hydrated setup row now slot (r, c)).2
  unfolding embed_symbol
  hydrated-Holds row now slot (err e) c h = h
  hydrated-Holds row now slot (ok none) c h =
      chain-Keeps P (remove_stale_queue_row setup row.symbol_id now c) (λ _ c₁. (ok false, c₁))
        (remove_stale-Keeps setup P kept row.symbol_id now c h) (λ _ c₁ h₁. h₁)
  hydrated-Holds row now slot (ok (some s)) c h =
      let (r, slot', c') = embed_symbol setup s slot c in
      let (b, slot₁) = borrow setup c.tick slot in
      settle-Holds row now r slot' c' (with_borrow-Holds s slot₁ c b h)

  drain_row-Holds :
      (row : QueueRow K) (now : ℕ) (slot : SlotState M) (c : Conn (Db K V))
      → Holds P c
      → Holds P (drain_row setup row now slot c).2
  unfolding drain_row
  drain_row-Holds row now slot c h =
      let (r, c') = query setup.refuses (λ d. find setup row.symbol_id d.symbols) c in
      hydrated-Holds row now slot r c'
        (query-Keeps setup.refuses P (λ d. find setup row.symbol_id d.symbols) c h)

  rest-Holds :
      (rows : List (QueueRow K)) (n now : ℕ) (r : Result Bool) (slot : SlotState M)
      (c : Conn (Db K V))
      → ((b : Bool) → Holds P (drain_rows setup rows (if b then suc n else n) now slot c).2)
      → Holds P c
      → Holds P
          (elim r as (λ _. Result ℕ × SlotState M × Conn (Db K V)) [
            | err e ↦ (err e, slot, c)
            | ok b ↦ drain_rows setup rows (if b then suc n else n) now slot c
          ]).2
  rest-Holds rows n now (err e) slot c k h = h
  rest-Holds rows n now (ok b) slot c k h = k b

  drain_rows-Holds :
      (rows : List (QueueRow K)) (n now : ℕ) (slot : SlotState M) (c : Conn (Db K V))
      → Holds P c
      → Holds P (drain_rows setup rows n now slot c).2
  unfolding drain_rows
  drain_rows-Holds [] n now slot c h = h
  drain_rows-Holds (row ∷ rows) n now slot c h =
      let (r, slot', c') = drain_row setup row now slot c in
      let h' = drain_row-Holds row now slot c h in
      rest-Holds rows n now r slot' c'
        (λ b. drain_rows-Holds rows (if b then suc n else n) now slot' c' h') h'

  with_drained-Holds :
      (r : Result ℕ) (slot : SlotState M) (c : Conn (Db K V))
      → Holds P c
      → Holds P (with_drained setup (r, slot, c)).2
  with_drained-Holds (err e) slot c h = h
  with_drained-Holds (ok n) slot c h =
      chain-Keeps P (pending_snapshot setup c) (λ out c₁. (ok (record out { drained = n }), c₁))
        (snapshot-Keeps setup P kept c h) (λ out c₁ h₁. h₁)

  drain_due-Holds :
      (now : ℕ) (slot : SlotState M) (r : Result (List (QueueRow K))) (c : Conn (Db K V))
      → Holds P c
      → Holds P (drain_due setup now slot (r, c)).2
  drain_due-Holds now slot (err e) c h = h
  drain_due-Holds now slot (ok []) c h = snapshot-Keeps setup P kept c h
  drain_due-Holds now slot (ok (row ∷ rows)) c h =
      let (r, slot', c') = drain_rows setup (row ∷ rows) 0 now slot c in
      with_drained-Holds r slot' c' (drain_rows-Holds (row ∷ rows) 0 now slot c h)

  timed-Holds :
      (b : ℕ) (t : Result ℕ) (slot : SlotState M) (c : Conn (Db K V))
      → Holds P c
      → Holds P (timed setup b slot c t).2
  timed-Holds b (err e) slot c h = h
  timed-Holds b (ok now) slot c h =
      let (r, c') = query setup.refuses (λ d. due_rows now b d.queue) c in
      drain_due-Holds now slot r c' (query-Keeps setup.refuses P (λ d. due_rows now b d.queue) c h)

  pub drain-Holds :
      (budget : ℕ) (slot : SlotState M) (c : Conn (Db K V))
      → Holds P c
      → Holds P (drain setup budget slot c).2
  unfolding drain
  drain-Holds zero slot c h = snapshot-Keeps setup P kept c h
  drain-Holds (suc b) slot c h = timed-Holds (suc b) setup.unix_timestamp slot c h
