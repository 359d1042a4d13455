-- ===== src/EmbedQueue/Rows.antt =====
-- What becomes of the rows of the queue: the budget, the retry times, and a row that is served.
use Prim.Native.String.{String}
use cognis.Base.{
  ℕ, zero, suc, ◌+◌, ◌≤◌, ◌≡◌, refl, List, [], ◌∷◌, some, arith, length, length-take-le,
  if◌then◌else◌,
}
use cognis.BtreeMap.{KeyOrd}
use cognis.Sort.{sort_by}
use cognis.ModelSlot.{SlotState}
use cognis.Sqlite.{
  Conn, opened, Result, ok, err, on_disk, query, execute, begin_immediate, finish, commit, rollback,
  with_write_txn,
}
use cognis.EmbedQueue.{QueueRow, Symbol, Db, first_row, due, due_rows, delete_queue_row}
use cognis.EmbedQueue.Writes.{
  Setup, DrainOutcome, pending_snapshot, persist_success, store_and_remove, upsert_symbol_vectors,
  replace_vectors, remove_row, find, delete_vectors, advance_semantic_if_queue_empty,
}
use cognis.EmbedQueue.Drain.{drain_row, drain_rows, with_drained, drain_due, timed, drain}

abbrev pub AllAtMost : ℕ → List ℕ → Type 0
AllAtMost bound [] = Unit
AllAtMost bound (b ∷ bs) = (b ≤ bound) × AllAtMost bound bs

module _ {K V M : Type 0} ⦃o : KeyOrd K⦄ (setup : Setup V M) where
  -- The rows of a symbol have `n` attempts and are tried again at `t` at the latest.
  abbrev pub AreRetried : K → ℕ → ℕ → List (QueueRow K) → Type 0
  AreRetried k n t [] = Unit
  AreRetried k n t (r ∷ rs) =
      (if o.eq k r.symbol_id then (r.attempts ≡ n) × (r.next_attempt_at ≤ t) else Unit {0})
      × AreRetried k n t rs

  drain_rows-count :
      (rows : List (QueueRow K)) (n now m : ℕ) (slot : SlotState M) (c : Conn (Db K V))
      → (drain_rows setup rows n now slot c).0 ≡ ok m
      → m ≤ n + length rows
  unfolding drain_rows
  drain_rows-count [] n now m slot c e = ground (arith, e)
  drain_rows-count (row ∷ rows) n now m slot c e =
      let (r, slot', c') = drain_row setup row now slot c in
      ground (
        arith,
        e,
        drain_rows-count rows (suc n) now m slot' c',
        drain_rows-count rows n now m slot' c',
      )

  snapshot-zero :
      (c : Conn (Db K V)) (out : DrainOutcome K)
      → (pending_snapshot setup c).0 ≡ ok out
      → out.drained ≡ 0
  unfolding pending_snapshot query
  snapshot-zero c out e = ground (arith, e)

  with_drained-count :
      (n : ℕ) (r : Result ℕ) (slot : SlotState M) (c : Conn (Db K V)) (out : DrainOutcome K)
      → ((m : ℕ) → r ≡ ok m → m ≤ n)
      → (with_drained setup (r, slot, c)).0 ≡ ok out
      → out.drained ≤ n
  unfolding pending_snapshot query
  with_drained-count n (err m) slot c out k e = ground (arith, e)
  with_drained-count n (ok m) slot c out k e = ground (arith, e, k m refl)

  drain_due-count :
      (now budget : ℕ) (slot : SlotState M) (r : Result (List (QueueRow K))) (c : Conn (Db K V))
      (out : DrainOutcome K)
      → ((rows : List (QueueRow K)) → r ≡ ok rows → length rows ≤ budget)
      → (drain_due setup now slot (r, c)).0 ≡ ok out
      → out.drained ≤ budget
  drain_due-count now budget slot (err m) c out k e = ground (arith, e)
  drain_due-count now budget slot (ok []) c out k e = omega (arith, snapshot-zero c out e)
  drain_due-count now budget slot (ok (row ∷ rows)) c out k e =
      let (r, slot', c') = drain_rows setup (row ∷ rows) 0 now slot c in
      with_drained-count budget r slot' c' out
        (λ m i. omega (arith, drain_rows-count (row ∷ rows) 0 now m slot c i, k (row ∷ rows) refl))
        e

  due-count :
      (now budget : ℕ) (c : Conn (Db K V)) (rows : List (QueueRow K))
      → (query setup.refuses (λ d. due_rows now budget d.queue) c).0 ≡ ok rows
      → length rows ≤ budget
  unfolding query due_rows
  due-count now budget c rows e =
      ground (arith, e, length-take-le budget (sort_by first_row (due now c.view.queue)))

  timed-count :
      (budget : ℕ) (t : Result ℕ) (slot : SlotState M) (c : Conn (Db K V)) (out : DrainOutcome K)
      → (timed setup budget slot c t).0 ≡ ok out
      → out.drained ≤ budget
  timed-count budget (err m) slot c out e = ground (arith, e)
  timed-count budget (ok now) slot c out e =
      let (r, c') = query setup.refuses (λ d. due_rows now budget d.queue) c in
      drain_due-count now budget slot r c' out (due-count now budget c) e

  -- A drain that succeeds has drained no more rows than its budget.
  pub drain-budget :
      (budget : ℕ) (slot : SlotState M) (c : Conn (Db K V)) (out : DrainOutcome K)
      → (drain setup budget slot c).0 ≡ ok out
      → out.drained ≤ budget
  unfolding drain
  drain-budget zero slot c out e = omega (arith, snapshot-zero c out e)
  drain-budget (suc b) slot c out e = timed-count (suc b) setup.unix_timestamp slot c out e

  -- After the transaction succeeds on a symbol that exists, the committed queue has lost the symbol's
  -- rows and no other, and the committed vectors hold its new vector alone beside those of the others.
  pub persist_success-stored :
      (k : K) (v : V) (s : Symbol) (now tick : ℕ) (d : Db K V)
      → find setup k d.symbols ≡ some s
      → (persist_success setup k (v ∷ []) now (opened d tick)).0 ≡ ok tt
      → let e = on_disk (persist_success setup k (v ∷ []) now (opened d tick)).1 in
        (e.queue ≡ delete_queue_row k d.queue)
        × (e.vectors ≡ (k, v) ∷ delete_vectors setup k d.vectors)
        × (e.symbols ≡ d.symbols)
  unfolding persist_success store_and_remove upsert_symbol_vectors replace_vectors remove_row
      advance_semantic_if_queue_empty with_write_txn finish begin_immediate commit rollback query
      execute
  persist_success-stored k v s now tick d f e = ground (arith, f, e)
