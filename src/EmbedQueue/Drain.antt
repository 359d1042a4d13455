-- ===== src/EmbedQueue/Drain.antt =====
-- The drainer's loop over the due rows, with the embedder behind the model slot. No other thread
-- touches the slot or the tables while it runs.
use cognis.Base.{
  ℕ, zero, suc, Bool, true, false, ◌&&◌, not, List, [], ◌∷◌, Option, none, some, ◌==◌, ltb, length,
  if◌then◌else◌, inl, inr,
}
use cognis.BtreeMap.{KeyOrd}
use cognis.ModelSlot.{SlotState, try_borrow, borrow_or_load, release_borrow}
use cognis.Sqlite.{Conn, Result, ok, err, Io, chain, query, execute, with_write_txn}
use cognis.EmbedQueue.{QueueRow, Symbol, Db, due_rows}
use cognis.EmbedQueue.Writes.{
  DrainOutcome, embedding_text, Setup, pending_snapshot, find, remove_stale_queue_row,
  persist_success, record_failure,
}

module _ {V M : Type 0} (setup : Setup V M) where
  -- The borrow, or none; the tick of the connection stands for the time.
  unfoldable pub borrow : ℕ → SlotState M → Option M × SlotState M
  borrow t slot =
      let (b, slot') = try_borrow (setup.instant t) slot in
      elim b [
        | some m ↦ (some m, slot')
        | none ↦
            if not setup.allow_demand_load
            then (none, slot')
            else elim (borrow_or_load 2 (setup.instant t) (setup.instant t) setup.failure_cooldown
                (setup.factory t) slot') [
                  | none ↦ (none, slot')
                  | some (r, slot'') ↦ elim r [ inl m ↦ (some m, slot'') | inr e ↦ (none, slot'') ]
                ]
      ]

  abbrev pub one_vector : Result (List V) → Result (List V)
  one_vector (ok (v ∷ [])) = ok (v ∷ [])
  one_vector (ok vs) = err (setup.mismatch (length vs))
  one_vector (err e) = err e

module _ {K V M : Type 0} ⦃o : KeyOrd K⦄ (setup : Setup V M) where
  abbrev pub recreate : ℕ → Db K V → Db K V
  recreate dim d = record d {
    vectors = [];
    is_vec0 = setup.vec_ext_ok;
    vec_dim = if setup.vec_ext_ok then some dim else none;
  }

  unfoldable pub matches : ℕ → Db K V → Bool
  matches dim d =
      d.dim == dim
      && (elim d.vec_dim [ none ↦ true | some w ↦ w == dim ])
      && not (d.is_vec0 && not setup.vec_ext_ok)
      && not (not d.is_vec0 && setup.vec_ext_ok)

  -- The stored dimension and the form of the table are read as one statement.
  unfoldable pub reconcile_embedding_dim : ℕ → Io (Db K V) (Unit {0})
  unfolding matches
  reconcile_embedding_dim dim c = chain (query setup.refuses (matches dim) c) (λ same c₁.
      if same
      then (ok tt, c₁)
      else with_write_txn setup.refuses
          (λ c₂.
            chain (execute setup.refuses (λ d. record d { dim = dim }) c₂)
              (λ _. execute setup.refuses (recreate dim)))
          c₁)

  unfoldable pub embed : M → Symbol → Io (Db K V) (List V)
  unfolding reconcile_embedding_dim embedding_text
  embed m s c =
      let dim = setup.embedding_dim m in
      chain (if ltb 0 dim then reconcile_embedding_dim dim c else (ok tt, c))
        (λ _ c₁. (one_vector setup (setup.embed_batch m (embedding_text s ∷ [])), c₁))

  -- The borrow is dropped at the end.
  abbrev pub with_borrow :
      Symbol
      → SlotState M
      → Conn (Db K V)
      → Option M
      → Result (List V) × SlotState M × Conn (Db K V)
  with_borrow s slot c none = (err "embedder unavailable", slot, c)
  with_borrow s slot c (some m) =
      let (r, c') = embed m s c in (r, release_borrow (setup.instant c'.tick) slot, c')

  unfoldable pub embed_symbol :
      Symbol → SlotState M → Conn (Db K V) → Result (List V) × SlotState M × Conn (Db K V)
  unfolding borrow embed
  embed_symbol s slot c = let (b, slot') = borrow setup c.tick slot in with_borrow s slot' c b

  abbrev pub settle :
      QueueRow K
      → ℕ
      → Result (List V) × SlotState M × Conn (Db K V)
      → Result Bool × SlotState M × Conn (Db K V)
  settle row now (ok vs, slot, c) =
      let (r, c') = chain (persist_success setup row.symbol_id vs now c) (λ _ c₁. (ok true, c₁)) in
      (r, slot, c')
  settle row now (err message, slot, c) =
      let (r, c') = chain (record_failure setup row message now c) (λ _ c₁. (ok false, c₁)) in
      (r, slot, c')

  abbrev pub hydrated :
      QueueRow K
      → ℕ
      → SlotState M
      → Result (Option Symbol) × Conn (Db K V)
      → Result Bool × SlotState M × Conn (Db K V)
  hydrated row now slot (err e, c) = (err e, slot, c)
  hydrated row now slot (ok none, c) =
      let (r, c') =
        chain (remove_stale_queue_row setup row.symbol_id now c) (λ _ c₁. (ok false, c₁)) in
      (r, slot, c')
  hydrated row now slot (ok (some s), c) = settle row now (embed_symbol s slot c)

  -- One turn of the loop: whether the row counts as drained.
  unfoldable pub drain_row :
      QueueRow K → ℕ → SlotState M → Conn (Db K V) → Result Bool × SlotState M × Conn (Db K V)
  unfolding embed_symbol find
  drain_row row now slot c =
      hydrated row now slot (query setup.refuses (λ d. find setup row.symbol_id d.symbols) c)

  unfoldable pub drain_rows :
      List (QueueRow K)
      → ℕ
      → ℕ
      → SlotState M
      → Conn (Db K V)
      → Result ℕ × SlotState M × Conn (Db K V)
  unfolding drain_row
  drain_rows [] drained now slot c = (ok drained, slot, c)
  drain_rows (row ∷ rows) drained now slot c =
      let (r, slot', c') = drain_row row now slot c in
      elim r [
        | err e ↦ (err e, slot', c')
        | ok b ↦ drain_rows rows (if b then suc drained else drained) now slot' c'
      ]

  abbrev pub with_drained :
      Result ℕ × SlotState M × Conn (Db K V) → Result (DrainOutcome K) × SlotState M × Conn (Db K V)
  with_drained (err e, slot, c) = (err e, slot, c)
  with_drained (ok n, slot, c) =
      let (r, c') =
        chain (pending_snapshot setup c) (λ out c₁. (ok (record out { drained = n }), c₁)) in
      (r, slot, c')

  abbrev pub drain_due :
      ℕ
      → SlotState M
      → Result (List (QueueRow K)) × Conn (Db K V)
      → Result (DrainOutcome K) × SlotState M × Conn (Db K V)
  drain_due now slot (err e, c) = (err e, slot, c)
  drain_due now slot (ok [], c) = let (r, c') = pending_snapshot setup c in (r, slot, c')
  drain_due now slot (ok (row ∷ rows), c) = with_drained (drain_rows (row ∷ rows) 0 now slot c)

  abbrev pub timed :
      ℕ
      → SlotState M
      → Conn (Db K V)
      → Result ℕ
      → Result (DrainOutcome K) × SlotState M × Conn (Db K V)
  timed budget slot c (err e) = (err e, slot, c)
  timed budget slot c (ok now) =
      drain_due now slot (query setup.refuses (λ d. due_rows now budget d.queue) c)

  unfoldable pub drain :
      ℕ → SlotState M → Conn (Db K V) → Result (DrainOutcome K) × SlotState M × Conn (Db K V)
  unfolding drain_rows pending_snapshot
  drain zero slot c = let (r, c') = pending_snapshot setup c in (r, slot, c')
  drain (suc b) slot c = timed (suc b) slot c setup.unix_timestamp
