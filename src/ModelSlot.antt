-- ===== src/ModelSlot.antt =====
-- The lazy, single-flight holder of the embedding model, crates/cognis-embed/src/lifecycle.rs.
-- The slot is behind one mutex, so each critical section is one step on the slot's state; the factory
-- runs outside the lock, between a claim and a publication. An embedder is any type, a borrow is the
-- embedder that it holds, an `Instant` and a `Duration` are numbers of one unit.
pub mod Demand
pub mod Threads
mod Tests
use Prim.Native.String.{String}
use cognis.Base.{
  ℕ, zero, suc, ◌+◌, ◌-◌, Bool, true, false, Option, none, some, ltb, if◌then◌else◌, ◌⊎◌, inl, inr,
}

-- The factory's `Result`: the error is kept as its text.
pub data Loaded (M : Type 0) : Type 0 where
  built : M → Loaded M
  error : String → Loaded M

pub data DemandError : Type 0 where
  cooldown : ℕ → String → DemandError
  load_failed : String → DemandError

pub data EvictOutcome : Type 0 where
  evicted already_empty : EvictOutcome
  in_flight : ℕ → EvictOutcome
  not_idle : ℕ → ℕ → EvictOutcome

pub data SlotState (M : Type 0) : Type 0 where
  empty : SlotState M
  -- the diagnostic waiter count
  loading : ℕ → SlotState M
  -- the embedder, the in-flight count and the time of the last use
  ready : M → ℕ → ℕ → SlotState M
  -- the end of the cooldown and the message
  failed : ℕ → String → SlotState M

-- What one turn of the loop in `borrow_or_load` comes to. `waiting` is the wait on the condition
-- variable, `again` the plain `continue`, `claimed` the way to `run_factory_and_borrow`.
pub data Turn (M : Type 0) : Type 0 where
  borrowed : M → Turn M
  cooling : ℕ → String → Turn M
  again waiting claimed : Turn M

module _ {M : Type 0} where
  unfoldable pub from_optional : ℕ → Option M → SlotState M
  from_optional now none = empty
  from_optional now (some m) = ready m 0 now

  unfoldable pub is_loaded : SlotState M → Bool
  is_loaded (ready m n t) = true
  is_loaded _ = false

  unfoldable pub in_flight_count : SlotState M → ℕ
  in_flight_count (ready m n t) = n
  in_flight_count _ = 0

  unfoldable pub last_used : SlotState M → Option ℕ
  last_used (ready m n t) = some t
  last_used _ = none

  unfoldable pub try_borrow : ℕ → SlotState M → Option M × SlotState M
  try_borrow now (ready m n t) = (some m, ready m (suc n) now)
  try_borrow now s = (none, s)

  unfoldable pub turn : ℕ → SlotState M → Turn M × SlotState M
  turn now (ready m n t) = (borrowed m, ready m (suc n) now)
  turn now (failed until message) =
      if ltb now until then (cooling until message, failed until message) else (again, empty)
  turn now (loading waiters) = (waiting, loading (suc waiters))
  turn now empty = (claimed, loading 0)

  -- The end of `run_factory_and_borrow`, at the time `done`, in whatever state the slot is then.
  unfoldable pub publish : ℕ → ℕ → Loaded M → SlotState M → (M ⊎ DemandError) × SlotState M
  publish done wait (built m) s = (inl m, ready m 1 done)
  publish done wait (error message) s = (inr (load_failed message), failed (done + wait) message)

  unfoldable pub release_borrow : ℕ → SlotState M → SlotState M
  release_borrow now (ready m n t) = ready m (n - 1) now
  release_borrow now s = s

  -- `Instant::elapsed` is 0 for a time in the future, as the truncated difference is.
  unfoldable pub try_idle_evict : ℕ → ℕ → SlotState M → EvictOutcome × SlotState M
  try_idle_evict now idle_after (ready m (suc n) t) = (in_flight (suc n), ready m (suc n) t)
  try_idle_evict now idle_after (ready m zero t) =
      if ltb (now - t) idle_after
      then (not_idle (now - t) idle_after, ready m zero t)
      else (evicted, empty)
  try_idle_evict now idle_after s = (already_empty, s)

  unfoldable pub try_evict : ℕ → SlotState M → EvictOutcome × SlotState M
  try_evict now s = try_idle_evict now 0 s

  -- `borrow_or_load` by one thread while no other comes between; `none` is a wait that nobody ends,
  -- or the end of the fuel. `now` is the time of the turns, `done` that of the publication.
  unfoldable pub borrow_or_load :
      ℕ → ℕ → ℕ → ℕ → Loaded M → SlotState M → Option ((M ⊎ DemandError) × SlotState M)
  unfolding turn publish
  borrow_or_load zero now done wait factory s = none
  borrow_or_load (suc fuel) now done wait factory s =
      let (t, s') = turn now s in
      elim t [
        | borrowed m ↦ some (inl m, s')
        | cooling until message ↦ some (inr (cooldown until message), s')
        | again ↦ borrow_or_load fuel now done wait factory s'
        | waiting ↦ none
        | claimed ↦ some (publish done wait factory s')
      ]

  -- A borrow that is dropped at once, at the time `drop`.
  unfoldable pub warm_with :
      ℕ → ℕ → ℕ → ℕ → ℕ → Loaded M → SlotState M → Option (Option DemandError × SlotState M)
  warm_with fuel now done drop wait factory s = elim (borrow_or_load fuel now done wait factory s) [
    | none ↦ none
    | some (r, s') ↦ elim r [
      | inl m ↦ some (none, release_borrow drop s')
      | inr e ↦ some (some e, s')
    ]
  ]
