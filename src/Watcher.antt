-- ===== src/Watcher.antt =====
-- The bounded, latest-wins queue between the file watcher and the planner,
-- crates/cognis-owner/src/queue.rs. Every method runs under the queue's mutex, so a method is one
-- step on the record. A path is any type with an order; `Instant::now()` is the argument `now`.
pub mod Bounds
pub mod Refinement
mod Tests
use cognis.Base.{
  ℕ, Bool, true, false, ◌||◌, List, [], ◌∷◌, Option, none, some, length, leb, ◌==◌, if◌then◌else◌,
}
use cognis.BtreeMap.{KeyOrd, contains_key, insert, keys}

pub data ObservationKind : Type 0 where
  create modify delete : ObservationKind

pub record Observation (K : Type 0) : Type 0 where
  pub path : K
  pub kind : ObservationKind

-- The planner's request, crates/cognis-indexer/src/planner.rs.
pub data PlanRequest (K : Type 0) : Type 0 where
  touched : List K → PlanRequest K
  reconcile full : PlanRequest K

pub record WatcherQueue (K : Type 0) : Type 0 where
  pub map : List (K × Observation K)
  pub cap : ℕ
  pub overflowed : Bool
  pub last_offer_at : Option ℕ

-- A call of the watcher thread or of the planner's loop.
pub data Call (K : Type 0) : Type 0 where
  offering : ℕ → Observation K → Call K
  taking : Call K

abbrev pub new : {K : Type 0} → ℕ → WatcherQueue K
new cap = record { map = []; cap = cap; overflowed = false; last_offer_at = none }

module _ {K : Type 0} ⦃o : KeyOrd K⦄ where
  -- The guards of `offer`, once the time is recorded.
  enqueue : Observation K → WatcherQueue K → WatcherQueue K
  enqueue obs q =
      if q.overflowed
      then q
      else if contains_key obs.path q.map
      then record q { map = insert obs.path obs q.map }
      else if q.cap == 0 || leb q.cap (length q.map)
      then record q { map = []; overflowed = true }
      else record q { map = insert obs.path obs q.map }

  unfoldable pub offer : ℕ → Observation K → WatcherQueue K → WatcherQueue K
  unfolding enqueue
  offer now obs q = enqueue obs (record q { last_offer_at = some now })

  unfoldable pub depth : WatcherQueue K → ℕ
  depth q = if q.overflowed then 1 else length q.map

  is_empty : List (K × Observation K) → Bool
  is_empty [] = true
  is_empty (e ∷ m) = false

  unfoldable pub take : WatcherQueue K → Option (PlanRequest K) × WatcherQueue K
  unfolding is_empty
  take q =
      if q.overflowed
      then (some reconcile, record q { overflowed = false; map = []; last_offer_at = none })
      else if is_empty q.map
      then (none, q)
      else (some (touched (keys q.map)), record q { map = []; last_offer_at = none })

  -- The watcher's callbacks between two drains, each with its time.
  unfoldable pub offers : List (ℕ × Observation K) → WatcherQueue K → WatcherQueue K
  offers [] q = q
  offers ((now, obs) ∷ rest) q = offers rest (offer now obs q)

  -- Any calls, in the order in which they get the mutex.
  unfoldable pub run : List (Call K) → WatcherQueue K → WatcherQueue K
  run [] q = q
  run (offering now obs ∷ cs) q = run cs (offer now obs q)
  run (taking ∷ cs) q = run cs (take q).1
