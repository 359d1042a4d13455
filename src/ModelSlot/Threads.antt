-- ===== src/ModelSlot/Threads.antt =====
-- Any number of threads on one model slot: which critical sections may follow one another.
use cognis.Base.{ℕ, suc, ◌-◌, ◌<◌, ◌≡◌, ◌⊎◌, inl, inr, refl, Option, none, some, arith}
use cognis.ModelSlot.{
  DemandError, Loaded, SlotState, loading, Turn, borrowed, claimed, evicted, in_flight_count,
  try_borrow, turn, publish, release_borrow, try_idle_evict, from_optional,
}

-- The slot, the threads that run the factory, and the borrows that are alive.
pub record System (M : Type 0) : Type 0 where
  pub slot : SlotState M
  pub loaders : ℕ
  pub borrows : ℕ

module _ {M : Type 0} where
  abbrev pub init : ℕ → Option M → System M
  init now m = record { slot = from_optional now m; loaders = 0; borrows = 0 }

  abbrev pub after_turn : System M → Turn M × SlotState M → System M
  after_turn s (borrowed m, t) = record s { slot = t; borrows = suc s.borrows }
  after_turn s (claimed, t) = record s { slot = t; loaders = suc s.loaders }
  after_turn s (_, t) = record s { slot = t }

  abbrev pub after_publish : System M → (M ⊎ DemandError) × SlotState M → System M
  after_publish s (inl m, t) = record { slot = t; loaders = s.loaders - 1; borrows = suc s.borrows }
  after_publish s (inr e, t) = record s { slot = t; loaders = s.loaders - 1 }

  abbrev pub after_borrow : System M → Option M × SlotState M → System M
  after_borrow s (some m, t) = record s { slot = t; borrows = suc s.borrows }
  after_borrow s (none, t) = record s { slot = t }

  -- Only a thread that runs the factory publishes, and only a live borrow is released.
  pub data Step : System M → System M → Type 0 where
    turning : (s : System M) (now : ℕ) → Step s (after_turn s (turn now s.slot))
    publishing :
        (s : System M) (done wait : ℕ) (factory : Loaded M)
        → 0 < s.loaders
        → Step s (after_publish s (publish done wait factory s.slot))
    borrowing : (s : System M) (now : ℕ) → Step s (after_borrow s (try_borrow now s.slot))
    releasing :
        (s : System M) (now : ℕ)
        → 0 < s.borrows
        → Step s (record s { slot = release_borrow now s.slot; borrows = s.borrows - 1 })
    evicting :
        (s : System M) (now idle_after : ℕ)
        → Step s (record s { slot = (try_idle_evict now idle_after s.slot).1 })

  pub data Reach (s : System M) : System M → Type 0 where
    here : Reach s s
    next : {t u : System M} → Reach s t → Step t u → Reach s u

  abbrev pub running : SlotState M → ℕ
  running (loading n) = 1
  running _ = 0

  -- One loader exactly while the slot is loading, and as many live borrows as the slot counts.
  pub record IsValid (s : System M) : Type 0 where
    pub single_flight : s.loaders ≡ running s.slot
    pub counted : s.borrows ≡ in_flight_count s.slot

  turn-IsValid :
      (slot : SlotState M) (loaders borrows now : ℕ)
      → loaders ≡ running slot
      → borrows ≡ in_flight_count slot
      → IsValid (
          after_turn (record { slot = slot; loaders = loaders; borrows = borrows }) (turn now slot))
  unfolding turn in_flight_count
  turn-IsValid slot loaders borrows now l b = ground arith

  publish-IsValid :
      (slot : SlotState M) (loaders borrows done wait : ℕ) (factory : Loaded M)
      → 0 < loaders
      → loaders ≡ running slot
      → borrows ≡ in_flight_count slot
      → IsValid (
          after_publish
            (record { slot = slot; loaders = loaders; borrows = borrows })
            (publish done wait factory slot))
  unfolding publish in_flight_count
  publish-IsValid slot loaders borrows done wait factory h l b = ground arith

  borrow-IsValid :
      (slot : SlotState M) (loaders borrows now : ℕ)
      → loaders ≡ running slot
      → borrows ≡ in_flight_count slot
      → IsValid (
          after_borrow
            (record { slot = slot; loaders = loaders; borrows = borrows })
            (try_borrow now slot))
  unfolding try_borrow in_flight_count
  borrow-IsValid slot loaders borrows now l b = ground arith

  release-IsValid :
      (s : System M) (now : ℕ)
      → 0 < s.borrows
      → IsValid s
      → IsValid (record s { slot = release_borrow now s.slot; borrows = s.borrows - 1 })
  unfolding release_borrow in_flight_count
  release-IsValid s now h v = ground arith

  evict-IsValid :
      (s : System M) (now idle_after : ℕ)
      → IsValid s
      → IsValid (record s { slot = (try_idle_evict now idle_after s.slot).1 })
  unfolding try_idle_evict in_flight_count
  evict-IsValid s now idle_after v = ground arith

  Step-IsValid : {s t : System M} → Step s t → IsValid s → IsValid t
  Step-IsValid (turning s now) v =
      turn-IsValid s.slot s.loaders s.borrows now v.single_flight v.counted
  Step-IsValid (publishing s done wait factory h) v =
      publish-IsValid s.slot s.loaders s.borrows done wait factory h v.single_flight v.counted
  Step-IsValid (borrowing s now) v =
      borrow-IsValid s.slot s.loaders s.borrows now v.single_flight v.counted
  Step-IsValid (releasing s now h) v = release-IsValid s now h v
  Step-IsValid (evicting s now idle_after) v = evict-IsValid s now idle_after v

  Reach-IsValid : {s t : System M} → IsValid s → Reach s t → IsValid t
  Reach-IsValid v here = v
  Reach-IsValid v (next r st) = Step-IsValid st (Reach-IsValid v r)

  init-IsValid : (now : ℕ) (m : Option M) → IsValid (init now m)
  unfolding from_optional in_flight_count
  init-IsValid now none = record { single_flight = refl; counted = refl }
  init-IsValid now (some m) = record { single_flight = refl; counted = refl }

  -- In every interleaving at most one thread runs the factory, one exactly while the slot is
  -- loading, and the in-flight count is the number of live borrows.
  pub Reach-init-IsValid :
      (now : ℕ) (m : Option M) {t : System M} → Reach (init now m) t → IsValid t
  Reach-init-IsValid now m r = Reach-IsValid (init-IsValid now m) r

  -- A session is never evicted under a live borrow.
  pub evicted-unborrowed :
      (start : ℕ) (m : Option M) (now idle_after : ℕ) {t : System M}
      → Reach (init start m) t
      → (try_idle_evict now idle_after t.slot).0 ≡ evicted
      → t.borrows ≡ 0
  unfolding try_idle_evict in_flight_count
  evicted-unborrowed start m now idle_after {t} r e =
      let v = Reach-init-IsValid start m r in ground (arith, v.counted, e)
