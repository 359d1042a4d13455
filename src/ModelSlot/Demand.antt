-- ===== src/ModelSlot/Demand.antt =====
-- One thread's demands on the model slot: what they return, and the failure cooldown.
use cognis.Base.{
  ℕ, zero, suc, ◌+◌, ◌-◌, ◌≤◌, ◌≡◌, ◌≢◌, ◌⊎◌, ◌↔◌, inl, inr, refl, Bool, true, false, some, arith,
  ltb, if◌then◌else◌,
}
use cognis.ModelSlot.{
  Loaded, built, error, DemandError, cooldown, load_failed, SlotState, empty, loading, ready,
  failed, Turn, borrowed, cooling, again, waiting, EvictOutcome, evicted, in_flight_count,
  last_used, turn, publish, try_idle_evict, borrow_or_load,
}

abbrev pub is_evicted : EvictOutcome → Bool
is_evicted evicted = true
is_evicted _ = false

module _ {M : Type 0} where
  abbrev pub IsLoading : SlotState M → Type 0
  IsLoading (loading n) = Unit {0}
  IsLoading _ = ⊥

  -- The outcome of running the factory: the model with one borrow, or a failure that is remembered
  -- until the cooldown ends.
  abbrev pub fresh : ℕ → ℕ → Loaded M → (M ⊎ DemandError) × SlotState M
  fresh done wait (built m) = (inl m, ready m 1 done)
  fresh done wait (error message) = (inr (load_failed message), failed (done + wait) message)

  -- What a demand is to return, and the slot that it is to leave.
  abbrev pub demanded : ℕ → ℕ → ℕ → Loaded M → SlotState M → (M ⊎ DemandError) × SlotState M
  demanded now done wait factory (ready m n t) = (inl m, ready m (suc n) now)
  demanded now done wait factory (failed until message) =
      if ltb now until
      then (inr (cooldown until message), failed until message)
      else fresh done wait factory
  demanded now done wait factory _ = fresh done wait factory

  -- Unless another thread is loading, two turns of the loop suffice: a resident model is borrowed, a
  -- cooldown that has not ended is reported, and in every other case the factory runs once.
  pub borrow_or_load_total :
      (fuel now done wait : ℕ) (factory : Loaded M) (s : SlotState M)
      → ¬ IsLoading s
      → borrow_or_load (suc (suc fuel)) now done wait factory s
        ≡ some (demanded now done wait factory s)
  unfolding borrow_or_load
  borrow_or_load_total fuel now done wait factory empty h = ground arith
  borrow_or_load_total fuel now done wait factory (loading n) h = absurd (h tt)
  borrow_or_load_total fuel now done wait factory (ready m n t) h = refl
  borrow_or_load_total fuel now done wait factory (failed until message) h = ground arith

  -- What a thread that waited for a load finds: the model if it was built, and else the loader's
  -- message while the cooldown runs, or the way to a load of its own after it.
  abbrev pub found : ℕ → ℕ → ℕ → Loaded M → Turn M
  found done wait now (built m) = borrowed m
  found done wait now (error message) =
      if ltb now (done + wait) then cooling (done + wait) message else again

  -- A thread that wakes after a publication sees the loader's outcome, and never waits again for it.
  pub turn-publish :
      (done wait now : ℕ) (factory : Loaded M) (s : SlotState M)
      → ((turn now (publish done wait factory s).1).0 ≡ found done wait now factory)
        × ((turn now (publish done wait factory s).1).0 ≢ waiting)
  unfolding turn publish
  turn-publish done wait now (built m) s = (refl, λ e. cc)
  turn-publish done wait now (error message) s = (ground arith, λ e. ground arith)

  -- An eviction succeeds exactly if a model is resident with no borrow in flight and unused for the
  -- idle interval; it then empties the slot, and otherwise changes nothing.
  pub try_idle_evict_iff :
      (now idle_after : ℕ) (s : SlotState M)
      → (((try_idle_evict now idle_after s).0 ≡ evicted)
          ↔ ((in_flight_count s ≡ 0) × ((t : ℕ) × (last_used s ≡ some t) × (idle_after ≤ now - t))))
        × ((try_idle_evict now idle_after s).1
            ≡ (if is_evicted (try_idle_evict now idle_after s).0 then empty else s))
  unfolding try_idle_evict in_flight_count last_used
  try_idle_evict_iff now idle_after (ready m zero t) =
      ((λ e. (refl, (t, refl, ground arith)), λ h. ground arith), ground arith)
  try_idle_evict_iff now idle_after (ready m (suc n) t) =
      (((λ e. cc), λ h. absurd (omega arith)), refl)
  try_idle_evict_iff now idle_after _ = (((λ e. cc), λ h. cc), refl)
