-- ===== src/ModelSlot/Tests.antt =====
-- Tests of the model slot, with numbers for embedders, and its theorems at concrete states.
use cognis.Base.{ℕ, ◌≡◌, refl, inl, none, some, arith}
use cognis.ModelSlot.{
  Loaded, built, error, SlotState, empty, ready, failed, from_optional, turn, publish,
  release_borrow, borrow_or_load,
}
use cognis.ModelSlot.Threads.{
  System, init, turning, publishing, releasing, Reach, here, next, IsValid, Reach-init-IsValid,
}
use cognis.ModelSlot.Demand.{demanded, borrow_or_load_total}

abbrev failing : Loaded ℕ
failing = error "missing asset"

first_demand : borrow_or_load {M = ℕ} 2 10 12 30 (built 7) empty ≡ some (inl 7, ready 7 1 12)
unfolding borrow_or_load
first_demand = refl

-- One thread loads the model, borrows it and drops it; then the slot is evicted.
abbrev loading_thread : System ℕ
loading_thread = record { slot = SlotState.loading 0; loaders = 1; borrows = 0 }

abbrev lent : System ℕ
lent = record { slot = ready 7 1 12; loaders = 0; borrows = 1 }

abbrev returned : System ℕ
returned = record { slot = ready 7 0 20; loaders = 0; borrows = 0 }

loads : Reach (init {M = ℕ} 0 none) loading_thread
unfolding from_optional turn
loads = next here (turning (init 0 none) 10)

lends : Reach (init {M = ℕ} 0 none) lent
unfolding publish
lends = next loads (publishing loading_thread 12 30 (built 7) (omega arith))

returns : Reach (init {M = ℕ} 0 none) returned
unfolding release_borrow
returns = next lends (releasing lent 20 (omega arith))

Reach-init-IsValid_example : IsValid lent
Reach-init-IsValid_example = Reach-init-IsValid 0 none lends

borrow_or_load_total_example :
    borrow_or_load 2 50 51 30 failing (failed 40 "busy")
    ≡ some (demanded 50 51 30 failing (failed 40 "busy"))
borrow_or_load_total_example = borrow_or_load_total 0 50 51 30 failing (failed 40 "busy") (λ h. h)
