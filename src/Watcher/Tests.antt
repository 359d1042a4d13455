-- ===== src/Watcher/Tests.antt =====
-- The watcher queue over numbered paths: tests, and the theorems at concrete bursts.
use cognis.Base.{ℕ, ◌≡◌, refl, List, [], ◌∷◌, some}
use cognis.BtreeMap.{nat_order, IsSorted, contains_key, insert, has}
use cognis.Watcher.{
  Observation, ObservationKind, touched, reconcile, Call, offering, taking, new, offer, offers,
  take,
}
use cognis.Watcher.Refinement.{distinct_paths, offered, request, take-offers, distinct_paths_lem}

abbrev created : ℕ → Observation ℕ
created p = record { path = p; kind = ObservationKind.create }

abbrev deleted : ℕ → Observation ℕ
deleted p = record { path = p; kind = ObservationKind.delete }

abbrev burst : List (ℕ × Observation ℕ)
burst = (10, created 7) ∷ (11, created 3) ∷ (12, deleted 7) ∷ []

burst_touched : (take (offers burst (new 2))).0 ≡ some (touched (3 ∷ 7 ∷ []))
unfolding take offers offer insert contains_key
burst_touched = refl

burst_reconcile : (take (offers burst (new 1))).0 ≡ some reconcile
unfolding take offers offer insert contains_key
burst_reconcile = refl

take-offers_example : (take (offers burst (new 2))).0 ≡ request 2 (distinct_paths burst)
take-offers_example = take-offers 2 burst

burst_paths : IsSorted (distinct_paths burst) × (has 3 (distinct_paths burst) ≡ offered 3 burst)
burst_paths = distinct_paths_lem burst 3

abbrev calls : List (Call ℕ)
calls = offering 1 (created 4) ∷ taking ∷ offering 2 (created 5) ∷ offering 3 (created 6) ∷ []
