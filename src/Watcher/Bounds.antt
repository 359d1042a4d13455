-- ===== src/Watcher/Bounds.antt =====
-- What holds of the watcher queue between two calls.
use cognis.Base.{ℕ, ◌≤◌, ◌<◌, ◌≡◌, ◌≢◌, true, List, [], ◌∷◌, none, arith, length, length-map}
use cognis.BtreeMap.{KeyOrd, IsSorted, keys, insert}
use cognis.BtreeMap.Laws.{keys-insert, contains_key-has, length-add, has-length, add-IsSorted}
use cognis.Watcher.{
  Observation, WatcherQueue, new, offer, offers, depth, take, Call, offering, taking, run,
}

module _ {K : Type 0} ⦃o : KeyOrd K⦄ where
  pub record IsValid (q : WatcherQueue K) : Type 0 where
    pub sorted : IsSorted (keys q.map)
    pub bounded : length (keys q.map) ≤ q.cap
    pub collapsed : q.overflowed ≡ true → q.map ≡ []
    pub stamped : 0 < depth q → q.last_offer_at ≢ none
    pub unstamped : depth q ≡ 0 → q.last_offer_at ≡ none

  offer-IsValid :
      (now : ℕ) (obs : Observation K) (q : WatcherQueue K) → IsValid q → IsValid (offer now obs q)
  unfolding offer depth
  offer-IsValid now obs q v = ground (
    arith,
    has-length obs.path (keys q.map),
    keys-insert obs.path obs q.map,
    contains_key-has obs.path q.map,
    length-add obs.path (keys q.map),
    add-IsSorted obs.path (keys q.map),
    length-map q.map (λ (e : K × Observation K). e.0),
    length-map (insert obs.path obs q.map) (λ (e : K × Observation K). e.0),
  )

  new-IsValid : (cap : ℕ) → IsValid (new {K = K} cap)
  unfolding depth
  new-IsValid cap = ground arith

  offers-IsValid :
      (os : List (ℕ × Observation K)) (q : WatcherQueue K) → IsValid q → IsValid (offers os q)
  unfolding offers
  offers-IsValid [] q v = v
  offers-IsValid ((now, obs) ∷ os) q v =
      offers-IsValid os (offer now obs q) (offer-IsValid now obs q v)

  take-IsValid : (q : WatcherQueue K) → IsValid q → IsValid (take q).1
  unfolding take depth
  take-IsValid q v = ground arith

  run-IsValid : (cs : List (Call K)) (q : WatcherQueue K) → IsValid q → IsValid (run cs q)
  unfolding run
  run-IsValid [] q v = v
  run-IsValid (offering now obs ∷ cs) q v =
      run-IsValid cs (offer now obs q) (offer-IsValid now obs q v)
  run-IsValid (taking ∷ cs) q v = run-IsValid cs (take q).1 (take-IsValid q v)

  -- Whatever offers and drains come, in any order, the queue keeps its invariant: sorted keys, at
  -- most `cap` entries, none while a reconcile is pending, and a time stamp exactly while work waits.
  pub run-new-IsValid : (cap : ℕ) (cs : List (Call K)) → IsValid (run cs (new cap))
  run-new-IsValid cap cs = run-IsValid cs (new cap) (new-IsValid cap)
