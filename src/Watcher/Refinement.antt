-- ===== src/Watcher/Refinement.antt =====
-- The watcher queue against the set of the paths that were offered.
use cognis.Base.{
  ℕ, ◌≤◌, ◌<◌, ◌≡◌, ◌∙◌, ap, Bool-cases, ◌⊎◌, inl, inr, refl, Bool, true, false, List, [], ◌∷◌,
  Option, none, some, arith, length, length-map, if◌then◌else◌, ltb, ◌||◌, or_false,
}
use cognis.BtreeMap.{KeyOrd, IsSorted, keys, get, has, add}
use cognis.BtreeMap.Laws.{
  keys-insert, contains_key-has, length-add, add-IsSorted, has-add, get-insert,
}
use cognis.Watcher.{
  Observation, PlanRequest, touched, reconcile, WatcherQueue, new, offer, offers, take,
}

module _ {K : Type 0} ⦃o : KeyOrd K⦄ where
  -- The distinct paths of the observations, in order, added to those of `ks`.
  abbrev pub paths_from : List K → List (ℕ × Observation K) → List K
  paths_from ks [] = ks
  paths_from ks ((now, obs) ∷ os) = paths_from (add obs.path ks) os

  abbrev pub distinct_paths : List (ℕ × Observation K) → List K
  distinct_paths = paths_from []

  -- Some observation is of this path.
  abbrev pub offered : K → List (ℕ × Observation K) → Bool
  offered p [] = false
  offered p ((now, obs) ∷ os) = o.eq p obs.path || offered p os

  -- What the planner is to be told: nothing, every path, or to diff the whole tree.
  abbrev pub request : ℕ → List K → Option (PlanRequest K)
  request cap [] = none
  request cap (p ∷ ps) =
      if ltb cap (length (p ∷ ps)) then some reconcile else some (touched (p ∷ ps))

  abbrev Tracks : List K → WatcherQueue K → Type 0
  Tracks ks q =
      ((q.overflowed ≡ false) × (keys q.map ≡ ks) × (length ks ≤ q.cap))
      ⊎ ((q.overflowed ≡ true) × (q.cap < length ks))

  offer-Tracks :
      (now : ℕ) (obs : Observation K) (ks : List K) (q : WatcherQueue K)
      → Tracks ks q
      → Tracks (add obs.path ks) (offer now obs q)
  unfolding offer
  offer-Tracks now obs ks q t = ground (
    arith,
    keys-insert obs.path obs q.map,
    contains_key-has obs.path q.map,
    length-add obs.path ks,
    length-map q.map (λ (e : K × Observation K). e.0),
  )

  offer-cap : (now : ℕ) (obs : Observation K) (q : WatcherQueue K) → (offer now obs q).cap ≡ q.cap
  unfolding offer
  offer-cap now obs q = ground arith

  offers-Tracks :
      (os : List (ℕ × Observation K)) (ks : List K) (q : WatcherQueue K)
      → Tracks ks q
      → Tracks (paths_from ks os) (offers os q) × ((offers os q).cap ≡ q.cap)
  unfolding offers
  offers-Tracks [] ks q t = (t, refl)
  offers-Tracks ((now, obs) ∷ os) ks q t =
      let (t', c) =
        offers-Tracks os (add obs.path ks) (offer now obs q) (offer-Tracks now obs ks q t) in
      (t', c ∙ offer-cap now obs q)

  take_kept :
      (q : WatcherQueue K) (m : List (K × Observation K))
      → q.map ≡ m
      → q.overflowed ≡ false
      → length (keys m) ≤ q.cap
      → (take q).0 ≡ request q.cap (keys m)
  unfolding take
  take_kept q [] e f h = ground arith
  take_kept q (x ∷ m) e f h = ground arith

  take_collapsed :
      (q : WatcherQueue K) (ks : List K)
      → q.overflowed ≡ true
      → q.cap < length ks
      → (take q).0 ≡ request q.cap ks
  unfolding take
  take_collapsed q [] f h = absurd (omega arith)
  take_collapsed q (k ∷ ks) f h = ground arith

  take-Tracks : (ks : List K) (q : WatcherQueue K) → Tracks ks q → (take q).0 ≡ request q.cap ks
  unfolding take
  take-Tracks ks q (inl (f, e, h)) = rw (← e) (take_kept q q.map refl f (rw e h))
  take-Tracks ks q (inr (f, h)) = take_collapsed q ks f h

  -- After any burst of offers the next drain tells the planner nothing if there was none, to
  -- reconcile the whole tree if more distinct paths came than the cap, and else the distinct paths.
  pub take-offers :
      (cap : ℕ) (os : List (ℕ × Observation K))
      → (take (offers os (new cap))).0 ≡ request cap (distinct_paths os)
  take-offers cap os =
      let (t, c) = offers-Tracks os [] (new cap) (inl (refl, refl, omega arith)) in
      take-Tracks (distinct_paths os) (offers os (new cap)) t
      ∙ ap (λ n. request n (distinct_paths os)) c

  paths_from-IsSorted :
      (ks : List K) (os : List (ℕ × Observation K)) → IsSorted ks → IsSorted (paths_from ks os)
  paths_from-IsSorted ks [] s = s
  paths_from-IsSorted ks ((now, obs) ∷ os) s =
      paths_from-IsSorted (add obs.path ks) os (add-IsSorted obs.path ks s)

  has-paths_from :
      (p : K) (ks : List K) (os : List (ℕ × Observation K))
      → has p (paths_from ks os) ≡ offered p os || has p ks
  has-paths_from p ks [] = refl
  has-paths_from p ks ((now, obs) ∷ os) =
      ground (arith, has-paths_from p (add obs.path ks) os, has-add obs.path p ks)

  -- The set that the planner is told is strictly sorted, and holds a path exactly if it was offered.
  pub distinct_paths_lem :
      (os : List (ℕ × Observation K)) (p : K)
      → IsSorted (distinct_paths os) × (has p (distinct_paths os) ≡ offered p os)
  unfolding has
  distinct_paths_lem os p =
      (paths_from-IsSorted [] os tt, has-paths_from p [] os ∙ or_false (offered p os))

  -- The newest observation of a path, or `before`.
  abbrev pub latest : K → Option (Observation K) → List (ℕ × Observation K) → Option (Observation K)
  latest p before [] = before
  latest p before ((now, obs) ∷ os) = latest p (if o.eq p obs.path then some obs else before) os

  overflowed_stays :
      (os : List (ℕ × Observation K)) (q : WatcherQueue K)
      → q.overflowed ≡ true
      → (offers os q).overflowed ≡ true
  unfolding offers offer
  overflowed_stays [] q h = h
  overflowed_stays ((now, obs) ∷ os) q h = overflowed_stays os (offer now obs q) (ground arith)

  get-offer :
      (p : K) (now : ℕ) (obs : Observation K) (q : WatcherQueue K)
      → (offer now obs q).overflowed ≡ false
      → get p (offer now obs q).map ≡ (if o.eq p obs.path then some obs else get p q.map)
  unfolding offer
  get-offer p now obs q h = ground (arith, get-insert obs.path p obs q.map)

  get-offers_from :
      (p : K) (os : List (ℕ × Observation K)) (q : WatcherQueue K)
      → (offers os q).overflowed ≡ false
      → get p (offers os q).map ≡ latest p (get p q.map) os
  unfolding offers
  get-offers_from p [] q h = refl
  get-offers_from p ((now, obs) ∷ os) q h = elim (Bool-cases (offer now obs q).overflowed) [
    | inl stuck ↦ cc (overflowed_stays os (offer now obs q) stuck)
    | inr free ↦ rw (← get-offer p now obs q free) (get-offers_from p os (offer now obs q) h)
  ]

  -- Latest wins: while the queue has not collapsed, the entry of a path is its newest observation.
  pub get-offers :
      (p : K) (cap : ℕ) (os : List (ℕ × Observation K))
      → (offers os (new cap)).overflowed ≡ false
      → get p (offers os (new cap)).map ≡ latest p none os
  unfolding get
  get-offers p cap os h = get-offers_from p os (new cap) h
