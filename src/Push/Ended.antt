-- ===== src/Push/Ended.antt =====
-- The push loop ends, crates/cognis-csar/src/push.rs.
use cognis.Base.{
  ℕ, zero, suc, ◌+◌, ◌-◌, ◌*◌, ◌≡◌, ◌<◌, ◌≤◌, refl, ap, subst, ◌∙◌, ◌⊎◌, inl, inr, true, List, [],
  ◌∷◌, arith, length, ltb, get_or, Each, Each-apply, get_or-get_elem?, Bool-cases,
}
use cognis.Scalars.{Scalars}
use cognis.Graph.{CodeGraph, n}
use cognis.Graph.Rows.{sum_from}
use cognis.Graph.Formed.{IsWellFormed}
use cognis.Push.{PushState, pops, next_pop}
use cognis.Push.Tracked.{IsTracked, IsThreshold}
use cognis.Push.Popped.{IsDrop, IsPush, pop_node-IsTracked}
use cognis.Push.Rounds.{nobody}
use cognis.Push.Loop.{Reaches}
use cognis.Push.Exact.{IsExact, IsOrdered, total, add-zero}
use cognis.Push.Mass.{mass, HasDegrees, IsBalanced, round-IsBalanced}
use cognis.Push.Rank.{length-active}
use cognis.Push.Seeds.{times, times_mono}

no_length : {A : Type 0} (xs : List A) → length xs ≡ 0 → xs ≡ []
no_length [] h = refl
no_length (x ∷ xs) h = absurd (omega arith)

-- The state of a loop that has ended.
pub record IsEnded {S : Type 0} (f : Scalars S) (alpha eps m : S) (s : PushState S) : Type 0 where
  pub balanced : IsBalanced f alpha eps m s
  pub empty : s.active ≡ []

module _ {S : Type 0} (f : Scalars S) (alpha eps : S) where
  -- So many pushes cost at least `c` each.
  abbrev pub IsCounted : S → PushState S → Type 0
  IsCounted c s = f.le (times f s.pushes c) (f.mul alpha (f.mul eps s.work)) ≡ true

  -- The rounds that a state has left, if at most `k` pushes are made on `n` nodes.
  abbrev pub rank : ℕ → ℕ → PushState S → ℕ
  rank k n s = (k - s.pushes) * (n + 1) + length s.active

module _ {K S : Type 0} (f : Scalars S) (g : CodeGraph K S) (alpha eps : S) (exact : IsExact f)
    (order : IsOrdered f) (formed : IsWellFormed f g) (law : IsThreshold f g eps)
    (degrees : HasDegrees f g) (small : f.le alpha f.one ≡ true) where
  estimate-mass : (s : PushState S) → f.le (total f s.estimate) (mass f s) ≡ true
  estimate-mass s =
      subst (λ x. f.le x (mass f s) ≡ true) (add-zero f exact (total f s.estimate))
        (order.add_mono (total f s.estimate) (total f s.estimate) f.zero (total f s.residual)
          (order.le_refl (total f s.estimate)) (order.zero_le (total f s.residual)))

  -- The work is bounded by the mass.
  pub work-mass :
      (m : S) (s : PushState S)
      → IsBalanced f alpha eps m s
      → f.le (f.mul alpha (f.mul eps s.work)) m ≡ true
  work-mass m s b =
      subst (λ x. f.le (f.mul alpha (f.mul eps s.work)) x ≡ true) b.kept
        (order.le_trans _ (total f s.estimate) (mass f s) b.paid (estimate-mass s))

  module _ (m c : S) (k : ℕ) (above : f.lt m (times f k c) ≡ true)
      (floor : Each
        (n g)
        (λ u. f.le c (f.mul alpha (f.mul eps (get_or f.zero g.degree u))) ≡ true)) where
    pushes-lt :
        (s : PushState S) → IsBalanced f alpha eps m s → IsCounted f alpha eps c s → s.pushes < k
    pushes-lt s b counted = elim (Bool-cases (ltb s.pushes k)) [
      | inl below ↦ ground (arith, below)
      | inr over ↦
          let reached : f.le (times f k c) m ≡ true =
            order.le_trans _ _ _
              (order.le_trans _ _ _ (times_mono f exact order c k s.pushes (ground (arith, over)))
                counted)
              (work-mass m s b) in
          absurd (ground (arith, law.apart m (times f k c), reached, above))
    ]

    round-IsCounted :
        (u : ℕ) (s s' : PushState S)
        → IsDrop s s' ⊎ IsPush f g alpha eps u s s'
        → IsCounted f alpha eps c s
        → IsCounted f alpha eps c s'
    round-IsCounted u s s' (inl same) counted = rw (same.pushes, same.work) counted
    round-IsCounted u s s' (inr p) counted =
        let d : S = sum_from f f.zero p.node.row in
        let one_more : f.le c (f.mul alpha (f.mul eps d)) ≡ true =
          subst (λ x. f.le c (f.mul alpha (f.mul eps x)) ≡ true)
            (get_or-get_elem? f.zero g.degree u p.node.degree_eq)
            (Each-apply (λ v. f.le c (f.mul alpha (f.mul eps (get_or f.zero g.degree v))) ≡ true)
              (n g) u p.in_range floor) in
        let cost : f.mul alpha (f.mul eps s'.work)
            ≡ f.add (f.mul alpha (f.mul eps d)) (f.mul alpha (f.mul eps s.work)) =
          ap (λ x. f.mul alpha (f.mul eps x)) (p.work ∙ exact.add_comm s.work d)
          ∙ ap (f.mul alpha) (exact.mul_add eps d s.work)
          ∙ exact.mul_add alpha (f.mul eps d) (f.mul eps s.work) in
        rw (p.pushes, cost) (order.add_mono _ _ _ _ one_more counted)

    rank-lt :
        (u : ℕ) (s s' : PushState S)
        → IsTracked f g eps nobody s'
        → IsDrop s s' ⊎ IsPush f g alpha eps u s s'
        → s'.pushes < k
        → 0 < length s.active
        → rank f alpha eps k (n g) s' < rank f alpha eps k (n g) s
    rank-lt u s s' t (inl same) h some_left = rw same.pushes (omega (arith, same.shorter))
    rank-lt u s s' t (inr p) h some_left =
        let e : k - s.pushes ≡ suc (k - s'.pushes) = omega (arith, p.pushes) in
        rw e (omega (arith, length-active f g eps s' t))

    -- With as many rounds as its rank the loop ends.
    pub pops-IsEnded :
        (rounds : ℕ) (s : PushState S)
        → IsTracked f g eps nobody s
        → IsBalanced f alpha eps m s
        → IsCounted f alpha eps c s
        → rank f alpha eps k (n g) s ≤ rounds
        → Reaches f g eps (IsEnded f alpha eps m) (pops f g alpha eps rounds s)
    unfolding pops
    pops-IsEnded zero s t b counted h = record {
      state = s;
      reached = refl;
      tracked = t;
      holds = record { balanced = b; empty = no_length s.active (omega arith) };
    }
    pops-IsEnded (suc rounds) s t b counted h = from (pops-IsEnded rounds) s.active refl
      where
        from :
            ((s1 : PushState S)
              → IsTracked f g eps nobody s1
              → IsBalanced f alpha eps m s1
              → IsCounted f alpha eps c s1
              → rank f alpha eps k (n g) s1 ≤ rounds
              → Reaches f g eps (IsEnded f alpha eps m) (pops f g alpha eps rounds s1))
            → (us : List ℕ) → s.active ≡ us
            → Reaches f g eps
                (IsEnded f alpha eps m)
                (next_pop f g alpha eps (pops f g alpha eps rounds) us s)
        from later [] e = record {
          state = s;
          reached = refl;
          tracked = t;
          holds = record { balanced = b; empty = e };
        }
        from later (u ∷ rest) e =
            let (s1, done, t1, round) = pop_node-IsTracked f g alpha eps formed law s u rest e t in
            let b1 : IsBalanced f alpha eps m s1 =
              round-IsBalanced f g alpha eps exact degrees small order m u s s1 t round b in
            let c1 : IsCounted f alpha eps c s1 = round-IsCounted u s s1 round counted in
            let less : rank f alpha eps k (n g) s1 < rank f alpha eps k (n g) s =
              rank-lt u s s1 t1 round (pushes-lt s1 b1 c1) (omega (arith, ap length e)) in
            rw done (later s1 t1 b1 c1 (omega (arith, less, h)))
