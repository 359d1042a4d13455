-- ===== src/Push/Returned.antt =====
-- `approximate_ppr_push` returns, with the mass of its seeds, crates/cognis-csar/src/push.rs.
use Prim.Native.String.{String}
use cognis.Base.{
  ℕ, ◌-◌, ◌+◌, ◌*◌, ◌≡◌, ◌≤◌, ap, ◌∙◌, true, List, arith, some, ◌>>=◌, Each, get_or, ℤ, [],
}
use cognis.Scalars.{Scalars}
use cognis.Graph.{CodeGraph, n}
use cognis.Graph.Rows.{shares}
use cognis.Graph.Formed.{IsWellFormed}
use cognis.Push.{
  PushState, PushResult, returned, start, pops, ended, result_of, approximate_ppr_push,
}
use cognis.Push.Tracked.{IsThreshold}
use cognis.Push.Loop.{Reaches}
use cognis.Push.Exact.{IsExact, IsOrdered, total}
use cognis.Push.Mass.{HasDegrees}
use cognis.Push.Rank.{length-active}
use cognis.Push.Seeds.{times, seed_mass, start-IsBalanced}
use cognis.Push.Ended.{IsEnded, pops-IsEnded, work-mass}
use cognis.Push.Entries.{total-nonzero_entries}
use cognis.Push.Outcomes.{is_valid}

ended-empty :
    {S : Type 0} (f : Scalars S) (s : PushState S)
    → s.active ≡ []
    → ended f (some s) ≡ returned (result_of f s)
ended-empty f s e = ground (arith, e)

module _ {K S : Type 0} (f : Scalars S) (g : CodeGraph K S) (alpha eps : S) (exact : IsExact f)
    (order : IsOrdered f) (formed : IsWellFormed f g) (law : IsThreshold f g eps)
    (degrees : HasDegrees f g) where
  module _ (seed : List (ℤ × S)) (c : S) (k rounds : ℕ) where
    start-pops-IsEnded :
        f.le alpha f.one ≡ true
        → f.lt (seed_mass f (n g) seed) (times f k c) ≡ true
        → Each (n g) (λ u. f.le c (f.mul alpha (f.mul eps (get_or f.zero g.degree u))) ≡ true)
        → k * (n g + 1) + n g ≤ rounds
        → Reaches f g eps
            (IsEnded f alpha eps (seed_mass f (n g) seed))
            (start f g alpha eps seed >>= pops f g alpha eps rounds)
    start-pops-IsEnded small above floor enough =
        let r0 : Reaches f g eps _ (start f g alpha eps seed) =
          start-IsBalanced f g alpha eps exact order formed law degrees small seed in
        rw r0.reached (
          pops-IsEnded f g alpha eps exact order formed law degrees small (seed_mass f (n g) seed) c
            k above floor rounds r0.state r0.tracked (r0.holds.0)
            (rw (r0.holds.1) (order.zero_le (f.mul alpha (f.mul eps r0.state.work))))
            (let none_yet : k - r0.state.pushes ≡ k = omega (arith, r0.holds.1) in
              rw none_yet (omega (arith, length-active f g eps r0.state r0.tracked, enough))))

    -- In arithmetic without rounding, on a well-formed graph with degrees over 0 and with parameters
    -- that are not refused, where no node clears its threshold with 0.0 and of `a < b` and `b <= a` one
    -- fails: if the seeds' mass is less than `k` times `c`, and alpha * eps * d is at least `c` for the
    -- degree `d` of each node, then with k (n + 1) + n rounds or more the function returns a result, whose
    -- estimates and residuals add up to the seeds' mass, and alpha * eps times whose work is at most that
    -- mass.
    pub push-returned :
        is_valid f alpha eps ≡ true
        → f.lt (seed_mass f (n g) seed) (times f k c) ≡ true
        → Each (n g) (λ u. f.le c (f.mul alpha (f.mul eps (get_or f.zero g.degree u))) ≡ true)
        → k * (n g + 1) + n g ≤ rounds
        → (display : S → String)
        → (r : PushResult S) × (approximate_ppr_push f g alpha eps display rounds seed ≡ returned r)
          × (f.add (total f (shares r.estimate)) (total f (shares r.residual))
              ≡ seed_mass f (n g) seed)
          × (f.le (f.mul alpha (f.mul eps r.work)) (seed_mass f (n g) seed) ≡ true)
    unfolding approximate_ppr_push
    push-returned valid above floor enough display =
        let small : f.le alpha f.one ≡ true = ground (arith, valid) in
        let e : Reaches f g eps (IsEnded f alpha eps (seed_mass f (n g) seed))
            (start f g alpha eps seed >>= pops f g alpha eps rounds) =
          start-pops-IsEnded small above floor enough in
        let result : ended f (start f g alpha eps seed >>= pops f g alpha eps rounds)
            ≡ returned (result_of f e.state) =
          ap (ended f) e.reached ∙ ended-empty f e.state e.holds.empty in
        (
          result_of f e.state,
          ground (arith, valid, result),
          rw
              (
                total-nonzero_entries f exact 0 e.state.estimate,
                total-nonzero_entries f exact 0 e.state.residual,
              )
              e.holds.balanced.kept,
          work-mass f g alpha eps exact order formed law degrees small (seed_mass f (n g) seed)
              e.state e.holds.balanced,
        )
