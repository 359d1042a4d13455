-- ===== src/Push/Outcomes.antt =====
-- How `approximate_ppr_push` ends, crates/cognis-csar/src/push.rs.
use Prim.Native.String.{String}
use cognis.Base.{
  ℕ, ◌^◌, ◌≡◌, ◌≢◌, ◌≤◌, refl, ap, ◌⊎◌, inl, inr, Bool, true, false, not, ◌&&◌, ◌||◌, List, [], ◌∷◌,
  arith, some, ◌>>=◌, Each, Each-apply, Each-map, ℤ, as_i32,
}
use cognis.Scalars.{Scalars, ge, gt}
use cognis.Graph.{CodeGraph, n}
use cognis.Graph.Formed.{IsWellFormed}
use cognis.Push.{
  PushState, PushResult, Outcome, refused, panicked, running, returned, start, pops, result_of,
  ended, approximate_ppr_push,
}
use cognis.Push.Tracked.{mem, IsTracked, IsThreshold, threshold}
use cognis.Push.Rounds.{nobody}
use cognis.Push.Loop.{Reaches, start-IsTracked, pops_inv}
use cognis.Push.Entries.{value_at, value_at-nonzero_entries}

abbrev pub is_refused : {R : Type 0} → Outcome R → Bool
is_refused (refused e) = true
is_refused panicked = false
is_refused running = false
is_refused (returned r) = false

List-cases : {A : Type 0} (xs : List A) → (xs ≡ []) ⊎ ((y : A) × (ys : List A) × (xs ≡ y ∷ ys))
List-cases [] = inl refl
List-cases (y ∷ ys) = inr (y, ys, refl)

pub ended-returned :
    {S : Type 0} (f : Scalars S) (s : PushState S) (r : PushResult S)
    → ended f (some s) ≡ returned r
    → (s.active ≡ []) × (r ≡ result_of f s)
ended-returned f s r h = ground (arith, List-cases s.active)

-- The parameters that the function takes.
abbrev pub is_valid : {S : Type 0} → Scalars S → S → S → Bool
is_valid f alpha eps =
    (gt f alpha f.zero && f.le alpha f.one) && not (f.is_nan eps || f.le eps f.zero)

module _ {K S : Type 0} (f : Scalars S) (g : CodeGraph K S) (alpha eps : S)
    (formed : IsWellFormed f g) (law : IsThreshold f g eps) where
  -- On a well-formed graph, in whatever arithmetic, if no node clears its threshold with 0.0 and of
  -- `a < b` and `b <= a` one fails: the loop does not panic, and after any number of rounds the flags
  -- say which nodes are on the worklist, none is on it twice, and each node that is not on it is
  -- below its threshold.
  pub start-pops-IsTracked :
      (seed : List (ℤ × S)) (rounds : ℕ)
      → (s : PushState S) × ((start f g alpha eps seed >>= pops f g alpha eps rounds) ≡ some s)
        × IsTracked f g eps nobody s
  start-pops-IsTracked seed rounds =
      let (s, done, t, _) = start-IsTracked f g alpha eps formed law seed in
      let r : Reaches f g eps (λ _. Unit {0}) (pops f g alpha eps rounds s) =
        pops_inv f g alpha eps formed law (λ _. Unit {0}) (λ u s s' t r p. tt) rounds s t tt in
      (r.state, rw done r.reached, r.tracked)

  module _ (display : S → String) (rounds : ℕ) (seed : List (ℤ × S)) where
    -- On a well-formed graph, in whatever arithmetic, if no node clears its threshold with 0.0 and of
    -- `a < b` and `b <= a` one fails: the function does not panic, and it refuses exactly where alpha is
    -- not over 0 and at most 1, or eps is NaN or at most 0.
    pub is_refused-is_valid :
        (approximate_ppr_push f g alpha eps display rounds seed ≢ panicked)
        × (is_refused (approximate_ppr_push f g alpha eps display rounds seed)
            ≡ not (is_valid f alpha eps))
    unfolding approximate_ppr_push
    is_refused-is_valid =
        let (s, done, t) = start-pops-IsTracked seed rounds in
        rw done (ground (arith, List-cases s.active))

    -- On a well-formed graph of at most 2³¹ nodes, in whatever arithmetic, if no node clears its threshold
    -- with 0.0 and of `a < b` and `b <= a` one fails: where the function returns, no node's residual in the
    -- result, 0.0 if it has none, clears the node's threshold.
    pub push-below :
        (r : PushResult S)
        → n g ≤ 2 ^ 31
        → approximate_ppr_push f g alpha eps display rounds seed ≡ returned r
        → Each (n g) (λ u. ge f (value_at f (as_i32 u) r.residual) (threshold f g eps u) ≡ false)
    unfolding approximate_ppr_push
    push-below r bound h =
        let (s, done, t) = start-pops-IsTracked seed rounds in
        let (empty, same) = ended-returned f s r (ground (arith, rw done at h)) in
        rw same (
          Each-map _ _ (n g)
            (λ u hu below. ground (
              arith,
              below,
              t.mirrored u,
              ap (mem u) empty,
              value_at-nonzero_entries f u 0 s.residual,
              t.residuals,
              Each-apply (λ v. ge f f.zero (threshold f g eps v) ≡ false) (n g) u hu law.at_zero,
            ))
            t.below)
