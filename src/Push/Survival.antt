-- ===== src/Push/Survival.antt =====
-- Nodes that clear their threshold get an estimate, crates/cognis-csar/src/push.rs.
use Prim.Native.String.{String}
use cognis.Base.{
  ℕ, ◌^◌, ◌≡◌, ◌<◌, ◌≤◌, refl, ap, subst, ◌∙◌, ◌⊎◌, inl, inr, Bool, true, false, not, ◌||◌, List,
  [], ◌∷◌, some, ◌>>=◌, ◌==◌, arith, ℤ, as_i32, length, get_or, set, modify, replicate, Each-apply,
  get_or-set, get_or-modify, length-modify, length-set, Bool-cases, get_or-get_elem?,
}
use cognis.Scalars.{Scalars, ge}
use cognis.Graph.{CodeGraph, n}
use cognis.Graph.Rows.{sum_from}
use cognis.Graph.Weights.{Within}
use cognis.Graph.Formed.{IsWellFormed}
use cognis.Push.{PushState, PushResult, returned, seed_residual, start, pops, approximate_ppr_push}
use cognis.Push.Tracked.{mem, IsTracked, IsThreshold, threshold, is_below}
use cognis.Push.Rounds.{nobody, deposit}
use cognis.Push.Popped.{IsDrop, IsPush}
use cognis.Push.Loop.{Reaches, start-IsTracked, pops_inv}
use cognis.Push.Exact.{IsExact, IsOrdered, add-zero}
use cognis.Push.Entries.{value_at, value_at-nonzero_entries}
use cognis.Push.Outcomes.{ended-returned}

or_grown : (a b c : Bool) → (not a || b) ≡ true → (b ≡ true → c ≡ true) → (not a || c) ≡ true
or_grown true b c h k = k h
or_grown false b c h k = refl

-- Products and sums keep what is over 0.
pub record IsGrowing {S : Type 0} (f : Scalars S) : Type 0 where
  pub mul :
      (a b : S) → f.le a f.zero ≡ false → f.le b f.zero ≡ false → f.le (f.mul a b) f.zero ≡ false
  pub add : (a b : S) → f.le b f.zero ≡ false → f.le (f.add a b) f.zero ≡ false

module _ {S : Type 0} (f : Scalars S) (exact : IsExact f) (order : IsOrdered f) where
  le-add : (a b : S) → f.le a (f.add a b) ≡ true
  le-add a b =
      subst (λ y. f.le y (f.add a b) ≡ true) (add-zero f exact a)
        (order.add_mono a a f.zero b (order.le_refl a) (order.zero_le b))

  -- A deposit takes nothing from a node.
  le-deposit :
      (k : ℕ) (m d : S) (row : List (ℤ × S)) (r : List S) (u : ℕ)
      → Within k row
      → length r ≡ k
      → f.le (get_or f.zero r u) (get_or f.zero (deposit f m d row r) u) ≡ true
  le-deposit k m d [] r u w e = order.le_refl (get_or f.zero r u)
  le-deposit k m d ((v, x) ∷ row) r u ((j, v_eq, hj), w) e =
      let gift : S = f.div (f.mul m x) d in
      let r1 : List S = modify (λ y. f.add y gift) r j in
      let step : f.le (get_or f.zero r u) (get_or f.zero r1 u) ≡ true =
        rw (get_or-modify f.zero (λ y. f.add y gift) r j u (omega arith))
          (elim (Bool-cases (j == u)) [
            | inl here ↦ rw here (le-add (get_or f.zero r u) gift)
            | inr away ↦ rw away (order.le_refl (get_or f.zero r u))
          ]) in
      rw v_eq (
        order.le_trans (get_or f.zero r u) (get_or f.zero r1 u) _ step
          (le-deposit k m d row r1 u w (length-modify (λ y. f.add y gift) r j ∙ e)))

module _ {K S : Type 0} (f : Scalars S) (g : CodeGraph K S) (alpha eps : S) (order : IsOrdered f)
    (growing : IsGrowing f) (alpha_over : f.le alpha f.zero ≡ false) where
  -- What is at least an amount over 0 is over 0.
  over_trans : (a b : S) → f.le a f.zero ≡ false → f.le a b ≡ true → f.le b f.zero ≡ false
  over_trans a b h k = elim (Bool-cases (f.le b f.zero)) [
    | inl low ↦ absurd (ground (arith, order.le_trans a b f.zero k low, h))
    | inr over ↦ over
  ]

  pushed-over :
      (v : ℕ) (s s' : PushState S)
      → f.le (threshold f g eps v) f.zero ≡ false
      → IsTracked f g eps nobody s
      → IsPush f g alpha eps v s s'
      → f.le (get_or f.zero s'.estimate v) f.zero ≡ false
  pushed-over v s s' v_over t p =
      let r : S = get_or f.zero s.residual v in
      let d : S = sum_from f f.zero p.node.row in
      let d_eq : get_or f.zero g.degree v ≡ d =
        get_or-get_elem? f.zero g.degree v p.node.degree_eq in
      let over : f.le (f.mul eps d) f.zero ≡ false =
        subst (λ y. f.le (f.mul eps y) f.zero ≡ false) d_eq v_over in
      let r_over : f.le r f.zero ≡ false =
        over_trans (f.mul eps d) r over (order.le_of_not_lt r (f.mul eps d) p.cleared) in
      rw p.estimate (
        ground (
          arith,
          get_or-modify f.zero (λ y. f.add y (f.mul alpha r)) s.estimate v v,
          t.estimates,
          p.in_range,
          growing.add (get_or f.zero s.estimate v) (f.mul alpha r)
              (growing.mul alpha r alpha_over r_over),
        ))

module _ {K S : Type 0} (f : Scalars S) (g : CodeGraph K S) (alpha eps : S) (exact : IsExact f)
    (order : IsOrdered f) (growing : IsGrowing f) (alpha_over : f.le alpha f.zero ≡ false) (u : ℕ)
    (u_over : f.le (threshold f g eps u) f.zero ≡ false) where
  -- The node has an estimate or clears its threshold.
  abbrev pub IsServed : PushState S → Type 0
  IsServed s =
      (not (f.le (get_or f.zero s.estimate u) f.zero)
        || ge f (get_or f.zero s.residual u) (threshold f g eps u))
      ≡ true

  round-IsServed :
      (v : ℕ) (s s' : PushState S)
      → IsTracked f g eps nobody s
      → IsDrop s s' ⊎ IsPush f g alpha eps v s s'
      → IsServed s
      → IsServed s'
  round-IsServed v s s' t (inl same) served = rw (same.estimate, same.residual) served
  round-IsServed v s s' t (inr p) served =
      let r : S = get_or f.zero s.residual v in
      let d : S = sum_from f f.zero p.node.row in
      let given : f.le (get_or f.zero (set s.residual v f.zero) u) (get_or f.zero s'.residual u)
          ≡ true =
        rw p.residual (
          le-deposit f exact order (n g) (f.mul (f.sub f.one alpha) r) d p.node.row
            (set s.residual v f.zero) u p.node.within
            (length-set s.residual v f.zero ∙ t.residuals)) in
      elim (Bool-cases (v == u)) [
        | inl here ↦
            let same : u ≡ v = ground (arith, here) in
            let over : f.le (get_or f.zero s'.estimate v) f.zero ≡ false =
              pushed-over f g alpha eps order growing alpha_over v s s'
                (subst (λ w. f.le (threshold f g eps w) f.zero ≡ false) same u_over) t p in
            rw same (ground (arith, over))
        | inr away ↦
            let kept : get_or f.zero s'.estimate u ≡ get_or f.zero s.estimate u = rw p.estimate (
              ground (
                arith,
                get_or-modify f.zero (λ y. f.add y (f.mul alpha r)) s.estimate v u,
                t.estimates,
                p.in_range,
                away,
              )) in
            let before : get_or f.zero (set s.residual v f.zero) u ≡ get_or f.zero s.residual u =
              ground
                (arith, get_or-set f.zero s.residual v u f.zero, t.residuals, p.in_range, away) in
            let grown : f.le (get_or f.zero s.residual u) (get_or f.zero s'.residual u) ≡ true =
              subst (λ y. f.le y (get_or f.zero s'.residual u) ≡ true) before given in
            let reached : f.le (threshold f g eps u) (get_or f.zero s.residual u) ≡ true
                → f.le (threshold f g eps u) (get_or f.zero s'.residual u) ≡ true =
              λ low. order.le_trans _ _ _ low grown in
            rw kept (or_grown (f.le (get_or f.zero s.estimate u) f.zero) _ _ served reached)
      ]

  -- Without rounding, where products and sums of what is over 0 are over 0, as are alpha and the node's
  -- threshold, no node clears its threshold with 0.0 and of `a < b` and `b <= a` one fails: on a well-formed
  -- graph of at most 2³¹ nodes, a node whose seeded mass reaches its threshold has an estimate over 0 in
  -- the result that the function returns.
  pub push-served :
      (formed : IsWellFormed f g) (law : IsThreshold f g eps)
      → u < n g
      → n g ≤ 2 ^ 31
      → (display : S → String) (rounds : ℕ) (seed : List (ℤ × S)) (r : PushResult S)
      → ge f
          (get_or f.zero (seed_residual f g alpha eps seed (replicate (n g) f.zero)) u)
          (threshold f g eps u)
        ≡ true
      → approximate_ppr_push f g alpha eps display rounds seed ≡ returned r
      → f.le (value_at f (as_i32 u) r.estimate) f.zero ≡ false
  unfolding approximate_ppr_push
  push-served formed law hu bound display rounds seed r reaches h =
      let (s0, done, t0, kept0) = start-IsTracked f g alpha eps formed law seed in
      let first : IsServed s0 = rw kept0.residual (ground (arith, reaches)) in
      let last : Reaches f g eps IsServed (pops f g alpha eps rounds s0) =
        pops_inv f g alpha eps formed law IsServed round-IsServed rounds s0 t0 first in
      let all : (start f g alpha eps seed >>= pops f g alpha eps rounds) ≡ some last.state =
        rw done last.reached in
      let (empty, same) = ended-returned f last.state r (ground (arith, rw all at h)) in
      let below : is_below f g eps last.state u ≡ true = ground (
        arith,
        Each-apply
            (λ v.
              ((nobody v || get_or false last.state.in_active v) || is_below f g eps last.state v)
              ≡ true)
            (n g) u hu last.tracked.below,
        last.tracked.mirrored u,
        ap (mem u) empty,
      ) in
      rw same (
        ground (
          arith,
          below,
          last.holds,
          value_at-nonzero_entries f u 0 last.state.estimate,
          last.tracked.estimates,
          exact.zero_of_not_nonzero (get_or f.zero last.state.estimate u),
          order.le_refl f.zero,
        ))
