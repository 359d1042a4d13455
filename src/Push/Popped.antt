-- ===== src/Push/Popped.antt =====
-- A round of the push loop on the node that it takes, crates/cognis-csar/src/push.rs.
use cognis.Base.{
  ℕ, suc, ◌≡◌, ◌<◌, refl, ap, false, ◌⊎◌, inl, inr, List, ◌∷◌, some, arith, length, get_or, set,
  modify, Bool-cases,
}
use cognis.Scalars.{Scalars}
use cognis.Graph.{CodeGraph, n}
use cognis.Graph.Rows.{sum_from}
use cognis.Graph.Formed.{IsNode, IsWellFormed}
use cognis.Push.{PushState, popped, take_mass, push_node, pop_node}
use cognis.Push.Tracked.{IsTracked, IsThreshold, is_below-clears, settled-IsTracked}
use cognis.Push.Rounds.{
  nobody, only, deposit, node, spread-IsTracked, top-lt, popped-IsTracked, take_mass-IsTracked,
}

-- A round that only takes a node off the worklist.
pub record IsDrop {S : Type 0} (s s' : PushState S) : Type 0 where
  pub estimate : s'.estimate ≡ s.estimate
  pub residual : s'.residual ≡ s.residual
  pub work : s'.work ≡ s.work
  pub pushes : s'.pushes ≡ s.pushes
  pub shorter : length s.active ≡ suc (length s'.active)

-- A push from `u`, with the row of `u`.
pub record IsPush {K S : Type 0} (f : Scalars S) (g : CodeGraph K S) (alpha eps : S) (u : ℕ)
    (s s' : PushState S) : Type 0 where
  pub node : IsNode f g u
  pub in_range : u < n g
  pub cleared : f.lt (get_or f.zero s.residual u) (f.mul eps (sum_from f f.zero node.row)) ≡ false
  pub estimate :
      s'.estimate ≡ modify (λ x. f.add x (f.mul alpha (get_or f.zero s.residual u))) s.estimate u
  pub residual :
      s'.residual
      ≡ deposit f
          (f.mul (f.sub f.one alpha) (get_or f.zero s.residual u))
          (sum_from f f.zero node.row)
          node.row
          (set s.residual u f.zero)
  pub work : s'.work ≡ f.add s.work (sum_from f f.zero node.row)
  pub pushes : s'.pushes ≡ suc s.pushes

module _ {K S : Type 0} (f : Scalars S) (g : CodeGraph K S) (alpha eps : S)
    (formed : IsWellFormed f g) (law : IsThreshold f g eps) where
  push_node-IsTracked :
      (s : PushState S) (u : ℕ) (h : u < n g) (at : IsNode f g u)
      → f.lt (get_or f.zero s.residual u) (f.mul eps (sum_from f f.zero at.row)) ≡ false
      → IsTracked f g eps (only u) s
      → (s' : PushState S) × (push_node f g alpha eps u (sum_from f f.zero at.row) s ≡ some s')
        × IsTracked f g eps nobody s'
        × IsPush f g alpha eps u s s'
  unfolding push_node
  push_node-IsTracked s u h at c t =
      let r : S = get_or f.zero s.residual u in
      let d : S = sum_from f f.zero at.row in
      let (s', done, t', kept) =
        spread-IsTracked f g alpha eps formed (f.mul (f.sub f.one alpha) r) d nobody at.row
          (take_mass f g alpha eps u r s) at.within
          (take_mass-IsTracked f g alpha eps law s u r h t) in
      (
        record s' { work = f.add s'.work d; pushes = suc s'.pushes },
        rw (at.neighbors_eq, done),
        record {
          estimates = t'.estimates;
          residuals = t'.residuals;
          flags = t'.flags;
          mirrored = t'.mirrored;
          distinct = t'.distinct;
          below = t'.below;
        },
        record {
          node = at;
          in_range = h;
          cleared = c;
          estimate = kept.estimate;
          residual = kept.residual;
          work = ap (λ w. f.add w d) kept.work;
          pushes = ap suc kept.pushes;
        },
      )

  -- A round leaves the node, below the threshold, or pushes from it.
  pub pop_node-IsTracked :
      (s : PushState S) (u : ℕ) (rest : List ℕ)
      → s.active ≡ u ∷ rest
      → IsTracked f g eps nobody s
      → (s' : PushState S) × (pop_node f g alpha eps u (popped u rest s) ≡ some s')
        × IsTracked f g eps nobody s'
        × (IsDrop s s' ⊎ IsPush f g alpha eps u s s')
  unfolding pop_node
  pop_node-IsTracked s u rest e t =
      let h : u < n g = top-lt f g alpha eps s u rest e t in
      let t1 : IsTracked f g eps (only u) (popped u rest s) =
        popped-IsTracked f g alpha eps s u rest e t in
      let at : IsNode f g u = node f g alpha eps formed u h in
      let r : S = get_or f.zero s.residual u in
      let d : S = sum_from f f.zero at.row in
      elim (Bool-cases (f.lt r (f.mul eps d))) [
        | inl under ↦ (
          popped u rest s,
          rw (at.degree_eq, under),
          settled-IsTracked f g eps nobody (popped u rest s) u t1 (
              ground (
                arith,
                under,
                law.apart r (f.mul eps d),
                is_below-clears f g alpha eps (popped u rest s) u d at.degree_eq,
              )),
          inl (record {
            estimate = refl;
            residual = refl;
            work = refl;
            pushes = refl;
            shorter = ap length e;
          }),
        )
        | inr over ↦
            let (s', done, t', pushed) = push_node-IsTracked (popped u rest s) u h at over t1 in
            (
              s',
              rw (at.degree_eq, over) done,
              t',
              inr (record {
                node = pushed.node;
                in_range = h;
                cleared = pushed.cleared;
                estimate = pushed.estimate;
                residual = pushed.residual;
                work = pushed.work;
                pushes = pushed.pushes;
              }),
            )
      ]
