-- ===== src/Push/Mass.antt =====
-- The mass of the push loop and its work, crates/cognis-csar/src/push.rs.
use cognis.Base.{
  ℕ, ◌≡◌, sym, ap, subst, ◌∙◌, ◌⊎◌, inl, inr, true, List, [], ◌∷◌, arith, length, get_or, set,
  modify, ℤ, length-modify, length-set, Each, Each-apply, get_or-get_elem?,
}
use cognis.Scalars.{Scalars}
use cognis.Graph.{CodeGraph, n}
use cognis.Graph.Rows.{shares, sum_from}
use cognis.Graph.Weights.{Within}
use cognis.Push.{PushState}
use cognis.Push.Tracked.{IsTracked}
use cognis.Push.Popped.{IsDrop, IsPush}
use cognis.Push.Rounds.{nobody, deposit}
use cognis.Push.Exact.{
  IsExact, IsOrdered, total, regroup, add-mul-complement, total-modify, total-set, sum-total,
  add-zero,
}

module _ {S : Type 0} (f : Scalars S) (exact : IsExact f) where
  total-deposit :
      (k : ℕ) (m d : S) (row : List (ℤ × S)) (r : List S)
      → Within k row
      → length r ≡ k
      → total f (deposit f m d row r) ≡ f.add (total f r) (f.div (f.mul m (total f (shares row))) d)
  total-deposit k m d [] r w e = sym (
      ap (λ x. f.add (total f r) (f.div x d)) (exact.mul_zero m)
      ∙ ap (f.add (total f r)) (exact.zero_div d)
      ∙ add-zero f exact (total f r))
  total-deposit k m d ((v, x) ∷ row) r ((j, v_eq, hj), w) e =
      let gift : S = f.div (f.mul m x) d in
      let r1 : List S = modify (λ y. f.add y gift) r j in
      rw v_eq (
        total-deposit k m d row r1 w (length-modify (λ y. f.add y gift) r j ∙ e)
        ∙ ap (λ y. f.add y (f.div (f.mul m (total f (shares row))) d))
            (total-modify f exact gift r j (omega arith))
        ∙ exact.add_assoc (total f r) gift (f.div (f.mul m (total f (shares row))) d)
        ∙ ap (f.add (total f r)) (
            sym (exact.div_add (f.mul m x) (f.mul m (total f (shares row))) d)
            ∙ ap (λ y. f.div y d) (sym (exact.mul_add m x (total f (shares row))))))

module _ {S : Type 0} (f : Scalars S) where
  abbrev pub mass : PushState S → S
  mass s = f.add (total f s.estimate) (total f s.residual)

  -- The work so far is paid for by the estimate.
  abbrev pub IsPaid : S → S → PushState S → Type 0
  IsPaid alpha eps s = f.le (f.mul alpha (f.mul eps s.work)) (total f s.estimate) ≡ true

-- The mass `m` is kept, and the work is paid for.
pub record IsBalanced {S : Type 0} (f : Scalars S) (alpha eps m : S) (s : PushState S)
    : Type 0 where
  pub kept : mass f s ≡ m
  pub paid : IsPaid f alpha eps s

-- Each node's degree is over 0.0.
abbrev pub HasDegrees : {K S : Type 0} → Scalars S → CodeGraph K S → Type 0
HasDegrees f g = Each (n g) (λ u. f.lt f.zero (get_or f.zero g.degree u) ≡ true)

module _ {K S : Type 0} (f : Scalars S) (g : CodeGraph K S) (alpha eps : S)
    (exact : IsExact f) where
  module _ (degrees : HasDegrees f g) (small : f.le alpha f.one ≡ true) where
    IsPush-mass :
        (u : ℕ) (s s' : PushState S)
        → IsTracked f g eps nobody s
        → IsPush f g alpha eps u s s'
        → mass f s' ≡ mass f s
    IsPush-mass u s s' t p =
        let r : S = get_or f.zero s.residual u in
        let d : S = sum_from f f.zero p.node.row in
        let m : S = f.mul (f.sub f.one alpha) r in
        let rest : S = total f (set s.residual u f.zero) in
        let e : S = total f s.estimate in
        let positive : f.lt f.zero d ≡ true =
          subst (λ x. f.lt f.zero x ≡ true) (get_or-get_elem? f.zero g.degree u p.node.degree_eq)
            (Each-apply (λ v. f.lt f.zero (get_or f.zero g.degree v) ≡ true) (n g) u p.in_range
              degrees) in
        let given : total f s'.residual ≡ f.add rest m =
          ap (total f) p.residual
          ∙ total-deposit f exact (n g) m d p.node.row (set s.residual u f.zero) p.node.within
              (length-set s.residual u f.zero ∙ t.residuals)
          ∙ ap (λ x. f.add rest (f.div (f.mul m x) d)) (sym (sum-total f exact p.node.row))
          ∙ ap (f.add rest) (exact.mul_div m d positive) in
        let kept : total f s'.estimate ≡ f.add e (f.mul alpha r) =
          ap (total f) p.estimate
          ∙ total-modify f exact (f.mul alpha r) s.estimate u
              (omega (arith, p.in_range, t.estimates)) in
        ap (λ x. f.add x (total f s'.residual)) kept
        ∙ ap (f.add (f.add e (f.mul alpha r))) given
        ∙ regroup f exact e (f.mul alpha r) rest m
        ∙ ap (λ x. f.add e (f.add rest x)) (add-mul-complement f exact alpha r small)
        ∙ ap (f.add e) (total-set f exact s.residual u (omega (arith, p.in_range, t.residuals)))

    module _ (order : IsOrdered f) where
      IsPush-IsPaid :
          (u : ℕ) (s s' : PushState S)
          → IsTracked f g eps nobody s
          → IsPush f g alpha eps u s s'
          → IsPaid f alpha eps s
          → IsPaid f alpha eps s'
      IsPush-IsPaid u s s' t p paid =
          let r : S = get_or f.zero s.residual u in
          let d : S = sum_from f f.zero p.node.row in
          let kept : total f s'.estimate ≡ f.add (total f s.estimate) (f.mul alpha r) =
            ap (total f) p.estimate
            ∙ total-modify f exact (f.mul alpha r) s.estimate u
                (omega (arith, p.in_range, t.estimates)) in
          let cost : f.mul alpha (f.mul eps s'.work)
              ≡ f.add (f.mul alpha (f.mul eps s.work)) (f.mul alpha (f.mul eps d)) =
            ap (λ x. f.mul alpha (f.mul eps x)) p.work
            ∙ ap (f.mul alpha) (exact.mul_add eps s.work d)
            ∙ exact.mul_add alpha (f.mul eps s.work) (f.mul eps d) in
          rw (cost, kept)
            (order.add_mono _ _ _ _ paid
              (order.mul_mono alpha _ _ (order.le_of_not_lt r (f.mul eps d) p.cleared)))

      pub round-IsBalanced :
          (m : S) (u : ℕ) (s s' : PushState S)
          → IsTracked f g eps nobody s
          → IsDrop s s' ⊎ IsPush f g alpha eps u s s'
          → IsBalanced f alpha eps m s
          → IsBalanced f alpha eps m s'
      round-IsBalanced m u s s' t (inl same) b = record {
        kept = rw (same.estimate, same.residual) b.kept;
        paid = rw (same.estimate, same.work) b.paid;
      }
      round-IsBalanced m u s s' t (inr p) b = record {
        kept = IsPush-mass u s s' t p ∙ b.kept;
        paid = IsPush-IsPaid u s s' t p b.paid;
      }
