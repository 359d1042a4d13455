-- ===== src/Push/Seeds.antt =====
-- The mass that the push loop starts from, crates/cognis-csar/src/push.rs.
use cognis.Base.{
  ℕ, zero, suc, none, ◌≡◌, ◌≤◌, sym, ap, ◌∙◌, inl, inr, true, List, [], ◌∷◌, arith, length,
  if◌then◌else◌, leb, modify, replicate, some, Option, Bool-cases, ℤ, pos, negsuc, length-replicate,
  length-modify,
}
use cognis.Scalars.{Scalars}
use cognis.Graph.{CodeGraph, n}
use cognis.Graph.Formed.{IsWellFormed}
use cognis.Push.{start, seed_residual, node_of}
use cognis.Push.Tracked.{IsThreshold}
use cognis.Push.Loop.{Reaches, start-IsTracked}
use cognis.Push.Exact.{IsExact, IsOrdered, total, total-replicate, total-modify, add-zero}
use cognis.Push.Mass.{HasDegrees, IsBalanced}

module _ {S : Type 0} (f : Scalars S) where
  -- The sum of as many of the same.
  abbrev pub times : ℕ → S → S
  times zero c = f.zero
  times (suc k) c = f.add c (times k c)

  -- The mass of a seed: what its entries on nodes add up to.
  abbrev pub mass_at : Option ℕ → S → S → S
  mass_at none m rest = rest
  mass_at (some u) m rest = if f.is_nonzero m then f.add m rest else rest

  unfoldable pub seed_mass : ℕ → List (ℤ × S) → S
  seed_mass n [] = f.zero
  seed_mass n ((u, m) ∷ seed) = mass_at (node_of n u) m (seed_mass n seed)

  module _ (exact : IsExact f) (order : IsOrdered f) where
    pub times_mono : (c : S) (j k : ℕ) → j ≤ k → f.le (times j c) (times k c) ≡ true
    times_mono c zero k h = order.zero_le (times k c)
    times_mono c (suc j) zero h = absurd (omega arith)
    times_mono c (suc j) (suc k) h =
        order.add_mono c c (times j c) (times k c) (order.le_refl c)
          (times_mono c j k (omega arith))

module _ {K S : Type 0} (f : Scalars S) (g : CodeGraph K S) (alpha eps : S)
    (exact : IsExact f) where
  total-seed_residual :
      (seed : List (ℤ × S)) (r : List S)
      → length r ≡ n g
      → total f (seed_residual f g alpha eps seed r) ≡ f.add (total f r) (seed_mass f (n g) seed)
  unfolding seed_residual seed_mass
  total-seed_residual [] r e = sym (add-zero f exact (total f r))
  total-seed_residual ((negsuc u, m) ∷ seed) r e = total-seed_residual seed r e
  total-seed_residual ((pos u, m) ∷ seed) r e = elim (Bool-cases (leb (n g) u)) [
    | inl out ↦ rw out (total-seed_residual seed r e)
    | inr inside ↦ elim (Bool-cases (f.is_nonzero m)) [
      | inl some_mass ↦
          rw (inside, some_mass)
            (total-seed_residual seed (modify (λ x. f.add x m) r u)
                (length-modify (λ x. f.add x m) r u ∙ e)
              ∙ ap (λ x. f.add x (seed_mass f (n g) seed))
                  (total-modify f exact m r u (ground (arith, inside)))
              ∙ exact.add_assoc (total f r) m (seed_mass f (n g) seed))
      | inr no_mass ↦ rw (inside, no_mass) (total-seed_residual seed r e)
    ]
  ]

  module _ (order : IsOrdered f) (formed : IsWellFormed f g) (law : IsThreshold f g eps)
      (degrees : HasDegrees f g) (small : f.le alpha f.one ≡ true) where
    pub start-IsBalanced :
        (seed : List (ℤ × S))
        → Reaches f g eps
            (λ s. IsBalanced f alpha eps (seed_mass f (n g) seed) s × (s.pushes ≡ 0))
            (start f g alpha eps seed)
    start-IsBalanced seed =
        let (s, done, t, kept) = start-IsTracked f g alpha eps formed law seed in
        record {
          state = s;
          reached = done;
          tracked = t;
          holds = (
            record {
              kept =
                  ap (λ x. f.add (total f x) (total f s.residual)) kept.estimate
                  ∙ ap (λ x. f.add (total f (replicate (n g) f.zero)) (total f x)) kept.residual
                  ∙ ap (f.add (total f (replicate (n g) f.zero))) (
                      total-seed_residual seed (replicate (n g) f.zero)
                        (length-replicate (n g) f.zero))
                  ∙ rw (total-replicate f exact (n g))
                      (exact.zero_add _ ∙ exact.zero_add (seed_mass f (n g) seed));
              paid =
                  rw (kept.work, exact.mul_zero eps, exact.mul_zero alpha)
                    (order.zero_le (total f s.estimate));
            },
            kept.pushes,
          );
        }
