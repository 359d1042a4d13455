-- ===== src/Push/Rounds.antt =====
-- One round of the push loop, crates/cognis-csar/src/push.rs.
use cognis.Base.{
  ℕ, ◌≡◌, ◌<◌, refl, sym, ap, subst, ◌∙◌, Bool, true, false, ◌||◌, List, [], ◌∷◌, some, ◌==◌, arith,
  ℤ, pos, nonneg, modify, length-set, length-modify, get_or-set, get_or-modify, Each-apply,
  Each-map, flag-lt,
}
use cognis.Scalars.{Scalars, ge}
use cognis.Graph.{CodeGraph, n}
use cognis.Graph.Rows.{ends, shares, sum_from}
use cognis.Graph.Weights.{Within}
use cognis.Graph.Formed.{IsNode, IsWellFormed}
use cognis.Push.{PushState, popped, node_of, share, spread, take_mass}
use cognis.Push.Tracked.{
  mem, Distinct, threshold, IsTracked, IsThreshold, IsEnlisted, activate-IsTracked,
}

module _ {S : Type 0} (f : Scalars S) where
  -- What the neighbours of a row receive.
  abbrev pub deposit : S → S → List (ℤ × S) → List S → List S
  deposit m d [] r = r
  deposit m d ((v, w) ∷ row) r =
      deposit m d row (modify (λ x. f.add x (f.div (f.mul m w) d)) r (nonneg v))

-- No node is exempt.
abbrev pub nobody : ℕ → Bool
nobody u = false

abbrev pub only : ℕ → ℕ → Bool
only v u = (u == v) || nobody u

module _ {K S : Type 0} (f : Scalars S) (g : CodeGraph K S) (alpha eps : S) where
  pub change-IsTracked :
      (todo : ℕ → Bool) (s : PushState S) (v : ℕ) (h : S → S)
      → v < n g
      → IsTracked f g eps todo s
      → IsTracked f g eps (λ u. (u == v) || todo u) (record s { residual = modify h s.residual v })
  change-IsTracked todo s v h hv t = record {
    estimates = t.estimates;
    residuals = length-modify h s.residual v ∙ t.residuals;
    flags = t.flags;
    mirrored = t.mirrored;
    distinct = t.distinct;
    below =
        Each-map _ _ (n g)
          (λ u hu p. ground (arith, get_or-modify f.zero h s.residual v u, t.residuals)) t.below;
  }

  node_of-pos : (j : ℕ) → j < n g → node_of (n g) (pos j) ≡ some j
  node_of-pos j h = ground arith

  module _ (formed : IsWellFormed f g) where
    pub node : (u : ℕ) → u < n g → IsNode f g u
    node u h = Each-apply (IsNode f g) (n g) u h formed

    pub spread-IsTracked :
        (m d : S) (todo : ℕ → Bool) (row : List (ℤ × S)) (s : PushState S)
        → Within (n g) row
        → IsTracked f g eps todo s
        → (s' : PushState S) × (spread f g alpha eps m d (ends row) (shares row) s ≡ some s')
          × IsTracked f g eps todo s'
          × IsEnlisted (record s { residual = deposit f m d row s.residual }) s'
    unfolding spread
    spread-IsTracked m d todo [] s w t =
        (s, refl, t, record { estimate = refl; residual = refl; work = refl; pushes = refl })
    spread-IsTracked m d todo ((v, x) ∷ row) s ((j, v_eq, hj), w) t =
        let changed : PushState S = record s {
          residual = modify (share f g alpha eps m d x) s.residual j;
        } in
        let (s1, done, t1, kept) =
          activate-IsTracked f g alpha eps todo changed j (sum_from f f.zero (node j hj).row) hj
            (node j hj).degree_eq (change-IsTracked todo s j (share f g alpha eps m d x) hj t) in
        let (s2, rest, t2, kept2) = spread-IsTracked m d todo row s1 w t1 in
        (
          s2,
          rw (v_eq, node_of-pos j hj, done) rest,
          t2,
          rw v_eq (record {
            estimate = kept2.estimate ∙ kept.estimate;
            residual = kept2.residual ∙ ap (deposit f m d row) kept.residual;
            work = kept2.work ∙ kept.work;
            pushes = kept2.pushes ∙ kept.pushes;
          }),
        )

  module _ (s : PushState S) (u : ℕ) (rest : List ℕ) (e : s.active ≡ u ∷ rest)
      (t : IsTracked f g eps nobody s) where
    pub top-lt : u < n g
    top-lt =
        let on : mem u s.active ≡ true = ap (mem u) e ∙ ground arith in
        omega (arith, flag-lt s.in_active u (sym (t.mirrored u) ∙ on), t.flags)

    pub popped-IsTracked : IsTracked f g eps (only u) (popped u rest s)
    popped-IsTracked =
        let (apart, others) = subst Distinct e t.distinct in
        record {
          estimates = t.estimates;
          residuals = t.residuals;
          flags = length-set s.in_active u false ∙ t.flags;
          mirrored = λ x. ground (
            arith,
            get_or-set false s.in_active u x false,
            t.mirrored x,
            ap (mem x) e,
            apart,
            t.flags,
            top-lt,
          );
          distinct = others;
          below =
              Each-map _ _ (n g)
                (λ x hx p. ground (arith, get_or-set false s.in_active u x false, t.flags, top-lt))
                t.below;
        }

  pub take_mass-IsTracked :
      IsThreshold f g eps
      → (s : PushState S) (u : ℕ) (r : S) → u < n g
      → IsTracked f g eps (only u) s
      → IsTracked f g eps nobody (take_mass f g alpha eps u r s)
  take_mass-IsTracked law s u r h t = record {
    estimates = length-modify (λ x. f.add x (f.mul alpha r)) s.estimate u ∙ t.estimates;
    residuals = length-set s.residual u f.zero ∙ t.residuals;
    flags = t.flags;
    mirrored = t.mirrored;
    distinct = t.distinct;
    below =
        Each-map _ _ (n g)
          (λ x hx p. ground (
            arith,
            get_or-set f.zero s.residual u x f.zero,
            t.residuals,
            Each-apply (λ v. ge f f.zero (threshold f g eps v) ≡ false) (n g) x hx law.at_zero,
          ))
          t.below;
  }
