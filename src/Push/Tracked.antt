-- ===== src/Push/Tracked.antt =====
-- The worklist of the push loop, crates/cognis-csar/src/push.rs.
use cognis.Base.{
  ℕ, ◌≡◌, ◌<◌, refl, ap, ◌∙◌, Bool, true, false, not, ◌||◌, inl, inr, List, [], ◌∷◌, some, ◌==◌,
  arith, length, get_elem?, get_or, set, length-set, get_or-set, Each, Each-map, get_or-get_elem?,
  Bool-cases,
}
use cognis.Scalars.{Scalars, ge}
use cognis.Graph.{CodeGraph, n}
use cognis.Push.{PushState, activate, clears}

-- Membership of the worklist.
abbrev pub mem : ℕ → List ℕ → Bool
mem u [] = false
mem u (v ∷ vs) = (u == v) || mem u vs

abbrev pub Distinct : List ℕ → Type 0
Distinct [] = Unit
Distinct (u ∷ us) = (mem u us ≡ false) × Distinct us

module _ {K S : Type 0} (f : Scalars S) (g : CodeGraph K S) (eps : S) where
  abbrev pub threshold : ℕ → S
  threshold u = f.mul eps (get_or f.zero g.degree u)

  -- `residual[u]` does not clear the threshold.
  abbrev pub is_below : PushState S → ℕ → Bool
  is_below s u = not (ge f (get_or f.zero s.residual u) (threshold u))

  -- The flags say which nodes are on the worklist, each once, and a node that is not on it is below
  -- the threshold, but for those of `todo`.
  pub record IsTracked (todo : ℕ → Bool) (s : PushState S) : Type 0 where
    pub estimates : length s.estimate ≡ n g
    pub residuals : length s.residual ≡ n g
    pub flags : length s.in_active ≡ n g
    pub mirrored : (u : ℕ) → mem u s.active ≡ get_or false s.in_active u
    pub distinct : Distinct s.active
    pub below : Each (n g) (λ u. ((todo u || get_or false s.in_active u) || is_below s u) ≡ true)

  -- Nothing clears the threshold with a residual of 0.0, and of two comparisons one fails.
  pub record IsThreshold : Type 0 where
    pub at_zero : Each (n g) (λ u. ge f f.zero (threshold u) ≡ false)
    pub apart : (a b : S) → (not (f.lt a b) || not (f.le b a)) ≡ true

  module _ (todo : ℕ → Bool) (s : PushState S) (v : ℕ)
      (t : IsTracked (λ u. (u == v) || todo u) s) where
    -- The node `v` is on the worklist, or is below the threshold.
    pub settled-IsTracked : (get_or false s.in_active v || is_below s v) ≡ true → IsTracked todo s
    settled-IsTracked ok = record {
      estimates = t.estimates;
      residuals = t.residuals;
      flags = t.flags;
      mirrored = t.mirrored;
      distinct = t.distinct;
      below = Each-map _ _ (n g) (λ u h p. ground (arith, ok)) t.below;
    }

    enlist : PushState S
    enlist = record s { active = v ∷ s.active; in_active = set s.in_active v true }

    enlist-IsTracked : v < n g → get_or false s.in_active v ≡ false → IsTracked todo enlist
    unfolding enlist
    enlist-IsTracked h off = record {
      estimates = t.estimates;
      residuals = t.residuals;
      flags = length-set s.in_active v true ∙ t.flags;
      mirrored = λ u. ground (arith, get_or-set false s.in_active v u true, t.mirrored u, t.flags);
      distinct = (t.mirrored v ∙ off, t.distinct);
      below =
          Each-map _ _ (n g)
            (λ u hu p. ground (arith, get_or-set false s.in_active v u true, t.flags)) t.below;
    }

-- A state after another, with the arrays but the flags kept.
pub record IsEnlisted {S : Type 0} (s s' : PushState S) : Type 0 where
  pub estimate : s'.estimate ≡ s.estimate
  pub residual : s'.residual ≡ s.residual
  pub work : s'.work ≡ s.work
  pub pushes : s'.pushes ≡ s.pushes

module _ {K S : Type 0} (f : Scalars S) (g : CodeGraph K S) (alpha eps : S) where
  pub is_below-clears :
      (s : PushState S) (v : ℕ) (d : S)
      → get_elem? g.degree v ≡ some d
      → is_below f g eps s v ≡ not (clears f g alpha eps d s v)
  is_below-clears s v d e =
      ap (λ x. not (ge f (get_or f.zero s.residual v) (f.mul eps x)))
        (get_or-get_elem? f.zero g.degree v e)

  pub activate-IsTracked :
      (todo : ℕ → Bool) (s : PushState S) (v : ℕ) (d : S)
      → v < n g
      → get_elem? g.degree v ≡ some d
      → IsTracked f g eps (λ u. (u == v) || todo u) s
      → (s' : PushState S) × (activate f g alpha eps v s ≡ some s')
        × IsTracked f g eps todo s'
        × IsEnlisted s s'
  unfolding activate enlist
  activate-IsTracked todo s v d h e t = elim (Bool-cases (get_or false s.in_active v)) [
    | inl on ↦ (
      s,
      rw on,
      settled-IsTracked f g eps todo s v t (ground (arith, on)),
      record { estimate = refl; residual = refl; work = refl; pushes = refl },
    )
    | inr off ↦ elim (Bool-cases (clears f g alpha eps d s v)) [
      | inl over ↦ (
        enlist f g eps todo s v t,
        rw (off, e, over),
        enlist-IsTracked f g eps todo s v t h off,
        record { estimate = refl; residual = refl; work = refl; pushes = refl },
      )
      | inr under ↦ (
        s,
        rw (off, e, under),
        settled-IsTracked f g eps todo s v t (ground (arith, under, is_below-clears s v d e)),
        record { estimate = refl; residual = refl; work = refl; pushes = refl },
      )
    ]
  ]
