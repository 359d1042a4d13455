-- ===== src/Diffuse/Dropped.antt =====
-- Seeds under the threshold, `diffuse_seed_hits` of crates/cognis-csar/src/diffuse.rs.
use cognis.Base.{
  ℕ, zero, suc, ◌≡◌, ◌<◌, refl, sym, ap, ◌∙◌, true, false, List, [], ◌∷◌, some, ◌>>=◌, leb, arith,
  ℤ, pos, negsuc, Bool-cases, inl, inr, Each, Each-apply, get_or, replicate, get_or-replicate,
  get_or-get_elem?,
}
use cognis.BtreeMap.{KeyOrd}
use cognis.Hits.{Hit}
use cognis.Scalars.{Scalars, ge}
use cognis.Graph.{CodeGraph, n}
use cognis.Graph.Rows.{sum_from}
use cognis.Graph.Formed.{IsNode, IsWellFormed}
use cognis.Push.{
  PushState, returned, activate, seed_residual, seed_active, start, pops, nonzero_entries,
  result_of, ended, approximate_ppr_push, before_seed,
}
use cognis.Push.Tracked.{threshold}
use cognis.Push.Outcomes.{is_valid}
use cognis.Diffuse.{Extremes, build_seed_distribution, from_seed, diffuse_seed_hits}

module _ {K S : Type 0} (f : Scalars S) (g : CodeGraph K S) (alpha eps : S)
    (formed : IsWellFormed f g) where
  -- No node clears its threshold.
  abbrev pub IsQuiet : List S → Type 0
  IsQuiet r = Each (n g) (λ u. ge f (get_or f.zero r u) (threshold f g eps u) ≡ false)

  quiet-seed_active :
      (seed : List (ℤ × S)) (s : PushState S)
      → IsQuiet s.residual
      → s.in_active ≡ replicate (n g) false
      → seed_active f g alpha eps seed s ≡ some s
  unfolding seed_active
  quiet-seed_active [] s q e = refl
  quiet-seed_active ((negsuc u, m) ∷ seed) s q e = quiet-seed_active seed s q e
  quiet-seed_active ((pos u, m) ∷ seed) s q e = elim (Bool-cases (leb (n g) u)) [
    | inl out ↦ rw out (quiet-seed_active seed s q e)
    | inr inside ↦
        let h : u < n g = ground (arith, inside) in
        let at : IsNode f g u = Each-apply (IsNode f g) (n g) u h formed in
        let low : ge f (get_or f.zero s.residual u) (f.mul eps (sum_from f f.zero at.row)) ≡ false =
          ap (λ d. ge f (get_or f.zero s.residual u) (f.mul eps d))
            (sym (get_or-get_elem? f.zero g.degree u at.degree_eq))
          ∙ Each-apply (λ v. ge f (get_or f.zero s.residual v) (threshold f g eps v) ≡ false) (n g)
              u h q in
        let off : get_or false s.in_active u ≡ false =
          ap (λ a. get_or false a u) e ∙ get_or-replicate (n g) false u in
        let still : activate f g alpha eps u s ≡ some s =
          unfold activate in rw (off, at.degree_eq, low) in
        rw (inside, still) (quiet-seed_active seed s q e)
  ]

  module _ (seed : List (ℤ × S)) (rounds : ℕ) where
    quiet_state : PushState S
    quiet_state = record (before_seed f g alpha eps) {
      residual = seed_residual f g alpha eps seed (replicate (n g) f.zero);
    }

    pops-empty : (k : ℕ) (s : PushState S) → s.active ≡ [] → pops f g alpha eps k s ≡ some s
    unfolding pops
    pops-empty zero s e = refl
    pops-empty (suc k) s e = rw e

    quiet-start :
        IsQuiet (seed_residual f g alpha eps seed (replicate (n g) f.zero))
        → (start f g alpha eps seed >>= pops f g alpha eps rounds) ≡ some quiet_state
    unfolding start quiet_state
    quiet-start q =
        rw (quiet-seed_active seed quiet_state q refl) (pops-empty rounds quiet_state refl)

nonzero_entries-replicate :
    {S : Type 0} (f : Scalars S)
    → f.is_nonzero f.zero ≡ false
    → (i k : ℕ) → nonzero_entries f i (replicate k f.zero) ≡ []
unfolding nonzero_entries
nonzero_entries-replicate f law i zero = refl
nonzero_entries-replicate f law i (suc k) = rw law (nonzero_entries-replicate f law (suc i) k)

module _ {K S E : Type 0} ⦃o : KeyOrd K⦄ (f : Scalars S) (x : Extremes S E) (g : CodeGraph K S)
    (alpha eps : S) where
  quiet-push :
      (formed : IsWellFormed f g)
      → is_valid f alpha eps ≡ true
      → (seed : List (ℤ × S)) (rounds : ℕ)
      → IsQuiet f g alpha eps formed (seed_residual f g alpha eps seed (replicate (n g) f.zero))
      → approximate_ppr_push f g alpha eps x.display rounds seed
        ≡ returned (result_of f (quiet_state f g alpha eps formed seed rounds))
  unfolding approximate_ppr_push quiet_state
  quiet-push formed valid seed rounds q =
      ground (arith, valid, ap (ended f) (quiet-start f g alpha eps formed seed rounds q))

  from_seed-quiet :
      (formed : IsWellFormed f g)
      → is_valid f alpha eps ≡ true
      → f.is_nonzero f.zero ≡ false
      → (entries : List (ℤ × S) → List (ℤ × S)) (rounds k : ℕ) (seed : List (ℤ × S))
      → IsQuiet f g alpha eps formed (seed_residual f g alpha eps seed (replicate (n g) f.zero))
      → from_seed f x entries rounds g k alpha eps seed ≡ returned []
  unfolding quiet_state
  from_seed-quiet formed valid law entries rounds k [] q = refl
  from_seed-quiet formed valid law entries rounds k (s ∷ seed) q =
      rw (quiet-push formed valid (s ∷ seed) rounds q, nonzero_entries-replicate f law 0 (n g))

  -- On a well-formed graph with parameters that are not refused, where `0.0 != 0.0` fails and no node's
  -- seeded mass reaches eps times the node's degree, the diffusion returns no hit, whatever the seeds.
  pub diffuse_seed_hits-quiet :
      (formed : IsWellFormed f g)
      → is_valid f alpha eps ≡ true
      → f.is_nonzero f.zero ≡ false
      → (layers : List (List (Hit K S E))) (entries : List (ℤ × S) → List (ℤ × S)) (rounds k : ℕ)
      → IsQuiet f g alpha eps formed (
          seed_residual f g alpha eps
            (build_seed_distribution f x layers g)
            (replicate (n g) f.zero))
      → diffuse_seed_hits f x entries rounds g layers k alpha eps ≡ returned []
  unfolding diffuse_seed_hits
  diffuse_seed_hits-quiet formed valid law layers entries rounds k q = ground (
    arith,
    from_seed-quiet formed valid law entries rounds k (build_seed_distribution f x layers g) q,
  )
