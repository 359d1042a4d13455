-- ===== src/Push/Loop.antt =====
-- The push loop from its seeds, crates/cognis-csar/src/push.rs.
use cognis.Base.{
  ℕ, zero, suc, ◌≡◌, ◌<◌, refl, sym, ◌∙◌, Bool, false, ◌||◌, ◌⊎◌, inl, inr, List, [], ◌∷◌, Option,
  some, ◌==◌, leb, arith, ℤ, pos, negsuc, length, get_or, replicate, length-modify,
  length-replicate, get_or-modify, get_or-replicate, Each-apply, Each-intro, Each-map, Bool-cases,
}
use cognis.Scalars.{Scalars, ge}
use cognis.Graph.{CodeGraph, n}
use cognis.Graph.Rows.{sum_from}
use cognis.Graph.Formed.{IsNode, IsWellFormed}
use cognis.Push.{PushState, node_of, seed_at, seed_residual, seed_active, start, next_pop, pops}
use cognis.Push.Tracked.{threshold, IsTracked, IsThreshold, IsEnlisted, activate-IsTracked}
use cognis.Push.Popped.{IsDrop, IsPush, pop_node-IsTracked}
use cognis.Push.Rounds.{nobody}

-- A computation that does not panic: its state, with the worklist as it should be, and a property.
pub record Reaches {K S : Type 0} (f : Scalars S) (g : CodeGraph K S) (eps : S)
    (P : PushState S → Type 0) (result : Option (PushState S)) : Type 0 where
  pub state : PushState S
  pub reached : result ≡ some state
  pub tracked : IsTracked f g eps nobody state
  pub holds : P state

-- The nodes that a seed names.
abbrev pub is_seed : {S : Type 0} → List (ℤ × S) → ℕ → Bool
is_seed [] u = false
is_seed ((pos v, m) ∷ seed) u = (u == v) || is_seed seed u
is_seed ((negsuc v, m) ∷ seed) u = is_seed seed u

module _ {K S : Type 0} (f : Scalars S) (g : CodeGraph K S) (alpha eps : S) where
  length-seed_residual :
      (seed : List (ℤ × S)) (r : List S) → length (seed_residual f g alpha eps seed r) ≡ length r
  unfolding seed_residual
  length-seed_residual [] r = refl
  length-seed_residual ((negsuc v, m) ∷ seed) r = length-seed_residual seed r
  length-seed_residual ((pos v, m) ∷ seed) r =
      length-seed_residual seed (seed_at f g alpha eps (node_of (n g) (pos v)) m r)
      ∙ ground (arith, length-modify (λ x. f.add x m) r v)

  seed_residual-is_seed :
      (seed : List (ℤ × S)) (r : List S) (u : ℕ)
      → length r ≡ n g
      → is_seed seed u ≡ false
      → get_or f.zero (seed_residual f g alpha eps seed r) u ≡ get_or f.zero r u
  unfolding seed_residual
  seed_residual-is_seed [] r u e off = refl
  seed_residual-is_seed ((negsuc v, m) ∷ seed) r u e off = seed_residual-is_seed seed r u e off
  seed_residual-is_seed ((pos v, m) ∷ seed) r u e off =
      seed_residual-is_seed seed (seed_at f g alpha eps (node_of (n g) (pos v)) m r) u
        (ground (arith, length-modify (λ x. f.add x m) r v)) (ground arith)
      ∙ ground (arith, get_or-modify f.zero (λ x. f.add x m) r v u)

  -- The state in which the worklist is seeded.
  abbrev pub seeded : List (ℤ × S) → PushState S
  seeded seed = record {
    estimate = replicate (n g) f.zero;
    residual = seed_residual f g alpha eps seed (replicate (n g) f.zero);
    in_active = replicate (n g) false;
    active = [];
    work = f.zero;
    pushes = 0;
  }

  module _ (formed : IsWellFormed f g) where
    seed_active-IsTracked :
        (seed : List (ℤ × S)) (s : PushState S)
        → IsTracked f g eps (is_seed seed) s
        → (s' : PushState S) × (seed_active f g alpha eps seed s ≡ some s')
          × IsTracked f g eps nobody s'
          × IsEnlisted s s'
    unfolding seed_active
    seed_active-IsTracked [] s t =
        (s, refl, t, record { estimate = refl; residual = refl; work = refl; pushes = refl })
    seed_active-IsTracked ((negsuc v, m) ∷ seed) s t = seed_active-IsTracked seed s t
    seed_active-IsTracked ((pos v, m) ∷ seed) s t = elim (Bool-cases (leb (n g) v)) [
      | inl out ↦ rw out (
          seed_active-IsTracked seed s (record {
            estimates = t.estimates;
            residuals = t.residuals;
            flags = t.flags;
            mirrored = t.mirrored;
            distinct = t.distinct;
            below = Each-map _ _ (n g) (λ u h p. ground (arith, out)) t.below;
          }))
      | inr inside ↦
          let h : v < n g = ground (arith, inside) in
          let (s1, done, t1, kept) =
            activate-IsTracked f g alpha eps (is_seed seed) s v
              (sum_from f f.zero (Each-apply (IsNode f g) (n g) v h formed).row) h
              (Each-apply (IsNode f g) (n g) v h formed).degree_eq t in
          let (s2, rest, t2, kept2) = seed_active-IsTracked seed s1 t1 in
          (
            s2,
            rw (inside, done) rest,
            t2,
            record {
              estimate = kept2.estimate ∙ kept.estimate;
              residual = kept2.residual ∙ kept.residual;
              work = kept2.work ∙ kept.work;
              pushes = kept2.pushes ∙ kept.pushes;
            },
          )
    ]

    module _ (law : IsThreshold f g eps) where
      pub start-IsTracked :
          (seed : List (ℤ × S))
          → (s : PushState S) × (start f g alpha eps seed ≡ some s)
            × IsTracked f g eps nobody s
            × IsEnlisted (seeded seed) s
      unfolding start
      start-IsTracked seed = seed_active-IsTracked seed (seeded seed) (record {
        estimates = length-replicate (n g) f.zero;
        residuals =
            length-seed_residual seed (replicate (n g) f.zero) ∙ length-replicate (n g) f.zero;
        flags = length-replicate (n g) false;
        mirrored = λ u. sym (get_or-replicate (n g) false u);
        distinct = tt;
        below = Each-intro _ (n g) (λ u h. ground (
          arith,
          seed_residual-is_seed seed (replicate (n g) f.zero) u (length-replicate (n g) f.zero),
          get_or-replicate (n g) f.zero u,
          Each-apply (λ v. ge f f.zero (threshold f g eps v) ≡ false) (n g) u h law.at_zero,
        ));
      })

      -- A property that a round keeps holds after the loop.
      pub pops_inv :
          (P : PushState S → Type 0)
          → ((u : ℕ) (s s' : PushState S)
              → IsTracked f g eps nobody s
              → (IsDrop s s' ⊎ IsPush f g alpha eps u s s')
              → P s
              → P s')
          → (k : ℕ) (s : PushState S) → IsTracked f g eps nobody s
          → P s
          → Reaches f g eps P (pops f g alpha eps k s)
      unfolding pops
      pops_inv P keep zero s t p = record { state = s; reached = refl; tracked = t; holds = p }
      pops_inv P keep (suc k) s t p = from (pops_inv P keep k) s.active refl
        where
          from :
              ((s1 : PushState S)
                → IsTracked f g eps nobody s1
                → P s1
                → Reaches f g eps P (pops f g alpha eps k s1))
              → (us : List ℕ) → s.active ≡ us
              → Reaches f g eps P (next_pop f g alpha eps (pops f g alpha eps k) us s)
          from later [] e = record { state = s; reached = refl; tracked = t; holds = p }
          from later (u ∷ rest) e =
              let (s1, done, t1, round) =
                pop_node-IsTracked f g alpha eps formed law s u rest e t in
              rw done (later s1 t1 (keep u s s1 t round p))
