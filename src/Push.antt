-- ===== src/Push.antt =====
-- Forward-push personalized PageRank, crates/cognis-csar/src/push.rs.
use Prim.Native.String.{String, ◌++◌ as append}
pub mod Tracked
pub mod Rounds
pub mod Popped
pub mod Loop
pub mod Exact
pub mod Mass
pub mod Rank
pub mod Seeds
pub mod Ended
pub mod Entries
pub mod Outcomes
pub mod Returned
pub mod Survival
mod Tests
use cognis.Base.{
  ℕ, zero, suc, Bool, true, false, not, ◌&&◌, ◌||◌, List, [], ◌∷◌, Option, none, some, ◌>>=◌,
  if◌then◌else◌, leb, ℤ, pos, negsuc, as_i32, length, get_elem?, get_or, set, modify, replicate,
  drop,
}
use cognis.Scalars.{Scalars, ge, gt}
use cognis.Graph.{CodeGraph, n, neighbors}

pub data CognisError : Type 0 where
  retrieval : String → CognisError

pub record PushResult (S : Type 0) : Type 0 where
  pub estimate : List (ℤ × S)
  pub residual : List (ℤ × S)
  pub work : S
  pub pushes : ℕ

-- How a call ends: by an error, by a result, or by a panic; `running` if the pops run out first.
pub data Outcome (R : Type 0) : Type 0 where
  refused : CognisError → Outcome R
  panicked running : Outcome R
  returned : R → Outcome R

-- The variables of the loop. The worklist has its top first, and only indices that passed the bounds
-- test are on it.
pub record PushState (S : Type 0) : Type 0 where
  pub estimate : List S
  pub residual : List S
  pub in_active : List Bool
  pub active : List ℕ
  pub work : S
  pub pushes : ℕ

abbrev pub popped : {S : Type 0} → ℕ → List ℕ → PushState S → PushState S
popped u rest s = record s { active = rest; in_active = set s.in_active u false }

-- The node of an index, unless `u < 0 || (u as usize) >= n`.
abbrev pub node_of : ℕ → ℤ → Option ℕ
node_of n (negsuc u) = none
node_of n (pos u) = if leb n u then none else some u

module _ {S : Type 0} (f : Scalars S) where
  -- The entries that are not 0.0, by node.
  unfoldable pub nonzero_entries : ℕ → List S → List (ℤ × S)
  nonzero_entries u [] = []
  nonzero_entries u (x ∷ xs) =
      let rest = nonzero_entries (suc u) xs in if f.is_nonzero x then (as_i32 u, x) ∷ rest else rest

  abbrev pub result_of : PushState S → PushResult S
  result_of s = record {
    estimate = nonzero_entries 0 s.estimate;
    residual = nonzero_entries 0 s.residual;
    work = s.work;
    pushes = s.pushes;
  }

  abbrev pub ended : Option (PushState S) → Outcome (PushResult S)
  ended none = panicked
  ended (some s) = elim s.active [ [] ↦ returned (result_of s) | _ ∷ _ ↦ running ]

module _ {K S : Type 0} (f : Scalars S) (g : CodeGraph K S) (alpha eps : S) where
  -- `if m != 0.0 { residual[u as usize] += m; }`
  abbrev pub seed_at : Option ℕ → S → List S → List S
  seed_at none m r = r
  seed_at (some u) m r = if f.is_nonzero m then modify (λ x. f.add x m) r u else r

  unfoldable pub seed_residual : List (ℤ × S) → List S → List S
  seed_residual [] r = r
  seed_residual ((u, m) ∷ seed) r = seed_residual seed (seed_at (node_of (n g) u) m r)

  -- `residual[u] >= eps * g.degree[u]`
  abbrev pub clears : S → PushState S → ℕ → Bool
  clears d s u = ge f (get_or f.zero s.residual u) (f.mul eps d)

  -- A node that clears the threshold and is not on the worklist goes on it. A degree outside the
  -- vector panics, `none`.
  unfoldable pub activate : ℕ → PushState S → Option (PushState S)
  activate u s = if get_or false s.in_active u then some s else (do
    d ← get_elem? g.degree u
    some (
        if clears d s u
        then record s { active = u ∷ s.active; in_active = set s.in_active u true }
        else s))

  abbrev pub activate_at : Option ℕ → PushState S → Option (PushState S)
  activate_at none s = some s
  activate_at (some u) s = activate u s

  unfoldable pub seed_active : List (ℤ × S) → PushState S → Option (PushState S)
  seed_active [] s = some s
  seed_active ((u, m) ∷ seed) s = activate_at (node_of (n g) u) s >>= seed_active seed

  -- `residual[sv] += push_mass * w[e] / d_u`
  abbrev pub share : S → S → S → S → S
  share push_mass d w r = f.add r (f.div (f.mul push_mass w) d)

  abbrev pub receive : S → S → Option ℕ → Option S → PushState S → Option (PushState S)
  receive push_mass d none w s = some s
  receive push_mass d (some v) none s = none
  receive push_mass d (some v) (some w) s =
      activate v (record s { residual = modify (share push_mass d w) s.residual v })

  unfoldable pub spread : S → S → List ℤ → List S → PushState S → Option (PushState S)
  spread push_mass d [] ws s = some s
  spread push_mass d (v ∷ idx) ws s =
      receive push_mass d (node_of (n g) v) (get_elem? ws 0) s
      >>= spread push_mass d idx (drop 1 ws)

  abbrev pub take_mass : ℕ → S → PushState S → PushState S
  take_mass u r s = record s {
    estimate = modify (λ e. f.add e (f.mul alpha r)) s.estimate u;
    residual = set s.residual u f.zero;
  }

  unfoldable pub push_node : ℕ → S → PushState S → Option (PushState S)
  push_node u d s = do
    (idx, w) ← neighbors g u
    let r = get_or f.zero s.residual u
    s' ← spread (f.mul (f.sub f.one alpha) r) d idx w (take_mass u r s)
    some (record s' { work = f.add s'.work d; pushes = suc s'.pushes })

  -- One round of the loop, on the node taken from the worklist.
  unfoldable pub pop_node : ℕ → PushState S → Option (PushState S)
  pop_node u s = do
    d ← get_elem? g.degree u
    if f.lt (get_or f.zero s.residual u) (f.mul eps d) then some s else push_node u d s

  -- At most so many rounds of `while let Some(u) = active.pop()`.
  abbrev pub next_pop :
      (PushState S → Option (PushState S)) → List ℕ → PushState S → Option (PushState S)
  next_pop rec [] s = some s
  next_pop rec (u ∷ rest) s = pop_node u (popped u rest s) >>= rec

  unfoldable pub pops : ℕ → PushState S → Option (PushState S)
  pops zero s = some s
  pops (suc k) s = next_pop (pops k) s.active s

  abbrev pub before_seed : PushState S
  before_seed = record {
    estimate = replicate (n g) f.zero;
    residual = replicate (n g) f.zero;
    in_active = replicate (n g) false;
    active = [];
    work = f.zero;
    pushes = 0;
  }

  unfoldable pub start : List (ℤ × S) → Option (PushState S)
  start seed =
      seed_active seed
        (record before_seed { residual = seed_residual seed (replicate (n g) f.zero) })

  -- `display` is the formatting of an f64.
  unfoldable pub approximate_ppr_push : (S → String) → ℕ → List (ℤ × S) → Outcome (PushResult S)
  approximate_ppr_push display rounds seed =
      if not (gt f alpha f.zero && f.le alpha f.one)
      then refused (retrieval (append "alpha must be in (0, 1]; got " (display alpha)))
      else if f.is_nan eps || f.le eps f.zero
      then refused (retrieval (append "eps must be > 0; got " (display eps)))
      else ended f (start seed >>= pops rounds)
