-- ===== src/Push/Rank.antt =====
-- The rank of a state of the push loop: the length of its worklist and the pushes that are left.
use cognis.Base.{
  ℕ, zero, suc, ◌≡◌, ◌<◌, ◌≤◌, refl, sym, ◌∙◌, inl, inr, true, false, List, [], ◌∷◌, arith, length,
  if◌then◌else◌, ◌==◌, Bool-cases, flag-lt,
}
use cognis.Graph.{CodeGraph, n}
use cognis.Push.{PushState}
use cognis.Push.Tracked.{mem, Distinct, IsTracked}
use cognis.Push.Rounds.{nobody}
use cognis.Scalars.{Scalars}

remove : ℕ → List ℕ → List ℕ
remove k [] = []
remove k (u ∷ us) = let rest = remove k us in if u == k then rest else u ∷ rest

mem-remove : (x k : ℕ) (us : List ℕ) → mem x (remove k us) ≡ (if x == k then false else mem x us)
unfolding remove
mem-remove x k [] = ground arith
mem-remove x k (u ∷ us) = ground (arith, mem-remove x k us)

remove-Distinct : (k : ℕ) (us : List ℕ) → Distinct us → Distinct (remove k us)
unfolding remove
remove-Distinct k [] d = tt
remove-Distinct k (u ∷ us) (apart, d) = elim (Bool-cases (u == k)) [
  | inl same ↦ rw same (remove-Distinct k us d)
  | inr other ↦ rw other (ground (arith, mem-remove u k us, apart), remove-Distinct k us d)
]

-- A number that the list does not hold is not removed.
length-remove-out : (k : ℕ) (us : List ℕ) → mem k us ≡ false → length (remove k us) ≡ length us
unfolding remove
length-remove-out k [] h = refl
length-remove-out k (u ∷ us) h = ground (arith, length-remove-out k us)

length-remove : (k : ℕ) (us : List ℕ) → Distinct us → length us ≤ suc (length (remove k us))
unfolding remove
length-remove k [] d = omega arith
length-remove k (u ∷ us) (apart, d) = elim (Bool-cases (u == k)) [
  | inl same ↦ rw same (ground (arith, length-remove-out k us, apart, same))
  | inr other ↦ rw other (omega (arith, length-remove k us d))
]

-- Distinct numbers below `k` are at most `k`.
length-Distinct :
    (k : ℕ) (us : List ℕ) → Distinct us → ((u : ℕ) → mem u us ≡ true → u < k) → length us ≤ k
length-Distinct zero [] d below = omega arith
length-Distinct zero (u ∷ us) d below = absurd (omega (arith, below u (ground arith)))
length-Distinct (suc k) us d below = omega (
  arith,
  length-remove k us d,
  length-Distinct k (remove k us) (remove-Distinct k us d)
      (λ u h. ground (arith, h, mem-remove u k us, below u)),
)

module _ {K S : Type 0} (f : Scalars S) (g : CodeGraph K S) (eps : S) where
  pub length-active : (s : PushState S) → IsTracked f g eps nobody s → length s.active ≤ n g
  length-active s t =
      length-Distinct (n g) s.active t.distinct
        (λ u h. omega (arith, flag-lt s.in_active u (sym (t.mirrored u) ∙ h), t.flags))
