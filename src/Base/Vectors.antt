-- ===== src/Base/Vectors.antt =====
-- Vectors as lists under native indices, with the library's names.
use Prim.Native.Nat.{ℕ, zero, suc, ◌+◌, ◌<◌}
use mathlib.Core.Path.{◌≡◌, refl, ap}
use mathlib.Core.Option.{Option, none, some}
use mathlib.Core.Bool.{Bool, true, false}
use mathlib.Core.List.{List, [], ◌∷◌, ◌++◌, map}
use native.Mathlib.Omega.{arith}
use native.Mathlib.Decide.{ℕ_discrete}
use cognis.Base.Tests.{if◌then◌else◌, ◌==◌}
use cognis.Base.Lists.{length, take}

module _ {ℓ} {A : Type ℓ} where
  abbrev pub get_elem? : List A → ℕ → Option A
  get_elem? [] i = none
  get_elem? (x ∷ xs) zero = some x
  get_elem? (x ∷ xs) (suc i) = get_elem? xs i

  abbrev pub get_or : A → List A → ℕ → A
  get_or d [] i = d
  get_or d (x ∷ xs) zero = x
  get_or d (x ∷ xs) (suc i) = get_or d xs i

  -- `v[i] = x`, on an index in range.
  abbrev pub set : List A → ℕ → A → List A
  set [] i v = []
  set (x ∷ xs) zero v = v ∷ xs
  set (x ∷ xs) (suc i) v = x ∷ set xs i v

  -- `f(&mut v[i])`, on an index in range.
  abbrev pub modify : (A → A) → List A → ℕ → List A
  modify f [] i = []
  modify f (x ∷ xs) zero = f x ∷ xs
  modify f (x ∷ xs) (suc i) = x ∷ modify f xs i

  -- `vec![x; n]`
  abbrev pub replicate : ℕ → A → List A
  replicate zero x = []
  replicate (suc n) x = x ∷ replicate n x

  abbrev pub drop : ℕ → List A → List A
  drop zero xs = xs
  drop (suc n) [] = []
  drop (suc n) (x ∷ xs) = drop n xs

  pub length-set : (xs : List A) (i : ℕ) (v : A) → length (set xs i v) ≡ length xs
  length-set [] i v = refl
  length-set (x ∷ xs) zero v = refl
  length-set (x ∷ xs) (suc i) v = ap suc (length-set xs i v)

  pub length-modify : (f : A → A) (xs : List A) (i : ℕ) → length (modify f xs i) ≡ length xs
  length-modify f [] i = refl
  length-modify f (x ∷ xs) zero = refl
  length-modify f (x ∷ xs) (suc i) = ap suc (length-modify f xs i)

  pub length-replicate : (n : ℕ) (x : A) → length (replicate n x) ≡ n
  length-replicate zero x = refl
  length-replicate (suc n) x = ap suc (length-replicate n x)

  pub get_or-replicate : (n : ℕ) (x : A) (i : ℕ) → get_or x (replicate n x) i ≡ x
  get_or-replicate zero x i = refl
  get_or-replicate (suc n) x zero = refl
  get_or-replicate (suc n) x (suc i) = get_or-replicate n x i

  pub get_or-set :
      (d : A) (xs : List A) (i j : ℕ) (v : A)
      → i < length xs
      → get_or d (set xs i v) j ≡ (if i == j then v else get_or d xs j)
  get_or-set d [] i j v h = absurd (omega arith)
  get_or-set d (x ∷ xs) zero zero v h = refl
  get_or-set d (x ∷ xs) zero (suc j) v h = ground arith
  get_or-set d (x ∷ xs) (suc i) zero v h = ground arith
  get_or-set d (x ∷ xs) (suc i) (suc j) v h = ground (arith, get_or-set d xs i j v)

  pub get_or-modify :
      (d : A) (f : A → A) (xs : List A) (i j : ℕ)
      → i < length xs
      → get_or d (modify f xs i) j ≡ (if i == j then f (get_or d xs j) else get_or d xs j)
  get_or-modify d f [] i j h = absurd (omega arith)
  get_or-modify d f (x ∷ xs) zero zero h = refl
  get_or-modify d f (x ∷ xs) zero (suc j) h = ground arith
  get_or-modify d f (x ∷ xs) (suc i) zero h = ground arith
  get_or-modify d f (x ∷ xs) (suc i) (suc j) h = ground (arith, get_or-modify d f xs i j)

  pub get_elem?-get_or :
      (d : A) (xs : List A) (i : ℕ) → i < length xs → get_elem? xs i ≡ some (get_or d xs i)
  get_elem?-get_or d [] i h = absurd (omega arith)
  get_elem?-get_or d (x ∷ xs) zero h = refl
  get_elem?-get_or d (x ∷ xs) (suc i) h = get_elem?-get_or d xs i (omega arith)

  pub drop-append : (xs ys : List A) → drop (length xs) (xs ++ ys) ≡ ys
  drop-append [] ys = refl
  drop-append (x ∷ xs) ys = drop-append xs ys

  pub take-append : (xs ys : List A) → take (length xs) (xs ++ ys) ≡ xs
  take-append [] ys = refl
  take-append (x ∷ xs) ys = ap (◌∷◌ x) (take-append xs ys)

  pub get_elem?-append_right :
      (xs ys : List A) (i : ℕ) → get_elem? (xs ++ ys) (length xs + i) ≡ get_elem? ys i
  get_elem?-append_right [] ys i = ground arith
  get_elem?-append_right (x ∷ xs) ys i = ground (arith, get_elem?-append_right xs ys i)

module _ {ℓ κ} {A : Type ℓ} {B : Type κ} where
  pub get_elem?-map :
      (d : A) (g : A → B) (xs : List A) (i : ℕ)
      → i < length xs
      → get_elem? (map g xs) i ≡ some (g (get_or d xs i))
  get_elem?-map d g [] i h = absurd (omega arith)
  get_elem?-map d g (x ∷ xs) zero h = refl
  get_elem?-map d g (x ∷ xs) (suc i) h = get_elem?-map d g xs i (omega arith)

-- A property of every index below a bound.
abbrev pub Each {ℓ} : ℕ → (ℕ → Type ℓ) → Type ℓ
Each zero P = Unit
Each (suc k) P = P k × Each k P

pub Each-apply {ℓ} : (P : ℕ → Type ℓ) (k i : ℕ) → i < k → Each k P → P i
Each-apply P zero i h e = absurd (omega arith)
Each-apply P (suc k) i h e = elim (ℕ_discrete i k) [
  | yes p ↦ rw p (e.0)
  | no p ↦ Each-apply P k i (omega arith) (e.1)
]

pub Each-intro {ℓ} : (P : ℕ → Type ℓ) (k : ℕ) → ((i : ℕ) → i < k → P i) → Each k P
Each-intro P zero f = tt
Each-intro P (suc k) f = (f k (omega arith), Each-intro P k (λ i h. f i (omega arith)))

pub Each-map {ℓ} : (P Q : ℕ → Type ℓ) (k : ℕ) → ((i : ℕ) → i < k → P i → Q i) → Each k P → Each k Q
Each-map P Q k f e = Each-intro Q k (λ i h. f i h (Each-apply P k i h e))

pub get_or-get_elem? {ℓ} :
    {A : Type ℓ} (d : A) (xs : List A) (i : ℕ) {x : A} → get_elem? xs i ≡ some x → get_or d xs i ≡ x
get_or-get_elem? d [] i h = cc
get_or-get_elem? d (x ∷ xs) zero h = cc
get_or-get_elem? d (x ∷ xs) (suc i) h = get_or-get_elem? d xs i h

pub flag-lt : (xs : List Bool) (i : ℕ) → get_or false xs i ≡ true → i < length xs
flag-lt [] i h = cc
flag-lt (x ∷ xs) zero h = omega arith
flag-lt (x ∷ xs) (suc i) h = omega (arith, flag-lt xs i h)
