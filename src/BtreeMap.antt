-- ===== src/BtreeMap.antt =====
-- The ordered map of Rust's standard library, `BTreeMap`, as the code uses it: an association
-- list in the order of its keys. A search stops at the first larger key, as the tree's does.
pub mod Laws
use cognis.Base.{
  ℕ, ◌≡◌, ◌↔◌, Bool, true, false, ◌||◌, List, [], ◌∷◌, map, Option, none, some, if◌then◌else◌, ltb,
  ◌==◌, ==_iff, ltb_irrefl, ltb_trans, ltb_total,
}

-- The order on keys, `Ord` in the source.
pub record KeyOrd (K : Type 0) : Type 0 where
  pub eq : K → K → Bool
  pub lt : K → K → Bool
  pub eq_iff : (a b : K) → (eq a b ≡ true) ↔ (a ≡ b)
  pub lt_irrefl : (a : K) → lt a a ≡ false
  pub lt_trans : (a b c : K) → lt a b ≡ true → lt b c ≡ true → lt a c ≡ true
  pub lt_total : (a b : K) → eq a b ≡ false → lt a b ≡ false → lt b a ≡ true

-- Numbered keys, for the tests.
instance abbrev pub nat_order : KeyOrd ℕ
nat_order = record {
  eq = ◌==◌;
  lt = ltb;
  eq_iff = ==_iff;
  lt_irrefl = ltb_irrefl;
  lt_trans = ltb_trans;
  lt_total = ltb_total;
}

module _ {K V : Type 0} ⦃o : KeyOrd K⦄ where
  unfoldable pub contains_key : K → List (K × V) → Bool
  contains_key k [] = false
  contains_key k ((j, w) ∷ m) =
      if o.eq k j then true else if o.lt k j then false else contains_key k m

  unfoldable pub get : K → List (K × V) → Option V
  get k [] = none
  get k ((j, w) ∷ m) = if o.eq k j then some w else if o.lt k j then none else get k m

  unfoldable pub insert : K → V → List (K × V) → List (K × V)
  insert k v [] = (k, v) ∷ []
  insert k v ((j, w) ∷ m) =
      if o.eq k j
      then (k, v) ∷ m
      else if o.lt k j
      then (k, v) ∷ (j, w) ∷ m
      else (j, w) ∷ insert k v m

  abbrev pub keys : List (K × V) → List K
  keys = map (λ e. e.0)

module _ {K : Type 0} ⦃o : KeyOrd K⦄ where
  -- Sets of keys, as sorted lists.
  unfoldable pub has : K → List K → Bool
  has k [] = false
  has k (j ∷ js) = if o.eq k j then true else if o.lt k j then false else has k js

  unfoldable pub add : K → List K → List K
  add k [] = k ∷ []
  add k (j ∷ js) = if o.eq k j then k ∷ js else if o.lt k j then k ∷ j ∷ js else j ∷ add k js

  -- Every key of the list is above `k`.
  abbrev pub Above : K → List K → Type 0
  Above k [] = Unit
  Above k (j ∷ js) = (o.lt k j ≡ true) × Above k js

  abbrev pub IsSorted : List K → Type 0
  IsSorted [] = Unit
  IsSorted (j ∷ js) = Above j js × IsSorted js
