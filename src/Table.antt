-- ===== src/Table.antt =====
-- A table with a primary key as a list of rows in the order of their insertion.
use cognis.Base.{
  ◌≡◌, Bool, true, false, ◌||◌, List, [], ◌∷◌, Option, none, some, if◌then◌else◌, arith,
}
use cognis.BtreeMap.{KeyOrd}

module _ {K V : Type 0} ⦃o : KeyOrd K⦄ where
  unfoldable pub lookup : K → List (K × V) → Option V
  lookup k [] = none
  lookup k ((j, v) ∷ m) = if o.eq k j then some v else lookup k m

  unfoldable pub has_key : K → List (K × V) → Bool
  has_key k [] = false
  has_key k ((j, v) ∷ m) = o.eq k j || has_key k m

  -- `INSERT … ON CONFLICT(key) DO UPDATE`
  unfoldable pub put : K → V → List (K × V) → List (K × V)
  put k v [] = (k, v) ∷ []
  put k v ((j, w) ∷ m) = if o.eq k j then (k, v) ∷ m else (j, w) ∷ put k v m

  -- `DELETE … WHERE key = k`
  unfoldable pub drop_key : K → List (K × V) → List (K × V)
  drop_key k [] = []
  drop_key k ((j, v) ∷ m) = let rest = drop_key k m in if o.eq k j then rest else (j, v) ∷ rest

  pub has_key-put :
      (k j : K) (v : V) (m : List (K × V))
      → has_key k (put j v m) ≡ (if o.eq k j then true else has_key k m)
  unfolding has_key put
  has_key-put k j v [] = ground arith
  has_key-put k j v ((i, w) ∷ m) =
      ground (arith, o.eq_iff k j, o.eq_iff j i, o.eq_iff k i, has_key-put k j v m)

  pub has_key-drop_key :
      (k j : K) (m : List (K × V))
      → has_key k (drop_key j m) ≡ (if o.eq k j then false else has_key k m)
  unfolding has_key drop_key
  has_key-drop_key k j [] = ground arith
  has_key-drop_key k j ((i, w) ∷ m) =
      ground (arith, o.eq_iff k j, o.eq_iff j i, o.eq_iff k i, has_key-drop_key k j m)
