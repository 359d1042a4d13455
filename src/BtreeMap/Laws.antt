-- ===== src/BtreeMap/Laws.antt =====
-- Laws of the ordered map and of sorted key sets.
use cognis.Base.{suc, ◌<◌, ◌≡◌, refl, true, List, [], ◌∷◌, some, arith, length, if◌then◌else◌}
use cognis.BtreeMap.{KeyOrd, contains_key, get, insert, keys, has, add, Above, IsSorted}

module _ {K V : Type 0} ⦃o : KeyOrd K⦄ where
  pub keys-insert : (k : K) (v : V) (m : List (K × V)) → keys (insert k v m) ≡ add k (keys m)
  unfolding insert add
  keys-insert k v [] = refl
  keys-insert k v ((j, w) ∷ m) = ground (arith, keys-insert k v m)

  pub contains_key-has : (k : K) (m : List (K × V)) → contains_key k m ≡ has k (keys m)
  unfolding contains_key has
  contains_key-has k [] = refl
  contains_key-has k ((j, w) ∷ m) = ground (arith, contains_key-has k m)

  pub get-insert :
      (k j : K) (v : V) (m : List (K × V))
      → get j (insert k v m) ≡ (if o.eq j k then some v else get j m)
  unfolding get insert
  get-insert k j v [] = ground arith
  get-insert k j v ((i, w) ∷ m) = ground (
    arith,
    get-insert k j v m,
    o.eq_iff j k,
    o.eq_iff j i,
    o.eq_iff k i,
    o.lt_trans j k i,
    o.lt_irrefl i,
    o.lt_trans k i k,
  )

module _ {K : Type 0} ⦃o : KeyOrd K⦄ where
  pub length-add :
      (k : K) (ks : List K) → length (add k ks) ≡ (if has k ks then length ks else suc (length ks))
  unfolding has add
  length-add k [] = refl
  length-add k (j ∷ js) = ground (arith, length-add k js)

  pub has-length : (k : K) (ks : List K) → has k ks ≡ true → 0 < length ks
  unfolding has
  has-length k [] h = cc
  has-length k (j ∷ js) h = omega arith

  Above-add : (i k : K) (ks : List K) → o.lt i k ≡ true → Above i ks → Above i (add k ks)
  unfolding add
  Above-add i k [] h a = (h, tt)
  Above-add i k (j ∷ js) h a = ground (arith, Above-add i k js h a.1)

  Above-trans : (i k : K) (ks : List K) → o.lt i k ≡ true → Above k ks → Above i ks
  Above-trans i k [] h a = tt
  Above-trans i k (j ∷ js) h a = (o.lt_trans i k j h a.0, Above-trans i k js h a.1)

  pub add-IsSorted : (k : K) (ks : List K) → IsSorted ks → IsSorted (add k ks)
  unfolding add
  add-IsSorted k [] s = (tt, tt)
  add-IsSorted k (j ∷ js) s = ground (
    arith,
    add-IsSorted k js s.1,
    Above-add j k js,
    Above-trans k j js,
    o.eq_iff k j,
    o.lt_total k j,
  )

  -- After an addition the set holds the key and what it held before.
  pub has-add : (k j : K) (ks : List K) → has j (add k ks) ≡ (if o.eq j k then true else has j ks)
  unfolding has add
  has-add k j [] = ground arith
  has-add k j (i ∷ is) = ground (
    arith,
    has-add k j is,
    o.eq_iff j k,
    o.eq_iff j i,
    o.eq_iff k i,
    o.lt_trans j k i,
    o.lt_irrefl i,
    o.lt_trans k i k,
  )
