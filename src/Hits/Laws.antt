-- ===== src/Hits/Laws.antt =====
-- Laws of id lists.
use cognis.Base.{ℕ, zero, suc, ◌≡◌, refl, true, false, List, [], ◌∷◌, ◌++◌, ◌||◌, arith, take}
use cognis.BtreeMap.{KeyOrd}
use cognis.Hits.{member, IsDistinct}

module _ {K : Type 0} ⦃o : KeyOrd K⦄ where
  pub member-append : (p : K) (xs ys : List K) → member p (xs ++ ys) ≡ member p xs || member p ys
  unfolding member
  member-append p [] ys = refl
  member-append p (x ∷ xs) ys = ground (arith, member-append p xs ys)

  member-take : (p : K) (n : ℕ) (xs : List K) → member p (take n xs) ≡ true → member p xs ≡ true
  unfolding member
  member-take p zero xs h = cc
  member-take p (suc n) [] h = h
  member-take p (suc n) (x ∷ xs) h = ground (arith, member-take p n xs)

  not-member-take :
      (p : K) (n : ℕ) (xs : List K) → member p xs ≡ false → member p (take n xs) ≡ false
  unfolding member
  not-member-take p zero xs h = refl
  not-member-take p (suc n) [] h = h
  not-member-take p (suc n) (x ∷ xs) h = ground (arith, not-member-take p n xs)

  pub IsDistinct-take : (n : ℕ) (xs : List K) → IsDistinct xs → IsDistinct (take n xs)
  IsDistinct-take zero xs d = tt
  IsDistinct-take (suc n) [] d = tt
  IsDistinct-take (suc n) (x ∷ xs) d = (not-member-take x n xs d.0, IsDistinct-take n xs d.1)

  -- A list without `p` stays distinct with `p` put at its end.
  IsDistinct-append_one :
      (p : K) (xs : List K) → member p xs ≡ false → IsDistinct xs → IsDistinct (xs ++ p ∷ [])
  unfolding member
  IsDistinct-append_one p [] h d = (refl, tt)
  IsDistinct-append_one p (x ∷ xs) h d =
      ground
        (arith, IsDistinct-append_one p xs, member-append x xs (p ∷ []), o.eq_iff p x, o.eq_iff x p)

  -- Two distinct lists without a common id are distinct together.
  pub IsDistinct-append :
      (xs ys : List K)
      → IsDistinct xs
      → IsDistinct ys
      → ((p : K) → member p xs ≡ true → member p ys ≡ false)
      → IsDistinct (xs ++ ys)
  unfolding member
  IsDistinct-append [] ys dx dy h = dy
  IsDistinct-append (x ∷ xs) ys dx dy h = (
    ground (arith, member-append x xs ys, h x, dx.0, o.eq_iff x x),
    IsDistinct-append xs ys dx.1 dy (λ p m. h p (ground (arith, m))),
  )
