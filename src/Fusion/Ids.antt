-- ===== src/Fusion/Ids.antt =====
-- Which symbols a fused ranking holds: each once, and only those of the layers.
use cognis.Base.{◌≡◌, ◌∙◌, ap, refl, Bool, false, List, [], ◌∷◌, ◌||◌, map, arith}
use cognis.BtreeMap.{KeyOrd}
use cognis.Hits.{Floats, member, IsDistinct}
use cognis.Sort.{place, sort_by}
use cognis.Fusion.{credit}

module _ {A K : Type 0} ⦃o : KeyOrd K⦄ (first : A → A → Bool) (id : A → K) where
  member-place :
      (p : K) (x : A) (ys : List A)
      → member p (map id (place first x ys)) ≡ o.eq p (id x) || member p (map id ys)
  unfolding place member
  member-place p x [] = refl
  member-place p x (y ∷ ys) = ground (arith, member-place p x ys)

  pub member-sort_by :
      (p : K) (xs : List A) → member p (map id (sort_by first xs)) ≡ member p (map id xs)
  unfolding sort_by member
  member-sort_by p [] = refl
  member-sort_by p (x ∷ xs) =
      member-place p x (sort_by first xs) ∙ ap (◌||◌ (o.eq p (id x))) (member-sort_by p xs)

  IsDistinct-place :
      (x : A) (ys : List A)
      → member (id x) (map id ys) ≡ false
      → IsDistinct (map id ys)
      → IsDistinct (map id (place first x ys))
  unfolding place member
  IsDistinct-place x [] h d = (refl, tt)
  IsDistinct-place x (y ∷ ys) h d = ground (
    arith,
    IsDistinct-place x ys,
    member-place (id y) x ys,
    o.eq_iff (id x) (id y),
    o.eq_iff (id y) (id x),
  )

  pub IsDistinct-sort_by :
      (xs : List A) → IsDistinct (map id xs) → IsDistinct (map id (sort_by first xs))
  unfolding sort_by
  IsDistinct-sort_by [] d = tt
  IsDistinct-sort_by (x ∷ xs) d =
      IsDistinct-place x (sort_by first xs) (member-sort_by (id x) xs ∙ d.0)
        (IsDistinct-sort_by xs d.1)

module _ {K S : Type 0} ⦃o : KeyOrd K⦄ (f : Floats S) where
  abbrev pub entry_ids : List (K × S) → List K
  entry_ids = map (λ e. e.0)

  pub member-credit :
      (p k : K) (c : S) (fused : List (K × S))
      → member p (entry_ids (credit f k c fused)) ≡ o.eq p k || member p (entry_ids fused)
  unfolding credit member
  member-credit p k c [] = refl
  member-credit p k c ((j, s) ∷ fused) = ground (arith, member-credit p k c fused, o.eq_iff j k)

  pub IsDistinct-credit :
      (k : K) (c : S) (fused : List (K × S))
      → IsDistinct (entry_ids fused)
      → IsDistinct (entry_ids (credit f k c fused))
  unfolding credit member
  IsDistinct-credit k c [] d = (refl, tt)
  IsDistinct-credit k c ((j, s) ∷ fused) d =
      ground (arith, IsDistinct-credit k c fused, member-credit j k c fused)
