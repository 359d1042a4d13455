-- ===== src/Fusion/Ranked.antt =====
-- The order of a fused list.
use Prim.Native.Nat.{compare}
use cognis.Base.{
  ℕ, zero, suc, ◌<◌, ◌≡◌, ◌⊎◌, Bool, true, false, List, [], ◌∷◌, ◌||◌, some, arith, take,
  Bool-cases, inl, inr, ◌==◌,
}
use cognis.BtreeMap.{KeyOrd}
use cognis.Hits.{Hit, Floats, Rendering, member, IsDistinct}
use cognis.Sort.{place, sort_by}
use cognis.Fusion.{
  ranks_first, first_entry, credit_layers, group_from, flat, ranking, not_positive, rrf_fuse,
}
use cognis.Fusion.Ids.{entry_ids}
use cognis.Fusion.Credits.{IsDistinct-ranking}
use cognis.Fusion.Formula.{entries, entries-render}

-- Scores that are not NaN: f64 comparison is then that of a number for each value.
pub record NoNan {S : Type 0} (f : Floats S) : Type 0 where
  pub order : S → ℕ
  pub cmp : (s t : S) → f.partial_cmp s t ≡ some (compare (order s) (order t))

module _ {A : Type 0} (first : A → A → Bool) where
  -- `x` goes before every entry of the list.
  abbrev pub Leads : A → List A → Type 0
  Leads x [] = Unit
  Leads x (y ∷ ys) = (first x y ≡ true) × Leads x ys

  abbrev pub Sorted : List A → Type 0
  Sorted [] = Unit
  Sorted (x ∷ xs) = Leads x xs × Sorted xs

  Leads-place : (z x : A) (ys : List A) → first z x ≡ true → Leads z ys → Leads z (place first x ys)
  unfolding place
  Leads-place z x [] h l = (h, tt)
  Leads-place z x (y ∷ ys) h l = ground (arith, Leads-place z x ys h l.1)

  module _ (total : (a b : A) → first a b ≡ false → first b a ≡ true)
      (trans : (a b c : A) → first a b ≡ true → first b c ≡ true → first a c ≡ true) where
    Leads-trans : (x y : A) (ys : List A) → first x y ≡ true → Leads y ys → Leads x ys
    Leads-trans x y [] h l = tt
    Leads-trans x y (z ∷ ys) h l = (trans x y z h l.0, Leads-trans x y ys h l.1)

    place-Sorted : (x : A) (ys : List A) → Sorted ys → Sorted (place first x ys)
    unfolding place
    place-Sorted x [] s = (tt, tt)
    place-Sorted x (y ∷ ys) s = elim (Bool-cases (first x y)) [
      | inl e ↦ rw e ((e, Leads-trans x y ys e s.0), s)
      | inr e ↦ rw e (Leads-place y x ys (total x y e) s.0, place-Sorted x ys s.1)
    ]

    sort_by-Sorted : (xs : List A) → Sorted (sort_by first xs)
    unfolding sort_by
    sort_by-Sorted [] = tt
    sort_by-Sorted (x ∷ xs) = place-Sorted x (sort_by first xs) (sort_by-Sorted xs)

module _ {K S : Type 0} ⦃o : KeyOrd K⦄ (f : Floats S) (n : NoNan f) where
  ranks_first_total : (a b : K × S) → first_entry f a b ≡ false → first_entry f b a ≡ true
  unfolding ranks_first
  ranks_first_total (i, s) (j, t) h =
      ground
        (arith, n.cmp s t, n.cmp t s, o.lt_total i j, o.eq_iff i j, o.eq_iff j i, o.lt_irrefl i)

  ranks_first_trans :
      (a b c : K × S)
      → first_entry f a b ≡ true
      → first_entry f b c ≡ true
      → first_entry f a c ≡ true
  unfolding ranks_first
  ranks_first_trans (i, s) (j, t) (k, u) g h = ground (
    arith,
    n.cmp t s,
    n.cmp u t,
    n.cmp u s,
    o.lt_trans i j k,
    o.eq_iff i j,
    o.eq_iff j k,
    o.eq_iff i k,
  )

  -- The higher score goes first, and of equal scores the smaller id.
  abbrev pub Before : K × S → K × S → Type 0
  Before a b = (n.order b.1 < n.order a.1) ⊎ ((n.order a.1 ≡ n.order b.1) × (o.lt a.0 b.0 ≡ true))

  abbrev pub BeforeAll : K × S → List (K × S) → Type 0
  BeforeAll a [] = Unit
  BeforeAll a (b ∷ bs) = Before a b × BeforeAll a bs

  abbrev pub IsRanked : List (K × S) → Type 0
  IsRanked [] = Unit
  IsRanked (a ∷ es) = BeforeAll a es × IsRanked es

  first-Before : (a b : K × S) → first_entry f a b ≡ true → o.eq a.0 b.0 ≡ false → Before a b
  unfolding ranks_first
  first-Before (i, s) (j, t) h e = ground (arith, n.cmp t s)

  Leads-BeforeAll :
      (a : K × S) (bs : List (K × S))
      → Leads (first_entry f) a bs
      → member a.0 (entry_ids f bs) ≡ false
      → BeforeAll a bs
  unfolding member
  Leads-BeforeAll a [] l m = tt
  Leads-BeforeAll a (b ∷ bs) l m =
      (first-Before a b l.0 (ground (arith, m)), Leads-BeforeAll a bs l.1 (ground (arith, m)))

  Sorted-IsRanked :
      (es : List (K × S)) → Sorted (first_entry f) es → IsDistinct (entry_ids f es) → IsRanked es
  Sorted-IsRanked [] s d = tt
  Sorted-IsRanked (a ∷ es) s d = (Leads-BeforeAll a es s.0 d.0, Sorted-IsRanked es s.1 d.1)

  BeforeAll-take :
      (a : K × S) (k : ℕ) (bs : List (K × S)) → BeforeAll a bs → BeforeAll a (take k bs)
  BeforeAll-take a zero bs h = tt
  BeforeAll-take a (suc k) [] h = tt
  BeforeAll-take a (suc k) (b ∷ bs) h = (h.0, BeforeAll-take a k bs h.1)

  IsRanked-take : (k : ℕ) (es : List (K × S)) → IsRanked es → IsRanked (take k es)
  IsRanked-take zero es h = tt
  IsRanked-take (suc k) [] h = tt
  IsRanked-take (suc k) (a ∷ es) h = (BeforeAll-take a k es h.0, IsRanked-take k es h.1)

module _ {K S E : Type 0} ⦃o : KeyOrd K⦄ (f : Floats S) (r : Rendering S E) where
  ranking-IsRanked :
      (n : NoNan f) (layers : List (List (Hit K S E))) (x : S) → IsRanked f n (ranking f layers x)
  unfolding ranking
  ranking-IsRanked n layers x =
      Sorted-IsRanked f n (ranking f layers x)
        (sort_by-Sorted (first_entry f) (ranks_first_total f n) (ranks_first_trans f n)
          (credit_layers f x [] (group_from [] (flat layers))))
        (IsDistinct-ranking f layers x)

  -- Where no score is NaN a fused list is strictly ordered: by falling score, then by rising id.
  pub rrf_fuse-IsRanked :
      (n : NoNan f) (layers : List (List (Hit K S E))) (k : ℕ) (x : S)
      → IsRanked f n (entries f r (rrf_fuse f r layers k x))
  unfolding rrf_fuse
  rrf_fuse-IsRanked n layers k x = elim (Bool-cases (k == 0 || not_positive f x)) [
    | inl e ↦ rw e tt
    | inr e ↦
        rw (e, entries-render f r 1 (take k (ranking f layers x)))
          (IsRanked-take f n k (ranking f layers x) (ranking-IsRanked n layers x))
  ]
