-- ===== src/Publish/Paths.antt =====
-- The paths that a publication covers: in order, each once.
use cognis.Base.{
  ◌≡◌, refl, ap, sym, subst, ◌∙◌, true, ◌||◌, List, [], ◌∷◌, ◌++◌, map, if◌then◌else◌, arith,
  Bool-cases, inl, inr,
}
use cognis.BtreeMap.{KeyOrd, Above, IsSorted}
use cognis.Sort.{sort_by, place}
use cognis.Publish.{PublishBatch, dedup, dedup_after, covered_paths, not_after}
use cognis.Publish.Apply.{contains}

module _ {K : Type 0} ⦃o : KeyOrd K⦄ where
  abbrev AllFrom : K → List K → Type 0
  AllFrom k [] = Unit
  AllFrom k (j ∷ js) = (not_after k j ≡ true) × AllFrom k js

  abbrev IsOrdered : List K → Type 0
  IsOrdered [] = Unit
  IsOrdered (k ∷ ks) = AllFrom k ks × IsOrdered ks

  not_after_trans : (i j k : K) → not_after i j ≡ true → not_after j k ≡ true → not_after i k ≡ true
  not_after_trans i j k e f = ground (arith, e, f, o.lt_trans k i j, o.lt_total i j, o.eq_iff i j)

  AllFrom-trans : (i j : K) (ks : List K) → not_after i j ≡ true → AllFrom j ks → AllFrom i ks
  AllFrom-trans i j [] e a = tt
  AllFrom-trans i j (k ∷ ks) e a = (not_after_trans i j k e a.0, AllFrom-trans i j ks e a.1)

  AllFrom-place :
      (i k : K) (ks : List K)
      → not_after i k ≡ true
      → AllFrom i ks
      → AllFrom i (place not_after k ks)
  unfolding place
  AllFrom-place i k [] e a = (e, tt)
  AllFrom-place i k (j ∷ ks) e a = ground (arith, e, a, AllFrom-place i k ks e a.1)

  place-IsOrdered : (k : K) (ks : List K) → IsOrdered ks → IsOrdered (place not_after k ks)
  unfolding place
  place-IsOrdered k [] s = (tt, tt)
  place-IsOrdered k (j ∷ ks) s = ground (
    arith,
    s,
    place-IsOrdered k ks s.1,
    AllFrom-place j k ks,
    AllFrom-trans k j ks,
    o.lt_trans k j k,
    o.lt_irrefl k,
  )

  sort_by-IsOrdered : (ks : List K) → IsOrdered (sort_by not_after ks)
  unfolding sort_by
  sort_by-IsOrdered [] = tt
  sort_by-IsOrdered (k ∷ ks) = place-IsOrdered k (sort_by not_after ks) (sort_by-IsOrdered ks)

  Above-trans : (i j : K) (ks : List K) → o.lt i j ≡ true → Above j ks → Above i ks
  Above-trans i j [] e a = tt
  Above-trans i j (k ∷ ks) e a = (o.lt_trans i j k e a.0, Above-trans i j ks e a.1)

  kept_first :
      (k j : K) (rest : List K)
      → not_after k j ≡ true
      → Above j rest
      → IsSorted rest
      → let r = if o.eq k j then rest else j ∷ rest in Above k r × IsSorted r
  kept_first k j rest e a s = elim (Bool-cases (o.eq k j)) [
    | inl t ↦ ground (arith, t, s, subst (λ j. Above j rest) (sym ((o.eq_iff k j).0 t)) a)
    | inr f ↦ ground (arith, f, e, a, s, o.lt_total k j, Above-trans k j rest)
  ]

  dedup_after-IsSorted :
      (k : K) (js : List K)
      → AllFrom k js
      → IsOrdered js
      → Above k (dedup_after k js) × IsSorted (dedup_after k js)
  unfolding dedup_after
  dedup_after-IsSorted k [] a s = (tt, tt)
  dedup_after-IsSorted k (j ∷ js) a s =
      let (above, sorted) = dedup_after-IsSorted j js s.0 s.1 in
      kept_first k j (dedup_after j js) a.0 above sorted

  dedup-IsSorted : (ks : List K) → IsOrdered ks → IsSorted (dedup ks)
  unfolding dedup
  dedup-IsSorted [] s = tt
  dedup-IsSorted (k ∷ ks) s = dedup_after-IsSorted k ks s.0 s.1

  contains-dedup_after :
      (x k : K) (js : List K)
      → (contains x (dedup_after k js) || o.eq x k) ≡ (contains x js || o.eq x k)
  unfolding dedup_after contains
  contains-dedup_after x k [] = refl
  contains-dedup_after x k (j ∷ js) =
      ground (arith, contains-dedup_after x j js, o.eq_iff k j, o.eq_iff x k, o.eq_iff x j)

  pub contains-dedup : (x : K) (ks : List K) → contains x (dedup ks) ≡ contains x ks
  unfolding dedup contains
  contains-dedup x [] = refl
  contains-dedup x (k ∷ ks) = ground (arith, contains-dedup_after x k ks)

  contains-place :
      (x k : K) (ks : List K) → contains x (place not_after k ks) ≡ (o.eq x k || contains x ks)
  unfolding place contains
  contains-place x k [] = refl
  contains-place x k (j ∷ ks) = ground (arith, contains-place x k ks)

  pub contains-sort_by : (x : K) (ks : List K) → contains x (sort_by not_after ks) ≡ contains x ks
  unfolding sort_by contains
  contains-sort_by x [] = refl
  contains-sort_by x (k ∷ ks) =
      contains-place x k (sort_by not_after ks) ∙ ap (λ t. o.eq x k || t) (contains-sort_by x ks)

  pub contains-append :
      (x : K) (ks js : List K) → contains x (ks ++ js) ≡ (contains x ks || contains x js)
  unfolding contains
  contains-append x [] js = refl
  contains-append x (k ∷ ks) js = ground (arith, contains-append x ks js)

-- The paths that a batch covers are strictly in order, so each stands once, and they are the paths of
-- its file rows and of its deleted files.
pub covered_paths-IsSorted :
    {K R V F J : Type 0} ⦃o : KeyOrd K⦄ (b : PublishBatch K R V F J)
    → IsSorted (covered_paths b)
      × ((p : K)
          → contains p (covered_paths b)
            ≡ (contains p (map (λ r. r.path) b.file_rows) || contains p b.file_deletes))
unfolding covered_paths
covered_paths-IsSorted b =
    let paths = map (λ r. r.path) b.file_rows ++ b.file_deletes in
    (
      dedup-IsSorted (sort_by not_after paths) (sort_by-IsOrdered paths),
      λ p.
          contains-dedup p (sort_by not_after paths)
          ∙ contains-sort_by p paths
          ∙ contains-append p (map (λ r. r.path) b.file_rows) b.file_deletes,
    )
