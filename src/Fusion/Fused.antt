-- ===== src/Fusion/Fused.antt =====
-- Which symbols a fused list holds.
use cognis.Base.{
  ℕ, zero, suc, ◌≤◌, ◌<◌, ◌≡◌, ◌∙◌, ap, refl, false, List, [], ◌∷◌, ◌||◌, arith, take, length,
  length-map, length-take-le, take_short, Bool-cases, inl, inr, if◌then◌else◌, ◌==◌,
}
use cognis.BtreeMap.{KeyOrd}
use cognis.Hits.{Hit, Floats, Rendering, ids, member, IsDistinct}
use cognis.Hits.Laws.{IsDistinct-take}
use cognis.Fusion.{flat, ranking, render, not_positive, rrf_fuse}
use cognis.Fusion.Ids.{entry_ids}
use cognis.Fusion.Credits.{member-ranking, IsDistinct-ranking}

module _ {K S E : Type 0} ⦃o : KeyOrd K⦄ (f : Floats S) (r : Rendering S E) where
  ids-render : (n : ℕ) (fused : List (K × S)) → ids (render f r n fused) ≡ entry_ids f fused
  unfolding render
  ids-render n [] = refl
  ids-render n ((k, s) ∷ fused) = ap (◌∷◌ k) (ids-render (suc n) fused)

  entry_ids-take :
      (k : ℕ) (fused : List (K × S)) → entry_ids f (take k fused) ≡ take k (entry_ids f fused)
  entry_ids-take zero fused = refl
  entry_ids-take (suc k) [] = refl
  entry_ids-take (suc k) (e ∷ fused) = ap (◌∷◌ e.0) (entry_ids-take k fused)

  ids-rrf_fuse :
      (layers : List (List (Hit K S E))) (k : ℕ) (x : S)
      → ids (rrf_fuse f r layers k x)
        ≡ (if k == 0 || not_positive f x then [] else take k (entry_ids f (ranking f layers x)))
  unfolding rrf_fuse
  ids-rrf_fuse layers k x =
      ground
        (arith, ids-render 1 (take k (ranking f layers x)), entry_ids-take k (ranking f layers x))

  -- A fused list has at most `k` hits, and no symbol twice.
  pub rrf_fuse-IsDistinct :
      (layers : List (List (Hit K S E))) (k : ℕ) (x : S)
      → (length (rrf_fuse f r layers k x) ≤ k) × IsDistinct (ids (rrf_fuse f r layers k x))
  unfolding rrf_fuse
  rrf_fuse-IsDistinct layers k x = elim (Bool-cases (k == 0 || not_positive f x)) [
    | inl e ↦ rw e (omega arith, tt)
    | inr e ↦
        let l = entry_ids f (ranking f layers x) in
        let same : ids (rrf_fuse f r layers k x) ≡ take k l = ids-rrf_fuse layers k x ∙ (rw e) in
        (
          omega (
            arith,
            ap length same,
            length-map (rrf_fuse f r layers k x) (λ (h : Hit K S E). h.symbol_id),
            length-take-le k l,
          ),
          rw same (IsDistinct-take k l (IsDistinct-ranking f layers x)),
        )
  ]

  -- With a positive damping constant a list that is not full holds exactly the symbols of the layers.
  pub member-rrf_fuse :
      (p : K) (layers : List (List (Hit K S E))) (k : ℕ) (x : S)
      → not_positive f x ≡ false
      → length (rrf_fuse f r layers k x) < k
      → member p (ids (rrf_fuse f r layers k x)) ≡ member p (ids (flat layers))
  unfolding rrf_fuse
  member-rrf_fuse p layers k x h l =
      let full = entry_ids f (ranking f layers x) in
      let same : ids (rrf_fuse f r layers k x) ≡ take k full =
        ground (arith, ids-rrf_fuse layers k x) in
      let short : length (take k full) < k = omega (
        arith,
        ap length same,
        length-map (rrf_fuse f r layers k x) (λ (g : Hit K S E). g.symbol_id),
      ) in
      ap (member p) (same ∙ take_short k full short) ∙ member-ranking f p layers x
