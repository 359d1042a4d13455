-- ===== src/Fusion/Formula.antt =====
-- The score of a fused symbol: the sum over the layers of 1 / (rrf_k + rank).
use Prim.Native.String.{String}
use cognis.Base.{
  ℕ, zero, suc, ◌≡◌, ◌∙◌, sym, ap, refl, true, false, List, [], ◌∷◌, ◌||◌, map, Option, none, some,
  arith, take, Bool-cases, inl, inr, if◌then◌else◌, ◌==◌,
}
use cognis.BtreeMap.{KeyOrd}
use cognis.Hits.{Hit, Floats, Rendering, ids, member, IsDistinct}
use cognis.Sort.{place, sort_by}
use cognis.Fusion.{
  flat, group_from, credit, credit_layer, credit_layers, ranking, render, not_positive, rrf_fuse,
  contribution, first_hit, first_entry,
}
use cognis.Fusion.Ids.{entry_ids, member-sort_by}
use cognis.Fusion.Credits.{IsDistinct-credit_layers}

-- The ids of a list in the order of their first places, less those of `seen`.
module _ {K : Type 0} ⦃o : KeyOrd K⦄ where
  abbrev pub dedup : List K → List K → List K
  dedup seen [] = []
  dedup seen (k ∷ ks) =
      let skipped = dedup seen ks in
      let kept = k ∷ dedup (k ∷ seen) ks in if member k seen then skipped else kept

  -- The place of an id, counted from `n + 1`.
  abbrev pub index : K → ℕ → List K → Option ℕ
  index p n [] = none
  index p n (k ∷ ks) = if o.eq p k then some (suc n) else index p (suc n) ks

  index-dedup-seen :
      (p : K) (n : ℕ) (seen ks : List K) → member p seen ≡ true → index p n (dedup seen ks) ≡ none
  unfolding member
  index-dedup-seen p n seen [] h = refl
  index-dedup-seen p n seen (k ∷ ks) h = ground (
    arith,
    index-dedup-seen p n seen ks h,
    index-dedup-seen p (suc n) (k ∷ seen) ks,
    o.eq_iff p k,
  )

module _ {K S : Type 0} ⦃o : KeyOrd K⦄ where
  abbrev pub score_of : K → List (K × S) → Option S
  score_of p [] = none
  score_of p ((k, s) ∷ fused) = if o.eq p k then some s else score_of p fused

  score_of-absent :
      (p : K) (fused : List (K × S))
      → member p (map (λ (e : K × S). e.0) fused) ≡ false
      → score_of p fused ≡ none
  unfolding member
  score_of-absent p [] h = refl
  score_of-absent p ((k, s) ∷ fused) h = ground (arith, score_of-absent p fused)

module _ {S : Type 0} (f : Floats S) where
  -- One more layer's contribution to a score.
  abbrev pub plus : Option S → S → S
  plus none c = c
  plus (some s) c = f.add s c

  abbrev pub plus_rank : S → Option S → Option ℕ → Option S
  plus_rank x before none = before
  plus_rank x before (some rank) = some (plus before (contribution f x rank))

module _ {K S : Type 0} ⦃o : KeyOrd K⦄ (f : Floats S) where
  score_of-credit :
      (p k : K) (c : S) (fused : List (K × S))
      → score_of p (credit f k c fused)
        ≡ (if o.eq p k then some (plus f (score_of k fused) c) else score_of p fused)
  unfolding credit
  score_of-credit p k c [] = refl
  score_of-credit p k c ((j, s) ∷ fused) =
      ground
        (arith, score_of-credit p k c fused, o.eq_iff j k, o.eq_iff p k, o.eq_iff p j, o.eq_iff k j)

  score_of-place :
      (p : K) (x : K × S) (ys : List (K × S))
      → member x.0 (entry_ids f ys) ≡ false
      → score_of p (place (first_entry f) x ys) ≡ (if o.eq p x.0 then some x.1 else score_of p ys)
  unfolding place member
  score_of-place p (k, s) [] h = refl
  score_of-place p (k, s) ((j, t) ∷ ys) h =
      ground (arith, score_of-place p (k, s) ys, o.eq_iff p k, o.eq_iff p j, o.eq_iff k j)

  score_of-sort_by :
      (p : K) (fused : List (K × S))
      → IsDistinct (entry_ids f fused)
      → score_of p (sort_by (first_entry f) fused) ≡ score_of p fused
  unfolding sort_by
  score_of-sort_by p [] d = refl
  score_of-sort_by p ((k, s) ∷ fused) d = ground (
    arith,
    score_of-sort_by p fused d.1,
    score_of-place p (k, s) (sort_by (first_entry f) fused)
        (member-sort_by (first_entry f) (λ (e : K × S). e.0) k fused ∙ d.0),
  )

  score_of-take :
      (p : K) (k : ℕ) (fused : List (K × S)) {s : S}
      → score_of p (take k fused) ≡ some s
      → score_of p fused ≡ some s
  score_of-take p zero fused h = cc
  score_of-take p (suc k) [] h = h
  score_of-take p (suc k) ((j, t) ∷ fused) {s} h = ground (arith, score_of-take p k fused {s = s})

module _ {K S E : Type 0} ⦃o : KeyOrd K⦄ (f : Floats S) where
  score_of-credit_layer :
      (p : K) (x : S) (rank : ℕ) (seen : List K) (fused : List (K × S)) (hits : List (Hit K S E))
      → score_of p (credit_layer f x rank seen fused hits)
        ≡ plus_rank f x (score_of p fused) (index p rank (dedup seen (ids hits)))
  unfolding credit_layer member
  score_of-credit_layer p x rank seen fused [] = refl
  score_of-credit_layer p x rank seen fused (hit ∷ hits) =
      let k = hit.symbol_id in
      let c = contribution f x (suc rank) in
      ground (
        arith,
        score_of-credit_layer p x rank seen fused hits,
        score_of-credit_layer p x (suc rank) (k ∷ seen) (credit f k c fused) hits,
        score_of-credit f p k c fused,
        index-dedup-seen p (suc rank) (k ∷ seen) (ids hits),
        o.eq_iff p k,
      )

  -- The rank of a symbol in a layer: its place among the distinct ids, by score and then by id.
  abbrev pub rank_in : K → List (Hit K S E) → Option ℕ
  rank_in p hits = index p 0 (dedup [] (ids (sort_by (first_hit f) hits)))

  -- The sum of 1 / (rrf_k + rank) over the layers that found the symbol, in their order.
  abbrev pub rrf_score : K → S → Option S → List (String × List (Hit K S E)) → Option S
  rrf_score p x sum [] = sum
  rrf_score p x sum ((name, hits) ∷ groups) =
      rrf_score p x (plus_rank f x sum (rank_in p hits)) groups

  score_of-credit_layers :
      (p : K) (x : S) (fused : List (K × S)) (groups : List (String × List (Hit K S E)))
      → score_of p (credit_layers f x fused groups) ≡ rrf_score p x (score_of p fused) groups
  unfolding credit_layers
  score_of-credit_layers p x fused [] = refl
  score_of-credit_layers p x fused ((name, hits) ∷ groups) =
      let l = sort_by (first_hit f) hits in
      score_of-credit_layers p x (credit_layer f x 0 [] fused l) groups
      ∙ ap (λ s. rrf_score p x s groups) (score_of-credit_layer p x 0 [] fused l)

  score_of-ranking :
      (p : K) (layers : List (List (Hit K S E))) (x : S)
      → score_of p (ranking f layers x) ≡ rrf_score p x none (group_from [] (flat layers))
  unfolding ranking
  score_of-ranking p layers x =
      let groups = group_from [] (flat layers) in
      score_of-sort_by f p (credit_layers f x [] groups) (IsDistinct-credit_layers f x [] groups tt)
      ∙ score_of-credit_layers p x [] groups

module _ {K S E : Type 0} ⦃o : KeyOrd K⦄ (f : Floats S) (r : Rendering S E) where
  abbrev pub entries : List (Hit K S E) → List (K × S)
  entries [] = []
  entries (h ∷ hs) = (h.symbol_id, h.score) ∷ entries hs

  pub entries-render : (n : ℕ) (fused : List (K × S)) → entries (render f r n fused) ≡ fused
  unfolding render
  entries-render n [] = refl
  entries-render n ((k, s) ∷ fused) = ap (◌∷◌ (k, s)) (entries-render (suc n) fused)

  -- The score of every fused hit is the reciprocal rank formula over the layers.
  pub rrf_fuse-score :
      (p : K) (layers : List (List (Hit K S E))) (k : ℕ) (x : S) {s : S}
      → score_of p (entries (rrf_fuse f r layers k x)) ≡ some s
      → rrf_score f p x none (group_from [] (flat layers)) ≡ some s
  unfolding rrf_fuse
  rrf_fuse-score p layers k x {s} h = elim (Bool-cases (k == 0 || not_positive f x)) [
    | inl e ↦ ground (arith, e, h)
    | inr e ↦
        sym (score_of-ranking f p layers x)
        ∙ score_of-take f p k (ranking f layers x)
            (ground (arith, e, h, entries-render 1 (take k (ranking f layers x))))
  ]
