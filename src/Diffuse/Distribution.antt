-- ===== src/Diffuse/Distribution.antt =====
-- The seed distribution, `build_seed_distribution` of crates/cognis-csar/src/diffuse.rs.
use cognis.Base.{
  ℕ, ◌≡◌, refl, sym, ap, ◌∙◌, ◌⊎◌, inl, inr, true, false, List, [], ◌∷◌, map, arith, as_i32,
  Bool-cases,
}
use cognis.BtreeMap.{KeyOrd, nat_order}
use cognis.Table.{has_key}
use cognis.Hits.{Hit}
use cognis.Scalars.{Scalars}
use cognis.Graph.{CodeGraph}
use cognis.Graph.Rows.{shares}
use cognis.Push.Tracked.{mem, Distinct}
use cognis.Push.Exact.{IsExact, total}
use cognis.Diffuse.{
  Extremes, Raw, add_layers, score_at, sum_scores, shares_of, distribute, build_seed_distribution,
}
use cognis.Diffuse.Seeds.{IsPositive, IsRaw, Adds, any_names, add_layers-Adds}

module _ {S : Type 0} (f : Scalars S) (exact : IsExact f) where
  scores : List (ℕ × S) → List ℕ → S
  scores raw us = total f (map (score_at f raw) us)

  sum_scores-scores :
      (raw : List (ℕ × S)) (acc : S) (us : List ℕ)
      → sum_scores f raw acc us ≡ f.add acc (scores raw us)
  unfolding scores
  sum_scores-scores raw acc [] = sym (exact.add_comm acc f.zero ∙ exact.zero_add acc)
  sum_scores-scores raw acc (u ∷ us) =
      sum_scores-scores raw (f.add acc (score_at f raw u)) us
      ∙ exact.add_assoc acc (score_at f raw u) (scores raw us)

  total-shares_of :
      (raw : List (ℕ × S)) (t : S) (us : List ℕ)
      → total f (shares (shares_of f raw t us)) ≡ f.div (scores raw us) t
  unfolding scores
  total-shares_of raw t [] = sym (exact.zero_div t)
  total-shares_of raw t (u ∷ us) =
      ap (f.add (f.div (score_at f raw u) t)) (total-shares_of raw t us)
      ∙ sym (exact.div_add (score_at f raw u) (scores raw us) t)

  div_self : (t : S) → f.lt f.zero t ≡ true → f.div t t ≡ f.one
  div_self t h = ap (λ y. f.div y t) (sym (exact.one_mul t)) ∙ exact.mul_div f.one t h

indices-shares_of :
    {S : Type 0} (f : Scalars S) (raw : List (ℕ × S)) (t : S) (us : List ℕ)
    → map (λ e. e.0) (shares_of f raw t us) ≡ map as_i32 us
indices-shares_of f raw t [] = refl
indices-shares_of f raw t (u ∷ us) = ap (◌∷◌ (as_i32 u)) (indices-shares_of f raw t us)

module _ {S E : Type 0} (f : Scalars S) (x : Extremes S E) (exact : IsExact f)
    (law : IsPositive f x) where
  -- A sum of scores over 0 is not 0.
  no_scores :
      (r : Raw S) (us : List ℕ)
      → IsRaw f r
      → r.order ≡ us
      → f.le (scores f exact r.raw us) f.zero ≡ true
      → us ≡ []
  unfolding scores
  no_scores r [] raw e low = refl
  no_scores r (u ∷ us) raw e low =
      let here : mem u r.order ≡ true = ap (mem u) e ∙ ground arith in
      let over : f.le (score_at f r.raw u) f.zero ≡ false =
        ground (arith, here, raw.same u, raw.positive u) in
      let sum_over : f.le (f.add (score_at f r.raw u) (scores f exact r.raw us)) f.zero ≡ false =
        ap (λ y. f.le y f.zero) (exact.add_comm (score_at f r.raw u) (scores f exact r.raw us))
        ∙ law.add (scores f exact r.raw us) (score_at f r.raw u) over in
      absurd (ground (arith, low, sum_over))

  distribute-total :
      (r : Raw S)
      → IsRaw f r
      → (map (λ e. e.0) (distribute f r (sum_scores f r.raw f.zero r.order)) ≡ map as_i32 r.order)
        × ((distribute f r (sum_scores f r.raw f.zero r.order) ≡ [])
            ⊎ (total f (shares (distribute f r (sum_scores f r.raw f.zero r.order))) ≡ f.one))
  distribute-total r raw = elim (Bool-cases (f.le (sum_scores f r.raw f.zero r.order) f.zero)) [
    | inl low ↦
        let t : S = sum_scores f r.raw f.zero r.order in
        let e : t ≡ scores f exact r.raw r.order =
          sum_scores-scores f exact r.raw f.zero r.order
          ∙ exact.zero_add (scores f exact r.raw r.order) in
        let empty : r.order ≡ [] =
          no_scores r r.order raw refl (sym (ap (λ y. f.le y f.zero) e) ∙ low) in
        rw low (sym (ap (map as_i32) empty), inl refl)
    | inr high ↦
        let t : S = sum_scores f r.raw f.zero r.order in
        let e : scores f exact r.raw r.order ≡ t = sym (
          sum_scores-scores f exact r.raw f.zero r.order
          ∙ exact.zero_add (scores f exact r.raw r.order)) in
        rw high (
          indices-shares_of f r.raw t r.order,
          inr (
              total-shares_of f exact r.raw t r.order
              ∙ ap (λ y. f.div y t) e
              ∙ div_self f exact t (law.lt_of_not_le t f.zero high)),
        )
  ]

module _ {K S E : Type 0} ⦃o : KeyOrd K⦄ (f : Scalars S) (x : Extremes S E) (exact : IsExact f)
    (law : IsPositive f x) where
  -- Without rounding, where 1e-3, 1.0 and each sum with a part over 0 are over 0: the seeds are on the
  -- nodes of the symbols that a hit of a layer names, each node once, and their masses add up to 1
  -- unless there are none.
  pub build_seed_distribution-total :
      (layers : List (List (Hit K S E))) (g : CodeGraph K S)
      → (nodes : List ℕ) × (map (λ e. e.0) (build_seed_distribution f x layers g)
          ≡ map as_i32 nodes)
        × Distinct nodes
        × ((u : ℕ) → mem u nodes ≡ any_names g.index layers u)
        × ((build_seed_distribution f x layers g ≡ [])
            ⊎ (total f (shares (build_seed_distribution f x layers g)) ≡ f.one))
  unfolding build_seed_distribution
  build_seed_distribution-total layers g =
      let none_yet : Raw S = record { order = []; raw = [] } in
      let all : Adds f x law g.index (any_names g.index layers) none_yet
          (add_layers f x g.index layers none_yet) =
        add_layers-Adds f x law g.index layers none_yet (record {
          distinct = tt;
          same = λ u. unfold has_key in refl;
          positive = λ u. unfold has_key in refl;
        }) in
      let (indices, sums) =
        distribute-total f x exact law (add_layers f x g.index layers none_yet) all.raw in
      (
        (add_layers f x g.index layers none_yet).order,
        indices,
        all.raw.distinct,
        λ u. all.raw.same u ∙ all.keys u ∙ unfold has_key in refl,
        sums,
      )
