-- ===== src/Fusion/Credits.antt =====
-- The symbols of the ranking that `rrf_fuse` truncates: each once, and those of the layers.
use Prim.Native.String.{String}
use text.Mathlib.Text.{◌==◌ as str_eq}
use cognis.Base.{
  ℕ, suc, ◌≡◌, ◌∙◌, sym, ap, refl, true, List, [], ◌∷◌, ◌++◌, ◌||◌, arith, Bool-cases, or_false,
  inl, inr,
}
use cognis.BtreeMap.{KeyOrd}
use cognis.Hits.{Hit, Floats, ids, member, IsDistinct}
use cognis.Hits.Laws.{member-append}
use cognis.Fusion.{
  sort_by, flat, push_group, group_from, credit, credit_layer, credit_layers, ranking, contribution,
  first_hit, first_entry,
}
use cognis.Fusion.Ids.{
  entry_ids, member-sort_by, IsDistinct-sort_by, member-credit, IsDistinct-credit,
}

module _ {K S E : Type 0} ⦃o : KeyOrd K⦄ (f : Floats S) where
  IsDistinct-credit_layer :
      (x : S) (rank : ℕ) (seen : List K) (fused : List (K × S)) (hits : List (Hit K S E))
      → IsDistinct (entry_ids f fused)
      → IsDistinct (entry_ids f (credit_layer f x rank seen fused hits))
  unfolding credit_layer
  IsDistinct-credit_layer x rank seen fused [] d = d
  IsDistinct-credit_layer x rank seen fused (hit ∷ hits) d =
      elim (Bool-cases (member hit.symbol_id seen)) [
        | inl e ↦ rw e (IsDistinct-credit_layer x rank seen fused hits d)
        | inr e ↦ rw e (
            IsDistinct-credit_layer x (suc rank) (hit.symbol_id ∷ seen) _ hits
              (IsDistinct-credit f hit.symbol_id (contribution f x (suc rank)) fused d))
      ]

  member-credit_layer :
      (p : K) (x : S) (rank : ℕ) (seen : List K) (fused : List (K × S)) (hits : List (Hit K S E))
      → ((q : K) → member q seen ≡ true → member q (entry_ids f fused) ≡ true)
      → member p (entry_ids f (credit_layer f x rank seen fused hits))
        ≡ member p (entry_ids f fused) || member p (ids hits)
  unfolding credit_layer member
  member-credit_layer p x rank seen fused [] h = sym (or_false _)
  member-credit_layer p x rank seen fused (hit ∷ hits) h =
      elim (Bool-cases (member hit.symbol_id seen)) [
        | inl e ↦ rw e (
            ground (
              arith,
              member-credit_layer p x rank seen fused hits h,
              h p,
              e,
              o.eq_iff p hit.symbol_id,
            ))
        | inr e ↦
            let c = contribution f x (suc rank) in
            rw e (
              ground (
                arith,
                member-credit_layer p x (suc rank) (hit.symbol_id ∷ seen)
                    (credit f hit.symbol_id c fused) hits
                    (λ q m. ground (arith, h q, member-credit f q hit.symbol_id c fused)),
                member-credit f p hit.symbol_id c fused,
              ))
      ]

  -- The hits of all groups, in order.
  abbrev pub grouped_hits : List (String × List (Hit K S E)) → List (Hit K S E)
  grouped_hits [] = []
  grouped_hits ((name, hits) ∷ groups) = hits ++ grouped_hits groups

  ids-append : (xs ys : List (Hit K S E)) → ids (xs ++ ys) ≡ ids xs ++ ids ys
  ids-append [] ys = refl
  ids-append (x ∷ xs) ys = ap (◌∷◌ x.symbol_id) (ids-append xs ys)

  member-credit_layers :
      (p : K) (x : S) (fused : List (K × S)) (groups : List (String × List (Hit K S E)))
      → member p (entry_ids f (credit_layers f x fused groups))
        ≡ member p (entry_ids f fused) || member p (ids (grouped_hits groups))
  unfolding credit_layers member
  member-credit_layers p x fused [] = sym (or_false _)
  member-credit_layers p x fused ((name, hits) ∷ groups) =
      let l = sort_by (first_hit f) hits in
      ground (
        arith,
        member-credit_layers p x (credit_layer f x 0 [] fused l) groups,
        member-credit_layer p x 0 [] fused l (λ q e. cc),
        member-sort_by (first_hit f) (λ (h : Hit K S E). h.symbol_id) p hits,
        ids-append hits (grouped_hits groups),
        member-append p (ids hits) (ids (grouped_hits groups)),
      )

  pub IsDistinct-credit_layers :
      (x : S) (fused : List (K × S)) (groups : List (String × List (Hit K S E)))
      → IsDistinct (entry_ids f fused)
      → IsDistinct (entry_ids f (credit_layers f x fused groups))
  unfolding credit_layers
  IsDistinct-credit_layers x fused [] d = d
  IsDistinct-credit_layers x fused ((name, hits) ∷ groups) d =
      IsDistinct-credit_layers x (credit_layer f x 0 [] fused (sort_by (first_hit f) hits)) groups
        (IsDistinct-credit_layer x 0 [] fused (sort_by (first_hit f) hits) d)

  member-push_group :
      (p : K) (hit : Hit K S E) (groups : List (String × List (Hit K S E)))
      → member p (ids (grouped_hits (push_group hit groups)))
        ≡ o.eq p hit.symbol_id || member p (ids (grouped_hits groups))
  unfolding push_group member
  member-push_group p hit [] = refl
  member-push_group p hit ((name, hits) ∷ groups) = elim (Bool-cases (str_eq name hit.layer)) [
    | inl e ↦
        rw
          (
            e,
            ids-append (hits ++ hit ∷ []) (grouped_hits groups),
            ids-append hits (hit ∷ []),
            ids-append hits (grouped_hits groups),
            member-append p (ids hits ++ hit.symbol_id ∷ []) (ids (grouped_hits groups)),
            member-append p (ids hits) (hit.symbol_id ∷ []),
            member-append p (ids hits) (ids (grouped_hits groups)),
          )
          (ground arith)
    | inr e ↦
        rw
          (
            e,
            ids-append hits (grouped_hits (push_group hit groups)),
            ids-append hits (grouped_hits groups),
            member-append p (ids hits) (ids (grouped_hits (push_group hit groups))),
            member-append p (ids hits) (ids (grouped_hits groups)),
            member-push_group p hit groups,
          )
          (ground arith)
  ]

  member-group_from :
      (p : K) (groups : List (String × List (Hit K S E))) (hits : List (Hit K S E))
      → member p (ids (grouped_hits (group_from groups hits)))
        ≡ member p (ids hits) || member p (ids (grouped_hits groups))
  unfolding group_from member
  member-group_from p groups [] = refl
  member-group_from p groups (hit ∷ hits) =
      ground
        (arith, member-group_from p (push_group hit groups) hits, member-push_group p hit groups)

  -- The ranking holds exactly the symbols of the layers' hits.
  pub member-ranking :
      (p : K) (layers : List (List (Hit K S E))) (x : S)
      → member p (entry_ids f (ranking f layers x)) ≡ member p (ids (flat layers))
  unfolding ranking member
  member-ranking p layers x =
      let groups = group_from [] (flat layers) in
      member-sort_by (first_entry f) (λ (e : K × S). e.0) p (credit_layers f x [] groups)
      ∙ member-credit_layers p x [] groups
      ∙ member-group_from p [] (flat layers)
      ∙ or_false _

  pub IsDistinct-ranking :
      (layers : List (List (Hit K S E))) (x : S) → IsDistinct (entry_ids f (ranking f layers x))
  unfolding ranking
  IsDistinct-ranking layers x =
      IsDistinct-sort_by (first_entry f) (λ (e : K × S). e.0) _
        (IsDistinct-credit_layers x [] (group_from [] (flat layers)) tt)
