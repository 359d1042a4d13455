-- ===== src/Fusion.antt =====
-- Reciprocal rank fusion, crates/cognis-retrieval/src/fusion.rs.
pub mod Ids
pub mod Credits
pub mod Fused
pub mod Formula
pub mod Ranked
mod Tests
use Prim.Native.Nat.{Ordering}
use Prim.Native.String.{String}
use text.Mathlib.Text.{◌==◌ as str_eq}
use cognis.Base.{
  ℕ, suc, Bool, true, false, List, [], ◌∷◌, ◌++◌, ◌||◌, Option, none, some, ◌==◌, if◌then◌else◌,
  take,
}
use cognis.BtreeMap.{KeyOrd}
use cognis.Sort.{sort_by}
use cognis.Hits.{Hit, Floats, Rendering, ids, member}

-- `layers.iter().flat_map(|l| l.iter())`
abbrev pub flat : {A : Type 0} → List (List A) → List A
flat [] = []
flat (l ∷ ls) = l ++ flat ls

module _ {K S E : Type 0} where
  -- `grouped[idx].push(hit)`, or a new group at the end.
  unfoldable pub push_group :
      Hit K S E → List (String × List (Hit K S E)) → List (String × List (Hit K S E))
  push_group hit [] = (hit.layer, hit ∷ []) ∷ []
  push_group hit ((name, hits) ∷ groups) =
      if str_eq name hit.layer
      then (name, hits ++ hit ∷ []) ∷ groups
      else (name, hits) ∷ push_group hit groups

  unfoldable pub group_from :
      List (String × List (Hit K S E)) → List (Hit K S E) → List (String × List (Hit K S E))
  group_from groups [] = groups
  group_from groups (hit ∷ hits) = group_from (push_group hit groups) hits

module _ {S : Type 0} (f : Floats S) where
  -- `1.0 / (rrf_k + rank)`
  abbrev pub contribution : S → ℕ → S
  contribution rrf_k rank = f.div f.one (f.add rrf_k (f.from_u32 rank))

  -- `rrf_k <= 0.0`
  unfoldable pub not_positive : S → Bool
  not_positive x = elim (f.partial_cmp x f.zero) [
    | some c ↦ elim c [ Ordering.gt ↦ false | _ ↦ true ]
    | none ↦ false
  ]

module _ {K S : Type 0} ⦃o : KeyOrd K⦄ (f : Floats S) where
  abbrev pub cmp_id : K → K → Ordering
  cmp_id a b = if o.eq a b then Ordering.eq else if o.lt a b then Ordering.lt else Ordering.gt

  abbrev pub by_id : K → K → Bool
  by_id a b = elim (cmp_id a b) [ Ordering.gt ↦ false | _ ↦ true ]

  -- `b.score.partial_cmp(&a.score).unwrap_or(Equal).then_with(|| a.id.cmp(&b.id))` is not `Greater`.
  unfoldable pub ranks_first : K → S → K → S → Bool
  ranks_first i s j t = elim (f.partial_cmp t s) [
    | some c ↦ elim c [ Ordering.lt ↦ true | Ordering.gt ↦ false | Ordering.eq ↦ by_id i j ]
    | none ↦ by_id i j
  ]

  -- `*score += contribution`, or a new entry at the end.
  unfoldable pub credit : K → S → List (K × S) → List (K × S)
  credit k c [] = (k, c) ∷ []
  credit k c ((j, s) ∷ fused) =
      if o.eq j k then (j, f.add s c) ∷ fused else (j, s) ∷ credit k c fused

  abbrev pub first_entry : K × S → K × S → Bool
  first_entry a b = ranks_first a.0 a.1 b.0 b.1

module _ {K S E : Type 0} ⦃o : KeyOrd K⦄ (f : Floats S) where
  abbrev pub first_hit : Hit K S E → Hit K S E → Bool
  first_hit a b = ranks_first f a.symbol_id a.score b.symbol_id b.score

  -- The loop over the hits of one layer, in rank order.
  unfoldable pub credit_layer : S → ℕ → List K → List (K × S) → List (Hit K S E) → List (K × S)
  credit_layer rrf_k rank seen fused [] = fused
  credit_layer rrf_k rank seen fused (hit ∷ hits) =
      let skipped = credit_layer rrf_k rank seen fused hits in
      let credited =
        credit_layer rrf_k (suc rank) (hit.symbol_id ∷ seen)
          (credit f hit.symbol_id (contribution f rrf_k (suc rank)) fused) hits in
      if member hit.symbol_id seen then skipped else credited

  unfoldable pub credit_layers : S → List (K × S) → List (String × List (Hit K S E)) → List (K × S)
  unfolding credit_layer
  credit_layers rrf_k fused [] = fused
  credit_layers rrf_k fused ((name, hits) ∷ groups) =
      credit_layers rrf_k (credit_layer rrf_k 0 [] fused (sort_by first_hit hits)) groups

  unfoldable pub ranking : List (List (Hit K S E)) → S → List (K × S)
  unfolding credit_layers group_from
  ranking layers rrf_k =
      sort_by (first_entry f) (credit_layers rrf_k [] (group_from [] (flat layers)))

module _ {K S E : Type 0} ⦃o : KeyOrd K⦄ (f : Floats S) (r : Rendering S E) where
  -- `fused.into_iter().enumerate().map(..)`; `rank` is `i + 1`.
  unfoldable pub render : ℕ → List (K × S) → List (Hit K S E)
  render rank [] = []
  render rank ((symbol_id, score) ∷ fused) =
      record {
        symbol_id = symbol_id;
        score = score;
        layer = "fused";
        reason = r.fused_reason rank score;
        evidence = r.fused_evidence rank score;
      }
      ∷ render (suc rank) fused

  unfoldable pub rrf_fuse : List (List (Hit K S E)) → ℕ → S → List (Hit K S E)
  unfolding render not_positive
  rrf_fuse layers k rrf_k =
      if k == 0 || not_positive f rrf_k then [] else render 1 (take k (ranking f layers rrf_k))

  unfoldable pub rrf_fuse_ids : List (List (Hit K S E)) → ℕ → S → List K
  rrf_fuse_ids layers k rrf_k = ids (rrf_fuse layers k rrf_k)
