-- ===== src/Capsule.antt =====
-- The capsule composer, crates/cognis-retrieval/src/capsule.rs: structural context is appended to
-- the fused ranking, never mixed into it.
pub mod Union
mod Tests
use cognis.Base.{ℕ, suc, Bool, List, [], ◌∷◌, ◌++◌, ◌==◌, leb, length, if◌then◌else◌}
use cognis.BtreeMap.{KeyOrd}
use cognis.Hits.{Hit, Floats, Rendering, ids, member}
use cognis.Fusion.{rrf_fuse}

module _ {K S E : Type 0} ⦃o : KeyOrd K⦄ where
  -- The loop that fills `to_add`: `len` is `composed.len() + to_add.len()`, `seen` the hash set.
  unfoldable pub to_add : ℕ → ℕ → List K → List (Hit K S E) → List (Hit K S E)
  to_add k len seen [] = []
  to_add k len seen (hit ∷ hits) =
      let skipped = to_add k len seen hits in
      let added = hit ∷ to_add k (suc len) (hit.symbol_id ∷ seen) hits in
      if leb k len then [] else if member hit.symbol_id seen then skipped else added

  -- `composed.extend(to_add)`, with `seen` begun from the ids of `composed`.
  unfoldable pub extend : ℕ → List (Hit K S E) → List (Hit K S E) → List (Hit K S E)
  extend k composed context = composed ++ to_add k (length composed) (ids composed) context

module _ {K S E : Type 0} ⦃o : KeyOrd K⦄ (f : Floats S) (r : Rendering S E) where
  unfoldable pub compose_capsule :
      List (List (Hit K S E)) → List (Hit K S E) → ℕ → S → List (Hit K S E)
  compose_capsule direct_layers csar_hits k rrf_k =
      if k == 0 then [] else extend k (rrf_fuse f r direct_layers k rrf_k) csar_hits

  unfoldable pub compose_capsule_with_edges :
      List (List (Hit K S E))
      → List (Hit K S E)
      → List (Hit K S E)
      → ℕ
      → S
      → Bool
      → List (Hit K S E)
  compose_capsule_with_edges direct_layers csar_hits edge_context k rrf_k flag =
      let composed = compose_capsule direct_layers csar_hits k rrf_k in
      if flag then extend k composed edge_context else composed

  unfoldable pub compose_capsule_ids : List (List (Hit K S E)) → List (Hit K S E) → ℕ → S → List K
  compose_capsule_ids direct_layers csar_hits k rrf_k =
      ids (compose_capsule direct_layers csar_hits k rrf_k)
