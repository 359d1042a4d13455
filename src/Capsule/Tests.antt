-- ===== src/Capsule/Tests.antt =====
-- Tests of the capsule composer, and its theorems on two small layers.
use cognis.Base.{arith, ℕ, ◌≤◌, ◌≡◌, refl, true, List, [], ◌||◌, ◌∷◌, ◌++◌, length}
use cognis.BtreeMap.{nat_order}
use cognis.Hits.{Hit, ids, member, IsDistinct}
use cognis.Hits.Samples.{millionths, plain, hit, lexical, semantic, csar}
use cognis.Sort.{place, sort_by}
use cognis.Fusion.{
  flat, push_group, group_from, ranks_first, credit, credit_layers, ranking, rrf_fuse,
}
use cognis.Capsule.{to_add, extend, compose_capsule, compose_capsule_with_edges}
use cognis.Capsule.Union.{member-compose_capsule, compose_capsule_with_edges-prefix}

abbrev layers : List (List (Hit ℕ ℕ ℕ))
layers = lexical ∷ semantic ∷ []

composed_ids : ids (compose_capsule millionths plain layers csar 4 60) ≡ 7 ∷ 4 ∷ 9 ∷ 1 ∷ []
unfolding compose_capsule extend to_add rrf_fuse ranking sort_by place ranks_first push_group
    group_from credit credit_layers member
composed_ids = refl

compose_capsule_with_edges-prefix_example :
    let out =
      compose_capsule_with_edges millionths plain layers csar (hit "edge" 8 1 ∷ []) 9 60 true in
    let core = compose_capsule millionths plain layers csar 9 60 in
    (out ≡ core ++ to_add 9 (length core) (ids core) (hit "edge" 8 1 ∷ []))
    × (length out ≤ 9)
    × IsDistinct (ids out)
compose_capsule_with_edges-prefix_example =
    compose_capsule_with_edges-prefix millionths plain layers csar (hit "edge" 8 1 ∷ []) 9 60 true

member-compose_capsule_example :
    let capsule = compose_capsule millionths plain layers csar 9 60 in
    member 1 (ids capsule) ≡ (member 1 (ids (flat layers)) || member 1 (ids csar))
unfolding compose_capsule extend to_add rrf_fuse ranking sort_by place ranks_first push_group
    group_from credit credit_layers member
member-compose_capsule_example =
    member-compose_capsule millionths plain 1 layers csar 9 60 refl (omega arith)
