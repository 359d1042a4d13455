-- ===== src/Fusion/Tests.antt =====
-- Tests of the fusion, and its theorems on two small layers.
use cognis.Base.{ℕ, ◌≡◌, refl, List, [], ◌∷◌, none, some}
use cognis.BtreeMap.{nat_order}
use cognis.Hits.{Hit, ids, member}
use cognis.Hits.Samples.{millionths, plain, lexical, semantic}
use cognis.Sort.{place, sort_by}
use cognis.Fusion.{
  flat, push_group, group_from, ranks_first, credit, credit_layers, ranking, rrf_fuse,
}
use cognis.Fusion.Formula.{entries, rrf_score, rrf_fuse-score}
use cognis.Fusion.Ranked.{NoNan, IsRanked, rrf_fuse-IsRanked}

abbrev layers : List (List (Hit ℕ ℕ ℕ))
layers = lexical ∷ semantic ∷ []

-- Symbol 7 is found twice, at rank 2 of the lexical and at rank 1 of the semantic layer.
fused_ids : ids (rrf_fuse millionths plain layers 5 60) ≡ 7 ∷ 4 ∷ 9 ∷ []
unfolding rrf_fuse ranking sort_by place ranks_first push_group group_from credit credit_layers
    member
fused_ids = refl

rrf_fuse-score_example : rrf_score millionths 7 60 none (group_from [] (flat layers)) ≡ some 32522
unfolding rrf_fuse ranking sort_by place ranks_first push_group group_from credit credit_layers
    member
rrf_fuse-score_example = rrf_fuse-score millionths plain 7 layers 5 60 {s = 32522} refl

abbrev numbers : NoNan millionths
numbers = record { order = λ n. n; cmp = λ s t. refl }

rrf_fuse-IsRanked_example :
    IsRanked millionths numbers (entries millionths plain (rrf_fuse millionths plain layers 5 60))
rrf_fuse-IsRanked_example = rrf_fuse-IsRanked millionths plain numbers layers 5 60
