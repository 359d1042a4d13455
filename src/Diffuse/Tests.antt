-- ===== src/Diffuse/Tests.antt =====
-- Tests of the diffusion, crates/cognis-csar/src/diffuse.rs.
use Prim.Native.Nat.{Ordering}
use cognis.Base.{ℕ, ◌≡◌, refl, ◌⊎◌, List, [], ◌∷◌, map, Option, some, none, as_i32, if◌then◌else◌}
use cognis.BtreeMap.{nat_order, get, insert}
use cognis.Table.{lookup, put, has_key}
use cognis.Sort.{sort_by, place}
use cognis.Hits.{Hit, ids}
use cognis.Scalars.Fractions.{Fraction, fractions, ratio, lifted}
use cognis.Scalars.Laws.{fractions-IsExact}
use cognis.Scalars.Signs.{fractions-IsGrowing, fractions_lt}
use cognis.Graph.{
  neighbors, from_weighted_triples, index_nodes, accumulate, add_triple, add_entry, push_rows,
  push_row,
}
use cognis.Graph.Indices.{slice}
use cognis.Graph.Rows.{shares}
use cognis.Graph.Samples.{graph, graph-IsWellFormed}
use cognis.Push.{
  Outcome, refused, panicked, running, returned, seed_residual, activate, seed_active, spread,
  push_node, pop_node, pops, start, nonzero_entries, approximate_ppr_push,
}
use cognis.Push.Tracked.{mem, Distinct}
use cognis.Push.Exact.{total}
use cognis.Diffuse.{
  Extremes, add_hits, add_layers, build_seed_distribution, ranks_first, hits_of, diffuse_seed_hits,
}
use cognis.Diffuse.Seeds.{IsPositive, any_names}
use cognis.Diffuse.Distribution.{build_seed_distribution-total}
use cognis.Diffuse.Dropped.{diffuse_seed_hits-quiet}

abbrev compare_fractions : Fraction → Fraction → Ordering
compare_fractions a b =
    if fractions.lt a b then Ordering.lt else if fractions.lt b a then Ordering.gt else Ordering.eq

abbrev extremes : Extremes Fraction ℕ
extremes = record {
  infinity = ratio 1000000 1;
  neg_infinity = ratio 0 1;
  thousandth = ratio 1 1000;
  min = λ a b. if fractions.le a b then a else b;
  max = λ a b. if fractions.le a b then b else a;
  partial_cmp = λ a b. some (compare_fractions a b);
  display = λ s. "x";
  reason = λ s b. "csar";
  evidence = λ s b a. if b then 1 else 0;
}

extremes-IsPositive : IsPositive fractions extremes
unfolding lifted
extremes-IsPositive = record {
  floor = refl;
  one = refl;
  add = fractions-IsGrowing.add;
  lt_of_not_le = fractions_lt;
}

abbrev found : ℕ → Fraction → Hit ℕ Fraction ℕ
found id score = record {
  symbol_id = id;
  score = score;
  layer = "lexical";
  reason = "match";
  evidence = 0;
}

-- A symbol in two layers, a lowest hit, and a symbol that is not in the graph.
abbrev layers : List (List (Hit ℕ Fraction ℕ))
layers =
    (found 10 (ratio 3 1) ∷ found 40 (ratio 1 1) ∷ found 99 (ratio 2 1) ∷ [])
    ∷ []
    ∷ (found 10 (ratio 1 2) ∷ [])
    ∷ []

abbrev outcome_ids : Outcome (List (Hit ℕ Fraction ℕ)) → Option (List ℕ)
outcome_ids (returned hits) = some (ids hits)
outcome_ids (refused e) = none
outcome_ids panicked = none
outcome_ids running = none

-- The lowest hit, on symbol 40, has its floor as its score and is not reached: it is not in the result.
diffuse_runs :
    outcome_ids
      (diffuse_seed_hits fractions extremes (λ m. m) 50 graph layers 3 (ratio 1 2) (ratio 1 10))
    ≡ some (10 ∷ 20 ∷ [])
unfolding diffuse_seed_hits build_seed_distribution add_layers add_hits ranks_first hits_of sort_by
    place from_weighted_triples index_nodes accumulate add_triple add_entry push_rows push_row
    lifted insert get lookup put has_key seed_residual activate seed_active spread push_node
    pop_node pops start nonzero_entries approximate_ppr_push neighbors slice
diffuse_runs = refl

build_seed_distribution-total_example :
    (nodes : List ℕ) × (map (λ e. e.0) (build_seed_distribution fractions extremes layers graph)
      ≡ map as_i32 nodes)
    × Distinct nodes
    × ((u : ℕ) → mem u nodes ≡ any_names graph.index layers u)
    × ((build_seed_distribution fractions extremes layers graph ≡ [])
        ⊎ (total fractions (shares (build_seed_distribution fractions extremes layers graph))
            ≡ fractions.one))
build_seed_distribution-total_example =
    build_seed_distribution-total fractions extremes fractions-IsExact extremes-IsPositive layers
      graph

diffuse_seed_hits-quiet_example :
    diffuse_seed_hits fractions extremes (λ m. m) 50 graph layers 3 (ratio 1 2) (ratio 2 1)
    ≡ returned []
unfolding build_seed_distribution add_layers add_hits from_weighted_triples index_nodes accumulate
    add_triple add_entry push_rows push_row lifted insert get lookup put has_key seed_residual
diffuse_seed_hits-quiet_example =
    diffuse_seed_hits-quiet fractions extremes graph (ratio 1 2) (ratio 2 1) graph-IsWellFormed refl
      refl layers (λ m. m) 50 3 (refl, (refl, (refl, (refl, tt))))
