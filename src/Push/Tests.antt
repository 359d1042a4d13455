-- ===== src/Push/Tests.antt =====
-- Tests of the push solver, crates/cognis-csar/src/push.rs.
use Prim.Native.String.{String}
use cognis.Base.{
  ℕ, ◌≡◌, ◌≢◌, refl, true, false, not, List, [], ◌∷◌, Option, some, none, arith, ℤ, pos, negsuc,
  Each, as_i32, ◌>>=◌,
}
use cognis.BtreeMap.{nat_order, get, insert}
use cognis.Scalars.{ge}
use cognis.Scalars.Fractions.{Fraction, fractions, ratio, lifted}
use cognis.Scalars.Laws.{fractions-IsExact, fractions-IsOrdered, fractions_apart}
use cognis.Graph.{
  neighbors, from_weighted_triples, accumulate, add_triple, add_entry, push_rows, push_row,
}
use cognis.Graph.Indices.{slice, i32_order}
use cognis.Graph.Rows.{shares}
use cognis.Graph.Samples.{graph, graph-IsWellFormed}
use cognis.Push.{
  Outcome, refused, panicked, running, returned, PushState, PushResult, seed_residual, activate,
  seed_active, spread, push_node, pop_node, pops, start, nonzero_entries, approximate_ppr_push,
}
use cognis.Push.Tracked.{IsTracked, IsThreshold, threshold}
use cognis.Push.Rounds.{nobody}
use cognis.Push.Mass.{HasDegrees}
use cognis.Push.Exact.{total}
use cognis.Push.Seeds.{seed_mass}
use cognis.Push.Outcomes.{
  is_refused, is_valid, start-pops-IsTracked, is_refused-is_valid, push-below,
}
use cognis.Push.Entries.{value_at}
use cognis.Push.Survival.{push-served}
use cognis.Scalars.Signs.{fractions-IsGrowing}
use cognis.Push.Returned.{push-returned}

abbrev half : Fraction
half = ratio 1 2

abbrev eps : Fraction
eps = ratio 1 10

abbrev seed : List (ℤ × Fraction)
seed = (pos 0, ratio 3 4) ∷ (negsuc 0, ratio 1 1) ∷ (pos 3, ratio 1 4) ∷ []

abbrev shown : Fraction → String
shown x = "x"

abbrev pushes_of : Outcome (PushResult Fraction) → Option ℕ
pushes_of (returned r) = some r.pushes
pushes_of (refused e) = none
pushes_of panicked = none
pushes_of running = none

graph_law : IsThreshold fractions graph eps
unfolding from_weighted_triples accumulate add_triple add_entry push_rows push_row lifted insert get
graph_law = record { at_zero = (refl, (refl, (refl, (refl, tt)))); apart = fractions_apart }

graph_degrees : HasDegrees fractions graph
unfolding from_weighted_triples accumulate add_triple add_entry push_rows push_row lifted insert get
graph_degrees = (refl, (refl, (refl, (refl, tt))))

push_runs : pushes_of (approximate_ppr_push fractions graph half eps shown 20 seed) ≡ some 4
unfolding from_weighted_triples accumulate add_triple add_entry push_rows push_row lifted insert get
    seed_residual activate seed_active spread push_node pop_node pops start nonzero_entries
    approximate_ppr_push neighbors slice
push_runs = refl

start-pops-IsTracked_example :
    (s : PushState Fraction) × ((start fractions graph half eps seed
        >>= pops fractions graph half eps 2)
      ≡ some s)
    × IsTracked fractions graph eps nobody s
start-pops-IsTracked_example =
    start-pops-IsTracked fractions graph half eps graph-IsWellFormed graph_law seed 2

is_refused-is_valid_example :
    (approximate_ppr_push fractions graph half eps shown 20 seed ≢ panicked)
    × (is_refused (approximate_ppr_push fractions graph half eps shown 20 seed)
        ≡ not (is_valid fractions half eps))
is_refused-is_valid_example =
    is_refused-is_valid fractions graph half eps graph-IsWellFormed graph_law shown 20 seed

abbrev of_outcome : Outcome (PushResult Fraction) → PushResult Fraction
of_outcome (returned r) = r
of_outcome (refused e) = record { estimate = []; residual = []; work = half; pushes = 0 }
of_outcome panicked = record { estimate = []; residual = []; work = half; pushes = 0 }
of_outcome running = record { estimate = []; residual = []; work = half; pushes = 0 }

abbrev result : PushResult Fraction
result = of_outcome (approximate_ppr_push fractions graph half eps shown 20 seed)

push-below_example : Each 4 (λ u.
    ge fractions (value_at fractions (as_i32 u) result.residual) (threshold fractions graph eps u)
    ≡ false)
unfolding from_weighted_triples accumulate add_triple add_entry push_rows push_row lifted insert get
    seed_residual activate seed_active spread push_node pop_node pops start nonzero_entries
    approximate_ppr_push neighbors slice
push-below_example =
    push-below fractions graph half eps graph-IsWellFormed graph_law shown 20 seed result
      (omega arith) refl

push-returned_example :
    (r : PushResult Fraction) × (approximate_ppr_push fractions graph half eps shown 109 seed
      ≡ returned r)
    × (fractions.add (total fractions (shares r.estimate)) (total fractions (shares r.residual))
        ≡ seed_mass fractions 4 seed)
    × (fractions.le (fractions.mul half (fractions.mul eps r.work)) (seed_mass fractions 4 seed)
        ≡ true)
unfolding from_weighted_triples accumulate add_triple add_entry push_rows push_row lifted insert get
    seed_mass
push-returned_example =
    push-returned fractions graph half eps fractions-IsExact fractions-IsOrdered graph-IsWellFormed
      graph_law graph_degrees seed (ratio 1 20) 21 109 refl refl (refl, (refl, (refl, (refl, tt))))
      (omega arith) shown

push-served_example :
    fractions.le (value_at fractions (as_i32 3) result.estimate) fractions.zero ≡ false
unfolding from_weighted_triples accumulate add_triple add_entry push_rows push_row lifted insert get
    seed_residual activate seed_active spread push_node pop_node pops start nonzero_entries
    approximate_ppr_push neighbors slice
push-served_example =
    push-served fractions graph half eps fractions-IsExact fractions-IsOrdered fractions-IsGrowing
      refl 3 refl graph-IsWellFormed graph_law (omega arith) (omega arith) shown 20 seed result refl
      refl
