-- ===== src/Diffuse.antt =====
-- The seeds of the diffusion and its hits, crates/cognis-csar/src/diffuse.rs.
pub mod Seeds
pub mod Distribution
pub mod Dropped
mod Tests
use Prim.Native.Nat.{Ordering}
use Prim.Native.String.{String}
use cognis.Base.{
  ℕ, Bool, true, false, not, List, [], ◌∷◌, ◌++◌, map, Option, none, some, if◌then◌else◌, ltb, take,
  ℤ, pos, negsuc, as_i32, length, get_elem?, ◌>>=◌,
}
use cognis.BtreeMap.{KeyOrd, nat_order}
use cognis.Graph.Indices.{i32_order}
use cognis.Sort.{sort_by}
use cognis.Table.{lookup, has_key, put}
use cognis.Hits.{Hit}
use cognis.Scalars.{Scalars}
use cognis.Graph.{CodeGraph, n}
use cognis.Push.{PushResult, Outcome, refused, panicked, running, returned, approximate_ppr_push}

-- What the diffusion uses of f64 beside the arithmetic, and the rendering of a hit.
pub record Extremes (S E : Type 0) : Type 0 where
  pub infinity : S
  pub neg_infinity : S
  pub thousandth : S
  pub min : S → S → S
  pub max : S → S → S
  pub partial_cmp : S → S → Option Ordering
  pub display : S → String
  pub reason : S → Bool → String
  pub evidence : S → Bool → S → E

-- The nodes in the order of their first hit, and their scores.
pub record Raw (S : Type 0) : Type 0 where
  pub order : List ℕ
  pub raw : List (ℕ × S)

-- `partial_cmp(..).unwrap_or(Equal).then_with(..)`
abbrev pub then_id : Option Ordering → Ordering → Ordering
then_id none c = c
then_id (some Ordering.lt) c = Ordering.lt
then_id (some Ordering.eq) c = c
then_id (some Ordering.gt) c = Ordering.gt

abbrev pub is_le : Ordering → Bool
is_le Ordering.lt = true
is_le Ordering.eq = true
is_le Ordering.gt = false

abbrev pub is_seed_node : {S : Type 0} → ℤ → List (ℤ × S) → Bool
is_seed_node u seed = has_key ⦃o = i32_order⦄ u seed

abbrev pub outcome_of : {A : Type 0} → Option A → Outcome A
outcome_of none = panicked
outcome_of (some a) = returned a

module _ {S E : Type 0} (f : Scalars S) (x : Extremes S E) where
  abbrev pub floored : S → S
  floored norm = if f.le norm f.zero then x.thousandth else norm

  -- The normalized score of a hit in a layer with the lowest score `lo`.
  abbrev pub norm_of : S → S → S → S
  norm_of lo span score = floored (if f.le span f.zero then f.one else f.div (f.sub score lo) span)

module _ {S : Type 0} (f : Scalars S) where
  abbrev pub or_zero : Option S → S
  or_zero none = f.zero
  or_zero (some w) = w

  abbrev pub add_node : Option ℕ → S → Raw S → Raw S
  add_node none norm r = r
  add_node (some u) norm r = record {
    order = if has_key u r.raw then r.order else r.order ++ u ∷ [];
    raw = put u (f.add (or_zero (lookup u r.raw)) norm) r.raw;
  }

  -- `raw[node]`: every node of the order has an entry.
  abbrev pub score_at : List (ℕ × S) → ℕ → S
  score_at raw u = or_zero (lookup u raw)

  abbrev pub sum_scores : List (ℕ × S) → S → List ℕ → S
  sum_scores raw acc [] = acc
  sum_scores raw acc (u ∷ us) = sum_scores raw (f.add acc (score_at raw u)) us

  abbrev pub shares_of : List (ℕ × S) → S → List ℕ → List (ℤ × S)
  shares_of raw total = map (λ u. (as_i32 u, f.div (score_at raw u) total))

  abbrev pub distribute : Raw S → S → List (ℤ × S)
  distribute r total = if f.le total f.zero then [] else shares_of r.raw total r.order

module _ {K : Type 0} ⦃o : KeyOrd K⦄ where
  abbrev pub cmp_id : Option K → Option K → Ordering
  cmp_id (some a) (some b) =
      if o.eq a b then Ordering.eq else if o.lt a b then Ordering.lt else Ordering.gt
  cmp_id none b = Ordering.eq
  cmp_id (some a) none = Ordering.eq

module _ {K S : Type 0} where
  -- The push loop returns no index that is not a node's.
  abbrev pub id_of : CodeGraph K S → ℤ → Option K
  id_of g (pos u) = get_elem? g.node_ids u
  id_of g (negsuc u) = none

module _ {K S E : Type 0} ⦃o : KeyOrd K⦄ (f : Scalars S) (x : Extremes S E) where
  abbrev pub fold_score : (S → S → S) → S → List (Hit K S E) → S
  fold_score m acc [] = acc
  fold_score m acc (h ∷ hits) = fold_score m (m acc h.score) hits

  unfoldable pub add_hits : List (K × ℕ) → S → S → List (Hit K S E) → Raw S → Raw S
  add_hits index lo span [] r = r
  add_hits index lo span (h ∷ hits) r =
      add_hits index lo span hits
        (add_node f (lookup h.symbol_id index) (norm_of f x lo span h.score) r)

  abbrev pub lowest : List (Hit K S E) → S
  lowest hits = fold_score x.min x.infinity hits

  abbrev pub span_of : List (Hit K S E) → S
  span_of hits = f.sub (fold_score x.max x.neg_infinity hits) (lowest hits)

  -- An empty layer is passed over.
  abbrev pub add_layer : List (K × ℕ) → List (Hit K S E) → Raw S → Raw S
  add_layer index [] r = r
  add_layer index (h ∷ hits) r =
      add_hits index (lowest (h ∷ hits)) (span_of (h ∷ hits)) (h ∷ hits) r

  unfoldable pub add_layers : List (K × ℕ) → List (List (Hit K S E)) → Raw S → Raw S
  add_layers index [] r = r
  add_layers index (hits ∷ layers) r = add_layers index layers (add_layer index hits r)

  unfoldable pub build_seed_distribution : List (List (Hit K S E)) → CodeGraph K S → List (ℤ × S)
  build_seed_distribution hits_per_layer g =
      let r = add_layers g.index hits_per_layer (record { order = []; raw = [] }) in
      distribute f r (sum_scores f r.raw f.zero r.order)

  -- The comparison of the sort is not `Greater`.
  unfoldable pub ranks_first : CodeGraph K S → ℤ × S → ℤ × S → Bool
  ranks_first g (u, s) (v, t) = is_le (then_id (x.partial_cmp t s) (cmp_id (id_of g u) (id_of g v)))

  -- An index outside the nodes panics, `none`.
  abbrev pub hit_of : CodeGraph K S → S → List (ℤ × S) → ℤ × S → Option (Hit K S E)
  hit_of g alpha seed (u, score) =
      let on_path = not (is_seed_node u seed) in
      (do
        symbol_id ← id_of g u
        some (record {
          symbol_id = symbol_id;
          score = score;
          layer = "csar";
          reason = x.reason score on_path;
          evidence = x.evidence score on_path alpha;
        }))

  unfoldable pub hits_of :
      CodeGraph K S → S → List (ℤ × S) → List (ℤ × S) → Option (List (Hit K S E))
  hits_of g alpha seed [] = some []
  hits_of g alpha seed (e ∷ ranked) = do
    h ← hit_of g alpha seed e
    hits ← hits_of g alpha seed ranked
    some (h ∷ hits)

  -- `entries` is the order in which the map of the estimates is read.
  abbrev pub rank_hits :
      (List (ℤ × S) → List (ℤ × S))
      → CodeGraph K S
      → ℕ
      → S
      → List (ℤ × S)
      → List (ℤ × S)
      → Outcome (List (Hit K S E))
  rank_hits entries g k alpha seed [] = returned []
  rank_hits entries g k alpha seed (e ∷ estimate) =
      outcome_of (hits_of g alpha seed (take k (sort_by (ranks_first g) (entries (e ∷ estimate)))))

  abbrev pub after_push :
      (List (ℤ × S) → List (ℤ × S))
      → CodeGraph K S
      → ℕ
      → S
      → List (ℤ × S)
      → Outcome (PushResult S)
      → Outcome (List (Hit K S E))
  after_push entries g k alpha seed (refused e) = refused e
  after_push entries g k alpha seed panicked = panicked
  after_push entries g k alpha seed running = running
  after_push entries g k alpha seed (returned r) = rank_hits entries g k alpha seed r.estimate

  abbrev pub from_seed :
      (List (ℤ × S) → List (ℤ × S))
      → ℕ
      → CodeGraph K S
      → ℕ
      → S
      → S
      → List (ℤ × S)
      → Outcome (List (Hit K S E))
  from_seed entries rounds g k alpha eps [] = returned []
  from_seed entries rounds g k alpha eps (s ∷ seed) =
      after_push entries g k alpha (s ∷ seed)
        (approximate_ppr_push f g alpha eps x.display rounds (s ∷ seed))

  unfoldable pub diffuse_seed_hits :
      (List (ℤ × S) → List (ℤ × S))
      → ℕ
      → CodeGraph K S
      → List (List (Hit K S E))
      → ℕ
      → S
      → S
      → Outcome (List (Hit K S E))
  diffuse_seed_hits entries rounds g hits_per_layer k alpha eps =
      if ltb 0 (n g)
      then from_seed entries rounds g k alpha eps (build_seed_distribution hits_per_layer g)
      else returned []
