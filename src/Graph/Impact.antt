-- ===== src/Graph/Impact.antt =====
-- The bundle of graphs for the impact analysis, `ImpactGraph` of crates/cognis-core/src/graph.rs, and
-- the edges of crates/cognis-core/src/models.rs that it is built from.
use cognis.Base.{
  ℕ, ◌%◌, ◌^◌, Bool, true, false, ◌&&◌, ◌||◌, List, [], ◌∷◌, Option, none, some, if◌then◌else◌,
  ◌==◌, min,
}
use cognis.BtreeMap.{KeyOrd}
use cognis.Table.{lookup}
use cognis.Scalars.{Scalars}
use cognis.Graph.{CodeGraph, index_nodes, from_weighted_triples}

pub data EdgeKind : Type 0 where
  calls imports inherits implements reads writes routes_to tests : EdgeKind

-- `J` is the JSON value of an edge.
pub record Edge (K S J : Type 0) : Type 0 where
  pub src_id : K
  pub dst_id : K
  pub kind : EdgeKind
  pub confidence : S
  pub meta : J

-- What the code reads of a JSON value, literals in hundredths, and `powi`.
pub record Readings (S J : Type 0) : Type 0 where
  -- `meta.get("dst_missing").and_then(as_bool)`
  pub missing : J → Option Bool
  -- `meta.get("loop_depth").and_then(as_u64)`
  pub loop_depth : J → Option ℕ
  pub hundredths : ℕ → S
  pub powi : S → ℕ → S

pub record ImpactGraph (K S : Type 0) : Type 0 where
  pub forward : CodeGraph K S
  pub reverse_structural : CodeGraph K S
  pub reverse_complexity : CodeGraph K S
  pub symmetrized : CodeGraph K S

-- The triples of the four graphs.
pub record Triples (S : Type 0) : Type 0 where
  pub fwd : List (ℕ × ℕ × S)
  pub rev_struct : List (ℕ × ℕ × S)
  pub rev_cplx : List (ℕ × ℕ × S)
  pub sym : List (ℕ × ℕ × S)

abbrev pub unwrap_or_false : Option Bool → Bool
unwrap_or_false none = false
unwrap_or_false (some b) = b

-- `as u8` of a depth that the edge's JSON value gives.
abbrev pub depth_or_meta : Option ℕ → Option ℕ → ℕ
depth_or_meta (some d) m = d
depth_or_meta none (some d) = d % 2 ^ 8
depth_or_meta none none = 0

module _ {S J : Type 0} (j : Readings S J) where
  abbrev pub struct_gamma : EdgeKind → S
  struct_gamma EdgeKind.calls = j.hundredths 95
  struct_gamma EdgeKind.inherits = j.hundredths 90
  struct_gamma EdgeKind.implements = j.hundredths 85
  struct_gamma EdgeKind.routes_to = j.hundredths 95
  struct_gamma EdgeKind.tests = j.hundredths 100
  struct_gamma EdgeKind.reads = j.hundredths 80
  struct_gamma EdgeKind.writes = j.hundredths 80
  struct_gamma EdgeKind.imports = j.hundredths 45

  abbrev pub cplx_gamma : EdgeKind → S
  cplx_gamma EdgeKind.calls = j.hundredths 100
  cplx_gamma EdgeKind.routes_to = j.hundredths 100
  cplx_gamma EdgeKind.tests = j.hundredths 80
  cplx_gamma EdgeKind.inherits = j.hundredths 50
  cplx_gamma EdgeKind.implements = j.hundredths 50
  cplx_gamma EdgeKind.reads = j.hundredths 60
  cplx_gamma EdgeKind.writes = j.hundredths 60
  cplx_gamma EdgeKind.imports = j.hundredths 5

  abbrev pub loop_boost : ℕ → S
  loop_boost d = j.powi (j.hundredths 400) d

module _ {K S J : Type 0} ⦃o : KeyOrd K⦄ (f : Scalars S) (j : Readings S J) where
  unfoldable pub dst_missing : Edge K S J → Bool
  dst_missing e = unwrap_or_false (j.missing e.meta)

  -- `edge_loop_depths.get(&(src, dst))`
  unfoldable pub depth_entry : K → K → List ((K × K) × ℕ) → Option ℕ
  depth_entry src dst [] = none
  depth_entry src dst (((a, b), d) ∷ depths) =
      if o.eq src a && o.eq dst b then some d else depth_entry src dst depths

  abbrev pub depth_at : List ((K × K) × ℕ) → Edge K S J → ℕ
  depth_at depths e =
      min (depth_or_meta (depth_entry e.src_id e.dst_id depths) (j.loop_depth e.meta)) 4

  abbrev pub push_triples : List ((K × K) × ℕ) → Edge K S J → ℕ → ℕ → Triples S → Triples S
  push_triples depths e u v t = record {
    fwd = (u, v, e.confidence) ∷ t.fwd;
    rev_struct = (v, u, f.mul e.confidence (struct_gamma j e.kind)) ∷ t.rev_struct;
    rev_cplx =
        (v, u, f.mul (f.mul e.confidence (cplx_gamma j e.kind)) (loop_boost j (depth_at depths e)))
        ∷ t.rev_cplx;
    sym = (u, v, e.confidence) ∷ t.sym;
  }

  -- The ends of an edge among the nodes.
  abbrev pub push_edge :
      List ((K × K) × ℕ) → Edge K S J → Option ℕ → Option ℕ → Triples S → Triples S
  push_edge depths e (some u) (some v) t = if u == v then t else push_triples depths e u v t
  push_edge depths e (some u) none t = t
  push_edge depths e none v t = t

  unfoldable pub edge_triples : List (K × ℕ) → List ((K × K) × ℕ) → List (Edge K S J) → Triples S
  edge_triples index depths [] = record { fwd = []; rev_struct = []; rev_cplx = []; sym = [] }
  edge_triples index depths (e ∷ edges) =
      let rest = edge_triples index depths edges in
      if dst_missing e || f.le e.confidence f.zero
      then rest
      else push_edge depths e (lookup e.src_id index) (lookup e.dst_id index) rest

  unfoldable pub build : List K → List (Edge K S J) → List ((K × K) × ℕ) → ImpactGraph K S
  build node_ids edges depths =
      let t = edge_triples (index_nodes 0 node_ids []) depths edges in
      record {
        forward = from_weighted_triples f node_ids t.fwd false;
        reverse_structural = from_weighted_triples f node_ids t.rev_struct false;
        reverse_complexity = from_weighted_triples f node_ids t.rev_cplx false;
        symmetrized = from_weighted_triples f node_ids t.sym true;
      }
