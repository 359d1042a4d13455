-- ===== src/Publish.antt =====
-- The batch that one publication applies and the tables that it changes,
-- crates/cognis-store/src/publish.rs. Ids and paths are keys; the columns that no statement reads are
-- one type, as are the vectors, the confidence of an edge and its JSON.
pub mod Steps
pub mod Vectors
pub mod Statements
pub mod Apply
pub mod Refinement
pub mod Space
pub mod Published
pub mod Kept
pub mod Accepted
pub mod Success
pub mod Liveness
pub mod Texts
pub mod Paths
pub mod Outcome
pub mod Numbering
pub mod Consistency
pub mod Deleted
pub mod Cleared
mod Tests
use Prim.Native.String.{String}
use text.Mathlib.Text.{◌==◌ as str_eq}
use cognis.Base.{
  ℕ, zero, suc, ◌+◌, Bool, true, false, ◌||◌, ◌&&◌, not, List, [], ◌∷◌, ◌++◌, map, Option, none,
  some, ◌==◌, leb, length, if◌then◌else◌,
}
use cognis.BtreeMap.{KeyOrd}
use cognis.Sort.{sort_by}
use cognis.EmbedQueue.{QueueRow}

pub data ParseStatus : Type 0 where
  parsed partial failed : ParseStatus

pub record FileCacheRow (K : Type 0) : Type 0 where
  pub path : K
  pub language : String
  pub size_bytes : ℕ
  pub content_hash : String
  pub parsed_at : ℕ
  pub parse_status : ParseStatus

pub record QueuedSymbol (K : Type 0) : Type 0 where
  pub symbol_id : K
  pub file_path : K

pub data PublishReason : Type 0 where
  initial incremental reconcile full re_embed : PublishReason

unfoldable pub as_db_str : PublishReason → String
as_db_str initial = "initial"
as_db_str incremental = "incremental"
as_db_str reconcile = "reconcile"
as_db_str full = "full"
as_db_str re_embed = "reembed"

unfoldable pub parse_db_str : String → Option PublishReason
parse_db_str s =
    if str_eq s "initial"
    then some initial
    else if str_eq s "incremental"
    then some incremental
    else if str_eq s "reconcile"
    then some reconcile
    else if str_eq s "full"
    then some full
    else if str_eq s "reembed"
    then some re_embed
    else none

pub record VectorSpaceFingerprint : Type 0 where
  pub digest : String
  pub dim : ℕ
  pub model_id : String

-- A symbol: the columns that the full-text index copies, its file, and the rest.
pub record Symbol (K R : Type 0) : Type 0 where
  pub id : K
  pub name : String
  pub qualified_name : String
  pub file_path : K
  pub signature : Option String
  pub docstring : Option String
  pub body_excerpt : Option String
  pub rest : R

pub record Edge (K F J : Type 0) : Type 0 where
  pub src_id : K
  pub dst_id : K
  pub kind : String
  pub confidence : F
  pub meta : J

pub record PublishBatch (K R V F J : Type 0) : Type 0 where
  pub symbol_upserts : List (Symbol K R)
  pub symbol_deletes : List K
  pub edge_upserts : List (Edge K F J)
  pub edge_deletes : List (K × K × String)
  pub vector_upserts : List (K × V)
  pub vector_deletes : List K
  pub file_rows : List (FileCacheRow K)
  pub file_deletes : List K
  pub queue_enqueue : List (QueuedSymbol K)
  pub queue_remove : List K
  pub fingerprint : Option VectorSpaceFingerprint
  pub reason : PublishReason

abbrev pub none_in : {A : Type 0} → List A → Bool
none_in [] = true
none_in (x ∷ xs) = false

module _ {K R V F J : Type 0} where
  abbrev pub empty : PublishReason → PublishBatch K R V F J
  empty reason = record {
    symbol_upserts = [];
    symbol_deletes = [];
    edge_upserts = [];
    edge_deletes = [];
    vector_upserts = [];
    vector_deletes = [];
    file_rows = [];
    file_deletes = [];
    queue_enqueue = [];
    queue_remove = [];
    fingerprint = none;
    reason = reason;
  }

  unfoldable pub is_empty : PublishBatch K R V F J → Bool
  is_empty b =
      none_in b.symbol_upserts
      && none_in b.symbol_deletes
      && none_in b.edge_upserts
      && none_in b.edge_deletes
      && none_in b.vector_upserts
      && none_in b.vector_deletes
      && none_in b.file_rows
      && none_in b.file_deletes
      && none_in b.queue_enqueue
      && none_in b.queue_remove

-- `Vec::dedup`, which drops a key that equals the one before it.
module _ {K : Type 0} ⦃o : KeyOrd K⦄ where
  unfoldable pub dedup_after : K → List K → List K
  dedup_after k [] = []
  dedup_after k (j ∷ js) = let rest = dedup_after j js in if o.eq k j then rest else j ∷ rest

  unfoldable pub dedup : List K → List K
  unfolding dedup_after
  dedup [] = []
  dedup (k ∷ ks) = k ∷ dedup_after k ks

  abbrev pub not_after : K → K → Bool
  not_after j k = not (o.lt k j)

  unfoldable pub covered_paths : {R V F J : Type 0} → PublishBatch K R V F J → List K
  unfolding dedup
  covered_paths b = dedup (sort_by not_after (map (λ r. r.path) b.file_rows ++ b.file_deletes))

pub data Change : Type 0 where
  removed changed added : Change

pub record FtsRow : Type 0 where
  pub name : String
  pub qualified_name : String
  pub signature : String
  pub docstring : String
  pub body_excerpt : String

pub record Generation : Type 0 where
  pub source_generation : ℕ
  pub semantic_generation : ℕ
  pub updated_at : ℕ

pub record BatchRow : Type 0 where
  pub source_generation : ℕ
  pub committed_at : ℕ
  pub file_count : ℕ
  pub reason : String

-- `generation` is the row with id 1, where there is one.
pub record Store (K R V F J : Type 0) : Type 0 where
  pub symbols : List (K × Symbol K R)
  pub fts : List (K × FtsRow)
  pub edges : List (Edge K F J)
  pub vectors : List (K × V)
  pub vector_space : Option (VectorSpaceFingerprint × ℕ)
  pub is_vec0 : Bool
  pub vec_dim : Option ℕ
  pub files : List (K × FileCacheRow K)
  pub queue : List (K × QueueRow K)
  pub generation : Option Generation
  pub batches : List BatchRow
  pub batch_files : List (ℕ × K × Change)

pub record PublishReceipt (K : Type 0) : Type 0 where
  pub source_generation : ℕ
  pub semantic_generation : ℕ
  pub pending_vector_count : ℕ
  pub files : List K
