-- ===== src/Publish/Apply.antt =====
-- What the statements of a publication do to the tables, row by row, and the publication as one
-- change of the database.
use Prim.Native.String.{String}
use text.Mathlib.Text.{◌==◌ as str_eq}
use cognis.Base.{
  ℕ, ◌+◌, Bool, false, ◌||◌, ◌&&◌, List, [], ◌∷◌, Option, none, some, ◌==◌, if◌then◌else◌,
}
use cognis.BtreeMap.{KeyOrd, add}
use cognis.Table.{put, drop_key}
use cognis.Sqlite.{Result}
use cognis.EmbedQueue.{QueueRow}
use cognis.Publish.{
  Symbol, Edge, FileCacheRow, QueuedSymbol, VectorSpaceFingerprint, Change, Generation, BatchRow,
  Store,
}

-- `unwrap_or("")`
abbrev pub or_empty : Option String → String
or_empty none = ""
or_empty (some s) = s

module _ {K : Type 0} ⦃o : KeyOrd K⦄ where
  unfoldable pub contains : K → List K → Bool
  contains k [] = false
  contains k (j ∷ js) = o.eq k j || contains k js

  -- The rows of the queue are found by their symbol or by their file.
  unfoldable pub drop_queued_file : K → List (K × QueueRow K) → List (K × QueueRow K)
  drop_queued_file p [] = []
  drop_queued_file p ((k, r) ∷ q) =
      let rest = drop_queued_file p q in if o.eq p r.file_path then rest else (k, r) ∷ rest

  abbrev pub queued : QueuedSymbol K → ℕ → QueueRow K
  queued s now = record {
    symbol_id = s.symbol_id;
    file_path = s.file_path;
    enqueued_at = now;
    attempts = 0;
    next_attempt_at = 0;
    last_error = none;
  }

  unfoldable pub ids_in_file : {R : Type 0} → K → List (K × Symbol K R) → List K
  ids_in_file p [] = []
  ids_in_file p ((k, s) ∷ m) =
      let rest = ids_in_file p m in if o.eq p s.file_path then k ∷ rest else rest

  unfoldable pub add_all : List K → List K → List K
  add_all [] ids = ids
  add_all (k ∷ ks) ids = add_all ks (add k ids)

module _ {K F J : Type 0} ⦃o : KeyOrd K⦄ where
  abbrev pub same_edge : K → K → String → Edge K F J → Bool
  same_edge src dst kind e = o.eq src e.src_id && o.eq dst e.dst_id && str_eq kind e.kind

  unfoldable pub put_edge : Edge K F J → List (Edge K F J) → List (Edge K F J)
  put_edge e [] = e ∷ []
  put_edge e (x ∷ xs) =
      if same_edge e.src_id e.dst_id e.kind x
      then record x { confidence = e.confidence; meta = e.meta } ∷ xs
      else x ∷ put_edge e xs

  unfoldable pub drop_edge : K × K × String → List (Edge K F J) → List (Edge K F J)
  drop_edge k [] = []
  drop_edge (src, dst, kind) (x ∷ xs) =
      let rest = drop_edge (src, dst, kind) xs in
      if same_edge src dst kind x then rest else x ∷ rest

  unfoldable pub drop_outbound : K → List (Edge K F J) → List (Edge K F J)
  drop_outbound k [] = []
  drop_outbound k (x ∷ xs) =
      let rest = drop_outbound k xs in if o.eq k x.src_id then rest else x ∷ rest

  unfoldable pub flag_inbound : (J → J) → K → List (Edge K F J) → List (Edge K F J)
  flag_inbound dst_missing k [] = []
  flag_inbound dst_missing k (x ∷ xs) =
      let rest = flag_inbound dst_missing k xs in
      if o.eq k x.dst_id then record x { meta = dst_missing x.meta } ∷ rest else x ∷ rest

abbrev pub bumped : ℕ → ℕ → Option Generation → Option Generation
bumped pending now none = none
bumped pending now (some g) = some (record {
  source_generation = g.source_generation + 1;
  semantic_generation = if pending == 0 then g.source_generation + 1 else g.semantic_generation;
  updated_at = now;
})

-- What the publication is given: SQLite's answers, the clock, the length of a vector, the JSON patch
-- of a dangling edge, whether sqlite-vec can be loaded, and the text of a wrong dimension.
pub record Setup (V J : Type 0) : Type 0 where
  pub refuses : ℕ → Option String
  pub unix_timestamp : Result ℕ
  pub vector_len : V → ℕ
  pub dst_missing : J → J
  pub vec_ext_ok : Bool
  pub wrong_dim : ℕ → ℕ → String

module _ {K R V F J : Type 0} ⦃o : KeyOrd K⦄ where
  abbrev pub upsert_row : Symbol K R → Store K R V F J → Store K R V F J
  upsert_row s d = record d { symbols = put s.id s d.symbols }

  abbrev pub fts_delete : K → Store K R V F J → Store K R V F J
  fts_delete k d = record d { fts = drop_key k d.fts }

  abbrev pub fts_insert : Symbol K R → Store K R V F J → Store K R V F J
  fts_insert s d = record d {
    fts =
        (
          s.id,
          record {
            name = s.name;
            qualified_name = s.qualified_name;
            signature = or_empty s.signature;
            docstring = or_empty s.docstring;
            body_excerpt = or_empty s.body_excerpt;
          },
        )
        ∷ d.fts;
  }

  abbrev pub upsert_edge_row : Edge K F J → Store K R V F J → Store K R V F J
  upsert_edge_row e d = record d { edges = put_edge e d.edges }

  abbrev pub vector_delete : K → Store K R V F J → Store K R V F J
  vector_delete k d = record d { vectors = drop_key k d.vectors }

  abbrev pub vector_insert : K × V → Store K R V F J → Store K R V F J
  vector_insert row d = record d { vectors = row ∷ d.vectors }

  abbrev pub clear_vectors : Store K R V F J → Store K R V F J
  clear_vectors d = record d { vectors = [] }

  abbrev pub set_space : VectorSpaceFingerprint → ℕ → Store K R V F J → Store K R V F J
  set_space f now d = record d { vector_space = some (f, now) }

  abbrev pub upsert_file : FileCacheRow K → Store K R V F J → Store K R V F J
  upsert_file r d = record d { files = put r.path r d.files }

  abbrev pub enqueue_row : ℕ → QueuedSymbol K → Store K R V F J → Store K R V F J
  enqueue_row now s d = record d { queue = put s.symbol_id (queued s now) d.queue }

  abbrev pub edge_delete : K × K × String → Store K R V F J → Store K R V F J
  edge_delete k d = record d { edges = drop_edge k d.edges }

  abbrev pub queue_delete : K → Store K R V F J → Store K R V F J
  queue_delete k d = record d { queue = drop_key k d.queue }

  abbrev pub symbol_delete : K → Store K R V F J → Store K R V F J
  symbol_delete k d = record d { symbols = drop_key k d.symbols }

  abbrev pub outbound_delete : K → Store K R V F J → Store K R V F J
  outbound_delete k d = record d { edges = drop_outbound k d.edges }

  abbrev pub inbound_flag : (J → J) → K → Store K R V F J → Store K R V F J
  inbound_flag f k d = record d { edges = flag_inbound f k d.edges }

  abbrev pub file_queue_delete : K → Store K R V F J → Store K R V F J
  file_queue_delete p d = record d { queue = drop_queued_file p d.queue }

  abbrev pub file_delete : K → Store K R V F J → Store K R V F J
  file_delete p d = record d { files = drop_key p d.files }

  abbrev pub bump : ℕ → ℕ → Store K R V F J → Store K R V F J
  bump pending now d = record d { generation = bumped pending now d.generation }

  abbrev pub generation_rows : Store K R V F J → ℕ
  generation_rows d = elim d.generation [ none ↦ 0 | some g ↦ 1 ]

  abbrev pub insert_batch : BatchRow → Store K R V F J → Store K R V F J
  insert_batch b d = record d { batches = b ∷ d.batches }

  abbrev pub insert_batch_file : ℕ → K × Change → Store K R V F J → Store K R V F J
  insert_batch_file g (p, change) d = record d { batch_files = (g, p, change) ∷ d.batch_files }
