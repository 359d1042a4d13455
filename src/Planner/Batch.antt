-- ===== src/Planner/Batch.antt =====
-- The batch of a plan, `build_batch` and `sort_batch` of crates/cognis-indexer/src/planner.rs.
use Prim.Native.String.{String, compare}
use text.Mathlib.Text.{◌==◌ as str_eq, is_le}
use cognis.Base.{Bool, false, ◌||◌, ◌&&◌, List, [], ◌∷◌, ◌++◌, map, if◌then◌else◌}
use cognis.BtreeMap.{KeyOrd, add}
use cognis.Sort.{sort_by}
use cognis.Sqlite.{Result, ok}
use cognis.Publish.{Symbol, Edge, PublishBatch, PublishReason, empty, dedup, not_after}
use cognis.Publish.Apply.{contains}
use cognis.Planner.Scan.{PlannedFile, ◌>>=◌}

-- The store's queries and the resolver.
pub record Queries (K R F J : Type 0) : Type 0 where
  pub symbol_ids_in_file : K → Result (List K)
  pub symbols_in_file : K → Result (List (Symbol K R))
  pub outgoing_edges : List K → Result (List (Edge K F J))
  pub bounded_resolver_symbols : List (Symbol K R) → List K → Result (List (Symbol K R))
  pub resolve_edges : List (Symbol K R) → List (Edge K F J)

abbrev pub concat : {A B : Type 0} → (A → List B) → List A → List B
concat f [] = []
concat f (x ∷ xs) = f x ++ concat f xs

-- The lists of a query for each path, joined.
unfoldable pub gather : {K X : Type 0} → (K → Result (List X)) → List K → Result (List X)
gather query [] = ok []
gather query (p ∷ ps) = do xs ← query p; rest ← gather query ps; ok (xs ++ rest)

module _ {K : Type 0} ⦃o : KeyOrd K⦄ where
  abbrev pub key_eq : K × K × String → K × K × String → Bool
  key_eq (s, d, kind) (s', d', kind') = o.eq s s' && o.eq d d' && str_eq kind kind'

  -- The order of the triples: `a` does not come after `b`.
  abbrev pub key_first : K × K × String → K × K × String → Bool
  key_first (s, d, kind) (s', d', kind') =
      o.lt s s' || (o.eq s s' && (o.lt d d' || (o.eq d d' && is_le (compare kind kind'))))

  unfoldable pub has_edge_key : K × K × String → List (K × K × String) → Bool
  has_edge_key k [] = false
  has_edge_key k (j ∷ js) = key_eq k j || has_edge_key k js

  unfoldable pub dedup_keys_after : K × K × String → List (K × K × String) → List (K × K × String)
  dedup_keys_after k [] = []
  dedup_keys_after k (j ∷ js) =
      let rest = dedup_keys_after j js in if key_eq k j then rest else j ∷ rest

  unfoldable pub dedup_keys : List (K × K × String) → List (K × K × String)
  unfolding dedup_keys_after
  dedup_keys [] = []
  dedup_keys (k ∷ ks) = k ∷ dedup_keys_after k ks

  -- The ids that are not among the new ones, as a set.
  unfoldable pub stale : List K → List K → List K
  stale new_ids [] = []
  stale new_ids (k ∷ ks) =
      let rest = stale new_ids ks in if contains k new_ids then rest else add k rest

  unfoldable pub without_keys :
      List (K × K × String) → List (K × K × String) → List (K × K × String)
  unfolding has_edge_key
  without_keys replaced [] = []
  without_keys replaced (k ∷ ks) =
      let rest = without_keys replaced ks in if has_edge_key k replaced then rest else k ∷ rest

module _ {K F J : Type 0} where
  abbrev pub edge_delete_key : Edge K F J → K × K × String
  edge_delete_key e = (e.src_id, e.dst_id, e.kind)

module _ {K R : Type 0} ⦃o : KeyOrd K⦄ where
  -- Whether the symbol with this id, the first one found, lies in one of the files.
  unfoldable pub is_owned : K → List (Symbol K R) → List K → Bool
  is_owned id [] owned = false
  is_owned id (s ∷ ss) owned =
      if o.eq s.id id then contains s.file_path owned else is_owned id ss owned

  abbrev pub owned_edges :
      {F J : Type 0} → List (Symbol K R) → List K → List (Edge K F J) → List (Edge K F J)
  owned_edges symbols owned [] = []
  owned_edges symbols owned (e ∷ es) =
      let rest = owned_edges symbols owned es in
      if is_owned e.src_id symbols owned then e ∷ rest else rest

  abbrev pub old_of : List (K × PlannedFile K (Symbol K R)) → List (Symbol K R)
  old_of = concat (λ e. e.1.old_symbols)

  abbrev pub new_of : List (K × PlannedFile K (Symbol K R)) → List (Symbol K R)
  new_of = concat (λ e. e.1.symbols)

  abbrev pub ids : List (Symbol K R) → List K
  ids = map (λ s. s.id)

module _ {K R V F J : Type 0} ⦃o : KeyOrd K⦄ where
  unfoldable pub sort_batch : PublishBatch K R V F J → PublishBatch K R V F J
  unfolding dedup dedup_keys
  sort_batch b = record b {
    symbol_upserts = sort_by (λ s t. not_after s.id t.id) b.symbol_upserts;
    symbol_deletes = dedup (sort_by not_after b.symbol_deletes);
    edge_upserts =
        sort_by (λ e f. key_first (edge_delete_key e) (edge_delete_key f)) b.edge_upserts;
    edge_deletes = dedup_keys (sort_by key_first b.edge_deletes);
    vector_deletes = dedup (sort_by not_after b.vector_deletes);
    file_rows = sort_by (λ r t. not_after r.path t.path) b.file_rows;
    file_deletes = dedup (sort_by not_after b.file_deletes);
    queue_enqueue = sort_by (λ s t. not_after s.symbol_id t.symbol_id) b.queue_enqueue;
    queue_remove = dedup (sort_by not_after b.queue_remove);
  }

  -- The batch from what was read.
  unfoldable pub assemble :
      PublishReason
      → List (K × PlannedFile K (Symbol K R))
      → List K
      → List K
      → List (Edge K F J)
      → List (Edge K F J)
      → PublishBatch K R V F J
  unfolding stale without_keys sort_batch
  assemble reason changed deleted old_ids outgoing upserts =
      let new_symbols = new_of changed in
      let stale_ids = stale (ids new_symbols) old_ids in
      sort_batch (record (empty reason) {
        symbol_upserts = new_symbols;
        symbol_deletes = stale_ids;
        edge_upserts = upserts;
        edge_deletes = without_keys (map edge_delete_key upserts) (map edge_delete_key outgoing);
        vector_deletes = stale_ids;
        file_rows = map (λ e. e.1.row) changed;
        file_deletes = deleted;
        queue_enqueue = map (λ s. record { symbol_id = s.id; file_path = s.file_path }) new_symbols;
        queue_remove = stale_ids;
      })

  unfoldable pub build_batch :
      Queries K R F J
      → PublishReason
      → List (K × PlannedFile K (Symbol K R))
      → List K
      → Result (PublishBatch K R V F J)
  unfolding gather assemble is_owned
  build_batch queries reason changed deleted = do
    deleted_ids ← gather queries.symbol_ids_in_file deleted
    deleted_symbols ← gather queries.symbols_in_file deleted
    let old_ids = ids (old_of changed ++ deleted_symbols)
    outgoing ← queries.outgoing_edges old_ids
    let owned = map (λ e. e.0) changed
    resolver_symbols ← queries.bounded_resolver_symbols (new_of changed) (owned ++ deleted)
    ok (
        assemble reason changed deleted (old_ids ++ deleted_ids) outgoing
          (owned_edges resolver_symbols owned (queries.resolve_edges resolver_symbols)))
