-- ===== src/Planner/Stale.antt =====
-- Which symbols the batch of a plan writes and which it deletes.
use cognis.Base.{
  ◌≡◌, refl, sym, ap, subst, ◌∙◌, Bool, true, false, ◌||◌, ◌&&◌, not, List, [], ◌∷◌, ◌++◌, map,
  arith,
}
use cognis.BtreeMap.{KeyOrd}
use cognis.Sort.{sort_by, place}
use cognis.Sqlite.{Result, ok, err}
use cognis.Publish.{Symbol, Edge, QueuedSymbol, PublishBatch, PublishReason, dedup, not_after}
use cognis.Publish.Apply.{contains}
use cognis.Publish.Deleted.{contains-add}
use cognis.Publish.Paths.{contains-dedup, contains-sort_by, contains-append}
use cognis.Planner.Scan.{PlannedFile, ◌>>=◌}
use cognis.Planner.Detection.{err-ne-ok}
use cognis.Planner.Batch.{
  Queries, gather, stale, old_of, new_of, ids, owned_edges, sort_batch, assemble, build_batch,
}

module _ {K : Type 0} ⦃o : KeyOrd K⦄ where
  contains-stale :
      (k : K) (new_ids ks : List K)
      → contains k (stale new_ids ks) ≡ (contains k ks && not (contains k new_ids))
  unfolding contains stale
  contains-stale k new_ids [] = refl
  contains-stale k new_ids (j ∷ ks) =
      ground (arith, contains-stale k new_ids ks, contains-add k j (stale new_ids ks), o.eq_iff k j)

  module _ {X : Type 0} (f : X → K) (first : X → X → Bool) where
    contains-map_place :
        (k : K) (x : X) (xs : List X)
        → contains k (map f (place first x xs)) ≡ (o.eq k (f x) || contains k (map f xs))
    unfolding contains place
    contains-map_place k x [] = refl
    contains-map_place k x (y ∷ xs) = ground (arith, contains-map_place k x xs)

    contains-map_sort :
        (k : K) (xs : List X) → contains k (map f (sort_by first xs)) ≡ contains k (map f xs)
    unfolding contains sort_by
    contains-map_sort k [] = refl
    contains-map_sort k (x ∷ xs) =
        contains-map_place k x (sort_by first xs)
        ∙ ap (λ t. o.eq k (f x) || t) (contains-map_sort k xs)

  contains-map_queued :
      {R : Type 0} (k : K) (ss : List (Symbol K R))
      → contains k (
          map
            (λ (s : QueuedSymbol K). s.symbol_id)
            (map (λ s. record { symbol_id = s.id; file_path = s.file_path }) ss))
        ≡ contains k (ids ss)
  unfolding contains
  contains-map_queued k [] = refl
  contains-map_queued k (s ∷ ss) = ap (λ t. o.eq k s.id || t) (contains-map_queued k ss)

  contains-ids_append :
      {R : Type 0} (k : K) (ss ts : List (Symbol K R))
      → contains k (ids (ss ++ ts)) ≡ (contains k (ids ss) || contains k (ids ts))
  unfolding contains
  contains-ids_append k [] ts = refl
  contains-ids_append k (s ∷ ss) ts = ground (arith, contains-ids_append k ss ts)

bind-ok :
    {A B : Type 0} (r : Result A) (f : A → Result B) (b : B)
    → (r >>= f) ≡ ok b
    → (a : A) × (r ≡ ok a) × (f a ≡ ok b)
bind-ok (ok a) f b e = (a, refl, e)
bind-ok (err m) f b e = absurd (err-ne-ok m b e)

ok-injective : {A : Type 0} {a b : A} → ok a ≡ ok b → a ≡ b
ok-injective e = cc

partition :
    (old del dsym new stale ups : Bool)
    → stale ≡ (((old || dsym) || del) && not new)
    → ups ≡ new
    → ((stale && ups) ≡ false) × ((not old || (stale || ups)) ≡ true)
partition old del dsym new stale ups p q = ground (arith, p, q)

module _ {K R V F J : Type 0} ⦃o : KeyOrd K⦄ where
  -- No symbol is both written and deleted, and no old symbol is neither; what is deleted is deleted
  -- with its vector and its row of the queue, and exactly what is written is queued.
  abbrev pub Partitioned : K → List (Symbol K R) → PublishBatch K R V F J → Type 0
  Partitioned k old b =
      (((contains k b.symbol_deletes && contains k (ids b.symbol_upserts)) ≡ false)
        × ((not (contains k (ids old))
              || (contains k b.symbol_deletes || contains k (ids b.symbol_upserts)))
            ≡ true))
      × (b.vector_deletes ≡ b.symbol_deletes)
      × (b.queue_remove ≡ b.symbol_deletes)
      × (contains k (map (λ s. s.symbol_id) b.queue_enqueue) ≡ contains k (ids b.symbol_upserts))

  assemble-Partitioned :
      (reason : PublishReason) (changed : List (K × PlannedFile K (Symbol K R))) (deleted : List K)
      (dsyms : List (Symbol K R)) (dids : List K) (outgoing upserts : List (Edge K F J)) (k : K)
      (b : PublishBatch K R V F J)
      → assemble reason changed deleted (ids (old_of changed ++ dsyms) ++ dids) outgoing upserts ≡ b
      → Partitioned k (old_of changed) b
  unfolding assemble sort_batch
  assemble-Partitioned reason changed deleted dsyms dids outgoing upserts k b e =
      let old_ids = ids (old_of changed ++ dsyms) ++ dids in
      let gone = stale (ids (new_of changed)) old_ids in
      let sorted =
        contains-map_sort (λ (s : Symbol K R). s.id) (λ s t. not_after s.id t.id) k
          (new_of changed) in
      let deletes =
        contains-dedup k (sort_by not_after gone)
        ∙ contains-sort_by k gone
        ∙ contains-stale k (ids (new_of changed)) old_ids
        ∙ ap (λ t. t && not (contains k (ids (new_of changed))))
            (contains-append k (ids (old_of changed ++ dsyms)) dids
              ∙ ap (λ t. t || contains k dids) (contains-ids_append k (old_of changed) dsyms)) in
      subst (Partitioned k (old_of changed)) e (
        partition (contains k (ids (old_of changed))) (contains k dids) (contains k (ids dsyms))
            (contains k (ids (new_of changed))) (contains k (dedup (sort_by not_after gone)))
            (contains k (ids (sort_by (λ s t. not_after s.id t.id) (new_of changed)))) deletes
            sorted,
        refl,
        refl,
        contains-map_sort (λ (s : QueuedSymbol K). s.symbol_id)
              (λ s t. not_after s.symbol_id t.symbol_id) k
              (map (λ s. record { symbol_id = s.id; file_path = s.file_path }) (new_of changed))
            ∙ contains-map_queued k (new_of changed)
            ∙ sym sorted,
      )

  -- In the batch of a plan no symbol is both written and deleted, and every old symbol of a changed
  -- file is one or the other; what is deleted goes with its vector and its row of the queue, and
  -- exactly what is written is queued.
  pub build_batch-Partitioned :
      (queries : Queries K R F J) (reason : PublishReason)
      (changed : List (K × PlannedFile K (Symbol K R))) (deleted : List K)
      (b : PublishBatch K R V F J) (k : K)
      → build_batch queries reason changed deleted ≡ ok b
      → Partitioned k (old_of changed) b
  unfolding build_batch
  build_batch-Partitioned queries reason changed deleted b k e =
      let (dids, _, e₁) = bind-ok (gather queries.symbol_ids_in_file deleted) _ b e in
      let (dsyms, _, e₂) = bind-ok (gather queries.symbols_in_file deleted) _ b e₁ in
      let (outgoing, _, e₃) =
        bind-ok (queries.outgoing_edges (ids (old_of changed ++ dsyms))) _ b e₂ in
      let (symbols, _, e₄) =
        bind-ok
          (queries.bounded_resolver_symbols (new_of changed) (map (λ e. e.0) changed ++ deleted)) _
          b e₃ in
      assemble-Partitioned reason changed deleted dsyms dids outgoing
        (owned_edges symbols (map (λ e. e.0) changed) (queries.resolve_edges symbols)) k b
        (ok-injective e₄)
