-- ===== src/Publish/Deleted.antt =====
-- What a publication deletes is in no table afterwards.
use cognis.Base.{
  ℕ, ◌≡◌, refl, ap, subst, ◌∙◌, Bool, true, false, ◌||◌, ◌&&◌, not, List, [], ◌∷◌, if◌then◌else◌,
  arith, Bool-cases, inl, inr,
}
use cognis.BtreeMap.{KeyOrd, add}
use cognis.Table.{has_key, drop_key, has_key-drop_key}
use cognis.Sqlite.Effects.{fold}
use cognis.EmbedQueue.{QueueRow}
use cognis.Publish.{Symbol, Edge, PublishBatch, Store, none_in}
use cognis.Publish.Apply.{
  Setup, contains, vector_delete, edge_delete, queue_delete, file_queue_delete, file_delete,
  ids_in_file, add_all, drop_outbound, flag_inbound, drop_queued_file,
}
use cognis.Publish.Refinement.{erase, collected}
use cognis.Publish.Published.{mutated, upserted, doomed}
use cognis.Publish.Consistency.{fold-invariant}

false-ne-true : false ≡ true → ⊥
false-ne-true e = cc

-- A step of the change makes the predicate true and the later steps keep it so.
pub fold-hits :
    {D K : Type 0} ⦃o : KeyOrd K⦄ (P : D → Type 0) (e : K → D → D) (k : K)
    → ((d : D) → P (e k d))
    → ((j : K) (d : D) → P d → P (e j d))
    → (ks : List K) (d : D) → contains k ks ≡ true
    → P (fold e ks d)
unfolding contains
fold-hits P e k h i [] d c = absurd (false-ne-true c)
fold-hits ⦃o⦄ P e k h i (j ∷ ks) d c = elim (Bool-cases (o.eq k j)) [
  | inl t ↦ fold-invariant P e i ks (e j d) (subst (λ j. P (e j d)) ((o.eq_iff k j).0 t) (h d))
  | inr f ↦ fold-hits P e k h i ks (e j d) (ground (arith, c, f))
]

module _ {K : Type 0} ⦃o : KeyOrd K⦄ where
  pub eq_refl : (k : K) → o.eq k k ≡ true
  eq_refl k = (o.eq_iff k k).1 refl

  pub contains-add : (k j : K) (ks : List K) → contains k (add j ks) ≡ (o.eq k j || contains k ks)
  unfolding contains add
  contains-add k j [] = ground arith
  contains-add k j (i ∷ ks) =
      ground (arith, o.eq_iff k j, o.eq_iff j i, o.eq_iff k i, contains-add k j ks)

  pub contains-add_all :
      (k : K) (js ks : List K) → contains k (add_all js ks) ≡ (contains k js || contains k ks)
  unfolding contains add_all
  contains-add_all k [] ks = refl
  contains-add_all k (j ∷ js) ks =
      ground (arith, contains-add_all k js (add j ks), contains-add k j ks)

  pub contains-drop_key :
      {R : Type 0} (p k j : K) (m : List (K × Symbol K R))
      → contains k (ids_in_file p (drop_key j m))
        ≡ (if o.eq k j then false else contains k (ids_in_file p m))
  unfolding contains ids_in_file drop_key
  contains-drop_key p k j [] = ground arith
  contains-drop_key p k j ((i, s) ∷ m) =
      ground (arith, o.eq_iff k j, o.eq_iff j i, o.eq_iff k i, contains-drop_key p k j m)

  abbrev pub has_outbound : {F J : Type 0} → K → List (Edge K F J) → Bool
  has_outbound k [] = false
  has_outbound k (e ∷ es) = o.eq k e.src_id || has_outbound k es

  outbound-flag :
      {F J : Type 0} (f : J → J) (k j : K) (es : List (Edge K F J))
      → has_outbound k (flag_inbound f j es) ≡ has_outbound k es
  unfolding flag_inbound
  outbound-flag f k j [] = refl
  outbound-flag f k j (e ∷ es) = ground (arith, outbound-flag f k j es)

  outbound-drop :
      {F J : Type 0} (k j : K) (es : List (Edge K F J))
      → has_outbound k (drop_outbound j es) ≡ (if o.eq k j then false else has_outbound k es)
  unfolding drop_outbound
  outbound-drop k j [] = ground arith
  outbound-drop k j (e ∷ es) =
      ground (arith, o.eq_iff k j, o.eq_iff j e.src_id, o.eq_iff k e.src_id, outbound-drop k j es)

  abbrev pub queued_in : K → List (K × QueueRow K) → Bool
  queued_in p [] = false
  queued_in p ((k, r) ∷ q) = o.eq p r.file_path || queued_in p q

  pub queued_in-drop :
      (p j : K) (q : List (K × QueueRow K))
      → queued_in p (drop_queued_file j q) ≡ (if o.eq p j then false else queued_in p q)
  unfolding drop_queued_file
  queued_in-drop p j [] = ground arith
  queued_in-drop p j ((k, r) ∷ q) =
      ground
        (arith, o.eq_iff p j, o.eq_iff j r.file_path, o.eq_iff p r.file_path, queued_in-drop p j q)

  has_key-drop_queued :
      (k p : K) (q : List (K × QueueRow K))
      → has_key k q ≡ false
      → has_key k (drop_queued_file p q) ≡ false
  unfolding has_key drop_queued_file
  has_key-drop_queued k p [] e = refl
  has_key-drop_queued k p ((j, r) ∷ q) e = ground (arith, e, has_key-drop_queued k p q)

module _ {K R V F J : Type 0} ⦃o : KeyOrd K⦄ where
  -- Some table has a row for the symbol, or an edge leaves it.
  abbrev pub holds_symbol : K → Store K R V F J → Bool
  holds_symbol k d =
      has_key k d.symbols
      || has_key k d.fts
      || has_key k d.vectors
      || has_key k d.queue
      || has_outbound k d.edges

  -- Some table has a row for the file.
  abbrev pub holds_file : K → Store K R V F J → Bool
  holds_file p d =
      has_key p d.files || not (none_in (ids_in_file p d.symbols)) || queued_in p d.queue

module _ {K R V F J : Type 0} ⦃o : KeyOrd K⦄ (setup : Setup V J) where
  pub collected-keeps :
      (k : K) (ps ids : List K) (d : Store K R V F J)
      → contains k ids ≡ true
      → contains k (collected setup ps ids d) ≡ true
  collected-keeps k [] ids d e = e
  collected-keeps k (p ∷ ps) ids d e =
      collected-keeps k ps (add_all (ids_in_file p d.symbols) ids) d
        (ground (arith, e, contains-add_all k (ids_in_file p d.symbols) ids))

  erased :
      (k j : K) (d : Store K R V F J)
      → (holds_symbol k d && not (o.eq k j)) ≡ false
      → holds_symbol k (erase setup j d) ≡ false
  erased k j d e = ground (
    arith,
    e,
    has_key-drop_key k j d.symbols,
    has_key-drop_key k j d.fts,
    has_key-drop_key k j d.vectors,
    has_key-drop_key k j d.queue,
    outbound-drop k j d.edges,
    outbound-flag setup.dst_missing k j (drop_outbound j d.edges),
  )

  file_queue_delete-holds :
      (k p : K) (d : Store K R V F J)
      → holds_symbol k d ≡ false
      → holds_symbol k (file_queue_delete p d) ≡ false
  file_queue_delete-holds k p d e = ground (arith, e, has_key-drop_queued k p d.queue)

  pub mutated-symbol_deletes :
      (b : PublishBatch K R V F J) (now : ℕ) (d : Store K R V F J) (k : K)
      → contains k b.symbol_deletes ≡ true
      → holds_symbol k (mutated setup b now d) ≡ false
  mutated-symbol_deletes b now d k c =
      let P = λ (d : Store K R V F J). holds_symbol k d ≡ false in
      let d₁ =
        fold vector_delete b.vector_deletes
          (fold edge_delete b.edge_deletes (upserted setup b now d)) in
      let d₃ = fold queue_delete b.queue_remove d₁ in
      let d₄ = fold (erase setup) (doomed setup b d₃) d₃ in
      fold-invariant P file_delete (λ x d p. p) b.file_deletes
        (fold file_queue_delete b.file_deletes d₄)
        (fold-invariant P file_queue_delete (λ p d e. file_queue_delete-holds k p d e)
          b.file_deletes d₄
          (fold-hits P (erase setup) k (λ d. erased k k d (ground (arith, eq_refl k)))
            (λ j d e. erased k j d (ground (arith, e))) (doomed setup b d₃) d₃
            (collected-keeps k b.file_deletes (add_all b.symbol_deletes []) d₃
              (contains-add_all k b.symbol_deletes [] ∙ ap (λ t. t || contains k []) c))))
