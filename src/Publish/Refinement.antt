-- ===== src/Publish/Refinement.antt =====
-- What the statements on symbols, edges, files and the queue do where none is refused.
use cognis.Base.{List, [], ◌∷◌, if◌then◌else◌}
use cognis.BtreeMap.{KeyOrd}
use cognis.Table.{has_key}
use cognis.Sqlite.Effects.{
  Runs, fold, bind-Runs, seq-Runs, pure-Runs, answer-Runs, for_each-Runs, query-Runs, execute-Runs,
}
use cognis.Publish.{Symbol, Edge, Change, removed, changed, added, Store}
use cognis.Publish.Apply.{
  Setup, contains, add_all, ids_in_file, upsert_row, fts_delete, fts_insert, upsert_edge_row,
  vector_delete, vector_insert, queue_delete, symbol_delete, outbound_delete, inbound_flag,
}
use cognis.Publish.Steps.{run, ready, each}
use cognis.Publish.Statements.{
  classify, classify_all, upsert_symbol, upsert_symbols, upsert_edges, collect_file_symbol_ids,
  delete_symbol, delete_symbols,
}

module _ {K R V F J : Type 0} ⦃o : KeyOrd K⦄ (setup : Setup V J) where
  abbrev pub with_symbol : Symbol K R → Store K R V F J → Store K R V F J
  with_symbol s d = fts_insert s (fts_delete s.id (upsert_row s d))

  abbrev pub with_vector : K × V → Store K R V F J → Store K R V F J
  with_vector (k, v) d = vector_insert (k, v) (vector_delete k d)

  abbrev pub erase : K → Store K R V F J → Store K R V F J
  erase k d =
      inbound_flag setup.dst_missing k
        (outbound_delete k (queue_delete k (vector_delete k (fts_delete k (symbol_delete k d)))))

  pub ready-Runs : Runs (ready {K = K} {R = R} {F = F} setup) (λ d. d) (λ d. tt)
  ready-Runs = query-Runs setup.refuses (λ d. tt)

  pub run-Runs : (f : Store K R V F J → Store K R V F J) → Runs (run setup f) f (λ d. tt)
  run-Runs f = execute-Runs setup.refuses f

  pub each-Runs :
      {X : Type 0} (f : X → Store K R V F J → Store K R V F J) (xs : List X)
      → Runs (each setup f xs) (fold f xs) (λ d. tt)
  unfolding each
  each-Runs f xs =
      seq-Runs ready-Runs (for_each-Runs (λ x. run setup (f x)) f (λ x. run-Runs (f x)) xs)

  upsert_symbol-Runs : (s : Symbol K R) → Runs (upsert_symbol setup s) (with_symbol s) (λ d. tt)
  unfolding upsert_symbol
  upsert_symbol-Runs s =
      seq-Runs (run-Runs (upsert_row s))
        (seq-Runs (run-Runs (fts_delete s.id)) (run-Runs (fts_insert s)))

  pub upsert_symbols-Runs :
      (ss : List (Symbol K R)) → Runs (upsert_symbols setup ss) (fold with_symbol ss) (λ d. tt)
  unfolding upsert_symbols
  upsert_symbols-Runs [] = pure-Runs tt
  upsert_symbols-Runs (s ∷ ss) = seq-Runs ready-Runs (
      seq-Runs ready-Runs (
        seq-Runs ready-Runs
          (for_each-Runs (upsert_symbol setup) with_symbol upsert_symbol-Runs (s ∷ ss))))

  pub upsert_edges-Runs :
      (es : List (Edge K F J))
      → Runs (upsert_edges {R = R} {V = V} setup es) (fold upsert_edge_row es) (λ d. tt)
  unfolding upsert_edges
  upsert_edges-Runs es = seq-Runs ready-Runs (
      for_each-Runs (λ e. run setup (upsert_edge_row e)) upsert_edge_row
        (λ e. run-Runs (upsert_edge_row e)) es)

  abbrev pub change_of : List K → K → Store K R V F J → Change
  change_of deletes p d =
      if contains p deletes then removed else if has_key p d.files then changed else added

  abbrev pub changes_of : List K → List K → Store K R V F J → List (K × Change)
  changes_of deletes [] d = []
  changes_of deletes (p ∷ ps) d = (p, change_of deletes p d) ∷ changes_of deletes ps d

  classify-Runs :
      (deletes : List K) (p : K) → Runs (classify setup deletes p) (λ d. d) (change_of deletes p)
  unfolding classify
  classify-Runs deletes p = answer-Runs (contains p deletes) (pure-Runs removed) (
      query-Runs setup.refuses
        (λ (d : Store K R V F J). if has_key p d.files then changed else added))

  pub classify_all-Runs :
      (deletes ps : List K) → Runs (classify_all setup deletes ps) (λ d. d) (changes_of deletes ps)
  unfolding classify_all
  classify_all-Runs deletes [] = pure-Runs []
  classify_all-Runs deletes (p ∷ ps) =
      bind-Runs (classify-Runs deletes p)
        (λ c. bind-Runs (classify_all-Runs deletes ps) (λ rest. pure-Runs ((p, c) ∷ rest)))

  abbrev pub collected : List K → List K → Store K R V F J → List K
  collected [] ids d = ids
  collected (p ∷ ps) ids d = collected ps (add_all (ids_in_file p d.symbols) ids) d

  pub collect-Runs :
      (ps ids : List K) → Runs (collect_file_symbol_ids setup ps ids) (λ d. d) (collected ps ids)
  unfolding collect_file_symbol_ids
  collect-Runs [] ids = pure-Runs ids
  collect-Runs (p ∷ ps) ids =
      bind-Runs (query-Runs setup.refuses (λ d. ids_in_file p d.symbols))
        (λ found. collect-Runs ps (add_all found ids))

  delete_symbol-Runs : (k : K) → Runs (delete_symbol setup k) (erase k) (λ d. tt)
  unfolding delete_symbol
  delete_symbol-Runs k = seq-Runs (run-Runs (symbol_delete k)) (
      seq-Runs (run-Runs (fts_delete k)) (
        seq-Runs (run-Runs (vector_delete k)) (
          seq-Runs (run-Runs (queue_delete k)) (
            seq-Runs (run-Runs (outbound_delete k))
              (run-Runs (inbound_flag setup.dst_missing k))))))

  pub delete_symbols-Runs : (ks : List K) → Runs (delete_symbols setup ks) (fold erase ks) (λ d. tt)
  unfolding delete_symbols
  delete_symbols-Runs ks = seq-Runs ready-Runs (
      seq-Runs ready-Runs (
        seq-Runs ready-Runs (
          seq-Runs ready-Runs (
            seq-Runs ready-Runs (
              seq-Runs ready-Runs
                (for_each-Runs (delete_symbol setup) erase delete_symbol-Runs ks))))))
