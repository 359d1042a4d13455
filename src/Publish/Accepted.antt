-- ===== src/Publish/Accepted.antt =====
-- The statements of a publication that succeed wherever SQLite refuses none of them.
use cognis.Base.{ℕ, ◌≡◌, Bool, ◌||◌, List, [], ◌∷◌, Option, none, some, if◌then◌else◌}
use cognis.BtreeMap.{KeyOrd}
use cognis.Table.{has_key}
use cognis.Sqlite.Success.{
  Always, bind-Always, seq-Always, pure-Always, if-Always, for_each-Always, query-Always,
  execute-Always,
}
use cognis.Publish.{Symbol, Edge, VectorSpaceFingerprint, removed, changed, added, Store}
use cognis.Publish.Apply.{
  Setup, contains, add_all, ids_in_file, upsert_row, fts_delete, fts_insert, upsert_edge_row,
  vector_delete, vector_insert, clear_vectors, set_space, queue_delete, symbol_delete,
  outbound_delete, inbound_flag,
}
use cognis.Publish.Steps.{run, ready, each}
use cognis.Publish.Vectors.{
  not_equal_bool, compatible, existing_rows, recreate_vec_table, space_changed, other_dim,
  preserves, reshape, insert_preserved, install, replace_vector,
}
use cognis.Publish.Statements.{
  classify, classify_all, upsert_symbol, upsert_symbols, upsert_edges, collect_file_symbol_ids,
  delete_symbol, delete_symbols,
}

module _ {K R V F J : Type 0} ⦃o : KeyOrd K⦄ (setup : Setup V J)
    (never : (n : ℕ) → setup.refuses n ≡ none) where
  pub ready-Always : Always (ready {K = K} {R = R} {F = F} setup)
  ready-Always = query-Always setup.refuses never (λ d. tt)

  pub run-Always : (f : Store K R V F J → Store K R V F J) → Always (run setup f)
  run-Always f = execute-Always setup.refuses never f

  pub each-Always :
      {X : Type 0} (f : X → Store K R V F J → Store K R V F J) (xs : List X)
      → Always (each setup f xs)
  unfolding each
  each-Always f xs =
      seq-Always ready-Always (for_each-Always (λ x. run setup (f x)) (λ x. run-Always (f x)) xs)

  upsert_symbol-Always : (s : Symbol K R) → Always (upsert_symbol {V = V} {F = F} setup s)
  unfolding upsert_symbol
  upsert_symbol-Always s =
      seq-Always (run-Always (upsert_row s))
        (seq-Always (run-Always (fts_delete s.id)) (run-Always (fts_insert s)))

  pub upsert_symbols-Always :
      (ss : List (Symbol K R)) → Always (upsert_symbols {V = V} {F = F} setup ss)
  unfolding upsert_symbols
  upsert_symbols-Always [] = pure-Always tt
  upsert_symbols-Always (s ∷ ss) = seq-Always ready-Always (
      seq-Always ready-Always (
        seq-Always ready-Always
          (for_each-Always (upsert_symbol setup) upsert_symbol-Always (s ∷ ss))))

  pub upsert_edges-Always :
      (es : List (Edge K F J)) → Always (upsert_edges {R = R} {V = V} setup es)
  unfolding upsert_edges
  upsert_edges-Always es = seq-Always ready-Always (
      for_each-Always (λ e. run setup (upsert_edge_row e)) (λ e. run-Always (upsert_edge_row e)) es)

  classify-Always : (deletes : List K) (p : K) → Always (classify {R = R} {F = F} setup deletes p)
  unfolding classify
  classify-Always deletes p =
      if-Always (contains p deletes) (pure-Always removed)
        (query-Always setup.refuses never (λ d. if has_key p d.files then changed else added))

  pub classify_all-Always :
      (deletes ps : List K) → Always (classify_all {R = R} {F = F} setup deletes ps)
  unfolding classify_all
  classify_all-Always deletes [] = pure-Always []
  classify_all-Always deletes (p ∷ ps) =
      bind-Always (classify-Always deletes p)
        (λ c. bind-Always (classify_all-Always deletes ps) (λ rest. pure-Always ((p, c) ∷ rest)))

  pub collect-Always :
      (ps ids : List K) → Always (collect_file_symbol_ids {R = R} {F = F} setup ps ids)
  unfolding collect_file_symbol_ids
  collect-Always [] ids = pure-Always ids
  collect-Always (p ∷ ps) ids =
      bind-Always (query-Always setup.refuses never (λ d. ids_in_file p d.symbols))
        (λ found. collect-Always ps (add_all found ids))

  delete_symbol-Always : (k : K) → Always (delete_symbol {R = R} {F = F} setup k)
  unfolding delete_symbol
  delete_symbol-Always k = seq-Always (run-Always (symbol_delete k)) (
      seq-Always (run-Always (fts_delete k)) (
        seq-Always (run-Always (vector_delete k)) (
          seq-Always (run-Always (queue_delete k)) (
            seq-Always (run-Always (outbound_delete k))
              (run-Always (inbound_flag setup.dst_missing k))))))

  pub delete_symbols-Always : (ks : List K) → Always (delete_symbols {R = R} {F = F} setup ks)
  unfolding delete_symbols
  delete_symbols-Always ks = seq-Always ready-Always (
      seq-Always ready-Always (
        seq-Always ready-Always (
          seq-Always ready-Always (
            seq-Always ready-Always (
              seq-Always ready-Always
                (for_each-Always (delete_symbol setup) delete_symbol-Always ks))))))

  pub existing-Always : (rows : List (K × V)) → Always (existing_rows {R = R} {F = F} setup rows)
  unfolding existing_rows
  existing-Always [] = pure-Always []
  existing-Always ((k, v) ∷ rows) =
      bind-Always (query-Always setup.refuses never (λ d. has_key k d.symbols)) (λ found.
        bind-Always (existing-Always rows)
          (λ rest. pure-Always (if found then (k, v) ∷ rest else rest)))

  insert_preserved-Always :
      (rows : List (K × V)) → Always (insert_preserved {R = R} {F = F} setup rows)
  unfolding insert_preserved
  insert_preserved-Always [] = pure-Always tt
  insert_preserved-Always (row ∷ rows) = seq-Always ready-Always (
      for_each-Always (λ r. run setup (vector_insert r)) (λ r. run-Always (vector_insert r))
        (row ∷ rows))

  reshape-Always :
      (f : VectorSpaceFingerprint) (moved is_vec0 : Bool) (vec_dim : Option ℕ)
      → Always (reshape {K = K} {R = R} {F = F} setup f moved is_vec0 vec_dim)
  unfolding reshape
  reshape-Always f moved is_vec0 vec_dim =
      if-Always (not_equal_bool setup.vec_ext_ok is_vec0 || other_dim f.dim vec_dim)
        (bind-Always
          (if-Always (preserves moved (other_dim f.dim vec_dim) is_vec0 setup.vec_ext_ok)
            (query-Always setup.refuses never (λ d. compatible setup.vector_len f.dim d.vectors))
            (pure-Always []))
          (λ kept.
            seq-Always (run-Always (recreate_vec_table setup f.dim))
              (insert_preserved-Always kept)))
        (if-Always moved (run-Always clear_vectors) (pure-Always tt))

  pub install-Always :
      (f : Option VectorSpaceFingerprint) (p : Option (VectorSpaceFingerprint × ℕ)) (now : ℕ)
      → Always (install {K = K} {R = R} {F = F} setup f p now)
  unfolding install
  install-Always none p now = pure-Always tt
  install-Always (some f) p now =
      bind-Always (query-Always setup.refuses never (λ d. d.is_vec0)) (λ is_vec0.
        bind-Always (query-Always setup.refuses never (λ d. d.vec_dim)) (λ vec_dim.
          seq-Always (reshape-Always f (space_changed f p) is_vec0 vec_dim)
            (run-Always (set_space f now))))

  pub replace_vector-Always : (row : K × V) → Always (replace_vector {R = R} {F = F} setup row)
  unfolding replace_vector
  replace_vector-Always (k, v) =
      seq-Always (run-Always (vector_delete k)) (run-Always (vector_insert (k, v)))
