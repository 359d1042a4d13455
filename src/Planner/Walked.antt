-- ===== src/Planner/Walked.antt =====
-- How a scan of the tree and the inspection of its candidates fit together.
use Prim.Native.String.{String}
use cognis.Base.{
  ◌≡◌, inl, inr, refl, ap, ◌∙◌, Bool, true, false, ◌||◌, ◌&&◌, not, List, [], ◌∷◌, Option, none,
  some, arith, Bool-cases,
}
use cognis.BtreeMap.{KeyOrd, get, has, add, keys, IsSorted}
use cognis.Table.{has_key}
use cognis.Sqlite.{Result, ok, err}
use cognis.Watcher.{PlanRequest}
use cognis.Publish.Apply.{contains, add_all}
use cognis.Publish.Deleted.{contains-add, contains-add_all}
use cognis.Planner.Scan.{
  CachedFile, Env, Scan, Found, ◌>>=◌, scan_tree, read_file_cache, not_admitted,
}
use cognis.Planner.Scan.{is_full_request, inspect_all}
use cognis.Planner.Detection.{is_some, err-ne-ok, differs, vanished, inspect_all-Covers, Covers}
use cognis.BtreeMap.{Above}
use cognis.BtreeMap.Laws.{has-add}

walked_changed :
    (f cand d d' res : Bool)
    → cand ≡ (f || false)
    → d ≡ d'
    → res ≡ ((cand && d) || false)
    → res ≡ (f && d')
walked_changed f cand d d' res p h q = ground (arith, h, p, q)

walked_deleted :
    (f cand row key found v v' del res : Bool)
    → cand ≡ (f || false)
    → key ≡ row
    → found ≡ (f || false)
    → del ≡ (key && not found)
    → v ≡ v'
    → res ≡ ((cand && v) || del)
    → res ≡ ((not f && row) || (f && v'))
walked_deleted f cand row key found v v' del res p q h t w u = ground (arith, h, p, q, t, w, u)

module _ {K V : Type 0} ⦃o : KeyOrd K⦄ where
  absent : (k j : K) (m : List (K × V)) → o.lt k j ≡ true → Above j (keys m) → has_key k m ≡ false
  unfolding has_key
  absent k j [] e a = refl
  absent k j ((i, v) ∷ m) e a =
      ground (arith, e, a.0, absent k j m e a.1, o.eq_iff k i, o.lt_trans k j i, o.lt_irrefl i)

  has_key-get : (k : K) (m : List (K × V)) → IsSorted (keys m) → has_key k m ≡ is_some (get k m)
  unfolding has_key get
  has_key-get k [] s = refl
  has_key-get k ((j, v) ∷ m) s = elim (Bool-cases (o.lt k j)) [
    | inl t ↦ ground (arith, t, absent k j m t s.0, o.eq_iff k j)
    | inr f ↦ ground (arith, f, has_key-get k m s.1)
  ]

module _ {K : Type 0} ⦃o : KeyOrd K⦄ where
  has-add_all : (k : K) (js ks : List K) → has k (add_all js ks) ≡ (contains k js || has k ks)
  unfolding add_all contains
  has-add_all k [] ks = refl
  has-add_all k (j ∷ js) ks = ground (arith, has-add_all k js (add j ks), has-add j k ks)

module _ {K S B : Type 0} ⦃o : KeyOrd K⦄ (env : Env K S B) where
  gone :
      (k : K) (adm : List K) (cache : List (K × CachedFile))
      → contains k (not_admitted env adm cache) ≡ (has_key k cache && not (has k adm))
  unfolding has_key not_admitted contains
  gone k adm [] = refl
  gone k adm ((p, row) ∷ cache) =
      ground (arith, gone k adm cache, contains-add k p (not_admitted env adm cache), o.eq_iff k p)

  -- What a path must be to be found changed, or deleted, where `t` tells whether the walk finds it.
  abbrev pub is_changed : Bool → Bool → K → Bool
  is_changed is_full t k = t && differs env is_full (get k env.file_table) k

  abbrev pub is_deleted : Bool → K → Bool
  is_deleted t k =
      (not t && is_some (get k env.file_table)) || (t && vanished env (get k env.file_table) k)

  pub after_scan :
      (request : PlanRequest (Option K)) (g : Found K S) (r : Result (Scan K))
      → (r >>= λ s.
          inspect_all env
            (is_full_request env request)
            s.cache
            s.candidates
            (record { changed = []; deleted = s.deleted }))
        ≡ ok g
      → (s : Scan K) × (r ≡ ok s)
        × ((k : K)
            → Covers env
                (is_full_request env request)
                s.cache
                s.candidates
                k
                (record { changed = []; deleted = s.deleted })
                g)
  after_scan request g (ok s) e = (
    s,
    refl,
    λ k.
        inspect_all-Covers env (is_full_request env request) s.cache k s.candidates
          (record { changed = []; deleted = s.deleted }) g e,
  )
  after_scan request g (err m) e = absurd (err-ne-ok m g e)

  pub tree_scan :
      (s : Scan K)
      → scan_tree env ≡ ok s
      → (s.cache ≡ env.file_table)
        × (s.candidates ≡ add_all env.admitted_rel_paths [])
        × (s.deleted ≡ not_admitted env (add_all env.admitted_rel_paths []) env.file_table)
  unfolding scan_tree read_file_cache
  tree_scan s e = table env.refuses_table e
    where
      table :
          (m : Option String)
          → ((elim m [ some t ↦ err t | none ↦ ok env.file_table ]) >>= λ cache. ok (record {
            cache = cache;
            candidates = add_all env.admitted_rel_paths [];
            deleted = not_admitted env (add_all env.admitted_rel_paths []) cache;
          }))
            ≡ ok s
          → (s.cache ≡ env.file_table)
            × (s.candidates ≡ add_all env.admitted_rel_paths [])
            × (s.deleted ≡ not_admitted env (add_all env.admitted_rel_paths []) env.file_table)
      table (some t) e = absurd (err-ne-ok t s e)
      table none e = ground (arith, e)

  pub walked :
      (is_full : Bool) (s : Scan K) (g : Found K S) (k : K)
      → IsSorted (keys env.file_table)
      → (s.cache ≡ env.file_table)
        × (s.candidates ≡ add_all env.admitted_rel_paths [])
        × (s.deleted ≡ not_admitted env (add_all env.admitted_rel_paths []) env.file_table)
      → Covers env is_full s.cache s.candidates k (record { changed = []; deleted = s.deleted }) g
      → (has_key k g.changed ≡ is_changed is_full (contains k env.admitted_rel_paths) k)
        × (contains k g.deleted ≡ is_deleted (contains k env.admitted_rel_paths) k)
  unfolding has_key has contains
  walked is_full s g k sorted (cache, cand, del) (c, d) =
      let cand' = ap (contains k) cand ∙ contains-add_all k env.admitted_rel_paths [] in
      let row = has_key-get k env.file_table sorted in
      let found = has-add_all k env.admitted_rel_paths [] in
      let del' = ap (contains k) del ∙ gone k (add_all env.admitted_rel_paths []) env.file_table in
      let changed = ap (λ m. differs env is_full (get k m) k) cache in
      let lost = ap (λ m. vanished env (get k m) k) cache in
      (
        walked_changed (contains k env.admitted_rel_paths) (contains k s.candidates)
            (differs env is_full (get k s.cache) k) (differs env is_full (get k env.file_table) k)
            (has_key k g.changed) cand' changed c,
        walked_deleted (contains k env.admitted_rel_paths) (contains k s.candidates)
            (is_some (get k env.file_table)) (has_key k env.file_table)
            (has k (add_all env.admitted_rel_paths [])) (vanished env (get k s.cache) k)
            (vanished env (get k env.file_table) k) (contains k s.deleted) (contains k g.deleted)
            cand' row found del' lost d,
      )
