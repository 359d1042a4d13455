-- ===== src/Planner/Scanned.antt =====
-- What the planner takes for a candidate and for deleted.
use Prim.Native.String.{String}
use cognis.Base.{
  ◌≡◌, ◌⊎◌, inl, inr, refl, sym, ap, subst, ◌∙◌, Bool, true, false, ◌||◌, ◌&&◌, not, List, [], ◌∷◌,
  Option, none, some, if◌then◌else◌, arith, Bool-cases,
}
use cognis.BtreeMap.{KeyOrd, get}
use cognis.BtreeMap.Laws.{get-insert}
use cognis.Sqlite.{Result, ok, err}
use cognis.Publish.Apply.{contains}
use cognis.Publish.Deleted.{contains-add}
use cognis.Planner.Scan.{
  CachedFile, Env, Scan, ◌>>=◌, read_cached_file, with_row, place_path, scan_path, scan_touched,
}
use cognis.Planner.Detection.{is_some, err-ne-ok, contains_key-get}

module _ {K S B : Type 0} ⦃o : KeyOrd K⦄ (env : Env K S B) where
  -- Every row of the cache is the row of the table.
  abbrev IsView : List (K × CachedFile) → Type 0
  IsView cache = (k : K) → (get k cache ≡ none) ⊎ (get k cache ≡ get k env.file_table)

  with_row-get :
      (k p : K) (row : Option CachedFile) (cache : List (K × CachedFile))
      → (get p cache ≡ none) ⊎ (get p cache ≡ row)
      → get k (with_row env p row cache) ≡ (if o.eq k p then row else get k cache)
  with_row-get k p none cache e = ground (arith, e, o.eq_iff k p)
  with_row-get k p (some row) cache e = get-insert p k row cache

  abbrev pub among : K → List (Option K) → Bool
  among k [] = false
  among k (none ∷ ps) = among k ps
  among k (some p ∷ ps) = o.eq k p || among k ps

  -- The scan with one path more, or with many, where `t` tells whether `k` is one of them.
  abbrev pub Scanned : Bool → K → Scan K → Scan K → Type 0
  Scanned t k s s' =
      (get k s'.cache ≡ (if t then get k env.file_table else get k s.cache))
      × (contains k s'.candidates ≡ ((t && env.is_admitted k) || contains k s.candidates))
      × (contains k s'.deleted ≡ (
          (t && (not (env.is_admitted k) && is_some (get k env.file_table)))
          || contains k s.deleted))

  place_cache :
      (p : K) (cache : List (K × CachedFile)) (s : Scan K)
      → (place_path env p cache s).cache ≡ cache
  place_cache p cache s = ground arith

  placed :
      (k p : K) (cache : List (K × CachedFile)) (s : Scan K)
      → get k cache ≡ (if o.eq k p then get p env.file_table else get k s.cache)
      → get p cache ≡ get p env.file_table
      → Scanned (o.eq k p) k s (place_path env p cache s)
  placed k p cache s e f = (
    ground (arith, place_cache p cache s, e, o.eq_iff k p),
    ground (arith, contains-add k p s.candidates, o.eq_iff k p),
    ground (arith, contains-add k p s.deleted, o.eq_iff k p, contains_key-get p cache, f),
  )

  eq_refl : (k : K) → o.eq k k ≡ true
  eq_refl k = (o.eq_iff k k).1 refl

  row_read :
      (p : K) (s s' : Scan K) (m : Option String)
      → env.refuses_file p ≡ m
      → scan_path env (some p) s ≡ ok s'
      → s' ≡ place_path env p (with_row env p (get p env.file_table) s.cache) s
  unfolding scan_path read_cached_file
  row_read p s s' (some m) q e = ground (arith, q, e)
  row_read p s s' none q e = ground (arith, q, e)

  view_or :
      (k p : K) (s : Scan K)
      → IsView s.cache
      → get k (with_row env p (get p env.file_table) s.cache)
        ≡ (if o.eq k p then get p env.file_table else get k s.cache)
  view_or k p s v = with_row-get k p (get p env.file_table) s.cache (v p)

  with_row-IsView :
      (p : K) (s : Scan K) → IsView s.cache → IsView (with_row env p (get p env.file_table) s.cache)
  with_row-IsView p s v k = elim (Bool-cases (o.eq k p)) [
    | inl t ↦ inr (ground (arith, t, o.eq_iff k p, view_or k p s v))
    | inr f ↦
        subst (λ x. (x ≡ none) ⊎ (x ≡ get k env.file_table))
          (sym (view_or k p s v ∙ ap (λ t. if t then get p env.file_table else get k s.cache) f))
          (v k)
  ]

  scan_path-Scanned :
      (k p : K) (s s' : Scan K)
      → IsView s.cache
      → scan_path env (some p) s ≡ ok s'
      → Scanned (o.eq k p) k s s' × IsView s'.cache
  scan_path-Scanned k p s s' v e =
      let q = row_read p s s' (env.refuses_file p) refl e in
      let cache = with_row env p (get p env.file_table) s.cache in
      (
        subst (λ x. Scanned (o.eq k p) k s x) (sym q)
            (placed k p cache s (view_or k p s v) (
              view_or p p s v
              ∙ ap (λ t. if t then get p env.file_table else get p s.cache) (eq_refl p))),
        subst (λ x. IsView x.cache) (sym q)
            (subst IsView (sym (place_cache p cache s)) (with_row-IsView p s v)),
      )

  scan_on :
      (c t : Bool) (k : K) (s s' s'' : Scan K)
      → Scanned c k s s'
      → Scanned t k s' s''
      → Scanned (c || t) k s s''
  scan_on c t k s s' s'' (a, b, d) (a', b', d') =
      (ground (arith, a, a'), ground (arith, b, b'), ground (arith, d, d'))

  unrooted :
      (k : K) (ps : List (Option K)) (s s' s'' : Scan K)
      → ((s' : Scan K)
          → IsView s'.cache
          → scan_touched env ps s' ≡ ok s''
          → Scanned (among k ps) k s' s'')
      → IsView s.cache
      → scan_path env none s ≡ ok s'
      → scan_touched env ps s' ≡ ok s''
      → Scanned (among k ps) k s s''
  unfolding scan_path
  unrooted k ps s s' s'' rest v q e = rest s v (ap (λ r. r >>= λ t. scan_touched env ps t) q ∙ e)

  after_path :
      (k : K) (p : Option K) (ps : List (Option K)) (s s'' : Scan K) (r : Result (Scan K))
      → ((s' : Scan K)
          → IsView s'.cache
          → scan_touched env ps s' ≡ ok s''
          → Scanned (among k ps) k s' s'')
      → IsView s.cache
      → scan_path env p s ≡ r
      → (r >>= λ s'. scan_touched env ps s') ≡ ok s''
      → Scanned (among k (p ∷ ps)) k s s''
  after_path k p ps s s'' (err m) rest v q e = absurd (err-ne-ok m s'' e)
  after_path k (some p) ps s s'' (ok s') rest v q e =
      let (a, w) = scan_path-Scanned k p s s' v q in
      scan_on (o.eq k p) (among k ps) k s s' s'' a (rest s' w e)
  after_path k none ps s s'' (ok s') rest v q e = unrooted k ps s s' s'' rest v q e

  pub scan_touched-Scanned :
      (k : K) (ps : List (Option K)) (s s' : Scan K)
      → IsView s.cache
      → scan_touched env ps s ≡ ok s'
      → Scanned (among k ps) k s s'
  unfolding scan_touched
  scan_touched-Scanned k [] s s' v e = ground (arith, e)
  scan_touched-Scanned k (p ∷ ps) s s' v e =
      after_path k p ps s s' (scan_path env p s) (λ t w q. scan_touched-Scanned k ps t s' w q) v
        refl e
