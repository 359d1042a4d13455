-- ===== src/Planner/Agreement.antt =====
-- The files that each kind of request finds, and that the kinds agree.
use cognis.Base.{
  ◌≡◌, inl, refl, sym, ap, ◌∙◌, Bool, true, false, ◌||◌, ◌&&◌, not, List, [], Option, none, some,
  if◌then◌else◌, arith,
}
use cognis.BtreeMap.{KeyOrd, get, keys, IsSorted}
use cognis.Table.{has_key}
use cognis.Sqlite.{ok}
use cognis.Watcher.{touched, reconcile, full}
use cognis.Publish.Apply.{contains}
use cognis.Planner.Scan.{CachedFile, Env, Scan, Found, scan_touched, scan_tree}
use cognis.Planner.Scan.{is_ok_status, detect}
use cognis.Planner.Detection.{bytes_differ, symbols_differ, is_some, differs, vanished}
use cognis.Planner.Scanned.{among, scan_touched-Scanned}
use cognis.Planner.Walked.{is_changed, is_deleted, after_scan, tree_scan, walked}

both_changed :
    (a adm d d' cand res : Bool)
    → (a ≡ true → d ≡ d')
    → cand ≡ ((a && adm) || false)
    → res ≡ ((cand && d) || false)
    → res ≡ (a && (adm && d'))
both_changed a adm d d' cand res h p q = ground (arith, h, p, q)

both_deleted :
    (a adm r v v' cand del res : Bool)
    → (a ≡ true → v ≡ v')
    → cand ≡ ((a && adm) || false)
    → del ≡ ((a && (not adm && r)) || false)
    → res ≡ ((cand && v) || del)
    → res ≡ (a && ((not adm && r) || (adm && v')))
both_deleted a adm r v v' cand del res h p q t = ground (arith, h, p, q, t)

module _ {K S B : Type 0} ⦃o : KeyOrd K⦄ (env : Env K S B) where
  -- The planner finds a touched path changed exactly where it is admitted, readable and not the file
  -- of its row, and deleted exactly where it has a row and is not admitted or not readable. A path
  -- that is not touched is found neither way.
  pub detect-touched :
      (ps : List (Option K)) (g : Found K S) (k : K)
      → detect env (touched ps) ≡ ok g
      → (has_key k g.changed ≡ (among env k ps && is_changed env false (env.is_admitted k) k))
        × (contains k g.deleted ≡ (among env k ps && is_deleted env (env.is_admitted k) k))
  unfolding detect has_key contains get
  detect-touched ps g k e =
      let s₀ : Scan K = record { cache = []; candidates = []; deleted = [] } in
      let (s, q, h) = after_scan env (touched ps) g (scan_touched env ps s₀) e in
      let (row, cand, del) = scan_touched-Scanned env k ps s₀ s (λ j. inl refl) q in
      let (c, d) = h k in
      let same =
        λ (t : among env k ps ≡ true). row ∙ ap (λ b. if b then get k env.file_table else none) t in
      (
        both_changed (among env k ps) (env.is_admitted k) (differs env false (get k s.cache) k)
            (differs env false (get k env.file_table) k) (contains k s.candidates)
            (has_key k g.changed) (λ t. ap (λ x. differs env false x k) (same t)) cand c,
        both_deleted (among env k ps) (env.is_admitted k) (is_some (get k env.file_table))
            (vanished env (get k s.cache) k) (vanished env (get k env.file_table) k)
            (contains k s.candidates) (contains k s.deleted) (contains k g.deleted)
            (λ t. ap (λ x. vanished env x k) (same t)) cand del d,
      )

  -- Where the file table is ordered by its paths, a reconciliation finds a path changed exactly where the walk finds it, it is
  -- readable and it is not the file of its row, and deleted exactly where it has a row and the walk
  -- does not find it or it is not readable.
  pub detect-reconcile :
      (g : Found K S) (k : K)
      → IsSorted (keys env.file_table)
      → detect env reconcile ≡ ok g
      → (has_key k g.changed ≡ is_changed env false (contains k env.admitted_rel_paths) k)
        × (contains k g.deleted ≡ is_deleted env (contains k env.admitted_rel_paths) k)
  unfolding detect
  detect-reconcile g k sorted e =
      let (s, q, h) = after_scan env reconcile g (scan_tree env) e in
      walked env false s g k sorted (tree_scan env s q) (h k)

  -- A full pass finds every path that the walk finds and that can be read, whatever its row says, and
  -- the deleted paths of a reconciliation.
  pub detect-full :
      (g : Found K S) (k : K)
      → IsSorted (keys env.file_table)
      → detect env full ≡ ok g
      → (has_key k g.changed ≡ is_changed env true (contains k env.admitted_rel_paths) k)
        × (contains k g.deleted ≡ is_deleted env (contains k env.admitted_rel_paths) k)
  unfolding detect
  detect-full g k sorted e =
      let (s, q, h) = after_scan env full g (scan_tree env) e in
      walked env true s g k sorted (tree_scan env s q) (h k)

  -- For a touched path on which the test of the path and the walk agree, the planner finds the same
  -- as a reconciliation of the whole tree does, changed or deleted or neither, where both succeed and
  -- the file table is ordered by its paths.
  pub detect-agrees :
      (ps : List (Option K)) (g h : Found K S) (k : K)
      → IsSorted (keys env.file_table)
      → among env k ps ≡ true
      → env.is_admitted k ≡ contains k env.admitted_rel_paths
      → detect env (touched ps) ≡ ok g
      → detect env reconcile ≡ ok h
      → (has_key k g.changed ≡ has_key k h.changed) × (contains k g.deleted ≡ contains k h.deleted)
  detect-agrees ps g h k sorted t a e q =
      let (c, d) = detect-touched ps g k e in
      let (c', d') = detect-reconcile h k sorted q in
      (
        c
            ∙ ap (λ b. b && is_changed env false (env.is_admitted k) k) t
            ∙ ap (λ b. is_changed env false b k) a
            ∙ sym c',
        d
            ∙ ap (λ b. b && is_deleted env (env.is_admitted k) k) t
            ∙ ap (λ b. is_deleted env b k) a
            ∙ sym d',
      )

  -- Where the file table is ordered by its paths, a reconciliation takes up again a file that the walk
  -- finds and that can be read, as can its old symbols, if its row does not record a parse that went
  -- well, even where the bytes are still those of the row.
  pub detect-retries :
      (g : Found K S) (k : K) (row : CachedFile) (bytes : B) (old : List S)
      → IsSorted (keys env.file_table)
      → get k env.file_table ≡ some row
      → is_ok_status row.parse_status ≡ false
      → env.read_exact_bytes k ≡ some bytes
      → env.symbols_in_file k ≡ ok old
      → contains k env.admitted_rel_paths ≡ true
      → detect env reconcile ≡ ok g
      → has_key k g.changed ≡ true
  detect-retries g k row bytes old sorted t status b o a e =
      (detect-reconcile g k sorted e).0
      ∙ ap (λ f. is_changed env false f k) a
      ∙ ap (λ r. differs env false r k) t
      ∙ ap (λ x. bytes_differ env false (some row) k x) b
      ∙ ap (λ x. symbols_differ env false (some row) bytes x) o
      ∙ ground (arith, status)
