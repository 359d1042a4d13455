-- ===== src/Planner/Scan.antt =====
-- How the planner finds the changed and the deleted files, `plan` of
-- crates/cognis-indexer/src/planner.rs up to the dependents. The file table is an ordered map.
use Prim.Native.String.{String}
use text.Mathlib.Text.{◌==◌ as str_eq}
use cognis.Base.{
  Bool, true, false, ◌||◌, ◌&&◌, not, List, [], ◌∷◌, Option, none, some, if◌then◌else◌,
}
use cognis.BtreeMap.{KeyOrd, contains_key, get, insert, has, add}
use cognis.Sqlite.{Result, ok, err}
use cognis.Watcher.{PlanRequest, touched, reconcile, full}
use cognis.Publish.{ParseStatus, parsed, FileCacheRow, none_in}
use cognis.Publish.Apply.{add_all}

-- The columns that the planner reads.
pub record CachedFile : Type 0 where
  pub content_hash : String
  pub parse_status : ParseStatus

pub record PlannedFile (K S : Type 0) : Type 0 where
  pub row : FileCacheRow K
  pub symbols : List S
  pub old_symbols : List S

-- What the planner reads: the tree, the bytes of a file, the tables, and the parser.
pub record Env (K S B : Type 0) : Type 0 where
  pub is_admitted : K → Bool
  pub admitted_rel_paths : List K
  pub read_exact_bytes : K → Option B
  pub exact_byte_hash : B → String
  pub is_blank_text : B → Bool
  pub file_table : List (K × CachedFile)
  pub refuses_file : K → Option String
  pub refuses_table : Option String
  pub symbols_in_file : K → Result (List S)
  pub parse_file : K → B → String → List S → Result (PlannedFile K S)

pub record Scan (K : Type 0) : Type 0 where
  pub cache : List (K × CachedFile)
  pub candidates : List K
  pub deleted : List K

pub record Found (K S : Type 0) : Type 0 where
  pub changed : List (K × PlannedFile K S)
  pub deleted : List K

-- The `?` operator.
infixl 5 ◌>>=◌
abbrev pub ◌>>=◌ : {A B : Type 0} → Result A → (A → Result B) → Result B
ok a >>= f = f a
err m >>= f = err m

abbrev pub is_ok_status : ParseStatus → Bool
is_ok_status parsed = true
is_ok_status ParseStatus.partial = false
is_ok_status ParseStatus.failed = false

module _ {K S B : Type 0} ⦃o : KeyOrd K⦄ (env : Env K S B) where
  unfoldable pub read_cached_file : K → Result (Option CachedFile)
  read_cached_file p = elim (env.refuses_file p) [
    | some m ↦ err m
    | none ↦ ok (get p env.file_table)
  ]

  unfoldable pub read_file_cache : Result (List (K × CachedFile))
  read_file_cache = elim env.refuses_table [ some m ↦ err m | none ↦ ok env.file_table ]

  abbrev pub with_row : K → Option CachedFile → List (K × CachedFile) → List (K × CachedFile)
  with_row p none cache = cache
  with_row p (some row) cache = insert p row cache

  abbrev pub place_path : K → List (K × CachedFile) → Scan K → Scan K
  place_path p cache s =
      if env.is_admitted p
      then record s { cache = cache; candidates = add p s.candidates }
      else if contains_key p cache
      then record s { cache = cache; deleted = add p s.deleted }
      else record s { cache = cache }

  -- A touched path, where it lies below the root.
  unfoldable pub scan_path : Option K → Scan K → Result (Scan K)
  unfolding read_cached_file
  scan_path none s = ok s
  scan_path (some p) s = do row ← read_cached_file p; ok (place_path p (with_row p row s.cache) s)

  unfoldable pub scan_touched : List (Option K) → Scan K → Result (Scan K)
  unfolding scan_path
  scan_touched [] s = ok s
  scan_touched (p ∷ ps) s = do s' ← scan_path p s; scan_touched ps s'

  unfoldable pub not_admitted : List K → List (K × CachedFile) → List K
  not_admitted admitted [] = []
  not_admitted admitted ((p, row) ∷ cache) =
      let rest = not_admitted admitted cache in if has p admitted then rest else add p rest

  unfoldable pub scan_tree : Result (Scan K)
  unfolding read_file_cache not_admitted
  scan_tree = do
    cache ← read_file_cache
    let admitted = add_all env.admitted_rel_paths []
    ok (record { cache = cache; candidates = admitted; deleted = not_admitted admitted cache })

  abbrev pub row_matches : Option CachedFile → String → Bool → Bool
  row_matches none hash symbol_state_ok = false
  row_matches (some row) hash symbol_state_ok =
      str_eq row.content_hash hash && is_ok_status row.parse_status && symbol_state_ok

  abbrev pub is_unchanged : Bool → Option CachedFile → B → List S → Bool
  is_unchanged is_full row bytes old_symbols =
      not is_full
      && row_matches row (env.exact_byte_hash bytes)
          (not (none_in old_symbols) || env.is_blank_text bytes)

  abbrev pub with_symbols :
      Bool → List (K × CachedFile) → K → Found K S → B → List S → Result (Found K S)
  with_symbols is_full cache p f bytes old_symbols =
      if is_unchanged is_full (get p cache) bytes old_symbols then ok f else (do
        file ← env.parse_file p bytes (env.exact_byte_hash bytes) old_symbols
        ok (record f { changed = insert p file f.changed }))

  -- A candidate with what was read of it: unreadable, unchanged, or to be parsed again.
  abbrev pub with_bytes :
      Bool → List (K × CachedFile) → K → Found K S → Option B → Result (Found K S)
  with_bytes is_full cache p f none =
      ok (if contains_key p cache then record f { deleted = add p f.deleted } else f)
  with_bytes is_full cache p f (some bytes) = do
    old_symbols ← env.symbols_in_file p
    with_symbols is_full cache p f bytes old_symbols

  unfoldable pub inspect : Bool → List (K × CachedFile) → K → Found K S → Result (Found K S)
  inspect is_full cache p f = with_bytes is_full cache p f (env.read_exact_bytes p)

  unfoldable pub inspect_all :
      Bool → List (K × CachedFile) → List K → Found K S → Result (Found K S)
  unfolding inspect
  inspect_all is_full cache [] f = ok f
  inspect_all is_full cache (p ∷ ps) f = do
    f' ← inspect is_full cache p f
    inspect_all is_full cache ps f'

  abbrev pub is_full_request : PlanRequest (Option K) → Bool
  is_full_request (touched ps) = false
  is_full_request reconcile = false
  is_full_request full = true

  abbrev pub scan : PlanRequest (Option K) → Result (Scan K)
  scan (touched ps) = scan_touched ps (record { cache = []; candidates = []; deleted = [] })
  scan reconcile = scan_tree
  scan full = scan_tree

  unfoldable pub detect : PlanRequest (Option K) → Result (Found K S)
  unfolding scan_touched scan_tree inspect_all
  detect request = do
    s ← scan request
    inspect_all (is_full_request request) s.cache s.candidates
        (record { changed = []; deleted = s.deleted })
