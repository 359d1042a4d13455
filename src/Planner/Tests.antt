-- ===== src/Planner/Tests.antt =====
-- Tests of the planner with numbers for names, paths, bytes and symbols, and its theorems there.
use cognis.Base.{
  ℕ, ◌≡◌, refl, true, false, ◌&&◌, not, [], ◌∷◌, none, some, ◌==◌, leb, if◌then◌else◌,
}
use cognis.BtreeMap.{nat_order, contains_key, get, insert, has, add, keys, IsSorted}
use cognis.Table.{has_key}
use cognis.Sqlite.{ok}
use cognis.Watcher.{touched, reconcile, full}
use cognis.Publish.{parsed, partial, failed, none_in}
use cognis.Publish.Apply.{contains, add_all}
use cognis.Planner.{
  file, other, dir, unlisted, Entries, done, entry, Config, is_ignored, walk_dir, any_ignored,
  is_file, is_admitted,
}
use cognis.Planner.Admission.{member, ignored_name, file_name, member-walk_dir}
use cognis.Planner.Scan.{
  PlannedFile, Env, Found, read_cached_file, scan_path, scan_touched, not_admitted, scan_tree,
  read_file_cache, inspect, inspect_all, detect,
}
use cognis.Planner.Agreement.{detect-full, detect-agrees, detect-retries}
use cognis.Planner.Walked.{is_changed, is_deleted}
use cognis.Planner.Parsing.{Parsers, is_failed, parse_file, parse_file-failed}

-- The name 9 is ignored, and every file has a language.
abbrev config : Config ℕ
config = record {
  ignored = 9 ∷ [];
  detect_language = λ p. true;
  artifacts_enabled = false;
  detect_artifact = λ p. false;
}

abbrev tree : Entries ℕ
tree = entry 1 file (
    entry 9 (dir true (entry 2 file done)) (
      entry 3 (dir true (entry 9 file done)) (entry 4 other (entry 5 (unlisted (λ p. true)) done))))

walked_paths : walk_dir config tree ≡ (1 ∷ []) ∷ (3 ∷ 9 ∷ []) ∷ []
unfolding walk_dir is_ignored
walked_paths = refl

-- The walk finds the file with the ignored name, the test of the path does not admit it.
admitted_apart :
    (is_admitted config tree (3 ∷ 9 ∷ []) ≡ false)
    × (member (3 ∷ 9 ∷ []) (walk_dir config tree) ≡ true)
unfolding is_admitted is_file any_ignored is_ignored walk_dir
admitted_apart = (refl, refl)

-- A touched file behind a link is admitted, and the walk does not find it.
admitted_behind :
    (is_admitted config tree (5 ∷ 6 ∷ []) ≡ true)
    × (member (5 ∷ 6 ∷ []) (walk_dir config tree) ≡ false)
unfolding is_admitted is_file any_ignored is_ignored walk_dir
admitted_behind = (refl, refl)

member-walk_dir_example : is_admitted config tree (3 ∷ 9 ∷ []) ≡ (
    member (3 ∷ 9 ∷ []) (walk_dir config tree)
    && not (ignored_name config.ignored (file_name (3 ∷ 9 ∷ []))))
member-walk_dir_example = member-walk_dir config tree (3 ∷ 9 ∷ []) refl

abbrev parsers : Parsers ℕ ℕ ℕ ℕ ℕ
parsers = record {
  relativize = λ p. ok p;
  size = λ b. ok 10;
  unix_timestamp = ok 100;
  from_utf8 = λ b. if b == 2 then none else some b;
  detect_language = λ p. some "rust";
  detect_artifact = λ p. none;
  artifact_label = λ a. "yaml";
  parse_source = λ p t. record { language = none; status = parsed; symbols = t ∷ [] };
  extract_artifact = λ a p t. record { language = none; status = partial; symbols = [] };
  enrich = λ s. s;
}

abbrev planned_two : PlannedFile ℕ ℕ
planned_two = record {
  row = record {
    path = 2;
    language = "rust";
    size_bytes = 10;
    content_hash = "h";
    parsed_at = 100;
    parse_status = failed;
  };
  symbols = [];
  old_symbols = 7 ∷ [];
}

abbrev planned_one : PlannedFile ℕ ℕ
planned_one = record {
  row = record {
    path = 1;
    language = "rust";
    size_bytes = 10;
    content_hash = "h";
    parsed_at = 100;
    parse_status = parsed;
  };
  symbols = 1 ∷ [];
  old_symbols = 7 ∷ [];
}

unreadable_text :
    (planned_two.row.content_hash ≡ "h")
    × (planned_two.old_symbols ≡ 7 ∷ [])
    × ((if is_failed planned_two.row.parse_status then none_in planned_two.symbols else true)
        ≡ true)
unfolding parse_file
unreadable_text = parse_file-failed parsers 2 2 "h" (7 ∷ []) planned_two refl

-- Path 1 has changed, 3 cannot be read, 4 is no longer admitted, and 2 has not changed.
abbrev env : Env ℕ ℕ ℕ
env = record {
  is_admitted = λ p. leb p 3;
  admitted_rel_paths = 3 ∷ 1 ∷ 2 ∷ [];
  read_exact_bytes = λ p. if p == 3 then none else some p;
  exact_byte_hash = λ b. "h";
  is_blank_text = λ b. false;
  file_table =
      (1, record { content_hash = "g"; parse_status = parsed })
      ∷ (2, record { content_hash = "h"; parse_status = parsed })
      ∷ (3, record { content_hash = "h"; parse_status = parsed })
      ∷ (4, record { content_hash = "h"; parse_status = parsed })
      ∷ [];
  refuses_file = λ p. none;
  refuses_table = none;
  symbols_in_file = λ p. ok (7 ∷ []);
  parse_file = parse_file parsers;
}

abbrev found_touched : Found ℕ ℕ
found_touched = record { changed = (1, planned_one) ∷ []; deleted = 4 ∷ [] }

abbrev found_reconcile : Found ℕ ℕ
found_reconcile = record { changed = (1, planned_one) ∷ []; deleted = 3 ∷ 4 ∷ [] }

abbrev found_full : Found ℕ ℕ
found_full = record { changed = (1, planned_one) ∷ (2, planned_two) ∷ []; deleted = 3 ∷ 4 ∷ [] }

touched_run : detect env (touched (some 4 ∷ none ∷ some 1 ∷ [])) ≡ ok found_touched
unfolding detect scan_touched scan_path read_cached_file inspect_all inspect parse_file contains_key
    get insert add
touched_run = refl

reconcile_run : detect env reconcile ≡ ok found_reconcile
unfolding detect scan_tree read_file_cache not_admitted inspect_all inspect parse_file contains_key
    get insert add add_all has
reconcile_run = refl

full_run : detect env full ≡ ok found_full
unfolding detect scan_tree read_file_cache not_admitted inspect_all inspect parse_file contains_key
    get insert add add_all has
full_run = refl

table-IsSorted : IsSorted (keys env.file_table)
table-IsSorted = ((refl, (refl, (refl, tt))), ((refl, (refl, tt)), ((refl, tt), (tt, tt))))

full_found :
    (has_key 2 found_full.changed ≡ is_changed env true (contains 2 env.admitted_rel_paths) 2)
    × (contains 2 found_full.deleted ≡ is_deleted env (contains 2 env.admitted_rel_paths) 2)
full_found = detect-full env found_full 2 table-IsSorted full_run

detect-agrees_example :
    (has_key 4 found_touched.changed ≡ has_key 4 found_reconcile.changed)
    × (contains 4 found_touched.deleted ≡ contains 4 found_reconcile.deleted)
unfolding contains
detect-agrees_example =
    detect-agrees env (some 4 ∷ none ∷ some 1 ∷ []) found_touched found_reconcile 4 table-IsSorted
      refl refl touched_run reconcile_run

-- The row of path 2 records a failed parse of the bytes that are still there.
abbrev failed_env : Env ℕ ℕ ℕ
failed_env = record env {
  file_table = (2, record { content_hash = "h"; parse_status = failed }) ∷ [];
  admitted_rel_paths = 2 ∷ [];
}

abbrev found_again : Found ℕ ℕ
found_again = record { changed = (2, planned_two) ∷ []; deleted = [] }

again_run : detect failed_env reconcile ≡ ok found_again
unfolding detect scan_tree read_file_cache not_admitted inspect_all inspect parse_file contains_key
    get insert add add_all has
again_run = refl

row_of_two :
    (get 2 failed_env.file_table ≡ some (record { content_hash = "h"; parse_status = failed }))
    × (contains 2 failed_env.admitted_rel_paths ≡ true)
unfolding get contains
row_of_two = (refl, refl)

detect-retries_example : has_key 2 found_again.changed ≡ true
detect-retries_example =
    detect-retries failed_env found_again 2 (record { content_hash = "h"; parse_status = failed }) 2
      (7 ∷ []) (tt, tt) row_of_two.0 refl refl refl row_of_two.1 again_run
