-- ===== src/Planner.antt =====
-- The admission of files and the walk of the tree, crates/cognis-indexer/src/pipeline.rs and
-- crates/cognis-indexer/src/planner.rs. A path is the list of its components below the root.
pub mod Lookup
pub mod Admission
pub mod Scan
pub mod Detection
pub mod Scanned
pub mod Walked
pub mod Agreement
pub mod Parsing
pub mod Batch
pub mod Stale
pub mod Applied
mod Tests
mod BatchTests
use cognis.Base.{Bool, true, false, ◌||◌, ◌&&◌, not, List, [], ◌∷◌, ◌++◌, map, if◌then◌else◌}
use cognis.BtreeMap.{KeyOrd}

-- What `read_dir` and `file_type` tell of the tree, where they fail on no entry of a directory that
-- can be listed, and what a lookup of a path finds in it. `other` is a socket, a device or a link to no
-- directory; `dir` is a directory that can be listed, with whether it can be searched; `unlisted` is a
-- link to a directory, or a directory that cannot be listed, with the test which paths below it a
-- lookup finds as regular files.
mutual
  pub data Node (N : Type 0) : Type 0 where
    file other : Node N
    dir : Bool → Entries N → Node N
    unlisted : (List N → Bool) → Node N

  pub data Entries (N : Type 0) : Type 0 where
    done : Entries N
    entry : N → Node N → Entries N → Entries N

-- The configuration: the names that are ignored, with `.cognis` and `.git`, and the two tests on a path.
pub record Config (N : Type 0) : Type 0 where
  pub ignored : List N
  pub detect_language : List N → Bool
  pub artifacts_enabled : Bool
  pub detect_artifact : List N → Bool

abbrev pub is_wanted : {N : Type 0} → Config N → List N → Bool
is_wanted config path =
    config.detect_language path || (config.artifacts_enabled && config.detect_artifact path)

-- The configuration below a directory: a test on a path is the test on the joined path.
abbrev pub below : {N : Type 0} → N → Config N → Config N
below n config = record config {
  detect_language = λ p. config.detect_language (n ∷ p);
  detect_artifact = λ p. config.detect_artifact (n ∷ p);
}

module _ {N : Type 0} ⦃o : KeyOrd N⦄ where
  unfoldable pub is_ignored : N → List N → Bool
  is_ignored n [] = false
  is_ignored n (m ∷ ms) = o.eq n m || is_ignored n ms

  -- A directory that is ignored is not entered; of a file only the kind is tested. A link is no directory
  -- to `file_type`, and of a directory that cannot be listed nothing is taken.
  unfoldable pub walk_dir : Config N → Entries N → List (List N)
  unfolding is_ignored
  walk_dir config done = []
  walk_dir config (entry n file rest) =
      let after = walk_dir config rest in
      if is_wanted config (n ∷ []) then (n ∷ []) ∷ after else after
  walk_dir config (entry n other rest) = walk_dir config rest
  walk_dir config (entry n (unlisted below_it) rest) = walk_dir config rest
  walk_dir config (entry n (dir searchable entries) rest) =
      let within = walk_dir (below n config) entries in
      let after = walk_dir config rest in
      if is_ignored n config.ignored then after else map (λ p. n ∷ p) within ++ after

  unfoldable pub any_ignored : List N → List N → Bool
  unfolding is_ignored
  any_ignored ignored [] = false
  any_ignored ignored (n ∷ p) = is_ignored n ignored || any_ignored ignored p

  -- `symlink_metadata(path).is_ok_and(is_file)`: the last component is not followed if it is a link,
  -- those before it are, and need only be searched.
  unfoldable pub is_file : List N → Entries N → Bool
  is_file p done = false
  is_file [] (entry m node rest) = false
  is_file (n ∷ []) (entry m file rest) = o.eq n m || is_file (n ∷ []) rest
  is_file (n ∷ []) (entry m other rest) = is_file (n ∷ []) rest
  is_file (n ∷ []) (entry m (dir searchable es) rest) = is_file (n ∷ []) rest
  is_file (n ∷ []) (entry m (unlisted below_it) rest) = is_file (n ∷ []) rest
  is_file (n ∷ k ∷ p) (entry m file rest) = is_file (n ∷ k ∷ p) rest
  is_file (n ∷ k ∷ p) (entry m other rest) = is_file (n ∷ k ∷ p) rest
  is_file (n ∷ k ∷ p) (entry m (dir searchable es) rest) =
      (o.eq n m && searchable && is_file (k ∷ p) es) || is_file (n ∷ k ∷ p) rest
  is_file (n ∷ k ∷ p) (entry m (unlisted below_it) rest) =
      (o.eq n m && below_it (k ∷ p)) || is_file (n ∷ k ∷ p) rest

  unfoldable pub is_admitted : Config N → Entries N → List N → Bool
  unfolding is_file any_ignored
  is_admitted config tree path =
      is_file path tree && not (any_ignored config.ignored path) && is_wanted config path
