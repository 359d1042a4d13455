-- ===== src/Planner/Admission.antt =====
-- The walk of the tree against the test of one path.
use cognis.Base.{
  ◌≡◌, refl, sym, ap, ◌∙◌, Bool, true, false, ◌||◌, ◌&&◌, not, List, [], ◌∷◌, ◌++◌, map, Option,
  none, some, if◌then◌else◌, arith,
}
use cognis.BtreeMap.{KeyOrd}
use cognis.Planner.Lookup.{is_listed, is_direct, is_file-listed}
use cognis.Planner.{
  file, other, dir, unlisted, Entries, done, entry, Config, is_wanted, below, is_ignored, walk_dir,
  any_ignored, is_admitted,
}

kept_file :
    (e f r w w' : Bool)
    → (e ≡ true → w ≡ w')
    → r ≡ (f && true && w)
    → ((w' && (e && true)) || r) ≡ ((e || f) && true && w)
kept_file e f r w w' h q = ground (arith, h, q)

apart :
    (f a j w i found : Bool)
    → a ≡ (j || i)
    → found ≡ (f && not j && w)
    → (f && not a && w) ≡ (found && not i)
apart f a j w i found h q = ground (arith, h, q)

kept_dir :
    (i i' e f g j w w' inner r : Bool)
    → (e ≡ true → (i' ≡ i) × (w ≡ w'))
    → inner ≡ (f && not j && w')
    → r ≡ (g && not (i' || j) && w)
    → ((not i && (e && inner)) || r) ≡ (((e && f) || g) && not (i' || j) && w)
kept_dir i i' e f g j w w' inner r h q q' = ground (arith, h, q, q')

module _ {N : Type 0} ⦃o : KeyOrd N⦄ where
  abbrev pub same_path : List N → List N → Bool
  same_path [] [] = true
  same_path [] (m ∷ q) = false
  same_path (n ∷ p) [] = false
  same_path (n ∷ p) (m ∷ q) = o.eq n m && same_path p q

  abbrev pub member : List N → List (List N) → Bool
  member p [] = false
  member p (q ∷ qs) = same_path p q || member p qs

  -- The directories of a path.
  abbrev pub parents : List N → List N
  parents [] = []
  parents (n ∷ []) = []
  parents (n ∷ k ∷ p) = n ∷ parents (k ∷ p)

  member-append :
      (p : List N) (qs rs : List (List N)) → member p (qs ++ rs) ≡ (member p qs || member p rs)
  member-append p [] rs = refl
  member-append p (q ∷ qs) rs = ground (arith, member-append p qs rs)

  member-map :
      (n m : N) (p : List N) (qs : List (List N))
      → member (n ∷ p) (map (λ q. m ∷ q) qs) ≡ (o.eq n m && member p qs)
  member-map n m p [] = ground arith
  member-map n m p (q ∷ qs) = ground (arith, member-map n m p qs)

  member-map_root : (m : N) (qs : List (List N)) → member [] (map (λ q. m ∷ q) qs) ≡ false
  member-map_root m [] = refl
  member-map_root m (q ∷ qs) = member-map_root m qs

  -- The walk finds no directory of the empty path.
  member-root : (config : Config N) (es : Entries N) → member [] (walk_dir config es) ≡ false
  unfolding walk_dir
  member-root config done = refl
  member-root config (entry n file rest) = ground (arith, member-root config rest)
  member-root config (entry n other rest) = member-root config rest
  member-root config (entry n (unlisted f) rest) = member-root config rest
  member-root config (entry n (dir s es) rest) = ground (
    arith,
    member-root config rest,
    member-map_root n (walk_dir (below n config) es),
    member-append [] (map (λ p. n ∷ p) (walk_dir (below n config) es)) (walk_dir config rest),
  )

  member-kept :
      (w : Bool) (p : List N) (n : N) (after : List (List N))
      → member p (if w then (n ∷ []) ∷ after else after)
        ≡ ((w && same_path p (n ∷ [])) || member p after)
  member-kept true p n after = refl
  member-kept false p n after = refl

  member-within :
      (i : Bool) (n m : N) (p : List N) (within after : List (List N))
      → member (n ∷ p) (if i then after else map (λ q. m ∷ q) within ++ after)
        ≡ ((not i && (o.eq n m && member p within)) || member (n ∷ p) after)
  member-within true n m p within after = refl
  member-within false n m p within after =
      member-append (n ∷ p) (map (λ q. m ∷ q) within) after
      ∙ ap (λ t. t || member (n ∷ p) after) (member-map n m p within)

  abbrev found_at : Config N → Entries N → List N → Bool
  found_at config es p =
      is_listed p es && not (any_ignored config.ignored (parents p)) && is_wanted config p

  no_root : (es : Entries N) → is_listed [] es ≡ false
  no_root done = refl
  no_root (entry n node rest) = refl

  walk-found :
      (config : Config N) (p : List N) (es : Entries N)
      → member p (walk_dir config es) ≡ found_at config es p
  unfolding walk_dir any_ignored
  walk-found config [] es =
      member-root config es ∙ sym (ap (λ t. t && true && is_wanted config []) (no_root es))
  walk-found config (n ∷ []) done = refl
  walk-found config (n ∷ []) (entry m file rest) =
      member-kept (is_wanted config (m ∷ [])) (n ∷ []) m (walk_dir config rest)
      ∙ kept_file (o.eq n m) (is_listed (n ∷ []) rest) (member (n ∷ []) (walk_dir config rest))
          (is_wanted config (n ∷ [])) (is_wanted config (m ∷ []))
          (λ t. ap (λ x. is_wanted config (x ∷ [])) ((o.eq_iff n m).0 t))
          (walk-found config (n ∷ []) rest)
  walk-found config (n ∷ []) (entry m other rest) = walk-found config (n ∷ []) rest
  walk-found config (n ∷ []) (entry m (unlisted f) rest) = walk-found config (n ∷ []) rest
  walk-found config (n ∷ []) (entry m (dir s es) rest) = ground (
    arith,
    walk-found config (n ∷ []) rest,
    member-append (n ∷ []) (map (λ p. m ∷ p) (walk_dir (below m config) es)) (walk_dir config rest),
    member-map n m [] (walk_dir (below m config) es),
    member-root (below m config) es,
  )
  walk-found config (n ∷ k ∷ p) done = refl
  walk-found config (n ∷ k ∷ p) (entry m file rest) =
      ground (arith, walk-found config (n ∷ k ∷ p) rest)
  walk-found config (n ∷ k ∷ p) (entry m other rest) = walk-found config (n ∷ k ∷ p) rest
  walk-found config (n ∷ k ∷ p) (entry m (unlisted f) rest) = walk-found config (n ∷ k ∷ p) rest
  walk-found config (n ∷ k ∷ p) (entry m (dir s es) rest) =
      member-within (is_ignored m config.ignored) n m (k ∷ p) (walk_dir (below m config) es)
        (walk_dir config rest)
      ∙ kept_dir (is_ignored m config.ignored) (is_ignored n config.ignored) (o.eq n m)
          (is_listed (k ∷ p) es) (is_listed (n ∷ k ∷ p) rest)
          (any_ignored config.ignored (parents (k ∷ p))) (is_wanted config (n ∷ k ∷ p))
          (is_wanted config (m ∷ k ∷ p)) (member (k ∷ p) (walk_dir (below m config) es))
          (member (n ∷ k ∷ p) (walk_dir config rest))
          (λ t.
            let q = (o.eq_iff n m).0 t in
            (ap (λ x. is_ignored x config.ignored) q, ap (λ x. is_wanted config (x ∷ k ∷ p)) q))
          (walk-found (below m config) (k ∷ p) es) (walk-found config (n ∷ k ∷ p) rest)

  abbrev pub file_name : List N → Option N
  file_name [] = none
  file_name (n ∷ []) = some n
  file_name (n ∷ k ∷ p) = file_name (k ∷ p)

  abbrev pub ignored_name : List N → Option N → Bool
  ignored_name ignored none = false
  ignored_name ignored (some n) = is_ignored n ignored

  any_ignored-parents :
      (ignored p : List N)
      → any_ignored ignored p
        ≡ (any_ignored ignored (parents p) || ignored_name ignored (file_name p))
  unfolding any_ignored
  any_ignored-parents ignored [] = refl
  any_ignored-parents ignored (n ∷ []) = ground arith
  any_ignored-parents ignored (n ∷ k ∷ p) = ground (arith, any_ignored-parents ignored (k ∷ p))

  -- Where the directories of a path, as far as the tree has them, can be listed and searched and are no
  -- links, the walk of the tree, which a full pass and a reconciliation take, finds the path exactly
  -- where the planner admits it when it is touched, except for a file whose own name is ignored: the
  -- test of a touched path looks at every component, the walk only at the directories.
  pub member-walk_dir :
      (config : Config N) (tree : Entries N) (path : List N)
      → is_direct path tree ≡ true
      → is_admitted config tree path
        ≡ (member path (walk_dir config tree) && not (ignored_name config.ignored (file_name path)))
  unfolding is_admitted
  member-walk_dir config tree path direct =
      ap (λ f. f && not (any_ignored config.ignored path) && is_wanted config path)
        (is_file-listed path tree direct)
      ∙ apart (is_listed path tree) (any_ignored config.ignored path)
          (any_ignored config.ignored (parents path)) (is_wanted config path)
          (ignored_name config.ignored (file_name path)) (member path (walk_dir config tree))
          (any_ignored-parents config.ignored path) (walk-found config path tree)
