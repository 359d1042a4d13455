-- ===== src/Planner/Lookup.antt =====
-- What a lookup of a path finds, against what the listings of the directories show.
use cognis.Base.{◌≡◌, refl, ap, Bool, true, false, ◌||◌, ◌&&◌, not, List, [], ◌∷◌, arith}
use cognis.BtreeMap.{KeyOrd}
use cognis.Planner.{file, other, dir, unlisted, Entries, done, entry, is_file}

direct_dir :
    (e s d d' f l g r : Bool)
    → ((not e || (s && d)) && d') ≡ true
    → (d ≡ true → f ≡ l)
    → (d' ≡ true → g ≡ r)
    → ((e && s && f) || g) ≡ ((e && l) || r)
direct_dir true true d d' f l g r h q q' = ground (arith, h, q, q')
direct_dir true false d d' f l g r h q q' = ground (arith, h)
direct_dir false s d d' f l g r h q q' = q' h

direct_unlisted :
    (e f d g l : Bool) → (not e && d) ≡ true → (d ≡ true → g ≡ l) → ((e && f) || g) ≡ l
direct_unlisted true f d g l h q = ground (arith, h)
direct_unlisted false f d g l h q = q h

module _ {N : Type 0} ⦃o : KeyOrd N⦄ where
  -- A regular file that is reached by listing directories alone.
  abbrev pub is_listed : List N → Entries N → Bool
  is_listed p done = false
  is_listed [] (entry m node rest) = false
  is_listed (n ∷ []) (entry m file rest) = o.eq n m || is_listed (n ∷ []) rest
  is_listed (n ∷ []) (entry m other rest) = is_listed (n ∷ []) rest
  is_listed (n ∷ []) (entry m (dir s es) rest) = is_listed (n ∷ []) rest
  is_listed (n ∷ []) (entry m (unlisted f) rest) = is_listed (n ∷ []) rest
  is_listed (n ∷ k ∷ p) (entry m file rest) = is_listed (n ∷ k ∷ p) rest
  is_listed (n ∷ k ∷ p) (entry m other rest) = is_listed (n ∷ k ∷ p) rest
  is_listed (n ∷ k ∷ p) (entry m (dir s es) rest) =
      (o.eq n m && is_listed (k ∷ p) es) || is_listed (n ∷ k ∷ p) rest
  is_listed (n ∷ k ∷ p) (entry m (unlisted f) rest) = is_listed (n ∷ k ∷ p) rest

  -- What the tree has under the directories of a path can be listed and searched, and is no link.
  abbrev pub is_direct : List N → Entries N → Bool
  is_direct p done = true
  is_direct [] (entry m node rest) = true
  is_direct (n ∷ []) (entry m node rest) = true
  is_direct (n ∷ k ∷ p) (entry m file rest) = is_direct (n ∷ k ∷ p) rest
  is_direct (n ∷ k ∷ p) (entry m other rest) = is_direct (n ∷ k ∷ p) rest
  is_direct (n ∷ k ∷ p) (entry m (dir searchable es) rest) =
      (not (o.eq n m) || (searchable && is_direct (k ∷ p) es)) && is_direct (n ∷ k ∷ p) rest
  is_direct (n ∷ k ∷ p) (entry m (unlisted f) rest) = not (o.eq n m) && is_direct (n ∷ k ∷ p) rest

  -- At the last component a lookup sees what the listing shows.
  is_file-listed_last : (n : N) (es : Entries N) → is_file (n ∷ []) es ≡ is_listed (n ∷ []) es
  unfolding is_file
  is_file-listed_last n done = refl
  is_file-listed_last n (entry m file rest) = ap (λ t. o.eq n m || t) (is_file-listed_last n rest)
  is_file-listed_last n (entry m other rest) = is_file-listed_last n rest
  is_file-listed_last n (entry m (dir s es) rest) = is_file-listed_last n rest
  is_file-listed_last n (entry m (unlisted f) rest) = is_file-listed_last n rest

  -- Along such a path a lookup finds what the listings show.
  pub is_file-listed :
      (p : List N) (es : Entries N) → is_direct p es ≡ true → is_file p es ≡ is_listed p es
  unfolding is_file
  is_file-listed p done h = refl
  is_file-listed [] (entry m node rest) h = refl
  is_file-listed (n ∷ []) (entry m node rest) h = is_file-listed_last n (entry m node rest)
  is_file-listed (n ∷ k ∷ p) (entry m file rest) h = is_file-listed (n ∷ k ∷ p) rest h
  is_file-listed (n ∷ k ∷ p) (entry m other rest) h = is_file-listed (n ∷ k ∷ p) rest h
  is_file-listed (n ∷ k ∷ p) (entry m (dir s es) rest) h =
      direct_dir (o.eq n m) s (is_direct (k ∷ p) es) (is_direct (n ∷ k ∷ p) rest)
        (is_file (k ∷ p) es) (is_listed (k ∷ p) es) (is_file (n ∷ k ∷ p) rest)
        (is_listed (n ∷ k ∷ p) rest) h (is_file-listed (k ∷ p) es) (is_file-listed (n ∷ k ∷ p) rest)
  is_file-listed (n ∷ k ∷ p) (entry m (unlisted f) rest) h =
      direct_unlisted (o.eq n m) (f (k ∷ p)) (is_direct (n ∷ k ∷ p) rest) (is_file (n ∷ k ∷ p) rest)
        (is_listed (n ∷ k ∷ p) rest) h (is_file-listed (n ∷ k ∷ p) rest)
