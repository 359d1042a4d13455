-- ===== src/Graph/Weights.antt =====
-- The weights of a graph against the triples that it is built from,
-- `CodeGraph::from_weighted_triples` of crates/cognis-core/src/graph.rs.
use cognis.Base.{
  ℕ, ◌^◌, ◌≡◌, ◌<◌, ◌≤◌, refl, ◌∙◌, Bool, ◌&&◌, ◌||◌, inl, inr, List, [], ◌∷◌, Option, some,
  if◌then◌else◌, ◌==◌, arith, ℤ, pos, as_i32, length, get_or, modify, length-modify, get_or-modify,
  Bool-cases,
}
use cognis.BtreeMap.{get, insert, IsSorted}
use cognis.BtreeMap.Laws.{keys-insert, add-IsSorted, get-insert}
use cognis.Scalars.{Scalars}
use cognis.Graph.{n, or_insert, add_entry, is_skipped, add_triple, accumulate}
use cognis.Graph.Indices.{i32_order, as_i32_small}
use cognis.Graph.Rows.{ends}
use cognis.Graph.Neighbors.{length-add_triple}

as_i32_apart : (a b : ℕ) → a < 2 ^ 31 → b < 2 ^ 31 → i32_order.eq (as_i32 a) (as_i32 b) ≡ (a == b)
as_i32_apart a b h k = rw (as_i32_small a h, as_i32_small b k)

module _ {S : Type 0} where
  -- Every end is a node.
  abbrev pub Within : ℕ → List (ℤ × S) → Type 0
  Within n [] = Unit
  Within n ((v, w) ∷ row) = ((j : ℕ) × (v ≡ pos j) × (j < n)) × Within n row

-- The ends of a row are nodes, in ascending order.
pub record IsRow {S : Type 0} (n : ℕ) (row : List (ℤ × S)) : Type 0 where
  pub sorted : IsSorted (ends row)
  pub within : Within n row

module _ {S : Type 0} (f : Scalars S) where
  -- The weights that the triples give the pair of `u` and `v`, in their order.
  unfoldable pub matching : Bool → ℕ → ℕ → ℕ → List (ℕ × ℕ × S) → List S
  matching symmetrize n u v [] = []
  matching symmetrize n u v ((a, b, w) ∷ ts) =
      let rest = matching symmetrize n u v ts in
      if is_skipped f n (a, b, w)
      then rest
      else if (a == u && b == v) || (symmetrize && (b == u && a == v))
      then w ∷ rest
      else rest

  -- Their sum in that order.
  abbrev pub total_from : Option S → List S → Option S
  total_from o [] = o
  total_from o (w ∷ ws) = total_from (some (f.add (or_insert f o) w)) ws

  get-add_entry :
      (v j : ℕ) (w : S) (m : List (ℤ × S))
      → v < 2 ^ 31
      → j < 2 ^ 31
      → get (as_i32 j) (add_entry f v w m)
        ≡ (if j == v then some (f.add (or_insert f (get (as_i32 j) m)) w) else get (as_i32 j) m)
  unfolding add_entry
  get-add_entry v j w m hv hj =
      rw
        (
          get-insert (as_i32 v) (as_i32 j) (f.add (or_insert f (get (as_i32 v) m)) w) m,
          as_i32_apart j v hj hv,
        )
        (ground arith)

  module _ (s : Bool) (n u v : ℕ) (hu : u < n) (hv : v < n) (bound : n ≤ 2 ^ 31) where
    get-add_triple :
        (a b : ℕ) (w : S) (acc : List (List (ℤ × S)))
        → length acc ≡ n
        → get (as_i32 v) (get_or [] (add_triple f s n (a, b, w) acc) u)
          ≡ total_from (get (as_i32 v) (get_or [] acc u)) (matching s n u v ((a, b, w) ∷ []))
    unfolding add_triple matching
    get-add_triple a b w acc e = ground (
      arith,
      length-modify (add_entry f b w) acc a,
      get_or-modify [] (add_entry f b w) acc a u,
      get_or-modify [] (add_entry f a w) (modify (add_entry f b w) acc a) b u,
      get-add_entry b v w (get_or [] acc u),
      get-add_entry a v w (get_or [] acc u),
      get-add_entry a v w (get_or [] (modify (add_entry f b w) acc a) u),
    )

    matching-cons :
        (t : ℕ × ℕ × S) (ts : List (ℕ × ℕ × S)) (o : Option S)
        → total_from (total_from o (matching s n u v (t ∷ []))) (matching s n u v ts)
          ≡ total_from o (matching s n u v (t ∷ ts))
    unfolding matching
    matching-cons t ts o = ground arith

    pub get-accumulate :
        (ts : List (ℕ × ℕ × S)) (acc : List (List (ℤ × S)))
        → length acc ≡ n
        → get (as_i32 v) (get_or [] (accumulate f s n ts acc) u)
          ≡ total_from (get (as_i32 v) (get_or [] acc u)) (matching s n u v ts)
    unfolding accumulate
    get-accumulate [] acc e = unfold matching in refl
    get-accumulate (t ∷ ts) acc e =
        get-accumulate ts (add_triple f s n t acc) (length-add_triple f s n t acc ∙ e)
        ∙ rw (get-add_triple t.0 t.1 t.2 acc e)
            (matching-cons t ts (get (as_i32 v) (get_or [] acc u)))

  Within-insert :
      (n v : ℕ) (w : S) (row : List (ℤ × S))
      → v < n
      → Within n row
      → Within n (insert (pos v) w row)
  unfolding insert
  Within-insert n v w [] h t = ((v, refl, h), tt)
  Within-insert n v w ((j, x) ∷ row) h t =
      ground (arith, i32_order.eq_iff (pos v) j, Within-insert n v w row h)

  add_entry-IsRow :
      (n v : ℕ) (w : S) (row : List (ℤ × S))
      → v < n
      → n ≤ 2 ^ 31
      → IsRow n row
      → IsRow n (add_entry f v w row)
  unfolding add_entry
  add_entry-IsRow n v w row h bound r =
      let e : as_i32 v ≡ pos v = as_i32_small v (omega arith) in
      rw e (record {
        sorted =
            rw (keys-insert (pos v) (f.add (or_insert f (get (pos v) row)) w) row)
              (add-IsSorted (pos v) (ends row) r.sorted);
        within = Within-insert n v (f.add (or_insert f (get (pos v) row)) w) row h r.within;
      })

  module _ (s : Bool) (n : ℕ) (bound : n ≤ 2 ^ 31) where
    modify-IsRow :
        (a v : ℕ) (w : S) (acc : List (List (ℤ × S))) (u : ℕ)
        → length acc ≡ n
        → a < n
        → v < n
        → u < n
        → ((k : ℕ) → k < n → IsRow n (get_or [] acc k))
        → IsRow n (get_or [] (modify (add_entry f v w) acc a) u)
    modify-IsRow a v w acc u e ha hv hu r =
        rw (get_or-modify [] (add_entry f v w) acc a u (omega arith)) (elim (Bool-cases (a == u)) [
          | inl here ↦ rw here (add_entry-IsRow n v w (get_or [] acc u) hv bound (r u hu))
          | inr away ↦ rw away (r u hu)
        ])

    add_triple-IsRow :
        (a b : ℕ) (w : S) (acc : List (List (ℤ × S))) (u : ℕ)
        → length acc ≡ n
        → u < n
        → ((k : ℕ) → k < n → IsRow n (get_or [] acc k))
        → IsRow n (get_or [] (add_triple f s n (a, b, w) acc) u)
    unfolding add_triple
    add_triple-IsRow a b w acc u e h r = elim (Bool-cases (is_skipped f n (a, b, w))) [
      | inl skipped ↦ rw skipped (r u h)
      | inr kept ↦ elim (Bool-cases s) [
        | inl both ↦
            rw (kept, both)
              (modify-IsRow b a w (modify (add_entry f b w) acc a) u
                (length-modify (add_entry f b w) acc a ∙ e) (ground (arith, kept))
                (ground (arith, kept)) h
                (λ k hk.
                  modify-IsRow a b w acc k e (ground (arith, kept)) (ground (arith, kept)) hk r))
        | inr one ↦
            rw (kept, one)
              (modify-IsRow a b w acc u e (ground (arith, kept)) (ground (arith, kept)) h r)
      ]
    ]

    pub accumulate-IsRow :
        (ts : List (ℕ × ℕ × S)) (acc : List (List (ℤ × S)))
        → length acc ≡ n
        → ((k : ℕ) → k < n → IsRow n (get_or [] acc k))
        → (u : ℕ) → u < n
        → IsRow n (get_or [] (accumulate f s n ts acc) u)
    unfolding accumulate
    accumulate-IsRow [] acc e r u h = r u h
    accumulate-IsRow ((a, b, w) ∷ ts) acc e r u h =
        accumulate-IsRow ts (add_triple f s n (a, b, w) acc)
          (length-add_triple f s n (a, b, w) acc ∙ e) (λ k hk. add_triple-IsRow a b w acc k e hk r)
          u h
