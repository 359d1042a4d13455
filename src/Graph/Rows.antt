-- ===== src/Graph/Rows.antt =====
-- What the loops of `CodeGraph::from_weighted_triples` write, row by row,
-- crates/cognis-core/src/graph.rs.
use cognis.Base.{
  ℕ, zero, suc, ◌+◌, ◌≡◌, ◌<◌, ◌≤◌, refl, ap, ◌∙◌, List, [], ◌∷◌, ◌++◌, map, some, arith, ℤ, as_i32,
  length, take, drop, get_elem?, get_or, length-append, length-map,
}
use mathlib.Core.List.{append_assoc, append-nil, map-append}
use native.Mathlib.Nat.{add-zero, add_assoc}
use cognis.Scalars.{Scalars}
use cognis.Graph.{Csr, push_all, push_row, push_rows}

module _ {S : Type 0} where
  abbrev pub ends : List (ℤ × S) → List ℤ
  ends = map (λ e. e.0)

  abbrev pub shares : List (ℤ × S) → List S
  shares = map (λ e. e.1)

module _ {S : Type 0} (f : Scalars S) where
  -- The sum of a loop that starts at `d`.
  abbrev pub sum_from : S → List (ℤ × S) → S
  sum_from d [] = d
  sum_from d ((v, w) ∷ row) = sum_from (f.add d w) row

  -- The row as it is stored.
  abbrev pub closed : ℕ → List (ℤ × S) → List (ℤ × S)
  closed u [] = (as_i32 u, f.one) ∷ []
  closed u (e ∷ row) = e ∷ row

  abbrev pub degree_of : List (ℤ × S) → S
  degree_of [] = f.one
  degree_of (e ∷ row) = sum_from f.zero (e ∷ row)

  abbrev pub entries : ℕ → List (List (ℤ × S)) → List (ℤ × S)
  entries u [] = []
  entries u (row ∷ rows) = closed u row ++ entries (suc u) rows

  abbrev pub pointers : ℕ → ℕ → List (List (ℤ × S)) → List ℤ
  pointers b u [] = []
  pointers b u (row ∷ rows) =
      as_i32 (b + length (closed u row)) ∷ pointers (b + length (closed u row)) (suc u) rows

  push_all_lem :
      (row : List (ℤ × S)) (d : S) (c : Csr S)
      → push_all f row d c ≡ (
        sum_from d row,
        record c { indices = c.indices ++ ends row; weights = c.weights ++ shares row },
      )
  push_all_lem [] d c = simp (append-nil)
  push_all_lem ((v, w) ∷ row) d c = push_all_lem row (f.add d w) _ ∙ simp append_assoc

  push_row_lem :
      (u : ℕ) (row : List (ℤ × S)) (c : Csr S)
      → push_row f u row c ≡ record c {
        indices = c.indices ++ ends (closed u row);
        weights = c.weights ++ shares (closed u row);
        degree = c.degree ++ degree_of row ∷ [];
      }
  unfolding push_row
  push_row_lem u [] c = refl
  push_row_lem u (e ∷ row) c = rw (push_all_lem (e ∷ row) f.zero c)

  pub push_rows_lem :
      (u : ℕ) (rows : List (List (ℤ × S))) (c : Csr S)
      → push_rows f u rows c ≡ record {
        indptr = c.indptr ++ pointers (length c.indices) u rows;
        indices = c.indices ++ ends (entries u rows);
        weights = c.weights ++ shares (entries u rows);
        degree = c.degree ++ map degree_of rows;
      }
  unfolding push_rows
  push_rows_lem u [] c = simp append-nil
  push_rows_lem u (row ∷ rows) c =
      push_rows_lem (suc u) rows _
      ∙ simp (push_row_lem u row c, append_assoc, map-append, length-append, length-map)

  pub length-entries-take :
      (b u k : ℕ) (rows : List (List (ℤ × S)))
      → k ≤ length rows
      → get_elem? (as_i32 b ∷ pointers b u rows) k
        ≡ some (as_i32 (b + length (entries u (take k rows))))
  length-entries-take b u zero rows h = rw (add-zero b)
  length-entries-take b u (suc k) [] h = absurd (omega arith)
  length-entries-take b u (suc k) (row ∷ rows) h =
      length-entries-take (b + length (closed u row)) (suc u) k rows (omega arith)
      ∙ rw (length-append (closed u row) (entries (suc u) (take k rows)), add_assoc b) refl

  pub entries-split :
      (u k : ℕ) (rows : List (List (ℤ × S)))
      → k < length rows
      → entries u rows
        ≡ entries u (take k rows)
          ++ (closed (u + k) (get_or [] rows k) ++ entries (suc (u + k)) (drop (suc k) rows))
  entries-split u k [] h = absurd (omega arith)
  entries-split u zero (row ∷ rows) h = rw (add-zero u)
  entries-split u (suc k) (row ∷ rows) h =
      let e : u + suc k ≡ suc u + k = omega arith in
      rw e (ap (closed u row ++◌) (entries-split (suc u) k rows (omega arith)) ∙ simp append_assoc)

  pub entries-take-suc :
      (u k : ℕ) (rows : List (List (ℤ × S)))
      → k < length rows
      → entries u (take (suc k) rows) ≡ entries u (take k rows) ++ closed (u + k) (get_or [] rows k)
  entries-take-suc u k [] h = absurd (omega arith)
  entries-take-suc u zero (row ∷ rows) h = rw (add-zero u, append-nil)
  entries-take-suc u (suc k) (row ∷ rows) h =
      let e : u + suc k ≡ suc u + k = omega arith in
      rw e
        (ap (closed u row ++◌) (entries-take-suc (suc u) k rows (omega arith)) ∙ simp append_assoc)
