-- ===== src/Push/Entries.antt =====
-- The sparse vectors that `approximate_ppr_push` returns, crates/cognis-csar/src/push.rs.
use cognis.Base.{
  ℕ, zero, suc, ◌+◌, ◌^◌, ◌≡◌, ◌<◌, ◌≤◌, refl, sym, ap, ◌∙◌, inl, inr, List, [], ◌∷◌, arith, length,
  if◌then◌else◌, ◌==◌, get_or, Bool-cases, ℤ, as_i32,
}
use cognis.Scalars.{Scalars}
use cognis.Graph.Indices.{i32_order, as_i32_small}
use cognis.Graph.Rows.{shares}
use cognis.Push.{nonzero_entries}
use cognis.Push.Exact.{IsExact, total}

-- The value of a node in a result, 0.0 where it has none.
module _ {S : Type 0} (f : Scalars S) where
  abbrev pub value_at : ℤ → List (ℤ × S) → S
  value_at u [] = f.zero
  value_at u ((v, x) ∷ m) = if i32_order.eq u v then x else value_at u m

  as_i32_apart : (a b : ℕ) → a < 2 ^ 31 → b < 2 ^ 31 → i32_order.eq (as_i32 a) (as_i32 b) ≡ (a == b)
  as_i32_apart a b h k = rw (as_i32_small a h, as_i32_small b k)

  value_at-after :
      (u i : ℕ) (xs : List S)
      → u < i
      → i + length xs ≤ 2 ^ 31
      → value_at (as_i32 u) (nonzero_entries f i xs) ≡ f.zero
  unfolding nonzero_entries
  value_at-after u i [] h bound = refl
  value_at-after u i (x ∷ xs) h bound = ground (
    arith,
    value_at-after u (suc i) xs (omega arith) (omega arith),
    as_i32_apart u i (omega arith) (omega arith),
  )

  -- The entry of a node is the vector's, but for what counts as 0.0.
  pub value_at-nonzero_entries :
      (u i : ℕ) (xs : List S)
      → u < length xs
      → i + length xs ≤ 2 ^ 31
      → value_at (as_i32 (i + u)) (nonzero_entries f i xs)
        ≡ (if f.is_nonzero (get_or f.zero xs u) then get_or f.zero xs u else f.zero)
  unfolding nonzero_entries
  value_at-nonzero_entries u i [] h bound = absurd (omega arith)
  value_at-nonzero_entries zero i (x ∷ xs) h bound = ground (
    arith,
    value_at-after i (suc i) xs (omega arith) (omega arith),
    as_i32_apart i i (omega arith) (omega arith),
  )
  value_at-nonzero_entries (suc u) i (x ∷ xs) h bound =
      let e : i + suc u ≡ suc i + u = omega arith in
      ground (
        arith,
        e,
        value_at-nonzero_entries u (suc i) xs (omega arith) (omega arith),
        as_i32_apart (i + suc u) i (omega arith) (omega arith),
      )

  pub total-nonzero_entries :
      IsExact f → (i : ℕ) (xs : List S) → total f (shares (nonzero_entries f i xs)) ≡ total f xs
  unfolding nonzero_entries
  total-nonzero_entries exact i [] = refl
  total-nonzero_entries exact i (x ∷ xs) = elim (Bool-cases (f.is_nonzero x)) [
    | inl some_mass ↦ rw some_mass (ap (f.add x) (total-nonzero_entries exact (suc i) xs))
    | inr no_mass ↦
        rw (no_mass, exact.zero_of_not_nonzero x no_mass)
          (total-nonzero_entries exact (suc i) xs ∙ sym (exact.zero_add (total f xs)))
  ]
