-- ===== src/Sort.antt =====
-- Rust's stable `sort_by`, by insertion: `first x y` says that `cmp x y` is not `Greater`.
use cognis.Base.{Bool, List, [], ◌∷◌, if◌then◌else◌}

module _ {A : Type 0} (first : A → A → Bool) where
  unfoldable pub place : A → List A → List A
  place x [] = x ∷ []
  place x (y ∷ ys) = if first x y then x ∷ y ∷ ys else y ∷ place x ys

  unfoldable pub sort_by : List A → List A
  sort_by [] = []
  sort_by (x ∷ xs) = place x (sort_by xs)
