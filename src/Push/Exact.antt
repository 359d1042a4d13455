-- ===== src/Push/Exact.antt =====
-- Arithmetic without rounding on the numbers that are not negative, in which push.rs states its bounds,
-- and sums of vectors in it.
use cognis.Base.{
  ℕ, zero, suc, ◌≡◌, ◌<◌, refl, sym, ap, ◌∙◌, true, false, List, [], ◌∷◌, arith, length, get_or,
  set, modify, replicate, ℤ,
}
use cognis.Scalars.{Scalars}
use cognis.Graph.Rows.{shares, sum_from}

pub record IsExact {S : Type 0} (f : Scalars S) : Type 0 where
  pub add_comm : (a b : S) → f.add a b ≡ f.add b a
  pub add_assoc : (a b c : S) → f.add (f.add a b) c ≡ f.add a (f.add b c)
  pub zero_add : (a : S) → f.add f.zero a ≡ a
  pub mul_comm : (a b : S) → f.mul a b ≡ f.mul b a
  pub mul_add : (m a b : S) → f.mul m (f.add a b) ≡ f.add (f.mul m a) (f.mul m b)
  pub one_mul : (a : S) → f.mul f.one a ≡ a
  pub mul_zero : (a : S) → f.mul a f.zero ≡ f.zero
  pub complement : (a : S) → f.le a f.one ≡ true → f.add a (f.sub f.one a) ≡ f.one
  pub div_add : (a b d : S) → f.div (f.add a b) d ≡ f.add (f.div a d) (f.div b d)
  pub zero_div : (d : S) → f.div f.zero d ≡ f.zero
  pub zero_of_not_nonzero : (a : S) → f.is_nonzero a ≡ false → a ≡ f.zero
  pub mul_div : (m d : S) → f.lt f.zero d ≡ true → f.div (f.mul m d) d ≡ m

pub record IsOrdered {S : Type 0} (f : Scalars S) : Type 0 where
  pub le_refl : (a : S) → f.le a a ≡ true
  pub le_trans : (a b c : S) → f.le a b ≡ true → f.le b c ≡ true → f.le a c ≡ true
  pub add_mono :
      (a b c d : S) → f.le a b ≡ true → f.le c d ≡ true → f.le (f.add a c) (f.add b d) ≡ true
  pub mul_mono : (m a b : S) → f.le a b ≡ true → f.le (f.mul m a) (f.mul m b) ≡ true
  pub zero_le : (a : S) → f.le f.zero a ≡ true
  pub le_of_not_lt : (a b : S) → f.lt a b ≡ false → f.le b a ≡ true

module _ {S : Type 0} (f : Scalars S) where
  abbrev pub total : List S → S
  total [] = f.zero
  total (x ∷ xs) = f.add x (total xs)

  module _ (exact : IsExact f) where
    swap_add : (a b c : S) → f.add a (f.add b c) ≡ f.add b (f.add a c)
    swap_add a b c =
        sym (exact.add_assoc a b c)
        ∙ ap (λ x. f.add x c) (exact.add_comm a b)
        ∙ exact.add_assoc b a c

    pub add-zero : (a : S) → f.add a f.zero ≡ a
    add-zero a = exact.add_comm a f.zero ∙ exact.zero_add a

    pub total-replicate : (k : ℕ) → total (replicate k f.zero) ≡ f.zero
    total-replicate zero = refl
    total-replicate (suc k) = exact.zero_add (total (replicate k f.zero)) ∙ total-replicate k

    pub total-modify :
        (c : S) (xs : List S) (i : ℕ)
        → i < length xs
        → total (modify (λ x. f.add x c) xs i) ≡ f.add (total xs) c
    total-modify c [] i h = absurd (omega arith)
    total-modify c (x ∷ xs) zero h =
        exact.add_assoc x c (total xs)
        ∙ ap (f.add x) (exact.add_comm c (total xs))
        ∙ sym (exact.add_assoc x (total xs) c)
    total-modify c (x ∷ xs) (suc i) h =
        ap (f.add x) (total-modify c xs i (omega arith)) ∙ sym (exact.add_assoc x (total xs) c)

    pub total-set :
        (xs : List S) (i : ℕ)
        → i < length xs
        → f.add (total (set xs i f.zero)) (get_or f.zero xs i) ≡ total xs
    total-set [] i h = absurd (omega arith)
    total-set (x ∷ xs) zero h =
        ap (λ y. f.add y x) (exact.zero_add (total xs)) ∙ exact.add_comm (total xs) x
    total-set (x ∷ xs) (suc i) h =
        exact.add_assoc x (total (set xs i f.zero)) (get_or f.zero xs i)
        ∙ ap (f.add x) (total-set xs i (omega arith))

    sum_from-total : (c : S) (row : List (ℤ × S)) → sum_from f c row ≡ f.add c (total (shares row))
    sum_from-total c [] = sym (add-zero c)
    sum_from-total c ((v, w) ∷ row) =
        sum_from-total (f.add c w) row ∙ exact.add_assoc c w (total (shares row))

    pub sum-total : (row : List (ℤ × S)) → sum_from f f.zero row ≡ total (shares row)
    sum-total row = sum_from-total f.zero row ∙ exact.zero_add (total (shares row))

    -- A part and its complement are the whole.
    pub add-mul-complement :
        (a r : S) → f.le a f.one ≡ true → f.add (f.mul a r) (f.mul (f.sub f.one a) r) ≡ r
    add-mul-complement a r h =
        ap (λ x. f.add x (f.mul (f.sub f.one a) r)) (exact.mul_comm a r)
        ∙ ap (f.add (f.mul r a)) (exact.mul_comm (f.sub f.one a) r)
        ∙ sym (exact.mul_add r a (f.sub f.one a))
        ∙ ap (f.mul r) (exact.complement a h)
        ∙ exact.mul_comm r f.one
        ∙ exact.one_mul r

    pub regroup : (e a x m : S) → f.add (f.add e a) (f.add x m) ≡ f.add e (f.add x (f.add a m))
    regroup e a x m = exact.add_assoc e a (f.add x m) ∙ ap (f.add e) (swap_add a x m)
