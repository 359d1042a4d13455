-- ===== src/Scalars/Laws.antt =====
-- The fractions keep the laws of arithmetic without rounding.
use mathlib.Core.Quot
use mathlib.Core.Quot.{Quot, Quot-set}
use mathlib.Core.Bool.{Bool-set}
use mathlib.Core.HLevel.{→_prop}
use cognis.Base.{
  ℕ, zero, suc, ◌+◌, ◌-◌, ◌*◌, ◌≡◌, ◌≤◌, refl, ap, ◌∙◌, true, false, not, ◌||◌, arith, leb→le,
  ltb→lt, ltb→le, le→leb,
}
use cognis.Scalars.Fractions.{
  Ratio, SameRatio, Fraction, fractions, lifted, mul_cancel, mul_mono, add_ratio, sub_ratio,
  mul_ratio, div_ratio, lt_ratio, le_ratio,
}
use cognis.Push.Exact.{IsExact, IsOrdered}

-- A law at ratios is one at fractions.
pub all1 :
    (P : Fraction → Type 0)
    → ((a : Fraction) → IsProp (P a))
    → ((x : Ratio) → P (Quot.mk x))
    → (a : Fraction) → P a
all1 P p h = Quot.ind p h

pub all2 :
    (P : Fraction → Fraction → Type 0)
    → ((a b : Fraction) → IsProp (P a b))
    → ((x y : Ratio) → P (Quot.mk x) (Quot.mk y))
    → (a b : Fraction) → P a b
all2 P p h a b =
    all1 (λ a. P a b) (λ a. p a b) (λ x. all1 (P (Quot.mk x)) (p (Quot.mk x)) (h x) b) a

all3 :
    (P : Fraction → Fraction → Fraction → Type 0)
    → ((a b c : Fraction) → IsProp (P a b c))
    → ((x y z : Ratio) → P (Quot.mk x) (Quot.mk y) (Quot.mk z))
    → (a b c : Fraction) → P a b c
all3 P p h a b c =
    all2 (λ a b. P a b c) (λ a b. p a b c)
      (λ x y. all1 (P (Quot.mk x) (Quot.mk y)) (p (Quot.mk x) (Quot.mk y)) (h x y) c) a b

-- The same ratio by a common factor of both parts.
scaled : (m : ℕ) (x y : Ratio) → y.0 ≡ x.0 * suc m → suc y.1 ≡ suc x.1 * suc m → SameRatio x y
scaled m (a, b) (c, d) p q = rw (p, q) (omega arith)

unscaled : (x y : Ratio) → x.0 ≡ y.0 → x.1 ≡ y.1 → SameRatio x y
unscaled (a, b) (c, d) p q = rw (p, q)

complement_sum : (a b t : ℕ) → a + t ≡ suc b → a * suc b + t * suc b ≡ suc b * suc b
complement_sum a b t e =
    let apart : a * suc b + t * suc b ≡ (a + t) * suc b = omega arith in
    apart ∙ ap (λ k. k * suc b) e

complement_ratio :
    (x : Ratio) → le_ratio x (1, 0) ≡ true → SameRatio (add_ratio x (sub_ratio (1, 0) x)) (1, 0)
complement_ratio (a, b) h =
    let small : a ≤ suc b = omega (arith, leb→le (a * 1) (1 * suc b) h) in
    let rest : 1 * suc b - a * 1 ≡ suc b - a = omega arith in
    let square : suc b * suc b ≡ suc (b * b + b + b) = omega arith in
    rw rest (omega (arith, complement_sum a b (suc b - a) (omega (arith, small)), square))

mul_div_ratio : (x y : Ratio) → lt_ratio (0, 0) y ≡ true → SameRatio (div_ratio (mul_ratio x y) y) x
mul_div_ratio (a, b) (zero, d) h = absurd (omega (arith, ltb→lt (0 * suc d) (0 * 1) h))
mul_div_ratio (a, b) (suc c, d) h = omega arith

mul_add_ratio :
    (x y z : Ratio)
    → SameRatio (mul_ratio x (add_ratio y z)) (add_ratio (mul_ratio x y) (mul_ratio x z))
mul_add_ratio (a, b) (c, d) (e, f) =
    scaled b (mul_ratio (a, b) (add_ratio (c, d) (e, f)))
      (add_ratio (mul_ratio (a, b) (c, d)) (mul_ratio (a, b) (e, f))) (omega arith) (omega arith)

div_add_ratio :
    (x y z : Ratio)
    → SameRatio (div_ratio (add_ratio x y) z) (add_ratio (div_ratio x z) (div_ratio y z))
div_add_ratio (a, b) (c, d) (zero, f) = refl
div_add_ratio (a, b) (c, d) (suc e, f) =
    scaled e (div_ratio (add_ratio (a, b) (c, d)) (suc e, f))
      (add_ratio (div_ratio (a, b) (suc e, f)) (div_ratio (c, d) (suc e, f))) (omega arith)
      (omega arith)

zero_div_ratio : (x : Ratio) → SameRatio (div_ratio (0, 0) x) (0, 0)
zero_div_ratio (zero, b) = refl
zero_div_ratio (suc a, b) = omega arith

zero_ratio : (x : Ratio) → lt_ratio (0, 0) x ≡ false → SameRatio x (0, 0)
zero_ratio (a, b) h = omega (arith, ltb→le (0 * suc b) (a * 1) h)

pub fractions-IsExact : IsExact fractions
unfolding lifted
fractions-IsExact = record {
  add_comm =
      all2 (λ a b. fractions.add a b ≡ fractions.add b a) (λ a b. Quot-set _ _)
        (λ x y. Quot.sound (omega arith));
  add_assoc =
      all3 (λ a b c. fractions.add (fractions.add a b) c ≡ fractions.add a (fractions.add b c))
        (λ a b c. Quot-set _ _)
        (λ x y z. Quot.sound (
          unscaled (add_ratio (add_ratio x y) z) (add_ratio x (add_ratio y z)) (omega arith)
            (omega arith)));
  zero_add =
      all1 (λ a. fractions.add fractions.zero a ≡ a) (λ a. Quot-set _ _)
        (λ x. Quot.sound (omega arith));
  mul_comm =
      all2 (λ a b. fractions.mul a b ≡ fractions.mul b a) (λ a b. Quot-set _ _)
        (λ x y. Quot.sound (omega arith));
  mul_add =
      all3
        (λ m a b.
          fractions.mul m (fractions.add a b)
          ≡ fractions.add (fractions.mul m a) (fractions.mul m b))
        (λ a b c. Quot-set _ _) (λ x y z. Quot.sound (mul_add_ratio x y z));
  one_mul =
      all1 (λ a. fractions.mul fractions.one a ≡ a) (λ a. Quot-set _ _)
        (λ x. Quot.sound (omega arith));
  mul_zero =
      all1 (λ a. fractions.mul a fractions.zero ≡ fractions.zero) (λ a. Quot-set _ _)
        (λ x. Quot.sound (omega arith));
  complement =
      all1
        (λ a.
          fractions.le a fractions.one ≡ true
          → fractions.add a (fractions.sub fractions.one a) ≡ fractions.one)
        (λ a. →_prop (Quot-set _ _)) (λ x h. Quot.sound (complement_ratio x h));
  div_add =
      all3
        (λ a b d.
          fractions.div (fractions.add a b) d
          ≡ fractions.add (fractions.div a d) (fractions.div b d))
        (λ a b c. Quot-set _ _) (λ x y z. Quot.sound (div_add_ratio x y z));
  zero_div =
      all1 (λ d. fractions.div fractions.zero d ≡ fractions.zero) (λ a. Quot-set _ _)
        (λ x. Quot.sound (zero_div_ratio x));
  zero_of_not_nonzero =
      all1 (λ a. fractions.is_nonzero a ≡ false → a ≡ fractions.zero) (λ a. →_prop (Quot-set _ _))
        (λ x h. Quot.sound (zero_ratio x h));
  mul_div =
      all2 (λ m d. fractions.lt fractions.zero d ≡ true → fractions.div (fractions.mul m d) d ≡ m)
        (λ m d. →_prop (Quot-set _ _)) (λ x y h. Quot.sound (mul_div_ratio x y h));
}

le_trans_ratio : (x y z : Ratio) → le_ratio x y ≡ true → le_ratio y z ≡ true → le_ratio x z ≡ true
le_trans_ratio (a, b) (c, d) (e, f) h k =
    let p : a * suc d * suc f ≤ c * suc b * suc f =
      mul_mono (suc f) _ _ (leb→le (a * suc d) (c * suc b) h) in
    let q : c * suc f * suc b ≤ e * suc d * suc b =
      mul_mono (suc b) _ _ (leb→le (c * suc f) (e * suc d) k) in
    let both : a * suc f * suc d ≤ e * suc b * suc d = omega (arith, p, q) in
    le→leb (a * suc f) (e * suc b) (mul_cancel d (a * suc f) (e * suc b) both)

add_mono_ratio :
    (x y z w : Ratio)
    → le_ratio x y ≡ true
    → le_ratio z w ≡ true
    → le_ratio (add_ratio x z) (add_ratio y w) ≡ true
add_mono_ratio (a, b) (c, d) (e, f) (g, h) p q =
    let left : a * suc d * (suc f * suc h) ≤ c * suc b * (suc f * suc h) =
      mul_mono (suc f * suc h) _ _ (leb→le (a * suc d) (c * suc b) p) in
    let right : e * suc h * (suc b * suc d) ≤ g * suc f * (suc b * suc d) =
      mul_mono (suc b * suc d) _ _ (leb→le (e * suc h) (g * suc f) q) in
    le→leb _ _ (omega (arith, left, right))

mul_mono_ratio :
    (m x y : Ratio) → le_ratio x y ≡ true → le_ratio (mul_ratio m x) (mul_ratio m y) ≡ true
mul_mono_ratio (m, n) (a, b) (c, d) h =
    let scaled_up : a * suc d * (m * suc n) ≤ c * suc b * (m * suc n) =
      mul_mono (m * suc n) _ _ (leb→le (a * suc d) (c * suc b) h) in
    le→leb _ _ (omega (arith, scaled_up))

pub fractions-IsOrdered : IsOrdered fractions
unfolding lifted
fractions-IsOrdered = record {
  le_refl = all1 (λ a. fractions.le a a ≡ true) (λ a. Bool-set _ _) (λ x. ground arith);
  le_trans =
      all3 (λ a b c. fractions.le a b ≡ true → fractions.le b c ≡ true → fractions.le a c ≡ true)
        (λ a b c. →_prop (→_prop (Bool-set _ _))) le_trans_ratio;
  add_mono = λ a b c d.
      all2
        (λ a b.
          fractions.le a b ≡ true
          → fractions.le c d ≡ true
          → fractions.le (fractions.add a c) (fractions.add b d) ≡ true)
        (λ a b. →_prop (→_prop (Bool-set _ _)))
        (λ x y.
          all2
            (λ c d.
              fractions.le (Quot.mk x) (Quot.mk y) ≡ true
              → fractions.le c d ≡ true
              → fractions.le (fractions.add (Quot.mk x) c) (fractions.add (Quot.mk y) d) ≡ true)
            (λ a b. →_prop (→_prop (Bool-set _ _))) (λ z w. add_mono_ratio x y z w) c d)
        a b;
  mul_mono =
      all3
        (λ m a b.
          fractions.le a b ≡ true → fractions.le (fractions.mul m a) (fractions.mul m b) ≡ true)
        (λ m a b. →_prop (Bool-set _ _)) mul_mono_ratio;
  zero_le =
      all1 (λ a. fractions.le fractions.zero a ≡ true) (λ a. Bool-set _ _) (λ x. ground arith);
  le_of_not_lt =
      all2 (λ a b. fractions.lt a b ≡ false → fractions.le b a ≡ true)
        (λ a b. →_prop (Bool-set _ _)) (λ x y h. le→leb _ _ (ltb→le _ _ h));
}

-- Of `a < b` and `b <= a` one fails.
pub fractions_apart : (a b : Fraction) → (not (fractions.lt a b) || not (fractions.le b a)) ≡ true
unfolding lifted
fractions_apart =
    all2 (λ a b. (not (fractions.lt a b) || not (fractions.le b a)) ≡ true) (λ a b. Bool-set _ _)
      (λ x y. ground arith)
