-- ===== src/Scalars/Fractions.antt =====
-- Fractions that are not negative, arithmetic without rounding for the tests of the solvers.
use mathlib.Core.Quot
use mathlib.Core.Quot.{Quot, Quot-set}
use mathlib.Core.Bool.{Bool-set}
use native.Mathlib.Nat.{mul-sub}
use cognis.Base.{
  ℕ, zero, suc, ◌+◌, ◌-◌, ◌*◌, ◌≡◌, ◌≤◌, refl, sym, ap, ◌∙◌, Bool, false, arith, ltb, leb,
}
use cognis.Scalars.{Scalars}

-- `(a, b)` is a / (b + 1).
abbrev pub Ratio : Type 0
Ratio = ℕ × ℕ

abbrev pub SameRatio : Ratio → Ratio → Type 0
SameRatio x y = x.0 * suc y.1 ≡ y.0 * suc x.1

abbrev pub Fraction : Type 0
Fraction = Quot SameRatio

pub mul_mono : (m a b : ℕ) → a ≤ b → a * m ≤ b * m
mul_mono zero a b h = omega arith
mul_mono (suc m) a b h = omega (arith, mul_mono m a b h)

pub mul_cancel : (m a b : ℕ) → a * suc m ≤ b * suc m → a ≤ b
mul_cancel m a b h = grind (arith, mul_mono (suc m) (suc b) a)

ltb-scale : (m a b : ℕ) → ltb (a * suc m) (b * suc m) ≡ ltb a b
ltb-scale m a b =
    ground (arith, mul_mono (suc m) a b, mul_mono (suc m) b a, mul_cancel m a b, mul_cancel m b a)

leb-scale : (m a b : ℕ) → leb (a * suc m) (b * suc m) ≡ leb a b
leb-scale m a b = ground (arith, mul_mono (suc m) a b, mul_cancel m a b)

pub cancel_eq : (m a b : ℕ) → a * suc m ≡ b * suc m → a ≡ b
cancel_eq m a b h = omega (arith, mul_cancel m a b, mul_cancel m b a)

-- The operations on representatives.
abbrev pub add_ratio : Ratio → Ratio → Ratio
add_ratio (a, b) (c, d) = (a * suc d + c * suc b, b * d + b + d)

abbrev pub sub_ratio : Ratio → Ratio → Ratio
sub_ratio (a, b) (c, d) = (a * suc d - c * suc b, b * d + b + d)

abbrev pub mul_ratio : Ratio → Ratio → Ratio
mul_ratio (a, b) (c, d) = (a * c, b * d + b + d)

-- A division by 0 gives 0.
abbrev pub div_ratio : Ratio → Ratio → Ratio
div_ratio (a, b) (zero, d) = (0, 0)
div_ratio (a, b) (suc c, d) = (a * suc d, b * c + b + c)

abbrev pub lt_ratio : Ratio → Ratio → Bool
lt_ratio (a, b) (c, d) = ltb (a * suc d) (c * suc b)

abbrev pub le_ratio : Ratio → Ratio → Bool
le_ratio (a, b) (c, d) = leb (a * suc d) (c * suc b)

-- An operation that respects equality, on each side.
pub record Respects {B : Type 0} (op : Ratio → Ratio → B) : Type 0 where
  pub is_set : IsSet B
  pub left : (x x' y : Ratio) → SameRatio x x' → op x y ≡ op x' y
  pub right : (x y y' : Ratio) → SameRatio y y' → op x y ≡ op x y'

module _ {B : Type 0} (op : Ratio → Ratio → B) (r : Respects op) where
  abbrev pub on_right : Ratio → Fraction → B
  on_right x = Quot.lift r.is_set (op x) (r.right x)

  on_right-left : (x x' : Ratio) → SameRatio x x' → (b : Fraction) → on_right x b ≡ on_right x' b
  on_right-left x x' e =
      Quot.ind (λ q. r.is_set (on_right x q) (on_right x' q)) (λ y. r.left x x' y e)

  unfoldable pub lifted : Fraction → Fraction → B
  unfolding on_right-left
  lifted a b = Quot.lift r.is_set (λ x. on_right x b) (λ x x' e. on_right-left x x' e b) a

-- An operation on ratios as one on fractions.
abbrev pub as_fraction : (Ratio → Ratio → Ratio) → Ratio → Ratio → Fraction
as_fraction op x y = Quot.mk (op x y)

pub add_ratio-Respects : Respects (as_fraction add_ratio)
add_ratio-Respects = record {
  is_set = Quot-set;
  left = λ (a, b) (a', b') (c, d) e. Quot.sound (omega (arith, ap (λ t. t * (suc d * suc d)) e));
  right = λ (a, b) (c, d) (c', d') e. Quot.sound (omega (arith, ap (λ t. t * (suc b * suc b)) e));
}

pub mul_ratio-Respects : Respects (as_fraction mul_ratio)
mul_ratio-Respects = record {
  is_set = Quot-set;
  left = λ (a, b) (a', b') (c, d) e. Quot.sound (omega (arith, ap (λ t. t * (c * suc d)) e));
  right = λ (a, b) (c, d) (c', d') e. Quot.sound (omega (arith, ap (λ t. t * (a * suc b)) e));
}

sub_mul : (m a b : ℕ) → (a - b) * m ≡ a * m - b * m
sub_mul m a b = omega (arith, mul-sub m a b)

-- Two differences of products agree where the products do.
sub_cong : (x y x' y' m m' : ℕ) → x * m ≡ x' * m' → y * m ≡ y' * m' → (x - y) * m ≡ (x' - y') * m'
sub_cong x y x' y' m m' p q = omega (arith, sub_mul m x y, sub_mul m' x' y')

pub sub_ratio-Respects : Respects (as_fraction sub_ratio)
sub_ratio-Respects = record {
  is_set = Quot-set;
  left = λ (a, b) (a', b') (c, d) e. Quot.sound (
      sub_cong (a * suc d) (c * suc b) (a' * suc d) (c * suc b') _ _
        (omega (arith, ap (λ t. t * (suc d * suc d)) e)) (omega arith));
  right = λ (a, b) (c, d) (c', d') e. Quot.sound (
      sub_cong (a * suc d) (c * suc b) (a * suc d') (c' * suc b) _ _ (omega arith)
        (omega (arith, ap (λ t. t * (suc b * suc b)) e)));
}

pub div_ratio-Respects : Respects (as_fraction div_ratio)
div_ratio-Respects = record {
  is_set = Quot-set;
  left = λ x x' y e. Quot.sound (div_left x x' y e);
  right = λ x y y' e. Quot.sound (div_right x y y' e);
}
  where
    div_left : (x x' y : Ratio) → SameRatio x x' → SameRatio (div_ratio x y) (div_ratio x' y)
    div_left (a, b) (a', b') (zero, d) e = refl
    div_left (a, b) (a', b') (suc c, d) e = omega (arith, ap (λ t. t * (suc d * suc c)) e)

    div_right : (x y y' : Ratio) → SameRatio y y' → SameRatio (div_ratio x y) (div_ratio x y')
    div_right (a, b) (zero, d) (zero, d') e = refl
    div_right (a, b) (zero, d) (suc c', d') e = absurd (omega (arith, e))
    div_right (a, b) (suc c, d) (zero, d') e = absurd (omega (arith, e))
    div_right (a, b) (suc c, d) (suc c', d') e = omega (arith, ap (λ t. t * (a * suc b)) e)

pub lt_ratio-Respects : Respects lt_ratio
lt_ratio-Respects = record {
  is_set = Bool-set;
  left = λ (a, b) (a', b') (c, d) e.
      let p : a * suc d * suc b' ≡ a' * suc d * suc b = omega (arith, ap (λ t. t * suc d) e) in
      let q : c * suc b * suc b' ≡ c * suc b' * suc b = omega arith in
      sym (ltb-scale b' (a * suc d) (c * suc b))
      ∙ rw (p, q) (ltb-scale b (a' * suc d) (c * suc b'));
  right = λ (a, b) (c, d) (c', d') e.
      let p : c * suc b * suc d' ≡ c' * suc b * suc d = omega (arith, ap (λ t. t * suc b) e) in
      let q : a * suc d * suc d' ≡ a * suc d' * suc d = omega arith in
      sym (ltb-scale d' (a * suc d) (c * suc b))
      ∙ rw (p, q) (ltb-scale d (a * suc d') (c' * suc b));
}

pub le_ratio-Respects : Respects le_ratio
le_ratio-Respects = record {
  is_set = Bool-set;
  left = λ (a, b) (a', b') (c, d) e.
      let p : a * suc d * suc b' ≡ a' * suc d * suc b = omega (arith, ap (λ t. t * suc d) e) in
      let q : c * suc b * suc b' ≡ c * suc b' * suc b = omega arith in
      sym (leb-scale b' (a * suc d) (c * suc b))
      ∙ rw (p, q) (leb-scale b (a' * suc d) (c * suc b'));
  right = λ (a, b) (c, d) (c', d') e.
      let p : c * suc b * suc d' ≡ c' * suc b * suc d = omega (arith, ap (λ t. t * suc b) e) in
      let q : a * suc d * suc d' ≡ a * suc d' * suc d = omega arith in
      sym (leb-scale d' (a * suc d) (c * suc b))
      ∙ rw (p, q) (leb-scale d (a * suc d') (c' * suc b));
}

abbrev pub fractions : Scalars Fraction
fractions = record {
  zero = Quot.mk (0, 0);
  one = Quot.mk (1, 0);
  add = lifted (as_fraction add_ratio) add_ratio-Respects;
  sub = lifted (as_fraction sub_ratio) sub_ratio-Respects;
  mul = lifted (as_fraction mul_ratio) mul_ratio-Respects;
  div = lifted (as_fraction div_ratio) div_ratio-Respects;
  lt = lifted lt_ratio lt_ratio-Respects;
  le = lifted le_ratio le_ratio-Respects;
  is_nan = λ x. false;
  is_nonzero = λ x. lifted lt_ratio lt_ratio-Respects (Quot.mk (0, 0)) x;
}

-- `a / b`
abbrev pub ratio : ℕ → ℕ → Fraction
ratio a b = Quot.mk (a, b - 1)
