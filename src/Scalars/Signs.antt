-- ===== src/Scalars/Signs.antt =====
-- Fractions over 0.
use mathlib.Core.Bool.{Bool-set}
use mathlib.Core.HLevel.{→_prop}
use cognis.Base.{ℕ, suc, ◌*◌, ◌≡◌, ◌<◌, true, false, arith}
use cognis.Scalars.Fractions.{Ratio, Fraction, fractions, lifted, le_ratio, mul_ratio, add_ratio}
use cognis.Scalars.Laws.{all2}
use cognis.Push.Survival.{IsGrowing}

mul_pos : (a b : ℕ) → 0 < a → 0 < b → 0 < a * b
mul_pos a b h k = grind arith

num_pos : (x : Ratio) → le_ratio x (0, 0) ≡ false → 0 < x.0
num_pos (a, b) h = ground arith

pos_num : (x : Ratio) → 0 < x.0 → le_ratio x (0, 0) ≡ false
pos_num (a, b) h = ground arith

mul_over :
    (x y : Ratio)
    → le_ratio x (0, 0) ≡ false
    → le_ratio y (0, 0) ≡ false
    → le_ratio (mul_ratio x y) (0, 0) ≡ false
mul_over x y h k = pos_num (mul_ratio x y) (mul_pos (x.0) (y.0) (num_pos x h) (num_pos y k))

add_over : (x y : Ratio) → le_ratio y (0, 0) ≡ false → le_ratio (add_ratio x y) (0, 0) ≡ false
add_over x y h =
    let some_part : 0 < y.0 * suc (x.1) = mul_pos (y.0) (suc (x.1)) (num_pos y h) (omega arith) in
    pos_num (add_ratio x y) (omega (arith, some_part))

pub fractions-IsGrowing : IsGrowing fractions
unfolding lifted
fractions-IsGrowing = record {
  mul =
      all2
        (λ a b.
          fractions.le a fractions.zero ≡ false
          → fractions.le b fractions.zero ≡ false
          → fractions.le (fractions.mul a b) fractions.zero ≡ false)
        (λ a b. →_prop (→_prop (Bool-set _ _))) mul_over;
  add =
      all2
        (λ a b.
          fractions.le b fractions.zero ≡ false
          → fractions.le (fractions.add a b) fractions.zero ≡ false)
        (λ a b. →_prop (Bool-set _ _)) add_over;
}

pub fractions_lt : (a b : Fraction) → fractions.le a b ≡ false → fractions.lt b a ≡ true
unfolding lifted
fractions_lt =
    all2 (λ a b. fractions.le a b ≡ false → fractions.lt b a ≡ true) (λ a b. →_prop (Bool-set _ _))
      (λ x y h. ground arith)
