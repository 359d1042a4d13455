-- ===== src/Complexity/Nesting.antt =====
-- Nested composition of growth classes.
use cognis.Base.{ℕ, ◌+◌, ◌*◌, ◌≤◌, ◌≡◌, min, max, arith, refl}
use native.Mathlib.Decide.{dec_le}
use cognis.Complexity.{
  ComplexityClass, constant, logarithmic, sqrt, polynomial, exponential, factorial, saturating_mul,
  effective_degree, seq_max, nest_mul,
}

-- Classes on which nesting is associative: no square root, and an exponential of base 2 at least.
abbrev pub IsPlain : ComplexityClass → Type 0
IsPlain sqrt = ⊥
IsPlain (exponential base_calls) = 2 ≤ base_calls
IsPlain _ = Unit

le-mul_right : (a b : ℕ) → 1 ≤ b → a ≤ a * b
le-mul_right a b h = grind arith

le-mul_left : (a b : ℕ) → 1 ≤ a → b ≤ a * b
le-mul_left a b h = grind arith

-- Saturating a factor before the product changes nothing.
saturating_mul-capped : (x c : ℕ) → 1 ≤ c → min (min x 255 * c) 255 ≡ min (x * c) 255
saturating_mul-capped x c h = elim (dec_le x 255) [
  | yes p ↦ let e : min x 255 ≡ x = omega arith in rw e
  | no p ↦
      let e : min x 255 ≡ 255 = omega arith in
      rw e (omega (arith, le-mul_right 255 c h, le-mul_right x c h))
]

saturating_mul_floor : (a b : ℕ) → 2 ≤ a → 2 ≤ b → max (saturating_mul a b) 2 ≡ saturating_mul a b
saturating_mul_floor a b ha hb = omega (arith, le-mul_right a b (omega arith))

saturating_mul_assoc :
    (a b c : ℕ)
    → 2 ≤ a
    → 2 ≤ b
    → 2 ≤ c
    → saturating_mul (max (saturating_mul a b) 2) c ≡ saturating_mul a (max (saturating_mul b c) 2)
saturating_mul_assoc a b c ha hb hc =
    rw (saturating_mul_floor a b ha hb, saturating_mul_floor b c hb hc)
      (omega (
        arith,
        saturating_mul-capped (a * b) c (omega arith),
        saturating_mul-capped (b * c) a (omega arith),
      ))

-- Nested composition is associative, saturation included, on classes without the square root whose
-- exponentials have a base of at least 2.
pub nest_mul_assoc :
    (a b c : ComplexityClass)
    → IsPlain a
    → IsPlain b
    → IsPlain c
    → nest_mul (nest_mul a b) c ≡ nest_mul a (nest_mul b c)
unfolding nest_mul
nest_mul_assoc constant b c ha hb hc = refl
nest_mul_assoc factorial b c ha hb hc = ground arith
nest_mul_assoc sqrt b c ha hb hc = absurd ha
nest_mul_assoc a constant c ha hb hc = ground arith
nest_mul_assoc a factorial c ha hb hc = ground arith
nest_mul_assoc a sqrt c ha hb hc = absurd hb
nest_mul_assoc a b constant ha hb hc = ground arith
nest_mul_assoc a b factorial ha hb hc = ground arith
nest_mul_assoc a b sqrt ha hb hc = absurd hc
nest_mul_assoc (exponential b1) (exponential b2) (exponential b3) ha hb hc =
    ground (arith, saturating_mul_assoc b1 b2 b3)
nest_mul_assoc a b c ha hb hc = ground arith

-- The classes whose degree is a sum of a power of n and of a power of log n.
abbrev pub IsPolynomial : ComplexityClass → Type 0
IsPolynomial constant = Unit
IsPolynomial (logarithmic power) = Unit
IsPolynomial (polynomial degree log_power) = Unit
IsPolynomial _ = ⊥

-- Nesting adds the degrees of polynomial classes, as long as no `u8` saturates.
effective_degree-nest_mul :
    (a b : ComplexityClass)
    → IsPolynomial a
    → IsPolynomial b
    → effective_degree a + effective_degree b ≤ 5 * 255
    → effective_degree (nest_mul a b) ≡ effective_degree a + effective_degree b
unfolding effective_degree nest_mul
effective_degree-nest_mul constant b ha hb h = ground arith
effective_degree-nest_mul a b ha hb h = ground arith

-- Nesting distributes over sequential composition: for polynomial classes in the range of their
-- `u8` fields, the class of a loop over `S1; S2` is the larger of the two nested classes, exactly.
pub nest_mul-seq_max :
    (c a b : ComplexityClass)
    → IsPolynomial c
    → IsPolynomial a
    → IsPolynomial b
    → effective_degree c + effective_degree a ≤ 5 * 255
    → effective_degree c + effective_degree b ≤ 5 * 255
    → nest_mul c (seq_max a b) ≡ seq_max (nest_mul c a) (nest_mul c b)
unfolding seq_max
nest_mul-seq_max c a b hc ha hb h k =
    ground (arith, effective_degree-nest_mul c a, effective_degree-nest_mul c b)

-- Classes in the range where `effective_degree` respects growth.
abbrev pub IsTame : ComplexityClass → Type 0
IsTame constant = Unit
IsTame (logarithmic power) = power ≤ 32
IsTame sqrt = Unit
IsTame (polynomial degree log_power) = 20 * degree + 5 * log_power ≤ 160
IsTame (exponential base_calls) = (2 ≤ base_calls) × (base_calls ≤ 20)
IsTame factorial = Unit

-- A loop never lowers the degree of its body, nor of its own bound.
pub nest_mul-increasing :
    (a b : ComplexityClass)
    → IsTame a
    → IsTame b
    → (effective_degree a ≤ effective_degree (nest_mul a b))
      × (effective_degree b ≤ effective_degree (nest_mul a b))
unfolding effective_degree nest_mul
nest_mul-increasing constant b ha hb = ground arith
nest_mul-increasing (exponential b1) (exponential b2) ha hb =
    omega (arith, le-mul_right b1 b2 (omega arith), le-mul_left b1 b2 (omega arith))
nest_mul-increasing a b ha hb = ground arith
