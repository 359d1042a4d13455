-- ===== src/Complexity.antt =====
-- The growth classes of crates/cognis-core/src/complexity.rs and their composition.
-- A `u8` field is a ℕ; saturating arithmetic stops at 255. `effective_degree` is an f64 that is a
-- multiple of 1/20 for every class, so it is kept as an integer count of twentieths.
pub mod Order
pub mod Nesting
pub mod Notation
mod Tests
use cognis.Base.{ℕ, zero, suc, ◌+◌, ◌*◌, min, max, leb, if◌then◌else◌, ◌==◌}

pub data ComplexityClass : Type 0 where
  constant : ComplexityClass
  logarithmic : ℕ → ComplexityClass
  sqrt : ComplexityClass
  polynomial : ℕ → ℕ → ComplexityClass
  exponential : ℕ → ComplexityClass
  factorial : ComplexityClass

abbrev pub saturating_add : ℕ → ℕ → ℕ
saturating_add a b = min (a + b) 255

abbrev pub saturating_mul : ℕ → ℕ → ℕ
saturating_mul a b = min (a * b) 255

abbrev pub linear : ComplexityClass
linear = polynomial 1 0

-- Twentieths: 0.25 is 5, 0.5 is 10, 0.1 is 2.
pub effective_degree : ComplexityClass → ℕ
effective_degree constant = 0
effective_degree (logarithmic power) = 5 * power
effective_degree sqrt = 10
effective_degree (polynomial degree log_power) = 20 * degree + 5 * log_power
effective_degree (exponential base_calls) = 160 + 2 * max base_calls 2
effective_degree factorial = 200

-- Twentieths: 0.05 is 1, 0.95 is 19, 1.0 is 20.
pub risk_weight : ComplexityClass → ℕ
risk_weight constant = 1
risk_weight (logarithmic power) = 3
risk_weight sqrt = 4
risk_weight (polynomial (suc zero) zero) = 6
risk_weight (polynomial (suc zero) log_power) = 9
risk_weight (polynomial (suc (suc zero)) log_power) = 15
risk_weight (polynomial (suc (suc (suc zero))) log_power) = 18
risk_weight (polynomial degree log_power) = 19
risk_weight (exponential base_calls) = 20
risk_weight factorial = 20

pub seq_max : ComplexityClass → ComplexityClass → ComplexityClass
unfolding effective_degree
seq_max a b = if leb (effective_degree b) (effective_degree a) then a else b

pub nest_mul : ComplexityClass → ComplexityClass → ComplexityClass
nest_mul constant x = x
nest_mul x constant = x
nest_mul factorial _ = factorial
nest_mul _ factorial = factorial
nest_mul (exponential b1) (exponential b2) = exponential (max (saturating_mul b1 b2) 2)
nest_mul (exponential base_calls) _ = exponential base_calls
nest_mul _ (exponential base_calls) = exponential base_calls
nest_mul (logarithmic p1) (logarithmic p2) = logarithmic (saturating_add p1 p2)
nest_mul sqrt sqrt = linear
nest_mul sqrt (logarithmic power) = polynomial 1 power
nest_mul (logarithmic power) sqrt = polynomial 1 power
nest_mul sqrt (polynomial degree log_power) = polynomial (saturating_add degree 1) log_power
nest_mul (polynomial degree log_power) sqrt = polynomial (saturating_add degree 1) log_power
nest_mul (polynomial degree log_power) (logarithmic power) =
    polynomial degree (saturating_add log_power power)
nest_mul (logarithmic power) (polynomial degree log_power) =
    polynomial degree (saturating_add log_power power)
nest_mul (polynomial d1 p1) (polynomial d2 p2) =
    polynomial (saturating_add d1 d2) (saturating_add p1 p2)
