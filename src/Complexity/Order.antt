-- ===== src/Complexity/Order.antt =====
-- Sequential composition of growth classes, and the order by effective degree.
use cognis.Base.{◌+◌, ◌*◌, ◌≤◌, ◌<◌, arith}
use cognis.Complexity.{
  ComplexityClass, constant, logarithmic, sqrt, polynomial, exponential, factorial,
  effective_degree, risk_weight,
}

-- The classes the analysis is described for: at most a cubed logarithm, no polynomial of degree 0,
-- and polynomials below the exponential classes.
abbrev pub IsCanonical : ComplexityClass → Type 0
IsCanonical constant = Unit
IsCanonical (logarithmic power) = power ≤ 1
IsCanonical sqrt = Unit
IsCanonical (polynomial degree log_power) =
    (1 ≤ degree) × (log_power ≤ 3) × (20 * degree + 5 * log_power ≤ 160)
IsCanonical (exponential base_calls) = Unit
IsCanonical factorial = Unit

-- On canonical classes the risk weight grows with the effective degree.
pub risk_weight_mono :
    (a b : ComplexityClass)
    → IsCanonical a
    → IsCanonical b
    → effective_degree a < effective_degree b
    → risk_weight a ≤ risk_weight b
unfolding effective_degree risk_weight
risk_weight_mono constant b ha hb h = ground arith
risk_weight_mono a b ha hb h = ground arith
