-- ===== src/Complexity/Notation.antt =====
-- The named growth classes, their Big-O text and the classes of loops.
use Prim.Native.String.{String, ◌++◌ as append}
use cognis.Base.{ℕ, zero, suc, ◌+◌, ◌≤◌, ◌≡◌, max, Option, arith}
use cognis.Complexity.{
  ComplexityClass, constant, logarithmic, sqrt, polynomial, exponential, factorial, linear,
  nest_mul,
}

abbrev pub log_n : ComplexityClass
log_n = logarithmic 1

abbrev pub n_log_n : ComplexityClass
n_log_n = polynomial 1 1

abbrev pub quadratic : ComplexityClass
quadratic = polynomial 2 0

abbrev pub cubic : ComplexityClass
cubic = polynomial 3 0

-- The associated function `polynomial`.
unfoldable pub of_degree : ℕ → ComplexityClass
of_degree zero = constant
of_degree (suc degree) = polynomial (suc degree) 0

pub data LoopBound : Type 0 where
  fixed : ℕ → LoopBound
  halving root : LoopBound
  over : Option String → LoopBound

unfoldable pub to_complexity : LoopBound → ComplexityClass
to_complexity (fixed n) = constant
to_complexity halving = log_n
to_complexity root = sqrt
to_complexity (over collection) = linear

-- `show` is the text of a number.
module _ (show : ℕ → String) where
  abbrev pub log_notation : ℕ → String
  log_notation zero = "O(1)"
  log_notation (suc zero) = "O(log n)"
  log_notation power = append "O((log n)^" (append (show power) ")")

  unfoldable pub notation : ComplexityClass → String
  notation constant = "O(1)"
  notation (logarithmic power) = log_notation power
  notation sqrt = "O(sqrt(n))"
  notation (polynomial zero zero) = "O(1)"
  notation (polynomial zero log_power) = log_notation log_power
  notation (polynomial (suc zero) zero) = "O(n)"
  notation (polynomial (suc zero) (suc zero)) = "O(n log n)"
  notation (polynomial (suc zero) log_power) = append "O(n (log n)^" (append (show log_power) ")")
  notation (polynomial degree zero) = append "O(n^" (append (show degree) ")")
  notation (polynomial degree (suc zero)) = append "O(n^" (append (show degree) " log n)")
  notation (polynomial degree log_power) =
      append "O(n^" (append (show degree) (append " (log n)^" (append (show log_power) ")")))
  notation (exponential base_calls) = append "O(" (append (show (max base_calls 2)) "^n)")
  notation factorial = "O(n!)"

-- Where their sum fits a `u8`, nested loops of two degrees have the degree that is their sum.
pub nest_mul-of_degree :
    (a b : ℕ) → a + b ≤ 255 → nest_mul (of_degree a) (of_degree b) ≡ of_degree (a + b)
unfolding nest_mul of_degree
nest_mul-of_degree a b h = ground arith
