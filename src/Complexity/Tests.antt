-- ===== src/Complexity/Tests.antt =====
-- Tests on growth classes, and the theorems at concrete classes.
use Prim.Native.String.{String}
use cognis.Base.{ℕ, none, ◌≡◌, arith, refl}
use cognis.Complexity.{
  exponential, logarithmic, polynomial, linear, effective_degree, nest_mul, seq_max,
}
use cognis.Complexity.Notation.{notation, halving, over, to_complexity, quadratic, cubic, n_log_n}
use cognis.Complexity.Nesting.{nest_mul_assoc, nest_mul-seq_max}

linear_squared : nest_mul linear linear ≡ polynomial 2 0
unfolding nest_mul
linear_squared = refl

nest_mul_assoc_example :
    nest_mul (nest_mul (exponential 20) linear) (exponential 30)
    ≡ nest_mul (exponential 20) (nest_mul linear (exponential 30))
nest_mul_assoc_example =
    nest_mul_assoc (exponential 20) linear (exponential 30) (omega arith) tt (omega arith)

nest_mul-seq_max_example :
    nest_mul linear (seq_max (logarithmic 1) linear)
    ≡ seq_max (nest_mul linear (logarithmic 1)) (nest_mul linear linear)
unfolding effective_degree
nest_mul-seq_max_example =
    nest_mul-seq_max linear (logarithmic 1) linear tt tt tt (omega arith) (omega arith)

abbrev show_three : ℕ → String
show_three n = "3"

shown_power : notation show_three cubic ≡ "O(n^3)"
unfolding notation
shown_power = refl

searched_loop : nest_mul (to_complexity (over none)) (to_complexity halving) ≡ n_log_n
unfolding nest_mul to_complexity
searched_loop = refl

square_of_linear : nest_mul (to_complexity (over none)) linear ≡ quadratic
unfolding nest_mul to_complexity
square_of_linear = refl
