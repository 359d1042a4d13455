-- ===== src/Scalars.antt =====
-- The operations of f64 that the graph and its solvers use, a parameter of their models.
pub mod Fractions
pub mod Laws
pub mod Signs
use cognis.Base.{Bool}

pub record Scalars (S : Type 0) : Type 0 where
  pub zero : S
  pub one : S
  pub add : S → S → S
  pub sub : S → S → S
  pub mul : S → S → S
  pub div : S → S → S
  pub lt : S → S → Bool
  pub le : S → S → Bool
  pub is_nan : S → Bool
  -- `x != 0.0`
  pub is_nonzero : S → Bool

-- `a >= b` and `a > b` are `b <= a` and `b < a`, as IEEE 754 has it.
module _ {S : Type 0} (f : Scalars S) where
  abbrev pub ge : S → S → Bool
  ge a b = f.le b a

  abbrev pub gt : S → S → Bool
  gt a b = f.lt b a
