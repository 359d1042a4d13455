-- ===== src/Base/Int.antt =====
-- Signed integers over the native numbers, and Rust's casts between them and the unsigned types.
use Prim.Native.Nat.{ℕ, ◌-◌, ◌%◌, ◌^◌}
use mathlib.Core.Bool.{Bool, true, false}
use mathlib.Core.Option.{Option, none, some}
use cognis.Base.Tests.{ltb, if◌then◌else◌}

-- `negsuc n` is `-1 - n`.
pub data ℤ : Type 0 where
  pos negsuc : ℕ → ℤ

abbrev pub ltb_ℤ : ℤ → ℤ → Bool
ltb_ℤ (pos a) (pos b) = ltb a b
ltb_ℤ (pos a) (negsuc b) = false
ltb_ℤ (negsuc a) (pos b) = true
ltb_ℤ (negsuc a) (negsuc b) = ltb b a

-- `Ord::clamp`, which panics where the bounds are crossed.
abbrev pub clamp : ℤ → ℤ → ℤ → Option ℤ
clamp x lo hi =
    if ltb_ℤ hi lo
    then none
    else if ltb_ℤ x lo
    then some lo
    else if ltb_ℤ hi x
    then some hi
    else some x

-- `as i64` of a 64-bit number.
abbrev pub as_i64 : ℕ → ℤ
as_i64 n = if ltb n (2 ^ 63) then pos n else negsuc (2 ^ 64 - 1 - n)

-- `as i32` of a 64-bit number.
abbrev pub as_i32 : ℕ → ℤ
as_i32 n = let r = n % 2 ^ 32 in if ltb r (2 ^ 31) then pos r else negsuc (2 ^ 32 - 1 - r)

-- `as` to an unsigned type of `w` bits.
abbrev pub as_unsigned : ℕ → ℤ → ℕ
as_unsigned w (pos n) = n % 2 ^ w
as_unsigned w (negsuc n) = 2 ^ w - 1 - n % 2 ^ w

-- The number, 0 where it is negative.
abbrev pub nonneg : ℤ → ℕ
nonneg (pos n) = n
nonneg (negsuc n) = 0
