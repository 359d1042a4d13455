-- ===== src/Graph/Indices.antt =====
-- The node indices of the code graph, `i32`, as keys of a `BTreeMap`, and slices of a vector.
use cognis.Base.{
  ℕ, ◌-◌, ◌+◌, ◌^◌, ◌≡◌, ◌<◌, ◌↔◌, refl, Bool, true, false, List, ◌++◌, Option, none, some,
  if◌then◌else◌, ltb, ◌==◌, ℤ, pos, negsuc, ltb_ℤ, as_i32, as_unsigned, length, take, drop, arith,
  length-append, take-append, drop-append,
}
use cognis.BtreeMap.{KeyOrd}

abbrev pub eq_ℤ : ℤ → ℤ → Bool
eq_ℤ (pos a) (pos b) = a == b
eq_ℤ (pos a) (negsuc b) = false
eq_ℤ (negsuc a) (pos b) = false
eq_ℤ (negsuc a) (negsuc b) = a == b

pub eq_ℤ_iff : (a b : ℤ) → (eq_ℤ a b ≡ true) ↔ (a ≡ b)
eq_ℤ_iff (pos a) (pos b) = ground arith
eq_ℤ_iff (pos a) (negsuc b) = ground arith
eq_ℤ_iff (negsuc a) (pos b) = ground arith
eq_ℤ_iff (negsuc a) (negsuc b) = ground arith

pub ltb_ℤ_irrefl : (a : ℤ) → ltb_ℤ a a ≡ false
ltb_ℤ_irrefl (pos a) = ground arith
ltb_ℤ_irrefl (negsuc a) = ground arith

pub ltb_ℤ_trans : (a b c : ℤ) → ltb_ℤ a b ≡ true → ltb_ℤ b c ≡ true → ltb_ℤ a c ≡ true
ltb_ℤ_trans (pos a) (pos b) (pos c) h k = ground arith
ltb_ℤ_trans (negsuc a) (pos b) (pos c) h k = refl
ltb_ℤ_trans (negsuc a) (negsuc b) (pos c) h k = refl
ltb_ℤ_trans (negsuc a) (negsuc b) (negsuc c) h k = ground arith
ltb_ℤ_trans (pos a) (pos b) (negsuc c) h k = cc
ltb_ℤ_trans (pos a) (negsuc b) c h k = cc
ltb_ℤ_trans (negsuc a) (pos b) (negsuc c) h k = cc

pub ltb_ℤ_total : (a b : ℤ) → eq_ℤ a b ≡ false → ltb_ℤ a b ≡ false → ltb_ℤ b a ≡ true
ltb_ℤ_total (pos a) (pos b) h k = ground arith
ltb_ℤ_total (pos a) (negsuc b) h k = refl
ltb_ℤ_total (negsuc a) (pos b) h k = cc
ltb_ℤ_total (negsuc a) (negsuc b) h k = ground arith

instance abbrev pub i32_order : KeyOrd ℤ
i32_order = record {
  eq = eq_ℤ;
  lt = ltb_ℤ;
  eq_iff = eq_ℤ_iff;
  lt_irrefl = ltb_ℤ_irrefl;
  lt_trans = ltb_ℤ_trans;
  lt_total = ltb_ℤ_total;
}

-- An index below 2³¹ is kept by the casts.
pub as_i32_small : (n : ℕ) → n < 2 ^ 31 → as_i32 n ≡ pos n
as_i32_small n h = ground arith

pub as_unsigned_small : (n : ℕ) → n < 2 ^ 31 → as_unsigned 64 (pos n) ≡ n
as_unsigned_small n h = omega arith

-- `&v[from..to]`, which panics where the range is not one of the vector.
unfoldable pub slice {ℓ} : {A : Type ℓ} → ℕ → ℕ → List A → Option (List A)
slice from to xs =
    if ltb to from
    then none
    else if ltb (length xs) to
    then none
    else some (take (to - from) (drop from xs))

pub slice_middle {ℓ} :
    {A : Type ℓ} (xs ys zs : List A)
    → slice (length xs) (length xs + length ys) (xs ++ (ys ++ zs)) ≡ some ys
unfolding slice
slice_middle xs ys zs =
    let e : length (xs ++ (ys ++ zs)) ≡ length xs + (length ys + length zs) =
      omega (arith, length-append xs (ys ++ zs), length-append ys zs) in
    let d : length xs + length ys - length xs ≡ length ys = omega arith in
    let a : ltb (length xs + length ys) (length xs) ≡ false = ground arith in
    let b : ltb (length (xs ++ (ys ++ zs))) (length xs + length ys) ≡ false = ground arith in
    rw (a, b, d, drop-append xs (ys ++ zs), take-append ys zs)
