-- ===== src/Fixed/MulDiv.antt =====
-- `fixed.MulDiv` and `fixed.MulDivCeil` against exact division.
use native.Mathlib.Nat.{le-div_iff_mul-le, div-add-mod', div-lt_iff_lt-mul}
use lcex.Prelude.{ℕ, ◌+◌, ◌*◌, ◌/◌, ◌%◌, ◌≤◌, ◌<◌, ◌≡◌, ltb, ◌==◌, if◌then◌else◌, arith, ok, err}
use lcex.Prelude.Word.{u64_mod}
use lcex.Fixed.{mul_div, mul_div_ceil, overflow, div_by_zero}

-- The two halves put together are the product.
halves : (p : ℕ) → p / u64_mod * u64_mod + p % u64_mod ≡ p
halves p = div-add-mod' p u64_mod

-- The high half reaches the divisor exactly when the quotient leaves uint64.
high-le : (p div : ℕ) → 0 < div → div ≤ p / u64_mod → u64_mod ≤ p / div
high-le p div pos h =
    (le-div_iff_mul-le pos).1
      (omega (arith, (le-div_iff_mul-le {k = u64_mod} {x = div} {y = p} (omega arith)).0 h))

high-gt : (p div : ℕ) → 0 < div → p / u64_mod < div → p / div < u64_mod
high-gt p div pos h =
    (div-lt_iff_lt-mul pos).1
      (omega (arith, (div-lt_iff_lt-mul {k = u64_mod} {x = p} {y = div} (omega arith)).0 h))

low_only : (p : ℕ) → p / u64_mod ≡ 0 → p % u64_mod ≡ p
low_only p h = omega arith

-- The rounded quotient: one more than the quotient where something is left over.
abbrev pub div_ceil : ℕ → ℕ → ℕ
div_ceil p div = if p % div == 0 then p / div else p / div + 1

-- `MulDiv` returns the product divided and rounded down where that is a uint64, `overflow` where it is not, and
-- `div_by_zero` for the divisor 0.
pub mul_div_exact :
    (a b div : ℕ)
    → mul_div a b div ≡ (
        if div == 0
        then err div_by_zero
        else if ltb (a * b / div) u64_mod
        then ok (a * b / div)
        else err overflow)
unfolding mul_div
mul_div_exact a b div =
    let p = a * b in ground (arith, halves p, low_only p, high-le p div, high-gt p div)

-- `MulDivCeil` returns the product divided and rounded up, with `overflow` where the quotient rounded
-- down leaves uint64 and `div_by_zero` for the divisor 0; a quotient of
-- `2 ^ 64 - 1` with something left over is rounded up to 0.
pub mul_div_ceil_exact :
    (a b div : ℕ)
    → mul_div_ceil a b div ≡ (
        if div == 0
        then err div_by_zero
        else if ltb (a * b / div) u64_mod
        then ok (div_ceil (a * b) div % u64_mod)
        else err overflow)
unfolding mul_div_ceil
mul_div_ceil_exact a b div = let p = a * b in ground (arith, halves p, high-le p div, high-gt p div)
