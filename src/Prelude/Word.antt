-- ===== src/Prelude/Word.antt =====
-- 64-bit machine integers: a uint64 is a number below `2 ^ 64`, an int64 an integer between
-- `-2 ^ 63` and `2 ^ 63 - 1`; sums, negations and conversions wrap around.
use lcex.Prelude.{ℕ, ◌+◌, ◌-◌, ◌%◌, ◌≤◌, ◌<◌, ◌≡◌, arith, ltb, if◌then◌else◌}
use lcex.Prelude.Int.{ℤ, pos, negsuc, pos_part, neg_part, ◌+ℤ◌, ◌-ℤ◌}

abbrev pub u64_mod : ℕ
u64_mod = 18446744073709551616

abbrev pub i64_mod : ℕ
i64_mod = 9223372036854775808

-- a + b on uint64
abbrev pub add64 : ℕ → ℕ → ℕ
add64 a b = (a + b) % u64_mod

-- a - b on uint64; `-` on ℕ stops at 0, so the modulus is added first
abbrev pub sub64 : ℕ → ℕ → ℕ
sub64 a b = (a + u64_mod - b) % u64_mod

-- The int64 with the bit pattern `w`: the conversion `int64(w)` of a uint64.
unfoldable pub int64 : ℕ → ℤ
int64 w = if ltb w i64_mod then pos w else negsuc (u64_mod - w - 1)

-- The bit pattern of an integer modulo `2 ^ 64`: the conversion `uint64(v)` of an int64.
unfoldable pub uint64 : ℤ → ℕ
uint64 (pos n) = n % u64_mod
uint64 (negsuc n) = u64_mod - 1 - n % u64_mod

-- What an int64 variable holds after an operation whose exact result is `z`.
unfoldable pub wrap64 : ℤ → ℤ
unfolding int64 uint64
wrap64 z = int64 (uint64 z)

-- The values of the type int64.
abbrev pub IsInt64 : ℤ → Type 0
IsInt64 z = (pos_part z < i64_mod) × (neg_part z ≤ i64_mod)

pub wrap64_exact : (z : ℤ) → IsInt64 z → wrap64 z ≡ z
unfolding wrap64
wrap64_exact (pos n) h = ground arith
wrap64_exact (negsuc n) h = ground arith

pub wrap64-IsInt64 : (z : ℤ) → IsInt64 (wrap64 z)
unfolding wrap64
wrap64-IsInt64 (pos n) = ground arith
wrap64-IsInt64 (negsuc n) = ground arith

pub int64_exact : (w : ℕ) → w < i64_mod → int64 w ≡ pos w
unfolding int64
int64_exact w h = ground arith

-- A uint64 beyond the int64 range turns negative.
pub int64_wraps : (w : ℕ) → i64_mod ≤ w → w < u64_mod → int64 w ≡ negsuc (u64_mod - w - 1)
unfolding int64
int64_wraps w h k = ground arith

pub int64-IsInt64 : (w : ℕ) → IsInt64 (int64 w)
unfolding int64
int64-IsInt64 w = ground arith

-- Conversions and wrap-around keep an integer modulo `2 ^ 64`.
pub uint64-int64 : (w : ℕ) → w < u64_mod → uint64 (int64 w) ≡ w
unfolding uint64 int64
uint64-int64 w h = ground arith

pub uint64-wrap64 : (z : ℤ) → uint64 (wrap64 z) ≡ uint64 z
unfolding wrap64
uint64-wrap64 (pos n) = ground arith
uint64-wrap64 (negsuc n) = ground arith

pub uint64-add : (a b : ℤ) → uint64 (a +ℤ b) ≡ (uint64 a + uint64 b) % u64_mod
unfolding uint64 ◌+ℤ◌
uint64-add (pos m) (pos n) = ground arith
uint64-add (pos m) (negsuc n) = ground arith
uint64-add (negsuc m) (pos n) = ground arith
uint64-add (negsuc m) (negsuc n) = ground arith

pub uint64-sub : (a b : ℤ) → uint64 (a -ℤ b) ≡ (uint64 a + u64_mod - uint64 b) % u64_mod
unfolding uint64 ◌-ℤ◌
uint64-sub (pos m) (pos n) = ground arith
uint64-sub (pos m) (negsuc n) = ground arith
uint64-sub (negsuc m) (pos n) = ground arith
uint64-sub (negsuc m) (negsuc n) = ground arith
