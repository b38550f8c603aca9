-- ===== src/Fixed/Digits.antt =====
-- The number that decimal digits spell, and the digits that `fixed.Format` prints.
use native.Mathlib.Nat.{pow-suc, sub-zero, suc-sub-suc}
use lcex.Prelude.{
  ℕ, zero, suc, ◌+◌, ◌-◌, ◌*◌, ◌/◌, ◌%◌, ◌^◌, ◌≤◌, ◌<◌, ◌≡◌, refl, true, false, ◌&&◌, [], ◌∷◌, ◌++◌,
  ltb, ◌==◌, if◌then◌else◌, length, replicate, arith, ok, err, ap, ==_iff, Bool-cases, inl, inr,
}
use lcex.Prelude.Word.{u64_mod}
use lcex.Prelude.Text.{Text}
use lcex.Fixed.{
  overflow, all_digits, is_empty, pad_frac, parse_uint, pad_digits, drop_zeros, trim_zeros,
  format_uint,
}

-- The digits of `s` read behind the number `n`, with no bound.
abbrev pub value : Text → ℕ → ℕ
value [] n = n
value (c ∷ s) n = value s (n * 10 + (c - b'0'))

pub value-append : (s t : Text) (n : ℕ) → value (s ++ t) n ≡ value t (value s n)
value-append [] t n = refl
value-append (c ∷ s) t n = value-append s t (n * 10 + (c - b'0'))

le-value : (s : Text) (n : ℕ) → n ≤ value s n
le-value [] n = omega arith
le-value (c ∷ s) n = omega (arith, le-value s (n * 10 + (c - b'0')))

pub value_shift : (s : Text) (n : ℕ) → value s n ≡ n * 10 ^ length s + value s 0
value_shift [] n = omega arith
value_shift (c ∷ s) n =
    let d = c - b'0' in
    omega (
      arith,
      value_shift s (n * 10 + d),
      value_shift s (0 * 10 + d),
      ap (λ (p : ℕ). n * p) (pow-suc 10 (length s)),
    )

pub value-replicate : (k n : ℕ) → value (replicate k b'0') n ≡ n * 10 ^ k
value-replicate zero n = omega arith
value-replicate (suc k) n =
    omega (arith, value-replicate k (n * 10 + 0), ap (λ (p : ℕ). n * p) (pow-suc 10 k))

-- Reading digits gives their number where it is a uint64, and `overflow` where it is not.
pub parse_uint_exact :
    (s : Text) (n : ℕ)
    → n < u64_mod
    → parse_uint s n ≡ (if ltb (value s n) u64_mod then ok (value s n) else err overflow)
unfolding parse_uint
parse_uint_exact [] n h = ground arith
parse_uint_exact (c ∷ s) n h =
    let n' = n * 10 + (c - b'0') in ground (arith, parse_uint_exact s n', le-value s n')

pub all_digits-append : (s t : Text) → all_digits (s ++ t) ≡ (all_digits s && all_digits t)
unfolding all_digits
all_digits-append [] t = refl
all_digits-append (c ∷ s) t = ground (arith, all_digits-append s t)

pub length-append : (s t : Text) → length (s ++ t) ≡ length s + length t
length-append [] t = omega arith
length-append (c ∷ s) t = omega (arith, length-append s t)

pub length-pad_digits : (w n : ℕ) → length (pad_digits w n) ≡ w
unfolding pad_digits
length-pad_digits zero n = refl
length-pad_digits (suc w) n = omega (
  arith,
  length-append (pad_digits w (n / 10)) ((b'0' + n % 10) ∷ []),
  length-pad_digits w (n / 10),
)

pub all_digits-pad_digits : (w n : ℕ) → all_digits (pad_digits w n) ≡ true
unfolding pad_digits all_digits
all_digits-pad_digits zero n = refl
all_digits-pad_digits (suc w) n = ground (
  arith,
  all_digits-append (pad_digits w (n / 10)) ((b'0' + n % 10) ∷ []),
  all_digits-pad_digits w (n / 10),
)

-- A number below `10 ^ w` is read back from its `w` digits.
pub value-pad_digits : (w n : ℕ) → n < 10 ^ w → value (pad_digits w n) 0 ≡ n
unfolding pad_digits
value-pad_digits zero n h = omega arith
value-pad_digits (suc w) n h = omega (
  arith,
  pow-suc 10 w,
  value-append (pad_digits w (n / 10)) ((b'0' + n % 10) ∷ []) 0,
  value-pad_digits w (n / 10) (omega (arith, pow-suc 10 w)),
)

value-drop_zeros : (s : Text) → value (drop_zeros s) 0 ≡ value s 0
unfolding drop_zeros
value-drop_zeros [] = refl
value-drop_zeros (c ∷ s) = ground (arith, value-drop_zeros s)

all_digits-drop_zeros : (s : Text) → all_digits s ≡ true → all_digits (drop_zeros s) ≡ true
unfolding drop_zeros all_digits
all_digits-drop_zeros [] h = refl
all_digits-drop_zeros (c ∷ s) h = ground (arith, all_digits-drop_zeros s)

pub value-format_uint : (n : ℕ) → n < u64_mod → value (format_uint n) 0 ≡ n
unfolding format_uint
value-format_uint n h = ground (arith, value-drop_zeros (pad_digits 20 n), value-pad_digits 20 n)

pub all_digits-format_uint : (n : ℕ) → all_digits (format_uint n) ≡ true
unfolding format_uint all_digits
all_digits-format_uint n =
    ground (arith, all_digits-drop_zeros (pad_digits 20 n), all_digits-pad_digits 20 n)

nonempty_of_value : (s : Text) (n : ℕ) → value s 0 ≡ n → 0 < n → is_empty s ≡ false
nonempty_of_value [] n e pos = absurd (omega arith)
nonempty_of_value (c ∷ s) n e pos = refl

-- What is printed is not empty: no digits would spell 0, which is printed as one digit.
pub format_uint_nonempty : (n : ℕ) → n < u64_mod → is_empty (format_uint n) ≡ false
format_uint_nonempty n h = elim (Bool-cases (n == 0)) [
  | inl e ↦ unfold format_uint in rw e
  | inr e ↦ nonempty_of_value (format_uint n) n (value-format_uint n h) (ground arith)
]

pub all_digits-trim_zeros : (s : Text) → all_digits s ≡ true → all_digits (trim_zeros s) ≡ true
unfolding trim_zeros all_digits
all_digits-trim_zeros [] h = refl
all_digits-trim_zeros (c ∷ s) h = ground (arith, all_digits-trim_zeros s)

restore_zero :
    (c : ℕ) (r s : Text) (m : ℕ)
    → r ++ replicate (m - length r) b'0' ≡ s
    → let t = if is_empty r && c == b'0' then [] else c ∷ r in
      t ++ replicate (suc m - length t) b'0' ≡ c ∷ s
restore_zero c [] s m e = elim (Bool-cases (c == b'0')) [
  | inl z ↦ rw (z, sub-zero, ← e, sub-zero, (==_iff c b'0').0 z)
  | inr z ↦ rw (z, suc-sub-suc, e)
]
restore_zero c (d ∷ r) s m e = rw (suc-sub-suc, e)

-- The zeros that were cut off, put back up to the length that there was.
append-trim_zeros :
    (s : Text) (m : ℕ)
    → length s ≡ m
    → trim_zeros s ++ replicate (m - length (trim_zeros s)) b'0' ≡ s
unfolding trim_zeros
append-trim_zeros [] m e = rw (← e)
append-trim_zeros (c ∷ s) m e =
    rw (← e) (restore_zero c (trim_zeros s) s (length s) (append-trim_zeros s (length s) refl))

pub pad_frac-trim_zeros : (s : Text) → length s ≡ 8 → pad_frac (trim_zeros s) ≡ s
unfolding pad_frac
pad_frac-trim_zeros s e = append-trim_zeros s 8 e

pub length-trim_zeros : (s : Text) → length (trim_zeros s) ≤ length s
unfolding trim_zeros
length-trim_zeros [] = omega arith
length-trim_zeros (c ∷ s) = ground (arith, length-trim_zeros s)

-- Cutting off the last zeros of eight digits leaves the fraction that they spell.
pub value-trim_zeros :
    (s : Text)
    → length s ≡ 8
    → value (trim_zeros s) 0 * 10 ^ (8 - length (trim_zeros s)) ≡ value s 0
value-trim_zeros s e =
    let t = trim_zeros s in
    let k = 8 - length t in
    omega (
      arith,
      value-append t (replicate k b'0') 0,
      value-replicate k (value t 0),
      ap (λ (u : Text). value u 0) (append-trim_zeros s 8 e),
    )
