-- ===== src/Fixed/Accepts.antt =====
-- Which texts `fixed.Parse` accepts, and the amount that it returns for them.
use native.Mathlib.Nat.{zero-add, suc-add, pow-suc}
use lcex.Prelude.{
  ℕ, zero, suc, ap, ◌+◌, ◌-◌, ◌*◌, ◌^◌, ◌≤◌, ◌≡◌, refl, true, false, ◌&&◌, [], ◌∷◌, ◌++◌, ltb,
  if◌then◌else◌, length, replicate, arith, ok, err,
}
use lcex.Prelude.Word.{u64_mod}
use lcex.Prelude.Text.{Text, trim_space}
use lcex.Fixed.{
  invalid, overflow, scale, contains_any, split_point, all_digits, is_empty, pad_frac, parse_parts,
  parse,
}
use lcex.Fixed.Digits.{
  value, value-append, value_shift, value-replicate, parse_uint_exact, all_digits-append,
}

-- The amount that digits before and behind the point spell, in units of `10 ^ -8`.
abbrev pub amount : Text → Text → ℕ
amount int_part frac_part =
    value int_part 0 * scale + value frac_part 0 * 10 ^ (8 - length frac_part)

-- Digits, at most 8 of them behind the point, and at least one digit in all.
pub record IsDecimal (int_part frac_part : Text) : Type 0 where
  pub int_digits : all_digits int_part ≡ true
  pub frac_digits : all_digits frac_part ≡ true
  pub short : length frac_part ≤ 8
  pub some_digit : (is_empty int_part && is_empty frac_part) ≡ false

pow10-add : (a b : ℕ) → 10 ^ a * 10 ^ b ≡ 10 ^ (a + b)
pow10-add zero b = rw zero-add (omega arith)
pow10-add (suc a) b = rw (suc-add, pow-suc, pow-suc) (omega (arith, pow10-add a b))

pow10_split : (n : ℕ) → n ≤ 8 → 10 ^ n * 10 ^ (8 - n) ≡ scale
pow10_split n h = let e : n + (8 - n) ≡ 8 = omega arith in rw (pow10-add, e)

value-pad_frac :
    (int_part frac_part : Text)
    → length frac_part ≤ 8
    → value (int_part ++ pad_frac frac_part) 0 ≡ amount int_part frac_part
unfolding pad_frac
value-pad_frac s t h =
    let v = value s 0 in
    let k = 8 - length t in
    omega (
      arith,
      value-append s (t ++ replicate k b'0') 0,
      value-append t (replicate k b'0') v,
      value-replicate k (value t v),
      ap (λ (n : ℕ). n * 10 ^ k) (value_shift t v),
      ap (λ (p : ℕ). v * p) (pow10_split (length t) h),
    )

all_digits-nil : all_digits [] ≡ true
unfolding all_digits
all_digits-nil = refl

all_digits-zero : (t : Text) → all_digits (b'0' ∷ t) ≡ all_digits t
unfolding all_digits
all_digits-zero t = refl

-- Digit texts are read as their amount, or overflow where it is no uint64.
pub parse_parts_exact :
    (int_part frac_part : Text)
    → IsDecimal int_part frac_part
    → parse_parts int_part frac_part ≡ (
        if ltb (amount int_part frac_part) u64_mod
        then ok (amount int_part frac_part)
        else err overflow)
unfolding parse_parts
parse_parts_exact [] t h =
    ground (
      arith,
      parse_uint_exact (b'0' ∷ pad_frac t) 0,
      value-pad_frac (b'0' ∷ []) t,
      all_digits-zero t,
    )
parse_parts_exact (c ∷ s) t h = ground (
  arith,
  parse_uint_exact ((c ∷ s) ++ pad_frac t) 0,
  value-pad_frac (c ∷ s) t,
  all_digits-append (c ∷ s) t,
)

-- All other texts are invalid.
pub parse_parts_refuses :
    (int_part frac_part : Text)
    → ¬ IsDecimal int_part frac_part
    → parse_parts int_part frac_part ≡ err invalid
unfolding parse_parts
parse_parts_refuses [] [] h = refl
parse_parts_refuses [] (d ∷ t) h = ground (arith, all_digits-zero (d ∷ t), all_digits-nil)
parse_parts_refuses (c ∷ s) t h = ground (arith, all_digits-append (c ∷ s) t)

-- The text between its outer spaces holds no sign and no exponent, and is split at its first point
-- into digits.
pub record IsAmount (text : Text) : Type 0 where
  pub unsigned : contains_any (trim_space text) ≡ false
  pub decimal : IsDecimal (split_point (trim_space text)).0 (split_point (trim_space text)).1

abbrev pub amount_of : Text → ℕ
amount_of text = let parts = split_point (trim_space text) in amount parts.0 parts.1

split_point-nil : split_point [] ≡ ([], [])
unfolding split_point
split_point-nil = refl

not-IsDecimal-nil : (s : Text) → is_empty s ≡ true → ¬ IsDecimal (split_point s).0 (split_point s).1
not-IsDecimal-nil [] e h = unfold split_point in cc (h.some_digit)
not-IsDecimal-nil (c ∷ s) e h = cc

-- `Parse` returns the exact amount of an amount text, or overflow if that is no uint64; every other
-- text is invalid.
pub parse_exact :
    (text : Text)
    → (IsAmount text
        → parse text ≡ (if ltb (amount_of text) u64_mod then ok (amount_of text) else err overflow))
      × (¬ IsAmount text → parse text ≡ err invalid)
unfolding parse
parse_exact text =
    let s = trim_space text in
    let parts = split_point s in
    (
      (λ h. ground (arith, not-IsDecimal-nil s, parse_parts_exact parts.0 parts.1 h.decimal)),
      (λ h. ground (arith, parse_parts_refuses parts.0 parts.1)),
    )
