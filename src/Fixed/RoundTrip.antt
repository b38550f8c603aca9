-- ===== src/Fixed/RoundTrip.antt =====
-- What `fixed.Format` prints is read back by `fixed.Parse`.
use mathlib.Core.List.{reverse-append, reverse-reverse}
use lcex.Prelude.{
  ℕ, ◌/◌, ◌%◌, ◌<◌, ◌≡◌, refl, true, false, ◌||◌, [], ◌∷◌, ◌++◌, ◌==◌, arith, ok, reverse, ==_iff,
  Bool-cases, inl, inr, All, All-append,
}
use lcex.Prelude.Word.{u64_mod}
use lcex.Prelude.Text.{Text, trim_space, trim_left}
use lcex.Fixed.{
  scale, contains_any, split_point, all_digits, is_digit, pad_digits, trim_zeros, format_uint,
  format, parse,
}
use lcex.Fixed.Digits
use lcex.Fixed.Accepts.{IsDecimal, IsAmount, amount, amount_of, parse_exact}

-- The bytes of a printed amount.
abbrev IsPlain : ℕ → Type 0
IsPlain c = (is_digit c || c == b'.') ≡ true

All-digits : (s : Text) → all_digits s ≡ true → All IsPlain s
unfolding all_digits
All-digits [] h = tt
All-digits (c ∷ s) h = ground (arith, All-digits s)

trim_left_plain : (s : Text) → All IsPlain s → trim_left s ≡ s
unfolding trim_left
trim_left_plain [] h = refl
trim_left_plain (c ∷ s) h = ground arith

All-reverse : (s : Text) → All IsPlain s → All IsPlain (reverse s)
All-reverse [] h = tt
All-reverse (c ∷ s) h =
    rw (reverse-append (c ∷ []) s)
      (All-append IsPlain (reverse s) (c ∷ []) (All-reverse s h.1) (h.0, tt))

trim_space_plain : (s : Text) → All IsPlain s → trim_space s ≡ s
unfolding trim_space
trim_space_plain s h =
    rw (trim_left_plain s h, trim_left_plain (reverse s) (All-reverse s h)) (reverse-reverse s)

contains_any_plain : (s : Text) → All IsPlain s → contains_any s ≡ false
unfolding contains_any
contains_any_plain [] h = refl
contains_any_plain (c ∷ s) h = ground (arith, contains_any_plain s)

split_point-append : (s t : Text) → all_digits s ≡ true → split_point (s ++ b'.' ∷ t) ≡ (s, t)
unfolding split_point all_digits
split_point-append [] t h = refl
split_point-append (c ∷ s) t h = ground (arith, split_point-append s t)

split_point_digits : (s : Text) → all_digits s ≡ true → split_point s ≡ (s, [])
unfolding split_point all_digits
split_point_digits [] h = refl
split_point_digits (c ∷ s) h = ground (arith, split_point_digits s)

-- A plain text is read as the amount of the parts into which it is split.
parse_plain :
    (s ip fp : Text) (v : ℕ)
    → All IsPlain s
    → split_point s ≡ (ip, fp)
    → IsDecimal ip fp
    → amount ip fp ≡ v
    → v < u64_mod
    → parse s ≡ ok v
parse_plain s ip fp v plain split dec e h =
    let trimmed = trim_space_plain s plain in
    let is_amount : IsAmount s = record {
      unsigned = rw trimmed (contains_any_plain s plain);
      decimal = rw (trimmed, split) dec;
    } in
    let same : amount_of s ≡ v = rw (trimmed, split) e in
    ground (arith, (parse_exact s).0 is_amount)

format_whole : (v : ℕ) → v % scale ≡ 0 → format v ≡ format_uint (v / scale)
unfolding format
format_whole v e = rw e

format_frac :
    (v : ℕ)
    → 0 < v % scale
    → format v ≡ format_uint (v / scale) ++ b'.' ∷ trim_zeros (pad_digits 8 (v % scale))
unfolding format
format_frac v h = ground arith

parse-format_whole : (v : ℕ) → v < u64_mod → v % scale ≡ 0 → parse (format v) ≡ ok v
parse-format_whole v h e =
    let ip = v / scale in
    let digits = Digits.all_digits-format_uint ip in
    rw (format_whole v e) (
      parse_plain (format_uint ip) (format_uint ip) [] v (All-digits _ digits)
        (split_point_digits _ digits)
        (record {
          int_digits = digits;
          frac_digits = unfold all_digits in refl;
          short = omega arith;
          some_digit = rw (Digits.format_uint_nonempty ip (omega arith));
        })
        (omega (arith, Digits.value-format_uint ip)) h)

parse-format_frac : (v : ℕ) → v < u64_mod → 0 < v % scale → parse (format v) ≡ ok v
parse-format_frac v h pos =
    let ip = v / scale in
    let fp = v % scale in
    let eight = pad_digits 8 fp in
    let digits = Digits.all_digits-format_uint ip in
    let frac_digits = Digits.all_digits-trim_zeros eight (Digits.all_digits-pad_digits 8 fp) in
    rw (format_frac v pos) (
      parse_plain _ (format_uint ip) (trim_zeros eight) v
        (All-append IsPlain _ _ (All-digits _ digits) (refl, All-digits _ frac_digits))
        (split_point-append _ _ digits)
        (record {
          int_digits = digits;
          frac_digits = frac_digits;
          short = omega (arith, Digits.length-trim_zeros eight, Digits.length-pad_digits 8 fp);
          some_digit = rw (Digits.format_uint_nonempty ip (omega arith));
        })
        (omega (
          arith,
          Digits.value-format_uint ip,
          Digits.value-trim_zeros eight (Digits.length-pad_digits 8 fp),
          Digits.value-pad_digits 8 fp,
        ))
        h)

-- Every uint64 is read back from the text that is printed for it.
pub parse-format : (v : ℕ) → v < u64_mod → parse (format v) ≡ ok v
parse-format v h = elim (Bool-cases (v % scale == 0)) [
  | inl e ↦ parse-format_whole v h ((==_iff (v % scale) 0).0 e)
  | inr e ↦ parse-format_frac v h (ground arith)
]
