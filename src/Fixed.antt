-- ===== src/Fixed.antt =====
-- Package fixed (internal/fixed/fixed.go): amounts are uint64 multiples of 10 ^ -8. The texts are
-- parsed and printed byte by byte; `bits.Mul64` and `bits.Div64` give the two halves of a product
-- and its quotient; `strconv.FormatUint` prints at most 20 digits, which is enough below 2 ^ 64.
pub mod Digits
pub mod MulDiv
pub mod Accepts
pub mod RoundTrip
use lcex.Prelude.{
  ℕ, zero, suc, ◌+◌, ◌-◌, ◌*◌, ◌/◌, ◌%◌, ◌^◌, Bool, true, false, ◌&&◌, ◌||◌, List, [], ◌∷◌, ◌++◌,
  ltb, leb, ◌==◌, if◌then◌else◌, length, replicate, Result, ok, err, ◌>>=◌, ◌>>◌, fail_if,
}
use lcex.Prelude.Int.{ℤ, pos, negsuc}
use lcex.Prelude.Word.{u64_mod}
use lcex.Prelude.Text.{Text, trim_space}

abbrev pub scale : ℕ
scale = 100000000

pub data FixedErr : Type 0 where
  invalid overflow div_by_zero : FixedErr

-- What `strings.ContainsAny(s, "-+eE")` looks for.
abbrev pub is_sign_or_exp : ℕ → Bool
is_sign_or_exp c = c == b'-' || c == b'+' || c == b'e' || c == b'E'

unfoldable pub contains_any : Text → Bool
contains_any [] = false
contains_any (c ∷ s) = is_sign_or_exp c || contains_any s

-- `strings.IndexByte(s, '.')` and the two slices; with no point the fraction is empty.
unfoldable pub split_point : Text → Text × Text
split_point [] = ([], [])
split_point (c ∷ s) =
    let (int_part, frac_part) = split_point s in
    if c == b'.' then ([], s) else (c ∷ int_part, frac_part)

abbrev pub is_digit : ℕ → Bool
is_digit c = leb b'0' c && leb c b'9'

unfoldable pub all_digits : Text → Bool
all_digits [] = true
all_digits (c ∷ s) = is_digit c && all_digits s

-- `for len(fracPart) < 8 { fracPart += "0" }`
unfoldable pub pad_frac : Text → Text
pad_frac s = s ++ replicate (8 - length s) b'0'

-- `strconv.ParseUint(s, 10, 64)` on a text of digits: `overflow` where the value leaves uint64.
unfoldable pub parse_uint : Text → ℕ → Result FixedErr ℕ
parse_uint [] n = ok n
parse_uint (c ∷ s) n =
    let n' = n * 10 + (c - b'0') in if ltb n' u64_mod then parse_uint s n' else err overflow

abbrev pub is_empty : Text → Bool
is_empty [] = true
is_empty (c ∷ s) = false

-- `fixed.Parse`, from the split at the point on.
unfoldable pub parse_parts : Text → Text → Result FixedErr ℕ
unfolding all_digits pad_frac parse_uint
parse_parts int_part frac_part = do
  fail_if (is_empty int_part && is_empty frac_part) invalid
  fail_if (ltb 8 (length frac_part)) invalid
  let int_part' = if is_empty int_part then b'0' ∷ [] else int_part
  fail_if (if all_digits (int_part' ++ frac_part) then false else true) invalid
  parse_uint (int_part' ++ pad_frac frac_part) 0

unfoldable pub parse : Text → Result FixedErr ℕ
unfolding trim_space contains_any split_point parse_parts
parse text = do
  let s = trim_space text
  fail_if (is_empty s || contains_any s) invalid
  let parts = split_point s
  parse_parts parts.0 parts.1

-- The last `w` decimal digits of `n`, the most significant first.
unfoldable pub pad_digits : ℕ → ℕ → Text
pad_digits zero n = []
pad_digits (suc w) n = pad_digits w (n / 10) ++ (b'0' + n % 10) ∷ []

pub drop_zeros : Text → Text
drop_zeros [] = []
drop_zeros (c ∷ s) = if c == b'0' then drop_zeros s else c ∷ s

-- `strconv.FormatUint(n, 10)`
unfoldable pub format_uint : ℕ → Text
unfolding pad_digits drop_zeros
format_uint n = if n == 0 then b'0' ∷ [] else drop_zeros (pad_digits 20 n)

-- `%d` of an int64
unfoldable pub format_int : ℤ → Text
format_int (pos n) = format_uint n
format_int (negsuc n) = b'-' ∷ format_uint (suc n)

-- `strings.TrimRight(s, "0")`
pub trim_zeros : Text → Text
trim_zeros [] = []
trim_zeros (c ∷ s) = let rest = trim_zeros s in if is_empty rest && c == b'0' then [] else c ∷ rest

unfoldable pub format : ℕ → Text
unfolding format_uint pad_digits trim_zeros
format v =
    let ip = v / scale in
    let fp = v % scale in
    if fp == 0 then format_uint ip else format_uint ip ++ b'.' ∷ trim_zeros (pad_digits 8 fp)

unfoldable pub mul_div : ℕ → ℕ → ℕ → Result FixedErr ℕ
mul_div a b div =
    let hi = a * b / u64_mod in
    let lo = a * b % u64_mod in
    if div == 0
    then err div_by_zero
    else if hi == 0
    then ok (lo / div)
    else if leb div hi
    then err overflow
    else ok ((hi * u64_mod + lo) / div)

-- `q++` on uint64 wraps around.
unfoldable pub mul_div_ceil : ℕ → ℕ → ℕ → Result FixedErr ℕ
mul_div_ceil a b div =
    let hi = a * b / u64_mod in
    let lo = a * b % u64_mod in
    let q = (hi * u64_mod + lo) / div in
    let r = (hi * u64_mod + lo) % div in
    if div == 0
    then err div_by_zero
    else if leb div hi
    then err overflow
    else ok (if ltb 0 r then (q + 1) % u64_mod else q)
