-- ===== src/PriceIndex.antt =====
-- The aggregation of the price index service (services/price-index/agg.go). The maps from the names of
-- sources are association lists without repeated keys; a time and a duration are integers, in
-- nanoseconds. `sort.Slice` and `sort.Strings` are the sort of Prelude/Sort.
pub mod Median
pub mod Sums
pub mod Mean
pub mod Publish
use lcex.Prelude.{
  ℕ, zero, ◌+◌, ◌-◌, ◌/◌, ◌%◌, Bool, true, false, ◌&&◌, ◌||◌, ◌==◌, List, [], ◌∷◌, ◌++◌, map, ltb,
  leb, if◌then◌else◌, length, get_or, Result, ok, err,
}
use lcex.Prelude.Int.{ℤ, ◌-ℤ◌, ltb_ℤ}
use lcex.Prelude.Word.{u64_mod, add64}
use lcex.Prelude.Text.{Text, codes, text_lt}
use lcex.Prelude.Sort.{sort}
use lcex.Fixed.{FixedErr, scale, mul_div}

pub record SourcePrice : Type 0 where
  pub price : ℕ
  pub ts : ℤ

-- `indexResult`, with the reasons of the rejections in the order of the loops.
pub record IndexResult : Type 0 where
  pub index : ℕ
  pub is_ok : Bool
  pub usable : List Text
  pub rejected : List (Text × Text)

-- `abs64`
abbrev pub distance : ℕ → ℕ → ℕ
distance a b = if ltb b a then a - b else b - a

-- `medianOf`: the lower one of the two in the middle.
unfoldable pub median_of : List (Text × ℕ) → ℕ
median_of pxs = get_or (sort ltb (map (λ (e : Text × ℕ). e.1) pxs)) ((length pxs - 1) / 2) 0

abbrev pub is_stale : ℤ → ℤ → SourcePrice → Bool
is_stale now stale sp = ltb_ℤ stale (now -ℤ sp.ts) || sp.price == 0

-- The first loop: the prices that are fresh, and the sources that are not.
unfoldable pub fresh_of : ℤ → ℤ → List (Text × SourcePrice) → List (Text × ℕ) × List (Text × Text)
fresh_of now stale [] = ([], [])
fresh_of now stale ((name, sp) ∷ pxs) =
    let (fresh, rejected) = fresh_of now stale pxs in
    if is_stale now stale sp
    then (fresh, (name, codes "stale") ∷ rejected)
    else ((name, sp.price) ∷ fresh, rejected)

abbrev pub deviates : Result FixedErr ℕ → ℕ → Bool
deviates (err e) max_dev = true
deviates (ok dev) max_dev = ltb max_dev dev

-- The second loop: the prices that are near the median, and the sources that are not.
unfoldable pub near_of : ℕ → ℕ → List (Text × ℕ) → List (Text × ℕ) × List (Text × Text)
near_of med max_dev [] = ([], [])
near_of med max_dev ((name, p) ∷ fresh) =
    let (near, rejected) = near_of med max_dev fresh in
    if deviates (mul_div (distance p med) scale med) max_dev
    then (near, (name, codes "deviation") ∷ rejected)
    else ((name, p) ∷ near, rejected)

unfoldable pub by_name : Text × ℕ → Text × ℕ → Bool
by_name a b = text_lt a.0 b.0

-- `sum += fresh[name]` on uint64
unfoldable pub sum_from : ℕ → List (Text × ℕ) → ℕ
sum_from sum [] = sum
sum_from sum ((name, p) ∷ usable) = sum_from (add64 sum p) usable

abbrev pub nothing_usable : List (Text × Text) → IndexResult
nothing_usable rejected = record { index = 0; is_ok = false; usable = []; rejected = rejected }

-- The end of `computeIndex`, for the sources that are left.
unfoldable pub average : List (Text × ℕ) → List (Text × Text) → IndexResult
average usable rejected = if length usable == 0 then nothing_usable rejected else record {
  index = sum_from 0 usable / length usable;
  is_ok = true;
  usable = map (λ (e : Text × ℕ). e.0) usable;
  rejected = rejected;
}

unfoldable pub index_of_fresh : ℕ → List (Text × ℕ) → List (Text × Text) → IndexResult
index_of_fresh max_dev fresh stale =
    let (near, far) = near_of (median_of fresh) max_dev fresh in
    if length fresh == 0 then nothing_usable stale else average (sort by_name near) (stale ++ far)

-- `computeIndex`
unfoldable pub compute_index : List (Text × SourcePrice) → ℤ → ℤ → ℕ → IndexResult
compute_index pxs now stale max_dev =
    let (fresh, old) = fresh_of now stale pxs in index_of_fresh max_dev fresh old
