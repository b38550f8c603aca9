-- ===== src/PriceIndex/Mean.antt =====
-- On `computeIndex` of services/price-index/agg.go: the index is the mean of the fresh prices that are near
-- their median.
use lcex.Prelude.{
  ◌≡◌, ℕ, ◌+◌, ◌-◌, ◌*◌, ◌/◌, Bool, not, ◌&&◌, ◌==◌, List, [], ◌∷◌, length, ltb, if◌then◌else◌,
}
use lcex.Prelude.Int.{ℤ, ◌-ℤ◌, leb_ℤ}
use lcex.Prelude.Text.{Text}
use lcex.PriceIndex.{SourcePrice}
use lcex.PriceIndex.Sums.{sum_of}

-- The source has a price that is no older than `stale`.
abbrev pub is_fresh : ℤ → ℤ → SourcePrice → Bool
is_fresh now stale sp = not (sp.price == 0) && leb_ℤ (now -ℤ sp.ts) stale

abbrev pub fresh_prices : ℤ → ℤ → List (Text × SourcePrice) → List ℕ
fresh_prices now stale [] = []
fresh_prices now stale ((name, sp) ∷ pxs) =
    let rest = fresh_prices now stale pxs in if is_fresh now stale sp then sp.price ∷ rest else rest

-- The distance from `m`, in units of `m / 10 ^ 8` and rounded down, is at most `max_dev`.
abbrev pub is_near : ℕ → ℕ → ℕ → Bool
is_near m max_dev p = ltb (((p - m) + (m - p)) * 100000000) ((max_dev + 1) * m)

abbrev pub near_prices : ℕ → ℕ → List ℕ → List ℕ
near_prices m max_dev [] = []
near_prices m max_dev (p ∷ ps) =
    let rest = near_prices m max_dev ps in if is_near m max_dev p then p ∷ rest else rest

-- `index` is the mean of the numbers, and there is none without a number.
abbrev pub IsMean : List ℕ → Bool → ℕ → Type 0
IsMean ps is_ok index =
    (is_ok ≡ not (length ps == 0)) × (index ≡ (if length ps == 0 then 0 else sum_of ps / length ps))
