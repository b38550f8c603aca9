-- ===== src/Quotes/Grid.antt =====
-- On `buildGrid` and `inventorySkewBps` of services/market-maker/quote.go: the shape of the grid and the
-- bounds of the skew.
use lcex.Prelude.{
  ℕ, zero, suc, max, ◌+◌, ◌*◌, ◌≤◌, ◌<◌, ◌||◌, ◌==◌, List, [], ◌∷◌, length, leb, if◌then◌else◌,
  arith, Result, ok, err, Bool-cases, inl, inr,
}
use lcex.Prelude.Int.{
  ℤ, pos, pos_part, ◌+ℤ◌, ◌-ℤ◌, ◌*ℤ◌, ◌≤ℤ◌, ltb_ℤ, leb_ℤ, minus_parts, neg_part_of_nonneg,
}
use lcex.Prelude.Word.{i64_mod, add64, int64, wrap64, wrap64_exact}
use lcex.Prelude.Text.{Text, codes}
use lcex.Fixed.{FixedErr, scale, mul_div}
use lcex.Quotes.{
  Quote, QuoteErr, scale_bps, quot, clamp, skew_of, inventory_skew_bps, pair_of, too_far, grid_from,
  build_grid,
}

-- The quotes come in pairs of a bid and an ask of the same quantity, the bid positive and below the ask.
pub data IsGrid (qty : Text) : List Quote → Type 0 where
  no_level : IsGrid qty []
  level :
      (bid ask : ℕ) (rest : List Quote)
      → 0 < bid
      → bid < ask
      → IsGrid qty rest
      → IsGrid qty (
          record { side = codes "bid"; price = bid; qty = qty }
          ∷ record { side = codes "ask"; price = ask; qty = qty }
          ∷ rest)

pair_of-IsGrid :
    (bid ask : Result QuoteErr ℕ) (qty : Text) (rest : List Quote)
    → IsGrid qty rest
    → IsGrid qty (pair_of bid ask qty rest)
pair_of-IsGrid (err e) ask qty rest h = h
pair_of-IsGrid (ok bid) (err e) qty rest h = h
pair_of-IsGrid (ok bid) (ok ask) qty rest h =
    elim (Bool-cases (bid == 0 || ask == 0 || leb ask bid)) [
      | inl t ↦ rw t h
      | inr f ↦ rw f (level bid ask rest (ground arith) (ground arith) h)
    ]

pair_of-length :
    (bid ask : Result QuoteErr ℕ) (qty : Text) (rest : List Quote)
    → length (pair_of bid ask qty rest) ≤ 2 + length rest
pair_of-length bid ask qty rest = ground arith

grid_from-IsGrid :
    (i n index : ℕ) (half_spread skew max_offset : ℤ) (qty : Text)
    → IsGrid qty (grid_from i n index half_spread skew max_offset qty)
      × (length (grid_from i n index half_spread skew max_offset qty) ≤ 2 * n)
unfolding grid_from
grid_from-IsGrid i zero index half_spread skew max_offset qty = (no_level, omega arith)
grid_from-IsGrid i (suc n) index half_spread skew max_offset qty =
    let rest = grid_from (i + 1) n index half_spread skew max_offset qty in
    let (grid, few) = grid_from-IsGrid (i + 1) n index half_spread skew max_offset qty in
    let step = wrap64 (half_spread *ℤ pos i) in
    let bid_bps = wrap64 (skew -ℤ step) in
    let ask_bps = wrap64 (skew +ℤ step) in
    let bid = scale_bps index bid_bps in
    let ask = scale_bps index ask_bps in
    elim (Bool-cases (too_far max_offset bid_bps || too_far max_offset ask_bps)) [
      | inl t ↦ rw t (grid, omega (arith, few))
      | inr f ↦ rw f (
        pair_of-IsGrid bid ask qty rest grid,
        omega (arith, few, pair_of-length bid ask qty rest),
      )
    ]

-- Whatever its arguments are, the grid consists of pairs of a bid and an ask, each bid positive and
-- below its ask, and has at most two quotes for each level that is asked for, where fewer than one count
-- as one.
pub build_grid-IsGrid :
    (index : ℕ) (levels half_spread skew max_offset : ℤ) (qty : Text)
    → IsGrid qty (build_grid index levels half_spread skew max_offset qty)
      × (length (build_grid index levels half_spread skew max_offset qty)
          ≤ 2 * max 1 (pos_part levels))
unfolding build_grid
build_grid-IsGrid index levels half_spread skew max_offset qty =
    let n = if ltb_ℤ levels (pos 1) then 1 else pos_part levels in
    let (grid, few) = grid_from-IsGrid 1 n index half_spread skew max_offset qty in
    (grid, ground (arith, few))

clamp_bounds :
    (max s : ℤ)
    → pos 0 ≤ℤ max
    → pos_part max < i64_mod
    → (pos 0 -ℤ max ≤ℤ clamp max s) × (clamp max s ≤ℤ max)
unfolding clamp
clamp_bounds max s h k =
    let minus = minus_parts max in
    let sign = neg_part_of_nonneg max h in
    let exact = wrap64_exact (pos 0 -ℤ max) (omega (arith, minus, sign)) in
    rw exact (ground (arith, minus, sign))

skew_of_bounds :
    (base_val : Result FixedErr ℕ) (quote_qty : ℕ) (max_skew : ℤ)
    → pos 0 ≤ℤ max_skew
    → pos_part max_skew < i64_mod
    → (pos 0 -ℤ max_skew ≤ℤ skew_of base_val quote_qty max_skew)
      × (skew_of base_val quote_qty max_skew ≤ℤ max_skew)
skew_of_bounds (err e) quote_qty max_skew h k =
    omega (arith, minus_parts max_skew, neg_part_of_nonneg max_skew h)
skew_of_bounds (ok base_val) quote_qty max_skew h k =
    let num = wrap64 (int64 base_val -ℤ int64 quote_qty) in
    let s =
      wrap64
        (quot (wrap64 (wrap64 (pos 0 -ℤ num) *ℤ max_skew)) (int64 (add64 base_val quote_qty))) in
    elim (Bool-cases (add64 base_val quote_qty == 0)) [
      | inl t ↦ rw t (omega (arith, minus_parts max_skew, neg_part_of_nonneg max_skew h))
      | inr f ↦ rw f (clamp_bounds max_skew s h k)
    ]

-- For a bound that is a non-negative int64 the skew never exceeds it in size, whatever wraps around on
-- the way.
pub skew_bounds :
    (base_qty quote_qty index : ℕ) (max_skew : ℤ)
    → pos 0 ≤ℤ max_skew
    → pos_part max_skew < i64_mod
    → let skew = inventory_skew_bps base_qty quote_qty index max_skew in
      (pos 0 -ℤ max_skew ≤ℤ skew) × (skew ≤ℤ max_skew)
unfolding inventory_skew_bps
skew_bounds base_qty quote_qty index max_skew h k =
    let minus = minus_parts max_skew in
    let sign = neg_part_of_nonneg max_skew h in
    elim (Bool-cases (leb_ℤ max_skew (pos 0) || index == 0)) [
      | inl t ↦ rw t (omega (arith, minus, sign))
      | inr f ↦ rw f (skew_of_bounds (mul_div base_qty index scale) quote_qty max_skew h k)
    ]
