-- ===== src/Quotes.antt =====
-- The quotes of the market maker (services/market-maker/quote.go): prices off the index by basis points,
-- the skew against the inventory, and the grid. A Go `int` has 64 bits.
pub mod Grid
use lcex.Prelude.{
  ℕ, zero, suc, ◌+◌, ◌*◌, ◌-◌, ◌/◌, Bool, true, false, not, ◌&&◌, ◌||◌, ◌==◌, List, [], ◌∷◌, ltb,
  leb, if◌then◌else◌, Result, ok, err, map_err,
}
use lcex.Prelude.Int.{ℤ, pos, pos_part, neg_part, ◌+ℤ◌, ◌-ℤ◌, ◌*ℤ◌, ltb_ℤ, leb_ℤ}
use lcex.Prelude.Word.{add64, int64, uint64, wrap64}
use lcex.Prelude.Text.{Text, codes}
use lcex.Fixed.{FixedErr, scale, mul_div}

pub record Quote : Type 0 where
  pub side : Text
  pub price : ℕ
  pub qty : Text

pub data QuoteErr : Type 0 where
  too_large : QuoteErr
  arithmetic : FixedErr → QuoteErr

-- `scaleBps`
unfoldable pub scale_bps : ℕ → ℤ → Result QuoteErr ℕ
scale_bps px bps =
    let n = uint64 (wrap64 (pos 0 -ℤ bps)) in
    if not (ltb_ℤ bps (pos 0))
    then map_err arithmetic (mul_div px (uint64 (wrap64 (pos 10000 +ℤ bps))) 10000)
    else if leb 10000 n
    then err too_large
    else map_err arithmetic (mul_div px (10000 - n) 10000)

-- `absInt`
unfoldable pub abs_int : ℤ → ℤ
abs_int v = if ltb_ℤ v (pos 0) then wrap64 (pos 0 -ℤ v) else v

-- The quotient of two integers, rounded towards 0.
unfoldable pub quot : ℤ → ℤ → ℤ
quot a b =
    let q = (pos_part a + neg_part a) / (pos_part b + neg_part b) in
    let opposite = if ltb_ℤ a (pos 0) then not (ltb_ℤ b (pos 0)) else ltb_ℤ b (pos 0) in
    if opposite then pos 0 -ℤ pos q else pos q

-- `if s > max { s = max }` and `if s < -max { s = -max }`
unfoldable pub clamp : ℤ → ℤ → ℤ
clamp max s =
    let s' = if ltb_ℤ max s then max else s in
    if ltb_ℤ s' (wrap64 (pos 0 -ℤ max)) then wrap64 (pos 0 -ℤ max) else s'

abbrev pub skew_of : Result FixedErr ℕ → ℕ → ℤ → ℤ
skew_of (err e) quote_qty max_skew = pos 0
skew_of (ok base_val) quote_qty max_skew =
    let total = add64 base_val quote_qty in
    let num = wrap64 (int64 base_val -ℤ int64 quote_qty) in
    if total == 0
    then pos 0
    else clamp max_skew (wrap64 (quot (wrap64 (wrap64 (pos 0 -ℤ num) *ℤ max_skew)) (int64 total)))

-- `inventorySkewBps`
unfoldable pub inventory_skew_bps : ℕ → ℕ → ℕ → ℤ → ℤ
inventory_skew_bps base_qty quote_qty index max_skew =
    if leb_ℤ max_skew (pos 0) || index == 0
    then pos 0
    else skew_of (mul_div base_qty index scale) quote_qty max_skew

-- The two quotes of a level, unless an error or a crossed pair drops them.
abbrev pub pair_of : Result QuoteErr ℕ → Result QuoteErr ℕ → Text → List Quote → List Quote
pair_of (ok bid) (ok ask) qty rest =
    if bid == 0 || ask == 0 || leb ask bid
    then rest
    else record { side = codes "bid"; price = bid; qty = qty }
      ∷ record { side = codes "ask"; price = ask; qty = qty }
      ∷ rest
pair_of _ _ qty rest = rest

abbrev pub too_far : ℤ → ℤ → Bool
too_far max_offset bps = ltb_ℤ (pos 0) max_offset && ltb_ℤ max_offset (abs_int bps)

-- The loop of `buildGrid`, from level `i` on for `n` levels.
unfoldable pub grid_from : ℕ → ℕ → ℕ → ℤ → ℤ → ℤ → Text → List Quote
grid_from i zero index half_spread skew max_offset qty = []
grid_from i (suc n) index half_spread skew max_offset qty =
    let rest = grid_from (i + 1) n index half_spread skew max_offset qty in
    let step = wrap64 (half_spread *ℤ pos i) in
    let bid_bps = wrap64 (skew -ℤ step) in
    let ask_bps = wrap64 (skew +ℤ step) in
    if too_far max_offset bid_bps || too_far max_offset ask_bps
    then rest
    else pair_of (scale_bps index bid_bps) (scale_bps index ask_bps) qty rest

-- `buildGrid`
unfoldable pub build_grid : ℕ → ℤ → ℤ → ℤ → ℤ → Text → List Quote
build_grid index levels half_spread skew max_offset qty =
    let n = if ltb_ℤ levels (pos 1) then 1 else pos_part levels in
    grid_from 1 n index half_spread skew max_offset qty
