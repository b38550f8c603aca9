-- ===== src/Request/Covers.antt =====
-- On the amount that `handlePlace` (services/order/api.go) reserves for a bid, and the fills of the bid.
use native.Mathlib.Nat.{mul-le-mul_left, mul-le-mul_right}
use lcex.Prelude.{ℕ, ◌+◌, ◌*◌, ◌/◌, ◌≤◌, ◌<◌, ◌≡◌, refl, List, [], ◌∷◌, All, arith, ok}
use lcex.Prelude.Word.{i64_mod}
use lcex.Fixed.{scale}
use lcex.Fixed.MulDiv.{div_ceil, mul_div_exact, mul_div_ceil_exact}
use lcex.Markets.{Market}
use lcex.Settlement.Amounts.{fee_on}
use lcex.Request.{reserve_bid}

-- A fill of a bid: a quantity at a price, and the rate of the fee on it.
pub record Fill : Type 0 where
  pub price : ℕ
  pub qty : ℕ
  pub rate : ℕ

-- What the settlement of the fill takes from the frozen balance.
abbrev pub paid : Fill → ℕ
paid f = let qa = f.price * f.qty / scale in qa + fee_on qa f.rate

abbrev pub paid_all : List Fill → ℕ
paid_all [] = 0
paid_all (f ∷ fs) = paid f + paid_all fs

abbrev pub filled : List Fill → ℕ
filled [] = 0
filled (f ∷ fs) = f.qty + filled fs

-- The fills of an order: at its price or below, at a rate of at most the taker's.
abbrev pub AreFillsAt : ℕ → ℕ → List Fill → Type 0
AreFillsAt price rate = All (λ (f : Fill). (f.price ≤ price) × (f.rate ≤ rate))

abbrev quotes : List Fill → ℕ
quotes [] = 0
quotes (f ∷ fs) = f.price * f.qty / scale + quotes fs

abbrev fees : List Fill → ℕ
fees [] = 0
fees (f ∷ fs) = fee_on (f.price * f.qty / scale) f.rate + fees fs

paid_parts : (fs : List Fill) → paid_all fs ≡ quotes fs + fees fs
paid_parts [] = refl
paid_parts (f ∷ fs) = omega (arith, paid_parts fs)

-- Amounts rounded down add up to at most the sum rounded down.
quotes-le :
    (price rate : ℕ) (fs : List Fill)
    → AreFillsAt price rate fs
    → quotes fs ≤ price * filled fs / scale
quotes-le price rate [] h = omega arith
quotes-le price rate (f ∷ fs) h =
    let part : f.price * f.qty ≤ price * f.qty = mul-le-mul_right f.qty h.0.0 in
    let whole : price * (f.qty + filled fs) ≡ price * f.qty + price * filled fs = grind arith in
    omega (arith, part, whole, quotes-le price rate fs h.1)

fees-le :
    (price rate : ℕ) (fs : List Fill)
    → AreFillsAt price rate fs
    → fees fs ≤ quotes fs * rate / scale
fees-le price rate [] h = omega arith
fees-le price rate (f ∷ fs) h =
    let q = f.price * f.qty / scale in
    let part : q * f.rate ≤ q * rate = mul-le-mul_left q h.0.1 in
    let whole : (q + quotes fs) * rate ≡ q * rate + quotes fs * rate = grind arith in
    omega (arith, part, whole, fees-le price rate fs h.1)

-- The fee rounded up is at least the fee, and at most the amount.
ceil_bounds :
    (qa rate : ℕ)
    → rate ≤ scale
    → (qa * rate / scale ≤ div_ceil (qa * rate) scale) × (div_ceil (qa * rate) scale ≤ qa)
ceil_bounds qa rate h =
    let most : qa * rate ≤ qa * scale = mul-le-mul_left qa h in ground (arith, most)

reserve_bid_exact :
    (m : Market) (price qty reserved : ℕ)
    → m.taker_rate ≤ scale
    → price * qty / scale < i64_mod
    → reserve_bid m price qty ≡ ok reserved
    → reserved ≡ price * qty / scale + div_ceil (price * qty / scale * m.taker_rate) scale
unfolding reserve_bid
reserve_bid_exact m price qty reserved h small e =
    let qa = price * qty / scale in
    let (low, high) = ceil_bounds qa m.taker_rate h in
    ground (arith, mul_div_exact price qty scale, mul_div_ceil_exact qa m.taker_rate scale)

-- A bid whose quote amount is below 2 ^ 63, in a market whose taker rate is at most 1, reserves enough
-- for all its fills: whatever the quantities, which add up to at most its own, the prices, none above
-- its own, and the rates, none above the taker's, what their settlements take with the fees is at most
-- the reserve.
pub reservation_covers :
    (m : Market) (price qty reserved : ℕ) (fs : List Fill)
    → m.taker_rate ≤ scale
    → price * qty / scale < i64_mod
    → reserve_bid m price qty ≡ ok reserved
    → AreFillsAt price m.taker_rate fs
    → filled fs ≤ qty
    → paid_all fs ≤ reserved
reservation_covers m price qty reserved fs h small e at le =
    let qa = price * qty / scale in
    let (low, _) = ceil_bounds qa m.taker_rate h in
    let notional = quotes-le price m.taker_rate fs at in
    let more : price * filled fs ≤ price * qty = mul-le-mul_left price le in
    let total : quotes fs ≤ qa = omega (arith, notional, more) in
    let on_all : quotes fs * m.taker_rate ≤ qa * m.taker_rate =
      mul-le-mul_right m.taker_rate total in
    omega (
      arith,
      paid_parts fs,
      fees-le price m.taker_rate fs at,
      on_all,
      low,
      reserve_bid_exact m price qty reserved h small e,
    )
