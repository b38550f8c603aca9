-- ===== src/Settlement/Amounts.antt =====
-- The amounts of a settlement as exact numbers, where no conversion wraps around.
use native.Mathlib.Nat.{div-le_of_le-mul}
use lcex.Prelude.{ℕ, ◌+◌, ◌*◌, ◌/◌, ◌≤◌, ◌<◌, ◌≡◌, arith, if◌then◌else◌, ok}
use lcex.Prelude.Int.{pos, ◌-ℤ◌, zero-sub_parts}
use lcex.Prelude.Word.{u64_mod, i64_mod, int64_exact, wrap64_exact}
use lcex.Prelude.Text.{codes, text_eq}
use lcex.Fixed.{scale, mul_div}
use lcex.Fixed.MulDiv.{mul_div_exact}
use lcex.Markets.{Market}
use lcex.Events.{Trade}
use lcex.Settlement.{settlement, taker_buys, taker_sells, minus_int64}

-- The quote amount of a trade, and a fee on an amount, both rounded down.
abbrev pub quote_amount : Trade → ℕ
quote_amount t = t.price * t.qty / scale

abbrev pub fee_on : ℕ → ℕ → ℕ
fee_on amount rate = amount * rate / scale

-- A rate of at most 1 takes at most the amount.
pub fee_on-le : (amount rate : ℕ) → rate ≤ scale → fee_on amount rate ≤ amount
fee_on-le amount rate h = div-le_of_le-mul scale (grind arith)

-- The rates are at most 1, and four times the quote amount with twice the quantity fit in an int64.
pub record IsSmall (m : Market) (t : Trade) : Type 0 where
  pub taker : m.taker_rate ≤ scale
  pub maker : m.maker_rate ≤ scale
  pub room : 4 * quote_amount t + 2 * t.qty < i64_mod

mul_div_fits : (a b : ℕ) → a * b / scale < u64_mod → mul_div a b scale ≡ ok (a * b / scale)
mul_div_fits a b h = ground (arith, mul_div_exact a b scale)

pub settlement_exact :
    (m : Market) (t : Trade)
    → IsSmall m t
    → let qa = quote_amount t in
      let taker_fee = fee_on qa m.taker_rate in
      let maker_fee = fee_on qa m.maker_rate in
      settlement m t
      ≡ ok (
          if text_eq t.side (codes "bid")
          then taker_buys m t qa taker_fee maker_fee
          else taker_sells m t qa taker_fee maker_fee)
unfolding settlement
settlement_exact m t h =
    let qa = quote_amount t in
    rw (
      mul_div_fits t.price t.qty (omega (arith, h.room)),
      mul_div_fits qa m.taker_rate (omega (arith, h.room, fee_on-le qa m.taker_rate h.taker)),
      mul_div_fits qa m.maker_rate (omega (arith, h.room, fee_on-le qa m.maker_rate h.maker)),
    )

pub minus_int64_exact : (w : ℕ) → w < i64_mod → minus_int64 w ≡ pos 0 -ℤ pos w
unfolding minus_int64
minus_int64_exact w h =
    rw (int64_exact w h) (wrap64_exact (pos 0 -ℤ pos w) (omega (arith, zero-sub_parts w)))
