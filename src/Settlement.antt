-- ===== src/Settlement.antt =====
-- The amounts and the ledger moves of a trade: the first half of `settleTrade`
-- (services/clearing/main.go), with its uint64 arithmetic and its conversions to int64.
pub mod Amounts
pub mod Balanced
use lcex.Prelude.{ℕ, List, [], ◌∷◌, if◌then◌else◌, Result, ok, ◌>>=◌, map_err}
use lcex.Prelude.Int.{ℤ, pos, ◌-ℤ◌}
use lcex.Prelude.Word.{add64, sub64, int64, wrap64}
use lcex.Prelude.Text.{codes, text_eq}
use lcex.Fixed.{scale, mul_div}
use lcex.Db.{Err, amount_err, available, frozen}
use lcex.Ledger.{Move, user_ref, fee_ref}
use lcex.Markets.{Market}
use lcex.Events.{Trade}

-- `-int64(w)` for a uint64 `w`.
unfoldable pub minus_int64 : ℕ → ℤ
minus_int64 w = wrap64 (pos 0 -ℤ int64 w)

pub record Settlement : Type 0 where
  pub moves : List Move
  pub taker_consume : ℤ
  pub maker_consume : ℤ

-- The taker buys: it pays the quote amount and its fee, and receives the base quantity.
unfoldable pub taker_buys : Market → Trade → ℕ → ℕ → ℕ → Settlement
taker_buys m t qa taker_fee maker_fee = record {
  moves =
      record {
        account = user_ref (int64 t.taker_user_id) m.quote frozen;
        delta = minus_int64 (add64 qa taker_fee);
      }
      ∷ record { account = user_ref (int64 t.taker_user_id) m.base available; delta = int64 t.qty }
      ∷ record {
        account = user_ref (int64 t.maker_user_id) m.base frozen;
        delta = minus_int64 t.qty;
      }
      ∷ record {
        account = user_ref (int64 t.maker_user_id) m.quote available;
        delta = int64 (sub64 qa maker_fee);
      }
      ∷ record {
        account = fee_ref (pos 0) m.quote available;
        delta = int64 (add64 taker_fee maker_fee);
      }
      ∷ [];
  taker_consume = int64 (add64 qa taker_fee);
  maker_consume = int64 t.qty;
}

-- The taker sells: it pays the base quantity, and receives the quote amount less its fee.
unfoldable pub taker_sells : Market → Trade → ℕ → ℕ → ℕ → Settlement
taker_sells m t qa taker_fee maker_fee = record {
  moves =
      record { account = user_ref (int64 t.taker_user_id) m.base frozen; delta = minus_int64 t.qty }
      ∷ record {
        account = user_ref (int64 t.taker_user_id) m.quote available;
        delta = int64 (sub64 qa taker_fee);
      }
      ∷ record {
        account = user_ref (int64 t.maker_user_id) m.quote frozen;
        delta = minus_int64 (add64 qa maker_fee);
      }
      ∷ record { account = user_ref (int64 t.maker_user_id) m.base available; delta = int64 t.qty }
      ∷ record {
        account = fee_ref (pos 0) m.quote available;
        delta = int64 (add64 taker_fee maker_fee);
      }
      ∷ [];
  taker_consume = int64 t.qty;
  maker_consume = int64 (add64 qa maker_fee);
}

unfoldable pub settlement : Market → Trade → Result Err Settlement
settlement m t = do
  qa ← map_err amount_err (mul_div t.price t.qty scale)
  taker_fee ← map_err amount_err (mul_div qa m.taker_rate scale)
  maker_fee ← map_err amount_err (mul_div qa m.maker_rate scale)
  ok (
      if text_eq t.side (codes "bid")
      then taker_buys m t qa taker_fee maker_fee
      else taker_sells m t qa taker_fee maker_fee)
