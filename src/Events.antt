-- ===== src/Events.antt =====
-- Package events (internal/events/events.go): what the matching engine publishes and is told. The
-- JSON of a payload is decoded by encoding/json, which is not modelled: an event holds what decoding
-- its data as a trade and as an order update gives, `none` for an error.
use lcex.Prelude.{ℕ, Bool, Option}
use lcex.Prelude.Text.{Text}

pub record Trade : Type 0 where
  pub trade_id : ℕ
  pub maker_order_id : ℕ
  pub taker_order_id : ℕ
  pub maker_user_id : ℕ
  pub taker_user_id : ℕ
  pub side : Text
  pub price : ℕ
  pub qty : ℕ

pub record OrderUpdate : Type 0 where
  pub order_id : ℕ
  pub user_id : ℕ
  pub side : Text
  pub price : Option ℕ
  pub status : Text
  pub filled_qty : ℕ
  pub qty : ℕ

-- `as_trade` and `as_order_update` are the results of `Event.Trade` and `Event.OrderUpdate`.
pub record Event : Type 0 where
  pub seq : ℕ
  pub kind : Text
  pub as_trade : Option Trade
  pub as_order_update : Option OrderUpdate

pub record PlaceCommand : Type 0 where
  pub order_id : ℕ
  pub user_id : ℕ
  pub side : Text
  pub order_type : Text
  pub tif : Text
  pub stp : Text
  pub post_only : Bool
  pub price : Option ℕ
  pub qty : ℕ

pub record CancelCommand : Type 0 where
  pub order_id : ℕ
  pub user_id : ℕ
