-- ===== src/MarketData/Consumer.antt =====
-- The consumer of the market data service (services/market/consumer.go): `handleRecord`.
pub mod Steady
use lcex.Prelude.{ℕ, ◌++◌, ◌==◌, List, [], ◌∷◌, map, Option, none, some, if◌then◌else◌}
use lcex.Prelude.Text.{Text, codes, to_upper}
use lcex.Fixed.{format}
use lcex.Events.{Event}
use lcex.MarketData.{Side, bids, asks, ChangedLevel, TradeRow}
use lcex.MarketData.Store.{StateStore, Published, apply, seq_of}
use lcex.MarketData.Views.{ticker}
use lcex.MarketData.Klines.{last_candle_locked}
use lcex.MarketData.Hub.{WsHub, depth_update, new_trade, new_ticker, new_kline, publish}
use lcex.MarketData.Channels.{◌then_hub◌, topic}

-- `strings.TrimPrefix`
unfoldable pub strip : Text → Text → Option Text
strip [] s = some s
strip (p ∷ ps) [] = none
strip (p ∷ ps) (c ∷ s) = let rest = strip ps s in if p == c then rest else none

unfoldable pub trim_prefix : Text → Text → Text
trim_prefix p s = elim (strip p s) [ none ↦ s | some rest ↦ rest ]

-- The symbol of a topic
unfoldable pub symbol_of : Text → Text → Text
symbol_of prefix name = to_upper (trim_prefix (prefix ++ codes ".events.") name)

-- The levels of a side, as they are shown.
unfoldable pub shown : Side → List ChangedLevel → List (Text × Text)
shown side [] = []
shown side (l ∷ ls) =
    let rest = shown side ls in
    let row : Text × Text = (format l.price, format l.total) in
    elim side [
      | bids ↦ elim l.side_idx [ bids ↦ row ∷ rest | asks ↦ rest ]
      | asks ↦ elim l.side_idx [ bids ↦ rest | asks ↦ row ∷ rest ]
    ]

-- The levels are published, if there are any.
unfoldable pub publish_levels : Text → List ChangedLevel → StateStore → WsHub → Option WsHub
publish_levels symbol [] s h = some h
publish_levels symbol (l ∷ ls) s h =
    publish (topic (codes "depth") symbol)
      (depth_update symbol
        (record { seq = seq_of symbol s; bids = shown bids (l ∷ ls); asks = shown asks (l ∷ ls) }))
      h

unfoldable pub publish_ticker : ℕ → Text → StateStore → WsHub → Option WsHub
publish_ticker now symbol s h = elim (ticker now symbol s) [
  | none ↦ some h
  | some t ↦ publish (topic (codes "ticker") symbol) (new_ticker symbol t) h
]

unfoldable pub publish_candle : Text → StateStore → WsHub → Option WsHub
publish_candle symbol s h = elim (last_candle_locked symbol s) [
  | none ↦ some h
  | some c ↦
      publish (topic (codes "kline") (topic symbol (codes "1m"))) (new_kline symbol (codes "1m") c)
        h
]

-- A trade is published, and with it ticker and candle.
unfoldable pub publish_trade : ℕ → Text → Option TradeRow → StateStore → WsHub → Option WsHub
publish_trade now symbol none s h = some h
publish_trade now symbol (some row) s h =
    publish (topic (codes "trades") symbol) (new_trade symbol row) h
    then_hub publish_ticker now symbol s
    then_hub publish_candle symbol s

unfoldable pub publish_changes :
    ℕ → Text → StateStore × Published → WsHub → Option (StateStore × WsHub)
publish_changes now symbol (s, changes) h =
    elim (publish_levels symbol changes.levels s h
      then_hub publish_trade now symbol changes.trade s) [ none ↦ none | some h' ↦ some (s, h') ]

-- `handleRecord`, of the record's topic and its decoded value, `none` for an error; `now` is the clock
-- for the trade, `shown_at` that for the ticker.
unfoldable pub handle_record :
    Text → Text → Option Event → ℕ → ℕ → StateStore × WsHub → Option (StateStore × WsHub)
handle_record prefix name none now shown_at (s, h) = some (s, h)
handle_record prefix name (some ev) now shown_at (s, h) =
    let symbol = symbol_of prefix name in publish_changes shown_at symbol (apply now symbol ev s) h
