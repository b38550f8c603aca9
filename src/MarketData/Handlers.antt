-- ===== src/MarketData/Handlers.antt =====
-- The HTTP handlers of the market data service (services/market/api.go), of the values of the query.
use lcex.Prelude.{ℕ, ◌||◌, List, [], ◌∷◌, map, none, some, if◌then◌else◌, ◌++◌}
use lcex.Prelude.Int.{ℤ, pos, ltb_ℤ}
use lcex.Prelude.Text.{Text, codes}
use lcex.Fixed.{is_empty, format}
use lcex.MarketData.{TradeRow}
use lcex.MarketData.Store.{StateStore, normalize_symbol}
use lcex.MarketData.Views.{DepthJson, TickerJson, depth_json, ticker, tickers, recent_trades}
use lcex.MarketData.Klines.{klines}
use lcex.MarketData.Channels.{atoi_default}

-- A trade, as it is shown.
pub record TradeJson : Type 0 where
  pub trade_id : ℕ
  pub symbol : Text
  pub price : Text
  pub qty : Text
  pub side : Text
  pub ts : ℕ

-- `writeErr`, with its message, and `writeData`.
pub data Response : Type 0 where
  bad_request : Text → Response
  depth_data : Text → DepthJson → Response
  tickers_data : List TickerJson → Response
  trades_data : List TradeJson → Response
  klines_data : List (List Text) → Response

abbrev unknown_market : Text → Response
unknown_market symbol = bad_request (codes "unknown market: " ++ symbol)

-- `limit`, with its default, up to a most.
abbrev limit_of : Text → ℤ → ℤ → ℤ
limit_of text def most =
    let limit = atoi_default text def in if ltb_ℤ most limit then most else limit

-- `handleDepth`
unfoldable pub handle_depth : Text → Text → StateStore → Response
handle_depth symbol_text limit s =
    let symbol = normalize_symbol symbol_text in
    if is_empty symbol
    then bad_request (codes "symbol required")
    else elim (depth_json symbol (limit_of limit (pos 50) (pos 500)) s) [
      | none ↦ unknown_market symbol
      | some d ↦ depth_data symbol d
    ]

-- `handleTickers`
unfoldable pub handle_tickers : ℕ → Text → StateStore → Response
handle_tickers now symbol_text s =
    let symbol = normalize_symbol symbol_text in
    if is_empty symbol then tickers_data (tickers now s) else elim (ticker now symbol s) [
      | none ↦ unknown_market symbol
      | some t ↦ tickers_data (t ∷ [])
    ]

abbrev trade_json : Text → TradeRow → TradeJson
trade_json symbol t = record {
  trade_id = t.trade_id;
  symbol = symbol;
  price = format t.price;
  qty = format t.qty;
  side = t.side;
  ts = t.ts;
}

-- `handleTrades`
unfoldable pub handle_trades : Text → Text → StateStore → Response
handle_trades symbol_text limit s =
    let symbol = normalize_symbol symbol_text in
    if is_empty symbol
    then bad_request (codes "symbol required")
    else elim (recent_trades symbol (limit_of limit (pos 50) (pos 500)) s) [
      | none ↦ unknown_market symbol
      | some rows ↦ trades_data (map (trade_json symbol) rows)
    ]

-- `handleKlines`
unfoldable pub handle_klines : Text → Text → Text → StateStore → Response
handle_klines symbol_text interval limit s =
    let symbol = normalize_symbol symbol_text in
    if is_empty symbol || is_empty interval
    then bad_request (codes "symbol and interval required")
    else elim (klines symbol interval (limit_of limit (pos 100) (pos 1000)) s) [
      | none ↦ bad_request (codes "unknown market or interval")
      | some ks ↦ klines_data ks
    ]
