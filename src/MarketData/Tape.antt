-- ===== src/MarketData/Tape.antt =====
-- The trades and candles of a symbol (services/market/state.go): `applyTrade`. Go compares with `now`
-- minus a span of time; the model adds the span on the other side, so that nothing stops at 0.
pub mod Window
use lcex.Prelude.{
  ℕ, ◌+◌, ◌-◌, ◌*◌, ◌%◌, List, [], ◌∷◌, ◌++◌, Option, none, some, ltb, length, drop, if◌then◌else◌,
}
use lcex.Prelude.Word.{add64}
use lcex.Prelude.Table.{find, put}
use lcex.Events.{Trade}
use lcex.MarketData.{TradeRow, Candle, SymbolState}

-- `windows24hMs`
abbrev pub windows_24h_ms : ℕ
windows_24h_ms = 86400000

-- `candle1mMs`
abbrev pub candle_1m_ms : ℕ
candle_1m_ms = 60000

-- `maxKeptTrades`
abbrev pub max_kept_trades : ℕ
max_kept_trades = 5000

-- `maxKeptCandles`
abbrev pub max_kept_candles : ℕ
max_kept_candles = 3000

-- The loop over the trades before the cutoff, which come first.
unfoldable pub drop_old : ℕ → List TradeRow → List TradeRow
drop_old now [] = []
drop_old now (row ∷ rows) =
    let rest = drop_old now rows in if ltb (row.ts + windows_24h_ms) now then rest else row ∷ rows

unfoldable pub keep_last : List TradeRow → List TradeRow
keep_last rows =
    if ltb max_kept_trades (length rows) then drop (length rows - max_kept_trades) rows else rows

-- The candle of the trade's minute after the trade.
unfoldable pub candle_with : ℕ → Trade → Option Candle → Candle
candle_with bucket t none = record {
  start = bucket;
  end = bucket + candle_1m_ms - 1;
  opening = t.price;
  high = t.price;
  low = t.price;
  closing = t.price;
  volume = t.qty;
}
candle_with bucket t (some c) = record c {
  high = if ltb c.high t.price then t.price else c.high;
  low = if ltb t.price c.low then t.price else c.low;
  closing = t.price;
  volume = add64 c.volume t.qty;
}

-- The loop that deletes the old candles.
unfoldable pub keep_candles : ℕ → List (ℕ × Candle) → List (ℕ × Candle)
keep_candles now [] = []
keep_candles now ((b, c) ∷ candles) =
    let rest = keep_candles now candles in
    if ltb (b + max_kept_candles * candle_1m_ms) now then rest else (b, c) ∷ rest

unfoldable pub row_of : ℕ → Trade → ℕ → TradeRow
row_of now t seq = record {
  trade_id = t.trade_id;
  seq = seq;
  price = t.price;
  qty = t.qty;
  side = t.side;
  ts = now;
}

-- `applyTrade`
unfoldable pub apply_trade : ℕ → Trade → ℕ → SymbolState → SymbolState × TradeRow
apply_trade now t seq st =
    let row = row_of now t seq in
    let bucket = now - now % candle_1m_ms in
    let candle = candle_with bucket t (find bucket st.candles) in
    (
      record st {
        trades = keep_last (drop_old now (st.trades ++ (row ∷ [])));
        candles = keep_candles now (put bucket candle st.candles);
      },
      row,
    )
