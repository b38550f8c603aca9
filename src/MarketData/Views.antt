-- ===== src/MarketData/Views.antt =====
-- What the market data service reads from its state (services/market/state.go): `topLevels`, `Depth`,
-- `Ticker`, `Tickers`, `RecentTrades`. A loop over a Go map visits its
-- entries in an order of its own: the order of the table, which is arbitrary.
use lcex.Prelude.{
  ℕ, ◌-◌, ◌*◌, ◌/◌, ◌%◌, Bool, true, false, ◌&&◌, ◌||◌, ◌==◌, List, [], ◌∷◌, map, reverse, Option,
  none, some, ltb, length, take, drop, if◌then◌else◌, Result, ok, err,
}
use lcex.Prelude.Int.{ℤ, pos, pos_part, ltb_ℤ, leb_ℤ}
use lcex.Prelude.Word.{u64_mod, add64, sub64}
use lcex.Prelude.Text.{Text, text_lt}
use lcex.Prelude.Sort.{sort}
use lcex.Prelude.Table.{keys}
use lcex.Fixed.{scale, mul_div, format, FixedErr}
use lcex.MarketData.{TradeRow, SymbolState, level}
use lcex.MarketData.Store.{StateStore, find_state}

-- The order of the prices: falling for bids, rising for asks.
unfoldable pub comes_first : Bool → ℕ → ℕ → Bool
comes_first true p q = ltb q p
comes_first false p q = ltb p q

unfoldable pub limited : {A : Type 0} → ℤ → List A → List A
limited limit xs =
    if ltb_ℤ (pos 0) limit && ltb (pos_part limit) (length xs) then take (pos_part limit) xs else xs

-- The prices that `topLevels` shows, in its order.
unfoldable pub top_prices : List (ℕ × ℕ) → ℤ → Bool → List ℕ
top_prices m limit desc = limited limit (sort (comes_first desc) (keys m))

-- `topLevels`
unfoldable pub top_levels : List (ℕ × ℕ) → ℤ → Bool → List (Text × Text)
top_levels m limit desc = map (λ p. (format p, format (level p m))) (top_prices m limit desc)

pub record DepthJson : Type 0 where
  pub seq : ℕ
  pub bids : List (Text × Text)
  pub asks : List (Text × Text)

-- `Depth`
unfoldable pub depth_json : Text → ℤ → StateStore → Option DepthJson
depth_json symbol limit s = elim (find_state symbol s) [
  | none ↦ none
  | some st ↦ some record {
    seq = st.last_seq;
    bids = top_levels st.bid_depth limit true;
    asks = top_levels st.ask_depth limit false;
  }
]

-- The fields that the loop of `tickerLocked` adds up.
pub record Window : Type 0 where
  pub high : ℕ
  pub low : ℕ
  pub vol : ℕ
  pub qvol : ℕ

abbrev pub add_ok : ℕ → Result FixedErr ℕ → ℕ
add_ok qvol (ok qa) = add64 qvol qa
add_ok qvol (err e) = qvol

unfoldable pub window_with : TradeRow → Window → Window
window_with tr w = record {
  high = if ltb w.high tr.price then tr.price else w.high;
  low = if ltb tr.price w.low then tr.price else w.low;
  vol = add64 w.vol tr.qty;
  qvol = add_ok w.qvol (mul_div tr.price tr.qty scale);
}

unfoldable pub window_from : Window → List TradeRow → Window
window_from w [] = w
window_from w (tr ∷ trades) = window_from (window_with tr w) trades

-- The last of a list that starts with `row`.
unfoldable pub last_of : TradeRow → List TradeRow → TradeRow
last_of row [] = row
last_of row (next ∷ rows) = last_of next rows

-- `(last - first) * Scale / first` on uint64
unfoldable pub change_pct : ℕ → ℕ → ℕ
change_pct first last = (sub64 last first * scale) % u64_mod / first

pub record TickerJson : Type 0 where
  pub symbol : Text
  pub last : Text
  pub bid : Text
  pub ask : Text
  pub high_24h : Text
  pub low_24h : Text
  pub volume_24h : Text
  pub quote_volume_24h : Text
  pub change_pct_24h : Text
  pub ts : ℕ

-- The price of the best level; empty, if there is none.
abbrev pub best : List (Text × Text) → Text
best [] = []
best (l ∷ levels) = l.0

abbrev pub no_trades : ℕ → SymbolState → TickerJson
no_trades now st = record {
  symbol = st.symbol;
  last = [];
  bid = best (top_levels st.bid_depth (pos 1) true);
  ask = best (top_levels st.ask_depth (pos 1) false);
  high_24h = [];
  low_24h = [];
  volume_24h = [];
  quote_volume_24h = [];
  change_pct_24h = [];
  ts = now;
}

abbrev pub with_window : TradeRow → TradeRow → Window → TickerJson → TickerJson
with_window first last w t = record t {
  last = format last.price;
  high_24h = format w.high;
  low_24h = format w.low;
  volume_24h = format w.vol;
  quote_volume_24h = format w.qvol;
  change_pct_24h = if first.price == 0 then [] else format (change_pct first.price last.price);
}

-- The high, the low and the volumes of the trades, from the last price on.
unfoldable pub window_of : TradeRow → List TradeRow → Window
window_of first rows =
    let last = last_of first rows in
    window_from (record { high = last.price; low = last.price; vol = 0; qvol = 0 }) (first ∷ rows)

abbrev pub ticker_of : ℕ → SymbolState → List TradeRow → TickerJson
ticker_of now st [] = no_trades now st
ticker_of now st (first ∷ rows) =
    with_window first (last_of first rows) (window_of first rows) (no_trades now st)

-- `tickerLocked`
unfoldable pub ticker_locked : ℕ → SymbolState → TickerJson
ticker_locked now st = ticker_of now st st.trades

-- `Ticker`
unfoldable pub ticker : ℕ → Text → StateStore → Option TickerJson
ticker now symbol s = elim (find_state symbol s) [
  | none ↦ none
  | some st ↦ some (ticker_locked now st)
]

-- `sortedSymbols`
unfoldable pub sorted_symbols : StateStore → List Text
sorted_symbols s = sort text_lt (map (λ (e : Text × SymbolState). e.0) s)

unfoldable pub tickers_of : ℕ → StateStore → List Text → List TickerJson
tickers_of now s [] = []
tickers_of now s (symbol ∷ symbols) =
    let rest = tickers_of now s symbols in
    elim (ticker now symbol s) [ none ↦ rest | some t ↦ t ∷ rest ]

-- `Tickers`
unfoldable pub tickers : ℕ → StateStore → List TickerJson
tickers now s = tickers_of now s (sorted_symbols s)

-- The last trades, the latest first.
unfoldable pub latest : ℤ → List TradeRow → List TradeRow
latest limit rows =
    let all = length rows in
    let n = if leb_ℤ limit (pos 0) || ltb_ℤ (pos all) limit then all else pos_part limit in
    reverse (drop (all - n) rows)

-- `RecentTrades`
unfoldable pub recent_trades : Text → ℤ → StateStore → Option (List TradeRow)
recent_trades symbol limit s = elim (find_state symbol s) [
  | none ↦ none
  | some st ↦ some (latest limit st.trades)
]
