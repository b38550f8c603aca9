-- ===== src/MarketData.antt =====
-- The market data of one symbol (services/market/state.go): its records, and the two sides of the book.
-- A map is a table of Prelude/Table; a time is a number of milliseconds since 1970, below 2 ^ 63, and
-- `now`, where a definition takes it, is what `time.Now().UnixMilli()` returns.
pub mod Book
pub mod Tape
pub mod Store
pub mod Views
pub mod Klines
pub mod Hub
pub mod Channels
pub mod Consumer
pub mod Handlers
use lcex.Prelude.{ℕ, List, [], ◌∷◌, Option, none, some, if◌then◌else◌}
use lcex.Prelude.Table.{find}
use lcex.Prelude.Text.{Text, codes, text_eq}

-- The index into `depth`: 0 for bids, 1 for asks.
pub data Side : Type 0 where
  bids : Side
  asks : Side

pub record RestingOrder : Type 0 where
  pub price : ℕ
  pub remaining : ℕ

pub record TradeRow : Type 0 where
  pub trade_id : ℕ
  pub seq : ℕ
  pub price : ℕ
  pub qty : ℕ
  pub side : Text
  pub ts : ℕ

pub record Candle : Type 0 where
  pub start : ℕ
  pub end : ℕ
  pub opening : ℕ
  pub high : ℕ
  pub low : ℕ
  pub closing : ℕ
  pub volume : ℕ

pub record ChangedLevel : Type 0 where
  pub side_idx : Side
  pub price : ℕ
  pub total : ℕ

pub record SymbolState : Type 0 where
  pub symbol : Text
  pub resting : List (ℕ × RestingOrder)
  pub bid_depth : List (ℕ × ℕ)
  pub ask_depth : List (ℕ × ℕ)
  pub last_seq : ℕ
  pub trades : List TradeRow
  pub candles : List (ℕ × Candle)

-- A symbol before its first event.
abbrev pub new_state : Text → SymbolState
new_state symbol = record {
  symbol = symbol;
  resting = [];
  bid_depth = [];
  ask_depth = [];
  last_seq = 0;
  trades = [];
  candles = [];
}

unfoldable pub side_of : Text → Side
side_of side = if text_eq side (codes "ask") then asks else bids

abbrev pub depth_of : Side → SymbolState → List (ℕ × ℕ)
depth_of bids st = st.bid_depth
depth_of asks st = st.ask_depth

abbrev pub set_depth : Side → List (ℕ × ℕ) → SymbolState → SymbolState
set_depth bids depth st = record st { bid_depth = depth }
set_depth asks depth st = record st { ask_depth = depth }

-- The quantity at a price of a side; 0, if the map has no such key.
unfoldable pub level : ℕ → List (ℕ × ℕ) → ℕ
level price depth = elim (find price depth) [ none ↦ 0 | some total ↦ total ]
