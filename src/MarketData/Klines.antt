-- ===== src/MarketData/Klines.antt =====
-- The candles that the market data service shows (services/market/state.go): `Klines` and
-- `lastCandleLocked`. A loop over a Go map visits its entries in an order of its own: the order of the
-- table, which is arbitrary.
use lcex.Prelude.{
  ℕ, ◌+◌, ◌-◌, ◌%◌, ◌&&◌, List, [], ◌∷◌, map, Option, none, some, ltb, length, drop, if◌then◌else◌,
}
use lcex.Prelude.Int.{ℤ, pos, pos_part, ltb_ℤ}
use lcex.Prelude.Word.{add64}
use lcex.Prelude.Text.{Text, codes, text_eq}
use lcex.Prelude.Sort.{sort}
use lcex.Prelude.Table.{find, put, keys}
use lcex.Fixed.{format, format_uint}
use lcex.MarketData.{Candle}
use lcex.MarketData.Store.{StateStore, find_state}

-- `intervalMs`
unfoldable pub interval_ms : Text → Option ℕ
interval_ms interval =
    if text_eq interval (codes "1m")
    then some 60000
    else if text_eq interval (codes "5m")
    then some 300000
    else if text_eq interval (codes "15m")
    then some 900000
    else if text_eq interval (codes "1h")
    then some 3600000
    else if text_eq interval (codes "4h")
    then some 14400000
    else if text_eq interval (codes "1d")
    then some 86400000
    else none

-- The bucket of an interval after one more candle.
unfoldable pub bucket_with : ℕ → ℕ → Candle → Option Candle → Candle
bucket_with b ms c none = record c { start = b; end = b + ms - 1 }
bucket_with b ms c (some agg) = record agg {
  high = if ltb agg.high c.high then c.high else agg.high;
  low = if ltb c.low agg.low then c.low else agg.low;
  closing = c.closing;
  volume = add64 agg.volume c.volume;
}

unfoldable pub buckets_from : ℕ → List (ℕ × Candle) → List (ℕ × Candle) → List (ℕ × Candle)
buckets_from ms [] buckets = buckets
buckets_from ms ((k, c) ∷ candles) buckets =
    let b = c.start - c.start % ms in
    buckets_from ms candles (put b (bucket_with b ms c (find b buckets)) buckets)

abbrev pub kline_row : Option Candle → List Text
kline_row none = []
kline_row (some c) =
    format_uint c.start
    ∷ format c.opening
    ∷ format c.high
    ∷ format c.low
    ∷ format c.closing
    ∷ format c.volume
    ∷ format_uint c.end
    ∷ []

-- The last of the keys, in rising order.
unfoldable pub last_keys : ℤ → List ℕ → List ℕ
last_keys limit ks =
    if ltb_ℤ (pos 0) limit && ltb (pos_part limit) (length ks)
    then drop (length ks - pos_part limit) ks
    else ks

unfoldable pub klines_of : ℕ → ℤ → List (ℕ × Candle) → List (List Text)
klines_of ms limit candles =
    let buckets = buckets_from ms candles [] in
    map (λ b. kline_row (find b buckets)) (last_keys limit (sort ltb (keys buckets)))

-- `Klines`
unfoldable pub klines : Text → Text → ℤ → StateStore → Option (List (List Text))
klines symbol interval limit s = elim (interval_ms interval) [
  | none ↦ none
  | some ms ↦ elim (find_state symbol s) [
    | none ↦ none
    | some st ↦ some (klines_of ms limit st.candles)
  ]
]

unfoldable pub later_candle : List (ℕ × Candle) → Option Candle → Option Candle
later_candle [] best = best
later_candle ((k, c) ∷ candles) none = later_candle candles (some c)
later_candle ((k, c) ∷ candles) (some l) =
    later_candle candles (some (if ltb l.start c.start then c else l))

-- `lastCandleLocked`
unfoldable pub last_candle_locked : Text → StateStore → Option Candle
last_candle_locked symbol s = elim (find_state symbol s) [
  | none ↦ none
  | some st ↦ later_candle st.candles none
]
