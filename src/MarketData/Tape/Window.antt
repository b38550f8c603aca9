-- ===== src/MarketData/Tape/Window.antt =====
-- On `applyTrade` of services/market/state.go: the window of trades and the candles.
use lcex.Prelude.{
  ℕ, zero, suc, ◌+◌, ◌-◌, ◌*◌, ◌%◌, ◌≤◌, ◌≡◌, false, ◌==◌, List, [], ◌∷◌, ◌++◌, arith, length,
  length-drop, drop, All, ltb, Bool-cases, Option-cases, inl, inr,
}
use lcex.Prelude.Table.{find, put, IsKeyed, find-All, put-All, put-IsKeyed}
use lcex.Events.{Trade}
use lcex.MarketData.{TradeRow, Candle, SymbolState}
use lcex.MarketData.Tape.{
  windows_24h_ms, candle_1m_ms, max_kept_trades, max_kept_candles, drop_old, keep_last, candle_with,
  keep_candles, row_of, apply_trade,
}

-- The times rise from `lo` to `hi`.
abbrev pub IsTimed : ℕ → ℕ → List TradeRow → Type 0
IsTimed lo hi [] = Unit
IsTimed lo hi (row ∷ rows) = (lo ≤ row.ts) × (row.ts ≤ hi) × IsTimed row.ts hi rows

append-IsTimed :
    (lo hi : ℕ) (row : TradeRow) (rows : List TradeRow)
    → lo ≤ row.ts
    → hi ≤ row.ts
    → IsTimed lo hi rows
    → IsTimed lo row.ts (rows ++ (row ∷ []))
append-IsTimed lo hi row [] l h t = (l, omega arith, tt)
append-IsTimed lo hi row (r ∷ rows) l h t =
    (t.0, omega (arith, t.1), append-IsTimed r.ts hi row rows (omega (arith, t.1)) h t.2)

drop_old-IsTimed :
    (now lo hi : ℕ) (rows : List TradeRow)
    → IsTimed lo hi rows
    → IsTimed (now - windows_24h_ms) hi (drop_old now rows)
unfolding drop_old
drop_old-IsTimed now lo hi [] t = tt
drop_old-IsTimed now lo hi (row ∷ rows) t = elim (Bool-cases (ltb (row.ts + windows_24h_ms) now)) [
  | inl old ↦ rw old (drop_old-IsTimed now row.ts hi rows t.2)
  | inr new ↦ rw new (ground arith, t.1, t.2)
]

lower-IsTimed :
    (lo lo' hi : ℕ) (rows : List TradeRow) → lo' ≤ lo → IsTimed lo hi rows → IsTimed lo' hi rows
lower-IsTimed lo lo' hi [] h t = tt
lower-IsTimed lo lo' hi (row ∷ rows) h t = (omega (arith, t.0), t.1, t.2)

drop-IsTimed :
    (n lo hi : ℕ) (rows : List TradeRow) → IsTimed lo hi rows → IsTimed lo hi (drop n rows)
drop-IsTimed zero lo hi rows t = t
drop-IsTimed (suc n) lo hi [] t = tt
drop-IsTimed (suc n) lo hi (row ∷ rows) t =
    drop-IsTimed n lo hi rows (lower-IsTimed row.ts lo hi rows t.0 t.2)

keep_last-IsTimed :
    (lo hi : ℕ) (rows : List TradeRow) → IsTimed lo hi rows → IsTimed lo hi (keep_last rows)
unfolding keep_last
keep_last-IsTimed lo hi rows t = elim (Bool-cases (ltb max_kept_trades (length rows))) [
  | inl many ↦ rw many (drop-IsTimed _ lo hi rows t)
  | inr few ↦ rw few t
]

length-keep_last : (rows : List TradeRow) → length (keep_last rows) ≤ max_kept_trades
unfolding keep_last
length-keep_last rows = ground (arith, length-drop {0} (length rows - max_kept_trades) rows)

-- What a candle of a minute satisfies.
pub record IsCandle (e : ℕ × Candle) : Type 0 where
  pub starts : e.1.start ≡ e.0
  pub ends : e.1.end + 1 ≡ e.0 + candle_1m_ms
  pub low_opening : e.1.low ≤ e.1.opening
  pub opening_high : e.1.opening ≤ e.1.high
  pub low_closing : e.1.low ≤ e.1.closing
  pub closing_high : e.1.closing ≤ e.1.high

candle_with-IsCandle :
    (bucket : ℕ) (t : Trade) (candles : List (ℕ × Candle))
    → All IsCandle candles
    → IsCandle (bucket, candle_with bucket t (find bucket candles))
unfolding candle_with
candle_with-IsCandle bucket t candles h = elim (Option-cases (find bucket candles)) [
  | inl e ↦ rw e (ground arith)
  | inr (c, e) ↦
      let old : IsCandle (bucket, c) = find-All IsCandle bucket candles h e in
      rw e (ground (arith, old))
]

-- The start lies within the span that is kept.
abbrev pub IsRecent : ℕ → ℕ × Candle → Type 0
IsRecent now e = now ≤ e.0 + max_kept_candles * candle_1m_ms

keep_candles-All :
    (P : ℕ × Candle → Type 0) (now : ℕ) (candles : List (ℕ × Candle))
    → All P candles
    → All P (keep_candles now candles)
unfolding keep_candles
keep_candles-All P now [] h = tt
keep_candles-All P now ((b, c) ∷ candles) h =
    elim (Bool-cases (ltb (b + max_kept_candles * candle_1m_ms) now)) [
      | inl t ↦ rw t (keep_candles-All P now candles h.1)
      | inr f ↦ rw f (h.0, keep_candles-All P now candles h.1)
    ]

keep_candles-IsRecent :
    (now : ℕ) (candles : List (ℕ × Candle)) → All (IsRecent now) (keep_candles now candles)
unfolding keep_candles
keep_candles-IsRecent now [] = tt
keep_candles-IsRecent now ((b, c) ∷ candles) =
    elim (Bool-cases (ltb (b + max_kept_candles * candle_1m_ms) now)) [
      | inl t ↦ rw t (keep_candles-IsRecent now candles)
      | inr f ↦ rw f (ground arith, keep_candles-IsRecent now candles)
    ]

keep_candles-IsKeyed :
    (now : ℕ) (candles : List (ℕ × Candle)) → IsKeyed candles → IsKeyed (keep_candles now candles)
unfolding keep_candles
keep_candles-IsKeyed now [] h = tt
keep_candles-IsKeyed now ((b, c) ∷ candles) h =
    elim (Bool-cases (ltb (b + max_kept_candles * candle_1m_ms) now)) [
      | inl t ↦ rw t (keep_candles-IsKeyed now candles h.1)
      | inr f ↦ rw f (
        keep_candles-All (λ (e : ℕ × Candle). (e.0 == b) ≡ false) now candles h.0,
        keep_candles-IsKeyed now candles h.1,
      )
    ]

-- The trades and candles as of the latest trade, whose time is `latest`.
pub record IsTape (latest : ℕ) (st : SymbolState) : Type 0 where
  pub timed : IsTimed (latest - windows_24h_ms) latest st.trades
  pub few : length st.trades ≤ max_kept_trades
  pub candles : All IsCandle st.candles
  pub recent : All (IsRecent latest) st.candles
  pub keyed : IsKeyed st.candles

-- A trade that comes no earlier than the one before it moves the window on.
pub apply_trade-IsTape :
    (latest now : ℕ) (t : Trade) (seq : ℕ) (st : SymbolState)
    → latest ≤ now
    → IsTape latest st
    → IsTape now (apply_trade now t seq st).0
unfolding apply_trade row_of
apply_trade-IsTape latest now t seq st later h =
    let row = row_of now t seq in
    let bucket = now - now % candle_1m_ms in
    let rows = st.trades ++ (row ∷ []) in
    let candle = candle_with bucket t (find bucket st.candles) in
    let longer =
      append-IsTimed (latest - windows_24h_ms) latest row st.trades (omega (arith, later)) later
        h.timed in
    let written =
      put-All IsCandle bucket candle st.candles (candle_with-IsCandle bucket t st.candles h.candles)
        h.candles in
    record {
      timed =
          keep_last-IsTimed (now - windows_24h_ms) now (drop_old now rows)
            (drop_old-IsTimed now (latest - windows_24h_ms) now rows longer);
      few = length-keep_last (drop_old now rows);
      candles = keep_candles-All IsCandle now (put bucket candle st.candles) written;
      recent = keep_candles-IsRecent now (put bucket candle st.candles);
      keyed =
          keep_candles-IsKeyed now (put bucket candle st.candles)
            (put-IsKeyed bucket candle st.candles h.keyed);
    }
