-- ===== src/MarketData/Consumer/Steady.antt =====
-- On `handleRecord` of services/market/consumer.go: it does not panic.
use lcex.Prelude.{ℕ, ◌≡◌, refl, List, [], ◌∷◌, Option, none, some, arith, Option-cases, inl, inr}
use lcex.Prelude.Text.{Text, codes}
use lcex.Events.{Event}
use lcex.MarketData.{ChangedLevel, TradeRow}
use lcex.MarketData.Store.{StateStore, Published, apply}
use lcex.MarketData.Views.{ticker}
use lcex.MarketData.Klines.{last_candle_locked}
use lcex.MarketData.Hub.{WsHub, new_trade, new_ticker, new_kline, publish}
use lcex.MarketData.Hub.Safe.{IsSafe, publish-IsSafe}
use lcex.MarketData.Channels.{◌then_hub◌, topic}
use lcex.MarketData.Consumer.{
  symbol_of, publish_levels, publish_ticker, publish_candle, publish_trade, publish_changes,
  handle_record,
}

-- The step does not panic and leaves a hub whose subscribed connections are open.
abbrev pub IsSteady : Option WsHub → Type 0
IsSteady out = (h : WsHub) × (out ≡ some h) × IsSafe h

then_hub-IsSteady :
    (out : Option WsHub) (f : WsHub → Option WsHub)
    → IsSteady out
    → ((h : WsHub) → IsSafe h → IsSteady (f h))
    → IsSteady (out then_hub f)
then_hub-IsSteady none f (h, e, safe) g = cc
then_hub-IsSteady (some h) f (h', e, safe) g =
    let same : h ≡ h' = ground arith in g h (rw same safe)

levels-IsSteady :
    (symbol : Text) (ls : List ChangedLevel) (s : StateStore) (h : WsHub)
    → IsSafe h
    → IsSteady (publish_levels symbol ls s h)
unfolding publish_levels
levels-IsSteady symbol [] s h safe = (h, refl, safe)
levels-IsSteady symbol (l ∷ ls) s h safe = publish-IsSafe _ _ h safe

ticker-IsSteady :
    (now : ℕ) (symbol : Text) (s : StateStore) (h : WsHub)
    → IsSafe h
    → IsSteady (publish_ticker now symbol s h)
unfolding publish_ticker
ticker-IsSteady now symbol s h safe = elim (Option-cases (ticker now symbol s)) [
  | inl e ↦ (h, ground arith, safe)
  | inr (t, e) ↦
      let (h', p, safe') =
        publish-IsSafe (topic (codes "ticker") symbol) (new_ticker symbol t) h safe in
      (h', ground (arith, p), safe')
]

candle-IsSteady :
    (symbol : Text) (s : StateStore) (h : WsHub) → IsSafe h → IsSteady (publish_candle symbol s h)
unfolding publish_candle
candle-IsSteady symbol s h safe = elim (Option-cases (last_candle_locked symbol s)) [
  | inl e ↦ (h, ground arith, safe)
  | inr (c, e) ↦
      let (h', p, safe') =
        publish-IsSafe (topic (codes "kline") (topic symbol (codes "1m")))
          (new_kline symbol (codes "1m") c) h safe in
      (h', ground (arith, p), safe')
]

trade-IsSteady :
    (now : ℕ) (symbol : Text) (row : Option TradeRow) (s : StateStore) (h : WsHub)
    → IsSafe h
    → IsSteady (publish_trade now symbol row s h)
unfolding publish_trade
trade-IsSteady now symbol none s h safe = (h, refl, safe)
trade-IsSteady now symbol (some row) s h safe =
    let first = publish (topic (codes "trades") symbol) (new_trade symbol row) h in
    let second = first then_hub publish_ticker now symbol s in
    then_hub-IsSteady second (publish_candle symbol s)
      (then_hub-IsSteady first (publish_ticker now symbol s)
        (publish-IsSafe (topic (codes "trades") symbol) (new_trade symbol row) h safe)
        (ticker-IsSteady now symbol s))
      (candle-IsSteady symbol s)

changes-IsSteady :
    (now : ℕ) (symbol : Text) (s : StateStore) (changes : Published) (h : WsHub)
    → IsSafe h
    → (h' : WsHub) × (publish_changes now symbol (s, changes) h ≡ some (s, h')) × IsSafe h'
unfolding publish_changes
changes-IsSteady now symbol s changes h safe =
    let (h', e, safe') =
      then_hub-IsSteady (publish_levels symbol changes.levels s h)
        (publish_trade now symbol changes.trade s) (levels-IsSteady symbol changes.levels s h safe)
        (trade-IsSteady now symbol changes.trade s) in
    (h', ground (arith, e), safe')

-- The states after a record: those of `apply`, or those before, if the payload does not decode.
abbrev pub states_after : Text → Text → Option Event → ℕ → StateStore → StateStore
states_after prefix name none now s = s
states_after prefix name (some ev) now s = (apply now (symbol_of prefix name) ev s).0

-- Whatever record the consumer reads: if every connection that is subscribed to anything is open, and
-- none twice to the same topic, `handleRecord` does not panic, the states are those of `apply` (those
-- before, if the payload does not decode), and the connections that are subscribed are open again, also
-- where a slow one was closed on the way.
pub handle_record-IsSafe :
    (prefix name : Text) (body : Option Event) (now shown_at : ℕ) (s : StateStore) (h : WsHub)
    → IsSafe h
    → (h' : WsHub) × (handle_record prefix name body now shown_at (s, h)
        ≡ some (states_after prefix name body now s, h'))
      × IsSafe h'
unfolding handle_record
handle_record-IsSafe prefix name none now shown_at s h safe = (h, refl, safe)
handle_record-IsSafe prefix name (some ev) now shown_at s h safe =
    let symbol = symbol_of prefix name in
    let out = apply now symbol ev s in changes-IsSteady shown_at symbol out.0 out.1 h safe
