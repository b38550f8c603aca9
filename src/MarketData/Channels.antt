-- ===== src/MarketData/Channels.antt =====
-- What a client of the web socket asks (services/market/ws.go): `validChannel`, `sendInitial` and the
-- messages that `wsReadLoop` reads; with `atoiDefault` of services/market/api.go. A panic is `none`.
use lcex.Prelude.{◌++◌, List, [], ◌∷◌, Option, none, some, if◌then◌else◌, ◌||◌}
use lcex.Prelude.{ℕ}
use lcex.Prelude.Int.{ℤ, pos, leb_ℤ}
use lcex.Prelude.Text.{Text, codes, text_eq}
use lcex.Fixed.{is_empty}
use lcex.Db.Statements.{has_text}
use lcex.Request.{parse_int}
use lcex.Risk.{split}
use lcex.MarketData.{Candle}
use lcex.MarketData.Store.{StateStore, normalize_symbol}
use lcex.MarketData.Views.{DepthJson, depth_json, ticker}
use lcex.MarketData.Klines.{interval_ms, last_candle_locked}
use lcex.MarketData.Hub.{
  WsHub, depth_snapshot, new_ticker, new_kline, pong, invalid_channel, subscribed, unsubscribed,
  subscribe, unsubscribe, publish_conn,
}

abbrev at_least_one : ℤ → Option ℤ → ℤ
at_least_one def none = def
at_least_one def (some v) = if leb_ℤ v (pos 0) then def else v

-- `atoiDefault`
unfoldable pub atoi_default : Text → ℤ → ℤ
atoi_default s def = if is_empty s then def else at_least_one def (parse_int s)

abbrev pub topic : Text → Text → Text
topic kind sym = kind ++ (codes "@" ++ sym)

abbrev kline_topic : Text → List Text → Option Text
kline_topic sym (interval ∷ []) = elim (interval_ms interval) [
  | none ↦ none
  | some ms ↦ some (topic (codes "kline") (topic sym interval))
]
kline_topic sym _ = none

-- The switch of `validChannel`; `rest` is what stands behind the symbol.
abbrev topic_of : Text → Text → List Text → Option Text
topic_of kind sym rest =
    if text_eq kind (codes "ticker")
      || (text_eq kind (codes "trades") || text_eq kind (codes "depth"))
    then some (topic kind sym)
    else if text_eq kind (codes "kline")
    then kline_topic sym rest
    else none

abbrev channel_of : List Text → List Text → Option Text
channel_of symbols (kind ∷ name ∷ rest) =
    let sym = normalize_symbol name in if has_text sym symbols then topic_of kind sym rest else none
channel_of symbols _ = none

-- `validChannel`
unfoldable pub valid_channel : Text → List Text → Option Text
valid_channel ch symbols = channel_of symbols (split b'@' ch)

abbrev no_depth : DepthJson
no_depth = record { seq = 0; bids = []; asks = [] }

abbrev depth_or_none : Option DepthJson → DepthJson
depth_or_none none = no_depth
depth_or_none (some d) = d

abbrev depth_limit : List Text → ℤ
depth_limit (limit ∷ []) = atoi_default limit (pos 50)
depth_limit _ = pos 50

-- The interval is read with the candle; a topic without one panics.
abbrev kline_snapshot : ℕ → Text → List Text → Option Candle → WsHub → Option WsHub
kline_snapshot c sym rest none h = some h
kline_snapshot c sym [] (some k) h = none
kline_snapshot c sym (interval ∷ rest) (some k) h = publish_conn c (new_kline sym interval k) h

-- The switch of `sendInitial`; `rest` is what stands behind the symbol.
abbrev snapshot_of : ℕ → Text → Text → List Text → ℕ → StateStore → WsHub → Option WsHub
snapshot_of c kind sym rest now s h =
    if text_eq kind (codes "depth")
    then publish_conn c (depth_snapshot sym (depth_or_none (depth_json sym (depth_limit rest) s))) h
    else if text_eq kind (codes "ticker")
    then elim (ticker now sym s) [ none ↦ some h | some t ↦ publish_conn c (new_ticker sym t) h ]
    else if text_eq kind (codes "kline")
    then kline_snapshot c sym rest (last_candle_locked sym s) h
    else some h

abbrev snapshot : ℕ → List Text → ℕ → StateStore → WsHub → Option WsHub
snapshot c (kind ∷ sym ∷ rest) now s h = snapshot_of c kind sym rest now s h
snapshot c _ now s h = none

-- `sendInitial`
unfoldable pub send_initial : Text → ℕ → ℕ → StateStore → WsHub → Option WsHub
send_initial t c now s h = snapshot c (split b'@' t) now s h

-- What the model adds for a step that may panic.
infixl 5 ◌then_hub◌
abbrev pub ◌then_hub◌ : Option WsHub → (WsHub → Option WsHub) → Option WsHub
none then_hub f = none
some h then_hub f = f h

-- The loop of a subscription, with the channels that were accepted.
unfoldable pub subscribe_all :
    ℕ → List Text → ℕ → List Text → StateStore → WsHub → List Text → Option WsHub
subscribe_all c symbols now [] s h accepted = elim accepted [
  | [] ↦ some h
  | a ∷ as_ ↦ publish_conn c (subscribed (a ∷ as_)) h
]
subscribe_all c symbols now (ch ∷ chs) s h accepted = elim (valid_channel ch symbols) [
  | none ↦ publish_conn c (invalid_channel ch) h then_hub λ h'.
      subscribe_all c symbols now chs s h' accepted
  | some t ↦ send_initial t c now s (subscribe c t h) then_hub λ h'.
      subscribe_all c symbols now chs s h' (accepted ++ ch ∷ [])
]

unfoldable pub unsubscribe_all : ℕ → List Text → List Text → WsHub → WsHub
unsubscribe_all c symbols [] h = h
unsubscribe_all c symbols (ch ∷ chs) h = elim (valid_channel ch symbols) [
  | none ↦ unsubscribe_all c symbols chs h
  | some t ↦ unsubscribe_all c symbols chs (unsubscribe c t h)
]

-- A message that `wsReadLoop` has decoded.
unfoldable pub read_message :
    ℕ → List Text → ℕ → Text → List Text → StateStore → WsHub → Option WsHub
read_message c symbols now op args s h =
    if text_eq op (codes "ping")
    then publish_conn c pong h
    else if text_eq op (codes "subscribe")
    then subscribe_all c symbols now args s h []
    else if text_eq op (codes "unsubscribe")
    then publish_conn c (unsubscribed args) (unsubscribe_all c symbols args h)
    else some h
