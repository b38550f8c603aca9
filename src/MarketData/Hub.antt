-- ===== src/MarketData/Hub.antt =====
-- The hub of the web sockets (services/market/ws.go): who is subscribed to what, and what is sent. A
-- connection is a number; its channel `send` holds what was sent and not yet written. A send on a closed
-- channel panics: `none`.
pub mod Safe
use lcex.Prelude.{
  ℕ, Bool, true, false, ◌||◌, ◌==◌, ◌++◌, List, [], ◌∷◌, Option, none, some, ltb, length, drop,
  if◌then◌else◌,
}
use lcex.Prelude.Text.{Text, text_eq}
use lcex.Prelude.Dict.{find, put}
use lcex.Prelude.Table as Conns
use lcex.MarketData.{TradeRow, Candle}
use lcex.MarketData.Views.{DepthJson, TickerJson}

-- What is encoded into a message.
pub data Payload : Type 0 where
  depth_update : Text → DepthJson → Payload
  depth_snapshot : Text → DepthJson → Payload
  new_trade : Text → TradeRow → Payload
  new_ticker : Text → TickerJson → Payload
  new_kline : Text → Text → Candle → Payload
  pong : Payload
  invalid_channel : Text → Payload
  subscribed : List Text → Payload
  unsubscribed : List Text → Payload

-- `wsConn`
pub record WsConn : Type 0 where
  pub send : List Payload
  pub closed : Bool

-- `wsHub`, with the connections.
pub record WsHub : Type 0 where
  pub subs : List (Text × List ℕ)
  pub conns : List (ℕ × WsConn)

-- The room of the channel.
abbrev pub send_size : ℕ
send_size = 256

abbrev pub members : Option (List ℕ) → List ℕ
members none = []
members (some cs) = cs

unfoldable pub has_conn : ℕ → List ℕ → Bool
has_conn c [] = false
has_conn c (b ∷ bs) = (b == c) || has_conn c bs

-- `delete` from a set of connections
unfoldable pub without : ℕ → List ℕ → List ℕ
without c [] = []
without c (b ∷ bs) = let rest = without c bs in if b == c then rest else b ∷ rest

-- A topic that nobody is subscribed to leaves the map.
abbrev pub topic_with : Text → List ℕ → List (Text × List ℕ) → List (Text × List ℕ)
topic_with topic [] subs = subs
topic_with topic (c ∷ cs) subs = (topic, c ∷ cs) ∷ subs

-- The topics without a connection: those that `which` picks.
unfoldable pub leave : (Text → Bool) → ℕ → List (Text × List ℕ) → List (Text × List ℕ)
leave which c [] = []
leave which c ((topic, cs) ∷ subs) =
    let rest = leave which c subs in
    if which topic then topic_with topic (without c cs) rest else (topic, cs) ∷ rest

-- `handleWS`: a connection with a channel of its own.
unfoldable pub connect : ℕ → WsHub → WsHub
connect c h = record h { conns = Conns.put c (record { send = []; closed = false }) h.conns }

-- `subscribe`
unfoldable pub subscribe : ℕ → Text → WsHub → WsHub
subscribe c topic h =
    let cs = members (find topic h.subs) in
    record h { subs = put topic (if has_conn c cs then cs else cs ++ c ∷ []) h.subs }

-- `unsubscribe`
unfoldable pub unsubscribe : ℕ → Text → WsHub → WsHub
unsubscribe c topic h = record h { subs = leave (λ t. text_eq t topic) c h.subs }

-- `remove`
unfoldable pub remove : ℕ → WsHub → WsHub
remove c h = record h { subs = leave (λ t. true) c h.subs }

-- The loop of `publish`, for one connection: one whose channel is full is removed and closed.
unfoldable pub send_or_close : Payload → ℕ → WsConn → WsHub → Option WsHub
send_or_close payload c conn h =
    if conn.closed
    then none
    else if ltb (length conn.send) send_size
    then some
        record h { conns = Conns.put c (record conn { send = conn.send ++ payload ∷ [] }) h.conns }
    else some record (remove c h) { conns = Conns.put c (record conn { closed = true }) h.conns }

unfoldable pub publish_to : Payload → ℕ → WsHub → Option WsHub
publish_to payload c h = elim (Conns.find c h.conns) [
  | none ↦ some h
  | some conn ↦ send_or_close payload c conn h
]

unfoldable pub publish_all : Payload → List ℕ → WsHub → Option WsHub
publish_all payload [] h = some h
publish_all payload (c ∷ cs) h = elim (publish_to payload c h) [
  | none ↦ none
  | some h' ↦ publish_all payload cs h'
]

-- `publish`
unfoldable pub publish : Text → Payload → WsHub → Option WsHub
publish topic payload h = publish_all payload (members (find topic h.subs)) h

abbrev pub send_if_room : Payload → ℕ → WsConn → WsHub → Option WsHub
send_if_room payload c conn h =
    if conn.closed
    then none
    else if ltb (length conn.send) send_size
    then some
        record h { conns = Conns.put c (record conn { send = conn.send ++ payload ∷ [] }) h.conns }
    else some h

-- `publishConn`
unfoldable pub publish_conn : ℕ → Payload → WsHub → Option WsHub
publish_conn c payload h = elim (Conns.find c h.conns) [
  | none ↦ some h
  | some conn ↦ send_if_room payload c conn h
]

-- The turn of `wsWriteLoop` that takes a message from the channel.
unfoldable pub take_message : ℕ → WsHub → WsHub
take_message c h = elim (Conns.find c h.conns) [
  | none ↦ h
  | some conn ↦ record h { conns = Conns.put c (record conn { send = drop 1 conn.send }) h.conns }
]
