-- ===== src/Order.antt =====
-- The order service (services/order/api.go): placing and canceling orders, and the loop that follows
-- their status. The handlers that only read (`handleOpenOrders`, `handleGetOrder`, `handleBalances`) and
-- the log are left out. Kafka's producer is a parameter: for every record the handler is told how
-- `produceSync` ends.
pub mod Freezes
pub mod Books
pub mod Handlers
pub mod Cancels
pub mod Follows
pub mod Again
use lcex.Prelude.{
  ℕ, suc, Bool, true, false, not, ◌||◌, List, [], ◌∷◌, ◌++◌, Option, none, some, map, if◌then◌else◌,
  Result, ok, err,
}
use lcex.Prelude.Int.{ℤ, pos, negsuc, ◌-ℤ◌, ltb_ℤ}
use lcex.Prelude.Word.{int64, uint64, wrap64}
use lcex.Prelude.Text.{Text, codes, text_eq, to_lower}
use lcex.Fixed.{format_int}
use lcex.Db.{
  Db, Err, OrderRow, BizKey, order_freeze, order_unfreeze, available, frozen, no_rows,
  insufficient_balance, unique_violation, Tx, ◌>>=◌,
}
use lcex.Db.Orders.{
  one_of, open_statuses, insert_order, select_client, select_user_order, update_open,
}
use lcex.Ledger.{Move, user_ref, post_tx, post, with_tx}
use lcex.Markets.{Config, Market, get}
use lcex.Events.{OrderUpdate, Event, PlaceCommand, CancelCommand}
use lcex.Request.{PlaceReq, Checked, parse_int, parse_user_id, check_request}

-- How `produceSync` ends: without an error; with one, the record being lost; or with one, the broker
-- having kept the record all the same (an acknowledgement that came too late).
pub data Produced : Type 0 where
  acknowledged lost unconfirmed : Produced

abbrev pub is_kept : Produced → Bool
is_kept lost = false
is_kept _ = true

-- The answer to a request, without its messages; `aborted` is a panic of the handler.
pub data Reply : Type 0 where
  order_reply : ℤ → Text → Reply
  failed : ℕ → Reply
  aborted : Reply

pub data Command : Type 0 where
  place_command : PlaceCommand → Command
  cancel_command : CancelCommand → Command

-- What a handler has done besides the database: its answer, and the records that the broker has.
pub record Answer : Type 0 where
  pub reply : Reply
  pub sent : List (Text × Command)

abbrev pub answer : Reply → Answer
answer r = record { reply = r; sent = [] }

abbrev pub order_key : ℤ → BizKey
order_key id = record { biz_type = order_freeze; biz_id = codes "order-" ++ format_int id }

-- The key that the release at the end of an order has in the clearing service too.
abbrev pub end_key : ℤ → BizKey
end_key id = record { biz_type = order_unfreeze; biz_id = codes "final-" ++ format_int id }

-- `inputTopic`
abbrev pub input_topic : Text → Text → Text
input_topic prefix symbol = prefix ++ codes ".orders.in." ++ to_lower symbol

-- `currencyOf`; `none` where the market is not found and its nil pointer is read.
unfoldable pub currency_of : Config → Text → Text → Option Text
currency_of cfg symbol side = elim (get cfg symbol) [
  | err e ↦ none
  | ok m ↦ some (if text_eq side (codes "bid") then m.quote else m.base)
]

abbrev pub freeze : ℤ → Text → ℤ → List Move
freeze user_id currency reserved =
    record { account = user_ref user_id currency available; delta = wrap64 (pos 0 -ℤ reserved) }
    ∷ record { account = user_ref user_id currency frozen; delta = reserved }
    ∷ []

abbrev pub unfreeze : ℤ → Text → ℤ → List Move
unfreeze user_id currency reserved =
    record { account = user_ref user_id currency frozen; delta = wrap64 (pos 0 -ℤ reserved) }
    ∷ record { account = user_ref user_id currency available; delta = reserved }
    ∷ []

-- The row that `place` inserts, but for its id.
abbrev pub new_row : ℤ → PlaceReq → Checked → OrderRow
new_row user_id req c = record {
  order_id = pos 0;
  user_id = user_id;
  symbol = c.market.symbol;
  client_order_id = req.client_order_id;
  side = req.side;
  price = elim c.price [ none ↦ none | some p ↦ some (pos p) ];
  qty = int64 c.qty;
  filled_qty = pos 0;
  reserved = int64 c.reserved;
  status = codes "pending";
  order_type = c.order_type;
  tif = c.tif;
  stp = c.stp;
  post_only = req.post_only;
}

-- The freeze behind the insertion of the row.
unfoldable pub freeze_order : OrderRow → Text → ℤ → Tx ℤ
freeze_order o currency id d =
    let (r, d') = post_tx (order_key id) (freeze o.user_id currency o.reserved) d in
    elim r [ ok _ ↦ (ok id, d') | err e ↦ (err e, d') ]

-- The transaction of `place`: the row and the freeze.
unfoldable pub place_tx : OrderRow → Text → Tx ℤ
place_tx o currency = do id ← insert_order o; freeze_order o currency id

-- The results of `place` but for its error code.
pub record Placed : Type 0 where
  pub order_id : ℤ
  pub status : Text
  pub replayed : Bool

-- An order id of the client that is there already: the order that has it.
unfoldable pub replay : OrderRow → Db → Result ℕ Placed × Db
replay o d =
    let (r, d') = select_client o.user_id o.client_order_id d in
    elim r [
      | ok p ↦ (ok (record { order_id = p.order_id; status = p.status; replayed = true }), d')
      | err e ↦ (err 20102, d')
    ]

unfoldable pub place_result : OrderRow → Result Err ℤ × Db → Result ℕ Placed × Db
place_result o (ok id, d) =
    (ok (record { order_id = id; status = codes "pending"; replayed = false }), d)
place_result o (err unique_violation, d) = replay o d
place_result o (err insufficient_balance, d) = (err 51001, d)
place_result o (err e, d) = (err 10001, d)

-- `place`
unfoldable pub place : OrderRow → Text → Db → Result ℕ Placed × Db
place o currency d = place_result o (with_tx (place_tx o currency) d)

-- `rejectAndUnfreeze`: its errors are logged at most.
unfoldable pub reject_and_unfreeze : ℤ → ℤ → Market → Text → ℤ → Db → Db
reject_and_unfreeze id user_id m side reserved d =
    let currency = if text_eq side (codes "ask") then m.base else m.quote in
    let (_, d') = update_open id (λ o. record o { status = codes "rejected" }) d in
    if ltb_ℤ (pos 0) reserved
    then (post (end_key id) (unfreeze user_id currency reserved) d').1
    else d'

abbrev pub command_of : ℤ → PlaceReq → Checked → ℤ → PlaceCommand
command_of user_id req c id = record {
  order_id = uint64 id;
  user_id = uint64 user_id;
  side = req.side;
  order_type = c.order_type;
  tif = c.tif;
  stp = c.stp;
  post_only = req.post_only;
  price = c.price;
  qty = c.qty;
}

-- The end of `handlePlace`: a new order is sent to the engine, or taken back if that fails.
unfoldable pub dispatch : Text → ℤ → PlaceReq → Checked → Produced → Placed → Db → Answer × Db
dispatch prefix user_id req c produced p d =
    let message : Text × Command =
      (input_topic prefix c.market.symbol, place_command (command_of user_id req c p.order_id)) in
    let accepted = order_reply p.order_id p.status in
    let undone = reject_and_unfreeze p.order_id user_id c.market req.side (int64 c.reserved) d in
    if p.replayed then (answer accepted, d) else elim produced [
      | acknowledged ↦ (record { reply = accepted; sent = message ∷ [] }, d)
      | lost ↦ (answer (failed 10002), undone)
      | unconfirmed ↦ (record { reply = failed 10002; sent = message ∷ [] }, undone)
    ]

unfoldable pub place_checked : Text → Config → ℤ → PlaceReq → Checked → Produced → Db → Answer × Db
place_checked prefix cfg user_id req c produced d =
    elim (currency_of cfg c.market.symbol req.side) [
      | none ↦ (answer aborted, d)
      | some currency ↦
          let (r, d') = place (new_row user_id req c) currency d in
          elim r [
            | err code ↦ (answer (failed code), d')
            | ok p ↦ dispatch prefix user_id req c produced p d'
          ]
    ]

unfoldable pub place_request : Text → Config → ℤ → PlaceReq → Produced → Db → Answer × Db
place_request prefix cfg user_id req produced d = elim (check_request cfg req) [
  | err code ↦ (answer (failed code), d)
  | ok c ↦ place_checked prefix cfg user_id req c produced d
]

-- `handlePlace`, of the header and of the decoded body, `none` where it is no JSON of a request.
unfoldable pub handle_place : Text → Config → Text → Option PlaceReq → Produced → Db → Answer × Db
handle_place prefix cfg header body produced d = elim (parse_user_id header) [
  | none ↦ (answer (failed 20005), d)
  | some user_id ↦ elim body [
    | none ↦ (answer (failed 10003), d)
    | some req ↦ place_request prefix cfg user_id req produced d
  ]
]

-- The end of `handleCancel`, for the row that was read.
unfoldable pub cancel_row : Text → ℤ → ℤ → Produced → OrderRow → Answer
cancel_row prefix user_id id produced o =
    let message : Text × Command = (
      input_topic prefix o.symbol,
      cancel_command (record { order_id = uint64 id; user_id = uint64 user_id }),
    ) in
    if not (one_of o.status open_statuses) then answer (failed 50011) else elim produced [
      | acknowledged ↦ record { reply = order_reply id o.status; sent = message ∷ [] }
      | lost ↦ answer (failed 10002)
      | unconfirmed ↦ record { reply = failed 10002; sent = message ∷ [] }
    ]

unfoldable pub cancel_found : Text → ℤ → ℤ → Produced → Result Err OrderRow → Answer
cancel_found prefix user_id id produced (ok o) = cancel_row prefix user_id id produced o
cancel_found prefix user_id id produced (err no_rows) = answer (failed 50010)
cancel_found prefix user_id id produced (err e) = answer (failed 10001)

-- `handleCancel`, of the header and of the order id in the path.
unfoldable pub handle_cancel : Text → Text → Text → Produced → Db → Answer × Db
handle_cancel prefix header path produced d = elim (parse_user_id header) [
  | none ↦ (answer (failed 20005), d)
  | some user_id ↦ elim (parse_int path) [
    | none ↦ (answer (failed 10003), d)
    | some id ↦
        let (r, d') = select_user_order id user_id d in
        (cancel_found prefix user_id id produced r, d')
  ]
]

-- The statement of `applyOrderUpdate`.
unfoldable pub sync_status : OrderUpdate → Tx (Unit {0})
sync_status u =
    update_open (int64 u.order_id)
      (λ o. record o { filled_qty = int64 u.filled_qty; status = u.status })

-- `applyOrderUpdate`, of the decoded payload.
unfoldable pub apply_order_update : Option Event → Db → Db
apply_order_update none d = d
apply_order_update (some ev) d =
    if not (text_eq ev.kind (codes "order_update"))
    then d
    else elim ev.as_order_update [ none ↦ d | some u ↦ (sync_status u d).1 ]
