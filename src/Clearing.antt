-- ===== src/Clearing.antt =====
-- The clearing service (services/clearing/main.go): it consumes the engine's events in order, settles
-- every trade in the ledger and releases what an order still reserves when it ends. `main` (the
-- environment, the clients, the polling loop) is not modelled; `run` is its loop over the records.
pub mod Settle
pub mod Reserves
pub mod Books
pub mod Consume
pub mod Replay
pub mod Twice
pub mod Liveness
pub mod Release
pub mod ZeroFee
use lcex.Prelude.{
  ℕ, Bool, true, false, not, ◌||◌, List, [], ◌∷◌, ◌++◌, Option, none, some, if◌then◌else◌, Result,
  ok, err, leb,
}
use lcex.Prelude.Int.{ℤ, pos, pos_part, neg_part, ◌-ℤ◌}
use lcex.Prelude.Word.{int64, wrap64}
use lcex.Prelude.Text.{Text, codes, text_eq}
use lcex.Fixed.{format_uint}
use lcex.Db.{
  Db, Err, OrderRow, BizKey, trade, order_unfreeze, available, frozen, driver, no_rows,
  out_of_range, poison, order_not_found, already_processed, unknown_market, Tx, pure, raise, gets,
  raise_if, lift, modify, reach, ◌>>=◌, ◌>>◌,
}
use lcex.Db.Keys.{eq_ℤ}
use lcex.Db.Statements.{in_int64}
use lcex.Db.Orders.{find_order, select_order, consume_reserved}
use lcex.Ledger.{Move, user_ref, post_tx, post, with_tx}
use lcex.Markets.{Config, Market, get}
use lcex.Events.{Trade, OrderUpdate, Event}
use lcex.Settlement.{Settlement, settlement, minus_int64}

-- The journal key of a trade: `trade-{id}`.
abbrev pub trade_key : Trade → BizKey
trade_key t = record { biz_type = trade; biz_id = codes "trade-" ++ format_uint t.trade_id }

-- The journal key of the release at the end of an order: `final-{id}`.
abbrev pub final_key : ℕ → BizKey
final_key id = record { biz_type = order_unfreeze; biz_id = codes "final-" ++ format_uint id }

-- `loadOrder`: every error, of the driver too, is reported as poison.
unfoldable pub load_order : ℕ → Tx OrderRow
load_order id d =
    let (r, d') = select_order (int64 id) d in
    elim r [ ok o ↦ (ok o, d') | err e ↦ (err poison, d') ]

-- The transaction of `settleTrade` behind its checks: the journal, and what both orders reserve less.
unfoldable pub settle_posted : Trade → Settlement → Tx (Unit {0})
settle_posted t s = do
  post_tx (trade_key t) s.moves
  consume_reserved s.taker_consume (int64 t.taker_order_id)
  consume_reserved s.maker_consume (int64 t.maker_order_id)

-- The checks of the transaction of `settleTrade`: the taker's order is on the side of the trade, the
-- maker's on the other.
unfoldable pub settle_rows : Trade → Settlement → OrderRow → OrderRow → Tx (Unit {0})
settle_rows t s maker taker = do
  raise_if (not (text_eq taker.side t.side)) poison
  raise_if (text_eq maker.side taker.side) poison
  settle_posted t s

-- The body of the transaction of `settleTrade`.
unfoldable pub settle_taker : Trade → Settlement → OrderRow → Tx (Unit {0})
settle_taker t s maker = do taker ← load_order t.taker_order_id; settle_rows t s maker taker

unfoldable pub settle_body : Trade → Settlement → Tx (Unit {0})
settle_body t s = do maker ← load_order t.maker_order_id; settle_taker t s maker

-- `errors.Is(err, ledger.ErrAlreadyProcessed)` is no error.
abbrev pub skip_processed : Result Err (Unit {0}) → Result Err (Unit {0})
skip_processed (err already_processed) = ok tt
skip_processed r = r

abbrev pub market_or_poison : Config → Text → Result Err Market
market_or_poison cfg symbol = elim (get cfg symbol) [ ok m ↦ ok m | err e ↦ err poison ]

-- The transaction of `settleTrade`, with its result.
unfoldable pub settle_with : Trade → Settlement → Tx (Unit {0})
settle_with t s d = let (r, d') = with_tx (settle_body t s) d in (skip_processed r, d')

unfoldable pub settle_trade : Config → Text → Trade → Tx (Unit {0})
settle_trade cfg symbol t = do
  m ← lift (market_or_poison cfg symbol)
  s ← lift (settlement m t)
  settle_with t s

-- The moves that release the rest of an order's reservation.
abbrev pub release : OrderRow → Market → List Move
release o m =
    let currency = if text_eq o.side (codes "ask") then m.base else m.quote in
    record { account = user_ref o.user_id currency frozen; delta = wrap64 (pos 0 -ℤ o.reserved) }
    ∷ record { account = user_ref o.user_id currency available; delta = o.reserved }
    ∷ []

abbrev pub not_found : Result Err OrderRow → Result Err OrderRow
not_found (err no_rows) = err order_not_found
not_found r = r

-- The journal of `unfreezeReserved`, with its result.
unfoldable pub release_order : ℕ → OrderRow → Market → Tx (Unit {0})
release_order id o m d = let (r, d') = post (final_key id) (release o m) d in (skip_processed r, d')

-- `unfreezeReserved` for the row that was read.
unfoldable pub unfreeze_row : Config → ℕ → OrderRow → Tx (Unit {0})
unfreeze_row cfg id o =
    if eq_ℤ o.reserved (pos 0)
    then pure tt
    else (do m ← lift (get cfg o.symbol); release_order id o m)

-- `unfreezeReserved` reads the row outside a transaction.
unfoldable pub unfreeze_reserved : Config → ℕ → Tx (Unit {0})
unfreeze_reserved cfg id = do
  o ← (λ d. let (r, d') = select_order (int64 id) d in (not_found r, d'))
  unfreeze_row cfg id o

-- How the handling of a record ends: its offset is committed after `done` and `skipped`; `exit` is
-- `os.Exit(1)`, which leaves it uncommitted, to be delivered again.
pub data Outcome : Type 0 where
  done skipped exit : Outcome

abbrev pub settle_outcome : Result Err (Unit {0}) → Outcome
settle_outcome (ok _) = done
settle_outcome (err poison) = skipped
settle_outcome (err e) = exit

abbrev pub unfreeze_outcome : Result Err (Unit {0}) → Outcome
unfreeze_outcome (ok _) = done
unfreeze_outcome (err e) = exit

-- The status of an order that has ended.
abbrev pub is_final : Text → Bool
is_final s =
    text_eq s (codes "filled") || text_eq s (codes "canceled") || text_eq s (codes "rejected")

unfoldable pub handle_trade : Config → Text → Option Trade → Db → Outcome × Db
handle_trade cfg symbol none d = (skipped, d)
handle_trade cfg symbol (some t) d =
    let (r, d') = settle_trade cfg symbol t d in (settle_outcome r, d')

unfoldable pub handle_update : Config → Option OrderUpdate → Db → Outcome × Db
handle_update cfg none d = (skipped, d)
handle_update cfg (some u) d =
    if is_final u.status
    then (let (r, d') = unfreeze_reserved cfg u.order_id d in (unfreeze_outcome r, d'))
    else (done, d)

-- A record of an event topic: the symbol behind the topic's prefix, and the decoded payload, `none`
-- where it is no event.
pub record Delivery : Type 0 where
  pub symbol : Text
  pub event : Option Event

-- `handleRecord`
unfoldable pub handle_event : Config → Text → Event → Db → Outcome × Db
handle_event cfg symbol ev d =
    if text_eq ev.kind (codes "trade")
    then handle_trade cfg symbol ev.as_trade d
    else if text_eq ev.kind (codes "order_update")
    then handle_update cfg ev.as_order_update d
    else (done, d)

unfoldable pub handle_record : Config → Delivery → Db → Outcome × Db
handle_record cfg rec d = elim rec.event [
  | none ↦ (skipped, d)
  | some ev ↦ handle_event cfg rec.symbol ev d
]

-- The loop over the records that are not committed yet: it returns those that are still uncommitted
-- when the process exits, and none if it handles them all.
unfoldable pub run : Config → List Delivery → Db → List Delivery × Db
run cfg [] d = ([], d)
run cfg (rec ∷ rest) d =
    let (o, d') = handle_record cfg rec d in
    elim o [ exit ↦ (rec ∷ rest, d') | done ↦ run cfg rest d' | skipped ↦ run cfg rest d' ]
