-- ===== src/Db/Orders.antt =====
-- The statements on the table `orders` (db/migrations/000002_orders.up.sql) that the clearing service
-- and the order service execute. The values of `side` and the like that a CHECK admits are texts.
use lcex.Prelude.{
  Bool, true, false, not, ◌&&◌, ◌||◌, ◌++◌, List, [], ◌∷◌, Option, none, some, if◌then◌else◌,
  Result, ok, err,
}
use lcex.Prelude.Int.{ℤ, pos, ◌+ℤ◌, ◌-ℤ◌, leb_ℤ}
use lcex.Prelude.Text.{Text, codes, text_eq}
use lcex.Db.{
  OrderRow, Err, no_rows, out_of_range, unique_violation, check_violation, order_type_check,
  side_check, stp_check, tif_check, status_check, Tx, reach, raise_if, pure, ◌>>=◌, ◌>>◌,
}
use lcex.Db.Keys.{eq_ℤ}
use lcex.Db.Statements.{in_int64}

unfoldable pub find_order : ℤ → List OrderRow → Option OrderRow
find_order id [] = none
find_order id (o ∷ os) = if eq_ℤ o.order_id id then some o else find_order id os

-- The row with the order id, replaced.
unfoldable pub set_order : OrderRow → List OrderRow → List OrderRow
set_order o [] = []
set_order o (p ∷ os) = if eq_ℤ p.order_id o.order_id then o ∷ os else p ∷ set_order o os

-- SELECT … FROM orders WHERE order_id = $1
unfoldable pub read_order : ℤ → Tx OrderRow
read_order id d = elim (find_order id d.orders) [ none ↦ (err no_rows, d) | some o ↦ (ok o, d) ]

unfoldable pub select_order : ℤ → Tx OrderRow
select_order id = do reach; read_order id

-- UPDATE orders SET reserved = reserved - $1 WHERE order_id = $2 AND reserved >= $1; no row is no error.
unfoldable pub reduce_reserved : ℤ → ℤ → Tx (Unit {0})
reduce_reserved amount id d = elim (find_order id d.orders) [
  | none ↦ (ok tt, d)
  | some o ↦
      let rest = o.reserved -ℤ amount in
      if not (leb_ℤ amount o.reserved)
      then (ok tt, d)
      else if in_int64 rest
      then (ok tt, record d { orders = set_order (record o { reserved = rest }) d.orders })
      else (err out_of_range, d)
]

unfoldable pub consume_reserved : ℤ → ℤ → Tx (Unit {0})
consume_reserved amount id = do reach; reduce_reserved amount id

abbrev pub one_of : Text → List Text → Bool
one_of t [] = false
one_of t (s ∷ ss) = text_eq t s || one_of t ss

-- The statuses of an order that has not ended.
abbrev pub open_statuses : List Text
open_statuses = codes "pending" ∷ codes "open" ∷ codes "partially_filled" ∷ []

abbrev pub ended_statuses : List Text
ended_statuses = codes "filled" ∷ codes "canceled" ∷ codes "rejected" ∷ []

-- The CHECK constraints of the columns that `place` fills, in the order of their names.
unfoldable pub order_checks : OrderRow → Result Err (Unit {0})
order_checks o =
    if not (one_of o.order_type (codes "limit" ∷ codes "market" ∷ []))
    then err (check_violation order_type_check)
    else if not (one_of o.side (codes "bid" ∷ codes "ask" ∷ []))
    then err (check_violation side_check)
    else if not (one_of o.stp (codes "none" ∷ codes "cancel_taker" ∷ []))
    then err (check_violation stp_check)
    else if not (one_of o.tif (codes "gtc" ∷ codes "ioc" ∷ codes "fok" ∷ []))
    then err (check_violation tif_check)
    else ok tt

-- The row under the unique key of a user and a client's order id.
unfoldable pub find_client : ℤ → Text → List OrderRow → Option OrderRow
find_client user_id client_id [] = none
find_client user_id client_id (o ∷ os) =
    if eq_ℤ o.user_id user_id && text_eq o.client_order_id client_id
    then some o
    else find_client user_id client_id os

-- The row with a new id, appended: the id is taken from its sequence before the constraints are
-- checked.
unfoldable pub insert_row : OrderRow → Tx ℤ
insert_row o d =
    let id = d.next_order_id in
    let d' = record d { next_order_id = id +ℤ pos 1 } in
    elim (order_checks o) [
      | err e ↦ (err e, d')
      | ok _ ↦ elim (find_client o.user_id o.client_order_id d.orders) [
        | some p ↦ (err unique_violation, d')
        | none ↦ (ok id, record d' { orders = d.orders ++ record o { order_id = id } ∷ [] })
      ]
    ]

abbrev pub price_fits : Option ℤ → Bool
price_fits none = true
price_fits (some p) = in_int64 p

-- INSERT INTO orders … RETURNING order_id; the driver refuses a price beyond BIGINT.
unfoldable pub insert_order : OrderRow → Tx ℤ
insert_order o = do raise_if (not (price_fits o.price)) out_of_range; reach; insert_row o

-- SELECT … FROM orders WHERE user_id = $1 AND client_order_id = $2
unfoldable pub select_client : ℤ → Text → Tx OrderRow
select_client user_id client_id = do
  reach
  (λ d. elim (find_client user_id client_id d.orders) [
    | none ↦ (err no_rows, d)
    | some o ↦ (ok o, d)
  ])

-- SELECT … FROM orders WHERE order_id = $1 AND user_id = $2
unfoldable pub select_user_order : ℤ → ℤ → Tx OrderRow
select_user_order id user_id = do
  o ← select_order id
  raise_if (not (eq_ℤ o.user_id user_id)) no_rows
  pure o

-- The row of an order that has not ended, changed, with the CHECK on its status.
unfoldable pub change_open : ℤ → (OrderRow → OrderRow) → Tx (Unit {0})
change_open id change d = elim (find_order id d.orders) [
  | none ↦ (ok tt, d)
  | some o ↦
      if not (one_of o.status open_statuses)
      then (ok tt, d)
      else if one_of (change o).status (open_statuses ++ ended_statuses)
      then (ok tt, record d { orders = set_order (change o) d.orders })
      else (err (check_violation status_check), d)
]

-- UPDATE orders SET … WHERE order_id = $1 AND status IN ('pending', 'open', 'partially_filled')
unfoldable pub update_open : ℤ → (OrderRow → OrderRow) → Tx (Unit {0})
update_open id change = do reach; change_open id change
