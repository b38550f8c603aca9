-- ===== src/Order/Cancels.antt =====
-- On `handleCancel` of services/order/api.go: which orders it asks the engine to cancel.
use lcex.Prelude.{
  ◌≡◌, true, [], ◌∷◌, some, arith, ok, err, Result-cases, Option-cases, Bool-cases, ◌⊎◌, inl, inr,
}
use lcex.Prelude.Int.{ℤ}
use lcex.Prelude.Word.{uint64}
use lcex.Prelude.Text.{Text}
use lcex.Db.{Db, Err, OrderRow, reach}
use lcex.Db.Keys.{eq_ℤ_iff}
use lcex.Db.Orders.{find_order, select_order, read_order, select_user_order, one_of, open_statuses}
use lcex.Request.{parse_int, parse_user_id}
use lcex.Order.{
  Produced, acknowledged, lost, unconfirmed, Answer, cancel_command, input_topic, cancel_row,
  cancel_found, handle_cancel,
}

-- The user's own order, which has not ended, and the command for it.
pub record Cancels (prefix header path : Text) (d : Db) (a : Answer) : Type 0 where
  pub user_id : ℤ
  pub id : ℤ
  pub order : OrderRow
  pub user : parse_user_id header ≡ some user_id
  pub number : parse_int path ≡ some id
  pub row : find_order id d.orders ≡ some order
  pub own : order.user_id ≡ user_id
  pub alive : one_of order.status open_statuses ≡ true
  pub command :
      a.sent
      ≡ (
        input_topic prefix order.symbol,
        cancel_command (record { order_id = uint64 id; user_id = uint64 user_id }),
      )
        ∷ []

select_user_order_keeps :
    (id u : ℤ) (d : Db)
    → (select_user_order id u d).1 ≡ record d { faults = (select_user_order id u d).1.faults }
unfolding select_user_order select_order read_order reach
select_user_order_keeps id u d = ground arith

select_user_order_row :
    (id u : ℤ) (d d' : Db) (o : OrderRow)
    → select_user_order id u d ≡ (ok o, d')
    → (find_order id d.orders ≡ some o) × (o.user_id ≡ u)
unfolding select_user_order select_order read_order reach
select_user_order_row id u d d' o h = ground (arith, eq_ℤ_iff o.user_id u)

cancel_row_sent :
    (prefix : Text) (u id : ℤ) (produced : Produced) (o : OrderRow)
    → ((cancel_row prefix u id produced o).sent ≡ [])
      ⊎ ((one_of o.status open_statuses ≡ true)
          × ((cancel_row prefix u id produced o).sent
              ≡ (
                input_topic prefix o.symbol,
                cancel_command (record { order_id = uint64 id; user_id = uint64 u }),
              )
                ∷ []))
unfolding cancel_row
cancel_row_sent prefix u id produced o = elim (Bool-cases (one_of o.status open_statuses)) [
  | inr f ↦ inl (ground arith)
  | inl t ↦ by_end produced
]
  where
    by_end :
        (q : Produced)
        → ((cancel_row prefix u id q o).sent ≡ [])
          ⊎ ((one_of o.status open_statuses ≡ true)
              × ((cancel_row prefix u id q o).sent
                  ≡ (
                    input_topic prefix o.symbol,
                    cancel_command (record { order_id = uint64 id; user_id = uint64 u }),
                  )
                    ∷ []))
    by_end acknowledged = ground arith
    by_end lost = ground arith
    by_end unconfirmed = ground arith

cancel_found_err :
    (prefix : Text) (u id : ℤ) (produced : Produced) (e : Err)
    → (cancel_found prefix u id produced (err e)).sent ≡ []
unfolding cancel_found
cancel_found_err prefix u id produced e = ground arith

-- `handleCancel` changes no table, and it sends either nothing or one command, to cancel an order that
-- has not ended and belongs to the user who asks.
pub handle_cancel-Cancels :
    (prefix header path : Text) (produced : Produced) (d : Db)
    → let out = handle_cancel prefix header path produced d in
      (out.1 ≡ record d { faults = out.1.faults })
      × ((out.0.sent ≡ []) ⊎ Cancels prefix header path d out.0)
unfolding handle_cancel cancel_found
handle_cancel-Cancels prefix header path produced d = elim (Option-cases (parse_user_id header)) [
  | inl e ↦ (ground arith, inl (ground arith))
  | inr (u, e) ↦ elim (Option-cases (parse_int path)) [
    | inl q ↦ (ground arith, inl (ground arith))
    | inr (id, q) ↦
        let kept = select_user_order_keeps id u d in
        elim (Result-cases (select_user_order id u d).0) [
          | inr (f, r) ↦
              (ground (arith, kept), inl (ground (arith, cancel_found_err prefix u id produced f)))
          | inl (o, r) ↦
              let (row, own) =
                select_user_order_row id u d (select_user_order id u d).1 o (ground arith) in
              (
                ground (arith, kept),
                elim (cancel_row_sent prefix u id produced o) [
                  | inl z ↦ inl (ground arith)
                  | inr (alive, sent) ↦ inr (record {
                    user_id = u;
                    id = id;
                    order = o;
                    user = e;
                    number = q;
                    row = row;
                    own = own;
                    alive = alive;
                    command = ground arith;
                  })
                ],
              )
        ]
  ]
]
