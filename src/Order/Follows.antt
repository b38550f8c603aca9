-- ===== src/Order/Follows.antt =====
-- On `applyOrderUpdate` of services/order/api.go: which rows follow the engine, and how far.
use lcex.Prelude.{
  ◌≡◌, refl, ap, sym, ◌∙◌, true, false, ◌&&◌, List, [], ◌∷◌, ◌++◌, Option, none, some, arith,
  if◌then◌else◌, Bool-cases, Option-cases, inl, inr,
}
use lcex.Prelude.Int.{ℤ}
use lcex.Prelude.Word.{int64}
use lcex.Prelude.Text.{codes, text_eq}
use lcex.Db.{Db, OrderRow}
use lcex.Db.Keys.{eq_ℤ, eq_ℤ_iff}
use lcex.Db.Orders.{
  find_order, set_order, one_of, open_statuses, ended_statuses, change_open, update_open,
}
use lcex.Ledger.Atomic.{reach_healthy}
use lcex.Clearing.Reserves.{find_order_id, find_order-set_order}
use lcex.Events.{Event, OrderUpdate}
use lcex.Order.{sync_status, apply_order_update}

-- An order that has not ended takes the status and the filled quantity of an update, if the status is one
-- of the six; one that has ended is as it was.
abbrev pub follows : OrderUpdate → OrderRow → OrderRow
follows u o =
    if one_of o.status open_statuses && one_of u.status (open_statuses ++ ended_statuses)
    then record o { filled_qty = int64 u.filled_qty; status = u.status }
    else o

-- What an event makes of the order with an id: it has to be an update of that order.
abbrev pub followed : Option Event → ℤ → OrderRow → OrderRow
followed none id o = o
followed (some ev) id o =
    if text_eq ev.kind (codes "order_update")
    then elim ev.as_order_update [
      | none ↦ o
      | some u ↦ if eq_ℤ (int64 u.order_id) id then follows u o else o
    ]
    else o

-- The order after the events, one after the other.
abbrev pub followed_all : List (Option Event) → ℤ → OrderRow → OrderRow
followed_all [] id o = o
followed_all (p ∷ ps) id o = followed_all ps id (followed p id o)

-- `runStatusSync`: the payloads, one after the other.
unfoldable pub sync_all : List (Option Event) → Db → Db
sync_all [] d = d
sync_all (p ∷ ps) d = sync_all ps (apply_order_update p d)

abbrev pub on_row : (OrderRow → OrderRow) → Option OrderRow → Option OrderRow
on_row f none = none
on_row f (some o) = some (f o)

-- The table behind the statement, for the order that it finds.
abbrev orders_after : OrderUpdate → Option OrderRow → List OrderRow → List OrderRow
orders_after u none os = os
orders_after u (some o) os =
    if one_of o.status open_statuses && one_of u.status (open_statuses ++ ended_statuses)
    then set_order (record o { filled_qty = int64 u.filled_qty; status = u.status }) os
    else os

sync_status_db :
    (u : OrderUpdate) (d : Db)
    → d.faults ≡ []
    → (sync_status u d).1
      ≡ record d { orders = orders_after u (find_order (int64 u.order_id) d.orders) d.orders }
unfolding sync_status update_open change_open
sync_status_db u d h = elim (Option-cases (find_order (int64 u.order_id) d.orders)) [
  | inl e ↦ ground (arith, reach_healthy d h)
  | inr (o, e) ↦ elim (Bool-cases (one_of o.status open_statuses)) [
    | inr f ↦ ground (arith, reach_healthy d h)
    | inl t ↦ elim (Bool-cases (one_of u.status (open_statuses ++ ended_statuses))) [
      | inr f ↦ ground (arith, reach_healthy d h)
      | inl k ↦ ground (arith, reach_healthy d h)
    ]
  ]
]

-- What an update makes of the order with an id, if it is of that order.
abbrev follows_own : OrderUpdate → ℤ → OrderRow → OrderRow
follows_own u id o = if eq_ℤ (int64 u.order_id) id then follows u o else o

kept_row :
    (f : OrderRow → OrderRow) (row : Option OrderRow)
    → ((o : OrderRow) → f o ≡ o)
    → on_row f row ≡ row
kept_row f none h = refl
kept_row f (some o) h = ap some (h o)

orders_after_row :
    (u : OrderUpdate) (id : ℤ) (os : List OrderRow)
    → find_order id (orders_after u (find_order (int64 u.order_id) os) os)
      ≡ on_row (follows_own u id) (find_order id os)
orders_after_row u id os = elim (Option-cases (find_order (int64 u.order_id) os)) [
  | inl e ↦ elim (Option-cases (find_order id os)) [
    | inl q ↦ rw (e, q) refl
    | inr (p, q) ↦
        let other : eq_ℤ (int64 u.order_id) id ≡ false =
          ground (arith, eq_ℤ_iff (int64 u.order_id) id) in
        rw (e, q, other) refl
  ]
  | inr (o, e) ↦
      let own = find_order_id (int64 u.order_id) os o e in
      let o' : OrderRow = record o { filled_qty = int64 u.filled_qty; status = u.status } in
      let there : find_order o.order_id os ≡ some o = ground (arith, own, e) in
      let put : find_order id (set_order o' os)
          ≡ (if eq_ℤ o.order_id id then some o' else find_order id os) =
        find_order-set_order id o' os o there in
      let key = eq_ℤ_iff (int64 u.order_id) id in
      elim (Bool-cases
        (one_of o.status open_statuses && one_of u.status (open_statuses ++ ended_statuses))) [
          | inl t ↦ elim (Bool-cases (eq_ℤ (int64 u.order_id) id)) [
            | inl k ↦
                let mine : int64 u.order_id ≡ id = key.0 k in
                let row : find_order id os ≡ some o = ground (arith, mine, e) in
                let hit : eq_ℤ o.order_id id ≡ true = ground (arith, own, k) in
                rw (e, t, put, hit, row, k, t) refl
            | inr k ↦
                let miss : eq_ℤ o.order_id id ≡ false = ground (arith, own, k) in
                rw (e, t, put, miss)
                  (sym (kept_row (follows_own u id) (find_order id os) (λ q. rw k refl)))
          ]
          | inr f ↦ elim (Bool-cases (eq_ℤ (int64 u.order_id) id)) [
            | inl k ↦
                let mine : int64 u.order_id ≡ id = key.0 k in
                let row : find_order id os ≡ some o = ground (arith, mine, e) in
                rw (e, f, row, k, f) refl
            | inr k ↦
                rw (e, f) (sym (kept_row (follows_own u id) (find_order id os) (λ q. rw k refl)))
          ]
        ]
]

on_row_same :
    (f g : OrderRow → OrderRow) (row : Option OrderRow)
    → ((o : OrderRow) → f o ≡ g o)
    → on_row f row ≡ on_row g row
on_row_same f g none h = refl
on_row_same f g (some o) h = ap some (h o)

unchanged_row :
    (p : Option Event) (d : Db) (id : ℤ)
    → apply_order_update p d ≡ d
    → ((o : OrderRow) → followed p id o ≡ o)
    → (apply_order_update p d ≡ record d { orders = (apply_order_update p d).orders })
      × (find_order id (apply_order_update p d).orders
          ≡ on_row (followed p id) (find_order id d.orders))
unchanged_row p d id out keeps = (
  ground (arith, out),
  ap (λ (x : Db). find_order id x.orders) out
      ∙ sym (kept_row (followed p id) (find_order id d.orders) keeps),
)

apply_order_update_row :
    (p : Option Event) (d : Db) (id : ℤ)
    → d.faults ≡ []
    → (apply_order_update p d ≡ record d { orders = (apply_order_update p d).orders })
      × (find_order id (apply_order_update p d).orders
          ≡ on_row (followed p id) (find_order id d.orders))
unfolding apply_order_update
apply_order_update_row none d id h = (refl, sym (kept_row (followed none id) _ (λ o. refl)))
apply_order_update_row (some ev) d id h =
    elim (Bool-cases (text_eq ev.kind (codes "order_update"))) [
      | inr f ↦ unchanged_row (some ev) d id (ground arith) (λ o. ground arith)
      | inl t ↦ elim (Option-cases ev.as_order_update) [
        | inl e ↦ unchanged_row (some ev) d id (ground arith) (λ o. ground arith)
        | inr (u, e) ↦
            let out : apply_order_update (some ev) d ≡ record d {
              orders = orders_after u (find_order (int64 u.order_id) d.orders) d.orders;
            } =
              ground (arith, sync_status_db u d h) in
            let does : (o : OrderRow) → followed (some ev) id o ≡ follows_own u id o =
              λ o. ground arith in
            (
              ground (arith, out),
              ap (λ (x : Db). find_order id x.orders) out
                  ∙ orders_after_row u id d.orders
                  ∙ sym (
                      on_row_same (followed (some ev) id) (follows_own u id)
                        (find_order id d.orders) does),
            )
      ]
    ]

on_row_twice :
    (f g : OrderRow → OrderRow) (row : Option OrderRow)
    → on_row g (on_row f row) ≡ on_row (λ o. g (f o)) row
on_row_twice f g none = refl
on_row_twice f g (some o) = refl

-- On a healthy connection, whatever payloads the status consumer reads, in whatever order and how often,
-- no table but that of the orders changes, and the row of each order id is the one before with the
-- updates of that order in it, one after the other: the status and the filled quantity of each update, up
-- to the first one with which the order has ended, and nothing else; an update with a status that is none
-- of the six changes nothing. No order appears or disappears.
pub sync_all_follows :
    (ps : List (Option Event)) (d : Db) (id : ℤ)
    → d.faults ≡ []
    → (sync_all ps d ≡ record d { orders = (sync_all ps d).orders })
      × (find_order id (sync_all ps d).orders
          ≡ on_row (followed_all ps id) (find_order id d.orders))
unfolding sync_all
sync_all_follows [] d id h =
    (refl, sym (kept_row (followed_all [] id) (find_order id d.orders) (λ o. refl)))
sync_all_follows (p ∷ ps) d id h =
    let (same, row) = apply_order_update_row p d id h in
    let (rest, rows) = sync_all_follows ps (apply_order_update p d) id (ground (arith, same)) in
    (
      ground (arith, same, rest),
      rows
          ∙ ap (on_row (followed_all ps id)) row
          ∙ on_row_twice (followed p id) (followed_all ps id) (find_order id d.orders),
    )
