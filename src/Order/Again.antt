-- ===== src/Order/Again.antt =====
-- On `place` of services/order/api.go: a new order, and a client's order id that is used again.
use lcex.Prelude.{
  ◌≡◌, true, false, List, [], ◌∷◌, ◌++◌, none, some, arith, Result, ok, err, Result-cases, inl, inr,
}
use lcex.Prelude.Int.{ℤ, pos, ◌+ℤ◌, ◌-ℤ◌}
use lcex.Prelude.Word.{IsInt64}
use lcex.Db.Store.{balance_of}
use lcex.Prelude.Text.{Text, text_eq_iff}
use lcex.Db.{Db, Err, OrderRow, available, frozen, unique_violation}
use lcex.Db.Keys.{eq_ℤ_iff}
use lcex.Db.Orders.{find_client, insert_order, insert_row, order_checks, select_client, price_fits}
use lcex.Ledger.{user_ref, with_tx}
use lcex.Ledger.Atomic.{with_tx_healthy, reach_healthy}
use lcex.Clearing.Settle.{Journaled-orders}
use lcex.Order.{place, place_result, place_tx, replay, Placed, freeze, order_key}
use lcex.Order.Freezes.{Frozen, Frozen-balances, place_tx_ok, with_id}

find_client-append :
    (o : OrderRow) (id : ℤ) (os : List OrderRow)
    → find_client o.user_id o.client_order_id os ≡ none
    → find_client o.user_id o.client_order_id (os ++ with_id o id ∷ []) ≡ some (with_id o id)
unfolding find_client
find_client-append o id [] h =
    ground (arith, eq_ℤ_iff o.user_id o.user_id, text_eq_iff o.client_order_id o.client_order_id)
find_client-append o id (p ∷ os) h = ground (arith, find_client-append o id os)

-- The order of a frozen row is found under the client's id.
Frozen-found :
    (o : OrderRow) (c : Text) (id : ℤ) (d d' : Db)
    → Frozen o c id d d'
    → find_client o.user_id o.client_order_id d'.orders ≡ some (with_id o id)
Frozen-found o c id d d' f =
    let new = f.inserted.new in
    let found = find_client-append o id f.start.orders new in
    let orders : d'.orders ≡ f.start.orders ++ with_id o id ∷ [] = ground (
      arith,
      f.inserted.rest,
      f.ended,
      Journaled-orders (order_key id) (freeze o.user_id c o.reserved) f.middle f.end_ f.journal,
    ) in
    rw orders found

-- The insertion stops at the unique key; a generated id is used up.
place_tx_again :
    (o p : OrderRow) (c : Text) (d : Db)
    → d.faults ≡ []
    → price_fits o.price ≡ true
    → order_checks o ≡ ok tt
    → find_client o.user_id o.client_order_id d.orders ≡ some p
    → with_tx (place_tx o c) d
      ≡ (err unique_violation, record d { next_order_id = d.next_order_id +ℤ pos 1 })
unfolding place_tx insert_order insert_row
place_tx_again o p c d healthy fits checks there =
    ground (arith, with_tx_healthy (place_tx o c) d healthy, reach_healthy d healthy)

replay_found :
    (o p : OrderRow) (d : Db)
    → d.faults ≡ []
    → find_client o.user_id o.client_order_id d.orders ≡ some p
    → replay o d ≡ (ok (record { order_id = p.order_id; status = p.status; replayed = true }), d)
unfolding replay select_client
replay_found o p d healthy there = ground (arith, reach_healthy d healthy)

replay_replayed :
    (o : OrderRow) (d d' : Db) (p : Placed) → replay o d ≡ (ok p, d') → p.replayed ≡ true
unfolding replay
replay_replayed o d d' p h = elim (Result-cases (select_client o.user_id o.client_order_id d).0) [
  | inl (q, e) ↦ ground arith
  | inr (e, q) ↦ absurd (ground arith)
]

-- A result that is not replayed comes from the transaction.
new_result :
    (o : OrderRow) (r : Result Err ℤ) (d d' : Db) (p : Placed)
    → place_result o (r, d) ≡ (ok p, d')
    → p.replayed ≡ false
    → (r ≡ ok p.order_id) × (d ≡ d')
unfolding place_result
new_result o (ok id) d d' p h new = ground arith
new_result o (err e) d d' p h new = absurd (ground (arith, replay_replayed o d d' p))

pub place_new :
    (o : OrderRow) (c : Text) (d d' : Db) (p : Placed)
    → place o c d ≡ (ok p, d')
    → p.replayed ≡ false
    → with_tx (place_tx o c) d ≡ (ok p.order_id, d')
unfolding place
place_new o c d d' p h new =
    let (e, e') =
      new_result o (with_tx (place_tx o c) d).0 (with_tx (place_tx o c) d).1 d' p h new in
    ground arith

-- An order that was placed anew is placed once: `place` for the same row over a healthy connection
-- returns its order id, marked as replayed, and changes nothing but the next id to be generated.
pub place_twice :
    (o : OrderRow) (c : Text) (d d' : Db) (p : Placed)
    → place o c d ≡ (ok p, d')
    → p.replayed ≡ false
    → d'.faults ≡ []
    → place o c d' ≡ (
      ok (record { order_id = p.order_id; status = o.status; replayed = true }),
      record d' { next_order_id = d'.next_order_id +ℤ pos 1 },
    )
unfolding place place_result
place_twice o c d d' p h new healthy =
    let f = place_tx_ok o c p.order_id d d' (place_new o c d d' p h new) in
    let there = Frozen-found o c p.order_id d d' f in
    let d'' = record d' { next_order_id = d'.next_order_id +ℤ pos 1 } in
    ground (
      arith,
      place_tx_again o (with_id o p.order_id) c d' healthy f.inserted.fits f.inserted.checks there,
      replay_found o (with_id o p.order_id) d'' healthy there,
    )

-- An order that was placed anew stands behind the others, and its reserve has moved from its user's
-- available to the frozen balance: a negative one the other way.
pub place_freezes :
    (o : OrderRow) (c : Text) (d d' : Db) (p : Placed)
    → IsInt64 o.reserved
    → place o c d ≡ (ok p, d')
    → p.replayed ≡ false
    → let account = user_ref o.user_id c in
      (balance_of (account available) d'.accounts
        ≡ balance_of (account available) d.accounts -ℤ o.reserved)
      × (balance_of (account frozen) d'.accounts
          ≡ balance_of (account frozen) d.accounts +ℤ o.reserved)
      × (d'.orders ≡ d.orders ++ with_id o p.order_id ∷ [])
place_freezes o c d d' p fits h new =
    Frozen-balances o c p.order_id d d' fits
      (place_tx_ok o c p.order_id d d' (place_new o c d d' p h new))
