-- ===== src/Order/Books.antt =====
-- On `place` of services/order/api.go: the books, and the reserves of the orders.
use lcex.Prelude.{
  ◌≡◌, refl, ap, [], ◌∷◌, ◌++◌, All-append, arith, Result, ok, err, Result-cases, ◌⊎◌, inl, inr,
}
use lcex.Prelude.Int.{ℤ}
use lcex.Prelude.Word.{IsInt64}
use lcex.Prelude.Text.{Text}
use lcex.Db.{Db, Err, OrderRow, available, frozen, reach}
use lcex.Db.Orders.{select_client}
use lcex.Ledger.{with_tx}
use lcex.Ledger.Atomic.{with_tx_err}
use lcex.Ledger.Invariant.{IsLedger-same, sound-IsLedger}
use lcex.Ledger.Shift.{shift-IsSound, posted-IsShiftable}
use lcex.Clearing.Reserves.{IsReserve}
use lcex.Clearing.Settle.{Journaled-orders}
use lcex.Clearing.Consume.{IsBooks}
use lcex.Order.{order_key, freeze, place_tx, replay, place_result, place}
use lcex.Order.Freezes.{Frozen, place_tx_ok, with_id}

-- The two tables of the books and that of the orders are as they were.
pub IsBooks-same :
    (d d' : Db)
    → d'.accounts ≡ d.accounts
    → d'.entries ≡ d.entries
    → d'.orders ≡ d.orders
    → IsBooks d
    → IsBooks d'
IsBooks-same d d' a e o h = record {
  ledger = IsLedger-same d d' a e h.ledger;
  reserves = rw o h.reserves;
}

-- What an order reserves is shifted, and so not the least int64.
Frozen-IsReserve :
    (o : OrderRow) (c : Text) (id : ℤ) (d d' : Db)
    → IsInt64 o.reserved
    → Frozen o c id d d'
    → IsReserve (with_id o id)
Frozen-IsReserve o c id d d' h f =
    posted-IsShiftable (order_key id) o.user_id c available frozen o.reserved f.journal.opened
      f.end_ h f.journal.posts

Frozen-IsBooks :
    (o : OrderRow) (c : Text) (id : ℤ) (d d' : Db)
    → IsInt64 o.reserved
    → Frozen o c id d d'
    → IsBooks d
    → IsBooks d'
Frozen-IsBooks o c id d d' fits f h =
    let k = order_key id in
    let ms = freeze o.user_id c o.reserved in
    let small = Frozen-IsReserve o c id d d' fits f in
    let rest = f.inserted.rest in
    let h₁ =
      IsLedger-same d f.middle (ground (arith, rest, f.started)) (ground (arith, rest, f.started))
        h.ledger in
    let sound = shift-IsSound o.user_id c available frozen o.reserved small in
    let h₂ = sound-IsLedger k ms f.middle f.end_ sound f.journal h₁ in
    let before : f.start.orders ≡ d.orders = ap (λ (x : Db). x.orders) f.started in
    let orders : d'.orders ≡ d.orders ++ with_id o id ∷ [] =
      ground (arith, rest, before, f.ended, Journaled-orders k ms f.middle f.end_ f.journal) in
    record {
      ledger = IsLedger-same f.end_ d' (ground (arith, f.ended)) (ground (arith, f.ended)) h₂;
      reserves =
          rw orders (All-append IsReserve d.orders (with_id o id ∷ []) h.reserves (small, tt));
    }

place_tx-IsBooks :
    (o : OrderRow) (c : Text) (d : Db)
    → IsInt64 o.reserved
    → IsBooks d
    → IsBooks (with_tx (place_tx o c) d).1
place_tx-IsBooks o c d fits h =
    let d' = (with_tx (place_tx o c) d).1 in
    elim (Result-cases (with_tx (place_tx o c) d).0) [
      | inl (id, e) ↦ Frozen-IsBooks o c id d d' fits (place_tx_ok o c id d d' (ground arith)) h
      | inr (e, q) ↦
          let same = with_tx_err (place_tx o c) d d' e (ground arith) in
          IsBooks-same d d' (ap (λ (x : Db). x.accounts) same) (ap (λ (x : Db). x.entries) same)
            (ap (λ (x : Db). x.orders) same) h
    ]

select_client_keeps :
    (u : ℤ) (c : Text) (d : Db)
    → (select_client u c d).1 ≡ record d { faults = (select_client u c d).1.faults }
unfolding select_client reach
select_client_keeps u c d = ground arith

replay-IsBooks : (o : OrderRow) (d : Db) → IsBooks d → IsBooks (replay o d).1
unfolding replay
replay-IsBooks o d h =
    let d' = (select_client o.user_id o.client_order_id d).1 in
    let same = select_client_keeps o.user_id o.client_order_id d in
    let kept =
      IsBooks-same d d' (ap (λ (x : Db). x.accounts) same) (ap (λ (x : Db). x.entries) same)
        (ap (λ (x : Db). x.orders) same) h in
    elim (Result-cases (select_client o.user_id o.client_order_id d).0) [
      | inl (p, e) ↦ ground arith
      | inr (e, q) ↦ ground arith
    ]

-- What a result becomes leaves the database alone, but for the lookup of the order that is there.
place_result_db :
    (o : OrderRow) (r : Result Err ℤ) (d : Db)
    → ((place_result o (r, d)).1 ≡ d) ⊎ ((place_result o (r, d)).1 ≡ (replay o d).1)
unfolding place_result
place_result_db o (ok id) d = inl refl
place_result_db o (err e) d = ground arith

pub place-IsBooks :
    (o : OrderRow) (c : Text) (d : Db) → IsInt64 o.reserved → IsBooks d → IsBooks (place o c d).1
unfolding place
place-IsBooks o c d fits h =
    let d' = (with_tx (place_tx o c) d).1 in
    let kept = place_tx-IsBooks o c d fits h in
    elim (place_result_db o (with_tx (place_tx o c) d).0 d') [
      | inl e ↦ rw e kept
      | inr e ↦ rw e (replay-IsBooks o d' kept)
    ]
