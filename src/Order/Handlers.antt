-- ===== src/Order/Handlers.antt =====
-- On the handlers of services/order/api.go that change the database: the books, and the reserves of the
-- orders.
use lcex.Prelude.{
  ◌≡◌, refl, ap, Option, arith, Result-cases, Option-cases, Bool-cases, inl, inr, if◌then◌else◌,
}
use lcex.Prelude.Int.{ℤ, pos, ltb_ℤ}
use lcex.Prelude.Word.{IsInt64, int64, int64-IsInt64}
use lcex.Prelude.Text.{Text, codes, text_eq}
use lcex.Db.{Db, OrderRow, BizKey, available, frozen, reach}
use lcex.Db.Orders.{find_order, change_open, update_open}
use lcex.Ledger.{post}
use lcex.Ledger.Atomic.{reach_keeps}
use lcex.Ledger.Invariant.{IsLedger-same}
use lcex.Ledger.Shift.{post-shift-IsLedger}
use lcex.Markets.{Config, Market}
use lcex.Request.{PlaceReq, Checked, parse_user_id, check_request}
use lcex.Clearing.Reserves.{IsReserve, AreReserves, find_order-IsReserve, set_order-IsReserve}
use lcex.Clearing.Consume.{IsBooks, post_orders}
use lcex.Order.{
  Produced, acknowledged, lost, unconfirmed, end_key, unfreeze, new_row, Placed, place,
  reject_and_unfreeze, dispatch, place_checked, place_request, handle_place, currency_of,
}
use lcex.Order.Books.{IsBooks-same, place-IsBooks}

change_open-orders :
    (id : ℤ) (change : OrderRow → OrderRow) (d : Db)
    → ((o : OrderRow) → (change o).reserved ≡ o.reserved)
    → AreReserves d.orders
    → AreReserves (change_open id change d).1.orders
unfolding change_open
change_open-orders id change d same r = elim (Option-cases (find_order id d.orders)) [
  | inl e ↦ ground arith
  | inr (o, e) ↦
      let small = find_order-IsReserve id d.orders o e r in
      let small' : IsReserve (change o) = rw (same o) small in
      ground (arith, set_order-IsReserve (change o) d.orders small' r)
]

change_open-books :
    (id : ℤ) (change : OrderRow → OrderRow) (d : Db)
    → ((change_open id change d).1.accounts ≡ d.accounts)
      × ((change_open id change d).1.entries ≡ d.entries)
unfolding change_open
change_open-books id change d = ground arith

-- A change of an open order that leaves its reserve alone.
update_open-IsBooks :
    (id : ℤ) (change : OrderRow → OrderRow) (d : Db)
    → ((o : OrderRow) → (change o).reserved ≡ o.reserved)
    → IsBooks d
    → IsBooks (update_open id change d).1
unfolding update_open
update_open-IsBooks id change d same h =
    let d₁ = (reach d).1 in
    let r = reach_keeps d in
    let h₁ =
      IsBooks-same d d₁ (ap (λ (x : Db). x.accounts) r) (ap (λ (x : Db). x.entries) r)
        (ap (λ (x : Db). x.orders) r) h in
    let (a, e) = change_open-books id change d₁ in
    let h₂ : IsBooks (change_open id change d₁).1 = record {
      ledger = IsLedger-same d₁ (change_open id change d₁).1 a e h₁.ledger;
      reserves = change_open-orders id change d₁ same h₁.reserves;
    } in
    elim (Result-cases (reach d).0) [ inl (_, q) ↦ ground arith | inr (e', q) ↦ ground arith ]

post_shift-IsBooks :
    (k : BizKey) (u : ℤ) (c : Text) (r : ℤ) (d : Db)
    → IsInt64 r
    → IsBooks d
    → IsBooks (post k (unfreeze u c r) d).1
post_shift-IsBooks k u c r d fits h = record {
  ledger = post-shift-IsLedger k u c frozen available r d fits h.ledger;
  reserves = rw (post_orders k (unfreeze u c r) d) (h.reserves);
}

pub reject_and_unfreeze-IsBooks :
    (id user_id : ℤ) (m : Market) (side : Text) (reserved : ℤ) (d : Db)
    → IsInt64 reserved
    → IsBooks d
    → IsBooks (reject_and_unfreeze id user_id m side reserved d)
unfolding reject_and_unfreeze
reject_and_unfreeze-IsBooks id user_id m side reserved d fits h =
    let reject : OrderRow → OrderRow = λ o. record o { status = codes "rejected" } in
    let d₁ = (update_open id reject d).1 in
    let h₁ = update_open-IsBooks id reject d (λ o. refl) h in
    let c = if text_eq side (codes "ask") then m.base else m.quote in
    let h₂ = post_shift-IsBooks (end_key id) user_id c reserved d₁ fits h₁ in
    elim (Bool-cases (ltb_ℤ (pos 0) reserved)) [ inl e ↦ rw e h₂ | inr e ↦ rw e h₁ ]

dispatch-IsBooks :
    (prefix : Text) (user_id : ℤ) (req : PlaceReq) (c : Checked) (produced : Produced) (p : Placed)
    (d : Db)
    → IsBooks d
    → IsBooks (dispatch prefix user_id req c produced p d).1
unfolding dispatch
dispatch-IsBooks prefix user_id req c produced p d h =
    let undone =
      reject_and_unfreeze-IsBooks p.order_id user_id c.market req.side (int64 c.reserved) d
        (int64-IsInt64 c.reserved) h in
    by_end produced undone
  where
    by_end :
        (q : Produced)
        → IsBooks (reject_and_unfreeze p.order_id user_id c.market req.side (int64 c.reserved) d)
        → IsBooks (dispatch prefix user_id req c q p d).1
    by_end acknowledged u = ground arith
    by_end lost u = ground arith
    by_end unconfirmed u = ground arith

place_checked-IsBooks :
    (prefix : Text) (cfg : Config) (user_id : ℤ) (req : PlaceReq) (c : Checked)
    (produced : Produced) (d : Db)
    → IsBooks d
    → IsBooks (place_checked prefix cfg user_id req c produced d).1
unfolding place_checked
place_checked-IsBooks prefix cfg user_id req c produced d h =
    elim (Option-cases (currency_of cfg c.market.symbol req.side)) [
      | inl e ↦ ground arith
      | inr (currency, e) ↦
          let o = new_row user_id req c in
          let kept = place-IsBooks o currency d (int64-IsInt64 c.reserved) h in
          elim (Result-cases (place o currency d).0) [
            | inr (code, q) ↦ ground arith
            | inl (p, q) ↦
                let sent =
                  dispatch-IsBooks prefix user_id req c produced p (place o currency d).1 kept in
                ground arith
          ]
    ]

-- Whatever `handlePlace` is asked, however its producer ends and whichever statement fails, it keeps
-- the books (balances reconciled with the entries, none negative, assets equal to claims, one row for
-- each account) and the reserves (every order reserves an int64 other than the least).
pub handle_place-IsBooks :
    (prefix : Text) (cfg : Config) (header : Text) (body : Option PlaceReq) (produced : Produced)
    (d : Db)
    → IsBooks d
    → IsBooks (handle_place prefix cfg header body produced d).1
unfolding handle_place place_request
handle_place-IsBooks prefix cfg header body produced d h =
    elim (Option-cases (parse_user_id header)) [
      | inl e ↦ ground arith
      | inr (u, e) ↦ elim (Option-cases body) [
        | inl q ↦ ground arith
        | inr (req, q) ↦ elim (Result-cases (check_request cfg req)) [
          | inr (code, r) ↦ ground arith
          | inl (c, r) ↦ ground (arith, place_checked-IsBooks prefix cfg u req c produced d h)
        ]
      ]
    ]
