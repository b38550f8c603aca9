-- ===== src/Clearing/Books.antt =====
-- On `settleTrade` and `unfreezeReserved` of services/clearing/main.go: the books of the ledger.
use lcex.Prelude.{◌≡◌, ap, ℕ, ◌<◌, some, arith, Result, ok, Result-cases, inl, inr, Bool-cases, ◌⊎◌}
use lcex.Prelude.Int.{ℤ, pos}
use lcex.Prelude.Word.{i64_mod, int64}
use lcex.Prelude.Text.{Text}
use lcex.Db.{Db, Err, OrderRow, frozen, available, reach}
use lcex.Db.Keys.{eq_ℤ}
use lcex.Db.Orders.{find_order, select_order, read_order}
use lcex.Ledger.{with_tx}
use lcex.Ledger.Legs.{weight}
use lcex.Ledger.Atomic.{with_tx_err, with_tx_ok}
use lcex.Ledger.Invariant.{IsLedger, IsLedger-same, Journaled-IsLedger, post-IsLedger_of}
use lcex.Ledger.Shift.{shift-IsSound}
use lcex.Markets.{Config, Market, get}
use lcex.Events.{Trade}
use lcex.Settlement.{Settlement, settlement}
use lcex.Settlement.Amounts.{IsSmall}
use lcex.Settlement.Balanced.{settlement-IsBalanced}
use lcex.Clearing.{
  trade_key, settle_body, settle_with, settle_trade, release, release_order, unfreeze_row,
  unfreeze_reserved, final_key,
}
use lcex.Clearing.Reserves.{IsReserve, AreReserves, find_order-IsReserve}
use lcex.Clearing.Settle.{settle_body_ok, select_order_keeps}

settle_with-IsLedger :
    (t : Trade) (s : Settlement) (d : Db)
    → weight s.moves < i64_mod
    → IsLedger d
    → IsLedger (settle_with t s d).1
unfolding settle_with
settle_with-IsLedger t s d small h = elim (Result-cases (with_tx (settle_body t s) d).0) [
  | inl (_, e) ↦
      let d' = (with_tx (settle_body t s) d).1 in
      let start = (reach d).1 in
      let body = settle_body t s start in
      let (opened, ran, closed) = with_tx_ok (settle_body t s) d d' tt (ground arith) in
      let done = settle_body_ok t s start body.1 (ground arith) in
      let h₁ =
        IsLedger-same d done.start (ground (arith, done.started)) (ground (arith, done.started))
          h in
      let h₂ =
        Journaled-IsLedger (trade_key t) s.moves done.start done.end_ small done.journal h₁ in
      IsLedger-same done.end_ d' (ground (arith, done.ended)) (ground (arith, done.ended)) h₂
  | inr (e, q) ↦
      let d' = (with_tx (settle_body t s) d).1 in
      let same = with_tx_err (settle_body t s) d d' e (ground arith) in
      IsLedger-same d d' (ap (λ (x : Db). x.accounts) same) (ap (λ (x : Db). x.entries) same) h
]

pub settle_trade_start :
    (cfg : Config) (symbol : Text) (t : Trade) (d : Db)
    → ((settle_trade cfg symbol t d).1 ≡ d)
      ⊎ ((m : Market) × (s : Settlement) × (get cfg symbol ≡ ok m)
          × (settlement m t ≡ ok s)
          × (settle_trade cfg symbol t d ≡ settle_with t s d))
unfolding settle_trade
settle_trade_start cfg symbol t d = elim (Result-cases (get cfg symbol)) [
  | inr (e, q) ↦ inl (ground arith)
  | inl (m, q) ↦ elim (Result-cases (settlement m t)) [
    | inr (e, p) ↦ inl (ground arith)
    | inl (s, p) ↦ inr (m, s, q, p, ground arith)
  ]
]

-- Whatever `settleTrade` returns, and whichever statement fails, it keeps the books if the amounts of
-- the trade are small in its market.
pub settle_trade-IsLedger :
    (cfg : Config) (symbol : Text) (t : Trade) (d : Db)
    → ((m : Market) → get cfg symbol ≡ ok m → IsSmall m t)
    → IsLedger d
    → IsLedger (settle_trade cfg symbol t d).1
settle_trade-IsLedger cfg symbol t d small h = elim (settle_trade_start cfg symbol t d) [
  | inl e ↦ rw e h
  | inr (m, s, q, p, e) ↦
      rw e (settle_with-IsLedger t s d (settlement-IsBalanced m t (small m q) s p).2 h)
]

release_order-IsLedger :
    (id : ℕ) (o : OrderRow) (m : Market) (d : Db)
    → IsReserve o
    → IsLedger d
    → IsLedger (release_order id o m d).1
unfolding release_order
release_order-IsLedger id o m d small =
    post-IsLedger_of (final_key id) (release o m) d
      (λ _ _ _. shift-IsSound o.user_id _ frozen available o.reserved small)

pub select_order_row :
    (id : ℤ) (d d' : Db) (o : OrderRow)
    → select_order id d ≡ (ok o, d')
    → find_order id d.orders ≡ some o
unfolding select_order read_order reach
select_order_row id d d' o h = ground arith

unfreeze_row-IsLedger :
    (cfg : Config) (id : ℕ) (o : OrderRow) (d : Db)
    → IsReserve o
    → IsLedger d
    → IsLedger (unfreeze_row cfg id o d).1
unfolding unfreeze_row
unfreeze_row-IsLedger cfg id o d small h = elim (Bool-cases (eq_ℤ o.reserved (pos 0))) [
  | inl e ↦ rw e h
  | inr e ↦ elim (Result-cases (get cfg o.symbol)) [
    | inl (m, q) ↦ rw (e, q) (release_order-IsLedger id o m d small h)
    | inr (_, q) ↦ rw (e, q) h
  ]
]

-- Whatever `unfreezeReserved` returns, and whichever statement fails, it keeps the books.
pub unfreeze_reserved-IsLedger :
    (cfg : Config) (id : ℕ) (d : Db)
    → AreReserves d.orders
    → IsLedger d
    → IsLedger (unfreeze_reserved cfg id d).1
unfolding unfreeze_reserved
unfreeze_reserved-IsLedger cfg id d r h =
    let d₁ = (select_order (int64 id) d).1 in
    let keeps = select_order_keeps (int64 id) d in
    let h₁ =
      IsLedger-same d d₁ (ap (λ (x : Db). x.accounts) keeps) (ap (λ (x : Db). x.entries) keeps) h in
    elim (Result-cases (select_order (int64 id) d).0) [
      | inl (o, e) ↦
          let q : unfreeze_reserved cfg id d ≡ unfreeze_row cfg id o d₁ = ground arith in
          let small =
            find_order-IsReserve (int64 id) d.orders o
              (select_order_row (int64 id) d d₁ o (ground arith)) r in
          rw (ap (λ (x : Result Err (Unit {0}) × Db). x.1) q)
            (unfreeze_row-IsLedger cfg id o d₁ small h₁)
      | inr (e, q) ↦ let q' : (unfreeze_reserved cfg id d).1 ≡ d₁ = ground arith in rw q' h₁
    ]
