-- ===== src/Clearing/Consume.antt =====
-- On the loop over the records of services/clearing/main.go: the books, and the reserves of the orders.
use lcex.Prelude.{
  ◌≡◌, ap, ℕ, List, [], ◌∷◌, All, some, arith, ok, Result-cases, inl, inr, Option-cases, Bool-cases,
}
use lcex.Prelude.Int.{pos}
use lcex.Prelude.Word.{int64}
use lcex.Prelude.Text.{Text}
use lcex.Db.{Db, OrderRow, BizKey, reach}
use lcex.Db.Keys.{eq_ℤ}
use lcex.Db.Orders.{select_order}
use lcex.Ledger.{Move, post, with_tx}
use lcex.Ledger.Atomic.{with_tx_err, with_tx_ok}
use lcex.Ledger.Invariant.{IsLedger, post_ok, post_err}
use lcex.Markets.{Config, Market, get}
use lcex.Events.{Trade, Event}
use lcex.Settlement.{Settlement}
use lcex.Settlement.Amounts.{IsSmall}
use lcex.Clearing.{
  final_key, settle_body, settle_with, settle_trade, release, release_order, unfreeze_row,
  unfreeze_reserved, Delivery, handle_trade, handle_update, handle_event, handle_record, run,
}
use lcex.Clearing.Reserves.{AreReserves}
use lcex.Clearing.Settle.{settle_body_ok, select_order_keeps, Journaled-orders}
use lcex.Clearing.Books.{settle_trade_start, settle_trade-IsLedger, unfreeze_reserved-IsLedger}

-- The books are kept, and every order reserves an int64 other than the least.
pub record IsBooks (d : Db) : Type 0 where
  pub ledger : IsLedger d
  pub reserves : AreReserves d.orders

settle_with-AreReserves :
    (t : Trade) (s : Settlement) (d : Db)
    → AreReserves d.orders
    → AreReserves (settle_with t s d).1.orders
unfolding settle_with
settle_with-AreReserves t s d r = elim (Result-cases (with_tx (settle_body t s) d).0) [
  | inl (_, e) ↦
      let d' = (with_tx (settle_body t s) d).1 in
      let start = (reach d).1 in
      let body = settle_body t s start in
      let (opened, ran, closed) = with_tx_ok (settle_body t s) d d' tt (ground arith) in
      let settled = settle_body_ok t s start body.1 (ground arith) in
      let before : start.orders ≡ d.orders = ap (λ (x : Db). x.orders) opened in
      let after : d'.orders ≡ body.1.orders = ap (λ (x : Db). x.orders) closed in
      rw after (settled.reserves (rw before r))
  | inr (e, q) ↦
      let d' = (with_tx (settle_body t s) d).1 in
      let same = with_tx_err (settle_body t s) d d' e (ground arith) in
      let orders : d'.orders ≡ d.orders = ap (λ (x : Db). x.orders) same in rw orders r
]

-- A journal changes no order.
pub post_orders : (k : BizKey) (ms : List Move) (d : Db) → (post k ms d).1.orders ≡ d.orders
post_orders k ms d = elim (Result-cases (post k ms d).0) [
  | inl (_, e) ↦
      let d' = (post k ms d).1 in
      let (start, end_, opened, j, closed) = post_ok k ms d d' (ground arith) in
      ground (arith, opened, closed, Journaled-orders k ms start end_ j)
  | inr (e, q) ↦
      let same = post_err k ms d (post k ms d).1 e (ground arith) in ap (λ (x : Db). x.orders) same
]

pub unfreeze_row_orders :
    (cfg : Config) (id : ℕ) (o : OrderRow) (d : Db) → (unfreeze_row cfg id o d).1.orders ≡ d.orders
unfolding unfreeze_row release_order
unfreeze_row_orders cfg id o d = elim (Bool-cases (eq_ℤ o.reserved (pos 0))) [
  | inl e ↦ ground arith
  | inr e ↦ elim (Result-cases (get cfg o.symbol)) [
    | inl (m, q) ↦ ground (arith, post_orders (final_key id) (release o m) d)
    | inr (_, q) ↦ ground arith
  ]
]

pub unfreeze_reserved_orders :
    (cfg : Config) (id : ℕ) (d : Db) → (unfreeze_reserved cfg id d).1.orders ≡ d.orders
unfolding unfreeze_reserved
unfreeze_reserved_orders cfg id d =
    let d₁ = (select_order (int64 id) d).1 in
    let keeps : d₁.orders ≡ d.orders =
      ap (λ (x : Db). x.orders) (select_order_keeps (int64 id) d) in
    elim (Result-cases (select_order (int64 id) d).0) [
      | inl (o, e) ↦ ground (arith, keeps, unfreeze_row_orders cfg id o d₁)
      | inr (e, q) ↦ ground (arith, keeps)
    ]

-- A trade that a record carries is small in the market of the record's topic.
abbrev pub IsSmallRecord : Config → Delivery → Type 0
IsSmallRecord cfg rec =
    (ev : Event) (t : Trade) (m : Market)
    → rec.event ≡ some ev
    → ev.as_trade ≡ some t
    → get cfg rec.symbol ≡ ok m
    → IsSmall m t

settle_trade-IsBooks :
    (cfg : Config) (symbol : Text) (t : Trade) (d : Db)
    → ((m : Market) → get cfg symbol ≡ ok m → IsSmall m t)
    → IsBooks d
    → IsBooks (settle_trade cfg symbol t d).1
settle_trade-IsBooks cfg symbol t d small h = record {
  ledger = settle_trade-IsLedger cfg symbol t d small h.ledger;
  reserves = elim (settle_trade_start cfg symbol t d) [
    | inl e ↦ rw e h.reserves
    | inr (m, s, q, p, e) ↦ rw e (settle_with-AreReserves t s d h.reserves)
  ];
}

unfreeze_reserved-IsBooks :
    (cfg : Config) (id : ℕ) (d : Db) → IsBooks d → IsBooks (unfreeze_reserved cfg id d).1
unfreeze_reserved-IsBooks cfg id d h = record {
  ledger = unfreeze_reserved-IsLedger cfg id d h.reserves h.ledger;
  reserves = rw (unfreeze_reserved_orders cfg id d) (h.reserves);
}

handle_record-IsBooks :
    (cfg : Config) (rec : Delivery) (d : Db)
    → IsSmallRecord cfg rec
    → IsBooks d
    → IsBooks (handle_record cfg rec d).1
unfolding handle_record handle_event handle_trade handle_update
handle_record-IsBooks cfg rec d small h = elim (Option-cases rec.event) [
  | inl e ↦ ground arith
  | inr (ev, e) ↦
      let trades : (t : Trade)
          → ev.as_trade ≡ some t
          → IsBooks (settle_trade cfg rec.symbol t d).1 =
        λ t p. settle_trade-IsBooks cfg rec.symbol t d (λ m f. small ev t m e p f) h in
      let updates : (id : ℕ) → IsBooks (unfreeze_reserved cfg id d).1 =
        λ id. unfreeze_reserved-IsBooks cfg id d h in
      elim (Option-cases ev.as_trade) [
        | inl p ↦ elim (Option-cases ev.as_order_update) [
          | inl q ↦ ground arith
          | inr (u, q) ↦ ground (arith, updates u.order_id)
        ]
        | inr (t, p) ↦ elim (Option-cases ev.as_order_update) [
          | inl q ↦ ground (arith, trades t p)
          | inr (u, q) ↦ ground (arith, trades t p, updates u.order_id)
        ]
      ]
]

-- Whatever records the clearing service is given, in whatever order and how often, and whichever
-- statement fails, it keeps the books and the reserves, if every trade among the records is small in
-- the market of its topic: rates of at most 1, and four times the quote amount with twice the quantity
-- below 2 ^ 63.
pub run-IsBooks :
    (cfg : Config) (recs : List Delivery) (d : Db)
    → All (IsSmallRecord cfg) recs
    → IsBooks d
    → IsBooks (run cfg recs d).1
unfolding run
run-IsBooks cfg [] d small h = h
run-IsBooks cfg (rec ∷ rest) d small h =
    let h₁ = handle_record-IsBooks cfg rec d small.0 h in
    let d₁ = (handle_record cfg rec d).1 in ground (arith, run-IsBooks cfg rest d₁ small.1 h₁)
