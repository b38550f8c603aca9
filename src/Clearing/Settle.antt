-- ===== src/Clearing/Settle.antt =====
-- On the transaction of `settleTrade` of services/clearing/main.go: what it has done when it succeeds.
use lcex.Prelude.{◌≡◌, ap, ℕ, true, false, List, [], ◌∷◌, some, arith, ok}
use lcex.Prelude.Int.{ℤ}
use lcex.Prelude.Word.{int64}
use lcex.Prelude.Text.{text_eq}
use lcex.Db.{Db, OrderRow, BizKey, reach, ◌>>◌}
use lcex.Db.Inversion.{>>=-eq-ok}
use lcex.Db.Orders.{find_order, select_order, read_order, consume_reserved}
use lcex.Ledger.{Move, post_tx}
use lcex.Clearing.Reserves.{AreReserves, consumed, consume_reserved_ok}
use lcex.Ledger.Effect.{Posts, Journaled, post_tx_ok}
use lcex.Events.{Trade}
use lcex.Settlement.{Settlement}
use lcex.Clearing.{trade_key, load_order, settle_body, settle_taker, settle_rows, settle_posted}

pub select_order_keeps :
    (id : ℤ) (d : Db) → (select_order id d).1 ≡ record d { faults = (select_order id d).1.faults }
unfolding select_order read_order reach
select_order_keeps id d = ground arith

pub load_order_ok :
    (id : ℕ) (d d' : Db) (o : OrderRow)
    → load_order id d ≡ (ok o, d')
    → (find_order (int64 id) d.orders ≡ some o) × (d' ≡ record d { faults = d'.faults })
unfolding load_order select_order read_order reach
load_order_ok id d d' o h = ground arith

Posts-orders : (k : BizKey) (ms : List Move) (d d' : Db) → Posts k ms d d' → d'.orders ≡ d.orders
Posts-orders k [] d d' p = ap (λ (x : Db). x.orders) p
Posts-orders k (m ∷ ms) d d' (d₁, p, ps) = ground (arith, Posts-orders k ms d₁ d' ps, p.rest)

pub Journaled-orders :
    (k : BizKey) (ms : List Move) (d d' : Db) → Journaled k ms d d' → d'.orders ≡ d.orders
Journaled-orders k ms d d' j = ground (arith, Posts-orders k ms j.opened d' j.posts, j.inserted)

-- The orders behind a settlement: the taker's and the maker's reserve less.
abbrev pub settled_orders : Trade → Settlement → List OrderRow → List OrderRow
settled_orders t s os =
    consumed s.maker_consume (int64 t.maker_order_id)
      (consumed s.taker_consume (int64 t.taker_order_id) os)

-- Both orders were there on opposite sides, the taker's on the side of the trade, and the journal of
-- the trade was posted.
pub record Settled (t : Trade) (s : Settlement) (d d' : Db) : Type 0 where
  pub maker : OrderRow
  pub taker : OrderRow
  pub maker_row : find_order (int64 t.maker_order_id) d.orders ≡ some maker
  pub taker_row : find_order (int64 t.taker_order_id) d.orders ≡ some taker
  pub taker_side : text_eq taker.side t.side ≡ true
  pub maker_side : text_eq maker.side taker.side ≡ false
  pub start : Db
  pub started : start ≡ record d { faults = start.faults }
  pub end_ : Db
  pub journal : Journaled (trade_key t) s.moves start end_
  pub ended : d' ≡ record end_ { orders = d'.orders; faults = d'.faults }
  pub orders : d'.orders ≡ settled_orders t s d.orders
  pub reserves : AreReserves d.orders → AreReserves d'.orders

settle_rows_ok :
    (t : Trade) (s : Settlement) (maker taker : OrderRow) (d d' : Db)
    → settle_rows t s maker taker d ≡ (ok tt, d')
    → (text_eq taker.side t.side ≡ true)
      × (text_eq maker.side taker.side ≡ false)
      × (settle_posted t s d ≡ (ok tt, d'))
unfolding settle_rows
settle_rows_ok t s maker taker d d' h = ground arith

settle_posted_ok :
    (t : Trade) (s : Settlement) (d d' : Db)
    → settle_posted t s d ≡ (ok tt, d')
    → (end_ : Db) × Journaled (trade_key t) s.moves d end_
      × (d' ≡ record end_ { orders = settled_orders t s d.orders; faults = d'.faults })
      × (AreReserves d.orders → AreReserves d'.orders)
unfolding settle_posted
settle_posted_ok t s d d' h =
    let taker = consume_reserved s.taker_consume (int64 t.taker_order_id) in
    let maker = consume_reserved s.maker_consume (int64 t.maker_order_id) in
    let (_, d₁, booked, h₁) =
      >>=-eq-ok (post_tx (trade_key t) s.moves) (λ _. taker >> maker) d d' h in
    let (_, d₂, first, h₂) = >>=-eq-ok taker (λ _. maker) d₁ d' h₁ in
    let (e, keeps) = consume_reserved_ok s.taker_consume (int64 t.taker_order_id) d₁ d₂ first in
    let (e', keeps') = consume_reserved_ok s.maker_consume (int64 t.maker_order_id) d₂ d' h₂ in
    let j = post_tx_ok (trade_key t) s.moves d d₁ booked in
    let q = Journaled-orders (trade_key t) s.moves d d₁ j in
    (d₁, j, ground (arith, q, e, e'), λ r. keeps' (keeps (rw q r)))

-- A settlement that comes to its end has found both orders on opposite sides, the taker's on the side
-- of the trade, and has posted the journal of the trade; first the taker's and then the maker's order
-- reserves the settlement's amount less, which lowers the reserve if the amount is positive, except where
-- the order does not reserve that much and stays as it is; nothing else of any order has changed. If
-- every order reserved an int64 other than the least, it still does.
pub settle_body_ok :
    (t : Trade) (s : Settlement) (d d' : Db) → settle_body t s d ≡ (ok tt, d') → Settled t s d d'
unfolding settle_body settle_taker
settle_body_ok t s d d' h =
    let (maker, d₁, found, h₁) =
      >>=-eq-ok (load_order t.maker_order_id) (settle_taker t s) d d' h in
    let (taker, d₂, found', h₂) =
      >>=-eq-ok (load_order t.taker_order_id) (settle_rows t s maker) d₁ d' h₁ in
    let (maker_row, e) = load_order_ok t.maker_order_id d d₁ maker found in
    let (taker_row, e') = load_order_ok t.taker_order_id d₁ d₂ taker found' in
    let (side, opposite, posted) = settle_rows_ok t s maker taker d₂ d' h₂ in
    let (end_, journal, rest, keeps) = settle_posted_ok t s d₂ d' posted in
    let same : d₂.orders ≡ d.orders = ground (arith, e, e') in
    record {
      maker = maker;
      taker = taker;
      maker_row = maker_row;
      taker_row = rw (ap (λ (x : Db). x.orders) e) at taker_row;
      taker_side = side;
      maker_side = opposite;
      start = d₂;
      started = ground arith;
      end_ = end_;
      journal = journal;
      ended = ground arith;
      orders = ground arith;
      reserves = λ r. keeps (rw same r);
    }
