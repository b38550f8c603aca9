-- ===== src/Clearing/Replay.antt =====
-- On `settleTrade` of services/clearing/main.go, for a trade that has been settled.
use lcex.Prelude.{◌≡◌, ap, ℕ, ◌≤◌, true, false, [], some, arith, length, ok, err}
use lcex.Prelude.Int.{ℤ}
use lcex.Prelude.Word.{int64}
use lcex.Prelude.Text.{text_eq}
use lcex.Db.{Db, OrderRow, already_processed}
use lcex.Db.Statements.{has_journal}
use lcex.Db.Orders.{find_order, select_order, read_order}
use lcex.Ledger.{check_balanced}
use lcex.Ledger.Atomic.{with_tx_healthy, reach_healthy}
use lcex.Ledger.Idempotent.{post_tx_again, Journaled-has_journal}
use lcex.Events.{Trade}
use lcex.Settlement.{Settlement}
use lcex.Clearing.{
  trade_key, load_order, settle_body, settle_taker, settle_rows, settle_posted, settle_with,
}
use lcex.Clearing.Reserves.{consumed_keeps}
use lcex.Clearing.Settle.{Settled}

-- The trade has been settled: its journal is there, with both of its orders.
pub record IsDone (t : Trade) (s : Settlement) (d : Db) : Type 0 where
  pub maker : OrderRow
  pub taker : OrderRow
  pub maker_row : find_order (int64 t.maker_order_id) d.orders ≡ some maker
  pub taker_row : find_order (int64 t.taker_order_id) d.orders ≡ some taker
  pub taker_side : text_eq taker.side t.side ≡ true
  pub maker_side : text_eq maker.side taker.side ≡ false
  pub two : 2 ≤ length s.moves
  pub balanced : check_balanced s.moves ≡ ok tt
  pub there : has_journal (trade_key t) d.journals ≡ true

pub IsDone-same :
    (t : Trade) (s : Settlement) (d d' : Db)
    → d'.orders ≡ d.orders
    → d'.journals ≡ d.journals
    → IsDone t s d
    → IsDone t s d'
IsDone-same t s d d' o j h = record {
  maker = h.maker;
  taker = h.taker;
  maker_row = rw o h.maker_row;
  taker_row = rw o h.taker_row;
  taker_side = h.taker_side;
  maker_side = h.maker_side;
  two = h.two;
  balanced = h.balanced;
  there = rw j h.there;
}

pub IsDone-of_Settled : (t : Trade) (s : Settlement) (d d' : Db) → Settled t s d d' → IsDone t s d'
IsDone-of_Settled t s d d' h =
    let taker_id = int64 t.taker_order_id in
    let maker_id = int64 t.maker_order_id in
    let keeps : (key : ℤ) (o : OrderRow)
        → find_order key d.orders ≡ some o
        → (r : ℤ) × (find_order key d'.orders ≡ some (record o { reserved = r })) =
      λ key o e.
        let (r₁, e₁) = consumed_keeps s.taker_consume taker_id key d.orders o e in
        let (r₂, e₂) =
          consumed_keeps s.maker_consume maker_id key _ (record o { reserved = r₁ }) e₁ in
        (r₂, rw h.orders e₂) in
    let (r, maker_row) = keeps maker_id h.maker h.maker_row in
    let (r', taker_row) = keeps taker_id h.taker h.taker_row in
    record {
      maker = record h.maker { reserved = r };
      taker = record h.taker { reserved = r' };
      maker_row = maker_row;
      taker_row = taker_row;
      taker_side = h.taker_side;
      maker_side = h.maker_side;
      two = h.journal.two;
      balanced = h.journal.balanced;
      there =
          rw (ap (λ (x : Db). x.journals) h.ended)
            (Journaled-has_journal (trade_key t) s.moves h.start h.end_ h.journal);
    }

pub load_order_healthy :
    (id : ℕ) (d : Db) (o : OrderRow)
    → d.faults ≡ []
    → find_order (int64 id) d.orders ≡ some o
    → load_order id d ≡ (ok o, d)
unfolding load_order select_order read_order
load_order_healthy id d o h e = ground (arith, reach_healthy d h)

-- The transaction stops at the journal.
settle_body_again :
    (t : Trade) (s : Settlement) (d : Db)
    → d.faults ≡ []
    → IsDone t s d
    → settle_body t s d ≡ (err already_processed, d)
unfolding settle_body settle_taker settle_rows settle_posted
settle_body_again t s d healthy h = ground (
  arith,
  load_order_healthy t.maker_order_id d h.maker healthy h.maker_row,
  load_order_healthy t.taker_order_id d h.taker healthy h.taker_row,
  post_tx_again (trade_key t) s.moves d healthy h.two h.balanced h.there,
  h.taker_side,
  h.maker_side,
)

pub settle_with_again :
    (t : Trade) (s : Settlement) (d : Db)
    → d.faults ≡ []
    → IsDone t s d
    → settle_with t s d ≡ (ok tt, d)
unfolding settle_with
settle_with_again t s d healthy h =
    ground (arith, with_tx_healthy (settle_body t s) d healthy, settle_body_again t s d healthy h)
