-- ===== src/Clearing/Liveness.antt =====
-- On `settleTrade` of services/clearing/main.go: when it succeeds, and what it leaves behind.
use lcex.Prelude.{◌≡◌, refl, ◌∙◌, ◌≤◌, true, false, List, [], ◌∷◌, some, arith, length, ok}
use lcex.Prelude.Int.{pos, ◌≤ℤ◌}
use lcex.Prelude.Word.{int64}
use lcex.Prelude.Text.{Text, text_eq}
use lcex.Db.{Db, OrderRow, BizKey}
use lcex.Db.Statements.{has_journal}
use lcex.Db.Orders.{find_order}
use lcex.Ledger.{Move, check_balanced}
use lcex.Ledger.Balanced.{check_balanced_iff}
use lcex.Ledger.Atomic.{with_tx_healthy}
use lcex.Ledger.Succeeds.{
  entered, booked, booked_all, AreBookable, post_tx_succeeds, booked_all-faults,
}
use lcex.Markets.{Config, Market, get}
use lcex.Events.{Trade}
use lcex.Settlement.{Settlement, settlement}
use lcex.Settlement.Amounts.{IsSmall}
use lcex.Settlement.Balanced.{settlement-IsBalanced, settlement_consumes}
use lcex.Clearing.{
  trade_key, settle_body, settle_taker, settle_rows, settle_posted, settle_with, settle_trade,
}
use lcex.Clearing.Reserves.{AreReserves, consumed, consume_reserved_succeeds, consumed-AreReserves}
use lcex.Clearing.Settle.{settled_orders}
use lcex.Clearing.Replay.{load_order_healthy}

-- An order can be settled: both orders of the trade are there on opposite sides, the taker's on the
-- side of the trade.
pub record AreOpposed (t : Trade) (d : Db) : Type 0 where
  pub maker : OrderRow
  pub taker : OrderRow
  pub maker_row : find_order (int64 t.maker_order_id) d.orders ≡ some maker
  pub taker_row : find_order (int64 t.taker_order_id) d.orders ≡ some taker
  pub taker_side : text_eq taker.side t.side ≡ true
  pub maker_side : text_eq maker.side taker.side ≡ false

booked_all-orders : (k : BizKey) (ms : List Move) (d : Db) → (booked_all k ms d).orders ≡ d.orders
booked_all-orders k [] d = refl
booked_all-orders k (m ∷ ms) d = booked_all-orders k ms (booked k m d)

-- The database behind the settlement of a trade.
abbrev pub settled_db : Trade → Settlement → Db → Db
settled_db t s d = record (booked_all (trade_key t) s.moves (entered (trade_key t) d)) {
  orders = settled_orders t s d.orders;
}

settle_posted_succeeds :
    (t : Trade) (s : Settlement) (d : Db)
    → d.faults ≡ []
    → AreReserves d.orders
    → (pos 0 ≤ℤ s.taker_consume) × (pos 0 ≤ℤ s.maker_consume) × (2 ≤ length s.moves)
    → check_balanced s.moves ≡ ok tt
    → has_journal (trade_key t) d.journals ≡ false
    → AreBookable (trade_key t) s.moves (entered (trade_key t) d)
    → settle_posted t s d ≡ (ok tt, settled_db t s d)
unfolding settle_posted
settle_posted_succeeds t s d healthy r (taken, made, two) balanced fresh bookable =
    let k = trade_key t in
    let d₁ = booked_all k s.moves (entered k d) in
    let posted = post_tx_succeeds k s.moves d healthy two balanced fresh bookable in
    let up : d₁.faults ≡ [] = booked_all-faults k s.moves (entered k d) ∙ healthy in
    let same : d₁.orders ≡ d.orders = booked_all-orders k s.moves (entered k d) in
    let taker_id = int64 t.taker_order_id in
    let first = consume_reserved_succeeds s.taker_consume taker_id d₁ up (rw same r) taken in
    let d₂ = record d₁ { orders = consumed s.taker_consume taker_id d₁.orders } in
    let r₂ : AreReserves d₂.orders =
      consumed-AreReserves s.taker_consume taker_id d₁.orders taken (rw same r) in
    let second = consume_reserved_succeeds s.maker_consume (int64 t.maker_order_id) d₂ up r₂ made in
    ground (arith, posted, first, second, same)

settle_with_succeeds :
    (t : Trade) (s : Settlement) (d : Db)
    → d.faults ≡ []
    → AreOpposed t d
    → settle_posted t s d ≡ (ok tt, settled_db t s d)
    → settle_with t s d ≡ (ok tt, settled_db t s d)
unfolding settle_with settle_body settle_taker settle_rows
settle_with_succeeds t s d healthy h posted =
    let faults : (settled_db t s d).faults ≡ [] =
      booked_all-faults (trade_key t) s.moves (entered (trade_key t) d) ∙ healthy in
    ground (
      arith,
      with_tx_healthy (settle_body t s) d healthy,
      load_order_healthy t.maker_order_id d h.maker healthy h.maker_row,
      load_order_healthy t.taker_order_id d h.taker healthy h.taker_row,
      h.taker_side,
      h.maker_side,
      faults,
      posted,
    )

-- Over a healthy connection a trade with amounts that are small in its market is settled, if both of
-- its orders are there on opposite sides, every order reserves an int64 other than the least, the trade
-- was not settled before, and its moves can be booked: the journal and its entries are written, and
-- both orders reserve less, each if it reserves as much as is consumed.
pub settle_trade_succeeds :
    (cfg : Config) (symbol : Text) (m : Market) (t : Trade) (s : Settlement) (d : Db)
    → get cfg symbol ≡ ok m
    → IsSmall m t
    → settlement m t ≡ ok s
    → d.faults ≡ []
    → AreReserves d.orders
    → AreOpposed t d
    → has_journal (trade_key t) d.journals ≡ false
    → AreBookable (trade_key t) s.moves (entered (trade_key t) d)
    → settle_trade cfg symbol t d ≡ (ok tt, settled_db t s d)
unfolding settle_trade
settle_trade_succeeds cfg symbol m t s d q small e healthy r opposed fresh bookable =
    let (_, balanced, light) = settlement-IsBalanced m t small s e in
    let checked = (check_balanced_iff s.moves light).1 balanced in
    let consumes = settlement_consumes m t small s e in
    let posted = settle_posted_succeeds t s d healthy r consumes checked fresh bookable in
    ground (arith, settle_with_succeeds t s d healthy opposed posted)
