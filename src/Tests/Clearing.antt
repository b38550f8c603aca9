-- ===== src/Tests/Clearing.antt =====
-- The theorems on the clearing service, at the trade between the two orders.
use lcex.Prelude.{◌≡◌, ◌≢◌, refl, ℕ, true, false, [], ◌∷◌, none, some, arith, ok, inr}
use lcex.Prelude.Int.{ℤ, pos, ◌+ℤ◌, ◌-ℤ◌}
use lcex.Prelude.Word.{wrap64, int64, uint64}
use lcex.Prelude.Text.{Text, codes, text_eq, to_upper}
use lcex.Fixed.{mul_div, format_uint, pad_digits}
use lcex.Db.{Db, Account, AccountType, OrderRow, reach, available, frozen}
use lcex.Db.Keys.{ref_eq, owner_eq, kind_eq, biz_eq, biz_type_eq}
use lcex.Db.Statements.{
  has_text, has_journal, find_balance, set_balance, insert_journal, find_journal, upsert_row,
  upsert_account, update_row, update_balance, insert_entry,
}
use lcex.Db.Store.{balance_of, store}
use lcex.Db.Orders.{
  find_order, set_order, select_order, read_order, consume_reserved, reduce_reserved,
}
use lcex.Ledger.{
  user_ref, direction_of, abs64, bump, tots_from, all_equal, check_balanced, record_entry,
  post_move, post_moves, post_new, post_tx, commit, finish, begin, with_tx, post,
}
use lcex.Ledger.Succeeds.{AreBookable, entered}
use lcex.Markets.{get, find}
use lcex.Events.{Trade, Event}
use lcex.Settlement.{Settlement, settlement, taker_buys, taker_sells, minus_int64}
use lcex.Settlement.Amounts.{IsSmall, settlement_exact}
use lcex.Order.{acknowledged}
use lcex.Order.Handlers.{handle_place-IsBooks}
use lcex.Clearing.{
  trade_key, final_key, load_order, settle_posted, settle_rows, settle_taker, settle_body,
  settle_with, settle_trade, release_order, unfreeze_row, unfreeze_reserved, Delivery, handle_trade,
  handle_event, handle_record, run,
}
use lcex.Clearing.Reserves.{AreReserves}
use lcex.Clearing.Settle.{Settled, settle_body_ok}
use lcex.Clearing.Consume.{IsBooks, IsSmallRecord, run-IsBooks}
use lcex.Clearing.Twice.{settle_trade_twice, unfreeze_reserved_twice}
use lcex.Clearing.Liveness.{AreOpposed, settled_db, settle_trade_succeeds}
use lcex.Clearing.Release.{IsReleasable, released_currency, unfreeze_reserved_succeeds}
use lcex.Clearing.ZeroFee.{zero_fee_not_settled}
use lcex.Samples.{
  genesis, funded, market, config, symbol, usdt, btc, request, asked, both, the_trade,
}
use lcex.Tests.Order.{funded-IsBooks}

both-IsBooks : IsBooks both
both-IsBooks =
    handle_place-IsBooks (codes "cex") config (codes "1") (some (request (codes "bid")))
      acknowledged asked
      (handle_place-IsBooks (codes "cex") config (codes "2") (some (request (codes "ask")))
        acknowledged funded funded-IsBooks)

small : IsSmall market the_trade
small = record { taker = omega arith; maker = omega arith; room = omega arith }

abbrev trade_event : Event
trade_event = record {
  seq = 1;
  kind = codes "trade";
  as_trade = some the_trade;
  as_order_update = none;
}

abbrev delivery : Delivery
delivery = record { symbol = symbol; event = some trade_event }

market_found : get config symbol ≡ ok market
unfolding get find to_upper text_eq
market_found = refl

small_record : IsSmallRecord config delivery
small_record ev t m e p f =
    let e' : ev ≡ trade_event = ground arith in
    let p' : t ≡ the_trade = ground arith in
    let f' : m ≡ market = ground (arith, market_found) in rw (f', p') small

run-IsBooks_example : IsBooks (run config (delivery ∷ delivery ∷ []) both).1
run-IsBooks_example =
    run-IsBooks config (delivery ∷ delivery ∷ []) both (small_record, (small_record, tt))
      both-IsBooks

abbrev settled : Settlement
settled = taker_buys market the_trade 50000000000 50000000 50000000

settles : settlement market the_trade ≡ ok settled
unfolding text_eq
settles = settlement_exact market the_trade small

-- The exchange with both orders, written out.
abbrev account_of : ℤ → Text → AccountType → ℕ → Account
account_of u c kind balance = record { ref = user_ref u c kind; balance = pos balance }

abbrev order_of : ℕ → ℤ → Text → ℕ → Text → OrderRow
order_of id u side reserved status = record {
  order_id = pos id;
  user_id = u;
  symbol = symbol;
  client_order_id = codes "c1";
  side = side;
  price = some (pos 5000000000000);
  qty = pos 1000000;
  filled_qty = pos 0;
  reserved = pos reserved;
  status = status;
  order_type = codes "limit";
  tif = codes "gtc";
  stp = codes "none";
  post_only = false;
}

abbrev ready : Db
ready = record genesis {
  accounts =
      account_of (pos 1) usdt available 49950000000
      ∷ account_of (pos 1) usdt frozen 50050000000
      ∷ account_of (pos 2) btc available 99000000
      ∷ account_of (pos 2) btc frozen 1000000
      ∷ [];
  orders =
      order_of 1 (pos 2) (codes "ask") 1000000 (codes "open")
      ∷ order_of 2 (pos 1) (codes "bid") 50050000000 (codes "open")
      ∷ [];
}

abbrev after_trade : Db
after_trade = (settle_trade config symbol the_trade ready).1

abbrev after_body : Db
after_body = (settle_body the_trade settled ready).1

settled_once :
    (settle_trade config symbol the_trade ready ≡ (ok tt, after_trade))
    × (settle_body the_trade settled ready ≡ (ok tt, after_body))
unfolding reach insert_journal find_journal upsert_row upsert_account update_row update_balance
    insert_entry has_text has_journal find_balance set_balance ref_eq owner_eq kind_eq biz_eq
    biz_type_eq text_eq direction_of abs64 wrap64 int64 uint64 bump tots_from all_equal
    check_balanced record_entry post_move post_moves post_new post_tx commit finish begin with_tx
    format_uint pad_digits ◌+ℤ◌ ◌-ℤ◌ get find to_upper mul_div find_order set_order select_order
    read_order consume_reserved reduce_reserved settlement taker_buys taker_sells minus_int64
    load_order settle_posted settle_rows settle_taker settle_body settle_with settle_trade
settled_once = (refl, refl)

settle_body_ok_example : Settled the_trade settled ready after_body
settle_body_ok_example = settle_body_ok the_trade settled ready after_body (settled_once.1)

settle_trade_twice_example :
    (has_journal (trade_key the_trade) after_trade.journals ≡ true)
    × (after_trade.faults ≡ []
        → settle_trade config symbol the_trade after_trade ≡ (ok tt, after_trade))
settle_trade_twice_example =
    settle_trade_twice config symbol the_trade ready after_trade (settled_once.0)

opposed : AreOpposed the_trade ready
unfolding int64 find_order text_eq
opposed = record {
  maker = order_of 1 (pos 2) (codes "ask") 1000000 (codes "open");
  taker = order_of 2 (pos 1) (codes "bid") 50050000000 (codes "open");
  maker_row = refl;
  taker_row = refl;
  taker_side = refl;
  maker_side = refl;
}

bookable : AreBookable (trade_key the_trade) settled.moves (entered (trade_key the_trade) ready)
unfolding has_text find_balance ref_eq owner_eq kind_eq text_eq direction_of abs64 wrap64 int64
    uint64 store taker_buys minus_int64 ◌+ℤ◌ ◌-ℤ◌
bookable = (
  record { known = inr refl; nonneg = omega arith; fits = omega arith; amount = omega arith },
  (
    record { known = inr refl; nonneg = omega arith; fits = omega arith; amount = omega arith },
    (
      record { known = inr refl; nonneg = omega arith; fits = omega arith; amount = omega arith },
      (
        record { known = inr refl; nonneg = omega arith; fits = omega arith; amount = omega arith },
        (
          record {
            known = inr refl;
            nonneg = omega arith;
            fits = omega arith;
            amount = omega arith;
          },
          tt,
        ),
      ),
    ),
  ),
)

reserves : AreReserves ready.orders
reserves = ((omega arith, omega arith), ((omega arith, omega arith), tt))

fresh : has_journal (trade_key the_trade) ready.journals ≡ false
unfolding has_journal
fresh = refl

settle_trade_succeeds_example :
    settle_trade config symbol the_trade ready ≡ (ok tt, settled_db the_trade settled ready)
settle_trade_succeeds_example =
    settle_trade_succeeds config symbol market the_trade settled ready market_found small settles
      refl reserves opposed fresh bookable

-- The bid is canceled before it trades.
abbrev bid_row : OrderRow
bid_row = order_of 2 (pos 1) (codes "bid") 50050000000 (codes "open")

releasable : IsReleasable bid_row market ready
unfolding has_text find_balance ref_eq owner_eq kind_eq text_eq ◌+ℤ◌
releasable = record {
  reserve = omega arith;
  positive = omega arith;
  known = refl;
  covered = omega arith;
  room = omega arith;
  nonneg = omega arith;
  fits = omega arith;
}

bid_found : find_order (int64 2) ready.orders ≡ some bid_row
unfolding int64 find_order
bid_found = refl

not_released : has_journal (final_key 2) ready.journals ≡ false
unfolding has_journal
not_released = refl

unfreeze_reserved_succeeds_example :
    let c = released_currency bid_row market in
    (d' : Db) × (unfreeze_reserved config 2 ready ≡ (ok tt, d'))
    × (balance_of (user_ref (pos 1) c frozen) d'.accounts
        ≡ balance_of (user_ref (pos 1) c frozen) ready.accounts -ℤ pos 50050000000)
    × (balance_of (user_ref (pos 1) c available) d'.accounts
        ≡ balance_of (user_ref (pos 1) c available) ready.accounts +ℤ pos 50050000000)
unfreeze_reserved_succeeds_example =
    unfreeze_reserved_succeeds config 2 bid_row market ready refl bid_found market_found
      not_released releasable

abbrev after_release : Db
after_release = (unfreeze_reserved config 2 ready).1

released_once :
    (unfreeze_reserved config 2 ready ≡ (ok tt, after_release)) × (after_release.faults ≡ [])
unfolding reach insert_journal find_journal upsert_row upsert_account update_row update_balance
    insert_entry has_text has_journal find_balance set_balance ref_eq owner_eq kind_eq biz_eq
    biz_type_eq text_eq direction_of abs64 wrap64 int64 uint64 bump tots_from all_equal
    check_balanced record_entry post_move post_moves post_new post_tx commit finish begin with_tx
    post format_uint pad_digits ◌+ℤ◌ ◌-ℤ◌ get find to_upper find_order select_order read_order
    release_order unfreeze_row unfreeze_reserved
released_once = (refl, refl)

unfreeze_reserved_twice_example : unfreeze_reserved config 2 after_release ≡ (ok tt, after_release)
unfreeze_reserved_twice_example =
    unfreeze_reserved_twice config 2 ready after_release (released_once.0) (released_once.1)

-- 999 units of 10 ^ -8 in the quote currency, on which a rate of 0.1 % gives no fee.
abbrev tiny_trade : Trade
tiny_trade = record the_trade { price = 99900000000; qty = 1 }

zero_fee_not_settled_example : (settle_trade config symbol tiny_trade ready).0 ≢ ok tt
zero_fee_not_settled_example =
    zero_fee_not_settled config symbol market tiny_trade ready market_found
      (record { taker = omega arith; maker = omega arith; room = omega arith }) (omega arith) fresh

-- The record of such a trade is never committed: the process exits, and finds the record and the database
-- as they were.
tiny_delivery : Delivery
tiny_delivery = record {
  symbol = symbol;
  event = some (record {
    seq = 1;
    kind = codes "trade";
    as_trade = some tiny_trade;
    as_order_update = none;
  });
}

stuck : run config (tiny_delivery ∷ []) ready ≡ (tiny_delivery ∷ [], ready)
unfolding reach insert_journal find_journal upsert_row upsert_account update_row update_balance
    insert_entry has_text has_journal find_balance set_balance ref_eq owner_eq kind_eq biz_eq
    biz_type_eq text_eq direction_of abs64 wrap64 int64 uint64 bump tots_from all_equal
    check_balanced record_entry post_move post_moves post_new post_tx commit finish begin with_tx
    format_uint pad_digits ◌+ℤ◌ ◌-ℤ◌ get find to_upper mul_div find_order set_order select_order
    read_order consume_reserved reduce_reserved settlement taker_buys taker_sells minus_int64
    load_order settle_posted settle_rows settle_taker settle_body settle_with settle_trade
    handle_trade handle_event handle_record run tiny_delivery
stuck = refl
