-- ===== src/Tests/Order.antt =====
-- The theorems on the order service, at the order of each user.
use lcex.Prelude.{◌⊎◌, ◌≡◌, refl, ◌++◌, true, false, [], ◌∷◌, none, some, arith, ok}
use lcex.Prelude.Int.{pos, ◌+ℤ◌, ◌-ℤ◌}
use lcex.Prelude.Word.{wrap64, int64, uint64}
use lcex.Prelude.Text.{codes, text_eq}
use lcex.Fixed.{format_int, format_uint, pad_digits}
use lcex.Db.{Db, OrderRow, reach, available, frozen}
use lcex.Db.Keys.{ref_eq, owner_eq, kind_eq, biz_eq, biz_type_eq}
use lcex.Db.Statements.{
  has_text, has_journal, find_balance, set_balance, insert_journal, find_journal, upsert_row,
  upsert_account, update_row, update_balance, insert_entry,
}
use lcex.Db.Store.{balance_of}
use lcex.Db.Orders.{find_client, insert_order, insert_row, order_checks}
use lcex.Ledger.{
  user_ref, direction_of, abs64, bump, tots_from, all_equal, check_balanced, record_entry,
  post_move, post_moves, post_new, post_tx, commit, finish, begin, with_tx, post,
}
use lcex.Ledger.Invariant.{IsLedger, post-IsLedger}
use lcex.Events.{Event}
use lcex.Clearing.Consume.{IsBooks, post_orders}
use lcex.Order.{acknowledged, Placed, freeze_order, place_tx, place_result, place, handle_place}
use lcex.Order.Freezes.{with_id}
use lcex.Order.Handlers.{handle_place-IsBooks}
use lcex.Order.Follows.{sync_all, on_row, followed_all, sync_all_follows}
use lcex.Db.Orders.{find_order}
use lcex.Order.Again.{place_twice, place_freezes}
use lcex.Order.{handle_cancel}
use lcex.Order.Cancels.{Cancels, handle_cancel-Cancels}
use lcex.Samples.{
  genesis, deposit_key, usdt_deposit, btc_deposit, one_deposit, funded, config, symbol, request,
  asked,
}

pub genesis-IsLedger : IsLedger genesis
unfolding find_balance
genesis-IsLedger = record { reconciled = λ r. refl; nonneg = tt; solvent = λ c. refl; unique = tt }

pub funded-IsBooks : IsBooks funded
funded-IsBooks = record {
  ledger =
      post-IsLedger (deposit_key (codes "b")) btc_deposit one_deposit (omega arith) (
        post-IsLedger (deposit_key (codes "a")) usdt_deposit genesis (omega arith)
          genesis-IsLedger);
  reserves =
      rw
        (
          post_orders (deposit_key (codes "b")) btc_deposit one_deposit,
          post_orders (deposit_key (codes "a")) usdt_deposit genesis,
        )
        tt;
}

handle_place-IsBooks_example :
    IsBooks
      (handle_place
        (codes "cex")
        config
        (codes "2")
        (some (request (codes "ask")))
        acknowledged
        funded).1
handle_place-IsBooks_example =
    handle_place-IsBooks (codes "cex") config (codes "2") (some (request (codes "ask")))
      acknowledged funded funded-IsBooks

abbrev row : OrderRow
row = record {
  order_id = pos 0;
  user_id = pos 2;
  symbol = symbol;
  client_order_id = codes "c1";
  side = codes "ask";
  price = some (pos 5000000000000);
  qty = pos 1000000;
  filled_qty = pos 0;
  reserved = pos 1000000;
  status = codes "pending";
  order_type = codes "limit";
  tif = codes "gtc";
  stp = codes "none";
  post_only = false;
}

abbrev first : Placed
first = record { order_id = pos 1; status = codes "pending"; replayed = false }

abbrev placed : Db
placed = (place row (codes "BTC") funded).1

places : (place row (codes "BTC") funded ≡ (ok first, placed)) × (placed.faults ≡ [])
unfolding reach insert_journal find_journal upsert_row upsert_account update_row update_balance
    insert_entry has_text has_journal find_balance set_balance ref_eq owner_eq kind_eq biz_eq
    biz_type_eq text_eq direction_of abs64 wrap64 int64 uint64 bump tots_from all_equal
    check_balanced record_entry post_move post_moves post_new post_tx commit finish begin with_tx
    post format_uint pad_digits format_int find_client insert_order insert_row order_checks
    freeze_order place_tx place_result place ◌+ℤ◌ ◌-ℤ◌
places = (refl, refl)

place_twice_example : place row (codes "BTC") placed ≡ (
  ok (record { order_id = pos 1; status = codes "pending"; replayed = true }),
  record placed { next_order_id = placed.next_order_id +ℤ pos 1 },
)
place_twice_example = place_twice row (codes "BTC") funded placed first (places.0) refl (places.1)

place_freezes_example :
    let account = user_ref (pos 2) (codes "BTC") in
    (balance_of (account available) placed.accounts
      ≡ balance_of (account available) funded.accounts -ℤ pos 1000000)
    × (balance_of (account frozen) placed.accounts
        ≡ balance_of (account frozen) funded.accounts +ℤ pos 1000000)
    × (placed.orders ≡ funded.orders ++ with_id row (pos 1) ∷ [])
place_freezes_example =
    place_freezes row (codes "BTC") funded placed first (omega arith, omega arith) (places.0) refl

abbrev update_event : Event
update_event = record {
  seq = 3;
  kind = codes "order_update";
  as_trade = none;
  as_order_update = some (record {
    order_id = 1;
    user_id = 2;
    side = codes "ask";
    price = some 5000000000000;
    status = codes "filled";
    filled_qty = 1000000;
    qty = 1000000;
  });
}

-- The order of `row` is open and waits for its events.
abbrev waiting : Db
waiting = record genesis { orders = with_id row (pos 1) ∷ [] }

sync_all_follows_example :
    let ps = some update_event ∷ none ∷ some update_event ∷ [] in
    (sync_all ps waiting ≡ record waiting { orders = (sync_all ps waiting).orders })
    × (find_order (pos 1) (sync_all ps waiting).orders
        ≡ on_row (followed_all ps (pos 1)) (find_order (pos 1) waiting.orders))
sync_all_follows_example =
    sync_all_follows (some update_event ∷ none ∷ some update_event ∷ []) waiting (pos 1) refl

handle_cancel-Cancels_example :
    let out = handle_cancel (codes "cex") (codes "2") (codes "1") acknowledged asked in
    (out.1 ≡ record asked { faults = out.1.faults })
    × ((out.0.sent ≡ []) ⊎ Cancels (codes "cex") (codes "2") (codes "1") asked out.0)
handle_cancel-Cancels_example =
    handle_cancel-Cancels (codes "cex") (codes "2") (codes "1") acknowledged asked
