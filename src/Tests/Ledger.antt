-- ===== src/Tests/Ledger.antt =====
-- The theorems on the ledger, at the deposits of the samples.
use lcex.Prelude.{◌≡◌, ◌≢◌, refl, ◌≤◌, ◌↔◌, true, false, List, [], arith, length, ok, err, inr}
use lcex.Prelude.Int.{◌+ℤ◌, ◌-ℤ◌}
use lcex.Prelude.Word.{wrap64, int64, uint64}
use lcex.Prelude.Text.{codes, text_eq}
use lcex.Db.{BizKey, already_processed, reach}
use lcex.Db.Keys.{ref_eq, owner_eq, kind_eq, biz_eq, biz_type_eq}
use lcex.Db.Statements.{
  has_text, has_journal, find_balance, set_balance, insert_journal, find_journal, upsert_row,
  upsert_account, update_row, update_balance, insert_entry,
}
use lcex.Db.Store.{store}
use lcex.Ledger.{
  Move, direction_of, abs64, bump, tots_from, all_equal, check_balanced, record_entry, post_move,
  post_moves, post_new, post_tx, rollback, commit, finish, begin, with_tx, post,
}
use lcex.Ledger.Legs.{IsBalanced}
use lcex.Ledger.Invariant.{IsLedger, post-IsLedger}
use lcex.Ledger.Balanced.{check_balanced_iff}
use lcex.Ledger.Effect.{Journaled, post_tx_ok}
use lcex.Ledger.Idempotent.{post_twice}
use lcex.Ledger.Refused.{post_already}
use lcex.Ledger.Succeeds.{AreBookable, entered, booked_all, post_succeeds}
use lcex.Samples.{genesis, deposit_key, usdt_deposit, one_deposit}

genesis-IsLedger : IsLedger genesis
unfolding find_balance
genesis-IsLedger = record { reconciled = λ r. refl; nonneg = tt; solvent = λ c. refl; unique = tt }

check_balanced_iff_example : (check_balanced usdt_deposit ≡ ok tt) ↔ IsBalanced usdt_deposit
check_balanced_iff_example = check_balanced_iff usdt_deposit (omega arith)

post-IsLedger_example : IsLedger (post (deposit_key (codes "a")) usdt_deposit genesis).1
post-IsLedger_example =
    post-IsLedger (deposit_key (codes "a")) usdt_deposit genesis (omega arith) genesis-IsLedger

abbrev first : BizKey
first = deposit_key (codes "a")

posts : (post first usdt_deposit genesis ≡ (ok tt, one_deposit)) × (one_deposit.faults ≡ [])
unfolding reach insert_journal find_journal upsert_row upsert_account update_row update_balance
    insert_entry has_text has_journal find_balance set_balance ref_eq owner_eq kind_eq biz_eq
    biz_type_eq text_eq direction_of abs64 wrap64 int64 uint64 bump tots_from all_equal
    check_balanced record_entry post_move post_moves post_new post_tx commit finish begin with_tx
    post ◌+ℤ◌ ◌-ℤ◌
posts = (refl, refl)

posts_inside : post_tx first usdt_deposit genesis ≡ (ok tt, (post_tx first usdt_deposit genesis).1)
unfolding reach insert_journal find_journal upsert_row upsert_account update_row update_balance
    insert_entry has_text has_journal find_balance set_balance ref_eq owner_eq kind_eq biz_eq
    biz_type_eq text_eq direction_of abs64 wrap64 int64 uint64 bump tots_from all_equal
    check_balanced record_entry post_move post_moves post_new post_tx commit finish begin with_tx
    post ◌+ℤ◌ ◌-ℤ◌
posts_inside = refl

post_tx_ok_example : Journaled first usdt_deposit genesis (post_tx first usdt_deposit genesis).1
post_tx_ok_example =
    post_tx_ok first usdt_deposit genesis (post_tx first usdt_deposit genesis).1 posts_inside

post_twice_example :
    (one_deposit.faults ≡ []
      → post first usdt_deposit one_deposit ≡ (err already_processed, one_deposit))
    × ((ms : List Move) → (post first ms one_deposit).0 ≢ ok tt)
post_twice_example = post_twice first usdt_deposit genesis one_deposit (posts.0)

posts_again : post first usdt_deposit one_deposit ≡ (err already_processed, one_deposit)
posts_again = post_twice_example.0 (posts.1)

post_already_example :
    (2 ≤ length usdt_deposit)
    × (check_balanced usdt_deposit ≡ ok tt)
    × (has_journal first one_deposit.journals ≡ true)
    × (one_deposit ≡ rollback one_deposit one_deposit)
post_already_example = post_already first usdt_deposit one_deposit one_deposit posts_again

bookable : AreBookable first usdt_deposit (entered first genesis)
unfolding reach insert_journal find_journal upsert_row upsert_account update_row update_balance
    insert_entry has_text has_journal find_balance set_balance ref_eq owner_eq kind_eq biz_eq
    biz_type_eq text_eq direction_of abs64 wrap64 int64 uint64 bump tots_from all_equal
    check_balanced record_entry post_move post_moves post_new post_tx commit finish begin with_tx
    post store ◌+ℤ◌ ◌-ℤ◌
bookable = (
  record { known = inr refl; nonneg = omega arith; fits = omega arith; amount = omega arith },
  (record { known = inr refl; nonneg = omega arith; fits = omega arith; amount = omega arith }, tt),
)

balanced : check_balanced usdt_deposit ≡ ok tt
unfolding reach insert_journal find_journal upsert_row upsert_account update_row update_balance
    insert_entry has_text has_journal find_balance set_balance ref_eq owner_eq kind_eq biz_eq
    biz_type_eq text_eq direction_of abs64 wrap64 int64 uint64 bump tots_from all_equal
    check_balanced record_entry post_move post_moves post_new post_tx commit finish begin with_tx
    post ◌+ℤ◌ ◌-ℤ◌
balanced = refl

fresh : has_journal first genesis.journals ≡ false
unfolding has_journal
fresh = refl

post_succeeds_example :
    post first usdt_deposit genesis ≡ (ok tt, booked_all first usdt_deposit (entered first genesis))
post_succeeds_example =
    post_succeeds first usdt_deposit genesis refl (omega arith) balanced fresh bookable
