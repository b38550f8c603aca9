-- ===== src/Tests/Wallet.antt =====
-- The theorems on the wallet service and the risk service, at one network and one user.
use lcex.Prelude.{ℕ, ◌≡◌, ◌≢◌, ◌≤◌, ◌+◌, ◌↔◌, refl, true, false, [], ◌∷◌, some, ok, List, arith}
use lcex.Prelude.Int.{ℤ, pos, ◌+ℤ◌, ◌-ℤ◌}
use lcex.Prelude.Word.{int64, uint64, wrap64}
use lcex.Prelude.Text.{Text, codes, text_eq, to_upper, trim_space, trim_left}
use lcex.Prelude.Dict.{find}
use lcex.Fixed.{
  parse, contains_any, split_point, parse_parts, all_digits, pad_frac, parse_uint, format,
  format_uint, format_int, pad_digits,
}
use lcex.Db.{Db, AddressRow, reach}
use lcex.Db.Keys.{ref_eq, owner_eq, kind_eq, biz_eq, biz_type_eq}
use lcex.Db.Statements.{
  has_text, has_journal, find_balance, set_balance, insert_journal, find_journal, upsert_row,
  upsert_account, update_row, update_balance, insert_entry,
}
use lcex.Db.Wallet.{
  owner_of, select_owner, find_deposit, set_deposit, put_deposit, upsert_deposit, credit_rows,
  credit_deposit, has_client, add_withdrawal, insert_withdrawal, used_since,
}
use lcex.Ledger.{
  direction_of, abs64, bump, tots_from, all_equal, check_balanced, record_entry, post_move,
  post_moves, post_new, post_tx, commit, finish, begin, with_tx, post,
}
use lcex.Request.{parse_int, parse_user_id}
use lcex.Chains.{Chain, ChainConfig, find_chain}
use lcex.Risk.{RiskService, WithdrawCheck, used_amount, daily_verdict, handle_withdraw_check}
use lcex.Risk.Verdicts.{Passes, allows_iff}
use lcex.Wallet.{withdrawal}
use lcex.Wallet.Deposits.{
  positive, ChainDepositReq, tolerated, credit_tx, credited, settle_deposit, deposit_to,
  deposit_found, handle_chain_deposit,
}
use lcex.Wallet.Withdrawals.{
  not_configured, risk_code, WithdrawReq, pay_out, withdraw_tx, withdraw_reply, withdraw_allowed,
  withdraw_checked, withdraw_on, handle_withdraw,
}
use lcex.Wallet.Books.{IsWallet}
use lcex.Wallet.Serve.{
  Request, ask_address, report_deposit, ask_withdrawal, confirm_withdrawal, serve, serve_all,
}
use lcex.Wallet.Payouts.{IsSmallWithdrawal}
use lcex.Wallet.Kept.{serve_all-IsWallet}
use lcex.Wallet.Reports.{IsCredited, key_of}
use lcex.Wallet.Reconcile.{handle_reconcile}
use lcex.Wallet.Reconcile.Passes.{sum_read, reconcile_passes}
use lcex.Wallet.Once.{SameLedger, chain_deposit_once}
use lcex.Wallet.Allowed.{free_withdrawal_fails}
use lcex.Wallet.Day.{risk_of, day_limit}
use lcex.Samples.{genesis, one_deposit, usdt}
use lcex.Tests.Order.{genesis-IsLedger}

-- USDT on one network, at a fee.
abbrev chain_at : ℕ → Chain
chain_at fee = record {
  network = codes "TRC20";
  min_deposit = 100000000;
  min_withdraw = 200000000;
  withdraw_fee = fee;
  confirmations = pos 3;
  deposit_on = true;
  withdraw_on = true;
}

abbrev chains_at : ℕ → ChainConfig
chains_at fee = (usdt, record { code = usdt; chains = (codes "TRC20", chain_at fee) ∷ [] }) ∷ []

-- 5 USDT of user 1.
abbrev ask : WithdrawReq
ask = record {
  currency = usdt;
  network = codes "TRC20";
  address = codes "T9";
  amount = codes "5";
  client_order_id = codes "w1";
}

abbrev address : AddressRow
address = record { user_id = pos 1; currency = usdt; network = codes "TRC20"; address = codes "T1" }

-- The output of a transaction that pays 7 USDT to user 1.
abbrev report : ChainDepositReq
report = record {
  address = codes "T1";
  txid = codes "ab";
  output_index = pos 0;
  amount = codes "7";
  confirmations = pos 3;
}

abbrev known : Db
known = record genesis { addresses = address ∷ [] }

known-IsWallet : IsWallet known
known-IsWallet = record {
  ledger = record {
    reconciled = genesis-IsLedger.reconciled;
    nonneg = genesis-IsLedger.nonneg;
    solvent = genesis-IsLedger.solvent;
    unique = tt;
  };
  deposits = record { numbered = tt; backed = tt };
  paid = tt;
}

ask-IsSmall : IsSmallWithdrawal (chains_at 100000000) (some ask)
unfolding find_chain find text_eq to_upper positive parse contains_any split_point parse_parts
    all_digits pad_frac parse_uint trim_space trim_left
ask-IsSmall req ch amt e q p = ground arith

abbrev requests : List Request
requests =
    report_deposit (some report)
    ∷ ask_address (codes "1") usdt (codes "TRC20")
    ∷ ask_withdrawal (λ c. not_configured) (codes "1") (some ask) (pos 9) 50
    ∷ confirm_withdrawal (codes "1") []
    ∷ []

abbrev derive : ℤ → Text → Text → Text
derive user_id currency network = codes "T1"

serve_all-IsWallet_example : IsWallet (serve_all derive (chains_at 100000000) requests known)
serve_all-IsWallet_example =
    serve_all-IsWallet derive (chains_at 100000000) requests known
      (tt, (tt, (ask-IsSmall, (tt, tt)))) known-IsWallet

report-IsCredited :
    IsCredited (handle_chain_deposit (chains_at 100000000) (some report) known).0
    × ((serve_all derive (chains_at 100000000) (report_deposit (some report) ∷ []) known).faults
        ≡ [])
unfolding reach insert_journal find_journal upsert_row upsert_account update_row update_balance
    insert_entry has_text has_journal find_balance set_balance ref_eq owner_eq kind_eq biz_eq
    biz_type_eq text_eq direction_of abs64 wrap64 int64 uint64 bump tots_from all_equal
    check_balanced record_entry post_move post_moves post_new post_tx commit finish begin with_tx
    post format_uint pad_digits format_int ◌+ℤ◌ ◌-ℤ◌ find_chain find to_upper positive parse
    contains_any split_point parse_parts all_digits pad_frac parse_uint trim_space trim_left
    owner_of select_owner find_deposit set_deposit put_deposit upsert_deposit credit_rows
    credit_deposit tolerated credit_tx credited settle_deposit deposit_to deposit_found
    handle_chain_deposit serve serve_all
report-IsCredited = (refl, refl)

reconcile_passes_example :
    let d = serve_all derive (chains_at 100000000) (report_deposit (some report) ∷ []) known in
    handle_reconcile d ≡ (
      ok record {
        passed = true;
        mismatch_rows = pos 0;
        assets = sum_read true d;
        claims = sum_read true d;
        orphan_deposits = pos 0;
        orphan_withdrawals = pos 0;
      },
      d,
    )
reconcile_passes_example =
    reconcile_passes derive (chains_at 100000000) (report_deposit (some report) ∷ []) known (tt, tt)
      known-IsWallet (report-IsCredited.1)

-- The second report gives less and later confirmations.
abbrev second_report : ChainDepositReq
second_report = record report { amount = codes "6"; confirmations = pos 9 }

chain_deposit_once_example :
    let d = (handle_chain_deposit (chains_at 100000000) (some report) known).1 in
    (has_journal (key_of report) d.journals ≡ true)
    × SameLedger d (handle_chain_deposit (chains_at 100000000) (some second_report) d).1
chain_deposit_once_example =
    chain_deposit_once (chains_at 100000000) (chains_at 100000000) report second_report known
      (handle_chain_deposit (chains_at 100000000) (some report) known).1 known-IsWallet
      (report-IsCredited.0) refl refl (λ k h. h)

free_withdrawal_fails_example :
    (handle_withdraw
      (λ c. not_configured)
      (chains_at 0)
      (codes "1")
      (some ask)
      (pos 9)
      50
      one_deposit).0
    ≢ withdrawal (pos 1) 500000000 0
free_withdrawal_fails_example =
    free_withdrawal_fails (λ c. not_configured) (chains_at 0) (codes "1") ask (chain_at 0) (pos 9)
      50 one_deposit (unfold find_chain find text_eq to_upper in refl) refl (pos 1) 500000000 0

-- 8 USDT a day, none denied.
abbrev service : RiskService
service = record {
  deny = codes "T6" ∷ [];
  daily = (usdt, 800000000) ∷ [];
  withdraw_off = false;
  mm_off = false;
  trading_off = false;
}

abbrev check : WithdrawCheck
check = record {
  user_id = pos 1;
  currency = codes "usdt";
  network = codes "TRC20";
  address = codes "T9";
  amount = codes "5";
}

allows_iff_example :
    ((handle_withdraw_check (λ user_id currency. some (pos 300000000)) service (some check)).allow
      ≡ true)
    ↔ Passes (λ user_id currency. some (pos 300000000)) service check
allows_iff_example = allows_iff (λ user_id currency. some (pos 300000000)) service check

abbrev paid : Db
paid =
    (handle_withdraw (risk_of service 40 one_deposit) (chains_at 100000000) (codes "1") (some ask)
      (pos 9) 50 one_deposit).1

paid_out :
    (used_since 40 (pos 1) usdt one_deposit.withdrawals ≡ pos 0)
    × (handle_withdraw
          (risk_of service 40 one_deposit)
          (chains_at 100000000)
          (codes "1")
          (some ask)
          (pos 9)
          50
          one_deposit
        ≡ (withdrawal (pos 1) 500000000 100000000, paid))
unfolding reach insert_journal find_journal upsert_row upsert_account update_row update_balance
    insert_entry has_text has_journal find_balance set_balance ref_eq owner_eq kind_eq biz_eq
    biz_type_eq text_eq direction_of abs64 wrap64 int64 uint64 bump tots_from all_equal
    check_balanced record_entry post_move post_moves post_new post_tx commit finish begin with_tx
    post format_uint pad_digits format_int ◌+ℤ◌ ◌-ℤ◌ find_chain find to_upper positive parse
    contains_any split_point parse_parts all_digits pad_frac parse_uint trim_space trim_left format
    has_client add_withdrawal insert_withdrawal used_since used_amount daily_verdict
    handle_withdraw_check risk_code pay_out withdraw_tx withdraw_reply withdraw_allowed
    withdraw_checked withdraw_on handle_withdraw parse_int parse_user_id
paid_out = (refl, refl)

day_limit_example :
    (used_since 40 (pos 1) usdt paid.withdrawals ≡ pos (0 + 500000000))
    × (0 + 500000000 ≤ 800000000)
day_limit_example =
    day_limit service (chains_at 100000000) (codes "1") ask (pos 1) (pos 9) 50 40 800000000 0
      one_deposit paid (pos 1) 500000000 100000000 (unfold parse_user_id parse_int text_eq in refl)
      (unfold to_upper in refl) (unfold find text_eq in refl) (paid_out.0) (omega arith)
      (omega arith) (paid_out.1)
