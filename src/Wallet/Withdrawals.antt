-- ===== src/Wallet/Withdrawals.antt =====
-- The withdrawals of services/wallet/api.go: `handleWithdraw`, `riskCheckWithdraw`,
-- `handleWithdrawConfirm`.
use lcex.Prelude.{
  ℕ, Bool, true, false, not, ◌++◌, ◌==◌, Option, none, some, ltb, if◌then◌else◌, Result, ok, err,
}
use lcex.Prelude.Int.{ℤ, pos}
use lcex.Prelude.Word.{int64}
use lcex.Prelude.Text.{Text, codes}
use lcex.Fixed.{parse, format, format_int, is_empty}
use lcex.Chains.{Chain, ChainConfig, find_chain}
use lcex.Risk.{WithdrawCheck, Verdict}
use lcex.Db.{Db, WithdrawalRow, Err, insufficient_balance, Tx, ◌>>=◌}
use lcex.Db.Wallet.{insert_withdrawal, complete_withdrawal}
use lcex.Ledger.{post_tx, with_tx}
use lcex.Request.{parse_int, parse_user_id}
use lcex.Wallet.{Reply, failed, withdrawal, confirmation, debit, withdraw_key}
use lcex.Wallet.Deposits.{positive}

-- How the call of the risk service ends: there is no URL, it cannot be reached or does not answer in JSON,
-- or it answers.
pub data RiskReply : Type 0 where
  not_configured unreachable : RiskReply
  answered : Verdict → RiskReply

-- `riskCheckWithdraw`: the code, 0 if the withdrawal is allowed; `none` for an error.
unfoldable pub risk_code : RiskReply → Option ℕ
risk_code not_configured = some 0
risk_code unreachable = none
risk_code (answered v) = if v.allow then some 0 else if v.code == 0 then some 60005 else some v.code

pub record WithdrawReq : Type 0 where
  pub currency : Text
  pub network : Text
  pub address : Text
  pub amount : Text
  pub client_order_id : Text

-- What the risk service is asked.
abbrev pub check_of : ℤ → WithdrawReq → ℕ → WithdrawCheck
check_of user_id req amt = record {
  user_id = user_id;
  currency = req.currency;
  network = req.network;
  address = req.address;
  amount = format amt;
}

-- The row that `handleWithdraw` inserts, but for its id.
abbrev pub withdrawal_row : ℤ → WithdrawReq → Chain → ℕ → Text → ℕ → WithdrawalRow
withdrawal_row user_id req ch amt client_id now = record {
  id = pos 0;
  user_id = user_id;
  currency = req.currency;
  network = req.network;
  address = req.address;
  amount = int64 amt;
  fee = int64 ch.withdraw_fee;
  client_order_id = client_id;
  txid = none;
  status = codes "broadcasting";
  created_at = now;
}

unfoldable pub pay_out : ℤ → Text → ℕ → ℕ → ℤ → Tx ℤ
pay_out user_id currency amt fee id d =
    let (r, d') = post_tx (withdraw_key id) (debit user_id currency amt fee) d in
    elim r [ ok _ ↦ (ok id, d') | err e ↦ (err e, d') ]

-- The transaction of `handleWithdraw`: the row and the payment.
unfoldable pub withdraw_tx : WithdrawalRow → ℕ → ℕ → Tx ℤ
withdraw_tx w amt fee = do id ← insert_withdrawal w; pay_out w.user_id w.currency amt fee id

unfoldable pub withdraw_reply : ℕ → ℕ → Result Err ℤ × Db → Reply × Db
withdraw_reply amt fee (ok id, d) = (withdrawal id amt fee, d)
withdraw_reply amt fee (err insufficient_balance, d) = (failed 51001, d)
withdraw_reply amt fee (err e, d) = (failed 10001, d)

-- `wd-%d-%d`, of the user and the time in nanoseconds, where the client gives no id.
abbrev pub client_id_of : ℤ → Text → ℤ → Text
client_id_of user_id client_id nanos =
    if is_empty client_id
    then codes "wd-" ++ (format_int user_id ++ (codes "-" ++ format_int nanos))
    else client_id

-- The end of `handleWithdraw`, for an amount that the risk service has allowed.
unfoldable pub withdraw_allowed : ℤ → WithdrawReq → Chain → ℕ → ℤ → ℕ → Db → Reply × Db
withdraw_allowed user_id req ch amt nanos now d =
    let client_id = client_id_of user_id req.client_order_id nanos in
    let w = withdrawal_row user_id req ch amt client_id now in
    withdraw_reply amt ch.withdraw_fee (with_tx (withdraw_tx w amt ch.withdraw_fee) d)

unfoldable pub withdraw_checked : Option ℕ → ℤ → WithdrawReq → Chain → ℕ → ℤ → ℕ → Db → Reply × Db
withdraw_checked none user_id req ch amt nanos now d = (failed 10002, d)
withdraw_checked (some code) user_id req ch amt nanos now d =
    if code == 0 then withdraw_allowed user_id req ch amt nanos now d else (failed code, d)

unfoldable pub withdraw_on :
    (WithdrawCheck → RiskReply) → ℤ → WithdrawReq → Chain → ℤ → ℕ → Db → Reply × Db
withdraw_on risk user_id req ch nanos now d =
    if not ch.withdraw_on
    then (failed 60004, d)
    else if is_empty req.address
    then (failed 10003, d)
    else elim (positive (parse req.amount)) [
      | none ↦ (failed 10003, d)
      | some amt ↦
          if ltb amt ch.min_withdraw
          then (failed 60001, d)
          else withdraw_checked (risk_code (risk (check_of user_id req amt))) user_id req ch amt
              nanos now d
    ]

-- `handleWithdraw`, of the header, the decoded body, the clock of the service in nanoseconds and that of
-- the database in seconds; `risk` is the call of the risk service.
unfoldable pub handle_withdraw :
    (WithdrawCheck → RiskReply) → ChainConfig → Text → Option WithdrawReq → ℤ → ℕ → Db → Reply × Db
handle_withdraw risk cfg header body nanos now d = elim (parse_user_id header) [
  | none ↦ (failed 20005, d)
  | some user_id ↦ elim body [
    | none ↦ (failed 10003, d)
    | some req ↦ elim (find_chain cfg req.currency req.network) [
      | err e ↦ (failed 60003, d)
      | ok ch ↦ withdraw_on risk user_id req ch nanos now d
    ]
  ]
]

unfoldable pub confirmed : ℤ → Text → Result Err Bool × Db → Reply × Db
confirmed id txid (ok true, d) = (confirmation id txid, d)
confirmed id txid (ok false, d) = (failed 10003, d)
confirmed id txid (err e, d) = (failed 10001, d)

-- `mocktxid-%d`, where the body has no txid.
abbrev pub txid_of : ℤ → Text → Text
txid_of id txid = if is_empty txid then codes "mocktxid-" ++ format_int id else txid

-- `handleWithdrawConfirm`, of the id in the path and the txid of the body.
unfoldable pub handle_withdraw_confirm : Text → Text → Db → Reply × Db
handle_withdraw_confirm path txid d = elim (parse_int path) [
  | none ↦ (failed 10003, d)
  | some id ↦ confirmed id (txid_of id txid) (complete_withdrawal id (txid_of id txid) d)
]
