-- ===== src/Wallet/Deposits.antt =====
-- The deposits of services/wallet/api.go: `handleDepositAddress`, `handleAdminCredit`, `creditUser`,
-- `handleChainDeposit`.
use lcex.Prelude.{
  ℕ, Bool, true, false, not, ◌&&◌, ◌||◌, ◌==◌, List, Option, none, some, ltb, if◌then◌else◌, Result,
  ok, err,
}
use lcex.Prelude.Int.{ℤ, pos, leb_ℤ}
use lcex.Prelude.Word.{int64}
use lcex.Prelude.Text.{Text, codes, text_eq}
use lcex.Fixed.{FixedErr, parse, is_empty}
use lcex.Chains.{Chain, ChainConfig, find_chain}
use lcex.Db.{Db, AddressRow, DepositRow, BizKey, Err, already_processed, no_rows, Tx, ◌>>◌}
use lcex.Db.Wallet.{insert_address, select_address, select_owner, upsert_deposit, credit_deposit}
use lcex.Ledger.{Move, post_tx, post, with_tx}
use lcex.Request.{parse_user_id}
use lcex.Wallet.{
  Reply, failed, deposit_address, admin_credit, deposit_state, credit, credit_key, onchain_key,
}

-- The row is allocated, unless it is there, and read.
unfoldable pub allocate : AddressRow → Tx AddressRow
allocate a = do insert_address a; select_address a.user_id a.currency a.network

unfoldable pub allocated : Chain → Result Err AddressRow × Db → Reply × Db
allocated ch (ok a, d) = (deposit_address a.address ch, d)
allocated ch (err e, d) = (failed 10001, d)

-- `handleDepositAddress`, of the header and the two values of the query; `derive` is the custodian's
-- `DeriveAddress`.
unfoldable pub handle_deposit_address :
    (ℤ → Text → Text → Text) → ChainConfig → Text → Text → Text → Db → Reply × Db
handle_deposit_address derive cfg header currency network d = elim (parse_user_id header) [
  | none ↦ (failed 20005, d)
  | some user_id ↦ elim (find_chain cfg currency network) [
    | err e ↦ (failed 60003, d)
    | ok ch ↦
        let a : AddressRow = record {
          user_id = user_id;
          currency = currency;
          network = network;
          address = derive user_id currency network;
        } in
        if ch.deposit_on then allocated ch (allocate a d) else (failed 60003, d)
  ]
]

-- What `fixed.Parse` and the test for 0 leave of an amount.
unfoldable pub positive : Result FixedErr ℕ → Option ℕ
positive (err e) = none
positive (ok amt) = if amt == 0 then none else some amt

pub record AdminCreditReq : Type 0 where
  pub user_id : ℤ
  pub currency : Text
  pub amount : Text
  pub biz_id : Text

unfoldable pub replayed : Result Err (Unit {0}) × Db → Result Err Bool × Db
replayed (ok _, d) = (ok false, d)
replayed (err already_processed, d) = (ok true, d)
replayed (err e, d) = (err e, d)

-- `creditUser`
unfoldable pub credit_user : ℤ → Text → ℤ → Text → Tx Bool
credit_user user_id currency amt biz_id d =
    replayed (post (credit_key biz_id) (credit user_id currency amt) d)

unfoldable pub credit_reply : Text → Result Err Bool × Db → Reply × Db
credit_reply biz_id (ok again, d) = (admin_credit biz_id again, d)
credit_reply biz_id (err e, d) = (failed 10001, d)

-- `handleAdminCredit`, of the decoded body.
unfoldable pub handle_admin_credit : Option AdminCreditReq → Db → Reply × Db
handle_admin_credit none d = (failed 10003, d)
handle_admin_credit (some req) d =
    if leb_ℤ req.user_id (pos 0) || (is_empty req.currency || is_empty req.biz_id)
    then (failed 10003, d)
    else elim (positive (parse req.amount)) [
      | none ↦ (failed 10003, d)
      | some amt ↦
          credit_reply req.biz_id (credit_user req.user_id req.currency (int64 amt) req.biz_id d)
    ]

pub record ChainDepositReq : Type 0 where
  pub address : Text
  pub txid : Text
  pub output_index : ℤ
  pub amount : Text
  pub confirmations : ℤ

-- The row that `handleChainDeposit` upserts, but for its id.
abbrev pub deposit_row : ChainDepositReq → AddressRow → Chain → ℕ → DepositRow
deposit_row req a ch amt = record {
  id = pos 0;
  user_id = a.user_id;
  currency = a.currency;
  network = a.network;
  address = req.address;
  amount = int64 amt;
  txid = req.txid;
  output_index = req.output_index;
  confirmations = req.confirmations;
  required_conf = ch.confirmations;
  status = codes "pending";
}

-- `ErrAlreadyProcessed` is no error here.
unfoldable pub tolerated : Result Err (Unit {0}) × Db → Result Err (Unit {0}) × Db
tolerated (ok _, d) = (ok tt, d)
tolerated (err already_processed, d) = (ok tt, d)
tolerated (err e, d) = (err e, d)

-- The transaction that credits a deposit.
unfoldable pub credit_tx : BizKey → List Move → ℤ → Tx (Unit {0})
credit_tx k moves id = do (λ d. tolerated (post_tx k moves d)); credit_deposit id

unfoldable pub credited : DepositRow → Chain → Result Err (Unit {0}) × Db → Reply × Db
credited p ch (ok _, d) =
    (deposit_state (record p { status = codes "credited" }) ch.confirmations true, d)
credited p ch (err e, d) = (failed 10001, d)

-- The end of `handleChainDeposit`, for the row that the upsert returned.
unfoldable pub settle_deposit :
    ChainDepositReq → AddressRow → Chain → ℕ → Result Err DepositRow × Db → Reply × Db
settle_deposit req a ch amt (err e, d) = (failed 10001, d)
settle_deposit req a ch amt (ok p, d) =
    let is_credited = text_eq p.status (codes "credited") in
    let k = onchain_key req.txid req.output_index in
    if not is_credited && leb_ℤ ch.confirmations p.confirmations
    then credited p ch (with_tx (credit_tx k (credit a.user_id a.currency (int64 amt)) p.id) d)
    else (deposit_state p ch.confirmations is_credited, d)

unfoldable pub deposit_to : ChainConfig → ChainDepositReq → ℕ → AddressRow → Db → Reply × Db
deposit_to cfg req amt a d = elim (find_chain cfg a.currency a.network) [
  | err e ↦ (failed 60003, d)
  | ok ch ↦
      if ltb amt ch.min_deposit
      then (failed 10003, d)
      else settle_deposit req a ch amt (upsert_deposit (deposit_row req a ch amt) d)
]

unfoldable pub deposit_found :
    ChainConfig → ChainDepositReq → ℕ → Result Err AddressRow × Db → Reply × Db
deposit_found cfg req amt (ok a, d) = deposit_to cfg req amt a d
deposit_found cfg req amt (err no_rows, d) = (failed 10003, d)
deposit_found cfg req amt (err e, d) = (failed 10001, d)

-- `handleChainDeposit`, of the decoded body.
unfoldable pub handle_chain_deposit : ChainConfig → Option ChainDepositReq → Db → Reply × Db
handle_chain_deposit cfg none d = (failed 10003, d)
handle_chain_deposit cfg (some req) d =
    if is_empty req.address || is_empty req.txid
    then (failed 10003, d)
    else elim (positive (parse req.amount)) [
      | none ↦ (failed 10003, d)
      | some amt ↦ deposit_found cfg req amt (select_owner req.address d)
    ]
