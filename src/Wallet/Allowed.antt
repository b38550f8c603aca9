-- ===== src/Wallet/Allowed.antt =====
-- On `handleWithdraw` of services/wallet/api.go: the way to the transaction, and a network without a fee.
use lcex.Prelude.{
  ◌≡◌, ◌≢◌, ℕ, ◌==◌, arith, Option, none, some, ltb, Result, ok, err, Result-cases, Option-cases,
  Bool-cases, inl, inr,
}
use lcex.Prelude.Int.{ℤ, pos}
use lcex.Prelude.Word.{int64, int64_exact}
use lcex.Prelude.Text.{Text}
use lcex.Fixed.{parse, is_empty}
use lcex.Chains.{Chain, ChainConfig, find_chain}
use lcex.Risk.{WithdrawCheck}
use lcex.Request.{parse_user_id}
use lcex.Db.{Db, Err, insufficient_balance}
use lcex.Ledger.{with_tx}
use lcex.Clearing.ZeroFee.{Posts-IsMoving}
use lcex.Wallet.{withdrawal, debit, withdraw_key}
use lcex.Wallet.Deposits.{positive}
use lcex.Wallet.Withdrawals.{
  RiskReply, risk_code, WithdrawReq, check_of, client_id_of, withdrawal_row, withdraw_tx,
  withdraw_reply, withdraw_allowed, withdraw_checked, withdraw_on, handle_withdraw,
}
use lcex.Wallet.Paid.{PaidOut, withdraw_tx_ok}

-- What the handler has checked when it comes to the transaction.
pub record IsAllowed (risk : WithdrawCheck → RiskReply) (cfg : ChainConfig) (header : Text)
    (req : WithdrawReq) (user_id : ℤ) (ch : Chain) (amt : ℕ) : Type 0 where
  pub user : parse_user_id header ≡ some user_id
  pub chain : find_chain cfg req.currency req.network ≡ ok ch
  pub amount : positive (parse req.amount) ≡ some amt
  pub risk_zero : risk_code (risk (check_of user_id req amt)) ≡ some 0

module _ (risk : WithdrawCheck → RiskReply) (cfg : ChainConfig) (header : Text) (req : WithdrawReq)
    (nanos : ℤ) (now : ℕ) (d : Db) where
  -- A reply that is no refusal comes from the transaction.
  withdraw_checked_inv :
      (code : Option ℕ) (user_id : ℤ) (ch : Chain) (amt : ℕ) (id : ℤ) (a f : ℕ) (d' : Db)
      → withdraw_checked code user_id req ch amt nanos now d ≡ (withdrawal id a f, d')
      → (code ≡ some 0)
        × (withdraw_allowed user_id req ch amt nanos now d ≡ (withdrawal id a f, d'))
  unfolding withdraw_checked
  withdraw_checked_inv none user_id ch amt id a f d' h = absurd (ground arith)
  withdraw_checked_inv (some code) user_id ch amt id a f d' h = elim (Bool-cases (code == 0)) [
    | inl t ↦ (ground arith, ground arith)
    | inr g ↦ absurd (ground arith)
  ]

  withdraw_on_inv :
      (user_id : ℤ) (ch : Chain) (id : ℤ) (a f : ℕ) (d' : Db)
      → withdraw_on risk user_id req ch nanos now d ≡ (withdrawal id a f, d')
      → (amt : ℕ) × (positive (parse req.amount) ≡ some amt)
        × (withdraw_checked
              (risk_code (risk (check_of user_id req amt)))
              user_id
              req
              ch
              amt
              nanos
              now
              d
            ≡ (withdrawal id a f, d'))
  unfolding withdraw_on
  withdraw_on_inv user_id ch id a f d' h = elim (Bool-cases ch.withdraw_on) [
    | inr g ↦ absurd (ground arith)
    | inl t ↦ elim (Bool-cases (is_empty req.address)) [
      | inl e ↦ absurd (ground arith)
      | inr e ↦ elim (Option-cases (positive (parse req.amount))) [
        | inl q ↦ absurd (ground arith)
        | inr (amt, q) ↦ elim (Bool-cases (ltb amt ch.min_withdraw)) [
          | inl k ↦ absurd (ground arith)
          | inr k ↦ (amt, q, ground arith)
        ]
      ]
    ]
  ]

  pub handle_withdraw_inv :
      (id : ℤ) (a f : ℕ) (d' : Db)
      → handle_withdraw risk cfg header (some req) nanos now d ≡ (withdrawal id a f, d')
      → (user_id : ℤ) × (ch : Chain) × (amt : ℕ) × IsAllowed risk cfg header req user_id ch amt
        × (withdraw_allowed user_id req ch amt nanos now d ≡ (withdrawal id a f, d'))
  unfolding handle_withdraw
  handle_withdraw_inv id a f d' h = elim (Option-cases (parse_user_id header)) [
    | inl e ↦ absurd (ground arith)
    | inr (u, e) ↦ elim (Result-cases (find_chain cfg req.currency req.network)) [
      | inr (x, q) ↦ absurd (ground arith)
      | inl (ch, q) ↦
          let (amt, p, checked) = withdraw_on_inv u ch id a f d' (ground arith) in
          let (zero_, allowed) =
            withdraw_checked_inv (risk_code (risk (check_of u req amt))) u ch amt id a f d'
              checked in
          (u, ch, amt, record { user = e; chain = q; amount = p; risk_zero = zero_ }, allowed)
    ]
  ]

withdraw_reply_inv :
    (amt fee : ℕ) (r : Result Err ℤ) (d : Db) (id : ℤ) (a f : ℕ) (d' : Db)
    → withdraw_reply amt fee (r, d) ≡ (withdrawal id a f, d')
    → (◌≡◌ {A = Result Err ℤ × Db} (r, d) (ok id, d')) × (a ≡ amt) × (f ≡ fee)
unfolding withdraw_reply
withdraw_reply_inv amt fee (ok i) d id a f d' h = (ground arith, ground arith, ground arith)
withdraw_reply_inv amt fee (err insufficient_balance) d id a f d' h = absurd (ground arith)
withdraw_reply_inv amt fee (err e) d id a f d' h = absurd (ground arith)

-- The row was inserted and paid.
pub withdraw_allowed_inv :
    (user_id : ℤ) (req : WithdrawReq) (ch : Chain) (amt : ℕ) (nanos : ℤ) (now : ℕ) (d d' : Db)
    (id : ℤ) (a f : ℕ)
    → withdraw_allowed user_id req ch amt nanos now d ≡ (withdrawal id a f, d')
    → let client_id = client_id_of user_id req.client_order_id nanos in
      PaidOut (withdrawal_row user_id req ch amt client_id now) amt ch.withdraw_fee id d d'
unfolding withdraw_allowed
withdraw_allowed_inv user_id req ch amt nanos now d d' id a f h =
    let w =
      withdrawal_row user_id req ch amt (client_id_of user_id req.client_order_id nanos) now in
    let out = with_tx (withdraw_tx w amt ch.withdraw_fee) d in
    withdraw_tx_ok w amt ch.withdraw_fee id d d'
      (withdraw_reply_inv amt ch.withdraw_fee out.0 out.1 id a f d' h).0

pub withdraw_allowed_amount :
    (user_id : ℤ) (req : WithdrawReq) (ch : Chain) (amt : ℕ) (nanos : ℤ) (now : ℕ) (d d' : Db)
    (id : ℤ) (a f : ℕ)
    → withdraw_allowed user_id req ch amt nanos now d ≡ (withdrawal id a f, d')
    → a ≡ amt
unfolding withdraw_allowed
withdraw_allowed_amount user_id req ch amt nanos now d d' id a f h =
    let w =
      withdrawal_row user_id req ch amt (client_id_of user_id req.client_order_id nanos) now in
    let out = with_tx (withdraw_tx w amt ch.withdraw_fee) d in
    (withdraw_reply_inv amt ch.withdraw_fee out.0 out.1 id a f d' h).1

-- From a network whose withdrawals cost nothing none succeeds, whoever asks for it, whatever the risk
-- service answers and whatever the balances are.
pub free_withdrawal_fails :
    (risk : WithdrawCheck → RiskReply) (cfg : ChainConfig) (header : Text) (req : WithdrawReq)
    (ch : Chain) (nanos : ℤ) (now : ℕ) (d : Db)
    → find_chain cfg req.currency req.network ≡ ok ch
    → ch.withdraw_fee ≡ 0
    → (id : ℤ) (a f : ℕ)
    → (handle_withdraw risk cfg header (some req) nanos now d).0 ≢ withdrawal id a f
free_withdrawal_fails risk cfg header req ch nanos now d found free id a f e =
    let d' = (handle_withdraw risk cfg header (some req) nanos now d).1 in
    let (u, ch', amt, is_allowed, h) =
      handle_withdraw_inv risk cfg header req nanos now d id a f d' (ground arith) in
    let same : ch' ≡ ch = ground (arith, is_allowed.chain) in
    let paid = withdraw_allowed_inv u req ch' amt nanos now d d' id a f h in
    let moving =
      Posts-IsMoving (withdraw_key id) (debit u req.currency amt ch'.withdraw_fee)
        paid.journal.opened paid.end_ paid.journal.posts in
    let fee : ch'.withdraw_fee ≡ 0 = rw same free in
    let nothing : int64 ch'.withdraw_fee ≡ pos 0 = rw fee (int64_exact 0 (omega arith)) in
    moving.1.1.0 nothing
