-- ===== src/Wallet/Payouts.antt =====
-- On `handleWithdraw` and `handleWithdrawConfirm` of services/wallet/api.go: they keep the books, and every
-- withdrawal its journal.
use mathlib.Core.Path.{subst}
use lcex.Prelude.{
  ◌≡◌, refl, sym, ap, ℕ, ◌+◌, ◌<◌, true, false, Bool, ◌&&◌, ◌==◌, List, [], ◌∷◌, All, arith, Option,
  none, some, ltb, Result, ok, err, Result-cases, Option-cases, Bool-cases, inl, inr, ◌⊎◌,
}
use lcex.Prelude.Int.{ℤ}
use lcex.Prelude.Word.{i64_mod}
use lcex.Prelude.Text.{Text, codes, text_eq}
use lcex.Fixed.{parse, is_empty}
use lcex.Chains.{Chain, ChainConfig, find_chain}
use lcex.Risk.{WithdrawCheck}
use lcex.Request.{parse_int, parse_user_id}
use lcex.Db.{Db, Err, insufficient_balance, WithdrawalRow, BizKey, reach}
use lcex.Db.Keys.{eq_ℤ}
use lcex.Ledger.Atomic.{reach_keeps}
use lcex.Db.Wallet.{complete_rows, complete_withdrawal}
use lcex.Ledger.{with_tx}
use lcex.Ledger.Invariant.{IsLedger-same}
use lcex.Wallet.Deposits.{positive}
use lcex.Wallet.Withdrawals.{
  RiskReply, risk_code, WithdrawReq, check_of, client_id_of, withdrawal_row, withdraw_tx,
  withdraw_reply, withdraw_allowed, withdraw_checked, withdraw_on, handle_withdraw, confirmed,
  txid_of, handle_withdraw_confirm,
}
use lcex.Wallet.Tables.{complete_withdrawal_keeps}
use lcex.Wallet.Books.{IsWallet, AreDeposits-same, IsPaid}
use lcex.Wallet.Paid.{withdraw-IsWallet}

withdraw_reply_db :
    (amt fee : ℕ) (r : Result Err ℤ) (d : Db) → (withdraw_reply amt fee (r, d)).1 ≡ d
unfolding withdraw_reply
withdraw_reply_db amt fee (ok id) d = refl
withdraw_reply_db amt fee (err insufficient_balance) d = refl
withdraw_reply_db amt fee (err e) d = ground arith

withdraw_allowed-IsWallet :
    (user_id : ℤ) (req : WithdrawReq) (ch : Chain) (amt : ℕ) (nanos : ℤ) (now : ℕ) (d : Db)
    → amt + ch.withdraw_fee < i64_mod
    → IsWallet d
    → IsWallet (withdraw_allowed user_id req ch amt nanos now d).1
unfolding withdraw_allowed
withdraw_allowed-IsWallet user_id req ch amt nanos now d small h =
    let client_id = client_id_of user_id req.client_order_id nanos in
    let w = withdrawal_row user_id req ch amt client_id now in
    let out = with_tx (withdraw_tx w amt ch.withdraw_fee) d in
    subst IsWallet (sym (withdraw_reply_db amt ch.withdraw_fee out.0 out.1))
      (withdraw-IsWallet w amt ch.withdraw_fee d small h)

withdraw_checked-IsWallet :
    (code : Option ℕ) (user_id : ℤ) (req : WithdrawReq) (ch : Chain) (amt : ℕ) (nanos : ℤ) (now : ℕ)
    (d : Db)
    → amt + ch.withdraw_fee < i64_mod
    → IsWallet d
    → IsWallet (withdraw_checked code user_id req ch amt nanos now d).1
unfolding withdraw_checked
withdraw_checked-IsWallet none user_id req ch amt nanos now d small h = h
withdraw_checked-IsWallet (some code) user_id req ch amt nanos now d small h =
    elim (Bool-cases (code == 0)) [
      | inl t ↦ rw t (withdraw_allowed-IsWallet user_id req ch amt nanos now d small h)
      | inr f ↦ rw f h
    ]

-- Amount and fee of the withdrawal that is asked for add up to an int64.
abbrev pub IsSmallWithdrawal : ChainConfig → Option WithdrawReq → Type 0
IsSmallWithdrawal cfg body =
    (req : WithdrawReq) (ch : Chain) (amt : ℕ)
    → body ≡ some req
    → find_chain cfg req.currency req.network ≡ ok ch
    → positive (parse req.amount) ≡ some amt
    → amt + ch.withdraw_fee < i64_mod

withdraw_on-IsWallet :
    (risk : WithdrawCheck → RiskReply) (user_id : ℤ) (req : WithdrawReq) (ch : Chain) (nanos : ℤ)
    (now : ℕ) (d : Db)
    → ((amt : ℕ) → positive (parse req.amount) ≡ some amt → amt + ch.withdraw_fee < i64_mod)
    → IsWallet d
    → IsWallet (withdraw_on risk user_id req ch nanos now d).1
unfolding withdraw_on
withdraw_on-IsWallet risk user_id req ch nanos now d small h = elim (Bool-cases ch.withdraw_on) [
  | inr f ↦ ground arith
  | inl t ↦ elim (Bool-cases (is_empty req.address)) [
    | inl e ↦ ground arith
    | inr e ↦ elim (Option-cases (positive (parse req.amount))) [
      | inl q ↦ ground arith
      | inr (amt, q) ↦ elim (Bool-cases (ltb amt ch.min_withdraw)) [
        | inl k ↦ ground arith
        | inr k ↦
            let kept =
              withdraw_checked-IsWallet (risk_code (risk (check_of user_id req amt))) user_id req ch
                amt nanos now d (small amt q) h in
            ground arith
      ]
    ]
  ]
]

pub ask_withdrawal-IsWallet :
    (risk : WithdrawCheck → RiskReply) (cfg : ChainConfig) (header : Text)
    (body : Option WithdrawReq) (nanos : ℤ) (now : ℕ) (d : Db)
    → IsSmallWithdrawal cfg body
    → IsWallet d
    → IsWallet (handle_withdraw risk cfg header body nanos now d).1
unfolding handle_withdraw
ask_withdrawal-IsWallet risk cfg header none nanos now d small h = ground arith
ask_withdrawal-IsWallet risk cfg header (some req) nanos now d small h =
    elim (Option-cases (parse_user_id header)) [
      | inl e ↦ ground arith
      | inr (u, e) ↦ elim (Result-cases (find_chain cfg req.currency req.network)) [
        | inr (x, q) ↦ ground arith
        | inl (ch, q) ↦
            let kept =
              withdraw_on-IsWallet risk u req ch nanos now d (λ amt p. small req ch amt refl q p)
                h in
            ground arith
      ]
    ]

complete_rows-IsPaid :
    (id : ℤ) (txid : Text) (js : List BizKey) (ws : List WithdrawalRow)
    → All (IsPaid js) ws
    → All (IsPaid js) (complete_rows id txid ws).0
unfolding complete_rows
complete_rows-IsPaid id txid js [] h = tt
complete_rows-IsPaid id txid js (w ∷ ws) h =
    elim (Bool-cases (eq_ℤ w.id id && text_eq w.status (codes "broadcasting"))) [
      | inl t ↦ rw t (h.0, complete_rows-IsPaid id txid js ws h.1)
      | inr f ↦ rw f (h.0, complete_rows-IsPaid id txid js ws h.1)
    ]

complete_withdrawal_rows :
    (id : ℤ) (txid : Text) (d : Db)
    → ((complete_withdrawal id txid d).1.withdrawals ≡ d.withdrawals)
      ⊎ ((complete_withdrawal id txid d).1.withdrawals ≡ (complete_rows id txid d.withdrawals).0)
unfolding complete_withdrawal
complete_withdrawal_rows id txid d = elim (Result-cases (reach d).0) [
  | inl (_, e) ↦ inr (ground (arith, reach_keeps d))
  | inr (x, e) ↦ inl (ground (arith, reach_keeps d))
]

complete_withdrawal-IsWallet :
    (id : ℤ) (txid : Text) (d : Db) → IsWallet d → IsWallet (complete_withdrawal id txid d).1
complete_withdrawal-IsWallet id txid d h =
    let d' = (complete_withdrawal id txid d).1 in
    let same = complete_withdrawal_keeps id txid d in
    let js : d'.journals ≡ d.journals = ap (λ (x : Db). x.journals) same in
    record {
      ledger =
          IsLedger-same d d' (ap (λ (x : Db). x.accounts) same) (ap (λ (x : Db). x.entries) same)
            h.ledger;
      deposits =
          AreDeposits-same d d' js (ap (λ (x : Db). x.deposits) same)
            (ap (λ (x : Db). x.next_deposit_id) same) h.deposits;
      paid = elim (complete_withdrawal_rows id txid d) [
        | inl e ↦ rw (js, e) h.paid
        | inr e ↦ rw (js, e) (complete_rows-IsPaid id txid d.journals d.withdrawals h.paid)
      ];
    }

confirmed_db :
    (id : ℤ) (txid : Text) (r : Result Err Bool) (d : Db) → (confirmed id txid (r, d)).1 ≡ d
unfolding confirmed
confirmed_db id txid (ok true) d = refl
confirmed_db id txid (ok false) d = refl
confirmed_db id txid (err e) d = refl

pub confirm_withdrawal-IsWallet :
    (path txid : Text) (d : Db) → IsWallet d → IsWallet (handle_withdraw_confirm path txid d).1
unfolding handle_withdraw_confirm
confirm_withdrawal-IsWallet path txid d h = elim (Option-cases (parse_int path)) [
  | inl e ↦ ground arith
  | inr (id, e) ↦
      let t = txid_of id txid in
      let out = complete_withdrawal id t d in
      let kept =
        subst IsWallet (sym (confirmed_db id t out.0 out.1))
          (complete_withdrawal-IsWallet id t d h) in
      ground arith
]
