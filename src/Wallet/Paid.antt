-- ===== src/Wallet/Paid.antt =====
-- On the transaction of `handleWithdraw` of services/wallet/api.go: the row and the journal that pays it.
use lcex.Prelude.{
  ◌≡◌, ap, ℕ, ◌+◌, ◌<◌, true, false, [], ◌∷◌, ◌++◌, All-append, All-weaken, arith, ok, Result-cases,
  Bool-cases, inl, inr,
}
use lcex.Prelude.Int.{ℤ, pos, ltb_ℤ, ◌+ℤ◌}
use lcex.Prelude.Word.{i64_mod}
use lcex.Prelude.Text.{Text}
use lcex.Db.{Db, WithdrawalRow, reach}
use lcex.Db.Statements.{has_text, has_journal}
use lcex.Db.Inversion.{>>=-eq-ok, reach_ok}
use lcex.Db.Wallet.{insert_withdrawal, add_withdrawal, has_client}
use lcex.Ledger.{post_tx, with_tx}
use lcex.Ledger.Atomic.{with_tx_ok, with_tx_err}
use lcex.Ledger.Effect.{Journaled, post_tx_ok}
use lcex.Ledger.Idempotent.{Journaled-has_journal}
use lcex.Ledger.Invariant.{IsLedger-same, sound-IsLedger}
use lcex.Wallet.{debit, withdraw_key}
use lcex.Wallet.Withdrawals.{pay_out, withdraw_tx}
use lcex.Wallet.Rows.{IsBacked}
use lcex.Wallet.Books.{
  IsWallet, IsPaid, has_journal-more, Journaled-rest, debit-IsSound, rollback-IsWallet,
}

-- The row with its id behind the others.
pub record Withdrawn (w : WithdrawalRow) (id : ℤ) (d d' : Db) : Type 0 where
  pub amount : ltb_ℤ (pos 0) w.amount ≡ true
  pub fee : ltb_ℤ w.fee (pos 0) ≡ false
  pub new : has_client w.user_id w.client_order_id d.withdrawals ≡ false
  pub known : has_text w.currency d.currencies ≡ true
  pub rest : d' ≡ record d {
    withdrawals = d.withdrawals ++ record w { id = id } ∷ [];
    next_withdrawal_id = d.next_withdrawal_id +ℤ pos 1;
    faults = d'.faults;
  }

add_withdrawal_ok :
    (w : WithdrawalRow) (id : ℤ) (d d' : Db)
    → add_withdrawal w d ≡ (ok id, d')
    → Withdrawn w id d d'
unfolding add_withdrawal
add_withdrawal_ok w id d d' h = elim (Bool-cases (ltb_ℤ (pos 0) w.amount)) [
  | inr a ↦ absurd (ground arith)
  | inl a ↦ elim (Bool-cases (ltb_ℤ w.fee (pos 0))) [
    | inl f ↦ absurd (ground arith)
    | inr f ↦ elim (Bool-cases (has_client w.user_id w.client_order_id d.withdrawals)) [
      | inl c ↦ absurd (ground arith)
      | inr c ↦ elim (Bool-cases (has_text w.currency d.currencies)) [
        | inr k ↦ absurd (ground arith)
        | inl k ↦ record { amount = a; fee = f; new = c; known = k; rest = ground arith }
      ]
    ]
  ]
]

insert_withdrawal_ok :
    (w : WithdrawalRow) (id : ℤ) (d d' : Db)
    → insert_withdrawal w d ≡ (ok id, d')
    → Withdrawn w id d d'
unfolding insert_withdrawal
insert_withdrawal_ok w id d d' h =
    let (_, d₁, through, rest) = >>=-eq-ok reach (λ _. add_withdrawal w) d d' h in
    let same = reach_ok d d₁ through in
    let done = add_withdrawal_ok w id d₁ d' rest in
    record {
      amount = done.amount;
      fee = done.fee;
      new = ground (arith, done.new);
      known = ground (arith, done.known);
      rest = ground (arith, done.rest);
    }

-- The row was inserted and paid in one transaction.
pub record PaidOut (w : WithdrawalRow) (amt fee : ℕ) (id : ℤ) (d d' : Db) : Type 0 where
  pub start : Db
  pub middle : Db
  pub end_ : Db
  pub started : start ≡ record d { faults = start.faults }
  pub inserted : Withdrawn w id start middle
  pub journal : Journaled (withdraw_key id) (debit w.user_id w.currency amt fee) middle end_
  pub ended : d' ≡ record end_ { faults = d'.faults }

pay_out_ok :
    (user_id : ℤ) (currency : Text) (amt fee : ℕ) (id id' : ℤ) (d d' : Db)
    → pay_out user_id currency amt fee id d ≡ (ok id', d')
    → (id' ≡ id) × Journaled (withdraw_key id) (debit user_id currency amt fee) d d'
unfolding pay_out
pay_out_ok user_id currency amt fee id id' d d' h =
    let k = withdraw_key id in
    let ms = debit user_id currency amt fee in
    elim (Result-cases (post_tx k ms d).0) [
      | inr (e, q) ↦ absurd (ground arith)
      | inl (_, q) ↦ (ground arith, post_tx_ok k ms d d' (ground arith))
    ]

pub withdraw_tx_ok :
    (w : WithdrawalRow) (amt fee : ℕ) (id : ℤ) (d d' : Db)
    → with_tx (withdraw_tx w amt fee) d ≡ (ok id, d')
    → PaidOut w amt fee id d d'
unfolding withdraw_tx
withdraw_tx_ok w amt fee id d d' h =
    let (opened, ran, closed) = with_tx_ok (withdraw_tx w amt fee) d d' id h in
    let start = (reach d).1 in
    let end_ = (withdraw_tx w amt fee start).1 in
    let (id', middle, first, rest) =
      >>=-eq-ok (insert_withdrawal w) (pay_out w.user_id w.currency amt fee) start end_
        (ground arith) in
    let (same, journal) = pay_out_ok w.user_id w.currency amt fee id' id middle end_ rest in
    record {
      start = start;
      middle = middle;
      end_ = end_;
      started = opened;
      inserted = rw (same) (insert_withdrawal_ok w id' start middle first);
      journal = rw (same) journal;
      ended = closed;
    }

-- The tables of the wallet service behind a withdrawal.
pub PaidOut-tables :
    (w : WithdrawalRow) (amt fee : ℕ) (id : ℤ) (d d' : Db)
    → PaidOut w amt fee id d d'
    → (d'.journals ≡ d.journals ++ withdraw_key id ∷ [])
      × (d'.withdrawals ≡ d.withdrawals ++ record w { id = id } ∷ [])
      × (d'.deposits ≡ d.deposits)
      × (d'.next_deposit_id ≡ d.next_deposit_id)
PaidOut-tables w amt fee id d d' p =
    let rest =
      Journaled-rest (withdraw_key id) (debit w.user_id w.currency amt fee) p.middle p.end_
        p.journal in
    (
      ground (arith, rest, p.ended, p.started, p.inserted.rest),
      ground (arith, rest, p.ended, p.started, p.inserted.rest),
      ground (arith, rest, p.ended, p.started, p.inserted.rest),
      ground (arith, rest, p.ended, p.started, p.inserted.rest),
    )

paid-IsWallet :
    (w : WithdrawalRow) (amt fee : ℕ) (id : ℤ) (d d' : Db)
    → amt + fee < i64_mod
    → PaidOut w amt fee id d d'
    → IsWallet d
    → IsWallet d'
paid-IsWallet w amt fee id d d' small p h =
    let k = withdraw_key id in
    let ms = debit w.user_id w.currency amt fee in
    let (js, ws, ps, n) = PaidOut-tables w amt fee id d d' p in
    let there = Journaled-has_journal k ms p.middle p.end_ p.journal in
    let last : d'.journals ≡ p.end_.journals = ap (λ (x : Db). x.journals) p.ended in
    let before =
      IsLedger-same d p.middle (ground (arith, p.inserted.rest, p.started))
        (ground (arith, p.inserted.rest, p.started)) h.ledger in
    let after =
      sound-IsLedger k ms p.middle p.end_ (debit-IsSound w.user_id w.currency amt fee small)
        p.journal before in
    let paid : has_journal k (d.journals ++ k ∷ []) ≡ true = rw (← js, last) there in
    record {
      ledger =
          IsLedger-same p.end_ d' (ap (λ (x : Db). x.accounts) p.ended)
            (ap (λ (x : Db). x.entries) p.ended) after;
      deposits = record {
        numbered = rw (ps, n) h.deposits.numbered;
        backed =
            rw (js, ps)
              (All-weaken (IsBacked d.journals) (IsBacked (d.journals ++ k ∷ [])) d.deposits
                (λ q b t. has_journal-more _ k d.journals (b t)) h.deposits.backed);
      };
      paid =
          rw (js, ws)
            (All-append (IsPaid (d.journals ++ k ∷ [])) d.withdrawals (record w { id = id } ∷ [])
              (All-weaken (IsPaid d.journals) (IsPaid (d.journals ++ k ∷ [])) d.withdrawals
                (λ q b. has_journal-more _ k d.journals b) h.paid)
              (paid, tt));
    }

pub withdraw-IsWallet :
    (w : WithdrawalRow) (amt fee : ℕ) (d : Db)
    → amt + fee < i64_mod
    → IsWallet d
    → IsWallet (with_tx (withdraw_tx w amt fee) d).1
withdraw-IsWallet w amt fee d small h =
    let d' = (with_tx (withdraw_tx w amt fee) d).1 in
    elim (Result-cases (with_tx (withdraw_tx w amt fee) d).0) [
      | inr (e, q) ↦
          rollback-IsWallet d d' (with_tx_err (withdraw_tx w amt fee) d d' e (ground arith)) h
      | inl (id, q) ↦
          paid-IsWallet w amt fee id d d' small (withdraw_tx_ok w amt fee id d d' (ground arith)) h
    ]
