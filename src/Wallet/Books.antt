-- ===== src/Wallet/Books.antt =====
-- On the transactions of services/wallet/api.go: what the wallet service keeps of the books and of its own
-- tables.
use lcex.Prelude.{
  ◌≡◌, ap, ℕ, ◌+◌, ◌<◌, true, List, [], ◌∷◌, ◌++◌, All, All-weaken, arith, Result, ok, err, ◌⊎◌,
  Result-cases, Bool-cases, inl, inr,
}
use lcex.Prelude.Int.{ℤ, pos, ◌-ℤ◌, int_laws, zero-sub_parts}
use lcex.Prelude.Word.{i64_mod, add64, int64, int64_exact, int64-IsInt64, wrap64, wrap64_exact}
use lcex.Prelude.Text.{Text, text_eq}
use lcex.Db.{Db, BizKey, Err, already_processed, WithdrawalRow, reach}
use lcex.Db.Statements.{has_journal}
use lcex.Db.Inversion.{>>=-eq-ok, reach_ok}
use lcex.Db.Wallet.{credit_deposit, credit_rows}
use lcex.Ledger.{Move, post_tx, with_tx, rollback}
use lcex.Ledger.Atomic.{with_tx_ok, with_tx_err}
use lcex.Ledger.Effect.{Posts, Journaled, post_tx_ok}
use lcex.Ledger.Idempotent.{Journaled-has_journal}
use lcex.Ledger.Refused.{post_tx_already}
use lcex.Ledger.Invariant.{IsLedger, IsLedger-same, IsSound, sound-IsLedger}
use lcex.Wallet.{credit, debit, withdraw_key}
use lcex.Wallet.Deposits.{tolerated, credit_tx}
use lcex.Wallet.Rows.{IsOf, IsBacked, credit_rows-IsBacked, credit_rows-IsNumbered}
use lcex.Wallet.Upsert.{AreDeposits}

-- A withdrawal has the journal that pays it.
abbrev pub IsPaid : List BizKey → WithdrawalRow → Type 0
IsPaid js w = has_journal (withdraw_key w.id) js ≡ true

pub record IsWallet (d : Db) : Type 0 where
  pub ledger : IsLedger d
  pub deposits : AreDeposits d
  pub paid : All (IsPaid d.journals) d.withdrawals

-- The tables but for the deposits are as they were.
pub IsWallet-same :
    (d d' : Db)
    → d'.accounts ≡ d.accounts
    → d'.entries ≡ d.entries
    → d'.journals ≡ d.journals
    → d'.withdrawals ≡ d.withdrawals
    → AreDeposits d'
    → IsWallet d
    → IsWallet d'
IsWallet-same d d' a e j w p h = record {
  ledger = IsLedger-same d d' a e h.ledger;
  deposits = p;
  paid = rw (j, w) h.paid;
}

pub AreDeposits-same :
    (d d' : Db)
    → d'.journals ≡ d.journals
    → d'.deposits ≡ d.deposits
    → d'.next_deposit_id ≡ d.next_deposit_id
    → AreDeposits d
    → AreDeposits d'
AreDeposits-same d d' j p n h = record {
  numbered = rw (p, n) h.numbered;
  backed = rw (j, p) h.backed;
}

pub has_journal-more :
    (k j : BizKey) (js : List BizKey)
    → has_journal k js ≡ true
    → has_journal k (js ++ j ∷ []) ≡ true
unfolding has_journal
has_journal-more k j [] h = cc
has_journal-more k j (i ∷ js) h = ground (arith, has_journal-more k j js)

Posts-rest :
    (k : BizKey) (ms : List Move) (d d' : Db)
    → Posts k ms d d'
    → d' ≡ record d { accounts = d'.accounts; entries = d'.entries; faults = d'.faults }
Posts-rest k [] d d' p = ground arith
Posts-rest k (m ∷ ms) d d' (d₁, p, ps) = ground (arith, Posts-rest k ms d₁ d' ps, p.rest)

-- A journal that is posted touches the ledger only.
pub Journaled-rest :
    (k : BizKey) (ms : List Move) (d d' : Db)
    → Journaled k ms d d'
    → d' ≡ record d {
      accounts = d'.accounts;
      entries = d'.entries;
      journals = d.journals ++ k ∷ [];
      faults = d'.faults;
    }
Journaled-rest k ms d d' j = ground (arith, j.inserted, Posts-rest k ms j.opened d' j.posts)

pub Journaled-IsWallet :
    (k : BizKey) (ms : List Move) (d d' : Db)
    → IsSound ms
    → Journaled k ms d d'
    → IsWallet d
    → IsWallet d'
Journaled-IsWallet k ms d d' sound j h =
    let rest = Journaled-rest k ms d d' j in
    let js : d'.journals ≡ d.journals ++ k ∷ [] = ap (λ (x : Db). x.journals) rest in
    let ps : d'.deposits ≡ d.deposits = ap (λ (x : Db). x.deposits) rest in
    let n : d'.next_deposit_id ≡ d.next_deposit_id = ap (λ (x : Db). x.next_deposit_id) rest in
    let ws : d'.withdrawals ≡ d.withdrawals = ap (λ (x : Db). x.withdrawals) rest in
    record {
      ledger = sound-IsLedger k ms d d' sound j h.ledger;
      deposits = record {
        numbered = rw (ps, n) h.deposits.numbered;
        backed =
            rw (js, ps)
              (All-weaken (IsBacked d.journals) (IsBacked (d.journals ++ k ∷ [])) d.deposits
                (λ p b t. has_journal-more _ k d.journals (b t)) h.deposits.backed);
      };
      paid =
          rw (js, ws)
            (All-weaken (IsPaid d.journals) (IsPaid (d.journals ++ k ∷ [])) d.withdrawals
              (λ w b. has_journal-more _ k d.journals b) h.paid);
    }

-- The two moves of a credit are the same int64 on both sides of the equation.
pub credit-IsSound :
    (user_id : ℤ) (currency : Text) (amt : ℕ) → IsSound (credit user_id currency (int64 amt))
credit-IsSound user_id currency amt = (
  (int64-IsInt64 amt, (int64-IsInt64 amt, tt)),
  (λ c. elim (Bool-cases (text_eq currency c)) [
    | inl e ↦ rw e (omega int_laws)
    | inr e ↦ rw e (omega int_laws)
  ]),
)

-- So are those of a withdrawal, if amount and fee add up to an int64.
pub debit-IsSound :
    (user_id : ℤ) (currency : Text) (amt fee : ℕ)
    → amt + fee < i64_mod
    → IsSound (debit user_id currency amt fee)
debit-IsSound user_id currency amt fee h =
    let sum : add64 amt fee ≡ amt + fee = omega arith in
    let total : int64 (add64 amt fee) ≡ pos (amt + fee) = rw sum (int64_exact (amt + fee) h) in
    let a : int64 amt ≡ pos amt = int64_exact amt (omega arith) in
    let f : int64 fee ≡ pos fee = int64_exact fee (omega arith) in
    let minus : wrap64 (pos 0 -ℤ pos (amt + fee)) ≡ pos 0 -ℤ pos (amt + fee) =
      wrap64_exact (pos 0 -ℤ pos (amt + fee)) (omega (arith, h, zero-sub_parts (amt + fee))) in
    let minus_a : wrap64 (pos 0 -ℤ pos amt) ≡ pos 0 -ℤ pos amt =
      wrap64_exact (pos 0 -ℤ pos amt) (omega (arith, h, zero-sub_parts amt)) in
    rw (total, a, f, minus, minus_a)
      (
        (
          omega (arith, h, zero-sub_parts (amt + fee)),
          (omega (arith, h, zero-sub_parts amt), (omega (arith, h), tt)),
        ),
        (λ c. elim (Bool-cases (text_eq currency c)) [
          | inl e ↦ rw e (omega int_laws)
          | inr e ↦ rw e (omega int_laws)
        ]),
      )

pub tolerated_ok :
    (out : Result Err (Unit {0}) × Db) (d' : Db)
    → tolerated out ≡ (ok tt, d')
    → (out ≡ (ok tt, d')) ⊎ (out ≡ (err already_processed, d'))
unfolding tolerated
tolerated_ok (ok _, d) d' h = inl (ground arith)
tolerated_ok (err already_processed, d) d' h = inr (ground arith)
tolerated_ok (err e, d) d' h = absurd (ground arith)

pub credit_deposit_ok :
    (id : ℤ) (d d' : Db)
    → credit_deposit id d ≡ (ok tt, d')
    → d' ≡ record d { deposits = credit_rows id d.deposits; faults = d'.faults }
unfolding credit_deposit
credit_deposit_ok id d d' h =
    let (_, d₁, through, rest) =
      >>=-eq-ok reach (λ _ d. (ok tt, record d { deposits = credit_rows id d.deposits })) d d' h in
    ground (arith, reach_ok d d₁ through)

-- The deposit's journal is there, and its row is of it.
credited-IsWallet :
    (k : BizKey) (id : ℤ) (d d' : Db)
    → has_journal k d.journals ≡ true
    → All (IsOf id k) d.deposits
    → credit_deposit id d ≡ (ok tt, d')
    → IsWallet d
    → IsWallet d' × (has_journal k d'.journals ≡ true)
credited-IsWallet k id d d' there of e h =
    let rest = credit_deposit_ok id d d' e in
    let js : d'.journals ≡ d.journals = ap (λ (x : Db). x.journals) rest in
    let ps : d'.deposits ≡ credit_rows id d.deposits = ap (λ (x : Db). x.deposits) rest in
    let n : d'.next_deposit_id ≡ d.next_deposit_id = ap (λ (x : Db). x.next_deposit_id) rest in
    (
      IsWallet-same d d' (ap (λ (x : Db). x.accounts) rest) (ap (λ (x : Db). x.entries) rest) js
          (ap (λ (x : Db). x.withdrawals) rest)
          (record {
            numbered =
                rw (ps, n)
                  (credit_rows-IsNumbered id d.next_deposit_id d.deposits h.deposits.numbered);
            backed =
                rw (js, ps)
                  (credit_rows-IsBacked id k d.journals d.deposits there of h.deposits.backed);
          })
          h,
      rw js there,
    )

credit_tx-IsWallet :
    (k : BizKey) (ms : List Move) (id : ℤ) (d d' : Db)
    → IsSound ms
    → All (IsOf id k) d.deposits
    → credit_tx k ms id d ≡ (ok tt, d')
    → IsWallet d
    → IsWallet d' × (has_journal k d'.journals ≡ true)
unfolding credit_tx
credit_tx-IsWallet k ms id d d' sound of e h =
    let (_, d₁, first, last) =
      >>=-eq-ok (λ d. tolerated (post_tx k ms d)) (λ _. credit_deposit id) d d' e in
    elim (tolerated_ok (post_tx k ms d) d₁ first) [
      | inl posted ↦
          let j = post_tx_ok k ms d d₁ posted in
          let ps : d₁.deposits ≡ d.deposits =
            ap (λ (x : Db). x.deposits) (Journaled-rest k ms d d₁ j) in
          credited-IsWallet k id d₁ d' (Journaled-has_journal k ms d d₁ j) (rw ps of) last
            (Journaled-IsWallet k ms d d₁ sound j h)
      | inr old ↦
          let (_, _, there, same) = post_tx_already k ms d d₁ old in
          let js : d₁.journals ≡ d.journals = ap (λ (x : Db). x.journals) same in
          let ps : d₁.deposits ≡ d.deposits = ap (λ (x : Db). x.deposits) same in
          credited-IsWallet k id d₁ d' (rw js there) (rw ps of) last (
            IsWallet-same d d₁ (ap (λ (x : Db). x.accounts) same) (ap (λ (x : Db). x.entries) same)
              js (ap (λ (x : Db). x.withdrawals) same)
              (AreDeposits-same d d₁ js ps (ap (λ (x : Db). x.next_deposit_id) same) h.deposits) h)
    ]

-- Nothing but ids that were taken is left of a transaction that was rolled back.
pub rollback-IsWallet : (d d' : Db) → d' ≡ rollback d d' → IsWallet d → IsWallet d'
rollback-IsWallet d d' same h =
    let js : d'.journals ≡ d.journals = ap (λ (x : Db). x.journals) same in
    IsWallet-same d d' (ap (λ (x : Db). x.accounts) same) (ap (λ (x : Db). x.entries) same) js
      (ap (λ (x : Db). x.withdrawals) same)
      (AreDeposits-same d d' js (ap (λ (x : Db). x.deposits) same)
        (ap (λ (x : Db). x.next_deposit_id) same) h.deposits)
      h

pub faults-IsWallet : (d d' : Db) → d' ≡ record d { faults = d'.faults } → IsWallet d → IsWallet d'
faults-IsWallet d d' same = rollback-IsWallet d d' (ground arith)

-- The transaction that credits a deposit keeps the invariant, and if it succeeds the journal is there.
pub credit-IsWallet :
    (k : BizKey) (ms : List Move) (id : ℤ) (d : Db)
    → IsSound ms
    → All (IsOf id k) d.deposits
    → IsWallet d
    → let out = with_tx (credit_tx k ms id) d in
      IsWallet out.1 × (out.0 ≡ ok tt → has_journal k out.1.journals ≡ true)
credit-IsWallet k ms id d sound of h =
    let d' = (with_tx (credit_tx k ms id) d).1 in
    elim (Result-cases (with_tx (credit_tx k ms id) d).0) [
      | inr (e, q) ↦ (
        rollback-IsWallet d d' (with_tx_err (credit_tx k ms id) d d' e (ground arith)) h,
        (λ o. absurd (ground arith)),
      )
      | inl (_, q) ↦
          let (opened, ran, closed) = with_tx_ok (credit_tx k ms id) d d' tt (ground arith) in
          let start = (reach d).1 in
          let last = (credit_tx k ms id start).1 in
          let ps : start.deposits ≡ d.deposits = ap (λ (x : Db). x.deposits) opened in
          let (kept, there) =
            credit_tx-IsWallet k ms id start last sound (rw ps of) (ground arith)
              (faults-IsWallet d start opened h) in
          let js : d'.journals ≡ last.journals = ap (λ (x : Db). x.journals) closed in
          (faults-IsWallet last d' closed kept, (λ _. rw js there))
    ]
