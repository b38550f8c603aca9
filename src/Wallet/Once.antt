-- ===== src/Wallet/Once.antt =====
-- On `handleChainDeposit` of services/wallet/api.go: a deposit is credited at most once.
use mathlib.Core.Path.{subst}
use lcex.Prelude.{
  ◌≡◌, refl, sym, ap, ◌∙◌, ℕ, true, not, ◌&&◌, List, arith, some, Result, ok, err, Result-cases,
  Bool-cases, inl, inr,
}
use lcex.Prelude.Int.{ℤ, leb_ℤ}
use lcex.Prelude.Word.{int64}
use lcex.Prelude.Text.{codes, text_eq}
use lcex.Chains.{Chain, ChainConfig}
use lcex.Db.{Db, Err, AddressRow, DepositRow, BizKey, reach}
use lcex.Db.Statements.{has_journal}
use lcex.Db.Inversion.{>>=-eq-ok}
use lcex.Db.Wallet.{upsert_deposit, credit_deposit}
use lcex.Ledger.{Move, with_tx, post_tx}
use lcex.Ledger.Atomic.{with_tx_ok, with_tx_err}
use lcex.Ledger.Effect.{post_tx_ok}
use lcex.Ledger.Refused.{post_tx_already}
use lcex.Wallet.{Reply, failed, credit, onchain_key}
use lcex.Wallet.Deposits.{
  ChainDepositReq, deposit_row, credit_tx, credited, settle_deposit, handle_chain_deposit,
  tolerated,
}
use lcex.Wallet.Tables.{upsert_deposit_keeps}
use lcex.Wallet.Books.{IsWallet, tolerated_ok, credit_deposit_ok}
use lcex.Wallet.Reports.{
  reported, handle_chain_deposit-Holds, key_of, IsCredited, chain_deposit-Kept,
}

-- The ledger's tables are as they were.
abbrev pub SameLedger : Db → Db → Type 0
SameLedger d d' = (d'.accounts ≡ d.accounts) × (d'.entries ≡ d.entries) × (d'.journals ≡ d.journals)

credit_tx_ok :
    (k : BizKey) (ms : List Move) (id : ℤ) (d d' : Db)
    → credit_tx k ms id d ≡ (ok tt, d')
    → (middle : Db) × (tolerated (post_tx k ms d) ≡ (ok tt, middle))
      × (credit_deposit id middle ≡ (ok tt, d'))
unfolding credit_tx
credit_tx_ok k ms id d d' h =
    let (_, middle, first, second) =
      >>=-eq-ok (λ d. tolerated (post_tx k ms d)) (λ _. credit_deposit id) d d' h in
    (middle, first, second)

-- A credit whose journal is there books nothing.
credit_tx_again :
    (k : BizKey) (ms : List Move) (id : ℤ) (d : Db)
    → has_journal k d.journals ≡ true
    → SameLedger d (with_tx (credit_tx k ms id) d).1
credit_tx_again k ms id d there =
    let d' = (with_tx (credit_tx k ms id) d).1 in
    elim (Result-cases (with_tx (credit_tx k ms id) d).0) [
      | inr (e, q) ↦
          let same = with_tx_err (credit_tx k ms id) d d' e (ground arith) in
          (
            ap (λ (x : Db). x.accounts) same,
            ap (λ (x : Db). x.entries) same,
            ap (λ (x : Db). x.journals) same,
          )
      | inl (_, q) ↦
          let (opened, ran, closed) = with_tx_ok (credit_tx k ms id) d d' tt (ground arith) in
          let start = (reach d).1 in
          let last = (credit_tx k ms id start).1 in
          let (middle, first, second) = credit_tx_ok k ms id start last (ground arith) in
          let rest = credit_deposit_ok id middle last second in
          elim (tolerated_ok (post_tx k ms start) middle first) [
            | inl posted ↦
                let j = post_tx_ok k ms start middle posted in
                absurd (ground (arith, j.fresh, opened))
            | inr old ↦
                let same = (post_tx_already k ms start middle old).3 in
                (
                  ground (arith, same, rest, opened, closed),
                  ground (arith, same, rest, opened, closed),
                  ground (arith, same, rest, opened, closed),
                )
          ]
    ]

credited_db :
    (p : DepositRow) (ch : Chain) (out : Result Err (Unit {0}) × Db) → (credited p ch out).1 ≡ out.1
unfolding credited
credited_db p ch (ok _, d) = refl
credited_db p ch (err e, d) = refl

module _ (req : ChainDepositReq) (a : AddressRow) (ch : Chain) (amt : ℕ) (d : Db) where
  settled_again :
      (p : DepositRow) (d₁ : Db)
      → SameLedger d d₁
      → has_journal (key_of req) d.journals ≡ true
      → SameLedger d (settle_deposit req a ch amt (ok p, d₁)).1
  unfolding settle_deposit
  settled_again p d₁ (accounts, entries, journals) there =
      let is_credited = text_eq p.status (codes "credited") in
      let k = key_of req in
      let ms = credit a.user_id a.currency (int64 amt) in
      elim (Bool-cases (not is_credited && leb_ℤ ch.confirmations p.confirmations)) [
        | inr f ↦ rw f (accounts, entries, journals)
        | inl t ↦
            let (x, y, z) = credit_tx_again k ms p.id d₁ (rw journals there) in
            rw (t, credited_db p ch (with_tx (credit_tx k ms p.id) d₁))
              (x ∙ accounts, y ∙ entries, z ∙ journals)
      ]

  reported_again :
      has_journal (key_of req) d.journals ≡ true → SameLedger d (reported req a ch amt d).1
  unfolding settle_deposit
  reported_again there =
      let row = deposit_row req a ch amt in
      let d₁ = (upsert_deposit row d).1 in
      let rest = upsert_deposit_keeps row d in
      let same : SameLedger d d₁ = (
        ap (λ (x : Db). x.accounts) rest,
        ap (λ (x : Db). x.entries) rest,
        ap (λ (x : Db). x.journals) rest,
      ) in
      elim (Result-cases (upsert_deposit row d).0) [
        | inr (e, q) ↦
            let out : reported req a ch amt d ≡ (failed 10001, d₁) = ground arith in
            subst (λ (o : Reply × Db). SameLedger d o.1) (sym out) same
        | inl (p, q) ↦
            let out : reported req a ch amt d ≡ settle_deposit req a ch amt (ok p, d₁) =
              ground arith in
            subst (λ (o : Reply × Db). SameLedger d o.1) (sym out) (settled_again p d₁ same there)
      ]

faults-SameLedger : (d d' : Db) → d' ≡ record d { faults = d'.faults } → SameLedger d d'
faults-SameLedger d d' same = (
  ap (λ (x : Db). x.accounts) same,
  ap (λ (x : Db). x.entries) same,
  ap (λ (x : Db). x.journals) same,
)

SameLedger-trans : (d d' d'' : Db) → SameLedger d d' → SameLedger d' d'' → SameLedger d d''
SameLedger-trans d d' d'' (a, e, j) (a', e', j') = (a' ∙ a, e' ∙ e, j' ∙ j)

-- A report of an output whose journal is there books nothing.
pub chain_deposit_again :
    (cfg : ChainConfig) (req : ChainDepositReq) (d : Db)
    → has_journal (key_of req) d.journals ≡ true
    → SameLedger d (handle_chain_deposit cfg (some req) d).1
chain_deposit_again cfg req d there =
    handle_chain_deposit-Holds (λ (o : Reply × Db). SameLedger d o.1) cfg req d
      (λ code d' same. faults-SameLedger d d' same)
      (λ a ch amt d' same.
        let (x, y, z) = faults-SameLedger d d' same in
        SameLedger-trans d d' (reported req a ch amt d').1 (x, y, z)
          (reported_again req a ch amt d' (rw z there)))

-- If `handleChainDeposit` answers that a deposit is credited, in a database with its books in order and
-- where the credited deposits have their journals, the database it leaves has the journal of the output;
-- and in every database that still has the journals of that one, a further report of the output, whatever
-- its address, amount and confirmations, changes no balance, entry or journal.
pub chain_deposit_once :
    (cfg cfg' : ChainConfig) (req req' : ChainDepositReq) (d d'' : Db)
    → IsWallet d
    → IsCredited (handle_chain_deposit cfg (some req) d).0
    → req'.txid ≡ req.txid
    → req'.output_index ≡ req.output_index
    → ((k : BizKey)
        → has_journal k (handle_chain_deposit cfg (some req) d).1.journals ≡ true
        → has_journal k d''.journals ≡ true)
    → (has_journal (key_of req) (handle_chain_deposit cfg (some req) d).1.journals ≡ true)
      × SameLedger d'' (handle_chain_deposit cfg' (some req') d'').1
chain_deposit_once cfg cfg' req req' d d'' h yes_ same_txid same_index later =
    let made = (chain_deposit-Kept cfg req d h).1 yes_ in
    let there = later (key_of req) made in
    let key : key_of req' ≡ key_of req = λ i. onchain_key (same_txid i) (same_index i) in
    (made, chain_deposit_again cfg' req' d'' (rw key there))
