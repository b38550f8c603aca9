-- ===== src/Wallet/Reports.antt =====
-- On `handleChainDeposit` of services/wallet/api.go: a report of a deposit, and what it does to the books.
use mathlib.Core.Path.{subst}
use lcex.Prelude.{
  ◌≡◌, refl, sym, ap, ℕ, true, not, ◌&&◌, ◌||◌, arith, Option, none, some, ltb, Result, ok, err,
  Result-cases, Option-cases, Bool-cases, inl, inr,
}
use lcex.Prelude.Int.{leb_ℤ}
use lcex.Prelude.Word.{int64}
use lcex.Prelude.Text.{codes, text_eq}
use lcex.Fixed.{parse, is_empty}
use lcex.Chains.{Chain, ChainConfig, find_chain}
use lcex.Db.{Db, Err, AddressRow, DepositRow, BizKey, no_rows}
use lcex.Db.Statements.{has_journal}
use lcex.Db.Wallet.{select_owner, upsert_deposit}
use lcex.Ledger.{with_tx}
use lcex.Wallet.{Reply, failed, deposit_state, credit, onchain_key}
use lcex.Wallet.Deposits.{
  ChainDepositReq, positive, deposit_row, credit_tx, credited, settle_deposit, deposit_to,
  deposit_found, handle_chain_deposit,
}
use lcex.Wallet.Tables.{select_owner_keeps, upsert_deposit_keeps}
use lcex.Wallet.Upsert.{AreDeposits, IsRow, upsert_deposit-IsRow, upsert_deposit_err-AreDeposits}
use lcex.Wallet.Books.{IsWallet, IsWallet-same, faults-IsWallet, credit-IsSound, credit-IsWallet}

-- The report of an output, if it gets as far as its row.
abbrev pub reported : ChainDepositReq → AddressRow → Chain → ℕ → Db → Reply × Db
reported req a ch amt d = settle_deposit req a ch amt (upsert_deposit (deposit_row req a ch amt) d)

module _ (Holds : Reply × Db → Type 0) (cfg : ChainConfig) (req : ChainDepositReq) (d : Db)
    (refused : (code : ℕ) (d' : Db)
      → d' ≡ record d { faults = d'.faults }
      → Holds (failed code, d'))
    (taken : (a : AddressRow) (ch : Chain) (amt : ℕ) (d' : Db)
      → d' ≡ record d { faults = d'.faults }
      → Holds (reported req a ch amt d')) where
  deposit_to-Holds :
      (amt : ℕ) (a : AddressRow) (d' : Db)
      → d' ≡ record d { faults = d'.faults }
      → Holds (deposit_to cfg req amt a d')
  unfolding deposit_to
  deposit_to-Holds amt a d' same = elim (Result-cases (find_chain cfg a.currency a.network)) [
    | inr (e, q) ↦
        let out : deposit_to cfg req amt a d' ≡ (failed 60003, d') = ground arith in
        subst Holds (sym out) (refused 60003 d' same)
    | inl (ch, q) ↦ elim (Bool-cases (ltb amt ch.min_deposit)) [
      | inl t ↦
          let out : deposit_to cfg req amt a d' ≡ (failed 10003, d') = ground arith in
          subst Holds (sym out) (refused 10003 d' same)
      | inr f ↦
          let out : deposit_to cfg req amt a d' ≡ reported req a ch amt d' = ground arith in
          subst Holds (sym out) (taken a ch amt d' same)
    ]
  ]

  deposit_found-Holds :
      (amt : ℕ) (r : Result Err AddressRow) (d' : Db)
      → d' ≡ record d { faults = d'.faults }
      → Holds (deposit_found cfg req amt (r, d'))
  unfolding deposit_found
  deposit_found-Holds amt (ok a) d' same = deposit_to-Holds amt a d' same
  deposit_found-Holds amt (err no_rows) d' same = refused 10003 d' same
  deposit_found-Holds amt (err e) d' same = refused 10001 d' same

  -- What holds of a refusal that changes no table and of a report that gets as far as its row holds of
  -- `handleChainDeposit`.
  pub handle_chain_deposit-Holds : Holds (handle_chain_deposit cfg (some req) d)
  unfolding handle_chain_deposit
  handle_chain_deposit-Holds = elim (Bool-cases (is_empty req.address || is_empty req.txid)) [
    | inl t ↦ rw t (refused 10003 d (ground arith))
    | inr f ↦ elim (Option-cases (positive (parse req.amount))) [
      | inl e ↦ rw (f, e) (refused 10003 d (ground arith))
      | inr (amt, e) ↦
          rw (f, e)
            (deposit_found-Holds amt (select_owner req.address d).0 (select_owner req.address d).1
              (select_owner_keeps req.address d))
    ]
  ]

abbrev pub key_of : ChainDepositReq → BizKey
key_of req = onchain_key req.txid req.output_index

-- A reply that says that the deposit is credited.
abbrev pub IsCredited : Reply → Type 0
IsCredited (deposit_state p n credited) = credited ≡ true
IsCredited _ = ⊥

credited-IsWallet_reply :
    (p : DepositRow) (ch : Chain) (k : BizKey) (r : Result Err (Unit {0})) (d : Db)
    → IsWallet d
    → (r ≡ ok tt → has_journal k d.journals ≡ true)
    → IsWallet (credited p ch (r, d)).1
      × (IsCredited (credited p ch (r, d)).0
          → has_journal k (credited p ch (r, d)).1.journals ≡ true)
unfolding credited
credited-IsWallet_reply p ch k (ok _) d h there = (h, (λ _. there refl))
credited-IsWallet_reply p ch k (err e) d h there = (h, (λ x. absurd x))

module _ (req : ChainDepositReq) (a : AddressRow) (ch : Chain) (amt : ℕ) (d : Db) where
  abbrev Kept : Reply × Db → Type 0
  Kept out = IsWallet out.1 × (IsCredited out.0 → has_journal (key_of req) out.1.journals ≡ true)

  upserted-IsWallet :
      AreDeposits (upsert_deposit (deposit_row req a ch amt) d).1
      → IsWallet d
      → IsWallet (upsert_deposit (deposit_row req a ch amt) d).1
  upserted-IsWallet are h =
      let rest = upsert_deposit_keeps (deposit_row req a ch amt) d in
      IsWallet-same d (upsert_deposit (deposit_row req a ch amt) d).1
        (ap (λ (x : Db). x.accounts) rest) (ap (λ (x : Db). x.entries) rest)
        (ap (λ (x : Db). x.journals) rest) (ap (λ (x : Db). x.withdrawals) rest) are h

  settled-Kept :
      (p : DepositRow) (d₁ : Db)
      → IsRow (key_of req) p d₁
      → IsWallet d₁
      → Kept (settle_deposit req a ch amt (ok p, d₁))
  unfolding settle_deposit
  settled-Kept p d₁ row h =
      let is_credited = text_eq p.status (codes "credited") in
      let k = key_of req in
      let ms = credit a.user_id a.currency (int64 amt) in
      elim (Bool-cases (not is_credited && leb_ℤ ch.confirmations p.confirmations)) [
        | inr f ↦ rw f (h, row.backed)
        | inl t ↦
            let out = with_tx (credit_tx k ms p.id) d₁ in
            let (kept, there) =
              credit-IsWallet k ms p.id d₁ (credit-IsSound a.user_id a.currency amt) row.of h in
            rw t (credited-IsWallet_reply p ch k out.0 out.1 kept there)
      ]

  reported-Kept : IsWallet d → Kept (reported req a ch amt d)
  unfolding settle_deposit text_eq
  reported-Kept h =
      let row = deposit_row req a ch amt in
      let d₁ = (upsert_deposit row d).1 in
      elim (Result-cases (upsert_deposit row d).0) [
        | inr (e, q) ↦
            let are = upsert_deposit_err-AreDeposits row e d d₁ (ground arith) h.deposits in
            let out : reported req a ch amt d ≡ (failed 10001, d₁) = ground arith in
            subst Kept (sym out) (upserted-IsWallet are h, (λ x. absurd x))
        | inl (p, q) ↦
            let is_row = upsert_deposit-IsRow row p d d₁ refl (ground arith) h.deposits in
            let out : reported req a ch amt d ≡ settle_deposit req a ch amt (ok p, d₁) =
              ground arith in
            subst Kept (sym out) (settled-Kept p d₁ is_row (upserted-IsWallet is_row.deposits h))
      ]

pub chain_deposit-Kept :
    (cfg : ChainConfig) (req : ChainDepositReq) (d : Db)
    → IsWallet d
    → let out = handle_chain_deposit cfg (some req) d in
      IsWallet out.1 × (IsCredited out.0 → has_journal (key_of req) out.1.journals ≡ true)
chain_deposit-Kept cfg req d h =
    handle_chain_deposit-Holds
      (λ (o : Reply × Db).
        IsWallet o.1 × (IsCredited o.0 → has_journal (key_of req) o.1.journals ≡ true))
      cfg req d (λ code d' same. (faults-IsWallet d d' same h, (λ x. absurd x)))
      (λ a ch amt d' same. reported-Kept req a ch amt d' (faults-IsWallet d d' same h))

pub chain_deposit-IsWallet :
    (cfg : ChainConfig) (body : Option ChainDepositReq) (d : Db)
    → IsWallet d
    → IsWallet (handle_chain_deposit cfg body d).1
unfolding handle_chain_deposit
chain_deposit-IsWallet cfg none d h = h
chain_deposit-IsWallet cfg (some req) d h = (chain_deposit-Kept cfg req d h).0
