-- ===== src/Wallet/Credits.antt =====
-- On `handleDepositAddress` and `handleAdminCredit` of services/wallet/api.go: they keep the books.
use mathlib.Core.Path.{subst}
use lcex.Prelude.{
  ◌≡◌, refl, sym, ap, ◌∙◌, ℕ, Bool, ◌||◌, arith, Option, none, some, Result, ok, err, Result-cases,
  Option-cases, Bool-cases, inl, inr,
}
use lcex.Prelude.Int.{ℤ, pos, leb_ℤ}
use lcex.Prelude.Word.{int64}
use lcex.Prelude.Text.{Text}
use lcex.Fixed.{parse, is_empty}
use lcex.Chains.{Chain, ChainConfig, find_chain}
use lcex.Request.{parse_user_id}
use lcex.Db.{Db, Err, already_processed, AddressRow, BizKey}
use lcex.Db.Wallet.{insert_address, select_address}
use lcex.Ledger.{post}
use lcex.Ledger.Invariant.{post_ok, post_err}
use lcex.Wallet.{credit, credit_key}
use lcex.Wallet.Deposits.{
  allocate, allocated, handle_deposit_address, positive, AdminCreditReq, replayed, credit_user,
  credit_reply, handle_admin_credit,
}
use lcex.Wallet.Tables.{insert_address_keeps, select_address_keeps}
use lcex.Wallet.Books.{
  IsWallet, IsWallet-same, AreDeposits-same, faults-IsWallet, rollback-IsWallet, Journaled-IsWallet,
  credit-IsSound,
}

-- The tables of the wallet but for the addresses.
addresses-IsWallet :
    (d d' : Db)
    → d' ≡ record d { addresses = d'.addresses; faults = d'.faults }
    → IsWallet d
    → IsWallet d'
addresses-IsWallet d d' same h =
    let js : d'.journals ≡ d.journals = ap (λ (x : Db). x.journals) same in
    IsWallet-same d d' (ap (λ (x : Db). x.accounts) same) (ap (λ (x : Db). x.entries) same) js
      (ap (λ (x : Db). x.withdrawals) same)
      (AreDeposits-same d d' js (ap (λ (x : Db). x.deposits) same)
        (ap (λ (x : Db). x.next_deposit_id) same) h.deposits)
      h

allocate-IsWallet : (a : AddressRow) (d : Db) → IsWallet d → IsWallet (allocate a d).1
unfolding allocate
allocate-IsWallet a d h =
    let d₁ = (insert_address a d).1 in
    let kept = addresses-IsWallet d d₁ (insert_address_keeps a d) h in
    let last =
      faults-IsWallet d₁ (select_address a.user_id a.currency a.network d₁).1
        (select_address_keeps a.user_id a.currency a.network d₁) kept in
    elim (Result-cases (insert_address a d).0) [
      | inl (_, q) ↦
          let out : (allocate a d).1 ≡ (select_address a.user_id a.currency a.network d₁).1 =
            ground arith in
          subst IsWallet (sym out) last
      | inr (e, q) ↦ let out : (allocate a d).1 ≡ d₁ = ground arith in subst IsWallet (sym out) kept
    ]

allocated_db : (ch : Chain) (r : Result Err AddressRow) (d : Db) → (allocated ch (r, d)).1 ≡ d
unfolding allocated
allocated_db ch (ok a) d = refl
allocated_db ch (err e) d = refl

pub ask_address-IsWallet :
    (derive : ℤ → Text → Text → Text) (cfg : ChainConfig) (header currency network : Text) (d : Db)
    → IsWallet d
    → IsWallet (handle_deposit_address derive cfg header currency network d).1
unfolding handle_deposit_address
ask_address-IsWallet derive cfg header currency network d h =
    elim (Option-cases (parse_user_id header)) [
      | inl e ↦ ground arith
      | inr (u, e) ↦ elim (Result-cases (find_chain cfg currency network)) [
        | inr (x, q) ↦ ground arith
        | inl (ch, q) ↦
            let a : AddressRow = record {
              user_id = u;
              currency = currency;
              network = network;
              address = derive u currency network;
            } in
            ground
              (arith, allocated_db ch (allocate a d).0 (allocate a d).1, allocate-IsWallet a d h)
      ]
    ]

replayed_db : (r : Result Err (Unit {0})) (d : Db) → (replayed (r, d)).1 ≡ d
unfolding replayed
replayed_db (ok _) d = refl
replayed_db (err already_processed) d = refl
replayed_db (err e) d = ground arith

credit_reply_db : (b : Text) (r : Result Err Bool) (d : Db) → (credit_reply b (r, d)).1 ≡ d
unfolding credit_reply
credit_reply_db b (ok again) d = refl
credit_reply_db b (err e) d = refl

post-credit-IsWallet :
    (k : BizKey) (user_id : ℤ) (currency : Text) (amt : ℕ) (d : Db)
    → IsWallet d
    → IsWallet (post k (credit user_id currency (int64 amt)) d).1
post-credit-IsWallet k user_id currency amt d h =
    let ms = credit user_id currency (int64 amt) in
    let d' = (post k ms d).1 in
    elim (Result-cases (post k ms d).0) [
      | inr (e, q) ↦ rollback-IsWallet d d' (post_err k ms d d' e (ground arith)) h
      | inl (_, q) ↦
          let (start, end_, opened, j, closed) = post_ok k ms d d' (ground arith) in
          faults-IsWallet end_ d' closed (
            Journaled-IsWallet k ms start end_ (credit-IsSound user_id currency amt) j
              (faults-IsWallet d start opened h))
    ]

pub credit_admin-IsWallet :
    (body : Option AdminCreditReq) (d : Db) → IsWallet d → IsWallet (handle_admin_credit body d).1
unfolding handle_admin_credit credit_user
credit_admin-IsWallet none d h = h
credit_admin-IsWallet (some req) d h =
    elim (Bool-cases
      (leb_ℤ req.user_id (pos 0) || (is_empty req.currency || is_empty req.biz_id))) [
        | inl t ↦ rw t h
        | inr f ↦ elim (Option-cases (positive (parse req.amount))) [
          | inl e ↦ rw (f, e) h
          | inr (amt, e) ↦
              let out =
                post (credit_key req.biz_id) (credit req.user_id req.currency (int64 amt)) d in
              let again = replayed out in
              let same : (credit_reply req.biz_id again).1 ≡ out.1 =
                credit_reply_db req.biz_id again.0 again.1 ∙ replayed_db out.0 out.1 in
              rw (f, e)
                (subst IsWallet (sym same)
                  (post-credit-IsWallet (credit_key req.biz_id) req.user_id req.currency amt d h))
        ]
      ]
