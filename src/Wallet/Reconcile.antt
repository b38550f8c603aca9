-- ===== src/Wallet/Reconcile.antt =====
-- The audit of the books by the wallet service (services/wallet/reconcile.go): `handleReconcile`, with
-- the view `v_balance_mismatch` of db/migrations/000001_ledger_core.up.sql.
pub mod Passes
use lcex.Prelude.{
  ℕ, suc, Bool, true, false, not, ◌&&◌, ◌||◌, List, [], ◌∷◌, if◌then◌else◌, Result, ok, err,
}
use lcex.Prelude.Int.{ℤ, pos}
use lcex.Prelude.Text.{codes, text_eq}
use lcex.Db.{Db, Account, Entry, BizKey, DepositRow, WithdrawalRow, reach}
use lcex.Db.Keys.{eq_ℤ}
use lcex.Db.Statements.{has_journal, in_int64}
use lcex.Ledger.Reconciled.{derived}
use lcex.Ledger.Currencies.{total_all}
use lcex.Wallet.{onchain_key, withdraw_key}

-- SELECT count(*) … WHERE
unfoldable pub count_if : {A : Type 0} → (A → Bool) → List A → ℕ
count_if p [] = 0
count_if p (x ∷ xs) = let rest = count_if p xs in if p x then suc rest else rest

-- A row of the view.
abbrev pub is_mismatch : List Entry → Account → Bool
is_mismatch es a = not (eq_ℤ a.balance (derived a.ref es))

abbrev pub is_orphan_deposit : List BizKey → DepositRow → Bool
is_orphan_deposit js p =
    text_eq p.status (codes "credited") && not (has_journal (onchain_key p.txid p.output_index) js)

abbrev pub is_orphan_withdrawal : List BizKey → WithdrawalRow → Bool
is_orphan_withdrawal js w =
    (text_eq w.status (codes "broadcasting") || text_eq w.status (codes "completed"))
    && not (has_journal (withdraw_key w.id) js)

pub record Report : Type 0 where
  pub passed : Bool
  pub mismatch_rows : ℤ
  pub assets : ℤ
  pub claims : ℤ
  pub orphan_deposits : ℤ
  pub orphan_withdrawals : ℤ

-- A query whose error is dropped, the one of a value beyond int64 too: its variable stays 0.
unfoldable pub read_value : (Db → ℤ) → Db → ℤ × Db
read_value f d =
    let (r, d') = reach d in
    elim r [ ok _ ↦ (if in_int64 (f d) then f d else pos 0, d') | err e ↦ (pos 0, d') ]

-- The queries of the sums and of the orphans, and the verdict.
unfoldable pub audit : ℤ → Db → Report × Db
audit mismatch d =
    let (assets, d₁) = read_value (λ d. total_all true d.accounts) d in
    let (claims, d₂) = read_value (λ d. total_all false d.accounts) d₁ in
    let (deposits, d₃) =
      read_value (λ d. pos (count_if (is_orphan_deposit d.journals) d.deposits)) d₂ in
    let (withdrawals, d₄) =
      read_value (λ d. pos (count_if (is_orphan_withdrawal d.journals) d.withdrawals)) d₃ in
    let passed =
      eq_ℤ mismatch (pos 0)
      && (eq_ℤ assets claims && (eq_ℤ deposits (pos 0) && eq_ℤ withdrawals (pos 0))) in
    (
      record {
        passed = passed;
        mismatch_rows = mismatch;
        assets = assets;
        claims = claims;
        orphan_deposits = deposits;
        orphan_withdrawals = withdrawals;
      },
      d₄,
    )

-- `handleReconcile`
unfoldable pub handle_reconcile : Db → Result ℕ Report × Db
handle_reconcile d =
    let (r, d') = reach d in
    elim r [
      | err e ↦ (err 10001, d')
      | ok _ ↦
          let (report, d'') = audit (pos (count_if (is_mismatch d.entries) d.accounts)) d' in
          (ok report, d'')
    ]
