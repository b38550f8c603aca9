-- ===== src/Wallet/Reconcile/Passes.antt =====
-- On `handleReconcile` of services/wallet/reconcile.go: books that the wallet keeps pass.
use lcex.Prelude.{◌≡◌, refl, sym, Bool, true, false, List, [], ◌∷◌, All, arith, if◌then◌else◌, ok}
use lcex.Prelude.Int.{ℤ, pos}
use lcex.Db.{Db, Account, Entry, BizKey, DepositRow, WithdrawalRow}
use lcex.Db.Keys.{eq_ℤ, eq_ℤ_iff}
use lcex.Db.Store.{balance_of}
use lcex.Db.Statements.{in_int64}
use lcex.Ledger.Reconciled.{derived}
use lcex.Ledger.Currencies.{total_all, total_all_lem}
use lcex.Ledger.Unique.{IsFound, AreUnique-IsFound}
use lcex.Ledger.Atomic.{reach_healthy}
use lcex.Prelude.Text.{Text}
use lcex.Chains.{ChainConfig}
use lcex.Wallet.Serve.{Request, serve_all}
use lcex.Wallet.Kept.{IsSmallRequest, serve_all-IsWallet}
use lcex.Wallet.Rows.{IsBacked}
use lcex.Wallet.Books.{IsWallet, IsPaid}
use lcex.Wallet.Reconcile.{
  count_if, is_mismatch, is_orphan_deposit, is_orphan_withdrawal, Report, read_value, audit,
  handle_reconcile,
}

count_if_none :
    {A : Type 0} → (p : A → Bool) (xs : List A) → All (λ x. p x ≡ false) xs → count_if p xs ≡ 0
unfolding count_if
count_if_none p [] h = refl
count_if_none p (x ∷ xs) h = rw h.0 (count_if_none p xs h.1)

no_mismatch :
    (rows as_ : List Account) (es : List Entry)
    → ((a : Account) → balance_of a.ref rows ≡ derived a.ref es)
    → All (IsFound rows) as_
    → All (λ a. is_mismatch es a ≡ false) as_
no_mismatch rows [] es h f = tt
no_mismatch rows (a ∷ as_) es h f =
    (ground (arith, f.0, h a, eq_ℤ_iff a.balance (derived a.ref es)), no_mismatch rows as_ es h f.1)

no_orphan_deposit :
    (js : List BizKey) (ps : List DepositRow)
    → All (IsBacked js) ps
    → All (λ p. is_orphan_deposit js p ≡ false) ps
no_orphan_deposit js [] h = tt
no_orphan_deposit js (p ∷ ps) h = (ground (arith, h.0), no_orphan_deposit js ps h.1)

no_orphan_withdrawal :
    (js : List BizKey) (ws : List WithdrawalRow)
    → All (IsPaid js) ws
    → All (λ w. is_orphan_withdrawal js w ≡ false) ws
no_orphan_withdrawal js [] h = tt
no_orphan_withdrawal js (w ∷ ws) h = (ground (arith, h.0), no_orphan_withdrawal js ws h.1)

-- What the queries of a sum give.
abbrev pub sum_read : Bool → Db → ℤ
sum_read side d = if in_int64 (total_all side d.accounts) then total_all side d.accounts else pos 0

healthy_read :
    (f : Db → ℤ) (d : Db)
    → d.faults ≡ []
    → read_value f d ≡ (if in_int64 (f d) then f d else pos 0, d)
unfolding read_value
healthy_read f d h = ground (arith, reach_healthy d h)

abbrev passed_with : ℤ → Report
passed_with sum = record {
  passed = true;
  mismatch_rows = pos 0;
  assets = sum;
  claims = sum;
  orphan_deposits = pos 0;
  orphan_withdrawals = pos 0;
}

audit_passes :
    (d : Db) → IsWallet d → d.faults ≡ [] → audit (pos 0) d ≡ (passed_with (sum_read true d), d)
unfolding audit
audit_passes d w h =
    let deposits =
      count_if_none (is_orphan_deposit d.journals) d.deposits
        (no_orphan_deposit d.journals d.deposits w.deposits.backed) in
    let withdrawals =
      count_if_none (is_orphan_withdrawal d.journals) d.withdrawals
        (no_orphan_withdrawal d.journals d.withdrawals w.paid) in
    let sums = total_all_lem d.accounts w.ledger.solvent in
    let sum = sum_read true d in
    let equal : eq_ℤ sum sum ≡ true = (eq_ℤ_iff sum sum).1 refl in
    rw
      (
        healthy_read (λ d. total_all true d.accounts) d h,
        healthy_read (λ d. total_all false d.accounts) d h,
        healthy_read (λ d. pos (count_if (is_orphan_deposit d.journals) d.deposits)) d h,
        healthy_read (λ d. pos (count_if (is_orphan_withdrawal d.journals) d.withdrawals)) d h,
        deposits,
        withdrawals,
        sym sums,
        equal,
      )
      refl

reconcile_lem :
    (d : Db)
    → IsWallet d
    → d.faults ≡ []
    → handle_reconcile d ≡ (ok (passed_with (sum_read true d)), d)
unfolding handle_reconcile
reconcile_lem d w h =
    let found = AreUnique-IsFound d.accounts w.ledger.unique in
    let none_ =
      count_if_none (is_mismatch d.entries) d.accounts
        (no_mismatch d.accounts d.accounts d.entries (λ a. w.ledger.reconciled a.ref) found) in
    ground (arith, reach_healthy d h, none_, audit_passes d w h)

-- From a database whose books are in order (balances reconciled with the entries, none negative, assets
-- equal to claims, one row for each account), whose credited deposits and whose withdrawals have their
-- journals and whose deposits have different ids: whatever requests the wallet service is then given, in
-- whatever order and how often, whatever the risk service answers and whichever statement fails, if the
-- amount and the fee of every withdrawal add up to less than 2 ^ 63, `handleReconcile` on a healthy connection changes nothing and reports that the books
-- are in order, with no mismatch, no orphan, and assets equal to claims, which are the sum of the system's
-- balances, or 0 if that is no int64.
pub reconcile_passes :
    (derive : ℤ → Text → Text → Text) (cfg : ChainConfig) (rs : List Request) (d : Db)
    → All (IsSmallRequest cfg) rs
    → IsWallet d
    → let d' = serve_all derive cfg rs d in
      d'.faults ≡ []
      → handle_reconcile d' ≡ (
        ok record {
          passed = true;
          mismatch_rows = pos 0;
          assets = sum_read true d';
          claims = sum_read true d';
          orphan_deposits = pos 0;
          orphan_withdrawals = pos 0;
        },
        d',
      )
reconcile_passes derive cfg rs d small w h =
    reconcile_lem (serve_all derive cfg rs d) (serve_all-IsWallet derive cfg rs d small w) h
