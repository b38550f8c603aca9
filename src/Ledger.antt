-- ===== src/Ledger.antt =====
-- Package ledger (internal/ledger/ledger.go): every change of a balance is a journal with entries,
-- posted in one database transaction. A statement of `PostTx` is an action on the tables of `Db`,
-- with the constraints that db/migrations/000001_ledger_core.up.sql declares.
pub mod Atomic
pub mod Legs
pub mod Totals
pub mod Balanced
pub mod Effect
pub mod Reconciled
pub mod Conserved
pub mod Nonneg
pub mod Unique
pub mod Currencies
pub mod Invariant
pub mod Shift
pub mod Idempotent
pub mod Succeeds
pub mod Refused
use lcex.Prelude.{
  ℕ, ◌+◌, Bool, true, false, not, ◌&&◌, ◌||◌, List, [], ◌∷◌, ◌++◌, Option, none, some, ltb, leb,
  if◌then◌else◌, length, Result, ok, err,
}
use lcex.Prelude.Int.{ℤ, pos, pos_part, neg_part, ◌+ℤ◌, ◌-ℤ◌, ltb_ℤ}
use lcex.Prelude.Word.{i64_mod, wrap64}
use lcex.Prelude.Text.{Text, text_eq}
use lcex.Db.{
  OwnerType, user, system, fee, AccountType, available, AccountRef, Direction, debit, credit,
  BizKey, Account, Entry, Db, Err, no_rows, out_of_range, foreign_key_violation, check_violation,
  balance_check, amount_check, too_few_entries, unbalanced, already_processed, insufficient_balance,
  Tx, raise_if, modify, lift, ◌>>=◌, ◌>>◌, reach,
}
use lcex.Db.Keys.{eq_ℤ}
use lcex.Db.Statements.{insert_journal, find_journal, upsert_account, update_balance, insert_entry}

-- `ledger.Move`
pub record Move : Type 0 where
  pub account : AccountRef
  pub delta : ℤ

-- `ledger.User`, `ledger.System`, `ledger.Fee`
abbrev pub user_ref : ℤ → Text → AccountType → AccountRef
user_ref owner currency kind = record {
  owner_id = owner;
  owner_type = user;
  currency = currency;
  kind = kind;
}

abbrev pub system_ref : ℤ → Text → AccountType → AccountRef
system_ref owner currency kind = record {
  owner_id = owner;
  owner_type = system;
  currency = currency;
  kind = kind;
}

abbrev pub fee_ref : ℤ → Text → AccountType → AccountRef
fee_ref owner currency kind = record {
  owner_id = owner;
  owner_type = fee;
  currency = currency;
  kind = kind;
}

-- `-v` on int64: the least value is its own negation.
unfoldable pub abs64 : ℤ → ℤ
abs64 v = if ltb_ℤ v (pos 0) then wrap64 (pos 0 -ℤ v) else v

abbrev pub is_system : OwnerType → Bool
is_system system = true
is_system _ = false

unfoldable pub direction_of : OwnerType → ℤ → Direction × ℤ
direction_of owner_type delta =
    let positive_as_debit = is_system owner_type in
    let negative = ltb_ℤ delta (pos 0) in
    if (positive_as_debit && not negative) || (not positive_as_debit && negative)
    then (debit, abs64 delta)
    else (credit, abs64 delta)

-- The totals of one currency.
pub record Tot : Type 0 where
  pub currency : Text
  pub debits : ℤ
  pub credits : ℤ

-- `t.debit += amt` or `t.credit += amt` on int64
abbrev pub add_tot : Direction → ℤ → Tot → Tot
add_tot debit amt t = record t { debits = wrap64 (t.debits +ℤ amt) }
add_tot credit amt t = record t { credits = wrap64 (t.credits +ℤ amt) }

unfoldable pub bump : Text → Direction → ℤ → List Tot → List Tot
bump cur dir amt [] =
    add_tot dir amt (record { currency = cur; debits = pos 0; credits = pos 0 }) ∷ []
bump cur dir amt (t ∷ ts) =
    if text_eq t.currency cur then add_tot dir amt t ∷ ts else t ∷ bump cur dir amt ts

unfoldable pub tots_from : List Move → List Tot → List Tot
tots_from [] ts = ts
tots_from (m ∷ ms) ts =
    let (dir, amt) = direction_of m.account.owner_type m.delta in
    tots_from ms (bump m.account.currency dir amt ts)

unfoldable pub all_equal : List Tot → Bool
all_equal [] = true
all_equal (t ∷ ts) = eq_ℤ t.debits t.credits && all_equal ts

unfoldable pub check_balanced : List Move → Result Err (Unit {0})
check_balanced moves = if all_equal (tots_from moves []) then ok tt else err unbalanced

-- A violated balance check is reported as an insufficient balance, every other error as it is.
abbrev pub translate : Err → Err
translate (check_violation balance_check) = insufficient_balance
translate e = e

abbrev pub translated : {A : Type 0} → Tx A → Tx A
translated m d = let (r, d') = m d in elim r [ ok a ↦ (ok a, d') | err e ↦ (err (translate e), d') ]

-- The second half of a round of the loop of `PostTx`: the check behind the update, and the entry.
unfoldable pub record_entry : BizKey → Move → ℤ → Tx (Unit {0})
record_entry k m balance = do
  raise_if (ltb_ℤ balance (pos 0)) insufficient_balance
  let leg = direction_of m.account.owner_type m.delta
  insert_entry (record {
    journal = k;
    account = m.account;
    direction = leg.0;
    amount = leg.1;
    currency = m.account.currency;
    balance_after = balance;
  })

-- One round of the loop of `PostTx`.
unfoldable pub post_move : BizKey → Move → Tx (Unit {0})
post_move k m = do
  upsert_account m.account
  balance ← translated (update_balance m.account m.delta)
  record_entry k m balance

unfoldable pub post_moves : BizKey → List Move → Tx (Unit {0})
post_moves k [] d = (ok tt, d)
post_moves k (m ∷ ms) d = (post_move k m >> post_moves k ms) d

-- `PostTx` behind the insertion of the journal.
unfoldable pub post_new : BizKey → List Move → Bool → Tx (Unit {0})
post_new k moves inserted = do
  raise_if (not inserted) already_processed
  find_journal k
  post_moves k moves

unfoldable pub post_tx : BizKey → List Move → Tx (Unit {0})
post_tx k moves = do
  raise_if (ltb (length moves) 2) too_few_entries
  lift (check_balanced moves)
  inserted ← insert_journal k
  post_new k moves inserted

-- An aborted transaction leaves no trace but gaps in the generated ids.
abbrev pub rollback : Db → Db → Db
rollback before after = record before {
  faults = after.faults;
  next_order_id = after.next_order_id;
  next_withdrawal_id = after.next_withdrawal_id;
}

-- COMMIT, with `defer tx.Rollback(ctx)` behind it.
unfoldable pub commit : {A : Type 0} → Db → A → Db → Result Err A × Db
commit before a d =
    let (r, d') = reach d in elim r [ ok _ ↦ (ok a, d') | err e ↦ (err e, rollback before d') ]

-- The end of a transaction that began at `before`.
unfoldable pub finish : {A : Type 0} → Db → Result Err A × Db → Result Err A × Db
finish before (ok a, d) = commit before a d
finish before (err e, d) = (err e, rollback before d)

unfoldable pub begin : {A : Type 0} → Tx A → Result Err (Unit {0}) × Db → Result Err A × Db
begin fn (err e, before) = (err e, before)
begin fn (ok _, before) = finish before (fn before)

-- `Ledger.WithTx`: BEGIN, the function, and the end of the transaction.
unfoldable pub with_tx : {A : Type 0} → Tx A → Tx A
with_tx fn d = begin fn (reach d)

-- `Ledger.Post`
unfoldable pub post : BizKey → List Move → Tx (Unit {0})
post k moves = with_tx (post_tx k moves)
