-- ===== src/Db/Statements.antt =====
-- The statements that `PostTx` executes (internal/ledger/ledger.go), on the tables and constraints
-- of db/migrations/000001_ledger_core.up.sql.
use lcex.Prelude.{
  Bool, true, false, not, ◌&&◌, ◌||◌, List, [], ◌∷◌, ◌++◌, Option, none, some, ltb, leb,
  if◌then◌else◌, Result, ok, err,
}
use lcex.Prelude.Int.{ℤ, pos, pos_part, neg_part, ◌+ℤ◌, ltb_ℤ}
use lcex.Prelude.Word.{i64_mod}
use lcex.Prelude.Text.{Text, text_eq}
use lcex.Db.{
  AccountRef, BizKey, Account, Entry, Err, no_rows, out_of_range, foreign_key_violation,
  check_violation, balance_check, amount_check, Tx, raise_if, modify, ◌>>◌, reach,
}
use lcex.Db.Keys.{ref_eq, biz_eq}

unfoldable pub has_text : Text → List Text → Bool
has_text c [] = false
has_text c (t ∷ ts) = text_eq t c || has_text c ts

unfoldable pub has_journal : BizKey → List BizKey → Bool
has_journal k [] = false
has_journal k (j ∷ js) = biz_eq j k || has_journal k js

unfoldable pub find_balance : AccountRef → List Account → Option ℤ
find_balance r [] = none
find_balance r (a ∷ rest) = if ref_eq a.ref r then some a.balance else find_balance r rest

unfoldable pub set_balance : AccountRef → ℤ → List Account → List Account
set_balance r v [] = []
set_balance r v (a ∷ rest) =
    if ref_eq a.ref r then record a { balance = v } ∷ rest else a ∷ set_balance r v rest

-- INSERT INTO journals … ON CONFLICT DO NOTHING; the result is `RowsAffected() != 0`.
unfoldable pub insert_journal : BizKey → Tx Bool
insert_journal k = do
  reach
  (λ d.
      if has_journal k d.journals
      then (ok false, d)
      else (ok true, record d { journals = d.journals ++ k ∷ [] }))

-- SELECT id FROM journals WHERE …
unfoldable pub find_journal : BizKey → Tx (Unit {0})
find_journal k = do reach; (λ d. raise_if (not (has_journal k d.journals)) no_rows d)

-- INSERT INTO accounts … ON CONFLICT … DO UPDATE SET updated_at; the currency is a foreign key.
unfoldable pub upsert_row : AccountRef → Tx (Unit {0})
upsert_row r d = elim (find_balance r d.accounts) [
  | some b ↦ (ok tt, d)
  | none ↦
      if has_text r.currency d.currencies
      then (ok tt, record d { accounts = d.accounts ++ record { ref = r; balance = pos 0 } ∷ [] })
      else (err foreign_key_violation, d)
]

unfoldable pub upsert_account : AccountRef → Tx (Unit {0})
upsert_account r = do reach; upsert_row r

abbrev pub in_int64 : ℤ → Bool
in_int64 z = ltb (pos_part z) i64_mod && leb (neg_part z) i64_mod

-- What `balance + $1` stores: BIGINT, CHECK (balance >= 0).
abbrev pub checked_balance : ℤ → Result Err ℤ
checked_balance b =
    if not (in_int64 b)
    then err out_of_range
    else if ltb_ℤ b (pos 0)
    then err (check_violation balance_check)
    else ok b

-- UPDATE accounts SET balance = balance + $1 … RETURNING balance
unfoldable pub update_row : AccountRef → ℤ → Tx ℤ
update_row r delta d = elim (find_balance r d.accounts) [
  | none ↦ (err no_rows, d)
  | some b ↦ elim (checked_balance (b +ℤ delta)) [
    | err e ↦ (err e, d)
    | ok b' ↦ (ok b', record d { accounts = set_balance r b' d.accounts })
  ]
]

unfoldable pub update_balance : AccountRef → ℤ → Tx ℤ
update_balance r delta = do reach; update_row r delta

-- INSERT INTO ledger_entries …, CHECK (amount > 0)
unfoldable pub insert_entry : Entry → Tx (Unit {0})
insert_entry e = do
  reach
  raise_if (not (ltb_ℤ (pos 0) e.amount)) (check_violation amount_check)
  modify (λ d. record d { entries = d.entries ++ e ∷ [] })
