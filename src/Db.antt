-- ===== src/Db.antt =====
-- The tables that the services share (db/migrations/*.up.sql), the errors that a statement or a
-- service returns, and database actions. The generated ids of accounts and journals are only join
-- keys, so rows refer to one another by the unique keys that the migrations declare. Which
-- statements fail for a reason outside the data (the connection, the server) is part of the state:
-- `faults` lists the outcomes to come, `true` for a failure, and a statement beyond its end succeeds.
pub mod Keys
pub mod Statements
pub mod Store
pub mod Inversion
pub mod Orders
pub mod Wallet
use lcex.Prelude.{ℕ, Bool, true, false, List, [], ◌∷◌, Option, Result, ok, err}
use lcex.Prelude.Int.{ℤ}
use lcex.Prelude.Text.{Text}
use lcex.Fixed.{FixedErr}

-- The values that the CHECK constraint of `accounts.owner_type` admits.
pub data OwnerType : Type 0 where
  user market_maker system fee equity : OwnerType

-- `accounts.type`
pub data AccountType : Type 0 where
  available frozen : AccountType

-- `ledger.AccountRef`, and the unique key of `accounts`
pub record AccountRef : Type 0 where
  pub owner_id : ℤ
  pub owner_type : OwnerType
  pub currency : Text
  pub kind : AccountType

pub data Direction : Type 0 where
  debit credit : Direction

-- `journals.biz_type`
pub data BizType : Type 0 where
  order_freeze order_unfreeze trade fee deposit withdraw adjust : BizType

-- The unique key of `journals`.
pub record BizKey : Type 0 where
  pub biz_type : BizType
  pub biz_id : Text

pub record Account : Type 0 where
  pub ref : AccountRef
  pub balance : ℤ

-- A row of `ledger_entries`.
pub record Entry : Type 0 where
  pub journal : BizKey
  pub account : AccountRef
  pub direction : Direction
  pub amount : ℤ
  pub currency : Text
  pub balance_after : ℤ

-- A row of `orders`; the columns that no service reads again stand behind the others.
pub record OrderRow : Type 0 where
  pub order_id : ℤ
  pub user_id : ℤ
  pub symbol : Text
  pub client_order_id : Text
  pub side : Text
  pub price : Option ℤ
  pub qty : ℤ
  pub filled_qty : ℤ
  pub reserved : ℤ
  pub status : Text
  pub order_type : Text
  pub tif : Text
  pub stp : Text
  pub post_only : Bool

-- A row of `deposit_addresses`.
pub record AddressRow : Type 0 where
  pub user_id : ℤ
  pub currency : Text
  pub network : Text
  pub address : Text

-- A row of `deposits`.
pub record DepositRow : Type 0 where
  pub id : ℤ
  pub user_id : ℤ
  pub currency : Text
  pub network : Text
  pub address : Text
  pub amount : ℤ
  pub txid : Text
  pub output_index : ℤ
  pub confirmations : ℤ
  pub required_conf : ℤ
  pub status : Text

-- A row of `withdrawals`; `created_at` is a number of seconds since 1970.
pub record WithdrawalRow : Type 0 where
  pub id : ℤ
  pub user_id : ℤ
  pub currency : Text
  pub network : Text
  pub address : Text
  pub amount : ℤ
  pub fee : ℤ
  pub client_order_id : Text
  pub txid : Option Text
  pub status : Text
  pub created_at : ℕ

pub record Db : Type 0 where
  pub currencies : List Text
  pub accounts : List Account
  pub journals : List BizKey
  pub entries : List Entry
  pub orders : List OrderRow
  pub next_order_id : ℤ
  pub addresses : List AddressRow
  pub deposits : List DepositRow
  pub next_deposit_id : ℤ
  pub withdrawals : List WithdrawalRow
  pub next_withdrawal_id : ℤ
  pub faults : List Bool

-- The CHECK constraints that a statement of the services can meet.
pub data Check : Type 0 where
  balance_check amount_check side_check order_type_check tif_check stp_check status_check : Check
  deposit_check withdrawal_check fee_check : Check

-- What a statement or a service returns as its error.
pub data Err : Type 0 where
  driver no_rows out_of_range foreign_key_violation unique_violation : Err
  check_violation : Check → Err
  too_few_entries unbalanced already_processed insufficient_balance : Err
  poison unknown_market order_not_found : Err
  amount_err : FixedErr → Err

-- An action on the database; what was written before an error is still there.
abbrev pub Tx : Type 0 → Type 0
Tx A = Db → Result Err A × Db

abbrev pub pure : {A : Type 0} → A → Tx A
pure a d = (ok a, d)

abbrev pub raise : {A : Type 0} → Err → Tx A
raise e d = (err e, d)

abbrev pub gets : {A : Type 0} → (Db → A) → Tx A
gets f d = (ok (f d), d)

abbrev pub modify : (Db → Db) → Tx (Unit {0})
modify f d = (ok tt, f d)

infixl 5 ◌>>=◌ ◌>>◌
abbrev pub ◌>>=◌ : {A B : Type 0} → Tx A → (A → Tx B) → Tx B
◌>>=◌ m f d = let (r, d') = m d in elim r [ ok a ↦ f a d' | err e ↦ (err e, d') ]

abbrev pub ◌>>◌ : {A B : Type 0} → Tx A → Tx B → Tx B
m >> k = m >>= λ _. k

-- `if bad { return err }`
abbrev pub raise_if : Bool → Err → Tx (Unit {0})
raise_if true e d = (err e, d)
raise_if false e d = (ok tt, d)

-- A pure computation that can fail.
abbrev pub lift : {A : Type 0} → Result Err A → Tx A
lift r d = (r, d)

-- The driver's part of every statement.
pub next_fault : List Bool → Bool × List Bool
next_fault [] = (false, [])
next_fault (f ∷ fs) = (f, fs)

unfoldable pub reach : Tx (Unit {0})
unfolding next_fault
reach d =
    let (failed, rest) = next_fault d.faults in raise_if failed driver (record d { faults = rest })
