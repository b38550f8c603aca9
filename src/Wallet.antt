-- ===== src/Wallet.antt =====
-- The wallet service (services/wallet/api.go): deposits on the chain, credits by an administrator, and
-- withdrawals. A reply has the code of the body; the HTTP status follows from it.
pub mod Deposits
pub mod Withdrawals
pub mod Tables
pub mod Rows
pub mod Upsert
pub mod Books
pub mod Paid
pub mod Reports
pub mod Once
pub mod Serve
pub mod Credits
pub mod Payouts
pub mod Kept
pub mod Allowed
pub mod Day
pub mod Reconcile
use lcex.Prelude.{ℕ, ◌++◌, List, [], ◌∷◌, Bool, Option}
use lcex.Prelude.Int.{ℤ, pos, ◌-ℤ◌}
use lcex.Prelude.Word.{add64, int64, wrap64}
use lcex.Prelude.Text.{Text, codes}
use lcex.Fixed.{format_int}
use lcex.Db.{BizKey, DepositRow, deposit, withdraw, available}
use lcex.Ledger.{Move, user_ref, system_ref, fee_ref}
use lcex.Chains.{Chain}

pub data Reply : Type 0 where
  failed : ℕ → Reply
  deposit_address : Text → Chain → Reply
  admin_credit : Text → Bool → Reply
  deposit_state : DepositRow → ℤ → Bool → Reply
  withdrawal : ℤ → ℕ → ℕ → Reply
  confirmation : ℤ → Text → Reply

-- The moves of a credit: the system owes what the user has.
abbrev pub credit : ℤ → Text → ℤ → List Move
credit user_id currency amt =
    record { account = system_ref (pos 0) currency available; delta = amt }
    ∷ record { account = user_ref user_id currency available; delta = amt }
    ∷ []

-- The moves of a withdrawal: amount and fee leave the user, the amount the system; the fee stays.
abbrev pub debit : ℤ → Text → ℕ → ℕ → List Move
debit user_id currency amt fee =
    let total = int64 (add64 amt fee) in
    record { account = user_ref user_id currency available; delta = wrap64 (pos 0 -ℤ total) }
    ∷ record {
      account = system_ref (pos 0) currency available;
      delta = wrap64 (pos 0 -ℤ int64 amt);
    }
    ∷ record { account = fee_ref (pos 0) currency available; delta = int64 fee }
    ∷ []

abbrev pub credit_key : Text → BizKey
credit_key biz_id = record { biz_type = deposit; biz_id = biz_id }

-- `onchain-%s-%d`
abbrev pub onchain_key : Text → ℤ → BizKey
onchain_key txid index = credit_key (codes "onchain-" ++ (txid ++ (codes "-" ++ format_int index)))

-- `wd-%d`
abbrev pub withdraw_key : ℤ → BizKey
withdraw_key id = record { biz_type = withdraw; biz_id = codes "wd-" ++ format_int id }
