-- ===== src/Wallet/Tables.antt =====
-- On the statements of the wallet service: which tables a statement changes, whatever it returns.
use lcex.Prelude.{◌≡◌, refl, ◌&&◌, arith, Result-cases, Option-cases, Bool-cases, inl, inr}
use lcex.Prelude.Int.{ℤ, pos, ltb_ℤ}
use lcex.Prelude.Text.{Text}
use lcex.Db.{Db, AddressRow, DepositRow, reach}
use lcex.Db.Statements.{has_text}
use lcex.Db.Wallet.{
  add_address, insert_address, select_address, select_owner, in_int32, put_deposit, upsert_deposit,
  find_deposit, credit_deposit, complete_withdrawal,
}
use lcex.Ledger.Atomic.{reach_keeps}

add_address_keeps :
    (a : AddressRow) (d : Db)
    → (add_address a d).1 ≡ record d { addresses = (add_address a d).1.addresses }
unfolding add_address
add_address_keeps a d = ground arith

pub insert_address_keeps :
    (a : AddressRow) (d : Db)
    → let d' = (insert_address a d).1 in
      d' ≡ record d { addresses = d'.addresses; faults = d'.faults }
unfolding insert_address
insert_address_keeps a d = elim (Result-cases (reach d).0) [
  | inl (_, e) ↦ ground (arith, reach_keeps d, add_address_keeps a (reach d).1)
  | inr (x, e) ↦ ground (arith, reach_keeps d)
]

pub select_address_keeps :
    (user_id : ℤ) (currency network : Text) (d : Db)
    → let d' = (select_address user_id currency network d).1 in d' ≡ record d { faults = d'.faults }
unfolding select_address
select_address_keeps user_id currency network d = elim (Result-cases (reach d).0) [
  | inl (_, e) ↦ ground (arith, reach_keeps d)
  | inr (x, e) ↦ ground (arith, reach_keeps d)
]

pub select_owner_keeps :
    (address : Text) (d : Db)
    → let d' = (select_owner address d).1 in d' ≡ record d { faults = d'.faults }
unfolding select_owner
select_owner_keeps address d = elim (Result-cases (reach d).0) [
  | inl (_, e) ↦ ground (arith, reach_keeps d)
  | inr (x, e) ↦ ground (arith, reach_keeps d)
]

put_deposit_keeps :
    (p : DepositRow) (d : Db)
    → let d' = (put_deposit p d).1 in
      d' ≡ record d { deposits = d'.deposits; next_deposit_id = d'.next_deposit_id }
unfolding put_deposit
put_deposit_keeps p d = elim (Bool-cases (ltb_ℤ (pos 0) p.amount)) [
  | inr f ↦ rw f refl
  | inl t ↦ elim (Option-cases (find_deposit p.txid p.output_index d.deposits)) [
    | inr (q, e) ↦ rw (t, e) refl
    | inl e ↦ elim (Bool-cases (has_text p.currency d.currencies)) [
      | inl k ↦ rw (t, e, k) refl
      | inr k ↦ rw (t, e, k) refl
    ]
  ]
]

pub upsert_deposit_keeps :
    (p : DepositRow) (d : Db)
    → let d' = (upsert_deposit p d).1 in
      d' ≡ record d {
        deposits = d'.deposits;
        next_deposit_id = d'.next_deposit_id;
        faults = d'.faults;
      }
unfolding upsert_deposit
upsert_deposit_keeps p d =
    elim (Bool-cases
      (in_int32 p.output_index && (in_int32 p.confirmations && in_int32 p.required_conf))) [
        | inr f ↦ rw f refl
        | inl t ↦ rw t (elim (Result-cases (reach d).0) [
          | inl (_, e) ↦ ground (arith, reach_keeps d, put_deposit_keeps p (reach d).1)
          | inr (x, e) ↦ ground (arith, reach_keeps d)
        ])
      ]

pub credit_deposit_keeps :
    (id : ℤ) (d : Db)
    → let d' = (credit_deposit id d).1 in
      d' ≡ record d { deposits = d'.deposits; faults = d'.faults }
unfolding credit_deposit
credit_deposit_keeps id d = elim (Result-cases (reach d).0) [
  | inl (_, e) ↦ ground (arith, reach_keeps d)
  | inr (x, e) ↦ ground (arith, reach_keeps d)
]

pub complete_withdrawal_keeps :
    (id : ℤ) (txid : Text) (d : Db)
    → let d' = (complete_withdrawal id txid d).1 in
      d' ≡ record d { withdrawals = d'.withdrawals; faults = d'.faults }
unfolding complete_withdrawal
complete_withdrawal_keeps id txid d = elim (Result-cases (reach d).0) [
  | inl (_, e) ↦ ground (arith, reach_keeps d)
  | inr (x, e) ↦ ground (arith, reach_keeps d)
]
