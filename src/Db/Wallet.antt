-- ===== src/Db/Wallet.antt =====
-- The statements of the wallet service (services/wallet/api.go) on the tables `deposit_addresses`,
-- `deposits` and `withdrawals` (db/migrations/000003_wallet.up.sql), and the sum that the risk service
-- (services/risk/main.go) reads.
use lcex.Prelude.{
  ℕ, Bool, true, false, not, ◌&&◌, ◌||◌, ◌++◌, List, [], ◌∷◌, Option, none, some, ltb, leb,
  if◌then◌else◌, ok, err,
}
use lcex.Prelude.Int.{ℤ, pos, pos_part, neg_part, ◌+ℤ◌, ltb_ℤ}
use lcex.Prelude.Text.{Text, codes, text_eq}
use lcex.Db.{
  AddressRow, DepositRow, WithdrawalRow, no_rows, out_of_range, foreign_key_violation,
  unique_violation, check_violation, deposit_check, withdrawal_check, fee_check, Tx, reach,
  raise_if, ◌>>◌,
}
use lcex.Db.Keys.{eq_ℤ}
use lcex.Db.Statements.{has_text}

-- The address of a user for a currency on a network.
unfoldable pub find_address : ℤ → Text → Text → List AddressRow → Option AddressRow
find_address user_id currency network [] = none
find_address user_id currency network (a ∷ as_) =
    if eq_ℤ a.user_id user_id && (text_eq a.currency currency && text_eq a.network network)
    then some a
    else find_address user_id currency network as_

unfoldable pub owner_of : Text → List AddressRow → Option AddressRow
owner_of address [] = none
owner_of address (a ∷ as_) = if text_eq a.address address then some a else owner_of address as_

-- INSERT INTO deposit_addresses … ON CONFLICT (user_id, currency, network) DO NOTHING
unfoldable pub add_address : AddressRow → Tx (Unit {0})
add_address a d = elim (find_address a.user_id a.currency a.network d.addresses) [
  | some b ↦ (ok tt, d)
  | none ↦ elim (owner_of a.address d.addresses) [
    | some b ↦ (err unique_violation, d)
    | none ↦
        if has_text a.currency d.currencies
        then (ok tt, record d { addresses = d.addresses ++ a ∷ [] })
        else (err foreign_key_violation, d)
  ]
]

unfoldable pub insert_address : AddressRow → Tx (Unit {0})
insert_address a = do reach; add_address a

-- SELECT address FROM deposit_addresses WHERE user_id = $1 AND currency = $2 AND network = $3
unfoldable pub select_address : ℤ → Text → Text → Tx AddressRow
select_address user_id currency network = do
  reach
  (λ d. elim (find_address user_id currency network d.addresses) [
    | none ↦ (err no_rows, d)
    | some a ↦ (ok a, d)
  ])

-- SELECT user_id, currency, network FROM deposit_addresses WHERE address = $1
unfoldable pub select_owner : Text → Tx AddressRow
select_owner address = do
  reach
  (λ d. elim (owner_of address d.addresses) [ none ↦ (err no_rows, d) | some a ↦ (ok a, d) ])

-- A value of a column INT, which the driver refuses beyond 32 bits.
abbrev pub in_int32 : ℤ → Bool
in_int32 z = ltb (pos_part z) 2147483648 && leb (neg_part z) 2147483648

unfoldable pub find_deposit : Text → ℤ → List DepositRow → Option DepositRow
find_deposit txid index [] = none
find_deposit txid index (p ∷ ps) =
    if text_eq p.txid txid && eq_ℤ p.output_index index then some p else find_deposit txid index ps

-- The row of the same output, replaced.
unfoldable pub set_deposit : DepositRow → List DepositRow → List DepositRow
set_deposit p [] = []
set_deposit p (q ∷ qs) =
    if text_eq q.txid p.txid && eq_ℤ q.output_index p.output_index
    then p ∷ qs
    else q ∷ set_deposit p qs

-- The row of an output: a new one, or the one that is there with the new confirmations. An id is taken
-- in either case, and the CHECK is on the row that was to be inserted.
unfoldable pub put_deposit : DepositRow → Tx DepositRow
put_deposit p d =
    let d' = record d { next_deposit_id = d.next_deposit_id +ℤ pos 1 } in
    let new = record p { id = d.next_deposit_id } in
    if not (ltb_ℤ (pos 0) p.amount)
    then (err (check_violation deposit_check), d')
    else elim (find_deposit p.txid p.output_index d.deposits) [
      | some q ↦
          let q' = record q { confirmations = p.confirmations } in
          (ok q', record d' { deposits = set_deposit q' d.deposits })
      | none ↦
          if has_text p.currency d.currencies
          then (ok new, record d' { deposits = d.deposits ++ new ∷ [] })
          else (err foreign_key_violation, d')
    ]

-- INSERT INTO deposits … ON CONFLICT (txid, output_index) DO UPDATE SET confirmations … RETURNING …
unfoldable pub upsert_deposit : DepositRow → Tx DepositRow
upsert_deposit p = do
  raise_if (not (in_int32 p.output_index && (in_int32 p.confirmations && in_int32 p.required_conf)))
      out_of_range
  reach
  put_deposit p

unfoldable pub credit_rows : ℤ → List DepositRow → List DepositRow
credit_rows id [] = []
credit_rows id (p ∷ ps) =
    if eq_ℤ p.id id && text_eq p.status (codes "pending")
    then record p { status = codes "credited" } ∷ ps
    else p ∷ credit_rows id ps

-- UPDATE deposits SET status = 'credited' … WHERE id = $1 AND status = 'pending'
unfoldable pub credit_deposit : ℤ → Tx (Unit {0})
credit_deposit id = do reach; (λ d. (ok tt, record d { deposits = credit_rows id d.deposits }))

-- Whether a user has a withdrawal with the client's id.
unfoldable pub has_client : ℤ → Text → List WithdrawalRow → Bool
has_client user_id client_id [] = false
has_client user_id client_id (w ∷ ws) =
    (eq_ℤ w.user_id user_id && text_eq w.client_order_id client_id)
    || has_client user_id client_id ws

-- The row with a new id behind the others; the constraints in the order of their names.
unfoldable pub add_withdrawal : WithdrawalRow → Tx ℤ
add_withdrawal w d =
    let id = d.next_withdrawal_id in
    let d' = record d { next_withdrawal_id = id +ℤ pos 1 } in
    if not (ltb_ℤ (pos 0) w.amount)
    then (err (check_violation withdrawal_check), d')
    else if ltb_ℤ w.fee (pos 0)
    then (err (check_violation fee_check), d')
    else if has_client w.user_id w.client_order_id d.withdrawals
    then (err unique_violation, d')
    else if has_text w.currency d.currencies
    then (ok id, record d' { withdrawals = d.withdrawals ++ record w { id = id } ∷ [] })
    else (err foreign_key_violation, d')

-- INSERT INTO withdrawals … RETURNING id
unfoldable pub insert_withdrawal : WithdrawalRow → Tx ℤ
insert_withdrawal w = do reach; add_withdrawal w

-- The rows with the id and 'broadcasting', completed, and whether there was one.
unfoldable pub complete_rows : ℤ → Text → List WithdrawalRow → List WithdrawalRow × Bool
complete_rows id txid [] = ([], false)
complete_rows id txid (w ∷ ws) =
    let (rest, found) = complete_rows id txid ws in
    if eq_ℤ w.id id && text_eq w.status (codes "broadcasting")
    then (record w { status = codes "completed"; txid = some txid } ∷ rest, true)
    else (w ∷ rest, found)

-- UPDATE withdrawals SET status = 'completed' … WHERE id = $2 AND status = 'broadcasting'
unfoldable pub complete_withdrawal : ℤ → Text → Tx Bool
complete_withdrawal id txid = do
  reach
  (λ d.
      let (rows, found) = complete_rows id txid d.withdrawals in
      (ok found, record d { withdrawals = rows }))

abbrev pub counts_today : ℕ → ℤ → Text → WithdrawalRow → Bool
counts_today day user_id currency w =
    eq_ℤ w.user_id user_id
    && (text_eq w.currency currency
        && ((text_eq w.status (codes "broadcasting") || text_eq w.status (codes "completed"))
            && leb day w.created_at))

-- The sum of the query of `usedToday`, of a user's withdrawals since the start of the day.
unfoldable pub used_since : ℕ → ℤ → Text → List WithdrawalRow → ℤ
used_since day user_id currency [] = pos 0
used_since day user_id currency (w ∷ ws) =
    let rest = used_since day user_id currency ws in
    if counts_today day user_id currency w then w.amount +ℤ rest else rest
