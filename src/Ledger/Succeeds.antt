-- ===== src/Ledger/Succeeds.antt =====
-- When a journal is booked: the conditions on its moves, and the database behind it.
use lcex.Prelude.{
  ◌≡◌, ◌≢◌, refl, ◌≤◌, ◌⊎◌, inl, inr, true, false, List, [], ◌∷◌, ◌++◌, none, some, Option-cases,
  arith, length, ok,
}
use lcex.Prelude.Int.{ℤ, pos, ◌+ℤ◌, ◌≤ℤ◌}
use lcex.Prelude.Word.{IsInt64}
use lcex.Db.{AccountRef, BizKey, Db}
use lcex.Db.Statements.{
  has_text, has_journal, find_balance, set_balance, insert_journal, find_journal, upsert_account,
  upsert_row, update_balance, update_row, insert_entry,
}
use lcex.Db.Store.{balance_of, store}
use lcex.Ledger.{
  Move, direction_of, check_balanced, record_entry, post_move, post_moves, post_new, post_tx, post,
  translated,
}
use lcex.Ledger.Atomic.{reach_healthy, with_tx_healthy}
use lcex.Ledger.Effect.{entry_of, moved, upsert_account_ok}
use lcex.Ledger.Idempotent.{has_journal-append}

-- The database behind a booked move.
abbrev pub booked : BizKey → Move → Db → Db
booked k m d = record d {
  accounts = store m.account (moved m d) d.accounts;
  entries = d.entries ++ entry_of k m (moved m d) ∷ [];
}

abbrev pub booked_all : BizKey → List Move → Db → Db
booked_all k [] d = d
booked_all k (m ∷ ms) d = booked_all k ms (booked k m d)

-- The account is there or can be opened, the balance stays a non-negative int64, and the entry has an
-- amount.
pub record IsBookable (m : Move) (d : Db) : Type 0 where
  pub known :
      (find_balance m.account d.accounts ≢ none) ⊎ (has_text m.account.currency d.currencies ≡ true)
  pub nonneg : pos 0 ≤ℤ moved m d
  pub fits : IsInt64 (moved m d)
  pub amount : pos 1 ≤ℤ (direction_of m.account.owner_type m.delta).1

abbrev pub AreBookable : BizKey → List Move → Db → Type 0
AreBookable k [] d = Unit
AreBookable k (m ∷ ms) d = IsBookable m d × AreBookable k ms (booked k m d)

-- The account is found or opened.
row_there :
    (m : Move) (d : Db)
    → d.faults ≡ []
    → IsBookable m d
    → (row : Db) × (upsert_account m.account d ≡ (ok tt, row)) × (row.faults ≡ [])
unfolding upsert_account upsert_row
row_there m d h b = elim (Option-cases (find_balance m.account d.accounts)) [
  | inl e ↦
      let row = record d {
        accounts = d.accounts ++ record { ref = m.account; balance = pos 0 } ∷ [];
      } in
      (row, ground (arith, reach_healthy d h, b.known), h)
  | inr (v, e) ↦ (d, ground (arith, reach_healthy d h), h)
]

update_there :
    (r : AccountRef) (delta old : ℤ) (d : Db)
    → d.faults ≡ []
    → find_balance r d.accounts ≡ some old
    → pos 0 ≤ℤ old +ℤ delta
    → IsInt64 (old +ℤ delta)
    → translated (update_balance r delta) d
      ≡ (ok (old +ℤ delta), record d { accounts = set_balance r (old +ℤ delta) d.accounts })
unfolding update_balance update_row
update_there r delta old d h e n f = ground (arith, reach_healthy d h)

record_there :
    (k : BizKey) (m : Move) (b : ℤ) (d : Db)
    → d.faults ≡ []
    → pos 0 ≤ℤ b
    → pos 1 ≤ℤ (direction_of m.account.owner_type m.delta).1
    → record_entry k m b d ≡ (ok tt, record d { entries = d.entries ++ entry_of k m b ∷ [] })
unfolding record_entry insert_entry
record_there k m b d h n a = ground (arith, reach_healthy d h)

pub post_move_succeeds :
    (k : BizKey) (m : Move) (d : Db)
    → d.faults ≡ []
    → IsBookable m d
    → post_move k m d ≡ (ok tt, booked k m d)
unfolding post_move
post_move_succeeds k m d h b =
    let (row, there, healthy) = row_there m d h b in
    let has = upsert_account_ok m.account d row there in
    let b' = moved m d in
    let up =
      update_there m.account m.delta (balance_of m.account d.accounts) row healthy has.found
        b.nonneg b.fits in
    let row' = record row { accounts = set_balance m.account b' row.accounts } in
    let last = record_there k m b' row' healthy b.nonneg b.amount in
    ground (arith, has.stores b', has.rest)

pub post_moves_succeeds :
    (k : BizKey) (ms : List Move) (d : Db)
    → d.faults ≡ []
    → AreBookable k ms d
    → post_moves k ms d ≡ (ok tt, booked_all k ms d)
unfolding post_moves
post_moves_succeeds k [] d h b = refl
post_moves_succeeds k (m ∷ ms) d h b =
    ground (arith, post_move_succeeds k m d h b.0, post_moves_succeeds k ms (booked k m d) h b.1)

-- The journal is entered in front of its moves.
abbrev pub entered : BizKey → Db → Db
entered k d = record d { journals = d.journals ++ k ∷ [] }

journal_there :
    (k : BizKey) (d : Db)
    → d.faults ≡ []
    → has_journal k d.journals ≡ false
    → (insert_journal k d ≡ (ok true, entered k d))
      × (find_journal k (entered k d) ≡ (ok tt, entered k d))
unfolding insert_journal find_journal
journal_there k d h fresh = (
  ground (arith, reach_healthy d h),
  ground (arith, reach_healthy (entered k d) h, has_journal-append k d.journals),
)

pub booked_all-faults :
    (k : BizKey) (ms : List Move) (d : Db) → (booked_all k ms d).faults ≡ d.faults
booked_all-faults k [] d = refl
booked_all-faults k (m ∷ ms) d = booked_all-faults k ms (booked k m d)

pub post_tx_succeeds :
    (k : BizKey) (ms : List Move) (d : Db)
    → d.faults ≡ []
    → 2 ≤ length ms
    → check_balanced ms ≡ ok tt
    → has_journal k d.journals ≡ false
    → AreBookable k ms (entered k d)
    → post_tx k ms d ≡ (ok tt, booked_all k ms (entered k d))
unfolding post_tx post_new
post_tx_succeeds k ms d h two balanced fresh b =
    let (ins, found) = journal_there k d h fresh in
    ground (arith, post_moves_succeeds k ms (entered k d) h b)

-- With a healthy connection a new, balanced journal of at least two bookable moves is posted: the
-- journal is entered, and every move changes its balance and writes its entry.
pub post_succeeds :
    (k : BizKey) (ms : List Move) (d : Db)
    → d.faults ≡ []
    → 2 ≤ length ms
    → check_balanced ms ≡ ok tt
    → has_journal k d.journals ≡ false
    → AreBookable k ms (entered k d)
    → post k ms d ≡ (ok tt, booked_all k ms (entered k d))
unfolding post
post_succeeds k ms d h two balanced fresh b =
    let done = post_tx_succeeds k ms d h two balanced fresh b in
    ground (arith, with_tx_healthy (post_tx k ms) d h, booked_all-faults k ms (entered k d))
