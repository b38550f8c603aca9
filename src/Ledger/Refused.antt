-- ===== src/Ledger/Refused.antt =====
-- On `PostTx` of internal/ledger/ledger.go: when it returns `ErrAlreadyProcessed`.
use lcex.Prelude.{
  ◌≡◌, ◌≢◌, ap, ◌≤◌, Bool, true, false, List, [], ◌∷◌, arith, length, ltb, Result, ok, err, inl,
  inr, Result-cases,
}
use lcex.Prelude.Int.{ℤ}
use lcex.Db.{
  Tx, AccountRef, BizKey, Db, Err, already_processed, too_few_entries, reach, raise_if, lift, ◌>>=◌,
  ◌>>◌,
}
use lcex.Db.Inversion.{>>=-eq-err}
use lcex.Db.Statements.{
  has_journal, insert_journal, find_journal, upsert_account, upsert_row, update_balance, update_row,
  insert_entry,
}
use lcex.Ledger.{
  Move, translated, record_entry, check_balanced, post_move, post_moves, post, post_tx, post_new,
  with_tx, begin, finish, commit, rollback,
}
use lcex.Ledger.Effect.{raise_if_ok}
use lcex.Ledger.Atomic.{reach_keeps, with_tx_err}

-- The errors other than `ErrAlreadyProcessed`.
reach_other : (d d' : Db) → reach d ≢ (err already_processed, d')
unfolding reach
reach_other d d' h = ground arith

upsert_account_other :
    (r : AccountRef) (d d' : Db) → upsert_account r d ≢ (err already_processed, d')
unfolding upsert_account upsert_row reach
upsert_account_other r d d' h = ground arith

update_balance_other :
    (r : AccountRef) (v : ℤ) (d d' : Db)
    → translated (update_balance r v) d ≢ (err already_processed, d')
unfolding update_balance update_row reach
update_balance_other r v d d' h = ground arith

record_entry_other :
    (k : BizKey) (m : Move) (b : ℤ) (d d' : Db) → record_entry k m b d ≢ (err already_processed, d')
unfolding record_entry insert_entry reach
record_entry_other k m b d d' h = ground arith

post_move_other :
    (k : BizKey) (m : Move) (d d' : Db) → post_move k m d ≢ (err already_processed, d')
unfolding post_move
post_move_other k m d d' h =
    let update = translated (update_balance m.account m.delta) in
    elim (>>=-eq-err (upsert_account m.account) (λ _. update >>= record_entry k m) d d' h) [
      | inl e ↦ upsert_account_other m.account d d' e
      | inr (_, d₁, _, h₁) ↦ elim (>>=-eq-err update (record_entry k m) d₁ d' h₁) [
        | inl e ↦ update_balance_other m.account m.delta d₁ d' e
        | inr (b, d₂, _, e) ↦ record_entry_other k m b d₂ d' e
      ]
    ]

post_moves_other :
    (k : BizKey) (ms : List Move) (d d' : Db) → post_moves k ms d ≢ (err already_processed, d')
unfolding post_moves
post_moves_other k [] d d' h = cc
post_moves_other k (m ∷ ms) d d' h =
    elim (>>=-eq-err (post_move k m) (λ _. post_moves k ms) d d' h) [
      | inl e ↦ post_move_other k m d d' e
      | inr (_, d₁, _, e) ↦ post_moves_other k ms d₁ d' e
    ]

find_journal_other : (k : BizKey) (d d' : Db) → find_journal k d ≢ (err already_processed, d')
unfolding find_journal reach
find_journal_other k d d' e = ground arith

post_new_already :
    (k : BizKey) (ms : List Move) (inserted : Bool) (d d' : Db)
    → post_new k ms inserted d ≡ (err already_processed, d')
    → (inserted ≡ false) × (d' ≡ d)
unfolding post_new
post_new_already k ms false d d' h = ground arith
post_new_already k ms true d d' h =
    elim (>>=-eq-err (find_journal k) (λ _. post_moves k ms) d d' h) [
      | inl e ↦ absurd (find_journal_other k d d' e)
      | inr (_, d₁, _, e) ↦ absurd (post_moves_other k ms d₁ d' e)
    ]

insert_journal_other : (k : BizKey) (d d' : Db) → insert_journal k d ≢ (err already_processed, d')
unfolding insert_journal reach
insert_journal_other k d d' e = ground arith

insert_journal_there :
    (k : BizKey) (d d' : Db)
    → insert_journal k d ≡ (ok false, d')
    → (has_journal k d.journals ≡ true) × (d' ≡ record d { faults = d'.faults })
unfolding insert_journal reach
insert_journal_there k d d' h = ground arith

insert_already :
    (k : BizKey) (ms : List Move) (d d' : Db)
    → (insert_journal k >>= post_new k ms) d ≡ (err already_processed, d')
    → (has_journal k d.journals ≡ true) × (d' ≡ record d { faults = d'.faults })
insert_already k ms d d' h = elim (>>=-eq-err (insert_journal k) (post_new k ms) d d' h) [
  | inl e ↦ absurd (insert_journal_other k d d' e)
  | inr (b, d₁, ins, e) ↦
      let (old, same) = post_new_already k ms b d₁ d' e in
      let (there, rest) = insert_journal_there k d d₁ (rw old at ins) in (there, ground arith)
]

too_few_other : (b : Bool) (d d' : Db) → raise_if b too_few_entries d ≢ (err already_processed, d')
too_few_other true d d' h = cc
too_few_other false d d' h = cc

check_other :
    (ms : List Move) (d d' : Db) → lift (check_balanced ms) d ≢ (err already_processed, d')
unfolding check_balanced
check_other ms d d' h = ground arith

-- `PostTx` returns it only for a balanced journal of two moves or more that is there already, and it
-- has written nothing then.
pub post_tx_already :
    (k : BizKey) (ms : List Move) (d d' : Db)
    → post_tx k ms d ≡ (err already_processed, d')
    → (2 ≤ length ms)
      × (check_balanced ms ≡ ok tt)
      × (has_journal k d.journals ≡ true)
      × (d' ≡ record d { faults = d'.faults })
unfolding post_tx
post_tx_already k ms d d' h =
    let insert = insert_journal k >>= post_new k ms in
    elim (>>=-eq-err (raise_if (ltb (length ms) 2) too_few_entries)
      (λ _. lift (check_balanced ms) >> insert) d d' h) [
        | inl e ↦ absurd (too_few_other _ d d' e)
        | inr (_, d₁, long, h₁) ↦
            let (two, e₁) = raise_if_ok _ too_few_entries d d₁ long in
            elim (>>=-eq-err (lift (check_balanced ms)) (λ _. insert) d₁ d' h₁) [
              | inl e ↦ absurd (check_other ms d₁ d' e)
              | inr (_, d₂, checked, h₂) ↦
                  let e₂ : d₂ ≡ d = ground arith in
                  let (there, same) = insert_already k ms d d' (rw e₂ at h₂) in
                  (ground arith, ground arith, there, same)
            ]
      ]

finish_already :
    {A : Type 0} (before d' : Db) (out : Result Err A × Db)
    → finish before out ≡ (err already_processed, d')
    → out.0 ≡ err already_processed
unfolding finish commit reach
finish_already before d' (ok a, d) h = absurd (ground arith)
finish_already before d' (err e, d) h = ground arith

begin_already :
    {A : Type 0} (fn : Tx A) (d d' : Db)
    → begin fn (reach d) ≡ (err already_processed, d')
    → (fn (reach d).1).0 ≡ err already_processed
unfolding begin
begin_already fn d d' h = elim (Result-cases (reach d).0) [
  | inl (_, e) ↦ finish_already (reach d).1 d' (fn (reach d).1) (ground arith)
  | inr (e, q) ↦ absurd (reach_other d d' (ground arith))
]

-- The errors that the ends of a transaction add are those of the driver.
pub with_tx_already :
    {A : Type 0} (fn : Tx A) (d d' : Db)
    → with_tx fn d ≡ (err already_processed, d')
    → let before = (reach d).1 in
      (before ≡ record d { faults = before.faults }) × ((fn before).0 ≡ err already_processed)
unfolding with_tx
with_tx_already fn d d' h = (reach_keeps d, begin_already fn d d' h)

-- `Post` returns `ErrAlreadyProcessed` only for a balanced journal of two moves or more that the
-- database holds already, and leaves every table as it was.
pub post_already :
    (k : BizKey) (ms : List Move) (d d' : Db)
    → post k ms d ≡ (err already_processed, d')
    → (2 ≤ length ms)
      × (check_balanced ms ≡ ok tt)
      × (has_journal k d.journals ≡ true)
      × (d' ≡ rollback d d')
unfolding post
post_already k ms d d' h =
    let before = (reach d).1 in
    let (opened, raised) = with_tx_already (post_tx k ms) d d' h in
    let (two, balanced, there, _) =
      post_tx_already k ms before (post_tx k ms before).1 (ground arith) in
    (
      two,
      balanced,
      rw (ap (λ (x : Db). x.journals) opened) at there,
      with_tx_err (post_tx k ms) d d' already_processed h,
    )
