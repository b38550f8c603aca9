-- ===== src/Ledger/Effect.antt =====
-- What a journal that was posted has done to the tables: one balance and one entry for each move.
use lcex.Prelude.{
  ◌≡◌, refl, ap, ◌≤◌, Bool, true, false, List, [], ◌∷◌, ◌++◌, arith, length, ltb, some, Result, ok,
  err,
}
use lcex.Prelude.Int.{ℤ, pos, ◌+ℤ◌, ◌≤ℤ◌}
use lcex.Prelude.Word.{IsInt64}
use lcex.Db.{
  AccountRef, BizKey, Entry, Db, Err, Tx, reach, raise_if, lift, too_few_entries, ◌>>=◌, ◌>>◌,
}
use lcex.Db.Statements.{
  has_journal, insert_journal, find_journal, upsert_account, upsert_row, update_balance, update_row,
  set_balance, find_balance,
}
use lcex.Db.Store.{balance_of, store}
use lcex.Db.Inversion.{>>=-eq-ok, reach_ok, HasRow, upsert_row_ok, update_row_ok, insert_entry_ok}
use lcex.Ledger.{
  Move, direction_of, check_balanced, record_entry, post_move, post_moves, post_new, post_tx,
  translated, translate,
}

-- The entry of a move, with the balance behind it.
abbrev pub entry_of : BizKey → Move → ℤ → Entry
entry_of k m balance = record {
  journal = k;
  account = m.account;
  direction = (direction_of m.account.owner_type m.delta).0;
  amount = (direction_of m.account.owner_type m.delta).1;
  currency = m.account.currency;
  balance_after = balance;
}

-- The balance behind a move.
abbrev pub moved : Move → Db → ℤ
moved m d = balance_of m.account d.accounts +ℤ m.delta

pub record Posted (k : BizKey) (m : Move) (d d' : Db) : Type 0 where
  pub accounts : d'.accounts ≡ store m.account (moved m d) d.accounts
  pub entries : d'.entries ≡ d.entries ++ entry_of k m (moved m d) ∷ []
  pub nonneg : pos 0 ≤ℤ moved m d
  pub fits : IsInt64 (moved m d)
  pub amount : pos 1 ≤ℤ (direction_of m.account.owner_type m.delta).1
  pub rest : d' ≡ record d { accounts = d'.accounts; entries = d'.entries; faults = d'.faults }

translated_ok :
    {A : Type 0} (m : Tx A) (d d' : Db) (a : A) → translated m d ≡ (ok a, d') → m d ≡ (ok a, d')
translated_ok {A} m d d' a h = go (m d) h
  where
    go :
        (out : Result Err A × Db)
        → ◌≡◌ {A = Result Err A × Db}
            (elim out.0 [ ok b ↦ (ok b, out.1) | err e ↦ (err (translate e), out.1) ])
            (ok a, d')
        → out ≡ (ok a, d')
    go (ok b, d₁) q = q
    go (err e, d₁) q = cc

record_entry_ok :
    (k : BizKey) (m : Move) (b : ℤ) (d d' : Db)
    → record_entry k m b d ≡ (ok tt, d')
    → (pos 1 ≤ℤ (direction_of m.account.owner_type m.delta).1)
      × (d' ≡ record d { entries = d.entries ++ entry_of k m b ∷ []; faults = d'.faults })
unfolding record_entry
record_entry_ok k m b d d' h = ground (arith, insert_entry_ok (entry_of k m b) d d')

after_reach :
    (r : AccountRef) (d d₁ d' : Db)
    → d₁ ≡ record d { faults = d₁.faults }
    → HasRow r d₁ d'
    → HasRow r d d'
after_reach r d d₁ d' same row =
    let e : d₁.accounts ≡ d.accounts = ap (λ (x : Db). x.accounts) same in
    record {
      found = rw (← e) row.found;
      stores = λ v. rw (← e) (row.stores v);
      rest = ground (arith, row.rest);
    }

-- The row of the account, found or created.
pub upsert_account_ok :
    (r : AccountRef) (d d' : Db) → upsert_account r d ≡ (ok tt, d') → HasRow r d d'
unfolding upsert_account
upsert_account_ok r d d' h =
    let (_, d₁, through, made) = >>=-eq-ok reach (λ _. upsert_row r) d d' h in
    after_reach r d d₁ d' (reach_ok d d₁ through) (upsert_row_ok r d₁ d' made)

-- What an update that came through has returned and stored.
update_balance_ok :
    (r : AccountRef) (delta : ℤ) (d d' : Db) (b b' : ℤ)
    → find_balance r d.accounts ≡ some b
    → update_balance r delta d ≡ (ok b', d')
    → (b' ≡ b +ℤ delta)
      × (pos 0 ≤ℤ b')
      × IsInt64 b'
      × (d' ≡ record d { accounts = set_balance r b' d.accounts; faults = d'.faults })
unfolding update_balance
update_balance_ok r delta d d' b b' e h =
    let (_, d₁, through, done) = >>=-eq-ok reach (λ _. update_row r delta) d d' h in
    let same = reach_ok d d₁ through in
    let e₁ : find_balance r d₁.accounts ≡ some b = rw (ap (λ (x : Db). x.accounts) same) e in
    let (sum, nonneg, fits, rest) = update_row_ok r delta d₁ d' b b' e₁ done in
    (sum, nonneg, fits, ground arith)

-- The three statements of a move put together.
posted :
    (k : BizKey) (m : Move) (d d₁ d₂ d' : Db) (b : ℤ)
    → HasRow m.account d d₁
    → (b ≡ moved m d)
      × (pos 0 ≤ℤ b)
      × IsInt64 b
      × (d₂ ≡ record d₁ { accounts = set_balance m.account b d₁.accounts; faults = d₂.faults })
    → (pos 1 ≤ℤ (direction_of m.account.owner_type m.delta).1)
      × (d' ≡ record d₂ { entries = d₂.entries ++ entry_of k m b ∷ []; faults = d'.faults })
    → Posted k m d d'
posted k m d d₁ d₂ d' b row up last = record {
  accounts = ground (arith, row.stores b, row.rest);
  entries = ground (arith, row.rest);
  nonneg = rw (up.0) at (up.1);
  fits = rw (up.0) at (up.2);
  amount = last.0;
  rest = ground (arith, row.rest);
}

pub post_move_ok :
    (k : BizKey) (m : Move) (d d' : Db) → post_move k m d ≡ (ok tt, d') → Posted k m d d'
unfolding post_move
post_move_ok k m d d' h =
    let update = translated (update_balance m.account m.delta) in
    let (_, d₁, upserted, h₁) =
      >>=-eq-ok (upsert_account m.account) (λ _. update >>= record_entry k m) d d' h in
    let (b, d₂, updated, h₂) = >>=-eq-ok update (record_entry k m) d₁ d' h₁ in
    let row = upsert_account_ok m.account d d₁ upserted in
    let up =
      update_balance_ok m.account m.delta d₁ d₂ (balance_of m.account d.accounts) b row.found
        (translated_ok (update_balance m.account m.delta) d₁ d₂ b updated) in
    let last = record_entry_ok k m b d₂ d' h₂ in posted k m d d₁ d₂ d' b row up last

-- The moves of a journal, one after the other.
abbrev pub Posts : BizKey → List Move → Db → Db → Type 0
Posts k [] d d' = d' ≡ d
Posts k (m ∷ ms) d d' = (d₁ : Db) × Posted k m d d₁ × Posts k ms d₁ d'

pub post_moves_ok :
    (k : BizKey) (ms : List Move) (d d' : Db) → post_moves k ms d ≡ (ok tt, d') → Posts k ms d d'
unfolding post_moves
post_moves_ok k [] d d' h = ground arith
post_moves_ok k (m ∷ ms) d d' h =
    let (_, d₁, first, rest) = >>=-eq-ok (post_move k m) (λ _. post_moves k ms) d d' h in
    (d₁, post_move_ok k m d d₁ first, post_moves_ok k ms d₁ d' rest)

-- The journal is new and balanced, and its moves have been posted behind its insertion.
pub record Journaled (k : BizKey) (ms : List Move) (d d' : Db) : Type 0 where
  pub two : 2 ≤ length ms
  pub balanced : check_balanced ms ≡ ok tt
  pub fresh : has_journal k d.journals ≡ false
  pub opened : Db
  pub inserted : opened ≡ record d { journals = d.journals ++ k ∷ []; faults = opened.faults }
  pub posts : Posts k ms opened d'

insert_journal_ok :
    (k : BizKey) (d d' : Db)
    → insert_journal k d ≡ (ok true, d')
    → (has_journal k d.journals ≡ false)
      × (d' ≡ record d { journals = d.journals ++ k ∷ []; faults = d'.faults })
unfolding insert_journal reach
insert_journal_ok k d d' h = ground arith

find_journal_ok :
    (k : BizKey) (d d' : Db) → find_journal k d ≡ (ok tt, d') → d' ≡ record d { faults = d'.faults }
unfolding find_journal reach
find_journal_ok k d d' h = ground arith

post_new_ok :
    (k : BizKey) (ms : List Move) (inserted : Bool) (d d' : Db)
    → post_new k ms inserted d ≡ (ok tt, d')
    → (inserted ≡ true) × (d₁ : Db) × (d₁ ≡ record d { faults = d₁.faults }) × Posts k ms d₁ d'
unfolding post_new
post_new_ok k ms false d d' h = cc
post_new_ok k ms true d d' h =
    let (_, d₁, found, rest) = >>=-eq-ok (find_journal k) (λ _. post_moves k ms) d d' h in
    (refl, d₁, find_journal_ok k d d₁ found, post_moves_ok k ms d₁ d' rest)

pub raise_if_ok :
    (b : Bool) (e : Err) (d d' : Db) → raise_if b e d ≡ (ok tt, d') → (b ≡ false) × (d' ≡ d)
raise_if_ok false e d d' h = ground arith
raise_if_ok true e d d' h = cc

inserted_ok :
    (k : BizKey) (ms : List Move) (d d' : Db)
    → (insert_journal k >>= post_new k ms) d ≡ (ok tt, d')
    → (has_journal k d.journals ≡ false)
      × (opened : Db) × (opened
          ≡ record d { journals = d.journals ++ k ∷ []; faults = opened.faults })
      × Posts k ms opened d'
inserted_ok k ms d d' h =
    let (b, d₁, ins, rest) = >>=-eq-ok (insert_journal k) (post_new k ms) d d' h in
    let (is_new, d₂, same, posts) = post_new_ok k ms b d₁ d' rest in
    let (fresh, e) = insert_journal_ok k d d₁ (rw is_new at ins) in (fresh, d₂, ground arith, posts)

-- A journal that `PostTx` accepts has at least two moves, passes the check, is new, and every one of
-- its moves has been booked.
pub post_tx_ok :
    (k : BizKey) (ms : List Move) (d d' : Db) → post_tx k ms d ≡ (ok tt, d') → Journaled k ms d d'
unfolding post_tx
post_tx_ok k ms d d' h =
    let insert = insert_journal k >>= post_new k ms in
    let (_, d₁, long, h₁) =
      >>=-eq-ok (raise_if (ltb (length ms) 2) too_few_entries)
        (λ _. lift (check_balanced ms) >> insert) d d' h in
    let (_, d₂, checked, h₂) = >>=-eq-ok (lift (check_balanced ms)) (λ _. insert) d₁ d' h₁ in
    let (two, e₁) = raise_if_ok _ too_few_entries d d₁ long in
    let e₂ : d₂ ≡ d = ground arith in
    let (fresh, opened, e, posts) = inserted_ok k ms d d' (rw e₂ at h₂) in
    record {
      two = ground arith;
      balanced = ground arith;
      fresh = fresh;
      opened = opened;
      inserted = e;
      posts = posts;
    }
