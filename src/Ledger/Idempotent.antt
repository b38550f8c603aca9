-- ===== src/Ledger/Idempotent.antt =====
-- On `Post` of internal/ledger/ledger.go: its business keys, the unique keys of `journals`.
use lcex.Prelude.{◌≡◌, ◌≢◌, ap, ◌≤◌, true, false, List, [], ◌∷◌, ◌++◌, arith, length, ok, err}
use lcex.Db.{BizKey, Db, already_processed}
use lcex.Db.Keys.{biz_eq_iff}
use lcex.Db.Statements.{has_journal, insert_journal}
use lcex.Ledger.{Move, check_balanced, post, post_tx, post_new}
use lcex.Ledger.Atomic.{with_tx_healthy, reach_healthy}
use lcex.Ledger.Effect.{Posts, Journaled}
use lcex.Ledger.Invariant.{post_ok}

pub has_journal-append : (k : BizKey) (js : List BizKey) → has_journal k (js ++ k ∷ []) ≡ true
unfolding has_journal
has_journal-append k [] = ground (arith, biz_eq_iff k k)
has_journal-append k (j ∷ js) = ground (arith, has_journal-append k js)

Posts-journals :
    (k : BizKey) (ms : List Move) (d d' : Db) → Posts k ms d d' → d'.journals ≡ d.journals
Posts-journals k [] d d' p = ap (λ (x : Db). x.journals) p
Posts-journals k (m ∷ ms) d d' (d₁, p, ps) = ground (arith, Posts-journals k ms d₁ d' ps, p.rest)

pub Journaled-has_journal :
    (k : BizKey) (ms : List Move) (d d' : Db)
    → Journaled k ms d d'
    → has_journal k d'.journals ≡ true
Journaled-has_journal k ms d d' j =
    rw (Posts-journals k ms j.opened d' j.posts, ap (λ (x : Db). x.journals) j.inserted)
      (has_journal-append k d.journals)

-- A journal that was posted is there, and was not there before.
pub post_once :
    (k : BizKey) (ms : List Move) (d d' : Db)
    → post k ms d ≡ (ok tt, d')
    → (has_journal k d.journals ≡ false) × (has_journal k d'.journals ≡ true)
post_once k ms d d' h =
    let (start, end_, opened, j, closed) = post_ok k ms d d' h in
    (
      rw (ap (λ (x : Db). x.journals) opened) at (j.fresh),
      rw (ap (λ (x : Db). x.journals) closed) (Journaled-has_journal k ms start end_ j),
    )

-- `PostTx` for a journal that is there.
pub post_tx_again :
    (k : BizKey) (ms : List Move) (d : Db)
    → d.faults ≡ []
    → 2 ≤ length ms
    → check_balanced ms ≡ ok tt
    → has_journal k d.journals ≡ true
    → post_tx k ms d ≡ (err already_processed, d)
unfolding post_tx insert_journal post_new
post_tx_again k ms d h two balanced there = ground (arith, reach_healthy d h)

-- With a healthy connection, posting a balanced journal again returns `ErrAlreadyProcessed` and
-- changes nothing at all.
pub post_again :
    (k : BizKey) (ms : List Move) (d : Db)
    → d.faults ≡ []
    → 2 ≤ length ms
    → check_balanced ms ≡ ok tt
    → has_journal k d.journals ≡ true
    → post k ms d ≡ (err already_processed, d)
unfolding post
post_again k ms d h two balanced there =
    ground (arith, with_tx_healthy (post_tx k ms) d h, post_tx_again k ms d h two balanced there)

-- A journal that was posted is never posted again: with a healthy connection the second attempt
-- returns `ErrAlreadyProcessed` and leaves the database as it was, and no later journal under its key succeeds.
pub post_twice :
    (k : BizKey) (ms : List Move) (d d' : Db)
    → post k ms d ≡ (ok tt, d')
    → (d'.faults ≡ [] → post k ms d' ≡ (err already_processed, d'))
      × ((ms' : List Move) → (post k ms' d').0 ≢ ok tt)
post_twice k ms d d' h =
    let (start, end_, opened, j, closed) = post_ok k ms d d' h in
    let (fresh, there) = post_once k ms d d' h in
    (
      (λ healthy. post_again k ms d' healthy j.two j.balanced there),
      (λ ms' again. let (absent, _) = post_once k ms' d' (post k ms' d').1 (ground arith) in cc),
    )
