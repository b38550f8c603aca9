-- ===== src/Ledger/Invariant.antt =====
-- On `Post` of internal/ledger/ledger.go: the books, which are reconciled, without a negative balance,
-- with assets equal to claims, and with one row for each account.
use lcex.Prelude.{◌≡◌, ap, ◌<◌, List, [], ◌∷◌, All, arith, ok, err, Result-cases, inl, inr}
use lcex.Prelude.Word.{i64_mod, IsInt64}
use lcex.Db.{BizKey, Db, Err, reach}
use lcex.Db.Store.{IsNonneg}
use lcex.Ledger.{Move, check_balanced, post, post_tx, rollback}
use lcex.Ledger.Legs.{weight, IsBalanced}
use lcex.Ledger.Balanced.{check_balanced_iff}
use lcex.Ledger.Atomic.{with_tx_err, with_tx_ok}
use lcex.Ledger.Effect.{Journaled, post_tx_ok}
use lcex.Ledger.Reconciled.{IsReconciled, Journaled-IsReconciled}
use lcex.Ledger.Conserved.{IsSolvent, balanced-IsSolvent}
use lcex.Ledger.Nonneg.{Journaled-IsNonneg}
use lcex.Ledger.Unique.{AreUnique, Journaled-AreUnique}

pub record IsLedger (d : Db) : Type 0 where
  pub reconciled : IsReconciled d
  pub nonneg : IsNonneg d.accounts
  pub solvent : IsSolvent d
  pub unique : AreUnique d.accounts

-- The invariant speaks of accounts and entries only.
pub IsLedger-same :
    (d d' : Db) → d'.accounts ≡ d.accounts → d'.entries ≡ d.entries → IsLedger d → IsLedger d'
IsLedger-same d d' a e h = record {
  reconciled = λ r. rw (a, e) (h.reconciled r);
  nonneg = rw a h.nonneg;
  solvent = λ c. rw a (h.solvent c);
  unique = rw a h.unique;
}

pub deltas-IsInt64 : (ms : List Move) → weight ms < i64_mod → All (λ (m : Move). IsInt64 m.delta) ms
deltas-IsInt64 [] h = tt
deltas-IsInt64 (m ∷ ms) h = (omega arith, deltas-IsInt64 ms (omega arith))

-- The moves are int64 values and balanced.
abbrev pub IsSound : List Move → Type 0
IsSound ms = All (λ (m : Move). IsInt64 m.delta) ms × IsBalanced ms

pub IsSound-of_check :
    (ms : List Move) → weight ms < i64_mod → check_balanced ms ≡ ok tt → IsSound ms
IsSound-of_check ms small h = (deltas-IsInt64 ms small, (check_balanced_iff ms small).0 h)

pub sound-IsLedger :
    (k : BizKey) (ms : List Move) (d d' : Db)
    → IsSound ms
    → Journaled k ms d d'
    → IsLedger d
    → IsLedger d'
sound-IsLedger k ms d d' sound j h = record {
  reconciled = Journaled-IsReconciled k ms d d' sound.0 j h.reconciled;
  nonneg = Journaled-IsNonneg k ms d d' j h.nonneg;
  solvent = balanced-IsSolvent k ms d d' sound.1 j h.solvent;
  unique = Journaled-AreUnique k ms d d' j h.unique;
}

pub Journaled-IsLedger :
    (k : BizKey) (ms : List Move) (d d' : Db)
    → weight ms < i64_mod
    → Journaled k ms d d'
    → IsLedger d
    → IsLedger d'
Journaled-IsLedger k ms d d' small j =
    sound-IsLedger k ms d d' (IsSound-of_check ms small j.balanced) j

-- A journal that was posted, between the two ends of its transaction.
pub post_ok :
    (k : BizKey) (ms : List Move) (d d' : Db)
    → post k ms d ≡ (ok tt, d')
    → (start : Db) × (end_ : Db) × (start ≡ record d { faults = start.faults })
      × Journaled k ms start end_
      × (d' ≡ record end_ { faults = d'.faults })
unfolding post
post_ok k ms d d' h =
    let (opened, ran, closed) = with_tx_ok (post_tx k ms) d d' tt h in
    let start = (reach d).1 in
    (
      start,
      (post_tx k ms start).1,
      opened,
      post_tx_ok k ms start (post_tx k ms start).1 (ground arith),
      closed,
    )

pub post_err :
    (k : BizKey) (ms : List Move) (d d' : Db) (e : Err)
    → post k ms d ≡ (err e, d')
    → d' ≡ rollback d d'
unfolding post
post_err k ms d d' e h = with_tx_err (post_tx k ms) d d' e h

-- `Post` of moves that are sound if they have been posted.
pub post-IsLedger_of :
    (k : BizKey) (ms : List Move) (d : Db)
    → ((start end_ : Db) → Journaled k ms start end_ → IsSound ms)
    → IsLedger d
    → IsLedger (post k ms d).1
post-IsLedger_of k ms d sound h = elim (Result-cases (post k ms d).0) [
  | inl (_, e) ↦
      let d' = (post k ms d).1 in
      let (start, end_, opened, j, closed) = post_ok k ms d d' (ground arith) in
      IsLedger-same end_ d' (ap (λ (x : Db). x.accounts) closed) (ap (λ (x : Db). x.entries) closed)
        (sound-IsLedger k ms start end_ (sound start end_ j) j (
          IsLedger-same d start (ap (λ (x : Db). x.accounts) opened)
            (ap (λ (x : Db). x.entries) opened) h))
  | inr (e, q) ↦
      let d' = (post k ms d).1 in
      let same = post_err k ms d d' e (ground arith) in
      IsLedger-same d d' (ap (λ (x : Db). x.accounts) same) (ap (λ (x : Db). x.entries) same) h
]

-- Whatever it returns, and whichever statement fails, `Post` keeps the books (balances reconciled with
-- the entries, none negative, assets equal to claims, one row for each account) if the sizes of its
-- moves add up to less than 2 ^ 63.
pub post-IsLedger :
    (k : BizKey) (ms : List Move) (d : Db)
    → weight ms < i64_mod
    → IsLedger d
    → IsLedger (post k ms d).1
post-IsLedger k ms d small =
    post-IsLedger_of k ms d (λ start end_ j. IsSound-of_check ms small j.balanced)
