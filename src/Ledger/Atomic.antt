-- ===== src/Ledger/Atomic.antt =====
-- On `WithTx` of internal/ledger/ledger.go: its ends, with an error and without.
use lcex.Prelude.{◌≡◌, refl, [], Result, ok, err, arith}
use lcex.Db.{Db, Err, Tx, reach}
use lcex.Ledger.{rollback, commit, finish, begin, with_tx}

-- A statement that comes through or fails in the driver touches no table.
pub reach_keeps : (d : Db) → (reach d).1 ≡ record d { faults = (reach d).1.faults }
unfolding reach
reach_keeps d = ground arith

pub reach_healthy : (d : Db) → d.faults ≡ [] → reach d ≡ (ok tt, d)
unfolding reach
reach_healthy d h = ground arith

module _ {A : Type 0} where
  -- What is left behind by a transaction that returned an error.
  finish_err :
      (before d' : Db) (out : Result Err A × Db) (e : Err)
      → finish before out ≡ (err e, d')
      → d' ≡ rollback before d'
  unfolding finish commit
  finish_err before d' (ok a, d) e h = ground (arith, reach_keeps d)
  finish_err before d' (err e', d) e h = ground arith

  begin_err :
      (fn : Tx A) (d d' : Db) (out : Result Err (Unit {0}) × Db) (e : Err)
      → out.1 ≡ record d { faults = out.1.faults }
      → begin fn out ≡ (err e, d')
      → d' ≡ rollback d d'
  unfolding begin
  begin_err fn d d' (err e', b) e same h = ground arith
  begin_err fn d d' (ok _, b) e same h = ground (arith, finish_err b d' (fn b) e h)

  -- A transaction that returns an error has changed no table.
  pub with_tx_err :
      (fn : Tx A) (d d' : Db) (e : Err) → with_tx fn d ≡ (err e, d') → d' ≡ rollback d d'
  unfolding with_tx
  with_tx_err fn d d' e h = begin_err fn d d' (reach d) e (reach_keeps d) h

  finish_ok :
      (before d' : Db) (out : Result Err A × Db) (a : A)
      → finish before out ≡ (ok a, d')
      → (out.0 ≡ ok a) × (d' ≡ record out.1 { faults = d'.faults })
  unfolding finish commit
  finish_ok before d' (ok a', d) a h = ground (arith, reach_keeps d)
  finish_ok before d' (err e', d) a h = cc

  begin_ok :
      (fn : Tx A) (d' : Db) (out : Result Err (Unit {0}) × Db) (a : A)
      → begin fn out ≡ (ok a, d')
      → ((fn out.1).0 ≡ ok a) × (d' ≡ record (fn out.1).1 { faults = d'.faults })
  unfolding begin
  begin_ok fn d' (err e, b) a h = cc
  begin_ok fn d' (ok _, b) a h = finish_ok b d' (fn b) a h

  -- A transaction that returns a value has run its function to the end and committed.
  pub with_tx_ok :
      (fn : Tx A) (d d' : Db) (a : A)
      → with_tx fn d ≡ (ok a, d')
      → let before = (reach d).1 in
        (before ≡ record d { faults = before.faults })
        × ((fn before).0 ≡ ok a)
        × (d' ≡ record (fn before).1 { faults = d'.faults })
  unfolding with_tx
  with_tx_ok fn d d' a h = let (r, e) = begin_ok fn d' (reach d) a h in (reach_keeps d, r, e)

  finish_healthy :
      (d : Db) (out : Result Err A × Db)
      → out.1.faults ≡ []
      → finish d out ≡ elim out.0 [ ok a ↦ out | err e ↦ (err e, rollback d out.1) ]
  unfolding finish commit
  finish_healthy d (ok a, d') h = ground (arith, reach_healthy d' h)
  finish_healthy d (err e, d') h = refl

  -- With no failure to come, a transaction is its function, undone if that returns an error.
  pub with_tx_healthy :
      (fn : Tx A) (d : Db)
      → d.faults ≡ []
      → (fn d).1.faults ≡ []
      → with_tx fn d ≡ elim (fn d).0 [ ok a ↦ fn d | err e ↦ (err e, rollback d (fn d).1) ]
  unfolding with_tx begin
  with_tx_healthy fn d h k = rw (reach_healthy d h) (finish_healthy d (fn d) k)
