-- ===== src/Ledger/Unique.antt =====
-- The table `accounts` has one row for each key, as its UNIQUE constraint demands
-- (db/migrations/000001_ledger_core.up.sql).
use lcex.Prelude.{◌≡◌, ap, false, List, [], ◌∷◌, All, arith, Bool-cases, inl, inr, refl}
use lcex.Prelude.Int.{ℤ}
use lcex.Db.{AccountRef, Account, BizKey, Db}
use lcex.Db.Keys.{ref_eq, ref_eq_iff}
use lcex.Db.Statements.{find_balance}
use lcex.Db.Store.{store, balance_of}
use lcex.Ledger.{Move}
use lcex.Ledger.Effect.{Posts, Journaled, moved}

-- The row has another key.
abbrev pub HasOtherRef : AccountRef → Account → Type 0
HasOtherRef r a = ref_eq a.ref r ≡ false

-- No two rows have the same key.
abbrev pub AreUnique : List Account → Type 0
AreUnique [] = Unit
AreUnique (a ∷ rows) = All (HasOtherRef a.ref) rows × AreUnique rows

store-HasOtherRef :
    (q r : AccountRef) (v : ℤ) (rows : List Account)
    → ref_eq r q ≡ false
    → All (HasOtherRef q) rows
    → All (HasOtherRef q) (store r v rows)
unfolding store
store-HasOtherRef q r v [] f h = (f, tt)
store-HasOtherRef q r v (a ∷ rows) f h = elim (Bool-cases (ref_eq a.ref r)) [
  | inl t ↦ rw t (h.0, h.1)
  | inr g ↦ rw g (h.0, store-HasOtherRef q r v rows f h.1)
]

store-AreUnique :
    (r : AccountRef) (v : ℤ) (rows : List Account) → AreUnique rows → AreUnique (store r v rows)
unfolding store
store-AreUnique r v [] h = (tt, tt)
store-AreUnique r v (a ∷ rows) h = elim (Bool-cases (ref_eq a.ref r)) [
  | inl t ↦ rw t (h.0, h.1)
  | inr f ↦
      let other : ref_eq r a.ref ≡ false = ground (arith, ref_eq_iff a.ref r, ref_eq_iff r a.ref) in
      rw f (store-HasOtherRef a.ref r v rows other h.0, store-AreUnique r v rows h.1)
]

Posts-AreUnique :
    (k : BizKey) (ms : List Move) (d d' : Db)
    → Posts k ms d d'
    → AreUnique d.accounts
    → AreUnique d'.accounts
Posts-AreUnique k [] d d' p h = rw p h
Posts-AreUnique k (m ∷ ms) d d' (d₁, p, ps) h =
    Posts-AreUnique k ms d₁ d' ps
      (rw (p.accounts) (store-AreUnique m.account (moved m d) d.accounts h))

-- No journal makes a second row for a key.
pub Journaled-AreUnique :
    (k : BizKey) (ms : List Move) (d d' : Db)
    → Journaled k ms d d'
    → AreUnique d.accounts
    → AreUnique d'.accounts
Journaled-AreUnique k ms d d' j h =
    Posts-AreUnique k ms j.opened d' j.posts (rw (ap (λ (x : Db). x.accounts) j.inserted) h)

-- The row's balance is the one that is found under its key.
abbrev pub IsFound : List Account → Account → Type 0
IsFound rows a = balance_of a.ref rows ≡ a.balance

behind-IsFound :
    (a : Account) (rows bs : List Account)
    → All (HasOtherRef a.ref) bs
    → All (IsFound rows) bs
    → All (IsFound (a ∷ rows)) bs
unfolding find_balance
behind-IsFound a rows [] h f = tt
behind-IsFound a rows (b ∷ bs) h f =
    let other : ref_eq a.ref b.ref ≡ false =
      ground (arith, h.0, ref_eq_iff a.ref b.ref, ref_eq_iff b.ref a.ref) in
    (rw other (f.0), behind-IsFound a rows bs h.1 f.1)

pub AreUnique-IsFound : (rows : List Account) → AreUnique rows → All (IsFound rows) rows
unfolding find_balance
AreUnique-IsFound [] h = tt
AreUnique-IsFound (a ∷ rows) h = (
  rw ((ref_eq_iff a.ref a.ref).1 refl) refl,
  behind-IsFound a rows rows h.0 (AreUnique-IsFound rows h.1),
)
