-- ===== src/Db/Inversion.antt =====
-- What is known of a database action that came to its end: of a chain, and of each statement.
use lcex.Prelude.{
  ◌≡◌, refl, [], ◌∷◌, ◌++◌, some, Option-cases, arith, Result, ok, err, ◌⊎◌, inl, inr,
}
use lcex.Prelude.Int.{ℤ, pos, ◌+ℤ◌, ◌≤ℤ◌}
use lcex.Prelude.Word.{IsInt64}
use lcex.Db.{AccountRef, Entry, Db, Err, Tx, reach, ◌>>=◌}
use lcex.Db.Statements.{find_balance, set_balance, upsert_row, update_row, insert_entry}
use lcex.Db.Store.{balance_of, store, set_balance-store, set_balance-append, find_balance-append}

-- A chain that came to its end has gone through its first action.
pub >>=-eq-ok :
    {A B : Type 0} (m : Tx A) (f : A → Tx B) (d d' : Db) {b : B}
    → (m >>= f) d ≡ (ok b, d')
    → (a : A) × (d₁ : Db) × (m d ≡ (ok a, d₁)) × (f a d₁ ≡ (ok b, d'))
>>=-eq-ok {A} m f d d' {b} h = go (m d) refl h
  where
    go :
        (out : Result Err A × Db)
        → m d ≡ out
        → elim out.0 [ ok a ↦ f a out.1 | err e ↦ (err e, out.1) ] ≡ (ok b, d')
        → (a : A) × (d₁ : Db) × (m d ≡ (ok a, d₁)) × (f a d₁ ≡ (ok b, d'))
    go (ok a, d₁) e k = (a, d₁, e, k)
    go (err e, d₁) q k = cc

-- A chain that returned an error did so in its first action or behind it.
pub >>=-eq-err :
    {A B : Type 0} (m : Tx A) (f : A → Tx B) (d d' : Db) {e : Err}
    → (m >>= f) d ≡ (err e, d')
    → (m d ≡ (err e, d')) ⊎ ((a : A) × (d₁ : Db) × (m d ≡ (ok a, d₁)) × (f a d₁ ≡ (err e, d')))
>>=-eq-err {A} m f d d' {e} h = go (m d) refl h
  where
    go :
        (out : Result Err A × Db)
        → m d ≡ out
        → elim out.0 [ ok a ↦ f a out.1 | err e' ↦ (err e', out.1) ] ≡ (err e, d')
        → (m d ≡ (err e, d')) ⊎ ((a : A) × (d₁ : Db) × (m d ≡ (ok a, d₁)) × (f a d₁ ≡ (err e, d')))
    go (ok a, d₁) q k = inr (a, d₁, q, k)
    go (err e', d₁) q k = inl (ground arith)

pub reach_ok : (d d' : Db) → reach d ≡ (ok tt, d') → d' ≡ record d { faults = d'.faults }
unfolding reach
reach_ok d d' h = ground arith

-- The row is there, with its old balance or with nothing.
pub record HasRow (r : AccountRef) (d d' : Db) : Type 0 where
  pub found : find_balance r d'.accounts ≡ some (balance_of r d.accounts)
  pub stores : (v : ℤ) → set_balance r v d'.accounts ≡ store r v d.accounts
  pub rest : d' ≡ record d { accounts = d'.accounts; faults = d'.faults }

pub upsert_row_ok : (r : AccountRef) (d d' : Db) → upsert_row r d ≡ (ok tt, d') → HasRow r d d'
unfolding upsert_row
upsert_row_ok r d d' h = elim (Option-cases (find_balance r d.accounts)) [
  | inl e ↦ record {
    found = ground (arith, find_balance-append r d.accounts e);
    stores = λ v. ground (arith, set_balance-append r v d.accounts e);
    rest = ground arith;
  }
  | inr (b, e) ↦ record {
    found = ground arith;
    stores = λ v. ground (arith, set_balance-store r b v d.accounts e);
    rest = ground arith;
  }
]

pub update_row_ok :
    (r : AccountRef) (delta : ℤ) (d d' : Db) (b b' : ℤ)
    → find_balance r d.accounts ≡ some b
    → update_row r delta d ≡ (ok b', d')
    → (b' ≡ b +ℤ delta)
      × (pos 0 ≤ℤ b')
      × IsInt64 b'
      × (d' ≡ record d { accounts = set_balance r b' d.accounts })
unfolding update_row
update_row_ok r delta d d' b b' e h = ground arith

pub insert_entry_ok :
    (e : Entry) (d d' : Db)
    → insert_entry e d ≡ (ok tt, d')
    → (pos 1 ≤ℤ e.amount) × (d' ≡ record d { entries = d.entries ++ e ∷ []; faults = d'.faults })
unfolding insert_entry reach
insert_entry_ok e d d' h = ground arith
