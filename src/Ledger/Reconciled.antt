-- ===== src/Ledger/Reconciled.antt =====
-- Invariant 2 of db/README.md: every balance is the sum of its entries, so that the view
-- `v_balance_mismatch` (db/migrations/000001_ledger_core.up.sql) has no row.
use lcex.Prelude.{
  ◌≡◌, ℕ, suc, ◌+◌, Bool, true, false, not, List, [], ◌∷◌, ◌++◌, if◌then◌else◌, arith, All,
  Bool-cases, inl, inr,
}
use lcex.Prelude.Int.{ℤ, pos, negsuc, ◌+ℤ◌, ◌-ℤ◌, ◌≤ℤ◌, int_laws, parts_of_eq}
use lcex.Prelude.Word.{IsInt64}
use lcex.Db.{AccountRef, OwnerType, Direction, BizKey, Account, Entry, Db}
use lcex.Db.Keys.{ref_eq, ref_eq_iff}
use lcex.Db.Store.{balance_of, store, find_balance-store}
use lcex.Ledger.{Move, direction_of, is_system}
use lcex.Ledger.Legs.{
  mag, is_debit, same, raises, direction_of_side, direction_of_amount, small_of_amount,
}
use lcex.Ledger.Effect.{Posted, Posts, Journaled, entry_of, moved}

-- The CASE of the view: what an entry adds to an account of the owner type.
abbrev pub signed : OwnerType → Direction → ℤ → ℤ
signed o dir amount = if same (is_system o) (is_debit dir) then amount else pos 0 -ℤ amount

-- The column `derived` of the view for one account.
abbrev pub derived : AccountRef → List Entry → ℤ
derived r [] = pos 0
derived r (e ∷ es) =
    if ref_eq e.account r
    then signed e.account.owner_type e.direction e.amount +ℤ derived r es
    else derived r es

-- No row of the view.
abbrev pub IsReconciled : Db → Type 0
IsReconciled d = (r : AccountRef) → balance_of r d.accounts ≡ derived r d.entries

derived-append :
    (r : AccountRef) (es : List Entry) (e : Entry)
    → derived r (es ++ e ∷ []) ≡ derived r es +ℤ derived r (e ∷ [])
derived-append r [] e = omega int_laws
derived-append r (x ∷ es) e = elim (Bool-cases (ref_eq x.account r)) [
  | inl h ↦ rw (h, derived-append r es e) (omega int_laws)
  | inr h ↦ rw (h, derived-append r es e) (omega int_laws)
]

signed_exact :
    (o : OwnerType) (v : ℤ) (dir : Direction) (amount : ℤ)
    → is_debit dir ≡ raises (is_system o) v
    → amount ≡ pos (mag v)
    → signed o dir amount ≡ v
signed_exact o (pos n) dir amount side e = rw (side, e) (by_side (is_system o) n)
  where
    by_side :
        (sys : Bool) (n : ℕ) → (if same sys sys then pos (n + 0) else pos 0 -ℤ pos (n + 0)) ≡ pos n
    by_side true n = omega int_laws
    by_side false n = omega int_laws
signed_exact o (negsuc n) dir amount side e = rw (side, e) (by_side (is_system o) n)
  where
    by_side :
        (sys : Bool) (n : ℕ)
        → (if same sys (not sys) then pos (0 + suc n) else pos 0 -ℤ pos (0 + suc n)) ≡ negsuc n
    by_side true n = omega int_laws
    by_side false n = omega int_laws

-- The direction and the amount of an entry give the change back, but for the least int64, whose
-- amount would be negative.
pub signed-direction_of :
    (o : OwnerType) (v : ℤ)
    → IsInt64 v
    → pos 1 ≤ℤ (direction_of o v).1
    → signed o (direction_of o v).0 (direction_of o v).1 ≡ v
signed-direction_of o v h k =
    signed_exact o v (direction_of o v).0 (direction_of o v).1 (direction_of_side o v)
      (direction_of_amount o v (small_of_amount o v h k))

balance_of-store :
    (m : AccountRef) (r : AccountRef) (v : ℤ) (rows : List Account)
    → balance_of r (store m v rows) ≡ (if ref_eq m r then v else balance_of r rows)
balance_of-store m r v rows = ground (arith, find_balance-store m r v rows)

pub Posted-IsReconciled :
    (k : BizKey) (m : Move) (d d' : Db)
    → IsInt64 m.delta
    → Posted k m d d'
    → IsReconciled d
    → IsReconciled d'
Posted-IsReconciled k m d d' fits p h r =
    let e = entry_of k m (moved m d) in
    let back = signed-direction_of m.account.owner_type m.delta fits p.amount in
    rw (p.accounts, p.entries, balance_of-store, derived-append r d.entries e)
      (elim (Bool-cases (ref_eq m.account r)) [
        | inl t ↦ rw (t, back, (ref_eq_iff m.account r).0 t) (omega (int_laws, parts_of_eq (h r)))
        | inr t ↦ rw t (omega (int_laws, parts_of_eq (h r)))
      ])

pub Posts-IsReconciled :
    (k : BizKey) (ms : List Move) (d d' : Db)
    → All (λ (m : Move). IsInt64 m.delta) ms
    → Posts k ms d d'
    → IsReconciled d
    → IsReconciled d'
Posts-IsReconciled k [] d d' fits p h = rw p h
Posts-IsReconciled k (m ∷ ms) d d' fits (d₁, p, ps) h =
    Posts-IsReconciled k ms d₁ d' fits.1 ps (Posted-IsReconciled k m d d₁ fits.0 p h)

pub Journaled-IsReconciled :
    (k : BizKey) (ms : List Move) (d d' : Db)
    → All (λ (m : Move). IsInt64 m.delta) ms
    → Journaled k ms d d'
    → IsReconciled d
    → IsReconciled d'
Journaled-IsReconciled k ms d d' fits j h =
    Posts-IsReconciled k ms j.opened d' fits j.posts (rw (j.inserted) h)
