-- ===== src/Db/Store.antt =====
-- What the two statements on `accounts` do together: the balance under one key is replaced, the
-- others stay.
use lcex.Prelude.{
  List, [], ◌∷◌, ◌++◌, Option, none, some, if◌then◌else◌, ◌≡◌, refl, arith, All, Bool-cases, inl,
  inr,
}
use lcex.Prelude.Int.{ℤ, pos, ◌+ℤ◌, ◌≤ℤ◌, int_laws, parts_of_eq}
use lcex.Db.{AccountRef, Account}
use lcex.Db.Keys.{ref_eq, ref_eq_iff}
use lcex.Db.Statements.{find_balance, set_balance}

abbrev pub balance_or_zero : Option ℤ → ℤ
balance_or_zero none = pos 0
balance_or_zero (some b) = b

-- The balance under a key; an account that is not there holds nothing.
abbrev pub balance_of : AccountRef → List Account → ℤ
balance_of r rows = balance_or_zero (find_balance r rows)

unfoldable pub store : AccountRef → ℤ → List Account → List Account
store r v [] = record { ref = r; balance = v } ∷ []
store r v (a ∷ rest) =
    if ref_eq a.ref r then record { ref = a.ref; balance = v } ∷ rest else a ∷ store r v rest

-- A row that is there is updated in place.
pub set_balance-store :
    (r : AccountRef) (b v : ℤ) (rows : List Account)
    → find_balance r rows ≡ some b
    → set_balance r v rows ≡ store r v rows
unfolding set_balance store find_balance
set_balance-store r b v [] h = cc
set_balance-store r b v (a ∷ rest) h = ground (arith, set_balance-store r b v rest)

-- A row that is not there is appended and then updated.
pub set_balance-append :
    (r : AccountRef) (v : ℤ) (rows : List Account)
    → find_balance r rows ≡ none
    → set_balance r v (rows ++ record { ref = r; balance = pos 0 } ∷ []) ≡ store r v rows
unfolding set_balance store find_balance
set_balance-append r v [] h = rw ((ref_eq_iff r r).1 refl)
set_balance-append r v (a ∷ rest) h = ground (arith, set_balance-append r v rest)

pub find_balance-append :
    (r : AccountRef) (rows : List Account)
    → find_balance r rows ≡ none
    → find_balance r (rows ++ record { ref = r; balance = pos 0 } ∷ []) ≡ some (pos 0)
unfolding find_balance
find_balance-append r [] h = rw ((ref_eq_iff r r).1 refl)
find_balance-append r (a ∷ rest) h = ground (arith, find_balance-append r rest)

pub find_balance-store :
    (r j : AccountRef) (v : ℤ) (rows : List Account)
    → find_balance j (store r v rows) ≡ (if ref_eq r j then some v else find_balance j rows)
unfolding find_balance store
find_balance-store r j v [] = refl
find_balance-store r j v (a ∷ rest) =
    ground
      (arith, ref_eq_iff a.ref r, ref_eq_iff a.ref j, ref_eq_iff r j, find_balance-store r j v rest)

-- A sum over the rows, each counted by a weight that depends on its key only.
abbrev pub sum_of : (AccountRef → ℤ → ℤ) → List Account → ℤ
sum_of w [] = pos 0
sum_of w (a ∷ rest) = w a.ref a.balance +ℤ sum_of w rest

-- Storing a balance moves the sum by the difference under that key.
pub sum_of-store :
    (w : AccountRef → ℤ → ℤ) (r : AccountRef) (v : ℤ) (rows : List Account)
    → w r (pos 0) ≡ pos 0
    → sum_of w (store r v rows) +ℤ w r (balance_of r rows) ≡ sum_of w rows +ℤ w r v
unfolding store find_balance
sum_of-store w r v [] z = rw z (omega int_laws)
sum_of-store w r v (a ∷ rest) z = elim (Bool-cases (ref_eq a.ref r)) [
  | inl e ↦ rw (e, (ref_eq_iff a.ref r).0 e) (omega int_laws)
  | inr e ↦ rw e (omega (int_laws, parts_of_eq (sum_of-store w r v rest z)))
]

-- No row holds less than nothing.
abbrev pub IsNonneg : List Account → Type 0
IsNonneg = All (λ (a : Account). pos 0 ≤ℤ a.balance)

pub store-IsNonneg :
    (r : AccountRef) (v : ℤ) (rows : List Account)
    → pos 0 ≤ℤ v
    → IsNonneg rows
    → IsNonneg (store r v rows)
unfolding store
store-IsNonneg r v [] h n = (h, tt)
store-IsNonneg r v (a ∷ rest) h n = ground (arith, store-IsNonneg r v rest h n.1)
