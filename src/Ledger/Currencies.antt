-- ===== src/Ledger/Currencies.antt =====
-- The sums of all balances, whatever their currency, as services/wallet/reconcile.go compares them: they
-- are equal if those of every currency are.
use lcex.Prelude.{
  ◌≡◌, refl, ℕ, zero, suc, ◌≤◌, Bool, true, false, List, [], ◌∷◌, if◌then◌else◌, arith, length,
  Bool-cases, inl, inr,
}
use lcex.Prelude.Int.{ℤ, pos, ◌+ℤ◌, int_laws}
use lcex.Prelude.Text.{Text, text_eq, text_eq_iff}
use lcex.Db.{AccountRef, Account}
use lcex.Db.Store.{sum_of}
use lcex.Ledger.{is_system}
use lcex.Ledger.Legs.{same}
use lcex.Ledger.Conserved.{total}

-- What an account counts for on one side.
abbrev pub counted_all : Bool → AccountRef → ℤ → ℤ
counted_all side r v = if same side (is_system r.owner_type) then v else pos 0

-- All balances of one side.
abbrev pub total_all : Bool → List Account → ℤ
total_all side = sum_of (counted_all side)

-- The rows of other currencies.
abbrev others : Text → List Account → List Account
others c [] = []
others c (a ∷ rows) =
    let rest = others c rows in if text_eq a.ref.currency c then rest else a ∷ rest

total_all-others :
    (side : Bool) (c : Text) (rows : List Account)
    → total_all side rows ≡ total side c rows +ℤ total_all side (others c rows)
total_all-others side c [] = omega int_laws
total_all-others side c (a ∷ rows) = elim (Bool-cases (text_eq a.ref.currency c)) [
  | inl t ↦ rw (t, total_all-others side c rows) (omega int_laws)
  | inr f ↦ rw (f, total_all-others side c rows) (omega int_laws)
]

total-others_same :
    (side : Bool) (c : Text) (rows : List Account) → total side c (others c rows) ≡ pos 0
total-others_same side c [] = refl
total-others_same side c (a ∷ rows) = elim (Bool-cases (text_eq a.ref.currency c)) [
  | inl t ↦ rw t (total-others_same side c rows)
  | inr f ↦ rw (f, f, total-others_same side c rows) (omega int_laws)
]

total-others :
    (side : Bool) (c k : Text) (rows : List Account)
    → text_eq c k ≡ false
    → total side k (others c rows) ≡ total side k rows
total-others side c k [] h = refl
total-others side c k (a ∷ rows) h = elim (Bool-cases (text_eq a.ref.currency c)) [
  | inl t ↦
      let other : text_eq a.ref.currency k ≡ false =
        ground
          (arith, text_eq_iff a.ref.currency c, text_eq_iff a.ref.currency k, text_eq_iff c k) in
      rw (t, other, total-others side c k rows h) (omega int_laws)
  | inr f ↦ rw (f, total-others side c k rows h) refl
]

length-others : (c : Text) (rows : List Account) → length (others c rows) ≤ length rows
length-others c [] = omega arith
length-others c (a ∷ rows) = ground (arith, length-others c rows)

others_solvent :
    (c : Text) (rows : List Account)
    → ((k : Text) → total true k rows ≡ total false k rows)
    → (k : Text) → total true k (others c rows) ≡ total false k (others c rows)
others_solvent c rows h k = elim (Bool-cases (text_eq c k)) [
  | inl t ↦
      let is_k : c ≡ k = (text_eq_iff c k).0 t in
      rw (is_k, total-others_same true k rows, total-others_same false k rows) refl
  | inr f ↦ rw (total-others true c k rows f, total-others false c k rows f) (h k)
]

-- One currency after the other; `n` bounds the rows that are left.
all_solvent :
    (n : ℕ) (rows : List Account)
    → length rows ≤ n
    → ((k : Text) → total true k rows ≡ total false k rows)
    → total_all true rows ≡ total_all false rows
all_solvent n [] fits h = refl
all_solvent zero (a ∷ rows) fits h = absurd (omega arith)
all_solvent (suc n) (a ∷ rows) fits h =
    let c = a.ref.currency in
    let here : text_eq c c ≡ true = (text_eq_iff c c).1 refl in
    let shorter : length (others c (a ∷ rows)) ≤ n =
      rw here (omega (arith, length-others c rows)) in
    let rest = all_solvent n (others c (a ∷ rows)) shorter (others_solvent c (a ∷ rows) h) in
    rw (total_all-others true c (a ∷ rows), total_all-others false c (a ∷ rows), rest, h c) refl

-- If assets equal claims in every currency, they are equal over all.
pub total_all_lem :
    (rows : List Account)
    → ((k : Text) → total true k rows ≡ total false k rows)
    → total_all true rows ≡ total_all false rows
total_all_lem rows h = all_solvent (length rows) rows (omega arith) h
