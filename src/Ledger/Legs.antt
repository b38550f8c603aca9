-- ===== src/Ledger/Legs.antt =====
-- The direction and the amount of an entry (`directionOf`), and what debits and credits say of the
-- accounting equation: in every currency the assets (the system's accounts) and the claims (all other
-- accounts) move by the same amount.
use lcex.Prelude.{
  refl, ◌==◌, ==_iff, Bool-cases, inl, inr, ℕ, suc, ap, ◌+◌, ◌<◌, ◌≡◌, Bool, true, false, ◌&&◌, not,
  List, [], ◌∷◌, if◌then◌else◌, arith,
}
use lcex.Prelude.Int.{ℤ, pos, negsuc, pos_part, neg_part, ◌+ℤ◌, ◌-ℤ◌, ◌≤ℤ◌, int_laws}
use lcex.Prelude.Word.{i64_mod, wrap64, wrap64_exact, IsInt64}
use lcex.Prelude.Text.{Text, text_eq}
use lcex.Db.{Direction, debit, credit, OwnerType}
use lcex.Ledger.{Move, direction_of, abs64, is_system}

-- The size of an integer.
abbrev pub mag : ℤ → ℕ
mag v = pos_part v + neg_part v

-- The sizes of all moves together.
abbrev pub weight : List Move → ℕ
weight [] = 0
weight (m ∷ ms) = mag m.delta + weight ms

abbrev pub same : Bool → Bool → Bool
same true b = b
same false b = not b

-- By how much the moves change the accounts of one currency on one side.
abbrev pub change_of : Bool → Text → Move → ℤ
change_of side c m =
    if text_eq m.account.currency c && same side (is_system m.account.owner_type)
    then m.delta
    else pos 0

abbrev pub change : Bool → Text → List Move → ℤ
change side c [] = pos 0
change side c (m ∷ ms) = change_of side c m +ℤ change side c ms

abbrev pub asset_change : Text → List Move → ℤ
asset_change = change true

abbrev pub claim_change : Text → List Move → ℤ
claim_change = change false

-- Assets and claims move together in every currency.
abbrev pub IsBalanced : List Move → Type 0
IsBalanced ms = (c : Text) → asset_change c ms ≡ claim_change c ms

abs64_exact : (v : ℤ) → mag v < i64_mod → abs64 v ≡ pos (mag v)
unfolding abs64
abs64_exact (pos n) h = ground arith
abs64_exact (negsuc n) h =
    let e : pos 0 -ℤ negsuc n ≡ pos (suc n) = omega int_laws in
    ground (arith, e, wrap64_exact (pos (suc n)))

-- The direction and the amount say again by how much the account's side changes.
abbrev pub is_debit : Direction → Bool
is_debit debit = true
is_debit credit = false

-- Below the least int64 in size, the amount is the size of the change.
pub direction_of_amount :
    (o : OwnerType) (v : ℤ) → mag v < i64_mod → (direction_of o v).1 ≡ pos (mag v)
unfolding direction_of
direction_of_amount o v h = ground (arith, abs64_exact v h)

-- A positive amount rules out the least int64, whose negation wraps around to itself.
abs64_least : abs64 (negsuc 9223372036854775807) ≡ negsuc 9223372036854775807
unfolding abs64 wrap64 ◌-ℤ◌
abs64_least = refl

pub small_of_amount :
    (o : OwnerType) (v : ℤ) → IsInt64 v → pos 1 ≤ℤ (direction_of o v).1 → mag v < i64_mod
unfolding direction_of
small_of_amount o (pos n) h k = omega arith
small_of_amount o (negsuc n) h k = elim (Bool-cases (n == 9223372036854775807)) [
  | inl e ↦
      let e' : n ≡ 9223372036854775807 = (==_iff n _).0 e in absurd (ground (arith, abs64_least))
  | inr e ↦ ground arith
]

abbrev pub raises : Bool → ℤ → Bool
raises sys (pos n) = sys
raises sys (negsuc n) = not sys

-- A debit raises the system's accounts and lowers all others.
pub direction_of_side :
    (o : OwnerType) (v : ℤ) → is_debit (direction_of o v).0 ≡ raises (is_system o) v
unfolding direction_of
direction_of_side o (pos n) = ground arith
direction_of_side o (negsuc n) = ground arith

-- One move keeps the two sides of the accounting equation apart by debits less credits.
change-legs_step :
    (v : ℤ) (sys hit : Bool) (assets claims : ℤ) (debits credits : ℕ)
    → assets +ℤ pos credits ≡ claims +ℤ pos debits
    → let deb = raises sys v in
      (if hit && same true sys then v else pos 0)
        +ℤ assets
        +ℤ pos (if hit && same false deb then mag v + credits else credits)
      ≡ (if hit && same false sys then v else pos 0)
        +ℤ claims
        +ℤ pos (if hit && same true deb then mag v + debits else debits)
change-legs_step v sys false a c d r h = omega (int_laws, ap pos_part h, ap neg_part h)
change-legs_step (pos n) true true a c d r h = omega (int_laws, ap pos_part h, ap neg_part h)
change-legs_step (negsuc n) true true a c d r h = omega (int_laws, ap pos_part h, ap neg_part h)
change-legs_step (pos n) false true a c d r h = omega (int_laws, ap pos_part h, ap neg_part h)
change-legs_step (negsuc n) false true a c d r h = omega (int_laws, ap pos_part h, ap neg_part h)

module _ (c : Text) where
  -- The sizes of the moves of the currency that are debits, or that are credits.
  abbrev pub legs : Direction → List Move → ℕ
  legs side [] = 0
  legs side (m ∷ ms) =
      if text_eq m.account.currency c
        && same (is_debit side) (is_debit (direction_of m.account.owner_type m.delta).0)
      then mag m.delta + legs side ms
      else legs side ms

  -- What the two sides of the accounting equation owe to debits and credits.
  pub change-legs :
      (ms : List Move)
      → asset_change c ms +ℤ pos (legs credit ms) ≡ claim_change c ms +ℤ pos (legs debit ms)
  change-legs [] = omega int_laws
  change-legs (m ∷ ms) = rw (direction_of_side m.account.owner_type m.delta) (
      change-legs_step m.delta (is_system m.account.owner_type) (text_eq m.account.currency c)
        (asset_change c ms) (claim_change c ms) (legs debit ms) (legs credit ms) (change-legs ms))
