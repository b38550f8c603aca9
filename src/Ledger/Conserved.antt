-- ===== src/Ledger/Conserved.antt =====
-- The accounting equation over all accounts: in every currency the system's assets are the claims of
-- users, fees and all others, as `handleReconcile` (services/wallet/reconcile.go) compares them.
use lcex.Prelude.{
  ◌≡◌, ap, Bool, true, false, ◌&&◌, List, [], ◌∷◌, if◌then◌else◌, arith, Bool-cases, inl, inr,
}
use lcex.Prelude.Int.{ℤ, pos, ◌+ℤ◌, int_laws, parts_of_eq}
use lcex.Prelude.Text.{Text, text_eq}
use lcex.Db.{AccountRef, BizKey, Account, Db}
use lcex.Db.Store.{balance_of, store, sum_of, sum_of-store}
use lcex.Ledger.{Move, is_system}
use lcex.Ledger.Legs.{IsBalanced, same, change, change_of}
use lcex.Ledger.Effect.{Posted, Posts, Journaled, moved}

-- What an account counts for on one side of the equation in one currency.
abbrev pub counted : Bool → Text → AccountRef → ℤ → ℤ
counted side c r v = if text_eq r.currency c && same side (is_system r.owner_type) then v else pos 0

-- All balances of a currency on one side.
abbrev pub total : Bool → Text → List Account → ℤ
total side c = sum_of (counted side c)

abbrev pub assets : Text → List Account → ℤ
assets = total true

abbrev pub claims : Text → List Account → ℤ
claims = total false

-- Assets equal claims in every currency.
abbrev pub IsSolvent : Db → Type 0
IsSolvent d = (c : Text) → assets c d.accounts ≡ claims c d.accounts

counted_zero : (side : Bool) (c : Text) (r : AccountRef) → counted side c r (pos 0) ≡ pos 0
counted_zero side c r = ground arith

-- A move adds its change to the total of its side and currency.
total-Posted :
    (side : Bool) (c : Text) (k : BizKey) (m : Move) (d d' : Db)
    → Posted k m d d'
    → total side c d'.accounts ≡ total side c d.accounts +ℤ change_of side c m
total-Posted side c k m d d' p =
    rw (p.accounts)
      (elim (Bool-cases
        (text_eq m.account.currency c && same side (is_system m.account.owner_type))) [
          | inl t ↦ rw t (omega (int_laws, parts_of_eq (rw t at stored)))
          | inr t ↦ rw t (omega (int_laws, parts_of_eq (rw t at stored)))
        ])
  where
    stored :
        total side c (store m.account (moved m d) d.accounts)
          +ℤ counted side c m.account (balance_of m.account d.accounts)
        ≡ total side c d.accounts +ℤ counted side c m.account (moved m d)
    stored =
        sum_of-store (counted side c) m.account (moved m d) d.accounts
          (counted_zero side c m.account)

-- The moves of a journal add their changes to the total of every side and currency.
pub total-Posts :
    (side : Bool) (c : Text) (k : BizKey) (ms : List Move) (d d' : Db)
    → Posts k ms d d'
    → total side c d'.accounts ≡ total side c d.accounts +ℤ change side c ms
total-Posts side c k [] d d' p = rw p (omega int_laws)
total-Posts side c k (m ∷ ms) d d' (d₁, p, ps) = omega (
  int_laws,
  parts_of_eq (total-Posts side c k ms d₁ d' ps),
  parts_of_eq (total-Posted side c k m d d₁ p),
)

-- Moves that are balanced keep assets equal to claims.
pub balanced-IsSolvent :
    (k : BizKey) (ms : List Move) (d d' : Db)
    → IsBalanced ms
    → Journaled k ms d d'
    → IsSolvent d
    → IsSolvent d'
balanced-IsSolvent k ms d d' balanced j h c =
    let same_accounts : j.opened.accounts ≡ d.accounts = ap (λ (x : Db). x.accounts) j.inserted in
    omega (
      int_laws,
      parts_of_eq (total-Posts true c k ms j.opened d' j.posts),
      parts_of_eq (total-Posts false c k ms j.opened d' j.posts),
      parts_of_eq (balanced c),
      parts_of_eq (ap (total true c) same_accounts),
      parts_of_eq (ap (total false c) same_accounts),
      parts_of_eq (h c),
    )
