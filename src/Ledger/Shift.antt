-- ===== src/Ledger/Shift.antt =====
-- A journal of two moves that shifts an amount between the two accounts of a user in one currency: the
-- freezes and the releases of the services.
use lcex.Prelude.{
  ◌≡◌, ◌≢◌, refl, if◌then◌else◌, ◌<◌, List, [], ◌∷◌, false, Bool-cases, inl, inr, arith,
}
use lcex.Prelude.Int.{ℤ, pos, pos_part, neg_part, ◌+ℤ◌, ◌-ℤ◌, parts_of_eq, int_laws, minus_parts}
use lcex.Prelude.Word.{i64_mod, wrap64, wrap64_exact, IsInt64}
use lcex.Prelude.Text.{Text, text_eq}
use lcex.Db.{AccountType, AccountRef, Account, BizKey, Db, user}
use lcex.Db.Keys.{ref_eq, ref_eq_iff}
use lcex.Db.Store.{balance_of, store, find_balance-store}
use lcex.Ledger.{Move, user_ref, post}
use lcex.Ledger.Legs.{small_of_amount}
use lcex.Ledger.Effect.{Posts}
use lcex.Ledger.Invariant.{IsLedger, IsSound, post-IsLedger_of}

abbrev pub shift : ℤ → Text → AccountType → AccountType → ℤ → List Move
shift u c source target r =
    record { account = user_ref u c source; delta = wrap64 (pos 0 -ℤ r) }
    ∷ record { account = user_ref u c target; delta = r }
    ∷ []

-- The int64 values but the least one.
abbrev pub IsShiftable : ℤ → Type 0
IsShiftable r = (pos_part r < i64_mod) × (neg_part r < i64_mod)

pub minus_exact : (r : ℤ) → IsShiftable r → wrap64 (pos 0 -ℤ r) ≡ pos 0 -ℤ r
minus_exact r h = wrap64_exact (pos 0 -ℤ r) (omega (arith, h, minus_parts r))

pub shift-IsSound :
    (u : ℤ) (c : Text) (source target : AccountType) (r : ℤ)
    → IsShiftable r
    → IsSound (shift u c source target r)
shift-IsSound u c source target r h = rw (minus_exact r h) (
  (omega (arith, h, minus_parts r), (omega (arith, h), tt)),
  (λ c'. elim (Bool-cases (text_eq c c')) [
    | inl e ↦ rw e (omega int_laws)
    | inr e ↦ rw e (omega int_laws)
  ]),
)

-- The least int64 is never shifted: its entry would have a negative amount.
pub posted-IsShiftable :
    (k : BizKey) (u : ℤ) (c : Text) (source target : AccountType) (r : ℤ) (d d' : Db)
    → IsInt64 r
    → Posts k (shift u c source target r) d d'
    → IsShiftable r
posted-IsShiftable k u c source target r d d' h (d₁, p, (d₂, q, _)) =
    omega (arith, small_of_amount user r h q.amount)

-- `Post` of a shift of any int64 keeps the books.
pub post-shift-IsLedger :
    (k : BizKey) (u : ℤ) (c : Text) (source target : AccountType) (r : ℤ) (d : Db)
    → IsInt64 r
    → IsLedger d
    → IsLedger (post k (shift u c source target r) d).1
post-shift-IsLedger k u c source target r d h =
    post-IsLedger_of k (shift u c source target r) d (λ start end_ j.
      shift-IsSound u c source target r
        (posted-IsShiftable k u c source target r j.opened end_ h j.posts))

-- Two accounts of a user in one currency, of different kinds.
pub kinds_apart :
    (u : ℤ) (c : Text) (a b : AccountType)
    → a ≢ b
    → ref_eq (user_ref u c a) (user_ref u c b) ≡ false
kinds_apart u c a b h = ground (arith, ref_eq_iff (user_ref u c a) (user_ref u c b))

balance_of-store :
    (a b : AccountRef) (v : ℤ) (rows : List Account)
    → balance_of b (store a v rows) ≡ (if ref_eq a b then v else balance_of b rows)
balance_of-store a b v rows = ground (arith, find_balance-store a b v rows)

-- Between two accounts of different kinds, a shift that was posted has lowered the balance of the source
-- by the amount and raised that of the target by it, and neither is negative.
pub shifted_balances :
    (k : BizKey) (u : ℤ) (c : Text) (source target : AccountType) (r : ℤ) (d d' : Db)
    → IsInt64 r
    → source ≢ target
    → target ≢ source
    → Posts k (shift u c source target r) d d'
    → (balance_of (user_ref u c source) d'.accounts
        ≡ balance_of (user_ref u c source) d.accounts -ℤ r)
      × (balance_of (user_ref u c target) d'.accounts
          ≡ balance_of (user_ref u c target) d.accounts +ℤ r)
shifted_balances k u c source target r d d' fits apart apart' (d₁, p, (d₂, q, e)) =
    let s = user_ref u c source in
    let t = user_ref u c target in
    let small : IsShiftable r = omega (arith, small_of_amount user r fits q.amount) in
    let minus = minus_exact r small in
    let there = kinds_apart u c source target apart in
    let back = kinds_apart u c target source apart' in
    let self_s = (ref_eq_iff s s).1 refl in
    let self_t = (ref_eq_iff t t).1 refl in
    let at_s : balance_of s d₁.accounts ≡ balance_of s d.accounts +ℤ (pos 0 -ℤ r) =
      rw (p.accounts, balance_of-store, self_s, minus) refl in
    let at_t : balance_of t d₁.accounts ≡ balance_of t d.accounts =
      rw (p.accounts, balance_of-store, there) refl in
    (
      rw (e, q.accounts, balance_of-store, back) (omega (int_laws, parts_of_eq at_s)),
      rw (e, q.accounts, balance_of-store, self_t) (omega (int_laws, parts_of_eq at_t)),
    )
