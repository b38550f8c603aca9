-- ===== src/Wallet/Rows.antt =====
-- On the table `deposits` of services/wallet/api.go: ids are not used twice, so that the row that is
-- credited is the one of its output.
use lcex.Prelude.{
  ◌≡◌, refl, ◌+◌, ◌<◌, true, false, ◌&&◌, List, [], ◌∷◌, All, All-weaken, arith, some, Bool-cases,
  inl, inr,
}
use lcex.Prelude.Int.{ℤ, pos_part, neg_part}
use lcex.Prelude.Text.{Text, codes, text_eq, text_eq_iff}
use lcex.Db.{DepositRow, BizKey}
use lcex.Db.Keys.{eq_ℤ, eq_ℤ_iff}
use lcex.Db.Statements.{has_journal}
use lcex.Db.Wallet.{find_deposit, set_deposit, credit_rows}
use lcex.Wallet.{onchain_key}

abbrev pub IsBelow : ℤ → ℤ → Type 0
IsBelow a b = pos_part a + neg_part b < pos_part b + neg_part a

abbrev pub HasOtherId : DepositRow → DepositRow → Type 0
HasOtherId p q = eq_ℤ q.id p.id ≡ false

-- The ids differ and lie below the next one.
abbrev pub IsNumbered : ℤ → List DepositRow → Type 0
IsNumbered next [] = Unit
IsNumbered next (p ∷ ps) = IsBelow p.id next × All (HasOtherId p) ps × IsNumbered next ps

-- A row that was credited has its journal.
abbrev pub IsBacked : List BizKey → DepositRow → Type 0
IsBacked js p =
    text_eq p.status (codes "credited") ≡ true
    → has_journal (onchain_key p.txid p.output_index) js ≡ true

-- The rows with the id are of the output.
abbrev pub IsOf : ℤ → BizKey → DepositRow → Type 0
IsOf id k p = eq_ℤ p.id id ≡ true → onchain_key p.txid p.output_index ≡ k

pub set_deposit-All :
    (P : DepositRow → Type 0) (p : DepositRow) (ps : List DepositRow)
    → P p
    → All P ps
    → All P (set_deposit p ps)
unfolding set_deposit
set_deposit-All P p [] h hs = tt
set_deposit-All P p (q ∷ qs) h hs =
    elim (Bool-cases (text_eq q.txid p.txid && eq_ℤ q.output_index p.output_index)) [
      | inl t ↦ rw t (h, hs.1)
      | inr f ↦ rw f (hs.0, set_deposit-All P p qs h hs.1)
    ]

pub credit_rows-IsBacked :
    (id : ℤ) (k : BizKey) (js : List BizKey) (ps : List DepositRow)
    → has_journal k js ≡ true
    → All (IsOf id k) ps
    → All (IsBacked js) ps
    → All (IsBacked js) (credit_rows id ps)
unfolding credit_rows
credit_rows-IsBacked id k js [] there of h = tt
credit_rows-IsBacked id k js (p ∷ ps) there of h =
    elim (Bool-cases (eq_ℤ p.id id && text_eq p.status (codes "pending"))) [
      | inl t ↦
          let key : onchain_key p.txid p.output_index ≡ k = of.0 (ground arith) in
          rw t ((λ _. rw key there), h.1)
      | inr f ↦ rw f (h.0, credit_rows-IsBacked id k js ps there of.1 h.1)
    ]

pub credit_rows-All :
    (P : DepositRow → Type 0) (id : ℤ) (ps : List DepositRow)
    → ((p : DepositRow) → P p → P (record p { status = codes "credited" }))
    → All P ps
    → All P (credit_rows id ps)
unfolding credit_rows
credit_rows-All P id [] f h = tt
credit_rows-All P id (p ∷ ps) f h =
    elim (Bool-cases (eq_ℤ p.id id && text_eq p.status (codes "pending"))) [
      | inl t ↦ rw t (f p h.0, h.1)
      | inr g ↦ rw g (h.0, credit_rows-All P id ps f h.1)
    ]

pub credit_rows-IsNumbered :
    (id next : ℤ) (ps : List DepositRow) → IsNumbered next ps → IsNumbered next (credit_rows id ps)
unfolding credit_rows
credit_rows-IsNumbered id next [] h = tt
credit_rows-IsNumbered id next (p ∷ ps) h =
    elim (Bool-cases (eq_ℤ p.id id && text_eq p.status (codes "pending"))) [
      | inl t ↦ rw t h
      | inr f ↦ rw f (
        h.0,
        credit_rows-All (HasOtherId p) id ps (λ q o. o) h.1,
        credit_rows-IsNumbered id next ps h.2,
      )
    ]

pub find_deposit-All :
    (P : DepositRow → Type 0) (txid : Text) (i : ℤ) (ps : List DepositRow) {q : DepositRow}
    → All P ps
    → find_deposit txid i ps ≡ some q
    → P q
unfolding find_deposit
find_deposit-All P txid i [] h e = absurd (ground arith)
find_deposit-All P txid i (p ∷ ps) {q} h e =
    elim (Bool-cases (text_eq p.txid txid && eq_ℤ p.output_index i)) [
      | inl t ↦ let same : p ≡ q = ground arith in rw same at h.0
      | inr f ↦ find_deposit-All P txid i ps {q = q} h.1 (rw f at e)
    ]

-- The row that is found is of the output.
pub find_deposit_key :
    (txid : Text) (i : ℤ) (ps : List DepositRow) (q : DepositRow)
    → find_deposit txid i ps ≡ some q
    → (q.txid ≡ txid) × (q.output_index ≡ i)
unfolding find_deposit
find_deposit_key txid i [] q e = absurd (ground arith)
find_deposit_key txid i (p ∷ ps) q e =
    elim (Bool-cases (text_eq p.txid txid && eq_ℤ p.output_index i)) [
      | inl t ↦ ground (arith, text_eq_iff p.txid txid, eq_ℤ_iff p.output_index i)
      | inr f ↦ find_deposit_key txid i ps q (rw f at e)
    ]

-- The row of an output with other confirmations.
module _ (q : DepositRow) (c : ℤ) where
  abbrev pub confirmed_row : DepositRow
  confirmed_row = record q { confirmations = c }

  pub set_deposit-IsNumbered :
      (next : ℤ) (ps : List DepositRow)
      → find_deposit q.txid q.output_index ps ≡ some q
      → IsNumbered next ps
      → IsNumbered next (set_deposit confirmed_row ps)
  unfolding set_deposit find_deposit
  set_deposit-IsNumbered next [] e h = tt
  set_deposit-IsNumbered next (p ∷ ps) e h =
      elim (Bool-cases (text_eq p.txid q.txid && eq_ℤ p.output_index q.output_index)) [
        | inl t ↦ let same : p ≡ q = ground arith in rw t (rw same at h)
        | inr f ↦
            let there = rw f at e in
            rw f (
              h.0,
              set_deposit-All (HasOtherId p) confirmed_row ps
                  (find_deposit-All (HasOtherId p) q.txid q.output_index ps {q = q} h.1 there) h.1,
              set_deposit-IsNumbered next ps there h.2,
            )
      ]

  pub set_deposit-IsOf :
      (next : ℤ) (ps : List DepositRow)
      → find_deposit q.txid q.output_index ps ≡ some q
      → IsNumbered next ps
      → All (IsOf q.id (onchain_key q.txid q.output_index)) (set_deposit confirmed_row ps)
  unfolding set_deposit find_deposit
  set_deposit-IsOf next [] e h = tt
  set_deposit-IsOf next (p ∷ ps) e h =
      let k = onchain_key q.txid q.output_index in
      elim (Bool-cases (text_eq p.txid q.txid && eq_ℤ p.output_index q.output_index)) [
        | inl t ↦
            let same : p ≡ q = ground arith in
            let others = rw same at h.1 in
            rw t (
              (λ _. refl),
              All-weaken (HasOtherId q) (IsOf q.id k) ps (λ r o t. absurd (ground arith)) others,
            )
        | inr f ↦
            let there = rw f at e in
            let other =
              find_deposit-All (HasOtherId p) q.txid q.output_index ps {q = q} h.1 there in
            rw f (
              (λ t. absurd (ground (arith, eq_ℤ_iff p.id q.id, eq_ℤ_iff q.id p.id))),
              set_deposit-IsOf next ps there h.2,
            )
      ]
