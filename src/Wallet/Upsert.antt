-- ===== src/Wallet/Upsert.antt =====
-- On the statement that reports a deposit (services/wallet/api.go): the row that it returns.
use mathlib.Core.Path.{subst}
use lcex.Prelude.{
  ◌≡◌, refl, true, false, not, ◌&&◌, List, [], ◌∷◌, ◌++◌, All, All-append, arith, ok, err, some,
  Result-cases, Option-cases, Bool-cases, inl, inr,
}
use lcex.Prelude.Int.{ℤ, pos, ltb_ℤ, ◌+ℤ◌, +ℤ_parts}
use lcex.Prelude.Text.{codes, text_eq}
use lcex.Ledger.Atomic.{reach_keeps}
use lcex.Db.{Db, DepositRow, Err, reach, BizKey, raise_if, out_of_range, ◌>>◌}
use lcex.Db.Inversion.{>>=-eq-ok, reach_ok}
use lcex.Ledger.Effect.{raise_if_ok}
use lcex.Db.Keys.{eq_ℤ_iff}
use lcex.Db.Statements.{has_text, has_journal}
use lcex.Db.Wallet.{put_deposit, upsert_deposit, find_deposit, set_deposit, in_int32}
use lcex.Wallet.{onchain_key}
use lcex.Wallet.Rows.{
  HasOtherId, IsNumbered, IsBacked, IsOf, set_deposit-All, find_deposit-All, find_deposit_key,
  set_deposit-IsNumbered, set_deposit-IsOf,
}

-- What the invariant of the deposits is.
pub record AreDeposits (d : Db) : Type 0 where
  pub numbered : IsNumbered d.next_deposit_id d.deposits
  pub backed : All (IsBacked d.journals) d.deposits

-- What is known of the row that the upsert returns.
pub record IsRow (k : BizKey) (p : DepositRow) (d : Db) : Type 0 where
  pub deposits : AreDeposits d
  pub of : All (IsOf p.id k) d.deposits
  pub backed : text_eq p.status (codes "credited") ≡ true → has_journal k d.journals ≡ true

later-IsNumbered :
    (next : ℤ) (ps : List DepositRow) → IsNumbered next ps → IsNumbered (next +ℤ pos 1) ps
later-IsNumbered next [] h = tt
later-IsNumbered next (p ∷ ps) h =
    (omega (arith, h.0, +ℤ_parts next (pos 1)), h.1, later-IsNumbered next ps h.2)

append-IsNumbered :
    (p : DepositRow) (ps : List DepositRow)
    → IsNumbered p.id ps
    → IsNumbered (p.id +ℤ pos 1) (ps ++ p ∷ [])
append-IsNumbered p [] h = (omega (arith, +ℤ_parts p.id (pos 1)), tt, tt)
append-IsNumbered p (q ∷ ps) h = (
  omega (arith, h.0, +ℤ_parts p.id (pos 1)),
  All-append (HasOtherId q) ps (p ∷ []) h.1 (ground (arith, eq_ℤ_iff p.id q.id), tt),
  append-IsNumbered p ps h.2,
)

fresh-IsOf : (id : ℤ) (k : BizKey) (ps : List DepositRow) → IsNumbered id ps → All (IsOf id k) ps
fresh-IsOf id k [] h = tt
fresh-IsOf id k (p ∷ ps) h =
    ((λ t. absurd (ground (arith, eq_ℤ_iff p.id id, h.0))), fresh-IsOf id k ps h.2)

-- The output was reported before.
old-IsRow :
    (p q : DepositRow) (d : Db)
    → find_deposit p.txid p.output_index d.deposits ≡ some q
    → AreDeposits d
    → IsRow
        (onchain_key p.txid p.output_index)
        (record q { confirmations = p.confirmations })
        (record d {
          next_deposit_id = d.next_deposit_id +ℤ pos 1;
          deposits = set_deposit (record q { confirmations = p.confirmations }) d.deposits;
        })
old-IsRow p q d found h =
    let (same_txid, same_index) = find_deposit_key p.txid p.output_index d.deposits q found in
    let row = record q { confirmations = p.confirmations } in
    let here = rw (← same_txid, ← same_index) at found in
    let key : onchain_key q.txid q.output_index ≡ onchain_key p.txid p.output_index =
      λ i. onchain_key (same_txid i) (same_index i) in
    let backed : IsBacked d.journals q =
      find_deposit-All (IsBacked d.journals) p.txid p.output_index d.deposits {q = q} h.backed
        found in
    record {
      deposits = record {
        numbered =
            set_deposit-IsNumbered q p.confirmations (d.next_deposit_id +ℤ pos 1) d.deposits here
              (later-IsNumbered d.next_deposit_id d.deposits h.numbered);
        backed = set_deposit-All (IsBacked d.journals) row d.deposits backed h.backed;
      };
      of =
          subst (λ k. All (IsOf q.id k) (set_deposit row d.deposits)) key
            (set_deposit-IsOf q p.confirmations d.next_deposit_id d.deposits here h.numbered);
      backed = λ t. subst (λ k. has_journal k d.journals ≡ true) key (backed t);
    }

-- The output is reported for the first time.
new-IsRow :
    (p : DepositRow) (d : Db)
    → text_eq p.status (codes "credited") ≡ false
    → AreDeposits d
    → IsRow
        (onchain_key p.txid p.output_index)
        (record p { id = d.next_deposit_id })
        (record d {
          next_deposit_id = d.next_deposit_id +ℤ pos 1;
          deposits = d.deposits ++ record p { id = d.next_deposit_id } ∷ [];
        })
new-IsRow p d fresh h =
    let row = record p { id = d.next_deposit_id } in
    let k = onchain_key p.txid p.output_index in
    record {
      deposits = record {
        numbered = append-IsNumbered row d.deposits h.numbered;
        backed = All-append (IsBacked d.journals) d.deposits (row ∷ []) h.backed ((λ t. cc), tt);
      };
      of =
          All-append (IsOf row.id k) d.deposits (row ∷ [])
            (fresh-IsOf row.id k d.deposits h.numbered) ((λ _. refl), tt);
      backed = λ t. cc;
    }

-- The statement keeps the invariant, and its row is that of the output.
put_deposit-IsRow :
    (p r : DepositRow) (d d' : Db)
    → text_eq p.status (codes "credited") ≡ false
    → put_deposit p d ≡ (ok r, d')
    → AreDeposits d
    → IsRow (onchain_key p.txid p.output_index) r d'
unfolding put_deposit
put_deposit-IsRow p r d d' fresh e h = elim (Bool-cases (ltb_ℤ (pos 0) p.amount)) [
  | inr f ↦ absurd (ground arith)
  | inl t ↦ elim (Option-cases (find_deposit p.txid p.output_index d.deposits)) [
    | inr (q, found) ↦
        let row : r ≡ record q { confirmations = p.confirmations } = ground arith in
        let after : d' ≡ record d {
          next_deposit_id = d.next_deposit_id +ℤ pos 1;
          deposits = set_deposit (record q { confirmations = p.confirmations }) d.deposits;
        } =
          ground arith in
        rw (row, after) (old-IsRow p q d found h)
    | inl found ↦ elim (Bool-cases (has_text p.currency d.currencies)) [
      | inr f ↦ absurd (ground arith)
      | inl k ↦
          let row : r ≡ record p { id = d.next_deposit_id } = ground arith in
          let after : d' ≡ record d {
            next_deposit_id = d.next_deposit_id +ℤ pos 1;
            deposits = d.deposits ++ record p { id = d.next_deposit_id } ∷ [];
          } =
            ground arith in
          rw (row, after) (new-IsRow p d fresh h)
    ]
  ]
]

pub upsert_deposit-IsRow :
    (p r : DepositRow) (d d' : Db)
    → text_eq p.status (codes "credited") ≡ false
    → upsert_deposit p d ≡ (ok r, d')
    → AreDeposits d
    → IsRow (onchain_key p.txid p.output_index) r d'
unfolding upsert_deposit
upsert_deposit-IsRow p r d d' fresh e h =
    let small = in_int32 p.output_index && (in_int32 p.confirmations && in_int32 p.required_conf) in
    let insert = reach >> put_deposit p in
    let (_, d₁, fits, e₁) = >>=-eq-ok (raise_if (not small) out_of_range) (λ _. insert) d d' e in
    let (_, d₂, through, e₂) = >>=-eq-ok reach (λ _. put_deposit p) d₁ d' e₁ in
    let same = (raise_if_ok (not small) out_of_range d d₁ fits).1 in
    let kept = reach_ok d₁ d₂ through in
    let before : AreDeposits d₂ =
      rw (kept, same) (record { numbered = h.numbered; backed = h.backed }) in
    put_deposit-IsRow p r d₂ d' fresh e₂ before

-- An id that is taken in vain.
skipped-AreDeposits :
    (d d' : Db)
    → d' ≡ record d { next_deposit_id = d.next_deposit_id +ℤ pos 1 }
    → AreDeposits d
    → AreDeposits d'
skipped-AreDeposits d d' same h = rw same record {
  numbered = later-IsNumbered d.next_deposit_id d.deposits h.numbered;
  backed = h.backed;
}

put_deposit_err :
    (p : DepositRow) (e : Err) (d d' : Db)
    → put_deposit p d ≡ (err e, d')
    → d' ≡ record d { next_deposit_id = d.next_deposit_id +ℤ pos 1 }
unfolding put_deposit
put_deposit_err p e d d' h = elim (Bool-cases (ltb_ℤ (pos 0) p.amount)) [
  | inr f ↦ ground arith
  | inl t ↦ elim (Option-cases (find_deposit p.txid p.output_index d.deposits)) [
    | inr (q, found) ↦ absurd (ground arith)
    | inl found ↦ elim (Bool-cases (has_text p.currency d.currencies)) [
      | inr f ↦ ground arith
      | inl k ↦ absurd (ground arith)
    ]
  ]
]

faults-AreDeposits :
    (d d' : Db) → d' ≡ record d { faults = d'.faults } → AreDeposits d → AreDeposits d'
faults-AreDeposits d d' same h = rw same record { numbered = h.numbered; backed = h.backed }

pub upsert_deposit_err-AreDeposits :
    (p : DepositRow) (e : Err) (d d' : Db)
    → upsert_deposit p d ≡ (err e, d')
    → AreDeposits d
    → AreDeposits d'
unfolding upsert_deposit
upsert_deposit_err-AreDeposits p e d d' h are =
    let small = in_int32 p.output_index && (in_int32 p.confirmations && in_int32 p.required_conf) in
    elim (Bool-cases small) [
      | inr f ↦ faults-AreDeposits d d' (ground arith) are
      | inl t ↦
          let d₁ = (reach d).1 in
          let kept = faults-AreDeposits d d₁ (reach_keeps d) are in
          elim (Result-cases (reach d).0) [
            | inr (x, q) ↦ faults-AreDeposits d d' (ground (arith, reach_keeps d)) are
            | inl (_, q) ↦ skipped-AreDeposits d₁ d' (put_deposit_err p e d₁ d' (ground arith)) kept
          ]
    ]
