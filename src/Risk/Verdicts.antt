-- ===== src/Risk/Verdicts.antt =====
-- On `handleWithdrawCheck` of services/risk/main.go: what an allowed withdrawal has passed.
use lcex.Prelude.{
  ◌≡◌, refl, ap, ℕ, ◌≤◌, true, false, arith, Option, none, some, ltb, ok, Result-cases, Bool-cases,
  inl, inr, ◌↔◌,
}
use lcex.Prelude.Int.{ℤ}
use lcex.Prelude.Word.{add64}
use lcex.Prelude.Text.{Text, to_upper}
use lcex.Prelude.Dict.{find}
use lcex.Fixed.{parse}
use lcex.Db.Statements.{has_text}
use lcex.Risk.{RiskService, WithdrawCheck, used_amount, daily_verdict, handle_withdraw_check}

-- The limit of the day admits the amount; it is compared with a sum on uint64.
pub record IsAdmitted (limit : Option ℕ) (used : Option ℤ) (amt : ℕ) : Type 0 where
  pub within :
      (l : ℕ) → limit ≡ some l → (n : ℤ) × (used ≡ some n) × (add64 (used_amount n) amt ≤ l)

daily_verdict_inv :
    (limit : Option ℕ) (used : Option ℤ) (amt : ℕ)
    → (daily_verdict limit used amt).allow ≡ true
    → IsAdmitted limit used amt
unfolding daily_verdict
daily_verdict_inv none used amt h = record { within = λ l e. absurd (ground arith) }
daily_verdict_inv (some l) none amt h = absurd (ground arith)
daily_verdict_inv (some l) (some n) amt h = record { within = λ l' e. (n, refl, ground arith) }

daily_verdict_admitted :
    (limit : Option ℕ) (used : Option ℤ) (amt : ℕ)
    → IsAdmitted limit used amt
    → (daily_verdict limit used amt).allow ≡ true
unfolding daily_verdict
daily_verdict_admitted none used amt h = refl
daily_verdict_admitted (some l) none amt h =
    let (n, e, _) = h.within l refl in absurd (ground arith)
daily_verdict_admitted (some l) (some n) amt h =
    let (n', e, fits) = h.within l refl in
    let same : n ≡ n' = ground arith in
    let f : ltb l (add64 (used_amount n) amt) ≡ false = ground (arith, ap used_amount same) in
    rw f refl

-- What a withdrawal is asked to pass.
pub record Passes (used : ℤ → Text → Option ℤ) (s : RiskService) (req : WithdrawCheck)
    : Type 0 where
  pub running : s.withdraw_off ≡ false
  pub undenied : has_text req.address s.deny ≡ false
  pub amount : ℕ
  pub parsed : parse req.amount ≡ ok amount
  pub admitted :
      IsAdmitted
        (find (to_upper req.currency) s.daily)
        (used req.user_id (to_upper req.currency))
        amount

allowed-Passes :
    (used : ℤ → Text → Option ℤ) (s : RiskService) (req : WithdrawCheck)
    → (handle_withdraw_check used s (some req)).allow ≡ true
    → Passes used s req
unfolding handle_withdraw_check
allowed-Passes used s req h = elim (Bool-cases s.withdraw_off) [
  | inl t ↦ absurd (ground arith)
  | inr f ↦ elim (Bool-cases (has_text req.address s.deny)) [
    | inl t ↦ absurd (ground arith)
    | inr g ↦ elim (Result-cases (parse req.amount)) [
      | inr (x, e) ↦ absurd (ground arith)
      | inl (amt, e) ↦ record {
        running = f;
        undenied = g;
        amount = amt;
        parsed = e;
        admitted =
            daily_verdict_inv (find (to_upper req.currency) s.daily)
              (used req.user_id (to_upper req.currency)) amt (ground arith);
      }
    ]
  ]
]

Passes-allowed :
    (used : ℤ → Text → Option ℤ) (s : RiskService) (req : WithdrawCheck)
    → Passes used s req
    → (handle_withdraw_check used s (some req)).allow ≡ true
unfolding handle_withdraw_check
Passes-allowed used s req p = ground (
  arith,
  p.running,
  p.undenied,
  p.parsed,
  daily_verdict_admitted (find (to_upper req.currency) s.daily)
      (used req.user_id (to_upper req.currency)) p.amount p.admitted,
)

-- `handleWithdrawCheck` allows a withdrawal exactly if withdrawals are not paused, the address is not
-- denied, the amount parses, and, where its currency has a limit, the sum of the day was read and together
-- with the amount, added on uint64, is at most the limit.
pub allows_iff :
    (used : ℤ → Text → Option ℤ) (s : RiskService) (req : WithdrawCheck)
    → ((handle_withdraw_check used s (some req)).allow ≡ true) ↔ Passes used s req
allows_iff used s req = (allowed-Passes used s req, Passes-allowed used s req)
