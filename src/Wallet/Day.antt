-- ===== src/Wallet/Day.antt =====
-- The daily limit of services/risk/main.go on the withdrawals of services/wallet/api.go: the two services
-- together, on one database.
use lcex.Prelude.{
  ◌≡◌, refl, ℕ, ◌+◌, ◌≤◌, ◌<◌, true, List, [], ◌∷◌, ◌++◌, arith, Option, some, ok, Bool-cases, inl,
  inr,
}
use lcex.Prelude.Int.{ℤ, pos, ltb_ℤ, ◌+ℤ◌, int_laws}
use lcex.Prelude.Word.{u64_mod, i64_mod, add64, int64, uint64, int64_exact}
use lcex.Prelude.Text.{Text, codes, text_eq_iff, to_upper}
use lcex.Prelude.Dict.{find}
use lcex.Fixed.{parse, format}
use lcex.Fixed.RoundTrip.{parse-format}
use lcex.Chains.{ChainConfig}
use lcex.Request.{parse_user_id}
use lcex.Db.{Db, WithdrawalRow}
use lcex.Db.Keys.{eq_ℤ_iff}
use lcex.Db.Wallet.{counts_today, used_since}
use lcex.Risk.{RiskService, WithdrawCheck, used_amount, handle_withdraw_check}
use lcex.Risk.Verdicts.{Passes, allows_iff}
use lcex.Wallet.{withdrawal}
use lcex.Wallet.Withdrawals.{
  RiskReply, answered, risk_code, WithdrawReq, check_of, client_id_of, withdrawal_row,
  handle_withdraw,
}
use lcex.Wallet.Paid.{PaidOut-tables}
use lcex.Wallet.Allowed.{handle_withdraw_inv, withdraw_allowed_inv, withdraw_allowed_amount}

-- The sum of `usedToday`, where its query does not fail.
abbrev pub used_in : ℕ → Db → ℤ → Text → Option ℤ
used_in day d user_id currency = some (used_since day user_id currency d.withdrawals)

-- The call of a risk service that can be reached and reads the same database.
abbrev pub risk_of : RiskService → ℕ → Db → WithdrawCheck → RiskReply
risk_of s day d c = answered (handle_withdraw_check (used_in day d) s (some c))

used_since-append :
    (day : ℕ) (user_id : ℤ) (currency : Text) (w : WithdrawalRow) (ws : List WithdrawalRow)
    → counts_today day user_id currency w ≡ true
    → used_since day user_id currency (ws ++ w ∷ [])
      ≡ used_since day user_id currency ws +ℤ w.amount
unfolding used_since
used_since-append day user_id currency w [] h = rw h (omega int_laws)
used_since-append day user_id currency w (v ∷ ws) h =
    let ih = used_since-append day user_id currency w ws h in
    elim (Bool-cases (counts_today day user_id currency v)) [
      | inl t ↦ rw (t, ih) (omega int_laws)
      | inr f ↦ rw (f, ih) refl
    ]

-- A code of 0 is an allowed withdrawal.
risk_code_zero :
    (s : RiskService) (day : ℕ) (d : Db) (c : WithdrawCheck)
    → risk_code (risk_of s day d c) ≡ some 0
    → (handle_withdraw_check (used_in day d) s (some c)).allow ≡ true
unfolding risk_code
risk_code_zero s day d c h = ground arith

new_row_counts :
    (day now : ℕ) (user_id id : ℤ) (currency : Text) (w : WithdrawalRow)
    → w.user_id ≡ user_id
    → w.currency ≡ currency
    → w.status ≡ codes "broadcasting"
    → day ≤ w.created_at
    → counts_today day user_id currency (record w { id = id }) ≡ true
new_row_counts day now user_id id currency w u c s t = ground (
  arith,
  eq_ℤ_iff w.user_id user_id,
  text_eq_iff w.currency currency,
  text_eq_iff w.status (codes "broadcasting"),
)

used_amount_pos : (used : ℕ) → used < i64_mod → used_amount (pos used) ≡ used
unfolding used_amount uint64
used_amount_pos used h = ground arith

-- An amount that the table takes as positive.
positive_int64 : (amt : ℕ) → ltb_ℤ (pos 0) (int64 amt) ≡ true → amt < i64_mod
unfolding int64
positive_int64 amt h = ground arith

within_limit :
    (s : RiskService) (day : ℕ) (d : Db) (c : WithdrawCheck) (amt limit used : ℕ)
    → amt < u64_mod
    → c.amount ≡ format amt
    → find (to_upper c.currency) s.daily ≡ some limit
    → used_since day c.user_id (to_upper c.currency) d.withdrawals ≡ pos used
    → used < i64_mod
    → Passes (used_in day d) s c
    → add64 used amt ≤ limit
within_limit s day d c amt limit used small text daily sum fits p =
    let parsed : parse c.amount ≡ ok amt = rw text (parse-format amt small) in
    let same : p.amount ≡ amt = ground (arith, p.parsed) in
    let (n, e, le) = p.admitted.within limit daily in
    let n_used : n ≡ pos used = ground (arith, sum) in
    rw (same, n_used, used_amount_pos used fits) at le

-- Where the risk service can be reached and reads the database that the withdrawal is written to: a
-- withdrawal that is answered as made, in a currency in upper case with a daily limit, leaves its user
-- with a sum of the day that is the old one and the amount, and at most the limit, if the old sum is a
-- number below 2 ^ 63 and the clock of the database is not before the start of the day.
pub day_limit :
    (s : RiskService) (cfg : ChainConfig) (header : Text) (req : WithdrawReq) (user_id : ℤ)
    (nanos : ℤ) (now day limit used : ℕ) (d d' : Db) (id : ℤ) (a f : ℕ)
    → parse_user_id header ≡ some user_id
    → to_upper req.currency ≡ req.currency
    → find req.currency s.daily ≡ some limit
    → used_since day user_id req.currency d.withdrawals ≡ pos used
    → used < i64_mod
    → day ≤ now
    → handle_withdraw (risk_of s day d) cfg header (some req) nanos now d ≡ (withdrawal id a f, d')
    → (used_since day user_id req.currency d'.withdrawals ≡ pos (used + a)) × (used + a ≤ limit)
day_limit s cfg header req user_id nanos now day limit used d d' id a f user upper daily sum fits
      later h =
    let (u, ch, amt, allowed, made) =
      handle_withdraw_inv (risk_of s day d) cfg header req nanos now d id a f d' h in
    let same_user : u ≡ user_id = ground (arith, allowed.user) in
    let paid = withdraw_allowed_inv u req ch amt nanos now d d' id a f made in
    let same_amount = withdraw_allowed_amount u req ch amt nanos now d d' id a f made in
    let small = positive_int64 amt paid.inserted.amount in
    let c = check_of u req amt in
    let w = withdrawal_row u req ch amt (client_id_of u req.client_order_id nanos) now in
    let passes = (allows_iff (used_in day d) s c).0 (risk_code_zero s day d c allowed.risk_zero) in
    let before : used_since day u (to_upper req.currency) d.withdrawals ≡ pos used =
      rw (upper, same_user) sum in
    let within =
      within_limit s day d c amt limit used (omega (arith, small)) refl (rw upper daily) before fits
        passes in
    let rows = (PaidOut-tables w amt ch.withdraw_fee id d d' paid).1 in
    let counts = new_row_counts day now user_id id req.currency w same_user refl refl later in
    let grown =
      used_since-append day user_id req.currency (record w { id = id }) d.withdrawals counts in
    let amount : int64 amt ≡ pos amt = int64_exact amt small in
    (
      rw (rows, grown, sum, amount, same_amount) (omega int_laws),
      omega (arith, within, small, fits, same_amount),
    )
