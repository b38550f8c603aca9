-- ===== src/Risk.antt =====
-- The risk service (services/risk/main.go): the switches, the denied addresses, the daily limit on
-- withdrawals. The sum of a user's withdrawals of the day is an SQL query on a table of the wallet
-- service: what it returns is a parameter here, and Wallet/Day computes it.
pub mod Verdicts
use lcex.Prelude.{
  ℕ, ◌+◌, Bool, true, false, not, ◌&&◌, ◌||◌, ◌==◌, List, [], ◌∷◌, Option, none, some, ltb,
  if◌then◌else◌, Result, ok, err,
}
use lcex.Prelude.Int.{ℤ, pos, ltb_ℤ}
use lcex.Prelude.Word.{add64, uint64}
use lcex.Prelude.Text.{Text, codes, text_eq, trim_space, to_upper}
use lcex.Prelude.Dict.{find, put}
use lcex.Fixed.{FixedErr, parse}
use lcex.Db.Statements.{has_text}

pub record RiskService : Type 0 where
  pub deny : List Text
  pub daily : List (Text × ℕ)
  pub withdraw_off : Bool
  pub mm_off : Bool
  pub trading_off : Bool

-- `strings.Split` by one character: the part before it, and the parts behind.
unfoldable pub split_from : ℕ → Text → Text × List Text
split_from sep [] = ([], [])
split_from sep (c ∷ s) =
    let (part, parts) = split_from sep s in
    if c == sep then ([], part ∷ parts) else (c ∷ part, parts)

unfoldable pub split : ℕ → Text → List Text
split sep s = let (part, parts) = split_from sep s in part ∷ parts

-- `strings.Cut` by one character
unfoldable pub cut : ℕ → Text → Option (Text × Text)
cut sep [] = none
cut sep (c ∷ s) =
    let rest = cut sep s in
    if c == sep then some ([], s) else elim rest [ none ↦ none | some (k, v) ↦ some (c ∷ k, v) ]

unfoldable pub deny_of : List Text → List Text
deny_of [] = []
deny_of (p ∷ ps) =
    let rest = deny_of ps in elim (trim_space p) [ [] ↦ rest | c ∷ t ↦ (c ∷ t) ∷ rest ]

-- `parseDeny`: a set as a list.
unfoldable pub parse_deny : Text → List Text
parse_deny s = deny_of (split b',' s)

-- An entry of the daily limits; one that has no amount is skipped, the empty one too.
unfoldable pub daily_entry : Option (Text × Text) → List (Text × ℕ) → List (Text × ℕ)
daily_entry none out = out
daily_entry (some (k, v)) out = elim (parse (trim_space v)) [
  | err e ↦ out
  | ok amt ↦ put (to_upper (trim_space k)) amt out
]

unfoldable pub daily_from : List Text → List (Text × ℕ) → List (Text × ℕ)
daily_from [] out = out
daily_from (p ∷ ps) out = daily_from ps (daily_entry (cut b':' (trim_space p)) out)

-- `parseDaily`
unfoldable pub parse_daily : Text → List (Text × ℕ)
parse_daily s = daily_from (split b',' s) []

-- The service as `main` starts it.
unfoldable pub new_service : Text → Text → RiskService
new_service deny daily = record {
  deny = parse_deny deny;
  daily = parse_daily daily;
  withdraw_off = false;
  mm_off = false;
  trading_off = false;
}

-- The body of a pause or of a resumption; a body that does not decode has no field.
pub record Switches : Type 0 where
  pub withdraw : Option Bool
  pub mm : Option Bool
  pub trading : Option Bool

pub record Status : Type 0 where
  pub withdraw_paused : Bool
  pub mm_paused : Bool
  pub trading_paused : Bool

-- `handleStatus`
unfoldable pub handle_status : RiskService → Status
handle_status s = record {
  withdraw_paused = s.withdraw_off;
  mm_paused = s.mm_off;
  trading_paused = s.trading_off;
}

-- The switch after `if b != nil && *b { s.Store(v) }`.
unfoldable pub switched : Option Bool → Bool → Bool → Bool
switched (some true) v old = v
switched _ v old = old

unfoldable pub switch_all : Switches → Bool → RiskService → RiskService
switch_all body v s = record s {
  withdraw_off = switched body.withdraw v s.withdraw_off;
  mm_off = switched body.mm v s.mm_off;
  trading_off = switched body.trading v s.trading_off;
}

-- `handlePause`
unfoldable pub handle_pause : Switches → RiskService → Status × RiskService
handle_pause body s = let s' = switch_all body true s in (handle_status s', s')

-- `handleResume`
unfoldable pub handle_resume : Switches → RiskService → Status × RiskService
handle_resume body s = let s' = switch_all body false s in (handle_status s', s')

pub record WithdrawCheck : Type 0 where
  pub user_id : ℤ
  pub currency : Text
  pub network : Text
  pub address : Text
  pub amount : Text

-- `{"allow": …, "code": …}`
pub record Verdict : Type 0 where
  pub allow : Bool
  pub code : ℕ

abbrev pub deny_with : ℕ → Verdict
deny_with code = record { allow = false; code = code }

abbrev pub allowed : Verdict
allowed = record { allow = true; code = 0 }

-- The sum that the query returns, as a uint64.
unfoldable pub used_amount : ℤ → ℕ
used_amount n = if ltb_ℤ n (pos 0) then 0 else uint64 n

-- The limit of a currency, against the sum that is used; `none` for an error of the query.
unfoldable pub daily_verdict : Option ℕ → Option ℤ → ℕ → Verdict
daily_verdict none used amt = allowed
daily_verdict (some limit) none amt = deny_with 10001
daily_verdict (some limit) (some n) amt =
    if ltb limit (add64 (used_amount n) amt) then deny_with 60005 else allowed

-- `handleWithdrawCheck`, of the decoded body; `used` is the query of `usedToday` for a user and a
-- currency.
unfoldable pub handle_withdraw_check :
    (ℤ → Text → Option ℤ) → RiskService → Option WithdrawCheck → Verdict
handle_withdraw_check used s none = deny_with 10003
handle_withdraw_check used s (some req) =
    let cur = to_upper req.currency in
    if s.withdraw_off
    then deny_with 60004
    else if has_text req.address s.deny
    then deny_with 60005
    else elim (parse req.amount) [
      | err e ↦ deny_with 10003
      | ok amt ↦ daily_verdict (find cur s.daily) (used req.user_id cur) amt
    ]
