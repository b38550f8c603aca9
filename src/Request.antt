-- ===== src/Request.antt =====
-- What the order service demands of a request before it touches the database: the first half of
-- `handlePlace` (services/order/api.go) and the parsers of services/order/main.go. `strconv.ParseInt`
-- is written out; the JSON of the body is decoded by encoding/json, which is not modelled, and the
-- messages of the answers are left out: an error is its code.
pub mod Covers
pub mod Accepted
use lcex.Prelude.{
  ℕ, ◌-◌, Bool, true, false, not, ◌&&◌, ◌||◌, ◌==◌, List, [], ◌∷◌, Option, none, some, ltb, leb,
  if◌then◌else◌, length, Result, ok, err, ◌>>=◌, ◌>>◌, fail_if, map_err,
}
use lcex.Prelude.Int.{ℤ, pos, negsuc, ltb_ℤ}
use lcex.Prelude.Word.{i64_mod, add64}
use lcex.Prelude.Text.{Text, codes, text_eq, to_lower}
use lcex.Fixed.{
  FixedErr, invalid, scale, is_empty, all_digits, parse_uint, parse, mul_div, mul_div_ceil,
}
use lcex.Db.{Err}
use lcex.Db.Orders.{one_of}
use lcex.Markets.{Config, Market, get, trading}

-- The magnitude behind the sign, within the bounds of int64.
abbrev pub signed_of : Bool → Result FixedErr ℕ → Option ℤ
signed_of negative (err e) = none
signed_of false (ok n) = if ltb n i64_mod then some (pos n) else none
signed_of true (ok n) =
    if leb n i64_mod then some (if n == 0 then pos 0 else negsuc (n - 1)) else none

abbrev pub parse_magnitude : Text → Result FixedErr ℕ
parse_magnitude s = if is_empty s || not (all_digits s) then err invalid else parse_uint s 0

-- `strconv.ParseInt(s, 10, 64)`
unfoldable pub parse_int : Text → Option ℤ
unfolding all_digits parse_uint
parse_int [] = none
parse_int (c ∷ s) =
    if c == b'-'
    then signed_of true (parse_magnitude s)
    else if c == b'+'
    then signed_of false (parse_magnitude s)
    else signed_of false (parse_magnitude (c ∷ s))

abbrev pub positive_id : Option ℤ → Option ℤ
positive_id none = none
positive_id (some id) = if ltb_ℤ (pos 0) id then some id else none

-- `parseUserID`, of the header `X-User-Id`, empty where it is missing.
unfoldable pub parse_user_id : Text → Option ℤ
parse_user_id header = if is_empty header then none else positive_id (parse_int header)

-- `statusFor`
abbrev pub status_for : ℕ → ℕ
status_for code =
    if code == 10003
      || code == 20102
      || (leb 50001 code && leb code 50009)
      || code == 50011
      || code == 51001
      || code == 51002
      || code == 50012
    then 400
    else if code == 50010
    then 404
    else if (leb 20001 code && leb code 20005) || code == 60005
    then 401
    else if code == 20101
    then 429
    else 500

pub record PlaceReq : Type 0 where
  pub symbol : Text
  pub client_order_id : Text
  pub side : Text
  pub order_type : Text
  pub time_in_force : Text
  pub stp_mode : Text
  pub post_only : Bool
  pub price : Text
  pub qty : Text

-- The local variables of `handlePlace` when it calls `place`.
pub record Checked : Type 0 where
  pub market : Market
  pub order_type : Text
  pub tif : Text
  pub stp : Text
  pub price : Option ℕ
  pub qty : ℕ
  pub reserved : ℕ

abbrev pub with_code : {E A : Type 0} → ℕ → Result E A → Result ℕ A
with_code code = map_err (λ _. code)

-- `if text != "" { v = lower(text) }`
abbrev pub lower_or : Text → Text → Text
lower_or default text = if is_empty text then default else to_lower text

-- An amount that is given and is not 0.
abbrev pub nonzero : ℕ → Text → Result ℕ ℕ
nonzero code text = do v ← with_code code (parse text); fail_if (v == 0) code; ok v

abbrev pub price_of : Text → PlaceReq → Result ℕ (Option ℕ)
price_of order_type req =
    if text_eq order_type (codes "limit")
    then (do p ← nonzero 50007 req.price; ok (some p))
    else (do fail_if (not (is_empty req.price)) 10003; ok none)

-- What a bid at a price reserves: the quote amount and the taker's fee on it, rounded up.
unfoldable pub reserve_bid : Market → ℕ → ℕ → Result ℕ ℕ
reserve_bid m price qty = do
  qa ← with_code 10003 (mul_div price qty scale)
  fail_if (ltb qa m.min_notion) 50006
  fee_ceil ← with_code 10003 (mul_div_ceil qa m.taker_rate scale)
  ok (add64 qa fee_ceil)

-- A bid without a price has been refused before.
abbrev pub reserve_of : Market → Text → Option ℕ → ℕ → Result ℕ ℕ
reserve_of m side price qty =
    if text_eq side (codes "bid")
    then elim price [ none ↦ err 50012 | some p ↦ reserve_bid m p qty ]
    else ok qty

-- The checks of the amounts, behind those of the words.
unfoldable pub check_amounts : Market → PlaceReq → Text → Text → Text → Result ℕ Checked
check_amounts m req order_type tif stp = do
  let market = text_eq order_type (codes "market")
  qty ← nonzero 10003 req.qty
  price ← price_of order_type req
  fail_if (market && text_eq req.side (codes "bid")) 50012
  fail_if (market && ltb 0 m.max_mkt_qty && ltb m.max_mkt_qty qty) 51002
  fail_if (ltb qty m.min_qty) 50005
  reserved ← reserve_of m req.side price qty
  ok (record {
    market = m;
    order_type = order_type;
    tif = tif;
    stp = stp;
    price = price;
    qty = qty;
    reserved = reserved;
  })

unfoldable pub check_words : Market → PlaceReq → Result ℕ Checked
check_words m req = do
  let order_type = lower_or (codes "limit") req.order_type
  let tif = lower_or (codes "gtc") req.time_in_force
  let stp = lower_or (codes "none") req.stp_mode
  let limit = text_eq order_type (codes "limit")
  fail_if (is_empty req.client_order_id || ltb 64 (length req.client_order_id)) 10003
  fail_if (not (one_of req.side (codes "bid" ∷ codes "ask" ∷ []))) 10003
  fail_if (not (one_of order_type (codes "limit" ∷ codes "market" ∷ []))) 10003
  fail_if (limit && not (one_of tif (codes "gtc" ∷ codes "ioc" ∷ codes "fok" ∷ []))) 10003
  fail_if (not (one_of stp (codes "none" ∷ codes "cancel_taker" ∷ []))) 10003
  check_amounts m req order_type tif stp

-- `handlePlace` from the lookup of the market to the amount to freeze.
unfoldable pub check_request : Config → PlaceReq → Result ℕ Checked
check_request cfg req = do
  m ← with_code 50001 (get cfg req.symbol)
  fail_if (not (trading m)) 50002
  check_words m req
