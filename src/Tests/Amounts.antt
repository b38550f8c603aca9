-- ===== src/Tests/Amounts.antt =====
-- The theorems on amounts, markets, requests and settlements, at the samples.
use lcex.Prelude.{
  ◌≡◌, refl, ℕ, ◌≤◌, ◌<◌, true, List, [], ◌∷◌, some, arith, ltb, if◌then◌else◌, ok, err,
}
use lcex.Prelude.Int.{pos, negsuc, ◌≤ℤ◌}
use lcex.Prelude.Word.{i64_mod, u64_mod, int64}
use lcex.Prelude.Text.{Text, codes, text_eq, to_upper, to_lower, trim_space, trim_left}
use lcex.Fixed.{
  scale, overflow, invalid, parse, format, mul_div, mul_div_ceil, contains_any, split_point,
  parse_parts, all_digits, pad_frac, parse_uint,
}
use lcex.Fixed.RoundTrip.{parse-format}
use lcex.Fixed.Accepts.{IsAmount, amount_of, parse_exact}
use lcex.Fixed.MulDiv.{mul_div_exact, mul_div_ceil_exact}
use lcex.Markets.{
  RawMarket, RawFile, Market, parse_or, market_of, put, find, load_markets, load, get, trading,
}
use lcex.Markets.Loaded.{IsLoaded, get-load}
use lcex.Request.{Checked, check_request, check_words, check_amounts, reserve_bid}
use lcex.Request.Covers.{Fill, paid_all, reservation_covers}
use lcex.Request.Accepted.{IsAccepted, check_request_ok, ask_of, huge_ask_accepted}
use lcex.Ledger.Legs.{weight, IsBalanced, asset_change, claim_change}
use lcex.Settlement.{Settlement, settlement, taker_buys}
use lcex.Settlement.Amounts.{IsSmall, settlement_exact}
use lcex.Settlement.Balanced.{settlement-IsBalanced}
use lcex.PriceIndex.{SourcePrice}
use lcex.Samples.{market, config, symbol, request, the_trade}

parse-format_example : parse (format 150000000) ≡ ok 150000000
parse-format_example = parse-format 150000000 (omega arith)

parse_exact_example :
    (IsAmount (codes " 1.5")
      → parse (codes " 1.5") ≡ (
          if ltb (amount_of (codes " 1.5")) u64_mod
          then ok (amount_of (codes " 1.5"))
          else err overflow))
    × (¬ IsAmount (codes " 1.5") → parse (codes " 1.5") ≡ err invalid)
parse_exact_example = parse_exact (codes " 1.5")

mul_div_exact_example : mul_div 5000000000000 1000000 scale ≡ ok 50000000000
mul_div_exact_example = mul_div_exact 5000000000000 1000000 scale

-- A quotient of 2 ^ 64 - 1 with something left over becomes 0.
mul_div_ceil_exact_example : mul_div_ceil 18446743889242112723 100000001 scale ≡ ok 0
mul_div_ceil_exact_example = mul_div_ceil_exact 18446743889242112723 100000001 scale

abbrev fills : List Fill
fills =
    record { price = 4900000000000; qty = 400000; rate = 100000 }
    ∷ record { price = 5000000000000; qty = 600000; rate = 100000 }
    ∷ []

reserved : reserve_bid market 5000000000000 1000000 ≡ ok 50050000000
unfolding reserve_bid mul_div mul_div_ceil
reserved = refl

reservation_covers_example : paid_all fills ≤ 50050000000
reservation_covers_example =
    reservation_covers market 5000000000000 1000000 50050000000 fills (omega arith) (omega arith)
      reserved ((omega arith, omega arith), ((omega arith, omega arith), tt)) (omega arith)

small : IsSmall market the_trade
small = record { taker = omega arith; maker = omega arith; room = omega arith }

abbrev settled : Settlement
settled = taker_buys market the_trade 50000000000 50000000 50000000

settles : settlement market the_trade ≡ ok settled
unfolding text_eq
settles = settlement_exact market the_trade small

settlement-IsBalanced_example :
    ((c : Text) → (asset_change c settled.moves ≡ pos 0) × (claim_change c settled.moves ≡ pos 0))
    × IsBalanced settled.moves
    × (weight settled.moves < i64_mod)
settlement-IsBalanced_example = settlement-IsBalanced market the_trade small settled settles

market_found : get config symbol ≡ ok market
unfolding get find to_upper text_eq
market_found = refl

opened : trading market ≡ true
unfolding text_eq
opened = refl

abbrev checked : Checked
checked = record {
  market = market;
  order_type = codes "limit";
  tif = codes "gtc";
  stp = codes "none";
  price = some 5000000000000;
  qty = 1000000;
  reserved = 50050000000;
}

passes : check_request config (request (codes "bid")) ≡ ok checked
unfolding check_request check_words check_amounts get find to_upper to_lower text_eq parse
    trim_space trim_left contains_any split_point parse_parts all_digits pad_frac parse_uint
    reserve_bid mul_div mul_div_ceil
passes = refl

check_request_ok_example : IsAccepted config (request (codes "bid")) checked
check_request_ok_example = check_request_ok config (request (codes "bid")) checked passes

one : parse (codes "1") ≡ ok 100000000
unfolding parse trim_space trim_left contains_any split_point parse_parts all_digits pad_frac
    parse_uint
one = refl

-- 2 ^ 64 less one BTC.
huge_ask_accepted_example :
    (c : Checked) × (check_request config
        (ask_of symbol (codes "c1") (codes "1") 18446744073609551616)
      ≡ ok c)
    × (c.reserved ≡ 18446744073609551616)
    × (int64 c.reserved ≤ℤ negsuc 0)
huge_ask_accepted_example =
    huge_ask_accepted config symbol (codes "c1") (codes "1") market 100000000 18446744073609551616
      market_found opened (omega arith, omega arith) one (omega arith) (omega arith) (omega arith)
      (omega arith)

abbrev raw : RawMarket
raw = record {
  symbol = symbol;
  base = codes "BTC";
  quote = codes "USDT";
  status = codes "trading";
  min_qty = codes "0.0001";
  min_notional = codes "10";
  max_market_qty = codes "5";
  override_maker = [];
  override_taker = [];
}

abbrev file : RawFile
file = record { default_maker = codes "0.001"; default_taker = codes "0.001"; markets = raw ∷ [] }

loads : load file ≡ ok config
unfolding load load_markets market_of parse_or put to_upper parse trim_space trim_left contains_any
    split_point parse_parts all_digits pad_frac parse_uint
loads = refl

same_symbol : to_upper (codes "btc-usdt") ≡ to_upper raw.symbol
unfolding to_upper
same_symbol = refl

get-load_example :
    (m : Market) × (maker taker : ℕ) × (get config (codes "btc-usdt") ≡ ok m)
    × (parse (codes "0.001") ≡ ok maker)
    × (parse (codes "0.001") ≡ ok taker)
    × IsLoaded maker taker raw m
get-load_example = get-load file config [] raw [] (codes "btc-usdt") loads refl refl same_symbol

-- Four sources: `c` deviates by more than 5 % from the median of `a`, `b` and `c`, `d` is stale.
abbrev sources : List (Text × SourcePrice)
sources =
    (codes "c", record { price = 20000000000; ts = pos 10 })
    ∷ (codes "a", record { price = 10000000000; ts = pos 10 })
    ∷ (codes "d", record { price = 30000000000; ts = pos 1 })
    ∷ (codes "b", record { price = 10100000000; ts = pos 9 })
    ∷ []
