-- ===== src/Samples.antt =====
-- A small exchange for the tests: two users with deposits, one market, an order of each user, and the
-- trade between them.
use lcex.Prelude.{ℕ, false, List, [], ◌∷◌, some}
use lcex.Prelude.Int.{ℤ, pos}
use lcex.Prelude.Text.{Text, codes}
use lcex.Db.{Db, BizKey, deposit, available}
use lcex.Ledger.{Move, user_ref, system_ref, post}
use lcex.Markets.{Config, Market}
use lcex.Events.{Trade}
use lcex.Request.{PlaceReq}
use lcex.Order.{acknowledged, handle_place}

abbrev pub usdt : Text
usdt = codes "USDT"

abbrev pub btc : Text
btc = codes "BTC"

abbrev pub symbol : Text
symbol = codes "BTC-USDT"

-- The database before its first journal.
abbrev pub genesis : Db
genesis = record {
  currencies = usdt ∷ btc ∷ [];
  accounts = [];
  journals = [];
  entries = [];
  orders = [];
  next_order_id = pos 1;
  addresses = [];
  deposits = [];
  next_deposit_id = pos 1;
  withdrawals = [];
  next_withdrawal_id = pos 1;
  faults = [];
}

abbrev pub deposit_key : Text → BizKey
deposit_key id = record { biz_type = deposit; biz_id = id }

abbrev pub deposit_of : ℤ → Text → ℕ → List Move
deposit_of user_id currency amount =
    record { account = user_ref user_id currency available; delta = pos amount }
    ∷ record { account = system_ref (pos 0) currency available; delta = pos amount }
    ∷ []

-- 1,000 USDT of user 1 and 1 BTC of user 2.
abbrev pub usdt_deposit : List Move
usdt_deposit = deposit_of (pos 1) usdt 100000000000

abbrev pub btc_deposit : List Move
btc_deposit = deposit_of (pos 2) btc 100000000

abbrev pub one_deposit : Db
one_deposit = (post (deposit_key (codes "a")) usdt_deposit genesis).1

abbrev pub funded : Db
funded = (post (deposit_key (codes "b")) btc_deposit one_deposit).1

abbrev pub market : Market
market = record {
  symbol = symbol;
  base = btc;
  quote = usdt;
  status = codes "trading";
  min_qty = 10000;
  min_notion = 1000000000;
  max_mkt_qty = 500000000;
  maker_rate = 100000;
  taker_rate = 100000;
}

abbrev pub config : Config
config = (symbol, market) ∷ []

-- 0.01 BTC at 50,000 USDT, on either side.
abbrev pub request : Text → PlaceReq
request side = record {
  symbol = symbol;
  client_order_id = codes "c1";
  side = side;
  order_type = codes "LIMIT";
  time_in_force = [];
  stp_mode = [];
  post_only = false;
  price = codes "50000";
  qty = codes "0.01";
}

-- The ask of user 2, order 1, and then the bid of user 1, order 2.
abbrev pub asked : Db
asked =
    (handle_place (codes "cex") config (codes "2") (some (request (codes "ask"))) acknowledged
      funded).1

abbrev pub both : Db
both =
    (handle_place (codes "cex") config (codes "1") (some (request (codes "bid"))) acknowledged
      asked).1

abbrev pub the_trade : Trade
the_trade = record {
  trade_id = 7;
  maker_order_id = 1;
  taker_order_id = 2;
  maker_user_id = 2;
  taker_user_id = 1;
  side = codes "bid";
  price = 5000000000000;
  qty = 1000000;
}
