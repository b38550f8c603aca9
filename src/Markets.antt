-- ===== src/Markets.antt =====
-- Package markets (internal/markets/markets.go): the trading pairs of packages/api-spec/markets.yaml.
-- Reading the file and decoding YAML is not modelled; `load` starts from the decoded file. The map
-- from symbols to markets is an association list without repeated keys.
pub mod Loaded
use lcex.Prelude.{
  ℕ, Bool, true, false, List, [], ◌∷◌, Option, none, some, if◌then◌else◌, Result, ok, err, ◌>>=◌,
  map_err,
}
use lcex.Prelude.Text.{Text, codes, text_eq, to_upper}
use lcex.Db.{Err, unknown_market, amount_err}
use lcex.Fixed.{FixedErr, parse, is_empty}

-- The fields of `rawMarket` that the program reads.
pub record RawMarket : Type 0 where
  pub symbol : Text
  pub base : Text
  pub quote : Text
  pub status : Text
  pub min_qty : Text
  pub min_notional : Text
  pub max_market_qty : Text
  pub override_maker : Text
  pub override_taker : Text

-- `rawFile`, with the two rates of `rawDefaults` that the program reads.
pub record RawFile : Type 0 where
  pub default_maker : Text
  pub default_taker : Text
  pub markets : List RawMarket

pub record Market : Type 0 where
  pub symbol : Text
  pub base : Text
  pub quote : Text
  pub status : Text
  pub min_qty : ℕ
  pub min_notion : ℕ
  pub max_mkt_qty : ℕ
  pub maker_rate : ℕ
  pub taker_rate : ℕ

-- `bySymbol`
abbrev pub Config : Type 0
Config = List (Text × Market)

-- `if text != "" { field, err = fixed.Parse(text) }`
unfoldable pub parse_or : Text → ℕ → Result FixedErr ℕ
parse_or text default = if is_empty text then ok default else parse text

-- The body of the loop of `Load`.
unfoldable pub market_of : ℕ → ℕ → RawMarket → Result FixedErr Market
market_of maker taker rm = do
  min_qty ← parse_or rm.min_qty 0
  min_notion ← parse_or rm.min_notional 0
  max_mkt_qty ← parse_or rm.max_market_qty 0
  maker_rate ← parse_or rm.override_maker maker
  taker_rate ← parse_or rm.override_taker taker
  ok (record {
    symbol = rm.symbol;
    base = rm.base;
    quote = rm.quote;
    status = rm.status;
    min_qty = min_qty;
    min_notion = min_notion;
    max_mkt_qty = max_mkt_qty;
    maker_rate = maker_rate;
    taker_rate = taker_rate;
  })

-- `cfg.bySymbol[key] = m`
unfoldable pub put : Text → Market → Config → Config
put key m [] = (key, m) ∷ []
put key m ((k, n) ∷ rest) = if text_eq k key then (k, m) ∷ rest else (k, n) ∷ put key m rest

unfoldable pub find : Text → Config → Option Market
find key [] = none
find key ((k, n) ∷ rest) = if text_eq k key then some n else find key rest

unfoldable pub load_markets : ℕ → ℕ → List RawMarket → Config → Result FixedErr Config
load_markets maker taker [] cfg = ok cfg
load_markets maker taker (rm ∷ rms) cfg = do
  m ← market_of maker taker rm
  load_markets maker taker rms (put (to_upper m.symbol) m cfg)

-- `markets.Load`
unfoldable pub load : RawFile → Result FixedErr Config
load f = do
  maker ← parse f.default_maker
  taker ← parse f.default_taker
  load_markets maker taker f.markets []

abbrev pub found : Option Market → Result Err Market
found none = err unknown_market
found (some m) = ok m

-- `Config.Get`
unfoldable pub get : Config → Text → Result Err Market
get cfg symbol = found (find (to_upper symbol) cfg)

-- `Market.Trading`
abbrev pub trading : Market → Bool
trading m = text_eq m.status (codes "trading")
