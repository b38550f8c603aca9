-- ===== src/Markets/Loaded.antt =====
-- What a loaded configuration holds for each market of the file.
use mathlib.Core.Path.{subst}
use lcex.Prelude.{◌≢◌, ◌⊎◌}
use lcex.Prelude.{
  ◌≡◌, refl, ℕ, Bool, false, ◌||◌, List, [], ◌∷◌, some, if◌then◌else◌, arith, ok, ◌++◌,
  Result-cases, inl, inr,
}
use lcex.Prelude.Text.{Text, text_eq, text_eq_iff, to_upper}
use lcex.Fixed.{parse}
use lcex.Markets.{
  RawMarket, RawFile, Market, Config, parse_or, market_of, put, find, load_markets, load, get,
}

find-put :
    (key k : Text) (m : Market) (cfg : Config)
    → find k (put key m cfg) ≡ (if text_eq key k then some m else find k cfg)
unfolding find put
find-put key k m [] = refl
find-put key k m ((j, n) ∷ rest) =
    ground (arith, text_eq_iff j key, text_eq_iff j k, text_eq_iff key k, find-put key k m rest)

-- A market of the list has the key.
abbrev pub listed : Text → List RawMarket → Bool
listed k [] = false
listed k (rm ∷ rms) = text_eq (to_upper rm.symbol) k || listed k rms

market_of_symbol :
    (maker taker : ℕ) (rm : RawMarket) (m : Market)
    → market_of maker taker rm ≡ ok m
    → m.symbol ≡ rm.symbol
unfolding market_of
market_of_symbol maker taker rm m h = ground arith

-- Markets with other keys do not touch an entry.
load_markets_keeps :
    (maker taker : ℕ) (rms : List RawMarket) (cfg cfg' : Config) (k : Text)
    → listed k rms ≡ false
    → load_markets maker taker rms cfg ≡ ok cfg'
    → find k cfg' ≡ find k cfg
unfolding load_markets
load_markets_keeps maker taker [] cfg cfg' k no_key h = ground arith
load_markets_keeps maker taker (rm ∷ rms) cfg cfg' k no_key h =
    elim (Result-cases (market_of maker taker rm)) [
      | inl (m, e) ↦
          let cfg₁ = put (to_upper m.symbol) m cfg in
          ground (
            arith,
            market_of_symbol maker taker rm m e,
            load_markets_keeps maker taker rms cfg₁ cfg' k,
            find-put (to_upper m.symbol) k m cfg,
            text_eq_iff (to_upper m.symbol) k,
          )
      | inr (e, q) ↦ ground arith
    ]

load_markets-find :
    (maker taker : ℕ) (before : List RawMarket) (rm : RawMarket) (after : List RawMarket)
    (cfg cfg' : Config)
    → listed (to_upper rm.symbol) after ≡ false
    → load_markets maker taker (before ++ rm ∷ after) cfg ≡ ok cfg'
    → (m : Market) × (find (to_upper rm.symbol) cfg' ≡ some m) × (market_of maker taker rm ≡ ok m)
unfolding load_markets
load_markets-find maker taker [] rm after cfg cfg' last h =
    elim (Result-cases (market_of maker taker rm)) [
      | inl (m, e) ↦
          let cfg₁ = put (to_upper m.symbol) m cfg in
          let key = to_upper rm.symbol in
          (
            m,
            ground (
              arith,
              market_of_symbol maker taker rm m e,
              load_markets_keeps maker taker after cfg₁ cfg' key last,
              find-put (to_upper m.symbol) key m cfg,
              text_eq_iff (to_upper m.symbol) key,
            ),
            e,
          )
      | inr (e, q) ↦ absurd (ground arith)
    ]
load_markets-find maker taker (b ∷ before) rm after cfg cfg' last h =
    elim (Result-cases (market_of maker taker b)) [
      | inl (m, e) ↦
          load_markets-find maker taker before rm after (put (to_upper m.symbol) m cfg) cfg' last
            (ground arith)
      | inr (e, q) ↦ absurd (ground arith)
    ]

-- The value that a field of the file spells; where it is empty, the default.
abbrev pub Spells : Text → ℕ → ℕ → Type 0
Spells text default v = (text ≡ []) × (v ≡ default) ⊎ (text ≢ []) × (parse text ≡ ok v)

-- The market has the fields of the file's entry, each amount and rate as its own field spells it.
pub record IsLoaded (maker taker : ℕ) (rm : RawMarket) (m : Market) : Type 0 where
  pub symbol : m.symbol ≡ rm.symbol
  pub base : m.base ≡ rm.base
  pub quote : m.quote ≡ rm.quote
  pub status : m.status ≡ rm.status
  pub min_qty : Spells rm.min_qty 0 m.min_qty
  pub min_notion : Spells rm.min_notional 0 m.min_notion
  pub max_mkt_qty : Spells rm.max_market_qty 0 m.max_mkt_qty
  pub maker_rate : Spells rm.override_maker maker m.maker_rate
  pub taker_rate : Spells rm.override_taker taker m.taker_rate

parse_or-Spells :
    (text : Text) (default v : ℕ) → parse_or text default ≡ ok v → Spells text default v
unfolding parse_or
parse_or-Spells [] default v h = inl (refl, ground arith)
parse_or-Spells (c ∷ text) default v h = inr ((λ e. cc), h)

market_of-IsLoaded :
    (maker taker : ℕ) (rm : RawMarket) (m : Market)
    → market_of maker taker rm ≡ ok m
    → IsLoaded maker taker rm m
unfolding market_of
market_of-IsLoaded maker taker rm m h = elim (Result-cases (parse_or rm.min_qty 0)) [
  | inr (e, q) ↦ absurd (ground arith)
  | inl (a, qa) ↦ elim (Result-cases (parse_or rm.min_notional 0)) [
    | inr (e, q) ↦ absurd (ground arith)
    | inl (b, qb) ↦ elim (Result-cases (parse_or rm.max_market_qty 0)) [
      | inr (e, q) ↦ absurd (ground arith)
      | inl (c, qc) ↦ elim (Result-cases (parse_or rm.override_maker maker)) [
        | inr (e, q) ↦ absurd (ground arith)
        | inl (x, qx) ↦ elim (Result-cases (parse_or rm.override_taker taker)) [
          | inr (e, q) ↦ absurd (ground arith)
          | inl (y, qy) ↦
              let made : Market = record {
                symbol = rm.symbol;
                base = rm.base;
                quote = rm.quote;
                status = rm.status;
                min_qty = a;
                min_notion = b;
                max_mkt_qty = c;
                maker_rate = x;
                taker_rate = y;
              } in
              let same : made ≡ m = ground arith in
              subst (IsLoaded maker taker rm) same record {
                symbol = refl;
                base = refl;
                quote = refl;
                status = refl;
                min_qty = parse_or-Spells rm.min_qty 0 a qa;
                min_notion = parse_or-Spells rm.min_notional 0 b qb;
                max_mkt_qty = parse_or-Spells rm.max_market_qty 0 c qc;
                maker_rate = parse_or-Spells rm.override_maker maker x qx;
                taker_rate = parse_or-Spells rm.override_taker taker y qy;
              }
        ]
      ]
    ]
  ]
]

-- In a file that loads, the last market of a symbol is found under every spelling of the symbol that
-- differs in case only, with the texts of its entry, and with its least quantity, least notional, most
-- market quantity and its rates for makers and takers as the field of that name spells them; where the
-- field is empty, with 0 or the file's default rate of that name.
pub get-load :
    (f : RawFile) (cfg : Config) (before : List RawMarket) (rm : RawMarket) (after : List RawMarket)
    (symbol : Text)
    → load f ≡ ok cfg
    → f.markets ≡ before ++ rm ∷ after
    → listed (to_upper rm.symbol) after ≡ false
    → to_upper symbol ≡ to_upper rm.symbol
    → (m : Market) × (maker taker : ℕ) × (get cfg symbol ≡ ok m)
      × (parse f.default_maker ≡ ok maker)
      × (parse f.default_taker ≡ ok taker)
      × IsLoaded maker taker rm m
unfolding load get
get-load f cfg before rm after symbol h split last case =
    elim (Result-cases (parse f.default_maker)) [
      | inl (maker, em) ↦ elim (Result-cases (parse f.default_taker)) [
        | inl (taker, et) ↦
            let (m, there, fields) =
              load_markets-find maker taker before rm after [] cfg last (ground arith) in
            (m, maker, taker, ground arith, em, et, market_of-IsLoaded maker taker rm m fields)
        | inr (e, q) ↦ absurd (ground arith)
      ]
      | inr (e, q) ↦ absurd (ground arith)
    ]
