-- ===== src/Chains.antt =====
-- Package chains (internal/chains/chains.go): the networks of the currencies. The file is read and
-- decoded by the operating system and yaml.v3; the model starts at the decoded structure.
use lcex.Prelude.{List, [], ◌∷◌, none, some, Bool, ℕ, Result, ok, err, map_err, ◌>>=◌}
use lcex.Prelude.Int.{ℤ}
use lcex.Prelude.Text.{Text, to_upper}
use lcex.Prelude.Dict.{find, put}
use lcex.Fixed.{FixedErr, parse}

pub record Chain : Type 0 where
  pub network : Text
  pub min_deposit : ℕ
  pub min_withdraw : ℕ
  pub withdraw_fee : ℕ
  pub confirmations : ℤ
  pub deposit_on : Bool
  pub withdraw_on : Bool

pub record Currency : Type 0 where
  pub code : Text
  pub chains : List (Text × Chain)

-- `byCode`
abbrev pub ChainConfig : Type 0
ChainConfig = List (Text × Currency)

-- The decoded file.
pub record RawChain : Type 0 where
  pub network : Text
  pub min_deposit : Text
  pub min_withdrawal : Text
  pub withdraw_fee : Text
  pub confirmations : ℤ
  pub deposit_enabled : Bool
  pub withdraw_enabled : Bool

pub record RawCurrency : Type 0 where
  pub code : Text
  pub chains : List RawChain

-- The errors that wrap those of `fixed.Parse`, and those of `Chain`.
pub data ChainErr : Type 0 where
  bad_min_deposit bad_min_withdrawal bad_withdraw_fee : FixedErr → ChainErr
  unknown_currency unknown_network : ChainErr

unfoldable pub chain_of : RawChain → Result ChainErr Chain
chain_of rn = do
  min_deposit ← map_err bad_min_deposit (parse rn.min_deposit)
  min_withdraw ← map_err bad_min_withdrawal (parse rn.min_withdrawal)
  withdraw_fee ← map_err bad_withdraw_fee (parse rn.withdraw_fee)
  ok (record {
    network = rn.network;
    min_deposit = min_deposit;
    min_withdraw = min_withdraw;
    withdraw_fee = withdraw_fee;
    confirmations = rn.confirmations;
    deposit_on = rn.deposit_enabled;
    withdraw_on = rn.withdraw_enabled;
  })

-- The inner loop of `Load`.
unfoldable pub load_chains :
    List RawChain → List (Text × Chain) → Result ChainErr (List (Text × Chain))
load_chains [] chains = ok chains
load_chains (rn ∷ rns) chains = do ch ← chain_of rn; load_chains rns (put rn.network ch chains)

-- The outer loop of `Load`.
unfoldable pub load_currencies : List RawCurrency → ChainConfig → Result ChainErr ChainConfig
load_currencies [] cfg = ok cfg
load_currencies (rc ∷ rcs) cfg = do
  chains ← load_chains rc.chains []
  load_currencies rcs (put (to_upper rc.code) (record { code = rc.code; chains = chains }) cfg)

-- `Load`
unfoldable pub load : List RawCurrency → Result ChainErr ChainConfig
load currencies = load_currencies currencies []

-- `Chain`
unfoldable pub find_chain : ChainConfig → Text → Text → Result ChainErr Chain
find_chain cfg currency network = elim (find (to_upper currency) cfg) [
  | none ↦ err unknown_currency
  | some cur ↦ elim (find network cur.chains) [ none ↦ err unknown_network | some ch ↦ ok ch ]
]
