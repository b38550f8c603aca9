-- ===== src/MarketData/Store.antt =====
-- The store of the market data service (services/market/state.go): `newStateStore`, `apply`, `Seq`. The
-- lock makes each call a step of its own.
pub mod Replay
pub mod Kept
use lcex.Prelude.{ℕ, List, [], ◌∷◌, Option, none, some, leb, if◌then◌else◌}
use lcex.Prelude.Text.{Text, codes, text_eq, to_upper}
use lcex.Events.{Event}
use lcex.MarketData.{ChangedLevel, TradeRow, SymbolState, new_state}
use lcex.MarketData.Book.{apply_order_update}
use lcex.MarketData.Tape.{apply_trade}

-- `bySym`
abbrev pub StateStore : Type 0
StateStore = List (Text × SymbolState)

unfoldable pub find_state : Text → StateStore → Option SymbolState
find_state symbol [] = none
find_state symbol ((name, st) ∷ s) = if text_eq name symbol then some st else find_state symbol s

unfoldable pub put_state : Text → SymbolState → StateStore → StateStore
put_state symbol st [] = (symbol, st) ∷ []
put_state symbol st ((name, old) ∷ s) =
    if text_eq name symbol then (symbol, st) ∷ s else (name, old) ∷ put_state symbol st s

unfoldable pub store_with : List Text → StateStore → StateStore
store_with [] s = s
store_with (symbol ∷ symbols) s = store_with symbols (put_state symbol (new_state symbol) s)

-- `newStateStore`
unfoldable pub new_state_store : List Text → StateStore
new_state_store symbols = store_with symbols []

-- What `apply` returns beside the changed state.
pub record Published : Type 0 where
  pub levels : List ChangedLevel
  pub trade : Option TradeRow

abbrev pub nothing : Published
nothing = record { levels = []; trade = none }

-- The two cases of the switch; the data that does not decode changes nothing.
unfoldable pub apply_kind : ℕ → Event → SymbolState → SymbolState × Published
apply_kind now ev st =
    if text_eq ev.kind (codes "order_update")
    then elim ev.as_order_update [
      | none ↦ (st, nothing)
      | some u ↦
          let (st', levels) = apply_order_update u st in
          (st', record { levels = levels; trade = none })
    ]
    else if text_eq ev.kind (codes "trade")
    then elim ev.as_trade [
      | none ↦ (st, nothing)
      | some t ↦
          let (st', row) = apply_trade now t ev.seq st in
          (st', record { levels = []; trade = some row })
    ]
    else (st, nothing)

-- An event of a symbol: a sequence number that was seen is skipped.
unfoldable pub apply_event : ℕ → Event → SymbolState → SymbolState × Published
apply_event now ev st =
    if leb ev.seq st.last_seq
    then (st, nothing)
    else apply_kind now ev (record st { last_seq = ev.seq })

abbrev pub apply_to : ℕ → Text → Event → StateStore → Option SymbolState → StateStore × Published
apply_to now symbol ev s none = (s, nothing)
apply_to now symbol ev s (some st) =
    let (st', published) = apply_event now ev st in (put_state symbol st' s, published)

-- `apply`
unfoldable pub apply : ℕ → Text → Event → StateStore → StateStore × Published
apply now symbol ev s = apply_to now symbol ev s (find_state symbol s)

-- `Seq`
unfoldable pub seq_of : Text → StateStore → ℕ
seq_of symbol s = elim (find_state symbol s) [ none ↦ 0 | some st ↦ st.last_seq ]

-- `normalizeSymbol`
unfoldable pub normalize_symbol : Text → Text
normalize_symbol = to_upper
