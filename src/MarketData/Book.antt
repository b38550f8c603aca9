-- ===== src/MarketData/Book.antt =====
-- The order book of a symbol (services/market/state.go): `applyOrderUpdate`, `removeLevel`, `trim`.
pub mod Cases
pub mod Trim
pub mod Keyed
pub mod Levels
pub mod Orders
pub mod Steps
pub mod Published
pub mod Refines
pub mod Worst
pub mod Dropped
use lcex.Prelude.{
  ℕ, ◌-◌, Bool, false, ◌||◌, ◌==◌, List, [], ◌∷◌, Option, none, some, ltb, leb, length, take,
  if◌then◌else◌,
}
use lcex.Prelude.Int.{◌+ℤ◌, ◌-ℤ◌}
use lcex.Prelude.Word.{add64, sub64, int64, uint64, wrap64}
use lcex.Prelude.Text.{Text, codes, text_eq}
use lcex.Prelude.Sort.{sort}
use lcex.Prelude.Table.{find, put, remove, keys}
use lcex.Events.{OrderUpdate}
use lcex.MarketData.{
  Side, bids, asks, RestingOrder, ChangedLevel, SymbolState, side_of, depth_of, set_depth, level,
}

-- `maxKeptLevels`
abbrev pub max_kept_levels : ℕ
max_kept_levels = 200

-- The map of a side without `remaining`, or what there is, at a price.
unfoldable pub lower_level : ℕ → ℕ → List (ℕ × ℕ) → List (ℕ × ℕ)
lower_level price remaining depth =
    let total = level price depth in
    let left = total - (if ltb total remaining then total else remaining) in
    let lowered = put price left depth in if left == 0 then remove price lowered else lowered

-- `removeLevel`
unfoldable pub remove_level : Side → ℕ → ℕ → ℕ → SymbolState → SymbolState
remove_level side price remaining order_id st =
    record (set_depth side (lower_level price remaining (depth_of side st)) st) {
      resting = remove order_id st.resting;
    }

-- The worst prices come first: the lowest bids, the highest asks.
unfoldable pub is_worse : Side → ℕ → ℕ → Bool
is_worse bids p q = ltb p q
is_worse asks p q = ltb q p

unfoldable pub remove_all : List ℕ → List (ℕ × ℕ) → List (ℕ × ℕ)
remove_all [] depth = depth
remove_all (p ∷ ps) depth = remove_all ps (remove p depth)

-- `trim`
unfoldable pub trim : Side → List (ℕ × ℕ) → List (ℕ × ℕ)
trim side depth =
    let prices = sort (is_worse side) (keys depth) in
    if leb (length depth) max_kept_levels
    then depth
    else remove_all (take (length prices - max_kept_levels) prices) depth

-- The end of the open branch: the order is new to the book.
unfoldable pub add_order : Side → ℕ → ℕ → ℕ → SymbolState → SymbolState × List ChangedLevel
add_order side order_id price remaining st =
    let total = add64 (level price (depth_of side st)) remaining in
    let depth = trim side (put price total (depth_of side st)) in
    let order : RestingOrder = record { price = price; remaining = remaining } in
    (
      record (set_depth side depth st) { resting = put order_id order st.resting },
      record { side_idx = side; price = price; total = level price depth } ∷ [],
    )

-- A market order does not rest.
abbrev pub rest_order : Side → ℕ → Option ℕ → ℕ → SymbolState → SymbolState × List ChangedLevel
rest_order side order_id none remaining st = (st, [])
rest_order side order_id (some price) remaining st = add_order side order_id price remaining st

-- The order is in the book, at the same price.
unfoldable pub change_order :
    Side → ℕ → RestingOrder → ℕ → SymbolState → SymbolState × List ChangedLevel
change_order side order_id old remaining st =
    let depth = depth_of side st in
    let sum = wrap64 (int64 (level old.price depth) +ℤ int64 remaining) in
    let total = uint64 (wrap64 (sum -ℤ int64 old.remaining)) in
    let order : RestingOrder = record old { remaining = remaining } in
    (
      record (set_depth side (put old.price total depth) st) {
        resting = put order_id order st.resting;
      },
      record { side_idx = side; price = old.price; total = total } ∷ [],
    )

abbrev pub is_price : Option ℕ → ℕ → Bool
is_price none q = false
is_price (some p) q = q == p

-- The branch of the open orders.
abbrev pub open_order :
    Side → ℕ → Option ℕ → ℕ → Option RestingOrder → SymbolState → SymbolState × List ChangedLevel
open_order side order_id price remaining none st = rest_order side order_id price remaining st
open_order side order_id price remaining (some old) st =
    if is_price price old.price
    then change_order side order_id old remaining st
    else rest_order side order_id price remaining
        (remove_level side old.price old.remaining order_id st)

-- The branch of the ended orders.
abbrev pub end_order :
    Side → ℕ → Option RestingOrder → SymbolState → SymbolState × List ChangedLevel
end_order side order_id none st = (st, [])
end_order side order_id (some old) st =
    let st' = remove_level side old.price old.remaining order_id st in
    (
      st',
      record { side_idx = side; price = old.price; total = level old.price (depth_of side st') }
          ∷ [],
    )

abbrev pub is_open : Text → Bool
is_open status = text_eq status (codes "open") || text_eq status (codes "partially_filled")

-- `applyOrderUpdate`
unfoldable pub apply_order_update : OrderUpdate → SymbolState → SymbolState × List ChangedLevel
apply_order_update u st =
    let side = side_of u.side in
    let remaining = sub64 u.qty u.filled_qty in
    let old = find u.order_id st.resting in
    if is_open u.status
    then open_order side u.order_id u.price remaining old st
    else end_order side u.order_id old st
