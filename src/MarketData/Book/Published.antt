-- ===== src/MarketData/Book/Published.antt =====
-- On `applyOrderUpdate` of services/market/state.go: the levels that it returns are those of the new
-- state.
use lcex.Prelude.{ℕ, ◌≡◌, refl, List, Option, none, some, All, Bool-cases, inl, inr, arith}
use lcex.Prelude.Word.{sub64, int64, uint64, wrap64}
use lcex.Prelude.Int.{◌+ℤ◌, ◌-ℤ◌}
use lcex.Prelude.Table.{find}
use lcex.Events.{OrderUpdate}
use lcex.MarketData.{Side, RestingOrder, SymbolState, side_of, depth_of, set_depth, level}
use lcex.MarketData.Book.{
  add_order, change_order, rest_order, open_order, end_order, is_price, is_open, apply_order_update,
}
use lcex.MarketData.Book.Levels.{level-put}
use lcex.MarketData.Book.Orders.{IsLevel, depth_of-set_depth, same_side_self}

depth-IsLevel :
    (side : Side) (price v : ℕ) (depth : List (ℕ × ℕ)) (resting : List (ℕ × RestingOrder))
    (st : SymbolState)
    → v ≡ level price depth
    → IsLevel
        (record (set_depth side depth st) { resting = resting })
        (record { side_idx = side; price = price; total = v })
depth-IsLevel side price v depth resting st e =
    rw (depth_of-set_depth side side depth resting st, same_side_self side) e

add_order-IsLevel :
    (side : Side) (id price remaining : ℕ) (st : SymbolState)
    → All
        (IsLevel (add_order side id price remaining st).0)
        (add_order side id price remaining st).1
unfolding add_order
add_order-IsLevel side id price remaining st = (depth-IsLevel side price _ _ _ st refl, tt)

change_order-IsLevel :
    (side : Side) (id : ℕ) (old : RestingOrder) (remaining : ℕ) (st : SymbolState)
    → All
        (IsLevel (change_order side id old remaining st).0)
        (change_order side id old remaining st).1
unfolding change_order
change_order-IsLevel side id old remaining st =
    let depth = depth_of side st in
    let sum = wrap64 (int64 (level old.price depth) +ℤ int64 remaining) in
    let total = uint64 (wrap64 (sum -ℤ int64 old.remaining)) in
    (
      depth-IsLevel side old.price total _ _ st
          (ground (arith, level-put old.price old.price total depth)),
      tt,
    )

rest_order-IsLevel :
    (side : Side) (id : ℕ) (price : Option ℕ) (remaining : ℕ) (st : SymbolState)
    → All
        (IsLevel (rest_order side id price remaining st).0)
        (rest_order side id price remaining st).1
rest_order-IsLevel side id none remaining st = tt
rest_order-IsLevel side id (some price) remaining st = add_order-IsLevel side id price remaining st

open_order-IsLevel :
    (side : Side) (id : ℕ) (price : Option ℕ) (remaining : ℕ) (old : Option RestingOrder)
    (st : SymbolState)
    → All
        (IsLevel (open_order side id price remaining old st).0)
        (open_order side id price remaining old st).1
open_order-IsLevel side id price remaining none st = rest_order-IsLevel side id price remaining st
open_order-IsLevel side id price remaining (some old) st =
    elim (Bool-cases (is_price price old.price)) [
      | inl t ↦ rw t (change_order-IsLevel side id old remaining st)
      | inr f ↦ rw f (rest_order-IsLevel side id price remaining _)
    ]

end_order-IsLevel :
    (side : Side) (id : ℕ) (old : Option RestingOrder) (st : SymbolState)
    → All (IsLevel (end_order side id old st).0) (end_order side id old st).1
end_order-IsLevel side id none st = tt
end_order-IsLevel side id (some old) st = (refl, tt)

pub apply_order_update-IsLevel :
    (u : OrderUpdate) (st : SymbolState)
    → All (IsLevel (apply_order_update u st).0) (apply_order_update u st).1
unfolding apply_order_update
apply_order_update-IsLevel u st =
    let side = side_of u.side in
    let remaining = sub64 u.qty u.filled_qty in
    let old = find u.order_id st.resting in
    elim (Bool-cases (is_open u.status)) [
      | inl t ↦ rw t (open_order-IsLevel side u.order_id u.price remaining old st)
      | inr f ↦ rw f (end_order-IsLevel side u.order_id old st)
    ]
