-- ===== src/MarketData/Book/Cases.antt =====
-- On `applyOrderUpdate` of services/market/state.go: what its steps keep, it keeps.
use lcex.Prelude.{ℕ, Option, none, some, Bool-cases, inl, inr}
use lcex.Prelude.Word.{sub64}
use lcex.Prelude.Table.{find}
use lcex.Events.{OrderUpdate}
use lcex.MarketData.{Side, RestingOrder, SymbolState, side_of}
use lcex.MarketData.Book.{
  remove_level, add_order, change_order, rest_order, open_order, end_order, is_price, is_open,
  apply_order_update,
}

module _ (Keeps : SymbolState → Type 0)
    (removed : (side : Side) (price remaining id : ℕ) (st : SymbolState)
      → Keeps st
      → Keeps (remove_level side price remaining id st))
    (added : (side : Side) (id price remaining : ℕ) (st : SymbolState)
      → Keeps st
      → Keeps (add_order side id price remaining st).0)
    (changed : (side : Side) (id : ℕ) (old : RestingOrder) (remaining : ℕ) (st : SymbolState)
      → Keeps st
      → Keeps (change_order side id old remaining st).0) where
  rest_order-Keeps :
      (side : Side) (id : ℕ) (price : Option ℕ) (remaining : ℕ) (st : SymbolState)
      → Keeps st
      → Keeps (rest_order side id price remaining st).0
  rest_order-Keeps side id none remaining st h = h
  rest_order-Keeps side id (some price) remaining st h = added side id price remaining st h

  open_order-Keeps :
      (side : Side) (id : ℕ) (price : Option ℕ) (remaining : ℕ) (old : Option RestingOrder)
      (st : SymbolState)
      → Keeps st
      → Keeps (open_order side id price remaining old st).0
  open_order-Keeps side id price remaining none st h = rest_order-Keeps side id price remaining st h
  open_order-Keeps side id price remaining (some old) st h =
      elim (Bool-cases (is_price price old.price)) [
        | inl t ↦ rw t (changed side id old remaining st h)
        | inr f ↦ rw f (
            rest_order-Keeps side id price remaining
              (remove_level side old.price old.remaining id st)
              (removed side old.price old.remaining id st h))
      ]

  end_order-Keeps :
      (side : Side) (id : ℕ) (old : Option RestingOrder) (st : SymbolState)
      → Keeps st
      → Keeps (end_order side id old st).0
  end_order-Keeps side id none st h = h
  end_order-Keeps side id (some old) st h = removed side old.price old.remaining id st h

  pub apply_order_update-Keeps :
      (u : OrderUpdate) (st : SymbolState) → Keeps st → Keeps (apply_order_update u st).0
  unfolding apply_order_update
  apply_order_update-Keeps u st h =
      let side = side_of u.side in
      let remaining = sub64 u.qty u.filled_qty in
      let old = find u.order_id st.resting in
      elim (Bool-cases (is_open u.status)) [
        | inl t ↦ rw t (open_order-Keeps side u.order_id u.price remaining old st h)
        | inr f ↦ rw f (end_order-Keeps side u.order_id old st h)
      ]
