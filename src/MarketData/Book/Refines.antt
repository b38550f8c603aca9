-- ===== src/MarketData/Book/Refines.antt =====
-- The book of services/market/state.go refines the abstract book of Book/Orders.
use lcex.Prelude.{
  ℕ, ◌<◌, ◌==◌, ◌≡◌, refl, true, false, ◌∷◌, none, some, arith, length, Bool-cases, Option-cases,
  inl, inr,
}
use lcex.Prelude.Word.{u64_mod, sub64}
use lcex.Prelude.Table.{find, remove, find-remove, remove-none}
use lcex.Events.{OrderUpdate}
use lcex.MarketData.{RestingOrder, SymbolState, side_of, depth_of, set_depth, level}
use lcex.MarketData.Book.{
  max_kept_levels, lower_level, remove_level, add_order, change_order, is_open, apply_order_update,
}
use lcex.MarketData.Book.Levels.{length-lower_level}
use lcex.Prelude.{[], All, All-weaken, ◌∙◌}
use lcex.Prelude.Text.{Text}
use lcex.MarketData.{new_state, ChangedLevel, level, bids, asks}
use lcex.MarketData.Book.Published.{apply_order_update-IsLevel}
use lcex.MarketData.Book.Orders.{
  IsLevel, OpenOrder, Orders, next_orders, total, Shows, IsLevel, depth_of-set_depth,
  same_side_self, total-remove, total_here,
}
use lcex.MarketData.Book.Steps.{given_here, remove_level-Shows, add_order-Shows, change_order-Shows}

-- What an update has to meet: the order is on the side where it was, the side has room for a price more,
-- and the sums are uint64.
pub record Fits (u : OrderUpdate) (st : SymbolState) (b : Orders) : Type 0 where
  pub sided : (o : OpenOrder) → find u.order_id b ≡ some o → side_of u.side ≡ o.side
  pub room : length (depth_of (side_of u.side) st) < max_kept_levels
  pub sums : (price : ℕ) → total (side_of u.side) price (next_orders u b) < u64_mod

module _ (u : OrderUpdate) (st : SymbolState) (b : Orders) (h : Shows st b)
    (fits : Fits u st b) where
  ended-Shows : is_open u.status ≡ false → Shows (apply_order_update u st).0 (next_orders u b)
  unfolding apply_order_update
  ended-Shows f = elim (Option-cases (find u.order_id b)) [
    | inl e ↦ rw (f, h.orders u.order_id, e, remove-none u.order_id b e) h
    | inr (o, e) ↦
        rw (f, h.orders u.order_id, e, fits.sided o e) (remove_level-Shows st b h u.order_id o e)
  ]

  market-Shows :
      is_open u.status ≡ true → u.price ≡ none → Shows (apply_order_update u st).0 (next_orders u b)
  unfolding apply_order_update
  market-Shows t e = elim (Option-cases (find u.order_id b)) [
    | inl g ↦ rw (t, h.orders u.order_id, g, e, remove-none u.order_id b g) h
    | inr (o, g) ↦
        rw (t, h.orders u.order_id, g, e, fits.sided o g) (remove_level-Shows st b h u.order_id o g)
  ]

  moved-Shows :
      (q : ℕ) (o : OpenOrder)
      → find u.order_id b ≡ some o
      → let remaining = sub64 u.qty u.filled_qty in
        let order : OpenOrder = record { side = o.side; price = q; remaining = remaining } in
        total o.side q ((u.order_id, order) ∷ remove u.order_id b) < u64_mod
        → Shows
            (add_order o.side u.order_id q remaining
              (remove_level o.side o.price o.remaining u.order_id st)).0
            ((u.order_id, order) ∷ remove u.order_id b)
  unfolding remove_level
  moved-Shows q o g sum =
      let remaining = sub64 u.qty u.filled_qty in
      let order : OpenOrder = record { side = o.side; price = q; remaining = remaining } in
      let depth = lower_level o.price o.remaining (depth_of o.side st) in
      let rest = remove u.order_id b in
      let shorter = length-lower_level o.price o.remaining (depth_of o.side st) in
      let room : length (depth_of o.side st) < max_kept_levels = rw (fits.sided o g) at fits.room in
      let gone : find u.order_id rest ≡ none =
        ground (arith, find-remove u.order_id u.order_id b) in
      let side : depth_of o.side
            (record (set_depth o.side depth st) { resting = remove u.order_id st.resting })
          ≡ depth =
        rw
          (
            depth_of-set_depth o.side o.side depth (remove u.order_id st.resting) st,
            same_side_self o.side,
          )
          refl in
      add_order-Shows (remove_level o.side o.price o.remaining u.order_id st) rest
        (remove_level-Shows st b h u.order_id o g) o.side u.order_id q remaining gone
        (rw side (omega (arith, shorter, room)))
        (omega (arith, total_here u.order_id order rest, sum))

  changed-Shows :
      (o : OpenOrder)
      → find u.order_id b ≡ some o
      → let remaining = sub64 u.qty u.filled_qty in
        let order : OpenOrder = record o { remaining = remaining } in
        let old : RestingOrder = record { price = o.price; remaining = o.remaining } in
        total o.side o.price ((u.order_id, order) ∷ remove u.order_id b) < u64_mod
        → Shows
            (change_order o.side u.order_id old remaining st).0
            ((u.order_id, order) ∷ remove u.order_id b)
  changed-Shows o g sum =
      let remaining = sub64 u.qty u.filled_qty in
      let order : OpenOrder = record o { remaining = remaining } in
      change_order-Shows st b h u.order_id remaining o g (omega arith) (
        omega (
          arith,
          sum,
          total_here u.order_id order (remove u.order_id b),
          total-remove o.side o.price u.order_id b h.keyed,
          given_here st b h u.order_id o g,
        ))

  limit-Shows :
      (q : ℕ)
      → is_open u.status ≡ true
      → u.price ≡ some q
      → Shows (apply_order_update u st).0 (next_orders u b)
  unfolding apply_order_update
  limit-Shows q t e =
      let remaining = sub64 u.qty u.filled_qty in
      let side = side_of u.side in
      elim (Option-cases (find u.order_id b)) [
        | inl g ↦
            let order : OpenOrder = record { side = side; price = q; remaining = remaining } in
            let sum : total side q ((u.order_id, order) ∷ b) < u64_mod =
              rw (t, e, remove-none u.order_id b g) at (fits.sums q) in
            rw (t, h.orders u.order_id, g, e, remove-none u.order_id b g)
              (add_order-Shows st b h side u.order_id q remaining g fits.room
                (omega (arith, sum, total_here u.order_id order b)))
        | inr (o, g) ↦
            let sum = rw (t, e, fits.sided o g) at (fits.sums q) in
            elim (Bool-cases (o.price == q)) [
              | inl k ↦
                  let same : q ≡ o.price = ground arith in
                  rw (t, h.orders u.order_id, g, e, fits.sided o g, k, same)
                    (changed-Shows o g (rw same at sum))
              | inr k ↦ rw (t, h.orders u.order_id, g, e, fits.sided o g, k) (moved-Shows q o g sum)
            ]
      ]

  next_orders-Shows : Shows (apply_order_update u st).0 (next_orders u b)
  next_orders-Shows = elim (Bool-cases (is_open u.status)) [
    | inl t ↦ elim (Option-cases u.price) [
      | inl e ↦ market-Shows t e
      | inr (q, e) ↦ limit-Shows q t e
    ]
    | inr f ↦ ended-Shows f
  ]

  -- If the state shows the open orders, each resting order and the sum of what is left at each price and
  -- side, and an update names the side where its order was, finds fewer than 200 prices on its side and
  -- leaves sums below 2 ^ 64 there, then the new state shows the orders that are open after the update,
  -- and every level that is published has their sum at its price.
  pub apply_order_update-Shows :
      Shows (apply_order_update u st).0 (next_orders u b)
      × All
          (λ (l : ChangedLevel). l.total ≡ total l.side_idx l.price (next_orders u b))
          (apply_order_update u st).1
  apply_order_update-Shows = (
    next_orders-Shows,
    All-weaken (IsLevel (apply_order_update u st).0)
        (λ (l : ChangedLevel). l.total ≡ total l.side_idx l.price (next_orders u b))
        (apply_order_update u st).1 (λ l e. e ∙ next_orders-Shows.levels l.side_idx l.price)
        (apply_order_update-IsLevel u st),
  )

-- A new state shows that there are no orders.
pub new_state-Shows : (symbol : Text) → Shows (new_state symbol) []
unfolding total level find
new_state-Shows symbol = record {
  orders = λ id. refl;
  levels = λ side price. elim side as (λ s. level price (depth_of s (new_state symbol)) ≡ 0) [
    | bids ↦ refl
    | asks ↦ refl
  ];
  small = λ side price. omega arith;
  keyed = tt;
}
