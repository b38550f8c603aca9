-- ===== src/MarketData/Book/Keyed.antt =====
-- On `applyOrderUpdate` of services/market/state.go: the maps of the book keep one entry for each key.
use lcex.Prelude.{ℕ, ◌-◌, ◌==◌, List, ltb, if◌then◌else◌, Bool-cases, inl, inr}
use lcex.Prelude.Table.{put, IsKeyed, remove-IsKeyed, put-IsKeyed}
use lcex.Events.{OrderUpdate}
use lcex.MarketData.{Side, bids, asks, RestingOrder, SymbolState, depth_of, set_depth, level}
use lcex.MarketData.Book.{lower_level, remove_level, add_order, change_order, apply_order_update}
use lcex.MarketData.Book.Cases.{apply_order_update-Keeps}
use lcex.MarketData.Book.Trim.{trim-IsKeyed}

pub record IsBook (st : SymbolState) : Type 0 where
  pub resting : IsKeyed st.resting
  pub bid_side : IsKeyed st.bid_depth
  pub ask_side : IsKeyed st.ask_depth

depth_of-IsKeyed : (side : Side) (st : SymbolState) → IsBook st → IsKeyed (depth_of side st)
depth_of-IsKeyed bids st h = h.bid_side
depth_of-IsKeyed asks st h = h.ask_side

set_depth-IsBook :
    (side : Side) (depth : List (ℕ × ℕ)) (resting : List (ℕ × RestingOrder)) (st : SymbolState)
    → IsKeyed depth
    → IsKeyed resting
    → IsBook st
    → IsBook (record (set_depth side depth st) { resting = resting })
set_depth-IsBook bids depth resting st d r h = record {
  resting = r;
  bid_side = d;
  ask_side = h.ask_side;
}
set_depth-IsBook asks depth resting st d r h = record {
  resting = r;
  bid_side = h.bid_side;
  ask_side = d;
}

lower_level-IsKeyed :
    (price remaining : ℕ) (depth : List (ℕ × ℕ))
    → IsKeyed depth
    → IsKeyed (lower_level price remaining depth)
unfolding lower_level
lower_level-IsKeyed price remaining depth h =
    let total = level price depth in
    let left = total - (if ltb total remaining then total else remaining) in
    let lowered = put-IsKeyed price left depth h in
    elim (Bool-cases (left == 0)) [
      | inl t ↦ rw t (remove-IsKeyed price (put price left depth) lowered)
      | inr f ↦ rw f lowered
    ]

pub apply_order_update-IsBook :
    (u : OrderUpdate) (st : SymbolState) → IsBook st → IsBook (apply_order_update u st).0
unfolding remove_level add_order change_order
apply_order_update-IsBook =
    apply_order_update-Keeps IsBook
      (λ side price remaining id st h.
        set_depth-IsBook side _ _ st
          (lower_level-IsKeyed price remaining (depth_of side st) (depth_of-IsKeyed side st h))
          (remove-IsKeyed id st.resting h.resting) h)
      (λ side id price remaining st h.
        set_depth-IsBook side _ _ st
          (trim-IsKeyed side _
            (put-IsKeyed price _ (depth_of side st) (depth_of-IsKeyed side st h)))
          (put-IsKeyed id _ st.resting h.resting) h)
      (λ side id old remaining st h.
        set_depth-IsBook side _ _ st
          (put-IsKeyed old.price _ (depth_of side st) (depth_of-IsKeyed side st h))
          (put-IsKeyed id _ st.resting h.resting) h)
