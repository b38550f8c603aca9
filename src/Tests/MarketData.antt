-- ===== src/Tests/MarketData.antt =====
-- The theorems on the market data service, at a small book.
use lcex.Prelude.{
  ℕ, ◌<◌, ◌≡◌, refl, [], ◌∷◌, ◌-◌, ◌==◌, none, some, All, arith, Bool-cases, inl, inr,
}
use lcex.Prelude.{false, replicate}
use lcex.Prelude.Text.{codes, text_eq}
use lcex.Prelude.Word.{u64_mod, sub64}
use lcex.Prelude.Table.{find, remove}
use lcex.Events.{Event, OrderUpdate}
use lcex.MarketData.{ChangedLevel, SymbolState, bids, new_state, side_of, depth_of, level}
use lcex.MarketData.Book.{apply_order_update}
use lcex.MarketData.Book.Orders.{Shows, next_orders, total}
use lcex.MarketData.Book.Refines.{Fits, apply_order_update-Shows, new_state-Shows}
use lcex.MarketData.Book.Worst.{IsWorst}
use lcex.MarketData.Book.Dropped.{dropped_level_wraps}
use lcex.MarketData.{RestingOrder}
use lcex.Prelude.{List, zero, suc, ◌+◌, ◌≤◌}
use lcex.Prelude.Table.{keys}
use lcex.MarketData.Store.{StateStore, apply, nothing, store_with}
use lcex.MarketData.Store.Replay.{Delivery, deliver, apply_again}
use lcex.MarketData.Store.Kept.{AreKept, deliver-AreKept, new_state_store-AreKept}
use lcex.MarketData.Hub.{WsHub, pong, has_conn}
use lcex.MarketData.Hub.Safe.{IsSafe}
use lcex.MarketData.Consumer.{handle_record}
use lcex.MarketData.Consumer.Steady.{states_after, handle_record-IsSafe}
use lcex.Samples.{symbol}

-- An open bid of 5 at 100, then what an update to 3 says.
abbrev update : ℕ → OrderUpdate
update qty = record {
  order_id = 1;
  user_id = 2;
  side = codes "bid";
  price = some 100;
  status = codes "open";
  filled_qty = 0;
  qty = qty;
}

abbrev empty : SymbolState
empty = new_state symbol

bid_side : side_of (codes "bid") ≡ bids
unfolding side_of text_eq
bid_side = refl

small_total :
    (price : ℕ) → total (side_of (codes "bid")) price (next_orders (update 5) []) < u64_mod
unfolding find remove total text_eq side_of
small_total price = elim (Bool-cases (100 == price)) [
  | inl t ↦ rw t (omega arith)
  | inr f ↦ rw f (omega arith)
]

no_orders-Fits : Fits (update 5) empty []
no_orders-Fits = record {
  sided = λ o e. absurd (unfold find in ground arith);
  room = rw bid_side (omega arith);
  sums = small_total;
}

apply_order_update-Shows_example :
    Shows (apply_order_update (update 5) empty).0 (next_orders (update 5) [])
    × All
        (λ (l : ChangedLevel). l.total ≡ total l.side_idx l.price (next_orders (update 5) []))
        (apply_order_update (update 5) empty).1
apply_order_update-Shows_example =
    apply_order_update-Shows (update 5) empty [] (new_state-Shows symbol) no_orders-Fits

-- Orders of 5 at the prices from the first one on, each with its price as its id.
abbrev orders_from : ℕ → ℕ → List (ℕ × RestingOrder)
orders_from zero price = []
orders_from (suc n) price =
    (price, record { price = price; remaining = 5 }) ∷ orders_from n (price + 1)

abbrev levels_from : ℕ → ℕ → List (ℕ × ℕ)
levels_from zero price = []
levels_from (suc n) price = (price, 5) ∷ levels_from n (price + 1)

-- A full side: bids at 100 to 299.
abbrev full : SymbolState
full = record empty { bid_depth = levels_from 200 100; resting = orders_from 200 100 }

levels_from-IsWorst :
    (n price : ℕ) → 100 ≤ price → All (IsWorst bids 100) (keys (levels_from n price))
unfolding keys
levels_from-IsWorst zero price h = tt
levels_from-IsWorst (suc n) price h = (h, levels_from-IsWorst n (price + 1) (omega arith))

abbrev best : OrderUpdate
best = record (update 5) { order_id = 1000; price = some 300 }

abbrev worst : OrderUpdate
worst = record (update 3) { order_id = 100 }

dropped_level_wraps_example :
    let st' = (apply_order_update best full).0 in
    (find 100 st'.resting ≡ some (record { price = 100; remaining = 5 }))
    × (level 100 (depth_of (side_of (codes "bid")) st') ≡ 0)
    × ((apply_order_update worst st').1
        ≡ record {
          side_idx = side_of (codes "bid");
          price = 100;
          total = u64_mod - (5 - sub64 3 0);
        }
          ∷ [])
dropped_level_wraps_example =
    dropped_level_wraps best worst 300 5 (record { price = 100; remaining = 5 }) full
      (unfold text_eq in refl) (unfold find in refl) refl (unfold find side_of text_eq in refl)
      (unfold side_of text_eq in refl) (unfold find in refl) (unfold find side_of text_eq in refl)
      (rw bid_side (levels_from-IsWorst 200 100 (omega arith))) (rw bid_side (omega arith)) refl
      (unfold text_eq in refl) refl (omega arith) (omega arith)

abbrev event_of : ℕ → OrderUpdate → Event
event_of seq u = record {
  seq = seq;
  kind = codes "order_update";
  as_trade = none;
  as_order_update = some u;
}

abbrev first : Delivery
first = record { now = 1000; symbol = symbol; event = event_of 1 (update 5) }

abbrev second : Delivery
second = record { now = 2000; symbol = symbol; event = event_of 2 (update 3) }

abbrev store : StateStore
store = store_with (symbol ∷ []) []

deliver-AreKept_example : AreKept 2000 (deliver (first ∷ second ∷ []) store)
deliver-AreKept_example =
    deliver-AreKept 0 (first ∷ second ∷ []) store (omega arith, (omega arith, tt))
      (new_state_store-AreKept 0 (symbol ∷ []) [] tt)

apply_again_example :
    apply 3000 symbol (event_of 1 (update 5)) (deliver (first ∷ second ∷ []) store)
    ≡ (deliver (first ∷ second ∷ []) store, nothing)
apply_again_example = apply_again 3000 first [] (second ∷ []) store

-- Connection 4 is subscribed to the depth and has room; connection 5, slow, is full.
abbrev hub : WsHub
hub = record {
  subs = (codes "depth@BTC-USDT", 4 ∷ 5 ∷ []) ∷ [];
  conns =
      (4, record { send = []; closed = false })
      ∷ (5, record { send = replicate 256 pong; closed = false })
      ∷ [];
}

hub-IsSafe : IsSafe hub
unfolding has_conn find
hub-IsSafe = (((refl, (refl, tt)), ((λ k e. ground arith), ((λ k e. ground arith), tt))), tt)

handle_record-IsSafe_example :
    (h' : WsHub) × (handle_record
        (codes "cex")
        (codes "cex.events.btc-usdt")
        (some (event_of 1 (update 5)))
        1000
        1000
        (store, hub)
      ≡ some (
        states_after
            (codes "cex")
            (codes "cex.events.btc-usdt")
            (some (event_of 1 (update 5)))
            1000
            store,
        h',
      ))
    × IsSafe h'
handle_record-IsSafe_example =
    handle_record-IsSafe (codes "cex") (codes "cex.events.btc-usdt") (some (event_of 1 (update 5)))
      1000 1000 store hub hub-IsSafe
