-- ===== src/MarketData/Book/Dropped.antt =====
-- On `trim` of services/market/state.go: it drops the worst price of a full side and leaves its orders, and
-- what the next update of such an order publishes.
use lcex.Prelude.{ℕ, ◌<◌, ◌==◌, ◌≡◌, refl, true, ◌∷◌, none, some, arith, length}
use lcex.Prelude.Word.{u64_mod, sub64, add64}
use lcex.Prelude.Table.{find, remove}
use lcex.Events.{OrderUpdate}
use lcex.MarketData.{Side, RestingOrder, SymbolState, side_of, depth_of, set_depth, level}
use lcex.MarketData.Book.{add_order, change_order, is_open, apply_order_update}
use lcex.Prelude.{[], All, ◌∙◌, ◌-◌}
use lcex.Prelude.Int.{◌+ℤ◌, ◌-ℤ◌}
use lcex.Prelude.Word.{int64, uint64, wrap64, uint64-int64, uint64-wrap64, uint64-add, uint64-sub}
use lcex.MarketData.{level, bids, asks}
use lcex.Prelude.{ap, List}
use lcex.Prelude.Table.{put, keys, find-put}
use lcex.MarketData.Book.{trim}
use lcex.MarketData.Book.Levels.{level-remove}
use lcex.MarketData.Book.Worst.{IsWorst, trim_worst}

changed_level_wraps :
    (side : Side) (id remaining : ℕ) (old : RestingOrder) (st : SymbolState)
    → level old.price (depth_of side st) ≡ 0
    → remaining < old.remaining
    → old.remaining < u64_mod
    → (change_order side id old remaining st).1
      ≡ record { side_idx = side; price = old.price; total = u64_mod - (old.remaining - remaining) }
        ∷ []
unfolding change_order
changed_level_wraps side id remaining old st e less word =
    let wrapped : uint64 (wrap64 (wrap64 (int64 0 +ℤ int64 remaining) -ℤ int64 old.remaining))
        ≡ u64_mod - (old.remaining - remaining) =
      rw
        (
          uint64-wrap64,
          uint64-sub,
          uint64-wrap64,
          uint64-add,
          uint64-int64 0 (omega arith),
          uint64-int64 remaining (omega arith),
          uint64-int64 old.remaining word,
        )
        (omega arith) in
    rw (e, wrapped) refl

absent_level_wraps :
    (u : OrderUpdate) (old : RestingOrder) (st : SymbolState)
    → find u.order_id st.resting ≡ some old
    → level old.price (depth_of (side_of u.side) st) ≡ 0
    → is_open u.status ≡ true
    → u.price ≡ some old.price
    → sub64 u.qty u.filled_qty < old.remaining
    → old.remaining < u64_mod
    → (apply_order_update u st).1
      ≡ record {
        side_idx = side_of u.side;
        price = old.price;
        total = u64_mod - (old.remaining - sub64 u.qty u.filled_qty);
      }
        ∷ []
unfolding apply_order_update
absent_level_wraps u old st found gone is_open_u price less word =
    let same : (old.price == old.price) ≡ true = ground arith in
    rw (is_open_u, found, price, same)
      (changed_level_wraps (side_of u.side) u.order_id (sub64 u.qty u.filled_qty) old st gone less
        word)

new_order :
    (u : OrderUpdate) (q : ℕ) (st : SymbolState)
    → is_open u.status ≡ true
    → find u.order_id st.resting ≡ none
    → u.price ≡ some q
    → (apply_order_update u st).0
      ≡ (add_order (side_of u.side) u.order_id q (sub64 u.qty u.filled_qty) st).0
unfolding apply_order_update
new_order u q st opened new price = rw (opened, new, price) refl

depth_of-set_same :
    (side : Side) (depth : List (ℕ × ℕ)) (resting : List (ℕ × RestingOrder)) (st : SymbolState)
    → depth_of side (record (set_depth side depth st) { resting = resting }) ≡ depth
depth_of-set_same bids depth resting st = refl
depth_of-set_same asks depth resting st = refl

set_depth-resting :
    (side : Side) (depth : List (ℕ × ℕ)) (resting : List (ℕ × RestingOrder)) (st : SymbolState)
    → (record (set_depth side depth st) { resting = resting }).resting ≡ resting
set_depth-resting side depth resting st = refl

add_order_drops :
    (side : Side) (id q remaining other : ℕ) (old : RestingOrder) (st : SymbolState)
    → find other st.resting ≡ some old
    → find id st.resting ≡ none
    → (v : ℕ) → find old.price (depth_of side st) ≡ some v
    → All (IsWorst side old.price) (keys (depth_of side st))
    → length (depth_of side st) ≡ 200
    → find q (depth_of side st) ≡ none
    → IsWorst side old.price q
    → let st' = (add_order side id q remaining st).0 in
      (find other st'.resting ≡ some old) × (level old.price (depth_of side st') ≡ 0)
unfolding add_order
add_order_drops side id q remaining other old st rests new v at_p all many fresh behind =
    let sum = add64 (level q (depth_of side st)) remaining in
    let order : RestingOrder = record { price = q; remaining = remaining } in
    let cut = trim_worst side old.price v q sum (depth_of side st) at_p all many fresh behind in
    let gone : level old.price (remove old.price (put q sum (depth_of side st))) ≡ 0 =
      ground (arith, level-remove old.price old.price (put q sum (depth_of side st))) in
    let stays : find other (put id order st.resting) ≡ some old =
      ground (arith, find-put id other order st.resting, rests, new) in
    (
      ground (arith, stays),
      ap (level old.price) (
            depth_of-set_same side (trim side (put q sum (depth_of side st)))
              (put id order st.resting) st)
          ∙ ap (level old.price) cut
          ∙ gone,
    )

-- When an open update brings an order that is new to the book, at a price that is new to a side with 200
-- prices and not worse than `old.price`, the worst of them, then `old.price` is dropped: it has no quantity
-- any more, while an order that rests at it is in the book as before. If the next update of that order is
-- open, at the same price and side, and leaves less of the order, then it publishes for that price 2 ^ 64
-- less the difference.
pub dropped_level_wraps :
    (first second : OrderUpdate) (q v : ℕ) (old : RestingOrder) (st : SymbolState)
    → is_open first.status ≡ true
    → find first.order_id st.resting ≡ none
    → first.price ≡ some q
    → find q (depth_of (side_of first.side) st) ≡ none
    → length (depth_of (side_of first.side) st) ≡ 200
    → find second.order_id st.resting ≡ some old
    → find old.price (depth_of (side_of first.side) st) ≡ some v
    → All (IsWorst (side_of first.side) old.price) (keys (depth_of (side_of first.side) st))
    → IsWorst (side_of first.side) old.price q
    → side_of second.side ≡ side_of first.side
    → is_open second.status ≡ true
    → second.price ≡ some old.price
    → sub64 second.qty second.filled_qty < old.remaining
    → old.remaining < u64_mod
    → let st' = (apply_order_update first st).0 in
      (find second.order_id st'.resting ≡ some old)
      × (level old.price (depth_of (side_of first.side) st') ≡ 0)
      × ((apply_order_update second st').1
          ≡ record {
            side_idx = side_of first.side;
            price = old.price;
            total = u64_mod - (old.remaining - sub64 second.qty second.filled_qty);
          }
            ∷ [])
dropped_level_wraps first second q v old st opened new price fresh many rests at_p all behind side
      opened' price' less word =
    let st' = (apply_order_update first st).0 in
    let out = new_order first q st opened new price in
    let (stays, gone) =
      add_order_drops (side_of first.side) first.order_id q (sub64 first.qty first.filled_qty)
        second.order_id old st rests new v at_p all many fresh behind in
    let stays' : find second.order_id st'.resting ≡ some old =
      ap (λ (x : SymbolState). find second.order_id x.resting) out ∙ stays in
    let gone' : level old.price (depth_of (side_of first.side) st') ≡ 0 =
      ap (λ (x : SymbolState). level old.price (depth_of (side_of first.side) x)) out ∙ gone in
    let here : level old.price (depth_of (side_of second.side) st') ≡ 0 = rw side gone' in
    (
      stays',
      gone',
      absent_level_wraps second old st' stays' here opened' price' less word
          ∙ ap
              (λ (s : Side).
                record {
                  side_idx = s;
                  price = old.price;
                  total = u64_mod - (old.remaining - sub64 second.qty second.filled_qty);
                }
                ∷ [])
              side,
    )
