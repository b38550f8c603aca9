-- ===== src/MarketData/Book/Orders.antt =====
-- An abstract book for services/market/state.go: the open orders with their sides, from which the
-- quantity at a price is added up anew, and when a state shows them.
use lcex.Prelude.{
  ℕ, ◌+◌, ◌<◌, ◌==◌, ◌≡◌, refl, Bool, true, false, ◌&&◌, List, [], ◌∷◌, Option, none, some, arith,
  if◌then◌else◌, Bool-cases, inl, inr,
}
use lcex.Prelude.Word.{u64_mod, sub64}
use lcex.Prelude.Table.{find, remove, IsKeyed, remove-Lacks}
use lcex.Events.{OrderUpdate}
use lcex.MarketData.{
  Side, bids, asks, RestingOrder, ChangedLevel, SymbolState, side_of, depth_of, set_depth, level,
}
use lcex.MarketData.Book.{is_open}

pub record OpenOrder : Type 0 where
  pub side : Side
  pub price : ℕ
  pub remaining : ℕ

-- The orders by their ids.
abbrev pub Orders : Type 0
Orders = List (ℕ × OpenOrder)

-- What an update makes of the orders: an open limit order takes the place of the one with its id, any
-- other has left.
abbrev pub next_orders : OrderUpdate → Orders → Orders
next_orders u b =
    let rest = remove u.order_id b in
    if is_open u.status
    then elim u.price [
      | none ↦ rest
      | some price ↦
          (
            u.order_id,
            record { side = side_of u.side; price = price; remaining = sub64 u.qty u.filled_qty },
          )
          ∷ rest
    ]
    else rest

abbrev pub same_side : Side → Side → Bool
same_side bids bids = true
same_side asks asks = true
same_side _ _ = false

abbrev pub amount : Side → ℕ → OpenOrder → ℕ
amount side price o = if same_side side o.side && (o.price == price) then o.remaining else 0

-- What the orders of a side have left at a price.
unfoldable pub total : Side → ℕ → Orders → ℕ
total side price [] = 0
total side price ((id, o) ∷ b) = amount side price o + total side price b

abbrev pub rests_as : Option OpenOrder → Option RestingOrder
rests_as none = none
rests_as (some o) = some record { price = o.price; remaining = o.remaining }

-- The state shows the orders: those that rest are they, and each level is the sum of what they have left.
pub record Shows (st : SymbolState) (b : Orders) : Type 0 where
  pub orders : (id : ℕ) → find id st.resting ≡ rests_as (find id b)
  pub levels : (side : Side) (price : ℕ) → level price (depth_of side st) ≡ total side price b
  pub small : (side : Side) (price : ℕ) → total side price b < u64_mod
  pub keyed : IsKeyed b

-- The level that is published is the one of the state.
abbrev pub IsLevel : SymbolState → ChangedLevel → Type 0
IsLevel st l = l.total ≡ level l.price (depth_of l.side_idx st)

pub depth_of-set_depth :
    (s side : Side) (depth : List (ℕ × ℕ)) (resting : List (ℕ × RestingOrder)) (st : SymbolState)
    → depth_of s (record (set_depth side depth st) { resting = resting })
      ≡ (if same_side s side then depth else depth_of s st)
depth_of-set_depth bids bids depth resting st = refl
depth_of-set_depth bids asks depth resting st = refl
depth_of-set_depth asks bids depth resting st = refl
depth_of-set_depth asks asks depth resting st = refl

pub resting-set_depth :
    (side : Side) (depth : List (ℕ × ℕ)) (resting : List (ℕ × RestingOrder)) (st : SymbolState)
    → (record (set_depth side depth st) { resting = resting }).resting ≡ resting
resting-set_depth side depth resting st = refl

pub same_side_self : (s : Side) → same_side s s ≡ true
same_side_self bids = refl
same_side_self asks = refl

pub same_side_lem : (s side : Side) → same_side s side ≡ true → s ≡ side
same_side_lem bids bids h = refl
same_side_lem asks asks h = refl
same_side_lem bids asks h = cc
same_side_lem asks bids h = cc

abbrev pub given : Side → ℕ → Option OpenOrder → ℕ
given side price none = 0
given side price (some o) = amount side price o

pub total-remove :
    (side : Side) (price id : ℕ) (b : Orders)
    → IsKeyed b
    → total side price (remove id b) + given side price (find id b) ≡ total side price b
unfolding total remove find
total-remove side price id [] k = refl
total-remove side price id ((j, o) ∷ b) k = elim (Bool-cases (j == id)) [
  | inl t ↦
      let same : j ≡ id = ground arith in rw (t, remove-Lacks id b (rw same at k.0)) (omega arith)
  | inr f ↦ rw f (omega (arith, total-remove side price id b k.1))
]

-- Not at the order's side and price.
abbrev pub Elsewhere : Side → ℕ → Side → ℕ → Type 0
Elsewhere side q s p = (same_side s side && (q == p)) ≡ false

-- An order more.
module _ (id : ℕ) (o : OpenOrder) (b : Orders) where
  pub total_here : total o.side o.price ((id, o) ∷ b) ≡ o.remaining + total o.side o.price b
  unfolding total
  total_here = rw (same_side_self o.side) (ground arith)

  pub total-Elsewhere :
      (s : Side) (p : ℕ) → Elsewhere o.side o.price s p → total s p ((id, o) ∷ b) ≡ total s p b
  unfolding total
  total-Elsewhere s p f = rw f (omega arith)

  pub small_totals :
      o.remaining + total o.side o.price b < u64_mod
      → ((s : Side) (p : ℕ) → total s p b < u64_mod)
      → (s : Side) (p : ℕ) → total s p ((id, o) ∷ b) < u64_mod
  small_totals here there s p = elim (Bool-cases (same_side s o.side && (o.price == p))) [
    | inl t ↦
        let side : s ≡ o.side = same_side_lem s o.side (ground arith) in
        let price : p ≡ o.price = ground arith in rw (side, price, total_here) here
    | inr f ↦ rw (total-Elsewhere s p f) (there s p)
  ]
