-- ===== src/Clearing/Reserves.antt =====
-- What the settlement of a trade does to the orders: it lowers what two of them reserve, and changes
-- nothing else.
use lcex.Prelude.{
  ◌≡◌, ap, ◌<◌, true, List, [], ◌∷◌, All, none, some, if◌then◌else◌, arith, ok, Bool-cases,
  Option-cases, inl, inr,
}
use lcex.Prelude.Int.{ℤ, pos, pos_part, neg_part, ◌-ℤ◌, ◌≤ℤ◌, leb_ℤ, int_laws}
use lcex.Prelude.Word.{i64_mod}
use lcex.Db.{Db, OrderRow, reach}
use lcex.Db.Keys.{eq_ℤ, eq_ℤ_iff}
use lcex.Db.Statements.{in_int64}
use lcex.Ledger.Atomic.{reach_healthy}
use lcex.Db.Inversion.{>>=-eq-ok, reach_ok}
use lcex.Db.Orders.{find_order, set_order, reduce_reserved, consume_reserved}

-- What an order reserves is an int64, and not the least one.
abbrev pub IsReserve : OrderRow → Type 0
IsReserve o = (pos_part o.reserved < i64_mod) × (neg_part o.reserved < i64_mod)

abbrev pub AreReserves : List OrderRow → Type 0
AreReserves = All IsReserve

-- The order with the amount less in reserve, if it reserves that much.
pub consumed : ℤ → ℤ → List OrderRow → List OrderRow
consumed amount id os = elim (find_order id os) [
  | none ↦ os
  | some o ↦
      if leb_ℤ amount o.reserved
      then set_order (record o { reserved = o.reserved -ℤ amount }) os
      else os
]

pub find_order-IsReserve :
    (id : ℤ) (os : List OrderRow) (o : OrderRow)
    → find_order id os ≡ some o
    → AreReserves os
    → IsReserve o
unfolding find_order
find_order-IsReserve id [] o h r = cc
find_order-IsReserve id (p ∷ os) o h r = ground (arith, find_order-IsReserve id os o)

pub set_order-IsReserve :
    (o : OrderRow) (os : List OrderRow)
    → IsReserve o
    → AreReserves os
    → AreReserves (set_order o os)
unfolding set_order
set_order-IsReserve o [] h r = tt
set_order-IsReserve o (p ∷ os) h r = ground (arith, set_order-IsReserve o os)

pub find_order_id :
    (id : ℤ) (os : List OrderRow) (o : OrderRow) → find_order id os ≡ some o → o.order_id ≡ id
unfolding find_order
find_order_id id [] o h = cc
find_order_id id (p ∷ os) o h = ground (arith, find_order_id id os o, eq_ℤ_iff p.order_id id)

pub find_order-set_order :
    (id : ℤ) (o : OrderRow) (os : List OrderRow) (p : OrderRow)
    → find_order o.order_id os ≡ some p
    → find_order id (set_order o os) ≡ (if eq_ℤ o.order_id id then some o else find_order id os)
unfolding find_order set_order
find_order-set_order id o [] p h = cc
find_order-set_order id o (q ∷ os) p h = ground (
  arith,
  find_order-set_order id o os p,
  eq_ℤ_iff q.order_id o.order_id,
  eq_ℤ_iff q.order_id id,
  eq_ℤ_iff o.order_id id,
)

-- An order that is found is found again, with another reserve at most.
pub consumed_keeps :
    (amount id key : ℤ) (os : List OrderRow) (o : OrderRow)
    → find_order key os ≡ some o
    → (r : ℤ) × (find_order key (consumed amount id os) ≡ some (record o { reserved = r }))
unfolding consumed
consumed_keeps amount id key os o h = elim (Option-cases (find_order id os)) [
  | inl e ↦ (o.reserved, ground arith)
  | inr (p, e) ↦ elim (Bool-cases (leb_ℤ amount p.reserved)) [
    | inr f ↦ (o.reserved, ground arith)
    | inl t ↦
        let q = record p { reserved = p.reserved -ℤ amount } in
        let same = find_order_id id os p e in
        let found : find_order q.order_id os ≡ some p = ground arith in
        elim (Bool-cases (eq_ℤ p.order_id key)) [
          | inl k ↦ (
            p.reserved -ℤ amount,
            ground (arith, find_order-set_order key q os p found, (eq_ℤ_iff p.order_id key).0 k),
          )
          | inr k ↦ (o.reserved, ground (arith, find_order-set_order key q os p found))
        ]
  ]
]

reduce_reserved_ok :
    (amount id : ℤ) (d d' : Db)
    → reduce_reserved amount id d ≡ (ok tt, d')
    → (d' ≡ record d { orders = consumed amount id d.orders })
      × (AreReserves d.orders → AreReserves d'.orders)
unfolding reduce_reserved consumed
reduce_reserved_ok amount id d d' h = elim (Option-cases (find_order id d.orders)) [
  | inl e ↦ (ground arith, λ r. ground arith)
  | inr (o, e) ↦ elim (Bool-cases (leb_ℤ amount o.reserved)) [
    | inr f ↦ (ground arith, λ r. ground arith)
    | inl t ↦
        let p = record o { reserved = o.reserved -ℤ amount } in
        let fits : in_int64 (o.reserved -ℤ amount) ≡ true = ground arith in
        let rest : IsReserve p = grind (int_laws, fits, t) in
        (ground arith, λ r. ground (arith, set_order-IsReserve p d.orders rest r))
  ]
]

-- The update has lowered the reserve of the order, if it was large enough.
pub consume_reserved_ok :
    (amount id : ℤ) (d d' : Db)
    → consume_reserved amount id d ≡ (ok tt, d')
    → (d' ≡ record d { orders = consumed amount id d.orders; faults = d'.faults })
      × (AreReserves d.orders → AreReserves d'.orders)
unfolding consume_reserved
consume_reserved_ok amount id d d' h =
    let (_, d₁, through, done) = >>=-eq-ok reach (λ _. reduce_reserved amount id) d d' h in
    let same = reach_ok d d₁ through in
    let (rest, keeps) = reduce_reserved_ok amount id d₁ d' done in
    let e : d₁.orders ≡ d.orders = ap (λ (x : Db). x.orders) same in
    (ground arith, λ r. keeps (rw e r))

-- Over a healthy connection the update succeeds for an amount that is not negative.
pub consume_reserved_succeeds :
    (amount id : ℤ) (d : Db)
    → d.faults ≡ []
    → AreReserves d.orders
    → pos 0 ≤ℤ amount
    → consume_reserved amount id d ≡ (ok tt, record d { orders = consumed amount id d.orders })
unfolding consume_reserved reduce_reserved consumed
consume_reserved_succeeds amount id d healthy r h = elim (Option-cases (find_order id d.orders)) [
  | inl e ↦ ground (arith, reach_healthy d healthy)
  | inr (o, e) ↦
      let small = find_order-IsReserve id d.orders o e r in
      elim (Bool-cases (leb_ℤ amount o.reserved)) [
        | inr f ↦ ground (arith, reach_healthy d healthy)
        | inl t ↦
            let fits : in_int64 (o.reserved -ℤ amount) ≡ true = grind (int_laws, small, h, t) in
            ground (arith, reach_healthy d healthy, fits)
      ]
]

pub consumed-AreReserves :
    (amount id : ℤ) (os : List OrderRow)
    → pos 0 ≤ℤ amount
    → AreReserves os
    → AreReserves (consumed amount id os)
unfolding consumed
consumed-AreReserves amount id os h r = elim (Option-cases (find_order id os)) [
  | inl e ↦ ground arith
  | inr (o, e) ↦
      let small = find_order-IsReserve id os o e r in
      elim (Bool-cases (leb_ℤ amount o.reserved)) [
        | inr f ↦ ground arith
        | inl t ↦
            let p = record o { reserved = o.reserved -ℤ amount } in
            let rest : IsReserve p = grind (int_laws, small, h, t) in
            ground (arith, set_order-IsReserve p os rest r)
      ]
]
