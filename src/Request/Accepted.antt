-- ===== src/Request/Accepted.antt =====
-- What an accepted request is like, and what is not asked of it.
use lcex.Prelude.{
  ◌≡◌, refl, ℕ, ◌≤◌, ◌<◌, true, false, [], ◌∷◌, Option, some, length, arith, ok, Result-cases,
  Bool-cases, Option-cases, ◌⊎◌, inl, inr,
}
use lcex.Prelude.Int.{negsuc, ◌≤ℤ◌}
use lcex.Prelude.{sym, ◌∙◌, ◌+◌, ◌*◌, ◌/◌, ◌%◌, ltb}
use lcex.Fixed.{scale, mul_div, mul_div_ceil}
use lcex.Fixed.MulDiv.{div_ceil, mul_div_exact, mul_div_ceil_exact}
use lcex.Prelude.Word.{u64_mod, i64_mod, add64, int64, int64_wraps}
use lcex.Prelude.Text.{Text, codes, text_eq}
use lcex.Fixed.{is_empty, parse, format}
use lcex.Fixed.RoundTrip.{parse-format}
use lcex.Markets.{Config, Market, get, trading}
use lcex.Request.{
  PlaceReq, Checked, check_request, check_words, check_amounts, reserve_bid, price_of, nonzero,
  reserve_of, lower_or,
}
use lcex.Db.Orders.{one_of}

-- What a bid at a price reserves: the quote amount, rounded down, and the fee on it at the taker's rate,
-- rounded up. The amount is a uint64 and not below the market's least; the sum is one of uint64.
pub record IsBidReserve (m : Market) (p qty reserved : ℕ) : Type 0 where
  pub fits : p * qty / scale < u64_mod
  pub notion : m.min_notion ≤ p * qty / scale
  pub fee_fits : p * qty / scale * m.taker_rate / scale < u64_mod
  pub sum : reserved ≡ (p * qty / scale + div_ceil (p * qty / scale * m.taker_rate) scale) % u64_mod

-- The price of a bid, and what the order reserves.
abbrev pub Reserves : PlaceReq → Checked → Type 0
Reserves req c =
    (text_eq req.side (codes "bid") ≡ true)
      × ((p : ℕ) × (c.price ≡ some p)
          × (parse req.price ≡ ok p)
          × (1 ≤ p)
          × IsBidReserve c.market p c.qty c.reserved)
    ⊎ (text_eq req.side (codes "ask") ≡ true) × (c.reserved ≡ c.qty)

pub record IsAccepted (cfg : Config) (req : PlaceReq) (c : Checked) : Type 0 where
  pub market : get cfg req.symbol ≡ ok c.market
  pub open_market : trading c.market ≡ true
  pub id : (1 ≤ length req.client_order_id) × (length req.client_order_id ≤ 64)
  pub amount : parse req.qty ≡ ok c.qty
  pub positive : 1 ≤ c.qty
  pub enough : c.market.min_qty ≤ c.qty
  pub reserves : Reserves req c

nonzero_ok :
    (code : ℕ) (text : Text) (v : ℕ) → nonzero code text ≡ ok v → (parse text ≡ ok v) × (1 ≤ v)
nonzero_ok code text v h = elim (Result-cases (parse text)) [
  | inr (e, q) ↦ absurd (ground arith)
  | inl (w, q) ↦ ground arith
]

price_of_ok :
    (order_type : Text) (req : PlaceReq) (p : ℕ)
    → price_of order_type req ≡ ok (some p)
    → (parse req.price ≡ ok p) × (1 ≤ p)
price_of_ok order_type req p h = elim (Result-cases (nonzero 50007 req.price)) [
  | inr (e, q) ↦ absurd (ground arith)
  | inl (w, q) ↦ ground (arith, nonzero_ok 50007 req.price w q)
]

add64_mod : (a x : ℕ) → add64 a (x % u64_mod) ≡ (a + x) % u64_mod
add64_mod a x = omega arith

reserve_bid-IsBidReserve :
    (m : Market) (p qty reserved : ℕ)
    → reserve_bid m p qty ≡ ok reserved
    → IsBidReserve m p qty reserved
unfolding reserve_bid
reserve_bid-IsBidReserve m p qty reserved h =
    let qa = p * qty / scale in
    let product = mul_div_exact p qty scale in
    let fee = mul_div_ceil_exact qa m.taker_rate scale in
    elim (Bool-cases (ltb qa u64_mod)) [
      | inr f ↦ absurd (ground (arith, product))
      | inl t ↦
          let amount : mul_div p qty scale ≡ ok qa = ground (arith, product) in
          elim (Bool-cases (ltb qa m.min_notion)) [
            | inl k ↦ absurd (ground (arith, amount))
            | inr k ↦ elim (Bool-cases (ltb (qa * m.taker_rate / scale) u64_mod)) [
              | inr f ↦ absurd (ground (arith, amount, fee))
              | inl u ↦
                  let rounded : mul_div_ceil qa m.taker_rate scale
                      ≡ ok (div_ceil (qa * m.taker_rate) scale % u64_mod) =
                    ground (arith, fee) in
                  let sum : add64 qa (div_ceil (qa * m.taker_rate) scale % u64_mod) ≡ reserved =
                    ground (arith, amount, rounded) in
                  record {
                    fits = ground arith;
                    notion = ground arith;
                    fee_fits = ground arith;
                    sum = sym sum ∙ add64_mod qa (div_ceil (qa * m.taker_rate) scale);
                  }
            ]
          ]
    ]

reserve_of_ok :
    (m : Market) (req : PlaceReq) (order_type : Text) (price : Option ℕ) (c : Checked)
    → one_of req.side (codes "bid" ∷ codes "ask" ∷ []) ≡ true
    → price_of order_type req ≡ ok price
    → reserve_of m req.side price c.qty ≡ ok c.reserved
    → c.market ≡ m
    → c.price ≡ price
    → Reserves req c
reserve_of_ok m req order_type price c sides p r em ep =
    elim (Bool-cases (text_eq req.side (codes "bid"))) [
      | inr f ↦ inr (ground arith, ground arith)
      | inl t ↦ elim (Option-cases price) [
        | inl e ↦ absurd (ground arith)
        | inr (w, e) ↦
            let (spelled, positive) = price_of_ok order_type req w (rw e at p) in
            let reserved = reserve_bid-IsBidReserve m w c.qty c.reserved (ground arith) in
            inl (t, (w, ground arith, spelled, positive, rw em reserved))
      ]
    ]

check_amounts_ok :
    (m : Market) (req : PlaceReq) (order_type tif stp : Text) (c : Checked)
    → one_of req.side (codes "bid" ∷ codes "ask" ∷ []) ≡ true
    → check_amounts m req order_type tif stp ≡ ok c
    → (c.market ≡ m)
      × (parse req.qty ≡ ok c.qty)
      × (1 ≤ c.qty)
      × (m.min_qty ≤ c.qty)
      × Reserves req c
unfolding check_amounts
check_amounts_ok m req order_type tif stp c sides h = elim (Result-cases (nonzero 10003 req.qty)) [
  | inr (e, q) ↦ absurd (ground arith)
  | inl (qty, q) ↦ elim (Result-cases (price_of order_type req)) [
    | inr (e, p) ↦ absurd (ground arith)
    | inl (price, p) ↦ elim (Result-cases (reserve_of m req.side price qty)) [
      | inr (e, r) ↦ absurd (ground arith)
      | inl (reserved, r) ↦
          let (amount, positive) = nonzero_ok 10003 req.qty qty q in
          let eq : c.qty ≡ qty = ground arith in
          let em : c.market ≡ m = ground arith in
          let ep : c.price ≡ price = ground arith in
          let er : reserve_of m req.side price c.qty ≡ ok c.reserved = ground arith in
          (
            em,
            rw eq amount,
            rw eq positive,
            ground arith,
            reserve_of_ok m req order_type price c sides p er em ep,
          )
    ]
  ]
]

not_empty : (t : Text) → is_empty t ≡ false → 1 ≤ length t
not_empty [] h = cc
not_empty (c ∷ t) h = omega arith

check_words_ok :
    (m : Market) (req : PlaceReq) (c : Checked)
    → check_words m req ≡ ok c
    → (1 ≤ length req.client_order_id)
      × (length req.client_order_id ≤ 64)
      × (one_of req.side (codes "bid" ∷ codes "ask" ∷ []) ≡ true)
      × (check_amounts m req
            (lower_or (codes "limit") req.order_type)
            (lower_or (codes "gtc") req.time_in_force)
            (lower_or (codes "none") req.stp_mode)
          ≡ ok c)
unfolding check_words
check_words_ok m req c h =
    (ground (arith, not_empty req.client_order_id), ground arith, ground arith, ground arith)

-- A request that passes is for an open market and has an identifier of 1 to 64 bytes; its quantity is the
-- amount that its text spells, not 0 and not below the market's least; a bid has the price that its text
-- spells, not 0, and a quote amount, rounded down, that is not below the market's least, and it reserves
-- that amount and the fee on it at the taker's rate, rounded up, added modulo 2 ^ 64; an ask reserves its
-- quantity.
pub check_request_ok :
    (cfg : Config) (req : PlaceReq) (c : Checked)
    → check_request cfg req ≡ ok c
    → IsAccepted cfg req c
unfolding check_request
check_request_ok cfg req c h = elim (Result-cases (get cfg req.symbol)) [
  | inr (e, q) ↦ absurd (ground arith)
  | inl (m, q) ↦
      let opened : trading m ≡ true = ground arith in
      let words : check_words m req ≡ ok c = ground arith in
      let (long, short, sides, amounts) = check_words_ok m req c words in
      let (em, amount, positive, enough, reserves) = check_amounts_ok m req _ _ _ c sides amounts in
      record {
        market = rw em q;
        open_market = rw em opened;
        id = (long, short);
        amount = amount;
        positive = positive;
        enough = rw em enough;
        reserves = reserves;
      }
]

-- A limit order that sells.
abbrev pub ask_of : Text → Text → Text → ℕ → PlaceReq
ask_of symbol id price qty = record {
  symbol = symbol;
  client_order_id = id;
  side = codes "ask";
  order_type = [];
  time_in_force = [];
  stp_mode = [];
  post_only = false;
  price = price;
  qty = format qty;
}

-- Nothing bounds the quantity of a limit ask from above: in an open market, with an identifier of 1 to 64
-- bytes and a price other than 0, one of 2 ^ 63 or more (in units of 10 ^ -8), not below the market's
-- least, is accepted, and the amount to freeze turns negative as an int64.
pub huge_ask_accepted :
    (cfg : Config) (symbol id price : Text) (m : Market) (p qty : ℕ)
    → get cfg symbol ≡ ok m
    → trading m ≡ true
    → (1 ≤ length id) × (length id ≤ 64)
    → parse price ≡ ok p
    → 1 ≤ p
    → m.min_qty ≤ qty
    → i64_mod ≤ qty
    → qty < u64_mod
    → (c : Checked) × (check_request cfg (ask_of symbol id price qty) ≡ ok c)
      × (c.reserved ≡ qty)
      × (int64 c.reserved ≤ℤ negsuc 0)
unfolding check_request check_words check_amounts text_eq
huge_ask_accepted cfg symbol id price m p qty e opened long parsed given enough big fits =
    let c : Checked = record {
      market = m;
      order_type = codes "limit";
      tif = codes "gtc";
      stp = codes "none";
      price = some p;
      qty = qty;
      reserved = qty;
    } in
    (c, ground (arith, parse-format qty fits), refl, ground (arith, int64_wraps qty big fits))
