-- ===== src/Settlement/Balanced.antt =====
-- On the moves of `settleTrade` (services/clearing/main.go) and the ledger's check: what one side pays
-- and what the other side and the fee account receive.
use lcex.Prelude.{refl, sym, ◌∙◌}
use lcex.Prelude.{
  ℕ, ◌+◌, ◌-◌, ◌*◌, ◌≤◌, ◌<◌, ◌≡◌, arith, Bool, true, false, ◌&&◌, if◌then◌else◌, length, ok, inl,
  inr, Bool-cases,
}
use lcex.Prelude.Int.{ℤ, pos, ◌≤ℤ◌, ◌+ℤ◌, ◌-ℤ◌, int_laws, zero-sub_parts}
use lcex.Prelude.Word.{i64_mod, add64, sub64, int64, int64_exact}
use lcex.Prelude.Text.{Text, codes, text_eq}
use lcex.Ledger.Legs.{weight, IsBalanced, asset_change, claim_change}
use lcex.Markets.{Market}
use lcex.Events.{Trade}
use lcex.Settlement.{Settlement, settlement, taker_buys, taker_sells, minus_int64}
use lcex.Settlement.Amounts.{
  quote_amount, fee_on, fee_on-le, IsSmall, settlement_exact, minus_int64_exact,
}

-- What the moves add in one currency, which may be the quote currency, the base currency, both or
-- neither: first for assets, of which there are none, then for claims.
abbrev only : Bool → ℤ → ℤ
only hit v = if hit then v else pos 0

quote_then_base :
    (hit_quote hit_base : Bool) (paid got fees qty : ℕ)
    → paid ≡ got + fees
    → only (hit_quote && false) (pos 0 -ℤ pos paid)
        +ℤ (only (hit_base && false) (pos qty)
            +ℤ (only (hit_base && false) (pos 0 -ℤ pos qty)
                +ℤ (only (hit_quote && false) (pos got)
                    +ℤ (only (hit_quote && false) (pos fees) +ℤ pos 0))))
      ≡ only (hit_quote && true) (pos 0 -ℤ pos paid)
        +ℤ (only (hit_base && true) (pos qty)
            +ℤ (only (hit_base && true) (pos 0 -ℤ pos qty)
                +ℤ (only (hit_quote && true) (pos got)
                    +ℤ (only (hit_quote && true) (pos fees) +ℤ pos 0))))
quote_then_base true true p g f q h = omega int_laws
quote_then_base true false p g f q h = omega int_laws
quote_then_base false true p g f q h = omega int_laws
quote_then_base false false p g f q h = omega int_laws

base_then_quote :
    (hit_quote hit_base : Bool) (paid got fees qty : ℕ)
    → paid ≡ got + fees
    → only (hit_base && false) (pos 0 -ℤ pos qty)
        +ℤ (only (hit_quote && false) (pos got)
            +ℤ (only (hit_quote && false) (pos 0 -ℤ pos paid)
                +ℤ (only (hit_base && false) (pos qty)
                    +ℤ (only (hit_quote && false) (pos fees) +ℤ pos 0))))
      ≡ only (hit_base && true) (pos 0 -ℤ pos qty)
        +ℤ (only (hit_quote && true) (pos got)
            +ℤ (only (hit_quote && true) (pos 0 -ℤ pos paid)
                +ℤ (only (hit_base && true) (pos qty)
                    +ℤ (only (hit_quote && true) (pos fees) +ℤ pos 0))))
base_then_quote true true p g f q h = omega int_laws
base_then_quote true false p g f q h = omega int_laws
base_then_quote false true p g f q h = omega int_laws
base_then_quote false false p g f q h = omega int_laws

only_none : (hit : Bool) (v : ℤ) → only (hit && false) v ≡ pos 0
only_none true v = refl
only_none false v = refl

no_assets :
    (a b c d e : Bool) (u v w x y : ℤ)
    → only (a && false) u
        +ℤ (only (b && false) v
            +ℤ (only (c && false) w +ℤ (only (d && false) x +ℤ (only (e && false) y +ℤ pos 0))))
      ≡ pos 0
no_assets a b c d e u v w x y =
    rw (only_none a u, only_none b v, only_none c w, only_none d x, only_none e y) (omega int_laws)

module _ (m : Market) (t : Trade) (h : IsSmall m t) where
  abbrev qa : ℕ
  qa = quote_amount t

  abbrev taker_fee : ℕ
  taker_fee = fee_on qa m.taker_rate

  abbrev maker_fee : ℕ
  maker_fee = fee_on qa m.maker_rate

  -- The numbers of the settlement, none of which wraps around.
  bounds : (taker_fee ≤ qa) × (maker_fee ≤ qa) × (4 * qa + 2 * t.qty < i64_mod)
  bounds = (fee_on-le qa m.taker_rate h.taker, fee_on-le qa m.maker_rate h.maker, h.room)

  -- What is added or subtracted on uint64 is exact.
  int64_sum : (a b : ℕ) → a + b < i64_mod → int64 (add64 a b) ≡ pos (a + b)
  int64_sum a b k = let e : add64 a b ≡ a + b = omega arith in rw e (int64_exact (a + b) k)

  int64_diff : (a b : ℕ) → b ≤ a → a < i64_mod → int64 (sub64 a b) ≡ pos (a - b)
  int64_diff a b k l =
      let e : sub64 a b ≡ a - b = omega arith in rw e (int64_exact (a - b) (omega arith))

  minus_sum : (a b : ℕ) → a + b < i64_mod → minus_int64 (add64 a b) ≡ pos 0 -ℤ pos (a + b)
  minus_sum a b k = let e : add64 a b ≡ a + b = omega arith in rw e (minus_int64_exact (a + b) k)

  buys-IsBalanced : IsBalanced (taker_buys m t qa taker_fee maker_fee).moves
  unfolding taker_buys
  buys-IsBalanced c =
      rw
        (
          minus_sum qa taker_fee (omega (arith, bounds)),
          int64_exact t.qty (omega (arith, bounds)),
          minus_int64_exact t.qty (omega (arith, bounds)),
          int64_diff qa maker_fee (omega (arith, bounds)) (omega (arith, bounds)),
          int64_sum taker_fee maker_fee (omega (arith, bounds)),
        )
        (quote_then_base (text_eq m.quote c) (text_eq m.base c) (qa + taker_fee) (qa - maker_fee)
          (taker_fee + maker_fee) t.qty (omega (arith, bounds)))

  sells-IsBalanced : IsBalanced (taker_sells m t qa taker_fee maker_fee).moves
  unfolding taker_sells
  sells-IsBalanced c =
      rw
        (
          minus_sum qa maker_fee (omega (arith, bounds)),
          int64_exact t.qty (omega (arith, bounds)),
          minus_int64_exact t.qty (omega (arith, bounds)),
          int64_diff qa taker_fee (omega (arith, bounds)) (omega (arith, bounds)),
          int64_sum taker_fee maker_fee (omega (arith, bounds)),
        )
        (base_then_quote (text_eq m.quote c) (text_eq m.base c) (qa + maker_fee) (qa - taker_fee)
          (taker_fee + maker_fee) t.qty (omega (arith, bounds)))

  buys_weight : weight (taker_buys m t qa taker_fee maker_fee).moves < i64_mod
  unfolding taker_buys
  buys_weight =
      rw
        (
          minus_sum qa taker_fee (omega (arith, bounds)),
          int64_exact t.qty (omega (arith, bounds)),
          minus_int64_exact t.qty (omega (arith, bounds)),
          int64_diff qa maker_fee (omega (arith, bounds)) (omega (arith, bounds)),
          int64_sum taker_fee maker_fee (omega (arith, bounds)),
        )
        (omega (arith, bounds, zero-sub_parts (qa + taker_fee), zero-sub_parts t.qty))

  sells_weight : weight (taker_sells m t qa taker_fee maker_fee).moves < i64_mod
  unfolding taker_sells
  sells_weight =
      rw
        (
          minus_sum qa maker_fee (omega (arith, bounds)),
          int64_exact t.qty (omega (arith, bounds)),
          minus_int64_exact t.qty (omega (arith, bounds)),
          int64_diff qa taker_fee (omega (arith, bounds)) (omega (arith, bounds)),
          int64_sum taker_fee maker_fee (omega (arith, bounds)),
        )
        (omega (arith, bounds, zero-sub_parts (qa + maker_fee), zero-sub_parts t.qty))

  -- None of the moves is of the system.
  buys_assets : (c : Text) → asset_change c (taker_buys m t qa taker_fee maker_fee).moves ≡ pos 0
  unfolding taker_buys
  buys_assets c = no_assets _ _ _ _ _ _ _ _ _ _

  sells_assets : (c : Text) → asset_change c (taker_sells m t qa taker_fee maker_fee).moves ≡ pos 0
  unfolding taker_sells
  sells_assets c = no_assets _ _ _ _ _ _ _ _ _ _

  -- At rates of at most 1 and with sizes that fit, the moves of a trade change the assets of no currency
  -- and, in sum, the claims of none, and their sizes add up to less than 2 ^ 63.
  pub settlement-IsBalanced :
      (s : Settlement)
      → settlement m t ≡ ok s
      → ((c : Text) → (asset_change c s.moves ≡ pos 0) × (claim_change c s.moves ≡ pos 0))
        × IsBalanced s.moves
        × (weight s.moves < i64_mod)
  settlement-IsBalanced s e = elim (Bool-cases (text_eq t.side (codes "bid"))) [
    | inl b ↦
        let e' : s ≡ taker_buys m t qa taker_fee maker_fee =
          ground (arith, settlement_exact m t h) in
        rw e' (
          (λ c. (buys_assets c, sym (buys-IsBalanced c) ∙ buys_assets c)),
          buys-IsBalanced,
          buys_weight,
        )
    | inr b ↦
        let e' : s ≡ taker_sells m t qa taker_fee maker_fee =
          ground (arith, settlement_exact m t h) in
        rw e' (
          (λ c. (sells_assets c, sym (sells-IsBalanced c) ∙ sells_assets c)),
          sells-IsBalanced,
          sells_weight,
        )
  ]

  -- What the orders reserve less is what the moves take from the frozen balances; it is not negative.
  pub settlement_consumes :
      (s : Settlement)
      → settlement m t ≡ ok s
      → (pos 0 ≤ℤ s.taker_consume) × (pos 0 ≤ℤ s.maker_consume) × (2 ≤ length s.moves)
  unfolding taker_buys taker_sells
  settlement_consumes s e = elim (Bool-cases (text_eq t.side (codes "bid"))) [
    | inl b ↦
        let e' : s ≡ taker_buys m t qa taker_fee maker_fee =
          ground (arith, settlement_exact m t h) in
        rw
          (
            e',
            int64_sum qa taker_fee (omega (arith, bounds)),
            int64_exact t.qty (omega (arith, bounds)),
          )
          (ground arith)
    | inr b ↦
        let e' : s ≡ taker_sells m t qa taker_fee maker_fee =
          ground (arith, settlement_exact m t h) in
        rw
          (
            e',
            int64_sum qa maker_fee (omega (arith, bounds)),
            int64_exact t.qty (omega (arith, bounds)),
          )
          (ground arith)
  ]
