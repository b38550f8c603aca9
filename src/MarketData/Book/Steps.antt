-- ===== src/MarketData/Book/Steps.antt =====
-- On `removeLevel` and the branches of `applyOrderUpdate` of services/market/state.go: the state goes on
-- showing the open orders.
use lcex.Prelude.{
  ℕ, ◌+◌, ◌-◌, ◌≤◌, ◌<◌, ◌==◌, ◌≡◌, refl, sym, ◌∙◌, List, ◌∷◌, none, some, arith, length,
  if◌then◌else◌, Bool-cases, inl, inr,
}
use lcex.Prelude.Word.{u64_mod, add64, int64, uint64, wrap64}
use lcex.Prelude.Int.{◌+ℤ◌, ◌-ℤ◌}
use lcex.Prelude.Table.{
  find, put, remove, find-put, find-remove, remove-IsKeyed, remove-Lacks_self, remove-none,
  length-put,
}
use lcex.MarketData.{Side, RestingOrder, SymbolState, depth_of, set_depth, level}
use lcex.MarketData.Book.{max_kept_levels, trim, lower_level, remove_level, add_order, change_order}
use lcex.MarketData.Book.Trim.{trim_small}
use lcex.MarketData.Book.Levels.{level-put, level-lower_level, uint64_exact}
use lcex.MarketData.Book.Orders.{
  OpenOrder, Orders, same_side, total, Shows, depth_of-set_depth, same_side_self, same_side_lem,
  given, total-remove, Elsewhere, total_here, total-Elsewhere, small_totals,
}

-- A change at one price of one side, by which both sides agree again.
module _ (st : SymbolState) (b : Orders) (h : Shows st b) (side : Side) (q v : ℕ)
    (b' : Orders) where
  pub changed_levels :
      (depth : List (ℕ × ℕ)) (resting : List (ℕ × RestingOrder))
      → ((p : ℕ) → level p depth ≡ (if q == p then v else level p (depth_of side st)))
      → total side q b' ≡ v
      → ((s : Side) (p : ℕ) → Elsewhere side q s p → total s p b' ≡ total s p b)
      → (s : Side) (p : ℕ)
      → level p (depth_of s (record (set_depth side depth st) { resting = resting })) ≡ total s p b'
  changed_levels depth resting at here there s p = elim (Bool-cases (same_side s side)) [
    | inl t ↦
        let same : s ≡ side = same_side_lem s side t in
        rw (depth_of-set_depth s side depth resting st, t)
          (elim (Bool-cases (q == p)) [
            | inl e ↦
                let q_p : q ≡ p = ground arith in rw (← q_p, at q, same) (ground (arith, here))
            | inr f ↦
                let kept = there s p (ground arith) in ground (arith, at p, kept, h.levels s p)
          ])
    | inr f ↦
        rw (depth_of-set_depth s side depth resting st, f)
          (h.levels s p ∙ sym (there s p (ground arith)))
  ]

-- A side with a changed level, against the orders from which one is taken.
module _ (st : SymbolState) (b : Orders) (h : Shows st b) where
  pub given_here :
      (id : ℕ) (o : OpenOrder) → find id b ≡ some o → given o.side o.price (find id b) ≡ o.remaining
  given_here id o e = rw (e, same_side_self o.side) (ground arith)

  pub given-Elsewhere :
      (id : ℕ) (o : OpenOrder) (s : Side) (p : ℕ)
      → find id b ≡ some o
      → Elsewhere o.side o.price s p
      → given s p (find id b) ≡ 0
  given-Elsewhere id o s p e f = rw (e, f) refl

  pub order_level :
      (id : ℕ) (o : OpenOrder)
      → find id b ≡ some o
      → o.remaining ≤ level o.price (depth_of o.side st)
  order_level id o e =
      let all = total-remove o.side o.price id b h.keyed in
      rw (h.levels o.side o.price) (omega (arith, all, given_here id o e))

  pub remove_level-Shows :
      (id : ℕ) (o : OpenOrder)
      → find id b ≡ some o
      → Shows (remove_level o.side o.price o.remaining id st) (remove id b)
  unfolding remove_level
  remove_level-Shows id o e = record {
    orders = λ j. ground (arith, find-remove id j st.resting, find-remove id j b, h.orders j);
    levels =
        changed_levels st b h o.side o.price (level o.price (depth_of o.side st) - o.remaining)
          (remove id b) (lower_level o.price o.remaining (depth_of o.side st))
          (remove id st.resting)
          (λ p. level-lower_level o.price p o.remaining (depth_of o.side st) (order_level id o e))
          (omega (
            arith,
            total-remove o.side o.price id b h.keyed,
            given_here id o e,
            h.levels o.side o.price,
          ))
          (λ s p f. omega (arith, total-remove s p id b h.keyed, given-Elsewhere id o s p e f));
    small = λ s p. omega (arith, total-remove s p id b h.keyed, h.small s p);
    keyed = remove-IsKeyed id b h.keyed;
  }

  pub add_order-Shows :
      (side : Side) (id q r : ℕ)
      → find id b ≡ none
      → length (depth_of side st) < max_kept_levels
      → total side q b + r < u64_mod
      → let order : OpenOrder = record { side = side; price = q; remaining = r } in
        Shows (add_order side id q r st).0 ((id, order) ∷ b)
  unfolding add_order find
  add_order-Shows side id q r e room fits =
      let order : OpenOrder = record { side = side; price = q; remaining = r } in
      let v = add64 (level q (depth_of side st)) r in
      let depth = put q v (depth_of side st) in
      let all : trim side depth ≡ depth =
        trim_small side depth (omega (arith, length-put q v (depth_of side st))) in
      let sum : v ≡ total side q b + r = omega (arith, h.levels side q) in
      rw all record {
        orders = λ j.
            ground
              (arith, find-put id j (record { price = q; remaining = r }) st.resting, h.orders j);
        levels =
            changed_levels st b h side q v ((id, order) ∷ b) depth (put id _ st.resting)
              (λ p. level-put q p v (depth_of side st)) (omega (arith, total_here id order b, sum))
              (λ s p f. total-Elsewhere id order b s p f);
        small = small_totals id order b (omega (arith, fits)) h.small;
        keyed = (rw (remove-none id b e) at (remove-Lacks_self id b), h.keyed);
      }

  pub change_order-Shows :
      (id r : ℕ) (o : OpenOrder)
      → find id b ≡ some o
      → r < u64_mod
      → total o.side o.price b + r - o.remaining < u64_mod
      → let order : OpenOrder = record o { remaining = r } in
        let old : RestingOrder = record { price = o.price; remaining = o.remaining } in
        Shows (change_order o.side id old r st).0 ((id, order) ∷ remove id b)
  unfolding change_order find
  change_order-Shows id r o e word fits =
      let order : OpenOrder = record o { remaining = r } in
      let before = level o.price (depth_of o.side st) in
      let less : total o.side o.price (remove id b) + o.remaining ≡ total o.side o.price b =
        omega (arith, total-remove o.side o.price id b h.keyed, given_here id o e) in
      let shown = h.levels o.side o.price in
      let fit : before + r - o.remaining < u64_mod = omega (arith, shown, fits) in
      let exact : uint64 (wrap64 (wrap64 (int64 before +ℤ int64 r) -ℤ int64 o.remaining))
          ≡ total o.side o.price b + r - o.remaining =
        uint64_exact before r o.remaining (omega (arith, shown, h.small o.side o.price)) word
          (order_level id o e) fit
        ∙ omega (arith, shown) in
      record {
        orders = λ j. ground (
          arith,
          find-put id j (record { price = o.price; remaining = r }) st.resting,
          find-remove id j b,
          h.orders j,
        );
        levels =
            changed_levels st b h o.side o.price (total o.side o.price b + r - o.remaining)
              ((id, order) ∷ remove id b) _ (put id _ st.resting)
              (λ p. rw exact (
                level-put o.price p (total o.side o.price b + r - o.remaining)
                  (depth_of o.side st)))
              (omega (arith, total_here id order (remove id b), less))
              (λ s p f.
                total-Elsewhere id order (remove id b) s p f
                ∙ omega (arith, total-remove s p id b h.keyed, given-Elsewhere id o s p e f));
        small =
            small_totals id order (remove id b) (omega (arith, less, fits))
              (λ s p. omega (arith, total-remove s p id b h.keyed, h.small s p));
        keyed = (remove-Lacks_self id b, remove-IsKeyed id b h.keyed);
      }
