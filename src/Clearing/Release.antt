-- ===== src/Clearing/Release.antt =====
-- On `unfreezeReserved` of services/clearing/main.go: when it succeeds, and the balances behind it.
use lcex.Prelude.{◌≡◌, refl, ℕ, ◌<◌, true, false, List, [], some, if◌then◌else◌, arith, ok, inr}
use lcex.Prelude.Int.{
  ℤ, pos, pos_part, neg_part, ◌+ℤ◌, ◌-ℤ◌, ◌≤ℤ◌, int_laws, minus_parts, neg_part_of_nonneg,
}
use lcex.Prelude.Word.{int64, i64_mod, wrap64, wrap64_exact, IsInt64}
use lcex.Prelude.Text.{Text, codes, text_eq, text_eq_iff}
use lcex.Db.{Db, OrderRow, BizKey, debit, credit, Account, user, frozen, available}
use lcex.Db.Keys.{eq_ℤ, eq_ℤ_iff, ref_eq, ref_eq_iff}
use lcex.Db.Statements.{has_journal, has_text}
use lcex.Db.Store.{balance_of, find_balance-store, store}
use lcex.Db.Orders.{find_order}
use lcex.Ledger.{user_ref, check_balanced, direction_of, abs64, bump, tots_from, all_equal}
use lcex.Ledger.Legs.{direction_of_amount}
use lcex.Ledger.Succeeds.{entered, booked_all, AreBookable, post_succeeds}
use lcex.Markets.{Config, Market, get}
use lcex.Clearing.{final_key, release, release_order, unfreeze_row, unfreeze_reserved}
use lcex.Clearing.Reserves.{IsReserve}
use lcex.Clearing.Twice.{select_order_healthy}
use lcex.Ledger.Shift.{minus_exact}

-- The two balances that a release touches.
abbrev pub released_currency : OrderRow → Market → Text
released_currency o m = if text_eq o.side (codes "ask") then m.base else m.quote

-- The row can be released: the order reserves a positive amount, which the user's frozen balance
-- covers, and the available balance has room for it.
pub record IsReleasable (o : OrderRow) (m : Market) (d : Db) : Type 0 where
  pub reserve : IsReserve o
  pub positive : pos 1 ≤ℤ o.reserved
  pub known : has_text (released_currency o m) d.currencies ≡ true
  pub covered :
      o.reserved ≤ℤ balance_of (user_ref o.user_id (released_currency o m) frozen) d.accounts
  pub room :
      IsInt64
        (balance_of (user_ref o.user_id (released_currency o m) available) d.accounts +ℤ o.reserved)
  pub nonneg : pos 0 ≤ℤ balance_of (user_ref o.user_id (released_currency o m) available) d.accounts
  pub fits : IsInt64 (balance_of (user_ref o.user_id (released_currency o m) frozen) d.accounts)

kinds_differ : (u : ℤ) (c : Text) → ref_eq (user_ref u c frozen) (user_ref u c available) ≡ false
kinds_differ u c = ground (arith, ref_eq_iff (user_ref u c frozen) (user_ref u c available))

kinds_differ' : (u : ℤ) (c : Text) → ref_eq (user_ref u c available) (user_ref u c frozen) ≡ false
kinds_differ' u c = ground (arith, ref_eq_iff (user_ref u c available) (user_ref u c frozen))

-- The frozen balance behind the first move of a release leaves the available balance alone.
other_balance :
    (u v : ℤ) (c : Text) (rows : List Account)
    → balance_of (user_ref u c available) (store (user_ref u c frozen) v rows)
      ≡ balance_of (user_ref u c available) rows
other_balance u v c rows = ground (
  arith,
  kinds_differ u c,
  find_balance-store (user_ref u c frozen) (user_ref u c available) v rows,
)

remainder :
    (b r : ℤ)
    → r ≤ℤ b
    → pos 1 ≤ℤ r
    → IsInt64 b
    → (pos 0 ≤ℤ b +ℤ (pos 0 -ℤ r)) × IsInt64 (b +ℤ (pos 0 -ℤ r))
remainder b r h k f =
    let left : pos 0 ≤ℤ b +ℤ (pos 0 -ℤ r) = omega int_laws in
    let sign = neg_part_of_nonneg (b +ℤ (pos 0 -ℤ r)) left in
    let sign' = neg_part_of_nonneg b (omega arith) in (left, omega (int_laws, sign, sign'))

release-AreBookable :
    (k : BizKey) (o : OrderRow) (m : Market) (d : Db)
    → IsReleasable o m d
    → AreBookable k (release o m) (entered k d)
release-AreBookable k o m d h =
    let c = released_currency o m in
    let minus = minus_exact o.reserved h.reserve in
    let taken = minus_parts o.reserved in
    let sign : neg_part o.reserved ≡ 0 =
      neg_part_of_nonneg o.reserved (omega (arith, h.positive)) in
    let lower : IsInt64 (pos 0 -ℤ o.reserved) = omega (arith, taken, h.reserve) in
    let out =
      direction_of_amount user (pos 0 -ℤ o.reserved)
        (omega (arith, taken, h.reserve, h.positive)) in
    let back = direction_of_amount user o.reserved (omega (arith, h.reserve, h.positive)) in
    let left =
      remainder (balance_of (user_ref o.user_id c frozen) d.accounts) o.reserved h.covered
        h.positive h.fits in
    (
      rw minus (record {
        known = inr h.known;
        nonneg = left.0;
        fits = left.1;
        amount = rw out (omega (arith, taken, h.positive));
      }),
      (
        record {
          known = inr h.known;
          nonneg = rw other_balance (omega (int_laws, h.nonneg, h.positive));
          fits = rw other_balance h.room;
          amount = rw back (omega (arith, h.positive));
        },
        tt,
      ),
    )

-- A release debits and credits what the order reserves.
directions :
    (r : ℤ)
    → pos 1 ≤ℤ r
    → pos_part r < i64_mod
    → (direction_of user (pos 0 -ℤ r) ≡ (debit, r)) × (direction_of user r ≡ (credit, r))
unfolding direction_of abs64
directions r h k =
    let back : pos 0 -ℤ (pos 0 -ℤ r) ≡ r = omega int_laws in
    let sign = neg_part_of_nonneg r (omega arith) in
    ground (arith, back, minus_parts r, wrap64_exact r (omega arith))

release_checked :
    (o : OrderRow) (m : Market)
    → IsReserve o
    → pos 1 ≤ℤ o.reserved
    → check_balanced (release o m) ≡ ok tt
unfolding check_balanced tots_from bump all_equal
release_checked o m h k =
    let (out, back) = directions o.reserved k h.0 in
    let c = released_currency o m in
    let total = wrap64 (pos 0 +ℤ o.reserved) in
    rw
      (minus_exact o.reserved h, out, back, (text_eq_iff c c).1 refl, (eq_ℤ_iff total total).1 refl)
      refl

order_released :
    (id : ℕ) (o : OrderRow) (m : Market) (d : Db)
    → d.faults ≡ []
    → has_journal (final_key id) d.journals ≡ false
    → IsReleasable o m d
    → release_order id o m d
      ≡ (ok tt, booked_all (final_key id) (release o m) (entered (final_key id) d))
unfolding release_order
order_released id o m d healthy fresh h =
    let k = final_key id in
    ground (
      arith,
      post_succeeds k (release o m) d healthy (omega arith)
          (release_checked o m h.reserve h.positive) fresh (release-AreBookable k o m d h),
    )

-- The balances behind the two moves of a release.
released_balances :
    (k : BizKey) (o : OrderRow) (m : Market) (d : Db)
    → IsReleasable o m d
    → let c = released_currency o m in
      let d' = booked_all k (release o m) (entered k d) in
      (balance_of (user_ref o.user_id c frozen) d'.accounts
        ≡ balance_of (user_ref o.user_id c frozen) d.accounts -ℤ o.reserved)
      × (balance_of (user_ref o.user_id c available) d'.accounts
          ≡ balance_of (user_ref o.user_id c available) d.accounts +ℤ o.reserved)
released_balances k o m d h =
    let c = released_currency o m in
    let u = o.user_id in
    let out = user_ref u c frozen in
    let back = user_ref u c available in
    rw (minus_exact o.reserved h.reserve) (
      rw
          (
            find_balance-store back out,
            kinds_differ' u c,
            find_balance-store out out,
            (ref_eq_iff out out).1 refl,
          )
          (omega int_laws),
      rw (find_balance-store back back, (ref_eq_iff back back).1 refl, other_balance) refl,
    )

-- Over a healthy connection, an order that ends with a positive reserve is released, if that was not
-- done before, its market and its currency are known, the user's frozen balance covers the reserve
-- and the available balance has room for it: the frozen balance falls by the reserve and the
-- available balance rises by it.
pub unfreeze_reserved_succeeds :
    (cfg : Config) (id : ℕ) (o : OrderRow) (m : Market) (d : Db)
    → d.faults ≡ []
    → find_order (int64 id) d.orders ≡ some o
    → get cfg o.symbol ≡ ok m
    → has_journal (final_key id) d.journals ≡ false
    → IsReleasable o m d
    → let c = released_currency o m in
      (d' : Db) × (unfreeze_reserved cfg id d ≡ (ok tt, d'))
      × (balance_of (user_ref o.user_id c frozen) d'.accounts
          ≡ balance_of (user_ref o.user_id c frozen) d.accounts -ℤ o.reserved)
      × (balance_of (user_ref o.user_id c available) d'.accounts
          ≡ balance_of (user_ref o.user_id c available) d.accounts +ℤ o.reserved)
unfolding unfreeze_reserved unfreeze_row
unfreeze_reserved_succeeds cfg id o m d healthy row market fresh h =
    let k = final_key id in
    let (out, back) = released_balances k o m d h in
    let some_left : eq_ℤ o.reserved (pos 0) ≡ false = grind (arith, h.positive) in
    (
      booked_all k (release o m) (entered k d),
      ground (
        arith,
        select_order_healthy (int64 id) d o healthy row,
        some_left,
        order_released id o m d healthy fresh h,
      ),
      out,
      back,
    )
