-- ===== src/Ledger/Totals.antt =====
-- The totals that `checkBalanced` collects: one for each currency, with the debits and the credits of
-- the moves.
use lcex.Prelude.{
  ℕ, ◌+◌, ◌<◌, ◌≡◌, refl, Bool, true, false, ◌&&◌, ◌||◌, not, List, [], ◌∷◌, if◌then◌else◌, arith,
}
use lcex.Prelude.Int.{ℤ, pos, ◌+ℤ◌, int_laws}
use lcex.Prelude.Word.{i64_mod, wrap64, wrap64_exact}
use lcex.Prelude.Text.{Text, text_eq, text_eq_iff}
use lcex.Db.{Direction, debit, credit}
use lcex.Db.Keys.{eq_ℤ_iff}
use lcex.Ledger.{Move, Tot, bump, tots_from, all_equal, direction_of}
use lcex.Ledger.Legs.{mag, weight, is_debit, legs, direction_of_amount}

module _ (c : Text) where
  unfoldable pub debits_in : List Tot → ℤ
  debits_in [] = pos 0
  debits_in (t ∷ ts) = if text_eq t.currency c then t.debits else debits_in ts

  unfoldable pub credits_in : List Tot → ℤ
  credits_in [] = pos 0
  credits_in (t ∷ ts) = if text_eq t.currency c then t.credits else credits_in ts

  debits_in-bump :
      (cur : Text) (dir : Direction) (amt : ℤ) (ts : List Tot)
      → debits_in (bump cur dir amt ts)
        ≡ (if text_eq cur c && is_debit dir then wrap64 (debits_in ts +ℤ amt) else debits_in ts)
  unfolding debits_in bump
  debits_in-bump cur dir amt [] = ground arith
  debits_in-bump cur dir amt (t ∷ ts) = ground (
    arith,
    text_eq_iff t.currency cur,
    text_eq_iff t.currency c,
    text_eq_iff cur c,
    debits_in-bump cur dir amt ts,
  )

  credits_in-bump :
      (cur : Text) (dir : Direction) (amt : ℤ) (ts : List Tot)
      → credits_in (bump cur dir amt ts) ≡ (
          if text_eq cur c && not (is_debit dir)
          then wrap64 (credits_in ts +ℤ amt)
          else credits_in ts)
  unfolding credits_in bump
  credits_in-bump cur dir amt [] = ground arith
  credits_in-bump cur dir amt (t ∷ ts) = ground (
    arith,
    text_eq_iff t.currency cur,
    text_eq_iff t.currency c,
    text_eq_iff cur c,
    credits_in-bump cur dir amt ts,
  )

  wrap_sum : (x y : ℕ) → x + y < i64_mod → wrap64 (pos x +ℤ pos y) ≡ pos (x + y)
  wrap_sum x y h =
      let e : pos x +ℤ pos y ≡ pos (x + y) = omega int_laws in
      rw e (wrap64_exact (pos (x + y)) (omega arith))

  pub debits_in-tots_from :
      (ms : List Move) (ts : List Tot) (n : ℕ)
      → debits_in ts ≡ pos n
      → n + weight ms < i64_mod
      → debits_in (tots_from ms ts) ≡ pos (n + legs c debit ms)
  unfolding tots_from
  debits_in-tots_from [] ts n e h = rw e (omega int_laws)
  debits_in-tots_from (m ∷ ms) ts n e h =
      let leg = direction_of m.account.owner_type m.delta in
      let ts' = bump m.account.currency leg.0 leg.1 ts in
      ground (
        arith,
        debits_in-bump m.account.currency leg.0 leg.1 ts,
        direction_of_amount m.account.owner_type m.delta,
        wrap_sum n (mag m.delta),
        debits_in-tots_from ms ts' n,
        debits_in-tots_from ms ts' (n + mag m.delta),
      )

  pub credits_in-tots_from :
      (ms : List Move) (ts : List Tot) (n : ℕ)
      → credits_in ts ≡ pos n
      → n + weight ms < i64_mod
      → credits_in (tots_from ms ts) ≡ pos (n + legs c credit ms)
  unfolding tots_from
  credits_in-tots_from [] ts n e h = rw e (omega int_laws)
  credits_in-tots_from (m ∷ ms) ts n e h =
      let leg = direction_of m.account.owner_type m.delta in
      let ts' = bump m.account.currency leg.0 leg.1 ts in
      ground (
        arith,
        credits_in-bump m.account.currency leg.0 leg.1 ts,
        direction_of_amount m.account.owner_type m.delta,
        wrap_sum n (mag m.delta),
        credits_in-tots_from ms ts' n,
        credits_in-tots_from ms ts' (n + mag m.delta),
      )

pub has_tot : Text → List Tot → Bool
has_tot c [] = false
has_tot c (t ∷ ts) = text_eq t.currency c || has_tot c ts

-- No currency has two totals.
abbrev pub IsDistinct : List Tot → Type 0
IsDistinct [] = Unit
IsDistinct (t ∷ ts) = (has_tot t.currency ts ≡ false) × IsDistinct ts

has_tot-bump :
    (c cur : Text) (dir : Direction) (amt : ℤ) (ts : List Tot)
    → has_tot c (bump cur dir amt ts) ≡ (text_eq cur c || has_tot c ts)
unfolding has_tot bump
has_tot-bump c cur debit amt [] = refl
has_tot-bump c cur credit amt [] = refl
has_tot-bump c cur dir amt (t ∷ ts) = ground (
  arith,
  text_eq_iff t.currency cur,
  text_eq_iff t.currency c,
  text_eq_iff cur c,
  has_tot-bump c cur dir amt ts,
)

bump-IsDistinct :
    (cur : Text) (dir : Direction) (amt : ℤ) (ts : List Tot)
    → IsDistinct ts
    → IsDistinct (bump cur dir amt ts)
unfolding bump has_tot
bump-IsDistinct cur debit amt [] h = (refl, tt)
bump-IsDistinct cur credit amt [] h = (refl, tt)
bump-IsDistinct cur dir amt (t ∷ ts) h = ground (
  arith,
  text_eq_iff cur t.currency,
  text_eq_iff t.currency cur,
  has_tot-bump t.currency cur dir amt ts,
  bump-IsDistinct cur dir amt ts,
)

pub tots_from-IsDistinct :
    (ms : List Move) (ts : List Tot) → IsDistinct ts → IsDistinct (tots_from ms ts)
unfolding tots_from
tots_from-IsDistinct [] ts h = h
tots_from-IsDistinct (m ∷ ms) ts h =
    let leg = direction_of m.account.owner_type m.delta in
    tots_from-IsDistinct ms (bump m.account.currency leg.0 leg.1 ts)
      (bump-IsDistinct m.account.currency leg.0 leg.1 ts h)

pub all_equal_sound :
    (c : Text) (ts : List Tot) → all_equal ts ≡ true → debits_in c ts ≡ credits_in c ts
unfolding all_equal debits_in credits_in
all_equal_sound c [] h = refl
all_equal_sound c (t ∷ ts) h = ground (arith, eq_ℤ_iff t.debits t.credits, all_equal_sound c ts)

absent_totals :
    (c : Text) (ts : List Tot)
    → has_tot c ts ≡ false
    → (debits_in c ts ≡ pos 0) × (credits_in c ts ≡ pos 0)
unfolding has_tot debits_in credits_in
absent_totals c [] h = (refl, refl)
absent_totals c (t ∷ ts) h = ground (arith, absent_totals c ts)

tail_totals :
    (t : Tot) (ts : List Tot) (c : Text)
    → has_tot t.currency ts ≡ false
    → debits_in c (t ∷ ts) ≡ credits_in c (t ∷ ts)
    → debits_in c ts ≡ credits_in c ts
unfolding debits_in credits_in
tail_totals t ts c absent h =
    ground (arith, text_eq_iff t.currency c, absent_totals t.currency ts absent)

head_totals :
    (t : Tot) (ts : List Tot)
    → debits_in t.currency (t ∷ ts) ≡ credits_in t.currency (t ∷ ts)
    → t.debits ≡ t.credits
unfolding debits_in credits_in
head_totals t ts h = ground (arith, text_eq_iff t.currency t.currency)

-- Where the totals of every currency agree, the check passes.
pub all_equal_complete :
    (ts : List Tot)
    → IsDistinct ts
    → ((c : Text) → debits_in c ts ≡ credits_in c ts)
    → all_equal ts ≡ true
unfolding all_equal
all_equal_complete [] d h = refl
all_equal_complete (t ∷ ts) d h = ground (
  arith,
  eq_ℤ_iff t.debits t.credits,
  head_totals t ts (h t.currency),
  all_equal_complete ts d.1 (λ c. tail_totals t ts c d.0 (h c)),
)
