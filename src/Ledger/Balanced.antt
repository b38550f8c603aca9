-- ===== src/Ledger/Balanced.antt =====
-- `checkBalanced` against the accounting equation.
use native.Mathlib.Nat.{zero-add}
use lcex.Prelude.{ap, sym, ◌∙◌, ◌<◌, ◌≡◌, refl, ◌↔◌, List, [], arith, ok}
use lcex.Prelude.Int.{pos, pos_part, neg_part, int_laws}
use lcex.Prelude.Word.{i64_mod}
use lcex.Prelude.Text.{Text}
use lcex.Db.{debit, credit}
use lcex.Ledger.{Move, tots_from, check_balanced}
use lcex.Ledger.Legs.{weight, asset_change, claim_change, IsBalanced, legs, change-legs}
use lcex.Ledger.Totals.{
  debits_in, credits_in, debits_in-tots_from, credits_in-tots_from, tots_from-IsDistinct,
  all_equal_sound, all_equal_complete,
}

module _ (ms : List Move) (small : weight ms < i64_mod) where
  debits_total : (c : Text) → debits_in c (tots_from ms []) ≡ pos (legs c debit ms)
  debits_total c =
      rw zero-add at (debits_in-tots_from c ms [] 0 (unfold debits_in in refl) (omega arith))

  credits_total : (c : Text) → credits_in c (tots_from ms []) ≡ pos (legs c credit ms)
  credits_total c =
      rw zero-add at (credits_in-tots_from c ms [] 0 (unfold credits_in in refl) (omega arith))

  balanced_of_totals :
      (c : Text)
      → debits_in c (tots_from ms []) ≡ credits_in c (tots_from ms [])
      → asset_change c ms ≡ claim_change c ms
  balanced_of_totals c h =
      let e : pos (legs c debit ms) ≡ pos (legs c credit ms) =
        sym (debits_total c) ∙ h ∙ credits_total c in
      omega
        (int_laws, ap pos_part e, ap pos_part (change-legs c ms), ap neg_part (change-legs c ms))

  totals_of_balanced :
      (c : Text)
      → asset_change c ms ≡ claim_change c ms
      → debits_in c (tots_from ms []) ≡ credits_in c (tots_from ms [])
  totals_of_balanced c h =
      let e : legs c debit ms ≡ legs c credit ms = omega (
        int_laws,
        ap pos_part h,
        ap neg_part h,
        ap pos_part (change-legs c ms),
        ap neg_part (change-legs c ms),
      ) in
      debits_total c ∙ ap pos e ∙ sym (credits_total c)

-- Where the sizes of the moves add up to less than 2 ^ 63, so that no total wraps around, the check
-- passes exactly when assets and claims change by the same amount in every currency.
pub check_balanced_iff :
    (ms : List Move) → weight ms < i64_mod → (check_balanced ms ≡ ok tt) ↔ IsBalanced ms
unfolding check_balanced
check_balanced_iff ms small =
    let ts = tots_from ms [] in
    (
      (λ h c. balanced_of_totals ms small c (all_equal_sound c ts (ground arith))),
      (λ h. rw (
          all_equal_complete ts (tots_from-IsDistinct ms [] tt)
            (λ c. totals_of_balanced ms small c (h c)))),
    )
