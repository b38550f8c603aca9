-- ===== src/Db/Keys.antt =====
-- Equality of the keys of the tables.
use lcex.Prelude.{ℕ, ◌+◌, ◌≡◌, ◌↔◌, Bool, true, ◌&&◌, ◌==◌, arith}
use lcex.Prelude.Int.{ℤ, pos_part, neg_part, eq_of_parts}
use lcex.Prelude.Text.{text_eq, text_eq_iff}
use lcex.Db.{
  OwnerType, user, market_maker, system, fee, equity, AccountType, available, frozen, AccountRef,
  BizType, order_freeze, order_unfreeze, trade, deposit, withdraw, adjust, BizKey,
}

-- `a == b` on int64
abbrev pub eq_ℤ : ℤ → ℤ → Bool
eq_ℤ a b = pos_part a + neg_part b == pos_part b + neg_part a

pub eq_ℤ_iff : (a b : ℤ) → (eq_ℤ a b ≡ true) ↔ (a ≡ b)
eq_ℤ_iff a b = ground (arith, eq_of_parts a b)

owner_rank : OwnerType → ℕ
owner_rank user = 0
owner_rank market_maker = 1
owner_rank system = 2
owner_rank fee = 3
owner_rank equity = 4

unfoldable pub owner_eq : OwnerType → OwnerType → Bool
unfolding owner_rank
owner_eq a b = owner_rank a == owner_rank b

pub owner_eq_iff : (a b : OwnerType) → (owner_eq a b ≡ true) ↔ (a ≡ b)
unfolding owner_eq
owner_eq_iff a b = ground arith

kind_rank : AccountType → ℕ
kind_rank available = 0
kind_rank frozen = 1

unfoldable pub kind_eq : AccountType → AccountType → Bool
unfolding kind_rank
kind_eq a b = kind_rank a == kind_rank b

pub kind_eq_iff : (a b : AccountType) → (kind_eq a b ≡ true) ↔ (a ≡ b)
unfolding kind_eq
kind_eq_iff a b = ground arith

unfoldable pub ref_eq : AccountRef → AccountRef → Bool
ref_eq a b =
    eq_ℤ a.owner_id b.owner_id
    && owner_eq a.owner_type b.owner_type
    && text_eq a.currency b.currency
    && kind_eq a.kind b.kind

pub ref_eq_iff : (a b : AccountRef) → (ref_eq a b ≡ true) ↔ (a ≡ b)
unfolding ref_eq
ref_eq_iff a b = ground (
  arith,
  eq_ℤ_iff a.owner_id b.owner_id,
  owner_eq_iff a.owner_type b.owner_type,
  text_eq_iff a.currency b.currency,
  kind_eq_iff a.kind b.kind,
)

biz_rank : BizType → ℕ
biz_rank order_freeze = 0
biz_rank order_unfreeze = 1
biz_rank trade = 2
biz_rank BizType.fee = 3
biz_rank deposit = 4
biz_rank withdraw = 5
biz_rank adjust = 6

unfoldable pub biz_type_eq : BizType → BizType → Bool
unfolding biz_rank
biz_type_eq a b = biz_rank a == biz_rank b

pub biz_type_eq_iff : (a b : BizType) → (biz_type_eq a b ≡ true) ↔ (a ≡ b)
unfolding biz_type_eq
biz_type_eq_iff a b = ground arith

unfoldable pub biz_eq : BizKey → BizKey → Bool
biz_eq a b = biz_type_eq a.biz_type b.biz_type && text_eq a.biz_id b.biz_id

pub biz_eq_iff : (a b : BizKey) → (biz_eq a b ≡ true) ↔ (a ≡ b)
unfolding biz_eq
biz_eq_iff a b =
    ground (arith, biz_type_eq_iff a.biz_type b.biz_type, text_eq_iff a.biz_id b.biz_id)
