-- ===== src/MarketData/Book/Levels.antt =====
-- On the maps of prices of services/market/state.go: what is found in them after a change.
use lcex.Prelude.{
  ℕ, ◌+◌, ◌-◌, ◌≤◌, ◌<◌, ◌==◌, ◌≡◌, false, List, none, some, arith, length, ltb, if◌then◌else◌,
  Bool-cases, Option-cases, inl, inr,
}
use lcex.Prelude.Int.{◌+ℤ◌, ◌-ℤ◌}
use lcex.Prelude.Word.{
  u64_mod, int64, uint64, wrap64, uint64-int64, uint64-wrap64, uint64-add, uint64-sub,
}
use lcex.Prelude.Table.{
  find, put, remove, find-put, find-remove, length-put-some, length-remove-put,
}
use lcex.MarketData.{level}
use lcex.MarketData.Book.{lower_level}

pub level-none : (p : ℕ) (m : List (ℕ × ℕ)) → find p m ≡ none → level p m ≡ 0
unfolding level
level-none p m h = ground arith

pub level-some : (p : ℕ) (m : List (ℕ × ℕ)) {total : ℕ} → find p m ≡ some total → level p m ≡ total
unfolding level
level-some p m h = ground arith

pub level-put :
    (p q v : ℕ) (m : List (ℕ × ℕ)) → level q (put p v m) ≡ (if p == q then v else level q m)
unfolding level
level-put p q v m = ground (arith, find-put p q v m)

pub level-remove :
    (p q : ℕ) (m : List (ℕ × ℕ)) → level q (remove p m) ≡ (if p == q then 0 else level q m)
unfolding level
level-remove p q m = ground (arith, find-remove p q m)

-- What is taken off a level that has as much.
pub level-lower_level :
    (p q r : ℕ) (m : List (ℕ × ℕ))
    → r ≤ level p m
    → level q (lower_level p r m) ≡ (if p == q then level p m - r else level q m)
unfolding lower_level
level-lower_level p q r m h =
    let left = level p m - r in
    let f : ltb (level p m) r ≡ false = ground arith in
    rw f (elim (Bool-cases (left == 0)) [
      | inl t ↦ rw t (ground (arith, level-remove p q (put p left m), level-put p q left m))
      | inr g ↦ rw g (level-put p q left m)
    ])

pub length-lower_level : (p r : ℕ) (m : List (ℕ × ℕ)) → length (lower_level p r m) ≤ length m
unfolding lower_level
length-lower_level p r m = elim (Option-cases (find p m)) [
  | inl e ↦
      let empty : level p m ≡ 0 = level-none p m e in
      rw empty (ground (arith, length-remove-put p 0 m))
  | inr (total, e) ↦
      let all : level p m ≡ total = level-some p m e in
      let left = total - (if ltb total r then total else r) in
      rw all (elim (Bool-cases (left == 0)) [
        | inl t ↦ rw t (length-remove-put p left m)
        | inr f ↦ rw f (omega (arith, length-put-some p left m {w = total} e))
      ])
]

-- The quantity of a level by int64 arithmetic is exact, where the exact result is a uint64.
pub uint64_exact :
    (a b c : ℕ)
    → a < u64_mod
    → b < u64_mod
    → c ≤ a
    → a + b - c < u64_mod
    → uint64 (wrap64 (wrap64 (int64 a +ℤ int64 b) -ℤ int64 c)) ≡ a + b - c
uint64_exact a b c ha hb hc h =
    rw
      (
        uint64-wrap64,
        uint64-sub,
        uint64-wrap64,
        uint64-add,
        uint64-int64 a ha,
        uint64-int64 b hb,
        uint64-int64 c (omega arith),
      )
      (omega arith)
