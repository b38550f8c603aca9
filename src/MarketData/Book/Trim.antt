-- ===== src/MarketData/Book/Trim.antt =====
-- On `trim` and `removeLevel` of services/market/state.go: how many prices are left.
use lcex.Prelude.{
  ℕ, zero, suc, ◌+◌, ◌-◌, ◌≤◌, ◌≡◌, refl, ◌≢◌, Bool, true, false, List, [], ◌∷◌, ◌==◌, none, arith,
  length, length-take, take, take-All, All, All-weaken, leb, Bool-cases, inl, inr,
}
use lcex.Prelude.Sort.{insert, sort, insert-All, sort-All, length-sort}
use lcex.Prelude.Table.{
  find, remove, keys, Lacks, IsKeyed, find-remove, remove-Lacks, remove-IsKeyed, length-keys,
}
use lcex.MarketData.{Side}
use lcex.MarketData.Book.{max_kept_levels, is_worse, remove_all, trim}

abbrev Differ : ℕ → List ℕ → Type 0
Differ k = All (λ (j : ℕ). (j == k) ≡ false)

-- No number is listed twice.
abbrev Distinct : List ℕ → Type 0
Distinct [] = Unit
Distinct (k ∷ ks) = Differ k ks × Distinct ks

abbrev Has : List (ℕ × ℕ) → ℕ → Type 0
Has m k = find k m ≢ none

module _ (less : ℕ → ℕ → Bool) where
  insert-Distinct : (k : ℕ) (ks : List ℕ) → Differ k ks → Distinct ks → Distinct (insert less k ks)
  unfolding insert
  insert-Distinct k [] h d = (tt, tt)
  insert-Distinct k (j ∷ ks) h d = elim (Bool-cases (less j k)) [
    | inl t ↦ rw t (
      insert-All less (λ (i : ℕ). (i == j) ≡ false) k ks (ground arith) d.0,
      insert-Distinct k ks h.1 d.1,
    )
    | inr f ↦ rw f (h, d)
  ]

  sort-Distinct : (ks : List ℕ) → Distinct ks → Distinct (sort less ks)
  unfolding sort
  sort-Distinct [] d = tt
  sort-Distinct (k ∷ ks) d =
      insert-Distinct k (sort less ks) (sort-All less (λ (j : ℕ). (j == k) ≡ false) ks d.0)
        (sort-Distinct ks d.1)

take-Distinct : (n : ℕ) (ks : List ℕ) → Distinct ks → Distinct (take n ks)
take-Distinct zero ks d = tt
take-Distinct (suc n) [] d = tt
take-Distinct (suc n) (k ∷ ks) d =
    (take-All (λ (j : ℕ). (j == k) ≡ false) n ks d.0, take-Distinct n ks d.1)

keys-Differ : (k : ℕ) (m : List (ℕ × ℕ)) → Lacks k m → Differ k (keys m)
unfolding keys
keys-Differ k [] h = tt
keys-Differ k (e ∷ m) h = (h.0, keys-Differ k m h.1)

keys-Distinct : (m : List (ℕ × ℕ)) → IsKeyed m → Distinct (keys m)
unfolding keys
keys-Distinct [] h = tt
keys-Distinct (e ∷ m) h = (keys-Differ e.0 m h.0, keys-Distinct m h.1)

keys-Has : (m : List (ℕ × ℕ)) → All (Has m) (keys m)
unfolding keys find
keys-Has [] = tt
keys-Has ((j, q) ∷ m) = (
  ground arith,
  All-weaken (Has m) (Has ((j, q) ∷ m)) (keys m)
      (λ k h. elim (Bool-cases (j == k)) [ inl t ↦ rw t (λ e. cc) | inr f ↦ rw f h ]) (keys-Has m),
)

length-remove_some :
    (k : ℕ) (m : List (ℕ × ℕ)) → IsKeyed m → Has m k → suc (length (remove k m)) ≡ length m
unfolding remove find
length-remove_some k [] h e = absurd (e refl)
length-remove_some k ((j, q) ∷ m) h e = elim (Bool-cases (j == k)) [
  | inl t ↦ let same : j ≡ k = ground arith in rw (t, remove-Lacks k m (rw same at h.0)) refl
  | inr f ↦ rw f (omega (arith, length-remove_some k m h.1 (rw f at e)))
]

remove_all-IsKeyed : (ks : List ℕ) (m : List (ℕ × ℕ)) → IsKeyed m → IsKeyed (remove_all ks m)
unfolding remove_all
remove_all-IsKeyed [] m h = h
remove_all-IsKeyed (k ∷ ks) m h = remove_all-IsKeyed ks (remove k m) (remove-IsKeyed k m h)

Has-remove :
    (k : ℕ) (ks : List ℕ) (m : List (ℕ × ℕ))
    → Differ k ks
    → All (Has m) ks
    → All (Has (remove k m)) ks
Has-remove k [] m d h = tt
Has-remove k (j ∷ ks) m d h =
    ((λ e. h.0 (ground (arith, find-remove k j m))), Has-remove k ks m d.1 h.1)

length-remove_all :
    (ks : List ℕ) (m : List (ℕ × ℕ))
    → IsKeyed m
    → Distinct ks
    → All (Has m) ks
    → length (remove_all ks m) + length ks ≡ length m
unfolding remove_all
length-remove_all [] m h d a = omega arith
length-remove_all (k ∷ ks) m h d a = omega (
  arith,
  length-remove_some k m h a.0,
  length-remove_all ks (remove k m) (remove-IsKeyed k m h) d.1 (Has-remove k ks m d.0 a.1),
)

-- `trim` leaves a side at most the number of prices that it keeps.
pub length-trim :
    (side : Side) (m : List (ℕ × ℕ)) → IsKeyed m → length (trim side m) ≤ max_kept_levels
unfolding trim
length-trim side m h = elim (Bool-cases (leb (length m) max_kept_levels)) [
  | inl t ↦ rw t (ground arith)
  | inr f ↦
      let prices = sort (is_worse side) (keys m) in
      let n = length prices - max_kept_levels in
      let many =
        length-remove_all (take n prices) m h
          (take-Distinct n prices (sort-Distinct (is_worse side) (keys m) (keys-Distinct m h)))
          (take-All (Has m) n prices (sort-All (is_worse side) (Has m) (keys m) (keys-Has m))) in
      rw f (
        omega
          (arith, many, length-take n prices, length-sort (is_worse side) (keys m), length-keys m))
]

pub trim-IsKeyed : (side : Side) (m : List (ℕ × ℕ)) → IsKeyed m → IsKeyed (trim side m)
unfolding trim
trim-IsKeyed side m h = elim (Bool-cases (leb (length m) max_kept_levels)) [
  | inl t ↦ rw t h
  | inr f ↦ rw f (remove_all-IsKeyed _ m h)
]

pub trim_small : (side : Side) (m : List (ℕ × ℕ)) → length m ≤ max_kept_levels → trim side m ≡ m
unfolding trim
trim_small side m h = let t : leb (length m) max_kept_levels ≡ true = ground arith in rw t refl
