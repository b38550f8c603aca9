-- ===== src/MarketData/Book/Worst.antt =====
-- On `trim` of services/market/state.go at a full side that gets a new price: which price it drops.
use lcex.Prelude.{
  ℕ, ◌==◌, ◌≡◌, refl, true, false, ◌∷◌, none, some, arith, length, Bool-cases, inl, inr,
}
use lcex.Prelude.Table.{find, remove}
use lcex.MarketData.{Side}
use lcex.Prelude.{[], All, All-weaken, ◌∙◌}
use lcex.MarketData.{bids, asks}
use lcex.Prelude.{Bool, ◌||◌, ◌++◌, ap, sym, ◌≤◌, List, ◌+◌}
use lcex.Prelude.Sort.{insert, sort, sort-All, length-sort}
use lcex.Prelude.Table.{put, keys, length-keys}
use lcex.MarketData.Book.{is_worse, trim, remove_all}

abbrev has : ℕ → List ℕ → Bool
has p [] = false
has p (k ∷ ks) = (p == k) || has p ks

-- The price is the same, or comes behind `p` and not before it.
abbrev IsBehind : (ℕ → ℕ → Bool) → ℕ → ℕ → Type 0
IsBehind less p k = (less k p ≡ false) × (((p == k) || less p k) ≡ true)

insert_least :
    (less : ℕ → ℕ → Bool) (p k : ℕ) (ys : List ℕ)
    → k ≡ p
    → All (IsBehind less p) ys
    → (rest : List ℕ) × (insert less k ys ≡ p ∷ rest)
unfolding insert
insert_least less p k [] q a = ([], ap (λ x. x ∷ []) q)
insert_least less p k (y ∷ ys) q a =
    let f : less y k ≡ false = rw q (a.0.0) in (y ∷ ys, rw f (ap (λ x. x ∷ y ∷ ys) q))

sort_least :
    (less : ℕ → ℕ → Bool) (p : ℕ) (ks : List ℕ)
    → All (IsBehind less p) ks
    → has p ks ≡ true
    → (rest : List ℕ) × (sort less ks ≡ p ∷ rest)
unfolding sort insert
sort_least less p [] h e = absurd (ground arith)
sort_least less p (k ∷ ks) h e = elim (Bool-cases (p == k)) [
  | inl t ↦
      let same : k ≡ p = ground arith in
      insert_least less p k (sort less ks) same (sort-All less (IsBehind less p) ks h.1)
  | inr f ↦
      let (rest, q) = sort_least less p ks h.1 (rw f at e) in
      let before : less p k ≡ true = rw f at (h.0.1) in (insert less k rest, rw (q, before) refl)
]

All-snoc : (P : ℕ → Type 0) (ks : List ℕ) (k : ℕ) → All P ks → P k → All P (ks ++ k ∷ [])
All-snoc P [] k h p = (p, tt)
All-snoc P (j ∷ ks) k h p = (h.0, All-snoc P ks k h.1 p)

has-snoc : (p : ℕ) (ks : List ℕ) (k : ℕ) → has p ks ≡ true → has p (ks ++ k ∷ []) ≡ true
has-snoc p [] k h = absurd (ground arith)
has-snoc p (j ∷ ks) k h = ground (arith, has-snoc p ks k)

length-snoc : (ks : List ℕ) (k : ℕ) → length (ks ++ k ∷ []) ≡ length ks + 1
length-snoc [] k = refl
length-snoc (j ∷ ks) k = omega (arith, length-snoc ks k)

keys-put-none : (k v : ℕ) (m : List (ℕ × ℕ)) → find k m ≡ none → keys (put k v m) ≡ keys m ++ k ∷ []
unfolding find put keys
keys-put-none k v [] h = refl
keys-put-none k v ((j, w) ∷ m) h = elim (Bool-cases (j == k)) [
  | inl t ↦ absurd (ground arith)
  | inr f ↦ rw f (ap (◌∷◌ j) (keys-put-none k v m (rw f at h)))
]

length-put-none : (k v : ℕ) (m : List (ℕ × ℕ)) → find k m ≡ none → length (put k v m) ≡ length m + 1
length-put-none k v m h =
    sym (length-keys (put k v m))
    ∙ ap length (keys-put-none k v m h)
    ∙ length-snoc (keys m) k
    ∙ ap (λ n. n + 1) (length-keys m)

find-has : (k v : ℕ) (m : List (ℕ × ℕ)) → find k m ≡ some v → has k (keys m) ≡ true
unfolding find keys
find-has k v [] h = absurd (ground arith)
find-has k v ((j, w) ∷ m) h = elim (Bool-cases (j == k)) [
  | inl t ↦ ground arith
  | inr f ↦ ground (arith, find-has k v m (rw f at h))
]

-- No price is farther from the other side than `p`.
abbrev pub IsWorst : Side → ℕ → ℕ → Type 0
IsWorst bids p k = p ≤ k
IsWorst asks p k = k ≤ p

worst-IsBehind : (side : Side) (p k : ℕ) → IsWorst side p k → IsBehind (is_worse side) p k
unfolding is_worse
worst-IsBehind bids p k h = (ground arith, ground arith)
worst-IsBehind asks p k h = (ground arith, ground arith)

-- A side of 200 prices that gets a better one: `trim` drops its worst price.
pub trim_worst :
    (side : Side) (p v q sum : ℕ) (depth : List (ℕ × ℕ))
    → find p depth ≡ some v
    → All (IsWorst side p) (keys depth)
    → length depth ≡ 200
    → find q depth ≡ none
    → IsWorst side p q
    → trim side (put q sum depth) ≡ remove p (put q sum depth)
unfolding trim remove_all
trim_worst side p v q sum depth at_p all many new behind =
    let ks = keys-put-none q sum depth new in
    let long : length (put q sum depth) ≡ 201 =
      omega (arith, length-put-none q sum depth new, many) in
    let worst =
      All-snoc (IsBehind (is_worse side) p) (keys depth) q
        (All-weaken (IsWorst side p) (IsBehind (is_worse side) p) (keys depth)
          (worst-IsBehind side p) all)
        (worst-IsBehind side p q behind) in
    let (rest, sorted) =
      sort_least (is_worse side) p (keys depth ++ q ∷ []) worst
        (has-snoc p (keys depth) q (find-has p v depth at_p)) in
    let prices : sort (is_worse side) (keys (put q sum depth)) ≡ p ∷ rest =
      ap (sort (is_worse side)) ks ∙ sorted in
    let one : length rest ≡ 200 = omega (
      arith,
      ap length prices,
      length-sort (is_worse side) (keys (put q sum depth)),
      length-keys (put q sum depth),
      long,
    ) in
    rw (long, prices, one) refl
