-- ===== src/PriceIndex/Median.antt =====
-- On `medianOf` of services/price-index/agg.go: what it returns is the lower median.
use lcex.Prelude.{
  ◌≡◌, refl, ℕ, zero, suc, ◌+◌, ◌-◌, ◌*◌, ◌/◌, ◌≤◌, ◌<◌, Bool, List, [], ◌∷◌, All, All-weaken,
  length, map, ltb, leb, get_or, if◌then◌else◌, arith, Bool-cases, inl, inr,
}
use lcex.Prelude.Text.{Text}
use lcex.Prelude.Sort.{insert, sort, insert-All, length-sort}
use lcex.PriceIndex.{median_of}

-- How many numbers pass the test.
abbrev pub count : (ℕ → Bool) → List ℕ → ℕ
count test [] = 0
count test (p ∷ ps) = (if test p then 1 else 0) + count test ps

-- Fewer than half of the numbers are less than `m`, and at least half are at most `m`; of no numbers, any
-- is the median.
abbrev pub IsMedian : ℕ → List ℕ → Type 0
IsMedian m ps =
    (2 * count (λ p. ltb p m) ps ≤ length ps - 1) × (length ps ≤ 2 * count (λ p. leb p m) ps)

abbrev IsSorted : List ℕ → Type 0
IsSorted [] = Unit
IsSorted (x ∷ xs) = All (λ y. x ≤ y) xs × IsSorted xs

insert-IsSorted : (x : ℕ) (xs : List ℕ) → IsSorted xs → IsSorted (insert ltb x xs)
unfolding insert
insert-IsSorted x [] h = (tt, tt)
insert-IsSorted x (y ∷ ys) h = elim (Bool-cases (ltb y x)) [
  | inl t ↦
      let low : y ≤ x = ground arith in
      rw t (insert-All ltb (λ z. y ≤ z) x ys low h.0, insert-IsSorted x ys h.1)
  | inr f ↦
      let low : x ≤ y = ground arith in
      rw f ((low, All-weaken (λ z. y ≤ z) (λ z. x ≤ z) ys (λ z q. omega (arith, low, q)) h.0), h)
]

sort-IsSorted : (xs : List ℕ) → IsSorted (sort ltb xs)
unfolding sort
sort-IsSorted [] = tt
sort-IsSorted (x ∷ xs) = insert-IsSorted x (sort ltb xs) (sort-IsSorted xs)

insert-count :
    (test : ℕ → Bool) (x : ℕ) (xs : List ℕ) → count test (insert ltb x xs) ≡ count test (x ∷ xs)
unfolding insert
insert-count test x [] = refl
insert-count test x (y ∷ ys) = elim (Bool-cases (ltb y x)) [
  | inl t ↦ rw t (omega (arith, insert-count test x ys))
  | inr f ↦ rw f refl
]

sort-count : (test : ℕ → Bool) (xs : List ℕ) → count test (sort ltb xs) ≡ count test xs
unfolding sort
sort-count test [] = refl
sort-count test (x ∷ xs) = omega (arith, insert-count test x (sort ltb xs), sort-count test xs)

get_or-All : (P : ℕ → Type 0) (xs : List ℕ) (k : ℕ) → All P xs → k < length xs → P (get_or xs k 0)
get_or-All P [] k h less = absurd (ground arith)
get_or-All P (x ∷ xs) zero h less = h.0
get_or-All P (x ∷ xs) (suc k) h less = get_or-All P xs k h.1 (omega (arith, less))

none_below : (x : ℕ) (xs : List ℕ) → All (λ y. x ≤ y) xs → count (λ p. ltb p x) xs ≡ 0
none_below x [] h = refl
none_below x (y ∷ ys) h = ground (arith, h.0, none_below x ys h.1)

-- The place of a number in a sorted list lies between the counts.
rank :
    (xs : List ℕ) (k : ℕ)
    → IsSorted xs
    → k < length xs
    → (count (λ p. ltb p (get_or xs k 0)) xs ≤ k) × (k < count (λ p. leb p (get_or xs k 0)) xs)
rank [] k h less = absurd (ground arith)
rank (x ∷ xs) zero h less = (ground (arith, none_below x xs h.0), ground arith)
rank (x ∷ xs) (suc k) h less =
    let (low, high) = rank xs k h.1 (omega (arith, less)) in
    let behind : x ≤ get_or xs k 0 = get_or-All (λ y. x ≤ y) xs k h.0 (omega (arith, less)) in
    (ground (arith, low), ground (arith, high, behind))

below_to : (m n : ℕ) (ps : List ℕ) → m < n → count (λ p. leb p m) ps ≤ count (λ p. ltb p n) ps
below_to m n [] h = omega arith
below_to m n (p ∷ ps) h = ground (arith, below_to m n ps h)

-- There is one median only.
IsMedian-same : (m n : ℕ) (ps : List ℕ) → 0 < length ps → IsMedian m ps → IsMedian n ps → m ≡ n
IsMedian-same m n ps many h k = elim (Bool-cases (ltb m n)) [
  | inl t ↦ absurd (omega (arith, below_to m n ps (ground arith), h.1, k.0, many))
  | inr f ↦ elim (Bool-cases (ltb n m)) [
    | inl t ↦ absurd (omega (arith, below_to n m ps (ground arith), k.1, h.0, many))
    | inr g ↦ ground arith
  ]
]

length-prices : (pxs : List (Text × ℕ)) → length (map (λ (e : Text × ℕ). e.1) pxs) ≡ length pxs
length-prices [] = refl
length-prices (e ∷ pxs) = omega (arith, length-prices pxs)

median_of-IsMedian :
    (pxs : List (Text × ℕ))
    → 0 < length pxs
    → IsMedian (median_of pxs) (map (λ (e : Text × ℕ). e.1) pxs)
unfolding median_of
median_of-IsMedian pxs many =
    let ps = map (λ (e : Text × ℕ). e.1) pxs in
    let long = length-prices pxs in
    let k = (length pxs - 1) / 2 in
    let (low, high) =
      rank (sort ltb ps) k (sort-IsSorted ps) (omega (arith, length-sort ltb ps, long, many)) in
    let m = get_or (sort ltb ps) k 0 in
    (
      omega (arith, low, sort-count (λ p. ltb p m) ps, long, many),
      omega (arith, high, sort-count (λ p. leb p m) ps, long, many),
    )

-- `medianOf` returns the only median of the prices.
pub median_of_lem :
    (m : ℕ) (pxs : List (Text × ℕ))
    → 0 < length pxs
    → IsMedian m (map (λ (e : Text × ℕ). e.1) pxs)
    → median_of pxs ≡ m
median_of_lem m pxs many h =
    let ps = map (λ (e : Text × ℕ). e.1) pxs in
    IsMedian-same (median_of pxs) m ps (omega (arith, length-prices pxs, many))
      (median_of-IsMedian pxs many) h
