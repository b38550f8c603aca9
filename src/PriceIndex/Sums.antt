-- ===== src/PriceIndex/Sums.antt =====
-- On the sum in `computeIndex` of services/price-index/agg.go: where it fits, it is that of the numbers,
-- in whatever order the sources come.
use lcex.Prelude.{◌≡◌, refl, ℕ, ◌+◌, ◌<◌, List, [], ◌∷◌, map, arith, Bool-cases, inl, inr}
use lcex.Prelude.Word.{u64_mod, add64}
use lcex.Prelude.Text.{Text}
use lcex.Prelude.Sort.{insert, sort}
use lcex.PriceIndex.{by_name, sum_from}

abbrev pub sum_of : List ℕ → ℕ
sum_of [] = 0
sum_of (p ∷ ps) = p + sum_of ps

abbrev pub prices : List (Text × ℕ) → List ℕ
prices es = map (λ (e : Text × ℕ). e.1) es

pub sum_from_exact :
    (sum : ℕ) (es : List (Text × ℕ))
    → sum + sum_of (prices es) < u64_mod
    → sum_from sum es ≡ sum + sum_of (prices es)
unfolding sum_from
sum_from_exact sum [] h = omega arith
sum_from_exact sum ((name, p) ∷ es) h =
    let e : add64 sum p ≡ sum + p = omega arith in
    rw e (ground (arith, sum_from_exact (sum + p) es (omega arith)))

insert-sum_of :
    (x : Text × ℕ) (es : List (Text × ℕ))
    → sum_of (prices (insert by_name x es)) ≡ x.1 + sum_of (prices es)
unfolding insert
insert-sum_of x [] = refl
insert-sum_of x (e ∷ es) = elim (Bool-cases (by_name e x)) [
  | inl t ↦ rw t (omega (arith, insert-sum_of x es))
  | inr f ↦ rw f refl
]

pub sort-sum_of : (es : List (Text × ℕ)) → sum_of (prices (sort by_name es)) ≡ sum_of (prices es)
unfolding sort
sort-sum_of [] = refl
sort-sum_of (e ∷ es) = omega (arith, insert-sum_of e (sort by_name es), sort-sum_of es)
