-- ===== src/Prelude/Table.antt =====
-- A Go map with numbers for keys, as an association list: `put` writes an entry in place or adds it,
-- `remove` is `delete`, and `len` is the length while no key is listed twice, as `IsKeyed` says.
use lcex.Prelude.{
  ℕ, suc, ◌≤◌, ◌≡◌, refl, false, List, [], ◌∷◌, Option, none, some, arith, ◌==◌, if◌then◌else◌,
  length, All, Bool-cases, inl, inr,
}

module _ {V : Type 0} where
  unfoldable pub find : ℕ → List (ℕ × V) → Option V
  find k [] = none
  find k ((j, v) ∷ m) = if j == k then some v else find k m

  unfoldable pub put : ℕ → V → List (ℕ × V) → List (ℕ × V)
  put k v [] = (k, v) ∷ []
  put k v ((j, w) ∷ m) = if j == k then (k, v) ∷ m else (j, w) ∷ put k v m

  unfoldable pub remove : ℕ → List (ℕ × V) → List (ℕ × V)
  remove k [] = []
  remove k ((j, w) ∷ m) = let rest = remove k m in if j == k then rest else (j, w) ∷ rest

  unfoldable pub keys : List (ℕ × V) → List ℕ
  keys [] = []
  keys ((j, w) ∷ m) = j ∷ keys m

  -- No entry has the key.
  abbrev pub Lacks : ℕ → List (ℕ × V) → Type 0
  Lacks k = All (λ (e : ℕ × V). (e.0 == k) ≡ false)

  -- No key is listed twice.
  abbrev pub IsKeyed : List (ℕ × V) → Type 0
  IsKeyed [] = Unit
  IsKeyed (e ∷ m) = Lacks e.0 m × IsKeyed m

module _ {V : Type 0} where
  pub find-put :
      (k j : ℕ) (v : V) (m : List (ℕ × V))
      → find j (put k v m) ≡ (if k == j then some v else find j m)
  unfolding find put
  find-put k j v [] = refl
  find-put k j v ((i, w) ∷ m) = ground (arith, find-put k j v m)

  pub find-remove :
      (k j : ℕ) (m : List (ℕ × V)) → find j (remove k m) ≡ (if k == j then none else find j m)
  unfolding find remove
  find-remove k j [] = ground arith
  find-remove k j ((i, w) ∷ m) = ground (arith, find-remove k j m)

  pub find-Lacks : (k : ℕ) (m : List (ℕ × V)) → Lacks k m → find k m ≡ none
  unfolding find
  find-Lacks k [] h = refl
  find-Lacks k ((i, w) ∷ m) h = rw h.0 (find-Lacks k m h.1)

  pub remove-Lacks : (k : ℕ) (m : List (ℕ × V)) → Lacks k m → remove k m ≡ m
  unfolding remove
  remove-Lacks k [] h = refl
  remove-Lacks k ((i, w) ∷ m) h = rw (h.0, remove-Lacks k m h.1) refl

  pub remove-All {κ} :
      (P : ℕ × V → Type κ) (k : ℕ) (m : List (ℕ × V)) → All P m → All P (remove k m)
  unfolding remove
  remove-All P k [] h = tt
  remove-All P k ((j, w) ∷ m) h = elim (Bool-cases (j == k)) [
    | inl t ↦ rw t (remove-All P k m h.1)
    | inr f ↦ rw f (h.0, remove-All P k m h.1)
  ]

  pub put-All {κ} :
      (P : ℕ × V → Type κ) (k : ℕ) (v : V) (m : List (ℕ × V))
      → P (k, v)
      → All P m
      → All P (put k v m)
  unfolding put
  put-All P k v [] p h = (p, tt)
  put-All P k v ((j, w) ∷ m) p h = elim (Bool-cases (j == k)) [
    | inl t ↦ rw t (p, h.1)
    | inr f ↦ rw f (h.0, put-All P k v m p h.1)
  ]

  -- What is found is one of the entries.
  pub find-All {κ} :
      (P : ℕ × V → Type κ) (k : ℕ) (m : List (ℕ × V)) {v : V}
      → All P m
      → find k m ≡ some v
      → P (k, v)
  unfolding find
  find-All P k [] h e = absurd (ground arith)
  find-All P k ((j, w) ∷ m) {v} h e = elim (Bool-cases (j == k)) [
    | inl t ↦ let same : ◌≡◌ {A = ℕ × V} (j, w) (k, v) = ground arith in rw same at h.0
    | inr f ↦ find-All P k m h.1 (rw f at e)
  ]

  pub remove-IsKeyed : (k : ℕ) (m : List (ℕ × V)) → IsKeyed m → IsKeyed (remove k m)
  unfolding remove
  remove-IsKeyed k [] h = tt
  remove-IsKeyed k ((j, w) ∷ m) h = elim (Bool-cases (j == k)) [
    | inl t ↦ rw t (remove-IsKeyed k m h.1)
    | inr f ↦ rw f (remove-All (λ (e : ℕ × V). (e.0 == j) ≡ false) k m h.0, remove-IsKeyed k m h.1)
  ]

  pub put-IsKeyed : (k : ℕ) (v : V) (m : List (ℕ × V)) → IsKeyed m → IsKeyed (put k v m)
  unfolding put
  put-IsKeyed k v [] h = (tt, tt)
  put-IsKeyed k v ((j, w) ∷ m) h = elim (Bool-cases (j == k)) [
    | inl t ↦ let same : j ≡ k = ground arith in rw t (rw same at h)
    | inr f ↦ rw f (
      put-All (λ (e : ℕ × V). (e.0 == j) ≡ false) k v m (ground arith) h.0,
      put-IsKeyed k v m h.1,
    )
  ]

  pub length-remove : (k : ℕ) (m : List (ℕ × V)) → length (remove k m) ≤ length m
  unfolding remove
  length-remove k [] = omega arith
  length-remove k ((j, w) ∷ m) = ground (arith, length-remove k m)

  pub length-put : (k : ℕ) (v : V) (m : List (ℕ × V)) → length (put k v m) ≤ suc (length m)
  unfolding put
  length-put k v [] = omega arith
  length-put k v ((j, w) ∷ m) = ground (arith, length-put k v m)

  pub length-keys : (m : List (ℕ × V)) → length (keys m) ≡ length m
  unfolding keys
  length-keys [] = refl
  length-keys (e ∷ m) = omega (arith, length-keys m)

module _ {V : Type 0} where
  pub remove-Lacks_self : (k : ℕ) (m : List (ℕ × V)) → Lacks k (remove k m)
  unfolding remove
  remove-Lacks_self k [] = tt
  remove-Lacks_self k ((j, w) ∷ m) = elim (Bool-cases (j == k)) [
    | inl t ↦ rw t (remove-Lacks_self k m)
    | inr f ↦ rw f (f, remove-Lacks_self k m)
  ]

  pub remove-none : (k : ℕ) (m : List (ℕ × V)) → find k m ≡ none → remove k m ≡ m
  unfolding find remove
  remove-none k [] h = refl
  remove-none k ((j, w) ∷ m) h = elim (Bool-cases (j == k)) [
    | inl t ↦ absurd (ground arith)
    | inr f ↦ rw (f, remove-none k m (rw f at h)) refl
  ]

  pub length-put-some :
      (k : ℕ) (v : V) (m : List (ℕ × V)) {w : V} → find k m ≡ some w → length (put k v m) ≡ length m
  unfolding find put
  length-put-some k v [] h = cc
  length-put-some k v ((j, u) ∷ m) {w} h = elim (Bool-cases (j == k)) [
    | inl t ↦ rw t refl
    | inr f ↦ rw f (omega (arith, length-put-some k v m {w = w} (rw f at h)))
  ]

  pub length-remove-put :
      (k : ℕ) (v : V) (m : List (ℕ × V)) → length (remove k (put k v m)) ≤ length m
  unfolding remove put
  length-remove-put k v [] = ground arith
  length-remove-put k v ((j, u) ∷ m) = elim (Bool-cases (j == k)) [
    | inl t ↦ rw t (ground (arith, length-remove k m))
    | inr f ↦ rw f (ground (arith, length-remove-put k v m))
  ]
