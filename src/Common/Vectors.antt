-- ===== src/Common/Vectors.antt =====
-- Vectors of vectors: `xs[i].push(a)`.
use orphanode.Common.Lists.{
  length, get_elem?, get_or, set, length-set, get_elem?-some, get_elem?-none, Memᴰ-snoc, All,
  Memᴰ-cons, replicate,
}
use orphanode.Common.Tests.{and_then}
use Prim.Native.Nat.{ℕ, zero, suc, ◌≤◌, ◌<◌}
use mathlib.Core.Path.{◌≡◌, refl, sym, ◌∙◌}
use mathlib.Core.Logic.{◌⊎◌, inl, inr, ◌↔◌, ⊎_elim}
use mathlib.Core.List.{List, [], ◌∷◌, ◌++◌, map, Memᴰ}
use mathlib.Core.List.Memᴰ
use mathlib.Core.Option.{Option, none, some}
use native.Mathlib.Omega.{arith}

module _ {A : Type 0} where
  -- The element at an index, empty past the end.
  abbrev pub row : List (List A) → ℕ → List A
  row xs i = get_or xs i []

  -- An index past the end panics.
  unfoldable pub push_at : List (List A) → ℕ → A → Option (List (List A))
  push_at xs i a = elim (get_elem? xs i) [
    | none ↦ none
    | some row ↦ some (set xs i (row ++ a ∷ []))
  ]

  unfoldable pub push_each : List (List A) → List (ℕ × A) → Option (List (List A))
  push_each xs [] = some xs
  push_each xs ((i, a) ∷ more) = and_then (push_at xs i a) (λ ys. push_each ys more)

  pub push_at-none : (xs : List (List A)) (i : ℕ) (a : A) → length xs ≤ i → push_at xs i a ≡ none
  unfolding push_at
  push_at-none xs i a h = rw (push_at, get_elem?-none xs i h)

  pub row-set :
      (xs : List (List A)) (i j : ℕ) (r : List A)
      → i < length xs
      → (j ≡ i) × (row (set xs i r) j ≡ r) ⊎ ¬ (j ≡ i) × (row (set xs i r) j ≡ row xs j)
  row-set [] i j r h = absurd (omega arith)
  row-set (x ∷ xs) zero zero r h = inl (refl, refl)
  row-set (x ∷ xs) zero (suc j) r h = inr (omega arith, refl)
  row-set (x ∷ xs) (suc i) zero r h = inr (omega arith, refl)
  row-set (x ∷ xs) (suc i) (suc j) r h = ground (arith, row-set xs i j r)

  -- A push within the vector adds one element to one row.
  pub push_at_lem :
      (xs : List (List A)) (i : ℕ) (a : A)
      → i < length xs
      → (ys : List (List A)) × (push_at xs i a ≡ some ys)
        × (length ys ≡ length xs)
        × ((j : ℕ) (b : A) → Memᴰ b (row ys j) ↔ (Memᴰ b (row xs j) ⊎ (j ≡ i) × (b ≡ a)))
  unfolding push_at
  push_at_lem xs i a h = (
    set xs i (row xs i ++ a ∷ []),
    rw (push_at, get_elem?-some xs i [] h),
    length-set xs i (row xs i ++ a ∷ []),
    λ j b. elim (row-set xs i j (row xs i ++ a ∷ []) h) [
      | inl (e, at) ↦ rw (at, e) (ground (arith, Memᴰ-snoc b a (row xs i)))
      | inr (ne, at) ↦ rw at (ground arith)
    ],
  )

  pub push_each_lem :
      (xs : List (List A)) (more : List (ℕ × A))
      → All (λ p. p.0 < length xs) more
      → (ys : List (List A)) × (push_each xs more ≡ some ys)
        × (length ys ≡ length xs)
        × ((j : ℕ) (b : A) → Memᴰ b (row ys j) ↔ (Memᴰ b (row xs j) ⊎ Memᴰ {A = ℕ × A} (j, b) more))
  unfolding push_each
  push_each_lem xs [] h =
      (xs, refl, refl, λ j b. (inl, ⊎_elim (λ e. e) (λ m. absurd (Memᴰ.not-nil m))))
  push_each_lem xs ((i, a) ∷ more) h =
      let (ys, e, size, at) = push_at_lem xs i a h.0 in
      let (zs, f, size_z, all) = push_each_lem ys more (rw size h.1) in
      (
        zs,
        rw (e, and_then) f,
        size_z ∙ size,
        λ j b. ground (arith, at j b, all j b, Memᴰ-cons {A = ℕ × A} (j, b) (i, a) more),
      )

  pub row-replicate : (n j : ℕ) → row (replicate n []) j ≡ []
  row-replicate zero j = refl
  row-replicate (suc n) zero = refl
  row-replicate (suc n) (suc j) = row-replicate n j

pub row-map :
    {A B : Type 0} (f : List A → List B) (xs : List (List A)) (j : ℕ)
    → f [] ≡ []
    → row (map f xs) j ≡ f (row xs j)
row-map f [] j e = sym e
row-map f (x ∷ xs) zero e = refl
row-map f (x ∷ xs) (suc j) e = row-map f xs j e

pub length-map : {A B : Type 0} (f : A → B) (xs : List A) → length (map f xs) ≡ length xs
length-map f [] = refl
length-map f (x ∷ xs) = omega (arith, length-map f xs)
