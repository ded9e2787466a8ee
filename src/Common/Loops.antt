-- ===== src/Common/Loops.antt =====
-- Loops that collect: `filter_map`, `flat_map` and `enumerate`.
use mathlib.Core.List.Memᴰ
use orphanode.Common.Tests.{and_then}
use orphanode.Common.Lists.{get_elem?, Memᴰ-cons}
use Prim.Native.Nat.{ℕ, zero, suc, ◌+◌}
use mathlib.Core.Path.{◌≡◌, refl, sym, subst}
use mathlib.Core.Logic.{◌⊎◌, inl, inr, ◌↔◌}
use mathlib.Core.List.{List, [], ◌∷◌, ◌++◌, map, Memᴰ}
use mathlib.Core.Option.{Option, none, some}
use native.Mathlib.Omega.{arith}

module _ {κ} {B : Type κ} where
  -- The value, where there is one, in front of the rest.
  abbrev pub prepend : Option B → List B → List B
  prepend none bs = bs
  prepend (some b) bs = b ∷ bs

  mem-prepend :
      (b : B) (o : Option B) (bs : List B) → Memᴰ b (prepend o bs) ↔ ((o ≡ some b) ⊎ Memᴰ b bs)
  mem-prepend b none bs = ground arith
  mem-prepend b (some c) bs = ground (arith, Memᴰ-cons b c bs)

module _ {ℓ κ} {A : Type ℓ} {B : Type κ} where
  abbrev pub filter_map : (A → Option B) → List A → List B
  filter_map f [] = []
  filter_map f (a ∷ xs) = prepend (f a) (filter_map f xs)

  abbrev pub flat_map : (A → List B) → List A → List B
  flat_map f [] = []
  flat_map f (a ∷ xs) = f a ++ flat_map f xs

  pub mem-filter_map :
      (f : A → Option B) (b : B) (xs : List A)
      → Memᴰ b (filter_map f xs) ↔ ((a : A) × Memᴰ a xs × (f a ≡ some b))
  mem-filter_map f b [] = (λ m. absurd (Memᴰ.not-nil m), λ (a, m, e). absurd (Memᴰ.not-nil m))
  mem-filter_map f b (x ∷ xs) = (
    λ m. elim ((mem-prepend b (f x) (filter_map f xs)).0 m) [
      | inl e ↦ (x, Memᴰ.head refl, e)
      | inr later ↦ let (a, i, e) = (mem-filter_map f b xs).0 later in (a, Memᴰ.tail i, e)
    ],
    λ (a, m, e). (mem-prepend b (f x) (filter_map f xs)).1 (elim (Memᴰ.cases_cons m) [
      | inl here ↦ inl (subst (λ y. f y ≡ some b) here e)
      | inr later ↦ inr ((mem-filter_map f b xs).1 (a, later, e))
    ]),
  )

  pub mem-map :
      (f : A → B) (b : B) (xs : List A) → Memᴰ b (map f xs) ↔ ((a : A) × Memᴰ a xs × (b ≡ f a))
  mem-map f b [] = (λ m. absurd (Memᴰ.not-nil m), λ (a, m, e). absurd (Memᴰ.not-nil m))
  mem-map f b (x ∷ xs) = (
    λ m. elim (Memᴰ.cases_cons m) [
      | inl here ↦ (x, Memᴰ.head refl, here)
      | inr later ↦ let (a, i, e) = (mem-map f b xs).0 later in (a, Memᴰ.tail i, e)
    ],
    λ (a, m, e). elim (Memᴰ.cases_cons m) [
      | inl here ↦ Memᴰ.head (subst (λ y. b ≡ f y) here e)
      | inr later ↦ Memᴰ.tail ((mem-map f b xs).1 (a, later, e))
    ],
  )

  pub mem-flat_map :
      (f : A → List B) (b : B) (xs : List A)
      → Memᴰ b (flat_map f xs) ↔ ((a : A) × Memᴰ a xs × Memᴰ b (f a))
  mem-flat_map f b [] = (λ m. absurd (Memᴰ.not-nil m), λ (a, m, i). absurd (Memᴰ.not-nil m))
  mem-flat_map f b (x ∷ xs) = (
    λ m. elim (Memᴰ.append_cases (f x) m) [
      | inl here ↦ (x, Memᴰ.head refl, here)
      | inr later ↦ let (a, i, e) = (mem-flat_map f b xs).0 later in (a, Memᴰ.tail i, e)
    ],
    λ (a, m, i). elim (Memᴰ.cases_cons m) [
      | inl here ↦ Memᴰ.append_left _ (subst (λ y. Memᴰ b (f y)) here i)
      | inr later ↦ Memᴰ.append_right (f x) ((mem-flat_map f b xs).1 (a, later, i))
    ],
  )

module _ {ℓ} {A : Type ℓ} where
  -- `iter().enumerate()`, counting from `i`.
  abbrev pub enumerate : ℕ → List A → List (ℕ × A)
  enumerate i [] = []
  enumerate i (a ∷ xs) = (i, a) ∷ enumerate (suc i) xs

  pub enumerated :
      (i k : ℕ) (a : A) (xs : List A)
      → Memᴰ (k, a) (enumerate i xs)
      → (j : ℕ) × (k ≡ i + j) × (get_elem? xs j ≡ some a)
  enumerated i k a [] m = absurd (Memᴰ.not-nil m)
  enumerated i k a (x ∷ xs) m = elim (Memᴰ.cases_cons m) [
    | inl here ↦ (0, ground (arith, here), ground (arith, here))
    | inr later ↦ let (j, e, at) = enumerated (suc i) k a xs later in (suc j, omega (arith, e), at)
  ]

  mem-enumerate_at :
      (i j k : ℕ) (a : A) (xs : List A)
      → k ≡ i + j
      → get_elem? xs j ≡ some a
      → Memᴰ (k, a) (enumerate i xs)
  mem-enumerate_at i j k a [] e at = cc
  mem-enumerate_at i zero k a (x ∷ xs) e at = Memᴰ.head (ground (arith, e, at))
  mem-enumerate_at i (suc j) k a (x ∷ xs) e at =
      Memᴰ.tail (mem-enumerate_at (suc i) j k a xs (omega (arith, e)) at)

  pub mem-enumerate :
      (k : ℕ) (a : A) (xs : List A) → Memᴰ (k, a) (enumerate 0 xs) ↔ (get_elem? xs k ≡ some a)
  mem-enumerate k a xs = (
    λ m.
        let (j, e, at) = enumerated 0 k a xs m in
        subst (λ i. get_elem? xs i ≡ some a) (sym (omega (arith, e))) at,
    λ at. mem-enumerate_at 0 k k a xs (omega arith) at,
  )

module _ {A B : Type 0} where
  -- A map whose steps may fail; the first failure is that of the whole.
  unfoldable pub traverse : (A → Option B) → List A → Option (List B)
  traverse f [] = some []
  traverse f (a ∷ xs) = and_then (f a) (λ b. and_then (traverse f xs) (λ bs. some (b ∷ bs)))

  -- Two lists of one length, related position by position.
  abbrev pub Pointwise : (A → B → Type 0) → List A → List B → Type 0
  Pointwise R [] [] = Unit
  Pointwise R [] (b ∷ bs) = ⊥
  Pointwise R (a ∷ xs) [] = ⊥
  Pointwise R (a ∷ xs) (b ∷ bs) = R a b × Pointwise R xs bs

  pub traverse_lem :
      (R : A → B → Type 0) (f : A → Option B) (xs : List A)
      → ((a : A) → Memᴰ a xs → (b : B) × (f a ≡ some b) × R a b)
      → (bs : List B) × (traverse f xs ≡ some bs) × Pointwise R xs bs
  unfolding traverse
  traverse_lem R f [] h = ([], refl, tt)
  traverse_lem R f (a ∷ xs) h =
      let (b, e, r) = h a (Memᴰ.head refl) in
      let (bs, es, rs) = traverse_lem R f xs (λ x m. h x (Memᴰ.tail m)) in
      (b ∷ bs, rw (e, and_then, es) refl, (r, rs))

module _ {A B : Type 0} (R : A → B → Type 0) where
  pub Pointwise-left :
      (xs : List A) (ys : List B) {a : A}
      → Pointwise R xs ys
      → Memᴰ a xs
      → (b : B) × Memᴰ b ys × R a b
  Pointwise-left [] ys h m = absurd (Memᴰ.not-nil m)
  Pointwise-left (x ∷ xs) [] h m = absurd h
  Pointwise-left (x ∷ xs) (y ∷ ys) h m = elim (Memᴰ.cases_cons m) [
    | inl e ↦ (y, Memᴰ.head refl, subst (λ z. R z y) (sym e) h.0)
    | inr later ↦ let (b, i, r) = Pointwise-left xs ys h.1 later in (b, Memᴰ.tail i, r)
  ]

  pub Pointwise-right :
      (xs : List A) (ys : List B) {b : B}
      → Pointwise R xs ys
      → Memᴰ b ys
      → (a : A) × Memᴰ a xs × R a b
  Pointwise-right xs [] h m = absurd (Memᴰ.not-nil m)
  Pointwise-right [] (y ∷ ys) h m = absurd h
  Pointwise-right (x ∷ xs) (y ∷ ys) h m = elim (Memᴰ.cases_cons m) [
    | inl e ↦ (x, Memᴰ.head refl, subst (R x) (sym e) h.0)
    | inr later ↦ let (a, i, r) = Pointwise-right xs ys h.1 later in (a, Memᴰ.tail i, r)
  ]
