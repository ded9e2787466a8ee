-- ===== src/Common/Sorting.antt =====
-- `sort` (stable), `sort_unstable` and `dedup` on vectors, as insertion sort and a filter of repeats.
use mathlib.Core.List.Perm
use mathlib.Core.List.{Perm}
use orphanode.Common.Tests.{if◌then◌else◌, Bool-cases}
use orphanode.Common.Lists.{All, Memᴰ-cons, All-of-Memᴰ, All-intro}
use orphanode.Common.Order.{Ord, leq, same, same_iff}
use mathlib.Core.Path.{◌≡◌}
use mathlib.Core.Logic.{◌⊎◌, inl, inr, ◌↔◌, ⊎_elim}
use mathlib.Core.Bool.{Bool, true, false}
use mathlib.Core.List.{List, [], ◌∷◌, Memᴰ}
use native.Mathlib.Omega.{arith}

module _ {ℓ} {A : Type ℓ} where
  -- Equal elements keep their order: a new element goes before the first one not below it.
  abbrev pub insert_by : (A → A → Bool) → A → List A → List A
  insert_by le x [] = x ∷ []
  insert_by le x (y ∷ ys) = if le x y then x ∷ y ∷ ys else y ∷ insert_by le x ys

  unfoldable pub sort_by : (A → A → Bool) → List A → List A
  sort_by le [] = []
  sort_by le (x ∷ xs) = insert_by le x (sort_by le xs)

  pub mem-insert_by :
      (le : A → A → Bool) (a x : A) (xs : List A)
      → Memᴰ a (insert_by le x xs) ↔ ((a ≡ x) ⊎ Memᴰ a xs)
  mem-insert_by le a x [] = Memᴰ-cons a x []
  mem-insert_by le a x (y ∷ ys) = elim (Bool-cases (le x y)) [
    | inl h ↦ rw h (Memᴰ-cons a x (y ∷ ys))
    | inr h ↦ rw h (
        ground
          (arith, Memᴰ-cons a y (insert_by le x ys), Memᴰ-cons a y ys, mem-insert_by le a x ys))
  ]

  -- Sorting keeps the elements.
  pub mem-sort_by : (le : A → A → Bool) (a : A) (xs : List A) → Memᴰ a (sort_by le xs) ↔ Memᴰ a xs
  unfolding sort_by
  mem-sort_by le a [] = (λ m. m, λ m. m)
  mem-sort_by le a (x ∷ xs) =
      ground (arith, mem-insert_by le a x (sort_by le xs), mem-sort_by le a xs, Memᴰ-cons a x xs)

  pub insert_by-perm : (le : A → A → Bool) (x : A) (xs : List A) → Perm (insert_by le x xs) (x ∷ xs)
  insert_by-perm le x [] = Perm.refl (x ∷ [])
  insert_by-perm le x (y ∷ ys) = elim (Bool-cases (le x y)) [
    | inl h ↦ rw (insert_by, h) (Perm.refl (x ∷ y ∷ ys))
    | inr h ↦
        rw (insert_by, h) (Perm.trans (Perm.cons y (insert_by-perm le x ys)) (Perm.swap x y ys))
  ]

  -- Sorting rearranges.
  pub sort_by-perm : (le : A → A → Bool) (xs : List A) → Perm (sort_by le xs) xs
  unfolding sort_by
  sort_by-perm le [] = Perm.refl []
  sort_by-perm le (x ∷ xs) =
      Perm.trans (insert_by-perm le x (sort_by le xs)) (Perm.cons x (sort_by-perm le xs))

  -- Every element is at most each later one.
  abbrev pub IsSortedBy : (A → A → Bool) → List A → Type ℓ
  IsSortedBy le [] = Unit
  IsSortedBy le (x ∷ xs) = All (λ y. le x y ≡ true) xs × IsSortedBy le xs

module _ {ℓ} {A : Type ℓ} (le : A → A → Bool)
    (total : (a b : A) → (le a b ≡ true) ⊎ (le b a ≡ true))
    (trans : (a b c : A) → le a b ≡ true → le b c ≡ true → le a c ≡ true) where
  insert_by-IsSortedBy :
      (x : A) (xs : List A) → IsSortedBy le xs → IsSortedBy le (insert_by le x xs)
  insert_by-IsSortedBy x [] h = (tt, tt)
  insert_by-IsSortedBy x (y ∷ ys) h = elim (Bool-cases (le x y)) [
    | inl below ↦
        rw below ((below, All-intro _ ys (λ a m. trans x y a below (All-of-Memᴰ _ ys h.0 m))), h)
    | inr gt ↦ rw gt (
      All-intro _ _ (λ a m.
          ⊎_elim (λ e. rw e (⊎_elim (λ below. absurd (cc)) (λ l. l) (total x y)))
            (λ later. All-of-Memᴰ _ ys h.0 later) ((mem-insert_by le a x ys).0 m)),
      insert_by-IsSortedBy x ys h.1,
    )
  ]

  -- The result is in order.
  pub sort_by-IsSortedBy : (xs : List A) → IsSortedBy le (sort_by le xs)
  unfolding sort_by
  sort_by-IsSortedBy [] = tt
  sort_by-IsSortedBy (x ∷ xs) = insert_by-IsSortedBy x (sort_by le xs) (sort_by-IsSortedBy xs)

module _ {ℓ} {A : Type ℓ} ⦃o : Ord A⦄ where
  abbrev pub sort : List A → List A
  sort = sort_by leq

  -- Repeats of the element before are dropped.
  abbrev pub dedup_after : A → List A → List A
  dedup_after x [] = []
  dedup_after x (y ∷ ys) = elim (same x y) [
    | true ↦ dedup_after x ys
    | false ↦ y ∷ dedup_after y ys
  ]

  unfoldable pub dedup : List A → List A
  dedup [] = []
  dedup (x ∷ xs) = x ∷ dedup_after x xs

  abbrev pub IsSorted : List A → Type ℓ
  IsSorted = IsSortedBy leq

  -- Strictly increasing: sorted, and no element twice.
  abbrev pub IsIncreasing : List A → Type ℓ
  IsIncreasing [] = Unit
  IsIncreasing (x ∷ xs) = All (λ y. leq y x ≡ false) xs × IsIncreasing xs

  pub sort-IsSorted : (xs : List A) → IsSorted (sort xs)
  sort-IsSorted = sort_by-IsSortedBy leq o.total o.trans

  mem-dedup_after :
      (a x : A) (xs : List A) → ((a ≡ x) ⊎ Memᴰ a (dedup_after x xs)) ↔ ((a ≡ x) ⊎ Memᴰ a xs)
  mem-dedup_after a x [] = (λ m. m, λ m. m)
  mem-dedup_after a x (y ∷ ys) = ground (
    arith,
    same_iff x y,
    mem-dedup_after a x ys,
    mem-dedup_after a y ys,
    Memᴰ-cons a y ys,
    Memᴰ-cons a y (dedup_after y ys),
  )

  -- Dropping repeats keeps the elements.
  pub mem-dedup : (a : A) (xs : List A) → Memᴰ a (dedup xs) ↔ Memᴰ a xs
  unfolding dedup
  mem-dedup a [] = (λ m. m, λ m. m)
  mem-dedup a (x ∷ xs) =
      ground (arith, mem-dedup_after a x xs, Memᴰ-cons a x xs, Memᴰ-cons a x (dedup_after x xs))

  Memᴰ-of-dedup_after : (a x : A) (xs : List A) → Memᴰ a (dedup_after x xs) → Memᴰ a xs
  Memᴰ-of-dedup_after a x [] m = m
  Memᴰ-of-dedup_after a x (y ∷ ys) m = ground (
    arith,
    Memᴰ-of-dedup_after a x ys,
    Memᴰ-of-dedup_after a y ys,
    Memᴰ-cons a y ys,
    Memᴰ-cons a y (dedup_after y ys),
  )

  dedup_after-IsIncreasing :
      (x : A) (xs : List A)
      → All (λ y. leq x y ≡ true) xs
      → IsSorted xs
      → All (λ y. leq y x ≡ false) (dedup_after x xs) × IsIncreasing (dedup_after x xs)
  dedup_after-IsIncreasing x [] above h = (tt, tt)
  dedup_after-IsIncreasing x (y ∷ ys) above h = elim (Bool-cases (same x y)) [
    | inl eq ↦ rw (eq, dedup_after) (dedup_after-IsIncreasing x ys above.1 h.1)
    | inr ne ↦
        rw (ne, dedup_after)
          (
            (
              ground arith,
              All-intro _ _ (λ z m.
                  let y_z =
                    All-of-Memᴰ (λ w. leq y w ≡ true) ys h.0 (Memᴰ-of-dedup_after z y ys m) in
                  ground (arith, o.trans y z x)),
            ),
            dedup_after-IsIncreasing y ys h.0 h.1,
          )
  ]

  -- A sorted list without its repeats is strictly increasing.
  pub dedup-IsIncreasing : (xs : List A) → IsSorted xs → IsIncreasing (dedup xs)
  unfolding dedup
  dedup-IsIncreasing [] h = tt
  dedup-IsIncreasing (x ∷ xs) h = dedup_after-IsIncreasing x xs h.0 h.1
