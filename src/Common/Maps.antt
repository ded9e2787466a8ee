-- ===== src/Common/Maps.antt =====
-- `BTreeMap` and `BTreeSet` as lists in the order of their keys.
use orphanode.Common.Tests.{if◌then◌else◌, Bool-cases, Option-cases}
use orphanode.Common.Lists.{All, Memᴰ-cons}
use orphanode.Common.Order.{Ord, leq, same, same_iff, same_refl}
use mathlib.Core.Path.{◌≡◌, refl, sym, ap, subst}
use mathlib.Core.Logic.{◌⊎◌, inl, inr, ◌↔◌}
use mathlib.Core.Bool.{Bool, true, false}
use mathlib.Core.List.{List, [], ◌∷◌, Memᴰ}
use mathlib.Core.Option.{Option, none, some}
use native.Mathlib.Omega.{arith}

abbrev pub or_default {ℓ} : {A : Type ℓ} → A → Option A → A
or_default d none = d
or_default d (some a) = a

module _ {ℓ κ} {K : Type ℓ} {V : Type κ} ⦃o : Ord K⦄ where
  -- The search stops at the first key that is not below the one looked for.
  abbrev pub get : List (K × V) → K → Option V
  get [] k = none
  get ((j, v) ∷ m) k = if same k j then some v else if leq k j then none else get m k

  -- `entry(k)`, with what becomes of the value that is there or is not.
  abbrev pub alter : K → (Option V → V) → List (K × V) → List (K × V)
  alter k f [] = (k, f none) ∷ []
  alter k f ((j, v) ∷ m) =
      let rest = alter k f m in
      if same k j
      then (j, f (some v)) ∷ m
      else if leq k j
      then (k, f none) ∷ (j, v) ∷ m
      else (j, v) ∷ rest

  -- `get_mut(k)`: only a value that is there is changed.
  abbrev pub modify : K → (V → V) → List (K × V) → List (K × V)
  modify k f [] = []
  modify k f ((j, v) ∷ m) =
      let rest = modify k f m in
      if same k j then (j, f v) ∷ m else if leq k j then (j, v) ∷ m else (j, v) ∷ rest

  -- What is found is an entry.
  pub get-Memᴰ : (m : List (K × V)) (k : K) {v : V} → get m k ≡ some v → Memᴰ (k, v) m
  get-Memᴰ [] k e = cc
  get-Memᴰ ((j, w) ∷ m) k {v} e = elim (Bool-cases (same k j)) [
    | inl eq ↦
        let found : w ≡ v = ground (arith, e, eq) in
        Memᴰ.head (
          subst (λ i. ◌≡◌ {A = K × V} (k, v) (i, w)) ((same_iff k j).0 eq)
            (ap (λ x. (k, x)) (sym found)))
    | inr ne ↦ elim (Bool-cases (leq k j)) [
      | inl below ↦ ground (arith, e, ne, below)
      | inr above ↦ Memᴰ.tail (get-Memᴰ m k (ground (arith, e, ne, above)))
    ]
  ]

  -- A key without entries is not found.
  pub get-none : (m : List (K × V)) (k : K) → ((v : V) → ¬ Memᴰ (k, v) m) → get m k ≡ none
  get-none m k absent = elim (Option-cases (get m k)) [
    | inl e ↦ e
    | inr (v, e) ↦ absurd (absent v (get-Memᴰ m k e))
  ]

  -- What is found under the altered key.
  pub get-alter :
      (k : K) (f : Option V → V) (m : List (K × V)) → get (alter k f m) k ≡ some (f (get m k))
  get-alter k f [] = ground (arith, same_refl k)
  get-alter k f ((j, v) ∷ m) = ground (arith, same_refl k, get-alter k f m)

  -- The other keys keep their values.
  pub get-alter_other :
      (k i : K) (f : Option V → V) (m : List (K × V))
      → same k i ≡ false
      → get (alter k f m) i ≡ get m i
  get-alter_other k i f [] h = ground (arith, o.total k i)
  get-alter_other k i f ((j, v) ∷ m) h = ground (
    arith,
    get-alter_other k i f m h,
    same_iff k i,
    same_iff k j,
    same_iff i j,
    o.trans k j i,
    o.trans i k j,
    o.total k i,
    o.total i j,
    o.total k j,
  )

  -- What holds of the entries before and of the new one holds of the entries after.
  pub All-alter {μ} :
      (P : K × V → Type μ) (k : K) (f : Option V → V) (m : List (K × V))
      → All P m
      → P (k, f none)
      → ((v : V) → P (k, v) → P (k, f (some v)))
      → All P (alter k f m)
  All-alter P k f [] h new old = (new, tt)
  All-alter P k f ((j, v) ∷ m) h new old = elim (Bool-cases (same k j)) [
    | inl eq ↦
        let e = (same_iff k j).0 eq in
        rw (alter, eq)
          (subst (λ i. P (i, f (some v))) e (old v (subst (λ i. P (i, v)) (sym e) h.0)), h.1)
    | inr ne ↦ elim (Bool-cases (leq k j)) [
      | inl below ↦ rw (alter, ne, below) (new, h)
      | inr above ↦ rw (alter, ne, above) (h.0, All-alter P k f m h.1 new old)
    ]
  ]

  -- Whether a key has an entry.
  abbrev pub has_key : List (K × V) → K → Bool
  has_key m k = elim (get m k) [ none ↦ false | some v ↦ true ]

  pub has_key-alter :
      (k i : K) (f : Option V → V) (m : List (K × V))
      → has_key m i ≡ true
      → has_key (alter k f m) i ≡ true
  has_key-alter k i f m h = elim (Bool-cases (same k i)) [
    | inl eq ↦
        subst (λ j. has_key (alter k f m) j ≡ true) ((same_iff k i).0 eq)
          (rw (has_key, get-alter k f m) refl)
    | inr ne ↦ rw (has_key, get-alter_other k i f m ne) h
  ]

  pub has_key-modify :
      (k i : K) (f : V → V) (m : List (K × V))
      → has_key m i ≡ true
      → has_key (modify k f m) i ≡ true
  has_key-modify k i f [] h = h
  has_key-modify k i f ((j, v) ∷ m) h = ground (arith, h, has_key-modify k i f m)

  -- What holds of all keys still does after a change of a value.
  pub All-modify {μ} :
      (P : K → Type μ) (k : K) (f : V → V) (m : List (K × V))
      → All (λ x. P x.0) m
      → All (λ x. P x.0) (modify k f m)
  All-modify P k f [] h = tt
  All-modify P k f ((j, v) ∷ m) h = elim (Bool-cases (same k j)) [
    | inl eq ↦ rw (modify, eq) h
    | inr ne ↦ elim (Bool-cases (leq k j)) [
      | inl below ↦ rw (modify, ne, below) h
      | inr above ↦ rw (modify, ne, above) (h.0, All-modify P k f m h.1)
    ]
  ]

module _ {ℓ} {A : Type ℓ} ⦃o : Ord A⦄ where
  -- `insert` of a set.
  abbrev pub set_insert : A → List A → List A
  set_insert x [] = x ∷ []
  set_insert x (y ∷ ys) =
      let rest = set_insert x ys in
      if same x y then y ∷ ys else if leq x y then x ∷ y ∷ ys else y ∷ rest

  pub mem-set_insert : (a x : A) (xs : List A) → Memᴰ a (set_insert x xs) ↔ ((a ≡ x) ⊎ Memᴰ a xs)
  mem-set_insert a x [] = Memᴰ-cons a x []
  mem-set_insert a x (y ∷ ys) = ground (
    arith,
    same_iff x y,
    mem-set_insert a x ys,
    Memᴰ-cons a y ys,
    Memᴰ-cons a y (set_insert x ys),
    Memᴰ-cons a x (y ∷ ys),
  )
