-- ===== src/Common/Lists.antt =====
-- Lists measured and indexed by native numbers, Boolean tests over them, and predicates.
use Prim.Native.Nat.{ℕ, zero, suc, ◌+◌, ◌≤◌, ◌<◌}
use mathlib.Core.Path.{◌≡◌, refl, ap, sym, subst}
use mathlib.Core.Logic.{◌≢◌, ◌⊎◌, inl, inr, ◌↔◌, ⊎_elim}
use mathlib.Core.Bool.{Bool, true, false, ◌&&◌, ◌||◌}
use mathlib.Core.List.{List, [], ◌∷◌, ◌++◌, Memᴰ}
use mathlib.Core.List.Memᴰ
use mathlib.Core.Option.{Option, none, some}
use native.Mathlib.Omega.{arith}

module _ {ℓ} {A : Type ℓ} where
  abbrev pub length : List A → ℕ
  length [] = 0
  length (x ∷ xs) = suc (length xs)

  abbrev pub get_elem? : List A → ℕ → Option A
  get_elem? [] i = none
  get_elem? (x ∷ xs) zero = some x
  get_elem? (x ∷ xs) (suc i) = get_elem? xs i

  abbrev pub get_or : List A → ℕ → A → A
  get_or [] i d = d
  get_or (x ∷ xs) zero d = x
  get_or (x ∷ xs) (suc i) d = get_or xs i d

  -- A write out of bounds changes nothing.
  abbrev pub set : List A → ℕ → A → List A
  set [] i v = []
  set (x ∷ xs) zero v = v ∷ xs
  set (x ∷ xs) (suc i) v = x ∷ set xs i v

  abbrev pub replicate : ℕ → A → List A
  replicate zero a = []
  replicate (suc n) a = a ∷ replicate n a

  abbrev pub any : (A → Bool) → List A → Bool
  any p [] = false
  any p (x ∷ xs) = p x || any p xs

  abbrev pub all : (A → Bool) → List A → Bool
  all p [] = true
  all p (x ∷ xs) = p x && all p xs

  abbrev pub All {κ} : (A → Type κ) → List A → Type κ
  All P [] = Unit
  All P (x ∷ xs) = P x × All P xs

  pub length-append : (xs ys : List A) → length (xs ++ ys) ≡ length xs + length ys
  length-append [] ys = omega arith
  length-append (x ∷ xs) ys = omega (arith, length-append xs ys)

  pub length-replicate : (n : ℕ) (a : A) → length (replicate n a) ≡ n
  length-replicate zero a = refl
  length-replicate (suc n) a = ap suc (length-replicate n a)

  pub length-set : (xs : List A) (i : ℕ) (v : A) → length (set xs i v) ≡ length xs
  length-set [] i v = refl
  length-set (x ∷ xs) zero v = refl
  length-set (x ∷ xs) (suc i) v = ap suc (length-set xs i v)

  pub get_elem?-some :
      (xs : List A) (i : ℕ) (d : A) → i < length xs → get_elem? xs i ≡ some (get_or xs i d)
  get_elem?-some [] i d h = absurd (omega arith)
  get_elem?-some (x ∷ xs) zero d h = refl
  get_elem?-some (x ∷ xs) (suc i) d h = get_elem?-some xs i d (omega arith)

  pub get_elem?-none : (xs : List A) (i : ℕ) → length xs ≤ i → get_elem? xs i ≡ none
  get_elem?-none [] i h = refl
  get_elem?-none (x ∷ xs) zero h = absurd (omega arith)
  get_elem?-none (x ∷ xs) (suc i) h = get_elem?-none xs i (omega arith)

  pub get_elem?-past : (xs : List A) (i : ℕ) → get_elem? xs i ≡ none → length xs ≤ i
  get_elem?-past [] i e = omega arith
  get_elem?-past (x ∷ xs) zero e = cc
  get_elem?-past (x ∷ xs) (suc i) e = omega (arith, get_elem?-past xs i e)

  pub get_or-of-get_elem? :
      (xs : List A) (i : ℕ) (d : A) {x : A}
      → get_elem? xs i ≡ some x
      → (get_or xs i d ≡ x) × (i < length xs)
  get_or-of-get_elem? [] i d h = cc
  get_or-of-get_elem? (x ∷ xs) zero d h = ground arith
  get_or-of-get_elem? (x ∷ xs) (suc i) d h =
      let (e, lt) = get_or-of-get_elem? xs i d h in (e, omega arith)

  pub List-cases : (xs : List A) → (xs ≡ []) ⊎ ((x : A) × (rest : List A) × (xs ≡ x ∷ rest))
  List-cases [] = inl refl
  List-cases (x ∷ xs) = inr (x, xs, refl)

  pub Memᴰ-cons : (a x : A) (xs : List A) → Memᴰ a (x ∷ xs) ↔ ((a ≡ x) ⊎ Memᴰ a xs)
  Memᴰ-cons a x xs = (Memᴰ.cases_cons, ⊎_elim Memᴰ.head Memᴰ.tail)

  pub Memᴰ-singleton : (a x : A) → Memᴰ a (x ∷ []) ↔ (a ≡ x)
  Memᴰ-singleton a x = (Memᴰ.eq_of_singleton, Memᴰ.head)

  pub Memᴰ-snoc : (a x : A) (xs : List A) → Memᴰ a (xs ++ x ∷ []) ↔ (Memᴰ a xs ⊎ (a ≡ x))
  Memᴰ-snoc a x xs = (
    λ m. ⊎_elim inl (λ l. inr (Memᴰ.eq_of_singleton l)) (Memᴰ.append_cases xs m),
    ⊎_elim (Memᴰ.append_left _) (λ e. Memᴰ.append_right xs (Memᴰ.head e)),
  )

  pub All-of-Memᴰ {κ} : (P : A → Type κ) {a : A} (xs : List A) → All P xs → Memᴰ a xs → P a
  All-of-Memᴰ P [] h m = absurd (Memᴰ.not-nil m)
  All-of-Memᴰ P (x ∷ xs) h m = elim (Memᴰ.cases_cons m) [
    | inl e ↦ subst P (sym e) h.0
    | inr later ↦ All-of-Memᴰ P xs h.1 later
  ]

  pub All-intro {κ} : (P : A → Type κ) (xs : List A) → ((a : A) → Memᴰ a xs → P a) → All P xs
  All-intro P [] h = tt
  All-intro P (x ∷ xs) h = (h x (Memᴰ.head refl), All-intro P xs (λ a m. h a (Memᴰ.tail m)))

  pub All-append {κ} :
      (P : A → Type κ) (front back : List A) → All P front → All P back → All P (front ++ back)
  All-append P [] back _ behind = behind
  All-append P (_ ∷ front) back before behind = (before.0, All-append P front back before.1 behind)

  -- `windows(2).all(...)`
  abbrev pub adjacent : (A → A → Bool) → List A → Bool
  adjacent r [] = true
  adjacent r (x ∷ []) = true
  adjacent r (x ∷ y ∷ rest) = r x y && adjacent r (y ∷ rest)

  abbrev pub is_nil : List A → Bool
  is_nil [] = true
  is_nil (_ ∷ _) = false

  pub is_nil-false : (xs : List A) → xs ≢ [] → is_nil xs ≡ false
  is_nil-false [] h = absurd (h refl)
  is_nil-false (_ ∷ _) h = refl

  abbrev pub take : ℕ → List A → List A
  take zero xs = []
  take (suc n) [] = []
  take (suc n) (x ∷ xs) = x ∷ take n xs

  abbrev pub drop : ℕ → List A → List A
  drop zero xs = xs
  drop (suc n) [] = []
  drop (suc n) (x ∷ xs) = drop n xs

  -- No element twice.
  abbrev pub Distinct : List A → Type ℓ
  Distinct [] = Unit
  Distinct (x ∷ xs) = (¬ Memᴰ x xs) × Distinct xs

  pub Distinct-append :
      (xs ys : List A)
      → Distinct xs
      → Distinct ys
      → ((a : A) → Memᴰ a xs → ¬ Memᴰ a ys)
      → Distinct (xs ++ ys)
  Distinct-append [] ys d e apart = e
  Distinct-append (x ∷ xs) ys d e apart = (
    λ m. elim (Memᴰ.append_cases xs m) [
      | inl here ↦ absurd (d.0 here)
      | inr there ↦ absurd (apart x (Memᴰ.head refl) there)
    ],
    Distinct-append xs ys d.1 e (λ a m. apart a (Memᴰ.tail m)),
  )
