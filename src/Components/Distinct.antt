-- ===== src/Components/Distinct.antt =====
-- No vertex is twice in a component: it is as long as there are newly raised flags.
use mathlib.Core.List.Memᴰ
use orphanode.Common.{
  Distinct, ℕ, suc, ◌+◌, ◌≤◌, ◌≡◌, refl, ◌∙◌, ◌⊎◌, inl, inr, ◌↔◌, ⊎_elim, Bool, true, false, some,
  List, [], ◌∷◌, Memᴰ, arith, length, length-set, set, get_elem?, Memᴰ-cons, Bool-cases, subst, sym,
}
use orphanode.Common.Sorting.{sort_by, insert_by, mem-insert_by, mem-sort_by}
use orphanode.Search.Step.{up}
use orphanode.Search.Vector.{
  vector_board, unmarked, up-flag, up-set, unmarked-set, IsIn-lt, flag-lt, read-cases,
}

Distinct-insert_by :
    (le : ℕ → ℕ → Bool) (x : ℕ) (xs : List ℕ)
    → ¬ Memᴰ x xs
    → Distinct xs
    → Distinct (insert_by le x xs)
Distinct-insert_by le x [] out d = (out, tt)
Distinct-insert_by le x (y ∷ ys) out d = elim (Bool-cases (le x y)) [
  | inl h ↦ rw h (out, d)
  | inr h ↦ rw h (
    λ m. ground (arith, mem-insert_by le y x ys, Memᴰ-cons x y ys, d.0, out, m),
    Distinct-insert_by le x ys (λ m. out (Memᴰ.tail m)) d.1,
  )
]

pub Distinct-sort_by : (le : ℕ → ℕ → Bool) (xs : List ℕ) → Distinct xs → Distinct (sort_by le xs)
unfolding sort_by
Distinct-sort_by le [] d = tt
Distinct-sort_by le (x ∷ xs) d =
    Distinct-insert_by le x (sort_by le xs) (λ m. d.0 ((mem-sort_by le x xs).0 m))
      (Distinct-sort_by le xs d.1)

-- A flag that is up in one of two vectors of one length can be read in the other.
other-cases :
    (base flags : List Bool) (x : ℕ)
    → length flags ≡ length base
    → up flags x ≡ true
    → (get_elem? base x ≡ some true) ⊎ (get_elem? base x ≡ some false)
other-cases base flags x size f =
    read-cases base x
      (IsIn-lt base x (omega (arith, size, flag-lt flags x (sym (up-flag flags x) ∙ f))))

unmarked_mono :
    (base flags : List Bool)
    → length flags ≡ length base
    → ((v : ℕ) → up flags v ≡ true → up base v ≡ true)
    → unmarked base ≤ unmarked flags
unmarked_mono [] flags size h = omega arith
unmarked_mono (b ∷ base) [] size h = absurd (omega arith)
unmarked_mono (true ∷ base) (true ∷ flags) size h =
    unmarked_mono base flags (omega arith) (λ v. h (suc v))
unmarked_mono (true ∷ base) (false ∷ flags) size h =
    omega (arith, unmarked_mono base flags (omega arith) (λ v. h (suc v)))
unmarked_mono (false ∷ base) (true ∷ flags) size h = cc (h 0 refl)
unmarked_mono (false ∷ base) (false ∷ flags) size h =
    omega (arith, unmarked_mono base flags (omega arith) (λ v. h (suc v)))

unmarked_cover :
    (base flags : List Bool) (c : List ℕ)
    → length flags ≡ length base
    → ((v : ℕ) → up flags v ≡ true → (up base v ≡ true) ⊎ Memᴰ v c)
    → unmarked base ≤ unmarked flags + length c
unmarked_cover base flags [] size h = omega (
  arith,
  unmarked_mono base flags size (λ v f. ⊎_elim (λ u. u) (λ m. absurd (Memᴰ.not-nil m)) (h v f)),
)
unmarked_cover base flags (x ∷ c) size h =
    let skip : ((v : ℕ) → up flags v ≡ true → v ≡ x → up base v ≡ true)
        → unmarked base ≤ unmarked flags + length (x ∷ c) =
      λ known. omega (
        arith,
        unmarked_cover base flags c size (λ v f. ground (arith, h v f, Memᴰ-cons v x c, known v f)),
      ) in
    elim (Bool-cases (up flags x)) [
      | inr down ↦ skip (λ v f e. absurd (cc (subst (λ y. up flags y ≡ true) e f, down)))
      | inl on ↦ elim (other-cases base flags x size on) [
        | inl old ↦ skip (λ v f e. subst (λ y. up base y ≡ true) (sym e) (rw old refl))
        | inr new ↦ omega (
          arith,
          unmarked-set base x new,
          unmarked_cover (set base x true) flags c (size ∙ sym (length-set base x true))
              (λ v f. ground (arith, h v f, Memᴰ-cons v x c, up-set base x v new)),
        )
      ]
    ]

pub Distinct-of-count :
    (base flags : List Bool) (c : List ℕ)
    → length flags ≡ length base
    → ((v : ℕ) → Memᴰ v c ↔ (up flags v ≡ true) × (up base v ≡ false))
    → unmarked flags + length c ≡ unmarked base
    → Distinct c
Distinct-of-count base flags [] size h count = tt
Distinct-of-count base flags (x ∷ c) size h count =
    let cover : (v : ℕ) → up flags v ≡ true → (up base v ≡ true) ⊎ Memᴰ v (x ∷ c) = λ v f.
      elim (Bool-cases (up base v)) [ inl old ↦ inl old | inr new ↦ inr ((h v).1 (f, new)) ] in
    let fresh : ¬ Memᴰ x c = λ m. absurd (
      omega (
        arith,
        count,
        unmarked_cover base flags c size (λ v f.
            ⊎_elim inl
              (λ i.
                inr (⊎_elim (λ e. subst (λ y. Memᴰ y c) (sym e) m) (λ j. j) (Memᴰ.cases_cons i)))
              (cover v f)),
      )) in
    let (on, off) = (h x).0 (Memᴰ.head refl) in
    elim (other-cases base flags x size on) [
      | inl old ↦ absurd (ground (arith, old, off))
      | inr new ↦ (
        fresh,
        Distinct-of-count (set base x true) flags c (size ∙ sym (length-set base x true))
            (λ v.
              let apart : v ≡ x → ¬ Memᴰ v c = λ e m. fresh (subst (λ y. Memᴰ y c) e m) in
              ground (arith, h v, off, Memᴰ-cons v x c, up-set base x v new, apart))
            (omega (arith, count, unmarked-set base x new)),
      )
    ]
