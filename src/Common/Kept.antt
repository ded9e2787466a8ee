-- ===== src/Common/Kept.antt =====
-- Loops that keep the elements whose flag is set, where an index past the last flag panics.
use mathlib.Core.List.Memᴰ
use orphanode.Common.Tests.{and_then, if◌then◌else◌, Bool-cases}
use orphanode.Common.Lists.{length, get_elem?, get_or, get_elem?-some, All}
use Prim.Native.Nat.{ℕ, ◌<◌}
use mathlib.Core.Path.{◌≡◌, refl, subst, sym}
use mathlib.Core.Logic.{◌↔◌, inl, inr}
use mathlib.Core.Bool.{Bool, true, false}
use mathlib.Core.List.{List, [], ◌∷◌, Memᴰ}
use mathlib.Core.Option.{Option, some}

module _ {A : Type 0} where
  unfoldable pub keep : List Bool → (A → ℕ) → List A → Option (List A)
  keep flags index [] = some []
  keep flags index (x ∷ xs) =
      and_then (get_elem? flags (index x))
        (λ b. and_then (keep flags index xs) (λ ys. some (if b then x ∷ ys else ys)))

  pub keep_lem :
      (flags : List Bool) (index : A → ℕ) (xs : List A)
      → All (λ x. index x < length flags) xs
      → (ys : List A) × (keep flags index xs ≡ some ys)
        × ((a : A) → Memᴰ a ys ↔ Memᴰ a xs × (get_or flags (index a) false ≡ true))
  unfolding keep
  keep_lem flags index [] h = ([], refl, λ a. (λ m. absurd (Memᴰ.not-nil m), λ (m, f). m))
  keep_lem flags index (x ∷ xs) h =
      let at = get_elem?-some flags (index x) false h.0 in
      let (ys, e, all) = keep_lem flags index xs h.1 in
      elim (Bool-cases (get_or flags (index x) false)) [
        | inl b ↦ (
          x ∷ ys,
          rw (at, b, and_then, e) refl,
          λ a. (
            λ m. elim (Memᴰ.cases_cons m) [
              | inl same ↦
                  (Memᴰ.head same, subst (λ y. get_or flags (index y) false ≡ true) (sym same) b)
              | inr later ↦ let (i, f) = (all a).0 later in (Memᴰ.tail i, f)
            ],
            λ (m, f). elim (Memᴰ.cases_cons m) [
              | inl same ↦ Memᴰ.head same
              | inr later ↦ Memᴰ.tail ((all a).1 (later, f))
            ],
          ),
        )
        | inr b ↦ (
          ys,
          rw (at, b, and_then, e) refl,
          λ a. (
            λ m. let (i, f) = (all a).0 m in (Memᴰ.tail i, f),
            λ (m, f). elim (Memᴰ.cases_cons m) [
              | inl same ↦ absurd (cc (subst (λ y. get_or flags (index y) false ≡ true) same f, b))
              | inr later ↦ (all a).1 (later, f)
            ],
          ),
        )
      ]
