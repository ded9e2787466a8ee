-- ===== src/Dependencies/Requirement.antt =====
-- What the requirement of an alias names, in front of its version.
use orphanode.Common.{
  ℕ, suc, ◌+◌, false, Option, none, some, [], ◌∷◌, ◌++◌, ◌≡◌, ◌≢◌, refl, sym, ap, subst, ◌⊎◌, inl,
  inr, ◌↔◌, arith, All, and_then, Bool-cases, Option-cases, if◌then◌else◌, ◌==◌, length, take, drop,
}
use orphanode.Common.Text.{Text, trim, is_empty}
use orphanode.Dependencies.Names.{find_char, package_end, requirement_name}
use orphanode.Dependencies.Parts.{HasNoSlash}

abbrev pub HasNoAt : Text → Type 0
HasNoAt = All (λ c. c ≢ 64)

-- The text is the name, or has `@` and a version behind it.
abbrev pub Versions : Text → Text → Type 0
Versions q u = (u ≡ q) ⊎ ((v : Text) × (u ≡ q ++ 64 ∷ v))

-- A name without a version: without `@`, but for the one that begins a scope.
abbrev pub IsVersionless : Text → Type 0
IsVersionless q =
    ((q ≢ []) × HasNoAt q)
    ⊎ ((a : Text) × (b : Text) × HasNoSlash a × HasNoAt b × (q ≡ 64 ∷ (a ++ 47 ∷ b)))

abbrev pub IsRequirement : Text → Text → Type 0
IsRequirement u q = IsVersionless q × Versions q u

find_char_absent : (c : ℕ) (p : Text) → All (λ x. x ≢ c) p → find_char c p ≡ none
find_char_absent c [] h = refl
find_char_absent c (x ∷ p) h = ground (arith, find_char_absent c p h.1, h.0)

find_char_found :
    (c : ℕ) (p r : Text) → All (λ x. x ≢ c) p → find_char c (p ++ c ∷ r) ≡ some (length p)
find_char_found c [] r h = ground arith
find_char_found c (x ∷ p) r h = ground (arith, find_char_found c p r h.1, h.0)

find_char_cases :
    (c : ℕ) (s : Text)
    → All (λ x. x ≢ c) s ⊎ ((p : Text) × (r : Text) × (s ≡ p ++ c ∷ r) × All (λ x. x ≢ c) p)
find_char_cases c [] = inl tt
find_char_cases c (x ∷ s) = elim (Bool-cases (x == c)) [
  | inl is ↦ inr ([], s, ground (arith, is), tt)
  | inr other ↦ elim (find_char_cases c s) [
    | inl absent ↦ inl (ground (arith, other), absent)
    | inr (p, r, e, before) ↦ inr (x ∷ p, r, ap (λ y. x ∷ y) e, (ground (arith, other), before))
  ]
]

take_past : (a y : Text) (n : ℕ) → take (length a + n) (a ++ y) ≡ a ++ take n y
take_past [] y n = let e : 0 + n ≡ n = omega arith in rw e refl
take_past (c ∷ a) y n =
    let e : suc (length a) + n ≡ suc (length a + n) = omega arith in
    rw e (ap (λ z. c ∷ z) (take_past a y n))

drop_past : (a x : Text) → drop (suc (length a)) (a ++ 47 ∷ x) ≡ x
drop_past [] x = refl
drop_past (c ∷ a) x = drop_past a x

take_all : (s : Text) → take (length s) s ≡ s
take_all [] = refl
take_all (c ∷ s) = ap (λ z. c ∷ z) (take_all s)

take_front : (a y : Text) → take (length a) (a ++ y) ≡ a
take_front [] y = refl
take_front (c ∷ a) y = ap (λ z. c ∷ z) (take_front a y)

-- Up to the first `@`.
abbrev cut : Text → Text
cut x = take (elim (find_char 64 x) [ none ↦ length x | some at ↦ at ]) x

cut_absent : (q : Text) → HasNoAt q → cut q ≡ q
cut_absent q h = rw (cut, find_char_absent 64 q h) (take_all q)

cut_found : (q v : Text) → HasNoAt q → cut (q ++ 64 ∷ v) ≡ q
cut_found q v h = rw (cut, find_char_found 64 q v h) (take_front q (64 ∷ v))

cut_lem : (x : Text) → HasNoAt (cut x) × Versions (cut x) x
cut_lem x = elim (find_char_cases 64 x) [
  | inl absent ↦ rw (cut_absent x absent) (absent, inl refl)
  | inr (p, r, e, before) ↦
      subst (λ y. HasNoAt (cut y) × Versions (cut y) y) (sym e)
        (rw (cut_found p r before) (before, inr (r, refl)))
]

cut_unique : (q x : Text) → HasNoAt q → Versions q x → cut x ≡ q
cut_unique q x h (inl e) = subst (λ y. cut y ≡ q) (sym e) (cut_absent q h)
cut_unique q x h (inr (v, e)) = subst (λ y. cut y ≡ q) (sym e) (cut_found q v h)

abbrev named_by : Text → Option Text
named_by u = if is_empty u then none else and_then (package_end u) (λ n. some (take n u))

named_by_plain : (c : ℕ) (u : Text) → c ≢ 64 → named_by (c ∷ u) ≡ some (cut (c ∷ u))
unfolding package_end
named_by_plain c u h =
    let other : (64 == c) ≡ false = ground (arith, h) in
    elim (Option-cases (find_char 64 (c ∷ u))) [
      | inl e ↦ rw (named_by, package_end, cut, other, e, and_then) refl
      | inr (n, e) ↦ rw (named_by, package_end, cut, other, e, and_then) refl
    ]

named_by_scoped :
    (a x : Text) → HasNoSlash a → named_by (64 ∷ (a ++ 47 ∷ x)) ≡ some (64 ∷ (a ++ 47 ∷ cut x))
unfolding package_end
named_by_scoped a x h =
    rw (named_by, find_char_found 47 a x h, and_then, drop_past a x)
      (elim (Option-cases (find_char 64 x)) [
        | inl e ↦ rw (cut, e, and_then) (rw (take_all (a ++ 47 ∷ x), take_all x) refl)
        | inr (n, e) ↦
            let count : suc (suc (length a)) + n ≡ suc (length a + suc n) = omega arith in
            rw (cut, e, and_then, count, take_past a (47 ∷ x) (suc n)) refl
      ])

named_by_scope_only : (a : Text) → HasNoSlash a → named_by (64 ∷ a) ≡ none
unfolding package_end
named_by_scope_only a h = rw (named_by, find_char_absent 47 a h) refl

append_versions : (a b v : Text) → (a ++ 47 ∷ b) ++ 64 ∷ v ≡ a ++ 47 ∷ (b ++ 64 ∷ v)
append_versions [] b v = refl
append_versions (c ∷ a) b v = ap (λ y. c ∷ y) (append_versions a b v)

Versions-scoped : (a b x : Text) → Versions b x → Versions (64 ∷ (a ++ 47 ∷ b)) (64 ∷ (a ++ 47 ∷ x))
Versions-scoped a b x (inl e) = inl (ap (λ y. 64 ∷ (a ++ 47 ∷ y)) e)
Versions-scoped a b x (inr (v, e)) = inr (
  v,
  subst (λ y. ◌≡◌ {A = Text} (64 ∷ (a ++ 47 ∷ y)) (64 ∷ ((a ++ 47 ∷ b) ++ 64 ∷ v))) (sym e)
      (rw (append_versions a b v) refl),
)

scoped-Versions :
    (a b u : Text)
    → Versions (64 ∷ (a ++ 47 ∷ b)) (64 ∷ u)
    → (x : Text) × (u ≡ a ++ 47 ∷ x) × Versions b x
scoped-Versions a b u (inl e) = (b, ground (arith, e), inl refl)
scoped-Versions a b u (inr (v, e)) =
    (b ++ 64 ∷ v, ground (arith, e, append_versions a b v), inr (v, refl))

some_injective : (a b : Text) → ◌≡◌ {A = Option Text} (some a) (some b) → a ≡ b
some_injective a b e = cc

-- What names the package is read from the requirement.
named_by_finds : (u q : Text) → IsRequirement u q → named_by u ≡ some q
named_by_finds [] q (inl (some_q, plain), versions) = absurd (ground (arith, some_q, versions))
named_by_finds [] q (inr (a, b, ha, hb, e), versions) = absurd (ground (arith, e, versions))
named_by_finds (c ∷ u) [] (inl (some_q, plain), versions) = absurd (some_q refl)
named_by_finds (c ∷ u) (d ∷ q) (inl (some_q, plain), versions) =
    let is : c ≡ d = ground (arith, versions) in
    rw (named_by_plain c u (λ at. plain.0 (ground (arith, is, at))))
      (ap (λ y. some y) (cut_unique (d ∷ q) (c ∷ u) plain versions))
named_by_finds (c ∷ u) q (inr (a, b, ha, hb, e), versions) =
    let is : c ≡ 64 = ground (arith, e, versions) in
    let (x, at, more) = scoped-Versions a b u (
      subst (λ d. Versions (64 ∷ (a ++ 47 ∷ b)) (d ∷ u)) is
        (subst (λ y. Versions y (c ∷ u)) e versions)) in
    subst (λ d. named_by (d ∷ u) ≡ some q) (sym is)
      (subst (λ y. named_by (64 ∷ y) ≡ some q) (sym at)
        (subst (λ o. o ≡ some q) (sym (named_by_scoped a x ha))
          (subst (λ y. ◌≡◌ {A = Option Text} (some (64 ∷ (a ++ 47 ∷ y))) (some q))
            (sym (cut_unique b x hb more)) (ap (λ y. some y) (sym e)))))

-- What is read is named by the requirement.
named_by_sound : (u q : Text) → named_by u ≡ some q → IsRequirement u q
named_by_sound [] q h = cc
named_by_sound (c ∷ u) q h = elim (Bool-cases (c == 64)) [
  | inr other ↦
      let not_at : c ≢ 64 = ground (arith, other) in
      let is : cut (c ∷ u) ≡ q =
        some_injective _ q (subst (λ o. o ≡ some q) (named_by_plain c u not_at) h) in
      let (plain, versions) = subst (λ y. HasNoAt y × Versions y (c ∷ u)) is (cut_lem (c ∷ u)) in
      (
        inl (
          λ e.
              let empty = subst (λ y. Versions y (c ∷ u)) e versions in
              ground (arith, empty, not_at),
          plain,
        ),
        versions,
      )
  | inl at ↦
      let is : c ≡ 64 = ground (arith, at) in
      let h2 = subst (λ d. named_by (d ∷ u) ≡ some q) is h in
      elim (find_char_cases 47 u) [
        | inl absent ↦ absurd (ground (arith, h2, named_by_scope_only u absent))
        | inr (a, x, e, before) ↦
            let said = some_injective (64 ∷ (a ++ 47 ∷ cut x)) q (
              subst (λ o. o ≡ some q) (named_by_scoped a x before)
                (subst (λ y. named_by (64 ∷ y) ≡ some q) e h2)) in
            let (no_at, versions) = cut_lem x in
            let read : IsRequirement (64 ∷ (a ++ 47 ∷ x)) (64 ∷ (a ++ 47 ∷ cut x)) =
              (inr (a, cut x, before, no_at, refl), Versions-scoped a (cut x) x versions) in
            subst (λ d. IsRequirement (d ∷ u) q) (sym is)
              (subst (λ y. IsRequirement (64 ∷ y) q) (sym e)
                (subst (λ y. IsRequirement (64 ∷ (a ++ 47 ∷ x)) y) said read))
      ]
]

pub requirement_name_iff : (r q : Text) → (requirement_name r ≡ some q) ↔ IsRequirement (trim r) q
unfolding requirement_name
requirement_name_iff r q = (named_by_sound (trim r) q, named_by_finds (trim r) q)
