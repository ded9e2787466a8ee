-- ===== src/Dependencies/Specifiers.antt =====
-- The fuel of `package_name` is enough: it satisfies the equation of the source, in which it calls
-- itself through `npm_requirement_package`.
use orphanode.Common.{
  ℕ, zero, suc, ◌+◌, ◌≤◌, ◌<◌, ◌≡◌, refl, none, some, [], ◌∷◌, length, take, and_then, arith, inl,
  inr, Option-cases, length-append,
}
use mathlib.Core.List.{reverse, reverse-cons}
use orphanode.Common.Text.{Text, text, strip_prefix, trim, trim_start, trim_end}
use orphanode.Dependencies.Names.{
  package_name, package_name_on, bare_package, requirement_name, package_end,
  npm_requirement_package,
}

length-trim_start : (s : Text) → length (trim_start s) ≤ length s
unfolding trim_start
length-trim_start [] = omega arith
length-trim_start (c ∷ s) = ground (arith, length-trim_start s)

length-reverse : (s : Text) → length (reverse s) ≡ length s
length-reverse [] = refl
length-reverse (c ∷ s) =
    rw (reverse-cons c s) (omega (arith, length-append (reverse s) (c ∷ []), length-reverse s))

length-trim : (s : Text) → length (trim s) ≤ length s
unfolding trim trim_end
length-trim s = omega (
  arith,
  length-trim_start s,
  length-reverse (trim_start s),
  length-trim_start (reverse (trim_start s)),
  length-reverse (trim_start (reverse (trim_start s))),
)

length-strip_prefix : (p s r : Text) → strip_prefix p s ≡ some r → length p + length r ≡ length s
length-strip_prefix [] s r h = ground arith
length-strip_prefix (x ∷ p) [] r h = cc
length-strip_prefix (x ∷ p) (c ∷ s) r h = ground (arith, length-strip_prefix p s r)

length-take_le : (n : ℕ) (s : Text) → length (take n s) ≤ length s
length-take_le zero s = omega arith
length-take_le (suc n) [] = omega arith
length-take_le (suc n) (c ∷ s) = omega (arith, length-take_le n s)

length-requirement_name : (r s : Text) → requirement_name r ≡ some s → length s ≤ length r
unfolding requirement_name
length-requirement_name r s h = elim (Option-cases (package_end (trim r))) [
  | inl none_e ↦ ground (arith, h, none_e)
  | inr (n, e) ↦ ground (arith, h, e, length-trim r, length-take_le n (trim r))
]

-- Any two amounts of fuel above the length of the specifier give the same answer.
package_name_on-enough :
    (fuel other : ℕ) (s : Text)
    → length s < fuel
    → length s < other
    → package_name_on fuel s ≡ package_name_on other s
unfolding package_name_on
package_name_on-enough zero other s h k = absurd (omega arith)
package_name_on-enough (suc fuel) zero s h k = absurd (omega arith)
package_name_on-enough (suc fuel) (suc other) s h k =
    elim (Option-cases (strip_prefix (text "npm:") (trim s))) [
      | inl plain ↦ rw (package_name_on, plain) refl
      | inr (r, stripped) ↦ elim (Option-cases (requirement_name r)) [
        | inl missing ↦ rw (package_name_on, stripped, missing, and_then) refl
        | inr (q, found) ↦
            let shorter : length q + 4 ≤ length s = omega (
              arith,
              length-requirement_name r q found,
              length-strip_prefix (text "npm:") (trim s) r stripped,
              length-trim s,
            ) in
            rw (package_name_on, stripped, found, and_then)
              (package_name_on-enough fuel other q (omega (arith, h, shorter))
                (omega (arith, k, shorter)))
      ]
    ]

-- `package_name` satisfies the recursive equation of the source: a trimmed specifier with the
-- prefix `npm:` gives what `npm_requirement_package`, which calls `package_name`, gives for the
-- rest, and any other one is read as a bare package.
pub package_name-equation :
    (s : Text)
    → package_name s ≡ (elim (strip_prefix (text "npm:") (trim s)) [
      | none ↦ bare_package (trim s)
      | some requirement ↦ npm_requirement_package requirement
    ])
unfolding package_name npm_requirement_package package_name_on
package_name-equation s = elim (Option-cases (strip_prefix (text "npm:") (trim s))) [
  | inl plain ↦ rw (package_name, package_name_on, plain) refl
  | inr (r, stripped) ↦ elim (Option-cases (requirement_name r)) [
    | inl missing ↦
        rw (package_name, package_name_on, npm_requirement_package, stripped, missing, and_then)
          refl
    | inr (q, found) ↦
        rw (package_name, package_name_on, npm_requirement_package, stripped, found, and_then)
          (package_name_on-enough (length s) (suc (length q)) q
            (omega (
              arith,
              length-requirement_name r q found,
              length-strip_prefix (text "npm:") (trim s) r stripped,
              length-trim s,
            ))
            (omega arith))
  ]
]
