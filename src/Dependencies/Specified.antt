-- ===== src/Dependencies/Specified.antt =====
-- The package that `package_name` finds in a specifier.
use orphanode.Common.{
  ℕ, zero, suc, false, none, some, [], ◌∷◌, ◌++◌, ◌≡◌, refl, inl, inr, ◌↔◌, arith, and_then,
  Option-cases, length, and_then-eq-some,
}
use orphanode.Common.Text.{Text, text, trim, strip_prefix, starts_with}
use orphanode.Dependencies.Names.{
  package_name, package_name_on, bare_package, requirement_name, npm_requirement_package,
}
use orphanode.Dependencies.Bare.{IsBare, bare_package_iff, npm_prefix}
use orphanode.Dependencies.Requirement.{IsRequirement, requirement_name_iff}
use orphanode.Dependencies.Specifiers.{package_name-equation}

-- A specifier stands for a package: it names the package, or it is an alias, `npm:` in front of a
-- requirement whose name stands for the package.
pub data Specifies : Text → Text → Type 0 where
  bare : {s p : Text} → IsBare (trim s) p → Specifies s p
  alias :
      {s p : Text} (r q : Text)
      → trim s ≡ text "npm:" ++ r
      → IsRequirement (trim r) q
      → Specifies q p
      → Specifies s p

strip_prefix_iff : (p s r : Text) → (strip_prefix p s ≡ some r) ↔ (s ≡ p ++ r)
strip_prefix_iff [] s r = ground arith
strip_prefix_iff (x ∷ p) [] r = (λ h. cc, λ h. cc)
strip_prefix_iff (x ∷ p) (c ∷ s) r = ground (arith, strip_prefix_iff p s r)

strip_prefix-none : (p s : Text) → starts_with p s ≡ false → strip_prefix p s ≡ none
strip_prefix-none [] s h = cc
strip_prefix-none (x ∷ p) [] h = refl
strip_prefix-none (x ∷ p) (c ∷ s) h = ground (arith, h, strip_prefix-none p s)

package_name_on-Specifies :
    (fuel : ℕ) (s p : Text) → package_name_on fuel s ≡ some p → Specifies s p
unfolding package_name_on
package_name_on-Specifies zero s p h = cc
package_name_on-Specifies (suc fuel) s p h =
    elim (Option-cases (strip_prefix (text "npm:") (trim s))) [
      | inl plain ↦
          let found : bare_package (trim s) ≡ some p = ground (arith, h, plain) in
          bare ((bare_package_iff (trim s) p).0 found)
      | inr (r, stripped) ↦
          let found : and_then (requirement_name r) (package_name_on fuel) ≡ some p =
            ground (arith, h, stripped) in
          let (q, names, inner) =
            and_then-eq-some (requirement_name r) (package_name_on fuel) found in
          alias r q ((strip_prefix_iff (text "npm:") (trim s) r).0 stripped)
            ((requirement_name_iff r q).0 names) (package_name_on-Specifies fuel q p inner)
    ]

package_name_of : (s p : Text) → Specifies s p → package_name s ≡ some p
unfolding npm_requirement_package
package_name_of s p (bare h) =
    let absent = strip_prefix-none (text "npm:") (trim s) (npm_prefix (trim s) p h) in
    rw (package_name-equation s, absent) ((bare_package_iff (trim s) p).1 h)
package_name_of s p (alias r q at names h) =
    let inner = package_name_of q p h in
    let stripped = (strip_prefix_iff (text "npm:") (trim s) r).1 at in
    let found = (requirement_name_iff r q).1 names in
    rw (package_name-equation s, stripped, npm_requirement_package, found, and_then) inner

-- `package_name` finds a package in a specifier exactly when the specifier stands for it. It does so
-- in two ways. Trimmed, it is the name of the package, or the name with a slash and a path behind
-- it; it has no backslash and no `://`; and the name is not that of a Node built-in, and is a plain
-- name without a dot in front or `@`, a scope, a slash and a name, where a name and a scope are not
-- empty and have no slash, `@`, `:`, `?` or `#`. Or, trimmed, it is `npm:` in front of a requirement,
-- which, trimmed, is a text that stands for the package, alone or with `@` and a version behind it;
-- that text is not empty and has no `@`, or is `@`, a text without a slash, a slash and a text
-- without `@`.
pub package_name_lem : (s p : Text) → (package_name s ≡ some p) ↔ Specifies s p
unfolding package_name
package_name_lem s p = (package_name_on-Specifies (suc (length s)) s p, package_name_of s p)
