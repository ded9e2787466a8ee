-- ===== src/Dependencies/Bare.antt =====
-- Which package a specifier without the prefix `npm:` names.
use orphanode.Common.{
  ℕ, Bool, true, false, Option, none, some, [], ◌∷◌, ◌++◌, ◌≡◌, ◌≢◌, refl, ap, subst, ◌⊎◌, inl, inr,
  ◌↔◌, arith, Memᴰ, and_then, Bool-cases, if◌then◌else◌, ◌==◌,
}
use orphanode.Common.Order.{text_ord}
use orphanode.Common.Text.{Text, text, split, starts_with, contains_char}
use orphanode.Dependencies.Names.{
  contains_text, node_builtins, is_node_builtin, scoped_name, plain_name, is_foreign, bare_package,
}
use orphanode.Dependencies.Parts.{
  HasNoSlash, IsUnreserved, Leads, contains_text_iff, contains_char_iff, any-same_iff,
  starts_with-Leads, All-starts_with,
}
use orphanode.Dependencies.Named.{IsPlain, IsScoped, is_empty_iff, plain_name_iff, scoped_name_iff}

-- The trimmed specifier names the package: it is the name of the package, or the name with a slash
-- and a path behind it; it has no backslash and no `://`; and the name is not that of a built-in.
abbrev pub IsBare : Text → Text → Type 0
IsBare t p =
    (IsPlain p ⊎ IsScoped p)
    × Leads p t
    × (¬ Memᴰ p node_builtins)
    × (¬ Memᴰ 92 t)
    × (¬ ((a : Text) × (b : Text) × (t ≡ a ++ (text "://" ++ b))))

is_foreign_iff :
    (t : Text)
    → (is_foreign t ≡ false) ↔ (
        (t ≢ [])
        × (starts_with (text ".") t ≡ false)
        × (starts_with (text "/") t ≡ false)
        × (starts_with (text "#") t ≡ false)
        × (starts_with (text "node:") t ≡ false)
        × (contains_char 92 t ≡ false)
        × (contains_text (text "://") t ≡ false))
unfolding is_foreign
is_foreign_iff t = ground (arith, is_empty_iff t)

false_iff {ℓ} : {P : Type ℓ} (b : Bool) → ((b ≡ true) ↔ P) → (b ≡ false) ↔ (¬ P)
false_iff true h = (λ e. cc, λ n. absurd (n (h.0 refl)))
false_iff false h = (λ _ p. let e = h.1 p in cc, λ _. refl)

is_node_builtin_iff : (p : Text) → (is_node_builtin p ≡ false) ↔ (¬ Memᴰ p node_builtins)
unfolding is_node_builtin
is_node_builtin_iff p = false_iff (is_node_builtin p) (any-same_iff p node_builtins)

-- What a text leads begins with its first character.
Leads-first : (c : ℕ) (u p : Text) → p ≢ [] → Leads p (c ∷ u) → (q : Text) × (p ≡ c ∷ q)
Leads-first c u [] h l = absurd (h refl)
Leads-first c u (d ∷ q) h l = (q, ground (arith, l))

abbrev read_name : Text → Option Text
read_name t = if starts_with (text "@") t then scoped_name (split 47 t) else plain_name (split 47 t)

read_name_iff :
    (t p : Text)
    → t ≢ []
    → starts_with (text ".") t ≡ false
    → (read_name t ≡ some p) ↔ ((IsPlain p ⊎ IsScoped p) × Leads p t)
read_name_iff [] p some_t h = absurd (some_t refl)
read_name_iff (c ∷ u) p some_t h = elim (Bool-cases (64 == c)) [
  | inl at ↦
      let is : 64 ≡ c = ground (arith, at) in
      subst (λ d. (read_name (d ∷ u) ≡ some p) ↔ ((IsPlain p ⊎ IsScoped p) × Leads p (d ∷ u))) is
        (
          λ e. let (scoped, leads) = (scoped_name_iff u p).0 e in (inr scoped, leads),
          λ (named, leads). elim named [
            | inl plain ↦
                let (q, begins) = Leads-first 64 u p plain.0.0 leads in
                absurd ((subst IsUnreserved begins plain.0.2).0.0 refl)
            | inr scoped ↦ (scoped_name_iff u p).1 (scoped, leads)
          ],
        )
  | inr other ↦
      rw (read_name, other)
        (
          λ e.
              let (part, leads) = (plain_name_iff (c ∷ u) p).0 e in
              let dotless : (q : Text) → p ≢ 46 ∷ q = λ q is.
                let begins : Leads (46 ∷ q) (c ∷ u) = subst (λ y. Leads y (c ∷ u)) is leads in
                ground (arith, begins, h) in
              (inl (part, dotless), leads),
          λ (named, leads). elim named [
            | inl plain ↦ (plain_name_iff (c ∷ u) p).1 (plain.0, leads)
            | inr (a, b, pa, pb, is) ↦ absurd (ground (arith, is, leads, other))
          ],
        )
]

not_builtin_iff :
    (found : Option Text) (p : Text)
    → (and_then found (λ pkg. if is_node_builtin pkg then none else some pkg) ≡ some p)
      ↔ ((found ≡ some p) × (is_node_builtin p ≡ false))
not_builtin_iff none p = (λ h. cc, λ (h, _). cc)
not_builtin_iff (some a) p = elim (Bool-cases (is_node_builtin a)) [
  | inl builtin ↦ rw builtin (
    λ h. cc,
    λ (h, free).
        let same_name : a ≡ p = ground (arith, h) in
        let taken = subst (λ y. is_node_builtin y ≡ true) same_name builtin in
        absurd (ground (arith, taken, free)),
  )
  | inr free ↦ rw free (
    λ h.
        let same_name : a ≡ p = ground (arith, h) in
        (h, subst (λ y. is_node_builtin y ≡ false) same_name free),
    λ (h, _). h,
  )
]

bare_package_cases :
    (t p : Text)
    → (bare_package t ≡ some p)
      ↔ ((is_foreign t ≡ false) × (read_name t ≡ some p) × (is_node_builtin p ≡ false))
unfolding bare_package
bare_package_cases t p = elim (Bool-cases (is_foreign t)) [
  | inl foreign ↦ rw (bare_package, foreign) (λ e. cc, λ (e, _, _). cc)
  | inr local ↦
      let (there, back) = not_builtin_iff (read_name t) p in
      rw (bare_package, local)
        (
          λ e. let (read, free) = there e in (refl, read, free),
          λ (_, read, free). back (read, free),
        )
]

-- A named package has a first character, which is not one of those that begin a foreign specifier.
named_first :
    (p : Text)
    → IsPlain p ⊎ IsScoped p
    → (c : ℕ) × (q : Text) × (p ≡ c ∷ q) × (c ≢ 46) × (c ≢ 47) × (c ≢ 35)
named_first [] (inl plain) = absurd (plain.0.0 refl)
named_first [] (inr (a, b, pa, pb, is)) = cc
named_first (c ∷ q) (inl plain) =
    (c, q, refl, λ is. plain.1 q (ap (λ d. d ∷ q) is), plain.0.1.0, plain.0.2.0.3)
named_first (c ∷ q) (inr (a, b, pa, pb, is)) =
    (c, q, refl, ground (arith, is), ground (arith, is), ground (arith, is))

begins_local :
    (c : ℕ) (q t : Text)
    → c ≢ 46
    → c ≢ 47
    → c ≢ 35
    → Leads (c ∷ q) t
    → (t ≢ [])
      × (starts_with (text ".") t ≡ false)
      × (starts_with (text "/") t ≡ false)
      × (starts_with (text "#") t ≡ false)
begins_local c q [] dot slash hash leads = absurd (ground (arith, leads))
begins_local c q (d ∷ u) dot slash hash leads =
    let is : d ≡ c = ground (arith, leads) in
    (λ e. cc, ground (arith, is, dot), ground (arith, is, slash), ground (arith, is, hash))

-- What names a package does not begin with a text without a slash that has a reserved character.
reserved_prefix :
    (x : ℕ) (q p t : Text)
    → x ≢ 64
    → HasNoSlash (x ∷ q)
    → (¬ IsUnreserved (x ∷ q))
    → IsPlain p ⊎ IsScoped p
    → Leads p t
    → starts_with (x ∷ q) t ≡ false
reserved_prefix x q p t no_at slashless reserved named leads =
    elim (Bool-cases (starts_with (x ∷ q) t)) [
      | inr e ↦ e
      | inl e ↦
          let begins = starts_with-Leads (x ∷ q) p t slashless e leads in
          elim named [
            | inl plain ↦ absurd (reserved (All-starts_with _ (x ∷ q) p begins plain.0.2))
            | inr (a, b, pa, pb, is) ↦ absurd (ground (arith, begins, is, no_at))
          ]
    ]

node_prefix :
    (p t : Text) → IsPlain p ⊎ IsScoped p → Leads p t → starts_with (text "node:") t ≡ false
node_prefix p t =
    reserved_prefix 110 (text "ode:") p t (ground arith) (ground arith) (λ h. h.1.1.1.1.0.1 refl)

pub npm_prefix : (t p : Text) → IsBare t p → starts_with (text "npm:") t ≡ false
npm_prefix t p h =
    reserved_prefix 110 (text "pm:") p t (ground arith) (ground arith) (λ h. h.1.1.1.0.1 refl) h.0
      h.1

pub bare_package_iff : (t p : Text) → (bare_package t ≡ some p) ↔ IsBare t p
bare_package_iff t p = (
  λ h.
      let (local, read, free) = (bare_package_cases t p).0 h in
      let f = (is_foreign_iff t).0 local in
      let (named, leads) = (read_name_iff t p f.0 f.1).0 read in
      (
        named,
        leads,
        (is_node_builtin_iff p).0 free,
        (false_iff _ (contains_char_iff 92 t)).0 f.5,
        (false_iff _ (contains_text_iff (text "://") t)).0 f.6,
      ),
  λ (named, leads, free, slash, scheme).
      let (c, q, is, dot, bar, hash) = named_first p named in
      let begins = begins_local c q t dot bar hash (subst (λ y. Leads y t) is leads) in
      (bare_package_cases t p).1 (
        (is_foreign_iff t).1 (
          begins.0,
          begins.1,
          begins.2,
          begins.3,
          node_prefix p t named leads,
          (false_iff _ (contains_char_iff 92 t)).1 slash,
          (false_iff _ (contains_text_iff (text "://") t)).1 scheme,
        ),
        (read_name_iff t p begins.0 begins.1).1 (named, leads),
        (is_node_builtin_iff p).1 free,
      ),
)
