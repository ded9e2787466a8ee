-- ===== src/Targets/Faults.antt =====
-- What an error of the resolution says of the definitions.
use orphanode.Common.{
  ℕ, zero, suc, true, false, none, some, List, [], ◌∷◌, map, ◌≡◌, refl, sym, subst, ◌⊎◌, inl, inr,
  arith, All, Bool-cases, Option-cases,
}
use orphanode.Common.Order.{leq, same, same_iff, same_refl, text_ord}
use orphanode.Common.Maps.{get}
use orphanode.Common.Result.{err, ◌>>=◌, >>=-eq-err}
use orphanode.Common.Sorting.{IsIncreasing}
use orphanode.Common.Text.{Text}
use orphanode.Targets.{
  WorldMode, TargetProfile, TargetProfileDefinition, Definitions, Resolution, contains,
  finish_profile, resolve_profile, resolve_each, TargetProfileError, unknown_parent, cycle,
  out_of_fuel,
}
use orphanode.Targets.Inherited.{entered}
use orphanode.Targets.Fuel.{contains-set_insert}

module _ (definitions : Definitions) where
  -- The definition of `name` extends `parent`.
  abbrev pub Extends : Text → Text → Type 0
  Extends name parent =
      (d : TargetProfileDefinition) × (get definitions name ≡ some d) × (d.extends ≡ some parent)

  -- `name` extends `ancestor`, through one or more definitions.
  pub data Inherits : Text → Text → Type 0 where
    parent : {name ancestor : Text} → Extends name ancestor → Inherits name ancestor
    through :
        {name middle ancestor : Text}
        → Inherits name middle
        → Extends middle ancestor
        → Inherits name ancestor

  -- A definition extends a name that has no definition.
  abbrev pub IsUnknownParent : Text → Type 0
  IsUnknownParent name = ((child : Text) × Extends child name) × (get definitions name ≡ none)

  -- The faults that the two errors of the program report.
  pub data Fault : TargetProfileError → Type 0 where
    orphaned : {name : Text} → IsUnknownParent name → Fault (unknown_parent name)
    circular : {name : Text} → Inherits name name → Fault (cycle name)

  -- The names being visited lead to the name that is resolved.
  abbrev Leading : Resolution → Text → Type 0
  Leading s name = (v : Text) → contains v s.visiting ≡ true → Inherits v name

  Leading-entered :
      (default_world : WorldMode) (name parent_name : Text) (s : Resolution)
      → Leading s name
      → Extends name parent_name
      → Leading (entered definitions default_world name s) parent_name
  Leading-entered default_world name parent_name s h e v c = elim (Bool-cases (same v name)) [
    | inl eq ↦ subst (λ n. Inherits n parent_name) (sym ((same_iff v name).0 eq)) (parent e)
    | inr ne ↦ through (h v (ground (arith, contains-set_insert v name s.visiting, c, ne))) e
  ]

  module _ (default_world : WorldMode) where
    -- An error of a call on a defined name is a fault, or the end of the fuel.
    resolve_profile-Fault :
        (fuel : ℕ) (name : Text) (d : TargetProfileDefinition) (s : Resolution)
        (e : TargetProfileError)
        → get definitions name ≡ some d
        → Leading s name
        → resolve_profile definitions default_world fuel name s ≡ err e
        → (e ≡ out_of_fuel) ⊎ Fault e
    unfolding resolve_profile finish_profile
    resolve_profile-Fault zero name d s e defined h run = inl (ground (arith, run))
    resolve_profile-Fault (suc fuel) name d s e defined h run =
        elim (Option-cases (get s.resolved name)) [
          | inr (p, found) ↦ absurd (ground (arith, run, found))
          | inl missing ↦ elim (Bool-cases (contains name s.visiting)) [
            | inl again ↦
                let is : cycle name ≡ e = ground (arith, run, missing, again) in
                inr (subst Fault is (circular (h name again)))
            | inr first_time ↦ elim (Option-cases d.extends) [
              | inl orphan ↦ absurd (ground (arith, run, missing, first_time, defined, orphan))
              | inr (parent_name, child) ↦ elim (Option-cases (get definitions parent_name)) [
                | inl unknown ↦
                    let is : unknown_parent parent_name ≡ e =
                      ground (arith, run, missing, first_time, defined, child, unknown) in
                    inr (subst Fault is (orphaned ((name, (d, defined, child)), unknown)))
                | inr (parent_d, known) ↦
                    let chain : (resolve_profile definitions default_world fuel parent_name
                            (entered definitions default_world name s)
                          >>= λ r. finish_profile name d r.0.conditions r.0.world r.1)
                        ≡ err e =
                      ground (arith, run, missing, first_time, defined, child, known) in
                    elim (>>=-eq-err
                      (resolve_profile definitions default_world fuel parent_name
                        (entered definitions default_world name s))
                      (λ r. finish_profile name d r.0.conditions r.0.world r.1) chain) [
                        | inl f ↦
                            resolve_profile-Fault fuel parent_name parent_d
                              (entered definitions default_world name s) e known
                              (Leading-entered default_world name parent_name s h
                                (d, defined, child))
                              f
                        | inr (r, ok_r, f) ↦ absurd (ground (arith, f))
                      ]
              ]
            ]
          ]
        ]

    pub resolve_each-Fault :
        (fuel : ℕ) (more : Definitions) (resolved : List (Text × TargetProfile))
        (e : TargetProfileError)
        → All (λ (name, d). get definitions name ≡ some d) more
        → resolve_each definitions default_world fuel more resolved ≡ err e
        → (e ≡ out_of_fuel) ⊎ Fault e
    unfolding resolve_each
    resolve_each-Fault fuel [] resolved e all run = cc
    resolve_each-Fault fuel ((name, d) ∷ more) resolved e all run =
        let start : Resolution = record { visiting = []; resolved = resolved } in
        elim (>>=-eq-err (resolve_profile definitions default_world fuel name start)
          (λ r. resolve_each definitions default_world fuel more r.1.resolved) run) [
            | inl f ↦ resolve_profile-Fault fuel name d start e all.0 (λ v c. cc) f
            | inr (r, ok_r, f) ↦ resolve_each-Fault fuel more r.1.resolved e all.1 f
          ]

-- The definitions stand in the order of their names, each name once.
abbrev pub IsMap : Definitions → Type 0
IsMap definitions = IsIncreasing (map (λ (x : Text × TargetProfileDefinition). x.0) definitions)

get_later :
    (k : Text) (c : TargetProfileDefinition) (ds more : Definitions)
    → All (λ y. leq y k ≡ false) (map (λ (x : Text × TargetProfileDefinition). x.0) more)
    → All (λ (name, d). get ds name ≡ some d) more
    → All (λ (name, d). get ((k, c) ∷ ds) name ≡ some d) more
get_later k c ds [] above found = tt
get_later k c ds ((name, d) ∷ more) above found = (
  ground (arith, above.0, found.0, same_iff name k, text_ord.total name k),
  get_later k c ds more above.1 found.1,
)

pub IsMap-get :
    (definitions : Definitions)
    → IsMap definitions
    → All (λ (name, d). get definitions name ≡ some d) definitions
IsMap-get [] h = tt
IsMap-get ((name, d) ∷ ds) h =
    (rw (same_refl name) refl, get_later name d ds ds h.0 (IsMap-get ds h.1))
