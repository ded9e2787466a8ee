-- ===== src/Targets.antt =====
-- crates/orphanode/src/domain/target.rs: target profiles and their inheritance.
-- The set of names being visited and the map of resolved profiles, which the program changes in
-- place, are passed along.
pub mod Inherited
pub mod Complete
pub mod Fuel
pub mod Faults
pub mod Verdict
mod Samples
use orphanode.Common.{
  ℕ, zero, suc, Bool, true, false, not, Option, none, some, List, [], ◌∷◌, map, any, length,
  if◌then◌else◌,
}
use orphanode.Common.Order.{same, text_ord}
use orphanode.Common.Maps.{or_default, get, alter, set_insert}
use orphanode.Common.Result.{Result, ok, err, ◌>>=◌, ok_or}
use orphanode.Common.Text.{Text}

pub data WorldMode : Type 0 where
  open_mode closed_mode : WorldMode

pub record TargetProfile : Type 0 where
  pub name : Text
  pub conditions : List Text
  pub world : WorldMode

pub record TargetProfileDefinition : Type 0 where
  pub extends : Option Text
  pub conditions : List Text
  pub world : Option WorldMode

-- The errors of the source, and the end of the fuel.
pub data TargetProfileError : Type 0 where
  unknown_parent : Text → TargetProfileError
  cycle : Text → TargetProfileError
  out_of_fuel : TargetProfileError

abbrev pub Definitions : Type 0
Definitions = List (Text × TargetProfileDefinition)

pub record Resolution : Type 0 where
  pub visiting : List Text
  pub resolved : List (Text × TargetProfile)

abbrev pub Answer : Type 0
Answer = Result TargetProfileError (TargetProfile × Resolution)

-- `extend` of a set.
abbrev pub set_extend : List Text → List Text → List Text
set_extend xs [] = xs
set_extend xs (y ∷ ys) = set_extend (set_insert y xs) ys

-- `remove` of a set.
abbrev pub set_remove : Text → List Text → List Text
set_remove x [] = []
set_remove x (y ∷ ys) = let rest = set_remove x ys in if same x y then ys else y ∷ rest

abbrev pub contains : Text → List Text → Bool
contains x = any (λ y. same x y)

abbrev pub is_some : {A : Type 0} → Option A → Bool
is_some none = false
is_some (some _) = true

-- What is left to do once the parent, where there is one, is known.
unfoldable pub finish_profile :
    Text → TargetProfileDefinition → List Text → WorldMode → Resolution → Answer
finish_profile name d conditions world s =
    let profile : TargetProfile = record {
      name = name;
      conditions = set_extend conditions d.conditions;
      world = or_default world d.world;
    } in
    ok (
      profile,
      record {
        visiting = set_remove name s.visiting;
        resolved = alter name (λ found. profile) s.resolved;
      },
    )

module _ (definitions : Definitions) (default_world : WorldMode) where
  unfoldable pub resolve_profile : ℕ → Text → Resolution → Answer
  resolve_profile zero name s = err out_of_fuel
  resolve_profile (suc fuel) name s = elim (get s.resolved name) [
    | some profile ↦ ok (profile, s)
    | none ↦ elim (contains name s.visiting) [
      | true ↦ err (cycle name)
      | false ↦ elim (get definitions name) [
        | none ↦ err (unknown_parent name)
        | some d ↦
            let entered : Resolution = record {
              visiting = set_insert name s.visiting;
              resolved = s.resolved;
            } in
            elim d.extends [
              | none ↦ finish_profile name d [] default_world entered
              | some parent_name ↦ elim (is_some (get definitions parent_name)) [
                | false ↦ err (unknown_parent parent_name)
                | true ↦ resolve_profile fuel parent_name entered >>= λ (parent, t).
                    finish_profile name d parent.conditions parent.world t
              ]
            ]
      ]
    ]
  ]

  -- The loop over the names; each begins with an empty set of names being visited.
  unfoldable pub resolve_each :
      ℕ
      → List (Text × TargetProfileDefinition)
      → List (Text × TargetProfile)
      → Result TargetProfileError (List (Text × TargetProfile))
  resolve_each fuel [] resolved = ok resolved
  resolve_each fuel ((name, d) ∷ more) resolved =
      resolve_profile fuel name (record { visiting = []; resolved = resolved }) >>= λ (profile, t).
      resolve_each fuel more t.resolved

unfoldable pub resolve_target_profiles :
    Definitions → WorldMode → Result TargetProfileError (List TargetProfile)
resolve_target_profiles definitions default_world =
    resolve_each definitions default_world (suc (length definitions)) definitions [] >>= λ resolved.
    ok (map (λ (name, profile). profile) resolved)
