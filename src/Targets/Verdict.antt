-- ===== src/Targets/Verdict.antt =====
-- How the resolution of profiles ends.
use orphanode.Common.{suc, List, [], map, ◌≡◌, refl, ap, ◌∙◌, inl, inr, arith, All, length}
use orphanode.Common.Result.{Result, ok, err, ◌>>=◌}
use orphanode.Common.Text.{Text}
use orphanode.Targets.{
  WorldMode, TargetProfile, Definitions, resolve_each, resolve_target_profiles, TargetProfileError,
  unknown_parent, cycle,
}
use orphanode.Targets.Complete.{Has, resolve_each_complete}
use orphanode.Targets.Inherited.{Resolves, resolve_each_sound}
use orphanode.Targets.Fuel.{resolve_each_ends}
use orphanode.Targets.Faults.{
  Inherits, IsUnknownParent, Fault, orphaned, circular, resolve_each-Fault, IsMap, IsMap-get,
}

-- How the resolution of profiles ends.
pub data Verdict (definitions : Definitions) (default_world : WorldMode)
    : Result TargetProfileError (List TargetProfile) → Type 0 where
  all_resolved :
      (resolved : List (Text × TargetProfile))
      → All (λ (name, p). Resolves definitions default_world name p) resolved
      → All (λ (name, d). Has resolved name) definitions
      → Verdict definitions default_world (ok (map (λ (name, p). p) resolved))
  no_parent :
      (name : Text)
      → IsUnknownParent definitions name
      → Verdict definitions default_world (err (unknown_parent name))
  in_cycle :
      (name : Text)
      → Inherits definitions name name
      → Verdict definitions default_world (err (cycle name))

Fault-Verdict :
    (definitions : Definitions) (default_world : WorldMode) (e : TargetProfileError)
    → Fault definitions e
    → Verdict definitions default_world (err e)
Fault-Verdict definitions default_world _ (orphaned {name} h) = no_parent name h
Fault-Verdict definitions default_world _ (circular {name} h) = in_cycle name h

each-Verdict :
    (definitions : Definitions) (default_world : WorldMode)
    (result : Result TargetProfileError (List (Text × TargetProfile)))
    → IsMap definitions
    → resolve_each definitions default_world (suc (length definitions)) definitions [] ≡ result
    → Verdict definitions default_world (result >>= λ resolved. ok (map (λ (name, p). p) resolved))
each-Verdict definitions default_world (ok resolved) sorted e =
    all_resolved resolved
      (resolve_each_sound definitions default_world _ definitions [] resolved e tt)
      (resolve_each_complete definitions default_world _ definitions [] resolved e)
each-Verdict definitions default_world (err failure) sorted e =
    elim (resolve_each-Fault definitions default_world _ definitions [] failure
      (IsMap-get definitions sorted) e) [
        | inr fault ↦ Fault-Verdict definitions default_world failure fault
        | inl ended ↦ absurd (
            resolve_each_ends definitions default_world _ definitions [] (omega arith)
              (e ∙ ap err ended))
      ]

-- For definitions in the order of their names, each name once, the resolution ends in one of three
-- ways: with an unknown parent, a name without a definition that some definition extends; with a
-- cycle, a name that extends itself through one or more definitions; or with a profile for every
-- definition. Each profile has its own conditions added to those of the profile that it extends,
-- and its own world or else that one's; without a parent it starts from no conditions and the
-- default world.
pub resolve_target_profiles_lem :
    (definitions : Definitions) (default_world : WorldMode)
    → IsMap definitions
    → Verdict definitions default_world (resolve_target_profiles definitions default_world)
unfolding resolve_target_profiles
resolve_target_profiles_lem definitions default_world sorted =
    each-Verdict definitions default_world _ sorted refl
