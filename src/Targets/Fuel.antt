-- ===== src/Targets/Fuel.antt =====
-- The resolution of profiles ends: a name being visited is never visited again.
use orphanode.Common.{
  ℕ, zero, suc, ◌≤◌, ◌<◌, false, ◌||◌, some, List, [], ◌∷◌, length, ◌≡◌, ◌≢◌, refl, inl, inr, arith,
  Bool-cases, Option-cases, if◌then◌else◌,
}
use orphanode.Common.Order.{same, same_iff, text_ord}
use orphanode.Common.Maps.{get, set_insert}
use orphanode.Common.Result.{err, ◌>>=◌, >>=-eq-err}
use orphanode.Common.Text.{Text}
use orphanode.Targets.{
  WorldMode, TargetProfile, TargetProfileDefinition, Definitions, Resolution, contains,
  finish_profile, resolve_profile, resolve_each, out_of_fuel,
}
use orphanode.Targets.Inherited.{entered}

-- The definitions that are not being visited.
abbrev unvisited : List Text → Definitions → ℕ
unvisited v [] = 0
unvisited v ((k, d) ∷ ds) = if contains k v then unvisited v ds else suc (unvisited v ds)

pub contains-set_insert :
    (k n : Text) (v : List Text) → contains k (set_insert n v) ≡ (same k n || contains k v)
contains-set_insert k n [] = refl
contains-set_insert k n (x ∷ v) =
    ground (arith, contains-set_insert k n v, same_iff n x, same_iff k n, same_iff k x)

unvisited-set_insert :
    (n : Text) (v : List Text) (ds : Definitions) → unvisited (set_insert n v) ds ≤ unvisited v ds
unvisited-set_insert n v [] = omega arith
unvisited-set_insert n v ((k, d) ∷ ds) =
    ground (arith, unvisited-set_insert n v ds, contains-set_insert k n v)

unvisited-lt :
    (n : Text) (v : List Text) (ds : Definitions) (d : TargetProfileDefinition)
    → get ds n ≡ some d
    → contains n v ≡ false
    → unvisited (set_insert n v) ds < unvisited v ds
unvisited-lt n v [] d e h = cc
unvisited-lt n v ((k, c) ∷ ds) d e h = ground (
  arith,
  unvisited-lt n v ds d,
  unvisited-set_insert n v ds,
  contains-set_insert k n v,
  same_iff n k,
  same_iff k n,
)

unvisited-none : (ds : Definitions) → unvisited [] ds ≡ length ds
unvisited-none [] = refl
unvisited-none (x ∷ ds) = omega (arith, unvisited-none ds)

module _ (definitions : Definitions) (default_world : WorldMode) where
  resolve_profile_ends :
      (fuel : ℕ) (name : Text) (s : Resolution)
      → unvisited s.visiting definitions < fuel
      → resolve_profile definitions default_world fuel name s ≢ err out_of_fuel
  unfolding resolve_profile finish_profile
  resolve_profile_ends zero name s h e = absurd (omega (arith, h))
  resolve_profile_ends (suc fuel) name s h e = elim (Option-cases (get definitions name)) [
    | inl undefined ↦ ground (arith, e, undefined)
    | inr (d, defined) ↦ elim (Bool-cases (contains name s.visiting)) [
      | inl again ↦ ground (arith, e, again)
      | inr first_time ↦ elim (Option-cases d.extends) [
        | inl orphan ↦ ground (arith, e, defined, orphan)
        | inr (parent_name, child) ↦
            let chain : (resolve_profile definitions default_world fuel parent_name
                    (entered definitions default_world name s)
                  >>= λ r. finish_profile name d r.0.conditions r.0.world r.1)
                ≡ err out_of_fuel =
              ground (arith, e, defined, child) in
            elim (>>=-eq-err
              (resolve_profile definitions default_world fuel parent_name
                (entered definitions default_world name s))
              (λ r. finish_profile name d r.0.conditions r.0.world r.1) chain) [
                | inl f ↦
                    resolve_profile_ends fuel parent_name (entered definitions default_world name s)
                      (omega
                        (arith, h, unvisited-lt name s.visiting definitions d defined first_time))
                      f
                | inr (r, ok_r, f) ↦ ground (arith, f)
              ]
      ]
    ]
  ]

  pub resolve_each_ends :
      (fuel : ℕ) (more : Definitions) (resolved : List (Text × TargetProfile))
      → length definitions < fuel
      → resolve_each definitions default_world fuel more resolved ≢ err out_of_fuel
  unfolding resolve_each
  resolve_each_ends fuel [] resolved h e = cc
  resolve_each_ends fuel ((name, d) ∷ more) resolved h e =
      let start : Resolution = record { visiting = []; resolved = resolved } in
      elim (>>=-eq-err (resolve_profile definitions default_world fuel name start)
        (λ r. resolve_each definitions default_world fuel more r.1.resolved) e) [
          | inl f ↦
              resolve_profile_ends fuel name start (omega (arith, h, unvisited-none definitions)) f
          | inr (r, ok_r, f) ↦ resolve_each_ends fuel more r.1.resolved h f
        ]
