-- ===== src/Targets/Complete.antt =====
-- Every definition gets a profile where the resolution succeeds.
use orphanode.Common.{
  ℕ, zero, suc, true, Option, List, [], ◌∷◌, ◌≡◌, refl, subst, inl, inr, arith, All, Bool-cases,
}
use orphanode.Common.Order.{same, same_iff, text_ord}
use orphanode.Common.Maps.{get, alter, get-alter, get-alter_other}
use orphanode.Common.Result.{ok, >>=-eq-ok}
use orphanode.Common.Text.{Text}
use orphanode.Targets.{
  WorldMode, TargetProfile, TargetProfileDefinition, Definitions, Resolution, is_some,
  finish_profile, resolve_profile, resolve_each,
}
use orphanode.Targets.Inherited.{extended, entered, resolve_profile_cases}

abbrev pub Has : List (Text × TargetProfile) → Text → Type 0
Has resolved name = is_some (get resolved name) ≡ true

finish_keeps :
    (k name : Text) (d : TargetProfileDefinition) (conditions : List Text) (world : WorldMode)
    (s t : Resolution) (p : TargetProfile)
    → finish_profile name d conditions world s ≡ ok (p, t)
    → Has t.resolved name × (Has s.resolved k → Has t.resolved k)
unfolding finish_profile
finish_keeps k name d conditions world s t p h =
    let f = λ (found : Option TargetProfile). extended name d conditions world in
    let made : alter name f s.resolved ≡ t.resolved = ground (arith, h) in
    subst (λ m. Has m name × (Has s.resolved k → Has m k)) made
      (
        rw (get-alter name f s.resolved) refl,
        λ kept. elim (Bool-cases (same name k)) [
          | inl eq ↦
              subst (Has (alter name f s.resolved)) ((same_iff name k).0 eq)
                (rw (get-alter name f s.resolved) refl)
          | inr ne ↦ rw (get-alter_other name k f s.resolved ne) kept
        ],
      )

module _ (definitions : Definitions) (default_world : WorldMode) where
  resolve_profile_keeps :
      (fuel : ℕ) (k name : Text) (s : Resolution) (p : TargetProfile) (t : Resolution)
      → resolve_profile definitions default_world fuel name s ≡ ok (p, t)
      → Has t.resolved name × (Has s.resolved k → Has t.resolved k)
  unfolding resolve_profile
  resolve_profile_keeps zero k name s p t h = cc
  resolve_profile_keeps (suc fuel) k name s p t h =
      elim (resolve_profile_cases definitions default_world fuel name s p t h) [
        | inl (found, e) ↦
            subst (λ u. Has u.resolved name × (Has s.resolved k → Has u.resolved k)) e
              (rw found refl, λ kept. kept)
        | inr (inl (d, defined, orphan, f)) ↦
            finish_keeps k name d [] default_world (entered definitions default_world name s) t p f
        | inr (inr (d, parent_name, parent, u, defined, child, e, f)) ↦
            let below =
              resolve_profile_keeps fuel k parent_name (entered definitions default_world name s)
                parent u e in
            let here = finish_keeps k name d parent.conditions parent.world u t p f in
            (here.0, λ kept. here.1 (below.1 kept))
      ]

  resolve_each_keeps :
      (fuel : ℕ) (k : Text) (more : Definitions) (resolved result : List (Text × TargetProfile))
      → resolve_each definitions default_world fuel more resolved ≡ ok result
      → Has resolved k
      → Has result k
  unfolding resolve_each
  resolve_each_keeps fuel k [] resolved result h kept =
      subst (λ m. Has m k) (ground (arith, h)) kept
  resolve_each_keeps fuel k ((name, d) ∷ more) resolved result h kept =
      let (r, e, f) = >>=-eq-ok _ _ h in
      resolve_each_keeps fuel k more r.1.resolved result f (
        (resolve_profile_keeps fuel k name (record { visiting = []; resolved = resolved }) r.0 r.1
            e).1
          kept)

  pub resolve_each_complete :
      (fuel : ℕ) (more : Definitions) (resolved result : List (Text × TargetProfile))
      → resolve_each definitions default_world fuel more resolved ≡ ok result
      → All (λ (name, d). Has result name) more
  unfolding resolve_each
  resolve_each_complete fuel [] resolved result h = tt
  resolve_each_complete fuel ((name, d) ∷ more) resolved result h =
      let (r, e, f) = >>=-eq-ok _ _ h in
      let made =
        (resolve_profile_keeps fuel name name (record { visiting = []; resolved = resolved }) r.0
          r.1 e).0 in
      (
        resolve_each_keeps fuel name more r.1.resolved result f made,
        resolve_each_complete fuel more r.1.resolved result f,
      )
