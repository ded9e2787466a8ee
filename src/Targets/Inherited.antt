-- ===== src/Targets/Inherited.antt =====
-- What a resolved profile inherits from the profiles that it extends.
use orphanode.Common.{
  ℕ, zero, suc, none, some, List, [], ◌∷◌, ◌≡◌, sym, subst, ◌⊎◌, inl, inr, arith, All, Bool-cases,
  Option-cases,
}
use orphanode.Common.Order.{same, same_iff, text_ord}
use orphanode.Common.Maps.{or_default, get, alter, set_insert, All-alter}
use orphanode.Common.Result.{ok, ◌>>=◌, >>=-eq-ok}
use orphanode.Common.Text.{Text}
use orphanode.Targets.{
  WorldMode, TargetProfile, TargetProfileDefinition, Definitions, Resolution, set_extend,
  finish_profile, resolve_profile, resolve_each,
}

-- The profile of a definition over the conditions and the world that it starts from.
abbrev pub extended : Text → TargetProfileDefinition → List Text → WorldMode → TargetProfile
extended name d conditions world = record {
  name = name;
  conditions = set_extend conditions d.conditions;
  world = or_default world d.world;
}

module _ (definitions : Definitions) (default_world : WorldMode) where
  -- A profile without a parent starts from no conditions and the default world; any other starts
  -- from what its parent resolves to.
  pub data Resolves : Text → TargetProfile → Type 0 where
    top :
        (name : Text) (d : TargetProfileDefinition)
        → get definitions name ≡ some d
        → d.extends ≡ none
        → Resolves name (extended name d [] default_world)
    below :
        (name parent_name : Text) (d : TargetProfileDefinition) (parent : TargetProfile)
        → get definitions name ≡ some d
        → d.extends ≡ some parent_name
        → Resolves parent_name parent
        → Resolves name (extended name d parent.conditions parent.world)

  abbrev pub IsResolved : Text × TargetProfile → Type 0
  IsResolved (name, p) = Resolves name p

  get-All :
      (m : List (Text × TargetProfile)) (name : Text) (p : TargetProfile)
      → All IsResolved m
      → get m name ≡ some p
      → Resolves name p
  get-All [] name p h e = cc
  get-All ((j, q) ∷ m) name p h e = elim (Bool-cases (same name j)) [
    | inl eq ↦
        let found : q ≡ p = ground (arith, e, eq) in
        subst (λ n. Resolves n p) (sym ((same_iff name j).0 eq)) (subst (Resolves j) found h.0)
    | inr ne ↦ get-All m name p h.1 (ground (arith, e, ne))
  ]

  abbrev pub entered : Text → Resolution → Resolution
  entered name s = record { visiting = set_insert name s.visiting; resolved = s.resolved }

  -- How a call succeeds: by an earlier result, without a parent, or with one.
  pub resolve_profile_cases :
      (fuel : ℕ) (name : Text) (s : Resolution) (p : TargetProfile) (t : Resolution)
      → resolve_profile definitions default_world (suc fuel) name s ≡ ok (p, t)
      → ((get s.resolved name ≡ some p) × (s ≡ t))
        ⊎ (((d : TargetProfileDefinition) × (get definitions name ≡ some d)
              × (d.extends ≡ none)
              × (finish_profile name d [] default_world (entered name s) ≡ ok (p, t)))
            ⊎ ((d : TargetProfileDefinition) × (parent_name : Text) × (parent : TargetProfile)
                × (u : Resolution) × (get definitions name ≡ some d)
                × (d.extends ≡ some parent_name)
                × (resolve_profile definitions default_world fuel parent_name (entered name s)
                    ≡ ok (parent, u))
                × (finish_profile name d parent.conditions parent.world u ≡ ok (p, t))))
  unfolding resolve_profile
  resolve_profile_cases fuel name s p t h = elim (Option-cases (get s.resolved name)) [
    | inr (q, found) ↦ inl (ground (arith, h, found))
    | inl missing ↦ inr (elim (Option-cases (get definitions name)) [
      | inl undefined ↦ absurd (ground (arith, h, missing, undefined))
      | inr (d, defined) ↦ elim (Option-cases d.extends) [
        | inl orphan ↦ inl (d, defined, orphan, ground (arith, h, missing, defined, orphan))
        | inr (parent_name, child) ↦
            let chain : (resolve_profile definitions default_world fuel parent_name (entered name s)
                  >>= λ r. finish_profile name d r.0.conditions r.0.world r.1)
                ≡ ok (p, t) =
              ground (arith, h, missing, defined, child) in
            let (r, e, f) = >>=-eq-ok _ _ chain in
            inr (d, parent_name, r.0, r.1, defined, child, e, f)
      ]
    ])
  ]

  finish_lem :
      (name : Text) (d : TargetProfileDefinition) (conditions : List Text) (world : WorldMode)
      (s t : Resolution) (p : TargetProfile)
      → finish_profile name d conditions world s ≡ ok (p, t)
      → All IsResolved s.resolved
      → Resolves name (extended name d conditions world)
      → Resolves name p × All IsResolved t.resolved
  unfolding finish_profile
  finish_lem name d conditions world s t p h all r =
      let made : (extended name d conditions world ≡ p)
          × (alter name (λ found. extended name d conditions world) s.resolved ≡ t.resolved) =
        ground (arith, h) in
      (
        subst (Resolves name) made.0 r,
        subst (All IsResolved) made.1 (
            All-alter IsResolved name (λ found. extended name d conditions world) s.resolved all r
              (λ q old. r)),
      )

  -- Every successful call follows the definitions, and so do all the results that it leaves.
  pub resolve_profile_sound :
      (fuel : ℕ) (name : Text) (s : Resolution) (p : TargetProfile) (t : Resolution)
      → resolve_profile definitions default_world fuel name s ≡ ok (p, t)
      → All IsResolved s.resolved
      → Resolves name p × All IsResolved t.resolved
  unfolding resolve_profile
  resolve_profile_sound zero name s p t h all = cc
  resolve_profile_sound (suc fuel) name s p t h all =
      elim (resolve_profile_cases fuel name s p t h) [
        | inl (found, e) ↦
            (get-All s.resolved name p all found, subst (λ u. All IsResolved u.resolved) e all)
        | inr (inl (d, defined, orphan, f)) ↦
            finish_lem name d [] default_world (entered name s) t p f all
              (top name d defined orphan)
        | inr (inr (d, parent_name, parent, u, defined, child, e, f)) ↦
            let (r, all_u) =
              resolve_profile_sound fuel parent_name (entered name s) parent u e all in
            finish_lem name d parent.conditions parent.world u t p f all_u
              (below name parent_name d parent defined child r)
      ]

  pub resolve_each_sound :
      (fuel : ℕ) (more : Definitions) (resolved result : List (Text × TargetProfile))
      → resolve_each definitions default_world fuel more resolved ≡ ok result
      → All IsResolved resolved
      → All IsResolved result
  unfolding resolve_each
  resolve_each_sound fuel [] resolved result h all = subst (All IsResolved) (ground (arith, h)) all
  resolve_each_sound fuel ((name, d) ∷ more) resolved result h all =
      let (r, e, f) = >>=-eq-ok _ _ h in
      let (p, all_t) =
        resolve_profile_sound fuel name (record { visiting = []; resolved = resolved }) r.0 r.1 e
          all in
      resolve_each_sound fuel more r.1.resolved result f all_t
