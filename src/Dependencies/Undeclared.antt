-- ===== src/Dependencies/Undeclared.antt =====
-- What the report says of the used packages that their workspace does not declare.
use mathlib.Core.List.Memᴰ
use orphanode.Common.{
  true, false, List, [], ◌∷◌, ◌≡◌, refl, sym, subst, ◌⊎◌, inl, inr, arith, Memᴰ, Bool-cases,
  Option-cases,
}
use orphanode.Common.Order.{same, same_iff, same_refl, text_ord}
use orphanode.Common.Text.{Text}
use orphanode.Dependencies.Facts.{
  NormalizedDependencyEvidence, DependencyOutcome, unlisted, misplaced, names_ord,
}
use orphanode.Dependencies.Collect.{Workspaces, Groups, is_some, is_declared}
use orphanode.Dependencies.Report.{root_declaration, undeclared_outcome, undeclared_outcomes}

module _ (root : Text) (ws : Workspaces) where
  -- The outcome of a group whose package its workspace does not declare.
  abbrev pub outcome_of : Text → Text → List NormalizedDependencyEvidence → DependencyOutcome
  outcome_of w name evidence =
      undeclared_outcome root w name evidence (root_declaration root ws w name)

  -- Each of these outcomes is that of a group whose package is not declared.
  pub undeclared_outcomes_from :
      (o : DependencyOutcome) (groups : Groups)
      → Memᴰ o (undeclared_outcomes root ws groups)
      → (w : Text) × (name : Text) × (evidence : List NormalizedDependencyEvidence) × (is_declared
            ws w name
          ≡ false)
        × (o ≡ outcome_of w name evidence)
  unfolding undeclared_outcomes
  undeclared_outcomes_from o [] m = absurd (Memᴰ.not-nil m)
  undeclared_outcomes_from o (((w, name), evidence) ∷ groups) m =
      elim (Bool-cases (is_declared ws w name)) [
        | inl declared ↦ undeclared_outcomes_from o groups (ground (arith, m, declared))
        | inr not_declared ↦
            elim (Memᴰ.cases_cons
              (subst (λ xs. Memᴰ o xs) (rw (undeclared_outcomes, not_declared) refl) m)) [
                | inl eq ↦ (w, name, evidence, not_declared, eq)
                | inr later ↦ undeclared_outcomes_from o groups later
              ]
      ]

  -- Every such group has its outcome.
  pub undeclared_outcomes_adds :
      (w name : Text) (evidence : List NormalizedDependencyEvidence) (groups : Groups)
      → is_declared ws w name ≡ false
      → Memᴰ {A = (Text × Text) × List NormalizedDependencyEvidence} ((w, name), evidence) groups
      → Memᴰ (outcome_of w name evidence) (undeclared_outcomes root ws groups)
  unfolding undeclared_outcomes
  undeclared_outcomes_adds w name evidence [] h m = absurd (Memᴰ.not-nil m)
  undeclared_outcomes_adds w name evidence (((v, n), more) ∷ groups) h m =
      elim (Memᴰ.cases_cons m) [
        | inl eq ↦
            subst
              (λ (g : (Text × Text) × List NormalizedDependencyEvidence).
                Memᴰ (outcome_of w name evidence) (undeclared_outcomes root ws (g ∷ groups)))
              eq (rw (undeclared_outcomes, h) (Memᴰ.head refl))
        | inr later ↦
            let rest = undeclared_outcomes_adds w name evidence groups h later in
            elim (Bool-cases (is_declared ws v n)) [
              | inl declared ↦ rw (undeclared_outcomes, declared) rest
              | inr not_declared ↦ rw (undeclared_outcomes, not_declared) (Memᴰ.tail rest)
            ]
      ]

  -- Where a workspace does not declare a package, the root declaration tells whether the root does.
  is_some-root_declaration :
      (w name : Text)
      → is_declared ws w name ≡ false
      → is_some (root_declaration root ws w name) ≡ is_declared ws root name
  unfolding root_declaration is_declared
  is_some-root_declaration w name h = elim (Bool-cases (same w root)) [
    | inl eq ↦
        subst (λ r. is_some (root_declaration r ws w name) ≡ is_declared ws r name)
          ((same_iff w root).0 eq) (rw (root_declaration, same_refl w) (sym h))
    | inr ne ↦ rw (root_declaration, ne) refl
  ]

  -- The outcome is for its package, and says whether the root workspace declares it.
  pub outcome_of_lem :
      (w name : Text) (evidence : List NormalizedDependencyEvidence)
      → is_declared ws w name ≡ false
      → let o = outcome_of w name evidence in
        (o.workspace ≡ w)
        × (o.pkg ≡ name)
        × (((is_declared ws root name ≡ true) × (o.kind ≡ misplaced))
            ⊎ ((is_declared ws root name ≡ false) × (o.kind ≡ unlisted)))
  unfolding undeclared_outcome
  outcome_of_lem w name evidence h = elim (Option-cases (root_declaration root ws w name)) [
    | inl e ↦
        let r = is_some-root_declaration w name h in
        rw (undeclared_outcome, e) (refl, refl, inr (ground (arith, r, e), refl))
    | inr (d, e) ↦
        let r = is_some-root_declaration w name h in
        rw (undeclared_outcome, e) (refl, refl, inl (ground (arith, r, e), refl))
  ]
