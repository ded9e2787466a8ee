-- ===== src/Dependencies/Retention.antt =====
-- The outcomes of the report, and what evidence does to those of the declared packages.
use mathlib.Core.List.Memᴰ
use orphanode.Common.{
  true, false, List, [], ◌∷◌, ◌≡◌, refl, ap, subst, ◌⊎◌, inl, inr, Memᴰ, Bool-cases, is_nil,
  All-of-Memᴰ,
}
use orphanode.Common.Order.{text_ord, leq}
use orphanode.Common.Sorting.{mem-dedup, mem-sort_by}
use orphanode.Common.Text.{Text}
use orphanode.Dependencies.Facts.{
  DependencyEvidence, NormalizedDependencyEvidence, DependencyAnalysisInput, DependencyOutcome,
  retained, Declaration, names_ord, evidence_ord, unmapped_ord, blocker_ord,
}
use orphanode.Dependencies.Collect.{
  Declarations, Workspaces, Groups, Blockers, normalized_item, group_evidence, collect_declarations,
  collect_alias_targets, normalize_evidence, is_declared,
}
use orphanode.Dependencies.Report.{
  declaration_outcome, package_evidence, declared_outcome, workspace_outcomes, declared_outcomes,
  normalize_input, all_blockers, analyze_dependencies, outcome_leq,
}
use orphanode.Dependencies.Declared.{IsDeclaredIn}
use orphanode.Dependencies.Declared.Found.{collect_declarations_sound}
use orphanode.Dependencies.Undeclared.{outcome_of, undeclared_outcomes_from}
use orphanode.Dependencies.Grouping.{held, mem-group_from, Names, normalize_from_adds}

Memᴰ-is_nil : {A : Type 0} (a : A) (xs : List A) → Memᴰ a xs → is_nil xs ≡ false
Memᴰ-is_nil a [] m = absurd (Memᴰ.not-nil m)
Memᴰ-is_nil a (x ∷ xs) m = refl

module _ (groups : Groups) (blockers : Blockers) where
  workspace_outcomes_from :
      (o : DependencyOutcome) (w : Text) (ds : Declarations)
      → Memᴰ o (workspace_outcomes groups blockers w ds)
      → (name : Text) × (d : Declaration) × Memᴰ {A = Text × Declaration} (name, d) ds
        × (o ≡ declared_outcome groups blockers w name d)
  unfolding workspace_outcomes
  workspace_outcomes_from o w [] m = absurd (Memᴰ.not-nil m)
  workspace_outcomes_from o w ((name, d) ∷ ds) m = elim (Memᴰ.cases_cons m) [
    | inl eq ↦ (name, d, Memᴰ.head refl, eq)
    | inr later ↦
        let (n, e, i, eq) = workspace_outcomes_from o w ds later in (n, e, Memᴰ.tail i, eq)
  ]

  workspace_outcomes_adds :
      (w name : Text) (d : Declaration) (ds : Declarations)
      → Memᴰ {A = Text × Declaration} (name, d) ds
      → Memᴰ (declared_outcome groups blockers w name d) (workspace_outcomes groups blockers w ds)
  unfolding workspace_outcomes
  workspace_outcomes_adds w name d [] m = absurd (Memᴰ.not-nil m)
  workspace_outcomes_adds w name d (x ∷ ds) m = elim (Memᴰ.cases_cons m) [
    | inl eq ↦
        Memᴰ.head (ap (λ (y : Text × Declaration). declared_outcome groups blockers w y.0 y.1) eq)
    | inr later ↦ Memᴰ.tail (workspace_outcomes_adds w name d ds later)
  ]

  declared_outcomes_from :
      (o : DependencyOutcome) (ws : Workspaces)
      → Memᴰ o (declared_outcomes groups blockers ws)
      → (w : Text) × (ds : Declarations) × (name : Text) × (d : Declaration) × Memᴰ
          {A = Text × Declarations}
          (w, ds)
          ws
        × Memᴰ {A = Text × Declaration} (name, d) ds
        × (o ≡ declared_outcome groups blockers w name d)
  unfolding declared_outcomes
  declared_outcomes_from o [] m = absurd (Memᴰ.not-nil m)
  declared_outcomes_from o ((w, ds) ∷ ws) m = elim (Memᴰ.append_cases _ m) [
    | inl here ↦
        let (n, d, i, e) = workspace_outcomes_from o w ds here in
        (w, ds, n, d, Memᴰ.head refl, i, e)
    | inr later ↦
        let (v, es, n, d, i, j, e) = declared_outcomes_from o ws later in
        (v, es, n, d, Memᴰ.tail i, j, e)
  ]

  pub declared_outcomes_adds :
      (w name : Text) (d : Declaration) (ds : Declarations) (ws : Workspaces)
      → Memᴰ {A = Text × Declarations} (w, ds) ws
      → Memᴰ {A = Text × Declaration} (name, d) ds
      → Memᴰ (declared_outcome groups blockers w name d) (declared_outcomes groups blockers ws)
  unfolding declared_outcomes
  declared_outcomes_adds w name d ds [] m i = absurd (Memᴰ.not-nil m)
  declared_outcomes_adds w name d ds (x ∷ ws) m i = elim (Memᴰ.cases_cons m) [
    | inl eq ↦
        subst
          (λ (y : Text × Declarations).
            Memᴰ (declared_outcome groups blockers w name d)
              (declared_outcomes groups blockers (y ∷ ws)))
          eq (Memᴰ.append_left _ (workspace_outcomes_adds w name d ds i))
    | inr later ↦ Memᴰ.append_right _ (declared_outcomes_adds w name d ds ws later i)
  ]

  -- The evidence of a declared package keeps everything of its group.
  pub package_evidence_keeps :
      (a : NormalizedDependencyEvidence) (w name : Text) (d : Declaration)
      → Memᴰ a (held groups (w, name))
      → is_nil (package_evidence groups w name d) ≡ false
  unfolding package_evidence
  package_evidence_keeps a w name d m = Memᴰ-is_nil a _ (
      (mem-dedup a _).1 (
        (mem-sort_by leq a _).1
          (elim (Bool-cases d.bundled) [ inl b ↦ rw b (Memᴰ.append_left _ m) | inr b ↦ rw b m ])))

  pub declared_outcome-retained :
      (w name : Text) (d : Declaration)
      → is_nil (package_evidence groups w name d) ≡ false
      → (declared_outcome groups blockers w name d).kind ≡ retained
  unfolding declared_outcome declaration_outcome
  declared_outcome-retained w name d h = rw (declared_outcome, declaration_outcome, h) refl

abbrev pub groups_of : DependencyAnalysisInput → Groups
groups_of input = group_evidence (normalize_input input).normalized

-- Every outcome is that of a declaration, or that of a package which its workspace does not declare.
pub outcomes_from :
    (input : DependencyAnalysisInput) (o : DependencyOutcome)
    → Memᴰ o (analyze_dependencies input).outcomes
    → ((w : Text) × (name : Text) × (d : Declaration) × IsDeclaredIn input.manifests w name
        × (o ≡ declared_outcome (groups_of input) (all_blockers input) w name d))
      ⊎ ((w : Text) × (name : Text) × (evidence : List NormalizedDependencyEvidence) × (is_declared
              (collect_declarations input.manifests)
              w
              name
            ≡ false)
          × (o
              ≡ outcome_of input.root_workspace
                  (collect_declarations input.manifests)
                  w
                  name
                  evidence))
unfolding analyze_dependencies
outcomes_from input o m =
    let ws = collect_declarations input.manifests in
    elim (Memᴰ.append_cases
      (declared_outcomes (groups_of input) (all_blockers input)
        (collect_declarations input.manifests))
      ((mem-sort_by outcome_leq o _).0 m)) [
        | inl declared ↦
            let (w, ds, name, d, i, j, eq) =
              declared_outcomes_from (groups_of input) (all_blockers input) o _ declared in
            let is =
              All-of-Memᴰ _ _ (All-of-Memᴰ _ _ (collect_declarations_sound input.manifests) i) j in
            inl (w, name, d, is, eq)
        | inr undeclared ↦
            inr (undeclared_outcomes_from input.root_workspace _ o (groups_of input) undeclared)
      ]

-- Reachable evidence is in the group of its package.
pub evidence_held :
    (input : DependencyAnalysisInput) (e : DependencyEvidence) (name : Text)
    → Memᴰ e input.evidence
    → e.reachable ≡ true
    → Names input.binary_owners
        (collect_declarations input.manifests)
        (collect_alias_targets (collect_declarations input.manifests) [])
        e
        name
    → Memᴰ (normalized_item e name) (held (groups_of input) (e.workspace, name))
unfolding normalize_input normalize_evidence group_evidence
evidence_held input e name m r h =
    (mem-group_from (normalized_item e name) e.workspace name []
        (normalize_input input).normalized).1
      (inr (normalize_from_adds _ _ _ e name _ input.evidence m r h, refl, refl))
