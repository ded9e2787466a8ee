-- ===== src/Dependencies/Blocking.antt =====
-- A blocker keeps the declarations it applies to from being reported as not used.
use mathlib.Core.List.Memᴰ
use orphanode.Common.{
  Bool, true, false, Option, none, some, List, [], ◌∷◌, ◌≡◌, refl, subst, inl, inr, arith, Memᴰ,
  Memᴰ-cons, Option-cases, is_nil, and_then,
}
use orphanode.Common.Order.{text_ord, leq, same_refl}
use orphanode.Common.Sorting.{sort, mem-dedup, mem-sort_by}
use orphanode.Common.Text.{Text}
use orphanode.Common.Maps.{get-none}
use orphanode.Dependencies.Names.{package_name, normalize_binary_name}
use orphanode.Dependencies.Facts.{
  DependencyBlocker, DependencyEvidence, binary, unmapped_ord, evidence_ord, Blocker,
  UnmappedBinary, DependencyAnalysisInput, DependencyOutcome, DependencyOutcomeKind, unused,
  unreferenced_peer, unreferenced_optional, blocker_ord,
}
use orphanode.Dependencies.Collect.{
  Blockers, blocked_package, blockers_from, push_blocker, sort_blockers, normalize_blockers,
  normalize_evidence,
}
use orphanode.Dependencies.Report.{
  declaration_outcome, applies, matching_reasons, matching_blockers, declared_outcome,
  block_unmapped, unmapped_reason, normalize_input, all_blockers, analyze_dependencies,
}
use orphanode.Dependencies.Grouping.{held, mem-push, unmapped_item, normalize_from_lists}
use orphanode.Dependencies.Undeclared.{outcome_of_lem}
use orphanode.Dependencies.Retention.{outcomes_from}

blockers_from_keeps :
    (w : Text) (a : Blocker) (more : List DependencyBlocker) (blockers : Blockers)
    → Memᴰ a (held blockers w)
    → Memᴰ a (held (blockers_from blockers more) w)
unfolding blockers_from push_blocker
blockers_from_keeps w a [] blockers h = h
blockers_from_keeps w a (b ∷ more) blockers h = elim (Option-cases (blocked_package b.pkg)) [
  | inl e ↦ rw (blockers_from, e) (blockers_from_keeps w a more blockers h)
  | inr (p, e) ↦
      rw (blockers_from, e)
        (blockers_from_keeps w a more (push_blocker b.workspace (p, b.reason) blockers)
          ((mem-push b.workspace w a (p, b.reason) blockers).1 (inl h)))
]

blockers_from_adds :
    (b : DependencyBlocker) (p : Option Text) (more : List DependencyBlocker) (blockers : Blockers)
    → Memᴰ b more
    → blocked_package b.pkg ≡ some p
    → Memᴰ {A = Blocker} (p, b.reason) (held (blockers_from blockers more) b.workspace)
unfolding blockers_from push_blocker
blockers_from_adds b p [] blockers m e = absurd (Memᴰ.not-nil m)
blockers_from_adds b p (x ∷ more) blockers m e = elim (Memᴰ.cases_cons m) [
  | inl eq ↦
      subst
        (λ y.
          Memᴰ {A = Blocker} (p, b.reason) (held (blockers_from blockers (y ∷ more)) b.workspace))
        eq
        (rw (blockers_from, e)
          (blockers_from_keeps b.workspace (p, b.reason) more
            (push_blocker b.workspace (p, b.reason) blockers)
            ((mem-push b.workspace b.workspace (p, b.reason) (p, b.reason) blockers).1
              (inr (refl, refl)))))
  | inr later ↦ elim (Option-cases (blocked_package x.pkg)) [
    | inl none_x ↦ rw (blockers_from, none_x) (blockers_from_adds b p more blockers later e)
    | inr (q, some_x) ↦
        rw (blockers_from, some_x)
          (blockers_from_adds b p more (push_blocker x.workspace (q, x.reason) blockers) later e)
  ]
]

-- Sorting and dropping repeats keeps the blockers of each workspace.
mem-sort_blockers :
    (w : Text) (a : Blocker) (blockers : Blockers)
    → Memᴰ a (held blockers w)
    → Memᴰ a (held (sort_blockers blockers) w)
unfolding sort_blockers
mem-sort_blockers w a [] h = h
mem-sort_blockers w a ((v, bs) ∷ blockers) h =
    ground (arith, mem-sort_blockers w a blockers, mem-dedup a (sort bs), mem-sort_by leq a bs)

block_unmapped_keeps :
    (w : Text) (a : Blocker) (us : List UnmappedBinary) (blockers : Blockers)
    → Memᴰ a (held blockers w)
    → Memᴰ a (held (block_unmapped us blockers) w)
unfolding block_unmapped push_blocker
block_unmapped_keeps w a [] blockers h = h
block_unmapped_keeps w a (u ∷ us) blockers h =
    block_unmapped_keeps w a us (push_blocker u.workspace (none, unmapped_reason u) blockers)
      ((mem-push u.workspace w a (none, unmapped_reason u) blockers).1 (inl h))

block_unmapped_adds :
    (u : UnmappedBinary) (us : List UnmappedBinary) (blockers : Blockers)
    → Memᴰ u us
    → Memᴰ {A = Blocker} (none, unmapped_reason u) (held (block_unmapped us blockers) u.workspace)
unfolding block_unmapped push_blocker
block_unmapped_adds u [] blockers m = absurd (Memᴰ.not-nil m)
block_unmapped_adds u (x ∷ us) blockers m = elim (Memᴰ.cases_cons m) [
  | inl eq ↦
      subst
        (λ y.
          Memᴰ {A = Blocker} (none, unmapped_reason u)
            (held (block_unmapped (y ∷ us) blockers) u.workspace))
        eq
        (block_unmapped_keeps u.workspace (none, unmapped_reason u) us _
          ((mem-push u.workspace u.workspace (none, unmapped_reason u) (none, unmapped_reason u)
              blockers).1
            (inr (refl, refl))))
  | inr later ↦
      block_unmapped_adds u us (push_blocker x.workspace (none, unmapped_reason x) blockers) later
]

matching_reasons_nonempty :
    (name : Text) (p : Option Text) (reason : Text) (bs : List Blocker)
    → Memᴰ {A = Blocker} (p, reason) bs
    → applies name p ≡ true
    → is_nil (matching_reasons name bs) ≡ false
unfolding matching_reasons
matching_reasons_nonempty name p reason [] m h = absurd (Memᴰ.not-nil m)
matching_reasons_nonempty name p reason ((q, other) ∷ bs) m h = ground (
  arith,
  Memᴰ-cons {A = Blocker} (p, reason) (q, other) bs,
  matching_reasons_nonempty name p reason bs,
)

-- Whether an outcome says that a declared package is not used.
abbrev pub claims_unused : DependencyOutcomeKind → Bool
claims_unused unused = true
claims_unused unreferenced_peer = true
claims_unused unreferenced_optional = true
claims_unused _ = false

-- A blocker without a package blocks all packages of its workspace, any other one the package that
-- its own normalises to.
abbrev pub Blocks : Option Text → Text → Type 0
Blocks none name = Unit
Blocks (some blocked) name = package_name blocked ≡ some name

blocked_package-Blocks :
    (b : Option Text) (name : Text)
    → Blocks b name
    → (p : Option Text) × (blocked_package b ≡ some p) × (applies name p ≡ true)
unfolding blocked_package
blocked_package-Blocks none name h = (none, refl, refl)
blocked_package-Blocks (some blocked) name h =
    (some name, rw (blocked_package, h, and_then) refl, same_refl name)

module _ (input : DependencyAnalysisInput) (o : DependencyOutcome) where
  blocked :
      (p : Option Text) (reason : Text)
      → Memᴰ o (analyze_dependencies input).outcomes
      → Memᴰ {A = Blocker} (p, reason) (held (all_blockers input) o.workspace)
      → applies o.pkg p ≡ true
      → claims_unused o.kind ≡ false
  unfolding declared_outcome declaration_outcome matching_blockers
  blocked p reason mo mb h = elim (outcomes_from input o mo) [
    | inl (w, name, d, _, eq) ↦
        let at : (w ≡ o.workspace) × (name ≡ o.pkg) = ground (arith, eq) in
        let some_reason : is_nil (matching_blockers (all_blockers input) w name) ≡ false =
          rw (at.0, at.1) (matching_reasons_nonempty o.pkg p reason _ mb h) in
        ground (arith, eq, some_reason)
    | inr (w, name, evidence, undeclared, eq) ↦
        ground (arith, eq, outcome_of_lem input.root_workspace _ w name evidence undeclared)
  ]

  -- A package is not reported as unused or unreferenced where a blocker of its workspace applies:
  -- one for the whole workspace, or one whose package normalises to it.
  pub blocker_withholds :
      (b : DependencyBlocker)
      → Memᴰ b input.blockers
      → Blocks b.pkg o.pkg
      → Memᴰ o (analyze_dependencies input).outcomes
      → o.workspace ≡ b.workspace
      → claims_unused o.kind ≡ false
  unfolding all_blockers normalize_blockers
  blocker_withholds b m h mo ew =
      let (p, e, applicable) = blocked_package-Blocks b.pkg o.pkg h in
      blocked p b.reason mo
        (rw ew (
          mem-sort_blockers b.workspace (p, b.reason) _
            (block_unmapped_keeps b.workspace (p, b.reason)
              (normalize_input input).unmapped_binaries _
              (mem-sort_blockers b.workspace (p, b.reason) _
                (blockers_from_adds b p input.blockers [] m e)))))
        applicable

  listed_binary_withholds :
      (u : UnmappedBinary)
      → Memᴰ u (normalize_input input).unmapped_binaries
      → Memᴰ o (analyze_dependencies input).outcomes
      → o.workspace ≡ u.workspace
      → claims_unused o.kind ≡ false
  unfolding all_blockers
  listed_binary_withholds u m mo ew =
      blocked none (unmapped_reason u) mo
        (rw ew (mem-sort_blockers u.workspace _ _ (block_unmapped_adds u _ _ m))) refl

-- Where reachable evidence runs a binary that no package is known to own, the report lists the
-- binary, and nothing that the workspace of the evidence declares is reported as unused or
-- unreferenced.
pub unmapped_binary_withholds :
    (input : DependencyAnalysisInput) (e : DependencyEvidence)
    → Memᴰ e input.evidence
    → e.reachable ≡ true
    → e.kind ≡ binary
    → ((owner : Text)
        → ¬ Memᴰ {A = Text × Text} (normalize_binary_name e.reference, owner) input.binary_owners)
    → Memᴰ (unmapped_item e) (analyze_dependencies input).unmapped_binaries
      × ((o : DependencyOutcome)
          → Memᴰ o (analyze_dependencies input).outcomes
          → o.workspace ≡ e.workspace
          → claims_unused o.kind ≡ false)
unfolding analyze_dependencies normalize_input normalize_evidence
unmapped_binary_withholds input e m r k unknown =
    let listed =
      normalize_from_lists _ _ _ e _ input.evidence m r (rw k refl)
        (get-none input.binary_owners (normalize_binary_name e.reference) unknown) in
    (listed, λ o mo ew. listed_binary_withholds input o (unmapped_item e) listed mo ew)
