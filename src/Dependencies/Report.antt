-- ===== src/Dependencies/Report.antt =====
-- crates/orphanode/src/analysis/dependencies.rs: the outcome of each declaration and of each used
-- package without one.
use orphanode.Common.{
  Bool, true, not, Option, none, some, List, [], ◌∷◌, ◌++◌, and_then, if◌then◌else◌, is_nil, any,
}
use orphanode.Common.Order.{same, text_ord, pair_ord}
use orphanode.Common.Sorting.{sort, sort_by, dedup}
use orphanode.Common.Maps.{or_default, get}
use orphanode.Common.Text.{Text, text}
use orphanode.Dependencies.Facts.{
  DependencyCategory, peer, optional, Declaration, DependencyAnalysisInput, DependencyAnalysis,
  DependencyOutcome, DependencyOutcomeKind, retained, unused, unreferenced_peer,
  unreferenced_optional, unlisted, misplaced, undetermined, DependencyConfidence, not_applicable,
  medium, high, NormalizedDependencyEvidence, UnmappedBinary, bundled_dependency, runtime_scope,
  Blocker, category_ord, names_ord, evidence_ord, outcome_kind_ord,
}
use orphanode.Dependencies.Collect.{
  Declarations, Workspaces, Groups, Blockers, Normalization, is_declared, collect_declarations,
  collect_alias_targets, normalize_evidence, group_evidence, push_blocker, normalize_blockers,
  sort_blockers,
}

abbrev pub contains : DependencyCategory → List DependencyCategory → Bool
contains c = any (λ d. same d c)

unfoldable pub declaration_outcome :
    Declaration
    → List NormalizedDependencyEvidence
    → List Text
    → DependencyOutcomeKind × DependencyConfidence
declaration_outcome d evidence blockers =
    if not (is_nil evidence)
    then (retained, not_applicable)
    else if not (is_nil blockers)
    then (undetermined, not_applicable)
    else if contains peer d.categories
    then (unreferenced_peer, medium)
    else if contains optional d.categories
    then (unreferenced_optional, medium)
    else (unused, high)

abbrev pub applies : Text → Option Text → Bool
applies name none = true
applies name (some blocked) = same blocked name

-- The filter and the map of `matching_blockers`.
unfoldable pub matching_reasons : Text → List Blocker → List Text
matching_reasons name [] = []
matching_reasons name ((blocked, reason) ∷ more) =
    let rest = matching_reasons name more in if applies name blocked then reason ∷ rest else rest

unfoldable pub matching_blockers : Blockers → Text → Text → List Text
matching_blockers blockers workspace name =
    matching_reasons name (or_default [] (get blockers workspace))

abbrev pub bundled_evidence : Text → Text → NormalizedDependencyEvidence
bundled_evidence workspace name = record {
  workspace = workspace;
  pkg = name;
  kind = bundled_dependency;
  scope = runtime_scope;
  source = text "package.json bundled dependencies";
}

-- The evidence of a declared package.
unfoldable pub package_evidence :
    Groups → Text → Text → Declaration → List NormalizedDependencyEvidence
package_evidence groups workspace name d =
    let grouped = or_default [] (get groups (workspace, name)) in
    dedup (sort (if d.bundled then grouped ++ bundled_evidence workspace name ∷ [] else grouped))

-- The body of the loops over the declarations.
unfoldable pub declared_outcome : Groups → Blockers → Text → Text → Declaration → DependencyOutcome
declared_outcome groups blockers workspace name d =
    let evidence = package_evidence groups workspace name d in
    let reasons = matching_blockers blockers workspace name in
    let (kind, confidence) = declaration_outcome d evidence reasons in
    record {
      workspace = workspace;
      pkg = name;
      declared_workspace = some workspace;
      categories = d.categories;
      kind = kind;
      confidence = confidence;
      evidence = evidence;
      blockers = reasons;
    }

unfoldable pub workspace_outcomes : Groups → Blockers → Text → Declarations → List DependencyOutcome
workspace_outcomes groups blockers workspace [] = []
workspace_outcomes groups blockers workspace ((name, d) ∷ more) =
    declared_outcome groups blockers workspace name d
    ∷ workspace_outcomes groups blockers workspace more

unfoldable pub declared_outcomes : Groups → Blockers → Workspaces → List DependencyOutcome
declared_outcomes groups blockers [] = []
declared_outcomes groups blockers ((workspace, declarations) ∷ more) =
    workspace_outcomes groups blockers workspace declarations
    ++ declared_outcomes groups blockers more

-- The declaration in the root workspace of a package that another workspace uses.
unfoldable pub root_declaration : Text → Workspaces → Text → Text → Option Declaration
root_declaration root workspaces workspace name =
    if same workspace root
    then none
    else and_then (get workspaces root) (λ declarations. get declarations name)

-- The outcome of a used package that its workspace does not declare.
unfoldable pub undeclared_outcome :
    Text → Text → Text → List NormalizedDependencyEvidence → Option Declaration → DependencyOutcome
undeclared_outcome root workspace name evidence none = record {
  workspace = workspace;
  pkg = name;
  declared_workspace = none;
  categories = [];
  kind = unlisted;
  confidence = high;
  evidence = evidence;
  blockers = [];
}
undeclared_outcome root workspace name evidence (some d) = record {
  workspace = workspace;
  pkg = name;
  declared_workspace = some root;
  categories = d.categories;
  kind = misplaced;
  confidence = high;
  evidence = evidence;
  blockers = [];
}

unfoldable pub undeclared_outcomes : Text → Workspaces → Groups → List DependencyOutcome
undeclared_outcomes root workspaces [] = []
undeclared_outcomes root workspaces (((workspace, name), evidence) ∷ more) =
    let rest = undeclared_outcomes root workspaces more in
    if is_declared workspaces workspace name
    then rest
    else undeclared_outcome root workspace name evidence
        (root_declaration root workspaces workspace name)
      ∷ rest

abbrev pub unmapped_reason : UnmappedBinary → Text
unmapped_reason u =
    text "reachable binary `"
    ++ u.binary
    ++ text "` could not be mapped to an owning package ("
    ++ u.source
    ++ text ")"

-- The loop that adds a blocker for each binary without an owner.
unfoldable pub block_unmapped : List UnmappedBinary → Blockers → Blockers
block_unmapped [] blockers = blockers
block_unmapped (u ∷ more) blockers =
    block_unmapped more (push_blocker u.workspace (none, unmapped_reason u) blockers)

abbrev pub outcome_leq : DependencyOutcome → DependencyOutcome → Bool
outcome_leq left right =
    (pair_ord names_ord outcome_kind_ord).leq ((left.workspace, left.pkg), left.kind)
      ((right.workspace, right.pkg), right.kind)

-- What the outcomes are computed from.
unfoldable pub normalize_input : DependencyAnalysisInput → Normalization
normalize_input input =
    let workspaces = collect_declarations input.manifests in
    normalize_evidence input.binary_owners workspaces (collect_alias_targets workspaces [])
      input.evidence

unfoldable pub all_blockers : DependencyAnalysisInput → Blockers
all_blockers input =
    sort_blockers
      (block_unmapped (normalize_input input).unmapped_binaries (normalize_blockers input.blockers))

unfoldable pub analyze_dependencies : DependencyAnalysisInput → DependencyAnalysis
analyze_dependencies input =
    let workspaces = collect_declarations input.manifests in
    let groups = group_evidence (normalize_input input).normalized in
    record {
      outcomes = sort_by outcome_leq (
          declared_outcomes groups (all_blockers input) workspaces
          ++ undeclared_outcomes input.root_workspace workspaces groups);
      unmapped_binaries = (normalize_input input).unmapped_binaries;
    }
