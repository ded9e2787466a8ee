-- ===== src/Dependencies/Collect.antt =====
-- crates/orphanode/src/analysis/dependencies.rs: what the manifests declare, and what the
-- evidence and the blockers say of packages.
use orphanode.Common.{
  Bool, true, false, not, ◌&&◌, Option, none, some, List, [], ◌∷◌, ◌++◌, map, and_then,
  if◌then◌else◌,
}
use orphanode.Common.Order.{text_ord}
use orphanode.Common.Sorting.{sort, dedup}
use orphanode.Common.Maps.{or_default, get, alter, modify, set_insert}
use orphanode.Common.Text.{Text}
use orphanode.Dependencies.Names.{package_name, npm_alias_target, normalize_binary_name}
use orphanode.Dependencies.Facts.{
  DependencyCategory, runtime, development, peer, optional, DependencyManifest, Declaration,
  DependencyEvidence, DependencyEvidenceKind, binary, DependencyBlocker, Blocker, UnmappedBinary,
  NormalizedDependencyEvidence, category_ord, names_ord, evidence_ord, unmapped_ord, blocker_ord,
}

-- The declarations of a workspace, and of all workspaces.
abbrev pub Declarations : Type 0
Declarations = List (Text × Declaration)

abbrev pub Workspaces : Type 0
Workspaces = List (Text × Declarations)

-- `Declaration::default()`
abbrev pub no_declaration : Declaration
no_declaration = record { categories = []; alias_targets = []; bundled = false }

abbrev pub is_some : {A : Type 0} → Option A → Bool
is_some none = false
is_some (some _) = true

abbrev pub insert_target : Option Text → List Text → List Text
insert_target none targets = targets
insert_target (some target) targets = set_insert target targets

-- The body of the loop of `add_category`.
unfoldable pub declare : DependencyCategory → Text → Text → Declarations → Declarations
declare category declared_name requirement declarations = elim (package_name declared_name) [
  | none ↦ declarations
  | some name ↦
      alter name
        (λ found.
          let d = or_default no_declaration found in
          record {
            categories = set_insert category d.categories;
            alias_targets = insert_target (npm_alias_target requirement) d.alias_targets;
            bundled = d.bundled;
          })
        declarations
]

unfoldable pub add_category : Declarations → List (Text × Text) → DependencyCategory → Declarations
add_category declarations [] category = declarations
add_category declarations ((declared_name, requirement) ∷ packages) category =
    add_category (declare category declared_name requirement declarations) packages category

-- The loop over the bundled dependencies.
unfoldable pub mark_bundled : List Text → Declarations → Declarations
mark_bundled [] declarations = declarations
mark_bundled (name ∷ names) declarations = mark_bundled names (elim (package_name name) [
  | none ↦ declarations
  | some found ↦
      modify found
        (λ d. record { categories = d.categories; alias_targets = d.alias_targets; bundled = true })
        declarations
])

-- The body of the loop of `collect_declarations`.
unfoldable pub add_manifest : DependencyManifest → Declarations → Declarations
add_manifest m declarations =
    let with_runtime = add_category declarations m.dependencies runtime in
    let with_development = add_category with_runtime m.dev_dependencies development in
    let with_peer = add_category with_development m.peer_dependencies peer in
    let with_optional = add_category with_peer m.optional_dependencies optional in
    mark_bundled m.bundled_dependencies with_optional

unfoldable pub collect_from : Workspaces → List DependencyManifest → Workspaces
collect_from workspaces [] = workspaces
collect_from workspaces (m ∷ manifests) =
    collect_from (alter m.workspace (λ found. add_manifest m (or_default [] found)) workspaces)
      manifests

unfoldable pub collect_declarations : List DependencyManifest → Workspaces
collect_declarations = collect_from []

-- For each workspace and alias target, the names that stand for it.
abbrev pub AliasTargets : Type 0
AliasTargets = List (Text × List (Text × List Text))

-- The three loops of `collect_alias_targets`.
unfoldable pub add_targets : Text → Text → List Text → AliasTargets → AliasTargets
add_targets workspace declared_name [] targets = targets
add_targets workspace declared_name (target ∷ more) targets =
    add_targets workspace declared_name more (
      alter workspace
        (λ found.
          alter target (λ names. or_default [] names ++ declared_name ∷ []) (or_default [] found))
        targets)

unfoldable pub add_aliases : Text → Declarations → AliasTargets → AliasTargets
add_aliases workspace [] targets = targets
add_aliases workspace ((declared_name, d) ∷ more) targets =
    add_aliases workspace more (add_targets workspace declared_name d.alias_targets targets)

unfoldable pub collect_alias_targets : Workspaces → AliasTargets → AliasTargets
collect_alias_targets [] targets = targets
collect_alias_targets ((workspace, declarations) ∷ more) targets =
    collect_alias_targets more (add_aliases workspace declarations targets)

-- The two sets that `normalize_evidence` fills.
pub record Normalization : Type 0 where
  pub normalized : List NormalizedDependencyEvidence
  pub unmapped_binaries : List UnmappedBinary

abbrev pub is_binary : DependencyEvidenceKind → Bool
is_binary binary = true
is_binary _ = false

unfoldable pub is_declared : Workspaces → Text → Text → Bool
is_declared workspaces workspace name =
    is_some (and_then (get workspaces workspace) (λ declarations. get declarations name))

-- `let [alias_name] = alias_names.as_slice()`, and the package itself where that fails.
abbrev pub sole_alias : Text → Option (List Text) → Text
sole_alias name none = name
sole_alias name (some []) = name
sole_alias name (some (alias_name ∷ [])) = alias_name
sole_alias name (some (_ ∷ _ ∷ _)) = name

unfoldable pub declared_alias : Workspaces → AliasTargets → Bool → Text → Text → Text
declared_alias workspaces aliases binary_owner workspace name =
    if binary_owner && not (is_declared workspaces workspace name)
    then sole_alias name (and_then (get aliases workspace) (λ targets. get targets name))
    else name

abbrev pub normalized_item : DependencyEvidence → Text → NormalizedDependencyEvidence
normalized_item item name = record {
  workspace = item.workspace;
  pkg = name;
  kind = item.kind;
  scope = item.scope;
  source = item.source;
}

module _ (binary_owners : List (Text × Text)) (workspaces : Workspaces)
    (aliases : AliasTargets) where
  -- The body of the loop from `let Some(mut package)` on.
  unfoldable pub insert_package :
      DependencyEvidence → Bool → Option Text → Normalization → Normalization
  insert_package item binary_owner none s = s
  insert_package item binary_owner (some name) s = record {
    normalized =
        set_insert
          (normalized_item item
            (declared_alias workspaces aliases binary_owner item.workspace name))
          s.normalized;
    unmapped_binaries = s.unmapped_binaries;
  }

  unfoldable pub normalize_item : DependencyEvidence → Normalization → Normalization
  normalize_item item s =
      if is_binary item.kind
      then elim (get binary_owners (normalize_binary_name item.reference)) [
        | none ↦ record {
          normalized = s.normalized;
          unmapped_binaries =
              set_insert
                (record {
                  workspace = item.workspace;
                  binary = normalize_binary_name item.reference;
                  source = item.source;
                })
                s.unmapped_binaries;
        }
        | some owner ↦ insert_package item true (package_name owner) s
      ]
      else insert_package item false (package_name item.reference) s

  unfoldable pub normalize_from : Normalization → List DependencyEvidence → Normalization
  normalize_from s [] = s
  normalize_from s (item ∷ items) =
      normalize_from (if item.reachable then normalize_item item s else s) items

  unfoldable pub normalize_evidence : List DependencyEvidence → Normalization
  normalize_evidence = normalize_from (record { normalized = []; unmapped_binaries = [] })

-- The evidence for each workspace and package.
abbrev pub Groups : Type 0
Groups = List ((Text × Text) × List NormalizedDependencyEvidence)

unfoldable pub group_from : Groups → List NormalizedDependencyEvidence → Groups
group_from groups [] = groups
group_from groups (item ∷ items) =
    group_from (alter (item.workspace, item.pkg) (λ found. or_default [] found ++ item ∷ []) groups)
      items

unfoldable pub group_evidence : List NormalizedDependencyEvidence → Groups
group_evidence = group_from []

-- The blockers of each workspace.
abbrev pub Blockers : Type 0
Blockers = List (Text × List Blocker)

unfoldable pub push_blocker : Text → Blocker → Blockers → Blockers
push_blocker workspace b = alter workspace (λ found. or_default [] found ++ b ∷ [])

-- The blocked package as its name; a package that is no npm name leaves the blocker out.
unfoldable pub blocked_package : Option Text → Option (Option Text)
blocked_package none = some none
blocked_package (some name) = and_then (package_name name) (λ found. some (some found))

unfoldable pub blockers_from : Blockers → List DependencyBlocker → Blockers
blockers_from blockers [] = blockers
blockers_from blockers (b ∷ more) =
    blockers_from
      (elim (blocked_package b.pkg) [
        | none ↦ blockers
        | some name ↦ push_blocker b.workspace (name, b.reason) blockers
      ])
      more

unfoldable pub sort_blockers : Blockers → Blockers
sort_blockers = map (λ (workspace, blockers). (workspace, dedup (sort blockers)))

unfoldable pub normalize_blockers : List DependencyBlocker → Blockers
normalize_blockers blockers = sort_blockers (blockers_from [] blockers)
