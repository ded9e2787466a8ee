-- ===== src/Dependencies/Samples.antt =====
-- A small project, what the analysis says of it, and the theorems at it.
use mathlib.Core.List.Memᴰ
use orphanode.Common.{true, false, none, some, List, [], ◌∷◌, map, ◌≡◌, refl, ◌↔◌, Memᴰ, ℕ, get_or}
use orphanode.Common.Text.{Text, text, trim, trim_start, trim_end, split, byte_len, is_whitespace}
use orphanode.Common.Sorting.{dedup, sort_by}
use orphanode.Dependencies.Names.{
  package_name, package_name_on, bare_package, scoped_name, plain_name, is_foreign, is_node_builtin,
  requirement_name, package_end, npm_alias_target, npm_requirement_package, normalize_binary_name,
}
use orphanode.Dependencies.Facts.{
  DependencyManifest, DependencyEvidence, DependencyBlocker, DependencyAnalysisInput,
  DependencyOutcome, DependencyOutcomeKind, retained, unused, unreferenced_peer, misplaced,
  undetermined, source_import, binary, runtime_scope, development_scope, not_applicable,
}
use orphanode.Dependencies.Collect.{
  declare, add_category, mark_bundled, add_manifest, collect_from, collect_declarations,
  add_targets, add_aliases, collect_alias_targets, is_declared, declared_alias, insert_package,
  normalize_item, normalize_from, normalize_evidence, group_from, group_evidence, push_blocker,
  blocked_package, blockers_from, sort_blockers, normalize_blockers,
}
use orphanode.Dependencies.Report.{
  declaration_outcome, matching_reasons, matching_blockers, package_evidence, declared_outcome,
  workspace_outcomes, declared_outcomes, root_declaration, undeclared_outcome, undeclared_outcomes,
  block_unmapped, normalize_input, all_blockers, analyze_dependencies,
}
use orphanode.Dependencies.Specified.{Specifies, package_name_lem}
use orphanode.Dependencies.Grouping.{unmapped_item}
use orphanode.Dependencies.Standing.{Standing}
use orphanode.Dependencies.Blocking.{claims_unused, blocker_withholds, unmapped_binary_withholds}

abbrev manifest : DependencyManifest
manifest = record {
  workspace = text ".";
  dependencies = (text "chalk", text "^5") ∷ (text "left-pad", text "^1") ∷ [];
  dev_dependencies = (text "compiler", text "npm:typescript@^6") ∷ [];
  peer_dependencies = (text "react", text "*") ∷ [];
  optional_dependencies = [];
  bundled_dependencies = [];
}

abbrev import_chalk : DependencyEvidence
import_chalk = record {
  workspace = text ".";
  reference = text "chalk/index.js";
  kind = source_import;
  scope = runtime_scope;
  source = text "src/a.ts";
  reachable = true;
}

abbrev run_tsc : DependencyEvidence
run_tsc = record {
  workspace = text ".";
  reference = text "node_modules/.bin/tsc.cmd";
  kind = binary;
  scope = development_scope;
  source = text "package.json";
  reachable = true;
}

abbrev unreachable_import : DependencyEvidence
unreachable_import = record {
  workspace = text ".";
  reference = text "left-pad";
  kind = source_import;
  scope = runtime_scope;
  source = text "src/dead.ts";
  reachable = false;
}

abbrev child_import : DependencyEvidence
child_import = record {
  workspace = text "web";
  reference = text "chalk";
  kind = source_import;
  scope = runtime_scope;
  source = text "web/a.ts";
  reachable = true;
}

abbrev project : DependencyAnalysisInput
project = record {
  root_workspace = text ".";
  manifests = manifest ∷ [];
  evidence = import_chalk ∷ run_tsc ∷ unreachable_import ∷ child_import ∷ [];
  binary_owners = (text "tsc", text "typescript") ∷ [];
  blockers = [];
}

names_test :
    (package_name (text " lodash/fp") ≡ some (text "lodash"))
    × (package_name (text "@scope/package/subpath") ≡ some (text "@scope/package"))
    × (package_name (text "npm:@scope/real@^2") ≡ some (text "@scope/real"))
    × (package_name (text "npm:npm:real@1@2") ≡ some (text "real"))
    × (package_name (text "fs/promises") ≡ none)
    × (package_name (text "./local.js") ≡ none)
    × (normalize_binary_name (text "a/b.exe") ≡ text "b")
unfolding package_name package_name_on bare_package scoped_name plain_name is_foreign
    is_node_builtin requirement_name package_end trim trim_start trim_end split byte_len
    is_whitespace normalize_binary_name
names_test = (refl, refl, refl, refl, refl, refl, refl)

-- What the outcomes of an input say, package by package.
abbrev summary : DependencyAnalysisInput → List (Text × DependencyOutcomeKind)
summary input = map (λ o. (o.pkg, o.kind)) (analyze_dependencies input).outcomes

summary_test :
    summary project
    ≡ (text "chalk", retained)
      ∷ (text "compiler", retained)
      ∷ (text "left-pad", unused)
      ∷ (text "react", unreferenced_peer)
      ∷ (text "chalk", misplaced)
      ∷ []
unfolding package_name package_name_on bare_package scoped_name plain_name is_foreign
    is_node_builtin requirement_name package_end npm_alias_target npm_requirement_package trim
    trim_start trim_end split byte_len is_whitespace normalize_binary_name declare add_category
    mark_bundled add_manifest collect_from collect_declarations add_targets add_aliases
    collect_alias_targets is_declared declared_alias insert_package normalize_item normalize_from
    normalize_evidence group_from group_evidence push_blocker blocked_package blockers_from
    sort_blockers normalize_blockers declaration_outcome matching_reasons matching_blockers
    package_evidence declared_outcome workspace_outcomes declared_outcomes root_declaration
    undeclared_outcome undeclared_outcomes block_unmapped normalize_input all_blockers
    analyze_dependencies dedup sort_by
summary_test = refl

abbrev default_outcome : DependencyOutcome
default_outcome = record {
  workspace = [];
  pkg = [];
  declared_workspace = none;
  categories = [];
  kind = undetermined;
  confidence = not_applicable;
  evidence = [];
  blockers = [];
}

-- The outcome at a position of the report.
abbrev nth_outcome : DependencyAnalysisInput → ℕ → DependencyOutcome
nth_outcome input i = get_or (analyze_dependencies input).outcomes i default_outcome

abbrev block_left_pad : DependencyBlocker
block_left_pad = record {
  workspace = text ".";
  pkg = some (text "left-pad/x");
  reason = text "a plugin failed";
}

abbrev run_lint : DependencyEvidence
run_lint = record {
  workspace = text "web";
  reference = text "lint";
  kind = binary;
  scope = development_scope;
  source = text "package.json";
  reachable = true;
}

abbrev web_manifest : DependencyManifest
web_manifest = record {
  workspace = text "web";
  dependencies = (text "vue", text "^3") ∷ [];
  dev_dependencies = [];
  peer_dependencies = [];
  optional_dependencies = [];
  bundled_dependencies = [];
}

abbrev withheld : DependencyAnalysisInput
withheld = record {
  root_workspace = text ".";
  manifests = manifest ∷ web_manifest ∷ [];
  evidence = run_lint ∷ [];
  binary_owners = [];
  blockers = block_left_pad ∷ [];
}

abbrev left_pad : DependencyOutcome
left_pad = nth_outcome withheld 2

withheld_facts :
    Memᴰ left_pad (analyze_dependencies withheld).outcomes
    × (left_pad.workspace ≡ text ".")
    × (left_pad.pkg ≡ text "left-pad")
    × (package_name (text "left-pad/x") ≡ some left_pad.pkg)
unfolding package_name package_name_on bare_package scoped_name plain_name is_foreign
    is_node_builtin requirement_name package_end npm_alias_target npm_requirement_package trim
    trim_start trim_end split byte_len is_whitespace normalize_binary_name declare add_category
    mark_bundled add_manifest collect_from collect_declarations add_targets add_aliases
    collect_alias_targets is_declared declared_alias insert_package normalize_item normalize_from
    normalize_evidence group_from group_evidence push_blocker blocked_package blockers_from
    sort_blockers normalize_blockers declaration_outcome matching_reasons matching_blockers
    package_evidence declared_outcome workspace_outcomes declared_outcomes root_declaration
    undeclared_outcome undeclared_outcomes block_unmapped normalize_input all_blockers
    analyze_dependencies dedup sort_by
withheld_facts = (Memᴰ.tail (Memᴰ.tail (Memᴰ.head refl)), refl, refl, refl)

blocker_withholds_example : claims_unused left_pad.kind ≡ false
blocker_withholds_example =
    blocker_withholds withheld left_pad block_left_pad (Memᴰ.head refl) withheld_facts.3
      withheld_facts.0 withheld_facts.1

unmapped_binary_withholds_example :
    Memᴰ (unmapped_item run_lint) (analyze_dependencies withheld).unmapped_binaries
    × ((o : DependencyOutcome)
        → Memᴰ o (analyze_dependencies withheld).outcomes
        → o.workspace ≡ text "web"
        → claims_unused o.kind ≡ false)
unmapped_binary_withholds_example =
    unmapped_binary_withholds withheld run_lint (Memᴰ.head refl) refl refl
      (λ owner m. Memᴰ.not-nil m)

package_name_lem_example :
    (package_name (text "npm:npm:real@1@2") ≡ some (text "real"))
    ↔ Specifies (text "npm:npm:real@1@2") (text "real")
package_name_lem_example = package_name_lem (text "npm:npm:real@1@2") (text "real")
