-- ===== src/Fixes/Packages/Samples.antt =====
-- Commands, and the theorems at them.
use mathlib.Core.List.{Perm, flatten}
use orphanode.Common.{
  ◌↔◌, ◌+◌, ◌≤◌, ◌<◌, true, false, ◌≡◌, ◌≢◌, refl, List, [], ◌∷◌, ◌++◌, All, all,
}
use orphanode.Common.Text.{
  Text, text, split, byte_len, starts_with, trim, trim_start, trim_end, is_whitespace, is_control,
}
use orphanode.Common.Result.{ok, err}
use orphanode.Common.Sorting.{sort_by}
use orphanode.Common.FilePath.{components, split_components, later_components}
use orphanode.Cache.Digest.{Digest}
use orphanode.Fixes.ProjectPath
use orphanode.Fixes.ProjectPath.{ProjectPath, check}
use orphanode.Fixes.Packages.{
  npm, executable, remove_subcommand, production, panicked, valid_package_name, DependencyRemoval,
  PackageManagerCommand, workspace_manifest_path, validate, validate_removals, validate_removal,
  validate_dependency, validate_reason, bad_reason, expected_arguments, remove_direct_dependencies,
  is_name_byte, display_command,
}
use orphanode.Fixes.Packages.Manifest.{workspace_manifest_path-new}
use orphanode.Fixes.Packages.Commands.{
  IsWellFormed, IsValidRemoval, AreDistinct, validate-ok, remove_direct_dependencies-ok,
  arguments_are_names,
}

abbrev removal : Text → DependencyRemoval
removal name = record {
  dependency = record { name = name; kind = production };
  reason = text "unused";
}

abbrev removals : List DependencyRemoval
removals = removal (text "lodash") ∷ removal (text "@a/b") ∷ []

abbrev web : ProjectPath
web = record { value = text "web" }

abbrev manifest : ProjectPath
manifest = record { value = text "web/package.json" }

abbrev content : Digest
content = record { bytes = [] }

abbrev command : PackageManagerCommand
command = record {
  manager = npm;
  working_directory = web;
  manifest_path = manifest;
  analyzed_manifest_content = content;
  removals = removal (text "@a/b") ∷ removal (text "lodash") ∷ [];
  program = text "npm";
  arguments = text "uninstall" ∷ text "@a/b" ∷ text "lodash" ∷ [];
}

paths_run : (ProjectPath.new (text "web") ≡ ok web) × (workspace_manifest_path web ≡ ok manifest)
unfolding workspace_manifest_path ProjectPath.new check components split split_components
    later_components byte_len
paths_run = (refl, refl)

program : Unit {0}
unfolding remove_direct_dependencies validate validate_removals validate_removal validate_dependency
    validate_reason bad_reason expected_arguments valid_package_name executable remove_subcommand
    workspace_manifest_path ProjectPath.new check components split split_components later_components
    byte_len sort_by trim trim_start trim_end is_whitespace is_control display_command flatten
program = tt

command_runs :
    (remove_direct_dependencies npm web content removals ≡ ok command)
    × (validate command ≡ ok tt)
    × (display_command command ≡ text "npm uninstall @a/b lodash")
unfolding program
command_runs = (refl, refl, refl)

removals_valid : All IsValidRemoval removals
unfolding program
removals_valid =
    (record { name = refl; reason = refl }, (record { name = refl; reason = refl }, tt))

removals_distinct : AreDistinct removals
removals_distinct = ((λ e. cc, tt), (tt, tt))

workspace_manifest_path-new_example :
    (web.value ≡ text "."
      → workspace_manifest_path web ≡ ok (record { value = text "package.json" }))
    × (web.value ≢ text "."
        → byte_len web.value + 13 ≤ 16384
        → workspace_manifest_path web ≡ ok (record { value = web.value ++ text "/package.json" }))
    × (web.value ≢ text "."
        → 16384 < byte_len web.value + 13
        → workspace_manifest_path web ≡ err panicked)
workspace_manifest_path-new_example = workspace_manifest_path-new (text "web") web paths_run.0

validate-ok_example : (validate command ≡ ok tt) ↔ IsWellFormed command
validate-ok_example = validate-ok command

remove_direct_dependencies-ok_example :
    (c : PackageManagerCommand) × (remove_direct_dependencies npm web content removals ≡ ok c)
    × IsWellFormed c
    × Perm c.removals removals
    × (c.manager ≡ npm)
    × (c.working_directory ≡ web)
    × (c.manifest_path ≡ manifest)
    × (c.analyzed_manifest_content ≡ content)
remove_direct_dependencies-ok_example =
    remove_direct_dependencies-ok npm web manifest content removals (λ e. cc) removals_valid
      removals_distinct paths_run.1

arguments_are_names_example :
    All (λ a. (starts_with (text "-") a ≡ false) × (all is_name_byte a ≡ true)) command.arguments
arguments_are_names_example = arguments_are_names command command_runs.1
