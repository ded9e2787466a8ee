-- ===== src/Fixes/Packages.antt =====
-- crates/orphanode/src/fixes/package_manager.rs: the command that removes dependencies.
-- An error message is kept as its text; a failed `expect` is `panicked`.
pub mod Manifest
pub mod Commands
mod Samples
use orphanode.Common.{
  ℕ, Bool, true, false, not, ◌&&◌, ◌||◌, List, [], ◌∷◌, ◌++◌, map, any, all, ltb, leb, ◌==◌,
  if◌then◌else◌, adjacent, is_nil,
}
use orphanode.Common.Text.{Text, text, starts_with, byte_len, is_empty, is_control, trim}
use orphanode.Common.Result.{Result, ok, err, ◌>>=◌, ◌>>◌, reject_if}
use orphanode.Common.Order.{same, same_list, leq, text_ord}
use orphanode.Common.Sorting.{sort_by}
use mathlib.Core.List.{flatten}
use orphanode.Cache.Digest.{Digest}
use orphanode.Fixes.ProjectPath
use orphanode.Fixes.ProjectPath.{ProjectPath}

pub data PackageManager : Type 0 where
  npm pnpm yarn bun : PackageManager

unfoldable pub executable : PackageManager → Text
executable npm = text "npm"
executable pnpm = text "pnpm"
executable yarn = text "yarn"
executable bun = text "bun"

unfoldable pub remove_subcommand : PackageManager → Text
remove_subcommand npm = text "uninstall"
remove_subcommand pnpm = text "remove"
remove_subcommand yarn = text "remove"
remove_subcommand bun = text "remove"

pub data DependencyKind : Type 0 where
  production development optional peer : DependencyKind

pub data Fault : Type 0 where
  message : Text → Fault
  panicked : Fault

-- `name.contains("..")`
abbrev pub contains_dots : Text → Bool
contains_dots [] = false
contains_dots (c ∷ s) = starts_with (text "..") (c ∷ s) || contains_dots s

-- Lower-case letters, digits and `@/-_.`; every byte of another character is none of these.
abbrev pub is_name_byte : ℕ → Bool
is_name_byte c =
    (leb b'a' c && leb c b'z')
    || (leb b'0' c && leb c b'9')
    || (c == b'@')
    || (c == b'/')
    || (c == b'-')
    || (c == b'_')
    || (c == b'.')

unfoldable pub valid_package_name : Text → Bool
valid_package_name name =
    not (is_empty name)
    && leb (byte_len name) 214
    && not (starts_with (text "-") name)
    && not (contains_dots name)
    && all is_name_byte name

pub record DirectDependency : Type 0 where
  pub name : Text
  pub kind : DependencyKind

abbrev pub unsafe_name : Fault
unsafe_name = message (text "dependency name is not a safe npm package name")

unfoldable pub direct_dependency : Text → DependencyKind → Result Fault DirectDependency
direct_dependency name kind = do
  reject_if (not (valid_package_name name)) unsafe_name
  ok (record { name = name; kind = kind })

unfoldable pub validate_dependency : DirectDependency → Result Fault (Unit {0})
validate_dependency d = if valid_package_name d.name then ok tt else err unsafe_name

pub record DependencyRemoval : Type 0 where
  pub dependency : DirectDependency
  pub reason : Text

unfoldable pub bad_reason : Text → Bool
bad_reason reason = is_empty (trim reason) || ltb 4096 (byte_len reason) || any is_control reason

unfoldable pub validate_reason : Text → Result Fault (Unit {0})
validate_reason reason =
    if bad_reason reason
    then err (message (text "fix reason must be nonempty, bounded, and safe to display"))
    else ok tt

unfoldable pub validate_removal : DependencyRemoval → Result Fault (Unit {0})
validate_removal r = do validate_dependency r.dependency; validate_reason r.reason

unfoldable pub dependency_removal : DirectDependency → Text → Result Fault DependencyRemoval
dependency_removal dependency reason = do
  let removal : DependencyRemoval = record { dependency = dependency; reason = reason }
  validate_removal removal
  ok removal

pub record PackageManagerCommand : Type 0 where
  pub manager : PackageManager
  pub working_directory : ProjectPath
  pub manifest_path : ProjectPath
  pub analyzed_manifest_content : Digest
  pub removals : List DependencyRemoval
  pub program : Text
  pub arguments : List Text

abbrev pub dependency_name : DependencyRemoval → Text
dependency_name r = r.dependency.name

unfoldable pub workspace_manifest_path : ProjectPath → Result Fault ProjectPath
workspace_manifest_path working_directory =
    let path =
      if same working_directory.value (text ".")
      then text "package.json"
      else working_directory.value ++ text "/package.json" in
    elim (ProjectPath.new path) [ Result.ok p ↦ ok p | Result.err _ ↦ err panicked ]

unfoldable pub validate_removals : List DependencyRemoval → Result Fault (Unit {0})
validate_removals [] = ok tt
validate_removals (r ∷ rs) = validate_removal r >> validate_removals rs

unfoldable pub expected_arguments : PackageManager → List DependencyRemoval → List Text
expected_arguments manager removals = remove_subcommand manager ∷ map dependency_name removals

unfoldable pub validate : PackageManagerCommand → Result Fault (Unit {0})
validate c = do
  reject_if (is_nil c.removals)
      (message (text "package-manager removal must contain at least one dependency"))
  validate_removals c.removals
  reject_if (not (adjacent (λ a b. not (leq (dependency_name b) (dependency_name a))) c.removals))
      (message (text "package-manager dependencies must be unique and sorted"))
  manifest ← workspace_manifest_path c.working_directory
  reject_if (not (same c.manifest_path.value manifest.value))
      (message (text "package-manager command does not target its exact workspace manifest"))
  reject_if
      (not (same c.program (executable c.manager))
        || not (same_list c.arguments (expected_arguments c.manager c.removals)))
      (message (text "package-manager command does not match its typed removal operation"))

unfoldable pub remove_direct_dependencies :
    PackageManager
    → ProjectPath
    → Digest
    → List DependencyRemoval
    → Result Fault PackageManagerCommand
remove_direct_dependencies manager working_directory content removals = do
  let sorted = sort_by (λ a b. leq (dependency_name a) (dependency_name b)) removals
  reject_if (is_nil sorted)
      (message (text "package-manager removal must contain at least one dependency"))
  reject_if (not (adjacent (λ a b. not (same (dependency_name a) (dependency_name b))) sorted))
      (message (text "package-manager removal contains a duplicate dependency"))
  manifest ← workspace_manifest_path working_directory
  let command : PackageManagerCommand = record {
    manager = manager;
    working_directory = working_directory;
    manifest_path = manifest;
    analyzed_manifest_content = content;
    removals = sorted;
    program = executable manager;
    arguments = remove_subcommand manager ∷ map dependency_name sorted;
  }
  validate command
  ok command

unfoldable pub remove_direct_dependency :
    PackageManager
    → ProjectPath
    → Digest
    → DirectDependency
    → Text
    → Result Fault PackageManagerCommand
remove_direct_dependency manager working_directory content dependency reason = do
  removal ← dependency_removal dependency reason
  remove_direct_dependencies manager working_directory content (removal ∷ [])

-- The program and its arguments, with a space before each argument.
unfoldable pub display_command : PackageManagerCommand → Text
display_command c = c.program ++ flatten (map (λ a. text " " ++ a) c.arguments)
