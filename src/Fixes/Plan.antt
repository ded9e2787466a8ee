-- ===== src/Fixes/Plan.antt =====
-- crates/orphanode/src/fixes/plan.rs: a plan of edits, deletions and package commands.
pub mod Valid
mod Samples
use orphanode.Common.{
  ℕ, Bool, true, false, not, ◌&&◌, ◌||◌, Option, none, some, List, [], ◌∷◌, ◌++◌, map, any, all,
  ltb, leb, ◌==◌, if◌then◌else◌, adjacent, is_nil,
}
use orphanode.Common.Text.{Text, byte_len, is_empty, is_whitespace}
use orphanode.Common.Result.{Result, ok, err, ◌>>=◌, ◌>>◌, reject_if}
use orphanode.Common.Order.{same, leq, text_ord}
use orphanode.Common.Sorting.{sort, sort_by}
use orphanode.Fixes.ProjectPath.{
  FixPlanError, invalid_identity, lockfile_edit, invalid_span, empty_edits, overlapping_edits,
  duplicate_file_change, invalid_reason, invalid_package_command, duplicate_package_command,
  conflicting_manifest_change, ProjectPath, is_lockfile,
}
use orphanode.Fixes.Eligibility.{ContentDigest, EligibleFix}
use orphanode.Fixes.Packages
use orphanode.Fixes.Packages.{PackageManagerCommand, bad_reason, Fault, message}

pub record ByteSpan : Type 0 where
  pub start : ℕ
  pub end : ℕ

unfoldable pub byte_span : ℕ → ℕ → Result FixPlanError ByteSpan
byte_span start end =
    if ltb end start then err (invalid_span start end) else ok (record { start = start; end = end })

pub record SourceEdit : Type 0 where
  pub span : ByteSpan
  pub replacement : Text

pub data FileChange : Type 0 where
  modify :
      (path : ProjectPath) (expected_content : ContentDigest) (edits : List SourceEdit)
      (reason : Text)
      → FileChange
  delete : (path : ProjectPath) (expected_content : ContentDigest) (reason : Text) → FileChange

unfoldable pub change_path : FileChange → ProjectPath
change_path (modify path _ _ _) = path
change_path (delete path _ _) = path

unfoldable pub change_content : FileChange → ContentDigest
change_content (modify _ content _ _) = content
change_content (delete _ content _) = content

unfoldable pub change_reason : FileChange → Text
change_reason (modify _ _ _ reason) = reason
change_reason (delete _ _ reason) = reason

pub record FixPlan : Type 0 where
  pub schema_version : ℕ
  pub plan_id : Text
  pub summary : Text
  pub file_changes : List FileChange
  pub package_commands : List PackageManagerCommand

abbrev pub same_path : ProjectPath → ProjectPath → Bool
same_path p q = same p.value q.value

unfoldable pub reject_lockfile : ProjectPath → Result FixPlanError (Unit {0})
reject_lockfile path = if is_lockfile path then err (lockfile_edit path.value) else ok tt

unfoldable pub validate_reason : Text → Result FixPlanError (Unit {0})
validate_reason reason = if bad_reason reason then err invalid_reason else ok tt

abbrev pub in_sequence : SourceEdit → SourceEdit → Bool
in_sequence a b = leb a.span.end b.span.start && ltb a.span.start b.span.start

unfoldable pub validate_non_overlapping :
    ProjectPath → List SourceEdit → Result FixPlanError (Unit {0})
validate_non_overlapping path edits = do
  reject_if (any (λ e. ltb e.span.end e.span.start) edits) (overlapping_edits path.value)
  reject_if (not (adjacent in_sequence edits)) (overlapping_edits path.value)

unfoldable pub validate_identity : FixPlan → Result FixPlanError (Unit {0})
validate_identity plan =
    reject_if
      (is_empty plan.plan_id
        || ltb 256 (byte_len plan.plan_id)
        || any is_whitespace plan.plan_id
        || is_empty plan.summary
        || ltb 4096 (byte_len plan.summary))
      invalid_identity

unfoldable pub new : Text → Text → Result FixPlanError FixPlan
new plan_id summary = do
  let plan : FixPlan = record {
    schema_version = 2;
    plan_id = plan_id;
    summary = summary;
    file_changes = [];
    package_commands = [];
  }
  validate_identity plan
  ok plan

unfoldable pub reject_duplicate_path : FixPlan → ProjectPath → Result FixPlanError (Unit {0})
reject_duplicate_path plan path =
    reject_if (any (λ c. same_path (change_path c) path) plan.file_changes)
      (duplicate_file_change path.value)

-- The key of `sort_by_key`.
abbrev pub span_leq : SourceEdit → SourceEdit → Bool
span_leq a b =
    if leb b.span.start a.span.start
    then leb a.span.start b.span.start && leb a.span.end b.span.end
    else leb a.span.start b.span.start

unfoldable pub add_source_edits :
    FixPlan → EligibleFix → ProjectPath → List SourceEdit → Text → Result FixPlanError FixPlan
add_source_edits plan eligibility path edits reason = do
  reject_lockfile path
  reject_if (is_nil edits) (empty_edits path.value)
  let sorted = sort_by span_leq edits
  validate_non_overlapping path sorted
  reject_duplicate_path plan path
  validate_reason reason
  ok (record plan {
    file_changes = plan.file_changes ++ modify path eligibility.expected_content sorted reason ∷ [];
  })

-- The marker argument of the source is always given.
unfoldable pub add_file_deletion :
    FixPlan → EligibleFix → ProjectPath → Text → Result FixPlanError FixPlan
add_file_deletion plan eligibility path reason = do
  reject_lockfile path
  reject_duplicate_path plan path
  validate_reason reason
  ok (record plan {
    file_changes = plan.file_changes ++ delete path eligibility.expected_content reason ∷ [];
  })

unfoldable pub add_package_command : FixPlan → PackageManagerCommand → FixPlan
add_package_command plan command = record plan {
  package_commands = plan.package_commands ++ command ∷ [];
}

-- The loop over the sorted paths, with the path before.
unfoldable pub validate_paths : Option Text → List Text → Result FixPlanError (Unit {0})
validate_paths prior [] = ok tt
validate_paths prior (p ∷ ps) = do
  reject_lockfile (record { value = p })
  reject_if (elim prior [ none ↦ false | some q ↦ same q p ]) (duplicate_file_change p)
  validate_paths (some p) ps

-- The second loop.
unfoldable pub validate_change : FileChange → Result FixPlanError (Unit {0})
validate_change (modify path content edits reason) = do
  validate_reason reason
  reject_if (is_nil edits) (empty_edits path.value)
  validate_non_overlapping path edits
validate_change (delete path content reason) = validate_reason reason

unfoldable pub validate_changes : List FileChange → Result FixPlanError (Unit {0})
validate_changes [] = ok tt
validate_changes (c ∷ cs) = validate_change c >> validate_changes cs

-- How a validation stops: with an error, or in the failed `expect` of a manifest's path.
pub data Stop : Type 0 where
  refused : FixPlanError → Stop
  panicked : Stop

abbrev pub refuse : {A : Type 0} → Result FixPlanError A → Result Stop A
refuse (ok a) = ok a
refuse (err e) = err (refused e)

-- `map_err(FixPlanError::InvalidPackageCommand)`
abbrev pub of_command : Result Fault (Unit {0}) → Result Stop (Unit {0})
of_command (ok u) = ok u
of_command (err (message m)) = err (refused (invalid_package_command m))
of_command (err Fault.panicked) = err Stop.panicked

-- The third loop: the set of manifests seen, and the paths of the file changes.
unfoldable pub validate_commands :
    List Text → List Text → List PackageManagerCommand → Result Stop (Unit {0})
validate_commands files seen [] = ok tt
validate_commands files seen (c ∷ cs) = do
  of_command (Packages.validate c)
  reject_if (any (λ s. same s c.manifest_path.value) seen)
      (refused (duplicate_package_command c.manifest_path.value))
  reject_if (any (λ f. same f c.manifest_path.value) files)
      (refused (conflicting_manifest_change c.manifest_path.value))
  validate_commands files (c.manifest_path.value ∷ seen) cs

abbrev pub paths_of : FixPlan → List Text
paths_of plan = map (λ c. (change_path c).value) plan.file_changes

unfoldable pub validate : FixPlan → Result Stop (Unit {0})
validate plan = do
  refuse (validate_identity plan)
  refuse (validate_paths none (sort (paths_of plan)))
  refuse (validate_changes plan.file_changes)
  validate_commands (paths_of plan) [] plan.package_commands
