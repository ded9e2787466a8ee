-- ===== src/Fixes/Plan/Samples.antt =====
-- A plan with an edit and a deletion, and the theorem at it.
use orphanode.Common.{replicate, [], ◌∷◌, ◌≡◌, refl}
use orphanode.Common.Text.{
  text, byte_len, split, is_whitespace, trim, trim_start, trim_end, is_control,
}
use orphanode.Cache.Digest.{Digest, digest_bytes}
use orphanode.Common.Result.{ok, err}
use orphanode.Common.FilePath.{file_name, components, split_components, later_components}
use orphanode.Common.Sorting.{sort_by}
use orphanode.Fixes.Packages.{bad_reason}
use orphanode.Fixes.ProjectPath.{ProjectPath, is_lockfile, duplicate_file_change}
use orphanode.Fixes.Eligibility.{EligibleFix}
use orphanode.Fixes.Plan.{
  FixPlan, SourceEdit, modify, delete, change_path, reject_lockfile, reject_duplicate_path,
  validate_reason, validate_identity, validate_non_overlapping, validate_commands, validate,
  paths_of, new, add_source_edits, add_file_deletion,
}
use orphanode.Fixes.Plan.Valid.{created, edited, deleted, validate-Built}

abbrev content : Digest
content = record { bytes = replicate digest_bytes 7 }

abbrev approval : EligibleFix
approval = record { expected_content = content }

abbrev first : SourceEdit
first = record { span = record { start = 0; end = 4 }; replacement = text "" }

abbrev second : SourceEdit
second = record { span = record { start = 9; end = 12 }; replacement = text "x" }

abbrev source_file : ProjectPath
source_file = record { value = text "src/a.ts" }

abbrev dead_file : ProjectPath
dead_file = record { value = text "src/b.ts" }

abbrev empty_plan : FixPlan
empty_plan = record {
  schema_version = 2;
  plan_id = text "p1";
  summary = text "remove dead code";
  file_changes = [];
  package_commands = [];
}

abbrev edited_plan : FixPlan
edited_plan = record empty_plan {
  file_changes = modify source_file content (first ∷ second ∷ []) (text "unused") ∷ [];
}

abbrev cleaned_plan : FixPlan
cleaned_plan = record empty_plan {
  file_changes =
      modify source_file content (first ∷ second ∷ []) (text "unused")
      ∷ delete dead_file content (text "unreachable")
      ∷ [];
}

steps :
    (new (text "p1") (text "remove dead code") ≡ ok empty_plan)
    × (add_source_edits empty_plan approval source_file (second ∷ first ∷ []) (text "unused")
        ≡ ok edited_plan)
    × (add_file_deletion edited_plan approval dead_file (text "unreachable") ≡ ok cleaned_plan)
    × (add_file_deletion edited_plan approval source_file (text "unreachable")
        ≡ err (duplicate_file_change (text "src/a.ts")))
unfolding new add_source_edits add_file_deletion reject_lockfile reject_duplicate_path
    validate_reason validate_identity validate_non_overlapping is_lockfile sort_by byte_len
    is_whitespace trim trim_start trim_end is_control split change_path file_name components
    split_components later_components bad_reason
steps = (refl, refl, refl, refl)

validate-Built_example :
    validate cleaned_plan
    ≡ validate_commands (paths_of cleaned_plan) [] cleaned_plan.package_commands
validate-Built_example = validate-Built cleaned_plan (
    deleted edited_plan cleaned_plan approval dead_file (text "unreachable")
      (edited empty_plan edited_plan approval source_file (second ∷ first ∷ []) (text "unused")
        (created (text "p1") (text "remove dead code") empty_plan steps.0) steps.1)
      steps.2)
