-- ===== src/Fixes/ProjectPath.antt =====
-- crates/orphanode/src/fixes/plan.rs: the errors of a plan, and project-relative paths.
pub mod Inside
mod Samples
use Prim.Native.Nat.{◌*◌}
use orphanode.Common.{
  ℕ, Bool, true, false, ◌&&◌, ◌||◌, Option, none, some, List, [], ◌∷◌, any, ltb, ◌==◌,
  if◌then◌else◌,
}
use orphanode.Common.Text.{Text, text, starts_with, contains_char, replace_char, byte_len, is_empty}
use orphanode.Common.Result.{Result, ok, err}
use orphanode.Common.Order.{same, text_ord}
use orphanode.Common.FilePath.{
  Component, root_dir, cur_dir, parent_dir, normal, components, file_name,
}

pub data FixPlanError : Type 0 where
  invalid_identity invalid_reason : FixPlanError
  unsafe_path lockfile_edit empty_edits overlapping_edits : Text → FixPlanError
  duplicate_file_change duplicate_package_command conflicting_manifest_change : Text → FixPlanError
  invalid_span : (start end_ : ℕ) → FixPlanError
  invalid_package_command : Text → FixPlanError

pub record ProjectPath : Type 0 where
  pub value : Text

-- The second byte is `:`. No byte of a longer character is.
abbrev pub has_drive : Text → Bool
has_drive [] = false
has_drive (c ∷ []) = false
has_drive (c ∷ d ∷ _) = ltb c 0x80 && (d == b':')

abbrev pub is_name : Component → Bool
is_name root_dir = false
is_name cur_dir = false
is_name parent_dir = false
is_name (normal _) = true

-- The components that the path may not have.
abbrev pub is_unsafe : Component → Bool
is_unsafe root_dir = true
is_unsafe cur_dir = true
is_unsafe parent_dir = true
is_unsafe (normal _) = false

-- The checks behind the replacement of backslashes.
unfoldable pub check : Text → Result FixPlanError ProjectPath
check value =
    if same value (text ".")
    then ok (record { value = value })
    else if is_empty value || ltb (16 * 1024) (byte_len value) || contains_char 0 value
    then err (unsafe_path value)
    else if starts_with (text "/") value || has_drive value
    then err (unsafe_path value)
    else if any is_unsafe (components value)
    then err (unsafe_path value)
    else ok (record { value = value })

unfoldable pub new : Text → Result FixPlanError ProjectPath
new value = check (replace_char b'\\' b'/' value)

abbrev pub root : ProjectPath
root = record { value = text "." }

abbrev pub lockfiles : List Text
lockfiles =
    text "package-lock.json"
    ∷ text "npm-shrinkwrap.json"
    ∷ text "pnpm-lock.yaml"
    ∷ text "yarn.lock"
    ∷ text "bun.lock"
    ∷ text "bun.lockb"
    ∷ []

unfoldable pub is_lockfile : ProjectPath → Bool
is_lockfile path = elim (file_name path.value) [
  | none ↦ false
  | some name ↦ any (λ l. same name l) lockfiles
]
