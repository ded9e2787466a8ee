-- ===== src/Fixes/ProjectPath/Samples.antt =====
-- Paths, and the theorems at them.
use orphanode.Common.{true, ◌≡◌, refl, List, [], ◌∷◌, ◌++◌}
use orphanode.Common.Text.{Text, text, split, byte_len, replace_char}
use orphanode.Common.Result.{ok, err}
use orphanode.Common.FilePath.{
  components, split_components, later_components, file_name, normal, cur_dir, parent_dir,
}
use orphanode.Fixes.ProjectPath.{ProjectPath, unsafe_path, check, new, is_lockfile}
use orphanode.Fixes.ProjectPath.Inside.{resolve, new_stays_inside, new-new}

components_run :
    components (text "./a//b/./../c/")
    ≡ cur_dir ∷ normal (text "a") ∷ normal (text "b") ∷ parent_dir ∷ normal (text "c") ∷ []
unfolding components split split_components later_components
components_run = refl

abbrev source : ProjectPath
source = record { value = text "src/a.ts" }

abbrev doubled : ProjectPath
doubled = record { value = text "src//./a.ts" }

new_runs :
    (new (text "src\\a.ts") ≡ ok source)
    × (new (text "src//./a.ts") ≡ ok doubled)
    × (new (text "../a.ts") ≡ err (unsafe_path (text "../a.ts")))
    × (new (text "c:/a") ≡ err (unsafe_path (text "c:/a")))
unfolding new check byte_len components split split_components later_components
new_runs = (refl, refl, refl, refl)

-- Two accepted paths that differ may name one file.
aliases : components doubled.value ≡ components source.value
unfolding components split split_components later_components
aliases = refl

lockfile_runs : is_lockfile (record { value = text "web/yarn.lock" }) ≡ true
unfolding is_lockfile file_name components split split_components later_components
lockfile_runs = refl

new_stays_inside_example :
    (names : List Text) × (resolve (text "project" ∷ []) (components source.value)
      ≡ names ++ (text "project" ∷ []))
new_stays_inside_example =
    new_stays_inside (text "src\\a.ts") source (text "project" ∷ []) new_runs.0

new-new_example :
    (source.value ≡ replace_char b'\\' b'/' (text "src\\a.ts")) × (new source.value ≡ ok source)
new-new_example = new-new (text "src\\a.ts") source new_runs.0
