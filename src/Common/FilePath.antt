-- ===== src/Common/FilePath.antt =====
-- `std::path::Path` on Unix: a path as the list of its components.
use orphanode.Common.Tests.{if◌then◌else◌}
use orphanode.Common.Order.{same, text_ord}
use orphanode.Common.Text.{Text, text, split}
use mathlib.Core.List.{List, [], ◌∷◌}
use mathlib.Core.Option.{Option, none, some}

pub data Component : Type 0 where
  root_dir cur_dir parent_dir : Component
  normal : Text → Component

abbrev pub dot : Text
dot = text "."

abbrev pub dot_dot : Text
dot_dot = text ".."

-- A part behind the first one: an empty part and `.` are dropped.
abbrev pub later_component : Text → List Component → List Component
later_component [] rest = rest
later_component (c ∷ s) rest =
    if same (c ∷ s) dot
    then rest
    else if same (c ∷ s) dot_dot
    then parent_dir ∷ rest
    else normal (c ∷ s) ∷ rest

unfoldable pub later_components : List Text → List Component
later_components [] = []
later_components (t ∷ ts) = later_component t (later_components ts)

-- The first part: a leading `.` is kept, an absolute path starts with the root.
unfoldable pub split_components : List Text → List Component
split_components [] = []
split_components ([] ∷ []) = []
split_components ([] ∷ t ∷ ts) = root_dir ∷ later_components (t ∷ ts)
split_components ((c ∷ s) ∷ ts) =
    if same (c ∷ s) dot then cur_dir ∷ later_components ts else later_components ((c ∷ s) ∷ ts)

-- `components`
unfoldable pub components : Text → List Component
components path = split_components (split b'/' path)

abbrev pub last_name : List Component → Option Text
last_name [] = none
last_name (normal t ∷ []) = some t
last_name (root_dir ∷ []) = none
last_name (cur_dir ∷ []) = none
last_name (parent_dir ∷ []) = none
last_name (c ∷ d ∷ rest) = last_name (d ∷ rest)

-- `file_name`: the last component, if it is a name.
unfoldable pub file_name : Text → Option Text
file_name path = last_name (components path)
