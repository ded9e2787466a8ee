-- ===== src/Fixes/Apply/Samples.antt =====
-- Edits, and the theorems at them.
use orphanode.Common.{ℕ, ◌≤◌, ◌<◌, ◌≡◌, refl, List, [], ◌∷◌, ◌++◌, length}
use orphanode.Common.Text.{Text, text, utf8}
use orphanode.Common.Result.{ok, err}
use orphanode.Fixes.ProjectPath.{ProjectPath, overlapping_edits}
use orphanode.Fixes.Plan.{SourceEdit, validate_non_overlapping}
use orphanode.Fixes.Apply.{edited, span_out_of_bounds, apply_each, apply_edits}
use orphanode.Fixes.Apply.Simultaneous.{simultaneous, apply_edits-simultaneous}

abbrev path : ProjectPath
path = record { value = text "a.ts" }

abbrev edit : ℕ → ℕ → Text → SourceEdit
edit s e t = record { span = record { start = s; end = e }; replacement = t }

abbrev original : List ℕ
original = text "abcdefgh"

abbrev edits : List SourceEdit
edits = edit 1 3 (text "XYZ") ∷ edit 3 3 (text "é") ∷ edit 6 8 [] ∷ []

checked : validate_non_overlapping path edits ≡ ok tt
unfolding validate_non_overlapping
checked = refl

overlap :
    validate_non_overlapping path (edit 1 3 [] ∷ edit 2 4 [] ∷ [])
    ≡ err (overlapping_edits path.value)
unfolding validate_non_overlapping
overlap = refl

apply_runs : apply_edits original edits ≡ edited (text "aXYZ" ++ (0xc3 ∷ 0xa9 ∷ text "def"))
unfolding apply_edits apply_each utf8
apply_runs = refl

apply_edits-simultaneous_example :
    (8 ≤ length original → apply_edits original edits ≡ edited (simultaneous 0 original edits))
    × (length original < 8 → apply_edits original edits ≡ span_out_of_bounds 6 8 (length original))
apply_edits-simultaneous_example =
    apply_edits-simultaneous path original (edit 1 3 (text "XYZ") ∷ edit 3 3 (text "é") ∷ [])
      (edit 6 8 []) checked
