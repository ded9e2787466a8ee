-- ===== src/Fixes/Apply.antt =====
-- crates/orphanode/src/fixes/apply.rs: `apply_edits`, which splices the edits of a plan into the
-- bytes of a file. The reads and writes of files around it are not modelled.
pub mod Simultaneous
mod Samples
use orphanode.Common.{ℕ, Bool, List, [], ◌∷◌, ◌++◌, ltb, if◌then◌else◌, length, take, drop}
use mathlib.Core.List.{reverse}
use orphanode.Common.Text.{utf8}
use orphanode.Fixes.Plan.{SourceEdit}

-- `updated.splice(start..end, replacement)`, for a span inside the bytes.
abbrev pub splice : ℕ → ℕ → List ℕ → List ℕ → List ℕ
splice start end replacement bytes = take start bytes ++ (replacement ++ drop end bytes)

pub data EditOutcome : Type 0 where
  edited : List ℕ → EditOutcome
  span_out_of_bounds : (start end_ size : ℕ) → EditOutcome
  panicked : EditOutcome

-- The loop over the edits from the last to the first; `splice` panics on a span with its start
-- behind its end.
unfoldable pub apply_each : List ℕ → List SourceEdit → EditOutcome
apply_each updated [] = edited updated
apply_each updated (e ∷ es) =
    if ltb (length updated) e.span.end
    then span_out_of_bounds e.span.start e.span.end (length updated)
    else if ltb e.span.end e.span.start
    then EditOutcome.panicked
    else apply_each (splice e.span.start e.span.end (utf8 e.replacement) updated) es

unfoldable pub apply_edits : List ℕ → List SourceEdit → EditOutcome
apply_edits original edits = apply_each original (reverse edits)
