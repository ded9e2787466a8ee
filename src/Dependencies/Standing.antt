-- ===== src/Dependencies/Standing.antt =====
-- What the report says of a package that reachable evidence uses.
use mathlib.Core.List.Memᴰ
use orphanode.Common.{List, ◌≡◌, ◌⊎◌, Memᴰ}
use orphanode.Common.Order.{text_ord}
use orphanode.Common.Text.{Text}
use orphanode.Dependencies.Facts.{
  DependencyManifest, DependencyOutcomeKind, retained, unlisted, misplaced, names_ord, evidence_ord,
  unmapped_ord, blocker_ord,
}
use orphanode.Dependencies.Declared.{IsDeclaredIn}

-- What the outcome of a used package says: where it is declared.
abbrev pub Standing : Text → List DependencyManifest → Text → Text → DependencyOutcomeKind → Type 0
Standing root manifests workspace name kind =
    (IsDeclaredIn manifests workspace name × (kind ≡ retained))
    ⊎ ((¬ IsDeclaredIn manifests workspace name)
        × ((IsDeclaredIn manifests root name × (kind ≡ misplaced))
            ⊎ ((¬ IsDeclaredIn manifests root name) × (kind ≡ unlisted))))
