-- ===== src/Dependencies/Facts.antt =====
-- The data of crates/orphanode/src/analysis/dependencies.rs. A field `package` of the source is
-- `pkg` here. Maps and sets are lists in the order of their keys.
use orphanode.Common.{ℕ, Bool, Option, none, some, List, [], ◌≡◌, arith, refl}
use orphanode.Common.Order.{Ord, rank_ord, pair_ord, text_ord, nat_ord, key_ord}
use orphanode.Common.Text.{Text}

pub data DependencyCategory : Type 0 where
  runtime development peer optional : DependencyCategory

pub record DependencyManifest : Type 0 where
  pub workspace : Text
  pub dependencies : List (Text × Text)
  pub dev_dependencies : List (Text × Text)
  pub peer_dependencies : List (Text × Text)
  pub optional_dependencies : List (Text × Text)
  pub bundled_dependencies : List Text

pub data DependencyEvidenceKind : Type 0 where
  binary bundled_dependency config public_type script source_import type_only_import :
      DependencyEvidenceKind

pub data DependencyEvidenceScope : Type 0 where
  runtime_scope development_scope contract_scope : DependencyEvidenceScope

pub record DependencyEvidence : Type 0 where
  pub workspace : Text
  pub reference : Text
  pub kind : DependencyEvidenceKind
  pub scope : DependencyEvidenceScope
  pub source : Text
  pub reachable : Bool

pub record DependencyBlocker : Type 0 where
  pub workspace : Text
  pub pkg : Option Text
  pub reason : Text

pub record DependencyAnalysisInput : Type 0 where
  pub root_workspace : Text
  pub manifests : List DependencyManifest
  pub evidence : List DependencyEvidence
  pub binary_owners : List (Text × Text)
  pub blockers : List DependencyBlocker

pub data DependencyOutcomeKind : Type 0 where
  retained unused unreferenced_peer unreferenced_optional unlisted misplaced undetermined :
      DependencyOutcomeKind

pub data DependencyConfidence : Type 0 where
  not_applicable medium high : DependencyConfidence

pub record NormalizedDependencyEvidence : Type 0 where
  pub workspace : Text
  pub pkg : Text
  pub kind : DependencyEvidenceKind
  pub scope : DependencyEvidenceScope
  pub source : Text

pub record DependencyOutcome : Type 0 where
  pub workspace : Text
  pub pkg : Text
  pub declared_workspace : Option Text
  pub categories : List DependencyCategory
  pub kind : DependencyOutcomeKind
  pub confidence : DependencyConfidence
  pub evidence : List NormalizedDependencyEvidence
  pub blockers : List Text

pub record UnmappedBinary : Type 0 where
  pub workspace : Text
  pub binary : Text
  pub source : Text

pub record DependencyAnalysis : Type 0 where
  pub outcomes : List DependencyOutcome
  pub unmapped_binaries : List UnmappedBinary

pub record Declaration : Type 0 where
  pub categories : List DependencyCategory
  pub alias_targets : List Text
  pub bundled : Bool

-- The derived orders.
abbrev category_rank : DependencyCategory → ℕ
category_rank runtime = 0
category_rank development = 1
category_rank peer = 2
category_rank optional = 3

pub category_rank_injective : (a b : DependencyCategory) → category_rank a ≡ category_rank b → a ≡ b
category_rank_injective runtime runtime h = refl
category_rank_injective development development h = refl
category_rank_injective peer peer h = refl
category_rank_injective optional optional h = refl
category_rank_injective _ _ h = ground arith

instance abbrev pub category_ord : Ord DependencyCategory
category_ord = rank_ord category_rank category_rank_injective

abbrev pub evidence_kind_rank : DependencyEvidenceKind → ℕ
evidence_kind_rank binary = 0
evidence_kind_rank bundled_dependency = 1
evidence_kind_rank config = 2
evidence_kind_rank public_type = 3
evidence_kind_rank script = 4
evidence_kind_rank source_import = 5
evidence_kind_rank type_only_import = 6

abbrev pub evidence_scope_rank : DependencyEvidenceScope → ℕ
evidence_scope_rank runtime_scope = 0
evidence_scope_rank development_scope = 1
evidence_scope_rank contract_scope = 2

abbrev pub outcome_kind_rank : DependencyOutcomeKind → ℕ
outcome_kind_rank retained = 0
outcome_kind_rank unused = 1
outcome_kind_rank unreferenced_peer = 2
outcome_kind_rank unreferenced_optional = 3
outcome_kind_rank unlisted = 4
outcome_kind_rank misplaced = 5
outcome_kind_rank undetermined = 6

pub kind_of_rank :
    (a b : DependencyEvidenceKind) → evidence_kind_rank a ≡ evidence_kind_rank b → a ≡ b
kind_of_rank a b h = ground arith

pub scope_of_rank :
    (a b : DependencyEvidenceScope) → evidence_scope_rank a ≡ evidence_scope_rank b → a ≡ b
scope_of_rank a b h = ground arith

pub outcome_kind_of_rank :
    (a b : DependencyOutcomeKind) → outcome_kind_rank a ≡ outcome_kind_rank b → a ≡ b
outcome_kind_of_rank a b h = ground arith

abbrev kind_ord : Ord DependencyEvidenceKind
kind_ord = rank_ord evidence_kind_rank kind_of_rank

abbrev scope_ord : Ord DependencyEvidenceScope
scope_ord = rank_ord evidence_scope_rank scope_of_rank

abbrev pub outcome_kind_ord : Ord DependencyOutcomeKind
outcome_kind_ord = rank_ord outcome_kind_rank outcome_kind_of_rank

abbrev pub Names : Type 0
Names = Text × Text

instance abbrev pub names_ord : Ord (Text × Text)
names_ord = pair_ord text_ord text_ord

abbrev EvidenceKey : Type 0
EvidenceKey = Names × (DependencyEvidenceKind × (DependencyEvidenceScope × Text))

abbrev evidence_key : NormalizedDependencyEvidence → EvidenceKey
evidence_key e = ((e.workspace, e.pkg), (e.kind, (e.scope, e.source)))

pub evidence_key_injective :
    (a b : NormalizedDependencyEvidence) → evidence_key a ≡ evidence_key b → a ≡ b
evidence_key_injective a b h = ground arith

instance abbrev pub evidence_ord : Ord NormalizedDependencyEvidence
evidence_ord =
    key_ord (pair_ord names_ord (pair_ord kind_ord (pair_ord scope_ord text_ord))) evidence_key
      evidence_key_injective

abbrev unmapped_key : UnmappedBinary → Text × Names
unmapped_key u = (u.workspace, (u.binary, u.source))

pub unmapped_key_injective : (a b : UnmappedBinary) → unmapped_key a ≡ unmapped_key b → a ≡ b
unmapped_key_injective a b h = ground arith

instance abbrev pub unmapped_ord : Ord UnmappedBinary
unmapped_ord = key_ord (pair_ord text_ord names_ord) unmapped_key unmapped_key_injective

-- A blocked package, or `none` for all of a workspace, with the reason; `None` is below `Some`.
abbrev pub Blocker : Type 0
Blocker = Option Text × Text

abbrev blocked_key : Option Text → ℕ × Text
blocked_key none = (0, [])
blocked_key (some name) = (1, name)

pub blocked_key_injective : (a b : Option Text) → blocked_key a ≡ blocked_key b → a ≡ b
blocked_key_injective none none h = refl
blocked_key_injective none (some b) h = ground arith
blocked_key_injective (some a) none h = ground arith
blocked_key_injective (some a) (some b) h = ground arith

instance abbrev pub blocker_ord : Ord (Option Text × Text)
blocker_ord =
    pair_ord (key_ord (pair_ord nat_ord text_ord) blocked_key blocked_key_injective) text_ord
