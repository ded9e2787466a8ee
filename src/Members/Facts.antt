-- ===== src/Members/Facts.antt =====
-- The data of crates/orphanode/src/analysis/members.rs: candidates and decisions.
use orphanode.Common.{Bool, Option, List}
use orphanode.Common.Text.{Text}

pub data AnalysisMode : Type 0 where
  fast balanced deep : AnalysisMode

pub data MemberLanguage : Type 0 where
  java_script type_script : MemberLanguage

pub data MemberVisibility : Type 0 where
  java_script_private type_script_private protected public : MemberVisibility

-- `MemberScope::Instance` and `MemberScope::Static`.
pub data MemberScope : Type 0 where
  instance_scope static_scope : MemberScope

pub data MemberKind : Type 0 where
  method field getter setter accessor : MemberKind

pub record MemberId : Type 0 where
  pub declaring_class : Text
  pub name : Text
  pub scope : MemberScope

pub record MemberHazards : Type 0 where
  pub decorated : Bool
  pub emitted_decorator_metadata : Bool
  pub unknown_bracket_access : Bool
  pub reflected_or_enumerated : Bool
  pub serialized : Bool
  pub object_spread : Bool
  pub proxied : Bool
  pub passed_to_unknown_code : Bool

pub record InheritanceFacts : Type 0 where
  pub participates_in_inheritance : Bool
  pub relationships_complete : Bool
  pub overrides_live_base_member : Bool
  pub has_live_override : Bool
  pub implements_external_contract : Bool

pub data DeepResolution : Type 0 where
  not_requested : DeepResolution
  unavailable : (capability_note : Text) → DeepResolution
  resolved : (receiver_may_reference_member live_override_contract : Bool) → DeepResolution

pub record MemberCandidate : Type 0 where
  pub id : MemberId
  pub language : MemberLanguage
  pub visibility : MemberVisibility
  pub kind : MemberKind
  pub directly_referenced : Bool
  pub framework_root : Bool
  pub class_exported : Bool
  pub class_escaped : Bool
  pub open_world : Bool
  pub receiver_targets_complete : Bool
  pub hazards : MemberHazards
  pub inheritance : InheritanceFacts
  pub deep_resolution : DeepResolution

pub data MemberConfidence : Type 0 where
  high medium low incomplete : MemberConfidence

pub data FindingEvidence : Type 0 where
  no_semantic_reference java_script_private_is_lexically_scoped : FindingEvidence
  type_script_private_surface_does_not_escape closed_world_class : FindingEvidence
  class_does_not_escape static_receiver_is_explicit receiver_targets_complete : FindingEvidence
  override_relationships_complete deep_receiver_excludes_member : FindingEvidence
  deep_override_relationships_complete : FindingEvidence

pub data RetentionReason : Type 0 where
  direct_reference framework_contract open_world_public_surface : RetentionReason
  escaped_public_surface escaped_type_script_private_surface decorator_contract : RetentionReason
  emitted_decorator_metadata unknown_bracket_access reflection_or_enumeration : RetentionReason
  serialization object_spread proxy unknown_external_call : RetentionReason
  external_interface_contract live_base_contract live_override : RetentionReason
  deep_receiver_reference deep_live_override_contract : RetentionReason

pub data DeferralReason : Type 0 where
  mode_does_not_analyze_visibility receiver_targets_ambiguous : DeferralReason
  override_relationships_incomplete deep_evidence_missing deep_worker_unavailable : DeferralReason

pub record MemberFinding : Type 0 where
  pub id : MemberId
  pub kind : MemberKind
  pub visibility : MemberVisibility
  pub confidence : MemberConfidence
  pub evidence : List FindingEvidence

pub record MemberRetention : Type 0 where
  pub id : MemberId
  pub reason : RetentionReason

pub record MemberDeferral : Type 0 where
  pub id : MemberId
  pub reason : DeferralReason
  pub confidence : MemberConfidence
  pub capability_note : Option Text

pub data MemberDecision : Type 0 where
  finding : MemberFinding → MemberDecision
  retained : MemberRetention → MemberDecision
  deferred : MemberDeferral → MemberDecision
