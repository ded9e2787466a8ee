-- ===== src/Members.antt =====
-- crates/orphanode/src/analysis/members.rs: when an unused class member may be reported.
-- The data types stand in `Facts`; `&candidate` is the candidate itself.
mod Facts
pub mod Sound
pub mod Modes
pub mod Reasons
pub mod Batch
mod Samples
pub use Facts.*
use orphanode.Common.{
  ℕ, Bool, true, false, not, ◌&&◌, ◌||◌, Option, none, some, List, [], ◌∷◌, ◌++◌, map,
  if◌then◌else◌, ◌≡◌, arith,
}
use orphanode.Common.Order.{Ord, leq, pair_ord, rank_ord, text_ord, nat_ord}
use orphanode.Common.Sorting.{sort_by}
use orphanode.Common.Text.{Text}

unfoldable pub decision_id : MemberDecision → MemberId
decision_id (finding f) = f.id
decision_id (retained r) = r.id
decision_id (deferred d) = d.id

unfoldable pub finding_confidence : MemberDecision → Option MemberConfidence
finding_confidence (finding f) = some f.confidence
finding_confidence (retained _) = none
finding_confidence (deferred _) = none

unfoldable pub confidence : MemberDecision → Option MemberConfidence
confidence (finding f) = some f.confidence
confidence (deferred d) = some d.confidence
confidence (retained _) = none

-- The private constructors `finding`, `retained` and `deferred` of the source.
abbrev pub find : MemberCandidate → List FindingEvidence → MemberDecision
find c evidence = finding (record {
  id = c.id;
  kind = c.kind;
  visibility = c.visibility;
  confidence = high;
  evidence = evidence;
})

abbrev pub retain : MemberCandidate → RetentionReason → MemberDecision
retain c reason = retained (record { id = c.id; reason = reason })

abbrev pub defer : MemberCandidate → DeferralReason → Option Text → MemberDecision
defer c reason note =
    deferred
      (record { id = c.id; reason = reason; confidence = incomplete; capability_note = note })

unfoldable pub runtime_hazard : MemberHazards → Option RetentionReason
runtime_hazard h =
    if h.unknown_bracket_access
    then some unknown_bracket_access
    else if h.reflected_or_enumerated
    then some reflection_or_enumeration
    else if h.serialized
    then some serialization
    else if h.object_spread
    then some object_spread
    else if h.proxied
    then some proxy
    else if h.passed_to_unknown_code
    then some unknown_external_call
    else none

unfoldable pub javascript_private_finding : MemberCandidate → MemberDecision
javascript_private_finding c =
    find c (no_semantic_reference ∷ java_script_private_is_lexically_scoped ∷ [])

abbrev pub is_fast : AnalysisMode → Bool
is_fast fast = true
is_fast balanced = false
is_fast deep = false

abbrev pub is_deep : AnalysisMode → Bool
is_deep fast = false
is_deep balanced = false
is_deep deep = true

abbrev pub is_static : MemberScope → Bool
is_static instance_scope = false
is_static static_scope = true

-- An early return on a runtime hazard, and the rest of the function.
abbrev pub unless_hazard : MemberCandidate → MemberDecision → MemberDecision
unless_hazard c rest = elim (runtime_hazard c.hazards) [
  | some reason ↦ retain c reason
  | none ↦ rest
]

unfoldable pub analyze_typescript_private : AnalysisMode → MemberCandidate → MemberDecision
analyze_typescript_private mode c =
    if is_fast mode
    then defer c mode_does_not_analyze_visibility none
    else if c.class_escaped || (c.open_world && c.class_exported)
    then retain c escaped_type_script_private_surface
    else unless_hazard c (
        find c (
          no_semantic_reference ∷ type_script_private_surface_does_not_escape
          ∷ class_does_not_escape ∷ []))

abbrev pub receiver_incomplete : MemberCandidate → Bool
receiver_incomplete c = not (is_static c.id.scope) && not c.receiver_targets_complete

abbrev pub override_incomplete : MemberCandidate → Bool
override_incomplete c =
    c.inheritance.participates_in_inheritance && not c.inheritance.relationships_complete

-- The evidence gathered before the worker's answers are read.
unfoldable pub core_evidence : MemberCandidate → List FindingEvidence
core_evidence c =
    (no_semantic_reference ∷ closed_world_class ∷ class_does_not_escape ∷ [])
    ++ ((if receiver_incomplete c
          then []
          else (if is_static c.id.scope
              then static_receiver_is_explicit
              else receiver_targets_complete)
            ∷ [])
        ++ (if c.inheritance.participates_in_inheritance && not (override_incomplete c)
            then override_relationships_complete ∷ []
            else []))

unfoldable pub resolve_deep : MemberCandidate → DeepResolution → MemberDecision
resolve_deep c not_requested = defer c deep_evidence_missing none
resolve_deep c (unavailable note) = defer c deep_worker_unavailable (some note)
resolve_deep c (resolved receiver_may_reference_member live_override_contract) =
    if receiver_incomplete c && receiver_may_reference_member
    then retain c deep_receiver_reference
    else if override_incomplete c && live_override_contract
    then retain c deep_live_override_contract
    else find c (
        core_evidence c
        ++ ((if receiver_incomplete c then deep_receiver_excludes_member ∷ [] else [])
            ++ (if override_incomplete c then deep_override_relationships_complete ∷ [] else [])))

unfoldable pub analyze_visible_member : AnalysisMode → MemberCandidate → MemberDecision
analyze_visible_member mode c =
    if is_fast mode
    then defer c mode_does_not_analyze_visibility none
    else if c.open_world && c.class_exported
    then retain c open_world_public_surface
    else if c.class_escaped
    then retain c escaped_public_surface
    else unless_hazard c (
        if receiver_incomplete c || override_incomplete c
        then (if not (is_deep mode)
            then defer c
                (if receiver_incomplete c
                  then receiver_targets_ambiguous
                  else override_relationships_incomplete)
                none
            else resolve_deep c c.deep_resolution)
        else find c (core_evidence c))

-- The `match` on the visibility.
unfoldable pub analyze_by_visibility :
    MemberVisibility → AnalysisMode → MemberCandidate → MemberDecision
analyze_by_visibility java_script_private mode c = javascript_private_finding c
analyze_by_visibility type_script_private mode c = analyze_typescript_private mode c
analyze_by_visibility protected mode c = analyze_visible_member mode c
analyze_by_visibility public mode c = analyze_visible_member mode c

unfoldable pub analyze_member : AnalysisMode → MemberCandidate → MemberDecision
analyze_member mode c =
    if c.directly_referenced
    then retain c direct_reference
    else if c.framework_root
    then retain c framework_contract
    else if c.inheritance.implements_external_contract
    then retain c external_interface_contract
    else if c.inheritance.overrides_live_base_member
    then retain c live_base_contract
    else if c.inheritance.has_live_override
    then retain c live_override
    else if c.hazards.decorated
    then retain c decorator_contract
    else if c.hazards.emitted_decorator_metadata
    then retain c emitted_decorator_metadata
    else analyze_by_visibility c.visibility mode c

-- The derived order of `MemberId`: class, then name, then scope.
abbrev pub scope_rank : MemberScope → ℕ
scope_rank instance_scope = 0
scope_rank static_scope = 1

pub scope_rank_injective : (a b : MemberScope) → scope_rank a ≡ scope_rank b → a ≡ b
scope_rank_injective a b e = ground arith

abbrev pub id_key : MemberId → Text × (Text × MemberScope)
id_key i = (i.declaring_class, (i.name, i.scope))

abbrev pub id_key_ord : Ord (Text × (Text × MemberScope))
id_key_ord = pair_ord text_ord (pair_ord text_ord (rank_ord scope_rank scope_rank_injective))

abbrev pub id_leq : MemberId → MemberId → Bool
id_leq a b = id_key_ord.leq (id_key a) (id_key b)

unfoldable pub analyze_members : AnalysisMode → List MemberCandidate → List MemberDecision
analyze_members mode candidates =
    sort_by (λ a b. id_leq (decision_id a) (decision_id b)) (map (analyze_member mode) candidates)
