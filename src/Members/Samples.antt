-- ===== src/Members/Samples.antt =====
-- Small candidates, and the theorems at them.
use mathlib.Core.List.{Perm}
use orphanode.Common.{true, false, ◌≡◌, refl, ◌↔◌, inl, inr, [], ◌∷◌, map}
use orphanode.Common.Text.{text}
use orphanode.Common.Sorting.{IsSortedBy}
use orphanode.Members.{
  AnalysisMode, fast, balanced, deep, type_script, MemberVisibility, java_script_private,
  type_script_private, protected, public, instance_scope, method, MemberHazards, MemberCandidate,
  resolved, not_requested, MemberFinding, finding, analyze_member, analyze_members, decision_id,
  id_leq, analyze_by_visibility, analyze_visible_member, runtime_hazard, core_evidence, find,
  javascript_private_finding, no_semantic_reference, java_script_private_is_lexically_scoped,
}
use orphanode.Members.Sound.{IsUnclaimed, IsProvable, analyze_member-eq-finding}
use orphanode.Members.Modes.{analyze_member-monotone}
use orphanode.Members.Reasons.{IsTruthful, analyze_member-IsTruthful}
use orphanode.Members.Batch.{analyze_members-perm}

abbrev no_hazards : MemberHazards
no_hazards = record {
  decorated = false;
  emitted_decorator_metadata = false;
  unknown_bracket_access = false;
  reflected_or_enumerated = false;
  serialized = false;
  object_spread = false;
  proxied = false;
  passed_to_unknown_code = false;
}

abbrev candidate : MemberVisibility → MemberCandidate
candidate v = record {
  id = record { declaring_class = text "Service"; name = text "member"; scope = instance_scope };
  language = type_script;
  visibility = v;
  kind = method;
  directly_referenced = false;
  framework_root = false;
  class_exported = false;
  class_escaped = false;
  open_world = false;
  receiver_targets_complete = false;
  hazards = no_hazards;
  inheritance = record {
    participates_in_inheritance = false;
    relationships_complete = true;
    overrides_live_base_member = false;
    has_live_override = false;
    implements_external_contract = false;
  };
  deep_resolution = resolved false false;
}

private_runs :
    analyze_member fast (candidate java_script_private)
    ≡ find
        (candidate java_script_private)
        (no_semantic_reference ∷ java_script_private_is_lexically_scoped ∷ [])
unfolding analyze_member analyze_by_visibility javascript_private_finding
private_runs = refl

analyze_member-eq-finding_example :
    ((f : MemberFinding) × (analyze_member deep (candidate public) ≡ finding f))
    ↔ (IsUnclaimed (candidate public) × IsProvable public deep (candidate public))
analyze_member-eq-finding_example = analyze_member-eq-finding deep (candidate public)

public_found : (f : MemberFinding) × (analyze_member deep (candidate public) ≡ finding f)
public_found = analyze_member-eq-finding_example.1 (
  record {
    no_reference = refl;
    no_framework = refl;
    no_contract = refl;
    no_live_base = refl;
    no_live_override = refl;
    no_decorator = refl;
    no_metadata = refl;
  },
  (
    refl,
    record {
      stays = refl;
      world = inl refl;
      quiet = record {
        no_brackets = refl;
        no_reflection = refl;
        no_serialization = refl;
        no_spread = refl;
        no_proxy = refl;
        no_unknown_call = refl;
      };
    },
    (inr (inr (refl, refl)), inl refl),
  ),
)

abbrev private_finding : MemberFinding
private_finding = record {
  id = (candidate java_script_private).id;
  kind = method;
  visibility = java_script_private;
  confidence = orphanode.Members.high;
  evidence = no_semantic_reference ∷ java_script_private_is_lexically_scoped ∷ [];
}

analyze_member-monotone_example :
    (analyze_member fast (candidate java_script_private) ≡ finding private_finding
      → (mode : AnalysisMode)
      → analyze_member mode (candidate java_script_private) ≡ finding private_finding)
    × (analyze_member balanced (candidate java_script_private) ≡ finding private_finding
        → analyze_member deep (candidate java_script_private) ≡ finding private_finding)
analyze_member-monotone_example =
    analyze_member-monotone (candidate java_script_private) private_finding

private_in_deep : analyze_member deep (candidate java_script_private) ≡ finding private_finding
private_in_deep = analyze_member-monotone_example.0 private_runs deep

analyze_member-IsTruthful_example :
    IsTruthful balanced (candidate public) (analyze_member balanced (candidate public))
analyze_member-IsTruthful_example = analyze_member-IsTruthful balanced (candidate public)

analyze_members-perm_example :
    Perm
      (analyze_members deep (candidate public ∷ candidate java_script_private ∷ []))
      (map (analyze_member deep) (candidate public ∷ candidate java_script_private ∷ []))
    × ((c : MemberCandidate) → decision_id (analyze_member deep c) ≡ c.id)
    × IsSortedBy
        (λ a b. id_leq (decision_id a) (decision_id b))
        (analyze_members deep (candidate public ∷ candidate java_script_private ∷ []))
analyze_members-perm_example =
    analyze_members-perm deep (candidate public ∷ candidate java_script_private ∷ [])
