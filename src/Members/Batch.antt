-- ===== src/Members/Batch.antt =====
-- A batch of candidates: one decision each, in the order of their ids.
use mathlib.Core.List.{Perm}
use orphanode.Common.{◌≡◌, refl, List, map, arith}
use orphanode.Common.Sorting.{sort_by-perm, sort_by-IsSortedBy, IsSortedBy}
use orphanode.Members.{
  AnalysisMode, MemberVisibility, java_script_private, type_script_private, protected, public,
  MemberCandidate, DeepResolution, not_requested, unavailable, resolved, javascript_private_finding,
  analyze_typescript_private, analyze_visible_member, analyze_by_visibility, analyze_member,
  resolve_deep, decision_id, id_key, id_key_ord, id_leq, analyze_members,
}

resolve_deep-id : (c : MemberCandidate) (r : DeepResolution) → decision_id (resolve_deep c r) ≡ c.id
unfolding resolve_deep decision_id
resolve_deep-id c not_requested = refl
resolve_deep-id c (unavailable _) = refl
resolve_deep-id c (resolved a b) = ground arith

by_visibility-id :
    (v : MemberVisibility) (mode : AnalysisMode) (c : MemberCandidate)
    → decision_id (analyze_by_visibility v mode c) ≡ c.id
unfolding analyze_by_visibility analyze_typescript_private analyze_visible_member decision_id
    javascript_private_finding
by_visibility-id java_script_private mode c = refl
by_visibility-id type_script_private mode c = ground arith
by_visibility-id protected mode c = ground (arith, resolve_deep-id c c.deep_resolution)
by_visibility-id public mode c = ground (arith, resolve_deep-id c c.deep_resolution)

pub decision_id-analyze_member :
    (mode : AnalysisMode) (c : MemberCandidate) → decision_id (analyze_member mode c) ≡ c.id
unfolding analyze_member decision_id
decision_id-analyze_member mode c = ground (arith, by_visibility-id c.visibility mode c)

-- A batch gives each candidate the decision that it gets alone, as often as it stands in the batch;
-- each decision names its own candidate; and the decisions are ordered by class, name and scope.
pub analyze_members-perm :
    (mode : AnalysisMode) (cs : List MemberCandidate)
    → Perm (analyze_members mode cs) (map (analyze_member mode) cs)
      × ((c : MemberCandidate) → decision_id (analyze_member mode c) ≡ c.id)
      × IsSortedBy (λ a b. id_leq (decision_id a) (decision_id b)) (analyze_members mode cs)
unfolding analyze_members
analyze_members-perm mode cs = (
  sort_by-perm _ (map (analyze_member mode) cs),
  decision_id-analyze_member mode,
  sort_by-IsSortedBy _ (λ a b. id_key_ord.total (id_key (decision_id a)) (id_key (decision_id b)))
      (λ a b c.
        id_key_ord.trans (id_key (decision_id a)) (id_key (decision_id b)) (id_key (decision_id c)))
      (map (analyze_member mode) cs),
)
