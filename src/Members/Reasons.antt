-- ===== src/Members/Reasons.antt =====
-- The reasons and the evidence that a decision carries are true of the candidate.
use orphanode.Common.{
  Bool, true, false, not, ◌&&◌, ◌||◌, ◌≡◌, refl, ◌⊎◌, inl, inr, Option, none, some, [], ◌∷◌, arith,
  All, All-append, Bool-cases, Option-cases, if_ind, if◌then◌else◌,
}
use orphanode.Common.Text.{Text}
use orphanode.Members.{
  AnalysisMode, MemberVisibility, java_script_private, type_script_private, protected, public,
  MemberCandidate, DeepResolution, not_requested, unavailable, resolved, high, incomplete,
  FindingEvidence, RetentionReason, DeferralReason, MemberDecision, finding, retained, deferred,
  is_fast, is_deep, is_static, receiver_incomplete, override_incomplete, runtime_hazard,
  core_evidence, javascript_private_finding, analyze_typescript_private, analyze_visible_member,
  analyze_by_visibility, analyze_member, resolve_deep, retain, defer, unless_hazard,
}
use orphanode.Members.Sound.{rules_out_receiver, rules_out_override}

abbrev may_reference : DeepResolution → Bool
may_reference not_requested = false
may_reference (unavailable _) = false
may_reference (resolved r _) = r

abbrev has_live_contract : DeepResolution → Bool
has_live_contract not_requested = false
has_live_contract (unavailable _) = false
has_live_contract (resolved _ l) = l

-- What each reason to retain says of the candidate.
abbrev pub Claims : RetentionReason → MemberCandidate → Type 0
Claims RetentionReason.direct_reference c = c.directly_referenced ≡ true
Claims RetentionReason.framework_contract c = c.framework_root ≡ true
Claims RetentionReason.open_world_public_surface c =
    (c.open_world ≡ true) × (c.class_exported ≡ true)
Claims RetentionReason.escaped_public_surface c = c.class_escaped ≡ true
Claims RetentionReason.escaped_type_script_private_surface c =
    (c.class_escaped ≡ true) ⊎ (c.open_world ≡ true) × (c.class_exported ≡ true)
Claims RetentionReason.decorator_contract c = c.hazards.decorated ≡ true
Claims RetentionReason.emitted_decorator_metadata c = c.hazards.emitted_decorator_metadata ≡ true
Claims RetentionReason.unknown_bracket_access c = c.hazards.unknown_bracket_access ≡ true
Claims RetentionReason.reflection_or_enumeration c = c.hazards.reflected_or_enumerated ≡ true
Claims RetentionReason.serialization c = c.hazards.serialized ≡ true
Claims RetentionReason.object_spread c = c.hazards.object_spread ≡ true
Claims RetentionReason.proxy c = c.hazards.proxied ≡ true
Claims RetentionReason.unknown_external_call c = c.hazards.passed_to_unknown_code ≡ true
Claims RetentionReason.external_interface_contract c =
    c.inheritance.implements_external_contract ≡ true
Claims RetentionReason.live_base_contract c = c.inheritance.overrides_live_base_member ≡ true
Claims RetentionReason.live_override c = c.inheritance.has_live_override ≡ true
Claims RetentionReason.deep_receiver_reference c =
    (receiver_incomplete c ≡ true) × (may_reference c.deep_resolution ≡ true)
Claims RetentionReason.deep_live_override_contract c =
    (override_incomplete c ≡ true) × (has_live_contract c.deep_resolution ≡ true)

-- What each reason to defer says of the mode and the candidate.
abbrev pub Defers : DeferralReason → AnalysisMode → MemberCandidate → Option Text → Type 0
Defers DeferralReason.mode_does_not_analyze_visibility mode c w = is_fast mode ≡ true
Defers DeferralReason.receiver_targets_ambiguous mode c w =
    (is_deep mode ≡ false) × (receiver_incomplete c ≡ true)
Defers DeferralReason.override_relationships_incomplete mode c w =
    (is_deep mode ≡ false) × (override_incomplete c ≡ true)
Defers DeferralReason.deep_evidence_missing mode c w =
    (is_deep mode ≡ true) × (c.deep_resolution ≡ not_requested)
Defers DeferralReason.deep_worker_unavailable mode c none = ⊥
Defers DeferralReason.deep_worker_unavailable mode c (some why) =
    (is_deep mode ≡ true) × (c.deep_resolution ≡ unavailable why)

-- What each piece of evidence says of the candidate.
abbrev pub Shows : FindingEvidence → MemberCandidate → Type 0
Shows FindingEvidence.no_semantic_reference c = c.directly_referenced ≡ false
Shows FindingEvidence.java_script_private_is_lexically_scoped c = c.visibility ≡ java_script_private
Shows FindingEvidence.type_script_private_surface_does_not_escape c =
    (c.class_escaped ≡ false) × ((c.open_world ≡ false) ⊎ (c.class_exported ≡ false))
Shows FindingEvidence.closed_world_class c = (c.open_world ≡ false) ⊎ (c.class_exported ≡ false)
Shows FindingEvidence.class_does_not_escape c = c.class_escaped ≡ false
Shows FindingEvidence.static_receiver_is_explicit c = is_static c.id.scope ≡ true
Shows FindingEvidence.receiver_targets_complete c = c.receiver_targets_complete ≡ true
Shows FindingEvidence.override_relationships_complete c =
    c.inheritance.relationships_complete ≡ true
Shows FindingEvidence.deep_receiver_excludes_member c = rules_out_receiver c.deep_resolution ≡ true
Shows FindingEvidence.deep_override_relationships_complete c =
    rules_out_override c.deep_resolution ≡ true

-- A decision whose reason or evidence is true, at the confidence that its kind has.
abbrev pub Truth : AnalysisMode → MemberCandidate → MemberDecision → Type 0
Truth mode c (finding f) =
    All (λ e. Shows e c) f.evidence
    × (f.confidence ≡ high)
    × (f.kind ≡ c.kind)
    × (f.visibility ≡ c.visibility)
Truth mode c (retained r) = Claims r.reason c
Truth mode c (deferred d) = Defers d.reason mode c d.capability_note × (d.confidence ≡ incomplete)

pub record IsTruthful (mode : AnalysisMode) (c : MemberCandidate) (d : MemberDecision)
    : Type 0 where
  pub truth : Truth mode c d

-- What holds where the answers for a visible member are read.
record IsOpenCase (c : MemberCandidate) : Type 0 where
  unreferenced : c.directly_referenced ≡ false
  stays : c.class_escaped ≡ false
  world : (c.open_world ≡ false) ⊎ (c.class_exported ≡ false)

evidence_if :
    (b : Bool) (e : FindingEvidence) (c : MemberCandidate)
    → (b ≡ true → Shows e c)
    → All (λ x. Shows x c) (if b then e ∷ [] else [])
evidence_if true e c h = (h refl, tt)
evidence_if false e c h = tt

receiver_evidence :
    (s r : Bool) (c : MemberCandidate)
    → (s ≡ true → is_static c.id.scope ≡ true)
    → (r ≡ true → c.receiver_targets_complete ≡ true)
    → All
        (λ e. Shows e c)
        (if not s && not r
          then []
          else (if s
              then FindingEvidence.static_receiver_is_explicit
              else FindingEvidence.receiver_targets_complete)
            ∷ [])
receiver_evidence true r c hs hr = (hs refl, tt)
receiver_evidence false true c hs hr = (hr refl, tt)
receiver_evidence false false c hs hr = tt

core_evidence-Shows : (c : MemberCandidate) → IsOpenCase c → All (λ e. Shows e c) (core_evidence c)
unfolding core_evidence
core_evidence-Shows c q = (
  q.unreferenced,
  (
    q.world,
    (
      q.stays,
      All-append (λ e. Shows e c) _ _ (receiver_evidence _ _ c (λ e. e) (λ e. e))
          (evidence_if (c.inheritance.participates_in_inheritance && not (override_incomplete c))
            FindingEvidence.override_relationships_complete c (λ h. ground arith)),
    ),
  ),
)

resolve_deep-Truth :
    (mode : AnalysisMode) (c : MemberCandidate) (r : DeepResolution)
    → c.deep_resolution ≡ r
    → is_deep mode ≡ true
    → IsOpenCase c
    → Truth mode c (resolve_deep c r)
unfolding resolve_deep
resolve_deep-Truth mode c not_requested e d q = ((d, e), refl)
resolve_deep-Truth mode c (unavailable why) e d q = ((d, e), refl)
resolve_deep-Truth mode c (resolved a b) e d q = elim (Bool-cases (receiver_incomplete c && a)) [
  | inl ra ↦ rw (resolve_deep, ra) (ground arith)
  | inr ra ↦ elim (Bool-cases (override_incomplete c && b)) [
    | inl ob ↦ rw (resolve_deep, ra, ob) (ground arith)
    | inr ob ↦
        rw (resolve_deep, ra, ob)
          (
            All-append (λ x. Shows x c) _ _ (core_evidence-Shows c q)
                (All-append (λ x. Shows x c) _ _
                  (evidence_if (receiver_incomplete c) FindingEvidence.deep_receiver_excludes_member
                    c (λ h. ground arith))
                  (evidence_if (override_incomplete c)
                    FindingEvidence.deep_override_relationships_complete c (λ h. ground arith))),
            refl,
            refl,
            refl,
          )
  ]
]

record IsRealHazard (c : MemberCandidate) (o : Option RetentionReason) : Type 0 where
  claim : (r : RetentionReason) → o ≡ some r → Claims r c

hazard-IsReal : (c : MemberCandidate) → IsRealHazard c (runtime_hazard c.hazards)
unfolding runtime_hazard
hazard-IsReal c = record { claim = λ r. real r }
  where
    real : (r : RetentionReason) → runtime_hazard c.hazards ≡ some r → Claims r c
    real RetentionReason.direct_reference e = ground arith
    real _ e = ground arith

unless_hazard-IsTruthful :
    (mode : AnalysisMode) (c : MemberCandidate) (rest : MemberDecision)
    → IsTruthful mode c rest
    → IsTruthful mode c (unless_hazard c rest)
unless_hazard-IsTruthful mode c rest h = elim (Option-cases (runtime_hazard c.hazards)) [
  | inl e ↦ rw (e, unless_hazard) h
  | inr (r, e) ↦ rw (e, unless_hazard) (record { truth = (hazard-IsReal c).claim r e })
]

ambiguous-Truth :
    (mode : AnalysisMode) (c : MemberCandidate) (r o : Bool)
    → (r ≡ true → receiver_incomplete c ≡ true)
    → (o ≡ true → override_incomplete c ≡ true)
    → (r || o) ≡ true
    → not (is_deep mode) ≡ true
    → Truth mode c (
        defer c
          (if r
            then DeferralReason.receiver_targets_ambiguous
            else DeferralReason.override_relationships_incomplete)
          none)
ambiguous-Truth mode c true o hr ho i d = ((ground arith, hr refl), refl)
ambiguous-Truth mode c false true hr ho i d = ((ground arith, ho refl), refl)
ambiguous-Truth mode c false false hr ho i d = cc

visible-IsTruthful :
    (mode : AnalysisMode) (c : MemberCandidate)
    → c.directly_referenced ≡ false
    → IsTruthful mode c (analyze_visible_member mode c)
unfolding analyze_visible_member
visible-IsTruthful mode c n =
    let P = IsTruthful mode c in
    if_ind P (is_fast mode) (λ f. record { truth = (f, refl) })
      λ _.
        if_ind P (c.open_world && c.class_exported) (λ h. record { truth = ground arith })
          λ w.
            if_ind P c.class_escaped (λ h. record { truth = h })
              λ s.
                let q : IsOpenCase c = record {
                  unreferenced = n;
                  stays = s;
                  world = ground arith;
                } in
                unless_hazard-IsTruthful mode c _ (
                  if_ind P (receiver_incomplete c || override_incomplete c)
                    (λ i.
                      if_ind P (not (is_deep mode))
                        (λ d. record {
                          truth =
                              ambiguous-Truth mode c (receiver_incomplete c) (override_incomplete c)
                                (λ e. e) (λ e. e) i d;
                        })
                        (λ d. record {
                          truth = resolve_deep-Truth mode c c.deep_resolution refl (ground arith) q;
                        }))
                    (λ i. record { truth = (core_evidence-Shows c q, refl, refl, refl) }))

typescript_private-IsTruthful :
    (mode : AnalysisMode) (c : MemberCandidate)
    → c.directly_referenced ≡ false
    → IsTruthful mode c (analyze_typescript_private mode c)
unfolding analyze_typescript_private
typescript_private-IsTruthful mode c n =
    let P = IsTruthful mode c in
    if_ind P (is_fast mode) (λ f. record { truth = (f, refl) })
      λ _.
        if_ind P (c.class_escaped || (c.open_world && c.class_exported))
          (λ h. record { truth = ground arith })
          λ s. unless_hazard-IsTruthful mode c _ (record {
            truth = ((n, ((ground arith, ground arith), (ground arith, tt))), refl, refl, refl);
          })

by_visibility-IsTruthful :
    (v : MemberVisibility) (mode : AnalysisMode) (c : MemberCandidate)
    → c.visibility ≡ v
    → c.directly_referenced ≡ false
    → IsTruthful mode c (analyze_by_visibility v mode c)
unfolding analyze_by_visibility javascript_private_finding
by_visibility-IsTruthful java_script_private mode c e n = record {
  truth = ((n, (e, tt)), refl, refl, refl);
}
by_visibility-IsTruthful type_script_private mode c e n = typescript_private-IsTruthful mode c n
by_visibility-IsTruthful protected mode c e n = visible-IsTruthful mode c n
by_visibility-IsTruthful public mode c e n = visible-IsTruthful mode c n

-- Every decision is true of its candidate: the reason of a retention names a fact that holds, the
-- reason of a deferral names what the mode lacks (with the worker's note where the worker was
-- unavailable) at confidence incomplete, and every piece of a finding's evidence holds, at
-- confidence high and with the candidate's kind and visibility.
pub analyze_member-IsTruthful :
    (mode : AnalysisMode) (c : MemberCandidate) → IsTruthful mode c (analyze_member mode c)
unfolding analyze_member
analyze_member-IsTruthful mode c =
    let P = IsTruthful mode c in
    let claim = λ (r : RetentionReason) (h : Claims r c).
      let t : IsTruthful mode c (retain c r) = record { truth = h } in t in
    if_ind P c.directly_referenced (claim _) λ n. if_ind P c.framework_root (claim _) λ _.
      if_ind P c.inheritance.implements_external_contract (claim _) λ _.
        if_ind P c.inheritance.overrides_live_base_member (claim _) λ _.
          if_ind P c.inheritance.has_live_override (claim _) λ _.
            if_ind P c.hazards.decorated (claim _) λ _.
              if_ind P c.hazards.emitted_decorator_metadata (claim _)
                λ _. by_visibility-IsTruthful c.visibility mode c refl n
