-- ===== src/Members/Sound.antt =====
-- When a member is reported: exactly when nothing in its facts can hold a use of it.
use orphanode.Common.{Bool, true, false, not, ◌≡◌, refl, ◌⊎◌, ◌↔◌, none, arith}
use orphanode.Members.{
  AnalysisMode, MemberVisibility, java_script_private, type_script_private, protected, public,
  MemberHazards, MemberCandidate, DeepResolution, not_requested, unavailable, resolved,
  MemberFinding, MemberDecision, finding, retained, deferred, is_fast, is_deep, is_static,
  runtime_hazard, javascript_private_finding, analyze_typescript_private, analyze_visible_member,
  analyze_by_visibility, analyze_member, resolve_deep,
}

-- No rule that applies to every visibility retains the member.
pub record IsUnclaimed (c : MemberCandidate) : Type 0 where
  pub no_reference : c.directly_referenced ≡ false
  pub no_framework : c.framework_root ≡ false
  pub no_contract : c.inheritance.implements_external_contract ≡ false
  pub no_live_base : c.inheritance.overrides_live_base_member ≡ false
  pub no_live_override : c.inheritance.has_live_override ≡ false
  pub no_decorator : c.hazards.decorated ≡ false
  pub no_metadata : c.hazards.emitted_decorator_metadata ≡ false

-- Nothing at run time can reach the member by another way than its name.
pub record IsHazardFree (h : MemberHazards) : Type 0 where
  pub no_brackets : h.unknown_bracket_access ≡ false
  pub no_reflection : h.reflected_or_enumerated ≡ false
  pub no_serialization : h.serialized ≡ false
  pub no_spread : h.object_spread ≡ false
  pub no_proxy : h.proxied ≡ false
  pub no_unknown_call : h.passed_to_unknown_code ≡ false

-- The class cannot be reached from code outside of the analysis.
pub record IsEnclosed (c : MemberCandidate) : Type 0 where
  pub stays : c.class_escaped ≡ false
  pub world : (c.open_world ≡ false) ⊎ (c.class_exported ≡ false)
  pub quiet : IsHazardFree c.hazards

-- What the worker's answer rules out.
abbrev pub rules_out_receiver : DeepResolution → Bool
rules_out_receiver not_requested = false
rules_out_receiver (unavailable _) = false
rules_out_receiver (resolved may_reference _) = not may_reference

abbrev pub rules_out_override : DeepResolution → Bool
rules_out_override not_requested = false
rules_out_override (unavailable _) = false
rules_out_override (resolved _ live_contract) = not live_contract

-- Every receiver of the member's name is known, by the core facts or, in deep mode, by the worker.
abbrev pub ReceiverSettled : AnalysisMode → MemberCandidate → Type 0
ReceiverSettled mode c =
    (is_static c.id.scope ≡ true)
    ⊎ ((c.receiver_targets_complete ≡ true)
        ⊎ (is_deep mode ≡ true) × (rules_out_receiver c.deep_resolution ≡ true))

abbrev pub OverrideSettled : AnalysisMode → MemberCandidate → Type 0
OverrideSettled mode c =
    (c.inheritance.participates_in_inheritance ≡ false)
    ⊎ ((c.inheritance.relationships_complete ≡ true)
        ⊎ (is_deep mode ≡ true) × (rules_out_override c.deep_resolution ≡ true))

abbrev pub Settled : AnalysisMode → MemberCandidate → Type 0
Settled mode c = ReceiverSettled mode c × OverrideSettled mode c

-- What the analysis must know, by visibility.
abbrev pub IsProvable : MemberVisibility → AnalysisMode → MemberCandidate → Type 0
IsProvable java_script_private mode c = Unit
IsProvable type_script_private mode c = (is_fast mode ≡ false) × IsEnclosed c
IsProvable protected mode c = (is_fast mode ≡ false) × IsEnclosed c × Settled mode c
IsProvable public mode c = (is_fast mode ≡ false) × IsEnclosed c × Settled mode c

abbrev pub is_finding : MemberDecision → Bool
is_finding (finding _) = true
is_finding (retained _) = false
is_finding (deferred _) = false

runtime_hazard-none : (h : MemberHazards) → (runtime_hazard h ≡ none) ↔ IsHazardFree h
unfolding runtime_hazard
runtime_hazard-none h = (λ e. ground arith, λ q. ground arith)

typescript_private-finding :
    (mode : AnalysisMode) (c : MemberCandidate)
    → (is_finding (analyze_typescript_private mode c) ≡ true)
      ↔ ((is_fast mode ≡ false) × IsEnclosed c)
unfolding analyze_typescript_private
typescript_private-finding mode c = (
  λ e. ground (arith, runtime_hazard-none c.hazards),
  λ q. ground (arith, runtime_hazard-none c.hazards),
)

visible-finding :
    (mode : AnalysisMode) (c : MemberCandidate)
    → (is_finding (analyze_visible_member mode c) ≡ true)
      ↔ ((is_fast mode ≡ false) × IsEnclosed c × Settled mode c)
unfolding analyze_visible_member resolve_deep
visible-finding mode c = (
  λ e. ground (arith, runtime_hazard-none c.hazards),
  λ q. ground (arith, runtime_hazard-none c.hazards),
)

by_visibility-finding :
    (v : MemberVisibility) (mode : AnalysisMode) (c : MemberCandidate)
    → (is_finding (analyze_by_visibility v mode c) ≡ true) ↔ IsProvable v mode c
unfolding analyze_by_visibility javascript_private_finding
by_visibility-finding java_script_private mode c = (λ e. tt, λ q. refl)
by_visibility-finding type_script_private mode c = typescript_private-finding mode c
by_visibility-finding protected mode c = visible-finding mode c
by_visibility-finding public mode c = visible-finding mode c

analyze_member-is_finding :
    (mode : AnalysisMode) (c : MemberCandidate)
    → (is_finding (analyze_member mode c) ≡ true) ↔ (IsUnclaimed c × IsProvable c.visibility mode c)
unfolding analyze_member
analyze_member-is_finding mode c = (
  λ e. ground (arith, by_visibility-finding c.visibility mode c),
  λ q. ground (arith, by_visibility-finding c.visibility mode c),
)

finding-of-is_finding :
    (d : MemberDecision) → (is_finding d ≡ true) ↔ ((f : MemberFinding) × (d ≡ finding f))
finding-of-is_finding (finding f) = (λ e. (f, refl), λ _. refl)
finding-of-is_finding (retained r) = (λ e. cc, λ (f, e). cc)
finding-of-is_finding (deferred d) = (λ e. cc, λ (f, e). cc)

-- A member is reported exactly when no rule claims it and the mode can prove it unused: always for
-- a JavaScript-private member, for a TypeScript-private one outside of fast mode when its class is
-- enclosed, and for a protected or public one when moreover its receivers and its overrides are
-- settled, by complete facts or, in deep mode, by the worker's answer.
pub analyze_member-eq-finding :
    (mode : AnalysisMode) (c : MemberCandidate)
    → ((f : MemberFinding) × (analyze_member mode c ≡ finding f))
      ↔ (IsUnclaimed c × IsProvable c.visibility mode c)
analyze_member-eq-finding mode c =
    let (there, back) = finding-of-is_finding (analyze_member mode c) in
    let (fwd, bwd) = analyze_member-is_finding mode c in (λ f. fwd (back f), λ q. there (bwd q))
