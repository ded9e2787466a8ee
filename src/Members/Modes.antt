-- ===== src/Members/Modes.antt =====
-- A slower mode keeps what a faster one reports.
use orphanode.Common.{◌≡◌, arith}
use orphanode.Members.{
  AnalysisMode, fast, balanced, deep, MemberVisibility, java_script_private, type_script_private,
  protected, public, MemberCandidate, MemberFinding, finding, javascript_private_finding,
  analyze_typescript_private, analyze_visible_member, analyze_by_visibility, analyze_member,
}

by_visibility-fast :
    (v : MemberVisibility) (mode : AnalysisMode) (c : MemberCandidate) (f : MemberFinding)
    → analyze_by_visibility v fast c ≡ finding f
    → analyze_by_visibility v mode c ≡ finding f
unfolding analyze_by_visibility analyze_typescript_private analyze_visible_member
    javascript_private_finding
by_visibility-fast java_script_private mode c f h = h
by_visibility-fast type_script_private mode c f h = cc
by_visibility-fast protected mode c f h = cc
by_visibility-fast public mode c f h = cc

by_visibility-balanced :
    (v : MemberVisibility) (c : MemberCandidate) (f : MemberFinding)
    → analyze_by_visibility v balanced c ≡ finding f
    → analyze_by_visibility v deep c ≡ finding f
unfolding analyze_by_visibility analyze_typescript_private analyze_visible_member
by_visibility-balanced java_script_private c f h = h
by_visibility-balanced type_script_private c f h = h
by_visibility-balanced protected c f h = ground arith
by_visibility-balanced public c f h = ground arith

-- What fast mode reports, every mode reports, and what balanced mode reports, deep mode reports,
-- with the same finding whatever the worker answered.
pub analyze_member-monotone :
    (c : MemberCandidate) (f : MemberFinding)
    → (analyze_member fast c ≡ finding f
        → (mode : AnalysisMode) → analyze_member mode c ≡ finding f)
      × (analyze_member balanced c ≡ finding f → analyze_member deep c ≡ finding f)
unfolding analyze_member
analyze_member-monotone c f = (
  λ h mode. ground (arith, by_visibility-fast c.visibility mode c f),
  λ h. ground (arith, by_visibility-balanced c.visibility c f),
)
