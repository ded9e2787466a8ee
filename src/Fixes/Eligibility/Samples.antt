-- ===== src/Fixes/Eligibility/Samples.antt =====
-- Candidates for a fix, and the theorems at them.
use orphanode.Common.{true, some, List, [], ◌∷◌, ◌≡◌, ◌≢◌, ◌↔◌, refl, inl, Memᴰ}
use orphanode.Common.Sorting.{sort_by, dedup}
use orphanode.Cache.Digest.{Digest}
use orphanode.Fixes.Eligibility.{
  high, low, open_world, closed, public_api, parse, resolution, FixCandidate, EligibilityRejection,
  confidence_is_not_high, affected_by_blockers, public_api_requires_closed_world, eligible,
  ineligible, rejections, decide, evaluate,
}
use orphanode.Fixes.Eligibility.Decision.{
  IsSafe, Explains, evaluate-eq-eligible, evaluate-ineligible_reasons,
}

abbrev content : Digest
content = record { bytes = 1 ∷ [] }

abbrev safe : FixCandidate
safe = record {
  confidence = high;
  world = closed;
  public_api = public_api;
  blockers = [];
  expected_content = some content;
  preserves_trivia_and_semantics = true;
}

abbrev unsafe : FixCandidate
unsafe = record safe {
  confidence = low;
  world = open_world;
  blockers = resolution ∷ parse ∷ resolution ∷ [];
}

abbrev unsafe_reasons : List EligibilityRejection
unsafe_reasons =
    confidence_is_not_high
    ∷ affected_by_blockers (parse ∷ resolution ∷ [])
    ∷ public_api_requires_closed_world
    ∷ []

unsafe_runs : evaluate unsafe ≡ ineligible unsafe_reasons
unfolding evaluate rejections decide sort_by dedup
unsafe_runs = refl

evaluate-eq-eligible_example :
    (evaluate safe ≡ eligible (record { expected_content = content })) ↔ IsSafe safe content
evaluate-eq-eligible_example = evaluate-eq-eligible safe content

safe_is_eligible : evaluate safe ≡ eligible (record { expected_content = content })
safe_is_eligible = evaluate-eq-eligible_example.1 (record {
  sure = refl;
  unblocked = refl;
  contained = inl refl;
  analysed = refl;
  preserved = refl;
})

evaluate-ineligible_reasons_example :
    (unsafe_reasons ≢ []) × ((r : EligibilityRejection) → Memᴰ r unsafe_reasons ↔ Explains unsafe r)
evaluate-ineligible_reasons_example = evaluate-ineligible_reasons unsafe unsafe_reasons unsafe_runs
