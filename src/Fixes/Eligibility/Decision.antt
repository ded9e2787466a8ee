-- ===== src/Fixes/Eligibility/Decision.antt =====
-- When a fix is eligible, and which reasons a refusal lists.
use mathlib.Core.List.Memᴰ
use orphanode.Common.{
  Bool, true, false, not, ◌&&◌, none, some, List, [], ◌≡◌, ◌≢◌, ◌↔◌, ◌⊎◌, inl, inr, ⊎_elim, Memᴰ,
  arith, Memᴰ-cons,
}
use orphanode.Common.Sorting.{sort, dedup}
use orphanode.Fixes.Eligibility.{
  ContentDigest, high, closed, outside_public_api, blocker_ord, FixCandidate, EligibilityRejection,
  confidence_is_not_high, public_api_requires_closed_world, missing_analyzed_content_hash,
  trivia_or_semantic_preservation_unproven, affected_by_blockers, eligible, ineligible, rejections,
  decide, evaluate, push_if, is_high, is_open, is_public, is_none, is_empty,
}

-- What makes a fix safe to apply, with the content that it was analysed against.
pub record IsSafe (c : FixCandidate) (content : ContentDigest) : Type 0 where
  pub sure : c.confidence ≡ high
  pub unblocked : c.blockers ≡ []
  pub contained : (c.world ≡ closed) ⊎ (c.public_api ≡ outside_public_api)
  pub analysed : c.expected_content ≡ some content
  pub preserved : c.preserves_trivia_and_semantics ≡ true

-- A fix is eligible, with a given content hash, exactly when its confidence is high, nothing blocks
-- its coverage, it is not a public name in an open world, that is the hash it was analysed with, and
-- it is proved to keep trivia and meaning.
pub evaluate-eq-eligible :
    (c : FixCandidate) (content : ContentDigest)
    → (evaluate c ≡ eligible (record { expected_content = content })) ↔ IsSafe c content
unfolding evaluate rejections decide
evaluate-eq-eligible c content = (λ e. ground arith, λ s. ground arith)

-- Why each reason is listed.
abbrev pub Explains : FixCandidate → EligibilityRejection → Type 0
Explains c confidence_is_not_high = c.confidence ≢ high
Explains c public_api_requires_closed_world =
    ¬ ((c.world ≡ closed) ⊎ (c.public_api ≡ outside_public_api))
Explains c missing_analyzed_content_hash = c.expected_content ≡ none
Explains c trivia_or_semantic_preservation_unproven = c.preserves_trivia_and_semantics ≡ false
Explains c (affected_by_blockers bs) = (c.blockers ≢ []) × (bs ≡ dedup (sort c.blockers))

mem-push_if :
    (t : Bool) (x r : EligibilityRejection) (rest : List EligibilityRejection)
    → Memᴰ r (push_if t x rest) ↔ ((t ≡ true) × (r ≡ x) ⊎ Memᴰ r rest)
mem-push_if true x r rest = ground (arith, Memᴰ-cons r x rest)
mem-push_if false x r rest = ground arith

not_mem : (r : EligibilityRejection) → ¬ Memᴰ r []
not_mem r m = Memᴰ.not-nil m

-- The pushes, one by one.
mem_pushed :
    (c : FixCandidate) (r : EligibilityRejection)
    → Memᴰ r (rejections c) ↔ (
        (not (is_high c.confidence) ≡ true) × (r ≡ confidence_is_not_high)
        ⊎ ((not (is_empty c.blockers) ≡ true) × (r ≡ affected_by_blockers (dedup (sort c.blockers)))
            ⊎ (((is_open c.world && is_public c.public_api) ≡ true)
                  × (r ≡ public_api_requires_closed_world)
                ⊎ ((is_none c.expected_content ≡ true) × (r ≡ missing_analyzed_content_hash)
                    ⊎ (not c.preserves_trivia_and_semantics ≡ true)
                      × (r ≡ trivia_or_semantic_preservation_unproven)))))
unfolding rejections
mem_pushed c r =
    let last =
      push_if (not c.preserves_trivia_and_semantics) trivia_or_semantic_preservation_unproven [] in
    let hash = push_if (is_none c.expected_content) missing_analyzed_content_hash last in
    let public =
      push_if (is_open c.world && is_public c.public_api) public_api_requires_closed_world hash in
    let bs = affected_by_blockers (dedup (sort c.blockers)) in
    let blocked = push_if (not (is_empty c.blockers)) bs public in
    let a = mem-push_if (not (is_high c.confidence)) confidence_is_not_high r blocked in
    let b = mem-push_if (not (is_empty c.blockers)) bs r public in
    let d =
      mem-push_if (is_open c.world && is_public c.public_api) public_api_requires_closed_world r
        hash in
    let e = mem-push_if (is_none c.expected_content) missing_analyzed_content_hash r last in
    let f =
      mem-push_if (not c.preserves_trivia_and_semantics) trivia_or_semantic_preservation_unproven r
        [] in
    (
      λ m.
          ⊎_elim inl
            (λ m1. inr (
              ⊎_elim inl
                (λ m2. inr (
                  ⊎_elim inl
                    (λ m3. inr (
                      ⊎_elim inl (λ m4. inr (⊎_elim (λ x. x) (λ n. absurd (not_mem r n)) (f.0 m4)))
                        (e.0 m3)))
                    (d.0 m2)))
                (b.0 m1)))
            (a.0 m),
      ⊎_elim (λ x. a.1 (inl x))
          (λ x1. a.1 (
            inr (
              ⊎_elim (λ x. b.1 (inl x))
                (λ x2. b.1 (
                  inr (
                    ⊎_elim (λ x. d.1 (inl x))
                      (λ x3.
                        d.1 (inr (⊎_elim (λ x. e.1 (inl x)) (λ x. e.1 (inr (f.1 (inl x)))) x3)))
                      x2)))
                x1))),
    )

mem-rejections :
    (c : FixCandidate) (r : EligibilityRejection) → Memᴰ r (rejections c) ↔ Explains c r
mem-rejections c confidence_is_not_high = ground (arith, mem_pushed c confidence_is_not_high)
mem-rejections c public_api_requires_closed_world =
    ground (arith, mem_pushed c public_api_requires_closed_world)
mem-rejections c missing_analyzed_content_hash =
    ground (arith, mem_pushed c missing_analyzed_content_hash)
mem-rejections c trivia_or_semantic_preservation_unproven =
    ground (arith, mem_pushed c trivia_or_semantic_preservation_unproven)
mem-rejections c (affected_by_blockers bs) = ground (arith, mem_pushed c (affected_by_blockers bs))

evaluate-eq-ineligible :
    (c : FixCandidate) {rs : List EligibilityRejection}
    → evaluate c ≡ ineligible rs
    → (rs ≡ rejections c) × (rs ≢ [])
unfolding evaluate rejections decide
evaluate-eq-ineligible c h = ground arith

-- A refusal lists at least one reason, and lists a reason exactly when it holds of the candidate:
-- confidence below high, some blocker (listed sorted and once each), a public name in an open world,
-- no hash, or no proof that trivia and meaning are kept.
pub evaluate-ineligible_reasons :
    (c : FixCandidate) (rs : List EligibilityRejection)
    → evaluate c ≡ ineligible rs
    → (rs ≢ []) × ((r : EligibilityRejection) → Memᴰ r rs ↔ Explains c r)
evaluate-ineligible_reasons c rs h =
    let (same, some_reason) = evaluate-eq-ineligible c h in
    (some_reason, rw same (mem-rejections c))
