-- ===== src/Fixes/Eligibility.antt =====
-- crates/orphanode/src/fixes/eligibility.rs: which fixes may be applied.
pub mod Decision
mod Samples
use orphanode.Common.{
  ℕ, Bool, true, false, not, ◌&&◌, Option, none, some, List, [], ◌∷◌, ◌++◌, ◌≡◌, ◌⊎◌, inl, inr,
  if◌then◌else◌, arith, leb, refl, ap,
}
use orphanode.Common.Text.{Text}
use orphanode.Common.Order.{Ord, text_ord, pair_ord, key_ord, nat_ord}
use orphanode.Common.Sorting.{sort, dedup}
use orphanode.Cache.Digest.{Digest}

-- `ContentDigest` wraps a `Digest`.
abbrev pub ContentDigest : Type 0
ContentDigest = Digest

pub data AnalysisConfidence : Type 0 where
  high medium low incomplete : AnalysisConfidence

pub data WorldAssumption : Type 0 where
  closed open_world : WorldAssumption

pub data PublicApiExposure : Type 0 where
  outside_public_api public_api : PublicApiExposure

pub data CoverageBlocker : Type 0 where
  parse resolution plugin dynamic_behavior configuration : CoverageBlocker
  other : Text → CoverageBlocker

pub record FixCandidate : Type 0 where
  pub confidence : AnalysisConfidence
  pub world : WorldAssumption
  pub public_api : PublicApiExposure
  pub blockers : List CoverageBlocker
  pub expected_content : Option ContentDigest
  pub preserves_trivia_and_semantics : Bool

pub record EligibleFix : Type 0 where
  pub expected_content : ContentDigest

pub data EligibilityRejection : Type 0 where
  confidence_is_not_high public_api_requires_closed_world : EligibilityRejection
  missing_analyzed_content_hash trivia_or_semantic_preservation_unproven : EligibilityRejection
  affected_by_blockers : List CoverageBlocker → EligibilityRejection

pub data EligibilityDecision : Type 0 where
  eligible : EligibleFix → EligibilityDecision
  ineligible : List EligibilityRejection → EligibilityDecision

-- The derived order of the blockers: by constructor, then by text.
abbrev pub blocker_rank : CoverageBlocker → ℕ
blocker_rank parse = 0
blocker_rank resolution = 1
blocker_rank plugin = 2
blocker_rank dynamic_behavior = 3
blocker_rank configuration = 4
blocker_rank (other _) = 5

abbrev pub blocker_text : CoverageBlocker → Text
blocker_text (other t) = t
blocker_text _ = []

abbrev pub blocker_key : CoverageBlocker → ℕ × Text
blocker_key b = (blocker_rank b, blocker_text b)

pub blocker_key_injective : (a b : CoverageBlocker) → blocker_key a ≡ blocker_key b → a ≡ b
blocker_key_injective a b e = ground arith

instance abbrev pub blocker_ord : Ord CoverageBlocker
blocker_ord = key_ord (pair_ord nat_ord text_ord) blocker_key blocker_key_injective

abbrev pub is_high : AnalysisConfidence → Bool
is_high high = true
is_high medium = false
is_high low = false
is_high incomplete = false

abbrev pub is_open : WorldAssumption → Bool
is_open closed = false
is_open open_world = true

abbrev pub is_public : PublicApiExposure → Bool
is_public outside_public_api = false
is_public public_api = true

-- `if test { rejections.push(r); }`, and the pushes that follow.
abbrev pub push_if :
    Bool → EligibilityRejection → List EligibilityRejection → List EligibilityRejection
push_if test r rest = if test then r ∷ rest else rest

abbrev pub is_none : {A : Type 0} → Option A → Bool
is_none none = true
is_none (some _) = false

abbrev pub is_empty : {A : Type 0} → List A → Bool
is_empty [] = true
is_empty (_ ∷ _) = false

unfoldable pub rejections : FixCandidate → List EligibilityRejection
rejections c = push_if (not (is_high c.confidence)) confidence_is_not_high (
    push_if (not (is_empty c.blockers)) (affected_by_blockers (dedup (sort c.blockers))) (
      push_if (is_open c.world && is_public c.public_api) public_api_requires_closed_world (
        push_if (is_none c.expected_content) missing_analyzed_content_hash (
          push_if (not c.preserves_trivia_and_semantics) trivia_or_semantic_preservation_unproven
            []))))

-- The closing `match`.
unfoldable pub decide : List EligibilityRejection → Option ContentDigest → EligibilityDecision
decide [] (some expected_content) = eligible (record { expected_content = expected_content })
decide [] none = ineligible []
decide (r ∷ rs) _ = ineligible (r ∷ rs)

unfoldable pub evaluate : FixCandidate → EligibilityDecision
evaluate c = decide (rejections c) c.expected_content
