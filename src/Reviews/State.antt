-- ===== src/Reviews/State.antt =====
-- The states of an opportunity, the transitions between them, and the rows that reviews write.
-- Users and free texts are only stored, so they are natural numbers.
use Prim.Native.String.{String}
use text.Mathlib.Text.{◌==◌ as str_eq}
use digital_real_estate_engi.Common.{
  ℕ, Bool, true, false, Option, none, some, List, [], ◌∷◌, if◌then◌else◌,
}
use digital_real_estate_engi.Common.Result.{Result, ok, raised}

pub data OpportunityState : Type 0 where
  discovered prefilter_review testing_planned testing_running preliminary_review : OpportunityState
  full_scan_approved full_running full_review needs_more_evidence : OpportunityState
  approved_for_property rejected archived : OpportunityState

abbrev pub is_approved : OpportunityState → Bool
is_approved approved_for_property = true
is_approved _ = false

abbrev pub is_rejected : OpportunityState → Bool
is_rejected rejected = true
is_rejected _ = false

-- The values of the `StrEnum`.
abbrev pub value : OpportunityState → String
value discovered = "discovered"
value prefilter_review = "prefilter_review"
value testing_planned = "testing_planned"
value testing_running = "testing_running"
value preliminary_review = "preliminary_review"
value full_scan_approved = "full_scan_approved"
value full_running = "full_running"
value full_review = "full_review"
value needs_more_evidence = "needs_more_evidence"
value approved_for_property = "approved_for_property"
value rejected = "rejected"
value archived = "archived"

abbrev pub all_states : List OpportunityState
all_states =
    discovered ∷ prefilter_review ∷ testing_planned ∷ testing_running ∷ preliminary_review
    ∷ full_scan_approved ∷ full_running ∷ full_review ∷ needs_more_evidence ∷ approved_for_property
    ∷ rejected ∷ archived ∷ []

abbrev pub state_eq : OpportunityState → OpportunityState → Bool
state_eq a b = str_eq (value a) (value b)

abbrev pub member : OpportunityState → List OpportunityState → Bool
member s [] = false
member s (t ∷ ts) = if state_eq s t then true else member s ts

-- `ALLOWED_TRANSITIONS`
unfoldable pub allowed_transitions : OpportunityState → List OpportunityState
allowed_transitions discovered =
    prefilter_review ∷ testing_planned ∷ testing_running ∷ preliminary_review ∷ full_running
    ∷ full_review ∷ needs_more_evidence ∷ rejected ∷ archived ∷ []
allowed_transitions prefilter_review =
    testing_planned ∷ testing_running ∷ full_running ∷ needs_more_evidence ∷ rejected ∷ archived
    ∷ []
allowed_transitions testing_planned =
    testing_running ∷ needs_more_evidence ∷ rejected ∷ archived ∷ []
allowed_transitions testing_running =
    preliminary_review ∷ needs_more_evidence ∷ testing_planned ∷ []
allowed_transitions preliminary_review =
    testing_planned ∷ full_scan_approved ∷ needs_more_evidence ∷ rejected ∷ archived ∷ []
allowed_transitions full_scan_approved =
    full_running ∷ preliminary_review ∷ needs_more_evidence ∷ rejected ∷ []
allowed_transitions full_running = full_review ∷ needs_more_evidence ∷ full_scan_approved ∷ []
allowed_transitions full_review =
    approved_for_property ∷ full_scan_approved ∷ needs_more_evidence ∷ rejected ∷ archived ∷ []
allowed_transitions needs_more_evidence =
    testing_planned ∷ testing_running ∷ preliminary_review ∷ full_scan_approved ∷ full_running
    ∷ full_review ∷ rejected ∷ archived ∷ []
allowed_transitions approved_for_property =
    full_running ∷ full_review ∷ needs_more_evidence ∷ archived ∷ []
allowed_transitions rejected = prefilter_review ∷ preliminary_review ∷ full_review ∷ archived ∷ []
allowed_transitions archived = []

-- The codes of `OpportunityReviewError`.
pub data ReviewError : Type 0 where
  unknown_opportunity_state opportunity_not_found opportunity_review_version_conflict : ReviewError
  invalid_opportunity_transition human_reviewer_required approval_evidence_incomplete : ReviewError
  invalid_system_opportunity_transition property_action_requires_approved_opportunity : ReviewError

-- `LEGACY_STATE_MAP.get(value)`
legacy_state : String → Option OpportunityState
legacy_state v =
    if str_eq v "approved"
    then some approved_for_property
    else if str_eq v "evidence_rejected"
    then some needs_more_evidence
    else if str_eq v "scan_failed"
    then some needs_more_evidence
    else if str_eq v "partial_review"
    then some needs_more_evidence
    else if str_eq v "unusable_review"
    then some needs_more_evidence
    else none

-- `OpportunityState(value)`, where it raises no `ValueError`.
find_state : String → List OpportunityState → Option OpportunityState
find_state v [] = none
find_state v (s ∷ ss) = if str_eq v (value s) then some s else find_state v ss

unfoldable pub canonical_state : String → Result ReviewError OpportunityState
unfolding legacy_state find_state
canonical_state v = elim (legacy_state v) [
  | some s ↦ ok s
  | none ↦ elim (find_state v all_states) [
    | some s ↦ ok s
    | none ↦ raised unknown_opportunity_state
  ]
]

pub data ReviewRole : Type 0 where
  operator reviewer admin system : ReviewRole

abbrev pub is_system : ReviewRole → Bool
is_system system = true
is_system _ = false

pub record ReviewActor : Type 0 where
  pub actor_id : ℕ
  pub role : ReviewRole

pub record ReviewTransitionRequest : Type 0 where
  pub target_state : OpportunityState
  pub decision : ℕ
  pub decision_reason : ℕ
  pub owner_user_id : Option ℕ
  pub expected_review_version : Option ℕ

pub record OwnershipRequest : Type 0 where
  pub owner_user_id : ℕ
  pub reason : ℕ
  pub expected_review_version : Option ℕ

-- The row of `opportunities`, on the columns of the review.
pub record Opportunity : Type 0 where
  pub id : ℕ
  pub status : String
  pub approved_at : Option ℕ
  pub owner_user_id : Option ℕ
  pub review_version : ℕ

-- The row of `opportunity_reviews`.
pub record OpportunityReview : Type 0 where
  pub opportunity_id : ℕ
  pub prior_state : String
  pub review_state : String
  pub owner_user_id : Option ℕ
  pub reviewer_user_id : ℕ
  pub reviewer_role : ReviewRole
  pub decision : ℕ
  pub decision_reason : ℕ
  pub review_version : ℕ
  pub approved_at : Option ℕ
  pub rejected_at : Option ℕ

pub record Reviews : Type 0 where
  pub opportunities : List Opportunity
  pub history : List OpportunityReview
