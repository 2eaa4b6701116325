-- ===== src/Reviews/Transition.antt =====
-- `OpportunityReviewService.transition`, `transition_system` and `assign_owner`, and
-- `require_property_approval`. A raise leaves the session uncommitted.
pub mod Rules
pub mod Approval
use digital_real_estate_engi.Common.{
  ℕ, ◌+◌, Bool, false, not, Option, none, some, ◌∷◌, map, ◌&&◌, ◌||◌, ◌==◌, if◌then◌else◌,
}
use digital_real_estate_engi.Common.Table.{get, touch}
use digital_real_estate_engi.Common.Result.{Result, ok, raised, raise_if, ◌>>=◌, ◌>>◌}
use digital_real_estate_engi.Reviews.State.{
  OpportunityState, is_approved, is_rejected, value, member, state_eq, allowed_transitions,
  canonical_state, ReviewError, opportunity_not_found, opportunity_review_version_conflict,
  invalid_opportunity_transition, human_reviewer_required, approval_evidence_incomplete,
  invalid_system_opportunity_transition, property_action_requires_approved_opportunity, system,
  is_system, ReviewActor, ReviewTransitionRequest, OwnershipRequest, Opportunity, OpportunityReview,
  Reviews,
}
use digital_real_estate_engi.Reviews.Completeness.{Evidence, approval_complete}

-- `_opportunity`
unfoldable pub find_opportunity : Reviews → ℕ → Result ReviewError Opportunity
find_opportunity reviews i = elim (get (λ o. o.id) i reviews.opportunities) [
  | none ↦ raised opportunity_not_found
  | some o ↦ ok o
]

-- `_check_version`, whether it raises.
abbrev pub is_conflict : Opportunity → Option ℕ → Bool
is_conflict opportunity none = false
is_conflict opportunity (some expected) = not (opportunity.review_version == expected)

abbrev pub or_else : Option ℕ → Option ℕ → Option ℕ
or_else none old = old
or_else (some new) old = some new

unfoldable pub move :
    OpportunityState → OpportunityState → Option ℕ → (now : ℕ) → Opportunity → Opportunity
move current target owner now o = record o {
  status = value target;
  owner_user_id = or_else owner o.owner_user_id;
  review_version = o.review_version + 1;
  approved_at =
      if is_approved target
      then some now
      else (if is_approved current then none else o.approved_at);
}

-- The row that a transition adds, written from the opportunity after its move.
unfoldable pub review_of :
    ReviewTransitionRequest
    → ReviewActor
    → OpportunityState
    → (now : ℕ) → Opportunity
    → OpportunityReview
review_of request actor current now o = record {
  opportunity_id = o.id;
  prior_state = value current;
  review_state = value request.target_state;
  owner_user_id = o.owner_user_id;
  reviewer_user_id = actor.actor_id;
  reviewer_role = actor.role;
  decision = request.decision;
  decision_reason = request.decision_reason;
  review_version = o.review_version;
  approved_at = if is_approved request.target_state then some now else none;
  rejected_at = if is_rejected request.target_state then some now else none;
}

abbrev pub write : ℕ → (Opportunity → Opportunity) → OpportunityReview → Reviews → Reviews
write i f review reviews = record {
  opportunities = map (touch (λ o. o.id == i) f) reviews.opportunities;
  history = review ∷ reviews.history;
}

module _ (evidence : Evidence) (now : ℕ) where
  -- The guards of `transition`, in the order of the source.
  unfoldable pub assert_transition :
      OpportunityState
      → Opportunity
      → ReviewTransitionRequest
      → ReviewActor
      → Result ReviewError Unit
  assert_transition current o request actor = do
    raise_if (is_conflict o request.expected_review_version) opportunity_review_version_conflict
    raise_if (not (member request.target_state (allowed_transitions current)))
        invalid_opportunity_transition
    raise_if
        ((is_approved request.target_state || is_rejected request.target_state)
          && is_system actor.role)
        human_reviewer_required
    raise_if (is_approved request.target_state && not (approval_complete evidence o now))
        approval_evidence_incomplete

  unfoldable pub transition :
      ℕ → ReviewTransitionRequest → ReviewActor → Reviews → Result ReviewError Reviews
  transition i request actor reviews = do
    o ← find_opportunity reviews i
    current ← canonical_state o.status
    assert_transition current o request actor
    let f = move current request.target_state request.owner_user_id now
    ok (write i f (review_of request actor current now (f o)) reviews)

  -- `transition_system`, with the id that stands for "system:scan-pipeline".
  unfoldable pub transition_system :
      (pipeline : ℕ)
      → ℕ
      → OpportunityState
      → (decision reason : ℕ) → Reviews
      → Result ReviewError Reviews
  transition_system pipeline i target decision reason reviews = do
    o ← find_opportunity reviews i
    current ← canonical_state o.status
    (if state_eq current target then ok reviews else (do
      raise_if (not (member target (allowed_transitions current)))
          invalid_system_opportunity_transition
      transition i
          (record {
            target_state = target;
            decision = decision;
            decision_reason = reason;
            owner_user_id = o.owner_user_id;
            expected_review_version = none;
          })
          (record { actor_id = pipeline; role = system }) reviews))

-- `assign_owner`, with the decision that stands for "owner_assigned".
unfoldable pub own : ℕ → Opportunity → Opportunity
own owner o = record o { owner_user_id = some owner; review_version = o.review_version + 1 }

unfoldable pub owner_review :
    (owner_assigned : ℕ)
    → OwnershipRequest
    → ReviewActor
    → OpportunityState
    → Opportunity
    → OpportunityReview
owner_review owner_assigned request actor state o = record {
  opportunity_id = o.id;
  prior_state = value state;
  review_state = value state;
  owner_user_id = some request.owner_user_id;
  reviewer_user_id = actor.actor_id;
  reviewer_role = actor.role;
  decision = owner_assigned;
  decision_reason = request.reason;
  review_version = o.review_version;
  approved_at = none;
  rejected_at = none;
}

unfoldable pub assign_owner :
    (owner_assigned : ℕ) → ℕ → OwnershipRequest → ReviewActor → Reviews → Result ReviewError Reviews
assign_owner owner_assigned i request actor reviews = do
  o ← find_opportunity reviews i
  raise_if (is_conflict o request.expected_review_version) opportunity_review_version_conflict
  state ← canonical_state o.status
  ok (
      write i (own request.owner_user_id)
        (owner_review owner_assigned request actor state (own request.owner_user_id o)) reviews)

unfoldable pub require_property_approval : Reviews → ℕ → Result ReviewError Opportunity
require_property_approval reviews i = do
  o ← find_opportunity reviews i
  state ← canonical_state o.status
  raise_if (not (is_approved state)) property_action_requires_approved_opportunity
  ok o
