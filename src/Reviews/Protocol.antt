-- ===== src/Reviews/Protocol.antt =====
-- The life of the opportunities: reviewers, the scan pipeline and owners act in any order.
pub mod Writes
pub mod Safety
use digital_real_estate_engi.Common.{ℕ, ◌≡◌}
use digital_real_estate_engi.Common.Result.{ok}
use digital_real_estate_engi.Reviews.State.{
  OpportunityState, ReviewActor, ReviewTransitionRequest, OwnershipRequest, Reviews,
}
use digital_real_estate_engi.Reviews.Completeness.{Evidence}
use digital_real_estate_engi.Reviews.Transition.{transition, transition_system, assign_owner}

-- An operation that commits; the evidence may change between two of them.
pub data Step (reviews : Reviews) : Reviews → Type 0 where
  review :
      (evidence : Evidence) (now i : ℕ) (request : ReviewTransitionRequest) (actor : ReviewActor)
      {reviews' : Reviews}
      → transition evidence now i request actor reviews ≡ ok reviews'
      → Step reviews reviews'
  system_move :
      (evidence : Evidence) (now pipeline i : ℕ) (target : OpportunityState) (decision reason : ℕ)
      {reviews' : Reviews}
      → transition_system evidence now pipeline i target decision reason reviews ≡ ok reviews'
      → Step reviews reviews'
  assign :
      (owner_assigned i : ℕ) (request : OwnershipRequest) (actor : ReviewActor) {reviews' : Reviews}
      → assign_owner owner_assigned i request actor reviews ≡ ok reviews'
      → Step reviews reviews'

pub data Reach (reviews : Reviews) : Reviews → Type 0 where
  here : Reach reviews reviews
  next : {middle after : Reviews} → Reach reviews middle → Step middle after → Reach reviews after
