-- ===== src/Reviews/Transition/Rules.antt =====
-- What a transition of an opportunity must respect.
use digital_real_estate_engi.Common.{
  ℕ, ◌≡◌, inl, inr, refl, Bool, true, false, not, some, ◌&&◌, ◌||◌, Option-cases, arith,
}
use digital_real_estate_engi.Common.Table.{get}
use digital_real_estate_engi.Common.Result.{ok, raise_if, >>-eq-ok, >>=-eq-ok, raise_if-eq-ok}
use digital_real_estate_engi.Reviews.State.{
  OpportunityState, discovered, prefilter_review, testing_planned, testing_running,
  preliminary_review, full_scan_approved, full_running, full_review, needs_more_evidence,
  approved_for_property, rejected, archived, is_approved, is_rejected, value, member,
  allowed_transitions, canonical_state, is_system, ReviewActor, ReviewTransitionRequest,
  Opportunity, Reviews,
}
use digital_real_estate_engi.Reviews.Completeness.{Evidence, approval_complete}
use digital_real_estate_engi.Reviews.Transition.{
  find_opportunity, is_conflict, move, review_of, write, assert_transition, transition,
}

-- The text of every state is read back as that state: no legacy name shadows one.
pub canonical_state-value : (s : OpportunityState) → canonical_state (value s) ≡ ok s
unfolding canonical_state
canonical_state-value discovered = refl
canonical_state-value prefilter_review = refl
canonical_state-value testing_planned = refl
canonical_state-value testing_running = refl
canonical_state-value preliminary_review = refl
canonical_state-value full_scan_approved = refl
canonical_state-value full_running = refl
canonical_state-value full_review = refl
canonical_state-value needs_more_evidence = refl
canonical_state-value approved_for_property = refl
canonical_state-value rejected = refl
canonical_state-value archived = refl

pub find_opportunity-ok :
    (reviews : Reviews) (i : ℕ) (o : Opportunity)
    → find_opportunity reviews i ≡ ok o
    → get (λ o. o.id) i reviews.opportunities ≡ some o
unfolding find_opportunity
find_opportunity-ok reviews i o h = elim (Option-cases (get (λ o. o.id) i reviews.opportunities)) [
  | inl absent ↦ absurd (ground (arith, absent))
  | inr (o', found) ↦ ground (arith, found)
]

-- What is known of a transition that was accepted.
pub record IsAccepted (evidence : Evidence) (now : ℕ) (request : ReviewTransitionRequest)
    (actor : ReviewActor) (current : OpportunityState) (o : Opportunity) : Type 0 where
  pub is_known : canonical_state o.status ≡ ok current
  pub is_current : is_conflict o request.expected_review_version ≡ false
  pub is_allowed : member request.target_state (allowed_transitions current) ≡ true
  pub is_human :
      (is_approved request.target_state || is_rejected request.target_state) ≡ true
      → is_system actor.role ≡ false
  pub is_proven : is_approved request.target_state ≡ true → approval_complete evidence o now ≡ true

true_of_not : (b : Bool) → not b ≡ false → b ≡ true
true_of_not true h = refl
true_of_not false h = absurd (ground arith)

module _ (evidence : Evidence) (now : ℕ) where
  guards-IsAccepted :
      (request : ReviewTransitionRequest) (actor : ReviewActor) (current : OpportunityState)
      (o : Opportunity)
      → canonical_state o.status ≡ ok current
      → assert_transition evidence now current o request actor ≡ ok tt
      → IsAccepted evidence now request actor current o
  unfolding assert_transition
  guards-IsAccepted request actor current o known h =
      let target = request.target_state in
      let (versioned, h1) =
        >>-eq-ok (raise_if (is_conflict o request.expected_review_version) _) _ h in
      let (edge, h2) =
        >>-eq-ok (raise_if (not (member target (allowed_transitions current))) _) _ h1 in
      let (human, h3) =
        >>-eq-ok (raise_if ((is_approved target || is_rejected target) && is_system actor.role) _) _
          h2 in
      let human_ok = raise_if-eq-ok _ _ human in
      let proven_ok = raise_if-eq-ok _ _ h3 in
      record {
        is_known = known;
        is_current = raise_if-eq-ok _ _ versioned;
        is_allowed = true_of_not _ (raise_if-eq-ok _ _ edge);
        is_human = λ final. ground (arith, final, human_ok);
        is_proven = λ final. ground (arith, final, proven_ok);
      }

  -- A transition that is accepted follows an edge of the table of allowed transitions from a current
  -- version of the row; an approval or a rejection has a human reviewer, and an approval complete
  -- evidence. It moves the row of the opportunity and adds one row to the history.
  pub transition_guarded :
      (i : ℕ) (request : ReviewTransitionRequest) (actor : ReviewActor) (reviews reviews' : Reviews)
      → transition evidence now i request actor reviews ≡ ok reviews'
      → (o : Opportunity) × (current : OpportunityState) × (get (λ o. o.id) i reviews.opportunities
          ≡ some o)
        × IsAccepted evidence now request actor current o
        × (reviews'
            ≡ write i
                (move current request.target_state request.owner_user_id now)
                (review_of request actor current now
                  (move current request.target_state request.owner_user_id now o))
                reviews)
  unfolding transition
  transition_guarded i request actor reviews reviews' h =
      let (o, finds, h1) = >>=-eq-ok (find_opportunity reviews i) _ h in
      let (current, knows, h2) = >>=-eq-ok (canonical_state o.status) _ h1 in
      let (guards, done) = >>-eq-ok (assert_transition evidence now current o request actor) _ h2 in
      (
        o,
        current,
        find_opportunity-ok reviews i o finds,
        guards-IsAccepted request actor current o knows guards,
        cc,
      )
