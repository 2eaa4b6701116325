-- ===== src/Reviews/Protocol/Writes.antt =====
-- What each operation of the reviews writes.
use digital_real_estate_engi.Common.{
  ℕ, ◌+◌, ◌≡◌, ◌⊎◌, inl, inr, refl, ap, sym, ◌∙◌, true, not, Option, some, is_some, arith,
}
use digital_real_estate_engi.Common.Table.{get}
use digital_real_estate_engi.Common.Result.{Result, ok, raise_if, >>-eq-ok, >>=-eq-ok, if-eq-ok}
use digital_real_estate_engi.Reviews.State.{
  OpportunityState, archived, is_approved, member, state_eq, allowed_transitions, canonical_state,
  ReviewError, ReviewActor, ReviewTransitionRequest, OwnershipRequest, Opportunity,
  OpportunityReview, Reviews,
}
use digital_real_estate_engi.Reviews.Completeness.{Evidence}
use digital_real_estate_engi.Reviews.Transition.{
  is_conflict, find_opportunity, move, write, own, owner_review, transition, transition_system,
  assign_owner,
}
use digital_real_estate_engi.Reviews.Transition.Rules.{
  canonical_state-value, find_opportunity-ok, transition_guarded,
}
use digital_real_estate_engi.Reviews.Protocol.{Step, review, system_move, assign}

-- The status is a known one, and the approval is dated while, and only while, it is the status.
pub record IsConsistent (o : Opportunity) : Type 0 where
  pub state : OpportunityState
  pub is_known : canonical_state o.status ≡ ok state
  pub is_dated : is_approved state ≡ is_some o.approved_at

ok_inj :
    {a b : OpportunityState} → ◌≡◌ {A = Result ReviewError OpportunityState} (ok a) (ok b) → a ≡ b
ok_inj h = cc

reviews_inj : {a b : Reviews} → ◌≡◌ {A = Result ReviewError Reviews} (ok a) (ok b) → a ≡ b
reviews_inj h = cc

move-IsConsistent :
    (current target : OpportunityState) (owner : Option ℕ) (now : ℕ) (o : Opportunity)
    → canonical_state o.status ≡ ok current
    → IsConsistent o
    → IsConsistent (move current target owner now o)
unfolding move
move-IsConsistent current target owner now o known h =
    let same : h.state ≡ current = ok_inj (sym h.is_known ∙ known) in
    record {
      state = target;
      is_known = canonical_state-value target;
      is_dated = ground (arith, h.is_dated, same, ap is_approved same);
    }

own-IsConsistent : (owner : ℕ) (o : Opportunity) → IsConsistent o → IsConsistent (own owner o)
unfolding own
own-IsConsistent owner o h = record {
  state = h.state;
  is_known = h.is_known;
  is_dated = h.is_dated;
}

-- One committed write: which row it changes, what it keeps of it, and that it counts the version.
pub record IsWrite (reviews reviews' : Reviews) : Type 0 where
  pub row : ℕ
  pub change : Opportunity → Opportunity
  pub entry : OpportunityReview
  pub before : Opportunity
  pub same_id : (o : Opportunity) → (change o).id ≡ o.id
  pub found : get (λ o. o.id) row reviews.opportunities ≡ some before
  pub keeps : IsConsistent before → IsConsistent (change before)
  pub keeps_archived :
      canonical_state before.status ≡ ok archived → (change before).status ≡ before.status
  pub counts : (change before).review_version ≡ before.review_version + 1
  pub writes : reviews' ≡ write row change entry reviews

no_edge_from_archived :
    (current target : OpportunityState)
    → current ≡ archived
    → member target (allowed_transitions current) ≡ true
    → ⊥
unfolding allowed_transitions
no_edge_from_archived current target is edge = ground (arith, is)

transition-IsWrite :
    (evidence : Evidence) (now i : ℕ) (request : ReviewTransitionRequest) (actor : ReviewActor)
    (reviews reviews' : Reviews)
    → transition evidence now i request actor reviews ≡ ok reviews'
    → IsWrite reviews reviews'
unfolding move
transition-IsWrite evidence now i request actor reviews reviews' h =
    let (o, current, found, accepted, writes) =
      transition_guarded evidence now i request actor reviews reviews' h in
    record {
      row = i;
      change = move current request.target_state request.owner_user_id now;
      entry = _;
      before = o;
      same_id = λ o. refl;
      found = found;
      keeps =
          move-IsConsistent current request.target_state request.owner_user_id now o
            accepted.is_known;
      keeps_archived = λ is. absurd (
          no_edge_from_archived current request.target_state (ok_inj (sym accepted.is_known ∙ is))
            accepted.is_allowed);
      counts = refl;
      writes = writes;
    }

assign-IsWrite :
    (owner_assigned i : ℕ) (request : OwnershipRequest) (actor : ReviewActor)
    (reviews reviews' : Reviews)
    → assign_owner owner_assigned i request actor reviews ≡ ok reviews'
    → IsWrite reviews reviews'
unfolding assign_owner own
assign-IsWrite owner_assigned i request actor reviews reviews' h =
    let (o, finds, h1) = >>=-eq-ok (find_opportunity reviews i) _ h in
    let (_, h2) = >>-eq-ok (raise_if (is_conflict o request.expected_review_version) _) _ h1 in
    let (state, knows, done) = >>=-eq-ok (canonical_state o.status) _ h2 in
    record {
      row = i;
      change = own request.owner_user_id;
      entry = owner_review owner_assigned request actor state (own request.owner_user_id o);
      before = o;
      same_id = λ o. refl;
      found = find_opportunity-ok reviews i o finds;
      keeps = own-IsConsistent request.owner_user_id o;
      keeps_archived = λ is. refl;
      counts = refl;
      writes = cc;
    }

system-IsWrite :
    (evidence : Evidence) (now pipeline i : ℕ) (target : OpportunityState) (decision reason : ℕ)
    (reviews reviews' : Reviews)
    → transition_system evidence now pipeline i target decision reason reviews ≡ ok reviews'
    → (reviews' ≡ reviews) ⊎ IsWrite reviews reviews'
unfolding transition_system
system-IsWrite evidence now pipeline i target decision reason reviews reviews' h =
    let (o, finds, h1) = >>=-eq-ok (find_opportunity reviews i) _ h in
    let (current, knows, h2) = >>=-eq-ok (canonical_state o.status) _ h1 in
    elim (if-eq-ok (state_eq current target) (ok reviews) _ h2) [
      | inl (_, same) ↦ inl (sym (reviews_inj same))
      | inr (_, moved) ↦
          let (_, done) =
            >>-eq-ok (raise_if (not (member target (allowed_transitions current))) _) _ moved in
          inr (transition-IsWrite evidence now i _ _ reviews reviews' done)
    ]

-- Every operation that commits makes one write or none.
pub step-IsWrite :
    (reviews reviews' : Reviews)
    → Step reviews reviews'
    → (reviews' ≡ reviews) ⊎ IsWrite reviews reviews'
step-IsWrite reviews reviews' (review evidence now i request actor h) =
    inr (transition-IsWrite evidence now i request actor reviews reviews' h)
step-IsWrite reviews reviews' (system_move evidence now pipeline i target decision reason h) =
    system-IsWrite evidence now pipeline i target decision reason reviews reviews' h
step-IsWrite reviews reviews' (assign owner_assigned i request actor h) =
    inr (assign-IsWrite owner_assigned i request actor reviews reviews' h)
