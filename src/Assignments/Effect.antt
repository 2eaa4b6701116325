-- ===== src/Assignments/Effect.antt =====
-- What one transition of an assignment leaves behind, row by row.
use digital_real_estate_engi.Common.{
  ℕ, ◌≡◌, ◌≢◌, refl, inl, inr, true, false, Option, some, arith, Bool-cases, ==-refl,
}
use mathlib.Core.Path.{subst}
use digital_real_estate_engi.Common.Text.{Text}
use digital_real_estate_engi.Common.Table.{get, get-touch_key}
use digital_real_estate_engi.Common.Result.{ok, >>=-eq-ok, >>-eq-ok, ok_inj}
use digital_real_estate_engi.Deliveries.Store.{
  AssignmentStatus, candidate, pilot, active, paused, terminated, replaced,
}
use digital_real_estate_engi.Assignments.{
  status_eq, ProviderAssignment, Routes, moved, assignment_of, set_assignment, assert_move,
  transition_assignment, is_ended,
}
use digital_real_estate_engi.Assignments.Single.{assignment_of-get, moved_lem}

status_eq-true : (s t : AssignmentStatus) → status_eq s t ≡ true → t ≡ s
status_eq-true s t h = ground arith

moved-link :
    (target : AssignmentStatus) (reason : Option Text) (at : ℕ) (a : ProviderAssignment)
    → (moved target reason at a).replaced_assignment_id ≡ a.replaced_assignment_id
unfolding moved
moved-link candidate reason at a = refl
moved-link pilot reason at a = refl
moved-link active reason at a = refl
moved-link paused reason at a = refl
moved-link terminated reason at a = refl
moved-link replaced reason at a = refl

-- A transition of assignment i from the row `before` to the row `now`.
pub record Moves (i : ℕ) (target : AssignmentStatus) (reason : Option Text)
    (routes routes' : Routes) : Type 0 where
  pub before : ProviderAssignment
  pub now : ProviderAssignment
  pub found : get (λ a. a.id) i routes.assignments ≡ some before
  pub left : get (λ a. a.id) i routes'.assignments ≡ some now
  pub becomes : now.status ≡ target
  pub property : now.property_id ≡ before.property_id
  pub link : now.replaced_assignment_id ≡ before.replaced_assignment_id
  pub explained :
      status_eq target before.status ≡ false
      → is_ended target ≡ true
      → now.termination_reason ≡ reason
  pub others :
      (k : ℕ) → k ≢ i → get (λ a. a.id) k routes'.assignments ≡ get (λ a. a.id) k routes.assignments

pub set-get :
    (i : ℕ) (f : ProviderAssignment → ProviderAssignment) (routes : Routes)
    → ((x : ProviderAssignment) → (f x).id ≡ x.id)
    → (a : ProviderAssignment) → get (λ a. a.id) i routes.assignments ≡ some a
    → get (λ a. a.id) i (set_assignment i f routes).assignments ≡ some (f a)
set-get i f routes same a found =
    let lookup = get-touch_key (λ a. a.id) f same i i routes.assignments in
    ground (arith, lookup, found, ==-refl i)

pub set-others :
    (i : ℕ) (f : ProviderAssignment → ProviderAssignment) (routes : Routes)
    → ((x : ProviderAssignment) → (f x).id ≡ x.id)
    → (k : ℕ) → k ≢ i
    → get (λ a. a.id) k (set_assignment i f routes).assignments
      ≡ get (λ a. a.id) k routes.assignments
set-others i f routes same k other =
    let lookup = get-touch_key (λ a. a.id) f same i k routes.assignments in
    ground (arith, lookup, other)

pub transition_assignment-Moves :
    (i : ℕ) (target : AssignmentStatus) (reason : Option Text) (at : ℕ) (routes routes' : Routes)
    → transition_assignment i target reason at routes ≡ ok routes'
    → Moves i target reason routes routes'
unfolding transition_assignment
transition_assignment-Moves i target reason at routes routes' h =
    let (a, finds, h1) = >>=-eq-ok (assignment_of routes i) _ h in
    let found = assignment_of-get routes i a finds in
    elim (Bool-cases (status_eq target a.status)) [
      | inl same ↦ subst (Moves i target reason routes) (ok_inj (rw same at h1)) (record {
        before = a;
        now = a;
        found = found;
        left = found;
        becomes = status_eq-true target a.status same;
        property = refl;
        link = refl;
        explained = λ changes ends. cc;
        others = λ k other. refl;
      })
      | inr changes ↦
          let (_, done) = >>-eq-ok (assert_move a target reason routes) _ (rw changes at h1) in
          let (_, same_property, becomes, given) = moved_lem target reason at a in
          let same_id = λ (x : ProviderAssignment). (moved_lem target reason at x).0 in
          subst (Moves i target reason routes) (ok_inj done) (record {
            before = a;
            now = moved target reason at a;
            found = found;
            left = set-get i (moved target reason at) routes same_id a found;
            becomes = becomes;
            property = same_property;
            link = moved-link target reason at a;
            explained = λ _ ends. given ends;
            others = set-others i (moved target reason at) routes same_id;
          })
    ]
