-- ===== src/Assignments/Protocol.antt =====
-- The life of the providers of all properties, in any order of the operations.
use digital_real_estate_engi.Common.{
  ℕ, ◌≡◌, ◌≢◌, refl, inl, inr, true, false, not, Option, none, some, ◌&&◌, ◌==◌, is_some, All,
  arith, Bool-cases, Option-cases,
}
use mathlib.Core.Path.{subst}
use digital_real_estate_engi.Common.Text.{Text}
use digital_real_estate_engi.Common.Table.{get, get-touch_key, All-found}
use digital_real_estate_engi.Common.Result.{ok, >>=-eq-ok, >>-eq-ok, raise_if, ok_inj}
use digital_real_estate_engi.Reviews.State.{Reviews}
use digital_real_estate_engi.Reviews.Transition.{require_property_approval}
use digital_real_estate_engi.Deliveries.Store.{
  AssignmentStatus, pilot, active, replaced, is_active_assignment,
}
use digital_real_estate_engi.Assignments.{
  Profile, ProviderAssignment, Routes, create_routing_profile, create_assignment, assignment_of,
  linked, is_candidate, prepare, set_assignment, transition_assignment, replace_assignment, approve,
  is_ended, lacks_reason,
}
use digital_real_estate_engi.Assignments.Single.{
  IsSingle, assignment_of-get, set-IsSingle, transition_assignment-IsSingle,
}

-- One operation that commits; the reviews may change between two of them, and the database gives a new
-- assignment an id of its own.
pub data Operation (routes : Routes) : Routes → Type 0 where
  profiles :
      (reviews : Reviews) (profile : Profile) {after : Routes}
      → create_routing_profile reviews profile routes ≡ ok after
      → Operation routes after
  creates :
      (id property_id : ℕ) (phone email : Option ℕ) {after : Routes}
      → All (λ a. a.id ≢ id) routes.assignments
      → create_assignment id property_id phone email routes ≡ ok after
      → Operation routes after
  moves :
      (i : ℕ) (target : AssignmentStatus) (reason : Option Text) (at : ℕ) {after : Routes}
      → transition_assignment i target reason at routes ≡ ok after
      → Operation routes after
  replaces :
      (i j : ℕ) (reason : Option Text) (at : ℕ) {after : Routes}
      → replace_assignment i j reason at routes ≡ ok after
      → Operation routes after

pub data Operations (routes : Routes) : Routes → Type 0 where
  here : Operations routes routes
  next :
      {middle after : Routes}
      → Operations routes middle
      → Operation middle after
      → Operations routes after

profiles-IsSingle :
    (reviews : Reviews) (profile : Profile) (routes after : Routes)
    → IsSingle routes
    → create_routing_profile reviews profile routes ≡ ok after
    → IsSingle after
unfolding create_routing_profile
profiles-IsSingle reviews profile routes after sound h =
    elim (Option-cases (get (λ p. p.property_id) profile.property_id routes.profiles)) [
      | inr (existing, found) ↦
          elim (Bool-cases (existing.opportunity_id == profile.opportunity_id)) [
            | inl same ↦
                subst IsSingle (ok_inj (rw same at (rw (found, create_routing_profile) at h))) sound
            | inr other ↦ let refused = rw other at (rw (found, create_routing_profile) at h) in cc
          ]
      | inl absent ↦
          let (_, h1) =
            >>-eq-ok (approve (require_property_approval reviews profile.opportunity_id)) _
              (rw (absent, create_routing_profile) at h) in
          let (_, done) =
            >>-eq-ok
              (raise_if
                (profile.recording_approved && not (is_some profile.recording_retention_days)) _)
              _ h1 in
          subst IsSingle (ok_inj done)
            (record { keyed = sound.keyed; single = sound.single; reasoned = sound.reasoned })
    ]

creates-IsSingle :
    (id property_id : ℕ) (phone email : Option ℕ) (routes after : Routes)
    → IsSingle routes
    → All (λ a. a.id ≢ id) routes.assignments
    → create_assignment id property_id phone email routes ≡ ok after
    → IsSingle after
unfolding create_assignment
creates-IsSingle id property_id phone email routes after sound fresh h =
    let (_, h1) = >>-eq-ok (raise_if (not (is_some phone) && not (is_some email)) _) _ h in
    let (_, done) =
      >>-eq-ok (raise_if (not (is_some (get (λ p. p.property_id) property_id routes.profiles))) _) _
        h1 in
    subst IsSingle (ok_inj done) (record {
      keyed = (fresh, sound.keyed);
      single = λ p. ground (arith, sound.single p);
      reasoned = ((λ e. cc), sound.reasoned);
    })

-- A link to the replaced assignment.
linked-IsSingle :
    (i j : ℕ) (b : ProviderAssignment) (routes : Routes)
    → IsSingle routes
    → get (λ a. a.id) j routes.assignments ≡ some b
    → IsSingle (set_assignment j (linked i) routes)
linked-IsSingle i j b routes sound found =
    set-IsSingle j b routes sound found (linked i) (λ x. refl) (λ p. inl (omega arith))
      (All-found (λ a. a.id)
        (λ a. is_ended a.status ≡ true → lacks_reason a.termination_reason ≡ false) j b
        routes.assignments found sound.reasoned)

joined-IsSingle :
    (i j : ℕ) (b : ProviderAssignment) (routes : Routes)
    → IsSingle routes
    → assignment_of (set_assignment j (linked i) routes) j ≡ ok b
    → IsSingle (set_assignment j (linked i) routes)
joined-IsSingle i j b routes sound finds =
    elim (Option-cases (get (λ a. a.id) j routes.assignments)) [
      | inr (c, found) ↦ linked-IsSingle i j c routes sound found
      | inl absent ↦
          let seen = assignment_of-get (set_assignment j (linked i) routes) j b finds in
          absurd (
            ground (
              arith,
              seen,
              absent,
              get-touch_key (λ a. a.id) (linked i) (λ x. refl) j j routes.assignments,
            ))
    ]

prepare-IsSingle :
    (j at : ℕ) (b : ProviderAssignment) (routes after : Routes)
    → IsSingle routes
    → prepare j at b routes ≡ ok after
    → IsSingle after
prepare-IsSingle j at b routes after sound h = elim (Bool-cases (is_candidate b.status)) [
  | inl waits ↦ transition_assignment-IsSingle j pilot none at routes after sound (rw waits at h)
  | inr ready ↦ subst IsSingle (ok_inj (rw ready at h)) sound
]

-- `replace_assignment` is a chain of transitions and one link.
replaces-IsSingle :
    (i j : ℕ) (reason : Option Text) (at : ℕ) (routes after : Routes)
    → IsSingle routes
    → replace_assignment i j reason at routes ≡ ok after
    → IsSingle after
unfolding replace_assignment
replaces-IsSingle i j reason at routes after sound h =
    let (current, _, h1) = >>=-eq-ok (assignment_of routes i) _ h in
    let (replacement, _, h2) = >>=-eq-ok (assignment_of routes j) _ h1 in
    let (_, h3) =
      >>-eq-ok (raise_if (not (current.property_id == replacement.property_id)) _) _ h2 in
    let (_, h4) = >>-eq-ok (raise_if (not (is_active_assignment current.status)) _) _ h3 in
    let (ended, ends, h5) = >>=-eq-ok (transition_assignment i replaced reason at routes) _ h4 in
    let ended_sound = transition_assignment-IsSingle i replaced reason at routes ended sound ends in
    let (next_row, finds, h6) =
      >>=-eq-ok (assignment_of (set_assignment j (linked i) ended) j) _ h5 in
    let (prepared, prepares, activates) =
      >>=-eq-ok (prepare j at next_row (set_assignment j (linked i) ended)) _ h6 in
    let joined_sound = joined-IsSingle i j next_row ended ended_sound finds in
    let prepared_sound = prepare-IsSingle j at next_row _ prepared joined_sound prepares in
    transition_assignment-IsSingle j active none at prepared after prepared_sound activates

-- Whatever providers are added, moved and replaced, in any order: the ids of the assignments stay
-- distinct, no property has two active assignments, and every assignment that was terminated or replaced
-- has a reason that is not empty.
pub Operations-IsSingle :
    (routes after : Routes) → IsSingle routes → Operations routes after → IsSingle after
Operations-IsSingle routes _ sound here = sound
Operations-IsSingle routes _ sound (next path (profiles reviews profile h)) =
    profiles-IsSingle reviews profile _ _ (Operations-IsSingle routes _ sound path) h
Operations-IsSingle routes _ sound (next path (creates id property_id phone email fresh h)) =
    creates-IsSingle id property_id phone email _ _ (Operations-IsSingle routes _ sound path) fresh
      h
Operations-IsSingle routes _ sound (next path (moves i target reason at h)) =
    transition_assignment-IsSingle i target reason at _ _ (Operations-IsSingle routes _ sound path)
      h
Operations-IsSingle routes _ sound (next path (replaces i j reason at h)) =
    replaces-IsSingle i j reason at _ _ (Operations-IsSingle routes _ sound path) h
