-- ===== src/Assignments.antt =====
-- The providers that a property's leads go to: `ProviderOperationsService` of
-- src/rank_rent/lead_routing/services.py, on the columns of `PropertyRoutingProfileORM` and
-- `ProviderAssignmentORM` in src/rank_rent/lead_routing/orm.py that decide. A raise leaves the session
-- uncommitted. A reason is a text; phone numbers and addresses are only stored.
pub mod Single
pub mod Protocol
pub mod Effect
pub mod Handover
use Prim.Native.String.{String}
use digital_real_estate_engi.Common.{
  ℕ, Bool, true, false, not, Option, none, some, List, [], ◌∷◌, map, ◌&&◌, ◌==◌, is_some,
  if◌then◌else◌, any,
}
use digital_real_estate_engi.Common.Text.{Text, is_blank}
use digital_real_estate_engi.Common.Table.{get, touch}
use digital_real_estate_engi.Common.Result.{Result, ok, raised, raise_if, ◌>>=◌, ◌>>◌}
use digital_real_estate_engi.Reviews.State.{ReviewError, Opportunity, Reviews}
use digital_real_estate_engi.Reviews.Transition.{require_property_approval}
use digital_real_estate_engi.Deliveries.Store.{
  AssignmentStatus, candidate, pilot, active, paused, terminated, replaced, is_active_assignment,
}

abbrev pub rank_of : AssignmentStatus → ℕ
rank_of candidate = 0
rank_of pilot = 1
rank_of active = 2
rank_of paused = 3
rank_of terminated = 4
rank_of replaced = 5

abbrev pub status_eq : AssignmentStatus → AssignmentStatus → Bool
status_eq a b = rank_of a == rank_of b

-- `_ALLOWED_TRANSITIONS`
unfoldable pub allowed_targets : AssignmentStatus → List AssignmentStatus
allowed_targets candidate = pilot ∷ terminated ∷ []
allowed_targets pilot = active ∷ paused ∷ terminated ∷ []
allowed_targets active = paused ∷ terminated ∷ replaced ∷ []
allowed_targets paused = active ∷ terminated ∷ replaced ∷ []
allowed_targets terminated = []
allowed_targets replaced = []

abbrev pub is_ended : AssignmentStatus → Bool
is_ended terminated = true
is_ended replaced = true
is_ended _ = false

pub record Profile : Type 0 where
  pub property_id : ℕ
  pub opportunity_id : ℕ
  pub public_tracking_number : Option ℕ
  pub public_contact_email : Option ℕ
  pub recording_approved : Bool
  pub recording_retention_days : Option ℕ
  pub routing_health_status : Option String

pub record ProviderAssignment : Type 0 where
  pub id : ℕ
  pub property_id : ℕ
  pub status : AssignmentStatus
  pub destination_phone : Option ℕ
  pub destination_email : Option ℕ
  pub agreement_started_at : Option ℕ
  pub agreement_ended_at : Option ℕ
  pub active_from : Option ℕ
  pub active_until : Option ℕ
  pub termination_reason : Option Text
  pub replaced_assignment_id : Option ℕ
  pub claims_reviewed_at : Option ℕ
  pub activation_approved_by : Option ℕ
  pub activation_reason : Option Text
  pub replacement_approved_by : Option ℕ

pub record Routes : Type 0 where
  pub profiles : List Profile
  pub assignments : List ProviderAssignment

-- The codes of `ProviderAssignmentError`.
pub data AssignmentError : Type 0 where
  property_opportunity_is_immutable recording_requires_retention : AssignmentError
  not_approved : ReviewError → AssignmentError
  assignment_requires_destination routing_profile_not_found assignment_not_found : AssignmentError
  invalid_assignment_transition : AssignmentStatus → AssignmentStatus → AssignmentError
  property_already_has_active_assignment terminal_transition_requires_reason : AssignmentError
  replacement_property_mismatch replacement_requires_active_assignment : AssignmentError

-- `except OpportunityReviewError`
abbrev pub approve : Result ReviewError Opportunity → Result AssignmentError Unit
approve (ok o) = ok tt
approve (raised code) = raised (not_approved code)

unfoldable pub create_routing_profile : Reviews → Profile → Routes → Result AssignmentError Routes
create_routing_profile reviews profile routes =
    elim (get (λ p. p.property_id) profile.property_id routes.profiles) [
      | some existing ↦
          if existing.opportunity_id == profile.opportunity_id
          then ok routes
          else raised property_opportunity_is_immutable
      | none ↦ (do
        approve (require_property_approval reviews profile.opportunity_id)
        raise_if (profile.recording_approved && not (is_some profile.recording_retention_days))
            recording_requires_retention
        ok (record routes { profiles = profile ∷ routes.profiles }))
    ]

abbrev pub new_assignment : (id property_id : ℕ) → (phone email : Option ℕ) → ProviderAssignment
new_assignment id property_id phone email = record {
  id = id;
  property_id = property_id;
  status = candidate;
  destination_phone = phone;
  destination_email = email;
  agreement_started_at = none;
  agreement_ended_at = none;
  active_from = none;
  active_until = none;
  termination_reason = none;
  replaced_assignment_id = none;
  claims_reviewed_at = none;
  activation_approved_by = none;
  activation_reason = none;
  replacement_approved_by = none;
}

-- `id` is the primary key that the database gives the row.
unfoldable pub create_assignment :
    (id property_id : ℕ) → (phone email : Option ℕ) → Routes → Result AssignmentError Routes
create_assignment id property_id phone email routes = do
  raise_if (not (is_some phone) && not (is_some email)) assignment_requires_destination
  raise_if (not (is_some (get (λ p. p.property_id) property_id routes.profiles)))
      routing_profile_not_found
  ok (record routes {
    assignments = new_assignment id property_id phone email ∷ routes.assignments;
  })

-- `_active_assignment`
abbrev pub is_active_of : (property_id : ℕ) → ProviderAssignment → Bool
is_active_of property_id a = a.property_id == property_id && is_active_assignment a.status

unfoldable pub find_active : (property_id : ℕ) → List ProviderAssignment → Option ProviderAssignment
find_active property_id [] = none
find_active property_id (a ∷ rows) =
    if is_active_of property_id a then some a else find_active property_id rows

abbrev pub is_other_than : ℕ → Option ProviderAssignment → Bool
is_other_than i none = false
is_other_than i (some a) = not (a.id == i)

-- `not reason`
abbrev pub lacks_reason : Option Text → Bool
lacks_reason none = true
lacks_reason (some reason) = is_blank reason

abbrev pub first_of : Option ℕ → ℕ → Option ℕ
first_of none at = some at
first_of (some earlier) at = some earlier

-- The writes of a transition.
unfoldable pub moved :
    AssignmentStatus → Option Text → (at : ℕ) → ProviderAssignment → ProviderAssignment
moved active reason at a = record a {
  status = active;
  active_from = first_of a.active_from at;
  agreement_started_at = first_of a.agreement_started_at at;
}
moved terminated reason at a = record a {
  status = terminated;
  termination_reason = reason;
  active_until = some at;
  agreement_ended_at = some at;
}
moved replaced reason at a = record a {
  status = replaced;
  termination_reason = reason;
  active_until = some at;
  agreement_ended_at = some at;
}
moved target reason at a = record a { status = target }

unfoldable pub assignment_of : Routes → ℕ → Result AssignmentError ProviderAssignment
assignment_of routes i = elim (get (λ a. a.id) i routes.assignments) [
  | none ↦ raised assignment_not_found
  | some a ↦ ok a
]

abbrev pub set_assignment : ℕ → (ProviderAssignment → ProviderAssignment) → Routes → Routes
set_assignment i f routes = record routes {
  assignments = map (touch (λ a. a.id == i) f) routes.assignments;
}

unfoldable pub assert_move :
    ProviderAssignment → AssignmentStatus → Option Text → Routes → Result AssignmentError Unit
assert_move a target reason routes = do
  raise_if (not (any (status_eq target) (allowed_targets a.status)))
      (invalid_assignment_transition a.status target)
  raise_if
      (is_active_assignment target
        && is_other_than a.id (find_active a.property_id routes.assignments))
      property_already_has_active_assignment
  raise_if (is_ended target && lacks_reason reason) terminal_transition_requires_reason

unfoldable pub transition_assignment :
    ℕ → AssignmentStatus → Option Text → (at : ℕ) → Routes → Result AssignmentError Routes
transition_assignment i target reason at routes = do
  a ← assignment_of routes i
  (if status_eq target a.status then ok routes else (do
    assert_move a target reason routes
    ok (set_assignment i (moved target reason at) routes)))

abbrev pub is_candidate : AssignmentStatus → Bool
is_candidate candidate = true
is_candidate _ = false

abbrev pub linked : ℕ → ProviderAssignment → ProviderAssignment
linked current a = record a { replaced_assignment_id = some current }

-- A candidate becomes a pilot first.
abbrev pub prepare : ℕ → (at : ℕ) → ProviderAssignment → Routes → Result AssignmentError Routes
prepare j at replacement routes =
    if is_candidate replacement.status
    then transition_assignment j pilot none at routes
    else ok routes

-- `replace_assignment`: the rows are the session's objects, so the status of the replacement is read
-- after the current assignment was ended.
unfoldable pub replace_assignment :
    (current replacement : ℕ)
    → (reason : Option Text) → (at : ℕ) → Routes
    → Result AssignmentError Routes
replace_assignment i j reason at routes = do
  current ← assignment_of routes i
  replacement ← assignment_of routes j
  raise_if (not (current.property_id == replacement.property_id)) replacement_property_mismatch
  raise_if (not (is_active_assignment current.status)) replacement_requires_active_assignment
  ended ← transition_assignment i replaced reason at routes
  let joined = set_assignment j (linked i) ended
  next ← assignment_of joined j
  prepared ← prepare j at next joined
  transition_assignment j active none at prepared
