-- ===== src/Properties/Providers/Single.antt =====
-- The operations on the provider of a property keep one active assignment.
use mathlib.Core.Path.{subst}
use digital_real_estate_engi.Common.{
  ℕ, ◌≡◌, ◌≢◌, refl, inl, inr, sym, ap, true, false, not, Option, none, some, List, ◌++◌, All,
  arith, Bool-cases, Option-cases, is_some,
}
use digital_real_estate_engi.Common.Table.{get, All-found, All-get-none, map-touch_absent}
use digital_real_estate_engi.Common.Result.{
  Result, ok, raised, >>=-eq-ok, >>-eq-ok, raise_if, ok_inj,
}
use digital_real_estate_engi.Reviews.State.{ReviewActor, Reviews}
use digital_real_estate_engi.Reviews.Transition.{require_property_approval}
use digital_real_estate_engi.Assignments.{Routes, ProviderAssignment, create_routing_profile}
use digital_real_estate_engi.Properties.State.{Asset}
use digital_real_estate_engi.Properties.Errors.{
  active_provider_assignment_not_found, assert_human, assert_reviewer, assert_operator, or_raise,
}
use digital_real_estate_engi.Properties.Catalog.{
  Catalog, Validators, PropertyCreateRequest, PropertyUpdateRequest, or_keep, property_of,
  profile_of, approve, routed, assert_none, new_property, new_profile, create_property, new_brand,
  new_email, update_property,
}
use digital_real_estate_engi.Properties.Sites.{Sites}
use digital_real_estate_engi.Common.Text.{Text}
use digital_real_estate_engi.Deliveries.Store.{pilot, active}
use digital_real_estate_engi.Assignments.{
  AssignmentError, set_assignment, transition_assignment, replace_assignment, create_assignment,
  is_candidate, find_active, is_ended, lacks_reason,
}
use digital_real_estate_engi.Assignments.Single.{
  IsSingle, set-IsSingle, transition_assignment-IsSingle,
}
use digital_real_estate_engi.Assignments.Protocol
use digital_real_estate_engi.Assignments.Protocol.{Operation, Operations-IsSingle}
use digital_real_estate_engi.Properties.Providers.{
  ProviderAssignmentInput, assert_candidate, to_list, assert_approved_assets,
  create_provider_assignment, provider_of, prepared, activation, replacement_activation,
  activate_provider, replace_provider,
}

pub routed-eq-ok : {A : Type 0} (r : Result AssignmentError A) {a : A} → routed r ≡ ok a → r ≡ ok a
routed-eq-ok (ok b) h = ap ok (ok_inj h)
routed-eq-ok (raised e) h = cc

-- One operation of the provider service.
operation-IsSingle :
    (routes routes' : Routes) → IsSingle routes → Operation routes routes' → IsSingle routes'
operation-IsSingle routes routes' sound step =
    Operations-IsSingle routes routes' sound (Protocol.next Protocol.here step)

-- Columns beside those that the provider service decides on.
annotated-IsSingle :
    (i : ℕ) (f : ProviderAssignment → ProviderAssignment) (routes : Routes)
    → ((a : ProviderAssignment) → (f a).id ≡ a.id)
    → ((a : ProviderAssignment) → (f a).property_id ≡ a.property_id)
    → ((a : ProviderAssignment) → (f a).status ≡ a.status)
    → ((a : ProviderAssignment) → (f a).termination_reason ≡ a.termination_reason)
    → IsSingle routes
    → IsSingle (set_assignment i f routes)
annotated-IsSingle i f routes same property status reason sound =
    elim (Option-cases (get (λ a. a.id) i routes.assignments)) [
      | inl absent ↦
          subst (λ xs. IsSingle (record routes { assignments = xs }))
            (sym (
              map-touch_absent (λ a. a.id) f i routes.assignments
                (All-get-none (λ a. a.id) i routes.assignments absent)))
            (record { keyed = sound.keyed; single = sound.single; reasoned = sound.reasoned })
      | inr (b, found) ↦
          set-IsSingle i b routes sound found f same
            (λ p. inl (ground (arith, property b, status b)))
            (λ ends. rw (reason b) (
              All-found (λ a. a.id)
                (λ a. is_ended a.status ≡ true → lacks_reason a.termination_reason ≡ false) i b
                routes.assignments found sound.reasoned (rw (status b) at ends)))
    ]

pub create_property-IsSingle :
    (reviews : Reviews) (opportunity_id derived_id : ℕ) (request : PropertyCreateRequest)
    (actor : ReviewActor) (catalog : Catalog) (routes : Routes) (catalog' : Catalog)
    (routes' : Routes)
    → IsSingle routes
    → create_property reviews opportunity_id derived_id request actor catalog routes
      ≡ ok (catalog', routes')
    → IsSingle routes'
unfolding create_property
create_property-IsSingle reviews opportunity_id derived_id request actor catalog routes catalog'
      routes' sound h =
    let (_, h1) = >>-eq-ok (assert_human actor) _ h in
    let (o, _, h2) = >>=-eq-ok (approve (require_property_approval reviews opportunity_id)) _ h1 in
    let (_, h3) =
      >>-eq-ok (assert_none (get (λ p. p.opportunity_id) opportunity_id catalog.properties)) _ h2 in
    let id = or_keep derived_id request.property_id in
    let row = new_property id o.id request in
    let (_, h4) = >>-eq-ok (raise_if (is_some (get (λ p. p.id) id catalog.properties)) _) _ h3 in
    let (routed_after, profiles, done) =
      >>=-eq-ok (routed (create_routing_profile reviews (new_profile row) routes)) _ h4 in
    subst IsSingle (ap (λ p. p.1) (ok_inj done)) (
      operation-IsSingle routes routed_after sound
        (Protocol.profiles reviews (new_profile row) (routed-eq-ok _ profiles)))

pub update_property-IsSingle :
    (validators : Validators) (property_id : ℕ) (request : PropertyUpdateRequest)
    (actor : ReviewActor) (catalog : Catalog) (routes : Routes) (catalog' : Catalog)
    (routes' : Routes)
    → IsSingle routes
    → update_property validators property_id request actor catalog routes ≡ ok (catalog', routes')
    → IsSingle routes'
unfolding update_property
update_property-IsSingle validators property_id request actor catalog routes catalog' routes' sound
      h =
    let (_, h1) = >>-eq-ok (assert_human actor) _ h in
    let (row, found, h2) = >>=-eq-ok (property_of catalog property_id) _ h1 in
    let (brand, _, h3) =
      >>=-eq-ok (new_brand validators request.neutral_brand row.neutral_brand) _ h2 in
    let (email, _, h4) =
      >>=-eq-ok (new_email validators brand request.public_contact_email row.public_contact_email) _
        h3 in
    let (_, _, done) = >>=-eq-ok (profile_of routes property_id) _ h4 in
    subst IsSingle (ap (λ p. p.1) (ok_inj done))
      (record { keyed = sound.keyed; single = sound.single; reasoned = sound.reasoned })

pub create_provider_assignment-IsSingle :
    (candidates : List ℕ) (assets : List Asset) (catalog : Catalog) (id property_id : ℕ)
    (request : ProviderAssignmentInput) (actor : ReviewActor) (now : ℕ) (routes routes' : Routes)
    → IsSingle routes
    → All (λ a. a.id ≢ id) routes.assignments
    → create_provider_assignment candidates assets catalog id property_id request actor now routes
      ≡ ok routes'
    → IsSingle routes'
unfolding create_provider_assignment
create_provider_assignment-IsSingle candidates assets catalog id property_id request actor now
      routes routes' sound fresh h =
    let (_, h1) = >>-eq-ok (assert_reviewer actor) _ h in
    let (_, _, h2) = >>=-eq-ok (property_of catalog property_id) _ h1 in
    let (_, h3) = >>-eq-ok (assert_candidate candidates request.provider_candidate_id) _ h2 in
    let (_, h4) =
      >>-eq-ok
        (assert_approved_assets assets property_id
          (request.provider_photos ++ to_list request.logo_asset_id))
        _ h3 in
    let (created, creates, done) =
      >>=-eq-ok
        (routed (
          create_assignment id property_id request.destination_phone request.destination_email
            routes))
        _ h4 in
    subst IsSingle (ok_inj done) (
      annotated-IsSingle id _ created (λ a. refl) (λ a. refl) (λ a. refl) (λ a. refl)
        (operation-IsSingle routes created sound (
          Protocol.creates id property_id request.destination_phone request.destination_email fresh
            (routed-eq-ok _ creates))))

prepared-IsSingle :
    (i : ℕ) (row : ProviderAssignment) (now : ℕ) (routes routes' : Routes)
    → IsSingle routes
    → prepared i row now routes ≡ ok routes'
    → IsSingle routes'
prepared-IsSingle i row now routes routes' sound h = elim (Bool-cases (is_candidate row.status)) [
  | inl waits ↦
      transition_assignment-IsSingle i pilot none now routes routes' sound
        (routed-eq-ok _ (rw waits at h))
  | inr ready ↦ subst IsSingle (ok_inj (rw ready at h)) sound
]

pub activate_provider-IsSingle :
    (directory : ℕ → Option ℕ) (i : ℕ) (reason : Text) (actor : ReviewActor) (now : ℕ)
    (routes : Routes) (sites : Sites) (routes' : Routes) (sites' : Sites)
    → IsSingle routes
    → activate_provider directory i reason actor now routes sites ≡ ok (routes', sites')
    → IsSingle routes'
unfolding activate_provider
activate_provider-IsSingle directory i reason actor now routes sites routes' sites' sound h =
    let (_, h1) = >>-eq-ok (assert_operator actor) _ h in
    let (row, _, h2) = >>=-eq-ok (provider_of routes i) _ h1 in
    let (_, h3) = >>-eq-ok (raise_if (not (is_some row.claims_reviewed_at)) _) _ h2 in
    let (piloted, prepares, h4) = >>=-eq-ok (prepared i row now routes) _ h3 in
    let (activated, activates, h5) =
      >>=-eq-ok (routed (transition_assignment i active none now piloted)) _ h4 in
    let (current, _, done) =
      >>=-eq-ok (provider_of (set_assignment i (activation actor reason) activated) i) _ h5 in
    subst IsSingle (ap (λ p. p.0) (ok_inj done)) (
      annotated-IsSingle i _ activated (λ a. refl) (λ a. refl) (λ a. refl) (λ a. refl)
        (transition_assignment-IsSingle i active none now piloted activated
          (prepared-IsSingle i row now routes piloted sound prepares) (routed-eq-ok _ activates)))

pub replace_provider-IsSingle :
    (directory : ℕ → Option ℕ) (property_id replacement_id : ℕ) (reason : Text)
    (actor : ReviewActor) (now : ℕ) (routes : Routes) (sites : Sites) (routes' : Routes)
    (sites' : Sites)
    → IsSingle routes
    → replace_provider directory property_id replacement_id reason actor now routes sites
      ≡ ok (routes', sites')
    → IsSingle routes'
unfolding replace_provider
replace_provider-IsSingle directory property_id replacement_id reason actor now routes sites routes'
      sites' sound h =
    let (_, h1) = >>-eq-ok (assert_operator actor) _ h in
    let (current, _, h2) =
      >>=-eq-ok
        (or_raise active_provider_assignment_not_found (find_active property_id routes.assignments))
        _ h1 in
    let (replacement, _, h3) = >>=-eq-ok (provider_of routes replacement_id) _ h2 in
    let (_, h4) = >>-eq-ok (raise_if (not (is_some replacement.claims_reviewed_at)) _) _ h3 in
    let (replaced, replaces, h5) =
      >>=-eq-ok (routed (replace_assignment current.id replacement_id (some reason) now routes)) _
        h4 in
    let (row, _, done) =
      >>=-eq-ok
        (provider_of (set_assignment replacement_id (replacement_activation actor reason) replaced)
          replacement_id)
        _ h5 in
    subst IsSingle (ap (λ p. p.0) (ok_inj done)) (
      annotated-IsSingle replacement_id _ replaced (λ a. refl) (λ a. refl) (λ a. refl) (λ a. refl)
        (operation-IsSingle routes replaced sound (
          Protocol.replaces current.id replacement_id (some reason) now (routed-eq-ok _ replaces))))
