-- ===== src/Properties/Catalog.antt =====
-- Properties and their numbered versions: `create_property` and `update_property`. A raise leaves the
-- session uncommitted.
use digital_real_estate_engi.Common.{
  ℕ, ◌+◌, Bool, false, Option, none, some, List, ◌∷◌, map, ◌==◌, is_some,
}
use digital_real_estate_engi.Common.Table.{get, touch}
use digital_real_estate_engi.Common.Result.{Result, ok, raised, raise_if, ◌>>=◌, ◌>>◌}
use digital_real_estate_engi.Reviews.State.{ReviewError, ReviewActor, Opportunity, Reviews}
use digital_real_estate_engi.Reviews.Transition.{require_property_approval}
use digital_real_estate_engi.Assignments.{AssignmentError, Profile, Routes, create_routing_profile}
use digital_real_estate_engi.Properties.State.{
  PropertyStatus, Property, PropertyVersion, SiteConfig,
}
use digital_real_estate_engi.Properties.Errors.{
  PropertyError, review_refused, assignment_refused, validation_error,
  opportunity_already_has_property, property_identifier_conflict, property_not_found,
  site_config_not_found, routing_profile_not_found, assert_human, or_raise,
}

pub record Catalog : Type 0 where
  pub properties : List Property
  pub versions : List PropertyVersion
  pub configs : List SiteConfig

-- The validators of `PropertyCreateRequest`: the normalized text, or none for a `ValidationError`.
pub record Validators : Type 0 where
  pub brand : ℕ → Option ℕ
  pub email : ℕ → Option ℕ

pub record PropertyCreateRequest : Type 0 where
  pub neutral_brand : ℕ
  pub property_id : Option ℕ
  pub public_tracking_number : Option ℕ
  pub public_contact_email : Option ℕ
  pub analytics_verified : Bool

-- `none` stands for a field that is not in `model_fields_set`; the first and the last field are written
-- only where they are not null.
pub record PropertyUpdateRequest : Type 0 where
  pub neutral_brand : Option ℕ
  pub public_tracking_number : Option (Option ℕ)
  pub public_contact_email : Option (Option ℕ)
  pub analytics_verified : Option Bool

abbrev pub or_keep {ℓ} : {A : Type ℓ} → A → Option A → A
or_keep old none = old
or_keep old (some new) = new

abbrev pub property_of : Catalog → ℕ → Result PropertyError Property
property_of catalog i = or_raise property_not_found (get (λ p. p.id) i catalog.properties)

abbrev pub config_of : Catalog → ℕ → Result PropertyError SiteConfig
config_of catalog i = or_raise site_config_not_found (get (λ c. c.id) i catalog.configs)

abbrev pub profile_of : Routes → ℕ → Result PropertyError Profile
profile_of routes i =
    or_raise routing_profile_not_found (get (λ p. p.property_id) i routes.profiles)

abbrev pub set_property : ℕ → (Property → Property) → Catalog → Catalog
set_property i f catalog = record catalog {
  properties = map (touch (λ p. p.id == i) f) catalog.properties;
}

-- `_snapshot`
unfoldable pub version_of : ReviewActor → Property → PropertyVersion
version_of actor p = record {
  property_id = p.id;
  version = p.current_version;
  snapshot = p;
  changed_by = actor.actor_id;
}

abbrev pub bumped : (Property → Property) → Property → Property
bumped f p = record (f p) { current_version = p.current_version + 1 }

-- A write to a property, its next version number and the snapshot of both.
unfoldable pub revise : ReviewActor → (Property → Property) → Property → Catalog → Catalog
revise actor f p catalog = record catalog {
  properties = map (touch (λ q. q.id == p.id) (bumped f)) catalog.properties;
  versions = version_of actor (bumped f p) ∷ catalog.versions;
}

-- `except OpportunityReviewError`
abbrev pub approve : Result ReviewError Opportunity → Result PropertyError Opportunity
approve (ok o) = ok o
approve (raised code) = raised (review_refused code)

abbrev pub routed : {A : Type 0} → Result AssignmentError A → Result PropertyError A
routed (ok value) = ok value
routed (raised code) = raised (assignment_refused code)

abbrev pub assert_none : Option Property → Result PropertyError Unit
assert_none none = ok tt
assert_none (some p) = raised (opportunity_already_has_property p.id)

abbrev pub new_property : ℕ → ℕ → PropertyCreateRequest → Property
new_property id opportunity_id request = record {
  id = id;
  opportunity_id = opportunity_id;
  neutral_brand = request.neutral_brand;
  domain = none;
  public_tracking_number = request.public_tracking_number;
  public_contact_email = request.public_contact_email;
  status = PropertyStatus.draft;
  active_site_config_version = none;
  analytics_verified = request.analytics_verified;
  current_version = 1;
}

abbrev pub new_profile : Property → Profile
new_profile p = record {
  property_id = p.id;
  opportunity_id = p.opportunity_id;
  public_tracking_number = p.public_tracking_number;
  public_contact_email = p.public_contact_email;
  recording_approved = false;
  recording_retention_days = none;
  routing_health_status = none;
}

-- `derived_id` is the identifier that the service forms from the brand.
unfoldable pub create_property :
    Reviews
    → (opportunity_id derived_id : ℕ) → PropertyCreateRequest
    → ReviewActor
    → Catalog
    → Routes
    → Result PropertyError (Catalog × Routes)
create_property reviews opportunity_id derived_id request actor catalog routes = do
  assert_human actor
  opportunity ← approve (require_property_approval reviews opportunity_id)
  assert_none (get (λ p. p.opportunity_id) opportunity_id catalog.properties)
  let id = or_keep derived_id request.property_id
  let row = new_property id opportunity.id request
  raise_if (is_some (get (λ p. p.id) id catalog.properties)) property_identifier_conflict
  routes' ← routed (create_routing_profile reviews (new_profile row) routes)
  ok (
    record catalog {
      properties = row ∷ catalog.properties;
      versions = version_of actor row ∷ catalog.versions;
    },
    routes',
  )

-- The brand of an update, where it is given.
abbrev pub new_brand : Validators → Option ℕ → ℕ → Result PropertyError ℕ
new_brand validators none old = ok old
new_brand validators (some brand) old = or_raise validation_error (validators.brand brand)

-- The validated address; an address that is null is kept as null.
abbrev pub valid_email : Validators → Option ℕ → Result PropertyError (Option ℕ)
valid_email validators none = ok none
valid_email validators (some email) = do
  valid ← or_raise validation_error (validators.email email)
  ok (some valid)

-- The address of an update, where the field is set; the request is validated with the row's brand.
abbrev pub new_email :
    Validators → ℕ → Option (Option ℕ) → Option ℕ → Result PropertyError (Option ℕ)
new_email validators brand none old = ok old
new_email validators brand (some email) old = do
  _ ← or_raise validation_error (validators.brand brand)
  valid_email validators email

abbrev pub contacts_of : Property → Profile → Profile
contacts_of p profile = record profile {
  public_tracking_number = p.public_tracking_number;
  public_contact_email = p.public_contact_email;
}

unfoldable pub update_property :
    Validators
    → ℕ
    → PropertyUpdateRequest
    → ReviewActor
    → Catalog
    → Routes
    → Result PropertyError (Catalog × Routes)
update_property validators property_id request actor catalog routes = do
  assert_human actor
  row ← property_of catalog property_id
  brand ← new_brand validators request.neutral_brand row.neutral_brand
  email ← new_email validators brand request.public_contact_email row.public_contact_email
  _ ← profile_of routes property_id
  let updated = λ (p : Property). record p {
    neutral_brand = brand;
    public_tracking_number = or_keep p.public_tracking_number request.public_tracking_number;
    public_contact_email = email;
    analytics_verified = or_keep p.analytics_verified request.analytics_verified;
  }
  ok (
    revise actor updated row catalog,
    record routes {
      profiles =
          map (touch (λ p. p.property_id == property_id) (contacts_of (updated row)))
            routes.profiles;
    },
  )
