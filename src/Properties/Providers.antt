-- ===== src/Properties/Providers.antt =====
-- The provider of a property: `create_provider_assignment`, `activate_provider` and
-- `replace_provider`, which write the runtime configuration of the live local deployments.
pub mod Single
pub mod Runtime
pub mod Rollout
use digital_real_estate_engi.Common.{
  ℕ, Bool, not, Option, none, some, List, [], ◌∷◌, ◌++◌, ◌&&◌, ◌==◌, is_some, if◌then◌else◌, any,
}
use digital_real_estate_engi.Common.Text.{Text}
use digital_real_estate_engi.Common.Table.{get}
use digital_real_estate_engi.Common.Result.{Result, ok, raise_if, ◌>>=◌, ◌>>◌}
use digital_real_estate_engi.Reviews.State.{ReviewActor}
use digital_real_estate_engi.Deliveries.Store.{pilot, active}
use digital_real_estate_engi.Assignments.{
  ProviderAssignment, Routes, create_assignment, find_active, is_candidate, set_assignment,
  transition_assignment, replace_assignment,
}
use digital_real_estate_engi.Properties.State.{is_deployed, Asset, Deployment}
use digital_real_estate_engi.Properties.Errors.{
  PropertyError, provider_assignment_not_found, provider_candidate_not_found,
  provider_asset_must_be_approved, provider_claims_require_review,
  active_provider_assignment_not_found, replacement_claims_require_review, assert_reviewer,
  assert_operator, or_raise,
}
use digital_real_estate_engi.Properties.Catalog.{Catalog, property_of, routed}
use digital_real_estate_engi.Properties.Sites.{Sites}
use digital_real_estate_engi.Properties.Deploy.{write_runtime}

pub record ProviderAssignmentInput : Type 0 where
  pub provider_candidate_id : Option ℕ
  pub destination_phone : Option ℕ
  pub destination_email : Option ℕ
  pub logo_asset_id : Option ℕ
  pub provider_photos : List ℕ

abbrev pub assert_candidate : List ℕ → Option ℕ → Result PropertyError Unit
assert_candidate candidates none = ok tt
assert_candidate candidates (some i) =
    raise_if (not (any (λ c. c == i) candidates)) provider_candidate_not_found

abbrev pub to_list : Option ℕ → List ℕ
to_list none = []
to_list (some i) = i ∷ []

-- The photos and the logo.
unfoldable pub assert_approved_assets : List Asset → ℕ → List ℕ → Result PropertyError Unit
assert_approved_assets assets property_id [] = ok tt
assert_approved_assets assets property_id (i ∷ ids) =
    (do
      asset ← or_raise (provider_asset_must_be_approved i) (get (λ a. a.id) i assets)
      raise_if (not (asset.property_id == property_id && asset.approved))
          (provider_asset_must_be_approved i))
    >> assert_approved_assets assets property_id ids

-- `candidates` are the keys of the provider candidates.
unfoldable pub create_provider_assignment :
    (candidates : List ℕ)
    → List Asset
    → Catalog
    → (id property_id : ℕ) → ProviderAssignmentInput
    → ReviewActor
    → (now : ℕ) → Routes
    → Result PropertyError Routes
create_provider_assignment candidates assets catalog id property_id request actor now routes = do
  assert_reviewer actor
  _ ← property_of catalog property_id
  assert_candidate candidates request.provider_candidate_id
  assert_approved_assets assets property_id
      (request.provider_photos ++ to_list request.logo_asset_id)
  created ←
      routed (
        create_assignment id property_id request.destination_phone request.destination_email routes)
  ok (set_assignment id (λ a. record a { claims_reviewed_at = some now }) created)

abbrev pub provider_of : Routes → ℕ → Result PropertyError ProviderAssignment
provider_of routes i = or_raise provider_assignment_not_found (get (λ a. a.id) i routes.assignments)

-- The live local deployments of the property.
abbrev pub is_local : ℕ → Deployment → Bool
is_local property_id d = d.property_id == property_id && (is_deployed d.status && d.local_only)

-- The loop body of `_update_provider_runtime_configuration`; `directory` is the directory of a URL whose
-- scheme is "file".
unfoldable pub tell :
    (directory : ℕ → Option ℕ) → ℕ → ProviderAssignment → Deployment → Sites → Sites
tell directory property_id assignment d sites =
    if is_local property_id d
    then elim (directory d.url) [
      | none ↦ sites
      | some destination ↦ write_runtime destination (some assignment) sites
    ]
    else sites

unfoldable pub update_runtime :
    (directory : ℕ → Option ℕ) → ℕ → ProviderAssignment → List Deployment → Sites → Sites
update_runtime directory property_id assignment [] sites = sites
update_runtime directory property_id assignment (d ∷ rows) sites =
    update_runtime directory property_id assignment rows
      (tell directory property_id assignment d sites)

abbrev pub prepared : ℕ → ProviderAssignment → (now : ℕ) → Routes → Result PropertyError Routes
prepared i row now routes =
    if is_candidate row.status
    then routed (transition_assignment i pilot none now routes)
    else ok routes

abbrev pub activation : ReviewActor → Text → ProviderAssignment → ProviderAssignment
activation actor reason a = record a {
  activation_approved_by = some actor.actor_id;
  activation_reason = some reason;
}

unfoldable pub activate_provider :
    (directory : ℕ → Option ℕ)
    → ℕ
    → (reason : Text) → ReviewActor
    → (now : ℕ) → Routes
    → Sites
    → Result PropertyError (Routes × Sites)
activate_provider directory i reason actor now routes sites = do
  assert_operator actor
  row ← provider_of routes i
  raise_if (not (is_some row.claims_reviewed_at)) provider_claims_require_review
  piloted ← prepared i row now routes
  activated ← routed (transition_assignment i active none now piloted)
  let routes' = set_assignment i (activation actor reason) activated
  current ← provider_of routes' i
  ok (routes', update_runtime directory current.property_id current sites.deployments sites)

abbrev pub replacement_activation : ReviewActor → Text → ProviderAssignment → ProviderAssignment
replacement_activation actor reason a = record (activation actor reason a) {
  replacement_approved_by = some actor.actor_id;
}

unfoldable pub replace_provider :
    (directory : ℕ → Option ℕ)
    → (property_id replacement_id : ℕ) → (reason : Text) → ReviewActor
    → (now : ℕ) → Routes
    → Sites
    → Result PropertyError (Routes × Sites)
replace_provider directory property_id replacement_id reason actor now routes sites = do
  assert_operator actor
  current ←
      or_raise active_provider_assignment_not_found (find_active property_id routes.assignments)
  replacement ← provider_of routes replacement_id
  raise_if (not (is_some replacement.claims_reviewed_at)) replacement_claims_require_review
  replaced ← routed (replace_assignment current.id replacement_id (some reason) now routes)
  let routes' = set_assignment replacement_id (replacement_activation actor reason) replaced
  row ← provider_of routes' replacement_id
  ok (routes', update_runtime directory property_id row sites.deployments sites)
