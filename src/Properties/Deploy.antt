-- ===== src/Properties/Deploy.antt =====
-- `deploy` and `rollback`. The adapter that copies a build to its destination is an argument, as in the
-- source.
pub mod Accepted
pub mod Gated
pub mod Cleared
use digital_real_estate_engi.Common.{
  is_nonempty, ℕ, Bool, true, not, Option, none, some, List, ◌∷◌, map, ◌&&◌, ◌==◌, if◌then◌else◌,
}
use mathlib.Core.Option
use digital_real_estate_engi.Common.Table.{get, touch}
use digital_real_estate_engi.Common.Result.{Result, ok, raised, raise_if, ◌>>=◌, ◌>>◌}
use digital_real_estate_engi.Reviews.State.{ReviewActor, Reviews}
use digital_real_estate_engi.Assignments.{ProviderAssignment, Routes, find_active}
use digital_real_estate_engi.Properties.State.{
  PropertyStatus, BuildEnvironment, preview, deployed, rolled_back, is_production, environment_eq,
  Property, SiteBuild, Deployment,
}
use digital_real_estate_engi.Properties.Errors.{
  deployment_failed, rollback_target_not_found, rollback_operator_confirmation_required,
  PropertyError, deployment_environment_build_mismatch, public_deployment_adapter_not_approved,
  production_deployment_gates_failed, rollback_target_must_be_production,
  rollback_requires_different_active_deployment, assert_operator, or_raise,
}
use digital_real_estate_engi.Properties.Catalog.{Catalog, property_of, set_property}
use digital_real_estate_engi.Properties.Domains.{Domains}
use digital_real_estate_engi.Properties.Sites.{Sites, build_of}
use digital_real_estate_engi.Properties.Gates.{
  DeploymentRequest, live_deployment, GateRows, gate_rows, failed_gates,
}

pub record LocalDeploymentResult : Type 0 where
  pub url : ℕ
  pub local_only : Bool

-- `deploy` copies a source to a destination, or raises.
pub record DeploymentAdapter : Type 0 where
  pub public_capable : Bool
  pub deploy : (source destination : ℕ) → Option LocalDeploymentResult

-- `deployment_root / property / environment / checksum`
abbrev pub Destinations : Type 0
Destinations = ℕ → BuildEnvironment → ℕ → ℕ

abbrev pub roll_back : Deployment → Deployment
roll_back d = record d { status = rolled_back }

-- The row of the deployment before, which is no longer live.
abbrev pub retire : Option Deployment → List Deployment → List Deployment
retire none rows = rows
retire (some prior) rows = map (touch (λ d. d.id == prior.id) roll_back) rows

-- `_write_provider_runtime_file`
abbrev pub write_runtime : ℕ → Option ProviderAssignment → Sites → Sites
write_runtime destination assignment sites = record sites {
  files = (destination, Option.map (λ a. a.id) assignment) ∷ sites.files;
}

abbrev pub new_deployment :
    (id now : ℕ)
    → Property
    → SiteBuild
    → GateRows
    → Option Deployment
    → LocalDeploymentResult
    → DeploymentRequest
    → ReviewActor
    → Deployment
new_deployment id now prop build rows prior result request actor = record {
  id = id;
  property_id = prop.id;
  site_build_id = build.id;
  domain_registration_id = Option.map (λ r. r.id) rows.registration;
  provider_assignment_id = Option.map (λ a. a.id) rows.assignment;
  compliance_review_id = Option.map (λ c. c.id) rows.compliance;
  previous_deployment_id = Option.map (λ d. d.id) prior;
  rollback_of_deployment_id = none;
  environment = request.environment;
  status = deployed;
  url = result.url;
  local_only = result.local_only;
  operator_user_id = actor.actor_id;
  operator_confirmation = request.operator_confirmation;
  neutral_pilot_mode = request.neutral_pilot_mode;
  deployed_at = now;
}

-- The status that a deployment gives to its property.
abbrev pub status_after : BuildEnvironment → PropertyStatus → PropertyStatus
status_after preview status = status
status_after BuildEnvironment.staging status = PropertyStatus.staging
status_after BuildEnvironment.production status = PropertyStatus.production

unfoldable pub deploy :
    Destinations
    → DeploymentAdapter
    → Reviews
    → Routes
    → Domains
    → (id build_id : ℕ) → DeploymentRequest
    → ReviewActor
    → (now : ℕ) → Catalog
    → Sites
    → Result PropertyError (Catalog × Sites)
deploy destinations adapter reviews routes domains id build_id request actor now catalog sites = do
  assert_operator actor
  build ← build_of sites build_id
  raise_if (not (environment_eq build.environment request.environment))
      deployment_environment_build_mismatch
  prop ← property_of catalog build.property_id
  raise_if adapter.public_capable public_deployment_adapter_not_approved
  rows ← gate_rows reviews routes domains catalog sites prop build
  raise_if (is_production request.environment && is_nonempty (failed_gates rows prop build request))
      (production_deployment_gates_failed (failed_gates rows prop build request))
  let prior = live_deployment sites prop.id request.environment
  let destination = destinations prop.id request.environment build.build_sha256
  result ← or_raise deployment_failed (adapter.deploy build.output_path destination)
  let row = new_deployment id now prop build rows prior result request actor
  ok (
    set_property prop.id (λ p. record p { status = status_after request.environment p.status })
        catalog,
    write_runtime destination rows.assignment
        (record sites { deployments = row ∷ retire prior sites.deployments }),
  )

-- The target of a rollback: a deployment of the property.
abbrev pub target_of : Sites → ℕ → ℕ → Result PropertyError Deployment
target_of sites property_id i = do
  target ← or_raise rollback_target_not_found (get (λ d. d.id) i sites.deployments)
  raise_if (not (target.property_id == property_id)) rollback_target_not_found
  ok target

abbrev pub different_from : Deployment → Option Deployment → Result PropertyError Deployment
different_from target none = raised rollback_requires_different_active_deployment
different_from target (some current) =
    if current.id == target.id
    then raised rollback_requires_different_active_deployment
    else ok current

abbrev pub rollback_deployment :
    (id now property_id : ℕ)
    → SiteBuild
    → (target current : Deployment) → Option ProviderAssignment
    → LocalDeploymentResult
    → ReviewActor
    → Deployment
rollback_deployment id now property_id build target current assignment result actor = record {
  id = id;
  property_id = property_id;
  site_build_id = build.id;
  domain_registration_id = target.domain_registration_id;
  provider_assignment_id = Option.map (λ a. a.id) assignment;
  compliance_review_id = target.compliance_review_id;
  previous_deployment_id = some current.id;
  rollback_of_deployment_id = some current.id;
  environment = BuildEnvironment.production;
  status = deployed;
  url = result.url;
  local_only = true;
  operator_user_id = actor.actor_id;
  operator_confirmation = true;
  neutral_pilot_mode = target.neutral_pilot_mode;
  deployed_at = now;
}

unfoldable pub rollback :
    Destinations
    → DeploymentAdapter
    → Routes
    → (id property_id target_id : ℕ) → (confirmation : Bool) → ReviewActor
    → (now : ℕ) → Sites
    → Result PropertyError Sites
rollback destinations adapter routes id property_id target_id confirmation actor now sites = do
  assert_operator actor
  raise_if (not confirmation) rollback_operator_confirmation_required
  target ← target_of sites property_id target_id
  raise_if (not (is_production target.environment)) rollback_target_must_be_production
  current ← different_from target (live_deployment sites property_id BuildEnvironment.production)
  build ← build_of sites target.site_build_id
  raise_if adapter.public_capable public_deployment_adapter_not_approved
  let destination = destinations property_id BuildEnvironment.production build.build_sha256
  result ← or_raise deployment_failed (adapter.deploy build.output_path destination)
  let assignment = find_active property_id routes.assignments
  let row = rollback_deployment id now property_id build target current assignment result actor
  ok (
      write_runtime destination assignment
        (record sites { deployments = row ∷ retire (some current) sites.deployments }))
