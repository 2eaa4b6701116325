-- ===== src/Properties/Gates.antt =====
-- The conditions of a production deployment: `_deployment_gates` and the rows that it looks at.
use Prim.Native.String.{String}
use text.Mathlib.Text.{◌==◌ as str_eq}
use digital_real_estate_engi.Common.{
  ℕ, Bool, true, false, not, Option, none, some, List, ◌&&◌, ◌||◌, ◌==◌, ltb, holds, is_some,
  filter,
}
use digital_real_estate_engi.Common.Text.{Text, is_blank, strip}
use digital_real_estate_engi.Common.Table.{get}
use digital_real_estate_engi.Common.Query.{first_by}
use digital_real_estate_engi.Common.Result.{Result, ok, ◌>>=◌}
use digital_real_estate_engi.Reviews.State.{Opportunity, Reviews}
use digital_real_estate_engi.Assignments.{Profile, ProviderAssignment, Routes, find_active}
use digital_real_estate_engi.Properties.State.{
  BuildEnvironment, is_dns_verified, is_approved_config, environment_eq, is_deployed,
  is_approved_review, Property, DomainRegistration, SiteConfig, SiteBuild, ComplianceReview, Gate,
  active_provider_or_neutral_pilot, analytics_verified, approved_opportunity, approved_site_config,
  compliance_approved, domain_and_dns_verified, local_fail_closed_adapter, operator_confirmation,
  passing_build, provider_claims_reviewed, routing_healthy, all_gates, Deployment,
}
use digital_real_estate_engi.Properties.Errors.{PropertyError}
use digital_real_estate_engi.Properties.Catalog.{Catalog, config_of, profile_of}
use digital_real_estate_engi.Properties.Domains.{Domains}
use digital_real_estate_engi.Properties.Sites.{Sites}

pub record DeploymentRequest : Type 0 where
  pub environment : BuildEnvironment
  pub operator_confirmation : Bool
  pub confirmation_reason : Text
  pub neutral_pilot_mode : Bool
  pub neutral_pilot_reason : Text

-- `bool(text.strip())`
abbrev pub has_text : Text → Bool
has_text text = not (is_blank (strip text))

abbrev pub is_neutral_pilot : DeploymentRequest → Bool
is_neutral_pilot request = request.neutral_pilot_mode && has_text request.neutral_pilot_reason

-- `_verified_registration`
unfoldable pub verified_registration : Domains → ℕ → Option DomainRegistration
verified_registration domains property_id =
    first_by (λ a b. ltb b.id a.id)
      (filter (λ r. r.property_id == property_id && is_dns_verified r.status) domains.registrations)

-- `_approved_compliance`
unfoldable pub approved_compliance : Sites → ℕ → Option ComplianceReview
approved_compliance sites build_id =
    first_by (λ a b. ltb b.id a.id)
      (filter (λ c. c.site_build_id == build_id && is_approved_review c.status) sites.compliance)

abbrev pub is_live : ℕ → BuildEnvironment → Deployment → Bool
is_live property_id environment d =
    d.property_id == property_id
    && (environment_eq d.environment environment && is_deployed d.status)

-- The latest live deployment of a property in an environment.
unfoldable pub live_deployment : Sites → ℕ → BuildEnvironment → Option Deployment
live_deployment sites property_id environment =
    first_by (λ a b. ltb b.id a.id) (filter (is_live property_id environment) sites.deployments)

-- The rows that the gates look at.
pub record GateRows : Type 0 where
  pub opportunity : Option Opportunity
  pub config : SiteConfig
  pub registration : Option DomainRegistration
  pub assignment : Option ProviderAssignment
  pub compliance : Option ComplianceReview
  pub profile : Profile

unfoldable pub gate_rows :
    Reviews
    → Routes
    → Domains
    → Catalog
    → Sites
    → Property
    → SiteBuild
    → Result PropertyError GateRows
gate_rows reviews routes domains catalog sites prop build = do
  config ← config_of catalog build.site_config_id
  profile ← profile_of routes prop.id
  ok (record {
    opportunity = get (λ o. o.id) prop.opportunity_id reviews.opportunities;
    config = config;
    registration = verified_registration domains prop.id;
    assignment = find_active prop.id routes.assignments;
    compliance = approved_compliance sites build.id;
    profile = profile;
  })

abbrev pub is_approved_opportunity : Option Opportunity → Bool
is_approved_opportunity none = false
is_approved_opportunity (some o) = str_eq o.status "approved_for_property"

abbrev pub has_reviewed_claims : Option ProviderAssignment → Bool
has_reviewed_claims none = false
has_reviewed_claims (some a) = is_some a.claims_reviewed_at

abbrev pub is_registered_domain : Option ℕ → Option DomainRegistration → Bool
is_registered_domain domain none = false
is_registered_domain domain (some r) = holds domain r.domain

abbrev pub is_healthy : Option String → Bool
is_healthy none = false
is_healthy (some s) = str_eq s "healthy" || (str_eq s "active" || str_eq s "ok")

-- `_deployment_gates`
unfoldable pub deployment_gates : GateRows → Property → SiteBuild → DeploymentRequest → Gate → Bool
deployment_gates rows prop build request approved_opportunity =
    is_approved_opportunity rows.opportunity
deployment_gates rows prop build request approved_site_config =
    is_approved_config rows.config.status
deployment_gates rows prop build request passing_build = build.passed
deployment_gates rows prop build request active_provider_or_neutral_pilot =
    is_some rows.assignment || is_neutral_pilot request
deployment_gates rows prop build request provider_claims_reviewed =
    is_neutral_pilot request || has_reviewed_claims rows.assignment
deployment_gates rows prop build request compliance_approved = is_some rows.compliance
deployment_gates rows prop build request domain_and_dns_verified =
    is_registered_domain prop.domain rows.registration
deployment_gates rows prop build request routing_healthy =
    is_healthy rows.profile.routing_health_status
deployment_gates rows prop build request analytics_verified = prop.analytics_verified
deployment_gates rows prop build request operator_confirmation =
    request.operator_confirmation && has_text request.confirmation_reason
deployment_gates rows prop build request local_fail_closed_adapter = true

unfoldable pub failed_gates : GateRows → Property → SiteBuild → DeploymentRequest → List Gate
failed_gates rows prop build request =
    filter (λ gate. not (deployment_gates rows prop build request gate)) all_gates
