-- ===== src/Properties/Deploy/Cleared.antt =====
-- What a production deployment that was accepted shows.
use digital_real_estate_engi.Common.{
  Member, ℕ, ◌≡◌, ◌⊎◌, sym, true, false, some, ◌&&◌, is_nonempty, is_some,
}
use mathlib.Core.Path.{subst}
use digital_real_estate_engi.Common.Table.{get}
use digital_real_estate_engi.Common.Result.{ok}
use digital_real_estate_engi.Reviews.State.{ReviewActor, Reviews, Opportunity}
use digital_real_estate_engi.Assignments.{Routes, ProviderAssignment, Profile, find_active}
use digital_real_estate_engi.Properties.State.{
  is_dns_verified, is_approved_config, is_production, is_approved_review, Property,
  DomainRegistration, SiteConfig, SiteBuild, ComplianceReview, Gate, analytics_verified,
  approved_opportunity, approved_site_config, compliance_approved, domain_and_dns_verified,
  operator_confirmation, passing_build, provider_claims_reviewed, routing_healthy,
}
use digital_real_estate_engi.Properties.Catalog.{Catalog}
use digital_real_estate_engi.Properties.Domains.{Domains}
use digital_real_estate_engi.Properties.Sites.{Sites}
use digital_real_estate_engi.Properties.Gates.{
  DeploymentRequest, has_text, is_neutral_pilot, is_healthy, deployment_gates, failed_gates,
}
use digital_real_estate_engi.Properties.Deploy.{DeploymentAdapter, Destinations, deploy}
use digital_real_estate_engi.Properties.Deploy.Accepted.{deploy-Deployed}
use digital_real_estate_engi.Properties.Deploy.Gated.{
  gate_passes, gate_rows-inversion, opportunity-approved, domain-registered, some_of_is_some,
  provider-reviewed, table_rows, approved_compliance_lem, verified_registration_lem,
}

-- The build, the property and the rows that stand behind a production deployment.
pub record IsCleared (reviews : Reviews) (routes : Routes) (domains : Domains) (catalog : Catalog)
    (sites : Sites) (build_id : ℕ) (request : DeploymentRequest) : Type 0 where
  pub build : SiteBuild
  pub prop : Property
  pub opportunity : Opportunity
  pub config : SiteConfig
  pub review : ComplianceReview
  pub registration : DomainRegistration
  pub profile : Profile
  pub build_row : get (λ b. b.id) build_id sites.builds ≡ some build
  pub is_production_build : is_production build.environment ≡ true
  pub passed : build.passed ≡ true
  pub property_row : get (λ p. p.id) build.property_id catalog.properties ≡ some prop
  pub opportunity_row : get (λ o. o.id) prop.opportunity_id reviews.opportunities ≡ some opportunity
  pub opportunity_approved : opportunity.status ≡ "approved_for_property"
  pub config_row : get (λ c. c.id) build.site_config_id catalog.configs ≡ some config
  pub config_approved : is_approved_config config.status ≡ true
  pub review_row : Member review sites.compliance
  pub review_approved : is_approved_review review.status ≡ true
  pub review_of_build : review.site_build_id ≡ build.id
  pub registration_row : Member registration domains.registrations
  pub domain_verified : is_dns_verified registration.status ≡ true
  pub domain_of_property : registration.property_id ≡ prop.id
  pub domain_used : prop.domain ≡ some registration.domain
  pub profile_row : get (λ p. p.property_id) prop.id routes.profiles ≡ some profile
  pub healthy : is_healthy profile.routing_health_status ≡ true
  pub analytics : prop.analytics_verified ≡ true
  pub confirmed : (request.operator_confirmation && has_text request.confirmation_reason) ≡ true
  pub provider :
      (is_neutral_pilot request ≡ true)
      ⊎ ((a : ProviderAssignment) × (find_active prop.id routes.assignments ≡ some a)
          × (is_some a.claims_reviewed_at ≡ true))

table_rows-IsCleared :
    (reviews : Reviews) (routes : Routes) (domains : Domains) (catalog : Catalog) (sites : Sites)
    (build_id : ℕ) (request : DeploymentRequest) (build : SiteBuild) (prop : Property)
    (config : SiteConfig) (profile : Profile)
    → get (λ b. b.id) build_id sites.builds ≡ some build
    → is_production build.environment ≡ true
    → get (λ p. p.id) build.property_id catalog.properties ≡ some prop
    → get (λ c. c.id) build.site_config_id catalog.configs ≡ some config
    → get (λ p. p.property_id) prop.id routes.profiles ≡ some profile
    → ((gate : Gate)
        → deployment_gates
            (table_rows reviews routes domains sites prop build config profile)
            prop
            build
            request
            gate
          ≡ true)
    → IsCleared reviews routes domains catalog sites build_id request
unfolding deployment_gates
table_rows-IsCleared reviews routes domains catalog sites build_id request build prop config profile
      build_row place property_row config_row profile_row pass =
    let (o, opportunity_row, opportunity_is) = opportunity-approved _ (pass approved_opportunity) in
    let (c, compliance_row) = some_of_is_some _ (pass compliance_approved) in
    let (r, registration_row, used) = domain-registered _ _ (pass domain_and_dns_verified) in
    let (of_build, review_is, review_row) =
      approved_compliance_lem sites build.id c compliance_row in
    let (of_property, verified_is, domain_row) =
      verified_registration_lem domains prop.id r registration_row in
    record {
      build = build;
      prop = prop;
      opportunity = o;
      config = config;
      review = c;
      registration = r;
      profile = profile;
      build_row = build_row;
      is_production_build = place;
      passed = pass passing_build;
      property_row = property_row;
      opportunity_row = opportunity_row;
      opportunity_approved = opportunity_is;
      config_row = config_row;
      config_approved = pass approved_site_config;
      review_row = review_row;
      review_approved = review_is;
      review_of_build = of_build;
      registration_row = domain_row;
      domain_verified = verified_is;
      domain_of_property = of_property;
      domain_used = used;
      profile_row = profile_row;
      healthy = pass routing_healthy;
      analytics = pass analytics_verified;
      confirmed = pass operator_confirmation;
      provider = provider-reviewed (is_neutral_pilot request) _ (pass provider_claims_reviewed);
    }

-- A deployment to production that is accepted has every condition that the operators ask for: an approved
-- opportunity, an approved configuration, a production build that passed, an approved compliance review
-- of that very build in the table, a verified domain of the table that the property uses, a healthy route, verified analytics, a
-- confirmation with a reason, and an active provider with reviewed claims or a neutral pilot with a
-- reason.
pub deploy-IsCleared :
    (destinations : Destinations) (adapter : DeploymentAdapter) (reviews : Reviews)
    (routes : Routes) (domains : Domains) (id build_id : ℕ) (request : DeploymentRequest)
    (actor : ReviewActor) (now : ℕ) (catalog : Catalog) (sites : Sites) (catalog' : Catalog)
    (sites' : Sites)
    → is_production request.environment ≡ true
    → deploy destinations adapter reviews routes domains id build_id request actor now catalog sites
      ≡ ok (catalog', sites')
    → IsCleared reviews routes domains catalog sites build_id request
deploy-IsCleared destinations adapter reviews routes domains id build_id request actor now catalog
      sites catalog' sites' is_live_site h =
    let d =
      deploy-Deployed destinations adapter reviews routes domains id build_id request actor now
        catalog sites catalog' sites' h in
    let (config, profile, config_row, profile_row, rows_are) =
      gate_rows-inversion reviews routes domains catalog sites d.prop d.build d.rows d.looked in
    let pass = gate_passes d.rows d.prop d.build request (
      subst (λ b. (b && is_nonempty (failed_gates d.rows d.prop d.build request)) ≡ false)
        is_live_site d.passes) in
    table_rows-IsCleared reviews routes domains catalog sites build_id request d.build d.prop config
      profile d.build_row (subst (λ e. is_production e ≡ true) (sym d.environment) is_live_site)
      d.property_row config_row profile_row
      (λ gate.
        subst (λ rows. deployment_gates rows d.prop d.build request gate ≡ true) rows_are
          (pass gate))
