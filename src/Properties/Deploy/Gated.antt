-- ===== src/Properties/Deploy/Gated.antt =====
-- What each gate of a deployment shows of the rows it looked at.
use text.Mathlib.TextEquality.{eq_iff}
use digital_real_estate_engi.Common.{
  Member, ℕ, ◌≡◌, ◌⊎◌, refl, inl, inr, sym, ap, Bool, true, false, not, Option, none, some, ◌&&◌,
  ◌||◌, ◌==◌, All, filter-none, is_nonempty, is_some, arith, eq_of_==,
}
use digital_real_estate_engi.Common.Table.{get}
use digital_real_estate_engi.Common.Query.{first_by-filter, first_by-Member}
use digital_real_estate_engi.Common.Result.{ok, >>=-eq-ok, ok_inj}
use digital_real_estate_engi.Reviews.State.{Reviews, Opportunity}
use digital_real_estate_engi.Assignments.{Routes, ProviderAssignment, Profile, find_active}
use digital_real_estate_engi.Properties.State.{
  is_dns_verified, is_approved_review, Property, DomainRegistration, SiteConfig, SiteBuild,
  ComplianceReview, Gate, active_provider_or_neutral_pilot, analytics_verified,
  approved_opportunity, approved_site_config, compliance_approved, domain_and_dns_verified,
  local_fail_closed_adapter, operator_confirmation, passing_build, provider_claims_reviewed,
  routing_healthy, all_gates,
}
use digital_real_estate_engi.Properties.Errors.{or_raise-eq-ok}
use digital_real_estate_engi.Properties.Catalog.{Catalog, config_of, profile_of}
use digital_real_estate_engi.Properties.Domains.{Domains}
use digital_real_estate_engi.Properties.Sites.{Sites}
use digital_real_estate_engi.Properties.Gates.{
  DeploymentRequest, verified_registration, approved_compliance, GateRows, gate_rows,
  is_approved_opportunity, has_reviewed_claims, is_registered_domain, deployment_gates,
  failed_gates,
}

pub gate_passes :
    (rows : GateRows) (prop : Property) (build : SiteBuild) (request : DeploymentRequest)
    → is_nonempty (failed_gates rows prop build request) ≡ false
    → (gate : Gate) → deployment_gates rows prop build request gate ≡ true
unfolding failed_gates
gate_passes rows prop build request h gate =
    let all = filter-none (λ g. not (deployment_gates rows prop build request g)) all_gates h in
    passes (deployment_gates rows prop build request gate) (at_gate gate all)
  where
    passes : (b : Bool) → not b ≡ false → b ≡ true
    passes true e = refl
    passes false e = cc

    at_gate :
        (g : Gate)
        → All (λ g. not (deployment_gates rows prop build request g) ≡ false) all_gates
        → not (deployment_gates rows prop build request g) ≡ false
    at_gate active_provider_or_neutral_pilot all = all.0
    at_gate analytics_verified all = all.1.0
    at_gate approved_opportunity all = all.1.1.0
    at_gate approved_site_config all = all.1.1.1.0
    at_gate compliance_approved all = all.1.1.1.1.0
    at_gate domain_and_dns_verified all = all.1.1.1.1.1.0
    at_gate local_fail_closed_adapter all = all.1.1.1.1.1.1.0
    at_gate operator_confirmation all = all.1.1.1.1.1.1.1.0
    at_gate passing_build all = all.1.1.1.1.1.1.1.1.0
    at_gate provider_claims_reviewed all = all.1.1.1.1.1.1.1.1.1.0
    at_gate routing_healthy all = all.1.1.1.1.1.1.1.1.1.1.0

-- The rows of the gates are those of the tables.
pub gate_rows-inversion :
    (reviews : Reviews) (routes : Routes) (domains : Domains) (catalog : Catalog) (sites : Sites)
    (prop : Property) (build : SiteBuild) (rows : GateRows)
    → gate_rows reviews routes domains catalog sites prop build ≡ ok rows
    → (config : SiteConfig) × (profile : Profile) × (get
          (λ c. c.id)
          build.site_config_id
          catalog.configs
        ≡ some config)
      × (get (λ p. p.property_id) prop.id routes.profiles ≡ some profile)
      × (rows ≡ record {
        opportunity = get (λ o. o.id) prop.opportunity_id reviews.opportunities;
        config = config;
        registration = verified_registration domains prop.id;
        assignment = find_active prop.id routes.assignments;
        compliance = approved_compliance sites build.id;
        profile = profile;
      })
unfolding gate_rows
gate_rows-inversion reviews routes domains catalog sites prop build rows h =
    let (config, found, h1) = >>=-eq-ok (config_of catalog build.site_config_id) _ h in
    let (profile, routed_row, done) = >>=-eq-ok (profile_of routes prop.id) _ h1 in
    (config, profile, or_raise-eq-ok _ _ found, or_raise-eq-ok _ _ routed_row, sym (ok_inj done))

pub opportunity-approved :
    (o : Option Opportunity)
    → is_approved_opportunity o ≡ true
    → (a : Opportunity) × (o ≡ some a) × (a.status ≡ "approved_for_property")
opportunity-approved none h = cc
opportunity-approved (some a) h = (a, refl, (eq_iff a.status "approved_for_property").0 h)

pub domain-registered :
    (domain : Option ℕ) (o : Option DomainRegistration)
    → is_registered_domain domain o ≡ true
    → (r : DomainRegistration) × (o ≡ some r) × (domain ≡ some r.domain)
domain-registered domain none h = cc
domain-registered none (some r) h = cc
domain-registered (some d) (some r) h = (r, refl, ap some (eq_of_== d r.domain h))

pub some_of_is_some {ℓ} : {A : Type ℓ} (o : Option A) → is_some o ≡ true → (a : A) × (o ≡ some a)
some_of_is_some none h = cc
some_of_is_some (some a) h = (a, refl)

pub provider-reviewed :
    (b : Bool) (o : Option ProviderAssignment)
    → (b || has_reviewed_claims o) ≡ true
    → (b ≡ true) ⊎ ((a : ProviderAssignment) × (o ≡ some a) × (is_some a.claims_reviewed_at ≡ true))
provider-reviewed true o h = inl refl
provider-reviewed false none h = cc
provider-reviewed false (some a) h = inr (a, refl, h)

-- The rows of the gates, from the tables.
abbrev pub table_rows :
    Reviews → Routes → Domains → Sites → Property → SiteBuild → SiteConfig → Profile → GateRows
table_rows reviews routes domains sites prop build config profile = record {
  opportunity = get (λ o. o.id) prop.opportunity_id reviews.opportunities;
  config = config;
  registration = verified_registration domains prop.id;
  assignment = find_active prop.id routes.assignments;
  compliance = approved_compliance sites build.id;
  profile = profile;
}

pub approved_compliance_lem :
    (sites : Sites) (build_id : ℕ) (c : ComplianceReview)
    → approved_compliance sites build_id ≡ some c
    → (c.site_build_id ≡ build_id)
      × (is_approved_review c.status ≡ true)
      × Member c sites.compliance
unfolding approved_compliance
approved_compliance_lem sites build_id c h =
    let passes =
      first_by-filter _ (λ c. c.site_build_id == build_id && is_approved_review c.status)
        sites.compliance c h in
    (
      eq_of_== _ _ (ground (arith, passes)),
      ground (arith, passes),
      first_by-Member _ (λ c. c.site_build_id == build_id && is_approved_review c.status)
          sites.compliance c h,
    )

pub verified_registration_lem :
    (domains : Domains) (property_id : ℕ) (r : DomainRegistration)
    → verified_registration domains property_id ≡ some r
    → (r.property_id ≡ property_id)
      × (is_dns_verified r.status ≡ true)
      × Member r domains.registrations
unfolding verified_registration
verified_registration_lem domains property_id r h =
    let passes =
      first_by-filter _ (λ r. r.property_id == property_id && is_dns_verified r.status)
        domains.registrations r h in
    (
      eq_of_== _ _ (ground (arith, passes)),
      ground (arith, passes),
      first_by-Member _ (λ r. r.property_id == property_id && is_dns_verified r.status)
          domains.registrations r h,
    )
