-- ===== src/Properties/Protocol.antt =====
-- The life of all properties, in any order of the operations.
pub mod Safety
use digital_real_estate_engi.Common.{ℕ, ◌≡◌, ◌≢◌, Bool, Option, List, All}
use digital_real_estate_engi.Common.Text.{Text}
use digital_real_estate_engi.Common.Result.{ok}
use digital_real_estate_engi.Reviews.State.{ReviewActor, Reviews}
use digital_real_estate_engi.Assignments.{Routes}
use digital_real_estate_engi.Assignments.Protocol
use digital_real_estate_engi.Properties.State.{
  DomainAvailability, BuildEnvironment, Asset, SitePayload, Checklist,
}
use digital_real_estate_engi.Properties.Catalog.{
  Catalog, Validators, PropertyCreateRequest, PropertyUpdateRequest, create_property,
  update_property,
}
use digital_real_estate_engi.Properties.SiteConfigs.{
  create_site_config, review_site_config, create_asset, review_asset,
}
use digital_real_estate_engi.Properties.Domains.{
  Domains, add_candidates, decide_domain_candidate, check_domain_availability,
  approve_domain_purchase, ManualRegistrationRequest, record_manual_registration,
  DnsVerificationRequest, verify_dns,
}
use digital_real_estate_engi.Properties.Sites.{Sites, StaticSite, build_site, review_compliance}
use digital_real_estate_engi.Properties.Gates.{DeploymentRequest}
use digital_real_estate_engi.Properties.Deploy.{DeploymentAdapter, Destinations, deploy, rollback}
use digital_real_estate_engi.Properties.Providers.{
  ProviderAssignmentInput, create_provider_assignment, activate_provider, replace_provider,
}

-- All tables of the service.
pub record Workflow : Type 0 where
  pub reviews : Reviews
  pub routes : Routes
  pub catalog : Catalog
  pub domains : Domains
  pub assets : List Asset
  pub sites : Sites

-- One operation that commits. The database gives a new row a key of its own. The other components review
-- opportunities and move assignments meanwhile.
pub data Operation (w : Workflow) : Workflow → Type 0 where
  reviewed : (reviews : Reviews) → Operation w (record w { reviews = reviews })
  rerouted :
      {routes : Routes}
      → Protocol.Operation w.routes routes
      → Operation w (record w { routes = routes })
  creates :
      (opportunity_id derived_id : ℕ) (request : PropertyCreateRequest) (actor : ReviewActor)
      {catalog : Catalog} {routes : Routes}
      → create_property w.reviews opportunity_id derived_id request actor w.catalog w.routes
        ≡ ok (catalog, routes)
      → Operation w (record w { catalog = catalog; routes = routes })
  updates :
      (validators : Validators) (property_id : ℕ) (request : PropertyUpdateRequest)
      (actor : ReviewActor) {catalog : Catalog} {routes : Routes}
      → update_property validators property_id request actor w.catalog w.routes
        ≡ ok (catalog, routes)
      → Operation w (record w { catalog = catalog; routes = routes })
  suggests :
      (property_id : ℕ) (names : List (ℕ × ℕ))
      → Operation w (record w {
        domains = record w.domains {
          candidates = add_candidates property_id w.domains.candidates names w.domains.candidates;
        };
      })
  decides :
      (candidate_id : ℕ) (shortlist : Bool) (actor : ReviewActor) (now : ℕ) {domains : Domains}
      → decide_domain_candidate candidate_id shortlist actor now w.domains ≡ ok domains
      → Operation w (record w { domains = domains })
  checks :
      (check : ℕ → DomainAvailability) (candidate_id now : ℕ) {domains : Domains}
      → check_domain_availability check candidate_id now w.domains ≡ ok domains
      → Operation w (record w { domains = domains })
  purchases :
      (can_purchase : Bool) (id manual candidate_id : ℕ) (explicit : Bool) (actor : ReviewActor)
      (now : ℕ) {domains : Domains}
      → approve_domain_purchase can_purchase id manual candidate_id explicit actor now w.domains
        ≡ ok domains
      → Operation w (record w { domains = domains })
  registers :
      (registration_id : ℕ) (request : ManualRegistrationRequest) (actor : ReviewActor) (now : ℕ)
      {domains : Domains}
      → record_manual_registration registration_id request actor now w.domains ≡ ok domains
      → Operation w (record w { domains = domains })
  verifies :
      (registration_id : ℕ) (request : DnsVerificationRequest) (actor : ReviewActor) (now : ℕ)
      {domains : Domains} {catalog : Catalog}
      → verify_dns registration_id request actor now w.domains w.catalog ≡ ok (domains, catalog)
      → Operation w (record w { domains = domains; catalog = catalog })
  adds_asset :
      (id property_id : ℕ) {assets : List Asset}
      → create_asset w.catalog id property_id w.assets ≡ ok assets
      → Operation w (record w { assets = assets })
  reviews_asset :
      (asset_id : ℕ) (is_approval : Bool) (actor : ReviewActor) (now : ℕ) {assets : List Asset}
      → review_asset asset_id is_approval actor now w.assets ≡ ok assets
      → Operation w (record w { assets = assets })
  assigns :
      (candidates : List ℕ) (id property_id : ℕ) (request : ProviderAssignmentInput)
      (actor : ReviewActor) (now : ℕ) {routes : Routes}
      → All (λ a. a.id ≢ id) w.routes.assignments
      → create_provider_assignment candidates w.assets w.catalog id property_id request actor now
          w.routes
        ≡ ok routes
      → Operation w (record w { routes = routes })
  activates :
      (directory : ℕ → Option ℕ) (i : ℕ) (reason : Text) (actor : ReviewActor) (now : ℕ)
      {routes : Routes} {sites : Sites}
      → activate_provider directory i reason actor now w.routes w.sites ≡ ok (routes, sites)
      → Operation w (record w { routes = routes; sites = sites })
  replaces :
      (directory : ℕ → Option ℕ) (property_id replacement_id : ℕ) (reason : Text)
      (actor : ReviewActor) (now : ℕ) {routes : Routes} {sites : Sites}
      → replace_provider directory property_id replacement_id reason actor now w.routes w.sites
        ≡ ok (routes, sites)
      → Operation w (record w { routes = routes; sites = sites })
  configures :
      (id property_id : ℕ) (payload : SitePayload) (actor : ReviewActor) {catalog : Catalog}
      → All (λ c. c.id ≢ id) w.catalog.configs
      → create_site_config w.assets w.routes id property_id payload actor w.catalog ≡ ok catalog
      → Operation w (record w { catalog = catalog })
  reviews_config :
      (config_id : ℕ) (is_approval : Bool) (actor : ReviewActor) (now : ℕ) {catalog : Catalog}
      → review_site_config config_id is_approval actor now w.catalog ≡ ok catalog
      → Operation w (record w { catalog = catalog })
  builds :
      (builder : SitePayload → Option ℕ → BuildEnvironment → StaticSite) (id config_id : ℕ)
      (environment : BuildEnvironment) {sites : Sites}
      → All (λ b. b.id ≢ id) w.sites.builds
      → build_site builder w.assets w.catalog id config_id environment w.sites ≡ ok sites
      → Operation w (record w { sites = sites })
  complies :
      (id build_id : ℕ) (is_approval : Bool) (checklist : Checklist) (actor : ReviewActor) (now : ℕ)
      {sites : Sites}
      → All (λ c. c.id ≢ id) w.sites.compliance
      → review_compliance id build_id is_approval checklist actor now w.sites ≡ ok sites
      → Operation w (record w { sites = sites })
  deploys :
      (destinations : Destinations) (adapter : DeploymentAdapter) (id build_id : ℕ)
      (request : DeploymentRequest) (actor : ReviewActor) (now : ℕ) {catalog : Catalog}
      {sites : Sites}
      → All (λ d. d.id ≢ id) w.sites.deployments
      → deploy destinations adapter w.reviews w.routes w.domains id build_id request actor now
          w.catalog w.sites
        ≡ ok (catalog, sites)
      → Operation w (record w { catalog = catalog; sites = sites })
  rolls_back :
      (destinations : Destinations) (adapter : DeploymentAdapter) (id property_id target_id : ℕ)
      (confirmation : Bool) (actor : ReviewActor) (now : ℕ) {sites : Sites}
      → All (λ d. d.id ≢ id) w.sites.deployments
      → rollback destinations adapter w.routes id property_id target_id confirmation actor now
          w.sites
        ≡ ok sites
      → Operation w (record w { sites = sites })

pub data Operations (w : Workflow) : Workflow → Type 0 where
  here : Operations w w
  next :
      {middle after : Workflow} → Operations w middle → Operation middle after → Operations w after
