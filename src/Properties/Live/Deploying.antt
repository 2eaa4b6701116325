-- ===== src/Properties/Live/Deploying.antt =====
-- Deployments and rollbacks leave one live deployment at most.
use mathlib.Core.Path.{subst}
use mathlib.Core.Option
use digital_real_estate_engi.Common.{
  some, ap, arith, map, List, if◌then◌else◌, ◌==◌, ◌&&◌, refl, ℕ, ◌≡◌, ◌≢◌, refl, sym, ◌∙◌, Bool,
  ◌∷◌, filter, ltb, All,
}
use digital_real_estate_engi.Common.Query.{first_by}
use digital_real_estate_engi.Common.Result.{ok}
use digital_real_estate_engi.Reviews.State.{ReviewActor, Reviews}
use digital_real_estate_engi.Assignments.{Routes, find_active}
use digital_real_estate_engi.Properties.State.{
  Property, PropertyStatus, preview, is_production, SiteBuild, BuildEnvironment, environment_eq,
}
use digital_real_estate_engi.Properties.Catalog.{Catalog}
use digital_real_estate_engi.Properties.Domains.{Domains}
use digital_real_estate_engi.Properties.Gates.{DeploymentRequest, is_live, live_deployment}
use digital_real_estate_engi.Properties.Deploy.{
  status_after, DeploymentAdapter, Destinations, retire, new_deployment, deploy,
  rollback_deployment, rollback,
}
use digital_real_estate_engi.Properties.Deploy.Accepted.{deploy-Deployed, rollback-RolledBack}
use digital_real_estate_engi.Properties.Sites.{Sites}
use digital_real_estate_engi.Common.Sum.{sum_of}
use digital_real_estate_engi.Common.Table.{get, key-get, touch, get-touch_key}
use digital_real_estate_engi.Properties.Live.{live_weight, added-count, IsLive, added-IsLive}

-- `unfolding` of the query, once.
live_deployment_lem :
    (sites : Sites) (property_id : ℕ) (environment : BuildEnvironment)
    → live_deployment sites property_id environment
      ≡ first_by (λ a b. ltb b.id a.id) (filter (is_live property_id environment) sites.deployments)
unfolding live_deployment
live_deployment_lem sites property_id environment = refl

pub deploy-IsLive :
    (destinations : Destinations) (adapter : DeploymentAdapter) (reviews : Reviews)
    (routes : Routes) (domains : Domains) (id build_id : ℕ) (request : DeploymentRequest)
    (actor : ReviewActor) (now : ℕ) (catalog : Catalog) (sites : Sites) (catalog' : Catalog)
    (sites' : Sites)
    → All (λ d. d.id ≢ id) sites.deployments
    → IsLive sites.deployments
    → deploy destinations adapter reviews routes domains id build_id request actor now catalog sites
      ≡ ok (catalog', sites')
    → IsLive sites'.deployments
deploy-IsLive destinations adapter reviews routes domains id build_id request actor now catalog
      sites catalog' sites' fresh live h =
    let d =
      deploy-Deployed destinations adapter reviews routes domains id build_id request actor now
        catalog sites catalog' sites' h in
    let prior = live_deployment sites d.prop.id request.environment in
    subst (λ s. IsLive s.deployments) (sym d.sites_after)
      (subst
        (λ o. IsLive (
          new_deployment id now d.prop d.build d.rows prior d.result request actor
          ∷ retire o sites.deployments))
        (sym (live_deployment_lem sites d.prop.id request.environment))
        (added-IsLive d.prop.id request.environment sites.deployments live
          (new_deployment id now d.prop d.build d.rows prior d.result request actor) refl refl
          fresh))

pub rollback-IsLive :
    (destinations : Destinations) (adapter : DeploymentAdapter) (routes : Routes)
    (id property_id target_id : ℕ) (confirmation : Bool) (actor : ReviewActor) (now : ℕ)
    (sites sites' : Sites)
    → All (λ d. d.id ≢ id) sites.deployments
    → IsLive sites.deployments
    → rollback destinations adapter routes id property_id target_id confirmation actor now sites
      ≡ ok sites'
    → IsLive sites'.deployments
rollback-IsLive destinations adapter routes id property_id target_id confirmation actor now sites
      sites' fresh live h =
    let r =
      rollback-RolledBack destinations adapter routes id property_id target_id confirmation actor
        now sites sites' h in
    let row =
      rollback_deployment id now property_id r.build r.target r.current
        (find_active property_id routes.assignments) r.result actor in
    subst (λ s. IsLive s.deployments) (sym r.sites_after)
      (subst (λ o. IsLive (row ∷ retire o sites.deployments))
        (sym (live_deployment_lem sites property_id BuildEnvironment.production) ∙ r.current_row)
        (added-IsLive property_id BuildEnvironment.production sites.deployments live row refl refl
          fresh))

-- The property of a build that stands in an environment: in production or in staging, or as before.
abbrev pub with_status : BuildEnvironment → Property → Property
with_status environment p = record p {
  status =
      if is_production environment
      then PropertyStatus.production
      else if environment_eq environment BuildEnvironment.staging
      then PropertyStatus.staging
      else p.status;
}

status_after-get :
    (environment : BuildEnvironment) (i q : ℕ) (rows : List Property)
    → get
        (λ p. p.id)
        q
        (map
          (touch (λ p. p.id == i) (λ p. record p { status = status_after environment p.status }))
          rows)
      ≡ (if q == i
          then Option.map (with_status environment) (get (λ p. p.id) q rows)
          else get (λ p. p.id) q rows)
status_after-get preview i q rows =
    get-touch_key (λ p. p.id) (with_status preview) (λ p. refl) i q rows
status_after-get BuildEnvironment.staging i q rows =
    get-touch_key (λ p. p.id) (with_status BuildEnvironment.staging) (λ p. refl) i q rows
status_after-get BuildEnvironment.production i q rows =
    get-touch_key (λ p. p.id) (with_status BuildEnvironment.production) (λ p. refl) i q rows

-- After a deployment that is accepted one deployment of the property is live in the environment, as many as
-- before are live of every other pair of a property and an environment, and no property but that of
-- the build is changed, which has the status of the environment.
pub record Shows (build : SiteBuild) (environment : BuildEnvironment) (catalog : Catalog)
    (sites : Sites) (catalog' : Catalog) (sites' : Sites) : Type 0 where
  pub live_after :
      (q : ℕ) (f : BuildEnvironment)
      → sum_of (live_weight q f) sites'.deployments ≡ (
          if build.property_id == q && environment_eq environment f
          then 1
          else sum_of (live_weight q f) sites.deployments)
  pub status_is :
      (q : ℕ)
      → get (λ p. p.id) q catalog'.properties ≡ (
          if q == build.property_id
          then Option.map (with_status environment) (get (λ p. p.id) q catalog.properties)
          else get (λ p. p.id) q catalog.properties)

-- When an accepted deployment starts with one live deployment of a property in an environment at most, it
-- leaves exactly one of its own property and environment, as many as before of every other pair, and changes
-- no property but that of the build, whose status is then production or staging, or as before for a preview.
pub deploy-Shows :
    (destinations : Destinations) (adapter : DeploymentAdapter) (reviews : Reviews)
    (routes : Routes) (domains : Domains) (id build_id : ℕ) (request : DeploymentRequest)
    (actor : ReviewActor) (now : ℕ) (catalog : Catalog) (sites : Sites) (catalog' : Catalog)
    (sites' : Sites) (build : SiteBuild)
    → IsLive sites.deployments
    → get (λ b. b.id) build_id sites.builds ≡ some build
    → deploy destinations adapter reviews routes domains id build_id request actor now catalog sites
      ≡ ok (catalog', sites')
    → Shows build request.environment catalog sites catalog' sites'
deploy-Shows destinations adapter reviews routes domains id build_id request actor now catalog sites
      catalog' sites' build live built h =
    let d =
      deploy-Deployed destinations adapter reviews routes domains id build_id request actor now
        catalog sites catalog' sites' h in
    let prior = live_deployment sites d.prop.id request.environment in
    let row = new_deployment id now d.prop d.build d.rows prior d.result request actor in
    let found = d.build_row in
    let same : d.build ≡ build = ground (arith, built, found) in
    let key : d.prop.id ≡ build.property_id =
      key-get (λ p. p.id) d.build.property_id catalog.properties d.prop d.property_row
      ∙ ap (λ b. b.property_id) same in
    record {
      live_after = λ q f.
          subst
            (λ i. sum_of (live_weight q f) sites'.deployments ≡ (
              if i == q && environment_eq request.environment f
              then 1
              else sum_of (live_weight q f) sites.deployments))
            key
            (ap (λ s. sum_of (live_weight q f) s.deployments) d.sites_after
              ∙ ap (λ o. sum_of (live_weight q f) (row ∷ retire o sites.deployments))
                  (live_deployment_lem sites d.prop.id request.environment)
              ∙ added-count d.prop.id request.environment sites.deployments live row refl refl refl
                  q f);
      status_is = λ q.
          subst
            (λ i. get (λ p. p.id) q catalog'.properties ≡ (
              if q == i
              then Option.map (with_status request.environment)
                  (get (λ p. p.id) q catalog.properties)
              else get (λ p. p.id) q catalog.properties))
            key
            (ap (λ c. get (λ p. p.id) q c.properties) d.catalog_after
              ∙ status_after-get request.environment d.prop.id q catalog.properties);
    }
