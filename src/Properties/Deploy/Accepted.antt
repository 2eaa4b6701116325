-- ===== src/Properties/Deploy/Accepted.antt =====
-- What a deployment and a rollback that were accepted show, and what they write.
use digital_real_estate_engi.Common.{
  is_nonempty, ℕ, ◌≡◌, inl, inr, sym, ap, Bool, true, false, not, Option, none, some, ◌∷◌, ◌&&◌,
  ◌==◌, arith, Bool-cases, eq_of_==,
}
use mathlib.Core.Path.{subst}
use digital_real_estate_engi.Common.Table.{get}
use digital_real_estate_engi.Common.Result.{
  ok, >>=-eq-ok, >>-eq-ok, raise_if, raise_if-eq-ok, raise_if-not-eq-ok, ok_inj,
}
use digital_real_estate_engi.Reviews.State.{ReviewActor, Reviews}
use digital_real_estate_engi.Assignments.{Routes, find_active}
use digital_real_estate_engi.Properties.State.{
  BuildEnvironment, is_production, environment_eq, Property, SiteBuild, Deployment,
}
use digital_real_estate_engi.Properties.Errors.{
  or_raise-eq-ok, deployment_failed, rollback_target_not_found, may_operate, assert_operator,
  or_raise,
}
use digital_real_estate_engi.Properties.Catalog.{Catalog, property_of, set_property}
use digital_real_estate_engi.Properties.Domains.{Domains}
use digital_real_estate_engi.Properties.Sites.{Sites, build_of}
use digital_real_estate_engi.Properties.Gates.{
  DeploymentRequest, live_deployment, GateRows, gate_rows, failed_gates,
}
use digital_real_estate_engi.Properties.Deploy.{
  LocalDeploymentResult, DeploymentAdapter, Destinations, retire, write_runtime, new_deployment,
  status_after, deploy, target_of, different_from, rollback_deployment, rollback,
}

pub environment_eq-true : (a b : BuildEnvironment) → environment_eq a b ≡ true → a ≡ b
environment_eq-true a b h = ground arith

assert_operator-may :
    (actor : ReviewActor) → assert_operator actor ≡ ok tt → may_operate actor.role ≡ true
unfolding assert_operator
assert_operator-may actor h = raise_if-not-eq-ok _ _ h

pub record Deployed (destinations : Destinations) (reviews : Reviews) (routes : Routes)
    (domains : Domains) (id build_id : ℕ) (request : DeploymentRequest) (actor : ReviewActor)
    (now : ℕ) (catalog : Catalog) (sites : Sites) (catalog' : Catalog) (sites' : Sites)
    : Type 0 where
  pub build : SiteBuild
  pub prop : Property
  pub rows : GateRows
  pub result : LocalDeploymentResult
  pub may : may_operate actor.role ≡ true
  pub build_row : get (λ b. b.id) build_id sites.builds ≡ some build
  pub property_row : get (λ p. p.id) build.property_id catalog.properties ≡ some prop
  pub environment : build.environment ≡ request.environment
  pub looked : gate_rows reviews routes domains catalog sites prop build ≡ ok rows
  pub passes :
      (is_production request.environment && is_nonempty (failed_gates rows prop build request))
      ≡ false
  pub catalog_after :
      catalog'
      ≡ set_property prop.id
          (λ p. record p { status = status_after request.environment p.status })
          catalog
  pub sites_after :
      sites'
      ≡ write_runtime
          (destinations prop.id request.environment build.build_sha256)
          rows.assignment
          (record sites {
            deployments =
                new_deployment id now prop build rows
                  (live_deployment sites prop.id request.environment)
                  result
                  request
                  actor
                ∷ retire (live_deployment sites prop.id request.environment) sites.deployments;
          })

pub deploy-Deployed :
    (destinations : Destinations) (adapter : DeploymentAdapter) (reviews : Reviews)
    (routes : Routes) (domains : Domains) (id build_id : ℕ) (request : DeploymentRequest)
    (actor : ReviewActor) (now : ℕ) (catalog : Catalog) (sites : Sites) (catalog' : Catalog)
    (sites' : Sites)
    → deploy destinations adapter reviews routes domains id build_id request actor now catalog sites
      ≡ ok (catalog', sites')
    → Deployed destinations reviews routes domains id build_id request actor now catalog sites
        catalog' sites'
unfolding deploy
deploy-Deployed destinations adapter reviews routes domains id build_id request actor now catalog
      sites catalog' sites' h =
    let (may, h1) = >>-eq-ok (assert_operator actor) _ h in
    let (build, build_row, h2) = >>=-eq-ok (build_of sites build_id) _ h1 in
    let (place, h3) =
      >>-eq-ok (raise_if (not (environment_eq build.environment request.environment)) _) _ h2 in
    let (prop, property_row, h4) = >>=-eq-ok (property_of catalog build.property_id) _ h3 in
    let (_, h5) = >>-eq-ok (raise_if adapter.public_capable _) _ h4 in
    let (rows, looked, h6) =
      >>=-eq-ok (gate_rows reviews routes domains catalog sites prop build) _ h5 in
    let (passes, h7) =
      >>-eq-ok
        (raise_if
          (is_production request.environment && is_nonempty (failed_gates rows prop build request))
          _)
        _ h6 in
    let destination = destinations prop.id request.environment build.build_sha256 in
    let (result, _, done) =
      >>=-eq-ok (or_raise deployment_failed (adapter.deploy build.output_path destination)) _ h7 in
    record {
      build = build;
      prop = prop;
      rows = rows;
      result = result;
      may = assert_operator-may actor may;
      build_row = or_raise-eq-ok _ _ build_row;
      property_row = or_raise-eq-ok _ _ property_row;
      environment = environment_eq-true _ _ (raise_if-not-eq-ok _ _ place);
      looked = looked;
      passes = raise_if-eq-ok _ _ passes;
      catalog_after = sym (ap (λ p. p.0) (ok_inj done));
      sites_after = sym (ap (λ p. p.1) (ok_inj done));
    }

pub record RolledBack (destinations : Destinations) (routes : Routes) (id property_id target_id : ℕ)
    (actor : ReviewActor) (now : ℕ) (sites sites' : Sites) : Type 0 where
  pub target : Deployment
  pub current : Deployment
  pub build : SiteBuild
  pub result : LocalDeploymentResult
  pub target_row : get (λ d. d.id) target_id sites.deployments ≡ some target
  pub target_property : target.property_id ≡ property_id
  pub target_environment : is_production target.environment ≡ true
  pub current_row : live_deployment sites property_id BuildEnvironment.production ≡ some current
  pub differs : (current.id == target.id) ≡ false
  pub build_row : get (λ b. b.id) target.site_build_id sites.builds ≡ some build
  pub sites_after :
      sites'
      ≡ write_runtime
          (destinations property_id BuildEnvironment.production build.build_sha256)
          (find_active property_id routes.assignments)
          (record sites {
            deployments =
                rollback_deployment id now property_id build target current
                  (find_active property_id routes.assignments)
                  result
                  actor
                ∷ retire (some current) sites.deployments;
          })

different_from-inversion :
    (target : Deployment) (live : Option Deployment) (current : Deployment)
    → different_from target live ≡ ok current
    → (live ≡ some current) × ((current.id == target.id) ≡ false)
different_from-inversion target none current h = cc
different_from-inversion target (some d) current h = elim (Bool-cases (d.id == target.id)) [
  | inl same ↦ absurd (ground (arith, same))
  | inr other ↦ let is : d ≡ current = ground (arith, other) in ground (arith, is, other)
]

target_of-inversion :
    (sites : Sites) (property_id i : ℕ) (target : Deployment)
    → target_of sites property_id i ≡ ok target
    → (get (λ d. d.id) i sites.deployments ≡ some target) × (target.property_id ≡ property_id)
target_of-inversion sites property_id i target h =
    let (d, found, h1) =
      >>=-eq-ok (or_raise rollback_target_not_found (get (λ d. d.id) i sites.deployments)) _ h in
    let (belongs, done) = >>-eq-ok (raise_if (not (d.property_id == property_id)) _) _ h1 in
    let same = ok_inj done in
    subst (λ t. (get (λ d. d.id) i sites.deployments ≡ some t) × (t.property_id ≡ property_id)) same
      (or_raise-eq-ok _ _ found, eq_of_== _ _ (raise_if-not-eq-ok _ _ belongs))

pub rollback-RolledBack :
    (destinations : Destinations) (adapter : DeploymentAdapter) (routes : Routes)
    (id property_id target_id : ℕ) (confirmation : Bool) (actor : ReviewActor) (now : ℕ)
    (sites sites' : Sites)
    → rollback destinations adapter routes id property_id target_id confirmation actor now sites
      ≡ ok sites'
    → RolledBack destinations routes id property_id target_id actor now sites sites'
unfolding rollback
rollback-RolledBack destinations adapter routes id property_id target_id confirmation actor now
      sites sites' h =
    let (_, h1) = >>-eq-ok (assert_operator actor) _ h in
    let (_, h2) = >>-eq-ok (raise_if (not confirmation) _) _ h1 in
    let (target, is_target, h3) = >>=-eq-ok (target_of sites property_id target_id) _ h2 in
    let (place, h4) = >>-eq-ok (raise_if (not (is_production target.environment)) _) _ h3 in
    let (current, is_current, h5) =
      >>=-eq-ok
        (different_from target (live_deployment sites property_id BuildEnvironment.production)) _
        h4 in
    let (build, build_row, h6) = >>=-eq-ok (build_of sites target.site_build_id) _ h5 in
    let (_, h7) = >>-eq-ok (raise_if adapter.public_capable _) _ h6 in
    let destination = destinations property_id BuildEnvironment.production build.build_sha256 in
    let (result, _, done) =
      >>=-eq-ok (or_raise deployment_failed (adapter.deploy build.output_path destination)) _ h7 in
    let (target_row, target_property) =
      target_of-inversion sites property_id target_id target is_target in
    let (current_row, differs) = different_from-inversion target _ current is_current in
    record {
      target = target;
      current = current;
      build = build;
      result = result;
      target_row = target_row;
      target_property = target_property;
      target_environment = raise_if-not-eq-ok _ _ place;
      current_row = current_row;
      differs = differs;
      build_row = or_raise-eq-ok _ _ build_row;
      sites_after = sym (ok_inj done);
    }
