-- ===== src/Properties/Compliant/Deploying.antt =====
-- A deployment and a rollback leave the deployments backed.
use digital_real_estate_engi.Common.{
  ℕ, ◌≡◌, refl, inl, inr, sym, ap, ◌∙◌, Bool, true, false, Option, none, some, List, ◌∷◌, ◌&&◌,
  ◌==◌, All, is_nonempty, Bool-cases, All-map,
}
use mathlib.Core.Path.{subst}
use mathlib.Core.Option
use digital_real_estate_engi.Common.Table.{get, touch, All-found, key-get}
use digital_real_estate_engi.Common.Query.{first_by-get}
use digital_real_estate_engi.Common.Result.{ok}
use digital_real_estate_engi.Reviews.State.{ReviewActor, Reviews}
use digital_real_estate_engi.Assignments.{Routes}
use digital_real_estate_engi.Properties.State.{
  is_production, is_approved_review, Property, SiteBuild, ComplianceReview, compliance_approved,
  passing_build, Deployment,
}
use digital_real_estate_engi.Properties.Catalog.{Catalog}
use digital_real_estate_engi.Properties.Domains.{Domains}
use digital_real_estate_engi.Properties.Sites.{Sites}
use digital_real_estate_engi.Properties.Gates.{
  DeploymentRequest, approved_compliance, GateRows, deployment_gates, failed_gates,
}
use digital_real_estate_engi.Properties.Deploy.{
  DeploymentAdapter, Destinations, roll_back, retire, deploy, rollback,
}
use digital_real_estate_engi.Properties.Deploy.Accepted.{deploy-Deployed, rollback-RolledBack}
use digital_real_estate_engi.Properties.Deploy.Gated.{
  gate_passes, approved_compliance_lem, some_of_is_some, gate_rows-inversion,
}
use digital_real_estate_engi.Properties.Compliant.{IsReviewed, IsBacked, IsCompliant}

-- What holds of the deployments, live or rolled back, holds after one was retired.
pub All-retire {ℓ} :
    (P : Deployment → Type ℓ) (prior : Option Deployment) (rows : List Deployment)
    → ((d : Deployment) → P d → P (roll_back d))
    → All P rows
    → All P (retire prior rows)
All-retire P none rows keep h = h
All-retire P (some d) rows keep h =
    All-map P (touch (λ x. x.id == d.id) roll_back)
      (λ x holds. elim (Bool-cases (x.id == d.id)) [
        | inl same ↦ rw same (keep x holds)
        | inr other ↦ rw other holds
      ])
      rows h

rolled_back-IsBacked :
    (builds : List SiteBuild) (compliance : List ComplianceReview) (d : Deployment)
    → (is_production d.environment ≡ true → IsBacked builds compliance d)
    → is_production (roll_back d).environment ≡ true
    → IsBacked builds compliance (roll_back d)
rolled_back-IsBacked builds compliance d backed live =
    let r = backed live in
    record {
      build = r.build;
      build_row = r.build_row;
      passed = r.passed;
      environment = r.environment;
      review = r.review;
      recorded = r.recorded;
      review_row = r.review_row;
      approval = r.approval;
      complete = r.complete;
      same_build = r.same_build;
    }

module _ (sites : Sites) (sound : IsCompliant sites) where
  -- The review that the gates found is one of the rows.
  approved_compliance-IsBacked :
      (build : SiteBuild) (c : ComplianceReview) (d : Deployment)
      → get (λ b. b.id) build.id sites.builds ≡ some build
      → build.passed ≡ true
      → is_production build.environment ≡ true
      → approved_compliance sites build.id ≡ some c
      → d.site_build_id ≡ build.id
      → d.compliance_review_id ≡ some c.id
      → IsBacked sites.builds sites.compliance d
  unfolding approved_compliance
  approved_compliance-IsBacked build c d build_row passed place found same recorded =
      let row =
        first_by-get (λ c. c.id) _ (λ c. c.site_build_id == build.id && is_approved_review c.status)
          sites.compliance c sound.keyed found in
      let (of_build, approval, _) = approved_compliance_lem sites build.id c found in
      let reviewed =
        All-found (λ c. c.id) (λ c. is_approved_review c.status ≡ true → IsReviewed sites.builds c)
          c.id c sites.compliance row sound.reviewed approval in
      record {
        build = build;
        build_row = subst (λ i. get (λ b. b.id) i sites.builds ≡ some build) (sym same) build_row;
        passed = passed;
        environment = place;
        review = c;
        recorded = recorded;
        review_row = row;
        approval = approval;
        complete = reviewed.complete;
        same_build = of_build ∙ sym same;
      }

  -- One more deployment, and one less that is live.
  added-IsCompliant :
      (prior : Option Deployment) (row : Deployment) (files : List (ℕ × Option ℕ))
      → (is_production row.environment ≡ true → IsBacked sites.builds sites.compliance row)
      → IsCompliant
          (record sites { deployments = row ∷ retire prior sites.deployments; files = files })
  added-IsCompliant prior row files backed = record {
    keyed = sound.keyed;
    reviewed = sound.reviewed;
    backed = (
      backed,
      All-retire
          (λ d. is_production d.environment ≡ true → IsBacked sites.builds sites.compliance d) prior
          sites.deployments (rolled_back-IsBacked sites.builds sites.compliance) sound.backed,
    );
  }

module _ (rows : GateRows) (prop : Property) (build : SiteBuild) (request : DeploymentRequest) where
  gate-compliance :
      deployment_gates rows prop build request compliance_approved ≡ true
      → (c : ComplianceReview) × (rows.compliance ≡ some c)
  unfolding deployment_gates
  gate-compliance h = some_of_is_some rows.compliance h

  gate-passing : deployment_gates rows prop build request passing_build ≡ true → build.passed ≡ true
  unfolding deployment_gates
  gate-passing h = h

pub deploy-IsCompliant :
    (destinations : Destinations) (adapter : DeploymentAdapter) (reviews : Reviews)
    (routes : Routes) (domains : Domains) (id build_id : ℕ) (request : DeploymentRequest)
    (actor : ReviewActor) (now : ℕ) (catalog : Catalog) (sites : Sites) (catalog' : Catalog)
    (sites' : Sites)
    → IsCompliant sites
    → deploy destinations adapter reviews routes domains id build_id request actor now catalog sites
      ≡ ok (catalog', sites')
    → IsCompliant sites'
deploy-IsCompliant destinations adapter reviews routes domains id build_id request actor now catalog
      sites catalog' sites' sound h =
    let d =
      deploy-Deployed destinations adapter reviews routes domains id build_id request actor now
        catalog sites catalog' sites' h in
    let (_, _, _, _, rows_are) =
      gate_rows-inversion reviews routes domains catalog sites d.prop d.build d.rows d.looked in
    let same = key-get (λ b. b.id) build_id sites.builds d.build d.build_row in
    subst IsCompliant (sym d.sites_after) (
      added-IsCompliant sites sound _ _ _ (λ live.
        let pass = gate_passes d.rows d.prop d.build request (
          subst (λ b. (b && is_nonempty (failed_gates d.rows d.prop d.build request)) ≡ false) live
            d.passes) in
        let (c, found) = gate-compliance d.rows d.prop d.build request (pass compliance_approved) in
        approved_compliance-IsBacked sites sound d.build c _
          (subst (λ i. get (λ b. b.id) i sites.builds ≡ some d.build) (sym same) d.build_row)
          (gate-passing d.rows d.prop d.build request (pass passing_build))
          (subst (λ e. is_production e ≡ true) (sym d.environment) live)
          (sym (ap (λ r. r.compliance) rows_are) ∙ found) refl (ap (Option.map (λ c. c.id)) found)))

pub rollback-IsCompliant :
    (destinations : Destinations) (adapter : DeploymentAdapter) (routes : Routes)
    (id property_id target_id : ℕ) (confirmation : Bool) (actor : ReviewActor) (now : ℕ)
    (sites sites' : Sites)
    → IsCompliant sites
    → rollback destinations adapter routes id property_id target_id confirmation actor now sites
      ≡ ok sites'
    → IsCompliant sites'
rollback-IsCompliant destinations adapter routes id property_id target_id confirmation actor now
      sites sites' sound h =
    let r =
      rollback-RolledBack destinations adapter routes id property_id target_id confirmation actor
        now sites sites' h in
    let backed =
      All-found (λ d. d.id)
        (λ d. is_production d.environment ≡ true → IsBacked sites.builds sites.compliance d)
        target_id r.target sites.deployments r.target_row sound.backed r.target_environment in
    let same = key-get (λ b. b.id) r.target.site_build_id sites.builds r.build r.build_row in
    subst IsCompliant (sym r.sites_after) (
      added-IsCompliant sites sound (some r.current) _ _ (λ _. record {
        build = backed.build;
        build_row =
            subst (λ i. get (λ b. b.id) i sites.builds ≡ some backed.build) (sym same)
              backed.build_row;
        passed = backed.passed;
        environment = backed.environment;
        review = backed.review;
        recorded = backed.recorded;
        review_row = backed.review_row;
        approval = backed.approval;
        complete = backed.complete;
        same_build = backed.same_build ∙ sym same;
      }))
