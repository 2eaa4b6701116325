-- ===== src/Properties/Compliant/Building.antt =====
-- A build and a compliance review leave the deployments backed.
use digital_real_estate_engi.Common.{
  ℕ, ◌≡◌, ◌≢◌, refl, inl, inr, sym, ap, Bool, true, false, not, Option, none, some, List, ◌&&◌,
  ◌||◌, All, All-imp, filter-none, is_nonempty, arith, Bool-cases, any,
}
use mathlib.Core.Path.{subst}
use digital_real_estate_engi.Common.Table.{get, key-get}
use digital_real_estate_engi.Common.Result.{
  ok, >>=-eq-ok, >>-eq-ok, raise_if, raise_if-eq-ok, ok_inj,
}
use digital_real_estate_engi.Reviews.State.{ReviewActor}
use digital_real_estate_engi.Properties.State.{
  BuildEnvironment, is_approved_review, Asset, SitePayload, ComplianceCheck, accessibility,
  content_accuracy, privacy, provider_claims, referral_disclosure, structured_data,
  required_compliance_checks, Checklist,
}
use digital_real_estate_engi.Properties.Errors.{or_raise-eq-ok, assert_reviewer}
use digital_real_estate_engi.Properties.Catalog.{Catalog, property_of, config_of}
use digital_real_estate_engi.Properties.Sites.{
  Sites, StaticSite, build_of, asset_provenance, assert_publishable, is_same_build, new_build,
  build_site, is_failed, missing_checks, failed_checks, compliance_status, new_review,
  review_compliance,
}
use digital_real_estate_engi.Properties.Compliant.{
  IsComplete, IsCompliant, build-IsReviewed, build-IsBacked, review-IsBacked,
}

is_failed-false : (o : Option Bool) → is_failed o ≡ false → o ≡ some true
is_failed-false none h = cc
is_failed-false (some true) h = refl
is_failed-false (some false) h = cc

pub failed_checks-IsComplete :
    (checklist : Checklist) → is_nonempty (failed_checks checklist) ≡ false → IsComplete checklist
failed_checks-IsComplete checklist h key =
    let all = filter-none (λ k. is_failed (checklist k)) required_compliance_checks h in
    is_failed-false (checklist key) (at_key key all)
  where
    at_key :
        (k : ComplianceCheck)
        → All (λ k. is_failed (checklist k) ≡ false) required_compliance_checks
        → is_failed (checklist k) ≡ false
    at_key accessibility all = all.0
    at_key content_accuracy all = all.1.0
    at_key privacy all = all.1.1.0
    at_key provider_claims all = all.1.1.1.0
    at_key referral_disclosure all = all.1.1.1.1.0
    at_key structured_data all = all.1.1.1.1.1.0

pub build_site-IsCompliant :
    (builder : SitePayload → Option ℕ → BuildEnvironment → StaticSite) (assets : List Asset)
    (catalog : Catalog) (id config_id : ℕ) (environment : BuildEnvironment) (sites sites' : Sites)
    → All (λ b. b.id ≢ id) sites.builds
    → IsCompliant sites
    → build_site builder assets catalog id config_id environment sites ≡ ok sites'
    → IsCompliant sites'
unfolding build_site
build_site-IsCompliant builder assets catalog id config_id environment sites sites' fresh sound h =
    let (config, _, h1) = >>=-eq-ok (config_of catalog config_id) _ h in
    let (prop, _, h2) = >>=-eq-ok (property_of catalog config.property_id) _ h1 in
    let (_, h3) = >>-eq-ok (assert_publishable environment config prop) _ h2 in
    let (_, done) =
      >>-eq-ok (asset_provenance assets config.property_id config.config_payload.asset_ids) _ h3 in
    let artifact = builder config.config_payload prop.domain environment in
    elim (Bool-cases (any (is_same_build config.id environment artifact.checksum) sites.builds)) [
      | inl known ↦ subst IsCompliant (ok_inj (rw known at done)) sound
      | inr unseen ↦ subst IsCompliant (ok_inj (rw unseen at done)) (
          let b = new_build id prop.id config.id environment artifact in
          record {
            keyed = sound.keyed;
            reviewed =
                All-imp _ _ (λ c r approved. build-IsReviewed b sites.builds fresh c (r approved))
                  sites.compliance sound.reviewed;
            backed =
                All-imp _ _
                  (λ d r live. build-IsBacked b sites.builds fresh sites.compliance d (r live))
                  sites.deployments sound.backed;
          })
    ]

pub guard_holds : (b c d : Bool) → (b && (c || d)) ≡ false → b ≡ true → d ≡ false
guard_holds b c d h e = ground arith

pub and_not : (b c : Bool) → (b && not c) ≡ false → b ≡ true → c ≡ true
and_not b c h e = ground arith

is_approved_review-status : (b : Bool) → is_approved_review (compliance_status b) ≡ true → b ≡ true
is_approved_review-status true h = refl
is_approved_review-status false h = h

pub review_compliance-IsCompliant :
    (id build_id : ℕ) (is_approval : Bool) (checklist : Checklist) (actor : ReviewActor) (now : ℕ)
    (sites sites' : Sites)
    → All (λ c. c.id ≢ id) sites.compliance
    → IsCompliant sites
    → review_compliance id build_id is_approval checklist actor now sites ≡ ok sites'
    → IsCompliant sites'
unfolding review_compliance
review_compliance-IsCompliant id build_id is_approval checklist actor now sites sites' fresh sound
      h =
    let (_, h1) = >>-eq-ok (assert_reviewer actor) _ h in
    let (build, found, h2) = >>=-eq-ok (build_of sites build_id) _ h1 in
    let (checked, h3) =
      >>-eq-ok
        (raise_if
          (is_approval
            && (is_nonempty (missing_checks checklist) || is_nonempty (failed_checks checklist)))
          _)
        _ h2 in
    let (passed, done) = >>-eq-ok (raise_if (is_approval && not build.passed) _) _ h3 in
    let build_row = or_raise-eq-ok _ _ found in
    let key = key-get (λ b. b.id) build_id sites.builds build build_row in
    let c = new_review id build is_approval checklist actor now in
    subst IsCompliant (ok_inj done) (record {
      keyed = (fresh, sound.keyed);
      reviewed = (
        (λ approved.
            let is = is_approved_review-status is_approval approved in
            record {
              complete =
                  failed_checks-IsComplete checklist
                    (guard_holds is_approval _ _ (raise_if-eq-ok _ _ checked) is);
              build = build;
              build_row =
                  subst (λ i. get (λ b. b.id) i sites.builds ≡ some build) (sym key) build_row;
              passed = and_not is_approval build.passed (raise_if-eq-ok _ _ passed) is;
            }),
        sound.reviewed,
      );
      backed =
          All-imp _ _ (λ d r live. review-IsBacked c sites.builds sites.compliance d fresh (r live))
            sites.deployments sound.backed;
    })

pub build_site-deployments :
    (builder : SitePayload → Option ℕ → BuildEnvironment → StaticSite) (assets : List Asset)
    (catalog : Catalog) (id config_id : ℕ) (environment : BuildEnvironment) (sites sites' : Sites)
    → build_site builder assets catalog id config_id environment sites ≡ ok sites'
    → sites'.deployments ≡ sites.deployments
unfolding build_site
build_site-deployments builder assets catalog id config_id environment sites sites' h =
    let (config, _, h1) = >>=-eq-ok (config_of catalog config_id) _ h in
    let (prop, _, h2) = >>=-eq-ok (property_of catalog config.property_id) _ h1 in
    let (_, h3) = >>-eq-ok (assert_publishable environment config prop) _ h2 in
    let (_, done) =
      >>-eq-ok (asset_provenance assets config.property_id config.config_payload.asset_ids) _ h3 in
    let artifact = builder config.config_payload prop.domain environment in
    elim (Bool-cases (any (is_same_build config.id environment artifact.checksum) sites.builds)) [
      | inl known ↦ sym (ap (λ s. s.deployments) (ok_inj (rw known at done)))
      | inr unseen ↦ sym (ap (λ s. s.deployments) (ok_inj (rw unseen at done)))
    ]

pub review_compliance-deployments :
    (id build_id : ℕ) (is_approval : Bool) (checklist : Checklist) (actor : ReviewActor) (now : ℕ)
    (sites sites' : Sites)
    → review_compliance id build_id is_approval checklist actor now sites ≡ ok sites'
    → sites'.deployments ≡ sites.deployments
unfolding review_compliance
review_compliance-deployments id build_id is_approval checklist actor now sites sites' h =
    let (_, h1) = >>-eq-ok (assert_reviewer actor) _ h in
    let (build, _, h2) = >>=-eq-ok (build_of sites build_id) _ h1 in
    let (_, h3) =
      >>-eq-ok
        (raise_if
          (is_approval
            && (is_nonempty (missing_checks checklist) || is_nonempty (failed_checks checklist)))
          _)
        _ h2 in
    let (_, done) = >>-eq-ok (raise_if (is_approval && not build.passed) _) _ h3 in
    sym (ap (λ s. s.deployments) (ok_inj done))
