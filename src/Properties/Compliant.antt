-- ===== src/Properties/Compliant.antt =====
-- Every production deployment runs a build that passed, and that a reviewer approved on a complete
-- checklist.
pub mod Building
pub mod Exact
pub mod Deploying
use digital_real_estate_engi.Common.{◌≡◌, ◌≢◌, true, some, List, ◌∷◌, All}
use digital_real_estate_engi.Common.Table.{get, IsKeyed, get-cons_fresh}
use digital_real_estate_engi.Properties.State.{
  is_production, is_approved_review, SiteBuild, ComplianceCheck, Checklist, ComplianceReview,
  Deployment,
}
use digital_real_estate_engi.Properties.Sites.{Sites}

-- Each required check is there, and is true.
abbrev pub IsComplete : Checklist → Type 0
IsComplete checklist = (key : ComplianceCheck) → checklist key ≡ some true

pub record IsReviewed (builds : List SiteBuild) (c : ComplianceReview) : Type 0 where
  pub complete : IsComplete c.checklist
  pub build : SiteBuild
  pub build_row : get (λ b. b.id) c.site_build_id builds ≡ some build
  pub passed : build.passed ≡ true

pub record IsBacked (builds : List SiteBuild) (compliance : List ComplianceReview) (d : Deployment)
    : Type 0 where
  pub build : SiteBuild
  pub build_row : get (λ b. b.id) d.site_build_id builds ≡ some build
  pub passed : build.passed ≡ true
  pub environment : is_production build.environment ≡ true
  pub review : ComplianceReview
  pub recorded : d.compliance_review_id ≡ some review.id
  pub review_row : get (λ c. c.id) review.id compliance ≡ some review
  pub approval : is_approved_review review.status ≡ true
  pub complete : IsComplete review.checklist
  pub same_build : review.site_build_id ≡ d.site_build_id

pub record IsCompliant (sites : Sites) : Type 0 where
  pub keyed : IsKeyed (λ c. c.id) sites.compliance
  pub reviewed :
      All (λ c. is_approved_review c.status ≡ true → IsReviewed sites.builds c) sites.compliance
  pub backed :
      All
        (λ d. is_production d.environment ≡ true → IsBacked sites.builds sites.compliance d)
        sites.deployments

-- A new build.
module _ (b : SiteBuild) (builds : List SiteBuild) (fresh : All (λ x. x.id ≢ b.id) builds) where
  pub build-IsReviewed : (c : ComplianceReview) → IsReviewed builds c → IsReviewed (b ∷ builds) c
  build-IsReviewed c r = record {
    complete = r.complete;
    build = r.build;
    build_row = get-cons_fresh (λ x. x.id) b c.site_build_id r.build builds fresh r.build_row;
    passed = r.passed;
  }

  pub build-IsBacked :
      (compliance : List ComplianceReview) (d : Deployment)
      → IsBacked builds compliance d
      → IsBacked (b ∷ builds) compliance d
  build-IsBacked compliance d r = record {
    build = r.build;
    build_row = get-cons_fresh (λ x. x.id) b d.site_build_id r.build builds fresh r.build_row;
    passed = r.passed;
    environment = r.environment;
    review = r.review;
    recorded = r.recorded;
    review_row = r.review_row;
    approval = r.approval;
    complete = r.complete;
    same_build = r.same_build;
  }

pub review-IsBacked :
    (c : ComplianceReview) (builds : List SiteBuild) (compliance : List ComplianceReview)
    (d : Deployment)
    → All (λ x. x.id ≢ c.id) compliance
    → IsBacked builds compliance d
    → IsBacked builds (c ∷ compliance) d
review-IsBacked c builds compliance d fresh r = record {
  build = r.build;
  build_row = r.build_row;
  passed = r.passed;
  environment = r.environment;
  review = r.review;
  recorded = r.recorded;
  review_row = get-cons_fresh (λ x. x.id) c r.review.id r.review compliance fresh r.review_row;
  approval = r.approval;
  complete = r.complete;
  same_build = r.same_build;
}
