-- ===== src/Tests/Properties/Release.antt =====
-- Property 7 in production: its next deployment to production, of the same build.
use digital_real_estate_engi.Common.{
  ℕ, ◌+◌, ◌≡◌, refl, true, none, some, [], ◌∷◌, arith, ◌==◌, ◌&&◌, ◌↔◌,
}
use digital_real_estate_engi.Common.Query.{indicator, first_by}
use digital_real_estate_engi.Common.Text.{strip}
use digital_real_estate_engi.Common.Table.{get}
use digital_real_estate_engi.Common.Result.{ok}
use digital_real_estate_engi.Reviews.State.{ReviewActor, reviewer}
use digital_real_estate_engi.Assignments.{find_active}
use digital_real_estate_engi.Properties.State.{BuildEnvironment, SiteBuild, ComplianceReview}
use digital_real_estate_engi.Properties.Errors.{assert_operator}
use digital_real_estate_engi.Properties.Sites.{Sites, review_compliance}
use digital_real_estate_engi.Properties.Gates.{
  verified_registration, approved_compliance, live_deployment, gate_rows, deployment_gates,
  failed_gates,
}
use digital_real_estate_engi.Properties.Deploy.{roll_back, deploy}
use digital_real_estate_engi.Properties.Deploy.Cleared.{IsCleared, deploy-IsCleared}
use digital_real_estate_engi.Properties.Compliant.{IsComplete}
use digital_real_estate_engi.Properties.Compliant.Exact.{review_compliance_iff}
use digital_real_estate_engi.Properties.Live.Deploying.{Shows, deploy-Shows}
use digital_real_estate_engi.Properties.Numbered.{has_reached}
use digital_real_estate_engi.Properties.Protocol.{Workflow, here, next, deploys}
use digital_real_estate_engi.Properties.Protocol.Safety.{IsSound, Operations-IsSound}
use digital_real_estate_engi.Tests.Properties.{
  manager, reviews, routes, site, catalog, domains, build, review, first_deployment, sites, request,
  local_adapter, destinations,
}

abbrev deployed_sites : Sites
deployed_sites = record sites {
  deployments =
      record first_deployment {
        id = 42;
        previous_deployment_id = some 41;
        url = 99;
        deployed_at = 50;
      }
      ∷ roll_back first_deployment
      ∷ [];
  files = (99, none) ∷ [];
}

deploys_again :
    deploy destinations local_adapter reviews routes domains 42 21 request manager 50 catalog sites
    ≡ ok (catalog, deployed_sites)
unfolding deploy assert_operator get gate_rows verified_registration approved_compliance
    live_deployment find_active first_by failed_gates deployment_gates strip
deploys_again = refl

deploy-IsCleared_example : IsCleared reviews routes domains catalog sites 21 request
deploy-IsCleared_example =
    deploy-IsCleared destinations local_adapter reviews routes domains 42 21 request manager 50
      catalog sites catalog deployed_sites refl deploys_again

abbrev workflow : Workflow
workflow = record {
  reviews = reviews;
  routes = routes;
  catalog = catalog;
  domains = domains;
  assets = [];
  sites = sites;
}

build_row : get (λ (b : SiteBuild). b.id) 21 (build ∷ []) ≡ some build
unfolding get
build_row = refl

review_row : get (λ (c : ComplianceReview). c.id) 31 (review ∷ []) ≡ some review
unfolding get
review_row = refl

version_numbers :
    (property_id version : ℕ)
    → indicator (7 == property_id && 1 == version) + 0
      ≡ indicator (has_reached version (get (λ p. p.id) property_id (site ∷ [])))
unfolding get
version_numbers property_id version = ground arith

workflow-IsSound : IsSound workflow
workflow-IsSound = record {
  routes = record { keyed = tt; single = λ p. omega arith; reasoned = tt };
  versions = record { keyed = (tt, tt); numbered = version_numbers };
  configs = record { keyed = (tt, tt); single = λ p. ground arith };
  live = record { keyed = (tt, tt); single = λ p e. ground arith };
  compliant = record {
    keyed = (tt, tt);
    reviewed = (
      (λ _. record { complete = λ key. refl; build = build; build_row = build_row; passed = refl }),
      tt,
    );
    backed = (
      (λ _. record {
        build = build;
        build_row = build_row;
        passed = refl;
        environment = refl;
        review = review;
        recorded = refl;
        review_row = review_row;
        approval = refl;
        complete = λ key. refl;
        same_build = refl;
      }),
      tt,
    );
  };
}

Operations-IsSound_example : IsSound (record workflow { catalog = catalog; sites = deployed_sites })
Operations-IsSound_example =
    Operations-IsSound workflow (record workflow { catalog = catalog; sites = deployed_sites })
      workflow-IsSound
      (next here (
        deploys destinations local_adapter 42 21 request manager 50 ((λ e. omega arith), tt)
          deploys_again))

deploy-Shows_example : Shows build BuildEnvironment.production catalog sites catalog deployed_sites
deploy-Shows_example =
    deploy-Shows destinations local_adapter reviews routes domains 42 21 request manager 50 catalog
      sites catalog deployed_sites build workflow-IsSound.live build_row deploys_again

abbrev reviewing : ReviewActor
reviewing = record { actor_id = 2; role = reviewer }

review_compliance_iff_example :
    ((sites' : Sites) × (review_compliance 32 21 true (λ _. some true) reviewing 60 sites
        ≡ ok sites'))
    ↔ (IsComplete (λ _. some true) × (build.passed ≡ true))
review_compliance_iff_example =
    review_compliance_iff 32 21 (λ _. some true) reviewing 60 sites build refl build_row
