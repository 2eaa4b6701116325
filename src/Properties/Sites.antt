-- ===== src/Properties/Sites.antt =====
-- Builds of a site and their compliance reviews: `build_site` and `review_compliance`.
use digital_real_estate_engi.Common.{
  is_nonempty, ℕ, Bool, true, false, not, Option, some, List, [], ◌∷◌, ◌&&◌, ◌||◌, ◌==◌, is_some,
  if◌then◌else◌, filter, any,
}
use digital_real_estate_engi.Common.Table.{get}
use digital_real_estate_engi.Common.Result.{Result, ok, raise_if, ◌>>=◌, ◌>>◌}
use digital_real_estate_engi.Reviews.State.{ReviewActor}
use digital_real_estate_engi.Properties.State.{
  BuildEnvironment, ComplianceStatus, is_approved_config, environment_eq, Property, Asset,
  SitePayload, SiteConfig, SiteBuild, ComplianceCheck, required_compliance_checks, Checklist,
  ComplianceReview, Deployment,
}
use digital_real_estate_engi.Properties.Errors.{
  production_build_requires_approved_config, production_build_requires_verified_domain,
  PropertyError, site_build_not_found, site_config_requires_approved_assets,
  compliance_checklist_incomplete, failed_build_cannot_pass_compliance, assert_reviewer, or_raise,
}
use digital_real_estate_engi.Properties.Catalog.{Catalog, property_of, config_of}

-- `files` holds what `provider-config.json` says in each directory, the latest write first: the
-- assignment, or none.
pub record Sites : Type 0 where
  pub builds : List SiteBuild
  pub compliance : List ComplianceReview
  pub deployments : List Deployment
  pub files : List (ℕ × Option ℕ)

-- What `build_static_site` returns.
pub record StaticSite : Type 0 where
  pub checksum : ℕ
  pub output_path : ℕ
  pub passed : Bool

abbrev pub build_of : Sites → ℕ → Result PropertyError SiteBuild
build_of sites i = or_raise site_build_not_found (get (λ b. b.id) i sites.builds)

-- The assets that `_asset_provenance` accepts.
unfoldable pub asset_provenance : List Asset → ℕ → List ℕ → Result PropertyError Unit
asset_provenance assets property_id [] = ok tt
asset_provenance assets property_id (i ∷ ids) =
    (do
      asset ← or_raise (site_config_requires_approved_assets i) (get (λ a. a.id) i assets)
      raise_if (not (asset.property_id == property_id && asset.approved))
          (site_config_requires_approved_assets i))
    >> asset_provenance assets property_id ids

abbrev pub assert_publishable : BuildEnvironment → SiteConfig → Property → Result PropertyError Unit
assert_publishable BuildEnvironment.production config prop = do
  raise_if (not (is_approved_config config.status)) production_build_requires_approved_config
  raise_if (not (is_some prop.domain)) production_build_requires_verified_domain
assert_publishable _ config prop = ok tt

abbrev pub is_same_build : ℕ → BuildEnvironment → ℕ → SiteBuild → Bool
is_same_build config_id environment checksum b =
    b.site_config_id == config_id
    && (environment_eq b.environment environment && b.build_sha256 == checksum)

abbrev pub new_build : ℕ → ℕ → ℕ → BuildEnvironment → StaticSite → SiteBuild
new_build id property_id config_id environment artifact = record {
  id = id;
  property_id = property_id;
  site_config_id = config_id;
  environment = environment;
  build_sha256 = artifact.checksum;
  output_path = artifact.output_path;
  passed = artifact.passed;
}

-- `builder` is `build_static_site` on the payload, the domain and the environment.
unfoldable pub build_site :
    (builder : SitePayload → Option ℕ → BuildEnvironment → StaticSite)
    → List Asset
    → Catalog
    → (id config_id : ℕ) → BuildEnvironment
    → Sites
    → Result PropertyError Sites
build_site builder assets catalog id config_id environment sites = do
  config ← config_of catalog config_id
  prop ← property_of catalog config.property_id
  assert_publishable environment config prop
  asset_provenance assets config.property_id config.config_payload.asset_ids
  let artifact = builder config.config_payload prop.domain environment
  ok (
      if any (is_same_build config.id environment artifact.checksum) sites.builds
      then sites
      else record sites {
        builds = new_build id prop.id config.id environment artifact ∷ sites.builds;
      })

-- `not request.checklist.get(key)`
abbrev pub is_failed : Option Bool → Bool
is_failed (some true) = false
is_failed _ = true

abbrev pub missing_checks : Checklist → List ComplianceCheck
missing_checks checklist = filter (λ key. not (is_some (checklist key))) required_compliance_checks

abbrev pub failed_checks : Checklist → List ComplianceCheck
failed_checks checklist = filter (λ key. is_failed (checklist key)) required_compliance_checks

abbrev pub compliance_status : Bool → ComplianceStatus
compliance_status true = ComplianceStatus.approved
compliance_status false = ComplianceStatus.rejected

abbrev pub new_review : ℕ → SiteBuild → Bool → Checklist → ReviewActor → ℕ → ComplianceReview
new_review id build is_approval checklist actor now = record {
  id = id;
  property_id = build.property_id;
  site_config_id = build.site_config_id;
  site_build_id = build.id;
  status = compliance_status is_approval;
  checklist = checklist;
  reviewer_user_id = actor.actor_id;
  reviewed_at = now;
}

unfoldable pub review_compliance :
    (id build_id : ℕ)
    → (is_approval : Bool) → Checklist
    → ReviewActor
    → (now : ℕ) → Sites
    → Result PropertyError Sites
review_compliance id build_id is_approval checklist actor now sites = do
  assert_reviewer actor
  build ← build_of sites build_id
  raise_if
      (is_approval
        && (is_nonempty (missing_checks checklist) || is_nonempty (failed_checks checklist)))
      (compliance_checklist_incomplete (missing_checks checklist) (failed_checks checklist))
  raise_if (is_approval && not build.passed) failed_build_cannot_pass_compliance
  ok (record sites {
    compliance = new_review id build is_approval checklist actor now ∷ sites.compliance;
  })
