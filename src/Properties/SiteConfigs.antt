-- ===== src/Properties/SiteConfigs.antt =====
-- The site configurations of a property and the assets they show: `create_site_config`,
-- `review_site_config`, `create_asset` and `review_asset`.
use digital_real_estate_engi.Common.{
  ℕ, ◌+◌, Bool, false, not, Option, none, some, List, [], ◌∷◌, map, ◌&&◌, ◌==◌, ltb, is_some,
  if◌then◌else◌, filter,
}
use digital_real_estate_engi.Common.Table.{get, touch}
use digital_real_estate_engi.Common.Query.{first_by}
use digital_real_estate_engi.Common.Result.{Result, ok, raise_if, ◌>>=◌, ◌>>◌}
use digital_real_estate_engi.Reviews.State.{ReviewActor}
use digital_real_estate_engi.Assignments.{ProviderAssignment, Routes}
use digital_real_estate_engi.Properties.State.{
  SiteConfigStatus, superseded, is_approved_config, Asset, SitePayload, SiteConfig,
}
use digital_real_estate_engi.Properties.Errors.{
  PropertyError, asset_not_found, site_config_requires_approved_assets,
  provider_details_require_reviewed_assignment, assert_human, assert_reviewer, or_raise,
}
use digital_real_estate_engi.Properties.Catalog.{
  Catalog, property_of, config_of, set_property, revise,
}

-- `_validate_assets`
unfoldable pub validate_assets : List Asset → ℕ → List ℕ → Result PropertyError Unit
validate_assets assets property_id [] = ok tt
validate_assets assets property_id (i ∷ ids) =
    (do
      asset ← or_raise asset_not_found (get (λ a. a.id) i assets)
      raise_if (not (asset.property_id == property_id)) asset_not_found
      raise_if (not asset.approved) (site_config_requires_approved_assets i))
    >> validate_assets assets property_id ids

-- `session.get(ProviderAssignmentORM, details.get("assignment_id"))`
abbrev pub assignment_by : Routes → Option ℕ → Option ProviderAssignment
assignment_by routes none = none
assignment_by routes (some i) = get (λ a. a.id) i routes.assignments

abbrev pub is_reviewed_for : ℕ → Option ProviderAssignment → Bool
is_reviewed_for property_id none = false
is_reviewed_for property_id (some a) = a.property_id == property_id && is_some a.claims_reviewed_at

-- `_validate_provider_content`
unfoldable pub validate_provider_content :
    Routes → ℕ → Option (Option ℕ) → Result PropertyError Unit
validate_provider_content routes property_id none = ok tt
validate_provider_content routes property_id (some assignment_id) =
    raise_if (not (is_reviewed_for property_id (assignment_by routes assignment_id)))
      provider_details_require_reviewed_assignment

-- The highest version number of a property's configurations, or 0.
unfoldable pub latest_config_version : ℕ → List SiteConfig → ℕ
latest_config_version property_id configs =
    elim (first_by (λ a b. ltb b.version a.version)
      (filter (λ c. c.property_id == property_id) configs)) [ none ↦ 0 | some c ↦ c.version ]

abbrev pub new_config : (id property_id version : ℕ) → SitePayload → ReviewActor → SiteConfig
new_config id property_id version payload actor = record {
  id = id;
  property_id = property_id;
  version = version;
  status = SiteConfigStatus.draft;
  config_payload = payload;
  created_by = actor.actor_id;
  approved_by = none;
  approved_at = none;
}

unfoldable pub create_site_config :
    List Asset
    → Routes
    → (id property_id : ℕ) → SitePayload
    → ReviewActor
    → Catalog
    → Result PropertyError Catalog
create_site_config assets routes id property_id payload actor catalog = do
  assert_human actor
  prop ← property_of catalog property_id
  validate_assets assets property_id payload.asset_ids
  validate_provider_content routes property_id payload.provider_details
  ok (
      revise actor (λ p. p) prop
        (record catalog {
          configs =
              new_config id property_id (latest_config_version property_id catalog.configs + 1)
                payload actor
              ∷ catalog.configs;
        }))

-- The other approved configurations of the property.
abbrev pub is_prior : SiteConfig → SiteConfig → Bool
is_prior row c =
    c.property_id == row.property_id && (is_approved_config c.status && not (c.id == row.id))

abbrev pub supersede : SiteConfig → SiteConfig
supersede c = record c { status = superseded }

abbrev pub decided : ReviewActor → SiteConfigStatus → (now : ℕ) → SiteConfig → SiteConfig
decided actor status now c = record c {
  status = status;
  approved_by = some actor.actor_id;
  approved_at = some now;
}

abbrev pub set_config : ℕ → (SiteConfig → SiteConfig) → List SiteConfig → List SiteConfig
set_config i f configs = map (touch (λ c. c.id == i) f) configs

unfoldable pub review_site_config :
    ℕ → (is_approval : Bool) → ReviewActor → (now : ℕ) → Catalog → Result PropertyError Catalog
review_site_config config_id is_approval actor now catalog = do
  assert_reviewer actor
  row ← config_of catalog config_id
  (if is_approval
      then (do
        _ ← property_of catalog row.property_id
        ok (
            set_property row.property_id
              (λ p. record p { active_site_config_version = some row.version })
              (record catalog {
                configs =
                    set_config row.id (decided actor SiteConfigStatus.approved now)
                      (map (touch (is_prior row) supersede) catalog.configs);
              })))
      else ok (record catalog {
        configs = set_config row.id (decided actor SiteConfigStatus.draft now) catalog.configs;
      }))

unfoldable pub create_asset :
    Catalog → (id property_id : ℕ) → List Asset → Result PropertyError (List Asset)
create_asset catalog id property_id assets = do
  _ ← property_of catalog property_id
  ok (
      record {
        id = id;
        property_id = property_id;
        approved = false;
        approved_by = none;
        approved_at = none;
      }
      ∷ assets)

unfoldable pub review_asset :
    ℕ
    → (is_approval : Bool) → ReviewActor
    → (now : ℕ) → List Asset
    → Result PropertyError (List Asset)
review_asset asset_id is_approval actor now assets = do
  assert_reviewer actor
  _ ← or_raise asset_not_found (get (λ a. a.id) asset_id assets)
  ok (
      map
        (touch (λ a. a.id == asset_id)
          (λ a. record a {
            approved = is_approval;
            approved_by = some actor.actor_id;
            approved_at = some now;
          }))
        assets)
