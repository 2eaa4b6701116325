-- ===== src/Properties/Configured.antt =====
-- A property has one approved configuration at most.
pub mod Kept
use mathlib.Core.Path.{subst}
use digital_real_estate_engi.Common.{
  ℕ, ◌+◌, ◌≤◌, ◌≡◌, ◌≢◌, refl, inl, inr, sym, Bool, false, some, List, [], ◌∷◌, ◌&&◌, ◌==◌, All,
  arith, Bool-cases, eq_of_==, map, ==-refl,
}
use digital_real_estate_engi.Common.Sum.{sum_of, sum-touch}
use digital_real_estate_engi.Common.Query.{indicator}
use digital_real_estate_engi.Common.Table.{get, touch, IsKeyed, IsKeyed-map, get-map, key-get}
use digital_real_estate_engi.Common.Result.{ok, >>=-eq-ok, >>-eq-ok, ok_inj, if-eq-ok}
use digital_real_estate_engi.Reviews.State.{ReviewActor}
use digital_real_estate_engi.Assignments.{Routes}
use digital_real_estate_engi.Properties.State.{
  SiteConfigStatus, is_approved_config, Asset, SitePayload, SiteConfig,
}
use digital_real_estate_engi.Properties.Errors.{or_raise-eq-ok, assert_human, assert_reviewer}
use digital_real_estate_engi.Properties.Catalog.{Catalog, property_of, config_of, revise}
use digital_real_estate_engi.Properties.SiteConfigs.{
  validate_assets, validate_provider_content, create_site_config, is_prior, supersede, decided,
  set_config, review_site_config,
}

abbrev pub is_approved_of : ℕ → SiteConfig → Bool
is_approved_of property_id c = c.property_id == property_id && is_approved_config c.status

abbrev pub approved_weight : ℕ → SiteConfig → ℕ
approved_weight property_id c = indicator (is_approved_of property_id c)

pub record IsConfigured (configs : List SiteConfig) : Type 0 where
  pub keyed : IsKeyed (λ c. c.id) configs
  pub single : (property_id : ℕ) → sum_of (approved_weight property_id) configs ≤ 1

abbrev superseded_by : SiteConfig → List SiteConfig → List SiteConfig
superseded_by row configs = map (touch (is_prior row) supersede) configs

module _ (row : SiteConfig) where
  -- The other configurations of the property lose their approval.
  superseded-absent :
      (configs : List SiteConfig)
      → All (λ c. c.id ≢ row.id) configs
      → sum_of (approved_weight row.property_id) (superseded_by row configs) ≡ 0
  superseded-absent [] h = refl
  superseded-absent (c ∷ configs) h = ground (arith, superseded-absent configs h.1)

  superseded-own :
      (configs : List SiteConfig)
      → IsKeyed (λ c. c.id) configs
      → get (λ c. c.id) row.id configs ≡ some row
      → sum_of (approved_weight row.property_id) (superseded_by row configs)
        ≡ approved_weight row.property_id row
  unfolding get
  superseded-own [] keyed found = cc
  superseded-own (c ∷ configs) keyed found = elim (Bool-cases (c.id == row.id)) [
    | inl same ↦
        let is : c ≡ row = ground (arith, same) in
        let absent = superseded-absent configs (rw (eq_of_== _ _ same) at keyed.0) in
        rw is (ground (arith, absent))
    | inr other ↦ ground (arith, other, superseded-own configs keyed.1 (rw other at found))
  ]

  superseded-elsewhere :
      (property_id : ℕ) (configs : List SiteConfig)
      → (row.property_id == property_id) ≡ false
      → sum_of (approved_weight property_id) (superseded_by row configs)
        ≡ sum_of (approved_weight property_id) configs
  superseded-elsewhere property_id [] other = refl
  superseded-elsewhere property_id (c ∷ configs) other =
      ground (arith, superseded-elsewhere property_id configs other)

  superseded-get :
      (configs : List SiteConfig)
      → get (λ c. c.id) row.id configs ≡ some row
      → get (λ c. c.id) row.id (superseded_by row configs) ≡ some row
  superseded-get configs found =
      let after =
        get-map (λ c. c.id) (touch (is_prior row) supersede) (λ c. ground arith) row.id configs in
      ground (arith, after, found, ==-refl row.id)

-- One decision on a row that was found.
decided-single :
    (actor : ReviewActor) (status : SiteConfigStatus) (now : ℕ) (row : SiteConfig)
    (configs : List SiteConfig) (property_id : ℕ)
    → IsKeyed (λ c. c.id) configs
    → get (λ c. c.id) row.id configs ≡ some row
    → sum_of (approved_weight property_id) (set_config row.id (decided actor status now) configs)
        + approved_weight property_id row
      ≡ sum_of (approved_weight property_id) configs
        + approved_weight property_id (decided actor status now row)
decided-single actor status now row configs property_id keyed found =
    sum-touch (λ c. c.id) (approved_weight property_id) (decided actor status now) row.id row
      configs keyed found

decided-IsKeyed :
    (actor : ReviewActor) (status : SiteConfigStatus) (now i : ℕ) (configs : List SiteConfig)
    → IsKeyed (λ c. c.id) configs
    → IsKeyed (λ c. c.id) (set_config i (decided actor status now) configs)
decided-IsKeyed actor status now i configs keyed =
    IsKeyed-map (λ c. c.id) (touch (λ c. c.id == i) (decided actor status now)) (λ c. ground arith)
      configs keyed

draft-weight :
    (actor : ReviewActor) (now property_id : ℕ) (row : SiteConfig)
    → approved_weight property_id (decided actor SiteConfigStatus.draft now row) ≡ 0
draft-weight actor now property_id row = ground arith

approved-IsConfigured :
    (actor : ReviewActor) (now : ℕ) (row : SiteConfig) (configs : List SiteConfig)
    → IsConfigured configs
    → get (λ c. c.id) row.id configs ≡ some row
    → IsConfigured (
        set_config row.id (decided actor SiteConfigStatus.approved now) (superseded_by row configs))
approved-IsConfigured actor now row configs sound found =
    let keyed =
      IsKeyed-map (λ c. c.id) (touch (is_prior row) supersede) (λ c. ground arith) configs
        sound.keyed in
    record {
      keyed =
          decided-IsKeyed actor SiteConfigStatus.approved now row.id (superseded_by row configs)
            keyed;
      single = λ p.
          let moved =
            decided-single actor SiteConfigStatus.approved now row (superseded_by row configs) p
              keyed (superseded-get row configs found) in
          elim (Bool-cases (row.property_id == p)) [
            | inl own ↦
                let alone =
                  subst
                    (λ k.
                      sum_of (approved_weight k) (superseded_by row configs)
                      ≡ approved_weight k row)
                    (eq_of_== _ _ own) (superseded-own row configs sound.keyed found) in
                ground (arith, moved, alone)
            | inr other ↦
                let before = superseded-elsewhere row p configs other in
                ground (arith, moved, before, other, sound.single p)
          ];
    }

pub create_site_config-IsConfigured :
    (assets : List Asset) (routes : Routes) (id property_id : ℕ) (payload : SitePayload)
    (actor : ReviewActor) (catalog catalog' : Catalog)
    → IsConfigured catalog.configs
    → All (λ c. c.id ≢ id) catalog.configs
    → create_site_config assets routes id property_id payload actor catalog ≡ ok catalog'
    → IsConfigured catalog'.configs
unfolding create_site_config revise
create_site_config-IsConfigured assets routes id property_id payload actor catalog catalog' sound
      fresh h =
    let (_, h1) = >>-eq-ok (assert_human actor) _ h in
    let (prop, found, h2) = >>=-eq-ok (property_of catalog property_id) _ h1 in
    let (_, h3) = >>-eq-ok (validate_assets assets property_id payload.asset_ids) _ h2 in
    let (_, done) =
      >>-eq-ok (validate_provider_content routes property_id payload.provider_details) _ h3 in
    subst (λ c. IsConfigured c.configs) (ok_inj done)
      (record { keyed = (fresh, sound.keyed); single = λ p. ground (arith, sound.single p) })

pub review_site_config-IsConfigured :
    (config_id : ℕ) (is_approval : Bool) (actor : ReviewActor) (now : ℕ)
    (catalog catalog' : Catalog)
    → IsConfigured catalog.configs
    → review_site_config config_id is_approval actor now catalog ≡ ok catalog'
    → IsConfigured catalog'.configs
unfolding review_site_config
review_site_config-IsConfigured config_id is_approval actor now catalog catalog' sound h =
    let (_, h1) = >>-eq-ok (assert_reviewer actor) _ h in
    let (row, found, h2) = >>=-eq-ok (config_of catalog config_id) _ h1 in
    let config_row = or_raise-eq-ok _ _ found in
    let row_self =
      subst (λ k. get (λ c. c.id) k catalog.configs ≡ some row)
        (sym (key-get (λ c. c.id) config_id catalog.configs row config_row)) config_row in
    elim (if-eq-ok is_approval _ _ h2) [
      | inl (_, h3) ↦
          let (_, _, done) = >>=-eq-ok (property_of catalog row.property_id) _ h3 in
          subst (λ c. IsConfigured c.configs) (ok_inj done)
            (approved-IsConfigured actor now row catalog.configs sound row_self)
      | inr (_, done) ↦
          subst (λ c. IsConfigured c.configs) (ok_inj done)
            (record {
              keyed =
                  decided-IsKeyed actor SiteConfigStatus.draft now row.id catalog.configs
                    sound.keyed;
              single = λ p. omega (
                arith,
                decided-single actor SiteConfigStatus.draft now row catalog.configs p sound.keyed
                    row_self,
                sound.single p,
                draft-weight actor now p row,
              );
            })
    ]
