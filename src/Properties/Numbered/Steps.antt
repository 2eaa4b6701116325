-- ===== src/Properties/Numbered/Steps.antt =====
-- The operations keep the numbers of the versions.
use mathlib.Core.Path.{subst}
use digital_real_estate_engi.Common.{
  ℕ, ◌≡◌, refl, inl, inr, sym, ap, Bool, false, not, Option, none, some, List, ◌∷◌, ◌==◌, arith,
  Bool-cases, eq_of_==, is_some,
}
use digital_real_estate_engi.Common.Sum.{sum_of}
use digital_real_estate_engi.Common.Query.{indicator}
use digital_real_estate_engi.Common.Table.{get, key-get, All-get-none}
use digital_real_estate_engi.Common.Result.{
  ok, >>=-eq-ok, >>-eq-ok, raise_if, raise_if-eq-ok, ok_inj, if-eq-ok,
}
use digital_real_estate_engi.Reviews.State.{ReviewActor, Reviews}
use digital_real_estate_engi.Reviews.Transition.{require_property_approval}
use digital_real_estate_engi.Assignments.{Routes, create_routing_profile}
use digital_real_estate_engi.Properties.State.{is_manually_registered, Property, Asset, SitePayload}
use digital_real_estate_engi.Properties.Errors.{
  or_raise-eq-ok, assert_human, assert_reviewer, assert_operator,
}
use digital_real_estate_engi.Properties.Catalog.{
  Catalog, Validators, PropertyCreateRequest, PropertyUpdateRequest, or_keep, property_of,
  config_of, profile_of, version_of, approve, routed, assert_none, new_property, new_profile,
  create_property, new_brand, new_email, update_property,
}
use digital_real_estate_engi.Properties.SiteConfigs.{
  validate_assets, validate_provider_content, create_site_config, review_site_config,
}
use digital_real_estate_engi.Properties.Domains.{
  Domains, registration_of, mismatch, is_empty, DnsVerificationRequest, verify_dns,
}
use digital_real_estate_engi.Properties.Gates.{DeploymentRequest}
use digital_real_estate_engi.Properties.Deploy.{DeploymentAdapter, Destinations, deploy}
use digital_real_estate_engi.Properties.Deploy.Accepted.{deploy-Deployed}
use digital_real_estate_engi.Properties.Sites.{Sites}
use digital_real_estate_engi.Properties.Numbered.{
  is_version, has_reached, IsNumbered, revise-IsNumbered, set_property-IsNumbered,
}

-- What the number of versions says of a catalog.
abbrev pub Numbered : Catalog → Type 0
Numbered catalog = IsNumbered catalog.properties catalog.versions

-- A found property has the key that it was found by.
found_self :
    (i : ℕ) (p : Property) (catalog : Catalog)
    → get (λ q. q.id) i catalog.properties ≡ some p
    → get (λ q. q.id) p.id catalog.properties ≡ some p
found_self i p catalog found =
    subst (λ k. get (λ q. q.id) k catalog.properties ≡ some p)
      (sym (key-get (λ q. q.id) i catalog.properties p found)) found

is_some-false {ℓ} : {A : Type ℓ} (o : Option A) → is_some o ≡ false → o ≡ none
is_some-false none h = refl
is_some-false (some a) h = cc

new_property-Numbered :
    (id opportunity_id : ℕ) (request : PropertyCreateRequest) (actor : ReviewActor)
    (catalog : Catalog)
    → get (λ p. p.id) id catalog.properties ≡ none
    → Numbered catalog
    → (i v : ℕ)
    → sum_of
        (λ x. indicator (is_version i v x))
        (version_of actor (new_property id opportunity_id request) ∷ catalog.versions)
      ≡ indicator (
          has_reached v
            (get (λ p. p.id) i (new_property id opportunity_id request ∷ catalog.properties)))
unfolding version_of get
new_property-Numbered id opportunity_id request actor catalog absent sound i v =
    let before = sound.numbered i v in
    elim (Bool-cases (id == i)) [
      | inr other ↦ ground (arith, before, other)
      | inl is ↦
          let row =
            subst (λ k. get (λ p. p.id) k catalog.properties ≡ none) (eq_of_== _ _ is) absent in
          ground (arith, before, is, row)
    ]

pub create_property-IsNumbered :
    (reviews : Reviews) (opportunity_id derived_id : ℕ) (request : PropertyCreateRequest)
    (actor : ReviewActor) (catalog : Catalog) (routes : Routes) (catalog' : Catalog)
    (routes' : Routes)
    → Numbered catalog
    → create_property reviews opportunity_id derived_id request actor catalog routes
      ≡ ok (catalog', routes')
    → Numbered catalog'
unfolding create_property version_of
create_property-IsNumbered reviews opportunity_id derived_id request actor catalog routes catalog'
      routes' sound h =
    let (_, h1) = >>-eq-ok (assert_human actor) _ h in
    let (o, _, h2) = >>=-eq-ok (approve (require_property_approval reviews opportunity_id)) _ h1 in
    let (_, h3) =
      >>-eq-ok (assert_none (get (λ p. p.opportunity_id) opportunity_id catalog.properties)) _ h2 in
    let id = or_keep derived_id request.property_id in
    let row = new_property id o.id request in
    let (unused, h4) =
      >>-eq-ok (raise_if (is_some (get (λ p. p.id) id catalog.properties)) _) _ h3 in
    let (routed_after, _, done) =
      >>=-eq-ok (routed (create_routing_profile reviews (new_profile row) routes)) _ h4 in
    let absent = is_some-false _ (raise_if-eq-ok _ _ unused) in
    subst Numbered (ap (λ p. p.0) (ok_inj done)) (record {
      keyed = (All-get-none (λ p. p.id) id catalog.properties absent, sound.keyed);
      numbered = new_property-Numbered id o.id request actor catalog absent sound;
    })

pub update_property-IsNumbered :
    (validators : Validators) (property_id : ℕ) (request : PropertyUpdateRequest)
    (actor : ReviewActor) (catalog : Catalog) (routes : Routes) (catalog' : Catalog)
    (routes' : Routes)
    → Numbered catalog
    → update_property validators property_id request actor catalog routes ≡ ok (catalog', routes')
    → Numbered catalog'
unfolding update_property
update_property-IsNumbered validators property_id request actor catalog routes catalog' routes'
      sound h =
    let (_, h1) = >>-eq-ok (assert_human actor) _ h in
    let (row, found, h2) = >>=-eq-ok (property_of catalog property_id) _ h1 in
    let (brand, _, h3) =
      >>=-eq-ok (new_brand validators request.neutral_brand row.neutral_brand) _ h2 in
    let (email, _, h4) =
      >>=-eq-ok (new_email validators brand request.public_contact_email row.public_contact_email) _
        h3 in
    let (_, _, done) = >>=-eq-ok (profile_of routes property_id) _ h4 in
    subst Numbered (ap (λ p. p.0) (ok_inj done)) (
      revise-IsNumbered actor _ row catalog (λ q. refl)
        (found_self property_id row catalog (or_raise-eq-ok _ _ found)) sound)

pub create_site_config-IsNumbered :
    (assets : List Asset) (routes : Routes) (id property_id : ℕ) (payload : SitePayload)
    (actor : ReviewActor) (catalog catalog' : Catalog)
    → Numbered catalog
    → create_site_config assets routes id property_id payload actor catalog ≡ ok catalog'
    → Numbered catalog'
unfolding create_site_config
create_site_config-IsNumbered assets routes id property_id payload actor catalog catalog' sound h =
    let (_, h1) = >>-eq-ok (assert_human actor) _ h in
    let (prop, found, h2) = >>=-eq-ok (property_of catalog property_id) _ h1 in
    let (_, h3) = >>-eq-ok (validate_assets assets property_id payload.asset_ids) _ h2 in
    let (_, done) =
      >>-eq-ok (validate_provider_content routes property_id payload.provider_details) _ h3 in
    subst Numbered (ok_inj done) (
      revise-IsNumbered actor (λ p. p) prop _ (λ q. refl)
        (found_self property_id prop catalog (or_raise-eq-ok _ _ found)) sound)

pub review_site_config-IsNumbered :
    (config_id : ℕ) (is_approval : Bool) (actor : ReviewActor) (now : ℕ)
    (catalog catalog' : Catalog)
    → Numbered catalog
    → review_site_config config_id is_approval actor now catalog ≡ ok catalog'
    → Numbered catalog'
unfolding review_site_config
review_site_config-IsNumbered config_id is_approval actor now catalog catalog' sound h =
    let (_, h1) = >>-eq-ok (assert_reviewer actor) _ h in
    let (row, _, h2) = >>=-eq-ok (config_of catalog config_id) _ h1 in
    elim (if-eq-ok is_approval _ _ h2) [
      | inl (_, h3) ↦
          let (_, _, done) = >>=-eq-ok (property_of catalog row.property_id) _ h3 in
          subst Numbered (ok_inj done)
            (set_property-IsNumbered row.property_id _ catalog (λ q. refl) (λ q. refl) sound)
      | inr (_, done) ↦ subst Numbered (ok_inj done) sound
    ]

pub verify_dns-IsNumbered :
    (registration_id : ℕ) (request : DnsVerificationRequest) (actor : ReviewActor) (now : ℕ)
    (domains : Domains) (catalog : Catalog) (domains' : Domains) (catalog' : Catalog)
    → Numbered catalog
    → verify_dns registration_id request actor now domains catalog ≡ ok (domains', catalog')
    → Numbered catalog'
unfolding verify_dns
verify_dns-IsNumbered registration_id request actor now domains catalog domains' catalog' sound h =
    let (_, h1) = >>-eq-ok (assert_operator actor) _ h in
    let (row, _, h2) = >>=-eq-ok (registration_of domains registration_id) _ h1 in
    let (_, h3) = >>-eq-ok (raise_if (not (is_manually_registered row.status)) _) _ h2 in
    let (_, h4) = >>-eq-ok (raise_if (is_empty row.expected_dns_records) _) _ h3 in
    let (_, h5) =
      >>-eq-ok
        (raise_if (not (is_empty (mismatch row.expected_dns_records request.observed_records))) _) _
        h4 in
    let (prop, found, done) = >>=-eq-ok (property_of catalog row.property_id) _ h5 in
    subst Numbered (ap (λ p. p.1) (ok_inj done)) (
      revise-IsNumbered actor _ prop catalog (λ q. refl)
        (found_self row.property_id prop catalog (or_raise-eq-ok _ _ found)) sound)

pub deploy-IsNumbered :
    (destinations : Destinations) (adapter : DeploymentAdapter) (reviews : Reviews)
    (routes : Routes) (domains : Domains) (id build_id : ℕ) (request : DeploymentRequest)
    (actor : ReviewActor) (now : ℕ) (catalog : Catalog) (sites : Sites) (catalog' : Catalog)
    (sites' : Sites)
    → Numbered catalog
    → deploy destinations adapter reviews routes domains id build_id request actor now catalog sites
      ≡ ok (catalog', sites')
    → Numbered catalog'
deploy-IsNumbered destinations adapter reviews routes domains id build_id request actor now catalog
      sites catalog' sites' sound h =
    let d =
      deploy-Deployed destinations adapter reviews routes domains id build_id request actor now
        catalog sites catalog' sites' h in
    subst Numbered (sym d.catalog_after)
      (set_property-IsNumbered d.prop.id _ catalog (λ q. refl) (λ q. refl) sound)
