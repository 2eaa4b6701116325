-- ===== src/Properties/Configured/Kept.antt =====
-- The operations that leave the configurations alone.
use digital_real_estate_engi.Common.{ℕ, ◌≡◌, sym, ap, not, is_some}
use digital_real_estate_engi.Common.Table.{get}
use digital_real_estate_engi.Common.Result.{ok, >>=-eq-ok, >>-eq-ok, raise_if, ok_inj}
use digital_real_estate_engi.Reviews.State.{ReviewActor, Reviews}
use digital_real_estate_engi.Reviews.Transition.{require_property_approval}
use digital_real_estate_engi.Assignments.{Routes, create_routing_profile}
use digital_real_estate_engi.Properties.State.{is_manually_registered}
use digital_real_estate_engi.Properties.Errors.{assert_human, assert_operator}
use digital_real_estate_engi.Properties.Catalog.{
  Catalog, Validators, PropertyCreateRequest, PropertyUpdateRequest, or_keep, property_of,
  profile_of, revise, approve, routed, assert_none, new_property, new_profile, create_property,
  new_brand, new_email, update_property,
}
use digital_real_estate_engi.Properties.Domains.{
  Domains, registration_of, mismatch, is_empty, DnsVerificationRequest, verify_dns,
}
use digital_real_estate_engi.Properties.Gates.{DeploymentRequest}
use digital_real_estate_engi.Properties.Deploy.{DeploymentAdapter, Destinations, deploy}
use digital_real_estate_engi.Properties.Deploy.Accepted.{deploy-Deployed}
use digital_real_estate_engi.Properties.Sites.{Sites}

pub create_property-configs :
    (reviews : Reviews) (opportunity_id derived_id : ℕ) (request : PropertyCreateRequest)
    (actor : ReviewActor) (catalog : Catalog) (routes : Routes) (catalog' : Catalog)
    (routes' : Routes)
    → create_property reviews opportunity_id derived_id request actor catalog routes
      ≡ ok (catalog', routes')
    → catalog.configs ≡ catalog'.configs
unfolding create_property
create_property-configs reviews opportunity_id derived_id request actor catalog routes catalog'
      routes' h =
    let (_, h1) = >>-eq-ok (assert_human actor) _ h in
    let (o, _, h2) = >>=-eq-ok (approve (require_property_approval reviews opportunity_id)) _ h1 in
    let (_, h3) =
      >>-eq-ok (assert_none (get (λ p. p.opportunity_id) opportunity_id catalog.properties)) _ h2 in
    let id = or_keep derived_id request.property_id in
    let (_, h4) = >>-eq-ok (raise_if (is_some (get (λ p. p.id) id catalog.properties)) _) _ h3 in
    let (_, _, done) =
      >>=-eq-ok
        (routed
          (create_routing_profile reviews (new_profile (new_property id o.id request)) routes))
        _ h4 in
    ap (λ p. p.0.configs) (ok_inj done)

pub update_property-configs :
    (validators : Validators) (property_id : ℕ) (request : PropertyUpdateRequest)
    (actor : ReviewActor) (catalog : Catalog) (routes : Routes) (catalog' : Catalog)
    (routes' : Routes)
    → update_property validators property_id request actor catalog routes ≡ ok (catalog', routes')
    → catalog.configs ≡ catalog'.configs
unfolding update_property revise
update_property-configs validators property_id request actor catalog routes catalog' routes' h =
    let (_, h1) = >>-eq-ok (assert_human actor) _ h in
    let (row, _, h2) = >>=-eq-ok (property_of catalog property_id) _ h1 in
    let (brand, _, h3) =
      >>=-eq-ok (new_brand validators request.neutral_brand row.neutral_brand) _ h2 in
    let (email, _, h4) =
      >>=-eq-ok (new_email validators brand request.public_contact_email row.public_contact_email) _
        h3 in
    let (_, _, done) = >>=-eq-ok (profile_of routes property_id) _ h4 in
    ap (λ p. p.0.configs) (ok_inj done)

pub verify_dns-configs :
    (registration_id : ℕ) (request : DnsVerificationRequest) (actor : ReviewActor) (now : ℕ)
    (domains : Domains) (catalog : Catalog) (domains' : Domains) (catalog' : Catalog)
    → verify_dns registration_id request actor now domains catalog ≡ ok (domains', catalog')
    → catalog.configs ≡ catalog'.configs
unfolding verify_dns revise
verify_dns-configs registration_id request actor now domains catalog domains' catalog' h =
    let (_, h1) = >>-eq-ok (assert_operator actor) _ h in
    let (row, _, h2) = >>=-eq-ok (registration_of domains registration_id) _ h1 in
    let (_, h3) = >>-eq-ok (raise_if (not (is_manually_registered row.status)) _) _ h2 in
    let (_, h4) = >>-eq-ok (raise_if (is_empty row.expected_dns_records) _) _ h3 in
    let (_, h5) =
      >>-eq-ok
        (raise_if (not (is_empty (mismatch row.expected_dns_records request.observed_records))) _) _
        h4 in
    let (_, _, done) = >>=-eq-ok (property_of catalog row.property_id) _ h5 in
    ap (λ p. p.1.configs) (ok_inj done)

pub deploy-configs :
    (destinations : Destinations) (adapter : DeploymentAdapter) (reviews : Reviews)
    (routes : Routes) (domains : Domains) (id build_id : ℕ) (request : DeploymentRequest)
    (actor : ReviewActor) (now : ℕ) (catalog : Catalog) (sites : Sites) (catalog' : Catalog)
    (sites' : Sites)
    → deploy destinations adapter reviews routes domains id build_id request actor now catalog sites
      ≡ ok (catalog', sites')
    → catalog.configs ≡ catalog'.configs
deploy-configs destinations adapter reviews routes domains id build_id request actor now catalog
      sites catalog' sites' h =
    let d =
      deploy-Deployed destinations adapter reviews routes domains id build_id request actor now
        catalog sites catalog' sites' h in
    sym (ap (λ c. c.configs) d.catalog_after)
