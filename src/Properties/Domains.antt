-- ===== src/Properties/Domains.antt =====
-- The domain of a property: candidates, the approval of a purchase, the registration outside of the
-- program and the check of its records: `decide_domain_candidate`, `check_domain_availability`,
-- `approve_domain_purchase`, `record_manual_registration` and `verify_dns`.
use digital_real_estate_engi.Common.{
  ℕ, Bool, true, false, not, Option, none, some, List, [], ◌∷◌, map, ◌&&◌, ◌==◌, holds, is_some,
  if◌then◌else◌, filter, any,
}
use digital_real_estate_engi.Common.Table.{get, touch}
use digital_real_estate_engi.Common.Result.{Result, ok, raise_if, ◌>>=◌, ◌>>◌}
use digital_real_estate_engi.Reviews.State.{ReviewActor}
use digital_real_estate_engi.Properties.State.{
  DomainCandidateStatus, generated, shortlisted, DomainAvailability, unchecked, purchase_approved,
  manually_registered, dns_verified, is_shortlisted, is_available, is_manually_registered,
  DomainCandidate, DnsRecords, DomainRegistration,
}
use digital_real_estate_engi.Properties.Errors.{
  PropertyError, domain_candidate_not_found, domain_registration_not_found,
  domain_must_be_shortlisted, integrity_error, domain_must_have_available_evidence,
  explicit_domain_purchase_approval_required, automatic_domain_purchase_is_disabled,
  domain_purchase_was_not_approved, dns_verification_requires_manual_registration,
  expected_dns_records_required, dns_records_do_not_match, assert_human, assert_operator, or_raise,
}
use digital_real_estate_engi.Properties.Catalog.{Catalog, property_of, revise}

pub record Domains : Type 0 where
  pub candidates : List DomainCandidate
  pub registrations : List DomainRegistration

abbrev pub candidate_of : Domains → ℕ → Result PropertyError DomainCandidate
candidate_of domains i = or_raise domain_candidate_not_found (get (λ c. c.id) i domains.candidates)

abbrev pub registration_of : Domains → ℕ → Result PropertyError DomainRegistration
registration_of domains i =
    or_raise domain_registration_not_found (get (λ r. r.id) i domains.registrations)

abbrev pub set_candidate : ℕ → (DomainCandidate → DomainCandidate) → Domains → Domains
set_candidate i f domains = record domains {
  candidates = map (touch (λ c. c.id == i) f) domains.candidates;
}

abbrev pub set_registration : ℕ → (DomainRegistration → DomainRegistration) → Domains → Domains
set_registration i f domains = record domains {
  registrations = map (touch (λ r. r.id == i) f) domains.registrations;
}

-- The loop of `generate_domain_candidates` over the names it has formed; `ids` are the keys that the
-- database gives to new rows, and it tests against the rows that stood before.
unfoldable pub add_candidates :
    (property_id : ℕ)
    → (known : List DomainCandidate) → (names : List (ℕ × ℕ)) → List DomainCandidate
    → List DomainCandidate
add_candidates property_id known [] rows = rows
add_candidates property_id known ((id, domain) ∷ names) rows =
    add_candidates property_id known names (
      if any (λ c. c.property_id == property_id && c.domain == domain) known
      then rows
      else record {
        id = id;
        property_id = property_id;
        domain = domain;
        status = generated;
        availability_status = unchecked;
        availability_checked_at = none;
        decision_by = none;
        decided_at = none;
      }
        ∷ rows)

unfoldable pub decide_domain_candidate :
    ℕ → (shortlist : Bool) → ReviewActor → (now : ℕ) → Domains → Result PropertyError Domains
decide_domain_candidate candidate_id shortlist actor now domains = do
  assert_human actor
  candidate ← candidate_of domains candidate_id
  ok (
      set_candidate candidate.id
        (λ c. record c {
          status = if shortlist then shortlisted else DomainCandidateStatus.rejected;
          decision_by = some actor.actor_id;
          decided_at = some now;
        })
        domains)

-- `check` is what the adapter finds out about a domain.
unfoldable pub check_domain_availability :
    (check : ℕ → DomainAvailability) → ℕ → (now : ℕ) → Domains → Result PropertyError Domains
check_domain_availability check candidate_id now domains = do
  candidate ← candidate_of domains candidate_id
  ok (
      set_candidate candidate.id
        (λ c. record c {
          availability_status = check candidate.domain;
          availability_checked_at = some now;
        })
        domains)

abbrev pub new_registration :
    (id manual : ℕ) → DomainCandidate → ReviewActor → ℕ → DomainRegistration
new_registration id manual candidate actor now = record {
  id = id;
  property_id = candidate.property_id;
  domain_candidate_id = candidate.id;
  domain = candidate.domain;
  registrar_name = manual;
  status = purchase_approved;
  purchase_approved = true;
  purchase_approved_by = actor.actor_id;
  purchase_approved_at = now;
  external_reference = none;
  registered_at = none;
  expected_dns_records = [];
  observed_dns_records = [];
  dns_evidence_reference = none;
  dns_verified_at = none;
  dns_verified_by = none;
}

-- The registration of the candidate that stands already, or the new row; domains are unique.
unfoldable pub add_registration : DomainRegistration → Domains → Result PropertyError Domains
add_registration r domains =
    if is_some (get (λ q. q.domain_candidate_id) r.domain_candidate_id domains.registrations)
    then ok domains
    else (do
      raise_if (is_some (get (λ q. q.domain) r.domain domains.registrations)) integrity_error
      ok (record domains { registrations = r ∷ domains.registrations }))

-- `can_purchase` is the property of the registrar's adapter, `manual` the name of the manual registrar.
unfoldable pub approve_domain_purchase :
    (can_purchase : Bool)
    → (id manual candidate_id : ℕ) → (explicit_purchase_approval : Bool) → ReviewActor
    → (now : ℕ) → Domains
    → Result PropertyError Domains
approve_domain_purchase can_purchase id manual candidate_id explicit actor now domains = do
  assert_operator actor
  candidate ← candidate_of domains candidate_id
  raise_if (not (is_shortlisted candidate.status)) domain_must_be_shortlisted
  raise_if (not (is_available candidate.availability_status)) domain_must_have_available_evidence
  raise_if (not explicit) explicit_domain_purchase_approval_required
  raise_if can_purchase automatic_domain_purchase_is_disabled
  add_registration (new_registration id manual candidate actor now) domains

pub record ManualRegistrationRequest : Type 0 where
  pub external_reference : ℕ
  pub registrar_name : ℕ
  pub expected_dns_records : DnsRecords

unfoldable pub record_manual_registration :
    ℕ → ManualRegistrationRequest → ReviewActor → (now : ℕ) → Domains → Result PropertyError Domains
record_manual_registration registration_id request actor now domains = do
  assert_operator actor
  row ← registration_of domains registration_id
  raise_if (not row.purchase_approved) domain_purchase_was_not_approved
  ok (
      set_registration row.id
        (λ r. record r {
          external_reference = some request.external_reference;
          registrar_name = request.registrar_name;
          expected_dns_records = request.expected_dns_records;
          registered_at = some now;
          status = manually_registered;
        })
        domains)

-- `records.get(key)`
unfoldable pub lookup_record : ℕ → DnsRecords → Option ℕ
lookup_record key [] = none
lookup_record key ((k, v) ∷ records) = if k == key then some v else lookup_record key records

-- The expected records that were not observed.
unfoldable pub mismatch : (expected observed : DnsRecords) → DnsRecords
mismatch expected observed = filter (λ e. not (holds (lookup_record e.0 observed) e.1)) expected

abbrev pub is_empty {ℓ} : {A : Type ℓ} → List A → Bool
is_empty [] = true
is_empty (_ ∷ _) = false

pub record DnsVerificationRequest : Type 0 where
  pub observed_records : DnsRecords
  pub evidence_reference : ℕ

abbrev pub verified :
    DnsVerificationRequest → ReviewActor → ℕ → DomainRegistration → DomainRegistration
verified request actor now r = record r {
  observed_dns_records = request.observed_records;
  dns_evidence_reference = some request.evidence_reference;
  dns_verified_at = some now;
  dns_verified_by = some actor.actor_id;
  status = dns_verified;
}

unfoldable pub verify_dns :
    ℕ
    → DnsVerificationRequest
    → ReviewActor
    → (now : ℕ) → Domains
    → Catalog
    → Result PropertyError (Domains × Catalog)
verify_dns registration_id request actor now domains catalog = do
  assert_operator actor
  row ← registration_of domains registration_id
  raise_if (not (is_manually_registered row.status)) dns_verification_requires_manual_registration
  raise_if (is_empty row.expected_dns_records) expected_dns_records_required
  let missing = mismatch row.expected_dns_records request.observed_records
  raise_if (not (is_empty missing)) (dns_records_do_not_match missing)
  prop ← property_of catalog row.property_id
  ok (
    set_registration row.id (verified request actor now) domains,
    revise actor (λ p. record p { domain = some row.domain }) prop catalog,
  )
