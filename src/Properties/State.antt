-- ===== src/Properties/State.antt =====
-- The rows of a property, on the columns of src/rank_rent/property_workflow/orm.py that the service
-- reads or decides on, and the values of models.py. Names, paths, hashes and users are natural numbers.
use digital_real_estate_engi.Common.{ℕ, Bool, true, false, Option, List, [], ◌∷◌, ◌==◌}

pub data PropertyStatus : Type 0 where
  draft staging production archived : PropertyStatus

pub data DomainCandidateStatus : Type 0 where
  generated shortlisted rejected : DomainCandidateStatus

pub data DomainAvailability : Type 0 where
  unchecked available unavailable unknown : DomainAvailability

pub data DomainRegistrationStatus : Type 0 where
  purchase_approved manually_registered dns_verified : DomainRegistrationStatus

pub data SiteConfigStatus : Type 0 where
  draft approved superseded : SiteConfigStatus

pub data BuildEnvironment : Type 0 where
  preview staging production : BuildEnvironment

pub data DeploymentStatus : Type 0 where
  deployed rolled_back failed : DeploymentStatus

pub data ComplianceStatus : Type 0 where
  approved rejected : ComplianceStatus

abbrev pub is_shortlisted : DomainCandidateStatus → Bool
is_shortlisted shortlisted = true
is_shortlisted _ = false

abbrev pub is_available : DomainAvailability → Bool
is_available available = true
is_available _ = false

abbrev pub is_manually_registered : DomainRegistrationStatus → Bool
is_manually_registered manually_registered = true
is_manually_registered _ = false

abbrev pub is_dns_verified : DomainRegistrationStatus → Bool
is_dns_verified dns_verified = true
is_dns_verified _ = false

abbrev pub is_approved_config : SiteConfigStatus → Bool
is_approved_config SiteConfigStatus.approved = true
is_approved_config _ = false

abbrev pub is_production : BuildEnvironment → Bool
is_production BuildEnvironment.production = true
is_production _ = false

abbrev environment_rank : BuildEnvironment → ℕ
environment_rank preview = 0
environment_rank BuildEnvironment.staging = 1
environment_rank BuildEnvironment.production = 2

abbrev pub environment_eq : BuildEnvironment → BuildEnvironment → Bool
environment_eq a b = environment_rank a == environment_rank b

abbrev pub is_deployed : DeploymentStatus → Bool
is_deployed deployed = true
is_deployed _ = false

abbrev pub is_approved_review : ComplianceStatus → Bool
is_approved_review ComplianceStatus.approved = true
is_approved_review _ = false

-- `analytics_verified` tells whether `analytics_config["verified"]` is `True`.
pub record Property : Type 0 where
  pub id : ℕ
  pub opportunity_id : ℕ
  pub neutral_brand : ℕ
  pub domain : Option ℕ
  pub public_tracking_number : Option ℕ
  pub public_contact_email : Option ℕ
  pub status : PropertyStatus
  pub active_site_config_version : Option ℕ
  pub analytics_verified : Bool
  pub current_version : ℕ

pub record PropertyVersion : Type 0 where
  pub property_id : ℕ
  pub version : ℕ
  pub snapshot : Property
  pub changed_by : ℕ

pub record DomainCandidate : Type 0 where
  pub id : ℕ
  pub property_id : ℕ
  pub domain : ℕ
  pub status : DomainCandidateStatus
  pub availability_status : DomainAvailability
  pub availability_checked_at : Option ℕ
  pub decision_by : Option ℕ
  pub decided_at : Option ℕ

abbrev pub DnsRecords : Type 0
DnsRecords = List (ℕ × ℕ)

pub record DomainRegistration : Type 0 where
  pub id : ℕ
  pub property_id : ℕ
  pub domain_candidate_id : ℕ
  pub domain : ℕ
  pub registrar_name : ℕ
  pub status : DomainRegistrationStatus
  pub purchase_approved : Bool
  pub purchase_approved_by : ℕ
  pub purchase_approved_at : ℕ
  pub external_reference : Option ℕ
  pub registered_at : Option ℕ
  pub expected_dns_records : DnsRecords
  pub observed_dns_records : DnsRecords
  pub dns_evidence_reference : Option ℕ
  pub dns_verified_at : Option ℕ
  pub dns_verified_by : Option ℕ

pub record Asset : Type 0 where
  pub id : ℕ
  pub property_id : ℕ
  pub approved : Bool
  pub approved_by : Option ℕ
  pub approved_at : Option ℕ

-- The parts of the payload that the service looks into, beside the rest. `provider_details` is `none`
-- where it is empty, and holds its `assignment_id`, where it has one.
pub record SitePayload : Type 0 where
  pub asset_ids : List ℕ
  pub provider_details : Option (Option ℕ)
  pub content : ℕ

pub record SiteConfig : Type 0 where
  pub id : ℕ
  pub property_id : ℕ
  pub version : ℕ
  pub status : SiteConfigStatus
  pub config_payload : SitePayload
  pub created_by : ℕ
  pub approved_by : Option ℕ
  pub approved_at : Option ℕ

-- `status` is "passed" where `passed` is true, and "failed" else.
pub record SiteBuild : Type 0 where
  pub id : ℕ
  pub property_id : ℕ
  pub site_config_id : ℕ
  pub environment : BuildEnvironment
  pub build_sha256 : ℕ
  pub output_path : ℕ
  pub passed : Bool

-- `REQUIRED_COMPLIANCE_CHECKS`, in the order of their names.
pub data ComplianceCheck : Type 0 where
  accessibility content_accuracy privacy provider_claims : ComplianceCheck
  referral_disclosure structured_data : ComplianceCheck

abbrev pub required_compliance_checks : List ComplianceCheck
required_compliance_checks =
    accessibility ∷ content_accuracy ∷ privacy ∷ provider_claims ∷ referral_disclosure
    ∷ structured_data ∷ []

-- A checklist at the required keys; other keys are only stored.
abbrev pub Checklist : Type 0
Checklist = ComplianceCheck → Option Bool

pub record ComplianceReview : Type 0 where
  pub id : ℕ
  pub property_id : ℕ
  pub site_config_id : ℕ
  pub site_build_id : ℕ
  pub status : ComplianceStatus
  pub checklist : Checklist
  pub reviewer_user_id : ℕ
  pub reviewed_at : ℕ

-- The keys of `_deployment_gates`, in the order of their names.
pub data Gate : Type 0 where
  active_provider_or_neutral_pilot analytics_verified approved_opportunity : Gate
  approved_site_config compliance_approved domain_and_dns_verified : Gate
  local_fail_closed_adapter operator_confirmation passing_build : Gate
  provider_claims_reviewed routing_healthy : Gate

abbrev pub all_gates : List Gate
all_gates =
    active_provider_or_neutral_pilot ∷ analytics_verified ∷ approved_opportunity
    ∷ approved_site_config ∷ compliance_approved ∷ domain_and_dns_verified
    ∷ local_fail_closed_adapter ∷ operator_confirmation ∷ passing_build ∷ provider_claims_reviewed
    ∷ routing_healthy ∷ []

pub record Deployment : Type 0 where
  pub id : ℕ
  pub property_id : ℕ
  pub site_build_id : ℕ
  pub domain_registration_id : Option ℕ
  pub provider_assignment_id : Option ℕ
  pub compliance_review_id : Option ℕ
  pub previous_deployment_id : Option ℕ
  pub rollback_of_deployment_id : Option ℕ
  pub environment : BuildEnvironment
  pub status : DeploymentStatus
  pub url : ℕ
  pub local_only : Bool
  pub operator_user_id : ℕ
  pub operator_confirmation : Bool
  pub neutral_pilot_mode : Bool
  pub deployed_at : ℕ
