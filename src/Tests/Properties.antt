-- ===== src/Tests/Properties.antt =====
-- The rows of property 7, which is in production.
mod Activation
mod Release
use digital_real_estate_engi.Common.{true, false, none, some, [], ◌∷◌}
use digital_real_estate_engi.Common.Text.{codes}
use digital_real_estate_engi.Reviews.State.{Reviews, ReviewActor, operator}
use digital_real_estate_engi.Assignments.{Routes}
use digital_real_estate_engi.Properties.State.{
  PropertyStatus, dns_verified, SiteConfigStatus, BuildEnvironment, deployed, ComplianceStatus,
  Property, SiteConfig, SiteBuild, ComplianceReview, Deployment,
}
use digital_real_estate_engi.Properties.Catalog.{Catalog}
use digital_real_estate_engi.Properties.Domains.{Domains}
use digital_real_estate_engi.Properties.Sites.{Sites}
use digital_real_estate_engi.Properties.Gates.{DeploymentRequest}
use digital_real_estate_engi.Properties.Deploy.{DeploymentAdapter, Destinations}

abbrev pub manager : ReviewActor
manager = record { actor_id = 3; role = operator }

abbrev pub reviews : Reviews
reviews = record {
  opportunities =
      record {
        id = 4;
        status = "approved_for_property";
        approved_at = some 10;
        owner_user_id = some 1;
        review_version = 5;
      }
      ∷ [];
  history = [];
}

abbrev pub routes : Routes
routes = record {
  profiles =
      record {
        property_id = 7;
        opportunity_id = 4;
        public_tracking_number = some 555;
        public_contact_email = none;
        recording_approved = false;
        recording_retention_days = none;
        routing_health_status = some "healthy";
      }
      ∷ [];
  assignments = [];
}

abbrev pub site : Property
site = record {
  id = 7;
  opportunity_id = 4;
  neutral_brand = 60;
  domain = some 900;
  public_tracking_number = some 555;
  public_contact_email = none;
  status = PropertyStatus.production;
  active_site_config_version = some 1;
  analytics_verified = true;
  current_version = 1;
}

abbrev config : SiteConfig
config = record {
  id = 11;
  property_id = 7;
  version = 1;
  status = SiteConfigStatus.approved;
  config_payload = record { asset_ids = []; provider_details = none; content = 70 };
  created_by = 3;
  approved_by = some 2;
  approved_at = some 20;
}

abbrev pub catalog : Catalog
catalog = record {
  properties = site ∷ [];
  versions = record { property_id = 7; version = 1; snapshot = site; changed_by = 3 } ∷ [];
  configs = config ∷ [];
}

abbrev pub domains : Domains
domains = record {
  candidates = [];
  registrations =
      record {
        id = 5;
        property_id = 7;
        domain_candidate_id = 6;
        domain = 900;
        registrar_name = 80;
        status = dns_verified;
        purchase_approved = true;
        purchase_approved_by = 3;
        purchase_approved_at = 12;
        external_reference = some 81;
        registered_at = some 13;
        expected_dns_records = (1, 2) ∷ [];
        observed_dns_records = (1, 2) ∷ [];
        dns_evidence_reference = some 82;
        dns_verified_at = some 14;
        dns_verified_by = some 3;
      }
      ∷ [];
}

abbrev pub build : SiteBuild
build = record {
  id = 21;
  property_id = 7;
  site_config_id = 11;
  environment = BuildEnvironment.production;
  build_sha256 = 99;
  output_path = 98;
  passed = true;
}

abbrev pub review : ComplianceReview
review = record {
  id = 31;
  property_id = 7;
  site_config_id = 11;
  site_build_id = 21;
  status = ComplianceStatus.approved;
  checklist = λ _. some true;
  reviewer_user_id = 2;
  reviewed_at = 30;
}

abbrev pub first_deployment : Deployment
first_deployment = record {
  id = 41;
  property_id = 7;
  site_build_id = 21;
  domain_registration_id = some 5;
  provider_assignment_id = none;
  compliance_review_id = some 31;
  previous_deployment_id = none;
  rollback_of_deployment_id = none;
  environment = BuildEnvironment.production;
  status = deployed;
  url = 97;
  local_only = true;
  operator_user_id = 3;
  operator_confirmation = true;
  neutral_pilot_mode = true;
  deployed_at = 40;
}

abbrev pub sites : Sites
sites = record {
  builds = build ∷ [];
  compliance = review ∷ [];
  deployments = first_deployment ∷ [];
  files = [];
}

abbrev pub request : DeploymentRequest
request = record {
  environment = BuildEnvironment.production;
  operator_confirmation = true;
  confirmation_reason = codes "release";
  neutral_pilot_mode = true;
  neutral_pilot_reason = codes "no provider yet";
}

abbrev pub local_adapter : DeploymentAdapter
local_adapter = record {
  public_capable = false;
  deploy = λ source destination. some (record { url = destination; local_only = true });
}

abbrev pub destinations : Destinations
destinations property_id environment checksum = checksum
