-- ===== src/Properties/Errors.antt =====
-- The refusals of `PropertyWorkflowService`, and the guards `_human`, `_reviewer` and `_operator`.
use digital_real_estate_engi.Common.{ℕ, Bool, true, false, not, Option, none, some, List}
use mathlib.Core.Path.{◌≡◌, ap}
use digital_real_estate_engi.Common.Result.{Result, ok, raised, raise_if, ok_inj}
use digital_real_estate_engi.Reviews.State.{
  ReviewError, ReviewRole, operator, reviewer, admin, system, ReviewActor,
}
use digital_real_estate_engi.Assignments.{AssignmentError}
use digital_real_estate_engi.Properties.State.{DnsRecords, ComplianceCheck, Gate}

-- The codes of `PropertyWorkflowError`, with their details, and the exceptions that pass through.
pub data PropertyError : Type 0 where
  human_operator_required reviewer_role_required operator_role_required : PropertyError
  review_refused : ReviewError → PropertyError
  assignment_refused : AssignmentError → PropertyError
  validation_error integrity_error : PropertyError
  opportunity_already_has_property : ℕ → PropertyError
  property_identifier_conflict property_not_found domain_candidate_not_found : PropertyError
  domain_registration_not_found provider_assignment_not_found site_config_not_found : PropertyError
  site_build_not_found routing_profile_not_found : PropertyError
  domain_must_be_shortlisted domain_must_have_available_evidence : PropertyError
  explicit_domain_purchase_approval_required automatic_domain_purchase_is_disabled : PropertyError
  domain_purchase_was_not_approved dns_verification_requires_manual_registration : PropertyError
  expected_dns_records_required : PropertyError
  dns_records_do_not_match : DnsRecords → PropertyError
  asset_not_found provider_candidate_not_found : PropertyError
  provider_asset_must_be_approved site_config_requires_approved_assets : ℕ → PropertyError
  provider_details_require_reviewed_assignment provider_claims_require_review : PropertyError
  active_provider_assignment_not_found replacement_claims_require_review : PropertyError
  production_build_requires_approved_config production_build_requires_verified_domain :
      PropertyError
  compliance_checklist_incomplete : (missing failed : List ComplianceCheck) → PropertyError
  failed_build_cannot_pass_compliance : PropertyError
  deployment_environment_build_mismatch public_deployment_adapter_not_approved : PropertyError
  production_deployment_gates_failed : List Gate → PropertyError
  deployment_failed rollback_operator_confirmation_required rollback_target_not_found :
      PropertyError
  rollback_target_must_be_production rollback_requires_different_active_deployment : PropertyError

-- `_human`
unfoldable pub assert_human : ReviewActor → Result PropertyError Unit
assert_human actor = elim actor.role [ system ↦ raised human_operator_required | _ ↦ ok tt ]

abbrev pub may_review : ReviewRole → Bool
may_review reviewer = true
may_review admin = true
may_review _ = false

abbrev pub may_operate : ReviewRole → Bool
may_operate operator = true
may_operate admin = true
may_operate _ = false

-- `_reviewer`
unfoldable pub assert_reviewer : ReviewActor → Result PropertyError Unit
assert_reviewer actor = raise_if (not (may_review actor.role)) reviewer_role_required

-- `_operator`
unfoldable pub assert_operator : ReviewActor → Result PropertyError Unit
assert_operator actor = raise_if (not (may_operate actor.role)) operator_role_required

-- A row by its primary key, or the error of `_property`, `_candidate`, `_registration`, `_config`, ...
abbrev pub or_raise : {A : Type 0} → PropertyError → Option A → Result PropertyError A
or_raise error none = raised error
or_raise error (some row) = ok row

pub or_raise-eq-ok :
    {A : Type 0} (error : PropertyError) (o : Option A) {a : A}
    → or_raise error o ≡ ok a
    → o ≡ some a
or_raise-eq-ok error none h = cc
or_raise-eq-ok error (some b) h = ap some (ok_inj h)
