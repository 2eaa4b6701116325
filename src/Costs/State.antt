-- ===== src/Costs/State.antt =====
-- The tables `api_calls` and `provider_daily_usage`. Provider and endpoint names are only compared,
-- so they are natural numbers, `summary_endpoint` standing for the empty name. Money is counted in
-- millionths of a dollar: the floating point rounding of the source is not modelled, and its
-- `max(0.0, a - b)` is the truncated difference. Days are numbers of days.
use Prim.Native.String.{String}
use digital_real_estate_engi.Common.{
  ℕ, Bool, true, false, Option, List, ◌&&◌, ◌==◌, if◌then◌else◌, ◌/◌, ◌*◌,
}
use digital_real_estate_engi.Common.Text.{Text}

abbrev pub summary_endpoint : ℕ
summary_endpoint = 0

pub data UsageClass : Type 0 where
  production testing : UsageClass

abbrev pub class_eq : UsageClass → UsageClass → Bool
class_eq production production = true
class_eq testing testing = true
class_eq _ _ = false

pub data AttemptState : Type 0 where
  prepared reserved in_flight provider_outcome_unknown failed_before_network reconciled :
      AttemptState
  completed cache_hit blocked failed : AttemptState

pub data ReservationState : Type 0 where
  no_reservation held finalized released reconciled_unknown : ReservationState

pub data ProviderOutcome : Type 0 where
  not_sent submitted unknown billed not_billed outcome_completed outcome_failed : ProviderOutcome

pub data CallStatus : Type 0 where
  planned flying outcome_unknown before_network done confirmed_not_billed : CallStatus
  call_prepared call_failed call_blocked call_cached : CallStatus

pub record ApiCall : Type 0 where
  pub id : ℕ
  pub scan_run_id : Option ℕ
  pub provider : ℕ
  pub endpoint : ℕ
  pub actual_cost_usd : ℕ
  pub status : CallStatus
  pub error_type : Option String
  pub error_summary : Option Text
  pub started_at : Option ℕ
  pub completed_at : Option ℕ
  pub attempt_state : AttemptState
  pub provider_outcome : ProviderOutcome
  pub reservation_state : ReservationState
  pub reservation_usage_date : Option ℕ
  pub reservation_usage_class : Option UsageClass
  pub reservation_estimated_cost_usd : ℕ
  pub network_started_at : Option ℕ
  pub reconciled_at : Option ℕ

-- The unique key of a usage bucket.
pub record BucketKey : Type 0 where
  pub usage_date : ℕ
  pub usage_class : UsageClass
  pub provider : ℕ
  pub endpoint : ℕ

abbrev pub key_eq : BucketKey → BucketKey → Bool
key_eq a b =
    a.usage_date == b.usage_date
    && (class_eq a.usage_class b.usage_class
        && (a.provider == b.provider && a.endpoint == b.endpoint))

pub record Bucket : Type 0 where
  pub request_count : ℕ
  pub spend_usd : ℕ
  pub reserved_spend_usd : ℕ
  pub unreconciled_spend_usd : ℕ
  pub cache_miss_count : ℕ
  pub unexpected_call_count : ℕ
  pub abnormal_cost_count : ℕ
  pub provider_failure_count : ℕ
  pub schema_drift_count : ℕ

-- A row that `_locked_bucket` inserts holds zeros, so a missing row and a fresh one read alike: the
-- table is a total function.
abbrev pub Buckets : Type 0
Buckets = BucketKey → Bucket

-- `_locked_bucket` followed by writes to the row that it returns.
abbrev pub update_bucket : BucketKey → (Bucket → Bucket) → Buckets → Buckets
update_bucket k f buckets j = if key_eq k j then f (buckets j) else buckets j

-- The loop `for endpoint in ("", endpoint)`.
abbrev pub update_both : BucketKey → (Bucket → Bucket) → Buckets → Buckets
update_both k f buckets =
    update_bucket k f (update_bucket (record k { endpoint = summary_endpoint }) f buckets)

pub record Ledger : Type 0 where
  pub calls : List ApiCall
  pub buckets : Buckets

abbrev pub day_length : ℕ
day_length = 86400 * 1000000

-- `called_at.date()`
abbrev pub date_of : ℕ → ℕ
date_of now = now / day_length
