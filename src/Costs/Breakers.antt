-- ===== src/Costs/Breakers.antt =====
-- The checks that come before a reservation: `_assert_switches` and `_assert_durable_breakers` of
-- cost_controls.py. Rates are counted in millionths.
use Prim.Native.String.{String}
use text.Mathlib.Text.{◌==◌ as str_eq}
use digital_real_estate_engi.Common.{
  ℕ, ◌+◌, ◌-◌, ◌*◌, max, Bool, true, false, not, Option, none, some, List, [], ◌∷◌, ◌&&◌, ◌||◌,
  ◌==◌, ltb, leb, if◌then◌else◌, filter,
}
use digital_real_estate_engi.Common.Result.{Result, ok, raised, ◌>>◌, raise_if}
use digital_real_estate_engi.Costs.State.{
  UsageClass, production, testing, CallStatus, done, ApiCall, Bucket,
}
use digital_real_estate_engi.Costs.Environment.{is_production}
use digital_real_estate_engi.Costs.Qualification.{Qualification, current_qualification, hour}

pub record CostSettings : Type 0 where
  pub allow_live_api_calls : Bool
  pub paid_call_kill_switch : Bool
  pub allow_production_dataforseo : Bool
  pub allow_full_scans : Bool
  pub single_call_abnormal_cost_usd : ℕ
  pub production_daily_request_limit : ℕ
  pub production_daily_spend_usd : ℕ
  pub testing_daily_spend_usd : ℕ
  pub unexpected_call_breaker_threshold : ℕ
  pub circuit_breaker_minimum_requests : ℕ
  pub provider_failure_rate_threshold : ℕ
  pub schema_drift_rate_threshold : ℕ
  pub billing_reconciliation_max_age_hours : ℕ

pub record Reconciliation : Type 0 where
  pub provider : ℕ
  pub environment : String
  pub reconciled_at : ℕ
  pub is_clean : Bool

-- The reasons of `CircuitOpenError`, and the loss of the lease.
pub data Blocked : Type 0 where
  lease_lost : Blocked
  live_calls_disabled kill_switch_active production_disabled full_scans_disabled : Blocked
  abnormal_cost : Blocked
  attempt_missing attempt_not_eligible attempt_not_reserved : Blocked
  request_limit_reached production_spend_reached testing_spend_reached : Blocked
  unexpected_calls failure_rate_exceeded drift_rate_exceeded : Blocked
  not_qualified not_reconciled : Blocked

unfoldable pub assert_switches :
    CostSettings → (environment : String) → (full : Bool) → Result Blocked Unit
assert_switches settings environment full = do
  raise_if (not settings.allow_live_api_calls) live_calls_disabled
  raise_if settings.paid_call_kill_switch kill_switch_active
  raise_if (is_production environment && not settings.allow_production_dataforseo)
      production_disabled
  raise_if (full && not settings.allow_full_scans) full_scans_disabled

-- `count / max(1, requests) > threshold`
abbrev pub exceeds_rate : (count requests threshold : ℕ) → Bool
exceeds_rate count requests threshold = ltb (threshold * max 1 requests) (count * 1000000)

abbrev pub projected_spend : Bucket → ℕ → ℕ
projected_spend summary estimated =
    summary.spend_usd + summary.reserved_spend_usd + summary.unreconciled_spend_usd + estimated

unfoldable pub assert_spend :
    CostSettings → UsageClass → Bucket → (estimated : ℕ) → Result Blocked Unit
assert_spend settings production summary estimated = do
  raise_if (leb settings.production_daily_request_limit summary.request_count) request_limit_reached
  raise_if (ltb settings.production_daily_spend_usd (projected_spend summary estimated))
      production_spend_reached
assert_spend settings testing summary estimated =
    raise_if (ltb settings.testing_daily_spend_usd (projected_spend summary estimated))
      testing_spend_reached

unfoldable pub assert_rates : CostSettings → Bucket → Result Blocked Unit
assert_rates settings summary = do
  raise_if (leb settings.unexpected_call_breaker_threshold summary.unexpected_call_count)
      unexpected_calls
  let busy = leb settings.circuit_breaker_minimum_requests summary.request_count
  raise_if
      (busy
        && exceeds_rate summary.provider_failure_count summary.request_count
            settings.provider_failure_rate_threshold)
      failure_rate_exceeded
  raise_if
      (busy
        && exceeds_rate summary.schema_drift_count summary.request_count
            settings.schema_drift_rate_threshold)
      drift_rate_exceeded

-- `order_by(reconciled_at.desc()).limit(1)`
pub latest_reconciliation : List Reconciliation → Option Reconciliation
latest_reconciliation [] = none
latest_reconciliation (q ∷ qs) = elim (latest_reconciliation qs) [
  | none ↦ some q
  | some r ↦ if ltb q.reconciled_at r.reconciled_at then some r else some q
]

abbrev is_done : CallStatus → Bool
is_done done = true
is_done _ = false

-- `func.min(completed_at)` over the paid calls of the provider.
min_moment : Option ℕ → Option ℕ → Option ℕ
min_moment none o = o
min_moment (some a) none = some a
min_moment (some a) (some b) = if leb a b then some a else some b

pub oldest_paid_call : ℕ → List ApiCall → Option ℕ
unfolding min_moment
oldest_paid_call provider [] = none
oldest_paid_call provider (c ∷ calls) =
    min_moment
      (if c.provider == provider && (is_done c.status && ltb 0 c.actual_cost_usd)
        then c.completed_at
        else none)
      (oldest_paid_call provider calls)

-- The last check: the newest reconciliation is clean and recent, or there is none and no paid call
-- is older than the cutoff.
assert_billing : Option Reconciliation → Option ℕ → (cutoff : ℕ) → Result Blocked Unit
assert_billing (some r) oldest cutoff =
    raise_if (not r.is_clean || ltb r.reconciled_at cutoff) not_reconciled
assert_billing none (some oldest) cutoff = raise_if (ltb oldest cutoff) not_reconciled
assert_billing none none cutoff = ok tt

-- The qualification is looked up only if it is required.
assert_qualified : (required : Bool) → Option Qualification → Result Blocked Unit
assert_qualified false _ = ok tt
assert_qualified true none = raised not_qualified
assert_qualified true (some q) = ok tt

-- What the breakers read besides the usage bucket.
pub record Records : Type 0 where
  pub qualifications : List Qualification
  pub reconciliations : List Reconciliation

unfoldable pub assert_production :
    CostSettings
    → Records
    → List ApiCall
    → (provider : ℕ) → (environment adapter_version : String)
    → (require_current_qualification : Bool) → (now : ℕ) → Result Blocked Unit
unfolding assert_qualified assert_billing latest_reconciliation oldest_paid_call
assert_production settings records calls provider environment adapter_version required now = do
  assert_qualified required
      (current_qualification provider environment adapter_version now records.qualifications)
  assert_billing
      (latest_reconciliation (
        filter (λ r. r.provider == provider && str_eq r.environment environment)
          records.reconciliations))
      (oldest_paid_call provider calls) (now - settings.billing_reconciliation_max_age_hours * hour)

abbrev pub is_production_class : UsageClass → Bool
is_production_class production = true
is_production_class testing = false

-- `_assert_durable_breakers`
unfoldable pub assert_durable_breakers :
    CostSettings
    → Records
    → List ApiCall
    → (summary : Bucket) → (environment : String) → (provider : ℕ) → (adapter_version : String)
    → UsageClass
    → (estimated : ℕ) → (require_current_qualification : Bool) → (now : ℕ) → Result Blocked Unit
unfolding assert_spend assert_rates assert_production
assert_durable_breakers settings records calls summary environment provider adapter_version class
      estimated required now =
    do
      assert_spend settings class summary estimated
      assert_rates settings summary
      let production_checks =
          assert_production settings records calls provider environment adapter_version required now
      (if not (is_production environment) || not (is_production_class class)
          then ok tt
          else production_checks)
