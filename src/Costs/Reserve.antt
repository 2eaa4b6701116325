-- ===== src/Costs/Reserve.antt =====
-- `reserve_provider_call` and `mark_provider_call_submitted` of cost_controls.py. A raise leaves the
-- session uncommitted, so an error carries no new state.
use Prim.Native.String.{String}
use digital_real_estate_engi.Common.{
  ℕ, ◌+◌, Bool, true, false, not, Option, none, some, List, map, ◌||◌, ◌==◌, ltb, if◌then◌else◌,
}
use digital_real_estate_engi.Common.Table.{get, touch}
use digital_real_estate_engi.Common.Result.{Result, ok, raised, ◌>>=◌, ◌>>◌, raise_if}
use digital_real_estate_engi.Scans.Row.{ScanRow}
use digital_real_estate_engi.Scans.Lease.{
  ScanExecutionLease, LeaseCheck, current, assert_current_scan_lease,
}
use digital_real_estate_engi.Costs.State.{
  summary_endpoint, UsageClass, AttemptState, prepared, reserved, in_flight, ReservationState,
  no_reservation, held, submitted, flying, ApiCall, BucketKey, Bucket, update_both, Ledger, date_of,
}
use digital_real_estate_engi.Costs.Environment.{usage_class_of}
use digital_real_estate_engi.Costs.Breakers.{
  CostSettings, Records, Blocked, lease_lost, abnormal_cost, attempt_missing, attempt_not_eligible,
  attempt_not_reserved, assert_switches, assert_durable_breakers,
}

abbrev pub is_prepared : AttemptState → Bool
is_prepared prepared = true
is_prepared _ = false

abbrev pub is_reserved : AttemptState → Bool
is_reserved reserved = true
is_reserved _ = false

abbrev pub is_in_flight : AttemptState → Bool
is_in_flight in_flight = true
is_in_flight _ = false

abbrev pub is_free : ReservationState → Bool
is_free no_reservation = true
is_free _ = false

abbrev pub is_held : ReservationState → Bool
is_held held = true
is_held _ = false

pub record UsageReservation : Type 0 where
  pub usage_date : ℕ
  pub usage_class : UsageClass
  pub provider : ℕ
  pub endpoint : ℕ
  pub estimated_cost_usd : ℕ
  pub api_call_id : Option ℕ

abbrev pub bucket_of : UsageReservation → BucketKey
bucket_of r = record {
  usage_date = r.usage_date;
  usage_class = r.usage_class;
  provider = r.provider;
  endpoint = r.endpoint;
}

-- The keyword arguments of `reserve_provider_call`.
pub record CallRequest : Type 0 where
  pub provider : ℕ
  pub environment : String
  pub adapter_version : String
  pub endpoint : ℕ
  pub estimated_cost_usd : ℕ
  pub full_profile : Bool
  pub cache_miss : Bool
  pub require_current_qualification : Bool
  pub api_call_id : Option ℕ
  pub execution_lease : Option ScanExecutionLease

abbrev pub lease_ok : LeaseCheck → Bool
lease_ok current = true
lease_ok _ = false

unfoldable pub check_lease : List ScanRow → Option ScanExecutionLease → ℕ → Result Blocked Unit
check_lease scans none now = ok tt
check_lease scans (some lease) now =
    raise_if (not (lease_ok (assert_current_scan_lease scans lease now))) lease_lost

-- The row of the attempt, where the caller named one.
unfoldable pub eligible_call : List ApiCall → Option ℕ → Result Blocked Unit
eligible_call calls none = ok tt
eligible_call calls (some i) = elim (get (λ c. c.id) i calls) [
  | none ↦ raised attempt_missing
  | some c ↦
      raise_if (not (is_free c.reservation_state) || not (is_prepared c.attempt_state))
        attempt_not_eligible
]

unfoldable pub count_reservation : (estimated : ℕ) → (cache_miss : Bool) → Bucket → Bucket
count_reservation estimated cache_miss b = record b {
  request_count = b.request_count + 1;
  reserved_spend_usd = b.reserved_spend_usd + estimated;
  cache_miss_count = if cache_miss then b.cache_miss_count + 1 else b.cache_miss_count;
}

unfoldable pub hold_call : UsageReservation → ApiCall → ApiCall
hold_call r c = record c {
  reservation_state = held;
  reservation_usage_date = some r.usage_date;
  reservation_usage_class = some r.usage_class;
  reservation_estimated_cost_usd = r.estimated_cost_usd;
  attempt_state = reserved;
}

-- Writes to the row of an optional attempt.
abbrev pub update_call : Option ℕ → (ApiCall → ApiCall) → List ApiCall → List ApiCall
update_call none f calls = calls
update_call (some i) f calls = map (touch (λ c. c.id == i) f) calls

abbrev pub reservation_of : CallRequest → ℕ → UsageReservation
reservation_of request now = record {
  usage_date = date_of now;
  usage_class = usage_class_of request.environment;
  provider = request.provider;
  endpoint = request.endpoint;
  estimated_cost_usd = request.estimated_cost_usd;
  api_call_id = request.api_call_id;
}

-- The writes of a granted request.
abbrev pub reserved_ledger : CallRequest → ℕ → Ledger → Ledger
reserved_ledger request now ledger =
    let reservation = reservation_of request now in
    record {
      calls = update_call request.api_call_id (hold_call reservation) ledger.calls;
      buckets =
          update_both (bucket_of reservation)
            (count_reservation request.estimated_cost_usd request.cache_miss) ledger.buckets;
    }

module _ (settings : CostSettings) (records : Records) (scans : List ScanRow) where
  -- The checks, in the order of the source.
  unfoldable pub assert_allowed : CallRequest → ℕ → Ledger → Result Blocked Unit
  assert_allowed request now ledger = do
    check_lease scans request.execution_lease now
    assert_switches settings request.environment request.full_profile
    raise_if (ltb settings.single_call_abnormal_cost_usd request.estimated_cost_usd) abnormal_cost
    eligible_call ledger.calls request.api_call_id
    assert_durable_breakers settings records ledger.calls
        (ledger.buckets
          (record (bucket_of (reservation_of request now)) { endpoint = summary_endpoint }))
        request.environment request.provider request.adapter_version
        (usage_class_of request.environment) request.estimated_cost_usd
        request.require_current_qualification now

  unfoldable pub reserve_provider_call :
      CallRequest → ℕ → Ledger → Result Blocked (UsageReservation × Ledger)
  reserve_provider_call request now ledger = do
    assert_allowed request now ledger
    ok (reservation_of request now, reserved_ledger request now ledger)

unfoldable pub submit_call : ℕ → ApiCall → ApiCall
submit_call now c = record c {
  attempt_state = in_flight;
  provider_outcome = submitted;
  network_started_at = some now;
  status = flying;
}

-- The check and the writes to the row of the attempt, if the reservation names one.
unfoldable pub submit_reserved : List ApiCall → Option ℕ → ℕ → Result Blocked (List ApiCall)
unfolding submit_call
submit_reserved calls none now = ok calls
submit_reserved calls (some i) now = elim (get (λ c. c.id) i calls) [
  | none ↦ raised attempt_not_reserved
  | some c ↦ do
    raise_if (not (is_held c.reservation_state) || not (is_reserved c.attempt_state))
        attempt_not_reserved
    ok (update_call (some i) (submit_call now) calls)
]

unfoldable pub mark_provider_call_submitted :
    List ScanRow → UsageReservation → Option ScanExecutionLease → ℕ → Ledger → Result Blocked Ledger
unfolding submit_reserved
mark_provider_call_submitted scans reservation lease now ledger = do
  check_lease scans lease now
  calls ← submit_reserved ledger.calls reservation.api_call_id now
  ok (record ledger { calls = calls })
