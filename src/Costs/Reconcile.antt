-- ===== src/Costs/Reconcile.antt =====
-- `reconcile_stale_api_call_attempts` of cost_controls.py.
use digital_real_estate_engi.Common.{
  ℕ, ◌+◌, ◌-◌, Bool, true, false, Option, none, some, List, [], ◌∷◌, ◌++◌, ◌&&◌, ◌||◌, holds, ltb,
  is_some, if◌then◌else◌, filter, length,
}
use digital_real_estate_engi.Common.Text.{Text, codes}
use digital_real_estate_engi.Common.Sort.{sort_by}
use digital_real_estate_engi.Costs.State.{
  UsageClass, testing, AttemptState, prepared, reserved, in_flight, provider_outcome_unknown,
  failed_before_network, ReservationState, released, reconciled_unknown, not_sent, unknown,
  outcome_unknown, before_network, ApiCall, BucketKey, Bucket, update_both, Ledger,
}
use digital_real_estate_engi.Costs.Reserve.{is_held, is_in_flight, update_call}

-- `attempt_state in {"prepared", "reserved", "in_flight"}`
abbrev pub is_open : AttemptState → Bool
is_open prepared = true
is_open reserved = true
is_open in_flight = true
is_open _ = false

abbrev pub started_before : Option ℕ → ℕ → Bool
started_before none t = false
started_before (some s) t = ltb s t

-- The optional clause on the scan.
abbrev pub in_scan : Option ℕ → Option ℕ → Bool
in_scan none scan = true
in_scan (some i) scan = holds scan i

unfoldable pub is_stale_call : (stale_before : ℕ) → (scan_run_id : Option ℕ) → ApiCall → Bool
is_stale_call stale_before scan_run_id c =
    is_open c.attempt_state
    && (started_before c.started_at stale_before && in_scan scan_run_id c.scan_run_id)

abbrev pub class_or_testing : Option UsageClass → UsageClass
class_or_testing none = testing
class_or_testing (some class) = class

abbrev pub call_key : ℕ → ApiCall → BucketKey
call_key date c = record {
  usage_date = date;
  usage_class = class_or_testing c.reservation_usage_class;
  provider = c.provider;
  endpoint = c.endpoint;
}

unfoldable pub release_bucket : (estimated : ℕ) → (is_unknown : Bool) → Bucket → Bucket
release_bucket estimated is_unknown b = record b {
  reserved_spend_usd = b.reserved_spend_usd - estimated;
  unreconciled_spend_usd =
      if is_unknown then b.unreconciled_spend_usd + estimated else b.unreconciled_spend_usd;
}

-- `_reconcile_attempt_reservation`: the effect on the buckets, and on the row.
unfoldable pub release_reservation : ApiCall → (is_unknown : Bool) → Ledger → Ledger
release_reservation c is_unknown ledger = elim c.reservation_usage_date [
  | none ↦ ledger
  | some date ↦
      if is_held c.reservation_state
      then record ledger {
        buckets =
            update_both (call_key date c)
              (release_bucket c.reservation_estimated_cost_usd is_unknown) ledger.buckets;
      }
      else ledger
]

abbrev pub released_state : ApiCall → (is_unknown : Bool) → ReservationState
released_state c is_unknown =
    if is_held c.reservation_state && is_some c.reservation_usage_date
    then (if is_unknown then reconciled_unknown else released)
    else c.reservation_state

-- `row.network_started_at is not None or row.attempt_state == "in_flight"`
abbrev pub reached_network : ApiCall → Bool
reached_network c = is_some c.network_started_at || is_in_flight c.attempt_state

-- The two halves of a text that is one literal in the source.
abbrev pub outcome_summary : Text
outcome_summary =
    codes "Worker stopped after provider submission; outcome requires billing or "
    ++ codes "provider-side reconciliation and will not be retried automatically."

unfoldable pub close_attempt : ℕ → ApiCall → ApiCall
close_attempt now c =
    if reached_network c
    then record c {
      reservation_state = released_state c true;
      status = outcome_unknown;
      attempt_state = provider_outcome_unknown;
      provider_outcome = unknown;
      error_type = some "StaleProviderAttempt";
      error_summary = some outcome_summary;
      completed_at = some now;
      reconciled_at = some now;
    }
    else record c {
      reservation_state = released_state c false;
      status = before_network;
      attempt_state = failed_before_network;
      provider_outcome = not_sent;
      error_type = some "StaleProviderAttempt";
      error_summary =
          some (codes "Worker stopped before provider submission; reservation released.");
      completed_at = some now;
      reconciled_at = some now;
    }

-- One round of the loop, on a selected row.
unfoldable pub reconcile_one : ℕ → ApiCall → Ledger → Ledger
reconcile_one now c ledger =
    let released_ledger = release_reservation c (reached_network c) ledger in
    record released_ledger { calls = update_call (some c.id) (close_attempt now) ledger.calls }

unfoldable pub reconcile_all : ℕ → List ApiCall → Ledger → Ledger
reconcile_all now [] ledger = ledger
reconcile_all now (c ∷ calls) ledger = reconcile_all now calls (reconcile_one now c ledger)

-- The rows that the select locks, in the order of their ids; no other session holds a lock.
abbrev pub stale_calls : (stale_before : ℕ) → Option ℕ → Ledger → List ApiCall
stale_calls stale_before scan_run_id ledger =
    sort_by (λ c. c.id) (filter (is_stale_call stale_before scan_run_id) ledger.calls)

unfoldable pub reconcile_stale_api_call_attempts :
    (stale_before : ℕ) → Option ℕ → ℕ → Ledger → Ledger × ℕ
reconcile_stale_api_call_attempts stale_before scan_run_id now ledger =
    let rows = stale_calls stale_before scan_run_id ledger in
    (reconcile_all now rows ledger, length rows)
