-- ===== src/Costs/Finish.antt =====
-- `finish_provider_call` and `record_unexpected_call` of cost_controls.py.
use Prim.Native.String.{String}
use digital_real_estate_engi.Common.{
  ℕ, ◌+◌, ◌-◌, Bool, true, false, Option, none, some, List, if◌then◌else◌,
}
use digital_real_estate_engi.Common.Int.{ℤ, pos_part}
use digital_real_estate_engi.Common.Table.{get}
use digital_real_estate_engi.Costs.State.{
  ReservationState, finalized, released, reconciled_unknown, AttemptState, unknown, outcome_unknown,
  ApiCall, BucketKey, Bucket, update_both, Ledger, date_of,
}
use digital_real_estate_engi.Costs.Environment.{usage_class_of}
use digital_real_estate_engi.Costs.Reserve.{UsageReservation, bucket_of, update_call}

-- `reservation_state in {"finalized", "released", "reconciled_unknown"}`
abbrev pub is_settled : ReservationState → Bool
is_settled finalized = true
is_settled released = true
is_settled reconciled_unknown = true
is_settled _ = false

-- The keyword arguments of `finish_provider_call`.
pub record CallOutcome : Type 0 where
  pub actual_cost_usd : ℤ
  pub failed : Bool
  pub schema_drift : Bool
  pub abnormal_cost : Bool
  pub provider_outcome_unknown : Bool

abbrev pub bump_if : Bool → ℕ → ℕ
bump_if true n = n + 1
bump_if false n = n

unfoldable pub settle_bucket : (estimated : ℕ) → CallOutcome → Bucket → Bucket
settle_bucket estimated outcome b = record b {
  reserved_spend_usd = b.reserved_spend_usd - estimated;
  unreconciled_spend_usd =
      if outcome.provider_outcome_unknown
      then b.unreconciled_spend_usd + estimated
      else b.unreconciled_spend_usd;
  spend_usd =
      if outcome.provider_outcome_unknown
      then b.spend_usd
      else b.spend_usd + pos_part outcome.actual_cost_usd;
  provider_failure_count = bump_if outcome.failed b.provider_failure_count;
  schema_drift_count = bump_if outcome.schema_drift b.schema_drift_count;
  abnormal_cost_count = bump_if outcome.abnormal_cost b.abnormal_cost_count;
}

unfoldable pub settle_call : (unknown_outcome : Bool) → (now : ℕ) → ApiCall → ApiCall
settle_call true now c = record c {
  reservation_state = reconciled_unknown;
  reconciled_at = some now;
  attempt_state = AttemptState.provider_outcome_unknown;
  provider_outcome = unknown;
  status = outcome_unknown;
}
settle_call false now c = record c { reservation_state = finalized; reconciled_at = some now }

-- `session.get(ApiCallORM, reservation.api_call_id)`, none for a reservation with no attempt.
abbrev pub call_of : List ApiCall → Option ℕ → Option ApiCall
call_of calls none = none
call_of calls (some i) = get (λ c. c.id) i calls

abbrev pub already_settled : Option ApiCall → Bool
already_settled none = false
already_settled (some c) = is_settled c.reservation_state

unfoldable pub finish_provider_call : UsageReservation → CallOutcome → ℕ → Ledger → Ledger
finish_provider_call reservation outcome now ledger =
    if already_settled (call_of ledger.calls reservation.api_call_id) then ledger else record {
      calls =
          update_call reservation.api_call_id (settle_call outcome.provider_outcome_unknown now)
            ledger.calls;
      buckets =
          update_both (bucket_of reservation) (settle_bucket reservation.estimated_cost_usd outcome)
            ledger.buckets;
    }

unfoldable pub count_unexpected : Bucket → Bucket
count_unexpected b = record b { unexpected_call_count = b.unexpected_call_count + 1 }

-- `record_unexpected_call`
unfoldable pub record_unexpected_call :
    (provider : ℕ) → (environment : String) → (endpoint : ℕ) → (now : ℕ) → Ledger → Ledger
unfolding count_unexpected
record_unexpected_call provider environment endpoint now ledger =
    let key : BucketKey = record {
      usage_date = date_of now;
      usage_class = usage_class_of environment;
      provider = provider;
      endpoint = endpoint;
    } in
    record ledger { buckets = update_both key count_unexpected ledger.buckets }
