-- ===== src/Deliveries/Row.antt =====
-- The row of `provider_deliveries` and what the worker writes to it. Ids, tokens, names of adapters
-- and messages are only compared, so they are natural numbers; an error summary is fixed by its
-- error code and left out.
use digital_real_estate_engi.Common.{
  ℕ, ◌+◌, ◌-◌, ◌*◌, ◌^◌, min, Bool, true, false, Option, none, some, ◌&&◌, ◌||◌, holds, leb, ltb,
  null_or_le, if◌then◌else◌,
}
use digital_real_estate_engi.Common.Text.{Text}

pub data DeliveryStatus : Type 0 where
  pending leased delivering retrying delivered failed cancelled outcome_unknown : DeliveryStatus

-- `CLAIMABLE_DELIVERY_STATUSES`
abbrev pub is_claimable : DeliveryStatus → Bool
is_claimable pending = true
is_claimable retrying = true
is_claimable _ = false

-- `ACTIVE_DELIVERY_STATUSES`
abbrev pub is_active : DeliveryStatus → Bool
is_active leased = true
is_active delivering = true
is_active _ = false

-- `NONTERMINAL_DELIVERY_STATUSES`
abbrev pub is_nonterminal : DeliveryStatus → Bool
is_nonterminal s = is_claimable s || is_active s

abbrev pub is_delivering : DeliveryStatus → Bool
is_delivering delivering = true
is_delivering _ = false

abbrev pub is_delivered : DeliveryStatus → Bool
is_delivered delivered = true
is_delivered _ = false

abbrev pub is_failed : DeliveryStatus → Bool
is_failed failed = true
is_failed _ = false

pub data ErrorCode : Type 0 where
  lead_not_found provider_assignment_not_found provider_assignment_not_active : ErrorCode
  lead_assignment_mismatch delivery_adapter_unavailable : ErrorCode
  assignment_destination_unavailable assignment_destination_changed : ErrorCode
  worker_lost_during_provider_call worker_lost_before_provider_call : ErrorCode
  adapter_failure provider_rejected_delivery retryable_adapter_failure : ErrorCode
  delivery_attempts_exhausted : ErrorCode

pub data DeliveryChannel : Type 0 where
  email phone : DeliveryChannel

pub record Delivery : Type 0 where
  pub id : ℕ
  pub lead_id : ℕ
  pub provider_assignment_id : ℕ
  pub delivery_key : ℕ
  pub channel : DeliveryChannel
  pub destination_reference : Text
  pub adapter_name : ℕ
  pub provider_message_id : Option ℕ
  pub status : DeliveryStatus
  pub attempt_count : ℕ
  pub max_attempts : ℕ
  pub next_attempt_at : Option ℕ
  pub worker_id : Option ℕ
  pub lease_token : Option ℕ
  pub claimed_at : Option ℕ
  pub heartbeat_at : Option ℕ
  pub lease_expires_at : Option ℕ
  pub last_error_code : Option ErrorCode
  pub delivered_at : Option ℕ
  pub completed_at : Option ℕ

pub record DeliveryLease : Type 0 where
  pub delivery_id : ℕ
  pub worker_id : ℕ
  pub lease_token : ℕ

-- `_owns`
unfoldable pub owns : Delivery → DeliveryLease → Bool
owns delivery lease =
    is_active delivery.status
    && (holds delivery.worker_id lease.worker_id && holds delivery.lease_token lease.lease_token)

-- `_clear_lease`
unfoldable pub clear_lease : Delivery → Delivery
clear_lease delivery = record delivery {
  worker_id = none;
  lease_token = none;
  claimed_at = none;
  heartbeat_at = none;
  lease_expires_at = none;
}

-- The clauses of the claim, and the values that it writes.
unfoldable pub is_due : ℕ → Delivery → Bool
is_due now delivery = is_claimable delivery.status && null_or_le delivery.next_attempt_at now

unfoldable pub claimed : (worker_id token lease_time now : ℕ) → Delivery → Delivery
claimed worker_id token lease_time now delivery = record delivery {
  status = leased;
  worker_id = some worker_id;
  lease_token = some token;
  claimed_at = some now;
  heartbeat_at = some now;
  lease_expires_at = some (now + lease_time);
  next_attempt_at = none;
}

abbrev pub null_or_before : Option ℕ → ℕ → Bool
null_or_before none t = true
null_or_before (some s) t = ltb s t

unfoldable pub is_stale : (cutoff now : ℕ) → Delivery → Bool
is_stale cutoff now delivery =
    is_active delivery.status
    && (null_or_before delivery.lease_expires_at now || null_or_before delivery.heartbeat_at cutoff)

-- The row of a stale delivery: its provider may have been contacted, or was not.
unfoldable pub recovered : ℕ → Delivery → Delivery
unfolding clear_lease
recovered now delivery = clear_lease (
    if is_delivering delivery.status
    then record delivery {
      status = outcome_unknown;
      last_error_code = some worker_lost_during_provider_call;
      completed_at = some now;
    }
    else record delivery {
      status = retrying;
      next_attempt_at = some now;
      last_error_code = some worker_lost_before_provider_call;
    })

-- The values of a heartbeat.
unfoldable pub beaten : (lease_time now : ℕ) → Delivery → Delivery
beaten lease_time now delivery = record delivery {
  heartbeat_at = some now;
  lease_expires_at = some (now + lease_time);
}

-- The writes before the adapter is called.
unfoldable pub begun : Delivery → Delivery
begun delivery = record delivery { attempt_count = delivery.attempt_count + 1; status = delivering }

-- `_fail_delivery`, on the row.
unfoldable pub failed_with : ErrorCode → ℕ → Delivery → Delivery
unfolding clear_lease
failed_with code at delivery =
    clear_lease
      (record delivery { status = failed; last_error_code = some code; completed_at = some at })

-- `min(retry_max_seconds, retry_base_seconds * 2 ** max(0, attempt_count - 1))`
unfoldable pub retry_wait : (attempt_count base maximum : ℕ) → ℕ
retry_wait attempt_count base maximum = min maximum (base * 2 ^ (attempt_count - 1))

-- `_retry_or_fail`, on the row.
unfoldable pub retried_or_failed : (base maximum at : ℕ) → Delivery → Delivery
unfolding clear_lease failed_with
retried_or_failed base maximum at delivery =
    if leb delivery.max_attempts delivery.attempt_count
    then failed_with delivery_attempts_exhausted at delivery
    else clear_lease (record delivery {
      last_error_code = some retryable_adapter_failure;
      status = retrying;
      next_attempt_at = some (at + retry_wait delivery.attempt_count base maximum);
    })

unfoldable pub accepted : (message at : ℕ) → Delivery → Delivery
unfolding clear_lease
accepted message at delivery = clear_lease (record delivery {
  provider_message_id = some message;
  status = delivered;
  delivered_at = some at;
  completed_at = some at;
  last_error_code = none;
})

-- What the adapter's call came to: an exception that is a `RetryableDeliveryError`, any other
-- exception, or a `DeliveryResult`.
pub data AdapterOutcome : Type 0 where
  raised_retryable raised_other : AdapterOutcome
  returned : (is_accepted is_retryable : Bool) → (provider_message_id : ℕ) → AdapterOutcome

-- The row after the adapter's call, by its outcome.
unfoldable pub settled : (base maximum at : ℕ) → AdapterOutcome → Delivery → Delivery
settled base maximum at raised_retryable delivery = retried_or_failed base maximum at delivery
settled base maximum at raised_other delivery = failed_with adapter_failure at delivery
settled base maximum at (returned true retryable message) delivery = accepted message at delivery
settled base maximum at (returned false true message) delivery =
    retried_or_failed base maximum at delivery
settled base maximum at (returned false false message) delivery =
    failed_with provider_rejected_delivery at delivery
