-- ===== src/Deliveries/Run.antt =====
-- The operations of the delivery worker on the tables: `claim_next_delivery`,
-- `recover_stale_deliveries`, the two transactions of `run_delivery_by_id` around the adapter's call,
-- and one round of `_heartbeat_delivery`.
use digital_real_estate_engi.Common.{
  ℕ, ◌+◌, ◌-◌, Bool, true, false, not, Option, none, some, List, [], ◌∷◌, map, ◌&&◌, ◌==◌, holds,
  if◌then◌else◌, filter, any, take, length, ltb,
}
use digital_real_estate_engi.Common.Text.{Text, same_text}
use digital_real_estate_engi.Common.Result.{Result, ok, raised, ◌>>=◌, ◌>>◌, raise_if}
use digital_real_estate_engi.Deliveries.Mask.{masked_destination}
use digital_real_estate_engi.Common.Table.{get, touch, update_where}
use digital_real_estate_engi.Common.Sort.{sort_by}
use digital_real_estate_engi.Deliveries.Row.{
  ErrorCode, lead_not_found, provider_assignment_not_found, provider_assignment_not_active,
  lead_assignment_mismatch, delivery_adapter_unavailable, assignment_destination_unavailable,
  assignment_destination_changed, worker_lost_during_provider_call, adapter_failure,
  provider_rejected_delivery, retryable_adapter_failure, DeliveryChannel, email, phone, Delivery,
  DeliveryLease, owns, is_delivering, is_due, claimed, is_stale, recovered, begun, failed_with,
  settled, AdapterOutcome, beaten, is_failed, raised_retryable, raised_other, returned,
}
use digital_real_estate_engi.Deliveries.Store.{
  Lead, Assignment, is_active_assignment, AttemptStatus, running, succeeded, rejected,
  retryable_failure, permanent_failure, outcome_unknown, is_running, Attempt, Store,
  refresh_lead_state,
}

-- The due deliveries in the order of the select: by the time of their next attempt, then by id. Where
-- a null comes in that order is up to the database, so its rank among the times is a parameter.
abbrev pub moment_or : (null_rank : ℕ) → Option ℕ → ℕ
moment_or null_rank none = null_rank
moment_or null_rank (some t) = t

abbrev pub due_ids : (null_rank now : ℕ) → List Delivery → List ℕ
due_ids null_rank now rows =
    map (λ d. d.id)
      (take 10 (
        sort_by (λ d. moment_or null_rank d.next_attempt_at)
          (sort_by (λ d. d.id) (filter (is_due now) rows))))

-- The loop of the claim; `token` draws a lease token for each delivery.
unfoldable pub claim_from :
    (worker_id : ℕ)
    → (token : ℕ → ℕ) → (lease_time now : ℕ) → List ℕ
    → List Delivery
    → List Delivery × Option DeliveryLease
claim_from worker_id token lease_time now [] rows = (rows, none)
claim_from worker_id token lease_time now (i ∷ ids) rows =
    let (rows', count) =
      update_where (λ d. d.id == i && is_due now d) (claimed worker_id (token i) lease_time now)
        rows in
    let rest = claim_from worker_id token lease_time now ids rows in
    if count == 0
    then rest
    else (rows', some (record { delivery_id = i; worker_id = worker_id; lease_token = token i }))

unfoldable pub claim_next_delivery :
    (null_rank worker_id : ℕ)
    → (token : ℕ → ℕ) → (lease_time now : ℕ) → Store
    → Store × Option DeliveryLease
claim_next_delivery null_rank worker_id token lease_time now store =
    let (rows, lease) =
      claim_from worker_id token lease_time now (due_ids null_rank now store.deliveries)
        store.deliveries in
    (record store { deliveries = rows }, lease)

abbrev pub write : ℕ → (Delivery → Delivery) → Store → Store
write i f store = record store { deliveries = map (touch (λ d. d.id == i) f) store.deliveries }

-- The running attempt of the highest number, as an update of the rows.
abbrev pub is_running_of : ℕ → Attempt → Bool
is_running_of key a = a.delivery_key == key && is_running a.status

abbrev pub is_top : ℕ → List Attempt → Attempt → Bool
is_top key attempts a =
    is_running_of key a
    && not (any (λ b. is_running_of key b && ltb a.attempt_number b.attempt_number) attempts)

abbrev pub close_attempt : AttemptStatus → Option ErrorCode → ℕ → Attempt → Attempt
close_attempt status code at a = record a {
  status = status;
  error_code = code;
  completed_at = some at;
}

-- The writes to the row of a stale delivery and to its running attempt.
unfoldable pub recovered_rows : ℕ → Delivery → Store → Store
recovered_rows now d store =
    let written = write d.id (recovered now) store in
    if is_delivering d.status
    then record written {
      attempts =
          map
            (touch (is_top d.delivery_key store.attempts)
              (close_attempt outcome_unknown (some worker_lost_during_provider_call) now))
            store.attempts;
    }
    else written

-- One round of the recovery.
unfoldable pub recover_one : ℕ → Delivery → Store → Store
recover_one now d store = (refresh_lead_state d.lead_id now (recovered_rows now d store)).0

unfoldable pub recover_all : ℕ → List Delivery → Store → Store
recover_all now [] store = store
recover_all now (d ∷ rows) store = recover_all now rows (recover_one now d store)

abbrev pub stale_deliveries : (cutoff now : ℕ) → Store → List Delivery
stale_deliveries cutoff now store =
    sort_by (λ d. d.id) (filter (is_stale cutoff now) store.deliveries)

unfoldable pub recover_stale_deliveries : (stale_after now : ℕ) → Store → Store × ℕ
recover_stale_deliveries stale_after now store =
    let rows = stale_deliveries (now - stale_after) now store in
    (recover_all now rows store, length rows)

-- `_assignment_destination`
abbrev pub assignment_destination : Assignment → DeliveryChannel → Option Text
assignment_destination assignment email = assignment.destination_email
assignment_destination assignment phone = assignment.destination_phone

-- What the operator is told: the property and the lead, with the reason "all_deliveries_failed".
pub record Alert : Type 0 where
  pub property_id : ℕ
  pub lead_id : ℕ

abbrev pub alert_of : Option Lead → Option Alert
alert_of none = none
alert_of (some lead) = some (record { property_id = lead.property_id; lead_id = lead.id })

-- The write of a row and `_refresh_lead_state`; an alert if the row and with it the lead has failed.
unfoldable pub write_and_refresh :
    Delivery → (Delivery → Delivery) → ℕ → Store → Store × Option Alert
write_and_refresh d f at store =
    let (refreshed, lead_failed) = refresh_lead_state d.lead_id at (write d.id f store) in
    (
      refreshed,
      if is_failed (f d).status && lead_failed
          then alert_of (get (λ l. l.id) d.lead_id refreshed.leads)
          else none,
    )

pub record DeliveryRequest : Type 0 where
  pub delivery_key : ℕ
  pub property_id : ℕ
  pub lead_id : ℕ
  pub provider_assignment_id : ℕ
  pub channel : DeliveryChannel
  pub destination : Text

-- How the first transaction ends: the lease is lost, the delivery is refused, or its provider is to
-- be contacted.
pub data Started : Type 0 where
  skipped : Started
  refused : Option Alert → Started
  contacting : DeliveryRequest → (attempt_number : ℕ) → Started

abbrev pub destination_or_raise : Option Text → Result ErrorCode Text
destination_or_raise none = raised assignment_destination_unavailable
destination_or_raise (some destination) = ok destination

-- The adapters, each by its name, and `str.isdigit` are the program's surroundings.
module _ (adapters : DeliveryChannel → Option ℕ) (is_digit : ℕ → Bool) where
  -- The chain of tests before the adapter is called.
  unfoldable pub validate :
      Delivery → Option Lead → Option Assignment → Result ErrorCode DeliveryRequest
  validate d none assignment = raised lead_not_found
  validate d (some lead) none = raised provider_assignment_not_found
  validate d (some lead) (some assignment) = do
    raise_if (not (is_active_assignment assignment.status)) provider_assignment_not_active
    raise_if (not (holds lead.provider_assignment_id assignment.id)) lead_assignment_mismatch
    raise_if (not (holds (adapters d.channel) d.adapter_name)) delivery_adapter_unavailable
    destination ← destination_or_raise (assignment_destination assignment d.channel)
    raise_if (not (same_text (masked_destination is_digit destination) d.destination_reference))
        assignment_destination_changed
    ok (record {
      delivery_key = d.delivery_key;
      property_id = lead.property_id;
      lead_id = lead.id;
      provider_assignment_id = assignment.id;
      channel = d.channel;
      destination = destination;
    })

  abbrev pub new_attempt : Delivery → ℕ → Attempt
  new_attempt d now = record {
    delivery_key = d.delivery_key;
    attempt_number = d.attempt_count + 1;
    status = running;
    error_code = none;
    started_at = now;
    completed_at = none;
  }

  -- The body of the first transaction, on a row that the lease owns.
  unfoldable pub start_owned : Delivery → ℕ → Store → Store × Started
  start_owned d now store =
      elim (validate d (get (λ l. l.id) d.lead_id store.leads)
        (get (λ a. a.id) d.provider_assignment_id store.assignments)) [
          | raised code ↦
              let (after, alert) = write_and_refresh d (failed_with code now) now store in
              (after, refused alert)
          | ok request ↦ (
            record (write d.id begun store) { attempts = new_attempt d now ∷ store.attempts },
            contacting request (d.attempt_count + 1),
          )
        ]

  -- The first transaction of `run_delivery_by_id`.
  unfoldable pub start_delivery : DeliveryLease → ℕ → Store → Store × Started
  start_delivery lease now store = elim (get (λ d. d.id) lease.delivery_id store.deliveries) [
    | none ↦ (store, skipped)
    | some d ↦ if owns d lease then start_owned d now store else (store, skipped)
  ]

-- The row of the attempt after the adapter's call.
abbrev pub attempt_after : AdapterOutcome → ℕ → Attempt → Attempt
attempt_after raised_retryable at a =
    close_attempt retryable_failure (some retryable_adapter_failure) at a
attempt_after raised_other at a = close_attempt permanent_failure (some adapter_failure) at a
attempt_after (returned true retryable message) at a = close_attempt succeeded a.error_code at a
attempt_after (returned false true message) at a =
    close_attempt retryable_failure (some retryable_adapter_failure) at a
attempt_after (returned false false message) at a =
    close_attempt rejected (some provider_rejected_delivery) at a

abbrev pub is_attempt : ℕ → ℕ → Attempt → Bool
is_attempt key number a = a.delivery_key == key && a.attempt_number == number

-- The body of the second transaction, on a row that the lease still owns.
unfoldable pub finish_owned :
    (base maximum attempt_number : ℕ) → AdapterOutcome → ℕ → Delivery → Store → Store × Option Alert
finish_owned base maximum attempt_number outcome at d store =
    if any (is_attempt d.delivery_key attempt_number) store.attempts
    then write_and_refresh d (settled base maximum at outcome) at (record store {
      attempts =
          map (touch (is_attempt d.delivery_key attempt_number) (attempt_after outcome at))
            store.attempts;
    })
    else (store, none)

-- The second transaction of `run_delivery_by_id`, after the adapter's call.
unfoldable pub finish_delivery :
    (base maximum : ℕ)
    → DeliveryLease
    → (attempt_number : ℕ) → AdapterOutcome
    → ℕ
    → Store
    → Store × Option Alert
finish_delivery base maximum lease attempt_number outcome at store =
    elim (get (λ d. d.id) lease.delivery_id store.deliveries) [
      | none ↦ (store, none)
      | some d ↦
          if owns d lease
          then finish_owned base maximum attempt_number outcome at d store
          else (store, none)
    ]

-- One round of `_heartbeat_delivery`, and whether it goes on.
unfoldable pub heartbeat_delivery : (lease_time : ℕ) → DeliveryLease → ℕ → Store → Store × Bool
heartbeat_delivery lease_time lease now store =
    let (rows, count) =
      update_where (λ d. d.id == lease.delivery_id && owns d lease) (beaten lease_time now)
        store.deliveries in
    (record store { deliveries = rows }, not (count == 0))
