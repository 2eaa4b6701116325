-- ===== src/Costs/Request.antt =====
-- A live request from its reservation to its settlement: the `try` statement of
-- `DataForSEOLiveProvider._request` in src/rank_rent/integrations/dataforseo/live.py, for an adapter
-- with a database session. The HTTP client, the parser of responses and the cache are arguments, by what
-- they come to, and so are the transactions of others between those of the request.
pub mod Ending
pub mod Settled
pub mod Recovered
use Prim.Native.String.{String}
use digital_real_estate_engi.Common.{
  ℕ, Bool, true, false, not, Option, none, some, List, ◌&&◌, ◌||◌, ltb, is_some, if◌then◌else◌,
}
use digital_real_estate_engi.Common.Int.{pos}
use digital_real_estate_engi.Common.Text.{Text}
use digital_real_estate_engi.Common.Result.{ok, raised}
use digital_real_estate_engi.Scans.Row.{ScanRow}
use digital_real_estate_engi.Costs.State.{
  CallStatus, outcome_unknown, before_network, done, call_failed, call_blocked, Ledger,
}
use digital_real_estate_engi.Costs.Breakers.{CostSettings, Records, Blocked, lease_lost}
use digital_real_estate_engi.Costs.Attempts.{finish_api_call}
use digital_real_estate_engi.Costs.Reserve.{
  CallRequest, UsageReservation, check_lease, reserve_provider_call, mark_provider_call_submitted,
}
use digital_real_estate_engi.Costs.Finish.{CallOutcome, finish_provider_call}
use digital_real_estate_engi.Costs.Protocol.{write}

-- The classes of the exceptions that the handler tells apart, and the texts of all.
pub data RequestErrorClass : Type 0 where
  circuit_open_error scan_lease_lost schema_error other_error : RequestErrorClass

pub record RequestError : Type 0 where
  pub class : RequestErrorClass
  pub type_name : String
  pub summary : Text

abbrev pub is_circuit_open : RequestErrorClass → Bool
is_circuit_open circuit_open_error = true
is_circuit_open _ = false

abbrev pub is_lease_lost : RequestErrorClass → Bool
is_lease_lost scan_lease_lost = true
is_lease_lost _ = false

abbrev pub is_schema_error : RequestErrorClass → Bool
is_schema_error schema_error = true
is_schema_error _ = false

-- What the client, the parser and the cache come to: a payload with the cost that it reports, which is
-- stored, or not for an exception of the cache, or is settled before an exception; an exception of the
-- parser, an exception of the client before a response, or the cancellation of the task.
pub data Answer : Type 0 where
  answered : (cost : ℕ) → Answer
  unstored unreported : (cost : ℕ) → RequestError → Answer
  unreadable broken : RequestError → Answer
  cancelled : RequestError → Answer

-- `raise` in `reserve_provider_call` and in `mark_provider_call_submitted`, by its reason.
abbrev pub class_of : Blocked → RequestErrorClass
class_of lease_lost = scan_lease_lost
class_of _ = circuit_open_error

-- What the handlers read of the session's copy of the attempt's row.
pub record AttemptCopy : Type 0 where
  pub status : CallStatus
  pub network_started_at : Option ℕ

-- `api_call.network_started_at is not None`
abbrev pub has_started : AttemptCopy → Bool
has_started copy = is_some copy.network_started_at

-- `self._payload_cost(payload) if payload is not None else 0`
abbrev pub cost_or_zero : Option ℕ → ℕ
cost_or_zero none = 0
cost_or_zero (some cost) = cost

abbrev pub error_status : (ambiguous circuit_open started : Bool) → CallStatus
error_status ambiguous circuit_open started =
    if ambiguous
    then outcome_unknown
    else if circuit_open
    then call_blocked
    else if started
    then call_failed
    else before_network

abbrev pub settle_if : Option UsageReservation → CallOutcome → ℕ → Ledger → Ledger
settle_if none outcome now ledger = ledger
settle_if (some r) outcome now ledger = finish_provider_call r outcome now ledger

-- `except Exception`: `payload` is the cost of the payload that was parsed, if any.
unfoldable pub fail_request :
    (api_call_id : ℕ)
    → Option UsageReservation
    → AttemptCopy
    → RequestError
    → (has_response : Bool) → (payload : Option ℕ) → (usage_finalized : Bool) → (now : ℕ) → Ledger
    → Ledger
fail_request i reservation copy error has_response payload usage_finalized now ledger =
    let started = has_started copy in
    let ambiguous =
      is_some reservation && (started && (not has_response || is_lease_lost error.class)) in
    let closed =
      write i
        (finish_api_call copy.status (error_status ambiguous (is_circuit_open error.class) started)
          none (some error.type_name) (some error.summary) now)
        ledger in
    settle_if (if usage_finalized then none else reservation)
      (record {
        actual_cost_usd = pos (cost_or_zero payload);
        failed = not (is_circuit_open error.class);
        schema_drift = is_schema_error error.class;
        abnormal_cost = false;
        provider_outcome_unknown = ambiguous;
      })
      now closed

-- `except asyncio.CancelledError`: `_finish_unknown_attempt`, with the error that it makes.
unfoldable pub finish_unknown_attempt :
    (api_call_id : ℕ) → UsageReservation → AttemptCopy → RequestError → (now : ℕ) → Ledger → Ledger
finish_unknown_attempt i reservation copy error now ledger =
    let ambiguous = has_started copy in
    let closed =
      write i
        (finish_api_call copy.status (if ambiguous then outcome_unknown else before_network) none
          (some error.type_name) (some error.summary) now)
        ledger in
    finish_provider_call reservation
      (record {
        actual_cost_usd = pos 0;
        failed = not ambiguous;
        schema_drift = false;
        abnormal_cost = false;
        provider_outcome_unknown = ambiguous;
      })
      now closed

-- The tables of scans that the four checks of the lease see, the moments of the steps, the copies of the
-- attempt's row before and after the submission, and what the transactions of others make of the ledger
-- after the reservation and after the submission.
pub record Course : Type 0 where
  pub scans_reserving : List ScanRow
  pub scans_submitting : List ScanRow
  pub scans_sending : List ScanRow
  pub scans_answered : List ScanRow
  pub at_reserving : ℕ
  pub at_submitting : ℕ
  pub at_sending : ℕ
  pub at_answered : ℕ
  pub at_finish : ℕ
  pub copy_reserved : AttemptCopy
  pub copy_submitted : AttemptCopy
  pub others_reserved : Ledger → Ledger
  pub others_submitted : Ledger → Ledger

module _ (settings : CostSettings) (request : CallRequest) (error_of : Blocked → RequestError)
    (i : ℕ) (course : Course) where
  -- A payload that is stored, settled and committed.
  unfoldable pub settle_answer : UsageReservation → (cost : ℕ) → Ledger → Ledger
  settle_answer r cost ledger =
      finish_provider_call r
        (record {
          actual_cost_usd = pos cost;
          failed = false;
          schema_drift = false;
          abnormal_cost = ltb settings.single_call_abnormal_cost_usd cost;
          provider_outcome_unknown = false;
        })
        course.at_finish
        (write i
          (finish_api_call course.copy_submitted.status done (some cost) none none course.at_finish)
          ledger)

  -- A response that arrived while the lease holds.
  unfoldable pub finish_answer : UsageReservation → Answer → Ledger → Ledger
  unfolding settle_answer
  finish_answer r (answered cost) ledger = settle_answer r cost ledger
  finish_answer r (unstored cost error) ledger =
      fail_request i (some r) course.copy_submitted error true (some cost) false course.at_finish
        ledger
  finish_answer r (unreported cost error) ledger =
      fail_request i (some r) course.copy_submitted error true (some cost) true course.at_finish
        (settle_answer r cost ledger)
  finish_answer r (unreadable error) ledger =
      fail_request i (some r) course.copy_submitted error true none false course.at_finish ledger
  finish_answer r (broken error) ledger =
      fail_request i (some r) course.copy_submitted error false none false course.at_finish ledger
  finish_answer r (cancelled error) ledger =
      finish_unknown_attempt i r course.copy_submitted error course.at_finish ledger

  -- The check of the lease after a response; without one there is nothing to check.
  unfoldable pub receive : UsageReservation → Answer → Ledger → Ledger
  unfolding finish_answer
  receive r (broken error) ledger = finish_answer r (broken error) ledger
  receive r (cancelled error) ledger = finish_answer r (cancelled error) ledger
  receive r answer ledger =
      elim (check_lease course.scans_answered request.execution_lease course.at_answered) [
        | raised reason ↦
            fail_request i (some r) course.copy_submitted (error_of reason) true none false
              course.at_finish ledger
        | ok checked ↦ finish_answer r answer ledger
      ]

  unfoldable pub send : UsageReservation → Answer → Ledger → Ledger
  unfolding receive
  send r answer ledger =
      elim (check_lease course.scans_sending request.execution_lease course.at_sending) [
        | raised reason ↦
            fail_request i (some r) course.copy_submitted (error_of reason) false none false
              course.at_finish ledger
        | ok checked ↦ receive r answer ledger
      ]

  unfoldable pub submit_and_send : UsageReservation → Answer → Ledger → Ledger
  unfolding send
  submit_and_send r answer ledger =
      elim (mark_provider_call_submitted course.scans_submitting r request.execution_lease
        course.at_submitting ledger) [
          | raised reason ↦
              fail_request i (some r) course.copy_reserved (error_of reason) false none false
                course.at_finish ledger
          | ok submitted ↦ send r answer (course.others_submitted submitted)
        ]

  unfoldable pub run_request : Records → Answer → Ledger → Ledger
  unfolding submit_and_send
  run_request records answer ledger =
      elim (reserve_provider_call settings records course.scans_reserving request
        course.at_reserving ledger) [
          | raised reason ↦
              fail_request i none course.copy_reserved (error_of reason) false none false
                course.at_finish ledger
          | ok (r, reserved) ↦ submit_and_send r answer (course.others_reserved reserved)
        ]
