-- ===== src/Costs/Attempts.antt =====
-- How the live adapter opens and closes the rows of `api_calls`: `_reserve_api_call` and
-- `_finish_api_call` of src/rank_rent/integrations/dataforseo/live.py, on the columns modelled.
use Prim.Native.String.{String}
use digital_real_estate_engi.Common.{
  ℕ, Bool, true, false, not, Option, none, some, ◌&&◌, if◌then◌else◌,
}
use digital_real_estate_engi.Common.Text.{Text}
use digital_real_estate_engi.Costs.State.{
  AttemptState, ProviderOutcome, CallStatus, ApiCall, prepared, cache_hit, completed, blocked,
  failed, failed_before_network, provider_outcome_unknown, not_sent, unknown, outcome_completed,
  outcome_failed, no_reservation, outcome_unknown, before_network, done, call_failed, call_blocked,
  call_cached,
}

-- The statuses that the adapter passes.
abbrev pub is_unknown_status : CallStatus → Bool
is_unknown_status outcome_unknown = true
is_unknown_status _ = false

abbrev pub is_cached_status : CallStatus → Bool
is_cached_status call_cached = true
is_cached_status _ = false

-- A new row: `status` is `call_prepared` or `call_cached`.
unfoldable pub new_attempt :
    (id : ℕ) → (scan_run_id : Option ℕ) → (provider endpoint : ℕ) → CallStatus → (now : ℕ) → ApiCall
new_attempt id scan_run_id provider endpoint status now = record {
  id = id;
  scan_run_id = scan_run_id;
  provider = provider;
  endpoint = endpoint;
  actual_cost_usd = 0;
  status = status;
  error_type = none;
  error_summary = none;
  started_at = some now;
  completed_at = if is_cached_status status then some now else none;
  attempt_state = if is_cached_status status then cache_hit else prepared;
  provider_outcome = not_sent;
  reservation_state = no_reservation;
  reservation_usage_date = none;
  reservation_usage_class = none;
  reservation_estimated_cost_usd = 0;
  network_started_at = none;
  reconciled_at = none;
}

-- `ApiCallORM.status.in_({"failed", "failed_before_network", "blocked"})`: the rows that a retry of
-- the planned request takes up again.
abbrev pub is_retryable_row : CallStatus → Bool
is_retryable_row call_failed = true
is_retryable_row before_network = true
is_retryable_row call_blocked = true
is_retryable_row _ = false

unfoldable pub retry_attempt : CallStatus → (now : ℕ) → ApiCall → ApiCall
retry_attempt status now c = record c {
  status = status;
  attempt_state = if is_cached_status status then cache_hit else prepared;
  provider_outcome = not_sent;
  reservation_state = no_reservation;
  reservation_usage_date = none;
  reservation_usage_class = none;
  reservation_estimated_cost_usd = 0;
  network_started_at = none;
  reconciled_at = none;
  started_at = some now;
  completed_at = if is_cached_status status then some now else none;
  error_type = none;
  error_summary = none;
}

abbrev pub state_after : CallStatus → AttemptState → AttemptState
state_after done s = completed
state_after call_cached s = cache_hit
state_after outcome_unknown s = provider_outcome_unknown
state_after before_network s = failed_before_network
state_after call_blocked s = blocked
state_after call_failed s = failed
state_after _ s = s

abbrev pub outcome_after : CallStatus → ProviderOutcome → ProviderOutcome
outcome_after done o = outcome_completed
outcome_after call_cached o = not_sent
outcome_after outcome_unknown o = unknown
outcome_after before_network o = not_sent
outcome_after call_blocked o = not_sent
outcome_after call_failed o = outcome_failed
outcome_after _ o = o

-- The optional arguments of `_finish_api_call`: the cost that a payload reports, and the error.
abbrev pub cost_after : Option ℕ → ℕ → ℕ
cost_after none cost = cost
cost_after (some reported) cost = reported

abbrev pub keep_or {ℓ} : {A : Type ℓ} → Option A → Option A → Option A
keep_or none old = old
keep_or (some new) old = some new

-- `seen` is the status in the session's copy of the row, which a commit does not expire.
unfoldable pub finish_api_call :
    (seen status : CallStatus)
    → (payload_cost : Option ℕ) → (error_type : Option String) → (error_summary : Option Text)
    → (now : ℕ) → ApiCall
    → ApiCall
finish_api_call seen status payload_cost error_type error_summary now c =
    if is_unknown_status seen && not (is_unknown_status status) then c else record c {
      status = status;
      completed_at = some now;
      actual_cost_usd = cost_after payload_cost c.actual_cost_usd;
      error_type = keep_or error_type c.error_type;
      error_summary = keep_or error_summary c.error_summary;
      attempt_state = state_after status c.attempt_state;
      provider_outcome = outcome_after status c.provider_outcome;
    }
