-- ===== src/Tests/Costs.antt =====
-- One paid call of scan 3: opened, reserved, submitted, and finished or lost.
use digital_real_estate_engi.Common.{
  ℕ, ◌≤◌, ◌≡◌, ◌≢◌, refl, true, false, none, some, [], ◌∷◌, arith,
}
use digital_real_estate_engi.Common.Int.{ℤ, pos}
use digital_real_estate_engi.Common.Table.{get}
use digital_real_estate_engi.Common.Result.{ok}
use digital_real_estate_engi.Common.Sort.{sort_by}
use digital_real_estate_engi.Costs.State.{call_prepared, ApiCall, BucketKey, Ledger}
use digital_real_estate_engi.Costs.Breakers.{
  Blocked, CostSettings, Records, assert_switches, assert_spend, assert_rates,
  assert_durable_breakers,
}
use digital_real_estate_engi.Costs.Environment.{usage_class_of}
use digital_real_estate_engi.Costs.Attempts.{new_attempt}
use digital_real_estate_engi.Costs.Reserve.{
  CallRequest, reservation_of, reserved_ledger, bucket_of, check_lease, eligible_call,
  assert_allowed, reserve_provider_call, mark_provider_call_submitted, submit_call, submit_reserved,
  hold_call,
}
use digital_real_estate_engi.Costs.Finish.{CallOutcome, finish_provider_call}
use digital_real_estate_engi.Costs.Reconcile.{
  is_stale_call, reconcile_all, reconcile_one, close_attempt, reconcile_stale_api_call_attempts,
}
use digital_real_estate_engi.Costs.Balance.{IsBalanced}
use digital_real_estate_engi.Costs.Balance.Reserving.{IsFor, reserve-IsBalanced}
use digital_real_estate_engi.Costs.Balance.Settling.{IsFrom, finish-IsBalanced}
use digital_real_estate_engi.Common.Text.{Text, codes, strip}
use digital_real_estate_engi.Costs.Resolve.{
  Verdict, verdict_billed, awaiting_call, resolve_unknown_provider_call,
}
use digital_real_estate_engi.Costs.Balance.Resolving.{resolved_ledger, IsResolved, resolve_once}
use digital_real_estate_engi.Costs.Balance.Reconciling.{reconcile_stale-IsBalanced}
use digital_real_estate_engi.Costs.Budget.{committed, WithinBudget}
use digital_real_estate_engi.Costs.Budget.Granting.{reserve-WithinBudget}
use digital_real_estate_engi.Costs.Budget.Settling.{finish-committed, reconcile_stale-committed}
use digital_real_estate_engi.Costs.Protocol.{here, next, open_attempt, reserve, submit, write}
use digital_real_estate_engi.Costs.Protocol.Safety.{IsSound, Reach-IsSound}
use digital_real_estate_engi.Costs.Request.{RequestError, class_of, Course}
use digital_real_estate_engi.Tests.Rows.{empty_ledger}

abbrev settings : CostSettings
settings = record {
  allow_live_api_calls = true;
  paid_call_kill_switch = false;
  allow_production_dataforseo = false;
  allow_full_scans = false;
  single_call_abnormal_cost_usd = 500000;
  production_daily_request_limit = 100;
  production_daily_spend_usd = 10000000;
  testing_daily_spend_usd = 1000000;
  unexpected_call_breaker_threshold = 3;
  circuit_breaker_minimum_requests = 10;
  provider_failure_rate_threshold = 250000;
  schema_drift_rate_threshold = 250000;
  billing_reconciliation_max_age_hours = 48;
}

abbrev records : Records
records = record { qualifications = []; reconciliations = [] }

abbrev opened : Ledger
opened = record empty_ledger { calls = new_attempt 1 (some 3) 5 7 call_prepared 10 ∷ [] }

abbrev request : CallRequest
request = record {
  provider = 5;
  environment = "sandbox";
  adapter_version = "v3";
  endpoint = 7;
  estimated_cost_usd = 2000;
  full_profile = false;
  cache_miss = true;
  require_current_qualification = false;
  api_call_id = some 1;
  execution_lease = none;
}

abbrev granted : Ledger
granted = reserved_ledger request 20 opened

grants :
    reserve_provider_call settings records [] request 20 opened
    ≡ ok (reservation_of request 20, granted)
unfolding reserve_provider_call assert_allowed check_lease assert_switches eligible_call get
    new_attempt assert_durable_breakers assert_spend assert_rates usage_class_of
grants = refl

is_for : IsFor request 1 (new_attempt 1 (some 3) 5 7 call_prepared 10) opened.calls
unfolding get new_attempt
is_for = record { named = refl; found = refl; same_provider = refl; same_endpoint = refl }

empty-IsBalanced : IsBalanced empty_ledger
empty-IsBalanced = record { keyed = tt; reserved = λ j. refl; unreconciled = λ j. refl }

empty-IsSound : IsSound settings empty_ledger
empty-IsSound = record {
  balanced = empty-IsBalanced;
  dated = tt;
  within = λ j summary. omega arith;
}

abbrev submitted : Ledger
submitted = write 1 (submit_call 30) granted

submits : mark_provider_call_submitted [] (reservation_of request 20) none 30 granted ≡ ok submitted
unfolding mark_provider_call_submitted check_lease submit_reserved get hold_call new_attempt
submits = refl

abbrev outcome : CallOutcome
outcome = record {
  actual_cost_usd = pos 1500;
  failed = false;
  schema_drift = false;
  abnormal_cost = false;
  provider_outcome_unknown = false;
}

abbrev flying_call : ApiCall
flying_call =
    submit_call 30
      (hold_call (reservation_of request 20) (new_attempt 1 (some 3) 5 7 call_prepared 10))

is_from : IsFrom (reservation_of request 20) flying_call
unfolding submit_call hold_call new_attempt
is_from = record {
  is_held_now = refl;
  same_date = refl;
  same_class = refl;
  same_estimate = refl;
  same_provider = refl;
  same_endpoint = refl;
}

abbrev finished : Ledger
finished = finish_provider_call (reservation_of request 20) outcome 40 submitted

flies : get (λ c. c.id) 1 submitted.calls ≡ some flying_call
unfolding get submit_call hold_call new_attempt
flies = refl

opened-IsBalanced_now : IsBalanced opened
unfolding new_attempt
opened-IsBalanced_now = record { keyed = (tt, tt); reserved = λ j. refl; unreconciled = λ j. refl }

reserve-WithinBudget_example : WithinBudget settings granted.buckets
reserve-WithinBudget_example =
    reserve-WithinBudget settings records [] request 20 opened (reservation_of request 20) granted
      (λ e. absurd (omega (arith, e))) empty-IsSound.within grants

reserve-IsBalanced_example : IsBalanced granted
reserve-IsBalanced_example =
    reserve-IsBalanced settings records [] request 20 opened 1
      (new_attempt 1 (some 3) 5 7 call_prepared 10) (reservation_of request 20) granted
      opened-IsBalanced_now is_for grants

submitted-IsSound_now : IsSound settings submitted
submitted-IsSound_now = Reach-IsSound settings empty_ledger submitted empty-IsSound (
    next
      (next (next here (open_attempt 1 (some 3) 5 7 call_prepared 10 tt)) (
        reserve records [] request 20 1 (new_attempt 1 (some 3) 5 7 call_prepared 10)
          (reservation_of request 20) is_for (λ e. absurd (omega (arith, e))) grants))
      (submit [] (reservation_of request 20) none 30 submits))

finish-IsBalanced_example : IsBalanced finished
finish-IsBalanced_example =
    finish-IsBalanced (reservation_of request 20) outcome 40 submitted
      submitted-IsSound_now.balanced 1 flying_call refl flies is_from

abbrev requested_bucket : BucketKey
requested_bucket = bucket_of (reservation_of request 20)

finish-committed_example :
    committed (finished.buckets requested_bucket) ≤ committed (submitted.buckets requested_bucket)
finish-committed_example =
    finish-committed (reservation_of request 20) outcome 40 submitted submitted-IsSound_now.balanced
      1 flying_call refl flies is_from (omega arith) requested_bucket

-- The worker is gone after the submission; the attempt is closed with an unknown outcome.
abbrev lost : Ledger
lost = (reconcile_stale_api_call_attempts 100 none 200 submitted).0

reconcile_stale-IsBalanced_example : IsBalanced lost
reconcile_stale-IsBalanced_example =
    reconcile_stale-IsBalanced 100 none 200 submitted submitted-IsSound_now.balanced

reconcile_stale-committed_example :
    committed (lost.buckets requested_bucket) ≤ committed (submitted.buckets requested_bucket)
reconcile_stale-committed_example =
    reconcile_stale-committed 100 none 200 submitted submitted-IsSound_now.balanced requested_bucket

-- An operator books the lost call as billed.
abbrev lost_call : ApiCall
lost_call = close_attempt 200 flying_call

abbrev resolved : Ledger
resolved = resolved_ledger (codes "invoice") 1 verdict_billed (pos 1500) 300 lost_call lost

resolves :
    resolve_unknown_provider_call (codes "invoice") 1 verdict_billed (pos 1500) 300 lost
    ≡ ok resolved
unfolding resolve_unknown_provider_call strip awaiting_call get reconcile_stale_api_call_attempts
    reconcile_all sort_by is_stale_call new_attempt hold_call submit_call reconcile_one
    close_attempt
resolves = refl

resolve_once_example :
    IsResolved 1 1500 lost resolved
    × ((note2 : Text) (verdict2 : Verdict) (cost2 : ℤ) (now2 : ℕ) (ledger2 : Ledger)
        → resolve_unknown_provider_call note2 1 verdict2 cost2 now2 resolved ≢ ok ledger2)
resolve_once_example =
    resolve_once (codes "invoice") 1 verdict_billed (pos 1500) 300 lost resolved resolves

-- The whole request with an answer that reports 1500, the moments of its steps, and a recovery that closes
-- its attempt before the answer.
abbrev course : Course
course = record {
  scans_reserving = [];
  scans_submitting = [];
  scans_sending = [];
  scans_answered = [];
  at_reserving = 20;
  at_submitting = 30;
  at_sending = 30;
  at_answered = 40;
  at_finish = 40;
  copy_reserved = record { status = call_prepared; network_started_at = none };
  copy_submitted = record { status = call_prepared; network_started_at = some 30 };
  others_reserved = λ ledger. ledger;
  others_submitted = λ ledger. (reconcile_stale_api_call_attempts 36 (some 3) 35 ledger).0;
}

abbrev error_of : Blocked → RequestError
error_of reason = record { class = class_of reason; type_name = "CircuitOpenError"; summary = [] }
