-- ===== src/Scans/Run.antt =====
-- The worker around a running scan: `_heartbeat_scan`, `is_retryable_error`, `_fail_without_retry` and
-- the `finally` block of `run_scan_by_id` in src/rank_rent/services/scan_worker.py.
use Prim.Native.String.{String}
use text.Mathlib.Text.{◌==◌ as str_eq}
use digital_real_estate_engi.Common.{
  ℕ, ◌+◌, Bool, true, false, not, Option, none, some, List, [], ◌∷◌, map, ◌&&◌, ◌||◌, ◌==◌,
  if◌then◌else◌, any,
}
use digital_real_estate_engi.Common.Text.{Text, codes, lower, contains}
use digital_real_estate_engi.Common.Table.{get, touch, update_where}
use digital_real_estate_engi.Common.Result.{Result, ok, ◌>>=◌}
use digital_real_estate_engi.Scans.Row.{
  OutputValue, ScanRow, WorkerSettings, failed, is_failed, is_queued, is_terminal, put, lookup,
  label, moment,
}
use digital_real_estate_engi.Scans.Lease.{ScanExecutionLease, lease_matches, owns, clear_lease}
use digital_real_estate_engi.Scans.Retry.{retry_or_quarantine}
use digital_real_estate_engi.Scans.Pipeline.{Notice, needs_evidence}
use digital_real_estate_engi.Reviews.State.{ReviewError, Reviews}
use digital_real_estate_engi.Reviews.Completeness.{Evidence}

-- One round of the heartbeat, and whether the lease still holds.
unfoldable pub beaten : (lease_time now : ℕ) → ScanRow → ScanRow
beaten lease_time now row = record row {
  heartbeat_at = some now;
  lease_expires_at = some (now + lease_time);
}

unfoldable pub heartbeat_scan :
    (lease_time : ℕ) → ScanExecutionLease → (now : ℕ) → List ScanRow → List ScanRow × Bool
heartbeat_scan lease_time lease now rows =
    let (rows', count) =
      update_where (λ r. r.id == lease.scan_id && owns r lease) (beaten lease_time now) rows in
    (rows', not (count == 0))

-- The classes of the exceptions that the worker tells apart, and the texts of all.
pub data ErrorClass : Type 0 where
  circuit_open configuration authentication plan schema value_error : ErrorClass
  timeout http_timeout operational rate_limit : ErrorClass
  data_for_seo other_class : ErrorClass

pub record ScanError : Type 0 where
  pub class : ErrorClass
  pub message : String
  pub summary : Text

abbrev pub transient_tokens : List String
transient_tokens = "transient" ∷ "timeout" ∷ "rate limit" ∷ "temporar" ∷ "http 5" ∷ []

-- The tests for the class run in the order of the source.
unfoldable pub is_retryable_error : ScanError → Bool
is_retryable_error error = elim error.class [
  | timeout ↦ true
  | http_timeout ↦ true
  | operational ↦ true
  | rate_limit ↦ true
  | data_for_seo ↦ any (λ token. contains (codes token) (map lower error.summary)) transient_tokens
  | _ ↦ false
]

-- `str(outputs.get("failed_stage") or "unknown")`
stage_or_unknown : Option OutputValue → String
stage_or_unknown (some (label stage)) = if str_eq stage "" then "unknown" else stage
stage_or_unknown _ = "unknown"

-- What the `finally` block writes to a row whose lease matches.
classified : WorkerSettings → Option ScanError → (now jitter : ℕ) → ScanRow → ScanRow
unfolding stage_or_unknown
classified settings none now jitter scan = scan
classified settings (some error) now jitter scan =
    if is_failed scan.status
    then if is_retryable_error error
      then retry_or_quarantine scan error.message settings now
          (stage_or_unknown (lookup "failed_stage" scan.partial_outputs)) jitter
      else record scan {
        partial_outputs = put "retry_classification" (label "non_retryable") scan.partial_outputs;
      }
    else scan

abbrev pub released : ScanRow → ScanRow
released scan = if is_terminal scan.status || is_queued scan.status then clear_lease scan else scan

unfoldable pub finished : WorkerSettings → Option ScanError → (now jitter : ℕ) → ScanRow → ScanRow
unfolding classified
finished settings error now jitter scan = released (classified settings error now jitter scan)

unfoldable pub finish_run :
    WorkerSettings
    → ScanExecutionLease
    → Option ScanError
    → (now jitter : ℕ) → List ScanRow
    → List ScanRow
finish_run settings lease error now jitter rows = elim (get (λ r. r.id) lease.scan_id rows) [
  | none ↦ rows
  | some scan ↦
      if lease_matches scan lease
      then map (touch (λ r. r.id == lease.scan_id) (finished settings error now jitter)) rows
      else rows
]

-- `_fail_without_retry`
unfoldable pub failed_values : (error_summary : String) → (now : ℕ) → ScanRow → ScanRow
failed_values error_summary now scan = clear_lease (record scan {
  status = failed;
  progress_stage = "failed";
  error_summary = some error_summary;
  completed_at = some now;
  partial_outputs = put "failed_at" (moment now) (
      put "retry_classification" (label "non_retryable")
        (put "worker_error" (label error_summary) scan.partial_outputs));
})

-- The review of the opportunity that the scan names, if it names one; the notice's id is not read.
notify : Evidence → Notice → (now : ℕ) → Option ℕ → Reviews → Result ReviewError Reviews
notify evidence notice now none reviews = ok reviews
notify evidence notice now (some i) reviews =
    needs_evidence evidence now (record notice { opportunity_id = i }) reviews

unfoldable pub fail_without_retry :
    Evidence
    → Notice
    → ScanExecutionLease
    → (error_summary : String) → (now : ℕ) → ScanRow
    → List ScanRow × Reviews
    → Result ReviewError (List ScanRow × Reviews)
unfolding notify
fail_without_retry evidence notice lease error_summary now scan (rows, reviews) =
    let failing = (do
      reviews' ← notify evidence notice now scan.opportunity_id reviews
      ok (map (touch (λ r. r.id == scan.id) (failed_values error_summary now)) rows, reviews')) in
    if owns scan lease then failing else ok (rows, reviews)
