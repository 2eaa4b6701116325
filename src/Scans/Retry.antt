-- ===== src/Scans/Retry.antt =====
-- Retry backoff, quarantine and cancellation of scan_worker.py.
pub mod Backoff
pub mod Exhaust
use Prim.Native.String.{String}
use digital_real_estate_engi.Common.{
  ℕ, ◌+◌, ◌-◌, ◌*◌, ◌/◌, ◌^◌, min, Bool, true, none, some, leb, if◌then◌else◌, ◌==◌,
}
use digital_real_estate_engi.Scans.Row.{
  ScanRow, WorkerSettings, queued, cancelled, quarantined, put, flag, label, amount, moment,
}

-- `min(maximum_seconds, base_seconds * 2 ** max(0, retry_count - 1))`; the truncated difference of
-- natural numbers is that maximum.
unfoldable pub capped_delay : (retry_count base maximum : ℕ) → ℕ
capped_delay retry_count base maximum = min maximum (base * 2 ^ (retry_count - 1))

-- A jitter of 1 is one million.
abbrev pub jitter_unit : ℕ
jitter_unit = 1000000

-- `capped * (0.5 + jitter * 0.5)`, with the jitter in millionths, clamped to at most 1, and the
-- delay rounded down to whole microseconds.
unfoldable pub retry_delay : (retry_count base maximum jitter : ℕ) → ℕ
unfolding capped_delay
retry_delay retry_count base maximum jitter =
    capped_delay retry_count base maximum
    * (jitter_unit + min jitter jitter_unit)
    / (2 * jitter_unit)

-- `scan.max_attempts or settings.scan_worker_max_attempts`
abbrev pub attempts_allowed : ScanRow → WorkerSettings → ℕ
attempts_allowed scan settings =
    if scan.max_attempts == 0 then settings.scan_worker_max_attempts else scan.max_attempts

quarantine : ScanRow → String → ℕ → String → ScanRow
quarantine scan error_summary now failed_stage = record scan {
  status = quarantined;
  progress_stage = "quarantined";
  completed_at = some now;
  quarantined_at = some now;
  quarantine_reason = some error_summary;
  partial_outputs =
      put "attempts" (amount scan.retry_count) (
        put "failed_stage" (label failed_stage)
          (put "poison_job" (flag true) scan.partial_outputs));
}

requeue : ScanRow → ℕ → ℕ → String → ScanRow
requeue scan delay now failed_stage = record scan {
  status = queued;
  progress_stage = "queued";
  started_at = none;
  completed_at = none;
  next_attempt_at = some (now + delay);
  partial_outputs = put "next_attempt_at" (moment (now + delay)) (
      put "retry_delay_seconds" (amount delay) (
        put "retry_count" (amount scan.retry_count) (
          put "failed_stage" (label failed_stage)
            (put "retry_classification" (label "retryable") scan.partial_outputs))));
}

-- `_retry_or_quarantine`; `jitter` is the draw of `random.random()`.
unfoldable pub retry_or_quarantine :
    ScanRow
    → (error_summary : String) → WorkerSettings
    → (now : ℕ) → (failed_stage : String) → (jitter : ℕ) → ScanRow
unfolding quarantine requeue
retry_or_quarantine scan error_summary settings now failed_stage jitter =
    let counted = record scan {
      retry_count = scan.retry_count + 1;
      error_summary = some error_summary;
    } in
    let delay =
      retry_delay counted.retry_count settings.scan_worker_retry_base settings.scan_worker_retry_max
        jitter in
    if leb (attempts_allowed counted settings) counted.retry_count
    then quarantine counted error_summary now failed_stage
    else requeue counted delay now failed_stage

-- `_cancel_scan`
unfoldable pub cancel_scan : ScanRow → (now : ℕ) → (timed_out : Bool) → ScanRow
cancel_scan scan now timed_out = record scan {
  status = cancelled;
  progress_stage = "cancelled";
  completed_at = some now;
  partial_outputs = put "cancelled_at" (moment now) (
      put "cancelled_after_worker_timeout" (flag timed_out)
        (put "cancelled" (flag true) scan.partial_outputs));
}
