-- ===== src/Scans/Retry/Exhaust.antt =====
-- How often a failing scan is tried before it is set aside.
use Prim.Native.String.{String}
use digital_real_estate_engi.Common.{ℕ, ◌+◌, ◌≡◌, List, [], ◌∷◌, leb, if◌then◌else◌, arith}
use digital_real_estate_engi.Scans.Row.{ScanRow, ScanStatus, WorkerSettings, queued, quarantined}
use digital_real_estate_engi.Scans.Retry.{attempts_allowed, retry_or_quarantine}

-- A failure, as `_retry_or_quarantine` is told of it.
pub record Failure : Type 0 where
  pub error_summary : String
  pub now : ℕ
  pub failed_stage : String
  pub jitter : ℕ

abbrev pub status_after : (attempts allowed : ℕ) → ScanStatus
status_after attempts allowed = if leb allowed attempts then quarantined else queued

module _ (settings : WorkerSettings) where
  unfoldable pub fail_once : ScanRow → Failure → ScanRow
  fail_once scan e = retry_or_quarantine scan e.error_summary settings e.now e.failed_stage e.jitter

  -- A run of failures of one scan, each after the scan was tried again.
  unfoldable pub fail_times : ScanRow → List Failure → ScanRow
  fail_times scan [] = scan
  fail_times scan (e ∷ es) = fail_times (fail_once scan e) es

  pub fail_once_lem :
      (scan : ScanRow) (e : Failure)
      → ((fail_once scan e).retry_count ≡ scan.retry_count + 1)
        × (attempts_allowed (fail_once scan e) settings ≡ attempts_allowed scan settings)
        × ((fail_once scan e).status
            ≡ status_after (scan.retry_count + 1) (attempts_allowed scan settings))
  unfolding fail_once retry_or_quarantine
  fail_once_lem scan e = ground arith
