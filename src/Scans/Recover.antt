-- ===== src/Scans/Recover.antt =====
-- `recover_stale_scans` of scan_worker.py: the scans whose worker is gone are queued again,
-- quarantined or cancelled, after their paid calls were reconciled.
pub mod Correct
pub mod Abandoned
use digital_real_estate_engi.Common.{
  ℕ, ◌+◌, ◌-◌, Bool, true, not, Option, none, some, List, [], ◌∷◌, map, ◌&&◌, ◌||◌, ◌==◌, ltb,
  is_some, if◌then◌else◌, filter, length,
}
use digital_real_estate_engi.Common.Table.{touch}
use digital_real_estate_engi.Common.Sort.{sort_by}
use digital_real_estate_engi.Scans.Row.{ScanRow, WorkerSettings, is_running, is_worker_source}
use digital_real_estate_engi.Scans.Lease.{clear_lease}
use digital_real_estate_engi.Scans.Retry.{retry_or_quarantine, cancel_scan}
use digital_real_estate_engi.Costs.State.{Ledger}
use digital_real_estate_engi.Costs.Reconcile.{reconcile_stale_api_call_attempts}

-- `column < t or column is null`
abbrev pub null_or_before : Option ℕ → ℕ → Bool
null_or_before none t = true
null_or_before (some s) t = ltb s t

unfoldable pub is_stale : (cutoff now : ℕ) → ScanRow → Bool
is_stale cutoff now scan =
    is_worker_source scan.source
    && (is_running scan.status
        && (not (is_some scan.completed_at)
            && (null_or_before scan.lease_expires_at now
                || null_or_before scan.heartbeat_at cutoff)))

-- One round of the loop, on a selected row; `jitter` is the draw of `random.random()` for that row.
unfoldable pub recover_scan : WorkerSettings → (now jitter : ℕ) → ScanRow → ScanRow
recover_scan settings now jitter scan = clear_lease (
    if scan.cancel_requested
    then cancel_scan scan now true
    else retry_or_quarantine scan "Worker lease expired before completion." settings now
        scan.progress_stage jitter)

-- The rounds: the attempts of the scan are closed whatever their age, then its row is written.
unfoldable pub recover_all :
    WorkerSettings
    → (now : ℕ) → (jitter : ℕ → ℕ) → List ScanRow
    → List ScanRow × Ledger
    → List ScanRow × Ledger
recover_all settings now jitter [] state = state
recover_all settings now jitter (scan ∷ stale) (rows, ledger) =
    recover_all settings now jitter stale (
      map (touch (λ r. r.id == scan.id) (recover_scan settings now (jitter scan.id))) rows,
      (reconcile_stale_api_call_attempts (now + 1) (some scan.id) now ledger).0,
    )

abbrev pub stale_scans : (cutoff now : ℕ) → List ScanRow → List ScanRow
stale_scans cutoff now rows = sort_by (λ r. r.id) (filter (is_stale cutoff now) rows)

unfoldable pub recover_stale_scans :
    WorkerSettings
    → (stale_after now : ℕ) → (jitter : ℕ → ℕ) → List ScanRow
    → Ledger
    → (List ScanRow × Ledger) × ℕ
recover_stale_scans settings stale_after now jitter rows ledger =
    let cutoff = now - stale_after in
    let stale = stale_scans cutoff now rows in
    (
      recover_all settings now jitter stale
          (rows, (reconcile_stale_api_call_attempts cutoff none now ledger).0),
      length stale,
    )
