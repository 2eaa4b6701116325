-- ===== src/Scans/Begin.antt =====
-- How a pipeline begins a run: `_prepare_scan_run` in src/rank_rent/services/scanner.py. The worker
-- passes its lease and the scan of the lease, every other caller neither.
use digital_real_estate_engi.Common.{
  ℕ, false, Option, none, some, List, [], ◌∷◌, map, ◌==◌, if◌then◌else◌,
}
use digital_real_estate_engi.Common.Table.{get, touch}
use digital_real_estate_engi.Common.Result.{Result, ok, ◌>>◌}
use digital_real_estate_engi.Scans.Row.{ScanRow, ScanSource, running, pending}
use digital_real_estate_engi.Scans.Lease.{ScanExecutionLease, LeaseCheck}
use digital_real_estate_engi.Scans.Pipeline.{ensure_lease}

-- The values of the columns of a new row.
unfoldable pub new_run : (id : ℕ) → ScanSource → ScanRow
new_run id source = record {
  id = id;
  opportunity_id = none;
  source_scan_run_id = none;
  source = source;
  status = pending;
  progress_stage = "queued";
  started_at = none;
  completed_at = none;
  error_summary = none;
  partial_outputs = [];
  retry_count = 0;
  max_attempts = 4;
  next_attempt_at = none;
  cancel_requested = false;
  worker_id = none;
  lease_token = none;
  claimed_at = none;
  heartbeat_at = none;
  lease_expires_at = none;
  quarantined_at = none;
  quarantine_reason = none;
}

unfoldable pub prepared_run_values :
    (opportunity_id : ℕ) → ScanSource → (now : ℕ) → ScanRow → ScanRow
prepared_run_values opportunity_id source now scan = record scan {
  opportunity_id = some opportunity_id;
  source = source;
  status = running;
  progress_stage = "planning";
  started_at = some now;
  completed_at = none;
  error_summary = none;
}

-- `self.session.get(ScanRunORM, existing_scan_id) if existing_scan_id else None`
abbrev pub existing_scan : Option ℕ → List ScanRow → Option ScanRow
existing_scan none rows = none
existing_scan (some i) rows = if i == 0 then none else get (λ r. r.id) i rows

-- The row that was there is written, a new one is added.
abbrev pub write_run :
    (id opportunity_id : ℕ) → ScanSource → (now : ℕ) → Option ScanRow → List ScanRow → List ScanRow
write_run id opportunity_id source now none rows =
    prepared_run_values opportunity_id source now (new_run id source) ∷ rows
write_run id opportunity_id source now (some scan) rows =
    map (touch (λ r. r.id == scan.id) (prepared_run_values opportunity_id source now)) rows

-- `id` is the key that the database gives to a new row.
unfoldable pub prepare_run :
    Option ScanExecutionLease
    → (existing : Option ℕ) → (id opportunity_id : ℕ) → ScanSource
    → (now : ℕ) → List ScanRow
    → Result LeaseCheck (List ScanRow)
prepare_run lease existing id opportunity_id source now rows = do
  ensure_lease lease now rows
  ok (write_run id opportunity_id source now (existing_scan existing rows) rows)
