-- ===== src/Tests/Rows.antt =====
-- The rows and settings that the tests share.
use digital_real_estate_engi.Common.{ℕ, false, none, some, List, [], ◌∷◌}
use digital_real_estate_engi.Scans.Row.{
  ScanRow, ScanStatus, WorkerSettings, manual_async, queued, running,
}
use digital_real_estate_engi.Scans.Lease.{ScanExecutionLease}
use digital_real_estate_engi.Costs.State.{Bucket, Ledger}

abbrev pub row_of : ℕ → ScanStatus → ScanRow
row_of i status = record {
  id = i;
  opportunity_id = some 4;
  source_scan_run_id = none;
  source = manual_async;
  status = status;
  progress_stage = "planning";
  started_at = none;
  completed_at = none;
  error_summary = none;
  partial_outputs = [];
  retry_count = 1;
  max_attempts = 3;
  next_attempt_at = none;
  cancel_requested = false;
  worker_id = none;
  lease_token = none;
  claimed_at = none;
  heartbeat_at = none;
  lease_expires_at = none;
  quarantined_at = none;
  quarantine_reason = none;
}

abbrev pub queued_row : ScanRow
queued_row = row_of 2 queued

-- Worker 8 runs scan 3 under the token 90 until the moment 60.
abbrev pub running_row : ScanRow
running_row = record (row_of 3 running) {
  worker_id = some 8;
  lease_token = some 90;
  heartbeat_at = some 10;
  lease_expires_at = some 60;
}

abbrev pub two_rows : List ScanRow
two_rows = queued_row ∷ running_row ∷ []

abbrev pub current_lease : ScanExecutionLease
current_lease = record { scan_id = 3; worker_id = 8; lease_token = 90 }

-- The lease of the worker that had scan 3 before.
abbrev pub former_lease : ScanExecutionLease
former_lease = record { scan_id = 3; worker_id = 7; lease_token = 80 }

abbrev pub settings : WorkerSettings
settings = record {
  scan_worker_max_attempts = 3;
  scan_worker_retry_base = 30;
  scan_worker_retry_max = 900;
}

abbrev pub empty_bucket : Bucket
empty_bucket = record {
  request_count = 0;
  spend_usd = 0;
  reserved_spend_usd = 0;
  unreconciled_spend_usd = 0;
  cache_miss_count = 0;
  unexpected_call_count = 0;
  abnormal_cost_count = 0;
  provider_failure_count = 0;
  schema_drift_count = 0;
}

abbrev pub empty_ledger : Ledger
empty_ledger = record { calls = []; buckets = λ j. empty_bucket }
