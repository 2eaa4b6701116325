-- ===== src/Scans/Protocol.antt =====
-- The operations of all workers and pipelines on the table of scans, in any order of their
-- transactions: scan_worker.py and src/rank_rent/services/scanner.py.
use Prim.Native.String.{String}
use digital_real_estate_engi.Common.{ℕ, ◌≡◌, ◌≢◌, Option, none, some, List, All}
use digital_real_estate_engi.Common.Result.{ok}
use digital_real_estate_engi.Scans.Row.{Outputs, ScanRow, ScanSource, WorkerSettings}
use digital_real_estate_engi.Scans.Lease.{ScanExecutionLease}
use digital_real_estate_engi.Scans.Claim.{claim_next_scan}
use digital_real_estate_engi.Scans.Recover.{recover_stale_scans}
use digital_real_estate_engi.Scans.Pipeline.{Notice, set_stage, complete_run, cancel_run, fail_run}
use digital_real_estate_engi.Scans.Begin.{prepare_run}
use digital_real_estate_engi.Scans.Run.{heartbeat_scan, ScanError, finish_run, fail_without_retry}
use digital_real_estate_engi.Costs.State.{Ledger}
use digital_real_estate_engi.Reviews.State.{Reviews}
use digital_real_estate_engi.Reviews.Completeness.{Evidence}

-- One transaction on the table of scans. A pipeline begins with the lease and the scan of its worker, or
-- with neither, and `id` is then the key of a new row; `spent` is a token that no claim draws again.
pub data ScanStep (spent : ℕ) (rows : List ScanRow) : List ScanRow → Type 0 where
  claims :
      (worker_id lease_duration now : ℕ) (token : ℕ → ℕ)
      → ((i : ℕ) → token i ≢ spent)
      → ScanStep spent rows (claim_next_scan worker_id lease_duration now token rows).0
  recovers :
      (settings : WorkerSettings) (stale_after now : ℕ) (jitter : ℕ → ℕ) (ledger : Ledger)
      → ScanStep spent rows (recover_stale_scans settings stale_after now jitter rows ledger).0.0
  beats :
      (lease_time : ℕ) (lease : ScanExecutionLease) (now : ℕ)
      → ScanStep spent rows (heartbeat_scan lease_time lease now rows).0
  resumes :
      (lease : ScanExecutionLease) (id opportunity_id : ℕ) (source : ScanSource) (now : ℕ)
      {after : List ScanRow}
      → All (λ r. r.id ≢ id) rows
      → prepare_run (some lease) (some lease.scan_id) id opportunity_id source now rows ≡ ok after
      → ScanStep spent rows after
  starts :
      (id opportunity_id : ℕ) (source : ScanSource) (now : ℕ) {after : List ScanRow}
      → All (λ r. r.id ≢ id) rows
      → prepare_run none none id opportunity_id source now rows ≡ ok after
      → ScanStep spent rows after
  stages :
      (seen : ScanRow) (lease : Option ScanExecutionLease) (stage : String) (now : ℕ)
      {after : List ScanRow}
      → set_stage seen lease stage now rows ≡ ok after
      → ScanStep spent rows after
  completes :
      (seen : ScanRow) (lease : Option ScanExecutionLease) (outputs : Outputs) (now : ℕ)
      {after : List ScanRow}
      → complete_run seen lease outputs now rows ≡ ok after
      → ScanStep spent rows after
  cancels :
      (evidence : Evidence) (notice : Notice) (lease : Option ScanExecutionLease) (scan_id now : ℕ)
      (reviews reviews' : Reviews) {after : List ScanRow}
      → cancel_run evidence notice lease scan_id now (rows, reviews) ≡ ok (after, reviews')
      → ScanStep spent rows after
  fails :
      (evidence : Evidence) (notice : Notice) (seen : ScanRow) (error : String) (now : ℕ)
      (reviews reviews' : Reviews) {after : List ScanRow}
      → fail_run evidence notice seen error now (rows, reviews) ≡ ok (after, reviews')
      → ScanStep spent rows after
  finishes :
      (settings : WorkerSettings) (lease : ScanExecutionLease) (error : Option ScanError)
      (now jitter : ℕ)
      → ScanStep spent rows (finish_run settings lease error now jitter rows)
  refuses :
      (evidence : Evidence) (notice : Notice) (lease : ScanExecutionLease) (summary : String)
      (now : ℕ) (scan : ScanRow) (reviews reviews' : Reviews) {after : List ScanRow}
      → fail_without_retry evidence notice lease summary now scan (rows, reviews)
        ≡ ok (after, reviews')
      → ScanStep spent rows after

pub data ScanSteps (spent : ℕ) (rows : List ScanRow) : List ScanRow → Type 0 where
  here : ScanSteps spent rows rows
  next :
      {middle after : List ScanRow}
      → ScanSteps spent rows middle
      → ScanStep spent middle after
      → ScanSteps spent rows after
