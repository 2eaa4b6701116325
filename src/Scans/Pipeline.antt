-- ===== src/Scans/Pipeline.antt =====
-- How a running scan writes its row: `_set_stage` and the ends of `ScanPipeline.run` in
-- src/rank_rent/services/scanner.py. `seen` is the copy of the row that the pipeline's session holds:
-- the session does not expire it on a commit, so it may be older than the table.
use Prim.Native.String.{String}
use digital_real_estate_engi.Common.{
  ℕ, Bool, true, false, Option, none, some, List, map, ◌&&◌, ◌==◌, ltb, if◌then◌else◌,
}
use digital_real_estate_engi.Common.Table.{get, touch, update_where}
use digital_real_estate_engi.Common.Result.{Result, ok, raised, ◌>>=◌, ◌>>◌}
use digital_real_estate_engi.Scans.Row.{
  ScanRow, completed, cancelled, failed, Outputs, put, flag, label,
}
use digital_real_estate_engi.Scans.Lease.{
  ScanExecutionLease, owns, LeaseCheck, current, lease_lost, assert_current_scan_lease,
}
use digital_real_estate_engi.Reviews.State.{needs_more_evidence, ReviewError, Reviews}
use digital_real_estate_engi.Reviews.Completeness.{Evidence}
use digital_real_estate_engi.Reviews.Transition.{transition_system}

-- `column is not null and column > value`
abbrev pub is_after : Option ℕ → ℕ → Bool
is_after none now = false
is_after (some t) now = ltb now t

unfoldable pub staged : ScanRow → (stage : String) → ScanRow → ScanRow
staged seen stage row = record row {
  progress_stage = stage;
  partial_outputs = put "last_successful_stage" (label stage) seen.partial_outputs;
}

-- `_set_stage`: with a lease the write is conditional, and it must hit one row.
unfoldable pub set_stage :
    ScanRow
    → Option ScanExecutionLease
    → (stage : String) → (now : ℕ) → List ScanRow
    → Result LeaseCheck (List ScanRow)
set_stage seen none stage now rows =
    ok (map (touch (λ r. r.id == seen.id) (staged seen stage)) rows)
set_stage seen (some lease) stage now rows =
    let (rows', count) =
      update_where (λ r. r.id == lease.scan_id && (owns r lease && is_after r.lease_expires_at now))
        (staged seen stage) rows in
    if count == 1 then ok rows' else raised lease_lost

unfoldable pub ensure_lease : Option ScanExecutionLease → ℕ → List ScanRow → Result LeaseCheck Unit
ensure_lease none now rows = ok tt
ensure_lease (some lease) now rows = elim (assert_current_scan_lease rows lease now) [
  | current ↦ ok tt
  | reason ↦ raised reason
]

-- The successful end: `outputs` is what the pipeline has gathered. The lease is checked, with the row
-- locked, after the row was written and before the commit.
unfoldable pub completed_values : Outputs → (now : ℕ) → ScanRow → ScanRow
completed_values outputs now row = record row {
  status = completed;
  progress_stage = "completed";
  completed_at = some now;
  partial_outputs = outputs;
}

unfoldable pub complete_run :
    ScanRow
    → Option ScanExecutionLease
    → Outputs
    → (now : ℕ) → List ScanRow
    → Result LeaseCheck (List ScanRow)
complete_run seen lease outputs now rows = do
  ensure_lease lease now rows
  ok (map (touch (λ r. r.id == seen.id) (completed_values outputs now)) rows)

-- `except ScanCancelled` and `except Exception`: the rows of the scan and of its opportunity are
-- committed together. `ScanCancelled` comes from `_ensure_not_cancelled` alone, in the transaction of the
-- handler, after the check of the lease; the other handler follows no check.
unfoldable pub cancelled_run_values : ScanRow → (now : ℕ) → ScanRow → ScanRow
cancelled_run_values seen now row = record row {
  status = cancelled;
  progress_stage = "cancelled";
  completed_at = some now;
  partial_outputs = put "cancelled" (flag true) seen.partial_outputs;
}

unfoldable pub failed_run_values : ScanRow → (error : String) → (now : ℕ) → ScanRow → ScanRow
failed_run_values seen error now row = record row {
  status = failed;
  progress_stage = "failed";
  error_summary = some error;
  completed_at = some now;
  partial_outputs =
      put "error" (label error)
        (put "failed_stage" (label seen.progress_stage) seen.partial_outputs);
}

-- The opportunity of the scan, with the texts of the review row and the pipeline's actor.
pub record Notice : Type 0 where
  pub opportunity_id : ℕ
  pub pipeline : ℕ
  pub decision : ℕ
  pub reason : ℕ

abbrev pub needs_evidence : Evidence → (now : ℕ) → Notice → Reviews → Result ReviewError Reviews
needs_evidence evidence now notice reviews =
    transition_system evidence now notice.pipeline notice.opportunity_id needs_more_evidence
      notice.decision notice.reason reviews

-- `_ensure_not_cancelled`: with the copy of the row refreshed, whether it raises `ScanCancelled`.
pub data CancelCheck : Type 0 where
  not_requested row_missing : CancelCheck
  lease_failed : LeaseCheck → CancelCheck
  review_refused : ReviewError → CancelCheck

abbrev pub of_lease : Result LeaseCheck Unit → Result CancelCheck Unit
of_lease (ok tt) = ok tt
of_lease (raised reason) = raised (lease_failed reason)

abbrev pub of_review : Result ReviewError Reviews → Result CancelCheck Reviews
of_review (ok reviews) = ok reviews
of_review (raised reason) = raised (review_refused reason)

abbrev pub cancelled_row : Option ScanRow → Result CancelCheck ScanRow
cancelled_row none = raised row_missing
cancelled_row (some row) = if row.cancel_requested then ok row else raised not_requested

unfoldable pub cancel_run :
    Evidence
    → Notice
    → Option ScanExecutionLease
    → (scan_id now : ℕ) → List ScanRow × Reviews
    → Result CancelCheck (List ScanRow × Reviews)
cancel_run evidence notice lease scan_id now (rows, reviews) = do
  of_lease (ensure_lease lease now rows)
  seen ← cancelled_row (get (λ r. r.id) scan_id rows)
  reviews' ← of_review (needs_evidence evidence now notice reviews)
  ok (map (touch (λ r. r.id == seen.id) (cancelled_run_values seen now)) rows, reviews')

unfoldable pub fail_run :
    Evidence
    → Notice
    → ScanRow
    → (error : String) → (now : ℕ) → List ScanRow × Reviews
    → Result ReviewError (List ScanRow × Reviews)
fail_run evidence notice seen error now (rows, reviews) = do
  reviews' ← needs_evidence evidence now notice reviews
  ok (map (touch (λ r. r.id == seen.id) (failed_run_values seen error now)) rows, reviews')
