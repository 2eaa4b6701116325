-- ===== src/Scans/Claim.antt =====
-- `claim_next_scan` of scan_worker.py: the select of due scans, and the loop of conditional updates.
pub mod Rounds
pub mod Correct
pub mod Order
pub mod Owned
use digital_real_estate_engi.Common.{
  ℕ, ◌+◌, Bool, not, Option, none, some, List, [], ◌∷◌, map, ◌&&◌, null_or_le, if◌then◌else◌, ◌==◌,
  filter, take,
}
use digital_real_estate_engi.Common.Table.{update_where}
use digital_real_estate_engi.Common.Sort.{sort_by}
use digital_real_estate_engi.Scans.Row.{
  ScanRow, running, cancelled, is_queued, is_worker_source, put, identifier, moment,
}
use digital_real_estate_engi.Scans.Lease.{ScanExecutionLease}

-- The `where` clause of the select.
unfoldable pub is_claimable : ℕ → ScanRow → Bool
is_claimable claimed_at row =
    is_worker_source row.source
    && (is_queued row.status && null_or_le row.next_attempt_at claimed_at)

-- `order_by(ScanRunORM.id).limit(10)`
pub claimable_ids : ℕ → List ScanRow → List ℕ
unfolding is_claimable sort_by
claimable_ids claimed_at rows =
    take 10 (map (λ r. r.id) (sort_by (λ r. r.id) (filter (is_claimable claimed_at) rows)))

-- The two updates of the loop's body: their tests, less the test of the id, and their values.
abbrev pub to_cancel : ScanRow → Bool
to_cancel row = is_queued row.status && row.cancel_requested

abbrev pub to_claim : ℕ → ScanRow → Bool
to_claim claimed_at row =
    is_queued row.status && (not row.cancel_requested && null_or_le row.next_attempt_at claimed_at)

unfoldable pub cancelled_values : ℕ → ScanRow → ScanRow
cancelled_values claimed_at row = record row {
  status = cancelled;
  progress_stage = "cancelled";
  completed_at = some claimed_at;
  worker_id = none;
  heartbeat_at = none;
  lease_token = none;
  lease_expires_at = none;
}

module _ (worker_id lease_duration claimed_at : ℕ) where
  unfoldable pub claimed_values : (lease_token : ℕ) → ScanRow → ScanRow
  claimed_values lease_token row = record row {
    status = running;
    progress_stage = "planning";
    started_at = some claimed_at;
    completed_at = none;
    error_summary = none;
    worker_id = some worker_id;
    lease_token = some lease_token;
    claimed_at = some claimed_at;
    heartbeat_at = some claimed_at;
    lease_expires_at = some (claimed_at + lease_duration);
    next_attempt_at = none;
  }

  -- The outputs that are written after the claim is committed.
  unfoldable pub annotated : (lease_token : ℕ) → ScanRow → ScanRow
  annotated lease_token row = record row {
    partial_outputs = put "lease_token" (identifier lease_token) (
        put "claimed_at" (moment claimed_at)
          (put "claimed_by" (identifier worker_id) row.partial_outputs));
  }

  -- The loop over the selected ids. `token i` is the `uuid4` that is drawn when scan `i` is tried.
  -- The ids come from an earlier select, so they may be stale: nothing is assumed of them.
  pub claim_from :
      (token : ℕ → ℕ) → List ℕ → List ScanRow → List ScanRow × Option ScanExecutionLease
  unfolding claimed_values annotated cancelled_values update_where
  claim_from token [] rows = (rows, none)
  claim_from token (i ∷ ids) rows =
      let after_cancel =
        update_where (λ r. r.id == i && to_cancel r) (cancelled_values claimed_at) rows in
      let after_claim =
        update_where (λ r. r.id == i && to_claim claimed_at r) (claimed_values (token i)) rows in
      let after_note = update_where (λ r. r.id == i) (annotated (token i)) after_claim.0 in
      let lease : ScanExecutionLease = record {
        scan_id = i;
        worker_id = worker_id;
        lease_token = token i;
      } in
      let rest = claim_from token ids (if after_cancel.1 == 0 then rows else after_cancel.0) in
      if after_cancel.1 == 0
      then if after_claim.1 == 0 then rest else (after_note.0, some lease)
      else rest

  -- `claim_next_scan`
  unfoldable pub claim_next_scan :
      (token : ℕ → ℕ) → List ScanRow → List ScanRow × Option ScanExecutionLease
  unfolding claim_from claimable_ids
  claim_next_scan token rows = claim_from token (claimable_ids claimed_at rows) rows
