-- ===== src/Scans/Lease.antt =====
-- Leases: src/rank_rent/services/scan_leases.py, with `_owns`, `_lease_matches` and `_clear_lease`
-- of scan_worker.py.
use digital_real_estate_engi.Common.{
  ℕ, Bool, true, not, Option, none, some, List, ◌&&◌, ◌||◌, holds, leb, if◌then◌else◌,
}
use digital_real_estate_engi.Common.Table.{get}
use digital_real_estate_engi.Scans.Row.{ScanRow, is_running}

pub record ScanExecutionLease : Type 0 where
  pub scan_id : ℕ
  pub worker_id : ℕ
  pub lease_token : ℕ

unfoldable pub lease_matches : ScanRow → ScanExecutionLease → Bool
lease_matches scan lease =
    holds scan.worker_id lease.worker_id && holds scan.lease_token lease.lease_token

unfoldable pub owns : ScanRow → ScanExecutionLease → Bool
unfolding lease_matches
owns scan lease = is_running scan.status && lease_matches scan lease

unfoldable pub clear_lease : ScanRow → ScanRow
clear_lease scan = record scan {
  worker_id = none;
  lease_token = none;
  claimed_at = none;
  heartbeat_at = none;
  lease_expires_at = none;
}

-- `expires_at is None or expires_at <= checked_at`
abbrev pub is_expired : Option ℕ → ℕ → Bool
is_expired none _ = true
is_expired (some e) now = leb e now

-- The reasons of `ScanLeaseLost`.
pub data LeaseCheck : Type 0 where
  current : LeaseCheck
  scan_missing : LeaseCheck
  lease_lost : LeaseCheck

check_row : Option ScanRow → ScanExecutionLease → ℕ → LeaseCheck
check_row none lease now = scan_missing
check_row (some row) lease now =
    if not (is_running row.status)
      || not (holds row.worker_id lease.worker_id)
      || not (holds row.lease_token lease.lease_token)
      || is_expired row.lease_expires_at now
    then lease_lost
    else current

-- `assert_current_scan_lease`: `current` where the source returns, else the reason that it raises.
unfoldable pub assert_current_scan_lease : List ScanRow → ScanExecutionLease → ℕ → LeaseCheck
unfolding check_row
assert_current_scan_lease rows lease now = check_row (get (λ r. r.id) lease.scan_id rows) lease now
