-- ===== src/Tests/Scans.antt =====
-- The queue of scans at two rows: scan 2 waits, scan 3 runs under a lease.
use digital_real_estate_engi.Common.{
  ℕ, ◌+◌, ◌*◌, ◌≤◌, ◌≡◌, refl, true, false, none, some, [], ◌∷◌, All, arith,
}
use digital_real_estate_engi.Common.Table.{get, IsKeyed}
use digital_real_estate_engi.Scans.Row.{ScanRow}
use digital_real_estate_engi.Scans.Lease.{ScanExecutionLease, current, assert_current_scan_lease}
use digital_real_estate_engi.Scans.Claim.{claim_next_scan, is_claimable}
use digital_real_estate_engi.Scans.Claim.Owned.{IsDue, claim_next_scan-current}
use digital_real_estate_engi.Scans.Claim.Order.{claim_next_scan-least, claim_next_scan-none}
use digital_real_estate_engi.Scans.Claim.Correct.{claimed}
use digital_real_estate_engi.Scans.Retry.{capped_delay, retry_delay}
use digital_real_estate_engi.Scans.Retry.Backoff.{capped_delay_mono, retry_delay-bounds}
use digital_real_estate_engi.Scans.Retry.Exhaust.{Failure, status_after}
use digital_real_estate_engi.Scans.Recover.{recover_scan, recover_stale_scans}
use digital_real_estate_engi.Scans.Recover.Correct.{recover_scan_lem}
use digital_real_estate_engi.Scans.Recover.Abandoned.{
  IsAbandoned, IsRecovered, recover_stale_scans-Recovers,
}
use digital_real_estate_engi.Costs.Balance.{IsBalanced}
use digital_real_estate_engi.Tests.Rows.{queued_row, running_row, two_rows, settings, empty_ledger}

rows-IsKeyed : IsKeyed (λ r. r.id) two_rows
rows-IsKeyed = (((λ e. absurd (omega (arith, e))), tt), (tt, tt))

-- The lease that worker 5 is given at the moment 20.
abbrev new_lease : ScanExecutionLease
new_lease = record { scan_id = 2; worker_id = 5; lease_token = 102 }

abbrev token : ℕ → ℕ
token i = 100 + i

claims_two : (claim_next_scan 5 50 20 token two_rows).1 ≡ some new_lease
unfolding claim_next_scan
claims_two = refl

claim_next_scan-current_example :
    (new_lease.worker_id ≡ 5)
    × (new_lease.lease_token ≡ 102)
    × ((r : ScanRow) × (get (λ r. r.id) 2 two_rows ≡ some r)
        × IsDue 20 r
        × (get (λ r. r.id) 2 (claim_next_scan 5 50 20 token two_rows).0
            ≡ some (claimed 5 50 20 token 2 r)))
    × (assert_current_scan_lease (claim_next_scan 5 50 20 token two_rows).0 new_lease 40 ≡ current)
claim_next_scan-current_example =
    claim_next_scan-current 5 50 20 40 token two_rows new_lease rows-IsKeyed claims_two
      (omega arith)

claim_next_scan-least_example :
    All (λ r. is_claimable 20 r ≡ true → r.cancel_requested ≡ false → 2 ≤ r.id) two_rows
claim_next_scan-least_example =
    claim_next_scan-least 5 50 20 token two_rows new_lease rows-IsKeyed claims_two

-- A queued scan that is to be cancelled.
abbrev unwanted_row : ScanRow
unwanted_row = record queued_row { cancel_requested = true }

claim_next_scan-none_example :
    All (λ r. is_claimable 20 r ≡ true → r.cancel_requested ≡ true) (unwanted_row ∷ [])
unfolding claim_next_scan is_claimable
claim_next_scan-none_example =
    claim_next_scan-none 5 50 20 token (unwanted_row ∷ []) (tt, tt) (omega arith) refl

-- The pass at the moment 100 finds scan 3, whose lease ended at 60.
recover_stale_scans-Recovers_example :
    let ((rows', ledger'), _) =
      recover_stale_scans settings 30 100 (λ i. 0) two_rows empty_ledger in
    (IsAbandoned 70 100 running_row → IsRecovered settings 100 (λ i. 0) 3 running_row rows' ledger')
    × (¬ IsAbandoned 70 100 running_row → get (λ r. r.id) 3 rows' ≡ some running_row)
    × IsBalanced ledger'
unfolding get
recover_stale_scans-Recovers_example =
    recover_stale_scans-Recovers settings 100 (λ i. 0) 3 30 two_rows empty_ledger running_row
      rows-IsKeyed (record { keyed = tt; reserved = λ j. refl; unreconciled = λ j. refl }) refl

recover_scan_lem_example :
    ((recover_scan settings 100 0 running_row).id ≡ 3)
    × ((recover_scan settings 100 0 running_row).lease_token ≡ none)
    × ((recover_scan settings 100 0 running_row).status ≡ status_after 2 3)
recover_scan_lem_example = recover_scan_lem settings 100 0 running_row

abbrev failure : Failure
failure = record { error_summary = "timeout"; now = 100; failed_stage = "planning"; jitter = 0 }

capped_delay_mono_example :
    (capped_delay 2 30 900 ≤ capped_delay 9 30 900) × (capped_delay 9 30 900 ≤ 900)
capped_delay_mono_example = capped_delay_mono 2 9 30 900 (omega arith)

retry_delay-bounds_example :
    (capped_delay 3 30 900 ≤ 2 * retry_delay 3 30 900 500000 + 1)
    × (retry_delay 3 30 900 500000 ≤ capped_delay 3 30 900)
    × (retry_delay 3 30 900 500000 ≤ 900)
retry_delay-bounds_example = retry_delay-bounds 3 30 900 500000
