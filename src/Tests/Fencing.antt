-- ===== src/Tests/Fencing.antt =====
-- Scan 3 runs under the lease of worker 8; worker 7 had it before.
use digital_real_estate_engi.Common.{◌+◌, ◌≡◌, refl, false, none, some, List, [], arith}
use digital_real_estate_engi.Common.Table.{get, IsKeyed}
use digital_real_estate_engi.Common.Result.{ok, raised}
use digital_real_estate_engi.Scans.Row.{ScanRow}
use digital_real_estate_engi.Scans.Lease.{lease_lost, lease_matches, owns}
use digital_real_estate_engi.Scans.Pipeline.{Notice, set_stage, complete_run}
use digital_real_estate_engi.Scans.Run.{heartbeat_scan, finish_run, fail_without_retry}
use digital_real_estate_engi.Scans.Protocol.{here, next, claims, beats}
use digital_real_estate_engi.Scans.Claim.{claim_next_scan}
use digital_real_estate_engi.Scans.Fencing.{IsLost, lost_lease-writes_nothing}
use digital_real_estate_engi.Scans.Fencing.Forever.{ScanSteps-IsLost}
use digital_real_estate_engi.Tests.Rows.{
  running_row, two_rows, current_lease, former_lease, settings,
}
use digital_real_estate_engi.Tests.Reviews.{no_evidence, running_reviews}

rows-IsKeyed : IsKeyed (λ r. r.id) two_rows
rows-IsKeyed = ((λ e. absurd (omega (arith, e)), tt), (tt, tt))

abbrev notice : Notice
notice = record { opportunity_id = 4; pipeline = 0; decision = 1; reason = 2 }

finds : get (λ r. r.id) 3 two_rows ≡ some running_row
unfolding get
finds = refl

is_replaced : owns running_row former_lease ≡ false
unfolding owns
is_replaced = refl

lost_lease-writes_nothing_example :
    (heartbeat_scan 50 former_lease 40 two_rows ≡ (two_rows, false))
    × (set_stage running_row (some former_lease) "serps" 40 two_rows ≡ raised lease_lost)
    × (complete_run running_row (some former_lease) [] 40 two_rows ≡ raised lease_lost)
    × (fail_without_retry no_evidence notice former_lease "late" 40 running_row
          (two_rows, running_reviews)
        ≡ ok (two_rows, running_reviews))
    × (lease_matches running_row former_lease ≡ false
        → finish_run settings former_lease none 40 0 two_rows ≡ two_rows)
lost_lease-writes_nothing_example =
    lost_lease-writes_nothing former_lease 40 two_rows running_row running_row rows-IsKeyed finds
      is_replaced 50 0 "serps" "late" [] settings none no_evidence notice running_reviews

-- The former worker never runs scan 3 again: here a claim and a heartbeat follow.
abbrev after_claim : List ScanRow
after_claim = (claim_next_scan 7 50 20 (λ i. 100 + i) two_rows).0

ScanSteps-IsLost_example :
    IsKeyed (λ r. r.id) (heartbeat_scan 50 current_lease 40 after_claim).0
    × IsLost former_lease (heartbeat_scan 50 current_lease 40 after_claim).0
unfolding get owns
ScanSteps-IsLost_example =
    ScanSteps-IsLost former_lease two_rows (heartbeat_scan 50 current_lease 40 after_claim).0
      rows-IsKeyed refl
      (next (next here (claims 7 50 20 (λ i. 100 + i) (λ i e. absurd (omega (arith, e)))))
        (beats 50 current_lease 40))
