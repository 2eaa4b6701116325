-- ===== src/Scans/Fencing/Forever.antt =====
-- A lost lease under the operations of all workers and pipelines, in any order.
use digital_real_estate_engi.Common.{List}
use digital_real_estate_engi.Common.Table.{IsKeyed}
use digital_real_estate_engi.Scans.Row.{ScanRow}
use digital_real_estate_engi.Scans.Lease.{ScanExecutionLease}
use digital_real_estate_engi.Scans.Protocol.{
  ScanStep, claims, recovers, beats, resumes, starts, stages, completes, cancels, fails, finishes,
  refuses, ScanSteps, here, next,
}
use digital_real_estate_engi.Scans.Fencing.{IsLost}
use digital_real_estate_engi.Scans.Fencing.Writes.{
  IsGone, beats-IsGone, finishes-IsGone, resumes-IsGone, starts-IsGone, stages-IsGone,
  completes-IsGone, cancels-IsGone, fails-IsGone, refuses-IsGone, recovers-IsGone, claims-IsGone,
}

-- Every transaction keeps a lost lease lost.
step-IsGone :
    (gone : ScanExecutionLease) {rows after : List ScanRow}
    → IsGone gone rows
    → ScanStep gone.lease_token rows after
    → IsGone gone after
step-IsGone gone {rows} before (claims worker_id lease_duration now token fresh) =
    claims-IsGone gone rows before worker_id lease_duration now token fresh
step-IsGone gone {rows} before (recovers settings stale_after now jitter ledger) =
    recovers-IsGone gone rows before settings stale_after now jitter ledger
step-IsGone gone {rows} before (beats lease_time lease now) =
    beats-IsGone gone rows before lease_time lease now
step-IsGone gone {rows} before (resumes lease id opportunity_id source now fresh h) =
    resumes-IsGone gone rows before lease id opportunity_id source now _ fresh h
step-IsGone gone {rows} before (starts id opportunity_id source now fresh h) =
    starts-IsGone gone rows before id opportunity_id source now _ fresh h
step-IsGone gone {rows} before (stages seen lease stage now h) =
    stages-IsGone gone rows before seen lease stage now _ h
step-IsGone gone {rows} before (completes seen lease outputs now h) =
    completes-IsGone gone rows before seen lease outputs now _ h
step-IsGone gone {rows} before (cancels evidence notice lease scan_id now reviews reviews' h) =
    cancels-IsGone gone rows before evidence notice lease scan_id now reviews reviews' _ h
step-IsGone gone {rows} before (fails evidence notice seen error now reviews reviews' h) =
    fails-IsGone gone rows before evidence notice seen error now reviews reviews' _ h
step-IsGone gone {rows} before (finishes settings lease error now jitter) =
    finishes-IsGone gone rows before settings lease error now jitter
step-IsGone gone {rows} before (refuses evidence notice lease summary now scan reviews reviews' h) =
    refuses-IsGone gone rows before evidence notice lease summary now scan reviews reviews' _ h

-- A lease that no running scan carries is never carried again: no scan runs under it later, whatever
-- the workers do, and the pipelines that they or others start, in any order of their transactions, so
-- long as no claim draws its token again. A pipeline of a worker begins with the worker's lease and its
-- scan, every other one with a new scan. The ids of the table stay distinct.
pub ScanSteps-IsLost :
    (gone : ScanExecutionLease) (rows after : List ScanRow)
    → IsKeyed (λ r. r.id) rows
    → IsLost gone rows
    → ScanSteps gone.lease_token rows after
    → IsKeyed (λ r. r.id) after × IsLost gone after
ScanSteps-IsLost gone rows _ keyed lost here = (keyed, lost)
ScanSteps-IsLost gone rows _ keyed lost (next path last) =
    step-IsGone gone (ScanSteps-IsLost gone rows _ keyed lost path) last
