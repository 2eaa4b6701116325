-- ===== src/Scans/Fencing/Writes.antt =====
-- No transaction of a worker or a pipeline gives a lost lease to a row.
use Prim.Native.String.{String}
use digital_real_estate_engi.Common.{
  ℕ, ◌≡◌, ◌≢◌, refl, sym, eq_of_==, All, ◌∷◌, inl, inr, Bool, true, false, Option, none, some, List,
  map, ◌==◌, if◌then◌else◌, arith, Bool-cases, Option-cases,
}
use digital_real_estate_engi.Common.Table.{
  get, key-get, get-touch_key, touch, update_where, get-map, IsKeyed, IsKeyed-map,
}
use digital_real_estate_engi.Common.Result.{ok, raised, ◌>>=◌, >>-eq-ok, >>=-eq-ok, ok_inj, Result}
use mathlib.Core.Path.{subst}
use digital_real_estate_engi.Scans.Row.{Outputs, ScanRow, ScanSource, WorkerSettings, is_running}
use digital_real_estate_engi.Scans.Lease.{
  ScanExecutionLease, lease_matches, owns, clear_lease, LeaseCheck, lease_lost,
  assert_current_scan_lease,
}
use digital_real_estate_engi.Scans.Claim.{
  claim_next_scan, claimable_ids, claimed_values, annotated, cancelled_values,
}
use digital_real_estate_engi.Scans.Retry.{retry_or_quarantine}
use digital_real_estate_engi.Scans.Claim.Correct.{claim_next_scan-Claims, claim_from-IsKeyed}
use digital_real_estate_engi.Scans.Recover.{recover_stale_scans}
use digital_real_estate_engi.Scans.Recover.Correct.{
  recover_scan_lem, recover_stale_scans-row, recover_stale_scans-IsKeyed,
}
use digital_real_estate_engi.Scans.Pipeline.{
  of_lease, of_review, cancelled_row, ensure_lease, Notice, needs_evidence, staged, set_stage,
  completed_values, complete_run, cancelled_run_values, cancel_run, failed_run_values, fail_run,
}
use digital_real_estate_engi.Scans.Begin.{prepared_run_values, new_run, prepare_run}
use digital_real_estate_engi.Scans.Run.{
  beaten, heartbeat_scan, ScanError, finished, finish_run, failed_values, fail_without_retry,
}
use digital_real_estate_engi.Scans.Fencing.{IsLost}
use digital_real_estate_engi.Costs.State.{Ledger}
use digital_real_estate_engi.Reviews.State.{ReviewError, Reviews}
use digital_real_estate_engi.Reviews.Completeness.{Evidence}

-- The table's ids are distinct, and no row is running under the lease.
abbrev pub IsGone : ScanExecutionLease → List ScanRow → Type 0
IsGone lease rows = IsKeyed (λ r. r.id) rows × IsLost lease rows

module _ (gone : ScanExecutionLease) (rows : List ScanRow) (before : IsGone gone rows) where
  -- A write that keeps the ids and gives the lease to no row.
  write-IsGone :
      (p : ScanRow → Bool) (f : ScanRow → ScanRow)
      → ((r : ScanRow) → (f r).id ≡ r.id)
      → ((r : ScanRow) → owns r gone ≡ false → owns (f r) gone ≡ false)
      → IsGone gone (map (touch p f) rows)
  write-IsGone p f same keep = (
    IsKeyed-map (λ r. r.id) (touch p f) (λ r. ground (arith, same r)) rows before.0,
    elim (Option-cases (get (λ r. r.id) gone.scan_id rows)) [
      | inl absent ↦
          rw
            (
              get-map (λ r. r.id) (touch p f) (λ r. ground (arith, same r)) gone.scan_id rows,
              absent,
            )
            refl
      | inr (r, found) ↦
          rw
            (get-map (λ r. r.id) (touch p f) (λ r. ground (arith, same r)) gone.scan_id rows, found)
            (ground (arith, before.1, found, keep r))
    ],
  )

  -- What a call commits is the table that it has written.
  of_committed :
      (b : Bool) (written after : List ScanRow)
      → ◌≡◌ {A = Result LeaseCheck (List ScanRow)}
          (if b then ok written else raised lease_lost)
          (ok after)
      → IsGone gone written
      → IsGone gone after
  of_committed true written after h gone_before = subst (IsGone gone) (ok_inj h) gone_before
  of_committed false written after h gone_before = cc

  of_reviewed :
      (review : Result ReviewError Reviews) (written after : List ScanRow) (reviews : Reviews)
      → ◌>>=◌ {B = List ScanRow × Reviews} review (λ reviews'. ok (written, reviews'))
        ≡ ok (after, reviews)
      → IsGone gone written
      → IsGone gone after
  of_reviewed (ok _) written after reviews h gone_before =
      subst (λ t. IsGone gone t.0) (ok_inj h) gone_before
  of_reviewed (raised _) written after reviews h gone_before = cc

  pub beats-IsGone :
      (lease_time : ℕ) (lease : ScanExecutionLease) (now : ℕ)
      → IsGone gone (heartbeat_scan lease_time lease now rows).0
  unfolding heartbeat_scan update_where beaten owns lease_matches
  beats-IsGone lease_time lease now = write-IsGone _ (beaten lease_time now) (λ r. refl) (λ r h. h)

  finished-keeps :
      (settings : WorkerSettings) (error : Option ScanError) (now jitter : ℕ) (r : ScanRow)
      → ((finished settings error now jitter r).id ≡ r.id)
        × (owns r gone ≡ false → owns (finished settings error now jitter r) gone ≡ false)
  unfolding finished retry_or_quarantine clear_lease owns lease_matches
  finished-keeps settings none now jitter r = ground arith
  finished-keeps settings (some error) now jitter r = ground arith

  pub finishes-IsGone :
      (settings : WorkerSettings) (lease : ScanExecutionLease) (error : Option ScanError)
      (now jitter : ℕ)
      → IsGone gone (finish_run settings lease error now jitter rows)
  unfolding finish_run
  finishes-IsGone settings lease error now jitter =
      elim (Option-cases (get (λ r. r.id) lease.scan_id rows)) [
        | inl absent ↦ rw (absent, finish_run) before
        | inr (scan, found) ↦ elim (Bool-cases (lease_matches scan lease)) [
          | inr other ↦ rw (found, other, finish_run) before
          | inl own ↦
              rw (found, own, finish_run)
                (write-IsGone (λ r. r.id == lease.scan_id) (finished settings error now jitter)
                  (λ r. (finished-keeps settings error now jitter r).0)
                  (λ r. (finished-keeps settings error now jitter r).1))
        ]
      ]

  pub stages-IsGone :
      (seen : ScanRow) (lease : Option ScanExecutionLease) (stage : String) (now : ℕ)
      (after : List ScanRow)
      → set_stage seen lease stage now rows ≡ ok after
      → IsGone gone after
  unfolding set_stage update_where staged owns lease_matches
  stages-IsGone seen none stage now after h =
      subst (IsGone gone) (ok_inj h)
        (write-IsGone (λ r. r.id == seen.id) (staged seen stage) (λ r. refl) (λ r k. k))
  stages-IsGone seen (some lease) stage now after h =
      of_committed _ _ after h (write-IsGone _ (staged seen stage) (λ r. refl) (λ r k. k))

  pub completes-IsGone :
      (seen : ScanRow) (lease : Option ScanExecutionLease) (outputs : Outputs) (now : ℕ)
      (after : List ScanRow)
      → complete_run seen lease outputs now rows ≡ ok after
      → IsGone gone after
  unfolding complete_run completed_values owns
  completes-IsGone seen lease outputs now after h =
      subst (IsGone gone) (ok_inj (>>-eq-ok _ _ h).1) (
        write-IsGone (λ r. r.id == seen.id) (completed_values outputs now) (λ r. refl)
          (λ r k. refl))

  pub cancels-IsGone :
      (evidence : Evidence) (notice : Notice) (lease : Option ScanExecutionLease) (scan_id now : ℕ)
      (reviews reviews' : Reviews) (after : List ScanRow)
      → cancel_run evidence notice lease scan_id now (rows, reviews) ≡ ok (after, reviews')
      → IsGone gone after
  unfolding cancel_run cancelled_run_values owns
  cancels-IsGone evidence notice lease scan_id now reviews reviews' after h =
      let (_, h1) = >>-eq-ok (of_lease (ensure_lease lease now rows)) _ h in
      let (seen, _, h2) = >>=-eq-ok (cancelled_row (get (λ r. r.id) scan_id rows)) _ h1 in
      let (_, _, done) = >>=-eq-ok (of_review (needs_evidence evidence now notice reviews)) _ h2 in
      subst (λ t. IsGone gone t.0) (ok_inj done)
        (write-IsGone (λ r. r.id == seen.id) (cancelled_run_values seen now) (λ r. refl)
          (λ r k. refl))

  pub fails-IsGone :
      (evidence : Evidence) (notice : Notice) (seen : ScanRow) (error : String) (now : ℕ)
      (reviews reviews' : Reviews) (after : List ScanRow)
      → fail_run evidence notice seen error now (rows, reviews) ≡ ok (after, reviews')
      → IsGone gone after
  unfolding fail_run failed_run_values owns
  fails-IsGone evidence notice seen error now reviews reviews' after h =
      of_reviewed (needs_evidence evidence now notice reviews) _ after reviews' h (
        write-IsGone (λ r. r.id == seen.id) (failed_run_values seen error now) (λ r. refl)
          (λ r k. refl))

  pub refuses-IsGone :
      (evidence : Evidence) (notice : Notice) (lease : ScanExecutionLease) (summary : String)
      (now : ℕ) (scan : ScanRow) (reviews reviews' : Reviews) (after : List ScanRow)
      → fail_without_retry evidence notice lease summary now scan (rows, reviews)
        ≡ ok (after, reviews')
      → IsGone gone after
  unfolding fail_without_retry failed_values clear_lease owns
  refuses-IsGone evidence notice lease summary now scan reviews reviews' after h =
      elim (Bool-cases (owns scan lease)) [
        | inl own ↦ of_reviewed _ _ after reviews' (rw own at h) (
            write-IsGone (λ r. r.id == scan.id) (failed_values summary now) (λ r. refl)
              (λ r k. refl))
        | inr other ↦ subst (λ t. IsGone gone t.0) (ok_inj (rw other at h)) before
      ]

  pub recovers-IsGone :
      (settings : WorkerSettings) (stale_after now : ℕ) (jitter : ℕ → ℕ) (ledger : Ledger)
      → IsGone gone (recover_stale_scans settings stale_after now jitter rows ledger).0.0
  unfolding owns lease_matches
  recovers-IsGone settings stale_after now jitter ledger = (
    recover_stale_scans-IsKeyed settings now jitter stale_after rows ledger before.0,
    elim (Option-cases (get (λ r. r.id) gone.scan_id rows)) [
      | inl absent ↦
          rw
            (
              recover_stale_scans-row settings now jitter stale_after gone.scan_id rows ledger
                  before.0,
              absent,
            )
            refl
      | inr (r, found) ↦
          rw
            (
              recover_stale_scans-row settings now jitter stale_after gone.scan_id rows ledger
                  before.0,
              found,
            )
            (ground
              (arith, before.1, found, (recover_scan_lem settings now (jitter gone.scan_id) r).1))
    ],
  )

  pub claims-IsGone :
      (worker_id lease_duration now : ℕ) (token : ℕ → ℕ)
      → ((i : ℕ) → token i ≢ gone.lease_token)
      → IsGone gone (claim_next_scan worker_id lease_duration now token rows).0
  unfolding claim_next_scan owns lease_matches cancelled_values claimed_values annotated
  claims-IsGone worker_id lease_duration now token fresh = (
    claim_from-IsKeyed worker_id lease_duration now token (claimable_ids now rows) rows before.0,
    elim (claim_next_scan-Claims worker_id lease_duration now token gone.scan_id rows before.0) [
      | inl (inl same) ↦ rw same before.1
      | inl (inr (r, found, c, e)) ↦ rw e refl
      | inr (r, found, t, e, l) ↦ rw e (ground (arith, fresh gone.scan_id))
    ],
  )

  -- The row that a lease runs, prepared_run_values again, is run by the same lease.
  prepared_run_values-IsGone :
      (opportunity_id : ℕ) (source : ScanSource) (now i : ℕ) (scan : ScanRow)
      → get (λ r. r.id) i rows ≡ some scan
      → is_running scan.status ≡ true
      → IsGone gone
          (map (touch (λ r. r.id == i) (prepared_run_values opportunity_id source now)) rows)
  unfolding prepared_run_values owns lease_matches
  prepared_run_values-IsGone opportunity_id source now i scan found runs = (
    IsKeyed-map (λ r. r.id) (touch (λ r. r.id == i) (prepared_run_values opportunity_id source now))
        (λ r. ground arith) rows before.0,
    elim (Option-cases (get (λ r. r.id) gone.scan_id rows)) [
      | inl absent ↦
          rw
            (
              get-touch_key (λ r. r.id) (prepared_run_values opportunity_id source now) (λ r. refl)
                  i gone.scan_id rows,
              absent,
            )
            (ground arith)
      | inr (r, its) ↦
          rw
            (
              get-touch_key (λ r. r.id) (prepared_run_values opportunity_id source now) (λ r. refl)
                  i gone.scan_id rows,
              its,
            )
            (elim (Bool-cases (gone.scan_id == i)) [
              | inl same ↦
                  let key : i ≡ gone.scan_id = sym (eq_of_== _ _ same) in
                  let seen = subst (λ k. get (λ r. r.id) k rows ≡ some scan) key found in
                  let is : scan ≡ r = ground (arith, seen, its) in
                  let running_r : is_running r.status ≡ true =
                    subst (λ x. is_running x.status ≡ true) is runs in
                  ground (arith, same, before.1, its, running_r)
              | inr other ↦ ground (arith, other, before.1, its)
            ])
    ],
  )

  -- A new row carries no lease.
  added-IsGone :
      (id opportunity_id : ℕ) (source : ScanSource) (now : ℕ)
      → All (λ r. r.id ≢ id) rows
      → IsGone gone (prepared_run_values opportunity_id source now (new_run id source) ∷ rows)
  unfolding prepared_run_values new_run owns lease_matches get
  added-IsGone id opportunity_id source now fresh = ((fresh, before.0), ground (arith, before.1))

  ensured :
      (lease : ScanExecutionLease) (now : ℕ)
      → ensure_lease (some lease) now rows ≡ ok tt
      → (scan : ScanRow) × (get (λ r. r.id) lease.scan_id rows ≡ some scan)
        × (is_running scan.status ≡ true)
  unfolding ensure_lease assert_current_scan_lease
  ensured lease now h = elim (Option-cases (get (λ r. r.id) lease.scan_id rows)) [
    | inl absent ↦ absurd (ground (arith, absent, h))
    | inr (scan, found) ↦ (scan, found, ground (arith, found, h))
  ]

  pub resumes-IsGone :
      (lease : ScanExecutionLease) (id opportunity_id : ℕ) (source : ScanSource) (now : ℕ)
      (after : List ScanRow)
      → All (λ r. r.id ≢ id) rows
      → prepare_run (some lease) (some lease.scan_id) id opportunity_id source now rows ≡ ok after
      → IsGone gone after
  unfolding prepare_run
  resumes-IsGone lease id opportunity_id source now after fresh h =
      let (current_lease, done) = >>-eq-ok (ensure_lease (some lease) now rows) _ h in
      let (scan, found, runs) = ensured lease now current_lease in
      subst (IsGone gone) (ok_inj done) (elim (Bool-cases (lease.scan_id == 0)) [
        | inl zero ↦ rw zero (added-IsGone id opportunity_id source now fresh)
        | inr named ↦
            rw (named, found)
              (prepared_run_values-IsGone opportunity_id source now scan.id scan
                (rw (key-get (λ r. r.id) lease.scan_id rows scan found) found) runs)
      ])

  pub starts-IsGone :
      (id opportunity_id : ℕ) (source : ScanSource) (now : ℕ) (after : List ScanRow)
      → All (λ r. r.id ≢ id) rows
      → prepare_run none none id opportunity_id source now rows ≡ ok after
      → IsGone gone after
  unfolding prepare_run
  starts-IsGone id opportunity_id source now after fresh h =
      subst (IsGone gone) (ok_inj (>>-eq-ok (ensure_lease none now rows) _ h).1)
        (added-IsGone id opportunity_id source now fresh)
