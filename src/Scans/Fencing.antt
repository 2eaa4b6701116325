-- ===== src/Scans/Fencing.antt =====
-- What a worker without a current lease can still write: the lease checks of scan_worker.py,
-- scan_leases.py and src/rank_rent/services/scanner.py.
pub mod Writes
pub mod Forever
pub mod Unfenced
use Prim.Native.String.{String}
use digital_real_estate_engi.Common.{
  ℕ, ◌≡◌, refl, inl, inr, ◌∙◌, Bool, false, Option, some, List, [], ◌∷◌, map, ◌&&◌, ◌==◌, arith,
  Bool-cases, Option-cases,
}
use digital_real_estate_engi.Common.Table.{
  get, hits, touch, count_where, update_where, count-by_key, IsKeyed,
}
use digital_real_estate_engi.Common.Result.{ok, raised}
use digital_real_estate_engi.Scans.Row.{Outputs, ScanRow, WorkerSettings}
use digital_real_estate_engi.Scans.Lease.{
  ScanExecutionLease, lease_matches, owns, lease_lost, assert_current_scan_lease,
}
use digital_real_estate_engi.Scans.Pipeline.{
  Notice, is_after, set_stage, ensure_lease, complete_run,
}
use digital_real_estate_engi.Scans.Run.{
  beaten, heartbeat_scan, ScanError, finish_run, fail_without_retry,
}
use digital_real_estate_engi.Reviews.State.{Reviews}
use digital_real_estate_engi.Reviews.Completeness.{Evidence}

-- No row of the table is running under the lease.
abbrev pub IsLost : ScanExecutionLease → List ScanRow → Type 0
IsLost lease rows = hits (λ r. owns r lease) (get (λ r. r.id) lease.scan_id rows) ≡ 0

-- An update that hits no row leaves the table as it was.
map-touch_none {ℓ} :
    {A : Type ℓ} (p : A → Bool) (f : A → A) (xs : List A)
    → count_where p xs ≡ 0
    → map (touch p f) xs ≡ xs
map-touch_none p f [] h = refl
map-touch_none p f (x ∷ xs) h = elim (Bool-cases (p x)) [
  | inl t ↦ absurd (ground (arith, t))
  | inr n ↦ ground (arith, n, map-touch_none p f xs)
]

module _ (lease : ScanExecutionLease) (now : ℕ) (rows : List ScanRow)
    (keyed : IsKeyed (λ r. r.id) rows) (lost : IsLost lease rows) where
  -- A conditional update that asks for the lease among other things hits no row.
  guarded-none :
      (p : ScanRow → Bool)
      → count_where (λ r. r.id == lease.scan_id && (owns r lease && p r)) rows ≡ 0
  guarded-none p = elim (Option-cases (get (λ r. r.id) lease.scan_id rows)) [
    | inl absent ↦
        let counted =
          count-by_key (λ r. r.id) (λ r. owns r lease && p r) lease.scan_id rows keyed in
        ground (arith, counted, absent)
    | inr (r, found) ↦
        let counted =
          count-by_key (λ r. r.id) (λ r. owns r lease && p r) lease.scan_id rows keyed in
        ground (arith, counted, found, lost)
  ]

  owned-none : count_where (λ r. r.id == lease.scan_id && owns r lease) rows ≡ 0
  owned-none = count-by_key (λ r. r.id) (λ r. owns r lease) lease.scan_id rows keyed ∙ lost

  heartbeat-lost : (lease_time : ℕ) → heartbeat_scan lease_time lease now rows ≡ (rows, false)
  unfolding heartbeat_scan update_where
  heartbeat-lost lease_time =
      rw
        (
          map-touch_none (λ r. r.id == lease.scan_id && owns r lease) (beaten lease_time now) rows
              owned-none,
          owned-none,
        )
        refl

  set_stage-lost :
      (seen : ScanRow) (stage : String)
      → set_stage seen (some lease) stage now rows ≡ raised lease_lost
  unfolding set_stage update_where
  set_stage-lost seen stage = rw (guarded-none (λ r. is_after r.lease_expires_at now)) refl

  assert-lost :
      (scan : ScanRow)
      → get (λ r. r.id) lease.scan_id rows ≡ some scan
      → assert_current_scan_lease rows lease now ≡ lease_lost
  unfolding assert_current_scan_lease owns lease_matches
  assert-lost scan found = rw found (ground (arith, lost, found))

  complete-lost :
      (scan seen : ScanRow) (outputs : Outputs)
      → get (λ r. r.id) lease.scan_id rows ≡ some scan
      → complete_run seen (some lease) outputs now rows ≡ raised lease_lost
  unfolding complete_run ensure_lease
  complete-lost scan seen outputs found =
      rw (assert-lost scan found, complete_run, ensure_lease) refl

-- A worker whose lease the row of its scan does not carry any more, or whose scan does not run any
-- more, writes nothing to the table by its heartbeat, by entering a stage, by completing the run or by
-- failing it without a retry: the heartbeat reports the loss, the stage and the completion raise it.
-- Nor does the end of `run_scan_by_id` write anything, once the row carries another lease or none.
pub lost_lease-writes_nothing :
    (lease : ScanExecutionLease) (now : ℕ) (rows : List ScanRow) (scan seen : ScanRow)
    → IsKeyed (λ r. r.id) rows
    → get (λ r. r.id) lease.scan_id rows ≡ some scan
    → owns scan lease ≡ false
    → (lease_time jitter : ℕ) (stage summary : String) (outputs : Outputs)
      (settings : WorkerSettings) (error : Option ScanError) (evidence : Evidence) (notice : Notice)
      (reviews : Reviews)
    → (heartbeat_scan lease_time lease now rows ≡ (rows, false))
      × (set_stage seen (some lease) stage now rows ≡ raised lease_lost)
      × (complete_run seen (some lease) outputs now rows ≡ raised lease_lost)
      × (fail_without_retry evidence notice lease summary now scan (rows, reviews)
          ≡ ok (rows, reviews))
      × (lease_matches scan lease ≡ false → finish_run settings lease error now jitter rows ≡ rows)
unfolding fail_without_retry finish_run
lost_lease-writes_nothing lease now rows scan seen keyed found lost lease_time jitter stage summary
      outputs settings error evidence notice reviews =
    let none_left : IsLost lease rows = rw (found, lost) refl in
    (
      heartbeat-lost lease now rows keyed none_left lease_time,
      set_stage-lost lease now rows keyed none_left seen stage,
      complete-lost lease now rows keyed none_left scan seen outputs found,
      rw lost refl,
      λ other. rw (found, other, finish_run) refl,
    )
