-- ===== src/Scans/Recover/Correct.antt =====
-- What a recovery pass leaves behind.
use mathlib.Core.Option
use digital_real_estate_engi.Common.{
  ℕ, ◌+◌, ◌-◌, ◌≡◌, ap, ◌∙◌, refl, none, some, List, [], ◌∷◌, map, ◌==◌, if◌then◌else◌, arith,
}
use digital_real_estate_engi.Common.Table.{get, touch, IsKeyed}
use digital_real_estate_engi.Common.Sweep.{sweep, sweep-selected, sweep-IsKeyed}
use digital_real_estate_engi.Scans.Row.{ScanRow, cancelled, WorkerSettings}
use digital_real_estate_engi.Scans.Lease.{clear_lease}
use digital_real_estate_engi.Scans.Retry.{attempts_allowed, retry_or_quarantine, cancel_scan}
use digital_real_estate_engi.Scans.Retry.Exhaust.{status_after}
use digital_real_estate_engi.Scans.Recover.{
  is_stale, recover_scan, recover_all, stale_scans, recover_stale_scans,
}
use digital_real_estate_engi.Costs.State.{Ledger}
use digital_real_estate_engi.Costs.Balance.{IsBalanced}
use digital_real_estate_engi.Costs.Balance.Reconciling.{reconcile_stale-IsBalanced}
use digital_real_estate_engi.Costs.Reconcile.{reconcile_stale_api_call_attempts}

-- A recovered scan has no lease, so that its former worker owns it no more; it is cancelled if that
-- was requested, and otherwise queued again or, with its attempts used up, quarantined.
pub recover_scan_lem :
    (settings : WorkerSettings) (now jitter : ℕ) (scan : ScanRow)
    → let after = recover_scan settings now jitter scan in
      (after.id ≡ scan.id)
      × (after.lease_token ≡ none)
      × (after.status ≡ (
          if scan.cancel_requested
          then cancelled
          else status_after (scan.retry_count + 1) (attempts_allowed scan settings)))
unfolding recover_scan clear_lease cancel_scan retry_or_quarantine
recover_scan_lem settings now jitter scan = ground arith

module _ (settings : WorkerSettings) (now : ℕ) (jitter : ℕ → ℕ) where
  abbrev recovered : ℕ → ScanRow → ScanRow
  recovered i = recover_scan settings now (jitter i)

  recovered-id : (i : ℕ) (scan : ScanRow) → (recovered i scan).id ≡ scan.id
  recovered-id i scan = (recover_scan_lem settings now (jitter i) scan).0

  -- The rounds write the selected rows one by one.
  recover_all-sweep :
      (stale rows : List ScanRow) (ledger : Ledger)
      → (recover_all settings now jitter stale (rows, ledger)).0
        ≡ sweep (λ r. r.id) recovered recovered-id stale rows
  unfolding recover_all sweep
  recover_all-sweep [] rows ledger = refl
  recover_all-sweep (scan ∷ stale) rows ledger =
      recover_all-sweep stale (map (touch (λ r. r.id == scan.id) (recovered scan.id)) rows)
        (reconcile_stale_api_call_attempts (now + 1) (some scan.id) now ledger).0

  recover_all-IsBalanced :
      (stale rows : List ScanRow) (ledger : Ledger)
      → IsBalanced ledger
      → IsBalanced (recover_all settings now jitter stale (rows, ledger)).1
  unfolding recover_all
  recover_all-IsBalanced [] rows ledger balanced = balanced
  recover_all-IsBalanced (scan ∷ stale) rows ledger balanced =
      recover_all-IsBalanced stale _ _
        (reconcile_stale-IsBalanced (now + 1) (some scan.id) now ledger balanced)

  pub recover_stale_scans-row :
      (stale_after j : ℕ) (rows : List ScanRow) (ledger : Ledger)
      → IsKeyed (λ r. r.id) rows
      → get (λ r. r.id) j (recover_stale_scans settings stale_after now jitter rows ledger).0.0
        ≡ Option.map
            (touch (is_stale (now - stale_after) now) (recover_scan settings now (jitter j)))
            (get (λ r. r.id) j rows)
  unfolding recover_stale_scans
  recover_stale_scans-row stale_after j rows ledger keyed =
      let cutoff = now - stale_after in
      let first = (reconcile_stale_api_call_attempts cutoff none now ledger).0 in
      ap (get (λ r. r.id) j) (recover_all-sweep (stale_scans cutoff now rows) rows first)
      ∙ sweep-selected (λ r. r.id) recovered recovered-id (λ r. r.id) (is_stale cutoff now) j rows
          keyed

  pub recover_stale_scans-IsKeyed :
      (stale_after : ℕ) (rows : List ScanRow) (ledger : Ledger)
      → IsKeyed (λ r. r.id) rows
      → IsKeyed (λ r. r.id) (recover_stale_scans settings stale_after now jitter rows ledger).0.0
  unfolding recover_stale_scans
  recover_stale_scans-IsKeyed stale_after rows ledger keyed =
      let cutoff = now - stale_after in
      let first = (reconcile_stale_api_call_attempts cutoff none now ledger).0 in
      rw (recover_all-sweep (stale_scans cutoff now rows) rows first)
        (sweep-IsKeyed (λ r. r.id) recovered recovered-id (stale_scans cutoff now rows) rows keyed)

  -- After a recovery pass over rows with distinct ids, every stale row is the recovered one, every
  -- other row is as it was, and the ledger of paid calls is balanced if it was so before.
  pub recover_stale_scans-get :
      (stale_after j : ℕ) (rows : List ScanRow) (ledger : Ledger)
      → IsKeyed (λ r. r.id) rows
      → IsBalanced ledger
      → let ((rows', ledger'), _) =
          recover_stale_scans settings stale_after now jitter rows ledger in
        (get (λ r. r.id) j rows'
          ≡ Option.map
              (touch (is_stale (now - stale_after) now) (recover_scan settings now (jitter j)))
              (get (λ r. r.id) j rows))
        × IsBalanced ledger'
  unfolding recover_stale_scans
  recover_stale_scans-get stale_after j rows ledger keyed balanced =
      let cutoff = now - stale_after in
      let first = (reconcile_stale_api_call_attempts cutoff none now ledger).0 in
      (
        recover_stale_scans-row stale_after j rows ledger keyed,
        recover_all-IsBalanced (stale_scans cutoff now rows) rows first
            (reconcile_stale-IsBalanced cutoff none now ledger balanced),
      )
