-- ===== src/Scans/Recover/Abandoned.antt =====
-- Which scans a recovery pass takes up, and what it leaves of them and of their paid calls.
use mathlib.Core.Option
use mathlib.Core.Path.{subst}
use digital_real_estate_engi.Common.{
  ℕ, ◌+◌, ◌-◌, ◌≤◌, ◌<◌, ◌≡◌, ◌⊎◌, inl, is_some, inr, ap, ◌∙◌, sym, refl, true, false, none, some,
  Option, List, [], ◌∷◌, ◌&&◌, ◌==◌, filter, if◌then◌else◌, arith, Bool-cases, Option-cases,
  eq_of_==,
}
use digital_real_estate_engi.Common.Table.{get, touch, IsKeyed, count_where, count-by_key}
use digital_real_estate_engi.Common.Sort.{count-sort_by}
use digital_real_estate_engi.Common.Sweep.{sweep, sweep-selected, count-filter}
use digital_real_estate_engi.Scans.Row.{
  ScanRow, ScanStatus, running, cancelled, is_running, is_worker_source, WorkerSettings,
}
use digital_real_estate_engi.Scans.Lease.{clear_lease}
use digital_real_estate_engi.Scans.Retry.{attempts_allowed}
use digital_real_estate_engi.Scans.Retry.Exhaust.{status_after}
use digital_real_estate_engi.Scans.Recover.{
  is_stale, null_or_before, recover_scan, recover_all, stale_scans, recover_stale_scans,
}
use digital_real_estate_engi.Scans.Recover.Correct.{
  recover_scan_lem, recover_stale_scans-row, recover_stale_scans-get,
}
use digital_real_estate_engi.Costs.State.{ApiCall, Ledger}
use digital_real_estate_engi.Costs.Balance.{IsBalanced}
use digital_real_estate_engi.Costs.Balance.Reconciling.{
  reconcile_one-calls, reconcile_stale-IsBalanced,
}
use digital_real_estate_engi.Costs.Reconcile.{
  is_open, is_stale_call, stale_calls, close_attempt, reconcile_one, reconcile_all,
  reconcile_stale_api_call_attempts,
}

-- No moment, or one before another.
abbrev pub IsPast : Option ℕ → ℕ → Type 0
IsPast o t = (o ≡ none) ⊎ ((s : ℕ) × (o ≡ some s) × s < t)

-- A run of the worker's whose lease is over, or whose heartbeat is older than the cutoff.
pub record IsAbandoned (cutoff now : ℕ) (scan : ScanRow) : Type 0 where
  pub source : is_worker_source scan.source ≡ true
  pub runs : scan.status ≡ running
  pub unfinished : scan.completed_at ≡ none
  pub silent : IsPast scan.lease_expires_at now ⊎ IsPast scan.heartbeat_at cutoff

null_or_before-IsPast : (o : Option ℕ) (t : ℕ) → null_or_before o t ≡ true → IsPast o t
null_or_before-IsPast none t h = inl refl
null_or_before-IsPast (some s) t h = inr (s, refl, ground (arith, h))

IsPast-null_or_before : (o : Option ℕ) (t : ℕ) → IsPast o t → null_or_before o t ≡ true
IsPast-null_or_before o t (inl absent) = rw absent refl
IsPast-null_or_before o t (inr (s, at, before)) = rw at (ground (arith, before))

IsAbandoned-is_stale :
    (cutoff now : ℕ) (scan : ScanRow)
    → IsAbandoned cutoff now scan
    → is_stale cutoff now scan ≡ true
unfolding is_stale
IsAbandoned-is_stale cutoff now scan a = elim a.silent [
  | inl over ↦
      let past = IsPast-null_or_before scan.lease_expires_at now over in
      rw (a.source, a.runs, a.unfinished, past) refl
  | inr late ↦
      let past = IsPast-null_or_before scan.heartbeat_at cutoff late in
      rw (a.source, a.runs, a.unfinished, past) (ground arith)
]

is_stale-IsAbandoned :
    (cutoff now : ℕ) (scan : ScanRow)
    → is_stale cutoff now scan ≡ true
    → IsAbandoned cutoff now scan
unfolding is_stale
is_stale-IsAbandoned cutoff now scan h = record {
  source = ground (arith, h);
  runs = is_running-eq scan.status (ground (arith, h));
  unfinished = unfinished scan.completed_at (ground (arith, h));
  silent = elim (Bool-cases (null_or_before scan.lease_expires_at now)) [
    | inl over ↦ inl (null_or_before-IsPast scan.lease_expires_at now over)
    | inr valid ↦ inr (null_or_before-IsPast scan.heartbeat_at cutoff (ground (arith, h, valid)))
  ];
}
  where
    is_running-eq : (s : ScanStatus) → is_running s ≡ true → s ≡ running
    is_running-eq s e = ground arith

    unfinished : (o : Option ℕ) → is_some o ≡ false → o ≡ none
    unfinished none e = refl
    unfinished (some t) e = cc

close_attempt-same_id : (now : ℕ) (c : ApiCall) → (close_attempt now c).id ≡ c.id
unfolding close_attempt
close_attempt-same_id now c = ground arith

close_attempt-is_open :
    (now : ℕ) (c : ApiCall) → is_open (close_attempt now c).attempt_state ≡ false
unfolding close_attempt
close_attempt-is_open now c = ground arith

-- A reconciliation, row by row.
reconcile_all-sweep :
    (now : ℕ) (calls : List ApiCall) (ledger : Ledger)
    → (reconcile_all now calls ledger).calls
      ≡ sweep
          (λ c. c.id)
          (λ i. close_attempt now)
          (λ i. close_attempt-same_id now)
          calls
          ledger.calls
unfolding reconcile_all sweep
reconcile_all-sweep now [] ledger = refl
reconcile_all-sweep now (c ∷ calls) ledger =
    reconcile_all-sweep now calls (reconcile_one now c ledger)
    ∙ ap (sweep (λ c. c.id) (λ i. close_attempt now) (λ i. close_attempt-same_id now) calls)
        (reconcile_one-calls now c ledger)

reconcile_stale-row :
    (stale_before : ℕ) (scan_run_id : Option ℕ) (now i : ℕ) (ledger : Ledger)
    → IsBalanced ledger
    → get
        (λ c. c.id)
        i
        (reconcile_stale_api_call_attempts stale_before scan_run_id now ledger).0.calls
      ≡ Option.map
          (touch (is_stale_call stale_before scan_run_id) (close_attempt now))
          (get (λ c. c.id) i ledger.calls)
unfolding reconcile_stale_api_call_attempts
reconcile_stale-row stale_before scan_run_id now i ledger balanced =
    ap (get (λ c. c.id) i)
      (reconcile_all-sweep now (stale_calls stale_before scan_run_id ledger) ledger)
    ∙ sweep-selected (λ c. c.id) (λ i. close_attempt now) (λ i. close_attempt-same_id now)
        (λ c. c.id) (is_stale_call stale_before scan_run_id) i ledger.calls balanced.keyed

-- No attempt of the scan that was opened by then waits for an answer any more.
abbrev pub Closed : (scan_id now : ℕ) → Ledger → Type 0
Closed j now ledger =
    (i t : ℕ) (c : ApiCall)
    → get (λ c. c.id) i ledger.calls ≡ some c
    → c.scan_run_id ≡ some j
    → c.started_at ≡ some t
    → t ≤ now
    → is_open c.attempt_state ≡ false

module _ (j now : ℕ) (ledger : Ledger) (balanced : IsBalanced ledger) where
  reconciled-Closed :
      Closed j now (reconcile_stale_api_call_attempts (now + 1) (some j) now ledger).0
  unfolding is_stale_call
  reconciled-Closed i t c found its at early =
      let row = reconcile_stale-row (now + 1) (some j) now i ledger balanced in
      elim (Option-cases (get (λ c. c.id) i ledger.calls)) [
        | inl absent ↦ absurd (ground (arith, row, absent, found))
        | inr (d, was) ↦ elim (Bool-cases (is_stale_call (now + 1) (some j) d)) [
          | inl stale ↦
              let same : close_attempt now d ≡ c = ground (arith, row, was, found, stale) in
              subst (λ x. is_open x.attempt_state ≡ false) same (close_attempt-is_open now d)
          | inr left ↦
              let same : d ≡ c = ground (arith, row, was, found, left) in
              let left_c = subst (λ x. is_stale_call (now + 1) (some j) x ≡ false) same left in
              ground (arith, left_c, its, at, early)
        ]
      ]

  kept-Closed :
      (stale_before : ℕ) (scan_run_id : Option ℕ)
      → Closed j now ledger
      → Closed j now (reconcile_stale_api_call_attempts stale_before scan_run_id now ledger).0
  kept-Closed stale_before scan_run_id closed i t c found its at early =
      let row = reconcile_stale-row stale_before scan_run_id now i ledger balanced in
      elim (Option-cases (get (λ c. c.id) i ledger.calls)) [
        | inl absent ↦ absurd (ground (arith, row, absent, found))
        | inr (d, was) ↦ elim (Bool-cases (is_stale_call stale_before scan_run_id d)) [
          | inl stale ↦
              let same : close_attempt now d ≡ c = ground (arith, row, was, found, stale) in
              subst (λ x. is_open x.attempt_state ≡ false) same (close_attempt-is_open now d)
          | inr left ↦
              let same : d ≡ c = ground (arith, row, was, found, left) in
              closed i t c (subst (λ x. get (λ c. c.id) i ledger.calls ≡ some x) same was) its at
                early
        ]
      ]

module _ (settings : WorkerSettings) (now : ℕ) (jitter : ℕ → ℕ) (j : ℕ) where
  recover_all-kept :
      (stale rows : List ScanRow) (ledger : Ledger)
      → IsBalanced ledger
      → Closed j now ledger
      → Closed j now (recover_all settings now jitter stale (rows, ledger)).1
  unfolding recover_all
  recover_all-kept [] rows ledger balanced closed = closed
  recover_all-kept (scan ∷ stale) rows ledger balanced closed =
      recover_all-kept stale _ _
        (reconcile_stale-IsBalanced (now + 1) (some scan.id) now ledger balanced)
        (kept-Closed j now ledger balanced (now + 1) (some scan.id) closed)

  -- The round of a scan closes its attempts, and the later rounds leave them closed.
  recover_all-Closed :
      (stale rows : List ScanRow) (ledger : Ledger)
      → IsBalanced ledger
      → count_where (λ s. s.id == j && true) stale ≡ 1
      → Closed j now (recover_all settings now jitter stale (rows, ledger)).1
  unfolding recover_all
  recover_all-Closed [] rows ledger balanced once = cc
  recover_all-Closed (scan ∷ stale) rows ledger balanced once =
      let after = reconcile_stale-IsBalanced (now + 1) (some scan.id) now ledger balanced in
      elim (Bool-cases (scan.id == j)) [
        | inl its ↦ recover_all-kept stale _ _ after (
            subst
              (λ k.
                Closed j now (reconcile_stale_api_call_attempts (now + 1) (some k) now ledger).0)
              (sym (eq_of_== _ _ its)) (reconciled-Closed j now ledger balanced))
        | inr other ↦ recover_all-Closed stale _ _ after (ground (arith, once, other))
      ]

  -- What a recovery makes of an abandoned run: no worker has it, and it is cancelled if that was requested,
  -- and otherwise queued again or, with its attempts used up, quarantined; its paid calls are closed.
  pub record IsRecovered (scan : ScanRow) (rows' : List ScanRow) (ledger' : Ledger) : Type 0 where
    pub after : ScanRow
    pub row : get (λ r. r.id) j rows' ≡ some after
    pub no_worker : after.worker_id ≡ none
    pub no_token : after.lease_token ≡ none
    pub no_lease : after.lease_expires_at ≡ none
    pub status : after.status ≡ (
        if scan.cancel_requested
        then cancelled
        else status_after (scan.retry_count + 1) (attempts_allowed scan settings))
    pub closed : Closed j now ledger'

  recover_scan-lease :
      (draw : ℕ) (scan : ScanRow)
      → let after = recover_scan settings now draw scan in
        (after.worker_id ≡ none) × (after.lease_expires_at ≡ none)
  unfolding recover_scan clear_lease
  recover_scan-lease draw scan = (refl, refl)

  -- A recovery pass over rows with distinct ids takes up exactly the abandoned runs: an abandoned one loses
  -- its worker and lease, is cancelled, queued again or quarantined, and none of its paid calls stays open
  -- that was opened by then; any other row is as it was. A balanced ledger stays balanced.
  pub recover_stale_scans-Recovers :
      (stale_after : ℕ) (rows : List ScanRow) (ledger : Ledger) (scan : ScanRow)
      → IsKeyed (λ r. r.id) rows
      → IsBalanced ledger
      → get (λ r. r.id) j rows ≡ some scan
      → let ((rows', ledger'), _) =
          recover_stale_scans settings stale_after now jitter rows ledger in
        (IsAbandoned (now - stale_after) now scan → IsRecovered scan rows' ledger')
        × (¬ IsAbandoned (now - stale_after) now scan → get (λ r. r.id) j rows' ≡ some scan)
        × IsBalanced ledger'
  unfolding recover_stale_scans
  recover_stale_scans-Recovers stale_after rows ledger scan keyed balanced found =
      let cutoff = now - stale_after in
      let first = reconcile_stale-IsBalanced cutoff none now ledger balanced in
      let row = recover_stale_scans-row settings now jitter stale_after j rows ledger keyed in
      (
        (λ abandoned.
            let stale = IsAbandoned-is_stale cutoff now scan abandoned in
            let once : count_where (λ s. s.id == j && true) (stale_scans cutoff now rows) ≡ 1 =
              count-sort_by (λ r. r.id) (λ s. s.id == j && true) (filter (is_stale cutoff now) rows)
              ∙ count-filter (λ r. r.id) (λ i r. r) (λ i r. refl) j (is_stale cutoff now) rows
              ∙ count-by_key (λ r. r.id) (is_stale cutoff now) j rows keyed
              ∙ rw (found, stale) refl in
            let (_, no_token, status) = recover_scan_lem settings now (jitter j) scan in
            let (no_worker, no_lease) = recover_scan-lease (jitter j) scan in
            record {
              after = recover_scan settings now (jitter j) scan;
              row = row ∙ rw (found, stale) refl;
              no_worker = no_worker;
              no_token = no_token;
              no_lease = no_lease;
              status = status;
              closed = recover_all-Closed (stale_scans cutoff now rows) rows _ first once;
            }),
        (λ other. elim (Bool-cases (is_stale cutoff now scan)) [
          | inl stale ↦ absurd (other (is_stale-IsAbandoned cutoff now scan stale))
          | inr left ↦ row ∙ rw (found, left) refl
        ]),
        (recover_stale_scans-get settings now jitter stale_after j rows ledger keyed balanced).1,
      )
