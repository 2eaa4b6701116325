-- ===== src/Scans/Claim/Owned.antt =====
-- The lease that a call of `claim_next_scan` returns, against the table that it leaves.
use digital_real_estate_engi.Common.{
  ℕ, ◌+◌, ◌<◌, ◌≤◌, false, ◌≡◌, refl, ap, inl, inr, true, Option, none, some, List, [], ◌∷◌, arith,
  Bool-cases, ==-refl,
}
use mathlib.Core.Path.{subst}
use digital_real_estate_engi.Common.Table.{get, IsKeyed}
use digital_real_estate_engi.Scans.Row.{ScanRow, ScanStatus, queued, is_queued}
use digital_real_estate_engi.Scans.Lease.{ScanExecutionLease, current, assert_current_scan_lease}
use digital_real_estate_engi.Scans.Claim.{
  to_cancel, to_claim, claimed_values, annotated, claim_from, claimable_ids, claim_next_scan,
}
use digital_real_estate_engi.Scans.Claim.Rounds.{
  Settled, Settled-trans, Settled-to_claim, cancel_one, cancel_one-Settled, cancel_one-IsKeyed,
}
use digital_real_estate_engi.Scans.Claim.Correct.{
  claim_one-get, claimed, lease_of, round, claim_from-cons,
}

module _ (worker_id lease_duration now : ℕ) (token : ℕ → ℕ) (table : List ScanRow) where
  -- The row that a returned lease names, as it is in the table before and after.
  abbrev Owned : List ScanRow → Option ScanExecutionLease → Type 0
  Owned rows none = Unit
  Owned rows (some l) =
      (r : ScanRow) × (get (λ r. r.id) l.scan_id table ≡ some r)
      × (to_claim now r ≡ true)
      × (get (λ r. r.id) l.scan_id rows
          ≡ some (claimed worker_id lease_duration now token l.scan_id r))
      × (l ≡ lease_of worker_id lease_duration now token l.scan_id)

  -- Rounds that claim nothing lead from the table to these rows.
  abbrev Follows : List ScanRow → Type 0
  Follows rows = (j : ℕ) → Settled now (get (λ r. r.id) j table) (get (λ r. r.id) j rows)

  round-Owned :
      (o : Option ScanRow) (i : ℕ) (ids : List ℕ) (rows : List ScanRow)
      → Follows rows
      → get (λ r. r.id) i rows ≡ o
      → (let (rows', l) = claim_from worker_id lease_duration now token ids rows in Owned rows' l)
      → (let (rows', l) =
            claim_from worker_id lease_duration now token ids (cancel_one now i rows) in
          Owned rows' l)
      → (let (rows', l) = round worker_id lease_duration now token o i ids rows in Owned rows' l)
  round-Owned none i ids rows follows e same after = same
  round-Owned (some r) i ids rows follows e same after = elim (Bool-cases (to_cancel r)) [
    | inl c ↦ rw c after
    | inr nc ↦ elim (Bool-cases (to_claim now r)) [
      | inl t ↦
          let settled : Settled now (get (λ r. r.id) i table) (some r) =
            subst (λ o. Settled now (get (λ r. r.id) i table) o) e (follows i) in
          let before = Settled-to_claim now (get (λ r. r.id) i table) r settled t in
          rw (nc, t)
            (
              r,
              before,
              t,
              rw (claim_one-get worker_id lease_duration now token, ==-refl i, e, t) refl,
              refl,
            )
      | inr f ↦ rw (nc, f) same
    ]
  ]

  claim_from-Owned :
      (ids : List ℕ) (rows : List ScanRow)
      → IsKeyed (λ r. r.id) rows
      → Follows rows
      → (let (rows', l) = claim_from worker_id lease_duration now token ids rows in Owned rows' l)
  unfolding claim_from
  claim_from-Owned [] rows keyed follows = tt
  claim_from-Owned (i ∷ ids) rows keyed follows =
      rw (claim_from-cons worker_id lease_duration now token i ids rows keyed) (
        round-Owned (get (λ r. r.id) i rows) i ids rows follows refl
          (claim_from-Owned ids rows keyed follows)
          (claim_from-Owned ids (cancel_one now i rows) (cancel_one-IsKeyed now i rows keyed) (λ j.
            Settled-trans now (get (λ r. r.id) j table) (get (λ r. r.id) j rows)
              (get (λ r. r.id) j (cancel_one now i rows)) (follows j)
              (cancel_one-Settled now i j rows))))

-- A row that may be claimed: queued, not to be cancelled, and due.
pub record IsDue (now : ℕ) (r : ScanRow) : Type 0 where
  pub waits : r.status ≡ queued
  pub wanted : r.cancel_requested ≡ false
  pub due : (at : ℕ) → r.next_attempt_at ≡ some at → at ≤ now

to_claim-IsDue : (now : ℕ) (r : ScanRow) → to_claim now r ≡ true → IsDue now r
to_claim-IsDue now r h = record {
  waits = is_queued-eq r.status (ground arith);
  wanted = ground arith;
  due = λ at e. ground (arith, h, e);
}
  where
    is_queued-eq : (s : ScanStatus) → is_queued s ≡ true → s ≡ queued
    is_queued-eq s e = ground arith

-- A lease that `claim_next_scan` returns is one of the worker that asked, on a scan whose row in the
-- table before was queued, without a cancel request and due; the table that the call leaves lets the lease pass the check of
-- `assert_current_scan_lease` until the lease's time is over. The ids of the table are distinct.
pub claim_next_scan-current :
    (worker_id lease_duration now later : ℕ) (token : ℕ → ℕ) (rows : List ScanRow)
    (l : ScanExecutionLease)
    → IsKeyed (λ r. r.id) rows
    → (claim_next_scan worker_id lease_duration now token rows).1 ≡ some l
    → later < now + lease_duration
    → (l.worker_id ≡ worker_id)
      × (l.lease_token ≡ token l.scan_id)
      × ((r : ScanRow) × (get (λ r. r.id) l.scan_id rows ≡ some r)
          × IsDue now r
          × (get (λ r. r.id) l.scan_id (claim_next_scan worker_id lease_duration now token rows).0
              ≡ some (claimed worker_id lease_duration now token l.scan_id r)))
      × (assert_current_scan_lease
            (claim_next_scan worker_id lease_duration now token rows).0
            l
            later
          ≡ current)
unfolding claim_next_scan assert_current_scan_lease claimed_values annotated
claim_next_scan-current worker_id lease_duration now later token rows l keyed e soon =
    let (rows', l') = claim_next_scan worker_id lease_duration now token rows in
    let (r, before, due, found, same) =
      subst (Owned worker_id lease_duration now token rows rows') e (
        claim_from-Owned worker_id lease_duration now token rows (claimable_ids now rows) rows keyed
          (λ j. inl refl)) in
    (
      ap (λ k. k.worker_id) same,
      ap (λ k. k.lease_token) same,
      (r, before, to_claim-IsDue now r due, found),
      rw (found, same) (ground arith),
    )
