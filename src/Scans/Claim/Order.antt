-- ===== src/Scans/Claim/Order.antt =====
-- Which scan `claim_next_scan` claims, and when it claims none.
use digital_real_estate_engi.Common.{
  ℕ, zero, suc, ◌≤◌, ◌≡◌, ◌⊎◌, ◌∙◌, sym, inl, inr, refl, true, false, Option, none, some, List, [],
  ◌∷◌, map, arith, Bool-cases, All, All-imp, All_of_All-map, All_of_All-filter, All-both, take,
  take-all, filter, length, length-map,
}
use digital_real_estate_engi.Common.Table.{get, hits, IsKeyed, All-get}
use digital_real_estate_engi.Common.Sort.{
  sort_by, Sorted, sort_by-IsSorted, IsSorted-map, All_of_All-sort_by, length-sort_by,
}
use digital_real_estate_engi.Scans.Row.{ScanRow}
use digital_real_estate_engi.Scans.Lease.{ScanExecutionLease}
use digital_real_estate_engi.Scans.Claim.{
  is_claimable, to_cancel, to_claim, cancelled_values, claim_from, claim_next_scan,
}
use digital_real_estate_engi.Scans.Claim.Rounds.{
  Settled, cancel_one, cancel_one-Settled, cancel_one-IsKeyed,
}
use digital_real_estate_engi.Scans.Claim.Correct.{round, claim_from-cons}

-- Whether the id finds a row that may be claimed.
abbrev can_claim : ℕ → List ScanRow → ℕ → ℕ
can_claim now rows i = hits (to_claim now) (get (λ r. r.id) i rows)

-- A cancellation does not change which rows may be claimed.
Settled-hits :
    (now : ℕ) (o o' : Option ScanRow)
    → Settled now o o'
    → hits (to_claim now) o' ≡ hits (to_claim now) o
unfolding cancelled_values
Settled-hits now o o' (inl e) = rw e
Settled-hits now o o' (inr (r, e, c, e')) = rw (e, e') (ground arith)

can_claim-cancel_one :
    (now i : ℕ) (rows : List ScanRow) (k : ℕ)
    → can_claim now (cancel_one now i rows) k ≡ can_claim now rows k
can_claim-cancel_one now i rows k = Settled-hits now _ _ (cancel_one-Settled now i k rows)

module _ (worker_id lease_duration now : ℕ) (token : ℕ → ℕ) where
  -- What a round decides: the ids before the claimed one could not be claimed.
  abbrev Later : List ScanRow → Option ScanExecutionLease → ℕ → Type 0
  Later rows none k = can_claim now rows k ≡ 0
  Later rows (some l) k = (can_claim now rows k ≡ 0) ⊎ (l.scan_id ≤ k)

  Later-cancel_one :
      (i : ℕ) (rows : List ScanRow) (l : Option ScanExecutionLease) (k : ℕ)
      → Later (cancel_one now i rows) l k
      → Later rows l k
  Later-cancel_one i rows none k h = sym (can_claim-cancel_one now i rows k) ∙ h
  Later-cancel_one i rows (some l) k (inl e) = inl (sym (can_claim-cancel_one now i rows k) ∙ e)
  Later-cancel_one i rows (some l) k (inr le) = inr le

  Later-of_zero :
      (rows : List ScanRow) (l : Option ScanExecutionLease) (k : ℕ)
      → can_claim now rows k ≡ 0
      → Later rows l k
  Later-of_zero rows none k h = h
  Later-of_zero rows (some l) k h = inl h

  -- The ids that the loop is given begin a sorted column; none stands for "all were tried".
  abbrev Tried : ℕ → List ℕ → List ScanRow → Option ScanExecutionLease → Type 0
  Tried n ids rows none = All (λ k. can_claim now rows k ≡ 0) (take n ids)
  Tried n ids rows (some l) = All (Later rows (some l)) ids

  Tried-cons :
      (n i : ℕ) (ids : List ℕ) (rows : List ScanRow) (l : Option ScanExecutionLease)
      → can_claim now rows i ≡ 0
      → Tried n ids rows l
      → Tried (suc n) (i ∷ ids) rows l
  Tried-cons n i ids rows none h t = (h, t)
  Tried-cons n i ids rows (some l) h t = (inl h, t)

  Tried-cancel_one :
      (n i : ℕ) (ids : List ℕ) (rows : List ScanRow) (l : Option ScanExecutionLease)
      → Tried n ids (cancel_one now i rows) l
      → Tried n ids rows l
  Tried-cancel_one n i ids rows none t =
      All-imp (Later (cancel_one now i rows) none) (Later rows none) (Later-cancel_one i rows none)
        (take n ids) t
  Tried-cancel_one n i ids rows (some l) t =
      All-imp (Later (cancel_one now i rows) (some l)) (Later rows (some l))
        (Later-cancel_one i rows (some l)) ids t

  round-Tried :
      (o : Option ScanRow) (n i : ℕ) (ids : List ℕ) (rows : List ScanRow)
      → get (λ r. r.id) i rows ≡ o
      → Sorted (i ∷ ids)
      → Tried n ids rows (claim_from worker_id lease_duration now token (take n ids) rows).1
      → Tried n ids
          (cancel_one now i rows)
          (claim_from worker_id lease_duration now token (take n ids) (cancel_one now i rows)).1
      → Tried
          (suc n)
          (i ∷ ids)
          rows
          (round worker_id lease_duration now token o i (take n ids) rows).1
  round-Tried none n i ids rows e s same after = Tried-cons n i ids rows _ (rw e) same
  round-Tried (some r) n i ids rows e s same after = elim (Bool-cases (to_cancel r)) [
    | inl c ↦
        rw c
          (Tried-cons n i ids rows _ (rw e (ground arith)) (Tried-cancel_one n i ids rows _ after))
    | inr nc ↦ elim (Bool-cases (to_claim now r)) [
      | inl t ↦ rw (nc, t) (inr (omega arith), All-imp (λ m. i ≤ m) _ (λ m le. inr le) ids s.0)
      | inr f ↦ rw (nc, f) (Tried-cons n i ids rows _ (rw (e, f)) same)
    ]
  ]

  claim_from-Tried :
      (n : ℕ) (ids : List ℕ) (rows : List ScanRow)
      → IsKeyed (λ r. r.id) rows
      → Sorted ids
      → Tried n ids rows (claim_from worker_id lease_duration now token (take n ids) rows).1
  unfolding claim_from
  claim_from-Tried zero ids rows keyed s = tt
  claim_from-Tried (suc n) [] rows keyed s = tt
  claim_from-Tried (suc n) (i ∷ ids) rows keyed s =
      rw (claim_from-cons worker_id lease_duration now token i (take n ids) rows keyed) (
        round-Tried (get (λ r. r.id) i rows) n i ids rows refl s
          (claim_from-Tried n ids rows keyed s.1)
          (claim_from-Tried n ids (cancel_one now i rows) (cancel_one-IsKeyed now i rows keyed)
            s.1))

  -- The ids of the claimable scans, in ascending order, before the limit.
  abbrev queue : List ScanRow → List ℕ
  queue rows = map (λ r. r.id) (sort_by (λ r. r.id) (filter (is_claimable now) rows))

  claim_next_scan-Tried :
      (rows : List ScanRow)
      → IsKeyed (λ r. r.id) rows
      → Tried 10 (queue rows) rows (claim_next_scan worker_id lease_duration now token rows).1
  unfolding claim_next_scan
  claim_next_scan-Tried rows keyed = claim_from-Tried 10 (queue rows) rows keyed (
      IsSorted-map (λ r. r.id) (sort_by (λ r. r.id) (filter (is_claimable now) rows))
        (sort_by-IsSorted (λ r. r.id) (filter (is_claimable now) rows)))

  -- What holds of every queued id holds of every claimable row.
  rows_of_queue :
      (P : ℕ → Type 0) (rows : List ScanRow)
      → All P (queue rows)
      → All (λ r. is_claimable now r ≡ true → P r.id) rows
  rows_of_queue P rows h =
      All_of_All-filter (λ r. P r.id) (is_claimable now) rows
        (All_of_All-sort_by (λ r. r.id) (λ r. P r.id) (filter (is_claimable now) rows)
          (All_of_All-map P (λ r. r.id) (sort_by (λ r. r.id) (filter (is_claimable now) rows)) h))

  claimable-hits :
      (rows : List ScanRow) (r : ScanRow)
      → get (λ r. r.id) r.id rows ≡ some r
      → is_claimable now r ≡ true
      → r.cancel_requested ≡ false
      → can_claim now rows r.id ≡ 1
  unfolding is_claimable
  claimable-hits rows r found c n = rw found (ground arith)

  -- The claimed scan has the smallest id among the scans of the table that are claimable now and
  -- carry no cancel request.
  pub claim_next_scan-least :
      (rows : List ScanRow) (l : ScanExecutionLease)
      → IsKeyed (λ r. r.id) rows
      → (claim_next_scan worker_id lease_duration now token rows).1 ≡ some l
      → All (λ r. is_claimable now r ≡ true → r.cancel_requested ≡ false → l.scan_id ≤ r.id) rows
  claim_next_scan-least rows l keyed e =
      All-imp
        (λ r.
          (get (λ r. r.id) r.id rows ≡ some r)
          × (is_claimable now r ≡ true → Later rows (some l) r.id))
        (λ r. is_claimable now r ≡ true → r.cancel_requested ≡ false → l.scan_id ≤ r.id)
        (λ r (found, later) c n. elim (later c) [
          | inl untaken ↦ absurd (omega (arith, claimable-hits rows r found c n))
          | inr le ↦ le
        ])
        rows
        (All-both _ (λ r. is_claimable now r ≡ true → Later rows (some l) r.id) rows
          (All-get (λ r. r.id) rows keyed)
          (rows_of_queue (Later rows (some l)) rows (rw e at (claim_next_scan-Tried rows keyed))))

  -- With at most ten claimable scans in the table, a call that claims nothing leaves none that
  -- could have been claimed: each of them carries a cancel request.
  pub claim_next_scan-none :
      (rows : List ScanRow)
      → IsKeyed (λ r. r.id) rows
      → length (filter (is_claimable now) rows) ≤ 10
      → (claim_next_scan worker_id lease_duration now token rows).1 ≡ none
      → All (λ r. is_claimable now r ≡ true → r.cancel_requested ≡ true) rows
  claim_next_scan-none rows keyed few e =
      All-imp
        (λ r.
          (get (λ r. r.id) r.id rows ≡ some r)
          × (is_claimable now r ≡ true → can_claim now rows r.id ≡ 0))
        (λ r. is_claimable now r ≡ true → r.cancel_requested ≡ true)
        (λ r (found, untaken) c. elim (Bool-cases r.cancel_requested) [
          | inl t ↦ t
          | inr f ↦ absurd (omega (arith, claimable-hits rows r found c f, untaken c))
        ])
        rows
        (All-both _ (λ r. is_claimable now r ≡ true → can_claim now rows r.id ≡ 0) rows
          (All-get (λ r. r.id) rows keyed)
          (rows_of_queue (λ k. can_claim now rows k ≡ 0) rows all_tried))
    where
      short : length (queue rows) ≤ 10
      short = omega (
        arith,
        length-map (sort_by (λ r. r.id) (filter (is_claimable now) rows)) (λ r. r.id),
        length-sort_by (λ r. r.id) (filter (is_claimable now) rows),
      )

      all_tried : All (λ k. can_claim now rows k ≡ 0) (queue rows)
      all_tried =
          rw (take-all 10 (queue rows) short) at (rw e at (claim_next_scan-Tried rows keyed))
