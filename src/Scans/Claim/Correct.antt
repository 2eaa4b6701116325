-- ===== src/Scans/Claim/Correct.antt =====
-- What one call of `claim_next_scan` does to the table of scans, row by row.
use mathlib.Core.Option
use digital_real_estate_engi.Common.{
  ℕ, ◌≡◌, ◌⊎◌, inl, inr, refl, true, Option, none, some, List, [], ◌∷◌, map, ◌&&◌, if◌then◌else◌,
  ◌==◌, arith, eq_of_==, Bool-cases,
}
use digital_real_estate_engi.Common.Table.{
  touch, get, get-touch, get-touch_key, count-by_key, IsKeyed, IsKeyed-map,
}
use digital_real_estate_engi.Scans.Row.{ScanRow}
use digital_real_estate_engi.Scans.Lease.{ScanExecutionLease}
use digital_real_estate_engi.Scans.Claim.{
  to_cancel, to_claim, claimed_values, annotated, claim_from, claimable_ids, claim_next_scan,
}
use digital_real_estate_engi.Scans.Claim.Rounds.{
  cancel_one, Settled, cancel_one-Settled, Settled-trans, Settled-to_claim, cancel_one-IsKeyed,
}

module _ (worker_id lease_duration now : ℕ) (token : ℕ → ℕ) where
  abbrev pub claim_one : ℕ → List ScanRow → List ScanRow
  claim_one i rows =
      map (touch (λ r. r.id == i) (annotated worker_id lease_duration now (token i))) (
        map
          (touch (λ r. r.id == i && to_claim now r)
            (claimed_values worker_id lease_duration now (token i)))
          rows)

  abbrev pub lease_of : ℕ → ScanExecutionLease
  lease_of i = record { scan_id = i; worker_id = worker_id; lease_token = token i }

  -- One round, by what the row of the id holds.
  abbrev pub round :
      Option ScanRow → ℕ → List ℕ → List ScanRow → List ScanRow × Option ScanExecutionLease
  round none i ids rows = claim_from worker_id lease_duration now token ids rows
  round (some r) i ids rows =
      if to_cancel r
      then claim_from worker_id lease_duration now token ids (cancel_one now i rows)
      else if to_claim now r
      then (claim_one i rows, some (lease_of i))
      else claim_from worker_id lease_duration now token ids rows

  pub claim_from-cons :
      (i : ℕ) (ids : List ℕ) (rows : List ScanRow)
      → IsKeyed (λ r. r.id) rows
      → claim_from worker_id lease_duration now token (i ∷ ids) rows
        ≡ round (get (λ r. r.id) i rows) i ids rows
  unfolding claim_from
  claim_from-cons i ids rows keyed = ground (
    arith,
    count-by_key (λ r. r.id) to_cancel i rows keyed,
    count-by_key (λ r. r.id) (to_claim now) i rows keyed,
  )

  -- The claimed row.
  abbrev pub claimed : ℕ → ScanRow → ScanRow
  claimed i r =
      annotated worker_id lease_duration now (token i)
        (claimed_values worker_id lease_duration now (token i) r)

  -- What a call may do to row `j`.
  abbrev pub Claims : ℕ → Option ScanRow → Option ScanRow → Option ScanExecutionLease → Type 0
  Claims j o o' l =
      Settled now o o'
      ⊎ ((r : ScanRow) × (o ≡ some r)
          × (to_claim now r ≡ true)
          × (o' ≡ some (claimed j r))
          × (l ≡ some (lease_of j)))

  pub claim_one-get :
      (i j : ℕ) (rows : List ScanRow)
      → get (λ r. r.id) j (claim_one i rows) ≡ (
          if j == i
          then Option.map (annotated worker_id lease_duration now (token i)) (
              Option.map
                (touch (to_claim now) (claimed_values worker_id lease_duration now (token i)))
                (get (λ r. r.id) j rows))
          else get (λ r. r.id) j rows)
  unfolding claimed_values annotated
  claim_one-get i j rows =
      let claimed_rows =
        map
          (touch (λ r. r.id == i && to_claim now r)
            (claimed_values worker_id lease_duration now (token i)))
          rows in
      ground (
        arith,
        get-touch_key (λ r. r.id) (annotated worker_id lease_duration now (token i)) (λ r. refl) i j
            claimed_rows,
        get-touch (λ r. r.id) (claimed_values worker_id lease_duration now (token i)) (λ r. refl)
            (to_claim now) i j rows,
      )

  claim_one-Claims :
      (i j : ℕ) (rows : List ScanRow) (r : ScanRow)
      → get (λ r. r.id) i rows ≡ some r
      → to_claim now r ≡ true
      → Claims j (get (λ r. r.id) j rows) (get (λ r. r.id) j (claim_one i rows)) (some (lease_of i))
  claim_one-Claims i j rows r e t = elim (Bool-cases (j == i)) [
    | inl is ↦
        let at_j : get (λ r. r.id) j rows ≡ some r = rw (eq_of_== j i is) e in
        inr (
          r,
          at_j,
          t,
          rw (claim_one-get, is, at_j, t) (rw (eq_of_== j i is) refl),
          rw (eq_of_== j i is) refl,
        )
    | inr other ↦ inl (inl (rw (claim_one-get, other) refl))
  ]

  Settled-Claims :
      (j : ℕ) (o o' o'' : Option ScanRow) (l : Option ScanExecutionLease)
      → Settled now o o'
      → Claims j o' o'' l
      → Claims j o o'' l
  Settled-Claims j o o' o'' l s (inl s') = inl (Settled-trans now o o' o'' s s')
  Settled-Claims j o o' o'' l s (inr (r, p, t, q, e)) =
      inr (r, Settled-to_claim now o r (rw p at s) t, t, q, e)

  -- One round followed by a rest that claims.
  round-Claims :
      (o : Option ScanRow) (i : ℕ) (ids : List ℕ) (j : ℕ) (rows : List ScanRow)
      → get (λ r. r.id) i rows ≡ o
      → (let (rows', l) = claim_from worker_id lease_duration now token ids rows in
          Claims j (get (λ r. r.id) j rows) (get (λ r. r.id) j rows') l)
      → (let (rows', l) =
            claim_from worker_id lease_duration now token ids (cancel_one now i rows) in
          Claims j (get (λ r. r.id) j (cancel_one now i rows)) (get (λ r. r.id) j rows') l)
      → (let (rows', l) = round o i ids rows in
          Claims j (get (λ r. r.id) j rows) (get (λ r. r.id) j rows') l)
  round-Claims none i ids j rows e same after = same
  round-Claims (some r) i ids j rows e same after = elim (Bool-cases (to_cancel r)) [
    | inl c ↦ rw c (
        Settled-Claims j _ (get (λ r. r.id) j (cancel_one now i rows)) _ _
          (cancel_one-Settled now i j rows) after)
    | inr nc ↦ elim (Bool-cases (to_claim now r)) [
      | inl t ↦ rw (nc, t) (claim_one-Claims i j rows r e t)
      | inr f ↦ rw (nc, f) same
    ]
  ]

  -- Every row is left as it was, or was queued with a cancel request and is cancelled, or is the
  -- one that the lease names.
  claim_from-Claims :
      (ids : List ℕ) (j : ℕ) (rows : List ScanRow)
      → IsKeyed (λ r. r.id) rows
      → let (rows', l) = claim_from worker_id lease_duration now token ids rows in
        Claims j (get (λ r. r.id) j rows) (get (λ r. r.id) j rows') l
  unfolding claim_from
  claim_from-Claims [] j rows keyed = inl (inl refl)
  claim_from-Claims (i ∷ ids) j rows keyed = rw (claim_from-cons i ids rows keyed) (
      round-Claims (get (λ r. r.id) i rows) i ids j rows refl (claim_from-Claims ids j rows keyed)
        (claim_from-Claims ids j (cancel_one now i rows) (cancel_one-IsKeyed now i rows keyed)))

  round-IsKeyed :
      (o : Option ScanRow) (i : ℕ) (ids : List ℕ) (rows : List ScanRow)
      → IsKeyed (λ r. r.id) rows
      → IsKeyed (λ r. r.id) (claim_from worker_id lease_duration now token ids rows).0
      → IsKeyed
          (λ r. r.id)
          (claim_from worker_id lease_duration now token ids (cancel_one now i rows)).0
      → IsKeyed (λ r. r.id) (round o i ids rows).0
  unfolding claimed_values annotated
  round-IsKeyed none i ids rows keyed same after = same
  round-IsKeyed (some r) i ids rows keyed same after = elim (Bool-cases (to_cancel r)) [
    | inl c ↦ rw c after
    | inr nc ↦ elim (Bool-cases (to_claim now r)) [
      | inl t ↦
          rw (nc, t)
            (IsKeyed-map (λ r. r.id)
              (touch (λ r. r.id == i) (annotated worker_id lease_duration now (token i)))
              (λ r. ground arith) _
              (IsKeyed-map (λ r. r.id)
                (touch (λ r. r.id == i && to_claim now r)
                  (claimed_values worker_id lease_duration now (token i)))
                (λ r. ground arith) rows keyed))
      | inr f ↦ rw (nc, f) same
    ]
  ]

  pub claim_from-IsKeyed :
      (ids : List ℕ) (rows : List ScanRow)
      → IsKeyed (λ r. r.id) rows
      → IsKeyed (λ r. r.id) (claim_from worker_id lease_duration now token ids rows).0
  unfolding claim_from
  claim_from-IsKeyed [] rows keyed = keyed
  claim_from-IsKeyed (i ∷ ids) rows keyed = rw (claim_from-cons i ids rows keyed) (
      round-IsKeyed (get (λ r. r.id) i rows) i ids rows keyed (claim_from-IsKeyed ids rows keyed)
        (claim_from-IsKeyed ids (cancel_one now i rows) (cancel_one-IsKeyed now i rows keyed)))

  pub claim_next_scan-Claims :
      (j : ℕ) (rows : List ScanRow)
      → IsKeyed (λ r. r.id) rows
      → let (rows', l) = claim_next_scan worker_id lease_duration now token rows in
        Claims j (get (λ r. r.id) j rows) (get (λ r. r.id) j rows') l
  unfolding claim_next_scan
  claim_next_scan-Claims j rows = claim_from-Claims (claimable_ids now rows) j rows
