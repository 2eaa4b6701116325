-- ===== src/Reviews/CostLedger/Correct.antt =====
-- What a complete cost ledger of a scan shows of its plan.
use digital_real_estate_engi.Common.{
  ℕ, ◌≡◌, inl, inr, Bool, true, false, not, none, some, List, [], ◌∷◌, ◌&&◌, holds, filter, any,
  All, All-imp, All_of_All-filter, arith, Bool-cases, Option-cases,
}
use digital_real_estate_engi.Reviews.CostLedger.{
  PlannedCall, ExecutedCall, is_terminal_status, is_executed, is_empty, unexecuted, all_terminal,
  ledger_complete,
}

-- A call of the scan was made for the planned one, and has ended.
abbrev pub is_finished : (scan_run_id : ℕ) → List ExecutedCall → PlannedCall → Bool
is_finished scan_run_id calls planned = elim planned.planned_request_id [
  | none ↦ false
  | some p ↦
      any
        (λ r.
          holds r.scan_run_id scan_run_id
          && (holds r.planned_request_id p && is_terminal_status r.status))
        calls
]

both : (a b : Bool) → (a && b) ≡ true → (a ≡ true) × (b ≡ true)
both a b h = (ground arith, ground arith)

none_left {ℓ} :
    {A : Type ℓ} (p : A → Bool) (xs : List A)
    → is_empty (filter (λ x. not (p x)) xs) ≡ true
    → All (λ x. p x ≡ true) xs
none_left p [] h = tt
none_left p (x ∷ xs) h = elim (Bool-cases (p x)) [
  | inl t ↦ (t, none_left p xs (rw t at h))
  | inr f ↦ absurd (ground (arith, f))
]

module _ (scan_run_id : ℕ) where
  abbrev of_scan : List ExecutedCall → List ExecutedCall
  of_scan calls = filter (λ r. holds r.scan_run_id scan_run_id) calls

  any-ended :
      (p : ℕ) (calls : List ExecutedCall)
      → all_terminal (of_scan calls) ≡ true
      → any (λ r. holds r.planned_request_id p) (of_scan calls) ≡ true
      → any
          (λ r.
            holds r.scan_run_id scan_run_id
            && (holds r.planned_request_id p && is_terminal_status r.status))
          calls
        ≡ true
  any-ended p [] ended made = made
  any-ended p (r ∷ calls) ended made = ground (arith, any-ended p calls)

  executed-finished :
      (calls : List ExecutedCall) (planned : PlannedCall)
      → all_terminal (of_scan calls) ≡ true
      → is_executed (of_scan calls) planned ≡ true
      → is_finished scan_run_id calls planned ≡ true
  executed-finished calls planned ended made = elim (Option-cases planned.planned_request_id) [
    | inl absent ↦ absurd (ground (arith, absent))
    | inr (p, named) ↦ rw named (any-ended p calls ended (rw named at made))
  ]

  -- Where the cost ledger of a scan is complete, every call that was planned for the scan has an id
  -- that a call of the scan carries which was served from the cache, completed or failed.
  pub ledger_complete-finished :
      (planned_calls : List PlannedCall) (api_calls : List ExecutedCall)
      → ledger_complete scan_run_id planned_calls api_calls ≡ true
      → All
          (λ planned.
            holds (some planned.scan_run_id) scan_run_id ≡ true
            → is_finished scan_run_id api_calls planned ≡ true)
          planned_calls
  unfolding ledger_complete
  ledger_complete-finished planned_calls api_calls h =
      let rows = of_scan api_calls in
      let planned_rows = filter (λ p. holds (some p.scan_run_id) scan_run_id) planned_calls in
      let no_gap : is_empty (unexecuted planned_rows rows) ≡ true = (both _ _ h).0 in
      let ended : all_terminal rows ≡ true = (both _ _ (both _ _ h).1).1 in
      All_of_All-filter (λ p. is_finished scan_run_id api_calls p ≡ true)
        (λ p. holds (some p.scan_run_id) scan_run_id) planned_calls
        (All-imp (λ p. is_executed rows p ≡ true) (λ p. is_finished scan_run_id api_calls p ≡ true)
          (λ p. executed-finished api_calls p ended) planned_rows
          (none_left (is_executed rows) planned_rows no_gap))
