-- ===== src/Costs/Budget/Settling.antt =====
-- Settling an attempt commits no more than was committed before, as long as the provider charges no
-- more than the estimate.
use digital_real_estate_engi.Common.{
  ℕ, ◌+◌, ◌≤◌, ◌≡◌, refl, true, Option, none, some, List, [], ◌∷◌, if◌then◌else◌, arith, inl, inr,
  Bool-cases, Option-cases,
}
use digital_real_estate_engi.Common.Int.{ℤ, pos_part}
use digital_real_estate_engi.Common.Text.{Text}
use digital_real_estate_engi.Common.Table.{get, IsKeyed}
use digital_real_estate_engi.Costs.State.{ApiCall, BucketKey, Ledger, update_both}
use digital_real_estate_engi.Costs.Reserve.{UsageReservation, bucket_of, is_held, is_free}
use digital_real_estate_engi.Costs.Finish.{CallOutcome, settle_bucket, finish_provider_call}
use digital_real_estate_engi.Costs.Reconcile.{
  call_key, release_bucket, reached_network, reconcile_one, reconcile_all, close_attempt,
  stale_calls, reconcile_stale_api_call_attempts,
}
use digital_real_estate_engi.Costs.Resolve.{
  Verdict, magnitude, is_awaiting, book_spend, book_bucket,
}
use digital_real_estate_engi.Costs.Balance.{
  spread, spread-zero, IsBalanced, reserved-sub, spend-add,
}
use digital_real_estate_engi.Costs.Balance.Update.{held-le, unknown-le}
use digital_real_estate_engi.Costs.Balance.Settling.{
  IsFrom, finish_held, from-weight, settled-unreconciled,
}
use digital_real_estate_engi.Costs.Balance.Reconciling.{
  reconcile_one_held, reconcile_one_undated, reconcile_one_free, closed-weight, dated-weight,
  released-unreconciled, Current, Current-touch, reconcile_one-calls, close_attempt-id,
  reconcile_one-IsBalanced, stale_calls-Current,
}
use digital_real_estate_engi.Costs.Balance.Resolving.{booked, resolved-weight, resolved_ledger}
use digital_real_estate_engi.Costs.Budget.{committed}

spread_mono : (k j : BucketKey) (a b : ℕ) → a ≤ b → spread k a j ≤ spread k b j
unfolding spread
spread_mono k j a b h = ground arith

module _ (r : UsageReservation) (outcome : CallOutcome) (now : ℕ) (ledger : Ledger)
    (balanced : IsBalanced ledger) (i : ℕ) (c : ApiCall) (named : r.api_call_id ≡ some i)
    (found : get (λ c. c.id) i ledger.calls ≡ some c) where
  settled-spend :
      (j : BucketKey)
      → (update_both
          (bucket_of r)
          (settle_bucket r.estimated_cost_usd outcome)
          ledger.buckets
          j).spend_usd
        ≡ (ledger.buckets j).spend_usd
          + (if outcome.provider_outcome_unknown
              then 0
              else spread (bucket_of r) (pos_part outcome.actual_cost_usd) j)
  unfolding settle_bucket spread
  settled-spend j = ground (
    arith,
    spend-add (bucket_of r) j (settle_bucket r.estimated_cost_usd outcome) ledger.buckets
        (if outcome.provider_outcome_unknown then 0 else pos_part outcome.actual_cost_usd)
        (λ b. ground arith),
  )

  -- Finishing a call that cost at most its estimate commits no bucket further: what was reserved is
  -- spent, left unreconciled or given back. The ledger is balanced and the attempt holds the reservation.
  pub finish-committed :
      IsFrom r c
      → pos_part outcome.actual_cost_usd ≤ r.estimated_cost_usd
      → (j : BucketKey)
      → committed ((finish_provider_call r outcome now ledger).buckets j)
        ≤ committed (ledger.buckets j)
  unfolding settle_bucket
  finish-committed from cheap j =
      rw (finish_held r outcome now ledger balanced i c named found from) (
        ground (
          arith,
          settled-spend j,
          settled-unreconciled r outcome now ledger balanced i c named found j,
          reserved-sub (bucket_of r) j (settle_bucket r.estimated_cost_usd outcome) ledger.buckets
              r.estimated_cost_usd (λ b. refl),
          from-weight r outcome now ledger balanced i c named found from j,
          held-le ledger balanced i c found j,
          spread_mono (bucket_of r) j (pos_part outcome.actual_cost_usd) r.estimated_cost_usd cheap,
        ))

reconcile_one-committed :
    (now : ℕ) (ledger : Ledger) (c : ApiCall)
    → IsBalanced ledger
    → get (λ c. c.id) c.id ledger.calls ≡ some c
    → (j : BucketKey)
    → committed ((reconcile_one now c ledger).buckets j) ≤ committed (ledger.buckets j)
unfolding release_bucket
reconcile_one-committed now ledger c balanced found j =
    elim (Option-cases c.reservation_usage_date) [
      | inl undated ↦ rw (reconcile_one_undated now ledger balanced c found undated) (omega arith)
      | inr (date, dated) ↦ elim (Bool-cases (is_held c.reservation_state)) [
        | inl held_now ↦ rw (reconcile_one_held now ledger balanced c found date dated held_now) (
            ground (
              arith,
              closed-weight now ledger balanced c found j held_now,
              dated-weight now ledger balanced c found j date dated,
              held-le ledger balanced c.id c found j,
              released-unreconciled now ledger balanced c found j (call_key date c)
                  (reached_network c),
              spend-add (call_key date c) j
                  (release_bucket c.reservation_estimated_cost_usd (reached_network c))
                  ledger.buckets 0 (λ b. omega arith),
              spread-zero (call_key date c) j,
              reserved-sub (call_key date c) j
                  (release_bucket c.reservation_estimated_cost_usd (reached_network c))
                  ledger.buckets c.reservation_estimated_cost_usd (λ b. refl),
            ))
        | inr free ↦ rw (reconcile_one_free now ledger balanced c found free) (omega arith)
      ]
    ]

pub reconcile_all-committed :
    (now : ℕ) (rows : List ApiCall) (ledger : Ledger) (j : BucketKey)
    → IsBalanced ledger
    → IsKeyed (λ c. c.id) rows
    → Current ledger.calls rows
    → committed ((reconcile_all now rows ledger).buckets j) ≤ committed (ledger.buckets j)
unfolding reconcile_all
reconcile_all-committed now [] ledger j balanced keyed current = omega arith
reconcile_all-committed now (c ∷ rows) ledger j balanced keyed current = omega (
  arith,
  reconcile_one-committed now ledger c balanced current.0 j,
  reconcile_all-committed now rows (reconcile_one now c ledger) j
      (reconcile_one-IsBalanced now ledger balanced c current.0) keyed.1
      (rw (reconcile_one-calls now c ledger) (
        Current-touch (close_attempt now) (close_attempt-id now ledger balanced c current.0) c.id
          ledger.calls rows keyed.0 current.1)),
)

-- Closing the stale attempts commits no more than was committed before.
-- Reconciling the stale attempts of a balanced ledger commits no bucket further.
pub reconcile_stale-committed :
    (stale_before : ℕ) (scan_run_id : Option ℕ) (now : ℕ) (ledger : Ledger)
    → IsBalanced ledger
    → (j : BucketKey)
    → committed
        ((reconcile_stale_api_call_attempts stale_before scan_run_id now ledger).0.buckets j)
      ≤ committed (ledger.buckets j)
unfolding reconcile_stale_api_call_attempts
reconcile_stale-committed stale_before scan_run_id now ledger balanced j =
    let (keyed, current) = stale_calls-Current stale_before scan_run_id ledger balanced in
    reconcile_all-committed now (stale_calls stale_before scan_run_id ledger) ledger j balanced
      keyed current

-- A charge within the estimate that was set aside for an unknown outcome.
pub resolve-committed :
    (note : Text) (i : ℕ) (verdict : Verdict) (cost : ℤ) (now : ℕ) (ledger : Ledger)
    (balanced : IsBalanced ledger) (c : ApiCall) (found : get (λ c. c.id) i ledger.calls ≡ some c)
    → is_awaiting c ≡ true
    → (is_free c.reservation_state ≡ true → c.reservation_usage_date ≡ none)
    → magnitude cost ≤ c.reservation_estimated_cost_usd
    → (j : BucketKey)
    → committed ((resolved_ledger note i verdict cost now c ledger).buckets j)
      ≤ committed (ledger.buckets j)
unfolding book_spend book_bucket spread
resolve-committed note i verdict cost now ledger balanced c found waiting undated cheap j = ground (
  arith,
  booked note i verdict cost now ledger balanced c found waiting j,
  resolved-weight note i verdict cost now ledger balanced c found waiting j undated,
  unknown-le ledger balanced i c found j,
)
