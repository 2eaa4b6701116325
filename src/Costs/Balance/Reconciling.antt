-- ===== src/Costs/Balance/Reconciling.antt =====
-- Reconciling stale attempts keeps the buckets balanced.
use digital_real_estate_engi.Common.{
  ℕ, ◌+◌, ◌≡◌, refl, Bool, true, false, Option, none, some, List, [], ◌∷◌, map, ◌==◌, if◌then◌else◌,
  arith, inl, inr, Bool-cases, Option-cases, ◌≢◌, All, All-filter, filter,
}
use digital_real_estate_engi.Common.Table.{get, touch, get-touch_key, IsKeyed, All-get}
use digital_real_estate_engi.Costs.State.{ApiCall, BucketKey, Ledger, update_both}
use digital_real_estate_engi.Costs.Reserve.{is_held}
use digital_real_estate_engi.Costs.Reconcile.{
  call_key, release_bucket, release_reservation, reached_network, close_attempt, reconcile_one,
  reconcile_all, is_stale_call, stale_calls, reconcile_stale_api_call_attempts,
}
use digital_real_estate_engi.Common.Sort.{IsKeyed-filter, IsKeyed-sort_by, All-sort_by}
use digital_real_estate_engi.Costs.Balance.{
  weight, spread, held_weight, unknown_weight, IsBalanced, reserved-sub, unreconciled-add,
}
use digital_real_estate_engi.Costs.Balance.Update.{held-le, IsBalanced-update}

module _ (now : ℕ) (ledger : Ledger) (balanced : IsBalanced ledger) (c : ApiCall)
    (found : get (λ c. c.id) c.id ledger.calls ≡ some c) where
  pub close_attempt-id : (x : ApiCall) → (close_attempt now x).id ≡ x.id
  unfolding close_attempt
  close_attempt-id x = ground arith

  -- What a closed attempt weighs, when it held a reservation and when it did not.
  pub closed-weight :
      (j : BucketKey)
      → (is_held c.reservation_state ≡ true)
      → (held_weight j c ≡ weight c j)
        × (held_weight j (close_attempt now c) ≡ 0)
        × (unknown_weight j c ≡ 0)
        × (unknown_weight j (close_attempt now c) ≡ (if reached_network c then weight c j else 0))
  unfolding close_attempt
  closed-weight j held_now = ground (arith, held_now)

  unheld-weight :
      (j : BucketKey)
      → (is_held c.reservation_state ≡ false)
      → (held_weight j (close_attempt now c) ≡ held_weight j c)
        × (unknown_weight j (close_attempt now c) ≡ unknown_weight j c)
  unfolding close_attempt
  unheld-weight j free = ground (arith, free)

  abbrev pub closed_calls : List ApiCall
  closed_calls = map (touch (λ x. x.id == c.id) (close_attempt now)) ledger.calls

  pub reconcile_one_held :
      (date : ℕ)
      → c.reservation_usage_date ≡ some date
      → is_held c.reservation_state ≡ true
      → reconcile_one now c ledger ≡ record {
        calls = closed_calls;
        buckets =
            update_both
              (call_key date c)
              (release_bucket c.reservation_estimated_cost_usd (reached_network c))
              ledger.buckets;
      }
  unfolding reconcile_one release_reservation
  reconcile_one_held date dated held_now = rw (dated, held_now)

  pub reconcile_one_undated :
      c.reservation_usage_date ≡ none
      → reconcile_one now c ledger ≡ record { calls = closed_calls; buckets = ledger.buckets }
  unfolding reconcile_one release_reservation
  reconcile_one_undated undated = rw undated

  pub reconcile_one_free :
      is_held c.reservation_state ≡ false
      → reconcile_one now c ledger ≡ record { calls = closed_calls; buckets = ledger.buckets }
  unfolding reconcile_one release_reservation
  reconcile_one_free free = ground (arith, free)

  undated-weight :
      (j : BucketKey)
      → c.reservation_usage_date ≡ none
      → (held_weight j c ≡ 0)
        × (held_weight j (close_attempt now c) ≡ 0)
        × (unknown_weight j c ≡ 0)
        × (unknown_weight j (close_attempt now c) ≡ 0)
  unfolding close_attempt
  undated-weight j undated = ground (arith, undated)

  pub dated-weight :
      (j : BucketKey) (date : ℕ)
      → c.reservation_usage_date ≡ some date
      → weight c j ≡ spread (call_key date c) c.reservation_estimated_cost_usd j
  dated-weight j date dated = ground (arith, dated)

  pub released-unreconciled :
      (j : BucketKey) (k : BucketKey) (u : Bool)
      → (update_both k
          (release_bucket c.reservation_estimated_cost_usd u)
          ledger.buckets
          j).unreconciled_spend_usd
        ≡ (ledger.buckets j).unreconciled_spend_usd
          + (if u then spread k c.reservation_estimated_cost_usd j else 0)
  unfolding release_bucket spread
  released-unreconciled j k u = ground (
    arith,
    unreconciled-add k j (release_bucket c.reservation_estimated_cost_usd u) ledger.buckets
        (if u then c.reservation_estimated_cost_usd else 0) (λ b. ground arith),
  )

  -- One round of the loop: a held reservation is released, into the unreconciled spend if the
  -- attempt had reached the network.
  pub reconcile_one-IsBalanced : IsBalanced (reconcile_one now c ledger)
  unfolding release_bucket
  reconcile_one-IsBalanced = elim (Option-cases c.reservation_usage_date) [
    | inl undated ↦ rw (reconcile_one_undated undated) (
        IsBalanced-update ledger balanced c.id c found (close_attempt now) ledger.buckets
          close_attempt-id (λ j. omega (arith, undated-weight j undated))
          (λ j. omega (arith, undated-weight j undated)))
    | inr (date, dated) ↦ elim (Bool-cases (is_held c.reservation_state)) [
      | inl held_now ↦ rw (reconcile_one_held date dated held_now) (
          IsBalanced-update ledger balanced c.id c found (close_attempt now)
            (update_both (call_key date c)
              (release_bucket c.reservation_estimated_cost_usd (reached_network c)) ledger.buckets)
            close_attempt-id
            (λ j. omega (
              arith,
              closed-weight j held_now,
              dated-weight j date dated,
              held-le ledger balanced c.id c found j,
              reserved-sub (call_key date c) j
                  (release_bucket c.reservation_estimated_cost_usd (reached_network c))
                  ledger.buckets c.reservation_estimated_cost_usd (λ b. refl),
            ))
            (λ j. ground (
              arith,
              closed-weight j held_now,
              dated-weight j date dated,
              released-unreconciled j (call_key date c) (reached_network c),
            )))
      | inr free ↦ rw (reconcile_one_free free) (
          IsBalanced-update ledger balanced c.id c found (close_attempt now) ledger.buckets
            close_attempt-id (λ j. omega (arith, unheld-weight j free))
            (λ j. omega (arith, unheld-weight j free)))
    ]
  ]

-- The rows that are still to be closed are as the select read them.
abbrev pub Current : List ApiCall → List ApiCall → Type 0
Current calls rows = All (λ c. get (λ x. x.id) c.id calls ≡ some c) rows

pub Current-touch :
    (f : ApiCall → ApiCall) (same : (x : ApiCall) → (f x).id ≡ x.id) (i : ℕ)
    (calls rows : List ApiCall)
    → All (λ c. c.id ≢ i) rows
    → Current calls rows
    → Current (map (touch (λ x. x.id == i) f) calls) rows
Current-touch f same i calls [] n h = tt
Current-touch f same i calls (c ∷ rows) n h = (
  ground (arith, get-touch_key (λ x. x.id) f same i c.id calls, n.0, h.0),
  Current-touch f same i calls rows n.1 h.1,
)

release_reservation-calls :
    (c : ApiCall) (u : Bool) (ledger : Ledger)
    → (release_reservation c u ledger).calls ≡ ledger.calls
unfolding release_reservation
release_reservation-calls c u ledger = ground arith

pub reconcile_one-calls :
    (now : ℕ) (c : ApiCall) (ledger : Ledger)
    → (reconcile_one now c ledger).calls
      ≡ map (touch (λ x. x.id == c.id) (close_attempt now)) ledger.calls
unfolding reconcile_one
reconcile_one-calls now c ledger =
    ground (arith, release_reservation-calls c (reached_network c) ledger)

pub reconcile_all-IsBalanced :
    (now : ℕ) (rows : List ApiCall) (ledger : Ledger)
    → IsBalanced ledger
    → IsKeyed (λ c. c.id) rows
    → Current ledger.calls rows
    → IsBalanced (reconcile_all now rows ledger)
unfolding reconcile_all
reconcile_all-IsBalanced now [] ledger balanced keyed current = balanced
reconcile_all-IsBalanced now (c ∷ rows) ledger balanced keyed current =
    reconcile_all-IsBalanced now rows (reconcile_one now c ledger)
      (reconcile_one-IsBalanced now ledger balanced c current.0) keyed.1
      (rw (reconcile_one-calls now c ledger) (
        Current-touch (close_attempt now) (close_attempt-id now ledger balanced c current.0) c.id
          ledger.calls rows keyed.0 current.1))

-- The selected rows are distinct rows of the table.
pub stale_calls-Current :
    (stale_before : ℕ) (scan_run_id : Option ℕ) (ledger : Ledger)
    → IsBalanced ledger
    → IsKeyed (λ c. c.id) (stale_calls stale_before scan_run_id ledger)
      × Current ledger.calls (stale_calls stale_before scan_run_id ledger)
stale_calls-Current stale_before scan_run_id ledger balanced = (
  IsKeyed-sort_by (λ c. c.id) (λ c. c.id)
      (filter (is_stale_call stale_before scan_run_id) ledger.calls)
      (IsKeyed-filter (λ c. c.id) (is_stale_call stale_before scan_run_id) ledger.calls
        balanced.keyed),
  All-sort_by (λ c. c.id) (λ c. get (λ x. x.id) c.id ledger.calls ≡ some c)
      (filter (is_stale_call stale_before scan_run_id) ledger.calls)
      (All-filter (λ c. get (λ x. x.id) c.id ledger.calls ≡ some c)
        (is_stale_call stale_before scan_run_id) ledger.calls
        (All-get (λ c. c.id) ledger.calls balanced.keyed)),
)

-- Reconciling the stale attempts of a balanced ledger leaves it balanced: every bucket equal to the
-- sum of what is held and of what is unknown.
pub reconcile_stale-IsBalanced :
    (stale_before : ℕ) (scan_run_id : Option ℕ) (now : ℕ) (ledger : Ledger)
    → IsBalanced ledger
    → IsBalanced (reconcile_stale_api_call_attempts stale_before scan_run_id now ledger).0
unfolding reconcile_stale_api_call_attempts
reconcile_stale-IsBalanced stale_before scan_run_id now ledger balanced =
    let (keyed, current) = stale_calls-Current stale_before scan_run_id ledger balanced in
    reconcile_all-IsBalanced now (stale_calls stale_before scan_run_id ledger) ledger balanced keyed
      current
