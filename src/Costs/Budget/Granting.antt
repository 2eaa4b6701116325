-- ===== src/Costs/Budget/Granting.antt =====
-- A reservation is granted only within the limit.
use digital_real_estate_engi.Common.{
  ℕ, ◌+◌, ◌≤◌, ◌≡◌, ◌≢◌, refl, true, List, if◌then◌else◌, arith, inl, inr, Bool-cases, ltb,
}
use mathlib.Core.Path.{subst}
use digital_real_estate_engi.Common.Result.{ok, raise_if, >>-eq-ok}
use digital_real_estate_engi.Scans.Row.{ScanRow}
use digital_real_estate_engi.Costs.State.{
  summary_endpoint, UsageClass, production, testing, BucketKey, Bucket, key_eq, Ledger,
}
use digital_real_estate_engi.Costs.Environment.{usage_class_of}
use digital_real_estate_engi.Costs.Breakers.{
  CostSettings, Records, assert_spend, assert_durable_breakers, assert_switches, projected_spend,
  abnormal_cost,
}
use digital_real_estate_engi.Costs.Reserve.{
  CallRequest, UsageReservation, reservation_of, bucket_of, reserved_ledger, check_lease,
  eligible_call, assert_allowed, reserve_provider_call, count_reservation,
}
use digital_real_estate_engi.Costs.Balance.{
  spread, spread-zero, reserved-add, unreconciled-add, spend-add,
}
use digital_real_estate_engi.Costs.Balance.Reserving.{reserve-inversion}
use digital_real_estate_engi.Costs.Budget.{committed, limit_of, WithinBudget}

assert_spend-limit :
    (settings : CostSettings) (class : UsageClass) (b : Bucket) (estimated : ℕ)
    → assert_spend settings class b estimated ≡ ok tt
    → projected_spend b estimated ≤ limit_of settings class
unfolding assert_spend
assert_spend-limit settings production b estimated h = ground arith
assert_spend-limit settings testing b estimated h = ground arith

eq_of_key_eq : (a b : BucketKey) → key_eq a b ≡ true → a ≡ b
eq_of_key_eq a b h = ground arith

-- What is booked under a named endpoint reaches a summary bucket once.
pub spread-summary :
    (k j : BucketKey) (amount : ℕ)
    → k.endpoint ≢ summary_endpoint
    → j.endpoint ≡ summary_endpoint
    → spread k amount j
      ≡ (if key_eq (record k { endpoint = summary_endpoint }) j then amount else 0)
unfolding spread
spread-summary k j amount named summary = ground arith

module _ (settings : CostSettings) (records : Records) (scans : List ScanRow)
    (request : CallRequest) (now : ℕ) (ledger : Ledger) where
  abbrev summary_key : BucketKey
  summary_key = record (bucket_of (reservation_of request now)) { endpoint = summary_endpoint }

  -- The summary bucket has room for the estimate of a granted request.
  allowed-limit :
      assert_allowed settings records scans request now ledger ≡ ok tt
      → committed (ledger.buckets summary_key) + request.estimated_cost_usd
        ≤ limit_of settings (usage_class_of request.environment)
  unfolding assert_allowed assert_durable_breakers
  allowed-limit h =
      let h1 = (>>-eq-ok (check_lease scans request.execution_lease now) _ h).1 in
      let h2 =
        (>>-eq-ok (assert_switches settings request.environment request.full_profile) _ h1).1 in
      let h3 =
        (>>-eq-ok
          (raise_if (ltb settings.single_call_abnormal_cost_usd request.estimated_cost_usd)
            abnormal_cost)
          _ h2).1 in
      let h4 = (>>-eq-ok (eligible_call ledger.calls request.api_call_id) _ h3).1 in
      let spend =
        (>>-eq-ok
          (assert_spend settings (usage_class_of request.environment) (ledger.buckets summary_key)
            request.estimated_cost_usd)
          _ h4).0 in
      omega (
        arith,
        assert_spend-limit settings (usage_class_of request.environment)
            (ledger.buckets summary_key) request.estimated_cost_usd spend,
      )

  granted-committed :
      (j : BucketKey)
      → committed ((reserved_ledger request now ledger).buckets j)
        ≡ committed (ledger.buckets j)
          + spread (bucket_of (reservation_of request now)) request.estimated_cost_usd j
  unfolding count_reservation
  granted-committed j =
      let k = bucket_of (reservation_of request now) in
      let f = count_reservation request.estimated_cost_usd request.cache_miss in
      omega (
        arith,
        reserved-add k j f ledger.buckets request.estimated_cost_usd (λ b. refl),
        unreconciled-add k j f ledger.buckets 0 (λ b. omega arith),
        spend-add k j f ledger.buckets 0 (λ b. omega arith),
        spread-zero k j,
      )

  granted-within :
      (j : BucketKey)
      → request.endpoint ≢ summary_endpoint
      → committed (ledger.buckets j) ≤ limit_of settings j.usage_class
      → committed (ledger.buckets summary_key) + request.estimated_cost_usd
        ≤ limit_of settings (usage_class_of request.environment)
      → j.endpoint ≡ summary_endpoint
      → committed ((reserved_ledger request now ledger).buckets j) ≤ limit_of settings j.usage_class
  granted-within j named within room summary = elim (Bool-cases (key_eq summary_key j)) [
    | inl same ↦
        rw
          (
            granted-committed j,
            spread-summary (bucket_of (reservation_of request now)) j request.estimated_cost_usd
                named summary,
            same,
          )
          (subst
            (λ k.
              committed (ledger.buckets k) + request.estimated_cost_usd
              ≤ limit_of settings k.usage_class)
            (eq_of_key_eq summary_key j same) room)
    | inr other ↦
        rw
          (
            granted-committed j,
            spread-summary (bucket_of (reservation_of request now)) j request.estimated_cost_usd
                named summary,
            other,
          )
          (omega arith)
  ]

  -- Where every summary bucket is committed within the daily limit of its class, it is so after a
  -- request for a named endpoint is granted.
  pub reserve-WithinBudget :
      (r : UsageReservation) (ledger' : Ledger)
      → request.endpoint ≢ summary_endpoint
      → WithinBudget settings ledger.buckets
      → reserve_provider_call settings records scans request now ledger ≡ ok (r, ledger')
      → WithinBudget settings ledger'.buckets
  reserve-WithinBudget r ledger' named within h j summary =
      let (allowed, _, writes) =
        reserve-inversion settings records scans request now ledger r ledger' h in
      rw writes (granted-within j named (within j summary) (allowed-limit allowed) summary)
