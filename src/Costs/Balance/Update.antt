-- ===== src/Costs/Balance/Update.antt =====
-- Each operation on the attempts keeps the buckets balanced.
use digital_real_estate_engi.Common.{ℕ, ◌+◌, ◌≤◌, ◌≡◌, some, map, ◌==◌, arith}
use digital_real_estate_engi.Common.Sum.{sum-touch, le-sum_of}
use digital_real_estate_engi.Common.Table.{get, touch, IsKeyed-map}
use digital_real_estate_engi.Costs.State.{ApiCall, BucketKey, Buckets, Ledger}
use digital_real_estate_engi.Costs.Balance.{held_weight, unknown_weight, IsBalanced}

module _ (ledger : Ledger) (balanced : IsBalanced ledger) (i : ℕ) (c : ApiCall)
    (found : get (λ c. c.id) i ledger.calls ≡ some c) where
  -- A held reservation is part of what its buckets have reserved.
  pub held-le : (j : BucketKey) → held_weight j c ≤ (ledger.buckets j).reserved_spend_usd
  held-le j = omega (
    arith,
    le-sum_of (λ c. c.id) (held_weight j) (λ c. c) i c ledger.calls found,
    balanced.reserved j,
  )

  pub unknown-le : (j : BucketKey) → unknown_weight j c ≤ (ledger.buckets j).unreconciled_spend_usd
  unknown-le j = omega (
    arith,
    le-sum_of (λ c. c.id) (unknown_weight j) (λ c. c) i c ledger.calls found,
    balanced.unreconciled j,
  )

  -- A write to one attempt that moves the buckets by the change of its weights.
  pub IsBalanced-update :
      (f : ApiCall → ApiCall) (buckets : Buckets)
      → ((c : ApiCall) → (f c).id ≡ c.id)
      → ((j : BucketKey)
          → (buckets j).reserved_spend_usd + held_weight j c
            ≡ (ledger.buckets j).reserved_spend_usd + held_weight j (f c))
      → ((j : BucketKey)
          → (buckets j).unreconciled_spend_usd + unknown_weight j c
            ≡ (ledger.buckets j).unreconciled_spend_usd + unknown_weight j (f c))
      → IsBalanced
          (record { calls = map (touch (λ c. c.id == i) f) ledger.calls; buckets = buckets })
  IsBalanced-update f buckets same moved moved_unknown = record {
    keyed =
        IsKeyed-map (λ c. c.id) (touch (λ c. c.id == i) f) (λ c. ground (arith, same c))
          ledger.calls balanced.keyed;
    reserved = λ j. omega (
      arith,
      moved j,
      balanced.reserved j,
      sum-touch (λ c. c.id) (held_weight j) f i c ledger.calls balanced.keyed found,
    );
    unreconciled = λ j. omega (
      arith,
      moved_unknown j,
      balanced.unreconciled j,
      sum-touch (λ c. c.id) (unknown_weight j) f i c ledger.calls balanced.keyed found,
    );
  }
