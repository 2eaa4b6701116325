-- ===== src/Costs/Balance.antt =====
-- The usage buckets against the attempts: the reserved spend of every bucket is the sum of the
-- reservations that are held, and its unreconciled spend the sum of those whose outcome is unknown.
pub mod Update
pub mod Reserving
pub mod Settling
pub mod Reconciling
pub mod Resolving
use digital_real_estate_engi.Common.{
  ℕ, ◌+◌, ◌-◌, ◌≡◌, Bool, true, false, none, some, if◌then◌else◌, arith,
}
use digital_real_estate_engi.Common.Sum.{sum_of}
use digital_real_estate_engi.Common.Table.{IsKeyed}
use digital_real_estate_engi.Costs.State.{
  summary_endpoint, ReservationState, reconciled_unknown, ApiCall, BucketKey, Bucket, key_eq,
  update_both, Buckets, Ledger,
}
use digital_real_estate_engi.Costs.Reserve.{is_held}
use digital_real_estate_engi.Costs.Reconcile.{call_key}

-- What an amount booked under `k`, and under the summary of `k`, adds to bucket `j`.
unfoldable pub spread : BucketKey → ℕ → BucketKey → ℕ
spread k amount j =
    (if key_eq k j then amount else 0)
    + (if key_eq (record k { endpoint = summary_endpoint }) j then amount else 0)

pub spread-zero : (k j : BucketKey) → spread k 0 j ≡ 0
unfolding spread
spread-zero k j = ground arith

abbrev pub weight : ApiCall → BucketKey → ℕ
weight c j = elim c.reservation_usage_date [
  | none ↦ 0
  | some date ↦ spread (call_key date c) c.reservation_estimated_cost_usd j
]

abbrev pub is_unknown : ReservationState → Bool
is_unknown reconciled_unknown = true
is_unknown _ = false

abbrev pub held_weight : BucketKey → ApiCall → ℕ
held_weight j c = if is_held c.reservation_state then weight c j else 0

abbrev pub unknown_weight : BucketKey → ApiCall → ℕ
unknown_weight j c = if is_unknown c.reservation_state then weight c j else 0

pub record IsBalanced (ledger : Ledger) : Type 0 where
  pub keyed : IsKeyed (λ c. c.id) ledger.calls
  pub reserved :
      (j : BucketKey) → (ledger.buckets j).reserved_spend_usd ≡ sum_of (held_weight j) ledger.calls
  pub unreconciled :
      (j : BucketKey)
      → (ledger.buckets j).unreconciled_spend_usd ≡ sum_of (unknown_weight j) ledger.calls

-- How a pair of writes shows in the money of one bucket.
module _ (k j : BucketKey) (f : Bucket → Bucket) (buckets : Buckets) (amount : ℕ) where
  pub reserved-add :
      ((b : Bucket) → (f b).reserved_spend_usd ≡ b.reserved_spend_usd + amount)
      → (update_both k f buckets j).reserved_spend_usd
        ≡ (buckets j).reserved_spend_usd + spread k amount j
  unfolding spread
  reserved-add h = ground (arith, h (buckets j), h (f (buckets j)))

  pub reserved-sub :
      ((b : Bucket) → (f b).reserved_spend_usd ≡ b.reserved_spend_usd - amount)
      → (update_both k f buckets j).reserved_spend_usd
        ≡ (buckets j).reserved_spend_usd - spread k amount j
  unfolding spread
  reserved-sub h = ground (arith, h (buckets j), h (f (buckets j)))

  pub unreconciled-add :
      ((b : Bucket) → (f b).unreconciled_spend_usd ≡ b.unreconciled_spend_usd + amount)
      → (update_both k f buckets j).unreconciled_spend_usd
        ≡ (buckets j).unreconciled_spend_usd + spread k amount j
  unfolding spread
  unreconciled-add h = ground (arith, h (buckets j), h (f (buckets j)))

  pub unreconciled-sub :
      ((b : Bucket) → (f b).unreconciled_spend_usd ≡ b.unreconciled_spend_usd - amount)
      → (update_both k f buckets j).unreconciled_spend_usd
        ≡ (buckets j).unreconciled_spend_usd - spread k amount j
  unfolding spread
  unreconciled-sub h = ground (arith, h (buckets j), h (f (buckets j)))

  pub spend-add :
      ((b : Bucket) → (f b).spend_usd ≡ b.spend_usd + amount)
      → (update_both k f buckets j).spend_usd ≡ (buckets j).spend_usd + spread k amount j
  unfolding spread
  spend-add h = ground (arith, h (buckets j), h (f (buckets j)))
