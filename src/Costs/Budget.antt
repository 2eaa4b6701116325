-- ===== src/Costs/Budget.antt =====
-- The daily spending limit: what a usage class has spent, reserved and left unreconciled on a day.
pub mod Granting
pub mod Settling
use digital_real_estate_engi.Common.{ℕ, ◌+◌, ◌≤◌, ◌≡◌}
use digital_real_estate_engi.Costs.State.{
  summary_endpoint, UsageClass, production, testing, BucketKey, Bucket, Buckets,
}
use digital_real_estate_engi.Costs.Breakers.{CostSettings}

abbrev pub committed : Bucket → ℕ
committed b = b.spend_usd + b.reserved_spend_usd + b.unreconciled_spend_usd

abbrev pub limit_of : CostSettings → UsageClass → ℕ
limit_of settings production = settings.production_daily_spend_usd
limit_of settings testing = settings.testing_daily_spend_usd

-- No summary bucket is committed beyond the limit of its class.
abbrev pub WithinBudget : CostSettings → Buckets → Type 0
WithinBudget settings buckets =
    (j : BucketKey)
    → j.endpoint ≡ summary_endpoint
    → committed (buckets j) ≤ limit_of settings j.usage_class
