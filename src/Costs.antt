-- ===== src/Costs.antt =====
-- Paid provider calls: src/rank_rent/services/cost_controls.py, with the qualification gate of
-- src/rank_rent/services/qualification.py and the columns of `ApiCallORM`,
-- `ProviderDailyUsageORM` and `BillingReconciliationORM` in src/rank_rent/db/orm.py.
pub mod State
pub mod Environment
pub mod Qualification
pub mod Breakers
pub mod Reserve
pub mod Finish
pub mod Reconcile
pub mod Resolve
pub mod Balance
pub mod Budget
pub mod Attempts
pub mod Protocol
pub mod Request
