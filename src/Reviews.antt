-- ===== src/Reviews.antt =====
-- The human review of opportunities: src/rank_rent/opportunity_review/services.py and models.py.
pub mod State
pub mod CostLedger
pub mod Completeness
pub mod Transition
pub mod Protocol
