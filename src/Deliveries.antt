-- ===== src/Deliveries.antt =====
-- The durable queue of lead deliveries: src/rank_rent/lead_routing/worker.py, over the columns of
-- lead_routing/orm.py.
pub mod Mask
pub mod Row
pub mod Store
pub mod Run
pub mod Writes
pub mod Protocol
pub mod Queue
