-- ===== src/Scans.antt =====
-- The durable scan queue: src/rank_rent/services/scan_worker.py and scan_leases.py, over the
-- columns of `ScanRunORM` in src/rank_rent/db/orm.py.
pub mod Row
pub mod Lease
pub mod Retry
pub mod Claim
pub mod Recover
pub mod Pipeline
pub mod Begin
pub mod Run
pub mod Protocol
pub mod Fencing
