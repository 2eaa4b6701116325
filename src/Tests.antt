-- ===== src/Tests.antt =====
-- Concrete rows, and the theorems of the library at them.
mod Rows
mod Scans
mod Fencing
mod Costs
mod Reviews
mod Deliveries
mod Assignments
mod Analytics
mod Properties
