-- ===== src/ServicesCm/Cycles.antt =====
-- What `validateCycles` and `hasCycle` of pkg/servicescm/servicescm.go do.
pub mod Fuel
pub mod Order
pub mod Lower
pub mod Gaps
