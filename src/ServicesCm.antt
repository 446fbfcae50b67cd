-- ===== src/ServicesCm.antt =====
-- pkg/servicescm.
pub mod Types
pub mod Dependencies
pub mod Independence
pub mod Cycles
pub mod Priorities
pub mod Bootstrap
pub mod ConfigMap
pub mod Samples
mod Tests
