-- ===== src/Arm.antt =====
-- The ARM parts (src/arm).
pub mod Midr
pub mod Processor
pub mod Chipset
pub mod Clusters
pub mod ClusterMidr
pub mod Order
pub mod Caches
mod Tests
