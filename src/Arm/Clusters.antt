-- ===== src/Arm/Clusters.antt =====
-- src/arm/linux/clusters.c: which logical processors form a cluster of cores.
pub mod Details
pub mod Scan
pub mod Heuristic
pub mod Count
