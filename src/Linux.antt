-- ===== src/Linux.antt =====
-- The Linux parts that every architecture shares (src/linux).
pub mod Flags
pub mod File
pub mod Chunks
pub mod Number
pub mod Cpulist
pub mod Multiline
pub mod SmallFile
pub mod Processors
mod Tests
