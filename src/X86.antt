-- ===== src/X86.antt =====
-- The x86 parts (src/x86).
pub mod BitLength
pub mod Caches
pub mod Topology
pub mod Objects
mod Tests
