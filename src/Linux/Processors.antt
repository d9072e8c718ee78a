-- ===== src/Linux/Processors.antt =====
-- src/linux/processors.c: what the kernel's files say of the processors of the system.
pub mod Filename
pub mod Value
pub mod Detect
