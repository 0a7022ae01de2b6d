-- ===== src/Tools.antt =====
-- The kernel's tools (kairo_kernel/tools).
pub mod Gate
pub mod Registry
