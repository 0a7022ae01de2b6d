-- ===== src/Engine.antt =====
-- The turn engine (kairo_kernel/engine).
pub mod Context
pub mod Models
pub mod Turns
pub mod Submit
