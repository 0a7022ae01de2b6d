-- ===== src/Services.antt =====
-- High-level services (kairo_kernel/services).
pub mod Conversations
