-- ===== src/Runtime.antt =====
-- The asynchronous primitives of the kernel (kairo_kernel/runtime). One event loop runs them, and a
-- coroutine changes state only between two awaits, so each such stretch is one function.
pub mod Cancellation
pub mod Lifecycle
pub mod Turns
pub mod Workspace
pub mod Events
pub mod Interactions
