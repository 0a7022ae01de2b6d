-- ===== src/Contracts.antt =====
-- Data contracts of the kernel (kairo_kernel/contracts, kairo_kernel/errors.py). Identifiers are
-- texts; a datetime is its UTC instant as a number; a float is its bit pattern, with no arithmetic.
pub mod Enums
pub mod Json
pub mod Errors
pub mod Content
pub mod Tools
pub mod Interactions
pub mod Lifecycle
pub mod Events
pub mod Providers
pub mod Turns
pub mod Preferences
