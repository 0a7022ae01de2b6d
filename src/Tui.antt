-- ===== src/Tui.antt =====
-- The terminal frontend's view state (frontends/tui/kairo_tui).
pub mod State
pub mod Reducer
pub mod Fold
pub mod EventLoop
