-- ===== src/Engine/Turns.antt =====
-- kairo_kernel/engine/turns.py: the turn state machine, `TurnEngine`.
pub mod Machine
pub mod Stream
pub mod Compaction
pub mod Approval
pub mod Tools
pub mod Plan
pub mod Loop
pub mod Execute
pub mod Keeps
pub mod Stable
pub mod Steady
pub mod Ensures
pub mod Consent
pub mod Invoke
pub mod Rounds
pub mod Sound
pub mod Ending
pub mod Fuel
pub mod Results
pub mod Answers
mod Examples
