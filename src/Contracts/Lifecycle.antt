-- ===== src/Contracts/Lifecycle.antt =====
-- kairo_kernel/contracts/lifecycle.py
use Prim.Native.Nat.{ℕ}
use Prim.Native.String.{String}
use mathlib.Core.Bool.{Bool}
use mathlib.Core.Option.{Option}
use py_tui_kairo.Contracts.Enums.{AuthorizationMode, LifecycleState}
use py_tui_kairo.Contracts.Json.{Float}

pub record ContextStats : Type 0 where
  pub used_tokens : ℕ
  pub context_window : ℕ
  pub percent : Float
  pub input_tokens : ℕ
  pub output_tokens : ℕ

pub record KernelStatus : Type 0 where
  pub kernel_id : String
  pub state : LifecycleState
  pub package_version : String
  pub started_at : Option ℕ
  pub workspace_root : String
  pub workspace_revision : ℕ
  pub active_profile_id : Option String
  pub active_session_id : Option String
  pub active_turn_id : Option String
  pub authorization_mode : AuthorizationMode
  pub plan_mode : Bool
  pub thinking_mode : Bool
  pub context : ContextStats
  pub degraded_reason : String
