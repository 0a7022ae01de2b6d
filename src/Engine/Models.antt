-- ===== src/Engine/Models.antt =====
-- kairo_kernel/engine/models.py. Percents are whole numbers, and the interaction timeout is in the unit of the clock.
use py_tui_kairo.Common.{ℕ, Bool, Option, List, String}
use py_tui_kairo.Contracts.Enums.{AuthorizationMode}
use py_tui_kairo.Contracts.Providers.{ProviderProfile, SessionRecord}
use py_tui_kairo.Contracts.Tools.{ToolDescriptor}

pub record EngineOptions : Type 0 where
  pub default_session_id : Option String
  pub profile_id : Option String
  pub workspace_root : String
  pub workspace_revision : ℕ
  pub authorization_mode : AuthorizationMode
  pub plan_mode : Bool
  pub thinking_mode : Bool
  pub context_trigger_percent : ℕ
  pub context_target_percent : ℕ
  pub preserve_recent_turns : ℕ
  pub interaction_timeout_seconds : ℕ
  pub max_tool_rounds : ℕ
  pub stop_saves_partial : Bool

pub record RunSnapshot : Type 0 where
  pub turn_id : String
  pub session_id : String
  pub session : SessionRecord
  pub profile : ProviderProfile
  pub tools : List ToolDescriptor
  pub options : EngineOptions
  pub accepted_at : ℕ
