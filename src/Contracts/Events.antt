-- ===== src/Contracts/Events.antt =====
-- kairo_kernel/contracts/events.py: the event envelope and its payloads.
use Prim.Native.Nat.{ℕ}
use Prim.Native.String.{String}
use mathlib.Core.Bool.{Bool}
use mathlib.Core.Option.{Option}
use mathlib.Core.List.{List}
use py_tui_kairo.Contracts.Enums.{EventType, LifecycleState, TurnStatus, TurnPhase}
use py_tui_kairo.Contracts.Json.{JsonObject}
use py_tui_kairo.Contracts.Content.{ContentBlock}
use py_tui_kairo.Contracts.Tools.{ToolInvocation, ToolOutputChunk, ToolResult}
use py_tui_kairo.Contracts.Interactions.{InteractionRequest, InteractionResponse}
use py_tui_kairo.Contracts.Lifecycle.{ContextStats}

pub data EventPayload : Type 0 where
  -- state, reason
  lifecycle_event : LifecycleState → String → EventPayload
  -- status, phase, reason
  turn_event : TurnStatus → Option TurnPhase → String → EventPayload
  -- message_id, action, content
  message_event : String → String → List ContentBlock → EventPayload
  -- action, invocation, output, result
  tool_event :
      String → Option ToolInvocation → Option ToolOutputChunk → Option ToolResult → EventPayload
  -- action, request, response, interaction_id
  interaction_event :
      String → Option InteractionRequest → Option InteractionResponse → Option String → EventPayload
  usage_event : ContextStats → EventPayload
  -- revision, subject_id, summary
  change_event : ℕ → String → String → EventPayload
  -- level, message, details
  notice_event : String → String → JsonObject → EventPayload

-- The schema version is the constant that `__post_init__` requires, so it is left out.
pub record KernelEvent : Type 0 where
  pub event_id : String
  pub kernel_id : String
  pub sequence : ℕ
  pub timestamp : ℕ
  pub event_type : EventType
  pub payload : EventPayload
  pub turn_sequence : Option ℕ
  pub turn_id : Option String
  pub session_id : Option String
  pub workspace_revision : ℕ

pub record EventReplay : Type 0 where
  pub events : List KernelEvent
  pub oldest_sequence : ℕ
  pub newest_sequence : ℕ
  pub gap : Bool
