-- ===== src/Contracts/Tools.antt =====
-- kairo_kernel/contracts/tools.py
use Prim.Native.Nat.{ℕ}
use Prim.Native.String.{String}
use mathlib.Core.List.{List}
use py_tui_kairo.Contracts.Enums.{OperationScope, ToolExecutionStatus}
use py_tui_kairo.Contracts.Json.{JsonObject}
use py_tui_kairo.Contracts.Content.{ContentBlock}

pub record ToolDescriptor : Type 0 where
  pub name : String
  pub description : String
  pub parameters_schema : JsonObject
  pub permissions : List String
  pub source : String
  pub manifest_digest : String

pub record ToolInvocation : Type 0 where
  pub tool_call_id : String
  pub turn_id : String
  pub session_id : String
  pub name : String
  pub arguments : JsonObject
  pub scope : OperationScope

pub record ToolExecutionContext : Type 0 where
  pub workspace_root : String
  pub authorization_mode : String
  pub environment_names : List String

pub record ToolOutputChunk : Type 0 where
  pub tool_call_id : String
  pub sequence : ℕ
  pub content : List ContentBlock

pub record ToolResult : Type 0 where
  pub tool_call_id : String
  pub name : String
  pub status : ToolExecutionStatus
  pub content : List ContentBlock
  pub started_at : ℕ
  pub finished_at : ℕ
  pub error_message : String
