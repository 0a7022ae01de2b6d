-- ===== src/Contracts/Providers.antt =====
-- kairo_kernel/contracts/providers.py, and SessionRecord of kairo_kernel/contracts/support.py
use Prim.Native.Nat.{ℕ}
use Prim.Native.String.{String}
use mathlib.Core.Bool.{Bool}
use mathlib.Core.Option.{Option}
use mathlib.Core.List.{List}
use py_tui_kairo.Contracts.Enums.{ProviderStreamKind, ProviderFailureKind}
use py_tui_kairo.Contracts.Json.{JsonObject, Float}
use py_tui_kairo.Contracts.Content.{ContentBlock, Message}
use py_tui_kairo.Contracts.Tools.{ToolDescriptor}

pub record ProviderProfile : Type 0 where
  pub profile_id : String
  pub label : String
  pub provider : String
  pub model : String
  pub base_url : String
  pub context_window : ℕ
  pub max_output_tokens : ℕ
  pub temperature : Float
  pub secret_id : String

pub record ProviderRequest : Type 0 where
  pub profile : ProviderProfile
  pub messages : List Message
  pub tools : List ToolDescriptor
  pub max_output_tokens : Option ℕ
  pub temperature : Option Float
  pub role : String

pub record ProviderUsage : Type 0 where
  pub input_tokens : ℕ
  pub output_tokens : ℕ
  pub cached_tokens : ℕ

pub record ProviderFailure : Type 0 where
  pub kind : ProviderFailureKind
  pub message : String
  pub retryable : Bool
  pub status_code : Option ℕ

-- `ToolCallBlock`, as a record of its own.
pub record ToolCall : Type 0 where
  pub tool_call_id : String
  pub name : String
  pub arguments : JsonObject

pub record ProviderStreamEvent : Type 0 where
  pub kind : ProviderStreamKind
  pub content : List ContentBlock
  pub tool_call : Option ToolCall
  pub usage : Option ProviderUsage
  pub failure : Option ProviderFailure
  pub finish_reason : String

pub record SessionRecord : Type 0 where
  pub session_id : String
  pub name : String
  pub messages : List Message
  pub created_at : ℕ
  pub updated_at : ℕ
  pub compression_count : ℕ
