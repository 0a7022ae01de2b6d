-- ===== src/Contracts/Content.antt =====
-- kairo_kernel/contracts/content.py
use Prim.Native.Nat.{ℕ}
use Prim.Native.String.{String}
use mathlib.Core.Bool.{Bool}
use mathlib.Core.Option.{Option}
use mathlib.Core.List.{List}
use py_tui_kairo.Contracts.Enums.{MessageRole, MessageKind, ToolExecutionStatus}
use py_tui_kairo.Contracts.Json.{JsonObject}

-- A tool result holds content blocks itself, so the blocks are a list of the same declaration.
mutual
  pub data ContentBlock : Type 0 where
    text_block : String → ContentBlock
    reasoning_block : String → Bool → ContentBlock
    -- media_type, uri, base64_data, alt_text
    image_block : String → String → String → String → ContentBlock
    -- media_type, uri, base64_data, transcript
    audio_block : String → String → String → String → ContentBlock
    -- name, media_type, uri, size_bytes, sha256
    file_block : String → String → String → Option ℕ → String → ContentBlock
    -- resource_id, uri, name, description, media_type
    resource_block : String → String → String → String → String → ContentBlock
    tool_call_block : String → String → JsonObject → ContentBlock
    tool_result_block : String → String → ToolExecutionStatus → Blocks → ContentBlock

  pub data Blocks : Type 0 where
    no_block : Blocks
    block : ContentBlock → Blocks → Blocks

pub record Message : Type 0 where
  pub message_id : String
  pub role : MessageRole
  pub kind : MessageKind
  pub content : List ContentBlock
  pub name : String
