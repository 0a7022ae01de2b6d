-- ===== src/Engine/Context/Examples.antt =====
-- A history of two turns after a system message.
use py_tui_kairo.Common.{◌*◌, ◌/◌, min, max, ◌≡◌, false, List, [], ◌∷◌, ◌++◌, String, length}
use py_tui_kairo.Contracts.Enums.{MessageRole, MessageKind}
use py_tui_kairo.Contracts.Content.{Message, ContentBlock}
use py_tui_kairo.Contracts.Tools.{ToolDescriptor}
use py_tui_kairo.Engine.Context.{
  ContextPacker, split_turns, join, preserved, source_and_retained, trim_to_target,
}
use py_tui_kairo.Engine.Context.Turns.{IsSplit, split_turns-lossless, source_and_retained-partition}
use py_tui_kairo.Engine.Context.Trim.{Trimmed, trim_to_target-Trimmed}

abbrev message : String → MessageRole → Message
message text role = record {
  message_id = text;
  role = role;
  kind = MessageKind.chat;
  content = ContentBlock.text_block text ∷ [];
  name = "";
}

abbrev history : List Message
history =
    message "rules" MessageRole.system
    ∷ message "first" MessageRole.user
    ∷ message "done" MessageRole.assistant
    ∷ message "second" MessageRole.user
    ∷ []

abbrev packer : ContextPacker
packer = record { trigger_percent = 85; target_percent = 60; preserve_turns = 1 }

abbrev json : Message → String
json m = m.message_id

abbrev tool_json : ToolDescriptor → String
tool_json t = t.name

split_turns-lossless_example :
    ((split_turns history).prefix ++ join (split_turns history).turns ≡ history)
    × IsSplit (split_turns history)
split_turns-lossless_example = split_turns-lossless history

source_and_retained-partition_example :
    (recent : List (List Message)) × ((source_and_retained packer false history).1
      ≡ (split_turns history).prefix ++ join recent)
    × ((split_turns history).prefix ++ ((source_and_retained packer false history).0 ++ join recent)
        ≡ history)
    × (length recent ≡ preserved packer false (length (split_turns history).turns))
source_and_retained-partition_example = source_and_retained-partition packer false history

trim_to_target-Trimmed_example :
    Trimmed json tool_json []
      (max 1 10 * 60 / 100)
      (min (length (split_turns history).turns) (max 1 1))
      (split_turns history).prefix
      (split_turns history).turns
      (trim_to_target json tool_json packer history [] 10 1)
trim_to_target-Trimmed_example = trim_to_target-Trimmed json tool_json [] packer history 10 1
