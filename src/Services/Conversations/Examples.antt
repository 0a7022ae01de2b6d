-- ===== src/Services/Conversations/Examples.antt =====
-- A session with two turns, the first after a system message.
use py_tui_kairo.Common.{◌≡◌, refl, [], ◌∷◌, String, length}
use py_tui_kairo.Contracts.Enums.{MessageRole, MessageKind}
use py_tui_kairo.Contracts.Content.{Message}
use py_tui_kairo.Contracts.Errors.{success}
use py_tui_kairo.Contracts.Providers.{SessionRecord}
use py_tui_kairo.Common.Dict.{get}
use py_tui_kairo.Runtime.Turns.{new_supervisor}
use py_tui_kairo.Services.Conversations.{ConversationService, undone, undo}
use py_tui_kairo.Services.Conversations.Undo.{Undone, undone-Undone}

abbrev message : String → MessageRole → Message
message id role = record {
  message_id = id;
  role = role;
  kind = MessageKind.chat;
  content = [];
  name = "";
}

abbrev session : SessionRecord
session = record {
  session_id = "main";
  name = "";
  messages =
      message "1" MessageRole.system
      ∷ message "2" MessageRole.user
      ∷ message "3" MessageRole.assistant
      ∷ message "4" MessageRole.user
      ∷ message "5" MessageRole.assistant
      ∷ [];
  created_at = 0;
  updated_at = 0;
  compression_count = 0;
}

undone-Undone_example : Undone 9 session (undone 9 session)
undone-Undone_example = undone-Undone 9 session

abbrev service : ConversationService
service = record { revision = 0; saved = [] }

undo_saves :
    let c = (undo new_supervisor (success session) (λ r. success r) 9 "main" service).1 in
    (c.revision ≡ 1) × (length c.saved ≡ 1)
unfolding undo get
undo_saves = (refl, refl)
