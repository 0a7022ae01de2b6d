-- ===== src/Services/Conversations.antt =====
-- kairo_kernel/services/conversations.py: changes of a session's history between its turns. What the repository answers
-- is an argument; the mutation lock makes each change one step but for what the repository awaits.
pub mod Undo
mod Examples
use py_tui_kairo.Common.{
  ℕ, zero, suc, ◌+◌, Bool, true, false, Option, none, some, List, [], ◌∷◌, ◌++◌, String, str_eq,
  take, if◌then◌else◌,
}
use py_tui_kairo.Common.Dict.{get}
use py_tui_kairo.Contracts.Enums.{ErrorCode, MessageRole}
use py_tui_kairo.Contracts.Content.{Message}
use py_tui_kairo.Contracts.Errors.{KernelError, KernelResult, success, failure, kernel_error}
use py_tui_kairo.Contracts.Json.{JsonValue, from_pair}
use py_tui_kairo.Contracts.Providers.{SessionRecord}
use py_tui_kairo.Engine.Context.{is_user, new_packer, source_and_retained, insert_summary}
use py_tui_kairo.Runtime.Turns.{SessionTurnSupervisor}

-- `_revision`, and what went to the repository.
pub record ConversationService : Type 0 where
  pub revision : ℕ
  pub saved : List SessionRecord

abbrev pub refuse : ErrorCode → String → String → KernelResult SessionRecord
refuse code message operation =
    failure (record (kernel_error code message) { operation = operation })

abbrev is_system : Message → Bool
is_system m = elim m.role [ MessageRole.system ↦ true | _ ↦ false ]

unfoldable pub system_prefix : List Message → List Message
system_prefix [] = []
system_prefix (m ∷ ms) = let rest = system_prefix ms in if is_system m then m ∷ rest else []

-- The `transform` of `clear`, at that time.
unfoldable pub cleared : ℕ → SessionRecord → KernelResult SessionRecord
unfolding system_prefix
cleared now r =
    success
      (record r { messages = system_prefix r.messages; updated_at = now; compression_count = 0 })

-- The index of the last user message.
abbrev pub last_from : Bool → Option ℕ → Option ℕ
last_from here (some i) = some (suc i)
last_from here none = if here then some 0 else none

unfoldable pub last_user : List Message → Option ℕ
last_user [] = none
last_user (m ∷ ms) = last_from (is_user m) (last_user ms)

abbrev pub without_turn : ℕ → SessionRecord → Option ℕ → KernelResult SessionRecord
without_turn now r none =
    refuse ErrorCode.conflict "Conversation has no user turn to undo." "conversation.undo"
without_turn now r (some i) = success (record r { messages = take i r.messages; updated_at = now })

-- The `transform` of `undo`.
unfoldable pub undone : ℕ → SessionRecord → KernelResult SessionRecord
unfolding last_user
undone now r = without_turn now r (last_user r.messages)

abbrev compressed_parts :
    ℕ
    → SessionRecord
    → (List Message → List Message)
    → List Message × List Message
    → KernelResult SessionRecord
compressed_parts now r insert ([], retained) =
    refuse ErrorCode.conflict "Conversation has no old turns to compress." "conversation.compress"
compressed_parts now r insert (m ∷ source, retained) = success (record r {
  messages = insert retained;
  updated_at = now;
  compression_count = r.compression_count + 1;
})

-- The `transform` of `compress`, for a summary that is not blank.
unfoldable pub compressed :
    (String → String) → String → ℕ → String → ℕ → SessionRecord → KernelResult SessionRecord
unfolding source_and_retained insert_summary new_packer
compressed strip summary preserve_recent_turns message_id now r =
    compressed_parts now r (λ retained. insert_summary strip retained summary message_id)
      (source_and_retained (new_packer 85 60 preserve_recent_turns) false r.messages)

-- The end of `_mutate`, for the repository's answer to the save.
abbrev save_changed :
    (SessionRecord → KernelResult SessionRecord)
    → KernelResult SessionRecord
    → ConversationService
    → KernelResult SessionRecord × ConversationService
save_changed save (failure error) c = (failure error, c)
save_changed save (success r) c = (
  save r,
  record c {
    revision = elim (save r) [ success x ↦ c.revision + 1 | failure e ↦ c.revision ];
    saved = c.saved ++ r ∷ [];
  },
)

abbrev change_loaded :
    (SessionRecord → KernelResult SessionRecord)
    → (SessionRecord → KernelResult SessionRecord)
    → KernelResult SessionRecord
    → ConversationService
    → KernelResult SessionRecord × ConversationService
change_loaded transform save (failure error) c = (failure error, c)
change_loaded transform save (success r) c = save_changed save (transform r) c

abbrev session_busy : String → String → KernelError
session_busy active operation =
    record (kernel_error ErrorCode.kernel_busy "SESSION_BUSY: Session has an active turn.") {
      retryable = true;
      operation = operation;
      details = from_pair "active_turn_id" (JsonValue.text active);
    }

-- `_mutate`
unfoldable pub mutate :
    SessionTurnSupervisor
    → KernelResult SessionRecord
    → (SessionRecord → KernelResult SessionRecord)
    → String
    → String
    → (SessionRecord → KernelResult SessionRecord)
    → ConversationService
    → KernelResult SessionRecord × ConversationService
mutate v loaded save session_id operation transform c = elim (get session_id v.active) [
  | some active ↦ (failure (session_busy active operation), c)
  | none ↦ change_loaded transform save loaded c
]

unfoldable pub undo :
    SessionTurnSupervisor
    → KernelResult SessionRecord
    → (SessionRecord → KernelResult SessionRecord)
    → ℕ
    → String
    → ConversationService
    → KernelResult SessionRecord × ConversationService
unfolding mutate undone
undo v loaded save now session_id c =
    mutate v loaded save session_id "conversation.undo" (undone now) c

unfoldable pub clear :
    SessionTurnSupervisor
    → KernelResult SessionRecord
    → (SessionRecord → KernelResult SessionRecord)
    → ℕ
    → String
    → ConversationService
    → KernelResult SessionRecord × ConversationService
unfolding mutate cleared
clear v loaded save now session_id c =
    mutate v loaded save session_id "conversation.clear" (cleared now) c

unfoldable pub compress :
    (String → String)
    → String
    → ℕ
    → String
    → SessionTurnSupervisor
    → KernelResult SessionRecord
    → (SessionRecord → KernelResult SessionRecord)
    → ℕ
    → String
    → ConversationService
    → KernelResult SessionRecord × ConversationService
unfolding mutate compressed
compress strip summary preserve_recent_turns message_id v loaded save now session_id c =
    if str_eq (strip summary) ""
    then (
      refuse ErrorCode.invalid_argument "Compression summary is required." "conversation.compress",
      c,
    )
    else mutate v loaded save session_id "conversation.compress"
        (compressed strip (strip summary) preserve_recent_turns message_id now) c
