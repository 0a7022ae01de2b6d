-- ===== src/Engine/Turns/Loop.antt =====
-- The loop of `_execute`: provider rounds and the tool calls of their replies.
use py_tui_kairo.Common.{
  ℕ, zero, suc, ◌+◌, Bool, true, false, ◌&&◌, not, Option, none, some, List, [], ◌∷◌, ◌++◌, map,
  String, ltb, if◌then◌else◌,
}
use py_tui_kairo.Contracts.Enums.{ErrorCode, MessageKind, MessageRole, ProviderFailureKind}
use py_tui_kairo.Contracts.Content.{
  Blocks, ContentBlock, Message, block, no_block, text_block, tool_call_block, tool_result_block,
}
use py_tui_kairo.Contracts.Providers.{ProviderFailure, ToolCall}
use py_tui_kairo.Contracts.Tools.{ToolResult}
use py_tui_kairo.Engine.Turns.Machine.{
  M, Run, turn_cancelled, engine_failure, pure, raise, ◌>>=◌, ◌>>◌, reads, modify, uses,
  raise_if_cancelled, emit_message,
}
use py_tui_kairo.Engine.Turns.Stream.{StreamResult, provider_round, is_empty}
use py_tui_kairo.Engine.Turns.Compaction.{message_of, provider_error, fail, compact}
use py_tui_kairo.Engine.Turns.Tools.{execute_tool}

abbrev pub set_history : List Message → Run → Run
set_history ms r = record r { history = ms }

-- `history.append(message)` and `run.output_messages.append(message)`
abbrev pub push : Message → Run → Run
push m r = record r { history = r.history ++ m ∷ []; output_messages = r.output_messages ++ m ∷ [] }

-- `_partial_message`
abbrev pub partial_message : StreamResult → Message
partial_message r =
    message_of r.message_id MessageRole.assistant MessageKind.chat
      (r.blocks ++ text_block (if is_empty r.blocks then "[stopped]" else "\n\n[stopped]") ∷ [])

-- `_stopped_message`
abbrev pub stopped_message : String → Message
stopped_message message_id =
    message_of message_id MessageRole.assistant MessageKind.chat (text_block "[stopped]" ∷ [])

-- The partial message is kept where the options say so, and the turn ends as cancelled.
unfoldable pub stop_with : Message → String → M Bool
unfolding reads modify emit_message pure raise
stop_with partial message = do
  saves ← reads (λ r. r.snapshot.options.stop_saves_partial)
  (if saves
      then (modify (push partial) >>= λ _.
          emit_message partial.message_id "completed" partial.content)
      else pure tt)
  raise (turn_cancelled message)

abbrev pub blocks_of : List ContentBlock → Blocks
blocks_of [] = no_block
blocks_of (b ∷ bs) = block b (blocks_of bs)

abbrev pub tool_message : String → ToolResult → Message
tool_message message_id result = record {
  message_id = message_id;
  role = MessageRole.tool;
  kind = MessageKind.chat;
  content =
      tool_result_block result.tool_call_id result.name result.status (blocks_of result.content)
      ∷ [];
  name = result.name;
}

-- The tool calls of one round, first to last; the result of each is pushed.
unfoldable pub run_calls : List ToolCall → M Bool
unfolding execute_tool uses modify reads stop_with pure ◌>>=◌
run_calls [] = pure true
run_calls (c ∷ cs) = do
  result ← execute_tool c
  message_id ← uses (λ ports n. ports.fresh n)
  modify (push (tool_message message_id result))
  stopped ← reads (λ r. r.token.cancelled)
  partial_id ← uses (λ ports n. ports.fresh n)
  (if stopped
      then stop_with (stopped_message partial_id) "Task stopped after tool completion."
      else run_calls cs)

-- How a round of the loop ends: by `break`, or with the variables of the next one.
pub data Round : Type 0 where
  breaks : Round
  again : Bool → ℕ → Round

abbrev pub is_context : ProviderFailureKind → Bool
is_context ProviderFailureKind.context = true
is_context _ = false

abbrev pub call_block : ToolCall → ContentBlock
call_block c = tool_call_block c.tool_call_id c.name c.arguments

abbrev pub assistant_message : StreamResult → Message
assistant_message r =
    message_of r.message_id MessageRole.assistant MessageKind.chat
      (r.blocks ++ map call_block r.tool_calls)

-- What follows the message of a reply.
unfoldable pub after_reply : Bool → ℕ → StreamResult → M Round
unfolding reads fail run_calls pure
after_reply emergency_retry_used tool_rounds r = do
  limit ← reads (λ r. r.snapshot.options.max_tool_rounds)
  (if is_empty r.tool_calls
      then pure breaks
      else if ltb limit (tool_rounds + 1)
      then fail ErrorCode.resource_exhausted "Maximum tool rounds exceeded." "turn.tools"
      else (run_calls r.tool_calls >>= λ _. pure (again emergency_retry_used (tool_rounds + 1))))

-- A round whose stream ended well.
unfoldable pub after_stream : Bool → ℕ → StreamResult → M Round
unfolding modify emit_message after_reply
after_stream emergency_retry_used tool_rounds r = do
  modify (push (assistant_message r))
  emit_message r.message_id "completed" (assistant_message r).content
  after_reply emergency_retry_used tool_rounds r

-- A round whose stream failed.
unfoldable pub after_failure : Bool → ℕ → ProviderFailure → M Round
unfolding reads compact modify pure raise
after_failure emergency_retry_used tool_rounds f = do
  turn_id ← reads (λ r. r.snapshot.turn_id)
  history ← reads (λ r. r.history)
  (if is_context f.kind && not emergency_retry_used
      then (do
        compacted ← compact true history
        modify (set_history compacted)
        pure (again true tool_rounds))
      else raise (engine_failure (provider_error f turn_id)))

unfoldable pub after_end : Bool → ℕ → StreamResult → Option ProviderFailure → M Round
unfolding after_stream after_failure
after_end emergency_retry_used tool_rounds r none = after_stream emergency_retry_used tool_rounds r
after_end emergency_retry_used tool_rounds r (some f) =
    after_failure emergency_retry_used tool_rounds f

unfoldable pub after_round : Bool → ℕ → StreamResult → M Round
unfolding stop_with after_end pure
after_round emergency_retry_used tool_rounds r =
    if r.stopped
    then (stop_with (partial_message r) "Generation stopped." >>= λ _. pure breaks)
    else after_end emergency_retry_used tool_rounds r r.failed

unfoldable pub round : Bool → ℕ → M Round
unfolding raise_if_cancelled reads compact modify provider_round after_round
round emergency_retry_used tool_rounds = do
  raise_if_cancelled
  history ← reads (λ r. r.history)
  compacted ← compact false history
  modify (set_history compacted)
  stream ← provider_round compacted "chat" true "delta"
  after_round emergency_retry_used tool_rounds stream

abbrev pub next_round : (Bool → ℕ → M Bool) → Round → M Bool
next_round k breaks = pure true
next_round k (again used rounds) = k used rounds

-- The `while True`, with fuel: false if it ran out.
unfoldable pub turn_loop : ℕ → Bool → ℕ → M Bool
unfolding round pure ◌>>=◌
turn_loop zero used rounds = pure false
turn_loop (suc fuel) used rounds =
    round used rounds >>= next_round (λ used' rounds'. turn_loop fuel used' rounds')
