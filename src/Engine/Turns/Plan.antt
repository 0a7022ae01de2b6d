-- ===== src/Engine/Turns/Plan.antt =====
-- `_plan`: a plan is made by the provider, and the user approves it, edits it or stops the turn.
use py_tui_kairo.Common.{true, List, [], ◌∷◌, ◌++◌, String, str_eq, if◌then◌else◌}
use Prim.Native.String.{◌++◌ as append_text}
use py_tui_kairo.Contracts.Enums.{
  ErrorCode, InteractionAction, InteractionKind, MessageKind, MessageRole, TurnPhase,
}
use py_tui_kairo.Contracts.Content.{Message, text_block}
use py_tui_kairo.Contracts.Interactions.{InteractionChoice}
use py_tui_kairo.Engine.Turns.Machine.{
  M, Run, turn_cancelled, pure, raise, ◌>>=◌, ◌>>◌, modify, uses, transition, emit_message,
}
use py_tui_kairo.Engine.Turns.Stream.{StreamResult, provider_round, is_empty}
use py_tui_kairo.Engine.Turns.Compaction.{message_of, check_round, fail}
use py_tui_kairo.Engine.Turns.Approval.{choice, request_interaction}

abbrev pub push_output : Message → Run → Run
push_output m r = record r { output_messages = r.output_messages ++ m ∷ [] }

abbrev plan_choices : List InteractionChoice
plan_choices =
    choice InteractionAction.approve_once "Approve and run"
    ∷ choice InteractionAction.submit_text "Edit plan instructions"
    ∷ choice InteractionAction.stop "Cancel task"
    ∷ []

unfoldable pub plan_answer : String → String → InteractionAction → M String
unfolding pure raise
plan_answer user_text text InteractionAction.approve_once = pure user_text
plan_answer user_text text InteractionAction.submit_text =
    if str_eq text ""
    then raise (turn_cancelled "Plan was cancelled.")
    else pure (append_text user_text (append_text "\n\n[User Plan Modification]: " text))
plan_answer user_text text _ = raise (turn_cancelled "Plan was cancelled.")

-- The user's answer to the plan that the provider made.
unfoldable pub submit_plan : String → StreamResult → M String
unfolding modify emit_message request_interaction uses plan_answer
submit_plan user_text r = do
  modify (push_output (message_of r.message_id MessageRole.assistant MessageKind.plan r.blocks))
  emit_message r.message_id "completed" r.blocks
  response ←
      request_interaction InteractionKind.plan_approval "Approve plan?" plan_choices
        InteractionAction.stop
  text ← uses (λ ports n. ports.strip response.text)
  plan_answer user_text text response.action

unfoldable pub plan : String → M String
unfolding transition uses provider_round check_round fail submit_plan
plan user_text = do
  transition TurnPhase.planning
  system_id ← uses (λ ports n. ports.fresh n)
  user_id ← uses (λ ports n. ports.fresh n)
  let system =
      message_of system_id MessageRole.system MessageKind.plan (
        text_block "Create a detailed implementation plan. Do not execute tools or write code."
        ∷ [])
  let user = message_of user_id MessageRole.user MessageKind.plan (text_block user_text ∷ [])
  made ← provider_round (system ∷ user ∷ []) "plan" true "plan_delta"
  check_round "Plan generation stopped." made
  (if is_empty made.tool_calls
      then submit_plan user_text made
      else fail ErrorCode.provider_client "Plan provider returned a tool call." "turn.plan")
