-- ===== src/Engine/Turns/Approval.antt =====
-- `_request_interaction`, `_apply_authorization`, and the approval of a tool in `_execute_tool`.
use py_tui_kairo.Common.{
  ℕ, ◌+◌, Bool, false, ◌&&◌, Option, none, some, List, [], ◌∷◌, String, str_eq, if◌then◌else◌,
}
use Prim.Native.String.{◌++◌ as append_text}
use py_tui_kairo.Contracts.Enums.{
  AuthorizationMode, EventType, InteractionAction, InteractionKind, OperationScope,
  ToolExecutionStatus, TurnPhase, mode_value,
}
use py_tui_kairo.Contracts.Content.{text_block}
use py_tui_kairo.Contracts.Errors.{KernelResult, success, failure}
use py_tui_kairo.Contracts.Events.{change_event, interaction_event}
use py_tui_kairo.Contracts.Interactions.{
  InteractionChoice, InteractionRequest, InteractionResponse, offered,
}
use py_tui_kairo.Contracts.Providers.{ToolCall}
use py_tui_kairo.Contracts.Tools.{ToolInvocation, ToolResult}
use py_tui_kairo.Runtime.Cancellation.{cancel}
use py_tui_kairo.Engine.Turns.Machine.{
  M, Run, turn_cancelled, pure, raise, ◌>>=◌, ◌>>◌, reads, modify, uses, call, emit, transition,
  emit_tool,
}

abbrev pub choice : InteractionAction → String → InteractionChoice
choice action label = record { action = action; label = label; destructive = false }

-- The response to a request that the program goes on with: the safe default for one that does not match it, names an
-- action that was not offered, or has no text where it needs some.
abbrev pub default_response : InteractionRequest → InteractionResponse
default_response q = record {
  interaction_id = q.interaction_id;
  turn_id = q.turn_id;
  action = q.safe_default;
  text = "";
}

abbrev pub corresponds : InteractionRequest → InteractionResponse → Bool
corresponds q r =
    str_eq r.turn_id q.turn_id
    && str_eq r.interaction_id q.interaction_id
    && offered r.action q.choices

abbrev pub lacks_text : (String → String) → InteractionResponse → Bool
lacks_text strip r = elim r.action [
  | InteractionAction.submit_text ↦ str_eq (strip r.text) ""
  | _ ↦ false
]

abbrev pub with_text :
    (String → String) → InteractionRequest → InteractionResponse → InteractionResponse
with_text strip q r = if lacks_text strip r then default_response q else r

unfoldable pub sanitised :
    (String → String) → InteractionRequest → InteractionResponse → InteractionResponse
sanitised strip q r = with_text strip q (if corresponds q r then r else default_response q)

abbrev pub waiting_phase : InteractionKind → TurnPhase
waiting_phase InteractionKind.tool_approval = TurnPhase.waiting_approval
waiting_phase _ = TurnPhase.planning

unfoldable pub new_request :
    InteractionKind → String → List InteractionChoice → InteractionAction → M InteractionRequest
new_request kind prompt choices safe_default s =
    uses
      (λ ports n. record {
        interaction_id = ports.fresh n;
        turn_id = s.run.snapshot.turn_id;
        session_id = s.run.snapshot.session_id;
        kind = kind;
        prompt = prompt;
        choices = choices;
        expires_at = some (ports.now n + s.run.snapshot.options.interaction_timeout_seconds);
        safe_default = safe_default;
      })
      s

unfoldable pub request_interaction :
    InteractionKind → String → List InteractionChoice → InteractionAction → M InteractionResponse
unfolding new_request transition emit call uses pure
request_interaction kind prompt choices safe_default = do
  q ← new_request kind prompt choices safe_default
  transition (waiting_phase kind)
  emit EventType.interaction (interaction_event "requested" (some q) none none)
  answer ← call (λ ports n. ports.request n)
  strip ← uses (λ ports n. ports.strip)
  let response = sanitised strip q answer
  emit EventType.interaction (interaction_event "resolved" none (some response) none)
  pure response

-- A result that the engine makes up, under the status.
abbrev pub made_result : ToolExecutionStatus → String → ToolCall → ℕ → ℕ → ToolResult
made_result status message c started finished = record {
  tool_call_id = c.tool_call_id;
  name = c.name;
  status = status;
  content = text_block message ∷ [];
  started_at = started;
  finished_at = finished;
  error_message = message;
}

-- Such a result, completed at once.
unfoldable pub complete_with :
    ToolExecutionStatus → String → ToolCall → ℕ → ToolInvocation → M ToolResult
unfolding uses emit_tool pure
complete_with status message c started i = do
  finished ← uses (λ ports n. ports.now n)
  let result = made_result status message c started finished
  emit_tool "completed" i none (some result)
  pure result

-- `_apply_authorization`
unfoldable pub announce : AuthorizationMode → KernelResult ℕ → M (Unit {0})
unfolding emit pure
announce mode (success revision) = emit EventType.config_changed (
    change_event revision "preferences"
      (append_text "Authorization mode is now " (append_text (mode_value mode) ".")))
announce mode (failure e) = pure tt

unfoldable pub apply_authorization : AuthorizationMode → M (Unit {0})
unfolding uses call announce pure
apply_authorization mode = do
  present ← uses (λ ports n. ports.has_preferences)
  (if present then (call (λ ports n. ports.apply_authorization n) >>= announce mode) else pure tt)

-- The broader mode that the approval of a tool offers.
abbrev pub broader : AuthorizationMode → InteractionAction
broader AuthorizationMode.auto = InteractionAction.enable_yolo
broader _ = InteractionAction.enable_auto

abbrev pub approval_choices : AuthorizationMode → List InteractionChoice
approval_choices mode =
    choice InteractionAction.approve_once "Run once"
    ∷ choice InteractionAction.reject "Reject"
    ∷ choice InteractionAction.stop "Stop task"
    ∷ choice (broader mode) "Enable broader authorization"
    ∷ []

-- What the approval of a tool comes to: it runs under a mode, or it does not.
pub data Approval : Type 0 where
  approved : AuthorizationMode → Approval
  not_approved : Approval

abbrev pub set_override : AuthorizationMode → Run → Run
set_override mode r = record r { authorization_override = some mode }

abbrev pub cancel_token : String → Run → Run
cancel_token reason r = record r { token = (cancel reason r.token).0 }

unfoldable pub enable : AuthorizationMode → M Approval
unfolding modify apply_authorization pure
enable mode = do modify (set_override mode); apply_authorization mode; pure (approved mode)

-- What the response to the approval request does.
unfoldable pub decide : AuthorizationMode → InteractionAction → M Approval
unfolding modify raise enable pure
decide mode InteractionAction.stop = do
  modify (cancel_token "Tool approval stopped the task.")
  raise (turn_cancelled "Tool approval stopped the task.")
decide mode InteractionAction.approve_once = pure (approved mode)
decide mode InteractionAction.enable_auto = enable AuthorizationMode.auto
decide mode InteractionAction.enable_yolo = enable AuthorizationMode.yolo
decide mode _ = pure not_approved

abbrev pub override_or : Option AuthorizationMode → AuthorizationMode → AuthorizationMode
override_or none mode = mode
override_or (some override) mode = override

-- `run.authorization_override or run.snapshot.options.authorization_mode`
abbrev pub current_mode : Run → AuthorizationMode
current_mode r = override_or r.authorization_override r.snapshot.options.authorization_mode

unfoldable pub approve : String → OperationScope → M Approval
unfolding reads call request_interaction decide pure
approve name scope = do
  mode ← reads current_mode
  authorized ← call (λ ports n. ports.authorizes mode scope)
  (if authorized then pure (approved mode) else (do
    response ←
        request_interaction InteractionKind.tool_approval
          (append_text "Execute tool '" (append_text name "'?")) (approval_choices mode)
          InteractionAction.reject
    decide mode response.action))
