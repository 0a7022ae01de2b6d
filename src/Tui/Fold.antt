-- ===== src/Tui/Fold.antt =====
-- frontends/tui/kairo_tui/reducer.py: `fold_event`. `lower` is Python's `str.lower`, an argument.
-- `none` is the AttributeError of a payload without the fields that its event type calls for.
pub mod Replay
pub mod Sequence
pub mod Terminal
pub mod Interactions
pub mod Messages
mod Examples
use text.Mathlib.Text.{find?}
use py_tui_kairo.Common.{
  ℕ, ◌+◌, Bool, true, false, not, ◌&&◌, ◌||◌, Option, none, some, List, [], ◌∷◌, ◌++◌, String,
  str_eq, ltb, leb, keep, find, if◌then◌else◌,
}
use py_tui_kairo.Contracts.Enums.{EventType, TurnStatus, TurnPhase, phase_value, execution_value}
use py_tui_kairo.Contracts.Content.{ContentBlock}
use py_tui_kairo.Contracts.Events.{
  EventPayload, KernelEvent, turn_event, message_event, tool_event, interaction_event, usage_event,
  change_event, notice_event, lifecycle_event,
}
use py_tui_kairo.Contracts.Interactions.{InteractionRequest}
use py_tui_kairo.Contracts.Tools.{ToolInvocation, ToolOutputChunk, ToolResult}
use py_tui_kairo.Tui.State.{AppState, TurnView, WorkspaceView, ToolCardView, PlanCardView}
use py_tui_kairo.Tui.Reducer.{
  UiAction, turn_updated, interactions_updated, notice_set, transcript_merged, tool_card_updated,
  plan_card_updated, usage_recorded, replace_turn, replace_tool, replace_plan, merge_transcript,
}

abbrev pub Folded : Type 0
Folded = Option (AppState × List UiAction)

-- `status in TERMINAL_TURN_STATUSES`
abbrev pub is_terminal : TurnStatus → Bool
is_terminal TurnStatus.succeeded = true
is_terminal TurnStatus.cancelled = true
is_terminal TurnStatus.failed = true
is_terminal _ = false

-- `item_id == optional_id`
abbrev pub is_id : String → Option String → Bool
is_id t none = false
is_id t (some u) = str_eq t u

-- `optional or ""`
abbrev id_or_empty : Option String → String
id_or_empty none = ""
id_or_empty (some t) = t

-- `next((item for item in turns if item.turn_id == turn_id), None)`
abbrev pub turn_of : Option String → AppState → Option TurnView
turn_of turn_id s = find (λ (t : TurnView). is_id t.turn_id turn_id) s.turns

abbrev pub ended : Option TurnView → Bool
ended none = false
ended (some t) = t.terminal

unfoldable pub fold_turn :
    KernelEvent → TurnStatus → Option TurnPhase → AppState → AppState × List UiAction
fold_turn e status phase s =
    if ended (turn_of e.turn_id s)
    then (s, [])
    else let updated : TurnView = record {
      turn_id = id_or_empty e.turn_id;
      session_id = id_or_empty e.session_id;
      status = status;
      phase = phase;
      terminal = is_terminal status;
    } in
      (replace_turn s updated, turn_updated updated ∷ [])

set_interactions : AppState → List InteractionRequest → AppState × List UiAction
set_interactions s requests =
    (record s { pending_interactions = requests }, interactions_updated requests ∷ [])

abbrev closes : String → Bool
closes action = str_eq action "resolved" || str_eq action "expired"

unfoldable pub fold_interaction :
    String → Option InteractionRequest → Option String → AppState → AppState × List UiAction
unfolding set_interactions
fold_interaction action none interaction_id s = set_interactions s (
    if closes action
    then keep (λ (r : InteractionRequest). not (is_id r.interaction_id interaction_id))
        s.pending_interactions
    else s.pending_interactions)
fold_interaction action (some request) interaction_id s = set_interactions s (
    if str_eq action "requested"
    then s.pending_interactions ++ request ∷ []
    else if closes action
    then keep (λ (r : InteractionRequest). not (is_id r.interaction_id interaction_id))
        s.pending_interactions
    else s.pending_interactions)

-- `needle in text`
abbrev has_text : String → String → Bool
has_text needle text = elim (find? text needle) [ none ↦ false | some _ ↦ true ]

unfoldable pub contains_secret_marker : (String → String) → String → Bool
contains_secret_marker lower text =
    has_text "sk-" (lower text) || has_text "api_key" (lower text) || has_text "secret" (lower text)

abbrev pub redact : (String → String) → String → String
redact lower message = if contains_secret_marker lower message then "[redacted]" else message

unfoldable pub fold_notice : (String → String) → String → AppState → AppState × List UiAction
fold_notice lower message s =
    (record s { notice = redact lower message }, notice_set (redact lower message) ∷ [])

abbrev phase_is : String → Option TurnPhase → Bool
phase_is phase none = false
phase_is phase (some p) = str_eq (phase_value p) phase

abbrev turn_phase_is : String → Option TurnView → Bool
turn_phase_is phase none = false
turn_phase_is phase (some t) = phase_is phase t.phase

-- `_turn_in_phase`: without a turn id no turn is found.
unfoldable pub turn_in_phase : AppState → Option String → String → Bool
turn_in_phase s turn_id phase = turn_phase_is phase (turn_of turn_id s)

abbrev plan_blocks : Option PlanCardView → List ContentBlock → List ContentBlock
plan_blocks none content = content
plan_blocks (some card) content = card.blocks ++ content

unfoldable pub fold_plan :
    KernelEvent → String → List ContentBlock → AppState → AppState × List UiAction
fold_plan e message_id content s =
    let card : PlanCardView = record {
      session_id = id_or_empty e.session_id;
      turn_id = id_or_empty e.turn_id;
      message_id = message_id;
      title = "Plan";
      blocks =
          plan_blocks (find (λ (c : PlanCardView). str_eq c.message_id message_id) s.plan_cards)
            content;
      instructions = "";
    } in
    (replace_plan s card, plan_card_updated card ∷ [])

unfoldable pub fold_message :
    KernelEvent → String → String → List ContentBlock → AppState → AppState × List UiAction
unfolding fold_plan turn_in_phase
fold_message e message_id action content s =
    if str_eq action "plan_delta"
      || str_eq action "completed" && turn_in_phase s e.turn_id "planning"
    then fold_plan e message_id content s
    else (
      merge_transcript s (id_or_empty e.session_id) message_id "assistant" content,
      transcript_merged (id_or_empty e.session_id) message_id "assistant" content ∷ [],
    )

-- `ToolCardView(tool_call_id, name, status)`, the other fields at their defaults.
abbrev tool_card : String → String → String → ToolCardView
tool_card tool_call_id name status = record {
  tool_call_id = tool_call_id;
  name = name;
  status = status;
  arguments = none;
  output = [];
  result_status = "";
  error = "";
}

abbrev card_or : Option ToolCardView → ToolCardView → ToolCardView
card_or none card = card
card_or (some base) card = base

abbrev with_chunk : Option ToolOutputChunk → ToolCardView → ToolCardView
with_chunk none base = record base { status = "running" }
with_chunk (some chunk) base = record base {
  status = "running";
  output = base.output ++ chunk.content;
}

abbrev with_result : Option ToolResult → ToolCardView → ToolCardView
with_result none base = record base { status = "completed"; result_status = ""; error = "" }
with_result (some r) base = record base {
  status = "completed";
  result_status = execution_value r.status;
  error = r.error_message;
}

unfoldable pub tool_view :
    String
    → ToolInvocation
    → Option ToolOutputChunk
    → Option ToolResult
    → Option ToolCardView
    → ToolCardView
tool_view action i chunk r old =
    if str_eq action "requested"
    then record (tool_card i.tool_call_id i.name "requested") { arguments = some i.arguments }
    else if str_eq action "started"
    then record (card_or old (tool_card i.tool_call_id i.name "started")) { status = "started" }
    else if str_eq action "output"
    then with_chunk chunk (card_or old (tool_card i.tool_call_id i.name "running"))
    else with_result r (card_or old (tool_card i.tool_call_id i.name "completed"))

-- `next((card for card in tool_cards if card.tool_call_id == tool_call_id), None)`
abbrev pub card_of : String → AppState → Option ToolCardView
card_of tool_call_id s =
    find (λ (c : ToolCardView). str_eq c.tool_call_id tool_call_id) s.tool_cards

unfoldable pub fold_tool :
    String
    → Option ToolInvocation
    → Option ToolOutputChunk
    → Option ToolResult
    → AppState
    → AppState × List UiAction
unfolding tool_view
fold_tool action none chunk r s = (s, [])
fold_tool action (some i) chunk r s =
    let view = tool_view action i chunk r (card_of i.tool_call_id s) in
    (replace_tool s view, tool_card_updated view ∷ [])

unfoldable pub fold_usage : Option String → EventPayload → AppState → AppState × List UiAction
fold_usage none stats s = (s, [])
fold_usage (some turn_id) stats s =
    (record s { usage = s.usage ++ (turn_id, stats) ∷ [] }, usage_recorded turn_id stats ∷ [])

-- An INTERACTION event whose payload has an action and nothing else that is read.
other_interaction : String → AppState → Folded
unfolding set_interactions
other_interaction action s =
    if str_eq action "requested" || closes action
    then none
    else some (set_interactions s s.pending_interactions)

-- The branches by event type, at the state whose sequence has advanced.
unfoldable pub fold_payload :
    (String → String) → EventType → EventPayload → KernelEvent → AppState → Folded
unfolding fold_turn fold_interaction fold_notice fold_message fold_tool fold_usage other_interaction
fold_payload lower EventType.turn (turn_event status phase reason) e s =
    some (fold_turn e status phase s)
fold_payload lower EventType.turn _ e s = if ended (turn_of e.turn_id s) then some (s, []) else none
fold_payload lower EventType.interaction (interaction_event action request response id) e s =
    some (fold_interaction action request id s)
fold_payload lower EventType.interaction (message_event message_id action content) e s =
    other_interaction action s
fold_payload lower EventType.interaction (tool_event action i chunk r) e s =
    other_interaction action s
fold_payload lower EventType.interaction _ e s = none
fold_payload lower EventType.notice (notice_event level message details) e s =
    some (fold_notice lower message s)
fold_payload lower EventType.notice _ e s = none
fold_payload lower EventType.workspace_changed (change_event revision subject summary) e s =
    some (s, [])
fold_payload lower EventType.workspace_changed _ e s = none
fold_payload lower EventType.message (message_event message_id action content) e s =
    some (fold_message e message_id action content s)
fold_payload lower EventType.message _ e s = none
fold_payload lower EventType.tool (tool_event action i chunk r) e s =
    some (fold_tool action i chunk r s)
fold_payload lower EventType.tool _ e s = none
fold_payload lower EventType.usage payload e s = some (fold_usage e.turn_id payload s)
fold_payload lower _ payload e s = some (s, [])

unfoldable pub fold_event : (String → String) → AppState → KernelEvent → Folded
unfolding fold_payload
fold_event lower s e =
    if leb e.sequence s.last_sequence
    then some (s, [])
    else if ltb (s.last_sequence + 1) e.sequence
    then some (record s { last_sequence = e.sequence }, [])
    else fold_payload lower e.event_type e.payload e (record s { last_sequence = e.sequence })
