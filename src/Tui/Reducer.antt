-- ===== src/Tui/Reducer.antt =====
-- frontends/tui/kairo_tui/reducer.py: the actions and `reduce`.
use py_tui_kairo.Common.{
  ℕ, Bool, false, not, Option, none, some, List, [], ◌∷◌, ◌++◌, String, str_eq, ltb, keep, find,
  any_of, if◌then◌else◌,
}
use py_tui_kairo.Contracts.Content.{ContentBlock}
use py_tui_kairo.Contracts.Events.{EventPayload}
use py_tui_kairo.Contracts.Interactions.{InteractionRequest}
use py_tui_kairo.Contracts.Lifecycle.{KernelStatus}
use py_tui_kairo.Tui.State.{
  AppState, OverlayKind, SessionView, TurnView, TranscriptEntry, SessionTranscript, WorkspaceView,
  ToolCardView, PlanCardView,
}

pub data UiAction : Type 0 where
  draft_changed submit_draft : String → UiAction
  draft_accepted : Option String → UiAction
  draft_rejected : String → UiAction
  kernel_status_changed : KernelStatus → UiAction
  open_connect_dialog : String → UiAction
  close_overlay connect_saved : Bool → UiAction
  draft_ready : String → UiAction
  -- text, notice
  submit_failed : String → String → UiAction
  sessions_loaded : List SessionView → UiAction
  session_activated : String → UiAction
  transcript_replaced : String → List TranscriptEntry → UiAction
  turn_updated : TurnView → UiAction
  interactions_updated : List InteractionRequest → UiAction
  sequence_advanced : ℕ → UiAction
  workspace_updated : WorkspaceView → UiAction
  profile_updated notice_set : String → UiAction
  -- turn_id, session_id
  turn_started : String → String → UiAction
  -- session_id, message_id, role, content
  transcript_merged : String → String → String → List ContentBlock → UiAction
  tool_card_updated : ToolCardView → UiAction
  plan_card_updated : PlanCardView → UiAction
  usage_recorded : String → EventPayload → UiAction
  stop_requested stop_finished retry_requested : String → UiAction

unfoldable pub replace_transcript : AppState → String → List TranscriptEntry → AppState
replace_transcript s session_id entries = record s {
  transcripts =
      keep (λ (t : SessionTranscript). not (str_eq t.session_id session_id)) s.transcripts
      ++ record { session_id = session_id; entries = entries } ∷ [];
}

unfoldable pub replace_turn : AppState → TurnView → AppState
replace_turn s turn = record s {
  turns = keep (λ (t : TurnView). not (str_eq t.turn_id turn.turn_id)) s.turns ++ turn ∷ [];
}

unfoldable pub replace_tool : AppState → ToolCardView → AppState
replace_tool s card = record s {
  tool_cards =
      keep (λ (c : ToolCardView). not (str_eq c.tool_call_id card.tool_call_id)) s.tool_cards
      ++ card ∷ [];
}

unfoldable pub replace_plan : AppState → PlanCardView → AppState
replace_plan s card = record s {
  plan_cards =
      keep (λ (c : PlanCardView). not (str_eq c.message_id card.message_id)) s.plan_cards
      ++ card ∷ [];
}

-- The first entry of the message is replaced, or a new one stands at the end.
unfoldable pub merge_entry :
    String → String → List ContentBlock → List TranscriptEntry → List TranscriptEntry
merge_entry message_id role content [] =
    record {
      message_id = message_id;
      role = role;
      kind = "assistant";
      content = content;
      name = "";
    }
    ∷ []
merge_entry message_id role content (x ∷ xs) =
    if str_eq x.message_id message_id
    then record {
      message_id = message_id;
      role = x.role;
      kind = "assistant";
      content = x.content ++ content;
      name = "";
    }
      ∷ xs
    else x ∷ merge_entry message_id role content xs

abbrev pub entries_of : Option SessionTranscript → List TranscriptEntry
entries_of none = []
entries_of (some t) = t.entries

-- The entries of a session, none if it has no transcript.
abbrev pub transcript_of : String → AppState → List TranscriptEntry
transcript_of session_id s =
    entries_of (find (λ (t : SessionTranscript). str_eq t.session_id session_id) s.transcripts)

unfoldable pub merge_transcript : AppState → String → String → String → List ContentBlock → AppState
unfolding replace_transcript merge_entry
merge_transcript s session_id message_id role content =
    replace_transcript s session_id
      (merge_entry message_id role content (transcript_of session_id s))

-- `text or other`
abbrev or_text : String → String → String
or_text t other = if str_eq t "" then other else t

-- `state.pending_draft or state.draft`
abbrev pending_or : Option String → String → String
pending_or none draft = draft
pending_or (some t) draft = or_text t draft

abbrev stale : Option WorkspaceView → WorkspaceView → Bool
stale none w = false
stale (some current) w = ltb w.revision current.revision

abbrev pub usage_known : String → List (String × EventPayload) → Bool
usage_known t u = any_of (λ (p : String × EventPayload). str_eq p.0 t) u

unfoldable pub reduce : AppState → UiAction → AppState
unfolding replace_transcript replace_turn replace_tool replace_plan merge_transcript
reduce s (draft_changed text) = record s { draft = text }
reduce s (submit_draft text) = s
reduce s (draft_accepted session_id) = record s { draft = "" }
reduce s (draft_rejected notice) = record s { notice = or_text notice s.notice }
reduce s (kernel_status_changed status) = record s { kernel_status = some status }
reduce s (open_connect_dialog pending) = record s {
  pending_draft = some pending;
  overlay = some OverlayKind.connect;
}
reduce s (close_overlay restore) = record s {
  draft = (if restore then pending_or s.pending_draft s.draft else s.draft);
  pending_draft = none;
  overlay = none;
}
reduce s (connect_saved send_after) = record s {
  pending_draft = (if send_after then s.pending_draft else none);
  overlay = none;
}
reduce s (draft_ready text) = record s { pending_draft = none }
reduce s (submit_failed text notice) = record s { notice = or_text notice s.notice }
reduce s (sessions_loaded sessions) = record s { sessions = sessions }
reduce s (session_activated session_id) = record s { active_session_id = some session_id }
reduce s (transcript_replaced session_id entries) = replace_transcript s session_id entries
reduce s (turn_updated turn) = replace_turn s turn
reduce s (interactions_updated requests) = record s { pending_interactions = requests }
reduce s (sequence_advanced sequence) = record s { last_sequence = sequence }
reduce s (workspace_updated w) = if stale s.workspace w then s else record s { workspace = some w }
reduce s (profile_updated label) = record s { profile_label = label }
reduce s (notice_set text) = record s { notice = text }
reduce s (turn_started turn_id session_id) = record s {
  draft = "";
  active_turn_id = some turn_id;
  pending_draft = none;
}
reduce s (transcript_merged session_id message_id role content) =
    merge_transcript s session_id message_id role content
reduce s (tool_card_updated card) = replace_tool s card
reduce s (plan_card_updated card) = replace_plan s card
reduce s (usage_recorded turn_id stats) =
    if usage_known turn_id s.usage then s else record s { usage = s.usage ++ (turn_id, stats) ∷ [] }
reduce s (stop_requested turn_id) = record s { stopping_turn_id = some turn_id }
reduce s (stop_finished turn_id) = record s { stopping_turn_id = none }
reduce s (retry_requested text) = s

-- The actions of a list, first to last.
unfoldable pub reduce_all : AppState → List UiAction → AppState
reduce_all s [] = s
reduce_all s (a ∷ as') = reduce_all (reduce s a) as'
