-- ===== src/Tui/State.antt =====
-- frontends/tui/kairo_tui/state.py: the immutable view state. A tuple is a list.
use py_tui_kairo.Common.{ℕ, Bool, false, Option, none, List, [], String}
use py_tui_kairo.Contracts.Enums.{TurnStatus, TurnPhase}
use py_tui_kairo.Contracts.Json.{JsonObject}
use py_tui_kairo.Contracts.Content.{ContentBlock}
use py_tui_kairo.Contracts.Events.{EventPayload}
use py_tui_kairo.Contracts.Interactions.{InteractionRequest}
use py_tui_kairo.Contracts.Lifecycle.{KernelStatus}

pub data OverlayKind : Type 0 where
  connect commands sessions models approval plan confirm : OverlayKind

pub record SessionView : Type 0 where
  pub session_id : String
  pub name : String
  pub message_count : ℕ
  pub updated_at : Option ℕ
  pub running : Bool

pub record TurnView : Type 0 where
  pub turn_id : String
  pub session_id : String
  pub status : TurnStatus
  pub phase : Option TurnPhase
  pub terminal : Bool

pub record TranscriptEntry : Type 0 where
  pub message_id : String
  pub role : String
  pub kind : String
  pub content : List ContentBlock
  pub name : String

pub record SessionTranscript : Type 0 where
  pub session_id : String
  pub entries : List TranscriptEntry

pub record WorkspaceView : Type 0 where
  pub root : String
  pub revision : ℕ

pub record ToolCardView : Type 0 where
  pub tool_call_id : String
  pub name : String
  pub status : String
  pub arguments : Option JsonObject
  pub output : List ContentBlock
  pub result_status : String
  pub error : String

pub record PlanCardView : Type 0 where
  pub session_id : String
  pub turn_id : String
  pub message_id : String
  pub title : String
  pub blocks : List ContentBlock
  pub instructions : String

-- `usage` holds an object beside each turn id: what `fold_event` puts there is the payload.
pub record AppState : Type 0 where
  pub kernel_status : Option KernelStatus
  pub active_session_id : Option String
  pub workspace_label : String
  pub model_label : String
  pub draft : String
  pub pending_draft : Option String
  pub active_turn_id : Option String
  pub overlay : Option OverlayKind
  pub sidebar_visible : Bool
  pub leader_active : Bool
  pub shutting_down : Bool
  pub sessions : List SessionView
  pub transcripts : List SessionTranscript
  pub turns : List TurnView
  pub pending_interactions : List InteractionRequest
  pub last_sequence : ℕ
  pub workspace : Option WorkspaceView
  pub profile_label : String
  pub notice : String
  pub tool_cards : List ToolCardView
  pub plan_cards : List PlanCardView
  pub usage : List (String × EventPayload)
  pub stopping_turn_id : Option String

-- `AppState()`
abbrev pub new_state : AppState
new_state = record {
  kernel_status = none;
  active_session_id = none;
  workspace_label = "";
  model_label = "Not connected";
  draft = "";
  pending_draft = none;
  active_turn_id = none;
  overlay = none;
  sidebar_visible = false;
  leader_active = false;
  shutting_down = false;
  sessions = [];
  transcripts = [];
  turns = [];
  pending_interactions = [];
  last_sequence = 0;
  workspace = none;
  profile_label = "";
  notice = "";
  tool_cards = [];
  plan_cards = [];
  usage = [];
  stopping_turn_id = none;
}
