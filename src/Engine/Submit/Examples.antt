-- ===== src/Engine/Submit/Examples.antt =====
-- A submission whose profile is not found, and one that is cancelled.
use py_tui_kairo.Common.{◌≡◌, ◌≢◌, refl, none, some, List, [], ◌∷◌, All, arith, eq_iff, false}
use py_tui_kairo.Contracts.Enums.{AuthorizationMode, ErrorCode}
use py_tui_kairo.Contracts.Errors.{failure, success, kernel_error}
use py_tui_kairo.Contracts.Json.{JsonMembers}
use py_tui_kairo.Contracts.Providers.{SessionRecord}
use py_tui_kairo.Contracts.Turns.{TurnRequest}
use py_tui_kairo.Common.Dict.{get}
use py_tui_kairo.Runtime.Turns.{
  new_supervisor, start_op, finish_op, close_op, turn_active, Op, steps,
}
use py_tui_kairo.Engine.Models.{EngineOptions}
use py_tui_kairo.Engine.Submit.{SubmitPorts, TurnEngine, answers, cancelled, submit}
use py_tui_kairo.Engine.Submit.Admission.{Settled, submit-Settled}
use py_tui_kairo.Engine.Submit.Blocked.{Refused, cancelled_submit_blocks}

abbrev options : EngineOptions
options = record {
  default_session_id = some "main";
  profile_id = none;
  workspace_root = ".";
  workspace_revision = 0;
  authorization_mode = AuthorizationMode.manual;
  plan_mode = false;
  thinking_mode = false;
  context_trigger_percent = 85;
  context_target_percent = 60;
  preserve_recent_turns = 2;
  interaction_timeout_seconds = 300;
  max_tool_rounds = 1;
  stop_saves_partial = false;
}

abbrev session : SessionRecord
session = record {
  session_id = "main";
  name = "";
  messages = [];
  created_at = 0;
  updated_at = 0;
  compression_count = 0;
}

-- While the profile is resolved, another session gets a turn.
abbrev ports : SubmitPorts
ports = record {
  load = record { meanwhile = []; answer = answers (success session) };
  preferences = none;
  workspace = none;
  resolve_profile = record {
    meanwhile = start_op "other" "t2" ∷ [];
    answer = answers (failure (kernel_error ErrorCode.provider_client "No such profile."));
  };
  list_tools = record { meanwhile = []; answer = answers [] };
  turn_id = "t1";
  now = 5;
}

abbrev request : TurnRequest
request = record {
  text = "hello";
  session_id = none;
  client_request_id = "";
  metadata = JsonMembers.no_member;
}

abbrev engine : TurnEngine
engine = record { supervisor = new_supervisor; runs = [] }

submit-Settled_example : Settled "main" "t1" [] (submit ports options request engine)
unfolding turn_active
submit-Settled_example = submit-Settled ports options request engine "main" refl refl

abbrev cancelled_ports : SubmitPorts
cancelled_ports = record ports { load = record { meanwhile = []; answer = cancelled } }

-- After it, another session gets a turn and admission is closed; then the session is tried again.
abbrev later : List Op
later = start_op "other" "t2" ∷ finish_op "main" "t2" ∷ close_op ∷ []

later_keeps : All (λ x. x ≢ finish_op "main" "t1") later
later_keeps = ((λ e. cc), ((λ e. ground (arith, eq_iff "t2" "t1")), ((λ e. cc), tt)))

cancelled_submit_blocks_example :
    let (result, e) = submit cancelled_ports options request engine in
    (result ≡ cancelled)
    × (e.runs ≡ [])
    × Refused "t1"
        (submit ports options request (record { supervisor = steps later e.supervisor; runs = [] }))
unfolding turn_active get
cancelled_submit_blocks_example =
    cancelled_submit_blocks cancelled_ports ports options options request request engine [] later
      "main" refl refl refl refl refl tt later_keeps refl
