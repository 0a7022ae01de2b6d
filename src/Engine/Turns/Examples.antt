-- ===== src/Engine/Turns/Examples.antt =====
-- A turn whose model calls a tool, which the user approves.
use py_tui_kairo.Common.{
  ℕ, ◌≡◌, ◌≢◌, refl, true, false, Option, none, some, List, [], ◌∷◌, All, length, ltb, map,
  get_elem?, if◌then◌else◌, inl,
}
use py_tui_kairo.Contracts.Enums.{
  AuthorizationMode, InteractionAction, OperationScope, ProviderStreamKind, ToolExecutionStatus,
  TurnStatus,
}
use py_tui_kairo.Contracts.Json.{JsonMembers, Float}
use py_tui_kairo.Contracts.Content.{ContentBlock, text_block}
use py_tui_kairo.Contracts.Errors.{success}
use py_tui_kairo.Contracts.Providers.{ProviderProfile, SessionRecord, ToolCall}
use py_tui_kairo.Engine.Models.{EngineOptions, RunSnapshot}
use py_tui_kairo.Engine.Turns.Machine.{
  Ports, StreamItem, event, returned, raised, task_cancelled, is_terminal,
}
use py_tui_kairo.Runtime.Cancellation.{new_token}
use py_tui_kairo.Contracts.Interactions.{offered}
use py_tui_kairo.Engine.Context.{
  needs_compaction, new_packer, estimate_context_tokens, estimate_text,
}
use py_tui_kairo.Engine.Turns.Approval.{sanitised}
use py_tui_kairo.Engine.Turns.Stream.{StreamResult, no_result}
use py_tui_kairo.Engine.Turns.Ensures.{After}
use py_tui_kairo.Engine.Turns.Sound.{Ascending, Permitted}
use py_tui_kairo.Engine.Turns.Loop.{turn_loop, run_calls, assistant_message}
use py_tui_kairo.Engine.Turns.Execute.{start, run_turn, body}
use py_tui_kairo.Engine.Turns.Ending.{
  Resolved, Concluded, ends_once, run_turn-Permitted, cancelled_task_succeeds,
}
use py_tui_kairo.Engine.Turns.Fuel.{rounds_end}
use py_tui_kairo.Engine.Turns.Answers.{Answers, Begun, Extends, run_calls-Answers}

abbrev real : Float
real = record { bits = 0 }

abbrev session : SessionRecord
session = record {
  session_id = "session";
  name = "first";
  messages = [];
  created_at = 0;
  updated_at = 0;
  compression_count = 0;
}

abbrev profile : ProviderProfile
profile = record {
  profile_id = "profile";
  label = "";
  provider = "openai";
  model = "model";
  base_url = "";
  context_window = 100000;
  max_output_tokens = 100;
  temperature = real;
  secret_id = "";
}

abbrev options : EngineOptions
options = record {
  default_session_id = none;
  profile_id = none;
  workspace_root = ".";
  workspace_revision = 0;
  authorization_mode = AuthorizationMode.manual;
  plan_mode = false;
  thinking_mode = false;
  context_trigger_percent = 85;
  context_target_percent = 60;
  preserve_recent_turns = 2;
  interaction_timeout_seconds = 300;
  max_tool_rounds = 1;
  stop_saves_partial = true;
}

abbrev snapshot : RunSnapshot
snapshot = record {
  turn_id = "turn";
  session_id = "session";
  session = session;
  profile = profile;
  tools = [];
  options = options;
  accepted_at = 0;
}

abbrev tool_call : ToolCall
tool_call = record { tool_call_id = "call"; name = "shell"; arguments = JsonMembers.no_member }

abbrev stream_event : ProviderStreamKind → List ContentBlock → Option ToolCall → StreamItem
stream_event kind content c = event (record {
  kind = kind;
  content = content;
  tool_call = c;
  usage = none;
  failure = none;
  finish_reason = "";
})

abbrev completed : StreamItem
completed = stream_event ProviderStreamKind.completed [] none

-- The first reply calls the tool, the second ends the turn.
abbrev replies : ℕ → List StreamItem
replies n =
    if ltb n 8
    then stream_event ProviderStreamKind.tool_call [] (some tool_call) ∷ completed ∷ []
    else stream_event ProviderStreamKind.content (text_block "done" ∷ []) none ∷ completed ∷ []

abbrev ports : Ports
ports = record {
  fresh = λ n. "id";
  now = λ n. n;
  cancels = λ n. none;
  raises = λ n. none;
  interrupts = λ n. false;
  bus_closed = λ n. false;
  resolve_profile = λ n. success profile;
  stream = replies;
  request = λ n. record {
    interaction_id = "id";
    turn_id = "turn";
    action = InteractionAction.approve_once;
    text = "";
  };
  get_tool = λ n. success tt;
  classify = λ n. success OperationScope.internal;
  authorizes = λ mode scope. false;
  execute = λ n. record {
    chunks = [];
    outcome = inl (record {
      tool_call_id = "call";
      name = "shell";
      status = ToolExecutionStatus.succeeded;
      content = [];
      started_at = n;
      finished_at = n;
      error_message = "";
    });
  };
  has_preferences = false;
  apply_authorization = λ n. success 0;
  has_leases = false;
  bump_revision = λ n. 0;
  save = λ n. success tt;
  percent = λ used limit. real;
  message_json = λ m. "";
  tool_json = λ t. "";
  strip = λ text. text;
}

turn_succeeds :
    let s = run_turn ports snapshot none "hello" in
    (s.run.status ≡ TurnStatus.succeeded)
    × (length s.run.executions ≡ 1)
    × (length s.run.saved ≡ 1)
    × (length s.run.history ≡ 4)
unfolding run_turn new_token needs_compaction new_packer estimate_context_tokens estimate_text
    sanitised offered
turn_succeeds = (refl, refl, refl, refl)

ends_once_example :
    let s = run_turn ports snapshot none "hello" in
    (s.run.releases ≡ 1)
    × (is_terminal s.run.status ≡ true)
    × Resolved s.run
    × Concluded s.run.status s.run.log
    × Ascending 0 s.run.turn_sequence s.run.log
ends_once_example = ends_once ports snapshot none "hello"

run_turn-Permitted_example :
    let s = run_turn ports snapshot none "hello" in All (Permitted ports s.run.log) s.run.executions
run_turn-Permitted_example = run_turn-Permitted ports snapshot none "hello"

rounds_end_example :
    ((turn_loop 4 false 0 (start ports snapshot)).0 ≢ returned false)
    × (turn_loop 3 false 0 (start ports snapshot) ≡ turn_loop 9 false 0 (start ports snapshot))
rounds_end_example = rounds_end (start ports snapshot) 5 refl

run_calls-Answers_example :
    After
      (λ b. Extends [] (Answers (tool_call ∷ tool_call ∷ [])))
      (Extends [] (Begun (tool_call ∷ tool_call ∷ [])))
      (run_calls (tool_call ∷ tool_call ∷ []) (start ports snapshot))
run_calls-Answers_example =
    run_calls-Answers (tool_call ∷ tool_call ∷ []) (start ports snapshot) refl

-- A model that calls the tool in every reply, where one round may have calls.
abbrev calling_ports : Ports
calling_ports = record ports {
  stream = λ n. stream_event ProviderStreamKind.tool_call [] (some tool_call) ∷ completed ∷ [];
}

abbrev reply : StreamResult
reply = record (no_result "id") { tool_calls = tool_call ∷ [] }

over_limit_saved :
    let s = run_turn calling_ports snapshot none "hello" in
    (s.run.status ≡ TurnStatus.failed)
    × (length s.run.executions ≡ 1)
    × (map (λ x. get_elem? x.0.messages 3) s.run.saved ≡ some (assistant_message reply) ∷ [])
    × (map (λ x. length x.0.messages) s.run.saved ≡ 4 ∷ [])
unfolding run_turn new_token needs_compaction new_packer estimate_context_tokens estimate_text
    sanitised offered
over_limit_saved = (refl, refl, refl, refl)

-- Ports at whose awaits the task is cancelled.
abbrev cancelling_ports : Ports
cancelling_ports = record ports { interrupts = λ n. true }

body_ends : (body "hello" (start cancelling_ports snapshot)).0 ≡ raised task_cancelled
unfolding body new_token needs_compaction new_packer estimate_context_tokens estimate_text
body_ends = refl

cancelled_task_succeeds_example :
    (run_turn cancelling_ports snapshot none "hello").run.status ≡ TurnStatus.succeeded
cancelled_task_succeeds_example =
    cancelled_task_succeeds cancelling_ports snapshot "hello" body_ends
