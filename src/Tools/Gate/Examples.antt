-- ===== src/Tools/Gate/Examples.antt =====
-- An external call in the auto mode.
use py_tui_kairo.Common.{◌≡◌, ◌↔◌, false, []}
use py_tui_kairo.Contracts.Enums.{OperationScope}
use py_tui_kairo.Contracts.Errors.{success}
use py_tui_kairo.Contracts.Json.{no_member}
use py_tui_kairo.Contracts.Tools.{ToolInvocation, ToolExecutionContext}
use py_tui_kairo.Tools.Gate.{execute, executes, Permitted, gate_decides}

abbrev fetch : ToolInvocation
fetch = record {
  tool_call_id = "c";
  turn_id = "t";
  session_id = "s";
  name = "web_fetch";
  arguments = no_member;
  scope = OperationScope.external;
}

abbrev auto_context : ToolExecutionContext
auto_context = record {
  workspace_root = "/work";
  authorization_mode = "auto";
  environment_names = [];
}

gate_decides_example :
    (execute fetch auto_context (success OperationScope.external) 1 2 false ≡ executes)
    ↔ Permitted "auto" false OperationScope.external
gate_decides_example = gate_decides fetch auto_context 1 2 false OperationScope.external
