-- ===== src/Engine/Turns/Tools.antt =====
-- `_execute_tool`: the call of a tool, its execution and its result.
use py_tui_kairo.Common.{
  ℕ, ◌⊎◌, inl, inr, Bool, true, false, ◌&&◌, ◌||◌, none, some, List, [], ◌∷◌, ◌++◌, String, str_eq,
  find, any_of, if◌then◌else◌,
}
use py_tui_kairo.Contracts.Enums.{
  AuthorizationMode, EventType, OperationScope, ToolExecutionStatus, TurnPhase, mode_value,
}
use py_tui_kairo.Contracts.Errors.{KernelResult, success, failure}
use py_tui_kairo.Contracts.Events.{change_event}
use py_tui_kairo.Contracts.Providers.{ToolCall}
use py_tui_kairo.Contracts.Tools.{
  ToolDescriptor, ToolInvocation, ToolExecutionContext, ToolOutputChunk, ToolResult,
}
use py_tui_kairo.Engine.Turns.Machine.{
  M, Run, ToolRun, Ended, returned, raised, turn_cancelled, engine_failure, fault, task_cancelled,
  pure, ◌>>=◌, ◌>>◌, reads, modify, uses, call, emit, transition, emit_tool,
}
use py_tui_kairo.Engine.Turns.Approval.{
  approved, not_approved, Approval, approve, complete_with, made_result,
}

-- `_EngineToolSink.write`; the ValueError for a chunk of another call goes to the tool.
unfoldable pub write_chunks : ToolInvocation → List ToolOutputChunk → M (Unit {0})
unfolding emit_tool pure ◌>>=◌
write_chunks i [] = pure tt
write_chunks i (chunk ∷ chunks) =
    let rest = write_chunks i chunks in
    if str_eq chunk.tool_call_id i.tool_call_id
    then (emit_tool "output" i (some chunk) none >>= λ _. rest)
    else rest

-- The result of the tool's execution, or the message of the exception, that of a mismatch included.
abbrev pub correlated : ToolCall → ToolRun → ToolResult ⊎ String
correlated c t = elim t.outcome [
  | inr message ↦ inr message
  | inl result ↦
      if str_eq result.tool_call_id c.tool_call_id && str_eq result.name c.name
      then inl result
      else inr "Tool result correlation does not match invocation."
]

abbrev pub log_execution : ToolInvocation → ToolExecutionContext → Run → Run
log_execution i context r = record r { executions = r.executions ++ (i, context) ∷ [] }

abbrev pub context_of : AuthorizationMode → Run → ToolExecutionContext
context_of mode r = record {
  workspace_root = r.snapshot.options.workspace_root;
  authorization_mode = mode_value mode;
  environment_names = [];
}

-- `await tool.execute(...)`: the call and its chunks.
unfoldable pub run_tool : AuthorizationMode → ToolInvocation → M ToolRun
unfolding reads modify call write_chunks pure
run_tool mode i = do
  context ← reads (context_of mode)
  modify (log_execution i context)
  t ← call (λ ports n. ports.execute n)
  write_chunks i t.chunks
  pure t

-- The `except Exception` around the execution.
abbrev pub caught : ToolCall → Ended ToolRun → Ended (ToolResult ⊎ String)
caught c (returned t) = returned (correlated c t)
caught c (raised (turn_cancelled message)) = returned (inr message)
caught c (raised (engine_failure e)) = returned (inr e.message)
caught c (raised (fault message)) = returned (inr message)
caught c (raised task_cancelled) = raised task_cancelled

unfoldable pub guarded_tool :
    AuthorizationMode → ToolCall → ToolInvocation → M (ToolResult ⊎ String)
unfolding run_tool
guarded_tool mode c i s = let (r, s') = run_tool mode i s in (caught c r, s')

unfoldable pub final_result : ToolCall → ℕ → ToolResult ⊎ String → M ToolResult
unfolding uses pure
final_result c started (inl result) = pure result
final_result c started (inr message) = do
  finished ← uses (λ ports n. ports.now n)
  pure (made_result ToolExecutionStatus.failed message c started finished)

-- `_mutates_workspace`
unfoldable pub mutates_workspace : List ToolDescriptor → String → Bool
mutates_workspace descriptors name =
    elim (find (λ (d : ToolDescriptor). str_eq d.name name) descriptors) [
      | none ↦ false
      | some d ↦ any_of (λ p. str_eq p "write" || str_eq p "execute") d.permissions
    ]

abbrev is_succeeded : ToolExecutionStatus → Bool
is_succeeded ToolExecutionStatus.succeeded = true
is_succeeded _ = false

unfoldable pub announce_change : ToolCall → ToolResult → M (Unit {0})
unfolding reads uses call emit mutates_workspace pure
announce_change c result = do
  leases ← uses (λ ports n. ports.has_leases)
  mutates ← reads (λ r. mutates_workspace r.snapshot.tools c.name)
  (if is_succeeded result.status && leases && mutates
      then (call (λ ports n. ports.bump_revision n) >>= λ revision.
          emit EventType.workspace_changed
            (change_event revision c.name "Workspace files changed."))
      else pure tt)

unfoldable pub run_approved : AuthorizationMode → ToolCall → ToolInvocation → ℕ → M ToolResult
unfolding transition emit_tool guarded_tool final_result announce_change pure
run_approved mode c i started = do
  transition TurnPhase.running_tool
  emit_tool "started" i none none
  outcome ← guarded_tool mode c i
  result ← final_result c started outcome
  emit_tool "completed" i none (some result)
  announce_change c result
  pure result

unfoldable pub after_approval : ToolCall → ToolInvocation → ℕ → Approval → M ToolResult
unfolding run_approved complete_with
after_approval c i started (approved mode) = run_approved mode c i started
after_approval c i started not_approved =
    complete_with ToolExecutionStatus.rejected "Tool execution was rejected." c started i

abbrev pub provisional : ToolCall → Run → ToolInvocation
provisional c r = record {
  tool_call_id = c.tool_call_id;
  turn_id = r.snapshot.turn_id;
  session_id = r.snapshot.session_id;
  name = c.name;
  arguments = c.arguments;
  scope = OperationScope.internal;
}

unfoldable pub run_classified :
    ToolCall → ToolInvocation → ℕ → KernelResult OperationScope → M ToolResult
unfolding emit_tool approve after_approval complete_with
run_classified c i started (success scope) = do
  let invocation = record i { scope = scope }
  emit_tool "requested" invocation none none
  approval ← approve c.name scope
  after_approval c invocation started approval
run_classified c i started (failure e) =
    complete_with ToolExecutionStatus.failed e.message c started i

unfoldable pub run_found : ToolCall → ToolInvocation → ℕ → KernelResult (Unit {0}) → M ToolResult
unfolding call run_classified complete_with
run_found c i started (success tool) =
    call (λ ports n. ports.classify n) >>= run_classified c i started
run_found c i started (failure e) =
    complete_with ToolExecutionStatus.failed "Tool not found." c started i

unfoldable pub execute_tool : ToolCall → M ToolResult
unfolding uses reads call run_found
execute_tool c = do
  started ← uses (λ ports n. ports.now n)
  i ← reads (provisional c)
  fetched ← call (λ ports n. ports.get_tool n)
  run_found c i started fetched
