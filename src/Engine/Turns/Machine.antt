-- ===== src/Engine/Turns/Machine.antt =====
-- One run of the turn engine as a program on its state. What the ports answer, the clock, fresh ids and what other
-- tasks do meanwhile are the functions of `Ports`; each takes the number of ports calls made so far, so that they stand
-- for every history of answers. A run keeps what was changed before an exception.
use py_tui_kairo.Common.{
  ℕ, suc, ◌+◌, max, ◌⊎◌, Bool, true, false, Option, none, some, List, [], ◌∷◌, ◌++◌, String, str_eq,
  if◌then◌else◌,
}
use py_tui_kairo.Contracts.Enums.{
  AuthorizationMode, EventType, OperationScope, TurnPhase, TurnStatus,
}
use py_tui_kairo.Contracts.Json.{Float}
use py_tui_kairo.Contracts.Content.{ContentBlock, Message}
use py_tui_kairo.Contracts.Errors.{KernelError, KernelResult}
use py_tui_kairo.Contracts.Events.{EventPayload}
use py_tui_kairo.Contracts.Interactions.{InteractionResponse}
use py_tui_kairo.Contracts.Lifecycle.{ContextStats}
use py_tui_kairo.Contracts.Providers.{
  ProviderProfile, ProviderRequest, ProviderStreamEvent, SessionRecord,
}
use py_tui_kairo.Contracts.Tools.{
  ToolDescriptor, ToolInvocation, ToolExecutionContext, ToolOutputChunk, ToolResult,
}
use py_tui_kairo.Contracts.Turns.{TurnResult}
use py_tui_kairo.Runtime.Cancellation.{CancellationToken, cancel}
use py_tui_kairo.Runtime.Events.{Emission}
use py_tui_kairo.Engine.Models.{RunSnapshot}

-- What the next event of a stream turns out to be; the end of the list is StopAsyncIteration. The flag of an exception
-- says whether it was there already when a cancellation ended the wait for it.
pub data StreamItem : Type 0 where
  event : ProviderStreamEvent → StreamItem
  stream_raises : String → Bool → StreamItem

-- A tool's execution: the chunks that it writes, and its result or the message of its exception.
pub record ToolRun : Type 0 where
  pub chunks : List ToolOutputChunk
  pub outcome : ToolResult ⊎ String

pub record Ports : Type 0 where
  pub fresh : ℕ → String
  pub now : ℕ → ℕ
  -- another task calls `cancel` of this turn, with that reason, while this call is awaited
  pub cancels : ℕ → Option String
  -- the port raises an exception with that message
  pub raises : ℕ → Option String
  -- the run's own task is cancelled at this await
  pub interrupts : ℕ → Bool
  pub bus_closed : ℕ → Bool
  pub resolve_profile : ℕ → KernelResult ProviderProfile
  pub stream : ℕ → List StreamItem
  pub request : ℕ → InteractionResponse
  pub get_tool : ℕ → KernelResult (Unit {0})
  pub classify : ℕ → KernelResult OperationScope
  pub authorizes : AuthorizationMode → OperationScope → Bool
  pub execute : ℕ → ToolRun
  -- with the engine's optional parts: preferences and workspace leases
  pub has_preferences : Bool
  pub apply_authorization : ℕ → KernelResult ℕ
  pub has_leases : Bool
  pub bump_revision : ℕ → ℕ
  pub save : ℕ → KernelResult (Unit {0})
  -- arithmetic on floats, and texts
  pub percent : ℕ → ℕ → Float
  pub message_json : Message → String
  pub tool_json : ToolDescriptor → String
  pub strip : String → String

-- `_Run`, with the local variables `history` and `dirty` of `_execute`. `log`, `requests`, `executions`, `saved` and `releases` record what went out to the bus, the provider, the
-- tools, the session repository and the lease.
pub record Run : Type 0 where
  pub snapshot : RunSnapshot
  pub token : CancellationToken
  pub future : Option TurnResult
  pub status : TurnStatus
  pub phase : Option TurnPhase
  pub started_at : Option ℕ
  pub finished_at : Option ℕ
  pub turn_sequence : ℕ
  pub terminal_emitted : Bool
  pub input_tokens : ℕ
  pub output_tokens : ℕ
  pub compression_count : ℕ
  pub authorization_override : Option AuthorizationMode
  pub output_messages : List Message
  pub history : List Message
  pub dirty : Bool
  pub log : List Emission
  pub requests : List ProviderRequest
  pub executions : List (ToolInvocation × ToolExecutionContext)
  pub saved : List (SessionRecord × Bool)
  pub releases : ℕ

-- `calls` counts what has been asked of the ports.
pub record Machine : Type 0 where
  pub ports : Ports
  pub calls : ℕ
  pub run : Run

-- `_TurnCancelled`, `_EngineFailure`, any other exception, and asyncio's CancelledError, which is no `Exception`
pub data Raised : Type 0 where
  turn_cancelled : String → Raised
  engine_failure : KernelError → Raised
  fault : String → Raised
  task_cancelled : Raised

pub data Ended (A : Type 0) : Type 0 where
  returned : A → Ended A
  raised : Raised → Ended A

abbrev pub M : Type 0 → Type 0
M A = Machine → Ended A × Machine

module _ {A : Type 0} where
  unfoldable pub pure : A → M A
  pure a s = (returned a, s)

  unfoldable pub raise : Raised → M A
  raise e s = (raised e, s)

module _ {A B : Type 0} where
  abbrev pub continue : Ended A → (A → M B) → M B
  continue (returned a) f s = f a s
  continue (raised e) f s = (raised e, s)

  infixl 10 ◌>>=◌ ◌>>◌
  unfoldable pub ◌>>=◌ : M A → (A → M B) → M B
  unfolding pure raise
  ◌>>=◌ m f s = let (r, s') = m s in continue r f s'

  abbrev pub ◌>>◌ : M A → M B → M B
  m >> n = m >>= λ _. n

-- What a part of the run reads, and a change of the run that nothing is awaited for.
unfoldable pub reads : {A : Type 0} → (Run → A) → M A
reads f s = (returned (f s.run), s)

unfoldable pub modify : (Run → Run) → M (Unit {0})
modify f s = (returned tt, record s { run = f s.run })

-- Reading the clock, a fresh id, or a function of the ports: nothing is awaited.
unfoldable pub uses : {A : Type 0} → (Ports → ℕ → A) → M A
uses f s = (returned (f s.ports s.calls), record s { calls = suc s.calls })

abbrev pub emission : EventType → EventPayload → ℕ → Ports → Run → Emission
emission event_type payload n ports r = record {
  event_id = ports.fresh n;
  timestamp = ports.now n;
  event_type = event_type;
  payload = payload;
  turn_sequence = some r.turn_sequence;
  turn_id = some r.snapshot.turn_id;
  session_id = some r.snapshot.session_id;
  workspace_revision = r.snapshot.options.workspace_revision;
}

abbrev pub numbered : Run → Run
numbered r = record r { turn_sequence = r.turn_sequence + 1 }

-- `_emit` at a state; the sequence number advances also where the closed bus raises.
unfoldable pub emit_at : EventType → EventPayload → Machine → Ended (Unit {0}) × Machine
emit_at event_type payload s =
    let r = numbered s.run in
    if s.ports.bus_closed s.calls
    then (raised (fault "Event bus is closed."), record s { calls = suc s.calls; run = r })
    else (
      returned tt,
      record s {
        calls = suc s.calls;
        run = record r { log = r.log ++ emission event_type payload s.calls s.ports r ∷ [] };
      },
    )

unfoldable pub emit : EventType → EventPayload → M (Unit {0})
unfolding emit_at
emit event_type payload s = emit_at event_type payload s

unfoldable pub emit_turn : TurnStatus → Option TurnPhase → String → M (Unit {0})
unfolding emit
emit_turn status phase reason = emit EventType.turn (EventPayload.turn_event status phase reason)

unfoldable pub transition : TurnPhase → M (Unit {0})
unfolding modify reads emit_turn
transition phase = do
  modify (λ r. record r { phase = some phase })
  status ← reads (λ r. r.status)
  emit_turn status (some phase) ""

abbrev pub is_terminal : TurnStatus → Bool
is_terminal TurnStatus.succeeded = true
is_terminal TurnStatus.cancelled = true
is_terminal TurnStatus.failed = true
is_terminal _ = false

-- `reason or default`
abbrev pub or_default : String → String → String
or_default reason default = if str_eq reason "" then default else reason

-- `TurnEngine.cancel` once the run is found: the result is its receipt's two flags, or the exception of the event bus.
unfoldable pub cancel_run : String → Machine → Ended (Bool × Bool) × Machine
unfolding emit_turn pure
cancel_run reason s =
    let (token, requested) =
      cancel (or_default reason "Turn cancellation requested.") s.run.token in
    if is_terminal s.run.status
    then (returned (false, true), s)
    else if requested
    then (emit_turn TurnStatus.stopping s.run.phase (or_default reason "Cancellation requested.")
          >>= λ _. pure (true, false))
        (record s { run = record s.run { token = token; status = TurnStatus.stopping } })
    else (returned (false, false), s)

abbrev pub meddle : Option String → Machine → Machine
meddle none s = s
meddle (some reason) s = (cancel_run reason s).1

-- Other tasks run while something is awaited, and the run's own task may be cancelled there.
unfoldable pub wait : M (Unit {0})
unfolding cancel_run
wait s = (
  if s.ports.interrupts s.calls then raised task_cancelled else returned tt,
  meddle (s.ports.cancels s.calls) (record s { calls = suc s.calls }),
)

-- Other tasks run while something is awaited whose CancelledError is suppressed, a cancellation of the run's own task
-- included.
unfoldable pub others : M (Unit {0})
unfolding cancel_run
others s = (returned tt, meddle (s.ports.cancels s.calls) (record s { calls = suc s.calls }))

-- What a port answers, or its exception.
abbrev pub answer : {A : Type 0} → A → Option String → Ended (Unit {0}) → Ended A
answer a none (returned u) = returned a
answer a (some message) (returned u) = raised (fault message)
answer a o (raised e) = raised e

-- A call of a port: it is awaited, and it may raise.
unfoldable pub call : {A : Type 0} → (Ports → ℕ → A) → M A
unfolding wait
call f s = let (r, s') = wait s in (answer (f s.ports s.calls) (s.ports.raises s.calls) r, s')

-- `_raise_if_cancelled`
unfoldable pub raise_if_cancelled : M (Unit {0})
unfolding pure raise
raise_if_cancelled s =
    if s.run.token.cancelled
    then (raised (turn_cancelled "Turn was cancelled."), s)
    else (returned tt, s)

abbrev pub stats : ℕ → Ports → Run → ContextStats
stats used ports r =
    let limit = max 1 r.snapshot.profile.context_window in
    record {
      used_tokens = used;
      context_window = limit;
      percent = ports.percent used limit;
      input_tokens = r.input_tokens;
      output_tokens = r.output_tokens;
    }

unfoldable pub emit_usage : ℕ → M (Unit {0})
unfolding emit
emit_usage used s = emit EventType.usage (EventPayload.usage_event (stats used s.ports s.run)) s

unfoldable pub emit_message : String → String → List ContentBlock → M (Unit {0})
unfolding emit
emit_message message_id action content =
    emit EventType.message (EventPayload.message_event message_id action content)

unfoldable pub emit_tool :
    String → ToolInvocation → Option ToolOutputChunk → Option ToolResult → M (Unit {0})
unfolding emit
emit_tool action i output result =
    emit EventType.tool (EventPayload.tool_event action (some i) output result)
