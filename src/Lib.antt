-- ===== src/Lib.antt =====
-- Kairo is a terminal coding agent: a kernel (kairo_kernel) that runs turns, tools and sessions
-- behind an event bus, and a terminal frontend (frontends/tui) that folds the kernel's events into
-- an immutable view state. This library models the kernel's runtime primitives and data contracts,
-- the turn engine with the packing of a turn's context, the authorization gate and the registries of the
-- tools, the conversation service, and the frontend's reducer and event loop.
--
-- The program's parts and their files:
-- * Common holds the names passed on from the libraries, Boolean tests, lists, and Python's dict as a list
--   of pairs.
-- * Contracts (kairo_kernel/contracts, kairo_kernel/errors.py): enums, JSON values, errors and
--   results, content blocks, tools, interactions, events. Identifiers are texts, a datetime is its
--   UTC instant as a number, a float is its bit pattern and is only carried along.
-- * Runtime.Cancellation, Runtime.Lifecycle, Runtime.Turns, Runtime.Workspace, Runtime.Events,
--   Runtime.Interactions (kairo_kernel/runtime): each class is a record, each method a function on it. The
--   child modules have the proofs: for the broker FailClosed, Retention, Kept (a call that is done stays as it
--   is), Once and Expired.
-- * Engine.Context (kairo_kernel/engine/context.py): the history of a session is split into turns,
--   trimmed to a token budget, and parted into what is summarised and what is kept.
-- * Engine.Turns (kairo_kernel/engine/turns.py): a turn from `_execute` on, as a program on its state
--   that may raise. Machine has the ports, the state of a run (`_Run` with the local variables of
--   `_execute`), the monad, `cancel` and the emissions; Stream is `_provider_round`, Compaction
--   `_compact`, Approval `_request_interaction` and the approval of a tool, Tools the rest of
--   `_execute_tool`, Plan `_plan`, Loop the loop of rounds, Execute `_commit`, the handlers and `_finish`. The proofs: Keeps and Ensures have the rules of the monad;
--   Stable says what an invariant of a run has to stand, and Steady, Consent, Invoke and Rounds carry
--   such an invariant through the parts of a turn; Sound is the invariant of a run that is not over,
--   Ending its end, Fuel the loop of rounds, Results and Answers the results of tools.
-- * Engine.Submit (the same file): `submit`, `_resolve_options` and `get`, over the supervisor of
--   Runtime.Turns; Blocked is about a submission that is cancelled. Engine.Models is kairo_kernel/engine/models.py.
-- * Tools.Gate (kairo_kernel/tools/registry.py, policy.py): the authorization gate before a tool's
--   `execute`. The tool's classification of the call is an argument. Tools.Registry (registry.py): the
--   built-in and the composite registry, over any type of tools.
-- * Services.Conversations (kairo_kernel/services/conversations.py): clear, undo and compress of a
--   session's history; the session repository's answers are arguments.
-- * Tui.State, Tui.Reducer, Tui.Fold (frontends/tui/kairo_tui/state.py, reducer.py): the view state,
--   `reduce`, and `fold_event` by event type. Tui.EventLoop (event_loop.py) is the loop that receives
--   the events of a subscription of Runtime.Events and folds them.
--
-- The kernel's components meet in the events: Contracts.Events is what the bus of Runtime.Events
-- delivers and what Tui.Fold takes, and an interaction request of Contracts.Interactions is both what
-- the broker of Runtime.Interactions holds and what the view shows as pending.
--
-- The turn engine asks a session repository, a provider, a tool registry, an interaction port and an
-- authorization policy. What these answer or raise, what the clock shows, which ids are fresh, where
-- another task cancels the turn and where the turn's own task is cancelled, are functions in
-- Engine.Turns.Machine.Ports of the number of calls that the run has made: every history of answers is
-- such a function. The events that a run emits, its requests, executions and saved records are logged in its
-- state. An emission is one step: the event bus holds its lock over no await.
--
-- Concurrency. All of this runs on one asyncio event loop, and the locks of these classes are never
-- held across an await but by the lifecycle, which holds its own across its hook. So the code between
-- two awaits is one step, and an interleaving is a list of steps: Runtime.Turns.steps,
-- Runtime.Workspace.run, Runtime.Events.Buffer.steps, Runtime.Interactions.run, Tui.EventLoop.run.
-- What an await waits for is a step of its own (a woken writer, a resumed receive, the end of a wait
-- in `request`). Such a step may come at any time; Runtime.Workspace.notifies says in which actions the
-- code runs `notify_all`. Hooks, clocks and fresh identifiers are arguments.
--
-- Bounds. Numbers are natural numbers: the counters, revisions and sequences of these classes never
-- go below zero, and Python's integers do not overflow. Token counts of providers
-- are natural numbers too. Every loop of the modelled code is a recursion on a list but the
-- `while True` of `_execute`, Engine.Turns.Loop.turn_loop, whose fuel is `max_tool_rounds + 3`: a round
-- that goes on is a tool round, of which there are at most `max_tool_rounds`, or the one emergency retry.
-- The percents of the context packer and of the engine's options are whole numbers.
--
-- Arguments that stand for code outside these files: `str.lower`, `str.strip` (as a test for blank
-- text in Runtime.Interactions, as a function in the engine), and the `to_json` of a message and a tool descriptor, whose JSON codec
-- is not modelled. The theorems hold whatever they give.
--
-- Not modelled: asyncio itself (which waiting task is woken is left open), storage, providers, MCP,
-- the other services, the tools themselves, `TurnEngine.wait` (the result of a future under a timeout), a second
-- cancellation of the task while the lease is released, the runs that other tasks enter in `_runs` while a
-- submission is awaited, the frontend's widgets, and the older agent package.
pub mod Common
pub mod Contracts
pub mod Runtime
pub mod Engine
pub mod Tools
pub mod Tui
pub mod Services
