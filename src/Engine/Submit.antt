-- ===== src/Engine/Submit.antt =====
-- kairo_kernel/engine/turns.py: `TurnEngine.submit`, with `_resolve_options` and `get`. The supervisor is the
-- modelled one; what each port comes to, and what other tasks do with the supervisor while it is awaited, are arguments. The
-- runs that other tasks enter meanwhile, under their own turn ids, are left out.
pub mod Admission
pub mod Blocked
mod Examples
use Prim.Native.String.{◌++◌ as append_text}
use py_tui_kairo.Common.{
  ℕ, Bool, true, false, Option, none, some, List, [], ◌∷◌, String, str_eq, if◌then◌else◌,
}
use py_tui_kairo.Common.Dict.{Dict, get, put}
use py_tui_kairo.Contracts.Enums.{ErrorCode}
use py_tui_kairo.Contracts.Errors.{KernelError, KernelResult, success, failure, kernel_error}
use py_tui_kairo.Contracts.Preferences.{PreferencesSnapshot}
use py_tui_kairo.Contracts.Providers.{ProviderProfile, SessionRecord}
use py_tui_kairo.Contracts.Tools.{ToolDescriptor}
use py_tui_kairo.Contracts.Turns.{TurnRequest, TurnAccepted, TurnSnapshot, TurnResult}
use py_tui_kairo.Runtime.Turns.{SessionTurnSupervisor, TurnLease, Op, start, release, steps}
use py_tui_kairo.Runtime.Workspace.{WorkspaceSnapshot}
use py_tui_kairo.Engine.Models.{EngineOptions, RunSnapshot}
use py_tui_kairo.Engine.Turns.Machine.{Run}
use py_tui_kairo.Engine.Turns.Execute.{new_run}

-- What an awaited call comes to: its answer, or an exception with its message. A cancellation of the awaiting task is an
-- exception too, and no `Exception`.
pub data Answer (A : Type 0) : Type 0 where
  answers : A → Answer A
  raises : String → Answer A
  cancelled : Answer A

-- A call, and what other tasks do with the supervisor while it is awaited.
pub record Awaited (A : Type 0) : Type 0 where
  pub meanwhile : List Op
  pub answer : Answer A

pub record SubmitPorts : Type 0 where
  pub load : Awaited (KernelResult SessionRecord)
  pub preferences : Option (Awaited PreferencesSnapshot)
  pub workspace : Option (Awaited WorkspaceSnapshot)
  pub resolve_profile : Awaited (KernelResult ProviderProfile)
  pub list_tools : Awaited (List ToolDescriptor)
  pub turn_id : String
  pub now : ℕ

pub record TurnEngine : Type 0 where
  pub supervisor : SessionTurnSupervisor
  pub runs : Dict Run

-- What `submit` comes to: it returns, or the exception goes to its caller.
abbrev pub Submitted : Type 0
Submitted = Answer (KernelResult TurnAccepted) × TurnEngine

abbrev pub after_others : {A : Type 0} → Awaited A → TurnEngine → TurnEngine
after_others a e = record e { supervisor = steps a.meanwhile e.supervisor }

-- `value or default`, for a text that may be missing: the empty one counts as missing.
abbrev pub or_else : Option String → Option String → Option String
or_else none default = default
or_else (some s) default = if str_eq s "" then default else some s

abbrev pub overlay : PreferencesSnapshot → EngineOptions → EngineOptions
overlay p o = record o {
  profile_id = or_else p.profile_id o.profile_id;
  authorization_mode = p.authorization_mode;
  plan_mode = p.plan_mode;
  thinking_mode = p.thinking_mode;
  context_trigger_percent = p.context_trigger_percent;
  context_target_percent = p.context_target_percent;
  preserve_recent_turns = p.preserve_recent_turns;
}

abbrev pub in_workspace : WorkspaceSnapshot → EngineOptions → EngineOptions
in_workspace w o = record o { workspace_root = w.root; workspace_revision = w.revision }

-- An answer goes on; an exception goes to the caller.
abbrev pub on_answer :
    {A B : Type 0}
    → Answer A
    → (A → TurnEngine → Answer B × TurnEngine)
    → TurnEngine
    → Answer B × TurnEngine
on_answer (answers a) k e = k a e
on_answer (raises message) k e = (raises message, e)
on_answer cancelled k e = (cancelled, e)

abbrev pub await_port :
    {A B : Type 0}
    → Awaited A
    → (A → TurnEngine → Answer B × TurnEngine)
    → TurnEngine
    → Answer B × TurnEngine
await_port a k e = on_answer a.answer k (after_others a e)

abbrev pub await_part :
    {A B : Type 0}
    → Option (Awaited A)
    → B
    → (A → B)
    → (B → TurnEngine → Submitted)
    → TurnEngine
    → Submitted
await_part none b f k e = k b e
await_part (some a) b f k e = await_port a (λ x. k (f x)) e

-- `_resolve_options`, and what follows it.
unfoldable pub resolve_options :
    SubmitPorts → EngineOptions → (EngineOptions → TurnEngine → Submitted) → TurnEngine → Submitted
resolve_options ports o k e =
    await_part ports.preferences o (λ p. overlay p o)
      (λ o' e'. await_part ports.workspace o' (λ w. in_workspace w o') k e') e

abbrev pub submit_error : ErrorCode → String → KernelError
submit_error code message = record (kernel_error code message) { operation = "turn.submit" }

-- `await lease.release()`, and the failure.
unfoldable pub give_up : TurnLease → KernelError → TurnEngine → Submitted
unfolding release
give_up lease error e =
    (answers (failure error), record e { supervisor = (release lease e.supervisor).2 })

-- The run is entered, and its task is made.
unfoldable pub accept : RunSnapshot → TurnEngine → Submitted
accept s e = (
  answers (
      success
        (record { turn_id = s.turn_id; session_id = s.session_id; accepted_at = s.accepted_at })),
  record e { runs = put s.turn_id (new_run s) e.runs },
)

unfoldable pub after_tools :
    TurnLease → RunSnapshot → Answer (List ToolDescriptor) → TurnEngine → Submitted
unfolding give_up accept
after_tools lease s (answers tools) e = accept (record s { tools = tools }) e
after_tools lease s (raises message) e =
    give_up lease (submit_error ErrorCode.internal (append_text "Tool discovery failed: " message))
      e
after_tools lease s cancelled e = (cancelled, e)

unfoldable pub with_tools : SubmitPorts → TurnLease → RunSnapshot → TurnEngine → Submitted
unfolding after_tools
with_tools ports lease s e =
    after_tools lease s ports.list_tools.answer (after_others ports.list_tools e)

unfoldable pub with_profile :
    SubmitPorts
    → TurnLease
    → SessionRecord
    → EngineOptions
    → KernelResult ProviderProfile
    → TurnEngine
    → Submitted
unfolding with_tools give_up
with_profile ports lease session o (failure error) e = give_up lease error e
with_profile ports lease session o (success profile) e =
    with_tools ports lease
      (record {
        turn_id = lease.turn_id;
        session_id = lease.session_id;
        session = session;
        profile = profile;
        tools = [];
        options = o;
        accepted_at = ports.now;
      })
      e

unfoldable pub with_session :
    SubmitPorts → EngineOptions → TurnLease → KernelResult SessionRecord → TurnEngine → Submitted
unfolding resolve_options with_profile give_up
with_session ports o lease (failure error) e = give_up lease error e
with_session ports o lease (success session) e =
    resolve_options ports o
      (λ o' e'. await_port ports.resolve_profile (with_profile ports lease session o') e') e

unfoldable pub with_lease :
    SubmitPorts → EngineOptions → KernelResult TurnLease → TurnEngine → Submitted
unfolding with_session
with_lease ports o (failure error) e = (answers (failure error), e)
with_lease ports o (success lease) e = await_port ports.load (with_session ports o lease) e

unfoldable pub submit_for : SubmitPorts → EngineOptions → Option String → TurnEngine → Submitted
unfolding start with_lease
submit_for ports o none e =
    (answers (failure (submit_error ErrorCode.invalid_argument "A session_id is required.")), e)
submit_for ports o (some session_id) e =
    let (result, v) = start session_id ports.turn_id e.supervisor in
    with_lease ports o result (record e { supervisor = v })

unfoldable pub submit : SubmitPorts → EngineOptions → TurnRequest → TurnEngine → Submitted
unfolding submit_for
submit ports o request e = submit_for ports o (or_else request.session_id o.default_session_id) e

-- `_snapshot` and `get`
abbrev pub snapshot_of : Run → TurnSnapshot
snapshot_of r = record {
  turn_id = r.snapshot.turn_id;
  session_id = r.snapshot.session_id;
  status = r.status;
  phase = r.phase;
  started_at = r.started_at;
  finished_at = r.finished_at;
  cancel_requested = r.token.cancelled;
}

abbrev not_found : KernelError
not_found = kernel_error ErrorCode.turn_not_found "Turn not found."

unfoldable pub get_turn : String → TurnEngine → KernelResult TurnSnapshot
get_turn turn_id e = elim (get turn_id e.runs) [
  | none ↦ failure not_found
  | some r ↦ success (snapshot_of r)
]
