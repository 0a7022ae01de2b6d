-- ===== src/Engine/Turns/Execute.antt =====
-- `_execute` around its loop: the user's message, the commit, what each exception comes to, and the end of the run.
use py_tui_kairo.Common.{
  ℕ, suc, ◌+◌, Bool, true, false, Option, none, some, [], ◌∷◌, ◌++◌, String, str_eq, if◌then◌else◌,
}
use Prim.Native.String.{◌++◌ as append_text}
use py_tui_kairo.Contracts.Enums.{ErrorCode, MessageKind, MessageRole, TurnStatus}
use py_tui_kairo.Contracts.Content.{Message, text_block}
use py_tui_kairo.Contracts.Errors.{KernelError}
use py_tui_kairo.Contracts.Providers.{SessionRecord}
use py_tui_kairo.Engine.Turns.Machine.{
  M, Machine, Ports, Run, Ended, returned, raised, turn_cancelled, engine_failure, fault,
  task_cancelled, pure, ◌>>=◌, ◌>>◌, reads, modify, uses, call, wait, raise_if_cancelled, emit_turn,
  meddle, cancel_run,
}
use py_tui_kairo.Engine.Models.{RunSnapshot}
use py_tui_kairo.Runtime.Cancellation.{new_token}
use py_tui_kairo.Engine.Turns.Stream.{or_fail}
use py_tui_kairo.Engine.Turns.Compaction.{message_of, turn_error}
use py_tui_kairo.Engine.Turns.Plan.{plan}
use py_tui_kairo.Engine.Turns.Loop.{turn_loop}

-- `_commit`: the record, and whether it is the default session's.
abbrev saved_record : ℕ → Run → SessionRecord
saved_record now r = record {
  session_id = r.snapshot.session_id;
  name = r.snapshot.session.name;
  messages = r.history;
  created_at = r.snapshot.session.created_at;
  updated_at = now;
  compression_count = r.compression_count;
}

abbrev is_default : Option String → String → Bool
is_default none session_id = false
is_default (some default) session_id = str_eq default session_id

abbrev pub record_of : ℕ → Run → SessionRecord × Bool
record_of now r =
    (saved_record now r, is_default r.snapshot.options.default_session_id r.snapshot.session_id)

abbrev pub log_save : SessionRecord × Bool → Run → Run
log_save x r = record r { saved = r.saved ++ x ∷ [] }

unfoldable pub commit : M (Unit {0})
unfolding uses reads call or_fail modify
commit = do
  now ← uses (λ ports n. ports.now n)
  x ← reads (record_of now)
  result ← call (λ ports n. ports.save n)
  or_fail result
  modify (log_save x)

abbrev pub begin_run : ℕ → Run → Run
begin_run now r = record r { started_at = some now; status = TurnStatus.running }

abbrev pub push_user : Message → Run → Run
push_user m r = record r { history = r.history ++ m ∷ []; dirty = true }

unfoldable pub user_text : String → M String
unfolding reads plan pure
user_text text = do
  planned ← reads (λ r. r.snapshot.options.plan_mode)
  (if planned then plan text else pure text)

-- The `try` block; the fuel covers the tool rounds, the last one, the retry, and the end.
unfoldable pub body : String → M (Unit {0})
unfolding uses modify emit_turn user_text raise_if_cancelled reads turn_loop commit
body text = do
  now ← uses (λ ports n. ports.now n)
  modify (begin_run now)
  emit_turn TurnStatus.running none ""
  user ← user_text text
  raise_if_cancelled
  message_id ← uses (λ ports n. ports.fresh n)
  modify
      (push_user (message_of message_id MessageRole.user MessageKind.chat (text_block user ∷ [])))
  limit ← reads (λ r. r.snapshot.options.max_tool_rounds)
  turn_loop (limit + 3) false 0
  commit

-- `status` and `error` when the handlers are through.
abbrev pub Outcome : Type 0
Outcome = TurnStatus × Option KernelError

abbrev pub cancel_error : String → Run → KernelError
cancel_error message r =
    turn_error ErrorCode.provider_client message "turn.cancel" r.snapshot.turn_id

-- What a commit in a handler leaves of the outcome; an exception that escapes leaves what is set.
abbrev pub after_cancel : String → Run → Ended (Unit {0}) → Outcome
after_cancel message r (returned u) = (TurnStatus.cancelled, some (cancel_error message r))
after_cancel message r (raised (engine_failure e)) = (TurnStatus.failed, some e)
after_cancel message r (raised e) = (TurnStatus.cancelled, none)

abbrev pub after_fail : KernelError → Ended (Unit {0}) → Outcome
after_fail error (raised (engine_failure e)) = (TurnStatus.failed, some e)
after_fail error _ = (TurnStatus.failed, some error)

-- `if dirty: await self._commit(...)`
unfoldable pub commit_dirty : M (Unit {0})
unfolding reads commit pure
commit_dirty = do dirty ← reads (λ r. r.dirty); (if dirty then commit else pure tt)

unfoldable pub handle : Ended (Unit {0}) → Machine → Outcome × Machine
unfolding commit_dirty turn_error
handle (returned u) s = ((TurnStatus.succeeded, none), s)
handle (raised (turn_cancelled message)) s =
    let (r, s') = commit_dirty s in (after_cancel message s.run r, s')
handle (raised (engine_failure e)) s = let (r, s') = commit_dirty s in (after_fail e r, s')
handle (raised (fault message)) s =
    let (r, s') = commit_dirty s in
    (
      (
        TurnStatus.failed,
        some (
            turn_error ErrorCode.internal (append_text "Turn failed: " message) "turn.execute"
              s.run.snapshot.turn_id),
      ),
      s',
    )
handle (raised task_cancelled) s = ((TurnStatus.succeeded, none), s)

abbrev pub reason_of : Option KernelError → String
reason_of none = ""
reason_of (some e) = e.message

abbrev pub started_or : Option ℕ → ℕ → ℕ
started_or none accepted = accepted
started_or (some t) accepted = t

abbrev pub end_run : TurnStatus → ℕ → Run → Run
end_run status now r = record r {
  terminal_emitted = true;
  status = status;
  phase = none;
  finished_at = some now;
}

abbrev pub set_future : TurnStatus → String → ℕ → Run → Run
set_future status reason now r = record r {
  future = elim r.future [
    | some result ↦ some result
    | none ↦ some (record {
      turn_id = r.snapshot.turn_id;
      session_id = r.snapshot.session_id;
      status = status;
      messages = r.output_messages;
      started_at = started_or r.started_at r.snapshot.accepted_at;
      finished_at = now;
      error_message = reason;
    })
  ];
}

-- `_finish`; the RuntimeError of a closed bus is suppressed.
unfoldable pub finish : Outcome → Machine → Machine
unfolding uses modify emit_turn
finish (status, error) s =
    if s.run.terminal_emitted
    then s
    else let now = s.ports.now s.calls in
      let ended = record s { calls = suc s.calls; run = end_run status now s.run } in
      let emitted = (emit_turn status none (reason_of error) ended).1 in
      record emitted { run = set_future status (reason_of error) now emitted.run }

-- `await run.lease.release()`: other tasks may run before it returns; the run's own task is taken not to be cancelled
-- once more there.
unfoldable pub release_lease : Machine → Machine
unfolding wait
release_lease s = (wait (record s { run = record s.run { releases = s.run.releases + 1 } })).1

-- `_execute`: the body, the handlers, and `finally`.
unfoldable pub execute : String → Machine → Machine
unfolding body handle release_lease finish
execute text s =
    let (ended, s1) = body text s in
    let (outcome, s2) = handle ended s1 in finish outcome (release_lease s2)

-- A new `_Run`, with the history that `_execute` begins with.
abbrev pub new_run : RunSnapshot → Run
new_run snapshot = record {
  snapshot = snapshot;
  token = new_token;
  future = none;
  status = TurnStatus.accepted;
  phase = none;
  started_at = none;
  finished_at = none;
  turn_sequence = 0;
  terminal_emitted = false;
  input_tokens = 0;
  output_tokens = 0;
  compression_count = snapshot.session.compression_count;
  authorization_override = none;
  output_messages = [];
  history = snapshot.session.messages;
  dirty = false;
  log = [];
  requests = [];
  executions = [];
  saved = [];
  releases = 0;
}

abbrev pub start : Ports → RunSnapshot → Machine
start ports snapshot = record { ports = ports; calls = 0; run = new_run snapshot }

-- The task of a run: it may be cancelled before it begins.
unfoldable pub run_turn : Ports → RunSnapshot → Option String → String → Machine
unfolding cancel_run execute
run_turn ports snapshot early text = execute text (meddle early (start ports snapshot))
