-- ===== src/Engine/Turns/Ending.antt =====
-- How a run of the engine ends.
use py_tui_kairo.Common.{
  ℕ, suc, ◌+◌, ◌≡◌, ◌⊎◌, inl, inr, refl, sym, ap, ◌∙◌, subst, true, false, Option, none, some, List,
  [], ◌∷◌, ◌++◌, String, All, if_both, arith,
}
use mathlib.Core.Bool.{true≢false}
use py_tui_kairo.Contracts.Enums.{EventType, TurnStatus}
use py_tui_kairo.Contracts.Errors.{KernelError}
use py_tui_kairo.Contracts.Events.{turn_event}
use py_tui_kairo.Contracts.Turns.{TurnResult}
use py_tui_kairo.Runtime.Events.{Emission}
use py_tui_kairo.Engine.Models.{RunSnapshot}
use py_tui_kairo.Engine.Turns.Machine.{
  Machine, Ports, Run, Ended, returned, raised, turn_cancelled, engine_failure, fault,
  task_cancelled, is_terminal, emit, emit_at, emit_turn, meddle, emission, numbered,
}
use py_tui_kairo.Engine.Turns.Stable.{At, Quiet, wait-At, meddle-At}
use py_tui_kairo.Engine.Turns.Sound.{
  Sound, Sound-Stable, Sound-Loose, Ascending, Ascending-more, Ascending-append, Permitted,
  All-Permitted-append,
}
use py_tui_kairo.Engine.Turns.Rounds.{body-At, handle-At}
use py_tui_kairo.Engine.Turns.Execute.{
  Outcome, body, handle, after_cancel, after_fail, commit_dirty, end_run, set_future, finish,
  release_lease, reason_of, started_or, execute, start, run_turn,
}

-- The events of a turn are those of its course, and then at most one that says how it ended.
abbrev pub Concluded : TurnStatus → List Emission → Type 0
Concluded status log =
    (events : List Emission) × All (λ (x : Emission). Quiet x.payload) events
    × ((log ≡ events)
        ⊎ ((x : Emission) × (reason : String) × (log ≡ events ++ x ∷ [])
            × (x.payload ≡ turn_event status none reason)))

-- The result that `wait` gives out.
abbrev pub Resolved : Run → Type 0
Resolved r =
    (result : TurnResult) × (r.future ≡ some result)
    × (result.status ≡ r.status)
    × (result.turn_id ≡ r.snapshot.turn_id)
    × (result.messages ≡ r.output_messages)

record Finished (ports : Ports) (s : Machine) : Type 0 where
  released : s.run.releases ≡ 1
  ended : s.run.terminal_emitted ≡ true
  over : is_terminal s.run.status ≡ true
  resolved : Resolved s.run
  concluded : Concluded s.run.status s.run.log
  ascending : Ascending 0 s.run.turn_sequence s.run.log
  permitted : All (Permitted ports s.run.log) s.run.executions

set_future-Resolved :
    (status : TurnStatus) (reason : String) (now : ℕ) (r : Run)
    → r.future ≡ none
    → r.status ≡ status
    → Resolved (set_future status reason now r)
set_future-Resolved status reason now r q e = (
  record {
    turn_id = r.snapshot.turn_id;
    session_id = r.snapshot.session_id;
    status = status;
    messages = r.output_messages;
    started_at = started_or r.started_at r.snapshot.accepted_at;
    finished_at = now;
    error_message = reason;
  },
  ap
      (λ o. elim o [
        | some result ↦ some result
        | none ↦ some (record {
          turn_id = r.snapshot.turn_id;
          session_id = r.snapshot.session_id;
          status = status;
          messages = r.output_messages;
          started_at = started_or r.started_at r.snapshot.accepted_at;
          finished_at = now;
          error_message = reason;
        })
      ])
      q,
  sym e,
  refl,
  refl,
)

finish-Finished :
    (ports : Ports) (status : TurnStatus) (error : Option KernelError) (s : Machine)
    → is_terminal status ≡ true
    → At (Sound 1 ports) s
    → Finished ports (finish (status, error) s)
unfolding finish emit_turn emit emit_at
finish-Finished ports status error s t h =
    let now = s.ports.now s.calls in
    let r = end_run status now s.run in
    if_both (Finished ports) s.run.terminal_emitted
      (λ e. absurd (true≢false (sym e ∙ h.holds.unfinished)))
      (λ e.
        if_both
          (λ (x : Ended (Unit {0}) × Machine).
            Finished ports (record x.1 { run = set_future status (reason_of error) now x.1.run }))
          (s.ports.bus_closed (suc s.calls))
          (λ b. record {
            released = h.holds.released;
            ended = refl;
            over = t;
            resolved =
                set_future-Resolved status (reason_of error) now (numbered r) h.holds.unset refl;
            concluded = (s.run.log, h.holds.quiet, inl refl);
            ascending = Ascending-more 0 s.run.turn_sequence s.run.log h.holds.ascending;
            permitted =
                subst (λ p. All (Permitted p s.run.log) s.run.executions) h.holds.same
                  h.holds.permitted;
          })
          (λ b.
            let x =
              emission EventType.turn (turn_event status none (reason_of error)) (suc s.calls)
                s.ports (numbered r) in
            record {
              released = h.holds.released;
              ended = refl;
              over = t;
              resolved =
                  set_future-Resolved status (reason_of error) now
                    (record (numbered r) { log = s.run.log ++ x ∷ [] }) h.holds.unset refl;
              concluded = (s.run.log, h.holds.quiet, inr (x, reason_of error, refl, refl));
              ascending = Ascending-append 0 s.run.turn_sequence s.run.log x refl h.holds.ascending;
              permitted = All-Permitted-append ports s.run.log x s.run.executions (
                  subst (λ p. All (Permitted p s.run.log) s.run.executions) h.holds.same
                    h.holds.permitted);
            }))

after_cancel-terminal :
    (m : String) (r : Run) (e : Ended (Unit {0})) → is_terminal (after_cancel m r e).0 ≡ true
after_cancel-terminal m r (returned u) = refl
after_cancel-terminal m r (raised (engine_failure e)) = refl
after_cancel-terminal m r (raised (turn_cancelled x)) = refl
after_cancel-terminal m r (raised (fault x)) = refl
after_cancel-terminal m r (raised task_cancelled) = refl

after_fail-terminal :
    (error : KernelError) (e : Ended (Unit {0})) → is_terminal (after_fail error e).0 ≡ true
after_fail-terminal error (returned u) = refl
after_fail-terminal error (raised (engine_failure e)) = refl
after_fail-terminal error (raised (turn_cancelled x)) = refl
after_fail-terminal error (raised (fault x)) = refl
after_fail-terminal error (raised task_cancelled) = refl

handle-terminal : (e : Ended (Unit {0})) (s : Machine) → is_terminal (handle e s).0.0 ≡ true
unfolding handle
handle-terminal (returned u) s = refl
handle-terminal (raised (turn_cancelled m)) s = after_cancel-terminal m s.run (commit_dirty s).0
handle-terminal (raised (engine_failure e)) s = after_fail-terminal e (commit_dirty s).0
handle-terminal (raised (fault m)) s = refl
handle-terminal (raised task_cancelled) s = refl

release_lease-At :
    (ports : Ports) (s : Machine) → At (Sound 0 ports) s → At (Sound 1 ports) (release_lease s)
unfolding release_lease
release_lease-At ports s h =
    wait-At.at (record s { run = record s.run { releases = s.run.releases + 1 } })
      (record {
        holds = record {
          same = h.holds.same;
          live = h.holds.live;
          unfinished = h.holds.unfinished;
          unset = h.holds.unset;
          released = ap (λ n. n + 1) h.holds.released;
          quiet = h.holds.quiet;
          ascending = h.holds.ascending;
          permitted = h.holds.permitted;
        };
      })

execute-Finished :
    (ports : Ports) (text : String) (s : Machine)
    → At (Sound 0 ports) s
    → Finished ports (execute text s)
unfolding execute
execute-Finished ports text s h =
    let (ended, s1) = body text s in
    let (outcome, s2) = handle ended s1 in
    finish-Finished ports outcome.0 outcome.1 (release_lease s2) (handle-terminal ended s1)
      (release_lease-At ports s2 (handle-At ended s1 ((body-At text).at s h)))

start-Sound : (ports : Ports) (snapshot : RunSnapshot) → At (Sound 0 ports) (start ports snapshot)
start-Sound ports snapshot = record {
  holds = record {
    same = refl;
    live = refl;
    unfinished = refl;
    unset = refl;
    released = refl;
    quiet = tt;
    ascending = omega arith;
    permitted = tt;
  };
}

run_turn-Finished :
    (ports : Ports) (snapshot : RunSnapshot) (early : Option String) (text : String)
    → Finished ports (run_turn ports snapshot early text)
unfolding run_turn
run_turn-Finished ports snapshot early text =
    execute-Finished ports text (meddle early (start ports snapshot))
      (meddle-At early (start ports snapshot) (start-Sound ports snapshot))

-- Whatever the ports answer or raise, wherever the turn or its task is cancelled, and also when the bus is closed: a
-- turn that was begun releases its lease exactly once, ends with a terminal status and a result under that status with
-- the messages that it put out, and its events, numbered upwards, are those of its course and after them at most one
-- that says that the turn ended, with that status.
pub ends_once :
    (ports : Ports) (snapshot : RunSnapshot) (early : Option String) (text : String)
    → let s = run_turn ports snapshot early text in
      (s.run.releases ≡ 1)
      × (is_terminal s.run.status ≡ true)
      × Resolved s.run
      × Concluded s.run.status s.run.log
      × Ascending 0 s.run.turn_sequence s.run.log
ends_once ports snapshot early text =
    let f = run_turn-Finished ports snapshot early text in
    (f.released, f.over, f.resolved, f.concluded, f.ascending)

-- Every tool that a turn executes, it executes with a mode for which the policy authorizes the call's scope, or after
-- the user was asked to execute that tool and answered the request with an offered action that grants it.
pub run_turn-Permitted :
    (ports : Ports) (snapshot : RunSnapshot) (early : Option String) (text : String)
    → let s = run_turn ports snapshot early text in All (Permitted ports s.run.log) s.run.executions
run_turn-Permitted ports snapshot early text =
    (run_turn-Finished ports snapshot early text).permitted

finish-status :
    (outcome : Outcome) (s : Machine)
    → s.run.terminal_emitted ≡ false
    → (finish outcome s).run.status ≡ outcome.0
unfolding finish emit_turn emit emit_at
finish-status outcome s e =
    let now = s.ports.now s.calls in
    let Is = λ (x : Machine). x.run.status ≡ outcome.0 in
    if_both Is s.run.terminal_emitted (λ b. absurd (true≢false (sym b ∙ e)))
      (λ b.
        if_both
          (λ (x : Ended (Unit {0}) × Machine).
            Is (record x.1 { run = set_future outcome.0 (reason_of outcome.1) now x.1.run }))
          (s.ports.bus_closed (suc s.calls)) (λ c. refl) (λ c. refl))

handle-task_cancelled :
    (e : Ended (Unit {0})) (s : Machine)
    → e ≡ raised task_cancelled
    → (handle e s).0.0 ≡ TurnStatus.succeeded
unfolding handle
handle-task_cancelled e s q = subst (λ e. (handle e s).0.0 ≡ TurnStatus.succeeded) (sym q) refl

-- A turn whose own task is cancelled at an await, so that CancelledError leaves the body, is reported as succeeded.
pub cancelled_task_succeeds :
    (ports : Ports) (snapshot : RunSnapshot) (text : String)
    → (body text (start ports snapshot)).0 ≡ raised task_cancelled
    → (run_turn ports snapshot none text).run.status ≡ TurnStatus.succeeded
unfolding run_turn execute
cancelled_task_succeeds ports snapshot text q =
    let (ended, s1) = body text (start ports snapshot) in
    let (outcome, s2) = handle ended s1 in
    let h1 =
      (body-At {P = Sound 0 ports} text).at (start ports snapshot) (start-Sound ports snapshot) in
    finish-status outcome (release_lease s2)
      (release_lease-At ports s2 (handle-At ended s1 h1)).holds.unfinished
    ∙ handle-task_cancelled ended s1 q
