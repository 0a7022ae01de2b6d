-- ===== src/Engine/Turns/Rounds.antt =====
-- Planning, the rounds and the commit keep what a run's invariants are about.
use py_tui_kairo.Common.{ℕ, zero, suc, refl, Bool, Option, none, some, List, [], ◌∷◌, String}
use py_tui_kairo.Contracts.Enums.{InteractionAction, InteractionKind, TurnStatus}
use py_tui_kairo.Contracts.Content.{Message}
use py_tui_kairo.Contracts.Interactions.{InteractionChoice}
use py_tui_kairo.Contracts.Providers.{ProviderFailure, SessionRecord, ToolCall}
use py_tui_kairo.Engine.Turns.Machine.{
  M, Machine, Ports, Ended, returned, raised, turn_cancelled, engine_failure, fault, task_cancelled,
  modify, uses,
}
use py_tui_kairo.Engine.Turns.Keeps.{Keeps, Keeps-bind, Keeps-reads, Keeps-if}
use py_tui_kairo.Engine.Turns.Stable.{
  Core, core, Stable, Loose, At, modify-At, rewrite-At, uses-At, at_rules,
}
use py_tui_kairo.Engine.Turns.Steady.{
  provider_round-At, check_round-At, fail-At, compact-At, or_fail-At,
}
use py_tui_kairo.Engine.Turns.Invoke.{execute_tool-At}
use py_tui_kairo.Engine.Turns.Stream.{StreamResult}
use py_tui_kairo.Engine.Turns.Approval.{new_request, request_interaction}
use py_tui_kairo.Engine.Turns.Plan.{plan, plan_answer, submit_plan, push_output}
use py_tui_kairo.Engine.Turns.Loop.{
  tool_message, stopped_message, Round, breaks, again, set_history, push, stop_with, run_calls,
  after_reply, after_stream, after_failure, after_end, after_round, round, next_round, turn_loop,
}
use py_tui_kairo.Engine.Turns.Execute.{
  log_save, commit, begin_run, push_user, user_text, body, commit_dirty, handle,
}

module _ {P : Ports → Core → Type 0} ⦃st : Stable P⦄ where
  new_request-At :
      (kind : InteractionKind) (prompt : String) (choices : List InteractionChoice)
      (default : InteractionAction)
      → Keeps (At P) (new_request kind prompt choices default)
  unfolding new_request uses
  new_request-At kind prompt choices default = record { at = λ s h. record { holds = h.holds } }

  request_interaction-At :
      (kind : InteractionKind) (prompt : String) (choices : List InteractionChoice)
      (default : InteractionAction)
      → Keeps (At P) (request_interaction kind prompt choices default)
  unfolding request_interaction
  request_interaction-At kind prompt choices default = search (at_rules, new_request-At) depth 12

  plan_answer-At :
      (user text : String) (action : InteractionAction)
      → Keeps (At P) (plan_answer user text action)
  unfolding plan_answer
  plan_answer-At user text InteractionAction.approve_once = search at_rules
  plan_answer-At user text InteractionAction.submit_text = search at_rules
  plan_answer-At user text _ = search at_rules

  push_output-At : (m : Message) → Keeps (At P) (modify (push_output m))
  push_output-At m = modify-At (push_output m) (λ r. refl)

  submit_plan-At : (user : String) (r : StreamResult) → Keeps (At P) (submit_plan user r)
  unfolding submit_plan
  submit_plan-At user r =
      search (at_rules, push_output-At, request_interaction-At, plan_answer-At) depth 12

  plan-At : (user : String) → Keeps (At P) (plan user)
  unfolding plan
  plan-At user =
      search (at_rules, provider_round-At, check_round-At, fail-At, submit_plan-At) depth 16

module _ {P : Ports → Core → Type 0} ⦃st : Stable P⦄ ⦃loose : Loose P⦄ where
  pub push-At : (m : Message) → Keeps (At P) (modify (push m))
  push-At m = rewrite-At (push m) (λ r. refl)

  pub set_history-At : (ms : List Message) → Keeps (At P) (modify (set_history ms))
  set_history-At ms = rewrite-At (set_history ms) (λ r. refl)

  pub stop_with-At : (m : Message) (text : String) → Keeps (At P) (stop_with m text)
  unfolding stop_with
  stop_with-At m text = search (at_rules, push-At)

  pub run_calls-At : (cs : List ToolCall) → Keeps (At P) (run_calls cs)
  unfolding run_calls
  run_calls-At [] = search at_rules
  run_calls-At (c ∷ cs) = Keeps-bind _ _ (execute_tool-At c) λ result.
      Keeps-bind _ _ (uses-At (λ ports n. ports.fresh n)) λ message_id.
        Keeps-bind _ _ (push-At (tool_message message_id result)) λ u.
          Keeps-bind _ _ (Keeps-reads (λ r. r.token.cancelled)) λ stopped.
            Keeps-bind _ _ (uses-At (λ ports n. ports.fresh n)) λ partial_id.
              Keeps-if stopped _ _
                (stop_with-At (stopped_message partial_id) "Task stopped after tool completion.")
                (run_calls-At cs)

  after_reply-At : (used : Bool) (n : ℕ) (r : StreamResult) → Keeps (At P) (after_reply used n r)
  unfolding after_reply
  after_reply-At used n r = search (at_rules, fail-At, run_calls-At) depth 12

  after_stream-At : (used : Bool) (n : ℕ) (r : StreamResult) → Keeps (At P) (after_stream used n r)
  unfolding after_stream
  after_stream-At used n r = search (at_rules, push-At, after_reply-At)

  after_failure-At :
      (used : Bool) (n : ℕ) (f : ProviderFailure) → Keeps (At P) (after_failure used n f)
  unfolding after_failure
  after_failure-At used n f = search (at_rules, compact-At, set_history-At) depth 16

  after_end-At :
      (used : Bool) (n : ℕ) (r : StreamResult) (o : Option ProviderFailure)
      → Keeps (At P) (after_end used n r o)
  unfolding after_end
  after_end-At used n r none = after_stream-At used n r
  after_end-At used n r (some f) = after_failure-At used n f

  after_round-At : (used : Bool) (n : ℕ) (r : StreamResult) → Keeps (At P) (after_round used n r)
  unfolding after_round
  after_round-At used n r = search (at_rules, stop_with-At, after_end-At)

  pub round-At : (used : Bool) (n : ℕ) → Keeps (At P) (round used n)
  unfolding round
  round-At used n =
      search (at_rules, compact-At, set_history-At, provider_round-At, after_round-At) depth 16

  next_round-At :
      (k : Bool → ℕ → M Bool) (r : Round)
      → ((used : Bool) (n : ℕ) → Keeps (At P) (k used n))
      → Keeps (At P) (next_round k r)
  next_round-At k breaks h = search at_rules
  next_round-At k (again used n) h = h used n

  turn_loop-At : (fuel : ℕ) (used : Bool) (n : ℕ) → Keeps (At P) (turn_loop fuel used n)
  unfolding turn_loop
  turn_loop-At zero used n = search at_rules
  turn_loop-At (suc fuel) used n = search (at_rules, round-At, next_round-At, turn_loop-At fuel)

  log_save-At : (x : SessionRecord × Bool) → Keeps (At P) (modify (log_save x))
  log_save-At x = modify-At (log_save x) (λ r. refl)

  commit-At : Keeps (At P) commit
  unfolding commit
  commit-At = search (at_rules, or_fail-At, log_save-At) depth 16

  begin_run-At : (now : ℕ) → Keeps (At P) (modify (begin_run now))
  unfolding modify
  begin_run-At now = record {
    at = λ s h. record {
      holds = st.status_set s.ports (core s.run) TurnStatus.running refl h.holds;
    };
  }

  user_text-At : (text : String) → Keeps (At P) (user_text text)
  unfolding user_text
  user_text-At text = search (at_rules, plan-At)

  push_user-At : (m : Message) → Keeps (At P) (modify (push_user m))
  push_user-At m = rewrite-At (push_user m) (λ r. refl)

  pub body-At : (text : String) → Keeps (At P) (body text)
  unfolding body
  body-At text =
      search (at_rules, begin_run-At, user_text-At, push_user-At, turn_loop-At, commit-At) depth 24

  commit_dirty-At : Keeps (At P) commit_dirty
  unfolding commit_dirty
  commit_dirty-At = search (at_rules, commit-At)

  pub handle-At : (e : Ended (Unit {0})) (s : Machine) → At P s → At P (handle e s).1
  unfolding handle
  handle-At (returned u) s h = h
  handle-At (raised (turn_cancelled m)) s h = commit_dirty-At.at s h
  handle-At (raised (engine_failure e)) s h = commit_dirty-At.at s h
  handle-At (raised (fault m)) s h = commit_dirty-At.at s h
  handle-At (raised task_cancelled) s h = h
