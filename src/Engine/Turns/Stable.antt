-- ===== src/Engine/Turns/Stable.antt =====
-- The part of a run that its invariants are about, and what an invariant has to stand.
use py_tui_kairo.Common.{
  ℕ, ◌+◌, ◌≡◌, ◌⊎◌, refl, sym, subst, Bool, true, false, Option, none, some, List, [], ◌∷◌, ◌++◌,
  String, if_both,
}
use Prim.Native.String.{◌++◌ as append_text}
use py_tui_kairo.Contracts.Enums.{AuthorizationMode, EventType, TurnPhase, TurnStatus, mode_value}
use py_tui_kairo.Contracts.Content.{ContentBlock, Message}
use py_tui_kairo.Contracts.Events.{EventPayload, interaction_event, turn_event}
use py_tui_kairo.Contracts.Interactions.{InteractionRequest, InteractionResponse, grants}
use py_tui_kairo.Contracts.Tools.{ToolInvocation, ToolExecutionContext, ToolOutputChunk, ToolResult}
use py_tui_kairo.Contracts.Turns.{TurnResult}
use py_tui_kairo.Runtime.Cancellation.{cancel}
use py_tui_kairo.Runtime.Events.{Emission}
use py_tui_kairo.Engine.Models.{RunSnapshot}
use py_tui_kairo.Engine.Turns.Machine.{
  Machine, Ports, Run, Ended, pure, ◌>>=◌, reads, modify, uses, wait, others, call, meddle,
  is_terminal, emit, emit_at, emit_turn, transition, cancel_run, raise_if_cancelled, emit_usage,
  emit_message, emit_tool, or_default, emission, numbered, stats,
}
use py_tui_kairo.Engine.Turns.Approval.{corresponds}
use py_tui_kairo.Engine.Turns.Keeps.{
  Keeps, Keeps-pure, Keeps-raise, Keeps-bind, Keeps-reads, Keeps-if,
}

pub record Core : Type 0 where
  pub snapshot : RunSnapshot
  pub status : TurnStatus
  pub turn_sequence : ℕ
  pub terminal_emitted : Bool
  pub future : Option TurnResult
  pub releases : ℕ
  pub log : List Emission
  pub executions : List (ToolInvocation × ToolExecutionContext)
  pub history : List Message

abbrev pub core : Run → Core
core r = record {
  snapshot = r.snapshot;
  status = r.status;
  turn_sequence = r.turn_sequence;
  terminal_emitted = r.terminal_emitted;
  future = r.future;
  releases = r.releases;
  log = r.log;
  executions = r.executions;
  history = r.history;
}

-- No turn event with a terminal status.
abbrev pub Quiet : EventPayload → Type 0
Quiet (turn_event status phase reason) = is_terminal status ≡ false
Quiet _ = Unit

-- An event with that payload was emitted.
abbrev pub Says : EventPayload → List Emission → Type 0
Says p [] = ⊥
Says p (x ∷ xs) = (x.payload ≡ p) ⊎ Says p xs

-- The user was asked whether to execute the tool, and the run went on with a response that matches the request, names
-- an action that it offered, and grants it.
abbrev pub Granted : String → List Emission → Type 0
Granted name log =
    (q : InteractionRequest) × (r : InteractionResponse) × (q.prompt
      ≡ append_text "Execute tool '" (append_text name "'?"))
    × (corresponds q r ≡ true)
    × (grants r.action ≡ true)
    × Says (interaction_event "requested" (some q) none none) log
    × Says (interaction_event "resolved" none (some r) none) log

-- The call may be executed: under a mode that the policy allows for its scope, or with the user's consent.
abbrev pub Allowed : Ports → List Emission → ToolInvocation → AuthorizationMode → Type 0
Allowed ports log i mode = (ports.authorizes mode i.scope ≡ true) ⊎ Granted i.name log

pub record Stable (P : Ports → Core → Type 0) : Type 0 where
  pub live : (p : Ports) (c : Core) → P p c → is_terminal c.status ≡ false
  pub status_set :
      (p : Ports) (c : Core) (status : TurnStatus)
      → is_terminal status ≡ false
      → P p c
      → P p (record c { status = status })
  pub counted :
      (p : Ports) (c : Core) → P p c → P p (record c { turn_sequence = c.turn_sequence + 1 })
  pub emitted :
      (p : Ports) (c : Core) (x : Emission)
      → x.turn_sequence ≡ some (c.turn_sequence + 1)
      → Quiet x.payload
      → P p c
      → P p (record c { turn_sequence = c.turn_sequence + 1; log = c.log ++ x ∷ [] })
  pub executed :
      (p : Ports) (c : Core) (i : ToolInvocation) (context : ToolExecutionContext)
      (mode : AuthorizationMode)
      → context.authorization_mode ≡ mode_value mode
      → Allowed p c.log i mode
      → P p c
      → P p (record c { executions = c.executions ++ (i, context) ∷ [] })

-- An invariant that is not about the history.
pub record Loose (P : Ports → Core → Type 0) : Type 0 where
  pub rewritten :
      (p : Ports) (c : Core) (ms : List Message) → P p c → P p (record c { history = ms })

-- `P` of a machine.
pub record At (P : Ports → Core → Type 0) (s : Machine) : Type 0 where
  pub holds : P s.ports (core s.run)

module _ {P : Ports → Core → Type 0} ⦃st : Stable P⦄ where
  pub emit-At : (t : EventType) (p : EventPayload) → Quiet p → Keeps (At P) (emit t p)
  unfolding emit emit_at
  emit-At t p q = record {
    at = λ s h.
        if_both (λ (x : Ended (Unit {0}) × Machine). At P x.1) (s.ports.bus_closed s.calls)
          (λ _. record { holds = st.counted s.ports (core s.run) h.holds })
          (λ _. record {
            holds =
                st.emitted s.ports (core s.run) (emission t p s.calls s.ports (numbered s.run)) refl
                  q h.holds;
          });
  }

  pub emit_turn-At :
      (status : TurnStatus) (phase : Option TurnPhase) (reason : String)
      → is_terminal status ≡ false
      → Keeps (At P) (emit_turn status phase reason)
  unfolding emit_turn
  emit_turn-At status phase reason q = emit-At EventType.turn (turn_event status phase reason) q

  pub modify-At : (f : Run → Run) → ((r : Run) → core (f r) ≡ core r) → Keeps (At P) (modify f)
  unfolding modify
  modify-At f q = record {
    at = λ s h. record { holds = subst (P s.ports) (sym (q s.run)) h.holds };
  }

  pub rewrite-At :
      ⦃loose : Loose P⦄ (f : Run → Run)
      → ((r : Run) → core (f r) ≡ record (core r) { history = (f r).history })
      → Keeps (At P) (modify f)
  unfolding modify
  rewrite-At ⦃loose = loose⦄ f q = record {
    at = λ s h. record {
      holds =
          subst (P s.ports) (sym (q s.run))
            (loose.rewritten s.ports (core s.run) (f s.run).history h.holds);
    };
  }

  pub transition-At : (phase : TurnPhase) → Keeps (At P) (transition phase)
  unfolding transition reads modify ◌>>=◌
  transition-At phase = record {
    at = λ s h.
        (emit_turn-At s.run.status (some phase) "" (st.live s.ports (core s.run) h.holds)).at
          (record s { run = record s.run { phase = some phase } }) (record { holds = h.holds });
  }

  pub uses-At : {A : Type 0} (f : Ports → ℕ → A) → Keeps (At P) (uses f)
  unfolding uses
  uses-At f = record { at = λ s h. record { holds = h.holds } }

  -- Another task's `cancel` keeps the invariant, whichever of its ends it comes to.
  cancel_run-At : (reason : String) (s : Machine) → At P s → At P (cancel_run reason s).1
  unfolding cancel_run cancel ◌>>=◌
  cancel_run-At reason s h =
      let R = λ (x : Ended (Bool × Bool) × Machine). At P x.1 in
      let reason' = or_default reason "Turn cancellation requested." in
      if_both R (is_terminal s.run.status) (λ _. h)
        (λ _.
          if_both R (cancel reason' s.run.token).1
            (λ _.
              (Keeps-bind
                  (emit_turn TurnStatus.stopping s.run.phase
                    (or_default reason "Cancellation requested."))
                  (λ _. pure (true, false)) (emit_turn-At TurnStatus.stopping s.run.phase _ refl)
                  (λ _. Keeps-pure (true, false))).at
                (record s {
                  run = record s.run {
                    token = (cancel reason' s.run.token).0;
                    status = TurnStatus.stopping;
                  };
                })
                (record {
                  holds = st.status_set s.ports (core s.run) TurnStatus.stopping refl h.holds;
                }))
            (λ _. h))

  pub meddle-At : (o : Option String) (s : Machine) → At P s → At P (meddle o s)
  meddle-At none s h = h
  meddle-At (some reason) s h = cancel_run-At reason s h

  pub wait-At : Keeps (At P) wait
  unfolding wait
  wait-At = record {
    at = λ s h. meddle-At (s.ports.cancels s.calls) _ (record { holds = h.holds });
  }

  pub others-At : Keeps (At P) others
  unfolding others
  others-At = record {
    at = λ s h. meddle-At (s.ports.cancels s.calls) _ (record { holds = h.holds });
  }

  pub call-At : {A : Type 0} (f : Ports → ℕ → A) → Keeps (At P) (call f)
  unfolding call
  call-At f = record { at = λ s h. wait-At.at s h }

  pub raise_if_cancelled-At : Keeps (At P) raise_if_cancelled
  unfolding raise_if_cancelled
  raise_if_cancelled-At = record {
    at = λ s h.
        if_both (λ (x : Ended (Unit {0}) × Machine). At P x.1) s.run.token.cancelled (λ _. h)
          (λ _. h);
  }

  pub emit_usage-At : (used : ℕ) → Keeps (At P) (emit_usage used)
  unfolding emit_usage
  emit_usage-At used = record {
    at = λ s h.
        (emit-At EventType.usage (EventPayload.usage_event (stats used s.ports s.run)) tt).at s h;
  }

  pub emit_message-At :
      (m action : String) (content : List ContentBlock)
      → Keeps (At P) (emit_message m action content)
  unfolding emit_message
  emit_message-At m action content =
      emit-At EventType.message (EventPayload.message_event m action content) tt

  pub emit_tool-At :
      (action : String) (i : ToolInvocation) (o : Option ToolOutputChunk) (r : Option ToolResult)
      → Keeps (At P) (emit_tool action i o r)
  unfolding emit_tool
  emit_tool-At action i o r =
      emit-At EventType.tool (EventPayload.tool_event action (some i) o r) tt

  pub emit_interaction-At :
      (action : String) (q : Option InteractionRequest) (r : Option InteractionResponse)
      (i : Option String)
      → Keeps (At P) (emit EventType.interaction (interaction_event action q r i))
  emit_interaction-At action q r i =
      emit-At EventType.interaction (interaction_event action q r i) tt

  pub emit_change-At :
      (t : EventType) (n : ℕ) (subject summary : String)
      → Keeps (At P) (emit t (EventPayload.change_event n subject summary))
  emit_change-At t n subject summary = emit-At t (EventPayload.change_event n subject summary) tt

pub ruleset at_rules = (
  Keeps-pure, Keeps-raise, Keeps-reads, Keeps-if, Keeps-bind, emit_turn-At, transition-At, uses-At,
  wait-At, others-At, call-At, raise_if_cancelled-At, emit_usage-At, emit_message-At, emit_tool-At,
  emit_interaction-At, emit_change-At,
)
