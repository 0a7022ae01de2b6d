-- ===== src/Engine/Turns/Answers.antt =====
-- The tool calls of a round and the messages that answer them.
use py_tui_kairo.Common.{
  ◌≡◌, ◌⊎◌, inl, inr, refl, sym, ap, ◌∙◌, Bool, true, false, List, [], ◌∷◌, ◌++◌, append_assoc,
  append-nil, String,
}
use py_tui_kairo.Contracts.Content.{Message}
use py_tui_kairo.Contracts.Providers.{ToolCall}
use py_tui_kairo.Contracts.Tools.{ToolResult}
use py_tui_kairo.Engine.Turns.Machine.{Machine, Ports, turn_cancelled, modify, is_terminal}
use py_tui_kairo.Engine.Turns.Keeps.{Keeps-reads}
use py_tui_kairo.Engine.Turns.Stable.{Core, Stable, At, uses-At, emit_message-At}
use py_tui_kairo.Engine.Turns.Ensures.{
  After, Ensures, Ensures-bind, Ensures-fact, Ensures-map, Ensures-pure, Ensures-raise, Ensures-if,
  Keeps-Ensures,
}
use py_tui_kairo.Engine.Turns.Invoke.{execute_tool-At}
use py_tui_kairo.Engine.Turns.Results.{Of, Ensures-yields, execute_tool-Of}
use py_tui_kairo.Engine.Turns.Loop.{push, tool_message, stopped_message, stop_with, run_calls}

-- A message that answers the call.
abbrev pub Answer : ToolCall → Message → Type 0
Answer c m =
    (result : ToolResult) × (message_id : String) × (m ≡ tool_message message_id result)
    × Of c result

-- The messages answer the calls, one each and in order.
abbrev pub Answers : List ToolCall → List Message → Type 0
Answers [] [] = Unit
Answers (c ∷ cs) (m ∷ ms) = Answer c m × Answers cs ms
Answers _ _ = ⊥

-- The messages answer the first of the calls; after them there may be one that says that the turn was stopped.
abbrev pub Begun : List ToolCall → List Message → Type 0
Begun cs ms =
    (done : List ToolCall) × (rest : List ToolCall) × (answers : List Message) × (cs ≡ done ++ rest)
    × Answers done answers
    × ((ms ≡ answers) ⊎ ((message_id : String) × (ms ≡ answers ++ stopped_message message_id ∷ [])))

-- A run in progress with that history.
record History (ms : List Message) (p : Ports) (c : Core) : Type 0 where
  same : c.history ≡ ms
  live : is_terminal c.status ≡ false

instance History-Stable : {ms : List Message} → Stable (History ms)
History-Stable = record {
  live = λ p c h. h.live;
  status_set = λ p c status q h. record { same = h.same; live = q };
  counted = λ p c h. record { same = h.same; live = h.live };
  emitted = λ p c x n q h. record { same = h.same; live = h.live };
  executed = λ p c i context mode m a h. record { same = h.same; live = h.live };
}

-- The history was extended by messages of that kind.
abbrev pub Extends : List Message → (List Message → Type 0) → Machine → Type 0
Extends before Q s = (ms : List Message) × (s.run.history ≡ before ++ ms) × Q ms

push-Ensures :
    {R : Machine → Type 0} (before : List Message) (m : Message)
    → Ensures (At (History before)) (modify (push m)) (λ u. At (History (before ++ m ∷ []))) R
unfolding modify
push-Ensures before m = record {
  at = λ s h. record {
    holds = record { same = ap (λ ms. ms ++ m ∷ []) h.holds.same; live = h.holds.live };
  };
}

Begun-none :
    (cs : List ToolCall) (before : List Message) (s : Machine)
    → At (History before) s
    → Extends before (Begun cs) s
Begun-none cs before s h =
    ([], h.holds.same ∙ sym (append-nil before), ([], cs, [], refl, tt, inl refl))

-- The message that says that the turn was stopped, after the answer to a call.
abbrev Stopped : List Message → String → Machine → Type 0
Stopped before message_id s =
    (s.run.history ≡ before) ⊎ (s.run.history ≡ before ++ stopped_message message_id ∷ [])

stop_with-Stopped :
    {Q : Bool → Machine → Type 0} (before : List Message) (message_id text : String)
    → Ensures
        (At (History before))
        (stop_with (stopped_message message_id) text)
        Q
        (Stopped before message_id)
unfolding stop_with
stop_with-Stopped before message_id text =
    Ensures-bind _ _
      (Ensures-map _ (Keeps-Ensures _ (Keeps-reads (λ r. r.snapshot.options.stop_saves_partial)))
        (λ a s h. h) (λ s h. inl h.holds.same))
      λ saves.
        Ensures-bind {Q = λ u s. Stopped before message_id s} _ _
          (Ensures-if saves _ _
            (λ e. Ensures-bind _ _ (push-Ensures before (stopped_message message_id)) λ u.
              Ensures-map _
                (Keeps-Ensures _
                  (emit_message-At message_id "completed" (stopped_message message_id).content))
                (λ a s h. inr h.holds.same) (λ s h. inr h.holds.same))
            (λ e. Ensures-pure tt (λ s h. inl h.holds.same)))
          λ u. Ensures-raise (turn_cancelled text) (λ s h. h)

module _ (c : ToolCall) (cs : List ToolCall) (before : List Message) (m : Message)
    (answer : Answer c m) (s : Machine) where
  Answers-more : Extends (before ++ m ∷ []) (Answers cs) s → Extends before (Answers (c ∷ cs)) s
  Answers-more (ms, e, q) = (m ∷ ms, e ∙ append_assoc before (m ∷ []) ms, (answer, q))

  Begun-more : Extends (before ++ m ∷ []) (Begun cs) s → Extends before (Begun (c ∷ cs)) s
  Begun-more (ms, e, (done, rest, answers, q, a, x)) = (
    m ∷ ms,
    e ∙ append_assoc before (m ∷ []) ms,
    (
      c ∷ done,
      rest,
      m ∷ answers,
      ap (λ ds. c ∷ ds) q,
      (answer, a),
      elim x [ inl y ↦ inl (ap (λ ns. m ∷ ns) y) | inr y ↦ inr (y.0, ap (λ ns. m ∷ ns) y.1) ],
    ),
  )

  Begun-Stopped :
      (message_id : String)
      → Stopped (before ++ m ∷ []) message_id s
      → Extends before (Begun (c ∷ cs)) s
  Begun-Stopped message_id (inl e) = (m ∷ [], e, (c ∷ [], cs, m ∷ [], refl, (answer, tt), inl refl))
  Begun-Stopped message_id (inr e) = (
    m ∷ stopped_message message_id ∷ [],
    e ∙ append_assoc before (m ∷ []) (stopped_message message_id ∷ []),
    (c ∷ [], cs, m ∷ [], refl, (answer, tt), inr (message_id, refl)),
  )

run_calls-Ensures :
    (cs : List ToolCall) (before : List Message)
    → Ensures
        (At (History before))
        (run_calls cs)
        (λ b. Extends before (Answers cs))
        (Extends before (Begun cs))
unfolding run_calls
run_calls-Ensures [] before =
    Ensures-pure true (λ s h. ([], h.holds.same ∙ sym (append-nil before), tt))
run_calls-Ensures (c ∷ cs) before =
    Ensures-bind _ _
      (Ensures-map _ (Ensures-yields _ (execute_tool-At c) (execute_tool-Of c)) (λ r s h. h)
        (Begun-none (c ∷ cs) before))
      λ result. Ensures-fact _ λ q.
        Ensures-bind _ _
          (Ensures-map _ (Keeps-Ensures _ (uses-At (λ ports n. ports.fresh n))) (λ r s h. h)
            (Begun-none (c ∷ cs) before))
          λ message_id.
            let m = tool_message message_id result in
            let answer : Answer c m = (result, message_id, refl, q) in
            Ensures-bind _ _ (push-Ensures before m) λ u.
              Ensures-bind _ _
                (Ensures-map _ (Keeps-Ensures _ (Keeps-reads (λ r. r.token.cancelled))) (λ r s h. h)
                  (λ s h. Begun-Stopped c cs before m answer s "" (inl h.holds.same)))
                λ stopped.
                  Ensures-bind _ _
                    (Ensures-map _ (Keeps-Ensures _ (uses-At (λ ports n. ports.fresh n)))
                      (λ r s h. h)
                      (λ s h. Begun-Stopped c cs before m answer s "" (inl h.holds.same)))
                    λ partial_id.
                      Ensures-if stopped _ _
                        (λ e.
                          Ensures-map _
                            (stop_with-Stopped (before ++ m ∷ []) partial_id
                              "Task stopped after tool completion.")
                            (λ b s h. h) (λ s h. Begun-Stopped c cs before m answer s partial_id h))
                        (λ e.
                          Ensures-map _ (run_calls-Ensures cs (before ++ m ∷ []))
                            (λ b s h. Answers-more c cs before m answer s h)
                            (λ s h. Begun-more c cs before m answer s h))

-- In a run that is not over, the tool calls of a round are answered in order: when all of them have been, the history
-- was extended by one tool message for each call, with that call's id and name; when an exception ends them, it was
-- extended by such messages for the first of the calls, and at most one more that says that the turn was stopped.
pub run_calls-Answers :
    (cs : List ToolCall) (s : Machine)
    → is_terminal s.run.status ≡ false
    → After
        (λ b. Extends s.run.history (Answers cs))
        (Extends s.run.history (Begun cs))
        (run_calls cs s)
run_calls-Answers cs s live =
    (run_calls-Ensures cs s.run.history).at s
      (record { holds = record { same = refl; live = live } })
