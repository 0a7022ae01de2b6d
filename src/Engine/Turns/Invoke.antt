-- ===== src/Engine/Turns/Invoke.antt =====
-- The execution of a tool call keeps what a run's invariants are about.
use py_tui_kairo.Common.{ℕ, ◌≡◌, ◌⊎◌, inl, inr, refl, subst, none, some, List, [], ◌∷◌, String}
use py_tui_kairo.Contracts.Enums.{AuthorizationMode, OperationScope, ToolExecutionStatus, TurnPhase}
use py_tui_kairo.Contracts.Errors.{KernelResult, success, failure}
use py_tui_kairo.Contracts.Providers.{ToolCall}
use py_tui_kairo.Contracts.Tools.{ToolInvocation, ToolOutputChunk, ToolResult}
use py_tui_kairo.Runtime.Events.{Emission}
use py_tui_kairo.Engine.Turns.Machine.{Ports, pure, ◌>>=◌, reads, modify, call}
use py_tui_kairo.Engine.Turns.Keeps.{Keeps, Keeps-bind, Keeps-if}
use py_tui_kairo.Engine.Turns.Stable.{
  Core, core, Stable, At, Allowed, call-At, uses-At, transition-At, emit_tool-At, at_rules,
}
use py_tui_kairo.Engine.Turns.Ensures.{
  Ensures, Ensures-map, Keeps-Ensures, Ensures-Keeps, Ensures-bind, With, With-Stable, With-At,
  Ensures-fact,
}
use py_tui_kairo.Engine.Turns.Consent.{Allowed-Grows, Settles, approve-Ensures}
use py_tui_kairo.Engine.Turns.Approval.{Approval, approved, not_approved, complete_with, approve}
use py_tui_kairo.Engine.Turns.Tools.{
  write_chunks, run_tool, guarded_tool, final_result, announce_change, context_of, log_execution,
  run_approved, after_approval, run_classified, run_found, execute_tool, provisional,
}

module _ {P : Ports → Core → Type 0} ⦃st : Stable P⦄ where
  write_chunks-At :
      (i : ToolInvocation) (chunks : List ToolOutputChunk) → Keeps (At P) (write_chunks i chunks)
  unfolding write_chunks
  write_chunks-At i [] = search at_rules
  write_chunks-At i (chunk ∷ chunks) =
      Keeps-if _ _ _
        (Keeps-bind _ _ (emit_tool-At "output" i (some chunk) none) λ u. write_chunks-At i chunks)
        (write_chunks-At i chunks)

  final_result-At :
      (c : ToolCall) (n : ℕ) (o : ToolResult ⊎ String) → Keeps (At P) (final_result c n o)
  unfolding final_result
  final_result-At c n (inl r) = search at_rules
  final_result-At c n (inr m) = search at_rules

  announce_change-At : (c : ToolCall) (r : ToolResult) → Keeps (At P) (announce_change c r)
  unfolding announce_change
  announce_change-At c r = search at_rules

  complete_with-At :
      (status : ToolExecutionStatus) (m : String) (c : ToolCall) (n : ℕ) (i : ToolInvocation)
      → Keeps (At P) (complete_with status m c n i)
  unfolding complete_with
  complete_with-At status m c n i = search at_rules

  -- The context goes out with the mode that was allowed.
  run_tool-At :
      (mode : AuthorizationMode) (i : ToolInvocation)
      → ((p : Ports) (c : Core) → P p c → Allowed p c.log i mode)
      → Keeps (At P) (run_tool mode i)
  unfolding run_tool reads modify ◌>>=◌
  run_tool-At mode i allowed = record {
    at = λ s h.
        let rest =
          Keeps-bind (call (λ ports n. ports.execute n))
            (λ t. write_chunks i t.chunks >>= λ u. pure t)
            (call-At {P = P} (λ ports n. ports.execute n))
            (λ t. search (at_rules, write_chunks-At)) in
        rest.at (record s { run = log_execution i (context_of mode s.run) s.run })
          (record {
            holds =
                st.executed s.ports (core s.run) i (context_of mode s.run) mode refl
                  (allowed s.ports (core s.run) h.holds) h.holds;
          });
  }

  guarded_tool-At :
      (mode : AuthorizationMode) (c : ToolCall) (i : ToolInvocation)
      → ((p : Ports) (c : Core) → P p c → Allowed p c.log i mode)
      → Keeps (At P) (guarded_tool mode c i)
  unfolding guarded_tool
  guarded_tool-At mode c i allowed = record { at = λ s h. (run_tool-At mode i allowed).at s h }

  run_approved-At :
      (mode : AuthorizationMode) (c : ToolCall) (i : ToolInvocation) (n : ℕ)
      → ((p : Ports) (c : Core) → P p c → Allowed p c.log i mode)
      → Keeps (At P) (run_approved mode c i n)
  unfolding run_approved
  run_approved-At mode c i n allowed = Keeps-bind _ _ (transition-At TurnPhase.running_tool) λ u.
      Keeps-bind _ _ (emit_tool-At "started" i none none) λ v.
        Keeps-bind _ _ (guarded_tool-At mode c i allowed)
          λ outcome. search (at_rules, final_result-At, announce_change-At)

module _ {P : Ports → Core → Type 0} ⦃st : Stable P⦄ where
  after_approval-Ensures :
      (c : ToolCall) (i : ToolInvocation) (n : ℕ) (a : Approval)
      → Ensures (Settles P i a) (after_approval c i n a) (λ r. At P) (At P)
  unfolding after_approval
  after_approval-Ensures c i n (approved mode) =
      let L = λ (ports : Ports) (log : List Emission). Allowed ports log i mode in
      Ensures-map _
        (Keeps-Ensures _ (
          run_approved-At {P = With P L} ⦃st = With-Stable {P = P} {L = L} (Allowed-Grows i mode)⦄
            mode c i n (λ p x h. h.1)))
        (λ r s h. With-At L s h) (λ s h. With-At L s h)
  after_approval-Ensures c i n not_approved =
      Keeps-Ensures _
        (complete_with-At ToolExecutionStatus.rejected "Tool execution was rejected." c n i)

  asks-Ensures :
      (c : ToolCall) (i : ToolInvocation) (n : ℕ)
      → i.name ≡ c.name
      → Ensures (At P) (approve c.name i.scope >>= after_approval c i n) (λ r. At P) (At P)
  asks-Ensures c i n e =
      Ensures-bind _ _
        (subst (λ name. Ensures (At P) (approve name i.scope) (Settles P i) (At P)) e
          (approve-Ensures {P = P} i))
        λ a. after_approval-Ensures c i n a

  run_classified-At :
      (c : ToolCall) (i : ToolInvocation) (n : ℕ) (r : KernelResult OperationScope)
      → i.name ≡ c.name
      → Keeps (At P) (run_classified c i n r)
  unfolding run_classified
  run_classified-At c i n (success scope) e =
      let invocation = record i { scope = scope } in
      Keeps-bind _ _ (emit_tool-At "requested" invocation none none)
        λ u. Ensures-Keeps _ (asks-Ensures c invocation n e)
  run_classified-At c i n (failure e) q =
      complete_with-At ToolExecutionStatus.failed e.message c n i

  run_found-At :
      (c : ToolCall) (i : ToolInvocation) (n : ℕ) (r : KernelResult (Unit {0}))
      → i.name ≡ c.name
      → Keeps (At P) (run_found c i n r)
  unfolding run_found
  run_found-At c i n (success u) e =
      Keeps-bind _ _ (call-At (λ ports m. ports.classify m)) λ k. run_classified-At c i n k e
  run_found-At c i n (failure f) e =
      complete_with-At ToolExecutionStatus.failed "Tool not found." c n i

  provisional-Ensures :
      (c : ToolCall)
      → Ensures (At P) (reads (provisional c)) (λ i s. At P s × (i.name ≡ c.name)) (At P)
  unfolding reads
  provisional-Ensures c = record { at = λ s h. (h, refl) }

  pub execute_tool-At : (c : ToolCall) → Keeps (At P) (execute_tool c)
  unfolding execute_tool
  execute_tool-At c = Keeps-bind _ _ (uses-At (λ ports n. ports.now n)) λ started. Ensures-Keeps _ (
      Ensures-bind _ _ (provisional-Ensures c) λ i. Ensures-fact _ λ e. Keeps-Ensures _ (
        Keeps-bind _ _ (call-At (λ ports n. ports.get_tool n))
          λ fetched. run_found-At c i started fetched e))
