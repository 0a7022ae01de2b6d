-- ===== src/Engine/Turns/Results.antt =====
-- The result of a tool call.
use py_tui_kairo.Common.{
  ℕ, ◌≡◌, ◌⊎◌, inl, inr, refl, ◌&&◌, none, some, List, String, str_eq, eq_iff, if_both, arith,
}
use py_tui_kairo.Contracts.Enums.{AuthorizationMode, OperationScope, ToolExecutionStatus, TurnPhase}
use py_tui_kairo.Contracts.Errors.{KernelResult, success, failure}
use py_tui_kairo.Contracts.Providers.{ToolCall}
use py_tui_kairo.Contracts.Tools.{ToolInvocation, ToolOutputChunk, ToolResult}
use py_tui_kairo.Engine.Turns.Machine.{
  M, Machine, ToolRun, Ended, returned, raised, turn_cancelled, engine_failure, fault,
  task_cancelled, pure, ◌>>=◌, reads, uses, call, transition, emit_tool,
}
use py_tui_kairo.Engine.Turns.Keeps.{Keeps}
use py_tui_kairo.Engine.Turns.Ensures.{
  After, Ensures, Ensures-bind, Ensures-given, Ensures-pure, Keeps-Ensures,
}
use py_tui_kairo.Engine.Turns.Approval.{complete_with, Approval, approved, not_approved, approve}
use py_tui_kairo.Engine.Turns.Tools.{
  correlated, caught, guarded_tool, run_tool, final_result, announce_change, run_approved,
  after_approval, run_classified, run_found, provisional, execute_tool,
}

-- A result of that call.
abbrev pub Of : ToolCall → ToolResult → Type 0
Of c r = (r.tool_call_id ≡ c.tool_call_id) × (r.name ≡ c.name)

OfOutcome : ToolCall → ToolResult ⊎ String → Type 0
OfOutcome c (inl r) = Of c r
OfOutcome c (inr m) = Unit

-- What the part returns satisfies `Q`, wherever it starts.
abbrev pub Yields : {A : Type 0} → M A → (A → Type 0) → Type 0
Yields m Q = Ensures (λ s. Unit) m (λ a s. Q a) (λ s. Unit)

Yields-then :
    {A B : Type 0} {Q : B → Type 0} (m : M A) (f : A → M B)
    → ((a : A) → Yields (f a) Q)
    → Yields (m >>= f) Q
Yields-then m f k = Ensures-bind m f (Keeps-Ensures m (record { at = λ s h. tt })) k

Yields-pure : {A : Type 0} {Q : A → Type 0} (a : A) → Q a → Yields (pure a) Q
Yields-pure a q = Ensures-pure a (λ s h. q)

correlated-Of :
    (c : ToolCall) (chunks : List ToolOutputChunk) (o : ToolResult ⊎ String)
    → OfOutcome c (correlated c (record { chunks = chunks; outcome = o }))
unfolding OfOutcome
correlated-Of c chunks (inr m) = tt
correlated-Of c chunks (inl r) =
    if_both (OfOutcome c) (str_eq r.tool_call_id c.tool_call_id && str_eq r.name c.name)
      (λ e. (
        ground (arith, eq_iff r.tool_call_id c.tool_call_id),
        ground (arith, eq_iff r.name c.name),
      ))
      (λ e. tt)

caught-Of :
    (c : ToolCall) (e : Ended ToolRun) (s : Machine)
    → After (λ o s. OfOutcome c o) (λ s. Unit) (caught c e, s)
unfolding OfOutcome
caught-Of c (returned t) s = correlated-Of c t.chunks t.outcome
caught-Of c (raised (turn_cancelled m)) s = tt
caught-Of c (raised (engine_failure e)) s = tt
caught-Of c (raised (fault m)) s = tt
caught-Of c (raised task_cancelled) s = tt

guarded_tool-Of :
    (mode : AuthorizationMode) (c : ToolCall) (i : ToolInvocation)
    → Yields (guarded_tool mode c i) (OfOutcome c)
unfolding guarded_tool
guarded_tool-Of mode c i = record {
  at = λ s h. caught-Of c (run_tool mode i s).0 (run_tool mode i s).1;
}

final_result-Of :
    (c : ToolCall) (n : ℕ) (o : ToolResult ⊎ String)
    → OfOutcome c o
    → Yields (final_result c n o) (Of c)
unfolding final_result OfOutcome
final_result-Of c n (inl r) h = Yields-pure r h
final_result-Of c n (inr m) h = Yields-then _ _ λ finished. Yields-pure _ (refl, refl)

complete_with-Of :
    (status : ToolExecutionStatus) (m : String) (c : ToolCall) (n : ℕ) (i : ToolInvocation)
    → Yields (complete_with status m c n i) (Of c)
unfolding complete_with
complete_with-Of status m c n i =
    Yields-then _ _ λ finished. Yields-then _ _ λ u. Yields-pure _ (refl, refl)

run_approved-Of :
    (mode : AuthorizationMode) (c : ToolCall) (i : ToolInvocation) (n : ℕ)
    → Yields (run_approved mode c i n) (Of c)
unfolding run_approved
run_approved-Of mode c i n = Yields-then (transition TurnPhase.running_tool) _ λ u.
    Yields-then (emit_tool "started" i none none) _ λ v.
      Ensures-bind _ _ (guarded_tool-Of mode c i) λ outcome. Ensures-given _ λ h.
        Ensures-bind _ _ (final_result-Of c n outcome h) λ result. Ensures-given _ λ q.
          Yields-then (emit_tool "completed" i none (some result)) _
            λ w. Yields-then (announce_change c result) _ λ x. Yields-pure result q

after_approval-Of :
    (c : ToolCall) (i : ToolInvocation) (n : ℕ) (a : Approval)
    → Yields (after_approval c i n a) (Of c)
unfolding after_approval
after_approval-Of c i n (approved mode) = run_approved-Of mode c i n
after_approval-Of c i n not_approved =
    complete_with-Of ToolExecutionStatus.rejected "Tool execution was rejected." c n i

run_classified-Of :
    (c : ToolCall) (i : ToolInvocation) (n : ℕ) (r : KernelResult OperationScope)
    → Yields (run_classified c i n r) (Of c)
unfolding run_classified
run_classified-Of c i n (success scope) =
    Yields-then (emit_tool "requested" (record i { scope = scope }) none none) _ λ u.
      Yields-then (approve c.name scope) _ λ a. after_approval-Of c (record i { scope = scope }) n a
run_classified-Of c i n (failure e) = complete_with-Of ToolExecutionStatus.failed e.message c n i

run_found-Of :
    (c : ToolCall) (i : ToolInvocation) (n : ℕ) (r : KernelResult (Unit {0}))
    → Yields (run_found c i n r) (Of c)
unfolding run_found
run_found-Of c i n (success u) =
    Yields-then (call (λ ports m. ports.classify m)) (run_classified c i n)
      λ k. run_classified-Of c i n k
run_found-Of c i n (failure e) = complete_with-Of ToolExecutionStatus.failed "Tool not found." c n i

pub execute_tool-Of : (c : ToolCall) → Yields (execute_tool c) (Of c)
unfolding execute_tool
execute_tool-Of c = Yields-then (uses (λ ports n. ports.now n)) _ λ started.
    Yields-then (reads (provisional c)) _ λ i.
      Yields-then (call (λ ports n. ports.get_tool n)) _ λ fetched. run_found-Of c i started fetched

After-yields :
    {A : Type 0} (P : Machine → Type 0) (Q : A → Type 0) (x : Ended A × Machine)
    → P x.1
    → After (λ a s. Q a) (λ s. Unit) x
    → After (λ a s. P s × Q a) P x
After-yields P Q (returned a, s) h q = (h, q)
After-yields P Q (raised e, s) h q = h

pub Ensures-yields :
    {A : Type 0} {P : Machine → Type 0} {Q : A → Type 0} (m : M A)
    → Keeps P m
    → Yields m Q
    → Ensures P m (λ a s. P s × Q a) P
Ensures-yields {P = P} {Q = Q} m k y = record {
  at = λ s h. After-yields P Q (m s) (k.at s h) (y.at s tt);
}
