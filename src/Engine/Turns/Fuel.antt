-- ===== src/Engine/Turns/Fuel.antt =====
-- The loop of rounds ends, and its fuel is enough.
use py_tui_kairo.Common.{
  ℕ, zero, suc, ◌+◌, ◌-◌, ◌≤◌, ◌<◌, ◌≡◌, ◌≢◌, refl, ap, Bool, true, false, ◌&&◌, not, Option, none,
  some, String, ltb, arith,
}
use py_tui_kairo.Contracts.Enums.{ErrorCode}
use py_tui_kairo.Contracts.Providers.{ProviderFailure}
use py_tui_kairo.Engine.Models.{RunSnapshot}
use py_tui_kairo.Engine.Turns.Machine.{
  M, Machine, Ports, Ended, returned, raised, engine_failure, pure, raise, ◌>>=◌, continue, reads,
  is_terminal,
}
use py_tui_kairo.Engine.Turns.Keeps.{Keeps-reads}
use py_tui_kairo.Engine.Turns.Stable.{
  Core, Stable, Loose, At, emit_message-At, raise_if_cancelled-At,
}
use py_tui_kairo.Engine.Turns.Ensures.{
  After, Ensures, Ensures-map, Ensures-bind, Ensures-fact, Ensures-if, Ensures-pure, Ensures-raise,
  Keeps-Ensures,
}
use py_tui_kairo.Engine.Turns.Steady.{compact-At, provider_round-At}
use py_tui_kairo.Engine.Turns.Rounds.{push-At, set_history-At, stop_with-At, run_calls-At}
use py_tui_kairo.Engine.Turns.Stream.{StreamResult, is_empty}
use py_tui_kairo.Engine.Turns.Compaction.{provider_error, fail}
use py_tui_kairo.Engine.Turns.Loop.{
  Round, breaks, again, assistant_message, partial_message, is_context, after_reply, after_stream,
  after_failure, after_end, after_round, round, next_round, turn_loop,
}

-- A run in progress with that snapshot.
record Settings (snapshot : RunSnapshot) (p : Ports) (c : Core) : Type 0 where
  fixed : c.snapshot ≡ snapshot
  live : is_terminal c.status ≡ false

instance Settings-Stable : {snapshot : RunSnapshot} → Stable (Settings snapshot)
Settings-Stable = record {
  live = λ p c h. h.live;
  status_set = λ p c status q h. record { fixed = h.fixed; live = q };
  counted = λ p c h. record { fixed = h.fixed; live = h.live };
  emitted = λ p c x n q h. record { fixed = h.fixed; live = h.live };
  executed = λ p c i context mode m a h. record { fixed = h.fixed; live = h.live };
}

instance Settings-Loose : {snapshot : RunSnapshot} → Loose (Settings snapshot)
Settings-Loose = record { rewritten = λ p c ms h. record { fixed = h.fixed; live = h.live } }

abbrev unused : Bool → ℕ
unused true = 0
unused false = 1

-- How many rounds may follow: the tool rounds that are left, and the retry.
abbrev rounds_left : ℕ → Bool → ℕ → ℕ
rounds_left limit used n = limit - n + unused used

abbrev Progress : ℕ → Bool → ℕ → Round → Type 0
Progress limit used n breaks = Unit
Progress limit used n (again used' n') =
    (n' ≤ limit) × (rounds_left limit used' n' < rounds_left limit used n)

next-Progress :
    (limit l n : ℕ) (used : Bool)
    → l ≡ limit
    → ltb l (n + 1) ≡ false
    → Progress limit used n (again used (n + 1))
next-Progress limit l n used e b = (ground arith, ground arith)

unused_retry : (b used : Bool) → b && not used ≡ true → used ≡ false
unused_retry b used h = ground arith

retry-Progress :
    (limit n : ℕ) (used : Bool) → n ≤ limit → used ≡ false → Progress limit used n (again true n)
retry-Progress limit n used h e = (h, ground arith)

module _ (snapshot : RunSnapshot) where
  abbrev limit : ℕ
  limit = snapshot.options.max_tool_rounds

  abbrev In : Machine → Type 0
  In = At (Settings snapshot)

  abbrev Goes : Bool → ℕ → Round → Machine → Type 0
  Goes used n x s = In s × Progress (limit) used n x

  reads-limit-Ensures :
      Ensures In (reads (λ r. r.snapshot.options.max_tool_rounds)) (λ l s. In s × (l ≡ limit)) In
  unfolding reads
  reads-limit-Ensures = record {
    at = λ s h. (h, ap (λ (x : RunSnapshot). x.options.max_tool_rounds) h.holds.fixed);
  }

  fail-Ensures :
      {A : Type 0} {Q : A → Machine → Type 0} (code : ErrorCode) (m o : String)
      → Ensures In (fail code m o {A = A}) Q In
  unfolding fail raise
  fail-Ensures code m o = record { at = λ s h. h }

  after_reply-Ensures :
      (used : Bool) (n : ℕ) (r : StreamResult)
      → n ≤ limit
      → Ensures In (after_reply used n r) (Goes used n) In
  unfolding after_reply
  after_reply-Ensures used n r h = Ensures-bind _ _ (reads-limit-Ensures) λ l. Ensures-fact _ λ e.
      Ensures-if (is_empty r.tool_calls) _ _ (λ b. Ensures-pure breaks (λ s i. (i, tt)))
        (λ b.
          Ensures-if (ltb l (n + 1)) _ _
            (λ over.
              fail-Ensures ErrorCode.resource_exhausted "Maximum tool rounds exceeded."
                "turn.tools")
            (λ under. Ensures-bind _ _ (Keeps-Ensures _ (run_calls-At r.tool_calls)) λ w.
              Ensures-pure (again used (n + 1)) (λ s i. (i, next-Progress limit l n used e under))))

  after_stream-Ensures :
      (used : Bool) (n : ℕ) (r : StreamResult)
      → n ≤ limit
      → Ensures In (after_stream used n r) (Goes used n) In
  unfolding after_stream
  after_stream-Ensures used n r h =
      Ensures-bind _ _ (Keeps-Ensures _ (push-At (assistant_message r))) λ u.
        Ensures-bind _ _
          (Keeps-Ensures _ (emit_message-At r.message_id "completed" (assistant_message r).content))
          λ v. after_reply-Ensures used n r h

  after_failure-Ensures :
      (used : Bool) (n : ℕ) (f : ProviderFailure)
      → n ≤ limit
      → Ensures In (after_failure used n f) (Goes used n) In
  unfolding after_failure
  after_failure-Ensures used n f h =
      Ensures-bind _ _ (Keeps-Ensures _ (Keeps-reads (λ r. r.snapshot.turn_id))) λ turn_id.
        Ensures-bind _ _ (Keeps-Ensures _ (Keeps-reads (λ r. r.history))) λ history.
          Ensures-if (is_context f.kind && not used) _ _
            (λ b. Ensures-bind _ _ (Keeps-Ensures _ (compact-At true history)) λ compacted.
              Ensures-bind _ _ (Keeps-Ensures _ (set_history-At compacted)) λ u.
                Ensures-pure (again true n) (λ s i.
                  (i, retry-Progress limit n used h (unused_retry (is_context f.kind) used b))))
            (λ b. Ensures-raise (engine_failure (provider_error f turn_id)) (λ s i. i))

  after_end-Ensures :
      (used : Bool) (n : ℕ) (r : StreamResult) (o : Option ProviderFailure)
      → n ≤ limit
      → Ensures In (after_end used n r o) (Goes used n) In
  unfolding after_end
  after_end-Ensures used n r none h = after_stream-Ensures used n r h
  after_end-Ensures used n r (some f) h = after_failure-Ensures used n f h

  after_round-Ensures :
      (used : Bool) (n : ℕ) (r : StreamResult)
      → n ≤ limit
      → Ensures In (after_round used n r) (Goes used n) In
  unfolding after_round
  after_round-Ensures used n r h =
      Ensures-if r.stopped _ _
        (λ b.
          Ensures-bind _ _
            (Keeps-Ensures _ (stop_with-At (partial_message r) "Generation stopped."))
            λ w. Ensures-pure breaks (λ s i. (i, tt)))
        (λ b. after_end-Ensures used n r r.failed h)

  round-Ensures : (used : Bool) (n : ℕ) → n ≤ limit → Ensures In (round used n) (Goes used n) In
  unfolding round
  round-Ensures used n h = Ensures-bind _ _ (Keeps-Ensures _ raise_if_cancelled-At) λ u.
      Ensures-bind _ _ (Keeps-Ensures _ (Keeps-reads (λ r. r.history))) λ history.
        Ensures-bind _ _ (Keeps-Ensures _ (compact-At false history)) λ compacted.
          Ensures-bind _ _ (Keeps-Ensures _ (set_history-At compacted)) λ v.
            Ensures-bind _ _ (Keeps-Ensures _ (provider_round-At compacted "chat" true "delta"))
              λ stream. after_round-Ensures used n stream h

  next_round-Ensures :
      (k : Bool → ℕ → M Bool) (used : Bool) (n : ℕ) (x : Round)
      → ((used' : Bool) (n' : ℕ)
          → n' ≤ limit
          → rounds_left limit used' n' < rounds_left limit used n
          → Ensures In (k used' n') (λ b s. b ≡ true) (λ s. Unit))
      → Progress limit used n x
      → Ensures In (next_round k x) (λ b s. b ≡ true) (λ s. Unit)
  next_round-Ensures k used n breaks g q = Ensures-pure true (λ s i. refl)
  next_round-Ensures k used n (again used' n') g q = g used' n' q.0 q.1

  -- With more fuel than rounds are left, the loop does not run out.
  turn_loop-Ensures :
      (fuel : ℕ) (used : Bool) (n : ℕ)
      → n ≤ limit
      → rounds_left limit used n < fuel
      → Ensures In (turn_loop fuel used n) (λ b s. b ≡ true) (λ s. Unit)
  unfolding turn_loop
  turn_loop-Ensures zero used n h f = absurd (omega arith)
  turn_loop-Ensures (suc fuel) used n h f =
      Ensures-bind _ _ (Ensures-map _ (round-Ensures used n h) (λ x s i. i) (λ s i. tt)) λ x.
        Ensures-fact _ λ q.
          next_round-Ensures (λ used' n'. turn_loop fuel used' n') used n x
            (λ used' n' h' less. turn_loop-Ensures fuel used' n' h' (omega arith)) q

  continue-same :
      (k k' : Bool → ℕ → M Bool) (used : Bool) (n : ℕ) (x : Ended Round × Machine)
      → ((used' : Bool) (n' : ℕ) (s : Machine)
          → n' ≤ limit
          → rounds_left limit used' n' < rounds_left limit used n
          → In s
          → k used' n' s ≡ k' used' n' s)
      → After (Goes used n) In x
      → continue x.0 (next_round k) x.1 ≡ continue x.0 (next_round k') x.1
  unfolding pure
  continue-same k k' used n (returned breaks, s) g q = refl
  continue-same k k' used n (returned (again used' n'), s) g q = g used' n' s q.1.0 q.1.1 q.0
  continue-same k k' used n (raised e, s) g q = refl

  turn_loop-same :
      (fuel fuel' : ℕ) (used : Bool) (n : ℕ) (s : Machine)
      → n ≤ limit
      → rounds_left limit used n < fuel
      → rounds_left limit used n < fuel'
      → In s
      → turn_loop fuel used n s ≡ turn_loop fuel' used n s
  unfolding turn_loop ◌>>=◌
  turn_loop-same zero fuel' used n s h f f' i = absurd (omega arith)
  turn_loop-same (suc fuel) zero used n s h f f' i = absurd (omega arith)
  turn_loop-same (suc fuel) (suc fuel') used n s h f f' i =
      continue-same (λ used' n'. turn_loop fuel used' n') (λ used' n'. turn_loop fuel' used' n')
        used n (round used n s)
        (λ used' n' s' h' less i'.
          turn_loop-same fuel fuel' used' n' s' h' (omega arith) (omega arith) i')
        ((round-Ensures used n h).at s i)

After-ends :
    (x : Ended Bool × Machine) → After (λ b s. b ≡ true) (λ s. Unit) x → x.0 ≢ returned false
After-ends (returned true, s) q e = cc
After-ends (returned false, s) q e = cc
After-ends (raised r, s) q e = cc

-- In a run that is not over, the loop of provider and tool rounds ends by itself: after at most `max_tool_rounds + 2`
-- rounds it is left by its `break` or by an exception, so that the fuel `max_tool_rounds + 3` does not run out and more
-- fuel changes nothing.
pub rounds_end :
    (s : Machine) (more : ℕ)
    → is_terminal s.run.status ≡ false
    → ((turn_loop (s.run.snapshot.options.max_tool_rounds + 3) false 0 s).0 ≢ returned false)
      × (turn_loop (s.run.snapshot.options.max_tool_rounds + 2) false 0 s
          ≡ turn_loop (s.run.snapshot.options.max_tool_rounds + 3 + more) false 0 s)
rounds_end s more live =
    let i : At (Settings s.run.snapshot) s = record {
      holds = record { fixed = refl; live = live };
    } in
    let l = s.run.snapshot.options.max_tool_rounds in
    (
      After-ends _
          ((turn_loop-Ensures s.run.snapshot (l + 3) false 0 (omega arith) (omega arith)).at s i),
      turn_loop-same s.run.snapshot (l + 2) (l + 3 + more) false 0 s (omega arith) (omega arith)
          (omega arith) i,
    )
