-- ===== src/Tui/EventLoop/Sync.antt =====
-- The loop's sequence number is its state's, and it never goes back.
use py_tui_kairo.Common.{
  ℕ, ◌+◌, ◌≤◌, ◌≡◌, refl, none, some, List, [], ◌∷◌, String, arith, leb, ltb, if_both,
}
use py_tui_kairo.Contracts.Events.{KernelEvent}
use py_tui_kairo.Tui.Reducer.{reduce}
use py_tui_kairo.Tui.Fold.{Folded, fold_event}
use py_tui_kairo.Tui.Fold.Sequence.{fold_event-sequence}
use py_tui_kairo.Tui.EventLoop.{
  EventLoop, LoopPhase, Signal, received, interrupted, sync_state, notice, interrupt, take_fold,
  skip_gap, receive_event, step_at, step, run,
}

abbrev pub InSync : EventLoop → Type 0
InSync l = l.state.last_sequence ≡ l.sequence

-- In sync, and not behind `n`.
abbrev pub InSyncFrom : ℕ → EventLoop → Type 0
InSyncFrom n l = InSync l × (n ≤ l.sequence)

-- A state that is adopted from outside is at the loop's sequence number.
abbrev pub Adopts : Signal → EventLoop → Type 0
Adopts (sync_state s) l = s.last_sequence ≡ l.sequence
Adopts _ l = Unit

abbrev pub AllAdopt : (String → String) → List Signal → EventLoop → Type 0
AllAdopt f [] l = Unit
AllAdopt f (x ∷ xs) l = Adopts x l × AllAdopt f xs (step f x l)

module _ (f : String → String) where
  interrupt-InSync : (l : EventLoop) → InSync l → InSyncFrom l.sequence (interrupt l)
  unfolding interrupt notice reduce
  interrupt-InSync l h =
      if_both (InSyncFrom l.sequence) l.retried (λ q. (h, omega arith)) (λ q. (h, omega arith))

  take_fold-InSync :
      (e : KernelEvent) (l : EventLoop) (o : Folded)
      → InSync l
      → l.sequence ≤ e.sequence
      → fold_event f l.state e ≡ o
      → InSyncFrom l.sequence (take_fold e o l)
  unfolding take_fold notice reduce
  take_fold-InSync e l none h b q =
      if_both (InSyncFrom l.sequence) l.retried (λ r. interrupt-InSync l h) (λ r. (h, omega arith))
  take_fold-InSync e l (some (s, as')) h b q =
      (omega (arith, fold_event-sequence f l.state s e as' q), b)

  receive_event-InSync :
      (e : KernelEvent) (l : EventLoop) → InSync l → InSyncFrom l.sequence (receive_event f e l)
  unfolding receive_event skip_gap
  receive_event-InSync e l h =
      if_both (InSyncFrom l.sequence) (leb e.sequence l.sequence) (λ q. (h, omega arith))
        (λ q.
          if_both (InSyncFrom l.sequence) (ltb (l.sequence + 1) e.sequence)
            (λ r. (refl, ground arith)) (λ r. take_fold-InSync e l _ h (ground arith) refl))

  step_at-InSync :
      (p : LoopPhase) (x : Signal) (l : EventLoop)
      → InSync l
      → Adopts x l
      → InSyncFrom l.sequence (step_at f p x l)
  unfolding step_at notice reduce
  step_at-InSync LoopPhase.subscribing interrupted l h a = interrupt-InSync l h
  step_at-InSync LoopPhase.receiving interrupted l h a = interrupt-InSync l h
  step_at-InSync LoopPhase.receiving (received e) l h a = receive_event-InSync e l h
  step_at-InSync LoopPhase.subscribing (sync_state s) l h a = (a, omega arith)
  step_at-InSync LoopPhase.receiving (sync_state s) l h a = (a, omega arith)
  step_at-InSync LoopPhase.returned (sync_state s) l h a = (a, omega arith)
  step_at-InSync LoopPhase.raised (sync_state s) l h a = (a, omega arith)
  step_at-InSync _ _ l h a = (h, omega arith)

  -- Whatever signals arrive, as long as the loop starts in sync and each state adopted from outside is at the loop's
  -- sequence number, that number stays the state's and does not go back.
  pub run-InSync :
      (xs : List Signal) (l : EventLoop)
      → InSync l
      → AllAdopt f xs l
      → InSyncFrom l.sequence (run f xs l)
  unfolding run step
  run-InSync [] l h a = (h, omega arith)
  run-InSync (x ∷ xs) l h (a, as') =
      let one = step_at-InSync l.phase x l h a in
      let rest = run-InSync xs (step f x l) one.0 as' in (rest.0, omega (arith, one.1, rest.1))
