-- ===== src/Tui/EventLoop.antt =====
-- frontends/tui/kairo_tui/event_loop.py: the loop that folds the kernel's events into the state.
-- A signal is what one await of `_run` ends with, or a call from outside; a call of the `emit` or `recover` callback
-- is written to the log. The callbacks return.
pub mod Sync
pub mod Contiguous
mod Examples
use py_tui_kairo.Common.{
  ℕ, ◌+◌, Bool, true, false, Option, none, some, List, [], ◌∷◌, ◌++◌, String, ltb, leb,
  if◌then◌else◌,
}
use py_tui_kairo.Contracts.Events.{KernelEvent}
use py_tui_kairo.Tui.State.{AppState}
use py_tui_kairo.Tui.Reducer.{UiAction, notice_set, reduce}
use py_tui_kairo.Tui.Fold.{Folded, fold_event}

-- Where `_run` waits, or how it has ended: it returned, or an exception left it.
pub data LoopPhase : Type 0 where
  subscribing receiving returned raised : LoopPhase

pub data LoopOutput : Type 0 where
  emitted : AppState → List UiAction → LoopOutput
  recovery : LoopOutput

-- `sequence` and `retried` are the local variables of `_run`.
pub record EventLoop : Type 0 where
  pub state : AppState
  pub sequence : ℕ
  pub retried : Bool
  pub phase : LoopPhase
  pub log : List LoopOutput

pub data Signal : Type 0 where
  subscribed : Signal
  received : KernelEvent → Signal
  -- subscribe or receive raised SubscriberOverflow, or another exception
  overflowed interrupted : Signal
  sync_state : AppState → Signal
  close : Signal

-- `start`: `_run` begins at the state's sequence number.
unfoldable pub start : AppState → EventLoop
start s = record {
  state = s;
  sequence = s.last_sequence;
  retried = false;
  phase = LoopPhase.subscribing;
  log = [];
}

unfoldable pub notice : String → EventLoop → EventLoop
notice text l = record l {
  state = reduce l.state (notice_set text);
  log = l.log ++ emitted (reduce l.state (notice_set text)) (notice_set text ∷ []) ∷ [];
}

-- The outer `except Exception` for another exception than an overflow.
unfoldable pub interrupt : EventLoop → EventLoop
unfolding notice
interrupt l =
    if l.retried
    then record l { phase = LoopPhase.raised }
    else notice "Event subscription failed; retrying once."
        (record l { retried = true; phase = LoopPhase.subscribing })

-- The inner `try` around `fold_event`.
unfoldable pub take_fold : KernelEvent → Folded → EventLoop → EventLoop
unfolding notice interrupt
take_fold e none l =
    if l.retried
    then interrupt l
    else notice "Event processing failed; retrying once." (record l { retried = true })
take_fold e (some (s, actions)) l = record l {
  state = s;
  sequence = e.sequence;
  log = l.log ++ emitted s actions ∷ [];
}

unfoldable pub skip_gap : KernelEvent → EventLoop → EventLoop
unfolding notice
skip_gap e l =
    let noticed = notice "Event stream gap; recovering state." l in
    record noticed {
      state = record noticed.state { last_sequence = e.sequence };
      sequence = e.sequence;
      log = noticed.log ++ recovery ∷ [];
    }

unfoldable pub receive_event : (String → String) → KernelEvent → EventLoop → EventLoop
unfolding take_fold skip_gap
receive_event lower e l =
    if leb e.sequence l.sequence
    then l
    else if ltb (l.sequence + 1) e.sequence
    then skip_gap e l
    else take_fold e (fold_event lower l.state e) l

-- A signal that the phase does not wait for changes nothing.
unfoldable pub step_at : (String → String) → LoopPhase → Signal → EventLoop → EventLoop
unfolding receive_event interrupt notice
step_at lower LoopPhase.subscribing subscribed l = record l {
  retried = false;
  phase = LoopPhase.receiving;
}
step_at lower LoopPhase.receiving (received e) l = receive_event lower e l
step_at lower LoopPhase.subscribing overflowed l = notice "Event stream overflow; re-subscribing." l
step_at lower LoopPhase.receiving overflowed l =
    notice "Event stream overflow; re-subscribing." (record l { phase = LoopPhase.subscribing })
step_at lower LoopPhase.subscribing interrupted l = interrupt l
step_at lower LoopPhase.receiving interrupted l = interrupt l
step_at lower LoopPhase.subscribing close l = record l { phase = LoopPhase.returned }
step_at lower LoopPhase.receiving close l = record l { phase = LoopPhase.returned }
step_at lower phase (sync_state s) l = record l { state = s }
step_at lower phase _ l = l

unfoldable pub step : (String → String) → Signal → EventLoop → EventLoop
unfolding step_at
step lower signal l = step_at lower l.phase signal l

unfoldable pub run : (String → String) → List Signal → EventLoop → EventLoop
run lower [] l = l
run lower (x ∷ xs) l = run lower xs (step lower x l)
