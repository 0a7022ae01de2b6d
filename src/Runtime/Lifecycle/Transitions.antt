-- ===== src/Runtime/Lifecycle/Transitions.antt =====
-- The states that the lifecycle rests in between two calls.
use py_tui_kairo.Common.{◌≡◌, ◌≢◌, refl, ◌⊎◌, ◌↔◌, Option, none, some, List, [], ◌∷◌, arith, All}
use py_tui_kairo.Contracts.Enums.{
  ErrorCode, created, starting, running, stopping, stopped, conflict,
}
use py_tui_kairo.Contracts.Errors.{success, error_code}
use py_tui_kairo.Runtime.Lifecycle.{
  AsyncLifecycle, HookEnd, returned, raised, timed_out, interrupted, Exit, result, cancelled_error,
  new_lifecycle, start, shutdown, Call, start_call, shutdown_call, degrade_call, call, calls,
}

-- The code of the error that a call returned, if it returned one.
abbrev pub exit_code : Exit → Option ErrorCode
exit_code (result r) = error_code r
exit_code cancelled_error = none

-- `start` answers success exactly from running, or from created when the hook returned, and then the
-- lifecycle runs; from created a hook that raised leaves it degraded; from any other state it answers a
-- conflict and changes nothing.
start_result :
    (h : HookEnd) (l : AsyncLifecycle)
    → (((start h l).1 ≡ result (success running))
        ↔ ((l.state ≡ running) ⊎ ((l.state ≡ created) × (h ≡ returned))))
      × ((start h l).1 ≡ result (success running) → (start h l).0.state ≡ running)
      × (l.state ≢ running
          → l.state ≢ created
          → (exit_code (start h l).1 ≡ some conflict) × ((start h l).0 ≡ l))
unfolding start
start_result h l = ground arith

-- `stopped` is final: no sequence of calls changes a stopped lifecycle, each further shutdown
-- succeeds and each further start is a conflict.
stopped_absorbs :
    (cs : List Call) (h : HookEnd) (l : AsyncLifecycle)
    → l.state ≡ stopped
    → (calls cs l ≡ l)
      × ((shutdown h l).1 ≡ result (success stopped))
      × (exit_code (start h l).1 ≡ some conflict)
unfolding calls
stopped_absorbs [] h l e = (refl, unfold shutdown in ground arith, unfold start in ground arith)
stopped_absorbs (c ∷ cs) h l e =
    let stays : call c l ≡ l = unfold call in ground arith in rw stays (stopped_absorbs cs h l e)

-- A call whose hook was not interrupted by the cancellation of its task.
abbrev pub Uninterrupted : Call → Type 0
Uninterrupted (start_call h) = h ≢ interrupted
Uninterrupted (shutdown_call h) = h ≢ interrupted
Uninterrupted (degrade_call m) = Unit

abbrev pub IsResting : AsyncLifecycle → Type 0
IsResting l = (l.state ≢ starting) × (l.state ≢ stopping)

call-IsResting :
    (c : Call) (l : AsyncLifecycle) → Uninterrupted c → IsResting l → IsResting (call c l)
unfolding call
call-IsResting (start_call returned) l u r = ground arith
call-IsResting (start_call (raised m)) l u r = ground arith
call-IsResting (start_call (timed_out m)) l u r = ground arith
call-IsResting (start_call interrupted) l u r = absurd (u refl)
call-IsResting (shutdown_call returned) l u r = ground arith
call-IsResting (shutdown_call (raised m)) l u r = ground arith
call-IsResting (shutdown_call (timed_out m)) l u r = ground arith
call-IsResting (shutdown_call interrupted) l u r = absurd (u refl)
call-IsResting (degrade_call m) l u r = ground arith

pub calls-IsResting :
    (cs : List Call) (l : AsyncLifecycle)
    → All Uninterrupted cs
    → IsResting l
    → IsResting (calls cs l)
unfolding calls
calls-IsResting [] l u r = r
calls-IsResting (c ∷ cs) l u r = calls-IsResting cs (call c l) u.1 (call-IsResting c l u.0 r)

resting_shutdown :
    (h : HookEnd) (l : AsyncLifecycle) → IsResting l → exit_code (shutdown h l).1 ≢ some conflict
unfolding shutdown
resting_shutdown h l r = ground arith

-- While no hook is interrupted by a cancellation, a lifecycle that began in created never rests in
-- starting or stopping, so the refusal "Shutdown is already in progress" is never given.
pub shutdown_never_conflicts :
    (cs : List Call) (h : HookEnd)
    → All Uninterrupted cs
    → IsResting (calls cs new_lifecycle)
      × (exit_code (shutdown h (calls cs new_lifecycle)).1 ≢ some conflict)
unfolding new_lifecycle
shutdown_never_conflicts cs h u =
    let fresh : AsyncLifecycle = record { state = created; reason = "" } in
    let rests = calls-IsResting cs fresh u ((λ e. cc), (λ e. cc)) in
    (rests, resting_shutdown h (calls cs fresh) rests)

abbrev pub IsStartOrShutdown : Call → Type 0
IsStartOrShutdown (degrade_call m) = ⊥
IsStartOrShutdown _ = Unit

stuck_in_stopping :
    (cs : List Call) (l : AsyncLifecycle)
    → All IsStartOrShutdown cs
    → l.state ≡ stopping
    → (calls cs l).state ≡ stopping
unfolding calls
stuck_in_stopping [] l s e = e
stuck_in_stopping (start_call h ∷ cs) l s e =
    stuck_in_stopping cs (call (start_call h) l) s.1 (unfold call in ground arith)
stuck_in_stopping (shutdown_call h ∷ cs) l s e =
    stuck_in_stopping cs (call (shutdown_call h) l) s.1 (unfold call in ground arith)
stuck_in_stopping (degrade_call m ∷ cs) l s e = absurd s.0

-- A shutdown whose task is cancelled while the hook runs wedges the lifecycle: it rests in stopping,
-- and however often start and shutdown are called again it stays there and shutdown answers a conflict.
pub interrupted_shutdown_wedges :
    (cs : List Call) (h : HookEnd) (l : AsyncLifecycle)
    → IsResting l
    → l.state ≢ stopped
    → All IsStartOrShutdown cs
    → ((calls cs (shutdown interrupted l).0).state ≡ stopping)
      × (exit_code (shutdown h (calls cs (shutdown interrupted l).0)).1 ≡ some conflict)
interrupted_shutdown_wedges cs h l r n s =
    let wedged : (shutdown interrupted l).0.state ≡ stopping = unfold shutdown in ground arith in
    let e = stuck_in_stopping cs (shutdown interrupted l).0 s wedged in
    (e, unfold shutdown in ground arith)
