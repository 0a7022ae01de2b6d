-- ===== src/Runtime/Lifecycle.antt =====
-- kairo_kernel/runtime/lifecycle.py: the lifecycle of the kernel. The lock is held while a hook
-- runs, so `start` and `shutdown` are each one step; the hook is code of the caller, and how it ended
-- is an argument.
pub mod Transitions
mod Examples
use py_tui_kairo.Common.{Bool, true, false, List, [], ◌∷◌, String}
use py_tui_kairo.Contracts.Enums.{
  LifecycleState, created, starting, running, stopping, stopped, degraded, internal, conflict,
  shutdown_timeout, lifecycle_value,
}
use py_tui_kairo.Contracts.Errors.{KernelResult, KernelError, success, failure, kernel_error}
use Prim.Native.String.{◌++◌ as append_text}

-- The fields that change; the hooks are arguments of the operations.
pub record AsyncLifecycle : Type 0 where
  pub state : LifecycleState
  pub reason : String

-- How an awaited hook ended. `raised` is any other exception, with its text; a timeout is the
-- TimeoutError of `wait_for` or of the hook itself, with its text; a cancellation of the calling task is no
-- `Exception`, so no handler sees it.
pub data HookEnd : Type 0 where
  returned : HookEnd
  raised timed_out : String → HookEnd
  interrupted : HookEnd

-- What the caller gets: a result, or the CancelledError.
pub data Exit : Type 0 where
  result : KernelResult LifecycleState → Exit
  cancelled_error : Exit

unfoldable pub new_lifecycle : AsyncLifecycle
new_lifecycle = record { state = created; reason = "" }

abbrev operation_error : String → KernelError → KernelError
operation_error name e = record e { operation = name }

abbrev pub cannot_start : LifecycleState → KernelResult LifecycleState
cannot_start s = failure (
    kernel_error conflict
      (append_text "Cannot start lifecycle from " (append_text (lifecycle_value s) ".")))

-- The start hook, and what `start` does after it.
unfoldable pub finish_start : HookEnd → AsyncLifecycle → AsyncLifecycle × Exit
finish_start returned l = (record l { state = running }, result (success running))
finish_start (raised m) l = (
  record { state = degraded; reason = m },
  result (failure (operation_error "start" (kernel_error internal m))),
)
finish_start (timed_out m) l = (
  record { state = degraded; reason = m },
  result (failure (operation_error "start" (kernel_error internal m))),
)
finish_start interrupted l = (l, cancelled_error)

dispatch_start : LifecycleState → HookEnd → AsyncLifecycle → AsyncLifecycle × Exit
unfolding finish_start
dispatch_start running h l = (l, result (success running))
dispatch_start created h l = finish_start h (record l { state = starting })
dispatch_start s h l = (l, result (cannot_start s))

unfoldable pub start : HookEnd → AsyncLifecycle → AsyncLifecycle × Exit
unfolding dispatch_start
start h l = dispatch_start l.state h l

dispatch_degraded : LifecycleState → String → AsyncLifecycle → AsyncLifecycle
dispatch_degraded stopped m l = l
dispatch_degraded _ m l = record { state = degraded; reason = m }

unfoldable pub mark_degraded : String → AsyncLifecycle → AsyncLifecycle
unfolding dispatch_degraded
mark_degraded m l = dispatch_degraded l.state m l

abbrev pub timeout_message : String
timeout_message = "Lifecycle shutdown timed out."

-- The shutdown hook under `wait_for`, and what `shutdown` does after it.
unfoldable pub finish_shutdown : HookEnd → AsyncLifecycle → AsyncLifecycle × Exit
finish_shutdown returned l = (record l { state = stopped }, result (success stopped))
finish_shutdown (timed_out m) l = (
  record { state = degraded; reason = timeout_message },
  result (failure (operation_error "shutdown" (kernel_error shutdown_timeout timeout_message))),
)
finish_shutdown (raised m) l = (
  record { state = degraded; reason = m },
  result (failure (operation_error "shutdown" (kernel_error internal m))),
)
finish_shutdown interrupted l = (l, cancelled_error)

dispatch_shutdown : LifecycleState → HookEnd → AsyncLifecycle → AsyncLifecycle × Exit
unfolding finish_shutdown
dispatch_shutdown stopped h l = (l, result (success stopped))
dispatch_shutdown stopping h l =
    (l, result (failure (kernel_error conflict "Shutdown is already in progress.")))
dispatch_shutdown _ h l = finish_shutdown h (record l { state = stopping })

unfoldable pub shutdown : HookEnd → AsyncLifecycle → AsyncLifecycle × Exit
unfolding dispatch_shutdown
shutdown h l = dispatch_shutdown l.state h l

-- The calls that the lock puts in a row.
pub data Call : Type 0 where
  start_call shutdown_call : HookEnd → Call
  degrade_call : String → Call

unfoldable pub call : Call → AsyncLifecycle → AsyncLifecycle
unfolding start shutdown mark_degraded
call (start_call h) l = (start h l).0
call (shutdown_call h) l = (shutdown h l).0
call (degrade_call m) l = mark_degraded m l

unfoldable pub calls : List Call → AsyncLifecycle → AsyncLifecycle
unfolding call
calls [] l = l
calls (c ∷ cs) l = calls cs (call c l)
