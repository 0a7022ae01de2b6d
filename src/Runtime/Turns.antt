-- ===== src/Runtime/Turns.antt =====
-- kairo_kernel/runtime/turns.py: at most one active turn for each session. Each method runs under
-- the condition's lock and awaits nothing there, so it is one step.
pub mod Exclusion
pub mod Leases
mod Examples
use Prim.Native.String.{◌++◌ as append_text}
use py_tui_kairo.Common.{
  ℕ, Bool, true, false, not, Option, none, some, List, [], ◌∷◌, String, str_eq, any_of,
  if◌then◌else◌,
}
use py_tui_kairo.Common.Dict.{Dict, get, put, remove}
use py_tui_kairo.Contracts.Enums.{kernel_closing, kernel_busy, conflict}
use py_tui_kairo.Contracts.Json.{JsonValue, from_pair}
use py_tui_kairo.Contracts.Errors.{KernelResult, KernelError, success, failure, kernel_error}

-- `_active` (session to turn) and `_closing`
pub record SessionTurnSupervisor : Type 0 where
  pub active : Dict String
  pub closing : Bool

pub record TurnLease : Type 0 where
  pub session_id : String
  pub turn_id : String
  pub released : Bool

abbrev pub new_supervisor : SessionTurnSupervisor
new_supervisor = record { active = []; closing = false }

-- `turn_id in self._active.values()`
unfoldable pub turn_active : String → Dict String → Bool
turn_active t d = any_of (λ (p : String × String). str_eq p.1 t) d

abbrev pub busy : String → KernelError
busy active =
    record (kernel_error kernel_busy
      (append_text "Session already has active turn " (append_text active "."))) {
        retryable = true;
        details = from_pair "active_turn_id" (JsonValue.text active);
      }

admit :
    String
    → String
    → Option String
    → SessionTurnSupervisor
    → KernelResult TurnLease × SessionTurnSupervisor
admit s t (some active) v = (failure (busy active), v)
admit s t none v =
    if turn_active t v.active
    then (failure (kernel_error conflict "Turn id is already active."), v)
    else (
      success (record { session_id = s; turn_id = t; released = false }),
      record v { active = put s t v.active },
    )

unfoldable pub start :
    String → String → SessionTurnSupervisor → KernelResult TurnLease × SessionTurnSupervisor
unfolding admit
start s t v =
    if v.closing
    then (failure (kernel_error kernel_closing "Turn supervisor is closing."), v)
    else admit s t (get s v.active) v

-- `self._active.get(session_id) != turn_id`
abbrev is_turn : Option String → String → Bool
is_turn none t = false
is_turn (some u) t = str_eq u t

unfoldable pub finish : String → String → SessionTurnSupervisor → Bool × SessionTurnSupervisor
finish s t v =
    if is_turn (get s v.active) t
    then (true, record v { active = remove s v.active })
    else (false, v)

-- `TurnLease.release`; the lease is an object of its own.
unfoldable pub release :
    TurnLease → SessionTurnSupervisor → Bool × TurnLease × SessionTurnSupervisor
unfolding finish
release l v =
    if l.released
    then (false, l, v)
    else let (done, v') = finish l.session_id l.turn_id v in
      (done, record l { released = true }, v')

-- The result is the tuple of what is still active.
unfoldable pub close_admission : SessionTurnSupervisor → Dict String × SessionTurnSupervisor
close_admission v = (v.active, record v { closing = true })

abbrev pub is_idle : SessionTurnSupervisor → Bool
is_idle v = elim v.active [ [] ↦ true | _ ∷ _ ↦ false ]

-- What the tasks of the kernel do, in the order in which they get the lock.
pub data Op : Type 0 where
  start_op finish_op : String → String → Op
  close_op : Op

unfoldable pub step : Op → SessionTurnSupervisor → SessionTurnSupervisor
unfolding start finish close_admission
step (start_op s t) v = (start s t v).1
step (finish_op s t) v = (finish s t v).1
step close_op v = (close_admission v).1

unfoldable pub steps : List Op → SessionTurnSupervisor → SessionTurnSupervisor
steps [] v = v
steps (o ∷ os) v = steps os (step o v)

-- What happens while `wait_idle` waits: a step of another task, or the waiter gets the lock again.
pub data Moment : Type 0 where
  other : Op → Moment
  woken : Moment

-- `wait_for` after its first test, up to the timeout, which the end of the list stands for.
wait_loop : List Moment → SessionTurnSupervisor → Bool × SessionTurnSupervisor
wait_loop [] v = (false, v)
wait_loop (other o ∷ ms) v = wait_loop ms (step o v)
wait_loop (woken ∷ ms) v = let rest = wait_loop ms v in if is_idle v then (true, v) else rest

-- The result, with the state in which it was decided.
unfoldable pub wait_idle : List Moment → SessionTurnSupervisor → Bool × SessionTurnSupervisor
unfolding wait_loop
wait_idle ms v = if is_idle v then (true, v) else wait_loop ms v
