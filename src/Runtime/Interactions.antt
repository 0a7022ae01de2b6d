-- ===== src/Runtime/Interactions.antt =====
-- kairo_kernel/runtime/interactions.py: the broker of tool, plan and text interactions. Nothing is awaited under its
-- lock, so a stretch between two awaits is one function. A time is a number (a datetime without a zone is UTC), and
-- `blank` stands for Python's test that `str.strip` leaves nothing.
pub mod FailClosed
pub mod Retention
pub mod Kept
pub mod Once
pub mod Expired
mod Examples
use Prim.Native.String.{◌++◌ as append_text}
use py_tui_kairo.Common.{
  ℕ, suc, max, Bool, true, false, ◌&&◌, ◌||◌, not, Option, none, some, List, [], ◌∷◌, ◌++◌, String,
  str_eq, ltb, leb, length, get_elem?, set, if◌then◌else◌,
}
use py_tui_kairo.Common.Dict.{Dict, get, put, remove, contains}
use py_tui_kairo.Contracts.Enums.{
  ErrorCode, InteractionAction, kernel_closing, conflict, interaction_expired,
  interaction_not_found, invalid_argument, reject, submit_text,
}
use py_tui_kairo.Contracts.Errors.{KernelResult, KernelError, success, failure, kernel_error}
use py_tui_kairo.Contracts.Interactions.{
  InteractionRequest, InteractionResponse, InteractionReceipt, grants, offered,
}

pub data Future : Type 0 where
  waiting cancelled : Future
  answered : InteractionResponse → Future

-- A call of `request` past its first await: its request and future, shared with `_Pending`.
pub record Call : Type 0 where
  pub request : InteractionRequest
  pub future : Future

-- `pending` holds the number of the call that an id was registered by.
pub record InteractionBroker : Type 0 where
  pub pending : Dict ℕ
  pub terminal : Dict String
  pub terminal_order : List String
  pub terminal_retention : ℕ
  pub closed : Bool
  pub calls : List Call

abbrev pub new_broker : ℕ → InteractionBroker
new_broker terminal_retention = record {
  pending = [];
  terminal = [];
  terminal_order = [];
  terminal_retention = max 1 terminal_retention;
  closed = false;
  calls = [];
}

abbrev pub done : Future → Bool
done Future.waiting = false
done _ = true

unfoldable pub safe_response : InteractionRequest → InteractionResponse
safe_response q = record {
  interaction_id = q.interaction_id;
  turn_id = q.turn_id;
  action = (if grants q.safe_default then reject else q.safe_default);
  text = "";
}

-- The `while` loop: the oldest ids go until no more than `n` are left.
unfoldable pub trim : ℕ → List String → Dict String → List String × Dict String
trim n [] terminal = ([], terminal)
trim n (oldest ∷ order) terminal =
    let rest = trim n order (remove oldest terminal) in
    if ltb n (suc (length order)) then rest else (oldest ∷ order, terminal)

unfoldable pub remember_terminal : String → String → InteractionBroker → InteractionBroker
unfolding trim
remember_terminal id state b =
    let order =
      (if contains id b.terminal then b.terminal_order else b.terminal_order ++ id ∷ []) in
    let (order', terminal') = trim b.terminal_retention order (put id state b.terminal) in
    record b { terminal_order = order'; terminal = terminal' }

-- `request` to its first await: the number of the call, or the error that is raised.
unfoldable pub open_request :
    InteractionRequest → InteractionBroker → KernelResult ℕ × InteractionBroker
open_request q b =
    if b.closed
    then (failure (kernel_error kernel_closing "Interaction broker is closed."), b)
    else if contains q.interaction_id b.pending || contains q.interaction_id b.terminal
    then (
      failure (record (kernel_error conflict "Interaction id has already been used.") {
        interaction_id = some q.interaction_id;
      }),
      b,
    )
    else (
      success (length b.calls),
      record b {
        pending = put q.interaction_id (length b.calls) b.pending;
        calls = b.calls ++ record { request = q; future = Future.waiting } ∷ [];
      },
    )

abbrev pub set_future : Future → Call → Call
set_future f c = record c { future = f }

-- `future.cancel()` or `future.set_result(...)` unless it is done.
abbrev pub settle : (InteractionRequest → Future) → Call → Call
settle f c = if done c.future then c else set_future (f c.request) c

unfoldable pub settle_at : (InteractionRequest → Future) → Option ℕ → List Call → List Call
settle_at f none calls = calls
settle_at f (some i) calls = elim (get_elem? calls i) [
  | none ↦ calls
  | some c ↦ set calls i (settle f c)
]

-- `pending = self._pending.pop(id, None)`, its future cancelled unless done.
unfoldable pub pop_cancel : String → InteractionBroker → InteractionBroker
unfolding settle_at
pop_cancel id b = record b {
  pending = remove id b.pending;
  calls = settle_at (λ q. Future.cancelled) (get id b.pending) b.calls;
}

-- The `finally` of `request`.
unfoldable pub finally_request : InteractionRequest → InteractionBroker → InteractionBroker
unfolding pop_cancel remember_terminal
finally_request q b =
    if contains q.interaction_id b.pending
    then remember_terminal q.interaction_id "resolved" (pop_cancel q.interaction_id b)
    else b

-- How `asyncio.wait` ended when the future was not done.
abbrev pub end_state : Bool → String
end_state cancellation_done = if cancellation_done then "cancelled" else "expired"

-- `request` from the end of `asyncio.wait`; `none` is the CancelledError of a cancelled future.
unfoldable pub wake :
    Call → Bool → InteractionBroker → Option InteractionResponse × InteractionBroker
unfolding finally_request pop_cancel remember_terminal safe_response
wake c cancellation_done b = elim c.future [
  | Future.answered r ↦ (some r, finally_request c.request b)
  | Future.cancelled ↦ (none, finally_request c.request b)
  | Future.waiting ↦ (
    some (safe_response c.request),
    finally_request c.request (
        remember_terminal c.request.interaction_id (end_state cancellation_done)
          (pop_cancel c.request.interaction_id b)),
  )
]

-- What `respond` ends with; `raised` is the InvalidStateError of a future that is already done.
pub data Responded : Type 0 where
  accepted : InteractionReceipt → Responded
  refused : KernelError → Responded
  raised : Responded

refuse : InteractionResponse → ErrorCode → String → Responded
refuse r code message =
    refused (record (kernel_error code message) { interaction_id = some r.interaction_id })

abbrev is_submit : InteractionAction → Bool
is_submit submit_text = true
is_submit _ = false

-- `expires_at is not None and expires_at <= now`
unfoldable pub is_due : ℕ → Option ℕ → Bool
is_due now none = false
is_due now (some expires_at) = leb expires_at now

unfoldable pub expire :
    ℕ → Call → InteractionResponse → InteractionBroker → Responded × InteractionBroker
unfolding remember_terminal safe_response refuse
expire i c r b =
    let popped : InteractionBroker = record b { pending = remove r.interaction_id b.pending } in
    if done c.future then (raised, popped) else (
      refuse r interaction_expired "Interaction has expired.",
      remember_terminal r.interaction_id "expired" (record popped {
        calls = set b.calls i (set_future (Future.answered (safe_response c.request)) c);
      }),
    )

unfoldable pub answer :
    (String → Bool)
    → ℕ
    → Call
    → InteractionResponse
    → InteractionBroker
    → Responded × InteractionBroker
unfolding refuse
answer blank i c r b =
    if not (str_eq r.turn_id c.request.turn_id)
    then (refuse r invalid_argument "Interaction turn_id does not match.", b)
    else if not (offered r.action c.request.choices)
    then (refuse r invalid_argument "Interaction action was not offered.", b)
    else if is_submit r.action && blank r.text
    then (refuse r invalid_argument "Text response must not be empty.", b)
    else if done c.future
    then (refuse r conflict "Interaction was already resolved.", b)
    else (
      accepted (record { interaction_id = r.interaction_id; turn_id = r.turn_id; accepted = true }),
      record b { calls = set b.calls i (set_future (Future.answered r) c) },
    )

-- The refusal of an id that is not pending, by its terminal state.
abbrev not_pending : InteractionResponse → Option String → Responded
not_pending r none = refuse r interaction_not_found "Interaction is not pending (unknown)."
not_pending r (some state) =
    refuse r (if str_eq state "expired" then interaction_expired else conflict)
      (append_text "Interaction is not pending (" (append_text state ")."))

unfoldable pub respond_to :
    (String → Bool)
    → ℕ
    → Option ℕ
    → InteractionResponse
    → InteractionBroker
    → Responded × InteractionBroker
unfolding expire answer
respond_to blank now none r b = (not_pending r (get r.interaction_id b.terminal), b)
respond_to blank now (some i) r b = elim (get_elem? b.calls i) [
  | none ↦ (not_pending r (get r.interaction_id b.terminal), b)
  | some c ↦ if is_due now c.request.expires_at then expire i c r b else answer blank i c r b
]

unfoldable pub respond :
    (String → Bool) → ℕ → InteractionResponse → InteractionBroker → Responded × InteractionBroker
unfolding respond_to
respond blank now r b =
    if b.closed
    then (refuse r kernel_closing "Interaction broker is closed.", b)
    else respond_to blank now (get r.interaction_id b.pending) r b

unfoldable pub shutdown_items : Dict ℕ → InteractionBroker → InteractionBroker
unfolding settle_at remember_terminal safe_response
shutdown_items [] b = b
shutdown_items ((id, i) ∷ items) b = shutdown_items items (
    remember_terminal id "shutdown"
      (record b { calls = settle_at (λ q. Future.answered (safe_response q)) (some i) b.calls }))

unfoldable pub shutdown : InteractionBroker → InteractionBroker
unfolding shutdown_items
shutdown b =
    if b.closed then b else shutdown_items b.pending (record b { closed = true; pending = [] })

-- What the tasks of the program do to the broker: `wake_call` and `abort_call` are a return of `asyncio.wait` in a call
-- of `request`, and its cancellation there.
pub data BrokerStep : Type 0 where
  open_call : InteractionRequest → BrokerStep
  wake_call : ℕ → Bool → BrokerStep
  abort_call : ℕ → BrokerStep
  respond_at : ℕ → InteractionResponse → BrokerStep
  shut_down : BrokerStep

abbrev pub at_call :
    (Call → InteractionBroker → InteractionBroker) → ℕ → InteractionBroker → InteractionBroker
at_call f i b = elim (get_elem? b.calls i) [ none ↦ b | some c ↦ f c b ]

unfoldable pub step : (String → Bool) → BrokerStep → InteractionBroker → InteractionBroker
unfolding open_request wake finally_request respond shutdown
step blank (open_call q) b = (open_request q b).1
step blank (wake_call i cancellation_done) b = at_call (λ c x. (wake c cancellation_done x).1) i b
step blank (abort_call i) b = at_call (λ c x. finally_request c.request x) i b
step blank (respond_at now r) b = (respond blank now r b).1
step blank shut_down b = shutdown b

unfoldable pub run : (String → Bool) → List BrokerStep → InteractionBroker → InteractionBroker
run blank [] b = b
run blank (x ∷ xs) b = run blank xs (step blank x b)
