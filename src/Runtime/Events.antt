-- ===== src/Runtime/Events.antt =====
-- kairo_kernel/runtime/events.py: the event bus and its subscriptions. No method awaits anything under
-- the bus's lock and the lock is never contended, so each method is one step up to its first wait. The
-- only wait is that of `receive` on an empty queue: `resume` is what follows it.
-- Identifiers and times come from outside and are arguments.
pub mod Sequence
pub mod Buffer
pub mod Delivery
pub mod Stream
pub mod Subscribe
pub mod Overflow
mod Examples
use py_tui_kairo.Common.{
  ℕ, zero, suc, ◌+◌, ◌-◌, max, Bool, true, false, Option, none, some, List, [], ◌∷◌, ◌++◌, map,
  String, ltb, leb, length, take, drop, keep, get_elem?, set, if◌then◌else◌,
}
use py_tui_kairo.Contracts.Enums.{EventType}
use py_tui_kairo.Contracts.Events.{EventPayload, KernelEvent, EventReplay}

-- What stands in a subscriber's queue: an event, or `_CLOSED`.
pub data Queued : Type 0 where
  queued : KernelEvent → Queued
  closed_mark : Queued

-- `registered` says whether the subscription is in the bus's set.
pub record EventSubscription : Type 0 where
  pub replay : List KernelEvent
  pub queue : List Queued
  pub maxsize : ℕ
  pub closed : Bool
  pub dropped : ℕ
  pub last_delivered : ℕ
  pub registered : Bool

-- The subscriptions are all that were ever made, in order; a caller holds the index of its own.
pub record EventBus : Type 0 where
  pub kernel_id : String
  pub max_buffer : ℕ
  pub subscriber_queue_size : ℕ
  pub events : List KernelEvent
  pub subscriptions : List EventSubscription
  pub sequence : ℕ
  pub closed : Bool

unfoldable pub new_bus : String → ℕ → ℕ → EventBus
new_bus kernel_id max_buffer queue_size = record {
  kernel_id = kernel_id;
  max_buffer = max 1 max_buffer;
  subscriber_queue_size = max 1 queue_size;
  events = [];
  subscriptions = [];
  sequence = 0;
  closed = false;
}

-- `put_nowait` behind a check of `full` that takes the oldest item out.
unfoldable pub offer : KernelEvent → EventSubscription → EventSubscription
offer e s =
    if s.closed
    then s
    else if leb s.maxsize (length s.queue)
    then record s { queue = drop 1 s.queue ++ queued e ∷ []; dropped = s.dropped + 1 }
    else record s { queue = s.queue ++ queued e ∷ [] }

unfoldable pub wake_closed : EventSubscription → EventSubscription
wake_closed s =
    if leb s.maxsize (length s.queue)
    then record s { queue = drop 1 s.queue ++ closed_mark ∷ [] }
    else record s { queue = s.queue ++ closed_mark ∷ [] }

unfoldable pub offer_registered : KernelEvent → EventSubscription → EventSubscription
unfolding offer
offer_registered e s = if s.registered then offer e s else s

-- `deque(maxlen=bound)`: an append beyond the bound takes the oldest out.
unfoldable pub append_bounded : ℕ → List KernelEvent → KernelEvent → List KernelEvent
append_bounded bound es e = drop (length (es ++ e ∷ []) - bound) (es ++ e ∷ [])

-- The arguments of `emit`, with the event's id and time.
pub record Emission : Type 0 where
  pub event_id : String
  pub timestamp : ℕ
  pub event_type : EventType
  pub payload : EventPayload
  pub turn_sequence : Option ℕ
  pub turn_id : Option String
  pub session_id : Option String
  pub workspace_revision : ℕ

abbrev pub event_of : String → ℕ → Emission → KernelEvent
event_of kernel_id sequence x = record {
  event_id = x.event_id;
  kernel_id = kernel_id;
  sequence = sequence;
  timestamp = x.timestamp;
  event_type = x.event_type;
  payload = x.payload;
  turn_sequence = x.turn_sequence;
  turn_id = x.turn_id;
  session_id = x.session_id;
  workspace_revision = x.workspace_revision;
}

-- `none` is the RuntimeError of a closed bus.
unfoldable pub emit : Emission → EventBus → Option KernelEvent × EventBus
unfolding append_bounded offer_registered
emit x b =
    if b.closed
    then (none, b)
    else let e = event_of b.kernel_id (b.sequence + 1) x in
      (
        some e,
        record b {
          sequence = b.sequence + 1;
          events = append_bounded b.max_buffer b.events e;
          subscriptions = map (offer_registered e) b.subscriptions;
        },
      )

-- `publish` emits an event again under a new id, time and sequence.
unfoldable pub publish : String → ℕ → KernelEvent → EventBus → Option KernelEvent × EventBus
unfolding emit
publish event_id now e = emit (record {
  event_id = event_id;
  timestamp = now;
  event_type = e.event_type;
  payload = e.payload;
  turn_sequence = e.turn_sequence;
  turn_id = e.turn_id;
  session_id = e.session_id;
  workspace_revision = e.workspace_revision;
})

first_sequence : List KernelEvent → ℕ → ℕ
first_sequence [] default = default
first_sequence (e ∷ es) default = e.sequence

last_sequence : List KernelEvent → ℕ → ℕ
last_sequence [] default = default
last_sequence (e ∷ es) default = last_sequence es e.sequence

unfoldable pub snapshot : ℕ → ℕ → EventBus → EventReplay
unfolding first_sequence last_sequence
snapshot after limit b =
    let oldest = first_sequence b.events (b.sequence + 1) in
    record {
      events = take limit (keep (λ (e : KernelEvent). ltb after e.sequence) b.events);
      oldest_sequence = oldest;
      newest_sequence = last_sequence b.events b.sequence;
      gap = ltb after (oldest - 1);
    }

-- `queue_size or self.subscriber_queue_size`
unfoldable pub size_or : Option ℕ → ℕ → ℕ
size_or none default = default
size_or (some zero) default = default
size_or (some (suc n)) default = suc n

-- `EventSubscription.__init__`
unfoldable pub new_subscription : List KernelEvent → ℕ → ℕ → EventSubscription
new_subscription replay queue_size sequence = record {
  replay = replay;
  queue = [];
  maxsize = max 1 queue_size;
  closed = false;
  dropped = 0;
  last_delivered = elim replay [ [] ↦ sequence | e ∷ _ ↦ e.sequence - 1 ];
  registered = true;
}

-- `none` is the RuntimeError of a closed bus; else the index of the new subscription.
unfoldable pub subscribe : ℕ → Option ℕ → EventBus → Option ℕ × EventBus
unfolding snapshot size_or new_subscription
subscribe after queue_size b = if b.closed then (none, b) else (
  some (length b.subscriptions),
  record b {
    subscriptions =
        b.subscriptions
        ++ new_subscription (snapshot after b.max_buffer b).events
            (size_or queue_size b.subscriber_queue_size) b.sequence
          ∷ [];
  },
)

-- What `receive` does: an event, the SubscriberOverflow with its two numbers, the RuntimeError of a
-- closed subscription, or a wait.
pub data Received : Type 0 where
  delivered : KernelEvent → Received
  overflow : ℕ → ℕ → Received
  closed_error blocked : Received

-- `queue.get()` where the queue is not empty, and what follows it.
from_queue : List Queued → EventSubscription → Received × EventSubscription
from_queue [] s = (blocked, s)
from_queue (closed_mark ∷ q) s = (closed_error, record s { queue = q })
from_queue (queued e ∷ q) s = (delivered e, record s { queue = q; last_delivered = e.sequence })

after_replay : EventSubscription → Received × EventSubscription
unfolding from_queue
after_replay s =
    if ltb 0 s.dropped
    then (overflow s.last_delivered s.dropped, record s { dropped = 0 })
    else from_queue s.queue s

from_replay : List KernelEvent → EventSubscription → Received × EventSubscription
unfolding after_replay
from_replay [] s = after_replay s
from_replay (e ∷ es) s = (delivered e, record s { replay = es; last_delivered = e.sequence })

-- `receive` up to its wait.
unfoldable pub receive : EventSubscription → Received × EventSubscription
unfolding from_replay
receive s = if s.closed then (closed_error, s) else from_replay s.replay s

-- A `receive` that waited, once its task runs again: it takes what is then first in the queue.
unfoldable pub resume : EventSubscription → Received × EventSubscription
unfolding from_queue
resume s = from_queue s.queue s

-- `EventSubscription.close`, `_unsubscribe` included.
unfoldable pub close_subscription : EventSubscription → EventSubscription
unfolding wake_closed
close_subscription s =
    if s.closed then s else record (wake_closed (record s { closed = true })) { registered = false }

close_registered : EventSubscription → EventSubscription
unfolding wake_closed
close_registered s =
    if s.registered
    then record (wake_closed (record s { closed = true })) { registered = false }
    else s

unfoldable pub close : EventBus → EventBus
unfolding close_registered
close b = record b { closed = true; subscriptions = map close_registered b.subscriptions }
