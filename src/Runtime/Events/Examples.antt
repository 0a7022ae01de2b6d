-- ===== src/Runtime/Events/Examples.antt =====
-- A bus with a buffer of two events and a subscriber with a queue of one.
use py_tui_kairo.Common.{
  ◌-◌, ◌<◌, ◌≡◌, ◌↔◌, refl, min, max, true, false, none, some, List, [], ◌∷◌, length, arith,
}
use py_tui_kairo.Contracts.Enums.{EventType}
use py_tui_kairo.Contracts.Events.{EventPayload}
use py_tui_kairo.Contracts.Json.{no_member}
use py_tui_kairo.Runtime.Events.{
  EventBus, EventSubscription, Emission, queued, event_of, new_bus, emit, subscribe, receive,
  resume, snapshot, delivered, overflow, offer,
}
use py_tui_kairo.Runtime.Events.Sequence.{Follows}
use py_tui_kairo.Runtime.Events.Buffer.{
  Op, emit_op, receive_op, step, steps, steps-HasRecent, new-HasRecent, buffer_holds_newest,
  snapshot_exact,
}
use py_tui_kairo.Runtime.Events.Stream.{observe, Contiguous}
use py_tui_kairo.Runtime.Events.Subscribe.{subscriber_sees_every_gap}
use py_tui_kairo.Runtime.Events.Overflow.{late_report}

abbrev ping : Emission
ping = record {
  event_id = "id";
  timestamp = 0;
  event_type = EventType.notice;
  payload = EventPayload.notice_event "info" "ping" no_member;
  turn_sequence = none;
  turn_id = none;
  session_id = none;
  workspace_revision = 0;
}

abbrev three : List Op
three = emit_op ping ∷ emit_op ping ∷ emit_op ping ∷ []

abbrev small_bus : EventBus
small_bus = steps three (new_bus "k" 2 1)

buffer_holds_newest_example :
    (length small_bus.events ≡ min small_bus.sequence small_bus.max_buffer)
    × Follows (small_bus.sequence - length small_bus.events) small_bus.events
buffer_holds_newest_example = buffer_holds_newest three "k" 2 1

snapshot_exact_example :
    let r = snapshot 0 10 small_bus in
    let evicted = small_bus.sequence - length small_bus.events in
    Follows (max 0 evicted) r.events
    × (length r.events ≡ min 10 (small_bus.sequence - max 0 evicted))
    × ((r.gap ≡ true) ↔ (0 < evicted))
    × (r.newest_sequence ≡ small_bus.sequence)
snapshot_exact_example =
    snapshot_exact 0 10 small_bus (steps-HasRecent three (new-HasRecent "k" 2 1))

gap_seen : (snapshot 0 10 small_bus).gap ≡ true
unfolding snapshot steps step new_bus emit
gap_seen = refl

abbrev session : List Op
session =
    receive_op 0
    ∷ receive_op 0
    ∷ receive_op 0
    ∷ emit_op ping
    ∷ emit_op ping
    ∷ receive_op 0
    ∷ receive_op 0
    ∷ []

open_bus : small_bus.closed ≡ false
unfolding steps step new_bus emit
open_bus = refl

no_subscriptions : small_bus.subscriptions ≡ []
unfolding steps step new_bus emit
no_subscriptions = refl

subscriber_sees_every_gap_example :
    ((subscribe 0 none small_bus).0 ≡ some (length small_bus.subscriptions))
    × Contiguous
        (min (max 0 (small_bus.sequence - length small_bus.events)) small_bus.sequence)
        0
        (observe (length small_bus.subscriptions) session (subscribe 0 none small_bus).1)
subscriber_sees_every_gap_example =
    subscriber_sees_every_gap 0 none session small_bus
      (steps-HasRecent three (new-HasRecent "k" 2 1)) open_bus
      (tt, (tt, (tt, (tt, (tt, (tt, (tt, tt)))))))

-- The waiting subscriber after two emissions that its task had no turn between.
abbrev late : EventSubscription
late = offer (event_of "k" 2 ping) (
    offer (event_of "k" 1 ping) (record {
      replay = [];
      queue = [];
      maxsize = 1;
      closed = false;
      dropped = 0;
      last_delivered = 0;
      registered = true;
    }))

abbrev late_shape : EventSubscription
late_shape = record {
  replay = [];
  queue = queued (event_of "k" 2 ping) ∷ [];
  maxsize = 1;
  closed = false;
  dropped = 1;
  last_delivered = 0;
  registered = true;
}

late_lem : late ≡ late_shape
unfolding offer
late_lem = refl

late_report_example :
    let (first, s') = resume late_shape in
    (first ≡ delivered (event_of "k" 2 ping)) × (1 < 2) × ((receive s').0 ≡ overflow 2 1)
late_report_example =
    late_report 2 0 late_shape (event_of "k" 2 ping) []
      (record {
        alive = refl;
        member = refl;
        room = omega arith;
        bound = omega arith;
        replayed = tt;
        total = omega arith;
        waiting = (omega arith, tt);
        unreported = λ h. omega arith;
      })
      refl refl (omega arith)
