-- ===== src/Runtime/Events/Subscribe.antt =====
-- What a new subscriber sees from its first event on.
use py_tui_kairo.Common.{
  ℕ, ◌-◌, min, max, ◌≡◌, refl, subst, Option, some, List, [], ◌∷◌, ◌++◌, false, length,
  get_elem?-append_last, All, arith,
}
use py_tui_kairo.Contracts.Events.{KernelEvent}
use py_tui_kairo.Runtime.Events.{EventBus, subscribe, new_subscription, snapshot, size_or}
use py_tui_kairo.Runtime.Events.Sequence.{Follows}
use py_tui_kairo.Runtime.Events.Buffer.{Op, HasRecent, snapshot_exact}
use py_tui_kairo.Runtime.Events.Delivery.{Accounts}
use py_tui_kairo.Runtime.Events.Stream.{observe, LeavesOpen, Contiguous, observe-Contiguous}

replay-Accounts :
    (start n size : ℕ) (es : List KernelEvent)
    → Follows start es
    → length es ≡ n - start
    → Accounts n 0 (new_subscription es size n)
      × ((new_subscription es size n).last_delivered ≡ min start n)
unfolding new_subscription
replay-Accounts start n size [] f h = (
  record {
    alive = refl;
    member = refl;
    room = omega arith;
    bound = omega arith;
    replayed = tt;
    total = omega arith;
    waiting = tt;
    unreported = λ x. refl;
  },
  omega arith,
)
replay-Accounts start n size (e ∷ es) f h = (
  record {
    alive = refl;
    member = refl;
    room = omega arith;
    bound = omega arith;
    replayed = subst (λ m. Follows m (e ∷ es)) (omega (arith, f.0)) f;
    total = omega (arith, f.0);
    waiting = tt;
    unreported = λ x. refl;
  },
  omega (arith, f.0),
)

-- A new subscription accounts for everything: it begins with the oldest event beyond the number asked
-- for that is still buffered.
new-Accounts :
    (after : ℕ) (size : Option ℕ) (b : EventBus)
    → HasRecent b
    → let s =
        new_subscription
          (snapshot after b.max_buffer b).events
          (size_or size b.subscriber_queue_size)
          b.sequence in
      Accounts b.sequence 0 s
      × (s.last_delivered ≡ min (max after (b.sequence - length b.events)) b.sequence)
new-Accounts after size b r =
    let (follows, count, gap, newest) = snapshot_exact after b.max_buffer b r in
    replay-Accounts (max after (b.sequence - length b.events)) b.sequence
      (size_or size b.subscriber_queue_size) (snapshot after b.max_buffer b).events follows
      (omega (arith, count, r.count))

subscribe_open :
    (after : ℕ) (size : Option ℕ) (b : EventBus)
    → b.closed ≡ false
    → subscribe after size b ≡ (
      some (length b.subscriptions),
      record b {
        subscriptions =
            b.subscriptions
            ++ new_subscription
                (snapshot after b.max_buffer b).events
                (size_or size b.subscriber_queue_size)
                b.sequence
              ∷ [];
      },
    )
unfolding subscribe
subscribe_open after size b h = ground arith

-- A subscriber that asks for the events after a sequence number gets the index of its subscription, and
-- from then on, while any tasks emit, subscribe, receive and unsubscribe in any order, until its
-- subscription or the bus is closed, its calls of `receive` that need not wait give a stream with no
-- silent loss: it begins after that number or after what the buffer has evicted, each event comes right
-- after the one before it and those reported as lost, and each report is of a loss.
pub subscriber_sees_every_gap :
    (after : ℕ) (size : Option ℕ) (os : List Op) (b : EventBus)
    → HasRecent b
    → b.closed ≡ false
    → All (LeavesOpen (length b.subscriptions)) os
    → ((subscribe after size b).0 ≡ some (length b.subscriptions))
      × Contiguous
          (min (max after (b.sequence - length b.events)) b.sequence)
          0
          (observe (length b.subscriptions) os (subscribe after size b).1)
subscriber_sees_every_gap after size os b r o l =
    let s =
      new_subscription (snapshot after b.max_buffer b).events (size_or size b.subscriber_queue_size)
        b.sequence in
    let (c, start) = new-Accounts after size b r in
    rw (subscribe_open after size b o) (
      refl,
      subst
          (λ m. Contiguous m 0 (
            observe (length b.subscriptions) os
              (record b { subscriptions = b.subscriptions ++ s ∷ [] })))
          start
          (observe-Contiguous (length b.subscriptions) 0 os s
            (record b { subscriptions = b.subscriptions ++ s ∷ [] }) l
            (get_elem?-append_last b.subscriptions s, c)),
    )
