-- ===== src/Runtime/Events/Overflow.antt =====
-- A `receive` that waited on the empty queue, and runs again after the queue has overflowed.
use py_tui_kairo.Common.{
  ℕ, ◌+◌, ◌-◌, ◌<◌, ◌≡◌, refl, ap, ◌∙◌, subst, List, [], ◌∷◌, false, arith, length,
}
use py_tui_kairo.Contracts.Events.{KernelEvent}
use py_tui_kairo.Runtime.Events.{
  Queued, queued, EventSubscription, Received, delivered, overflow, receive, resume, from_queue,
  from_replay, after_replay,
}
use py_tui_kairo.Runtime.Events.Sequence.{FollowsQueued}
use py_tui_kairo.Runtime.Events.Delivery.{Accounts}

resume_queued :
    (s : EventSubscription) (e : KernelEvent) (q : List Queued)
    → s.queue ≡ queued e ∷ q
    → resume s ≡ (delivered e, record s { queue = q; last_delivered = e.sequence })
unfolding resume
resume_queued s e q g = ap (λ k. from_queue k s) g

receive_dropped :
    (s : EventSubscription)
    → s.closed ≡ false
    → s.replay ≡ []
    → 0 < s.dropped
    → (receive s).0 ≡ overflow s.last_delivered s.dropped
unfolding receive
receive_dropped s a r d =
    let alive : receive s ≡ from_replay s.replay s = ground arith in
    let drained : from_replay s.replay s ≡ after_replay s = ap (λ es. from_replay es s) r in
    ap (λ (p : Received × EventSubscription). p.0) (alive ∙ drained) ∙ ground arith

-- Whenever events were dropped while a `receive` was waiting, that call delivers the oldest event left
-- although those before it were lost, and only the next call reports the loss, and it reports it as
-- one after the event just delivered.
pub late_report :
    (n lost : ℕ) (s : EventSubscription) (e : KernelEvent) (q : List Queued)
    → Accounts n lost s
    → s.replay ≡ []
    → s.queue ≡ queued e ∷ q
    → 0 < s.dropped
    → let (first, s') = resume s in
      (first ≡ delivered e)
      × (s.last_delivered + lost + 1 < e.sequence)
      × ((receive s').0 ≡ overflow e.sequence s.dropped)
late_report n lost s e q c r g d =
    let f = subst (λ k. FollowsQueued (n - length k) k) g c.waiting in
    let size : length s.queue ≡ length (queued e ∷ q) = ap length g in
    let none_left : length s.replay ≡ 0 = ap length r in
    rw (resume_queued s e q g) (
      refl,
      omega (arith, f.0, c.total),
      receive_dropped (record s { queue = q; last_delivered = e.sequence }) c.alive r d,
    )
