-- ===== src/Runtime/Events/Delivery.antt =====
-- Every event that a live subscriber does not get is reported to it.
use py_tui_kairo.Common.{
  ℕ, suc, ◌+◌, ◌-◌, ◌≤◌, ◌<◌, ◌≡◌, refl, ap, subst, List, [], ◌∷◌, ◌++◌, true, false, arith, length,
  length-append, drop, ltb, ltb→lt, leb, Bool-cases, inl, inr,
}
use py_tui_kairo.Contracts.Events.{KernelEvent}
use py_tui_kairo.Runtime.Events.{
  Queued, queued, closed_mark, EventSubscription, offer, Received, delivered, overflow,
  closed_error, blocked, receive, from_replay, after_replay, from_queue,
}
use py_tui_kairo.Runtime.Events.Sequence.{
  Follows, FollowsQueued, FollowsQueued-append, FollowsQueued-drop_one,
}

-- The subscription `s` at a bus whose sequence is `n`, where `lost` events have been reported as lost since the
-- last delivery: what was delivered, reported, dropped, and what waits to be delivered, is all there is.
pub record Accounts (n lost : ℕ) (s : EventSubscription) : Type 0 where
  pub alive : s.closed ≡ false
  pub member : s.registered ≡ true
  pub room : 1 ≤ s.maxsize
  pub bound : length s.queue ≤ s.maxsize
  pub replayed : Follows s.last_delivered s.replay
  pub total : s.last_delivered + lost + s.dropped + length s.replay + length s.queue ≡ n
  pub waiting : FollowsQueued (n - length s.queue) s.queue
  pub unreported : 0 < length s.replay → lost ≡ 0

offer_full :
    (e : KernelEvent) (s : EventSubscription)
    → s.closed ≡ false
    → s.maxsize ≤ length s.queue
    → offer e s ≡ record s { queue = drop 1 s.queue ++ queued e ∷ []; dropped = s.dropped + 1 }
unfolding offer
offer_full e s a h = ground arith

offer_room :
    (e : KernelEvent) (s : EventSubscription)
    → s.closed ≡ false
    → length s.queue < s.maxsize
    → offer e s ≡ record s { queue = s.queue ++ queued e ∷ [] }
unfolding offer
offer_room e s a h = ground arith

length-drop_one : (q : List Queued) → length (drop 1 q) ≡ length q - 1
length-drop_one [] = omega arith
length-drop_one (x ∷ q) = omega arith

queue_push :
    (n : ℕ) (q : List Queued) (e : KernelEvent)
    → e.sequence ≡ n + 1
    → length q ≤ n
    → FollowsQueued (n - length q) q
    → FollowsQueued (n + 1 - length (q ++ queued e ∷ [])) (q ++ queued e ∷ [])
queue_push n q e h l f =
    subst (λ m. FollowsQueued m (q ++ queued e ∷ []))
      (omega (arith, length-append q (queued e ∷ [])))
      (FollowsQueued-append (n - length q) q e f (omega arith))

queue_pop :
    (n : ℕ) (q : List Queued)
    → 0 < length q
    → length q ≤ n
    → FollowsQueued (n - length q) q
    → FollowsQueued (n - length (drop 1 q)) (drop 1 q)
queue_pop n q p l f =
    subst (λ m. FollowsQueued m (drop 1 q)) (omega (arith, length-drop_one q))
      (FollowsQueued-drop_one (n - length q) q f p)

pub offer-Accounts :
    (e : KernelEvent) (n lost : ℕ) (s : EventSubscription)
    → e.sequence ≡ n + 1
    → Accounts n lost s
    → Accounts (n + 1) lost (offer e s)
offer-Accounts e n lost s h c = elim (Bool-cases (leb s.maxsize (length s.queue))) [
  | inl full ↦
      let f : s.maxsize ≤ length s.queue = ground arith in
      rw (offer_full e s c.alive f) (record {
        alive = c.alive;
        member = c.member;
        room = c.room;
        bound = omega (
          arith,
          c.bound,
          c.room,
          length-append (drop 1 s.queue) (queued e ∷ []),
          length-drop_one s.queue,
        );
        replayed = c.replayed;
        total = omega (
          arith,
          c.total,
          c.room,
          length-append (drop 1 s.queue) (queued e ∷ []),
          length-drop_one s.queue,
        );
        waiting =
            queue_push n (drop 1 s.queue) e h (omega (arith, c.total, length-drop_one s.queue))
              (queue_pop n s.queue (omega (arith, c.room)) (omega (arith, c.total)) c.waiting);
        unreported = c.unreported;
      })
  | inr free ↦
      let f : length s.queue < s.maxsize = ground arith in
      rw (offer_room e s c.alive f) (record {
        alive = c.alive;
        member = c.member;
        room = c.room;
        bound = omega (arith, length-append s.queue (queued e ∷ []));
        replayed = c.replayed;
        total = omega (arith, c.total, length-append s.queue (queued e ∷ []));
        waiting = queue_push n s.queue e h (omega (arith, c.total)) c.waiting;
        unreported = c.unreported;
      })
]

-- What a receive that did not wait means for a subscriber that accounts for everything.
abbrev pub Sound : ℕ → ℕ → EventSubscription → Received × EventSubscription → Type 0
Sound n lost s (delivered e, s') =
    (e.sequence ≡ s.last_delivered + lost + 1) × (s'.last_delivered ≡ e.sequence) × Accounts n 0 s'
Sound n lost s (overflow last d, s') =
    (last ≡ s.last_delivered) × (s'.last_delivered ≡ last) × (0 < d) × Accounts n (lost + d) s'
Sound n lost s (blocked, s') = (s' ≡ s) × (s.last_delivered + lost ≡ n)
Sound n lost s (closed_error, s') = ⊥

from_queue-Sound :
    (n lost : ℕ) (s : EventSubscription) (q : List Queued)
    → s.queue ≡ q
    → s.replay ≡ []
    → s.dropped ≡ 0
    → Accounts n lost s
    → Sound n lost s (from_queue q s)
unfolding from_queue
from_queue-Sound n lost s [] e r d c = (refl, omega (arith, c.total, ap length e, ap length r))
from_queue-Sound n lost s (closed_mark ∷ q) e r d c =
    absurd (subst (λ k. FollowsQueued (n - length k) k) e c.waiting)
from_queue-Sound n lost s (queued x ∷ q) e r d c =
    let f = subst (λ k. FollowsQueued (n - length k) k) e c.waiting in
    let size : length s.queue ≡ suc (length q) = ap length e in
    let none : length s.replay ≡ 0 = ap length r in
    let next : x.sequence ≡ s.last_delivered + lost + 1 = omega (arith, f.0, c.total) in
    (
      next,
      refl,
      record {
        alive = c.alive;
        member = c.member;
        room = c.room;
        bound = omega (arith, c.bound);
        replayed = rw r tt;
        total = omega (arith, c.total);
        waiting = subst (λ m. FollowsQueued m q) (omega (arith, c.total)) f.1;
        unreported = λ h. refl;
      },
    )

after_replay-Sound :
    (n lost : ℕ) (s : EventSubscription)
    → s.replay ≡ []
    → Accounts n lost s
    → Sound n lost s (after_replay s)
unfolding after_replay
after_replay-Sound n lost s r c = elim (Bool-cases (ltb 0 s.dropped)) [
  | inl some_dropped ↦ rw some_dropped (
    refl,
    refl,
    ltb→lt 0 s.dropped some_dropped,
    record {
      alive = c.alive;
      member = c.member;
      room = c.room;
      bound = c.bound;
      replayed = c.replayed;
      total = omega (arith, c.total);
      waiting = c.waiting;
      unreported = λ h. absurd (omega (arith, ap length r));
    },
  )
  | inr none_dropped ↦ rw none_dropped (from_queue-Sound n lost s s.queue refl r (ground arith) c)
]

from_replay-Sound :
    (n lost : ℕ) (s : EventSubscription) (es : List KernelEvent)
    → s.replay ≡ es
    → Accounts n lost s
    → Sound n lost s (from_replay es s)
unfolding from_replay
from_replay-Sound n lost s [] r c = after_replay-Sound n lost s r c
from_replay-Sound n lost s (x ∷ es) r c =
    let f = subst (λ k. Follows s.last_delivered k) r c.replayed in
    let size : length s.replay ≡ suc (length es) = ap length r in
    let zero_lost : lost ≡ 0 = c.unreported (omega arith) in
    (
      omega (arith, f.0),
      refl,
      record {
        alive = c.alive;
        member = c.member;
        room = c.room;
        bound = c.bound;
        replayed = subst (λ m. Follows m es) (omega (arith, f.0)) f.1;
        total = omega (arith, c.total, f.0);
        waiting = c.waiting;
        unreported = λ h. refl;
      },
    )

receive_alive : (s : EventSubscription) → s.closed ≡ false → receive s ≡ from_replay s.replay s
unfolding receive
receive_alive s h = ground arith

pub receive-Sound :
    (n lost : ℕ) (s : EventSubscription) → Accounts n lost s → Sound n lost s (receive s)
receive-Sound n lost s c = rw (receive_alive s c.alive) (from_replay-Sound n lost s s.replay refl c)
