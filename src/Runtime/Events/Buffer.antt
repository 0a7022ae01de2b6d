-- ===== src/Runtime/Events/Buffer.antt =====
-- The replay buffer: what it holds and what a snapshot shows.
use py_tui_kairo.Common.{
  ℕ, suc, ◌+◌, ◌-◌, ◌≤◌, ◌<◌, min, max, ◌≡◌, ◌↔◌, refl, subst, Option, none, some, List, [], ◌∷◌,
  ◌++◌, true, String, arith, length, length-append, length-take, length-drop, drop, keep, ltb,
  Bool-cases, inl, inr, get_elem?, set,
}
use py_tui_kairo.Contracts.Events.{KernelEvent}
use py_tui_kairo.Runtime.Events.{
  EventBus, EventSubscription, Emission, event_of, new_bus, append_bounded, emit, subscribe,
  receive, close_subscription, close, snapshot, first_sequence, last_sequence,
}
use py_tui_kairo.Runtime.Events.Sequence.{
  Follows, Follows-append, Follows-drop, Follows-take, keep-Follows,
}

-- What holds of the buffer between two steps: it is a run that ends with the newest event, as long
-- as the bound allows.
pub record HasRecent (b : EventBus) : Type 0 where
  pub bound : 1 ≤ b.max_buffer
  pub count : length b.events ≡ min b.sequence b.max_buffer
  pub recent : Follows (b.sequence - length b.events) b.events

-- What the tasks do with the bus and with their subscriptions.
pub data Op : Type 0 where
  emit_op : Emission → Op
  subscribe_op : ℕ → Option ℕ → Op
  receive_op unsubscribe_op : ℕ → Op
  close_op : Op

unfoldable pub at_index :
    (EventSubscription → EventSubscription) → ℕ → Option EventSubscription → EventBus → EventBus
at_index f i none b = b
at_index f i (some s) b = record b { subscriptions = set b.subscriptions i (f s) }

unfoldable pub step : Op → EventBus → EventBus
unfolding at_index
step (emit_op x) b = (emit x b).1
step (subscribe_op after queue_size) b = (subscribe after queue_size b).1
step (receive_op i) b = at_index (λ s. (receive s).1) i (get_elem? b.subscriptions i) b
step (unsubscribe_op i) b = at_index close_subscription i (get_elem? b.subscriptions i) b
step close_op b = close b

unfoldable pub steps : List Op → EventBus → EventBus
steps [] b = b
steps (o ∷ os) b = steps os (step o b)

append_bounded-run :
    (bound n : ℕ) (es : List KernelEvent) (e : KernelEvent)
    → 1 ≤ bound
    → length es ≡ min n bound
    → Follows (n - length es) es
    → e.sequence ≡ n + 1
    → (length (append_bounded bound es e) ≡ min (n + 1) bound)
      × Follows (n + 1 - length (append_bounded bound es e)) (append_bounded bound es e)
unfolding append_bounded
append_bounded-run bound n es e b c f h =
    let grown = Follows-append (n - length es) es e f (omega arith) in
    let size = length-append es (e ∷ []) in
    let k = length (es ++ e ∷ []) - bound in
    let left = length-drop k (es ++ e ∷ []) in
    (
      omega (arith, size, left),
      subst (λ m. Follows m (drop k (es ++ e ∷ []))) (omega (arith, size, left))
          (Follows-drop (n - length es) k (es ++ e ∷ []) grown (omega arith)),
    )

emit-HasRecent : (x : Emission) {b : EventBus} → HasRecent b → HasRecent (emit x b).1
unfolding emit
emit-HasRecent x {b} r =
    let e = event_of b.kernel_id (b.sequence + 1) x in
    let (count, recent) =
      append_bounded-run b.max_buffer b.sequence b.events e r.bound r.count r.recent refl in
    elim (Bool-cases b.closed) [
      | inl c ↦ simp c r
      | inr o ↦ simp o (record { bound = r.bound; count = count; recent = recent })
    ]

subscribe-HasRecent :
    (after : ℕ) (size : Option ℕ) {b : EventBus}
    → HasRecent b
    → HasRecent (subscribe after size b).1
unfolding subscribe
subscribe-HasRecent after size {b} r = elim (Bool-cases b.closed) [
  | inl c ↦ simp c r
  | inr o ↦ simp o (record { bound = r.bound; count = r.count; recent = r.recent })
]

at_index-HasRecent :
    (f : EventSubscription → EventSubscription) (i : ℕ) (o : Option EventSubscription)
    {b : EventBus}
    → HasRecent b
    → HasRecent (at_index f i o b)
unfolding at_index
at_index-HasRecent f i none r = r
at_index-HasRecent f i (some s) r = record { bound = r.bound; count = r.count; recent = r.recent }

step-HasRecent : (o : Op) {b : EventBus} → HasRecent b → HasRecent (step o b)
unfolding step close
step-HasRecent (emit_op x) r = emit-HasRecent x r
step-HasRecent (subscribe_op after size) r = subscribe-HasRecent after size r
step-HasRecent (receive_op i) {b} r =
    at_index-HasRecent (λ s. (receive s).1) i (get_elem? b.subscriptions i) r
step-HasRecent (unsubscribe_op i) {b} r =
    at_index-HasRecent close_subscription i (get_elem? b.subscriptions i) r
step-HasRecent close_op r = record { bound = r.bound; count = r.count; recent = r.recent }

pub steps-HasRecent : (os : List Op) {b : EventBus} → HasRecent b → HasRecent (steps os b)
unfolding steps
steps-HasRecent [] r = r
steps-HasRecent (o ∷ os) {b} r = steps-HasRecent os {b = step o b} (step-HasRecent o r)

pub new-HasRecent :
    (kernel_id : String) (max_buffer size : ℕ) → HasRecent (new_bus kernel_id max_buffer size)
unfolding new_bus
new-HasRecent kernel_id max_buffer size = record {
  bound = omega arith;
  count = omega arith;
  recent = tt;
}

-- Whatever is done with the bus, its buffer holds exactly the newest events, consecutively numbered up to
-- the bus's sequence: all of them while they are at most the bound, and then as many as the bound.
pub buffer_holds_newest :
    (os : List Op) (kernel_id : String) (max_buffer size : ℕ)
    → let b = steps os (new_bus kernel_id max_buffer size) in
      (length b.events ≡ min b.sequence b.max_buffer)
      × Follows (b.sequence - length b.events) b.events
buffer_holds_newest os kernel_id max_buffer size =
    let r = steps-HasRecent os (new-HasRecent kernel_id max_buffer size) in (r.count, r.recent)

first_sequence-run :
    (n m : ℕ) (es : List KernelEvent)
    → Follows n es
    → n + length es ≡ m
    → first_sequence es (m + 1) ≡ n + 1
unfolding first_sequence
first_sequence-run n m [] f h = omega arith
first_sequence-run n m (e ∷ es) f h = omega (arith, f.0)

last_sequence-run :
    (n : ℕ) (es : List KernelEvent) → Follows n es → last_sequence es n ≡ n + length es
unfolding last_sequence
last_sequence-run n [] f = omega arith
last_sequence-run n (e ∷ es) f = rw f.0 (omega (arith, last_sequence-run (suc n) es f.1))

last_sequence-newest :
    (n m : ℕ) (es : List KernelEvent) → Follows n es → n + length es ≡ m → last_sequence es m ≡ m
unfolding last_sequence
last_sequence-newest n m [] f h = refl
last_sequence-newest n m (e ∷ es) f h = rw f.0 (omega (arith, last_sequence-run (suc n) es f.1))

-- A snapshot after a sequence number shows the events beyond it that are still buffered, oldest first and
-- without a hole, as many as the limit allows; it reports a gap exactly if an event beyond that number has
-- left the buffer.
pub snapshot_exact :
    (after limit : ℕ) (b : EventBus)
    → HasRecent b
    → let r = snapshot after limit b in
      let evicted = b.sequence - length b.events in
      Follows (max after evicted) r.events
      × (length r.events ≡ min limit (b.sequence - max after evicted))
      × ((r.gap ≡ true) ↔ (after < evicted))
      × (r.newest_sequence ≡ b.sequence)
unfolding snapshot
snapshot_exact after limit b r =
    let evicted = b.sequence - length b.events in
    let (beyond, count) = keep-Follows after evicted b.events r.recent in
    let whole : evicted + length b.events ≡ b.sequence = omega (arith, r.count) in
    let first = first_sequence-run evicted b.sequence b.events r.recent whole in
    (
      Follows-take (max after evicted) limit
          (keep (λ (e : KernelEvent). ltb after e.sequence) b.events) beyond,
      omega (
        arith,
        length-take limit (keep (λ (e : KernelEvent). ltb after e.sequence) b.events),
        count,
      ),
      rw first (ground arith),
      last_sequence-newest evicted b.sequence b.events r.recent whole,
    )
