-- ===== src/Runtime/Events/Stream.antt =====
-- The stream that one subscriber sees while the other tasks use the bus.
use py_tui_kairo.Common.{
  ℕ, ◌+◌, ◌<◌, ◌≡◌, ◌≢◌, refl, sym, ap, ◌∙◌, ◌⊎◌, subst, Bool, Option, none, some, List, [], ◌∷◌,
  ◌++◌, true, false, Bool-cases, inl, inr, map, get_elem?, set, get_elem?-append, get_elem?-set_ne,
  get_elem?-set_self, get_elem?-map, All, ◌==◌, if◌then◌else◌, arith,
}
use py_tui_kairo.Contracts.Events.{KernelEvent}
use py_tui_kairo.Runtime.Events.{
  EventBus, EventSubscription, Emission, event_of, emit, offer, offer_registered, subscribe,
  close_subscription, new_subscription, snapshot, size_or, Received, delivered, overflow,
  closed_error, blocked, receive,
}
use py_tui_kairo.Runtime.Events.Buffer.{
  Op, emit_op, subscribe_op, receive_op, unsubscribe_op, close_op, step, at_index,
}
use py_tui_kairo.Runtime.Events.Delivery.{Accounts, offer-Accounts, Sound, receive-Sound}

-- What the subscriber of index `i` receives in the course of the steps.
result_at : Option EventSubscription → List Received → List Received
result_at none rs = rs
result_at (some s) rs = (receive s).0 ∷ rs

abbrev is_receive : ℕ → Op → Bool
is_receive i (receive_op j) = i == j
is_receive i _ = false

pub observe : ℕ → List Op → EventBus → List Received
unfolding result_at
observe i [] b = []
observe i (o ∷ os) b =
    let rest = observe i os (step o b) in
    if is_receive i o then result_at (get_elem? b.subscriptions i) rest else rest

-- Neither the bus nor the subscription is closed by the step.
abbrev pub LeavesOpen : ℕ → Op → Type 0
LeavesOpen i (unsubscribe_op j) = j ≢ i
LeavesOpen i close_op = ⊥
LeavesOpen i _ = Unit

-- A stream that began at the sequence number `start`, with `lost` events reported since then: each event
-- that is delivered comes right after the last one and those that were reported lost in between.
abbrev pub Contiguous : ℕ → ℕ → List Received → Type 0
Contiguous start lost [] = Unit
Contiguous start lost (delivered e ∷ rs) =
    (e.sequence ≡ start + lost + 1) × Contiguous e.sequence 0 rs
Contiguous start lost (overflow last d ∷ rs) =
    (last ≡ start) × (0 < d) × Contiguous start (lost + d) rs
Contiguous start lost (blocked ∷ rs) = Contiguous start lost rs
Contiguous start lost (closed_error ∷ rs) = ⊥

-- The subscription of index `i` accounts for everything that the bus has emitted.
abbrev pub Live : ℕ → ℕ → EventSubscription → EventBus → Type 0
Live i lost s b = (get_elem? b.subscriptions i ≡ some s) × Accounts b.sequence lost s

emit_closed : (x : Emission) (b : EventBus) → b.closed ≡ true → (emit x b).1 ≡ b
unfolding emit
emit_closed x b h = ground arith

emit_open :
    (x : Emission) (b : EventBus)
    → b.closed ≡ false
    → ((emit x b).1.subscriptions
        ≡ map (offer_registered (event_of b.kernel_id (b.sequence + 1) x)) b.subscriptions)
      × ((emit x b).1.sequence ≡ b.sequence + 1)
unfolding emit
emit_open x b h = ground arith

offer-member :
    (e : KernelEvent) (s : EventSubscription)
    → s.registered ≡ true
    → offer_registered e s ≡ offer e s
unfolding offer_registered
offer-member e s h = ground arith

last_delivered-offer :
    (e : KernelEvent) (s : EventSubscription) → (offer e s).last_delivered ≡ s.last_delivered
unfolding offer
last_delivered-offer e s = ground arith

-- After a step the subscription of index `i` still accounts for everything, and nothing was delivered.
abbrev Unmoved : ℕ → ℕ → EventSubscription → EventBus → Type 0
Unmoved i lost s b =
    (s' : EventSubscription) × Live i lost s' b × (s'.last_delivered ≡ s.last_delivered)

emit-Live :
    (i lost : ℕ) (x : Emission) (s : EventSubscription) (b : EventBus)
    → Live i lost s b
    → Unmoved i lost s (emit x b).1
emit-Live i lost x s b (g, c) = elim (Bool-cases b.closed) [
  | inl shut ↦ rw (emit_closed x b shut) (s, (g, c), refl)
  | inr open_bus ↦
      let e = event_of b.kernel_id (b.sequence + 1) x in
      let (subs, sequence) = emit_open x b open_bus in
      (
        offer e s,
        (
          ap (λ l. get_elem? l i) subs
              ∙ get_elem?-map (offer_registered e) b.subscriptions i s g
              ∙ ap some (offer-member e s c.member),
          subst (λ n. Accounts n lost (offer e s)) (sym sequence)
              (offer-Accounts e b.sequence lost s refl c),
        ),
        last_delivered-offer e s,
      )
]

subscribe_cases :
    (after : ℕ) (size : Option ℕ) (b : EventBus)
    → ((subscribe after size b).1 ≡ b)
      ⊎ ((k : EventSubscription) × ((subscribe after size b).1
            ≡ record b { subscriptions = b.subscriptions ++ k ∷ [] }))
unfolding subscribe
subscribe_cases after size b = elim (Bool-cases b.closed) [
  | inl shut ↦ inl (ground arith)
  | inr open_bus ↦ inr (
    new_subscription (snapshot after b.max_buffer b).events (size_or size b.subscriber_queue_size)
        b.sequence,
    ground arith,
  )
]

subscribe-Live :
    (i lost after : ℕ) (size : Option ℕ) (s : EventSubscription) (b : EventBus)
    → Live i lost s b
    → Unmoved i lost s (subscribe after size b).1
subscribe-Live i lost after size s b (g, c) = elim (subscribe_cases after size b) [
  | inl e ↦ rw e (s, (g, c), refl)
  | inr (k, e) ↦ rw e (s, (get_elem?-append b.subscriptions (k ∷ []) i s g, c), refl)
]

other-Live :
    (f : EventSubscription → EventSubscription) (i j lost : ℕ) (o : Option EventSubscription)
    (s : EventSubscription) (b : EventBus)
    → j ≢ i
    → Live i lost s b
    → Unmoved i lost s (at_index f j o b)
unfolding at_index
other-Live f i j lost none s b n (g, c) = (s, (g, c), refl)
other-Live f i j lost (some k) s b n (g, c) =
    (s, (get_elem?-set_ne b.subscriptions j i (f k) n ∙ g, c), refl)

step-Live :
    (i lost : ℕ) (o : Op) (s : EventSubscription) (b : EventBus)
    → LeavesOpen i o
    → is_receive i o ≡ false
    → Live i lost s b
    → Unmoved i lost s (step o b)
unfolding step
step-Live i lost (emit_op x) s b l r v = emit-Live i lost x s b v
step-Live i lost (subscribe_op after size) s b l r v = subscribe-Live i lost after size s b v
step-Live i lost (receive_op j) s b l r v =
    other-Live (λ k. (receive k).1) i j lost (get_elem? b.subscriptions j) s b (ground arith) v
step-Live i lost (unsubscribe_op j) s b l r v =
    other-Live close_subscription i j lost (get_elem? b.subscriptions j) s b l v
step-Live i lost close_op s b l r v = absurd l

receive-step :
    (i : ℕ) (s : EventSubscription) (b : EventBus)
    → get_elem? b.subscriptions i ≡ some s
    → step (receive_op i) b ≡ record b { subscriptions = set b.subscriptions i (receive s).1 }
unfolding step at_index
receive-step i s b g = rw g

received-Contiguous :
    (n lost : ℕ) (s : EventSubscription) (p : Received × EventSubscription) (rs : List Received)
    → Accounts n lost s
    → Sound n lost s p
    → ((k : ℕ) → Accounts n k p.1 → Contiguous p.1.last_delivered k rs)
    → Contiguous s.last_delivered lost (p.0 ∷ rs)
received-Contiguous n lost s (delivered e, s') rs c (seq, last, c') rec =
    (seq, subst (λ m. Contiguous m 0 rs) last (rec 0 c'))
received-Contiguous n lost s (overflow last d, s') rs c (start, same, some_lost, c') rec =
    (start, some_lost, subst (λ m. Contiguous m (lost + d) rs) (same ∙ start) (rec (lost + d) c'))
received-Contiguous n lost s (blocked, s') rs c (same, done) rec =
    subst (λ k. Contiguous k.last_delivered lost rs) same
      (rec lost (subst (Accounts n lost) (sym same) c))
received-Contiguous n lost s (closed_error, s') rs c h rec = absurd h

observe-receive :
    (i : ℕ) (os : List Op) (s : EventSubscription) (b : EventBus)
    → get_elem? b.subscriptions i ≡ some s
    → observe i (receive_op i ∷ os) b
      ≡ (receive s).0
        ∷ observe i os (record b { subscriptions = set b.subscriptions i (receive s).1 })
unfolding observe
observe-receive i os s b g =
    let self : (i == i) ≡ true = ground arith in rw self (rw (receive-step i s b g) (rw g refl))

is_receive-eq : (i : ℕ) (o : Op) → is_receive i o ≡ true → o ≡ receive_op i
is_receive-eq i (receive_op j) h = ap receive_op (omega (arith, same_index))
  where
    same_index : i ≡ j
    same_index = ground arith
is_receive-eq i (emit_op x) h = cc
is_receive-eq i (subscribe_op a z) h = cc
is_receive-eq i (unsubscribe_op j) h = cc
is_receive-eq i close_op h = cc

pub observe-Contiguous :
    (i lost : ℕ) (os : List Op) (s : EventSubscription) (b : EventBus)
    → All (LeavesOpen i) os
    → Live i lost s b
    → Contiguous s.last_delivered lost (observe i os b)
unfolding observe
observe-Contiguous i lost [] s b l v = tt
observe-Contiguous i lost (o ∷ os) s b l v = elim (Bool-cases (is_receive i o)) [
  | inl mine ↦
      subst (λ q. Contiguous s.last_delivered lost (observe i (q ∷ os) b))
        (sym (is_receive-eq i o mine))
        (subst (Contiguous s.last_delivered lost) (sym (observe-receive i os s b v.0)) (
          received-Contiguous b.sequence lost s (receive s)
            (observe i os (record b { subscriptions = set b.subscriptions i (receive s).1 })) v.1
            (receive-Sound b.sequence lost s v.1)
            (λ k c.
              observe-Contiguous i k os (receive s).1
                (record b { subscriptions = set b.subscriptions i (receive s).1 }) l.1
                (get_elem?-set_self b.subscriptions i s (receive s).1 v.0, c))))
  | inr r ↦
      let (s', v', same) = step-Live i lost o s b l.0 r v in
      rw r (
        subst (λ m. Contiguous m lost (observe i os (step o b))) same
          (observe-Contiguous i lost os s' (step o b) l.1 v'))
]
