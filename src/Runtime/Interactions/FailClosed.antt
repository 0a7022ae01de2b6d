-- ===== src/Runtime/Interactions/FailClosed.antt =====
-- No response grants anything that its request did not offer to a response for its turn.
use py_tui_kairo.Common.{
  ℕ, ◌≡◌, refl, Bool, true, not, Option, none, some, List, [], ◌∷◌, ◌||◌, ◌&&◌, String, str_eq,
  eq_iff, arith, All, All-set, All-get_elem?, All-append, get_elem?, set, if_both, subst,
  if◌then◌else◌,
}
use py_tui_kairo.Common.Dict.{Dict, get, contains}
use py_tui_kairo.Contracts.Interactions.{InteractionRequest, InteractionResponse, grants, offered}
use py_tui_kairo.Runtime.Interactions.{
  InteractionBroker, Call, Future, BrokerStep, open_call, wake_call, abort_call, respond_at,
  shut_down, Responded, new_broker, safe_response, remember_terminal, open_request, settle,
  settle_at, pop_cancel, finally_request, wake, expire, answer, respond_to, respond, shutdown_items,
  shutdown, at_call, step, run, done, is_submit, is_due, not_pending,
}

-- A grant was offered, and is for the turn that asked.
abbrev pub Granted : InteractionRequest → InteractionResponse → Type 0
Granted q r = grants r.action ≡ true → (offered r.action q.choices ≡ true) × (r.turn_id ≡ q.turn_id)

abbrev Justified : InteractionRequest → Future → Type 0
Justified q (Future.answered r) = Granted q r
Justified q _ = Unit

abbrev Safe : Call → Type 0
Safe c = Justified c.request c.future

abbrev AllSafe : InteractionBroker → Type 0
AllSafe b = All Safe b.calls

-- Of an outcome and the broker after it.
abbrev SafeAfter {ℓ} : {R : Type ℓ} → R × InteractionBroker → Type 0
SafeAfter (r, b) = AllSafe b

safe_response-Granted : (q : InteractionRequest) → Granted q (safe_response q)
unfolding safe_response
safe_response-Granted q h = ground arith

settle-Safe :
    (f : InteractionRequest → Future) (c : Call)
    → ((q : _) → Justified q (f q))
    → Safe c
    → Safe (settle f c)
settle-Safe f c j h = if_both Safe (done c.future) (λ q. h) (λ q. j c.request)

settle_at-AllSafe :
    (f : InteractionRequest → Future) (o : Option ℕ) (cs : List Call)
    → ((q : _) → Justified q (f q))
    → All Safe cs
    → All Safe (settle_at f o cs)
unfolding settle_at
settle_at-AllSafe f none cs j h = h
settle_at-AllSafe f (some i) cs j h =
    elim (get_elem? cs i)
        as (λ o.
          (get_elem? cs i ≡ o) → All Safe (elim o [ none ↦ cs | some c ↦ set cs i (settle f c) ])) [
            | none ↦ λ q. h
            | some c ↦ λ q.
                All-set Safe cs i (settle f c) h (settle-Safe f c j (All-get_elem? Safe cs i c h q))
          ]
      refl

pop_cancel-AllSafe : (id : String) (b : InteractionBroker) → AllSafe b → AllSafe (pop_cancel id b)
unfolding pop_cancel
pop_cancel-AllSafe id b h = settle_at-AllSafe (λ q. Future.cancelled) _ b.calls (λ q. tt) h

remember_terminal-calls :
    (id s : String) (b : InteractionBroker) → (remember_terminal id s b).calls ≡ b.calls
unfolding remember_terminal
remember_terminal-calls id s b = refl

finally_request-AllSafe :
    (q : InteractionRequest) (b : InteractionBroker) → AllSafe b → AllSafe (finally_request q b)
unfolding finally_request remember_terminal
finally_request-AllSafe q b h =
    if_both AllSafe _ (λ r. pop_cancel-AllSafe q.interaction_id b h) (λ r. h)

open_request-AllSafe :
    (q : InteractionRequest) (b : InteractionBroker) → AllSafe b → SafeAfter (open_request q b)
unfolding open_request
open_request-AllSafe q b h =
    if_both SafeAfter b.closed (λ r. h)
      (λ r.
        if_both SafeAfter
          (contains q.interaction_id b.pending || contains q.interaction_id b.terminal) (λ t. h)
          (λ t.
            All-append Safe b.calls (record { request = q; future = Future.waiting } ∷ []) h
              (tt, tt)))

wake-AllSafe :
    (q : InteractionRequest) (f : Future) (d : Bool) (b : InteractionBroker)
    → AllSafe b
    → AllSafe (wake (record { request = q; future = f }) d b).1
unfolding wake remember_terminal
wake-AllSafe q Future.waiting d b h =
    finally_request-AllSafe q _ (pop_cancel-AllSafe q.interaction_id b h)
wake-AllSafe q Future.cancelled d b h = finally_request-AllSafe q b h
wake-AllSafe q (Future.answered r) d b h = finally_request-AllSafe q b h

expire-AllSafe :
    (i : ℕ) (c : Call) (r : InteractionResponse) (b : InteractionBroker)
    → AllSafe b
    → SafeAfter (expire i c r b)
unfolding expire remember_terminal
expire-AllSafe i c r b h =
    if_both SafeAfter (done c.future) (λ q. h)
      (λ q. All-set Safe b.calls i _ h (safe_response-Granted c.request))

answer-AllSafe :
    (blank : String → Bool) (i : ℕ) (c : Call) (r : InteractionResponse) (b : InteractionBroker)
    → AllSafe b
    → SafeAfter (answer blank i c r b)
unfolding answer
answer-AllSafe blank i c r b h =
    if_both SafeAfter (not (str_eq r.turn_id c.request.turn_id)) (λ q. h)
      (λ q.
        if_both SafeAfter (not (offered r.action c.request.choices)) (λ t. h)
          (λ t.
            if_both SafeAfter (is_submit r.action && blank r.text) (λ u. h)
              (λ u.
                if_both SafeAfter (done c.future) (λ v. h)
                  (λ v.
                    All-set Safe b.calls i _ h
                      (λ g. (ground arith, ground (arith, eq_iff r.turn_id c.request.turn_id)))))))

respond_to-AllSafe :
    (blank : String → Bool) (now : ℕ) (o : Option ℕ) (r : InteractionResponse)
    (b : InteractionBroker)
    → AllSafe b
    → SafeAfter (respond_to blank now o r b)
unfolding respond_to
respond_to-AllSafe blank now none r b h = h
respond_to-AllSafe blank now (some i) r b h =
    elim (get_elem? b.calls i)
      as (λ o. SafeAfter {R = Responded} (elim o [
        | none ↦ (not_pending r (get r.interaction_id b.terminal), b)
        | some c ↦ if is_due now c.request.expires_at then expire i c r b else answer blank i c r b
      ])) [
        | none ↦ h
        | some c ↦
            if_both SafeAfter (is_due now c.request.expires_at) (λ q. expire-AllSafe i c r b h)
              (λ q. answer-AllSafe blank i c r b h)
      ]

shutdown_items-AllSafe :
    (d : Dict ℕ) (b : InteractionBroker) → AllSafe b → AllSafe (shutdown_items d b)
unfolding shutdown_items remember_terminal
shutdown_items-AllSafe [] b h = h
shutdown_items-AllSafe ((id, i) ∷ d) b h = shutdown_items-AllSafe d _ (
    settle_at-AllSafe (λ q. Future.answered (safe_response q)) (some i) b.calls
      safe_response-Granted h)

at_call-AllSafe :
    (f : Call → InteractionBroker → InteractionBroker) (i : ℕ) (b : InteractionBroker)
    → ((c : Call) → AllSafe (f c b))
    → AllSafe b
    → AllSafe (at_call f i b)
at_call-AllSafe f i b k h =
    elim (get_elem? b.calls i) as (λ o. AllSafe (elim o [ none ↦ b | some c ↦ f c b ])) [
      | none ↦ h
      | some c ↦ k c
    ]

module _ (blank : String → Bool) where
  step-AllSafe : (x : BrokerStep) (b : InteractionBroker) → AllSafe b → AllSafe (step blank x b)
  unfolding step respond shutdown
  step-AllSafe (open_call q) b h = open_request-AllSafe q b h
  step-AllSafe (wake_call i d) b h =
      at_call-AllSafe (λ c x. (wake c d x).1) i b (λ c. wake-AllSafe c.request c.future d b h) h
  step-AllSafe (abort_call i) b h =
      at_call-AllSafe (λ c x. finally_request c.request x) i b
        (λ c. finally_request-AllSafe c.request b h) h
  step-AllSafe (respond_at now r) b h =
      if_both SafeAfter b.closed (λ q. h)
        (λ q. respond_to-AllSafe blank now (get r.interaction_id b.pending) r b h)
  step-AllSafe shut_down b h =
      if_both AllSafe b.closed (λ q. h) (λ q. shutdown_items-AllSafe b.pending _ h)

  run-AllSafe :
      (xs : List BrokerStep) (b : InteractionBroker) → AllSafe b → AllSafe (run blank xs b)
  unfolding run
  run-AllSafe [] b h = h
  run-AllSafe (x ∷ xs) b h = run-AllSafe xs (step blank x b) (step-AllSafe x b h)

  wake-Granted :
      (q : InteractionRequest) (f : Future) (d : Bool) (b : InteractionBroker)
      (r : InteractionResponse)
      → Justified q f
      → (wake (record { request = q; future = f }) d b).0 ≡ some r
      → Granted q r
  unfolding wake
  wake-Granted q Future.waiting d b r h e =
      subst (λ o. elim o [ none ↦ Unit | some x ↦ Granted q x ]) e (safe_response-Granted q)
  wake-Granted q Future.cancelled d b r h e = ground arith
  wake-Granted q (Future.answered a) d b r h e =
      subst (λ o. elim o [ none ↦ Unit | some x ↦ Granted q x ]) e h

  -- Whatever the tasks did before, a response that a call of `request` returns either grants nothing or names the turn
  -- that asked and an action that the request offered.
  pub grants_only_offered :
      (xs : List BrokerStep) (n i : ℕ) (c : Call) (d : Bool) (r : InteractionResponse)
      → get_elem? (run blank xs (new_broker n)).calls i ≡ some c
      → (wake c d (run blank xs (new_broker n))).0 ≡ some r
      → Granted c.request r
  grants_only_offered xs n i c d r q e =
      wake-Granted c.request c.future d (run blank xs (new_broker n)) r
        (All-get_elem? Safe (run blank xs (new_broker n)).calls i c
          (run-AllSafe xs (new_broker n) tt) q)
        e
