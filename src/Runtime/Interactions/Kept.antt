-- ===== src/Runtime/Interactions/Kept.antt =====
-- A call whose future is done stays as it is, whatever the tasks do to the broker.
use py_tui_kairo.Common.{
  ℕ, zero, suc, ◌≡◌, ◌≢◌, refl, ap, ◌∙◌, sym, subst, Bool, true, false, ◌||◌, ◌&&◌, not, Option,
  none, some, List, [], ◌∷◌, String, str_eq, arith, get_elem?, set, get_elem?-append,
  get_elem?-set_ne, if_both, if◌then◌else◌,
}
use py_tui_kairo.Common.Dict.{Dict, get, contains}
use py_tui_kairo.Contracts.Interactions.{InteractionRequest, InteractionResponse, offered}
use py_tui_kairo.Runtime.Interactions.{
  InteractionBroker, Call, Future, BrokerStep, open_call, wake_call, abort_call, respond_at,
  shut_down, Responded, remember_terminal, open_request, settle, settle_at, pop_cancel,
  finally_request, wake, expire, answer, respond_to, respond, shutdown_items, shutdown, at_call,
  step, run, done, set_future, safe_response, is_submit, is_due, not_pending, end_state,
}

set_same : (cs : List Call) (i : ℕ) (c : Call) → get_elem? cs i ≡ some c → set cs i c ≡ cs
set_same [] i c q = refl
set_same (x ∷ cs) zero c q = ground arith
set_same (x ∷ cs) (suc i) c q = ap (λ l. x ∷ l) (set_same cs i c q)

module _ (n : ℕ) (k : Call) (ended : done k.future ≡ true) where
  abbrev Holds : List Call → Type 0
  Holds cs = get_elem? cs n ≡ some k

  abbrev pub Kept : InteractionBroker → Type 0
  Kept b = Holds b.calls

  abbrev KeptAfter {ℓ} : {R : Type ℓ} → R × InteractionBroker → Type 0
  KeptAfter (r, b) = Kept b

  -- A call that is not done is another one.
  set-Holds :
      (cs : List Call) (i : ℕ) (c c' : Call)
      → get_elem? cs i ≡ some c
      → done c.future ≡ false
      → Holds cs
      → Holds (set cs i c')
  set-Holds cs i c c' q d h =
      let other : i ≢ n =
        λ e. (let same : some c ≡ some k = sym q ∙ (ap (get_elem? cs) e ∙ h) in ground arith) in
      get_elem?-set_ne cs i n c' other ∙ h

  settle_at-Holds :
      (f : InteractionRequest → Future) (o : Option ℕ) (cs : List Call)
      → Holds cs
      → Holds (settle_at f o cs)
  unfolding settle_at
  settle_at-Holds f none cs h = h
  settle_at-Holds f (some i) cs h =
      elim (get_elem? cs i)
          as (λ o.
            (get_elem? cs i ≡ o) → Holds (elim o [ none ↦ cs | some c ↦ set cs i (settle f c) ])) [
              | none ↦ λ q. h
              | some c ↦ λ q.
                  if_both (λ x. Holds (set cs i x)) (done c.future)
                    (λ d. subst Holds (sym (set_same cs i c q)) h)
                    (λ d. set-Holds cs i c (set_future (f c.request) c) q d h)
            ]
        refl

  pop_cancel-Kept : (id : String) (b : InteractionBroker) → Kept b → Kept (pop_cancel id b)
  unfolding pop_cancel
  pop_cancel-Kept id b h = settle_at-Holds (λ q. Future.cancelled) _ b.calls h

  finally_request-Kept :
      (q : InteractionRequest) (b : InteractionBroker) → Kept b → Kept (finally_request q b)
  unfolding finally_request remember_terminal
  finally_request-Kept q b h =
      if_both Kept (contains q.interaction_id b.pending) (λ r. pop_cancel-Kept q.interaction_id b h)
        (λ r. h)

  wake-Kept :
      (q : InteractionRequest) (f : Future) (d : Bool) (b : InteractionBroker)
      → Kept b
      → Kept (wake (record { request = q; future = f }) d b).1
  unfolding wake remember_terminal
  wake-Kept q Future.waiting d b h =
      finally_request-Kept q
        (remember_terminal q.interaction_id (end_state d) (pop_cancel q.interaction_id b))
        (pop_cancel-Kept q.interaction_id b h)
  wake-Kept q Future.cancelled d b h = finally_request-Kept q b h
  wake-Kept q (Future.answered r) d b h = finally_request-Kept q b h

  expire-Kept :
      (i : ℕ) (c : Call) (r : InteractionResponse) (b : InteractionBroker)
      → get_elem? b.calls i ≡ some c
      → Kept b
      → KeptAfter (expire i c r b)
  unfolding expire remember_terminal
  expire-Kept i c r b q h =
      if_both KeptAfter (done c.future) (λ d. h)
        (λ d.
          set-Holds b.calls i c (set_future (Future.answered (safe_response c.request)) c) q d h)

  answer-Kept :
      (blank : String → Bool) (i : ℕ) (c : Call) (r : InteractionResponse) (b : InteractionBroker)
      → get_elem? b.calls i ≡ some c
      → Kept b
      → KeptAfter (answer blank i c r b)
  unfolding answer
  answer-Kept blank i c r b q h =
      if_both KeptAfter (not (str_eq r.turn_id c.request.turn_id)) (λ s. h)
        (λ s.
          if_both KeptAfter (not (offered r.action c.request.choices)) (λ t. h)
            (λ t.
              if_both KeptAfter (is_submit r.action && blank r.text) (λ u. h)
                (λ u.
                  if_both KeptAfter (done c.future) (λ d. h)
                    (λ d. set-Holds b.calls i c (set_future (Future.answered r) c) q d h))))

  respond_to-Kept :
      (blank : String → Bool) (now : ℕ) (o : Option ℕ) (r : InteractionResponse)
      (b : InteractionBroker)
      → Kept b
      → KeptAfter (respond_to blank now o r b)
  unfolding respond_to
  respond_to-Kept blank now none r b h = h
  respond_to-Kept blank now (some i) r b h =
      elim (get_elem? b.calls i)
          as (λ o.
            (get_elem? b.calls i ≡ o)
            → KeptAfter {R = Responded} (elim o [
              | none ↦ (not_pending r (get r.interaction_id b.terminal), b)
              | some c ↦
                  if is_due now c.request.expires_at then expire i c r b else answer blank i c r b
            ])) [
              | none ↦ λ q. h
              | some c ↦ λ q.
                  if_both KeptAfter (is_due now c.request.expires_at) (λ d. expire-Kept i c r b q h)
                    (λ d. answer-Kept blank i c r b q h)
            ]
        refl

  shutdown_items-Kept : (d : Dict ℕ) (b : InteractionBroker) → Kept b → Kept (shutdown_items d b)
  unfolding shutdown_items remember_terminal
  shutdown_items-Kept [] b h = h
  shutdown_items-Kept ((id, i) ∷ d) b h =
      shutdown_items-Kept d _
        (settle_at-Holds (λ q. Future.answered (safe_response q)) (some i) b.calls h)

  at_call-Kept :
      (f : Call → InteractionBroker → InteractionBroker) (i : ℕ) (b : InteractionBroker)
      → ((c : Call) → Kept (f c b))
      → Kept b
      → Kept (at_call f i b)
  at_call-Kept f i b g h =
      elim (get_elem? b.calls i) as (λ o. Kept (elim o [ none ↦ b | some c ↦ f c b ])) [
        | none ↦ h
        | some c ↦ g c
      ]

  open_request-Kept :
      (q : InteractionRequest) (b : InteractionBroker) → Kept b → KeptAfter (open_request q b)
  unfolding open_request
  open_request-Kept q b h =
      if_both KeptAfter b.closed (λ r. h)
        (λ r.
          if_both KeptAfter
            (contains q.interaction_id b.pending || contains q.interaction_id b.terminal) (λ t. h)
            (λ t. get_elem?-append b.calls _ n k h))

  step-Kept :
      (blank : String → Bool) (x : BrokerStep) (b : InteractionBroker)
      → Kept b
      → Kept (step blank x b)
  unfolding step respond shutdown
  step-Kept blank (open_call q) b h = open_request-Kept q b h
  step-Kept blank (wake_call i d) b h =
      at_call-Kept (λ c x. (wake c d x).1) i b (λ c. wake-Kept c.request c.future d b h) h
  step-Kept blank (abort_call i) b h =
      at_call-Kept (λ c x. finally_request c.request x) i b
        (λ c. finally_request-Kept c.request b h) h
  step-Kept blank (respond_at now r) b h =
      if_both KeptAfter b.closed (λ q. h)
        (λ q. respond_to-Kept blank now (get r.interaction_id b.pending) r b h)
  step-Kept blank shut_down b h =
      if_both Kept b.closed (λ q. h) (λ q. shutdown_items-Kept b.pending _ h)

  pub run-Kept :
      (blank : String → Bool) (xs : List BrokerStep) (b : InteractionBroker)
      → Kept b
      → Kept (run blank xs b)
  unfolding run
  run-Kept blank [] b h = h
  run-Kept blank (x ∷ xs) b h = run-Kept blank xs (step blank x b) (step-Kept blank x b h)
