-- ===== src/Runtime/Interactions/Retention.antt =====
-- The broker remembers no more ended interactions than it is told to.
use py_tui_kairo.Common.{
  ℕ, max, ◌≤◌, ◌≡◌, refl, Bool, ◌||◌, ◌&&◌, not, Option, none, some, List, [], ◌∷◌, String, str_eq,
  arith, map, ◌++◌, ltb, suc, sym, subst, ap, ◌∙◌, eq_iff, Bool-cases, true, false, inl, inr,
  length, get_elem?, set, if_both, if◌then◌else◌,
}
use py_tui_kairo.Common.Dict.{
  Dict, get, put, remove, contains, UniqueKeys, UniqueKeys-put, remove_fresh,
}
use py_tui_kairo.Contracts.Interactions.{InteractionRequest, InteractionResponse, offered}
use py_tui_kairo.Runtime.Interactions.{
  InteractionBroker, Call, Future, BrokerStep, open_call, wake_call, abort_call, respond_at,
  shut_down, Responded, new_broker, trim, remember_terminal, open_request, pop_cancel,
  finally_request, wake, expire, answer, respond_to, respond, shutdown_items, shutdown, at_call,
  step, run, done, set_future, safe_response, settle_at, end_state, is_submit, is_due, not_pending,
}

trim-length :
    (n : ℕ) (order : List String) (terminal : Dict String) → length (trim n order terminal).0 ≤ n
unfolding trim
trim-length n [] terminal = omega arith
trim-length n (x ∷ order) terminal = ground (arith, trim-length n order (remove x terminal))

-- The keys of a dict, in its order.
abbrev pub keys : Dict String → List String
keys d = map (λ (p : String × String). p.0) d

-- The order names the ids of the dict.
abbrev Ordered : List String × Dict String → Type 0
Ordered (order, terminal) = (order ≡ keys terminal) × UniqueKeys terminal

remove_head : (k v : String) (d : Dict String) → get k d ≡ none → remove k ((k, v) ∷ d) ≡ d
unfolding remove
remove_head k v d h = ground (arith, eq_iff k k, remove_fresh k d)

trim-Ordered : (n : ℕ) (d : Dict String) → UniqueKeys d → Ordered (trim n (keys d) d)
unfolding trim
trim-Ordered n [] u = (refl, tt)
trim-Ordered n ((k, v) ∷ d) u =
    if_both Ordered (ltb n (suc (length (keys d))))
      (λ _. rw (remove_head k v d u.0) (trim-Ordered n d u.1)) (λ _. (refl, u))

keys-put_old : (k v : String) (d : Dict String) → contains k d ≡ true → keys (put k v d) ≡ keys d
unfolding put get
keys-put_old k v [] h = cc
keys-put_old k v ((j, w) ∷ d) h = elim (Bool-cases (str_eq j k)) [
  | inl e ↦ rw e refl
  | inr e ↦ rw e (ap (λ x. j ∷ x) (keys-put_old k v d (ground arith)))
]

keys-put_new :
    (k v : String) (d : Dict String) → contains k d ≡ false → keys (put k v d) ≡ keys d ++ k ∷ []
unfolding put get
keys-put_new k v [] h = refl
keys-put_new k v ((j, w) ∷ d) h = elim (Bool-cases (str_eq j k)) [
  | inl e ↦ ground arith
  | inr e ↦ rw e (ap (λ x. j ∷ x) (keys-put_new k v d (ground arith)))
]

put-keys :
    (k v : String) (d : Dict String)
    → (if contains k d then keys d else keys d ++ k ∷ []) ≡ keys (put k v d)
put-keys k v d = elim (Bool-cases (contains k d)) [
  | inl e ↦ rw e (sym (keys-put_old k v d e))
  | inr e ↦ rw e (sym (keys-put_new k v d e))
]

-- No more than `n` ids, of which each stands once in the order and once in the dict, and `n` is the retention.
abbrev pub Retains : ℕ → InteractionBroker → Type 0
Retains n b =
    ((length b.terminal_order ≤ n) × Ordered (b.terminal_order, b.terminal))
    × (b.terminal_retention ≡ n)

abbrev RetainsAfter {ℓ} : {R : Type ℓ} → ℕ → R × InteractionBroker → Type 0
RetainsAfter n (r, b) = Retains n b

module _ (n : ℕ) where
  remember_terminal-Retains :
      (id s : String) (b : InteractionBroker) → Retains n b → Retains n (remember_terminal id s b)
  unfolding remember_terminal
  remember_terminal-Retains id s b ((h, (k, u)), e) =
      let d = put id s b.terminal in
      let order =
        if contains id b.terminal then b.terminal_order else b.terminal_order ++ id ∷ [] in
      let same : order ≡ keys d =
        ap (λ x. if contains id b.terminal then x else x ++ id ∷ []) k ∙ put-keys id s b.terminal in
      (
        (
          omega (arith, trim-length b.terminal_retention order d, e),
          subst (λ x. Ordered (trim b.terminal_retention x d)) (sym same)
              (trim-Ordered b.terminal_retention d (UniqueKeys-put id s b.terminal u)),
        ),
        e,
      )

  finally_request-Retains :
      (q : InteractionRequest) (b : InteractionBroker)
      → Retains n b
      → Retains n (finally_request q b)
  unfolding finally_request pop_cancel
  finally_request-Retains q b h =
      if_both (Retains n) (contains q.interaction_id b.pending)
        (λ r.
          remember_terminal-Retains q.interaction_id "resolved" (pop_cancel q.interaction_id b) h)
        (λ r. h)

  wake-Retains :
      (q : InteractionRequest) (f : Future) (d : Bool) (b : InteractionBroker)
      → Retains n b
      → Retains n (wake (record { request = q; future = f }) d b).1
  unfolding wake pop_cancel
  wake-Retains q Future.waiting d b h =
      finally_request-Retains q _
        (remember_terminal-Retains q.interaction_id (end_state d) (pop_cancel q.interaction_id b) h)
  wake-Retains q Future.cancelled d b h = finally_request-Retains q b h
  wake-Retains q (Future.answered r) d b h = finally_request-Retains q b h

  expire-Retains :
      (i : ℕ) (c : Call) (r : InteractionResponse) (b : InteractionBroker)
      → Retains n b
      → RetainsAfter n (expire i c r b)
  unfolding expire
  expire-Retains i c r b h =
      if_both (RetainsAfter n) (done c.future) (λ q. h)
        (λ q.
          remember_terminal-Retains r.interaction_id "expired"
            (record b {
              pending = remove r.interaction_id b.pending;
              calls = set b.calls i (set_future (Future.answered (safe_response c.request)) c);
            })
            h)

  answer-Retains :
      (blank : String → Bool) (i : ℕ) (c : Call) (r : InteractionResponse) (b : InteractionBroker)
      → Retains n b
      → RetainsAfter n (answer blank i c r b)
  unfolding answer
  answer-Retains blank i c r b h =
      if_both (RetainsAfter n) (not (str_eq r.turn_id c.request.turn_id)) (λ q. h)
        (λ q.
          if_both (RetainsAfter n) (not (offered r.action c.request.choices)) (λ t. h)
            (λ t.
              if_both (RetainsAfter n) (is_submit r.action && blank r.text) (λ u. h)
                (λ u. if_both (RetainsAfter n) (done c.future) (λ v. h) (λ v. h))))

  respond_to-Retains :
      (blank : String → Bool) (now : ℕ) (o : Option ℕ) (r : InteractionResponse)
      (b : InteractionBroker)
      → Retains n b
      → RetainsAfter n (respond_to blank now o r b)
  unfolding respond_to
  respond_to-Retains blank now none r b h = h
  respond_to-Retains blank now (some i) r b h =
      elim (get_elem? b.calls i)
        as (λ o. RetainsAfter {R = Responded} n (elim o [
          | none ↦ (not_pending r (get r.interaction_id b.terminal), b)
          | some c ↦
              if is_due now c.request.expires_at then expire i c r b else answer blank i c r b
        ])) [
          | none ↦ h
          | some c ↦
              if_both (RetainsAfter n) (is_due now c.request.expires_at)
                (λ q. expire-Retains i c r b h) (λ q. answer-Retains blank i c r b h)
        ]

  shutdown_items-Retains :
      (d : Dict ℕ) (b : InteractionBroker) → Retains n b → Retains n (shutdown_items d b)
  unfolding shutdown_items
  shutdown_items-Retains [] b h = h
  shutdown_items-Retains ((id, i) ∷ d) b h = shutdown_items-Retains d _ (
      remember_terminal-Retains id "shutdown"
        (record b { calls = settle_at (λ q. Future.answered (safe_response q)) (some i) b.calls })
        h)

  at_call-Retains :
      (f : Call → InteractionBroker → InteractionBroker) (i : ℕ) (b : InteractionBroker)
      → ((c : Call) → Retains n (f c b))
      → Retains n b
      → Retains n (at_call f i b)
  at_call-Retains f i b k h =
      elim (get_elem? b.calls i) as (λ o. Retains n (elim o [ none ↦ b | some c ↦ f c b ])) [
        | none ↦ h
        | some c ↦ k c
      ]

  open_request-Retains :
      (q : InteractionRequest) (b : InteractionBroker)
      → Retains n b
      → RetainsAfter n (open_request q b)
  unfolding open_request
  open_request-Retains q b h =
      if_both (RetainsAfter n) b.closed (λ r. h)
        (λ r.
          if_both (RetainsAfter n)
            (contains q.interaction_id b.pending || contains q.interaction_id b.terminal) (λ t. h)
            (λ t. h))

  step-Retains :
      (blank : String → Bool) (x : BrokerStep) (b : InteractionBroker)
      → Retains n b
      → Retains n (step blank x b)
  unfolding step respond shutdown
  step-Retains blank (open_call q) b h = open_request-Retains q b h
  step-Retains blank (wake_call i d) b h =
      at_call-Retains (λ c x. (wake c d x).1) i b (λ c. wake-Retains c.request c.future d b h) h
  step-Retains blank (abort_call i) b h =
      at_call-Retains (λ c x. finally_request c.request x) i b
        (λ c. finally_request-Retains c.request b h) h
  step-Retains blank (respond_at now r) b h =
      if_both (RetainsAfter n) b.closed (λ q. h)
        (λ q. respond_to-Retains blank now (get r.interaction_id b.pending) r b h)
  step-Retains blank shut_down b h =
      if_both (Retains n) b.closed (λ q. h) (λ q. shutdown_items-Retains b.pending _ h)

  run-Retains :
      (blank : String → Bool) (xs : List BrokerStep) (b : InteractionBroker)
      → Retains n b
      → Retains n (run blank xs b)
  unfolding run
  run-Retains blank [] b h = h
  run-Retains blank (x ∷ xs) b h = run-Retains blank xs (step blank x b) (step-Retains blank x b h)

-- Whatever the tasks do, the ids of ended interactions are in the dict exactly those of the order, each once, and no
-- more than the retention, one at least.
pub terminal_bounded :
    (blank : String → Bool) (xs : List BrokerStep) (n : ℕ)
    → let b = run blank xs (new_broker n) in
      (length b.terminal_order ≤ max 1 n)
      × (b.terminal_order ≡ keys b.terminal)
      × UniqueKeys b.terminal
terminal_bounded blank xs n =
    let (h, (o, u)) =
      (run-Retains (max 1 n) blank xs (new_broker n) ((omega arith, (refl, tt)), refl)).0 in
    (h, o, u)
