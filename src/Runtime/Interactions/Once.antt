-- ===== src/Runtime/Interactions/Once.antt =====
-- An interaction is answered once.
use py_tui_kairo.Common.{
  ℕ, ◌≢◌, ◌⊎◌, List, set, ◌≡◌, refl, ap, ◌∙◌, sym, Bool, true, false, not, ◌&&◌, Option, none, some,
  String, str_eq, arith, get_elem?, get_elem?-set_self, if_both, subst, Option-cases, inl, inr,
  if◌then◌else◌,
}
use py_tui_kairo.Common.Dict.{get}
use py_tui_kairo.Contracts.Enums.{kernel_closing}
use py_tui_kairo.Contracts.Interactions.{InteractionResponse, InteractionReceipt, offered}
use py_tui_kairo.Runtime.Interactions.{
  InteractionBroker, Call, Future, Responded, accepted, refused, refused, raised, set_future, done,
  is_submit, is_due, BrokerStep, run, wake, not_pending, expire, answer, respond_to, respond,
  refuse,
}
use py_tui_kairo.Runtime.Interactions.Kept.{run-Kept}

-- The call that is pending under the id waited, and has the response as its answer; nothing else is changed.
abbrev pub Answered : InteractionResponse → InteractionBroker → InteractionBroker → Type 0
Answered r b b' =
    (i : ℕ) × (c : Call) × (get r.interaction_id b.pending ≡ some i)
    × (get_elem? b.calls i ≡ some c)
    × (done c.future ≡ false)
    × (b' ≡ record b { calls = set b.calls i (set_future (Future.answered r) c) })

abbrev IfAccepted : InteractionResponse → InteractionBroker → Responded × InteractionBroker → Type 0
IfAccepted r b (accepted k, b') = Answered r b b'
IfAccepted r b _ = Unit

answer-IfAccepted :
    (blank : String → Bool) (i : ℕ) (c : Call) (r : InteractionResponse) (b : InteractionBroker)
    → get r.interaction_id b.pending ≡ some i
    → get_elem? b.calls i ≡ some c
    → IfAccepted r b (answer blank i c r b)
unfolding answer refuse
answer-IfAccepted blank i c r b p q =
    if_both (IfAccepted r b) (not (str_eq r.turn_id c.request.turn_id)) (λ _. tt)
      (λ _.
        if_both (IfAccepted r b) (not (offered r.action c.request.choices)) (λ _. tt)
          (λ _.
            if_both (IfAccepted r b) (is_submit r.action && blank r.text) (λ _. tt)
              (λ _.
                if_both (IfAccepted r b) (done c.future) (λ _. tt) (λ d. (i, c, p, q, d, refl)))))

expire-IfAccepted :
    (i : ℕ) (c : Call) (r : InteractionResponse) (b : InteractionBroker)
    → IfAccepted r b (expire i c r b)
unfolding expire refuse
expire-IfAccepted i c r b = if_both (IfAccepted r b) (done c.future) (λ _. tt) (λ _. tt)

respond_to-some :
    (blank : String → Bool) (now i : ℕ) (c : Call) (r : InteractionResponse) (b : InteractionBroker)
    → get_elem? b.calls i ≡ some c
    → respond_to blank now (some i) r b
      ≡ (if is_due now c.request.expires_at then expire i c r b else answer blank i c r b)
unfolding respond_to
respond_to-some blank now i c r b q =
    ap
      (λ (o : Option Call). elim o as (λ o. Responded × InteractionBroker) [
        | none ↦ (not_pending r (get r.interaction_id b.terminal), b)
        | some c ↦ if is_due now c.request.expires_at then expire i c r b else answer blank i c r b
      ])
      q

respond_to-none :
    (blank : String → Bool) (now i : ℕ) (r : InteractionResponse) (b : InteractionBroker)
    → get_elem? b.calls i ≡ none
    → respond_to blank now (some i) r b ≡ (not_pending r (get r.interaction_id b.terminal), b)
unfolding respond_to
respond_to-none blank now i r b q =
    ap
      (λ (o : Option Call). elim o as (λ o. Responded × InteractionBroker) [
        | none ↦ (not_pending r (get r.interaction_id b.terminal), b)
        | some c ↦ if is_due now c.request.expires_at then expire i c r b else answer blank i c r b
      ])
      q

not_pending-IfAccepted :
    (r : InteractionResponse) (o : Option String) (b : InteractionBroker)
    → IfAccepted r b (not_pending r o, b)
unfolding refuse
not_pending-IfAccepted r none b = tt
not_pending-IfAccepted r (some s) b = tt

respond_to-IfAccepted :
    (blank : String → Bool) (now : ℕ) (o : Option ℕ) (r : InteractionResponse)
    (b : InteractionBroker)
    → get r.interaction_id b.pending ≡ o
    → IfAccepted r b (respond_to blank now o r b)
unfolding respond_to
respond_to-IfAccepted blank now none r b p =
    not_pending-IfAccepted r (get r.interaction_id b.terminal) b
respond_to-IfAccepted blank now (some i) r b p = elim (Option-cases (get_elem? b.calls i)) [
  | inl q ↦
      subst (IfAccepted r b) (sym (respond_to-none blank now i r b q))
        (not_pending-IfAccepted r (get r.interaction_id b.terminal) b)
  | inr (c, q) ↦ subst (IfAccepted r b) (sym (respond_to-some blank now i c r b q)) (
      if_both (IfAccepted r b) (is_due now c.request.expires_at) (λ _. expire-IfAccepted i c r b)
        (λ _. answer-IfAccepted blank i c r b p q))
]

respond-IfAccepted :
    (blank : String → Bool) (now : ℕ) (r : InteractionResponse) (b : InteractionBroker)
    → IfAccepted r b (respond blank now r b)
unfolding respond refuse
respond-IfAccepted blank now r b =
    if_both (IfAccepted r b) b.closed (λ _. tt)
      (λ _. respond_to-IfAccepted blank now (get r.interaction_id b.pending) r b refl)

-- Any outcome but acceptance.
abbrev pub Late : Responded → Type 0
Late (accepted k) = ⊥
Late _ = Unit

-- Where an open broker has the call pending, its reaction to a response is the one to that call.
pub respond-pending :
    (blank : String → Bool) (now i : ℕ) (c : Call) (r : InteractionResponse) (b : InteractionBroker)
    → b.closed ≡ false
    → get r.interaction_id b.pending ≡ some i
    → get_elem? b.calls i ≡ some c
    → respond blank now r b
      ≡ (if is_due now c.request.expires_at then expire i c r b else answer blank i c r b)
unfolding respond
respond-pending blank now i c r b o p q =
    ap
      (λ (t : Bool).
        if t
        then (refuse r kernel_closing "Interaction broker is closed.", b)
        else respond_to blank now (get r.interaction_id b.pending) r b)
      o
    ∙ (ap (λ (x : Option ℕ). respond_to blank now x r b) p ∙ respond_to-some blank now i c r b q)

pub accepted-Answered :
    (blank : String → Bool) (now : ℕ) (r : InteractionResponse) (k : InteractionReceipt)
    (b b' : InteractionBroker)
    → respond blank now r b ≡ (accepted k, b')
    → Answered r b b'
accepted-Answered blank now r k b b' h = subst (IfAccepted r b) h (respond-IfAccepted blank now r b)

not_twice_at :
    (i : ℕ) (c : Call) (r : InteractionResponse) (b : InteractionBroker)
    (o : Responded × InteractionBroker)
    → get_elem? b.calls i ≡ some c
    → done c.future ≡ true
    → IfAccepted r b o
    → Late o.0 ⊎ (get r.interaction_id b.pending ≢ some i)
not_twice_at i c r b (accepted k, b') q d (j, c', p, q', w, e) = inr (λ g.
    let there : get_elem? b.calls j ≡ some c =
      ap (λ (n : ℕ). get_elem? b.calls n) (ground arith) ∙ q in
    let same : some c' ≡ some c = sym q' ∙ there in ground arith)
not_twice_at i c r b (refused e, b') q d a = inl tt
not_twice_at i c r b (raised, b') q d a = inl tt

-- A response is not accepted, or it is not for the call `i`.
not_twice :
    (blank : String → Bool) (now i : ℕ) (c : Call) (r : InteractionResponse) (b : InteractionBroker)
    → get_elem? b.calls i ≡ some c
    → done c.future ≡ true
    → Late (respond blank now r b).0 ⊎ (get r.interaction_id b.pending ≢ some i)
not_twice blank now i c r b q d =
    not_twice_at i c r b (respond blank now r b) q d (respond-IfAccepted blank now r b)

-- When a response is accepted, it is the answer of the call that was pending under its id and waited: whatever the tasks
-- do afterwards, that call keeps the answer, returns it when it wakes, and no later response is accepted for it.
pub answered_once :
    (blank : String → Bool) (now now' : ℕ) (d : Bool) (r r' : InteractionResponse)
    (k : InteractionReceipt) (b b' : InteractionBroker) (xs : List BrokerStep)
    → respond blank now r b ≡ (accepted k, b')
    → let later = run blank xs b' in
      (i : ℕ) × (c : Call) × (get r.interaction_id b.pending ≡ some i)
      × (get_elem? b.calls i ≡ some c)
      × (done c.future ≡ false)
      × (get_elem? later.calls i ≡ some (set_future (Future.answered r) c))
      × ((wake (set_future (Future.answered r) c) d later).0 ≡ some r)
      × (Late (respond blank now' r' later).0 ⊎ (get r'.interaction_id later.pending ≢ some i))
unfolding wake
answered_once blank now now' d r r' k b b' xs h =
    let (i, c, p, q, w, e) = accepted-Answered blank now r k b b' h in
    let answer : Call = set_future (Future.answered r) c in
    let there : get_elem? b'.calls i ≡ some answer =
      ap (λ (x : InteractionBroker). get_elem? x.calls i) e
      ∙ get_elem?-set_self b.calls i c answer q in
    let later = run-Kept i answer refl blank xs b' there in
    (i, c, p, q, w, later, refl, not_twice blank now' i answer r' (run blank xs b') later refl)
