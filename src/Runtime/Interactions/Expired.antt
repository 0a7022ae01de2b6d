-- ===== src/Runtime/Interactions/Expired.antt =====
-- A second answer after the time of an interaction.
use py_tui_kairo.Common.{
  ℕ, ◌≡◌, refl, ap, ◌∙◌, sym, subst, Bool, true, false, ◌||◌, none, some, [], ◌∷◌, ◌++◌, String,
  eq_iff, arith, length, get_elem?, get_elem?-set_self, get_elem?-append_last, if_both,
  if◌then◌else◌,
}
use py_tui_kairo.Common.Dict.{get, put, remove, contains, get-put, get-remove}
use py_tui_kairo.Contracts.Errors.{KernelResult, success, failure}
use py_tui_kairo.Contracts.Interactions.{
  InteractionRequest, InteractionResponse, InteractionReceipt,
}
use py_tui_kairo.Runtime.Interactions.{
  InteractionBroker, Call, Future, Responded, accepted, raised, set_future, is_due, open_request,
  expire, answer, respond, wake, finally_request,
}
use py_tui_kairo.Runtime.Interactions.Once.{Answered, accepted-Answered, respond-pending}

-- The broker was open, did not know the id, and has entered the call.
abbrev Entered : InteractionRequest → InteractionBroker → ℕ → InteractionBroker → Type 0
Entered q b i b' =
    (b.closed ≡ false)
    × (get q.interaction_id b.terminal ≡ none)
    × (i ≡ length b.calls)
    × (b' ≡ record b {
      pending = put q.interaction_id (length b.calls) b.pending;
      calls = b.calls ++ record { request = q; future = Future.waiting } ∷ [];
    })

abbrev IfOpened :
    InteractionRequest → InteractionBroker → KernelResult ℕ × InteractionBroker → Type 0
IfOpened q b (success i, b') = Entered q b i b'
IfOpened q b (failure e, b') = Unit

absent :
    (id : String) (b : InteractionBroker)
    → (contains id b.pending || contains id b.terminal) ≡ false
    → get id b.terminal ≡ none
absent id b h = ground arith

open_request-IfOpened :
    (q : InteractionRequest) (b : InteractionBroker) → IfOpened q b (open_request q b)
unfolding open_request
open_request-IfOpened q b =
    if_both (IfOpened q b) b.closed (λ _. tt)
      (λ o.
        if_both (IfOpened q b)
          (contains q.interaction_id b.pending || contains q.interaction_id b.terminal) (λ _. tt)
          (λ n. (o, absent q.interaction_id b n, refl, refl)))

-- An open broker that knows the id of `q` by a pending call only, which has the answer `r`.
abbrev Replied : InteractionRequest → InteractionResponse → ℕ → InteractionBroker → Type 0
Replied q r i b =
    (b.closed ≡ false)
    × (get q.interaction_id b.terminal ≡ none)
    × (get q.interaction_id b.pending ≡ some i)
    × (get_elem? b.calls i ≡ some (record { request = q; future = Future.answered r }))

get-put_self : (k : String) (n : ℕ) (b : InteractionBroker) → get k (put k n b.pending) ≡ some n
get-put_self k n b = ground (arith, get-put k k n b.pending, eq_iff k k)

opened-Replied :
    (q : InteractionRequest) (r : InteractionResponse) (i : ℕ) (b b' b'' : InteractionBroker)
    → Entered q b i b'
    → Answered r b' b''
    → r.interaction_id ≡ q.interaction_id
    → Replied q r i b''
opened-Replied q r i b b' b'' (o, n, l, e) (j, c, p, g, d, e') same =
    let id = q.interaction_id in
    let n' = length b.calls in
    let asked : Call = record { request = q; future = Future.waiting } in
    let entry : get id b'.pending ≡ some n' =
      ap (λ (x : InteractionBroker). get id x.pending) e ∙ get-put_self id n' b in
    let here : some j ≡ some n' = sym p ∙ (ap (λ (x : String). get x b'.pending) same ∙ entry) in
    let number : j ≡ n' = ground arith in
    let call : some c ≡ some asked =
      sym g
      ∙ (ap (λ (x : ℕ). get_elem? b'.calls x) number
          ∙ (ap (λ (x : InteractionBroker). get_elem? x.calls n') e
              ∙ get_elem?-append_last b.calls asked)) in
    let same_call : c ≡ asked = cc in
    (
      ap (λ (x : InteractionBroker). x.closed) e'
          ∙ (ap (λ (x : InteractionBroker). x.closed) e ∙ o),
      ap (λ (x : InteractionBroker). get id x.terminal) e'
          ∙ (ap (λ (x : InteractionBroker). get id x.terminal) e ∙ n),
      ap (λ (x : InteractionBroker). get id x.pending) e' ∙ (entry ∙ ap some (sym l)),
      ap (λ (x : ℕ). get_elem? b''.calls x) (l ∙ sym number)
          ∙ (ap (λ (x : InteractionBroker). get_elem? x.calls j) e'
              ∙ (get_elem?-set_self b'.calls j c (set_future (Future.answered r) c) g
                  ∙ ap (λ (x : Call). some (set_future (Future.answered r) x)) same_call)),
    )

-- The second response takes the id away and raises.
expired-raises :
    (blank : String → Bool) (now i : ℕ) (q : InteractionRequest) (r r' : InteractionResponse)
    (b : InteractionBroker)
    → Replied q r i b
    → r'.interaction_id ≡ q.interaction_id
    → is_due now q.expires_at ≡ true
    → respond blank now r' b ≡ (raised, record b { pending = remove q.interaction_id b.pending })
unfolding expire
expired-raises blank now i q r r' b (o, n, p, g) same due =
    let c : Call = record { request = q; future = Future.answered r } in
    let after : String → Responded × InteractionBroker =
      λ x. (raised, record b { pending = remove x b.pending }) in
    respond-pending blank now i c r' b o (ap (λ (x : String). get x b.pending) same ∙ p) g
    ∙ (ap (λ (x : Bool). if x then expire i c r' b else answer blank i c r' b) due ∙ ap after same)

removed : (id : String) (b : InteractionBroker) → get id (remove id b.pending) ≡ none
removed id b = ground (arith, get-remove id id b.pending, eq_iff id id)

-- An open broker that does not know the id enters a request with it.
reopened :
    (q : InteractionRequest) (b : InteractionBroker)
    → b.closed ≡ false
    → get q.interaction_id b.terminal ≡ none
    → get q.interaction_id b.pending ≡ none
    → (open_request q b).0 ≡ success (length b.calls)
unfolding open_request
reopened q b o n p = ground arith

-- The asking call returns its answer and changes nothing where its id is not pending.
wake-gone :
    (q : InteractionRequest) (r : InteractionResponse) (d : Bool) (b : InteractionBroker)
    → get q.interaction_id b.pending ≡ none
    → wake (record { request = q; future = Future.answered r }) d b ≡ (some r, b)
unfolding wake finally_request
wake-gone q r d b h = ground arith

-- A request is opened and its response accepted; after the request's time, and before the asking call wakes, a second
-- response under its id raises. The asking call then returns the accepted response and leaves its id neither pending nor
-- ended, so that a new request with that id is opened.
pub late_response_raises :
    (blank : String → Bool) (now now' i : ℕ) (q q' : InteractionRequest)
    (r r' : InteractionResponse) (k : InteractionReceipt) (d : Bool) (b b' b'' : InteractionBroker)
    → open_request q b ≡ (success i, b')
    → respond blank now r b' ≡ (accepted k, b'')
    → r.interaction_id ≡ q.interaction_id
    → r'.interaction_id ≡ q.interaction_id
    → q'.interaction_id ≡ q.interaction_id
    → is_due now' q.expires_at ≡ true
    → let (outcome, after) = respond blank now' r' b'' in
      let asking : Call = record { request = q; future = Future.answered r } in
      let woken = (wake asking d after).1 in
      (outcome ≡ raised)
      × (get_elem? after.calls i ≡ some asking)
      × ((wake asking d after).0 ≡ some r)
      × (get q.interaction_id woken.pending ≡ none)
      × (get q.interaction_id woken.terminal ≡ none)
      × ((open_request q' woken).0 ≡ success (length woken.calls))
late_response_raises blank now now' i q q' r r' k d b b' b'' h a same same' again due =
    let id = q.interaction_id in
    let entered = subst (IfOpened q b) h (open_request-IfOpened q b) in
    let replied =
      opened-Replied q r i b b' b'' entered (accepted-Answered blank now r k b' b'' a) same in
    let (o, n, p, g) = replied in
    let after : InteractionBroker = record b'' { pending = remove id b''.pending } in
    let gone = removed id b'' in
    rw (expired-raises blank now' i q r r' b'' replied same' due) (
      rw (wake-gone q r d after gone) (
        refl,
        g,
        refl,
        gone,
        n,
        reopened q' after o (ap (λ (x : String). get x after.terminal) again ∙ n)
            (ap (λ (x : String). get x after.pending) again ∙ gone),
      ))
