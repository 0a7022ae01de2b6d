-- ===== src/Engine/Turns/Consent.antt =====
-- The approval of a tool: what runs was allowed by the policy, or granted by the user.
use py_tui_kairo.Common.{
  ℕ, ◌≡◌, ◌⊎◌, inl, inr, refl, sym, ap, ◌∙◌, true, none, some, List, [], ◌∷◌, ◌++◌, String, if_both,
  if◌then◌else◌,
}
use mathlib.Core.Bool.{true≢false}
use Prim.Native.String.{◌++◌ as append_text}
use py_tui_kairo.Contracts.Enums.{AuthorizationMode, EventType, InteractionAction, InteractionKind}
use py_tui_kairo.Contracts.Events.{interaction_event}
use py_tui_kairo.Contracts.Errors.{KernelResult, success, failure}
use py_tui_kairo.Contracts.Interactions.{
  InteractionChoice, InteractionRequest, InteractionResponse, grants,
}
use py_tui_kairo.Contracts.Tools.{ToolInvocation}
use py_tui_kairo.Runtime.Events.{Emission}
use py_tui_kairo.Engine.Turns.Machine.{
  Machine, Ports, turn_cancelled, pure, ◌>>=◌, uses, call, emit,
}
use py_tui_kairo.Engine.Turns.Keeps.{Keeps, Keeps-reads}
use py_tui_kairo.Engine.Turns.Stable.{
  Core, Stable, At, Says, Granted, Allowed, modify-At, transition-At, call-At, uses-At, at_rules,
}
use py_tui_kairo.Engine.Turns.Ensures.{
  Ensures, Ensures-map, Keeps-Ensures, Ensures-bind, Grows, With, With-Stable, With-At, Says-Grows,
  emit-Says, call-Answers, Ensures-pure, Ensures-fact, Ensures-if, Ensures-from, Ensures-raise,
}
use py_tui_kairo.Engine.Turns.Approval.{
  corresponds, sanitised, lacks_text, default_response, new_request, request_interaction,
  waiting_phase, Approval, approved, not_approved, announce, apply_authorization, enable, decide,
  approve, set_override, cancel_token, current_mode, approval_choices,
}

-- What the program goes on with matches its request, or is the safe default.
pub Safe : InteractionRequest → InteractionResponse → Type 0
Safe q r = (corresponds q r ≡ true) ⊎ (r.action ≡ q.safe_default)

default-Safe :
    (q : InteractionRequest) → (r : InteractionResponse) → r ≡ default_response q → Safe q r
unfolding Safe
default-Safe q r e = inr (ap (λ (r : InteractionResponse). r.action) e)

sanitised-Safe :
    (strip : String → String) (q : InteractionRequest) (r : InteractionResponse)
    → Safe q (sanitised strip q r)
unfolding Safe sanitised
sanitised-Safe strip q r =
    let answer = if corresponds q r then r else default_response q in
    if_both (Safe q) (lacks_text strip answer) (λ _. inr refl)
      (λ _. if_both (Safe q) (corresponds q r) (λ e. inl e) (λ _. inr refl))

-- The request was made, and the program goes on with the response.
abbrev Asked : InteractionRequest → Ports → List Emission → Type 0
Asked q ports log = Says (interaction_event "requested" (some q) none none) log

abbrev Answered : InteractionRequest → InteractionResponse → Ports → List Emission → Type 0
Answered q r ports log =
    Asked q ports log × Says (interaction_event "resolved" none (some r) none) log

module _ {P : Ports → Core → Type 0} ⦃st : Stable P⦄ where
  -- The end of an interaction: the answer is awaited, and the response that the program goes on with is announced.
  resolve-Ensures :
      (q : InteractionRequest)
      → Ensures
          (At P)
          (call (λ ports n. ports.request n) >>= λ answer.
            uses (λ ports n. ports.strip) >>= λ strip.
            emit EventType.interaction
              (interaction_event "resolved" none (some (sanitised strip q answer)) none)
            >>= λ u. pure (sanitised strip q answer))
          (λ r. At (
            With P
              (λ ports log. Safe q r × Says (interaction_event "resolved" none (some r) none) log)))
          (At P)
  resolve-Ensures q =
      Ensures-bind _ _ (Keeps-Ensures _ (call-At (λ ports n. ports.request n))) λ answer.
        Ensures-bind _ _ (Keeps-Ensures _ (uses-At (λ ports n. ports.strip))) λ strip.
          Ensures-bind _ _
            (emit-Says EventType.interaction
              (interaction_event "resolved" none (some (sanitised strip q answer)) none) tt)
            λ u.
              Ensures-pure (sanitised strip q answer)
                (λ s h. record { holds = (h.holds.0, (sanitised-Safe strip q answer, h.holds.1)) })

  new_request-Ensures :
      (kind : InteractionKind) (prompt : String) (choices : List InteractionChoice)
      (default : InteractionAction)
      → Ensures
          (At P)
          (new_request kind prompt choices default)
          (λ q s. At P s × ((q.prompt ≡ prompt) × (q.safe_default ≡ default)))
          (At P)
  unfolding new_request uses
  new_request-Ensures kind prompt choices default = record {
    at = λ s h. (record { holds = h.holds }, (refl, refl));
  }

-- The same under what is known of the log.
module _ {P : Ports → Core → Type 0} ⦃st : Stable P⦄ where
  reply-Ensures :
      (q : InteractionRequest)
      → Ensures
          (At (With P (Asked q)))
          (call (λ ports n. ports.request n) >>= λ answer.
            uses (λ ports n. ports.strip) >>= λ strip.
            emit EventType.interaction
              (interaction_event "resolved" none (some (sanitised strip q answer)) none)
            >>= λ u. pure (sanitised strip q answer))
          (λ r. At (With P (λ ports log. Safe q r × Answered q r ports log)))
          (At P)
  reply-Ensures q =
      Ensures-map _
        (resolve-Ensures {P = With P (Asked q)}
          ⦃st = With-Stable {L = Asked q}
            (Says-Grows (interaction_event "requested" (some q) none none))⦄
          q)
        (λ r s h. record { holds = (h.holds.0.0, (h.holds.1.0, (h.holds.0.1, h.holds.1.1))) })
        (λ s h. With-At (Asked q) s h)

  request_interaction-Ensures :
      (kind : InteractionKind) (prompt : String) (choices : List InteractionChoice)
      (default : InteractionAction)
      → Ensures
          (At P)
          (request_interaction kind prompt choices default)
          (λ r. At (
            With P (λ ports log.
              (q : InteractionRequest) × (q.prompt ≡ prompt)
              × (q.safe_default ≡ default)
              × Safe q r
              × Answered q r ports log)))
          (At P)
  unfolding request_interaction
  request_interaction-Ensures kind prompt choices default =
      Ensures-bind _ _ (new_request-Ensures kind prompt choices default) λ q. Ensures-fact _ λ e.
        Ensures-bind _ _ (Keeps-Ensures _ (transition-At (waiting_phase kind))) λ u.
          Ensures-bind _ _
            (emit-Says EventType.interaction (interaction_event "requested" (some q) none none) tt)
            λ v.
              Ensures-map _ (reply-Ensures q)
                (λ r s h. record { holds = (h.holds.0, (q, e.0, e.1, h.holds.1.0, h.holds.1.1)) })
                (λ s h. h)

Granted-Grows : (name : String) → Grows (λ ports log. Granted name log)
Granted-Grows name = record {
  appended = λ p xs x (q, r, prompt, c, g, asked, resolved). (
    q,
    r,
    prompt,
    c,
    g,
    (Says-Grows (interaction_event "requested" (some q) none none)).appended p xs x asked,
    (Says-Grows (interaction_event "resolved" none (some r) none)).appended p xs x resolved,
  );
}

pub Allowed-Grows :
    (i : ToolInvocation) (mode : AuthorizationMode) → Grows (λ ports log. Allowed ports log i mode)
Allowed-Grows i mode = record { appended = grows }
  where
    grows :
        (p : Ports) (xs : List Emission) (x : Emission)
        → Allowed p xs i mode
        → Allowed p (xs ++ x ∷ []) i mode
    grows p xs x (inl e) = inl e
    grows p xs x (inr g) = inr ((Granted-Grows i.name).appended p xs x g)

-- What a granting response to the approval request shows.
Consented-intro :
    (name : String) (r : InteractionResponse) (log : List Emission) (q : InteractionRequest)
    → q.prompt ≡ append_text "Execute tool '" (append_text name "'?")
    → q.safe_default ≡ InteractionAction.reject
    → Safe q r
    → Says (interaction_event "requested" (some q) none none) log
    → Says (interaction_event "resolved" none (some r) none) log
    → grants r.action ≡ true
    → Granted name log
unfolding Safe
Consented-intro name r log q prompt d (inl c) asked resolved g =
    (q, r, prompt, c, g, asked, resolved)
Consented-intro name r log q prompt d (inr e) asked resolved g =
    absurd (true≢false (sym g ∙ ap grants (e ∙ d)))

module _ {P : Ports → Core → Type 0} ⦃st : Stable P⦄ where
  announce-At : (mode : AuthorizationMode) (r : KernelResult ℕ) → Keeps (At P) (announce mode r)
  unfolding announce
  announce-At mode (success n) = search at_rules
  announce-At mode (failure e) = search at_rules

  apply_authorization-At : (mode : AuthorizationMode) → Keeps (At P) (apply_authorization mode)
  unfolding apply_authorization
  apply_authorization-At mode = search (at_rules, announce-At)

  enable-At : (mode : AuthorizationMode) → Keeps (At P) (enable mode)
  unfolding enable
  enable-At mode =
      search (at_rules, apply_authorization-At, modify-At (set_override mode) (λ r. refl))

-- What the approval of the invocation comes to.
module _ (P : Ports → Core → Type 0) where
  abbrev pub Settles : ToolInvocation → Approval → Machine → Type 0
  Settles i (approved mode) = At (With P (λ ports log. Allowed ports log i mode))
  Settles i not_approved = At P

module _ {P : Ports → Core → Type 0} ⦃st : Stable P⦄ where
  enable-Ensures :
      (i : ToolInvocation) (mode : AuthorizationMode)
      → Ensures (At (With P (λ ports log. Granted i.name log))) (enable mode) (Settles P i) (At P)
  unfolding enable
  enable-Ensures i mode =
      let L = λ (ports : Ports) (log : List Emission). Granted i.name log in
      let st' = With-Stable {P = P} {L = L} (Granted-Grows i.name) in
      Ensures-bind _ _
        (Ensures-map _
          (Keeps-Ensures _ (modify-At {P = With P L} ⦃st = st'⦄ (set_override mode) (λ r. refl)))
          (λ a s h. h) (λ s h. With-At L s h))
        λ u.
          Ensures-bind _ _
            (Ensures-map _ (Keeps-Ensures _ (apply_authorization-At {P = With P L} ⦃st = st'⦄ mode))
              (λ a s h. h) (λ s h. With-At L s h))
            λ v. Ensures-pure (approved mode) (λ s h. record { holds = (h.holds.0, inr h.holds.1) })

  decide-Ensures :
      (i : ToolInvocation) (mode : AuthorizationMode) (action : InteractionAction)
      → Ensures
          (At (With P (λ ports log. grants action ≡ true → Granted i.name log)))
          (decide mode action)
          (Settles P i)
          (At P)
  unfolding decide
  decide-Ensures i mode InteractionAction.stop =
      Ensures-from _ (λ s h. record { holds = h.holds.0 })
        (Ensures-bind _ _
          (Keeps-Ensures _
            (modify-At {P = P} (cancel_token "Tool approval stopped the task.") (λ r. refl)))
          λ u. Ensures-raise (turn_cancelled "Tool approval stopped the task.") (λ s h. h))
  decide-Ensures i mode InteractionAction.approve_once =
      Ensures-pure (approved mode) (λ s h. record { holds = (h.holds.0, inr (h.holds.1 refl)) })
  decide-Ensures i mode InteractionAction.enable_auto =
      Ensures-from _ (λ s h. record { holds = (h.holds.0, h.holds.1 refl) })
        (enable-Ensures i AuthorizationMode.auto)
  decide-Ensures i mode InteractionAction.enable_yolo =
      Ensures-from _ (λ s h. record { holds = (h.holds.0, h.holds.1 refl) })
        (enable-Ensures i AuthorizationMode.yolo)
  decide-Ensures i mode _ = Ensures-pure not_approved (λ s h. record { holds = h.holds.0 })

  pub approve-Ensures :
      (i : ToolInvocation) → Ensures (At P) (approve i.name i.scope) (Settles P i) (At P)
  unfolding approve
  approve-Ensures i = Ensures-bind _ _ (Keeps-Ensures _ (Keeps-reads current_mode)) λ mode.
      Ensures-bind _ _ (call-Answers (λ ports. ports.authorizes mode i.scope)) λ authorized.
        Ensures-if authorized _ _
          (λ e.
            Ensures-pure (approved mode)
              (λ s h. record { holds = (h.holds.0, inl (sym h.holds.1 ∙ e)) }))
          (λ e.
            Ensures-from _ (λ s h. record { holds = h.holds.0 })
              (Ensures-bind _ _
                (request_interaction-Ensures {P = P} InteractionKind.tool_approval
                  (append_text "Execute tool '" (append_text i.name "'?")) (approval_choices mode)
                  InteractionAction.reject)
                λ r.
                  Ensures-from _
                    (λ s h.
                      let (q, prompt, d, safe, (asked, resolved)) = h.holds.1 in
                      record {
                        holds = (
                          h.holds.0,
                          Consented-intro i.name r s.run.log q prompt d safe asked resolved,
                        );
                      })
                    (decide-Ensures i mode r.action)))
