-- ===== src/Engine/Submit/Blocked.antt =====
-- What a cancelled submission leaves behind.
use py_tui_kairo.Contracts.Enums.{kernel_closing}
use py_tui_kairo.Common.{
  ◌≡◌, ◌≢◌, refl, sym, ap, subst, ◌∙◌, false, none, some, List, [], ◌∷◌, String, eq_iff, arith, All,
  ◌⊎◌, inl, inr,
}
use py_tui_kairo.Common.Dict.{Dict, get, put, get-put}
use py_tui_kairo.Contracts.Errors.{KernelResult, success, failure, kernel_error}
use py_tui_kairo.Contracts.Providers.{SessionRecord}
use py_tui_kairo.Contracts.Turns.{TurnRequest}
use py_tui_kairo.Runtime.Turns.{
  SessionTurnSupervisor, TurnLease, start, turn_active, busy, steps, close_admission, Op, start_op,
  finish_op, close_op, step,
}
use py_tui_kairo.Runtime.Turns.Leases.{finish-get}
use py_tui_kairo.Engine.Models.{EngineOptions}
use py_tui_kairo.Engine.Turns.Machine.{Run}
use py_tui_kairo.Engine.Submit.{
  Answer, answers, cancelled, SubmitPorts, TurnEngine, Submitted, or_else, on_answer, with_session,
  with_lease, submit_for, submit,
}

started :
    (s t : String) (v : SessionTurnSupervisor)
    → turn_active t v.active ≡ false
    → get s v.active ≡ none
    → v.closing ≡ false
    → start s t v ≡ (
      success (record { session_id = s; turn_id = t; released = false }),
      record v { active = put s t v.active },
    )
unfolding start
started s t v fresh free opened = ground arith

put-own : (s t : String) (v : SessionTurnSupervisor) → get s (put s t v.active) ≡ some t
put-own s t v = ground (arith, get-put s s t v.active, eq_iff s s)

-- No step of other tasks but its finish takes a turn from its session.
step-held :
    (s t : String) (x : Op) (v : SessionTurnSupervisor)
    → x ≢ finish_op s t
    → get s v.active ≡ some t
    → get s (step x v).active ≡ some t
unfolding step start close_admission
step-held s t (start_op s' t') v other held = ground (arith, get-put s' s t' v.active, eq_iff s' s)
step-held s t (finish_op s' t') v other held = elim (finish-get s' t' v s) [
  | inl same ↦ same ∙ held
  | inr (j, was, gone) ↦ absurd (other cc)
]
step-held s t close_op v other held = held

steps-held :
    (s t : String) (os : List Op) (v : SessionTurnSupervisor)
    → All (λ x. x ≢ finish_op s t) os
    → get s v.active ≡ some t
    → get s (steps os v).active ≡ some t
unfolding steps
steps-held s t [] v others held = held
steps-held s t (x ∷ os) v others held =
    steps-held s t os (step x v) others.1 (step-held s t x v others.0 held)

-- A submission is refused: as busy by the turn `t`, or as closing.
abbrev pub Refused : String → Submitted → Type 0
Refused t (answer, e) =
    (answer ≡ answers (failure (busy t)))
    ⊎ (answer ≡ answers (failure (kernel_error kernel_closing "Turn supervisor is closing.")))

start-held :
    (s t later : String) (v : SessionTurnSupervisor)
    → get s v.active ≡ some t
    → (start s later v ≡ (failure (busy t), v))
      ⊎ (start s later v ≡ (failure (kernel_error kernel_closing "Turn supervisor is closing."), v))
unfolding start
start-held s t later v held = ground arith

submit-held :
    (ports : SubmitPorts) (o : EngineOptions) (request : TurnRequest) (e : TurnEngine)
    (s t : String)
    → or_else request.session_id o.default_session_id ≡ some s
    → get s e.supervisor.active ≡ some t
    → Refused t (submit ports o request e)
unfolding submit with_lease
submit-held ports o request e s t q held =
    subst (λ x. Refused t (submit_for ports o x e)) (sym q)
      (let next : KernelResult TurnLease × SessionTurnSupervisor → Submitted =
          λ p. with_lease ports o p.0 (record e { supervisor = p.1 }) in
        elim (start-held s t ports.turn_id e.supervisor held) [
          | inl h ↦ subst (λ p. Refused t (next p)) (sym h) (inl refl)
          | inr h ↦ subst (λ p. Refused t (next p)) (sym h) (inr refl)
        ])

submit-cancelled :
    (ports : SubmitPorts) (o : EngineOptions) (request : TurnRequest) (e : TurnEngine)
    (session_id : String)
    → or_else request.session_id o.default_session_id ≡ some session_id
    → turn_active ports.turn_id e.supervisor.active ≡ false
    → get session_id e.supervisor.active ≡ none
    → e.supervisor.closing ≡ false
    → ports.load.answer ≡ cancelled
    → submit ports o request e ≡ (
      cancelled,
      record e {
        supervisor =
            steps ports.load.meanwhile
              (record e.supervisor { active = put session_id ports.turn_id e.supervisor.active });
      },
    )
unfolding submit
submit-cancelled ports o request e s q fresh free opened load =
    let v = record e.supervisor { active = put s ports.turn_id e.supervisor.active } in
    let lease : TurnLease = record { session_id = s; turn_id = ports.turn_id; released = false } in
    ap (λ x. submit_for ports o x e) q
    ∙ ap
        (λ (p : KernelResult TurnLease × SessionTurnSupervisor).
          with_lease ports o p.0 (record e { supervisor = p.1 }))
        (started s ports.turn_id e.supervisor fresh free opened)
    ∙ ap
        (λ (a : Answer (KernelResult SessionRecord)).
          on_answer a (with_session ports o lease)
            (record e { supervisor = steps ports.load.meanwhile v }))
        load

-- A submission of a new turn for a free session of an open supervisor, cancelled while the session is loaded, leaves
-- the session to its turn, for which no run is entered. While no task finishes that turn at that session, during the
-- load or after it, every later submission for the session, whatever its ports and options, is refused: as busy with
-- the turn, or as closing.
pub cancelled_submit_blocks :
    (ports ports' : SubmitPorts) (o o' : EngineOptions) (request request' : TurnRequest)
    (e : TurnEngine) (runs : Dict Run) (os : List Op) (session_id : String)
    → or_else request.session_id o.default_session_id ≡ some session_id
    → turn_active ports.turn_id e.supervisor.active ≡ false
    → get session_id e.supervisor.active ≡ none
    → e.supervisor.closing ≡ false
    → ports.load.answer ≡ cancelled
    → All (λ x. x ≢ finish_op session_id ports.turn_id) ports.load.meanwhile
    → All (λ x. x ≢ finish_op session_id ports.turn_id) os
    → or_else request'.session_id o'.default_session_id ≡ some session_id
    → let (result, e') = submit ports o request e in
      (result ≡ cancelled)
      × (e'.runs ≡ e.runs)
      × Refused ports.turn_id
          (submit ports' o' request' (record { supervisor = steps os e'.supervisor; runs = runs }))
cancelled_submit_blocks ports ports' o o' request request' e runs os s q fresh free opened load m n
      q' =
    let t = ports.turn_id in
    let v : SessionTurnSupervisor = record e.supervisor { active = put s t e.supervisor.active } in
    let v' = steps os (steps ports.load.meanwhile v) in
    let held : get s v'.active ≡ some t =
      steps-held s t os _ n (steps-held s t ports.load.meanwhile v m (put-own s t e.supervisor)) in
    subst
      (λ (x : Submitted).
        (x.0 ≡ cancelled)
        × (x.1.runs ≡ e.runs)
        × Refused t (
            submit ports' o' request'
              (record { supervisor = steps os x.1.supervisor; runs = runs })))
      (sym (submit-cancelled ports o request e s q fresh free opened load))
      (
        refl,
        refl,
        submit-held ports' o' request' (record { supervisor = v'; runs = runs }) s t q' held,
      )
