-- ===== src/Engine/Submit/Admission.antt =====
-- What a submission leaves behind.
use Prim.Native.String.{◌++◌ as append_text}
use py_tui_kairo.Contracts.Enums.{ErrorCode}
use py_tui_kairo.Contracts.Tools.{ToolDescriptor}
use py_tui_kairo.Common.{
  ◌≡◌, ◌≢◌, refl, sym, ap, subst, ◌∙◌, false, Option, none, some, List, [], ◌∷◌, String, eq_iff,
  arith,
}
use py_tui_kairo.Common.Dict.{Dict, get, put, get-remove}
use py_tui_kairo.Contracts.Errors.{KernelError, KernelResult, success, failure}
use py_tui_kairo.Contracts.Providers.{ProviderProfile, SessionRecord}
use py_tui_kairo.Contracts.Turns.{TurnRequest}
use py_tui_kairo.Runtime.Turns.{
  SessionTurnSupervisor, TurnLease, start, finish, release, turn_active,
}
use py_tui_kairo.Runtime.Turns.Leases.{start_success}
use py_tui_kairo.Engine.Models.{EngineOptions, RunSnapshot}
use py_tui_kairo.Engine.Turns.Machine.{Run}
use py_tui_kairo.Engine.Turns.Execute.{new_run}
use py_tui_kairo.Engine.Submit.{
  Answer, answers, raises, cancelled, Awaited, SubmitPorts, TurnEngine, Submitted, after_others,
  or_else, on_answer, await_port, await_part, give_up, accept, after_tools, overlay, in_workspace,
  submit_error, with_profile, with_session, with_lease, submit_for, submit,
}

-- An accepted turn has its run, and a refused one holds no lease and has no run.
abbrev pub Settled : String → String → Dict Run → Submitted → Type 0
Settled session_id turn_id runs (answers (success a), e) =
    (snapshot : RunSnapshot) × (snapshot.turn_id ≡ turn_id)
    × (snapshot.session_id ≡ session_id)
    × (a.turn_id ≡ turn_id)
    × (a.session_id ≡ session_id)
    × (e.runs ≡ put turn_id (new_run snapshot) runs)
Settled session_id turn_id runs (answers (failure error), e) =
    (get session_id e.supervisor.active ≢ some turn_id) × (e.runs ≡ runs)
Settled session_id turn_id runs (raises message, e) = e.runs ≡ runs
Settled session_id turn_id runs (cancelled, e) = e.runs ≡ runs

finish-clears : (s t : String) (v : SessionTurnSupervisor) → get s (finish s t v).1.active ≢ some t
unfolding finish
finish-clears s t v = ground (arith, get-remove s s v.active, eq_iff s s, eq_iff t t)

module _ (session_id turn_id : String) (runs : Dict Run) where
  abbrev Good : Submitted → Type 0
  Good = Settled session_id turn_id runs

  abbrev lease : TurnLease
  lease = record { session_id = session_id; turn_id = turn_id; released = false }

  give_up-Settled :
      (error : KernelError) (e : TurnEngine) → e.runs ≡ runs → Good (give_up lease error e)
  unfolding give_up release
  give_up-Settled error e q = (finish-clears session_id turn_id e.supervisor, q)

  on_answer-Settled :
      {A : Type 0} (a : Answer A) (k : A → TurnEngine → Submitted) (e : TurnEngine)
      → e.runs ≡ runs
      → ((x : A) (e' : TurnEngine) → e'.runs ≡ runs → Good (k x e'))
      → Good (on_answer a k e)
  on_answer-Settled (answers a) k e q g = g a e q
  on_answer-Settled (raises m) k e q g = q
  on_answer-Settled cancelled k e q g = q

  await_part-Settled :
      {A B : Type 0} (o : Option (Awaited A)) (b : B) (f : A → B) (k : B → TurnEngine → Submitted)
      (e : TurnEngine)
      → e.runs ≡ runs
      → ((x : B) (e' : TurnEngine) → e'.runs ≡ runs → Good (k x e'))
      → Good (await_part o b f k e)
  await_part-Settled none b f k e q g = g b e q
  await_part-Settled (some a) b f k e q g =
      on_answer-Settled a.answer (λ x. k (f x)) (after_others a e) q (λ x. g (f x))

  after_tools-Settled :
      (s : RunSnapshot) (a : Answer (List ToolDescriptor)) (e : TurnEngine)
      → s.turn_id ≡ turn_id
      → s.session_id ≡ session_id
      → e.runs ≡ runs
      → Good (after_tools lease s a e)
  unfolding after_tools accept
  after_tools-Settled s (answers tools) e t i q = (
    record s { tools = tools },
    t,
    i,
    t,
    i,
    ap (λ x. put x (new_run (record s { tools = tools })) e.runs) t
        ∙ ap (λ x. put turn_id (new_run (record s { tools = tools })) x) q,
  )
  after_tools-Settled s (raises m) e t i q =
      give_up-Settled (submit_error ErrorCode.internal (append_text "Tool discovery failed: " m)) e
        q
  after_tools-Settled s cancelled e t i q = q

  with_profile-Settled :
      (ports : SubmitPorts) (session : SessionRecord) (o : EngineOptions)
      (r : KernelResult ProviderProfile) (e : TurnEngine)
      → e.runs ≡ runs
      → Good (with_profile ports lease session o r e)
  unfolding with_profile
  with_profile-Settled ports session o (failure error) e q = give_up-Settled error e q
  with_profile-Settled ports session o (success profile) e q =
      after_tools-Settled
        (record {
          turn_id = turn_id;
          session_id = session_id;
          session = session;
          profile = profile;
          tools = [];
          options = o;
          accepted_at = ports.now;
        })
        ports.list_tools.answer (after_others ports.list_tools e) refl refl q

  with_session-Settled :
      (ports : SubmitPorts) (o : EngineOptions) (r : KernelResult SessionRecord) (e : TurnEngine)
      → e.runs ≡ runs
      → Good (with_session ports o lease r e)
  unfolding with_session
  with_session-Settled ports o (failure error) e q = give_up-Settled error e q
  with_session-Settled ports o (success session) e q =
      await_part-Settled ports.preferences o (λ p. overlay p o) _ e q
        (λ o' e' q'.
          await_part-Settled ports.workspace o' (λ w. in_workspace w o') _ e' q'
            (λ o'' e'' q''.
              on_answer-Settled ports.resolve_profile.answer _
                (after_others ports.resolve_profile e'') q''
                (λ r x. with_profile-Settled ports session o'' r x)))

not_active : (s t : String) (d : Dict String) → turn_active t d ≡ false → get s d ≢ some t
unfolding turn_active get
not_active s t [] h = λ e. cc
not_active s t ((j, u) ∷ d) h = ground (arith, not_active s t d, eq_iff u t, eq_iff j s)

failed_start :
    (s t : String) (v : SessionTurnSupervisor) (error : KernelError)
    → (start s t v).0 ≡ failure error
    → (start s t v).1 ≡ v
unfolding start
failed_start s t v error h = ground arith

with_lease-Settled :
    (s t : String) (runs : Dict Run) (ports : SubmitPorts) (o : EngineOptions)
    (r : KernelResult TurnLease) (e : TurnEngine)
    → e.runs ≡ runs
    → ((error : KernelError) → r ≡ failure error → get s e.supervisor.active ≢ some t)
    → ((l : TurnLease)
        → r ≡ success l
        → l ≡ record { session_id = s; turn_id = t; released = false })
    → Settled s t runs (with_lease ports o r e)
unfolding with_lease
with_lease-Settled s t runs ports o (failure error) e q f g = (f error refl, q)
with_lease-Settled s t runs ports o (success l) e q f g =
    subst (λ (l : TurnLease). Settled s t runs (await_port ports.load (with_session ports o l) e))
      (sym (g l refl))
      (on_answer-Settled s t runs ports.load.answer _ (after_others ports.load e) q
        (λ r x p. with_session-Settled s t runs ports o r x p))

-- A submission for a session, with a fresh turn id: if it is accepted, there is a run for the turn and the session; if
-- it returns an error, at whichever step, the session's turn is not this one and there is no new run, whatever other
-- tasks did with the supervisor meanwhile.
pub submit-Settled :
    (ports : SubmitPorts) (o : EngineOptions) (request : TurnRequest) (e : TurnEngine)
    (session_id : String)
    → or_else request.session_id o.default_session_id ≡ some session_id
    → turn_active ports.turn_id e.supervisor.active ≡ false
    → Settled session_id ports.turn_id e.runs (submit ports o request e)
unfolding submit
submit-Settled ports o request e s q fresh =
    let t = ports.turn_id in
    subst (λ x. Settled s t e.runs (submit_for ports o x e)) (sym q)
      (with_lease-Settled s t e.runs ports o (start s t e.supervisor).0
        (record e { supervisor = (start s t e.supervisor).1 }) refl
        (λ error h.
          subst (λ (v : SessionTurnSupervisor). get s v.active ≢ some t)
            (sym (failed_start s t e.supervisor error h))
            (not_active s t e.supervisor.active fresh))
        (λ l h. (start_success s t e.supervisor l h).0))
