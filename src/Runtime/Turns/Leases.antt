-- ===== src/Runtime/Turns/Leases.antt =====
-- What a lease may end, and how a closing supervisor drains.
use py_tui_kairo.Common.{
  ◌≡◌, ◌⊎◌, inl, inr, refl, ap, ◌∙◌, Bool, true, false, none, some, List, [], ◌∷◌, String, eq_iff,
  arith, map, ◌++◌, All, Option-cases, if_both,
}
use py_tui_kairo.Common.Dict.{Dict, get, put, get-put, get-remove}
use py_tui_kairo.Contracts.Errors.{success}
use py_tui_kairo.Runtime.Turns.{
  SessionTurnSupervisor, TurnLease, start, finish, release, close_admission, is_idle, Op, start_op,
  finish_op, close_op, step, steps, Moment, other, woken, wait_idle, wait_loop,
}
use py_tui_kairo.Runtime.Turns.Exclusion.{finish_cases}

pub finish-get :
    (s t : String) (v : SessionTurnSupervisor) (j : String)
    → (get j (finish s t v).1.active ≡ get j v.active)
      ⊎ ((j ≡ s) × (get j v.active ≡ some t) × (get j (finish s t v).1.active ≡ none))
finish-get s t v j = elim (finish_cases s t v) [
  | inl same ↦ inl (rw same)
  | inr (here, e) ↦ rw e (ground (arith, get-remove s j v.active, eq_iff s j))
]

-- Releasing a lease leaves every session's turn alone but the one the lease was given for, and that
-- one only if it is still active at the lease's session. A second release reports False and changes
-- nothing.
pub release_ends_its_own :
    (l : TurnLease) (v : SessionTurnSupervisor) (j : String)
    → ((get j (release l v).2.active ≡ get j v.active)
        ⊎ ((j ≡ l.session_id)
            × (l.released ≡ false)
            × (get j v.active ≡ some l.turn_id)
            × (get j (release l v).2.active ≡ none)))
      × ((release l v).1.released ≡ true)
      × (release (release l v).1 (release l v).2 ≡ (false, (release l v).1, (release l v).2))
unfolding release
release_ends_its_own l v j = ground (arith, finish-get l.session_id l.turn_id v j)

pub start_success :
    (s t : String) (v : SessionTurnSupervisor) (l : TurnLease)
    → (start s t v).0 ≡ success l
    → (l ≡ record { session_id = s; turn_id = t; released = false })
      × (get s v.active ≡ none)
      × ((start s t v).1 ≡ record v { active = put s t v.active })
unfolding start
start_success s t v l h = ground arith

-- The lease that a successful start gives ends that turn: release reports True, the session is free
-- again and every other session is as it was before the start.
release-start :
    (s t : String) (v : SessionTurnSupervisor) (l : TurnLease) (j : String)
    → (start s t v).0 ≡ success l
    → ((release l (start s t v).1).0 ≡ true)
      × (get j (release l (start s t v).1).2.active ≡ get j v.active)
unfolding release finish
release-start s t v l j h =
    let (e, free, after) = start_success s t v l h in
    ground (
      arith,
      e,
      free,
      after,
      get-put s s t v.active,
      get-put s j t v.active,
      eq_iff s s,
      eq_iff t t,
      eq_iff s j,
      get-remove s j (put s t v.active),
    )

start-closing : (s t : String) (v : SessionTurnSupervisor) → v.closing ≡ true → (start s t v).1 ≡ v
unfolding start
start-closing s t v h = ground arith

finish-closing :
    (s t : String) (v : SessionTurnSupervisor) → v.closing ≡ true → (finish s t v).1.closing ≡ true
unfolding finish
finish-closing s t v h = ground arith

step-closing :
    (o : Op) (v : SessionTurnSupervisor) (j : String)
    → v.closing ≡ true
    → ((step o v).closing ≡ true)
      × ((get j (step o v).active ≡ get j v.active) ⊎ (get j (step o v).active ≡ none))
unfolding step close_admission
step-closing (start_op s t) v j h = rw (start-closing s t v h) (h, inl refl)
step-closing (finish_op s t) v j h = (finish-closing s t v h, ground (arith, finish-get s t v j))
step-closing close_op v j h = (refl, inl refl)

-- Once admission is closed it stays closed, and no step of any task gives a session a turn that it did
-- not have: each session keeps its turn or loses it.
closing_admits_nothing :
    (os : List Op) (v : SessionTurnSupervisor) (j : String)
    → v.closing ≡ true
    → ((steps os v).closing ≡ true)
      × ((get j (steps os v).active ≡ get j v.active) ⊎ (get j (steps os v).active ≡ none))
unfolding steps
closing_admits_nothing [] v j h = (h, inl refl)
closing_admits_nothing (o ∷ os) v j h =
    ground (arith, step-closing o v j, closing_admits_nothing os (step o v) j)

-- The step is among the ones of the list.
abbrev pub Has : Op → List Op → Type 0
Has o [] = ⊥
Has o (p ∷ os) = (p ≡ o) ⊎ Has o os

finish-own :
    (j t : String) (v : SessionTurnSupervisor)
    → get j v.active ≡ some t
    → get j (finish j t v).1.active ≡ none
unfolding finish
finish-own j t v h = ground (arith, get-remove j j v.active, eq_iff j j, eq_iff t t)

steps-finished :
    (j t : String) (os : List Op) (v : SessionTurnSupervisor)
    → v.closing ≡ true
    → Has (finish_op j t) os
    → get j v.active ≡ some t
    → get j (steps os v).active ≡ none
unfolding steps step
steps-finished j t [] v c m h = absurd m
steps-finished j t (o ∷ os) v c m h =
    let (c', e) = step-closing o v j c in
    let later = closing_admits_nothing os (step o v) j c' in
    elim m [
      | inl q ↦
          (let gone : get j (step o v).active ≡ none = rw q (finish-own j t v h) in
            ground (arith, later.1, gone))
      | inr m' ↦ elim e [
        | inl same ↦ steps-finished j t os (step o v) c' m' (same ∙ h)
        | inr gone ↦ ground (arith, later.1, gone)
      ]
    ]

get-Finished :
    (os : List Op) (d : Dict String) (j t : String)
    → All (λ (p : String × String). Has (finish_op p.0 p.1) os) d
    → get j d ≡ some t
    → Has (finish_op j t) os
unfolding get
get-Finished os [] j t a h = cc
get-Finished os ((k, u) ∷ d) j t a h = ground (arith, eq_iff k j, get-Finished os d j t)

no_keys : (d : Dict String) → ((j : String) → get j d ≡ none) → d ≡ []
unfolding get
no_keys [] h = refl
no_keys ((k, u) ∷ d) h = ground (arith, h k, eq_iff k k)

wait_loop-other :
    (os : List Op) (ms : List Moment) (v : SessionTurnSupervisor)
    → wait_loop (map other os ++ ms) v ≡ wait_loop ms (steps os v)
unfolding wait_loop steps
wait_loop-other [] ms v = refl
wait_loop-other (o ∷ os) ms v = wait_loop-other os ms (step o v)

is_idle-drained :
    (v : SessionTurnSupervisor) (os : List Op)
    → v.closing ≡ true
    → All (λ (p : String × String). Has (finish_op p.0 p.1) os) v.active
    → is_idle (steps os v) ≡ true
is_idle-drained v os c a =
    let gone : (j : String) → get j (steps os v).active ≡ none = λ j.
      elim (Option-cases (get j v.active)) [
        | inl e ↦ ground (arith, closing_admits_nothing os v j c, e)
        | inr (t, e) ↦ steps-finished j t os v c (get-Finished os v.active j t a e) e
      ] in
    ap (λ (d : Dict String). is_idle (record { active = d; closing = true }))
      (no_keys (steps os v).active gone)

woken_idle : (v : SessionTurnSupervisor) → is_idle v ≡ true → (wait_loop (woken ∷ []) v).0 ≡ true
unfolding wait_loop
woken_idle v h = ground arith

-- After admission is closed, whatever the tasks do, starts included, once each turn that the closing returned has had its
-- finish among their steps, the supervisor is idle, so a wait that gets the lock after that reports True.
pub close_admission_drains :
    (v : SessionTurnSupervisor) (os : List Op)
    → All (λ (p : String × String). Has (finish_op p.0 p.1) os) (close_admission v).0
    → let v' = (close_admission v).1 in
      (is_idle (steps os v') ≡ true) × ((wait_idle (map other os ++ woken ∷ []) v').0 ≡ true)
unfolding close_admission wait_idle
close_admission_drains v os a =
    let v' : SessionTurnSupervisor = record v { closing = true } in
    let drained = is_idle-drained v' os refl a in
    (
      drained,
      if_both (λ (p : Bool × SessionTurnSupervisor). p.0 ≡ true) (is_idle v') (λ _. refl)
          (λ _. rw (wait_loop-other os (woken ∷ []) v') (woken_idle (steps os v') drained)),
    )
