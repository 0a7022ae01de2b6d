-- ===== src/Runtime/Turns/Examples.antt =====
-- Two sessions and three turns.
use py_tui_kairo.Common.{
  ◌≡◌, ◌⊎◌, inl, inr, refl, true, false, none, some, List, [], ◌∷◌, ◌++◌, map, String,
}
use py_tui_kairo.Common.Dict.{get, put, remove, UniqueKeys}
use py_tui_kairo.Contracts.Errors.{success}
use py_tui_kairo.Runtime.Turns.{
  SessionTurnSupervisor, TurnLease, new_supervisor, turn_active, start, release, close_admission,
  is_idle, Op, start_op, finish_op, step, steps, other, woken, wait_idle,
}
use py_tui_kairo.Runtime.Turns.Exclusion.{one_turn_one_session}
use py_tui_kairo.Runtime.Turns.Leases.{release_ends_its_own, close_admission_drains}

abbrev two_sessions : List Op
two_sessions =
    start_op "a" "t1"
    ∷ start_op "b" "t1"
    ∷ start_op "b" "t2"
    ∷ finish_op "a" "t1"
    ∷ start_op "a" "t3"
    ∷ []

two_sessions_active : (steps two_sessions new_supervisor).active ≡ ("b", "t2") ∷ ("a", "t3") ∷ []
unfolding steps step turn_active get put remove
two_sessions_active = refl

abbrev session_b : String
session_b = "b"

session_b_turn : get session_b (steps two_sessions new_supervisor).active ≡ some "t2"
unfolding steps step turn_active get put remove
session_b_turn = refl

one_turn_one_session_example :
    (session_b ≡ session_b) × UniqueKeys (steps two_sessions new_supervisor).active
one_turn_one_session_example =
    one_turn_one_session two_sessions session_b session_b "t2" session_b_turn session_b_turn

-- A lease of a turn that has ended, and the supervisor as it is now.
abbrev stale : TurnLease
stale = record { session_id = "a"; turn_id = "t1"; released = false }

abbrev now : SessionTurnSupervisor
now = record { active = ("b", "t2") ∷ ("a", "t3") ∷ []; closing = false }

release_ends_its_own_example :
    ((get "a" (release stale now).2.active ≡ get "a" now.active)
      ⊎ ((stale.session_id ≡ stale.session_id)
          × (stale.released ≡ false)
          × (get "a" now.active ≡ some stale.turn_id)
          × (get "a" (release stale now).2.active ≡ none)))
    × ((release stale now).1.released ≡ true)
    × (release (release stale now).1 (release stale now).2
        ≡ (false, (release stale now).1, (release stale now).2))
release_ends_its_own_example = release_ends_its_own stale now "a"

abbrev fresh : TurnLease
fresh = record { session_id = "c"; turn_id = "t4"; released = false }

started_fresh : (start "c" "t4" now).0 ≡ success fresh
unfolding start get turn_active
started_fresh = refl

-- While the supervisor closes, the turns end, the last one after an attempt to start another.
abbrev closing_steps : List Op
closing_steps = finish_op "a" "t3" ∷ start_op "c" "t5" ∷ start_op "a" "t3" ∷ finish_op "b" "t2" ∷ []

close_admission_drains_example :
    let v = (close_admission now).1 in
    (is_idle (steps closing_steps v) ≡ true)
    × ((wait_idle (map other closing_steps ++ woken ∷ []) v).0 ≡ true)
unfolding close_admission
close_admission_drains_example =
    close_admission_drains now closing_steps (inr (inr (inr (inl refl))), (inl refl, tt))
