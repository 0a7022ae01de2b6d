-- ===== src/Runtime/Lifecycle/Examples.antt =====
-- Three lives of a lifecycle.
use py_tui_kairo.Common.{◌≡◌, ◌≢◌, refl, some, List, [], ◌∷◌}
use py_tui_kairo.Contracts.Enums.{stopping, stopped, running, conflict}
use py_tui_kairo.Runtime.Lifecycle.{
  AsyncLifecycle, returned, interrupted, timed_out, new_lifecycle, shutdown, Call, start_call,
  shutdown_call, calls,
}
use py_tui_kairo.Runtime.Lifecycle.Transitions.{
  exit_code, IsResting, shutdown_never_conflicts, interrupted_shutdown_wedges,
}

abbrev up : AsyncLifecycle
up = record { state = running; reason = "" }

abbrev life : List Call
life = start_call returned ∷ shutdown_call (timed_out "") ∷ shutdown_call returned ∷ []

life_stops : (calls life new_lifecycle).state ≡ stopped
unfolding calls new_lifecycle
life_stops = refl

shutdown_never_conflicts_example :
    IsResting (calls life new_lifecycle)
    × (exit_code (shutdown returned (calls life new_lifecycle)).1 ≢ some conflict)
shutdown_never_conflicts_example =
    shutdown_never_conflicts life returned ((λ e. cc), ((λ e. cc), ((λ e. cc), tt)))

interrupted_shutdown_wedges_example :
    ((calls (start_call returned ∷ []) (shutdown interrupted up).0).state ≡ stopping)
    × (exit_code
          (shutdown returned (calls (start_call returned ∷ []) (shutdown interrupted up).0)).1
        ≡ some conflict)
interrupted_shutdown_wedges_example =
    interrupted_shutdown_wedges (start_call returned ∷ []) returned up ((λ e. cc), (λ e. cc))
      (λ e. cc) (tt, tt)
