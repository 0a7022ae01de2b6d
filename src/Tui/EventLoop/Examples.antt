-- ===== src/Tui/EventLoop/Examples.antt =====
-- A loop that folds one event, and one whose handler raises.
use py_tui_kairo.Common.{ℕ, ◌+◌, ◌≡◌, refl, none, some, List, [], ◌∷◌, map, String}
use py_tui_kairo.Contracts.Enums.{EventType}
use py_tui_kairo.Contracts.Events.{EventPayload, KernelEvent}
use py_tui_kairo.Contracts.Json.{no_member}
use py_tui_kairo.Tui.State.{AppState, new_state}
use py_tui_kairo.Tui.Fold.{fold_event, fold_payload, fold_notice, contains_secret_marker}
use py_tui_kairo.Tui.Fold.Terminal.{fold_all}
use py_tui_kairo.Tui.EventLoop.{
  EventLoop, LoopPhase, Signal, subscribed, received, overflowed, start, run,
}
use py_tui_kairo.Tui.EventLoop.Sync.{InSyncFrom, run-InSync}
use py_tui_kairo.Tui.EventLoop.Contiguous.{run-Contiguous, failure_skips_two}

abbrev same : String → String
same x = x

-- A notice, or an event of type MESSAGE whose payload is a notice's.
abbrev notice_at : ℕ → EventType → KernelEvent
notice_at n event_type = record {
  event_id = "e";
  kernel_id = "k";
  sequence = n;
  timestamp = 0;
  event_type = event_type;
  payload = EventPayload.notice_event "info" "ready" no_member;
  turn_sequence = none;
  turn_id = none;
  session_id = none;
  workspace_revision = 0;
}

abbrev listening : EventLoop
listening = record (start new_state) { phase = LoopPhase.receiving }

abbrev noticed : AppState
noticed = record new_state { last_sequence = 1; notice = "ready" }

signals : List Signal
signals =
    subscribed
    ∷ received (notice_at 1 EventType.notice)
    ∷ overflowed
    ∷ received (notice_at 2 EventType.notice)
    ∷ []

run-InSync_example : InSyncFrom 0 (run same signals (start new_state))
unfolding signals start
run-InSync_example = run-InSync same signals (start new_state) refl (tt, (tt, (tt, (tt, tt))))

folded_notice : fold_all same new_state (notice_at 1 EventType.notice ∷ []) ≡ some noticed
unfolding fold_all fold_event fold_payload fold_notice contains_secret_marker
folded_notice = refl

run-Contiguous_example :
    ((run same (map received (notice_at 1 EventType.notice ∷ [])) listening).state ≡ noticed)
    × (((run same (map received (notice_at 1 EventType.notice ∷ [])) listening).sequence ≡ 0 + 1)
        × ((run same (map received (notice_at 1 EventType.notice ∷ [])) listening).phase
            ≡ LoopPhase.receiving))
unfolding start
run-Contiguous_example =
    run-Contiguous same (notice_at 1 EventType.notice ∷ []) listening noticed refl (refl, tt)
      folded_notice

raises : fold_event same new_state (notice_at 1 EventType.message) ≡ none
unfolding fold_event fold_payload
raises = refl

failure_skips_two_example :
    (run same
      (received (notice_at 1 EventType.message) ∷ received (notice_at 2 EventType.notice) ∷ [])
      listening).state
    ≡ record new_state { notice = "Event stream gap; recovering state."; last_sequence = 2 }
unfolding start
failure_skips_two_example =
    failure_skips_two same (notice_at 1 EventType.message) (notice_at 2 EventType.notice) listening
      refl refl refl raises refl
