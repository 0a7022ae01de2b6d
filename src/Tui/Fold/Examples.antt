-- ===== src/Tui/Fold/Examples.antt =====
-- A turn that runs, asks and ends.
use py_tui_kairo.Common.{
  ℕ, Bool, ◌+◌, ◌≡◌, ◌≢◌, refl, ap, true, false, none, some, List, [], ◌∷◌, ◌++◌, String, str_eq,
  length, arith,
}
use py_tui_kairo.Contracts.Enums.{EventType, TurnStatus, InteractionKind, InteractionAction}
use py_tui_kairo.Contracts.Content.{ContentBlock}
use py_tui_kairo.Contracts.Events.{EventPayload, KernelEvent}
use py_tui_kairo.Contracts.Interactions.{InteractionRequest}
use py_tui_kairo.Contracts.Json.{no_member}
use py_tui_kairo.Tui.State.{AppState, TurnView, new_state}
use py_tui_kairo.Tui.Reducer.{
  replace_turn, reduce, reduce_all, merge_transcript, sequence_advanced, turn_updated,
  interactions_updated,
}
use py_tui_kairo.Tui.Fold.{
  fold_payload, fold_turn, fold_event, fold_interaction, fold_usage, turn_of,
}
use py_tui_kairo.Tui.Fold.Replay.{fold_replays}
use py_tui_kairo.Tui.Fold.Terminal.{fold_all, ended_stays}
use py_tui_kairo.Tui.Fold.Messages.{merge_transcript_twice}
use py_tui_kairo.Tui.Fold.Interactions.{requested_then_closed, resolved_without_id, usage_twice}

abbrev same : String → String
same x = x

abbrev turn_at : ℕ → TurnStatus → KernelEvent
turn_at n status = record {
  event_id = "e";
  kernel_id = "k";
  sequence = n;
  timestamp = 0;
  event_type = EventType.turn;
  payload = EventPayload.turn_event status none "";
  turn_sequence = none;
  turn_id = some "t";
  session_id = some "s";
  workspace_revision = 0;
}

abbrev view : TurnStatus → Bool → TurnView
view status b = record {
  turn_id = "t";
  session_id = "s";
  status = status;
  phase = none;
  terminal = b;
}

abbrev after_one : TurnStatus → Bool → AppState
after_one status b = record new_state { last_sequence = 1; turns = view status b ∷ [] }

folded_once :
    fold_event same new_state (turn_at 1 TurnStatus.running)
    ≡ some (after_one TurnStatus.running false, turn_updated (view TurnStatus.running false) ∷ [])
unfolding fold_event fold_payload fold_turn replace_turn
folded_once = refl

fold_replays_example :
    reduce_all
      (reduce new_state (sequence_advanced 1))
      (turn_updated (view TurnStatus.running false) ∷ [])
    ≡ after_one TurnStatus.running false
fold_replays_example =
    fold_replays same new_state (after_one TurnStatus.running false) (turn_at 1 TurnStatus.running)
      (turn_updated (view TurnStatus.running false) ∷ []) folded_once (omega arith) tt

abbrev ended_state : AppState
ended_state = after_one TurnStatus.cancelled true

t_named : ◌≢◌ {A = String} "t" ""
t_named p = let q : true ≡ false = ap (str_eq "t") p in ground arith

s_other : ◌≢◌ {A = String} "s" "other"
s_other p = let q : true ≡ false = ap (str_eq "s") p in ground arith

folded_late :
    fold_all same ended_state (turn_at 2 TurnStatus.running ∷ [])
    ≡ some (record ended_state { last_sequence = 2 })
unfolding fold_all fold_event fold_payload fold_turn
folded_late = refl

ended_stays_example :
    turn_of (some "t") (record ended_state { last_sequence = 2 })
    ≡ some (view TurnStatus.cancelled true)
ended_stays_example =
    ended_stays same ended_state (record ended_state { last_sequence = 2 })
      (turn_at 2 TurnStatus.running ∷ []) "t" (view TurnStatus.cancelled true) t_named refl refl
      folded_late

abbrev hello : List ContentBlock
hello = ContentBlock.text_block "hello" ∷ []

merge_transcript_twice_example :
    merge_transcript
      (merge_transcript new_state "s" "m" "assistant" hello)
      "s"
      "m"
      "assistant"
      hello
    ≡ merge_transcript new_state "s" "m" "assistant" (hello ++ hello)
merge_transcript_twice_example =
    merge_transcript_twice new_state "s" "m" "assistant" "assistant" hello hello

abbrev ask : InteractionRequest
ask = record {
  interaction_id = "i";
  turn_id = "t";
  session_id = "s";
  kind = InteractionKind.tool_approval;
  prompt = "run?";
  choices = [];
  expires_at = none;
  safe_default = InteractionAction.reject;
}

requested_then_closed_example :
    (fold_interaction "expired" none
      (some "i")
      (fold_interaction "requested" (some ask) (some "i") new_state).0).0
    ≡ new_state
requested_then_closed_example = requested_then_closed new_state ask (some "i") "expired" refl tt

resolved_without_id_example :
    fold_interaction "resolved" none none (record new_state { pending_interactions = ask ∷ [] })
    ≡ (record new_state { pending_interactions = ask ∷ [] }, interactions_updated (ask ∷ []) ∷ [])
resolved_without_id_example =
    resolved_without_id (record new_state { pending_interactions = ask ∷ [] }) none

abbrev counted : EventPayload
counted = EventPayload.notice_event "info" "usage" no_member

usage_twice_example :
    (length (fold_usage (some "t") counted (fold_usage (some "t") counted new_state).0).0.usage
      ≡ 0 + 2)
    × (reduce_all
          (fold_usage (some "t") counted new_state).0
          (fold_usage (some "t") counted (fold_usage (some "t") counted new_state).0).1
        ≡ (fold_usage (some "t") counted new_state).0)
usage_twice_example = usage_twice new_state "t" counted counted
