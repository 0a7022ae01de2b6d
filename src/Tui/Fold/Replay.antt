-- ===== src/Tui/Fold/Replay.antt =====
-- The derived actions tell the same story as the folded state, and a sequence number counts once.
use py_tui_kairo.Common.{
  ◌+◌, ◌<◌, ◌≡◌, refl, false, Option, none, some, List, String, arith, leb, ltb, if_both, subst,
}
use py_tui_kairo.Contracts.Enums.{EventType}
use py_tui_kairo.Contracts.Events.{
  EventPayload, KernelEvent, turn_event, message_event, tool_event, interaction_event, change_event,
  notice_event,
}
use py_tui_kairo.Tui.State.{AppState}
use py_tui_kairo.Tui.Reducer.{UiAction, sequence_advanced, reduce, reduce_all, usage_known}
use py_tui_kairo.Tui.Fold.{
  Folded, fold_turn, fold_interaction, fold_notice, fold_message, fold_plan, fold_tool, fold_usage,
  fold_payload, fold_event, other_interaction, set_interactions,
}

-- Reducing the actions at a state gives the folded state.
abbrev Told : AppState → AppState × List UiAction → Type 0
Told s (s', as') = reduce_all s as' ≡ s'

abbrev Tells : AppState → Folded → Type 0
Tells s none = Unit
Tells s (some p) = Told s p

fold_turn-Told : (e : KernelEvent) (st : _) (ph : _) (s : AppState) → Told s (fold_turn e st ph s)
unfolding fold_turn reduce_all reduce
fold_turn-Told e st ph s = ground arith

fold_interaction-Told :
    (a : String) (r : _) (i : _) (s : AppState) → Told s (fold_interaction a r i s)
unfolding fold_interaction reduce_all reduce
fold_interaction-Told a none i s = refl
fold_interaction-Told a (some r) i s = refl

fold_message-Told :
    (e : KernelEvent) (m a : String) (c : _) (s : AppState) → Told s (fold_message e m a c s)
unfolding fold_message fold_plan reduce_all reduce
fold_message-Told e m a c s = ground arith

fold_tool-Told : (a : String) (i : _) (c : _) (r : _) (s : AppState) → Told s (fold_tool a i c r s)
unfolding fold_tool reduce_all reduce
fold_tool-Told a none c r s = refl
fold_tool-Told a (some i) c r s = refl

abbrev FreshUsage : Option String → List (String × EventPayload) → Type 0
FreshUsage none u = Unit
FreshUsage (some t) u = usage_known t u ≡ false

fold_usage-Told :
    (t : Option String) (p : EventPayload) (s : AppState)
    → FreshUsage t s.usage
    → Told s (fold_usage t p s)
unfolding fold_usage reduce_all reduce
fold_usage-Told none p s h = refl
fold_usage-Told (some t) p s h = ground arith

fold_notice-Told : (f : _) (m : String) (s : AppState) → Told s (fold_notice f m s)
unfolding fold_notice reduce_all reduce
fold_notice-Told f m s = refl

other_interaction-Tells : (a : String) (s : AppState) → Tells s (other_interaction a s)
unfolding other_interaction set_interactions reduce_all reduce
other_interaction-Tells a s = ground arith

-- A USAGE event is fresh if no usage of its turn is recorded.
abbrev pub Fresh : EventType → Option String → List (String × EventPayload) → Type 0
Fresh EventType.usage t u = FreshUsage t u
Fresh _ t u = Unit

turn-Tells :
    (f : _) (p : EventPayload) (e : KernelEvent) (s : AppState)
    → Tells s (fold_payload f EventType.turn p e s)
unfolding fold_payload reduce_all
turn-Tells f (turn_event st ph r) e s = fold_turn-Told e st ph s
turn-Tells f _ e s = ground arith

interaction-Tells :
    (f : _) (p : EventPayload) (e : KernelEvent) (s : AppState)
    → Tells s (fold_payload f EventType.interaction p e s)
unfolding fold_payload
interaction-Tells f (interaction_event a q r i) e s = fold_interaction-Told a q i s
interaction-Tells f (message_event m a c) e s = other_interaction-Tells a s
interaction-Tells f (tool_event a i c r) e s = other_interaction-Tells a s
interaction-Tells f _ e s = tt

message-Tells :
    (f : _) (p : EventPayload) (e : KernelEvent) (s : AppState)
    → Tells s (fold_payload f EventType.message p e s)
unfolding fold_payload
message-Tells f (message_event m a c) e s = fold_message-Told e m a c s
message-Tells f _ e s = tt

tool-Tells :
    (f : _) (p : EventPayload) (e : KernelEvent) (s : AppState)
    → Tells s (fold_payload f EventType.tool p e s)
unfolding fold_payload
tool-Tells f (tool_event a i c r) e s = fold_tool-Told a i c r s
tool-Tells f _ e s = tt

notice-Tells :
    (f : _) (p : EventPayload) (e : KernelEvent) (s : AppState)
    → Tells s (fold_payload f EventType.notice p e s)
unfolding fold_payload
notice-Tells f (notice_event l m d) e s = fold_notice-Told f m s
notice-Tells f _ e s = tt

workspace-Tells :
    (f : _) (p : EventPayload) (e : KernelEvent) (s : AppState)
    → Tells s (fold_payload f EventType.workspace_changed p e s)
unfolding fold_payload reduce_all
workspace-Tells f (change_event r q m) e s = refl
workspace-Tells f _ e s = tt

fold_payload-Tells :
    (f : _) (t : EventType) (p : EventPayload) (e : KernelEvent) (s : AppState)
    → Fresh t e.turn_id s.usage
    → Tells s (fold_payload f t p e s)
unfolding fold_payload reduce_all
fold_payload-Tells f EventType.turn p e s h = turn-Tells f p e s
fold_payload-Tells f EventType.interaction p e s h = interaction-Tells f p e s
fold_payload-Tells f EventType.message p e s h = message-Tells f p e s
fold_payload-Tells f EventType.tool p e s h = tool-Tells f p e s
fold_payload-Tells f EventType.notice p e s h = notice-Tells f p e s
fold_payload-Tells f EventType.workspace_changed p e s h = workspace-Tells f p e s
fold_payload-Tells f EventType.usage p e s h = fold_usage-Told e.turn_id p s h
fold_payload-Tells f _ p e s h = refl

fold_event-Tells :
    (f : String → String) (s : AppState) (e : KernelEvent)
    → s.last_sequence < e.sequence
    → Fresh e.event_type e.turn_id s.usage
    → Tells (reduce s (sequence_advanced e.sequence)) (fold_event f s e)
unfolding fold_event reduce reduce_all
fold_event-Tells f s e l h =
    if_both (Tells (record s { last_sequence = e.sequence })) (leb e.sequence s.last_sequence)
      (λ q. ground arith)
      (λ q.
        if_both (Tells (record s { last_sequence = e.sequence }))
          (ltb (s.last_sequence + 1) e.sequence) (λ r. refl)
          (λ r.
            fold_payload-Tells f e.event_type e.payload e (record s { last_sequence = e.sequence })
              h))

-- Where an event newer than the state folds, and no usage of its turn is recorded if it is of type USAGE, the actions
-- that it gives, reduced in order after its sequence number, lead to the folded state.
pub fold_replays :
    (f : String → String) (s s' : AppState) (e : KernelEvent) (actions : List UiAction)
    → fold_event f s e ≡ some (s', actions)
    → s.last_sequence < e.sequence
    → Fresh e.event_type e.turn_id s.usage
    → reduce_all (reduce s (sequence_advanced e.sequence)) actions ≡ s'
fold_replays f s s' e actions q l h =
    subst (Tells (reduce s (sequence_advanced e.sequence))) q (fold_event-Tells f s e l h)
