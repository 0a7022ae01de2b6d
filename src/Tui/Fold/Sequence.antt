-- ===== src/Tui/Fold/Sequence.antt =====
-- The sequence number that a fold leaves.
use py_tui_kairo.Common.{
  ℕ, ◌+◌, ◌≤◌, max, ◌≡◌, refl, none, some, List, [], String, arith, leb, ltb, if_both, subst,
}
use py_tui_kairo.Contracts.Enums.{EventType}
use py_tui_kairo.Contracts.Events.{
  EventPayload, KernelEvent, turn_event, message_event, tool_event, interaction_event, change_event,
  notice_event,
}
use py_tui_kairo.Tui.State.{AppState}
use py_tui_kairo.Tui.Reducer.{
  UiAction, replace_turn, replace_tool, replace_plan, merge_transcript, replace_transcript,
}
use py_tui_kairo.Tui.Fold.{
  Folded, fold_turn, fold_interaction, fold_notice, fold_message, fold_plan, fold_tool, fold_usage,
  fold_payload, fold_event, other_interaction, set_interactions,
}

-- The folded state, if there is one, is at sequence number `n`.
abbrev AtSequence : ℕ → Folded → Type 0
AtSequence n none = Unit
AtSequence n (some (s, as')) = s.last_sequence ≡ n

message-AtSequence :
    (e : KernelEvent) (m a : String) (c : _) (s : AppState)
    → AtSequence s.last_sequence (some (fold_message e m a c s))
unfolding fold_message fold_plan replace_plan merge_transcript replace_transcript
message-AtSequence e m a c s = ground arith

turn-AtSequence :
    (e : KernelEvent) (st : _) (ph : _) (s : AppState)
    → AtSequence s.last_sequence (some (fold_turn e st ph s))
unfolding fold_turn replace_turn
turn-AtSequence e st ph s = ground arith

interaction-AtSequence :
    (a : String) (r : _) (i : _) (s : AppState)
    → AtSequence s.last_sequence (some (fold_interaction a r i s))
unfolding fold_interaction
interaction-AtSequence a none i s = refl
interaction-AtSequence a (some r) i s = refl

other-AtSequence : (a : String) (s : AppState) → AtSequence s.last_sequence (other_interaction a s)
unfolding other_interaction set_interactions
other-AtSequence a s = ground arith

tool-AtSequence :
    (a : String) (i : _) (c : _) (r : _) (s : AppState)
    → AtSequence s.last_sequence (some (fold_tool a i c r s))
unfolding fold_tool replace_tool
tool-AtSequence a none c r s = refl
tool-AtSequence a (some i) c r s = refl

payload-AtSequence :
    (f : _) (t : EventType) (p : EventPayload) (e : KernelEvent) (s : AppState)
    → AtSequence s.last_sequence (fold_payload f t p e s)
unfolding fold_payload fold_notice fold_usage
payload-AtSequence f EventType.turn (turn_event st ph r) e s = turn-AtSequence e st ph s
payload-AtSequence f EventType.turn _ e s = ground arith
payload-AtSequence f EventType.interaction (interaction_event a q r i) e s =
    interaction-AtSequence a q i s
payload-AtSequence f EventType.interaction (message_event m a c) e s = other-AtSequence a s
payload-AtSequence f EventType.interaction (tool_event a i c r) e s = other-AtSequence a s
payload-AtSequence f EventType.interaction _ e s = tt
payload-AtSequence f EventType.message (message_event m a c) e s = message-AtSequence e m a c s
payload-AtSequence f EventType.message _ e s = tt
payload-AtSequence f EventType.tool (tool_event a i c r) e s = tool-AtSequence a i c r s
payload-AtSequence f EventType.tool _ e s = tt
payload-AtSequence f EventType.notice (notice_event l m d) e s = refl
payload-AtSequence f EventType.notice _ e s = tt
payload-AtSequence f EventType.workspace_changed (change_event r q m) e s = refl
payload-AtSequence f EventType.workspace_changed _ e s = tt
payload-AtSequence f EventType.usage p e s = ground arith
payload-AtSequence f _ p e s = refl

fold_event-AtSequence :
    (f : String → String) (s : AppState) (e : KernelEvent)
    → AtSequence (max s.last_sequence e.sequence) (fold_event f s e)
unfolding fold_event
fold_event-AtSequence f s e =
    let P = AtSequence (max s.last_sequence e.sequence) in
    if_both P (leb e.sequence s.last_sequence) (λ q. ground arith)
      (λ q.
        if_both P (ltb (s.last_sequence + 1) e.sequence) (λ r. ground arith)
          (λ r.
            subst
              (λ n.
                AtSequence n (
                  fold_payload f e.event_type e.payload e
                    (record s { last_sequence = e.sequence })))
              (ground arith)
              (payload-AtSequence f e.event_type e.payload e
                (record s { last_sequence = e.sequence }))))

pub fold_event-sequence :
    (f : String → String) (s s' : AppState) (e : KernelEvent) (actions : List UiAction)
    → fold_event f s e ≡ some (s', actions)
    → s'.last_sequence ≡ max s.last_sequence e.sequence
fold_event-sequence f s s' e actions q =
    subst (AtSequence (max s.last_sequence e.sequence)) q (fold_event-AtSequence f s e)

-- After an event has folded, folding it again, or an event that is not newer, changes nothing and gives no action.
fold_twice :
    (f : String → String) (s s' : AppState) (e e' : KernelEvent) (actions : List UiAction)
    → fold_event f s e ≡ some (s', actions)
    → e'.sequence ≤ e.sequence
    → fold_event f s' e' ≡ some (s', [])
unfolding fold_event
fold_twice f s s' e e' actions q l = ground (arith, fold_event-sequence f s s' e actions q)
