-- ===== src/Tui/Fold/Terminal.antt =====
-- A turn that has ended stays as it was.
use py_tui_kairo.Common.{
  ◌+◌, ◌||◌, Option-cases, inl, inr, ◌≡◌, ◌≢◌, refl, ap, ◌∙◌, sym, true, false, not, Option, none,
  some, List, [], ◌∷◌, String, str_eq, str_eq-false, eq_iff, arith, leb, ltb, find, find-replaced,
  if_both, subst,
}
use py_tui_kairo.Contracts.Enums.{EventType, TurnStatus}
use py_tui_kairo.Contracts.Events.{
  EventPayload, KernelEvent, turn_event, message_event, tool_event, interaction_event, change_event,
  notice_event,
}
use py_tui_kairo.Tui.State.{AppState, TurnView}
use py_tui_kairo.Tui.Reducer.{
  replace_turn, replace_tool, replace_plan, merge_transcript, replace_transcript,
}
use py_tui_kairo.Tui.Fold.{
  Folded, turn_of, ended, id_or_empty, fold_turn, fold_interaction, fold_notice, fold_message,
  fold_plan, fold_tool, fold_usage, fold_payload, fold_event, other_interaction, set_interactions,
  closes,
}

-- The view of the turn `t` is `v`, if there is a folded state.
abbrev Shows : String → TurnView → Folded → Type 0
Shows t v none = Unit
Shows t v (some (s, as')) = turn_of (some t) s ≡ some v

-- The view of another turn replaces none of this one's.
replace_turn-other :
    (t : String) (u : TurnView) (s : AppState)
    → str_eq u.turn_id t ≡ false
    → turn_of (some t) (replace_turn s u) ≡ turn_of (some t) s
unfolding replace_turn
replace_turn-other t u s n =
    find-replaced (λ (x : TurnView). str_eq x.turn_id t)
      (λ (x : TurnView). not (str_eq x.turn_id u.turn_id)) u s.turns
      (λ x h. ground (arith, eq_iff x.turn_id t, eq_iff x.turn_id u.turn_id, eq_iff u.turn_id t)) n

-- An event for a turn that has not ended is not for the turn `t`.
other_turn :
    (o : Option String) (t : String) (v : TurnView) (s : AppState)
    → t ≢ ""
    → turn_of (some t) s ≡ some v
    → v.terminal ≡ true
    → ended (turn_of o s) ≡ false
    → str_eq (id_or_empty o) t ≡ false
other_turn none t v s n q h e = str_eq-false "" t (λ p. n (sym p))
other_turn (some u) t v s n q h e = str_eq-false u t (λ p.
    let r : true ≡ false = sym (ap (λ x. ended (turn_of (some x) s)) p ∙ ap ended q ∙ h) ∙ e in
    ground arith)

turn-Shows :
    (e : KernelEvent) (st : TurnStatus) (ph : _) (t : String) (v : TurnView) (s : AppState)
    → t ≢ ""
    → turn_of (some t) s ≡ some v
    → v.terminal ≡ true
    → Shows t v (some (fold_turn e st ph s))
unfolding fold_turn
turn-Shows e st ph t v s n q h =
    if_both (λ p. Shows t v (some p)) (ended (turn_of e.turn_id s)) (λ r. q)
      (λ r. replace_turn-other t _ s (other_turn e.turn_id t v s n q h r) ∙ q)

-- What leaves the turns as they are shows what the state showed.
message-turns :
    (e : KernelEvent) (m a : String) (c : _) (s : AppState)
    → (fold_message e m a c s).0.turns ≡ s.turns
unfolding fold_message fold_plan replace_plan merge_transcript replace_transcript
message-turns e m a c s = ground arith

usage-turns :
    (o : Option String) (p : EventPayload) (s : AppState) → (fold_usage o p s).0.turns ≡ s.turns
unfolding fold_usage
usage-turns none p s = refl
usage-turns (some t) p s = refl

other-Shows :
    (a : String) (t : String) (v : TurnView) (s : AppState)
    → turn_of (some t) s ≡ some v
    → Shows t v (other_interaction a s)
unfolding other_interaction set_interactions
other-Shows a t v s q = if_both (Shows t v) (str_eq a "requested" || closes a) (λ r. tt) (λ r. q)

payload-Shows :
    (f : _) (k : EventType) (p : EventPayload) (e : KernelEvent) (t : String) (v : TurnView)
    (s : AppState)
    → t ≢ ""
    → turn_of (some t) s ≡ some v
    → v.terminal ≡ true
    → Shows t v (fold_payload f k p e s)
unfolding fold_payload fold_notice fold_interaction fold_tool replace_tool
payload-Shows f EventType.turn (turn_event st ph r) e t v s n q h = turn-Shows e st ph t v s n q h
payload-Shows f EventType.turn _ e t v s n q h =
    if_both (Shows t v) (ended (turn_of e.turn_id s)) (λ r. q) (λ r. tt)
payload-Shows f EventType.interaction (interaction_event a none r i) e t v s n q h = q
payload-Shows f EventType.interaction (interaction_event a (some x) r i) e t v s n q h = q
payload-Shows f EventType.interaction (message_event m a c) e t v s n q h = other-Shows a t v s q
payload-Shows f EventType.interaction (tool_event a i c r) e t v s n q h = other-Shows a t v s q
payload-Shows f EventType.interaction _ e t v s n q h = tt
payload-Shows f EventType.message (message_event m a c) e t v s n q h =
    ap (find (λ (x : TurnView). str_eq x.turn_id t)) (message-turns e m a c s) ∙ q
payload-Shows f EventType.message _ e t v s n q h = tt
payload-Shows f EventType.tool (tool_event a none c r) e t v s n q h = q
payload-Shows f EventType.tool (tool_event a (some i) c r) e t v s n q h = q
payload-Shows f EventType.tool _ e t v s n q h = tt
payload-Shows f EventType.notice (notice_event l m d) e t v s n q h = q
payload-Shows f EventType.notice _ e t v s n q h = tt
payload-Shows f EventType.workspace_changed (change_event r x m) e t v s n q h = q
payload-Shows f EventType.workspace_changed _ e t v s n q h = tt
payload-Shows f EventType.usage p e t v s n q h =
    ap (find (λ (x : TurnView). str_eq x.turn_id t)) (usage-turns e.turn_id p s) ∙ q
payload-Shows f _ p e t v s n q h = q

event-Shows :
    (f : String → String) (s : AppState) (e : KernelEvent) (t : String) (v : TurnView)
    → t ≢ ""
    → turn_of (some t) s ≡ some v
    → v.terminal ≡ true
    → Shows t v (fold_event f s e)
unfolding fold_event
event-Shows f s e t v n q h =
    if_both (Shows t v) (leb e.sequence s.last_sequence) (λ r. q)
      (λ r.
        if_both (Shows t v) (ltb (s.last_sequence + 1) e.sequence) (λ r'. q)
          (λ r'.
            payload-Shows f e.event_type e.payload e t v (record s { last_sequence = e.sequence }) n
              q h))

abbrev pub fold_rest : (AppState → Option AppState) → Folded → Option AppState
fold_rest k none = none
fold_rest k (some (s, as')) = k s

-- The state after a list of events, each folded on its own; `none` when one of them raised.
unfoldable pub fold_all : (String → String) → AppState → List KernelEvent → Option AppState
fold_all f s [] = some s
fold_all f s (e ∷ es) = fold_rest (λ s'. fold_all f s' es) (fold_event f s e)

-- However many events are folded, as long as none raises, the view of a turn that has ended and whose id is not empty
-- stays the same.
pub ended_stays :
    (f : String → String) (s s' : AppState) (es : List KernelEvent) (t : String) (v : TurnView)
    → t ≢ ""
    → turn_of (some t) s ≡ some v
    → v.terminal ≡ true
    → fold_all f s es ≡ some s'
    → turn_of (some t) s' ≡ some v
unfolding fold_all
ended_stays f s s' [] t v n q h r = ground arith
ended_stays f s s' (e ∷ es) t v n q h r = elim (Option-cases (fold_event f s e)) [
  | inl p ↦ (let z = ap (fold_rest (λ x. fold_all f x es)) (sym p) ∙ r in ground arith)
  | inr ((s1, as1), p) ↦
      ended_stays f s1 s' es t v n (subst (Shows t v) p (event-Shows f s e t v n q h)) h
        (ap (fold_rest (λ x. fold_all f x es)) (sym p) ∙ r)
]
