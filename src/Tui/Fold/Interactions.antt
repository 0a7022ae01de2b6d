-- ===== src/Tui/Fold/Interactions.antt =====
-- The pending interactions, and the usage entries of a turn.
use py_tui_kairo.Common.{
  ◌+◌, ◌≡◌, refl, ap, ◌∙◌, true, not, Option, none, some, List, [], ◌∷◌, ◌++◌, String, str_eq,
  eq_refl, arith, keep, keep-added, All, length, length-append, if◌then◌else◌,
}
use py_tui_kairo.Contracts.Interactions.{InteractionRequest}
use py_tui_kairo.Contracts.Events.{EventPayload}
use py_tui_kairo.Tui.State.{AppState}
use py_tui_kairo.Tui.Reducer.{interactions_updated, reduce_all, reduce, usage_known}
use py_tui_kairo.Tui.Fold.{fold_interaction, fold_usage, closes, is_id}

-- A request that has no pending namesake, and then a "resolved" or "expired" event with its id, leave the state.
pub requested_then_closed :
    (s : AppState) (r : InteractionRequest) (i : Option String) (action : String)
    → closes action ≡ true
    → All
        (λ (x : InteractionRequest). not (str_eq x.interaction_id r.interaction_id) ≡ true)
        s.pending_interactions
    → (fold_interaction action none
        (some r.interaction_id)
        (fold_interaction "requested" (some r) i s).0).0
      ≡ s
unfolding fold_interaction
requested_then_closed s r i action c h =
    ap (λ rs. record s { pending_interactions = rs })
      (ap
          (λ b.
            if b
            then keep
                (λ (x : InteractionRequest). not (is_id x.interaction_id (some r.interaction_id)))
                (s.pending_interactions ++ r ∷ [])
            else s.pending_interactions ++ r ∷ [])
          c
        ∙ keep-added (λ (x : InteractionRequest). not (str_eq x.interaction_id r.interaction_id)) r
            s.pending_interactions h (ap not (eq_refl r.interaction_id)))

keep_everything {ℓ} : {A : Type ℓ} (xs : List A) → keep (λ x. true) xs ≡ xs
keep_everything [] = refl
keep_everything (x ∷ xs) = ap (◌∷◌ x) (keep_everything xs)

-- A "resolved" event without an interaction id removes no pending interaction.
pub resolved_without_id :
    (s : AppState) (q : Option InteractionRequest)
    → fold_interaction "resolved" q none s ≡ (s, interactions_updated s.pending_interactions ∷ [])
unfolding fold_interaction
resolved_without_id s none =
    ap (λ rs. (record s { pending_interactions = rs }, interactions_updated rs ∷ []))
      (keep_everything s.pending_interactions)
resolved_without_id s (some q) =
    ap (λ rs. (record s { pending_interactions = rs }, interactions_updated rs ∷ []))
      (keep_everything s.pending_interactions)

usage_known_last : (t : String) (p : EventPayload) (u : _) → usage_known t (u ++ (t, p) ∷ []) ≡ true
usage_known_last t p [] = ground (arith, eq_refl t)
usage_known_last t p (x ∷ u) = ground (arith, usage_known_last t p u)

-- Two usage payloads of a turn are two entries in the folded state, but the action of the second, reduced at the
-- state after the first, adds nothing.
pub usage_twice :
    (s : AppState) (t : String) (p p' : EventPayload)
    → (length (fold_usage (some t) p' (fold_usage (some t) p s).0).0.usage ≡ length s.usage + 2)
      × (reduce_all
            (fold_usage (some t) p s).0
            (fold_usage (some t) p' (fold_usage (some t) p s).0).1
          ≡ (fold_usage (some t) p s).0)
unfolding fold_usage reduce_all reduce
usage_twice s t p p' = (
  ground (
    arith,
    length-append (s.usage ++ (t, p) ∷ []) ((t, p') ∷ []),
    length-append s.usage ((t, p) ∷ []),
  ),
  ground (arith, usage_known_last t p s.usage),
)
