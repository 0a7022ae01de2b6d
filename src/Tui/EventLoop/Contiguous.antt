-- ===== src/Tui/EventLoop/Contiguous.antt =====
-- A gapless run of events is folded whole; one that raises is lost.
use py_tui_kairo.Common.{
  ℕ, suc, ◌+◌, ◌≡◌, refl, ap, ◌∙◌, Bool, true, false, none, some, List, [], ◌∷◌, map, length,
  String, arith, Option-cases, inl, inr, sym, subst, if◌then◌else◌,
}
use py_tui_kairo.Contracts.Events.{KernelEvent}
use py_tui_kairo.Tui.State.{AppState}
use py_tui_kairo.Tui.Reducer.{reduce}
use py_tui_kairo.Tui.Fold.{Folded, fold_event}
use py_tui_kairo.Tui.Fold.Terminal.{fold_all, fold_rest}
use py_tui_kairo.Tui.EventLoop.{
  EventLoop, LoopPhase, received, notice, interrupt, take_fold, skip_gap, receive_event, step_at,
  step, run,
}

-- The sequence numbers are n + 1, n + 2 and so on.
abbrev pub Contiguous : ℕ → List KernelEvent → Type 0
Contiguous n [] = Unit
Contiguous n (e ∷ es) = (e.sequence ≡ n + 1) × Contiguous (n + 1) es

-- The event after the last is folded.
receive_next :
    (f : String → String) (e : KernelEvent) (l : EventLoop)
    → e.sequence ≡ l.sequence + 1
    → receive_event f e l ≡ take_fold e (fold_event f l.state e) l
unfolding receive_event
receive_next f e l h = ground arith

step_folded :
    (f : String → String) (e : KernelEvent) (l : EventLoop) (o : Folded)
    → l.phase ≡ LoopPhase.receiving
    → e.sequence ≡ l.sequence + 1
    → fold_event f l.state e ≡ o
    → step f (received e) l ≡ take_fold e o l
unfolding step step_at
step_folded f e l o p c q =
    ap (λ x. step_at f x (received e) l) p ∙ (receive_next f e l c ∙ ap (λ x. take_fold e x l) q)

receive_gap :
    (f : String → String) (e : KernelEvent) (l : EventLoop)
    → e.sequence ≡ l.sequence + 2
    → receive_event f e l ≡ skip_gap e l
unfolding receive_event
receive_gap f e l h = ground arith

-- A receiving loop that receives a gapless run of events, from its sequence number on and none of which raises, ends in
-- the state that folds them all, at the last one's number, still receiving.
pub run-Contiguous :
    (f : String → String) (es : List KernelEvent) (l : EventLoop) (s' : AppState)
    → l.phase ≡ LoopPhase.receiving
    → Contiguous l.sequence es
    → fold_all f l.state es ≡ some s'
    → ((run f (map received es) l).state ≡ s')
      × (((run f (map received es) l).sequence ≡ l.sequence + length es)
          × ((run f (map received es) l).phase ≡ LoopPhase.receiving))
unfolding run fold_all take_fold
run-Contiguous f [] l s' p c h = (ground arith, (omega arith, p))
run-Contiguous f (e ∷ es) l s' p (c, cs) h = elim (Option-cases (fold_event f l.state e)) [
  | inl q ↦ (let z = ap (fold_rest (λ x. fold_all f x es)) (sym q) ∙ h in ground arith)
  | inr ((s1, as1), q) ↦
      let next : EventLoop = take_fold e (some (s1, as1)) l in
      let rest =
        run-Contiguous f es next s' p (subst (λ n. Contiguous n es) (sym c) cs)
          (ap (fold_rest (λ x. fold_all f x es)) (sym q) ∙ h) in
      subst
        (λ x.
          ((run f (map received es) x).state ≡ s')
          × (((run f (map received es) x).sequence ≡ l.sequence + suc (length es))
              × ((run f (map received es) x).phase ≡ LoopPhase.receiving)))
        (sym (step_folded f e l (some (s1, as1)) p c q))
        (rest.0, (omega (arith, rest.1.0, c), rest.1.1))
]

step_gap :
    (f : String → String) (e : KernelEvent) (l : EventLoop)
    → l.phase ≡ LoopPhase.receiving
    → e.sequence ≡ l.sequence + 2
    → step f (received e) l ≡ skip_gap e l
unfolding step step_at
step_gap f e l p c = ap (λ x. step_at f x (received e) l) p ∙ receive_gap f e l c

take_fold-first :
    (e : KernelEvent) (l : EventLoop)
    → l.retried ≡ false
    → take_fold e none l
      ≡ notice "Event processing failed; retrying once." (record l { retried = true })
unfolding take_fold
take_fold-first e l r =
    ap
      (λ b.
        if b
        then interrupt l
        else notice "Event processing failed; retrying once." (record l { retried = true }))
      r

take_fold-second :
    (e : KernelEvent) (l : EventLoop)
    → l.retried ≡ true
    → take_fold e none l ≡ record l { phase = LoopPhase.raised }
unfolding take_fold interrupt
take_fold-second e l r = ground arith

skip_gap-noticed :
    (e : KernelEvent) (l : EventLoop) (text : String) (b : Bool)
    → (skip_gap e (notice text (record l { retried = b }))).state ≡ record l.state {
      notice = "Event stream gap; recovering state.";
      last_sequence = e.sequence;
    }
unfolding skip_gap notice reduce
skip_gap-noticed e l text b = refl

-- When the next event raises in a loop that has not retried, the event after it is taken for a gap: of both together
-- the state keeps a notice and the second one's sequence number.
pub failure_skips_two :
    (f : String → String) (e e' : KernelEvent) (l : EventLoop)
    → l.phase ≡ LoopPhase.receiving
    → l.retried ≡ false
    → e.sequence ≡ l.sequence + 1
    → fold_event f l.state e ≡ none
    → e'.sequence ≡ l.sequence + 2
    → (run f (received e ∷ received e' ∷ []) l).state ≡ record l.state {
      notice = "Event stream gap; recovering state.";
      last_sequence = e'.sequence;
    }
unfolding run notice
failure_skips_two f e e' l p r c q c' =
    ap (λ x. (step f (received e') x).state) (step_folded f e l none p c q ∙ take_fold-first e l r)
    ∙ (ap (λ x. x.state)
          (step_gap f e'
            (notice "Event processing failed; retrying once." (record l { retried = true })) p c')
        ∙ skip_gap-noticed e' l "Event processing failed; retrying once." true)

-- When the next event raises in a receiving loop that has retried, the loop ends with the exception.
second_failure_raises :
    (f : String → String) (e : KernelEvent) (l : EventLoop)
    → l.phase ≡ LoopPhase.receiving
    → l.retried ≡ true
    → e.sequence ≡ l.sequence + 1
    → fold_event f l.state e ≡ none
    → (step f (received e) l).phase ≡ LoopPhase.raised
second_failure_raises f e l p r c q =
    ap (λ x. x.phase) (step_folded f e l none p c q ∙ take_fold-second e l r)
