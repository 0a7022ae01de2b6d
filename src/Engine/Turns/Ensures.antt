-- ===== src/Engine/Turns/Ensures.antt =====
-- What a part of a run ends with: `Q` of its value, or `R` where it raises; and facts of the log that stay.
use py_tui_kairo.Common.{
  ◌≡◌, inl, inr, refl, sym, ◌∙◌, ap, Bool, true, false, Option, none, some, List, [], ◌∷◌, ◌++◌,
  String, if_both, if◌then◌else◌,
}
use py_tui_kairo.Contracts.Enums.{EventType}
use py_tui_kairo.Contracts.Events.{EventPayload}
use py_tui_kairo.Runtime.Events.{Emission}
use py_tui_kairo.Engine.Turns.Machine.{
  M, Machine, Ports, Ended, returned, raised, Raised, pure, raise, ◌>>=◌, continue, emit, emit_at,
  emission, numbered, wait, call, answer,
}
use py_tui_kairo.Engine.Turns.Keeps.{Keeps}
use py_tui_kairo.Engine.Turns.Stable.{Core, core, Stable, At, Says, Quiet, wait-At}

abbrev pub After :
    {A : Type 0} → (A → Machine → Type 0) → (Machine → Type 0) → Ended A × Machine → Type 0
After Q R (returned a, s) = Q a s
After Q R (raised e, s) = R s

pub record Ensures {A : Type 0} (P : Machine → Type 0) (m : M A) (Q : A → Machine → Type 0)
    (R : Machine → Type 0) : Type 0 where
  pub at : (s : Machine) → P s → After Q R (m s)

module _ {A : Type 0} (R : Machine → Type 0) where
  After-same : (x : Ended A × Machine) → R x.1 → After (λ (a : A). R) R x
  After-same (returned a, s) h = h
  After-same (raised e, s) h = h

  After-forget : (x : Ended A × Machine) → After (λ (a : A). R) R x → R x.1
  After-forget (returned a, s) h = h
  After-forget (raised e, s) h = h

module _ {A : Type 0} (Q Q' : A → Machine → Type 0) (R R' : Machine → Type 0) where
  After-map :
      (x : Ended A × Machine)
      → ((a : A) (s : Machine) → Q a s → Q' a s)
      → ((s : Machine) → R s → R' s)
      → After Q R x
      → After Q' R' x
  After-map (returned a, s) f g h = f a s h
  After-map (raised e, s) f g h = g s h

module _ {A : Type 0} {P R : Machine → Type 0} {Q : A → Machine → Type 0} where
  pub Ensures-map :
      {Q' : A → Machine → Type 0} {R' : Machine → Type 0} (m : M A)
      → Ensures P m Q R
      → ((a : A) (s : Machine) → Q a s → Q' a s)
      → ((s : Machine) → R s → R' s)
      → Ensures P m Q' R'
  Ensures-map {Q' = Q'} {R' = R'} m e f g = record {
    at = λ s h. After-map Q Q' R R' (m s) f g (e.at s h);
  }

module _ {A : Type 0} {P : Machine → Type 0} where
  pub Keeps-Ensures : (m : M A) → Keeps P m → Ensures P m (λ (a : A). P) P
  Keeps-Ensures m k = record { at = λ s h. After-same P (m s) (k.at s h) }

  pub Ensures-Keeps : (m : M A) → Ensures P m (λ (a : A). P) P → Keeps P m
  Ensures-Keeps m e = record { at = λ s h. After-forget P (m s) (e.at s h) }

module _ {A B : Type 0} (Q : A → Machine → Type 0) (Q' : B → Machine → Type 0)
    (R : Machine → Type 0) where
  After-continue :
      (x : Ended A × Machine) (f : A → M B)
      → ((a : A) → Ensures (Q a) (f a) Q' R)
      → After Q R x
      → After Q' R (continue x.0 f x.1)
  After-continue (returned a, s) f k h = (k a).at s h
  After-continue (raised e, s) f k h = h

module _ {A B : Type 0} {P R : Machine → Type 0} {Q : A → Machine → Type 0}
    {Q' : B → Machine → Type 0} where
  pub Ensures-bind :
      (m : M A) (f : A → M B)
      → Ensures P m Q R
      → ((a : A) → Ensures (Q a) (f a) Q' R)
      → Ensures P (m >>= f) Q' R
  unfolding ◌>>=◌
  Ensures-bind m f e k = record { at = λ s h. After-continue Q Q' R (m s) f k (e.at s h) }

-- A fact of the ports and the log that further events leave true.
pub record Grows (L : Ports → List Emission → Type 0) : Type 0 where
  pub appended : (p : Ports) (xs : List Emission) (x : Emission) → L p xs → L p (xs ++ x ∷ [])

abbrev pub With : (Ports → Core → Type 0) → (Ports → List Emission → Type 0) → Ports → Core → Type 0
With P L p c = P p c × L p c.log

module _ {P : Ports → Core → Type 0} ⦃st : Stable P⦄ where
  pub With-Stable : {L : Ports → List Emission → Type 0} → Grows L → Stable (With P L)
  With-Stable g = record {
    live = λ p c h. st.live p c h.0;
    status_set = λ p c status q h. (st.status_set p c status q h.0, h.1);
    counted = λ p c h. (st.counted p c h.0, h.1);
    emitted = λ p c x n q h. (st.emitted p c x n q h.0, g.appended p c.log x h.1);
    executed = λ p c i context mode m a h. (st.executed p c i context mode m a h.0, h.1);
  }

pub With-At :
    {P : Ports → Core → Type 0} (L : Ports → List Emission → Type 0) (s : Machine)
    → At (With P L) s
    → At P s
With-At L s h = record { holds = h.holds.0 }

pub Says-Grows : (p : EventPayload) → Grows (λ ports log. Says p log)
Says-Grows p = record { appended = λ ports. grows }
  where
    grows : (xs : List Emission) (x : Emission) → Says p xs → Says p (xs ++ x ∷ [])
    grows [] x h = elim h [ ]
    grows (y ∷ ys) x (inl q) = inl q
    grows (y ∷ ys) x (inr h) = inr (grows ys x h)

Says-last : (xs : List Emission) (x : Emission) → Says x.payload (xs ++ x ∷ [])
Says-last [] x = inl refl
Says-last (y ∷ ys) x = inr (Says-last ys x)

module _ {P : Ports → Core → Type 0} ⦃st : Stable P⦄ where
  -- An emission that returns has its event in the log.
  pub emit-Says :
      (t : EventType) (p : EventPayload)
      → Quiet p
      → Ensures (At P) (emit t p) (λ u. At (With P (λ ports log. Says p log))) (At P)
  unfolding emit emit_at
  emit-Says t p q = record {
    at = λ s h.
        if_both (After (λ u. At (With P (λ ports log. Says p log))) (At P))
          (s.ports.bus_closed s.calls)
          (λ _. record { holds = st.counted s.ports (core s.run) h.holds })
          (λ _. record {
            holds = (
              st.emitted s.ports (core s.run) (emission t p s.calls s.ports (numbered s.run)) refl q
                  h.holds,
              Says-last s.run.log (emission t p s.calls s.ports (numbered s.run)),
            );
          });
  }

  answer-After :
      {A : Type 0} (f : A) (o : Option String) (r : Ended (Unit {0})) (s : Machine)
      → At P s
      → After (λ a s'. At P s' × (a ≡ f)) (At P) (answer f o r, s)
  answer-After f none (returned u) s h = (h, refl)
  answer-After f (some m) (returned u) s h = h
  answer-After f none (raised e) s h = h
  answer-After f (some m) (raised e) s h = h

-- A call's answer, read off the ports as they are after it.
module _ {P : Ports → Core → Type 0} ⦃st : Stable P⦄ where
  pub call-Answers :
      {A : Type 0} (f : Ports → A)
      → Ensures
          (At P)
          (call (λ ports n. f ports))
          (λ a. At (With P (λ ports log. a ≡ f ports)))
          (At P)
  unfolding call
  call-Answers {A} f = record {
    at = λ s h.
        let Same = λ (ports : Ports) (log : List Emission). ports ≡ s.ports in
        let st' = With-Stable {P = P} {L = Same} (record { appended = λ p xs x q. q }) in
        let w = wait-At {P = With P Same} ⦃st = st'⦄ in
        After-map (λ a s'. At (With P Same) s' × (a ≡ f s.ports))
          (λ a. At (With P (λ ports log. a ≡ f ports))) (At (With P Same)) (At P)
          (call (λ ports n. f ports) s)
          (λ a s' k. record { holds = (k.0.holds.0, k.1 ∙ sym (ap f (k.0.holds.1))) })
          (λ s' k. With-At Same s' k)
          (answer-After {P = With P Same} ⦃st = st'⦄ (f s.ports) (s.ports.raises s.calls) (wait s).0
            (wait s).1 (w.at s (record { holds = (h.holds, refl) })));
  }

module _ {A : Type 0} {P R : Machine → Type 0} {Q : A → Machine → Type 0} {X : Type 0} where
  pub Ensures-fact : (m : M A) → (X → Ensures P m Q R) → Ensures (λ s. P s × X) m Q R
  Ensures-fact m k = record { at = λ s h. (k h.1).at s h.0 }

module _ {A : Type 0} {R : Machine → Type 0} {Q : A → Machine → Type 0} {X : Type 0} where
  pub Ensures-given : (m : M A) → (X → Ensures (λ s. Unit) m Q R) → Ensures (λ s. X) m Q R
  Ensures-given m k = record { at = λ s h. (k h).at s tt }

module _ {A : Type 0} {P : Machine → Type 0} {Q : A → Machine → Type 0} {R : Machine → Type 0} where
  pub Ensures-pure : (a : A) → ((s : Machine) → P s → Q a s) → Ensures P (pure a) Q R
  unfolding pure
  Ensures-pure a k = record { at = λ s h. k s h }

  pub Ensures-raise : (e : Raised) → ((s : Machine) → P s → R s) → Ensures P (raise {A = A} e) Q R
  unfolding raise
  Ensures-raise e k = record { at = λ s h. k s h }

  pub Ensures-if :
      (b : Bool) (m n : M A)
      → (b ≡ true → Ensures P m Q R)
      → (b ≡ false → Ensures P n Q R)
      → Ensures P (if b then m else n) Q R
  Ensures-if true m n f g = f refl
  Ensures-if false m n f g = g refl

module _ {A : Type 0} {P P' R : Machine → Type 0} {Q : A → Machine → Type 0} where
  pub Ensures-from : (m : M A) → ((s : Machine) → P s → P' s) → Ensures P' m Q R → Ensures P m Q R
  Ensures-from m f e = record { at = λ s h. e.at s (f s h) }
