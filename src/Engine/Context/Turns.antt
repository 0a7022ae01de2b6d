-- ===== src/Engine/Context/Turns.antt =====
-- A history is cut into turns at its user messages, and nothing is lost.
use py_tui_kairo.Common.{
  length-drop, ℕ, ◌-◌, ◌≤◌, ◌≡◌, refl, ap, ◌∙◌, sym, Bool, true, false, List, [], ◌∷◌, ◌++◌, arith,
  length, take, drop, take-append-drop, All, All-append, append-nil, append_assoc, if_both,
}
use py_tui_kairo.Contracts.Content.{Message}
use py_tui_kairo.Engine.Context.{
  Split, ContextPacker, is_user, append_last, append_current, add_message, split_from, split_turns,
  join, preserved, source_and_retained,
}

abbrev pub flat : Split → List Message
flat s = s.prefix ++ join s.turns

join-append : (ts us : List (List Message)) → join (ts ++ us) ≡ join ts ++ join us
unfolding join
join-append [] us = refl
join-append (t ∷ ts) us =
    ap (λ x. t ++ x) (join-append ts us) ∙ sym (append_assoc t (join ts) (join us))

join-append_last :
    (m : Message) (t : List Message) (ts : List (List Message))
    → join (append_last m t ts) ≡ (t ++ join ts) ++ m ∷ []
unfolding join append_last
join-append_last m t [] = append-nil (t ++ m ∷ []) ∙ sym (ap (λ x. x ++ m ∷ []) (append-nil t))
join-append_last m t (u ∷ ts) =
    ap (λ x. t ++ x) (join-append_last m u ts) ∙ sym (append_assoc t (u ++ join ts) (m ∷ []))

append_current-flat :
    (m : Message) (prefix : List Message) (ts : List (List Message))
    → flat (append_current m prefix ts) ≡ (prefix ++ join ts) ++ m ∷ []
unfolding append_current join
append_current-flat m prefix [] =
    append-nil (prefix ++ m ∷ []) ∙ sym (ap (λ x. x ++ m ∷ []) (append-nil prefix))
append_current-flat m prefix (t ∷ ts) =
    ap (λ x. prefix ++ x) (join-append_last m t ts)
    ∙ sym (append_assoc prefix (t ++ join ts) (m ∷ []))

add_message-flat : (m : Message) (s : Split) → flat (add_message m s) ≡ flat s ++ m ∷ []
unfolding add_message join
add_message-flat m s =
    if_both (λ x. flat x ≡ flat s ++ m ∷ []) (is_user m)
      (λ h.
        ap (λ x. s.prefix ++ x) (join-append s.turns ((m ∷ []) ∷ []))
        ∙ sym (append_assoc s.prefix (join s.turns) (m ∷ [])))
      (λ h. append_current-flat m s.prefix s.turns)

split_from-flat : (ms : List Message) (s : Split) → flat (split_from ms s) ≡ flat s ++ ms
unfolding split_from
split_from-flat [] s = sym (append-nil (flat s))
split_from-flat (m ∷ ms) s =
    split_from-flat ms (add_message m s)
    ∙ (ap (λ x. x ++ ms) (add_message-flat m s) ∙ append_assoc (flat s) (m ∷ []) ms)

-- A user message and others after it.
abbrev pub IsTurn : List Message → Type 0
IsTurn [] = ⊥
IsTurn (m ∷ ms) = (is_user m ≡ true) × All (λ x. is_user x ≡ false) ms

abbrev pub IsSplit : Split → Type 0
IsSplit s = All (λ m. is_user m ≡ false) s.prefix × All IsTurn s.turns

append_last-IsTurn :
    (m : Message) (t : List Message) (ts : List (List Message))
    → is_user m ≡ false
    → IsTurn t
    → All IsTurn ts
    → All IsTurn (append_last m t ts)
unfolding append_last
append_last-IsTurn m [] ts n h hs = absurd h
append_last-IsTurn m (x ∷ t) [] n h hs =
    ((h.0, All-append (λ y. is_user y ≡ false) t (m ∷ []) h.1 (n, tt)), tt)
append_last-IsTurn m (x ∷ t) (u ∷ ts) n h hs = (h, append_last-IsTurn m u ts n hs.0 hs.1)

append_current-IsSplit :
    (m : Message) (prefix : List Message) (ts : List (List Message))
    → is_user m ≡ false
    → All (λ x. is_user x ≡ false) prefix
    → All IsTurn ts
    → IsSplit (append_current m prefix ts)
unfolding append_current
append_current-IsSplit m prefix [] n h hs =
    (All-append (λ y. is_user y ≡ false) prefix (m ∷ []) h (n, tt), tt)
append_current-IsSplit m prefix (t ∷ ts) n h hs = (h, append_last-IsTurn m t ts n hs.0 hs.1)

split_from-IsSplit : (ms : List Message) (s : Split) → IsSplit s → IsSplit (split_from ms s)
unfolding split_from add_message
split_from-IsSplit [] s h = h
split_from-IsSplit (m ∷ ms) s h = split_from-IsSplit ms (add_message m s) (
    if_both IsSplit (is_user m)
      (λ u. (h.0, All-append IsTurn s.turns ((m ∷ []) ∷ []) h.1 ((u, tt), tt)))
      (λ u. append_current-IsSplit m s.prefix s.turns u h.0 h.1))

-- The prefix and the turns of a history, one after the other, are the history; the prefix has no user message, and a
-- turn starts with its only one.
pub split_turns-lossless :
    (ms : List Message)
    → ((split_turns ms).prefix ++ join (split_turns ms).turns ≡ ms) × IsSplit (split_turns ms)
unfolding join
split_turns-lossless ms = (
  split_from-flat ms (record { prefix = []; turns = [] }),
  split_from-IsSplit ms (record { prefix = []; turns = [] }) (tt, tt),
)

preserved_le : (p : ContextPacker) (emergency : Bool) (n : ℕ) → preserved p emergency n ≤ n
unfolding preserved
preserved_le p emergency n = ground arith

-- What is summarised and what is kept of a history are together all of it: the kept part is the prefix, and turns that
-- follow the summarised ones.
pub source_and_retained-partition :
    (p : ContextPacker) (emergency : Bool) (ms : List Message)
    → (recent : List (List Message)) × ((source_and_retained p emergency ms).1
        ≡ (split_turns ms).prefix ++ join recent)
      × ((split_turns ms).prefix ++ ((source_and_retained p emergency ms).0 ++ join recent) ≡ ms)
      × (length recent ≡ preserved p emergency (length (split_turns ms).turns))
unfolding source_and_retained
source_and_retained-partition p emergency ms =
    let s = split_turns ms in
    let k = length s.turns - preserved p emergency (length s.turns) in
    (
      drop k s.turns,
      refl,
      ap (λ x. s.prefix ++ x)
            (sym (join-append (take k s.turns) (drop k s.turns))
              ∙ ap join (take-append-drop k s.turns))
          ∙ (split_turns-lossless ms).0,
      omega (arith, length-drop k s.turns, preserved_le p emergency (length s.turns)),
    )
