-- ===== src/Services/Conversations/Undo.antt =====
-- What `undo` takes away.
use py_tui_kairo.Common.{
  ℕ, ◌≡◌, refl, ap, Bool, true, false, Option, none, some, List, [], ◌∷◌, ◌++◌, take, All,
}
use py_tui_kairo.Contracts.Content.{Message}
use py_tui_kairo.Contracts.Errors.{KernelResult, success, failure}
use py_tui_kairo.Contracts.Providers.{SessionRecord}
use py_tui_kairo.Engine.Context.{is_user}
use py_tui_kairo.Services.Conversations.{last_from, last_user, without_turn, undone}

abbrev NoUser : List Message → Type 0
NoUser = All (λ m. is_user m ≡ false)

-- The messages end with a turn: a user message and others after it.
abbrev pub EndsWithTurn : List Message → List Message → Type 0
EndsWithTurn before ms =
    (m : Message) × (rest : List Message) × (ms ≡ before ++ m ∷ rest)
    × (is_user m ≡ true)
    × NoUser rest

-- Just the last turn is gone, or there is no user message.
abbrev pub Undone : ℕ → SessionRecord → KernelResult SessionRecord → Type 0
Undone now r (success r') =
    EndsWithTurn r'.messages r.messages
    × (r' ≡ record r { messages = r'.messages; updated_at = now })
Undone now r (failure error) = NoUser r.messages

abbrev Found : List Message → Option ℕ → Type 0
Found ms none = NoUser ms
Found ms (some i) = EndsWithTurn (take i ms) ms

last_from-Found :
    (m : Message) (ms : List Message) (here : Bool) (o : Option ℕ)
    → is_user m ≡ here
    → Found ms o
    → Found (m ∷ ms) (last_from here o)
last_from-Found m ms here (some i) e (u, rest, q, user, none_later) =
    (u, rest, ap (λ xs. m ∷ xs) q, user, none_later)
last_from-Found m ms true none e h = (m, ms, refl, e, h)
last_from-Found m ms false none e h = (e, h)

last_user-Found : (ms : List Message) → Found ms (last_user ms)
unfolding last_user
last_user-Found [] = tt
last_user-Found (m ∷ ms) = last_from-Found m ms (is_user m) (last_user ms) refl (last_user-Found ms)

without_turn-Undone :
    (now : ℕ) (r : SessionRecord) (o : Option ℕ)
    → Found r.messages o
    → Undone now r (without_turn now r o)
without_turn-Undone now r none h = h
without_turn-Undone now r (some i) h = (h, refl)

-- Undoing takes away the last user message with everything after it, and changes nothing else but the time of the
-- update; it is refused exactly where the session has no user message.
pub undone-Undone : (now : ℕ) (r : SessionRecord) → Undone now r (undone now r)
unfolding undone
undone-Undone now r = without_turn-Undone now r (last_user r.messages) (last_user-Found r.messages)
