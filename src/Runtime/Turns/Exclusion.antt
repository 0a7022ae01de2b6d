-- ===== src/Runtime/Turns/Exclusion.antt =====
-- One turn for each session, one session for each turn.
use py_tui_kairo.Common.{
  ◌≡◌, ◌≢◌, ◌↔◌, ◌⊎◌, inl, inr, refl, true, false, Option, none, some, List, [], ◌∷◌, String,
  str_eq, eq_iff, arith, Bool-cases, if◌then◌else◌,
}
use py_tui_kairo.Common.Dict.{
  Dict, get, put, remove, get-put, UniqueKeys, UniqueKeys-put, UniqueKeys-remove,
}
use py_tui_kairo.Contracts.Enums.{kernel_closing, kernel_busy}
use py_tui_kairo.Contracts.Errors.{success, error_code}
use py_tui_kairo.Runtime.Turns.{
  SessionTurnSupervisor, new_supervisor, turn_active, is_turn, start, finish, close_admission, Op,
  start_op, finish_op, close_op, step, steps,
}

-- No turn stands at two sessions.
abbrev pub UniqueTurns : Dict String → Type 0
UniqueTurns [] = Unit
UniqueTurns ((s, t) ∷ d) = (turn_active t d ≡ false) × UniqueTurns d

turn_active-put :
    (x s t : String) (d : Dict String)
    → turn_active x d ≡ false
    → str_eq t x ≡ false
    → turn_active x (put s t d) ≡ false
unfolding turn_active put
turn_active-put x s t [] h e = ground arith
turn_active-put x s t ((j, w) ∷ d) h e = ground (arith, turn_active-put x s t d)

turn_active-remove :
    (x s : String) (d : Dict String) → turn_active x d ≡ false → turn_active x (remove s d) ≡ false
unfolding turn_active remove
turn_active-remove x s [] h = refl
turn_active-remove x s ((j, w) ∷ d) h = ground (arith, turn_active-remove x s d)

turn_active-head :
    (x j w : String) (d : Dict String)
    → turn_active x ((j, w) ∷ d) ≡ false
    → (str_eq w x ≡ false) × (turn_active x d ≡ false)
unfolding turn_active
turn_active-head x j w d h = ground arith

UniqueTurns-put :
    (s t : String) (d : Dict String)
    → get s d ≡ none
    → turn_active t d ≡ false
    → UniqueTurns d
    → UniqueTurns (put s t d)
unfolding put get
UniqueTurns-put s t [] g h u = (unfold turn_active in refl, tt)
UniqueTurns-put s t ((j, w) ∷ d) g h u = elim (Bool-cases (str_eq j s)) [
  | inl e ↦ absurd (ground arith)
  | inr e ↦
      let parts = turn_active-head t j w d h in
      rw e (
        turn_active-put w s t d u.0 (ground (arith, eq_iff t w, eq_iff w t)),
        UniqueTurns-put s t d (ground arith) parts.1 u.1,
      )
]

UniqueTurns-remove : (s : String) (d : Dict String) → UniqueTurns d → UniqueTurns (remove s d)
unfolding remove
UniqueTurns-remove s [] u = tt
UniqueTurns-remove s ((j, w) ∷ d) u = elim (Bool-cases (str_eq j s)) [
  | inl e ↦ rw e (UniqueTurns-remove s d u.1)
  | inr e ↦ rw e (turn_active-remove w s d u.0, UniqueTurns-remove s d u.1)
]

-- What holds of a supervisor between two steps.
pub record IsExclusive (v : SessionTurnSupervisor) : Type 0 where
  pub sessions : UniqueKeys v.active
  pub turns : UniqueTurns v.active

-- `start` succeeds exactly if admission is open, the session has no turn and the turn is not active
-- elsewhere; then just that session gets the turn. Otherwise nothing changes, and the code of the
-- error is closing before busy before conflict.
start_outcome :
    (s t : String) (v : SessionTurnSupervisor)
    → (((start s t v).0 ≡ success (record { session_id = s; turn_id = t; released = false }))
        ↔ ((v.closing ≡ false) × (get s v.active ≡ none) × (turn_active t v.active ≡ false)))
      × (error_code (start s t v).0 ≡ none
          → (j : String)
          → get j (start s t v).1.active ≡ (if str_eq s j then some t else get j v.active))
      × (error_code (start s t v).0 ≢ none → (start s t v).1 ≡ v)
      × (v.closing ≡ true → error_code (start s t v).0 ≡ some kernel_closing)
      × (v.closing ≡ false → get s v.active ≢ none → error_code (start s t v).0 ≡ some kernel_busy)
unfolding start
start_outcome s t v = (
  ground arith,
  (λ h j. ground (arith, get-put s j t v.active)),
  (λ h. ground arith),
  (λ h. ground arith),
  (λ h g. ground arith),
)

-- Either nothing changed, or the turn was admitted.
start_cases :
    (s t : String) (v : SessionTurnSupervisor)
    → ((start s t v).1 ≡ v)
      ⊎ ((get s v.active ≡ none)
          × (turn_active t v.active ≡ false)
          × ((start s t v).1 ≡ record v { active = put s t v.active }))
unfolding start
start_cases s t v = ground arith

start-IsExclusive :
    (s t : String) {v : SessionTurnSupervisor} → IsExclusive v → IsExclusive (start s t v).1
start-IsExclusive s t {v} x = elim (start_cases s t v) [
  | inl same ↦ rw same x
  | inr (free, fresh, e) ↦ rw e (record {
    sessions = UniqueKeys-put s t v.active x.sessions;
    turns = UniqueTurns-put s t v.active free fresh x.turns;
  })
]

is_turn-eq : (o : Option String) (t : String) → is_turn o t ≡ true → o ≡ some t
is_turn-eq none t h = cc
is_turn-eq (some u) t h = ground (arith, eq_iff u t)

pub finish_cases :
    (s t : String) (v : SessionTurnSupervisor)
    → ((finish s t v).1 ≡ v)
      ⊎ ((get s v.active ≡ some t) × ((finish s t v).1 ≡ record v { active = remove s v.active }))
unfolding finish
finish_cases s t v = ground (arith, is_turn-eq (get s v.active) t)

finish-IsExclusive :
    (s t : String) {v : SessionTurnSupervisor} → IsExclusive v → IsExclusive (finish s t v).1
finish-IsExclusive s t {v} x = elim (finish_cases s t v) [
  | inl same ↦ rw same x
  | inr (here, e) ↦ rw e (record {
    sessions = UniqueKeys-remove s v.active x.sessions;
    turns = UniqueTurns-remove s v.active x.turns;
  })
]

step-IsExclusive : (o : Op) {v : SessionTurnSupervisor} → IsExclusive v → IsExclusive (step o v)
unfolding step close_admission
step-IsExclusive (start_op s t) x = start-IsExclusive s t x
step-IsExclusive (finish_op s t) x = finish-IsExclusive s t x
step-IsExclusive close_op x = record { sessions = x.sessions; turns = x.turns }

pub steps-IsExclusive :
    (os : List Op) {v : SessionTurnSupervisor} → IsExclusive v → IsExclusive (steps os v)
unfolding steps
steps-IsExclusive [] x = x
steps-IsExclusive (o ∷ os) {v} x = steps-IsExclusive os {v = step o v} (step-IsExclusive o x)

turn_active-get : (s t : String) (d : Dict String) → get s d ≡ some t → turn_active t d ≡ true
unfolding turn_active get
turn_active-get s t [] h = cc
turn_active-get s t ((j, w) ∷ d) h = ground (arith, turn_active-get s t d, eq_iff w t)

get-injective :
    (s j t : String) (d : Dict String) → UniqueTurns d → get s d ≡ some t → get j d ≡ some t → s ≡ j
unfolding get
get-injective s j t [] u hs hj = cc
get-injective s j t ((i, w) ∷ d) u hs hj = ground (
  arith,
  eq_iff i s,
  eq_iff i j,
  turn_active-get s t d,
  turn_active-get j t d,
  get-injective s j t d u.1,
)

-- Whatever the tasks do and in whatever order, a turn is active for one session only, and the
-- table of active turns has one entry for each session.
pub one_turn_one_session :
    (os : List Op) (s j t : String)
    → get s (steps os new_supervisor).active ≡ some t
    → get j (steps os new_supervisor).active ≡ some t
    → (s ≡ j) × UniqueKeys (steps os new_supervisor).active
one_turn_one_session os s j t hs hj =
    let x = steps-IsExclusive os {v = new_supervisor} (record { sessions = tt; turns = tt }) in
    (get-injective s j t (steps os new_supervisor).active x.turns hs hj, x.sessions)
