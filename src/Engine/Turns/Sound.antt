-- ===== src/Engine/Turns/Sound.antt =====
-- The invariant of a run that is not over.
use py_tui_kairo.Common.{
  ℕ, ◌+◌, ◌≤◌, ◌<◌, ◌≡◌, false, none, some, List, [], ◌∷◌, ◌++◌, All, All-append, arith,
}
use py_tui_kairo.Contracts.Enums.{AuthorizationMode, mode_value}
use py_tui_kairo.Contracts.Tools.{ToolInvocation, ToolExecutionContext}
use py_tui_kairo.Runtime.Events.{Emission}
use py_tui_kairo.Engine.Turns.Machine.{Ports, is_terminal}
use py_tui_kairo.Engine.Turns.Stable.{Core, Stable, Loose, Quiet, Allowed}
use py_tui_kairo.Engine.Turns.Consent.{Allowed-Grows}

-- The events are numbered upwards, above `low` and up to `high`.
abbrev pub Ascending : ℕ → ℕ → List Emission → Type 0
Ascending low high [] = low ≤ high
Ascending low high (x ∷ xs) = (n : ℕ) × (low < n) × (x.turn_sequence ≡ some n) × Ascending n high xs

-- The tool was executed under a mode for which the call was allowed.
abbrev pub Permitted : Ports → List Emission → ToolInvocation × ToolExecutionContext → Type 0
Permitted ports log (i, context) =
    (mode : AuthorizationMode) × (context.authorization_mode ≡ mode_value mode)
    × Allowed ports log i mode

pub Ascending-more :
    (low high : ℕ) (xs : List Emission) → Ascending low high xs → Ascending low (high + 1) xs
Ascending-more low high [] h = omega arith
Ascending-more low high (x ∷ xs) (n, above, q, h) = (n, above, q, Ascending-more n high xs h)

pub Ascending-append :
    (low high : ℕ) (xs : List Emission) (x : Emission)
    → x.turn_sequence ≡ some (high + 1)
    → Ascending low high xs
    → Ascending low (high + 1) (xs ++ x ∷ [])
Ascending-append low high [] x q h = (high + 1, omega arith, q, omega arith)
Ascending-append low high (y ∷ xs) x q (n, above, r, h) =
    (n, above, r, Ascending-append n high xs x q h)

Permitted-append :
    (p : Ports) (log : List Emission) (x : Emission) (e : ToolInvocation × ToolExecutionContext)
    → Permitted p log e
    → Permitted p (log ++ x ∷ []) e
Permitted-append p log x (i, context) (mode, q, a) =
    (mode, q, (Allowed-Grows i mode).appended p log x a)

pub All-Permitted-append :
    (p : Ports) (log : List Emission) (x : Emission)
    (es : List (ToolInvocation × ToolExecutionContext))
    → All (Permitted p log) es
    → All (Permitted p (log ++ x ∷ [])) es
All-Permitted-append p log x [] h = tt
All-Permitted-append p log x (e ∷ es) h =
    (Permitted-append p log x e h.0, All-Permitted-append p log x es h.1)

pub record Sound (k : ℕ) (origin : Ports) (p : Ports) (c : Core) : Type 0 where
  pub same : p ≡ origin
  pub live : is_terminal c.status ≡ false
  pub unfinished : c.terminal_emitted ≡ false
  pub unset : c.future ≡ none
  pub released : c.releases ≡ k
  pub quiet : All (λ (x : Emission). Quiet x.payload) c.log
  pub ascending : Ascending 0 c.turn_sequence c.log
  pub permitted : All (Permitted p c.log) c.executions

instance pub Sound-Stable : {k : ℕ} {origin : Ports} → Stable (Sound k origin)
Sound-Stable = record {
  live = λ p c h. h.live;
  status_set = λ p c status q h. record {
    same = h.same;
    live = q;
    unfinished = h.unfinished;
    unset = h.unset;
    released = h.released;
    quiet = h.quiet;
    ascending = h.ascending;
    permitted = h.permitted;
  };
  counted = λ p c h. record {
    same = h.same;
    live = h.live;
    unfinished = h.unfinished;
    unset = h.unset;
    released = h.released;
    quiet = h.quiet;
    ascending = Ascending-more 0 c.turn_sequence c.log h.ascending;
    permitted = h.permitted;
  };
  emitted = λ p c x n q h. record {
    same = h.same;
    live = h.live;
    unfinished = h.unfinished;
    unset = h.unset;
    released = h.released;
    quiet = All-append (λ (y : Emission). Quiet y.payload) c.log (x ∷ []) h.quiet (q, tt);
    ascending = Ascending-append 0 c.turn_sequence c.log x n h.ascending;
    permitted = All-Permitted-append p c.log x c.executions h.permitted;
  };
  executed = λ p c i context mode m a h. record {
    same = h.same;
    live = h.live;
    unfinished = h.unfinished;
    unset = h.unset;
    released = h.released;
    quiet = h.quiet;
    ascending = h.ascending;
    permitted =
        All-append (Permitted p c.log) c.executions ((i, context) ∷ []) h.permitted
          ((mode, m, a), tt);
  };
}

instance pub Sound-Loose : {k : ℕ} {origin : Ports} → Loose (Sound k origin)
Sound-Loose = record {
  rewritten = λ p c ms h. record {
    same = h.same;
    live = h.live;
    unfinished = h.unfinished;
    unset = h.unset;
    released = h.released;
    quiet = h.quiet;
    ascending = h.ascending;
    permitted = h.permitted;
  };
}
