-- ===== src/Runtime/Cancellation.antt =====
-- kairo_kernel/runtime/cancellation.py: a one-shot cancellation signal.
use py_tui_kairo.Common.{
  ◌≡◌, refl, Bool, true, false, Option, none, some, List, [], ◌∷◌, String, arith, if◌then◌else◌,
}

-- `_event.is_set()` and `_reason`
pub record CancellationToken : Type 0 where
  pub cancelled : Bool
  pub reason : String

unfoldable pub new_token : CancellationToken
new_token = record { cancelled = false; reason = "" }

-- The result says whether this call was the one that cancelled.
unfoldable pub cancel : String → CancellationToken → CancellationToken × Bool
cancel reason t =
    if t.cancelled then (t, false) else (record { cancelled = true; reason = reason }, true)

-- `some reason` is the CancelledError that is raised.
unfoldable pub raise_if_cancelled : CancellationToken → Option String
raise_if_cancelled t = if t.cancelled then some t.reason else none

-- `wait` returns when the event is set.
unfoldable pub wait_returns : CancellationToken → Bool
wait_returns t = t.cancelled

-- Several calls of `cancel`, first to last, with the results counted.
unfoldable pub cancel_all : List String → CancellationToken → CancellationToken
unfolding cancel
cancel_all [] t = t
cancel_all (r ∷ rs) t = cancel_all rs (cancel r t).0

cancel_all-cancelled :
    (rs : List String) (t : CancellationToken) → t.cancelled ≡ true → cancel_all rs t ≡ t
unfolding cancel_all
cancel_all-cancelled [] t h = refl
cancel_all-cancelled (r ∷ rs) t h = ground (arith, cancel_all-cancelled rs t)

-- Of all the calls of `cancel` on a fresh token only the first counts: its reason is the one that
-- `raise_if_cancelled` raises for ever after, and every later call reports False.
first_reason_wins :
    (r : String) (rs : List String) (late : String)
    → (raise_if_cancelled (cancel_all (r ∷ rs) new_token) ≡ some r)
      × (wait_returns (cancel_all (r ∷ rs) new_token) ≡ true)
      × (cancel late (cancel_all (r ∷ rs) new_token) ≡ (cancel_all (r ∷ rs) new_token, false))
unfolding cancel_all new_token raise_if_cancelled wait_returns cancel
first_reason_wins r rs late =
    ground (arith, cancel_all-cancelled rs (record { cancelled = true; reason = r }))
