-- ===== src/Runtime/Events/Sequence.antt =====
-- Runs of events with consecutive sequence numbers.
use py_tui_kairo.Common.{
  ℕ, zero, suc, ◌+◌, ◌-◌, ◌≤◌, ◌<◌, max, ◌≡◌, subst, List, [], ◌∷◌, ◌++◌, arith, length, take, drop,
  keep, keep-true, keep-false, ltb, Bool-cases, inl, inr,
}
use py_tui_kairo.Contracts.Events.{KernelEvent}
use py_tui_kairo.Runtime.Events.{Queued, queued, closed_mark}

-- The events have the sequence numbers n + 1, n + 2 and so on.
abbrev pub Follows : ℕ → List KernelEvent → Type 0
Follows n [] = Unit
Follows n (e ∷ es) = (e.sequence ≡ suc n) × Follows (suc n) es

-- So do those of a queue, in which no closing mark stands.
abbrev pub FollowsQueued : ℕ → List Queued → Type 0
FollowsQueued n [] = Unit
FollowsQueued n (queued e ∷ q) = (e.sequence ≡ suc n) × FollowsQueued (suc n) q
FollowsQueued n (closed_mark ∷ q) = ⊥

pub Follows-append :
    (n : ℕ) (es : List KernelEvent) (e : KernelEvent)
    → Follows n es
    → e.sequence ≡ suc (n + length es)
    → Follows n (es ++ e ∷ [])
Follows-append n [] e f h = (omega arith, tt)
Follows-append n (x ∷ es) e f h = (f.0, Follows-append (suc n) es e f.1 (omega arith))

pub FollowsQueued-append :
    (n : ℕ) (q : List Queued) (e : KernelEvent)
    → FollowsQueued n q
    → e.sequence ≡ suc (n + length q)
    → FollowsQueued n (q ++ queued e ∷ [])
FollowsQueued-append n [] e f h = (omega arith, tt)
FollowsQueued-append n (queued x ∷ q) e f h =
    (f.0, FollowsQueued-append (suc n) q e f.1 (omega arith))
FollowsQueued-append n (closed_mark ∷ q) e f h = absurd f

pub Follows-drop :
    (n k : ℕ) (es : List KernelEvent) → Follows n es → k ≤ length es → Follows (n + k) (drop k es)
Follows-drop n zero es f h = subst (λ m. Follows m es) (omega arith) f
Follows-drop n (suc k) [] f h = tt
Follows-drop n (suc k) (e ∷ es) f h =
    subst (λ m. Follows m (drop k es)) (omega arith) (Follows-drop (suc n) k es f.1 (omega arith))

pub FollowsQueued-drop_one :
    (n : ℕ) (q : List Queued) → FollowsQueued n q → 0 < length q → FollowsQueued (suc n) (drop 1 q)
FollowsQueued-drop_one n [] f h = absurd (omega arith)
FollowsQueued-drop_one n (queued e ∷ q) f h = f.1
FollowsQueued-drop_one n (closed_mark ∷ q) f h = absurd f

pub Follows-take : (n k : ℕ) (es : List KernelEvent) → Follows n es → Follows n (take k es)
Follows-take n zero es f = tt
Follows-take n (suc k) [] f = tt
Follows-take n (suc k) (e ∷ es) f = (f.0, Follows-take (suc n) k es f.1)

-- The events beyond a sequence number, of a run: again a run, and how long it is.
pub keep-Follows :
    (after n : ℕ) (es : List KernelEvent)
    → Follows n es
    → Follows (max after n) (keep (λ (e : KernelEvent). ltb after e.sequence) es)
      × (length (keep (λ (e : KernelEvent). ltb after e.sequence) es) ≡ n + length es - max after n)
keep-Follows after n [] f = (tt, omega arith)
keep-Follows after n (e ∷ es) f =
    let (follows, count) = keep-Follows after (suc n) es f.1 in
    elim (Bool-cases (ltb after e.sequence)) [
      | inl late ↦
          let h : after < e.sequence = ground arith in
          rw (keep-true (λ (x : KernelEvent). ltb after x.sequence) e es late) (
            (
              omega (arith, f.0),
              subst (λ m. Follows m (keep (λ (x : KernelEvent). ltb after x.sequence) es))
                  (omega (arith, f.0)) follows,
            ),
            omega (arith, f.0, count),
          )
      | inr early ↦
          let h : e.sequence ≤ after = ground arith in
          rw (keep-false (λ (x : KernelEvent). ltb after x.sequence) e es early) (
            subst (λ m. Follows m (keep (λ (x : KernelEvent). ltb after x.sequence) es))
                (omega (arith, f.0)) follows,
            omega (arith, f.0, count),
          )
    ]
