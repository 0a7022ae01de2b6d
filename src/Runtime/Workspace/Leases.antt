-- ===== src/Runtime/Workspace/Leases.antt =====
-- How many of the leases given are still held.
use py_tui_kairo.Common.{
  ℕ, zero, suc, ◌+◌, ◌<◌, ◌≡◌, Bool, true, false, some, List, [], ◌∷◌, ◌++◌, arith, All, get_elem?,
  set, if◌then◌else◌,
}
use py_tui_kairo.Runtime.Workspace.{WorkspaceSnapshot, WorkspaceLease}

-- One if the lease is held for writing (`w` true) or for reading.
abbrev pub weight : Bool → WorkspaceLease → ℕ
weight w l = if l.released then 0 else if l.write then (if w then 1 else 0) else if w then 0 else 1

abbrev pub held : Bool → List WorkspaceLease → ℕ
held w [] = 0
held w (l ∷ ls) = weight w l + held w ls

pub held-append :
    (w : Bool) (ls : List WorkspaceLease) (l : WorkspaceLease)
    → held w (ls ++ l ∷ []) ≡ held w ls + weight w l
held-append w [] l = omega arith
held-append w (k ∷ ls) l = omega (arith, held-append w ls l)

pub held-set :
    (w : Bool) (ls : List WorkspaceLease) (i : ℕ) (l k : WorkspaceLease)
    → get_elem? ls i ≡ some l
    → held w (set ls i k) + weight w l ≡ held w ls + weight w k
held-set w [] i l k h = cc
held-set w (x ∷ ls) zero l k h = ground arith
held-set w (x ∷ ls) (suc i) l k h = omega (arith, held-set w ls i l k h)

-- A lease in the list weighs no more than the list.
pub weight-le-held :
    (w : Bool) (ls : List WorkspaceLease) (i : ℕ) (l : WorkspaceLease)
    → get_elem? ls i ≡ some l
    → (k : ℕ) × (held w ls ≡ weight w l + k)
weight-le-held w [] i l h = cc
weight-le-held w (x ∷ ls) zero l h = (held w ls, ground arith)
weight-le-held w (x ∷ ls) (suc i) l h =
    let (k, e) = weight-le-held w ls i l h in (weight w x + k, omega arith)

-- Every lease held for reading shows this snapshot.
abbrev pub Shows : WorkspaceSnapshot → List WorkspaceLease → Type 0
Shows n ls = All (λ l. l.write ≡ false → l.released ≡ false → l.snapshot ≡ n) ls

pub Shows-append :
    (n : WorkspaceSnapshot) (ls : List WorkspaceLease) (l : WorkspaceLease)
    → Shows n ls
    → (l.write ≡ false → l.snapshot ≡ n)
    → Shows n (ls ++ l ∷ [])
Shows-append n [] l h e = ((λ w r. e w), tt)
Shows-append n (k ∷ ls) l h e = (h.0, Shows-append n ls l h.1 e)

pub Shows-set :
    (n : WorkspaceSnapshot) (ls : List WorkspaceLease) (i : ℕ) (l : WorkspaceLease)
    → Shows n ls
    → (l.write ≡ false → l.released ≡ false → l.snapshot ≡ n)
    → Shows n (set ls i l)
Shows-set n [] i l h e = tt
Shows-set n (k ∷ ls) zero l h e = (e, h.1)
Shows-set n (k ∷ ls) (suc i) l h e = (h.0, Shows-set n ls i l h.1 e)

-- With no reader any snapshot will do.
pub Shows-none : (n : WorkspaceSnapshot) (ls : List WorkspaceLease) → held false ls ≡ 0 → Shows n ls
Shows-none n [] h = tt
Shows-none n (l ∷ ls) h = ((λ w r. ground arith), Shows-none n ls (ground arith))

pub Shows-get :
    (n : WorkspaceSnapshot) (ls : List WorkspaceLease) (i : ℕ) (l : WorkspaceLease)
    → Shows n ls
    → get_elem? ls i ≡ some l
    → l.write ≡ false
    → l.released ≡ false
    → l.snapshot ≡ n
Shows-get n [] i l h g w r = cc
Shows-get n (k ∷ ls) zero l h g w r = ground (arith, h.0)
Shows-get n (k ∷ ls) (suc i) l h g w r = Shows-get n ls i l h.1 g w r

-- A lease held for reading is counted, and so is one held for writing.
pub held-pos :
    (ls : List WorkspaceLease) (i : ℕ) (l : WorkspaceLease)
    → get_elem? ls i ≡ some l
    → l.released ≡ false
    → (l.write ≡ false → 0 < held false ls) × (l.write ≡ true → 0 < held true ls)
held-pos ls i l g r = (
  (λ w. let (k, e) = weight-le-held false ls i l g in ground arith),
  (λ w. let (k, e) = weight-le-held true ls i l g in ground arith),
)
