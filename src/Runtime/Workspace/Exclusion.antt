-- ===== src/Runtime/Workspace/Exclusion.antt =====
-- The counters of the manager agree with the leases, so writers exclude readers and each other.
use py_tui_kairo.Common.{
  ℕ, zero, suc, ◌+◌, ◌-◌, ◌≤◌, ◌<◌, ◌≡◌, ◌⊎◌, inl, inr, refl, ap, Bool, true, false, Option, none,
  some, List, [], ◌∷◌, String, arith, get_elem?, set, ltb, if◌then◌else◌, Bool-cases,
}
use py_tui_kairo.Runtime.Workspace.{
  WorkspaceSnapshot, WorkspaceLease, WorkspaceLeaseManager, System, new_system, granted, waits,
  refused, read, try_write, write, abandon_write, update, release, release_at, update_at, returned,
  bump_with, Action, read_action, write_action, wake_writer, abandon_writer, close_action,
  release_action, update_action, bump_action, after_read, after_write, after_bump, act, run,
}
use py_tui_kairo.Runtime.Workspace.Leases.{
  held, held-append, held-set, held-pos, Shows, Shows-append, Shows-set, Shows-none,
}

-- What holds between two steps.
pub record IsConsistent (s : System) : Type 0 where
  pub readers : s.manager.readers ≡ held false s.leases
  pub writer : (if s.manager.writer then 1 else 0) ≡ held true s.leases
  pub exclusive : s.manager.writer ≡ true → s.manager.readers ≡ 0
  pub waiting : s.manager.waiting_writers ≡ s.waiting
  pub shown : Shows s.manager.snapshot s.leases

pub read_cases :
    (m : WorkspaceLeaseManager)
    → (read m ≡ (refused, m))
      ⊎ (read m ≡ (waits, m))
      ⊎ ((m.writer ≡ false)
          × (m.closed ≡ false)
          × (read m ≡ (
            granted (record { write = false; snapshot = m.snapshot; released = false }),
            record m { readers = m.readers + 1 },
          )))
unfolding read
read_cases m = ground arith

pub try_write_cases :
    (m : WorkspaceLeaseManager)
    → (try_write m ≡ (refused, record m { waiting_writers = m.waiting_writers - 1 }))
      ⊎ (try_write m ≡ (waits, m))
      ⊎ ((m.writer ≡ false)
          × (m.readers ≡ 0)
          × (m.closed ≡ false)
          × (try_write m ≡ (
            granted (record { write = true; snapshot = m.snapshot; released = false }),
            record m { writer = true; waiting_writers = m.waiting_writers - 1 },
          )))
unfolding try_write
try_write_cases m = ground arith

abbrev reader_lease : WorkspaceSnapshot → WorkspaceLease
reader_lease n = record { write = false; snapshot = n; released = false }

abbrev writer_lease : WorkspaceSnapshot → WorkspaceLease
writer_lease n = record { write = true; snapshot = n; released = false }

read-IsConsistent : {s : System} → IsConsistent s → IsConsistent (after_read s (read s.manager))
read-IsConsistent {s} c = elim (read_cases s.manager) [
  | inl e ↦ rw e c
  | inr (inl e) ↦ rw e c
  | inr (inr (w, o, e)) ↦ rw e (record {
    readers =
        omega (arith, c.readers, held-append false s.leases (reader_lease s.manager.snapshot));
    writer = ground (arith, held-append true s.leases (reader_lease s.manager.snapshot));
    exclusive = λ x. cc;
    waiting = c.waiting;
    shown =
        Shows-append s.manager.snapshot s.leases (reader_lease s.manager.snapshot) c.shown
          (λ x. refl);
  })
]

-- A task that waits in `write` tries for its lease; `n` such tasks are counted.
try_write-IsConsistent :
    (m : WorkspaceLeaseManager) (n : ℕ) (s : System)
    → m.readers ≡ held false s.leases
    → (if m.writer then 1 else 0) ≡ held true s.leases
    → (m.writer ≡ true → m.readers ≡ 0)
    → m.waiting_writers ≡ n
    → Shows m.snapshot s.leases
    → IsConsistent (after_write s n (try_write m))
try_write-IsConsistent m n s cr cw ce cq cs = elim (try_write_cases m) [
  | inl e ↦
      rw e (record { readers = cr; writer = cw; exclusive = ce; waiting = omega arith; shown = cs })
  | inr (inl e) ↦
      rw e (record { readers = cr; writer = cw; exclusive = ce; waiting = cq; shown = cs })
  | inr (inr (w, r, o, e)) ↦ rw e (record {
    readers = omega (arith, held-append false s.leases (writer_lease m.snapshot));
    writer = ground (arith, held-append true s.leases (writer_lease m.snapshot));
    exclusive = λ x. r;
    waiting = omega arith;
    shown = Shows-append m.snapshot s.leases (writer_lease m.snapshot) cs (λ x. cc);
  })
]

write-IsConsistent :
    {s : System} → IsConsistent s → IsConsistent (after_write s (s.waiting + 1) (write s.manager))
unfolding write
write-IsConsistent {s} c =
    try_write-IsConsistent (record s.manager { waiting_writers = s.manager.waiting_writers + 1 })
      (s.waiting + 1) s c.readers c.writer c.exclusive (omega (arith, c.waiting)) c.shown

release_writer :
    (l : WorkspaceLease) (m : WorkspaceLeaseManager)
    → l.write ≡ true
    → l.released ≡ false
    → m.writer ≡ true
    → release l m ≡ (returned true, record l { released = true }, record m { writer = false })
unfolding release
release_writer l m w r h = ground arith

release_reader :
    (l : WorkspaceLease) (m : WorkspaceLeaseManager)
    → l.write ≡ false
    → l.released ≡ false
    → 0 < m.readers
    → release l m
      ≡ (returned true, record l { released = true }, record m { readers = m.readers - 1 })
unfolding release
release_reader l m w r h = ground arith

release_again :
    (l : WorkspaceLease) (m : WorkspaceLeaseManager)
    → l.released ≡ true
    → release l m ≡ (returned false, l, m)
unfolding release
release_again l m r = ground arith

-- What the release of a lease of the system does: nothing if it was released before, and otherwise
-- its reader or its writer leaves; it never raises.
pub release_outcome :
    (i : ℕ) (l : WorkspaceLease) (s : System)
    → IsConsistent s
    → get_elem? s.leases i ≡ some l
    → ((l.released ≡ true) × (release l s.manager ≡ (returned false, l, s.manager)))
      ⊎ ((l.released ≡ false)
          × (l.write ≡ true)
          × (s.manager.writer ≡ true)
          × (release l s.manager
              ≡ (returned true, record l { released = true }, record s.manager { writer = false })))
      ⊎ ((l.released ≡ false)
          × (l.write ≡ false)
          × (0 < s.manager.readers)
          × (release l s.manager ≡ (
            returned true,
            record l { released = true },
            record s.manager { readers = s.manager.readers - 1 },
          )))
release_outcome i l s c g = elim (Bool-cases l.released) [
  | inl r ↦ inl (r, release_again l s.manager r)
  | inr r ↦
      let (reads, writes) = held-pos s.leases i l g r in
      elim (Bool-cases l.write) [
        | inl w ↦
            let h : s.manager.writer ≡ true = ground (arith, writes w, c.writer) in
            inr (inl (r, w, h, release_writer l s.manager w r h))
        | inr w ↦
            let h : 0 < s.manager.readers = omega (arith, reads w, c.readers) in
            inr (inr (r, w, h, release_reader l s.manager w r h))
      ]
]

set_same :
    (ls : List WorkspaceLease) (i : ℕ) (l : WorkspaceLease)
    → get_elem? ls i ≡ some l
    → set ls i l ≡ ls
set_same [] i l g = refl
set_same (k ∷ ls) zero l g = ground arith
set_same (k ∷ ls) (suc i) l g = ap (λ r. k ∷ r) (set_same ls i l g)

release-IsConsistent :
    (i : ℕ) (l : WorkspaceLease) {s : System}
    → IsConsistent s
    → get_elem? s.leases i ≡ some l
    → IsConsistent (release_at i (some l) s)
unfolding release_at
release-IsConsistent i l {s} c g =
    let gone : WorkspaceLease = record l { released = true } in
    elim (release_outcome i l s c g) [
      | inl (r, e) ↦ rw (e, set_same s.leases i l g) c
      | inr (inl (r, w, h, e)) ↦ rw e (record {
        readers = ground (arith, c.readers, held-set false s.leases i l gone g);
        writer = ground (arith, c.writer, held-set true s.leases i l gone g);
        exclusive = λ x. cc;
        waiting = c.waiting;
        shown = Shows-set s.manager.snapshot s.leases i gone c.shown (λ a b. cc);
      })
      | inr (inr (r, w, h, e)) ↦ rw e (record {
        readers = ground (arith, c.readers, held-set false s.leases i l gone g);
        writer = ground (arith, c.writer, held-set true s.leases i l gone g);
        exclusive = λ x. ground (arith, c.exclusive x);
        waiting = c.waiting;
        shown = Shows-set s.manager.snapshot s.leases i gone c.shown (λ a b. cc);
      })
    ]

pub update_cases :
    (l : WorkspaceLease) (root : String) (m : WorkspaceLeaseManager)
    → ((update l root m).1 ≡ m)
      ⊎ ((m.writer ≡ true)
          × ((update l root m).1
              ≡ record m { snapshot = record { root = root; revision = m.snapshot.revision + 1 } }))
unfolding update
update_cases l root m = ground arith

update-IsConsistent :
    (root : String) (l : WorkspaceLease) {s : System}
    → IsConsistent s
    → IsConsistent (update_at root (some l) s)
unfolding update_at
update-IsConsistent root l {s} c = elim (update_cases l root s.manager) [
  | inl e ↦ rw e c
  | inr (w, e) ↦ rw e (record {
    readers = c.readers;
    writer = c.writer;
    exclusive = c.exclusive;
    waiting = c.waiting;
    shown =
        Shows-none (record { root = root; revision = s.manager.snapshot.revision + 1 }) s.leases
          (omega (arith, c.readers, c.exclusive w));
  })
]

-- A bump that gets its write lease at once leaves the manager as it was, one revision further.
pub bump_cases :
    (m : WorkspaceLeaseManager) (s : System)
    → s.manager ≡ m
    → (after_bump s (write m) ≡ s)
      ⊎ (after_bump s (write m) ≡ record s {
        manager = record m { waiting_writers = m.waiting_writers + 1 };
        waiting = s.waiting + 1;
      })
      ⊎ ((m.writer ≡ false)
          × (m.readers ≡ 0)
          × (after_bump s (write m) ≡ record s {
            manager = record m {
              snapshot = record { root = m.snapshot.root; revision = m.snapshot.revision + 1 };
            };
          }))
unfolding write bump_with
bump_cases m s e = ground arith

bump-IsConsistent : {s : System} → IsConsistent s → IsConsistent (after_bump s (write s.manager))
bump-IsConsistent {s} c = elim (bump_cases s.manager s refl) [
  | inl e ↦ rw e c
  | inr (inl e) ↦ rw e (record {
    readers = c.readers;
    writer = c.writer;
    exclusive = c.exclusive;
    waiting = omega (arith, c.waiting);
    shown = c.shown;
  })
  | inr (inr (w, r, e)) ↦ rw e (record {
    readers = c.readers;
    writer = c.writer;
    exclusive = c.exclusive;
    waiting = c.waiting;
    shown =
        Shows-none
          (record { root = s.manager.snapshot.root; revision = s.manager.snapshot.revision + 1 })
          s.leases (omega (arith, c.readers));
  })
]

abandon-IsConsistent :
    {s : System}
    → IsConsistent s
    → IsConsistent (record s { manager = abandon_write s.manager; waiting = s.waiting - 1 })
unfolding abandon_write
abandon-IsConsistent c = record {
  readers = c.readers;
  writer = c.writer;
  exclusive = c.exclusive;
  waiting = omega (arith, c.waiting);
  shown = c.shown;
}

if-IsConsistent :
    (b : Bool) {s t : System} → IsConsistent s → IsConsistent t → IsConsistent (if b then s else t)
if-IsConsistent true x y = x
if-IsConsistent false x y = y

at-IsConsistent :
    (f : Option WorkspaceLease → System) (o : Option WorkspaceLease)
    → IsConsistent (f none)
    → ((l : WorkspaceLease) → o ≡ some l → IsConsistent (f (some l)))
    → IsConsistent (f o)
at-IsConsistent f none n h = n
at-IsConsistent f (some l) n h = h l refl

-- Every action keeps the counters in step with the leases.
pub act-IsConsistent : (a : Action) {s : System} → IsConsistent s → IsConsistent (act a s)
unfolding act
act-IsConsistent read_action c = read-IsConsistent c
act-IsConsistent write_action c = write-IsConsistent c
act-IsConsistent wake_writer {s} c =
    if-IsConsistent (ltb 0 s.waiting)
      (try_write-IsConsistent s.manager s.waiting s c.readers c.writer c.exclusive c.waiting
        c.shown)
      c
act-IsConsistent abandon_writer {s} c = if-IsConsistent (ltb 0 s.waiting) (abandon-IsConsistent c) c
act-IsConsistent close_action c = record {
  readers = c.readers;
  writer = c.writer;
  exclusive = c.exclusive;
  waiting = c.waiting;
  shown = c.shown;
}
act-IsConsistent (release_action i) {s} c =
    at-IsConsistent (λ o. release_at i o s) (get_elem? s.leases i) c
      (λ l g. release-IsConsistent i l c g)
act-IsConsistent (update_action i root) {s} c =
    at-IsConsistent (λ o. update_at root o s) (get_elem? s.leases i) c
      (λ l g. update-IsConsistent root l c)
act-IsConsistent bump_action c = bump-IsConsistent c

pub run-IsConsistent : (as' : List Action) {s : System} → IsConsistent s → IsConsistent (run as' s)
unfolding run
run-IsConsistent [] c = c
run-IsConsistent (a ∷ as') {s} c = run-IsConsistent as' {s = act a s} (act-IsConsistent a c)

pub new-IsConsistent : (root : String) (revision : ℕ) → IsConsistent (new_system root revision)
new-IsConsistent root revision = record {
  readers = refl;
  writer = refl;
  exclusive = λ e. refl;
  waiting = refl;
  shown = tt;
}

-- However reads, writes, waits, wakes, cancellations, updates, releases and a close interleave, at most
-- one lease is held for writing, and while one is, none is held for reading.
pub writers_exclude :
    (as' : List Action) (root : String) (revision : ℕ)
    → let s = run as' (new_system root revision) in
      (held true s.leases ≤ 1) × (0 < held true s.leases → held false s.leases ≡ 0)
writers_exclude as' root revision =
    let c = run-IsConsistent as' (new-IsConsistent root revision) in
    let s = run as' (new_system root revision) in
    (ground (arith, c.writer), λ h. ground (arith, c.writer, c.readers, c.exclusive))
