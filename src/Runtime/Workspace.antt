-- ===== src/Runtime/Workspace.antt =====
-- kairo_kernel/runtime/workspace.py: read and write leases on the workspace. A method awaits only the
-- condition, so each attempt to get a lease is one step: it is made on entry and again whenever the
-- waiting task is woken.
pub mod Leases
pub mod Exclusion
pub mod Stability
pub mod Progress
pub mod Revision
mod Examples
use py_tui_kairo.Common.{
  ℕ, ◌+◌, ◌-◌, Bool, true, false, not, ◌&&◌, ◌||◌, Option, none, some, List, [], ◌∷◌, ◌++◌, String,
  ltb, get_elem?, set, if◌then◌else◌,
}

pub record WorkspaceSnapshot : Type 0 where
  pub root : String
  pub revision : ℕ

-- `write` and `snapshot` are fixed when the lease is given.
pub record WorkspaceLease : Type 0 where
  pub write : Bool
  pub snapshot : WorkspaceSnapshot
  pub released : Bool

pub record WorkspaceLeaseManager : Type 0 where
  pub snapshot : WorkspaceSnapshot
  pub readers : ℕ
  pub writer : Bool
  pub waiting_writers : ℕ
  pub closed : Bool

abbrev pub new_manager : String → ℕ → WorkspaceLeaseManager
new_manager root revision = record {
  snapshot = record { root = root; revision = revision };
  readers = 0;
  writer = false;
  waiting_writers = 0;
  closed = false;
}

-- What an attempt comes to: a lease, another wait, or the RuntimeError of a closed manager.
pub data Attempt : Type 0 where
  granted : WorkspaceLease → Attempt
  waits refused : Attempt

abbrev lease_of : Bool → WorkspaceLeaseManager → WorkspaceLease
lease_of write m = record { write = write; snapshot = m.snapshot; released = false }

-- One pass of the loop of `read`.
unfoldable pub read : WorkspaceLeaseManager → Attempt × WorkspaceLeaseManager
read m =
    if m.closed
    then (refused, m)
    else if m.writer || ltb 0 m.waiting_writers
    then (waits, m)
    else (granted (lease_of false m), record m { readers = m.readers + 1 })

-- One pass of the loop of `write`, with the `finally` block where the loop ends; the task is
-- counted in `waiting_writers` already, so that count is not 0 and `- 1` is exact.
unfoldable pub try_write : WorkspaceLeaseManager → Attempt × WorkspaceLeaseManager
try_write m =
    if m.closed
    then (refused, record m { waiting_writers = m.waiting_writers - 1 })
    else if m.writer || ltb 0 m.readers
    then (waits, m)
    else (
      granted (lease_of true m),
      record m { writer = true; waiting_writers = m.waiting_writers - 1 },
    )

-- `write` up to its first wait or its end.
unfoldable pub write : WorkspaceLeaseManager → Attempt × WorkspaceLeaseManager
unfolding try_write
write m = try_write (record m { waiting_writers = m.waiting_writers + 1 })

-- The task is cancelled while it waits: only the `finally` block runs.
unfoldable pub abandon_write : WorkspaceLeaseManager → WorkspaceLeaseManager
abandon_write m = record m { waiting_writers = m.waiting_writers - 1 }

-- `none` is the RuntimeError "An active write lease is required."
unfoldable pub update :
    WorkspaceLease
    → String
    → WorkspaceLeaseManager
    → Option WorkspaceSnapshot × WorkspaceLeaseManager
update l root m =
    if l.released || not l.write || not m.writer
    then (none, m)
    else let next : WorkspaceSnapshot = record {
      root = root;
      revision = m.snapshot.revision + 1;
    } in
      (some next, record m { snapshot = next })

-- `_release`; `none` is one of its RuntimeErrors.
release_manager : Bool → WorkspaceLeaseManager → Option WorkspaceLeaseManager
release_manager write m =
    if write
    then (if m.writer then some (record m { writer = false }) else none)
    else if ltb m.readers 1
    then none
    else some (record m { readers = m.readers - 1 })

pub data Released : Type 0 where
  returned : Bool → Released
  raised : Released

after_release :
    WorkspaceLease
    → WorkspaceLeaseManager
    → Option WorkspaceLeaseManager
    → Released × WorkspaceLease × WorkspaceLeaseManager
after_release l m none = (raised, l, m)
after_release l m (some m') = (returned true, l, m')

-- `WorkspaceLease.release`: the flag is set before the manager is told.
unfoldable pub release :
    WorkspaceLease → WorkspaceLeaseManager → Released × WorkspaceLease × WorkspaceLeaseManager
unfolding release_manager after_release
release l m =
    if l.released
    then (returned false, l, m)
    else after_release (record l { released = true }) m (release_manager l.write m)

unfoldable pub close : WorkspaceLeaseManager → WorkspaceLeaseManager
close m = record m { closed = true }

-- The rest of `bump_revision` once its write lease is granted; it awaits nothing that can block.
unfoldable pub bump_with : WorkspaceLease → WorkspaceLeaseManager → WorkspaceLeaseManager
unfolding update release
bump_with l m = (release l (update l l.snapshot.root m).1).2

-- The manager, every lease it has given, and how many tasks wait in `write`.
pub record System : Type 0 where
  pub manager : WorkspaceLeaseManager
  pub leases : List WorkspaceLease
  pub waiting : ℕ

-- What the tasks do, in the order in which the event loop runs them.
pub data Action : Type 0 where
  read_action write_action wake_writer abandon_writer close_action : Action
  release_action : ℕ → Action
  update_action : ℕ → String → Action
  bump_action : Action

abbrev after_read : System → Attempt × WorkspaceLeaseManager → System
after_read s (granted l, m) = record s { manager = m; leases = s.leases ++ l ∷ [] }
after_read s (_, m) = record s { manager = m }

-- `n` tasks wait, the one that attempts among them.
abbrev after_write : System → ℕ → Attempt × WorkspaceLeaseManager → System
after_write s n (granted l, m) = record {
  manager = m;
  leases = s.leases ++ l ∷ [];
  waiting = n - 1;
}
after_write s n (waits, m) = record s { manager = m; waiting = n }
after_write s n (refused, m) = record s { manager = m; waiting = n - 1 }

-- A bump that gets its lease at once uses it up; one that must wait is a writer like the others,
-- whose lease is used by an update and a release later.
abbrev after_bump : System → Attempt × WorkspaceLeaseManager → System
after_bump s (granted l, m) = record s { manager = bump_with l m }
after_bump s (waits, m) = record s { manager = m; waiting = s.waiting + 1 }
after_bump s (refused, m) = record s { manager = m }

release_at : ℕ → Option WorkspaceLease → System → System
release_at i none s = s
release_at i (some l) s =
    let (r, l', m) = release l s.manager in record s { manager = m; leases = set s.leases i l' }

update_at : String → Option WorkspaceLease → System → System
update_at root none s = s
update_at root (some l) s = record s { manager = (update l root s.manager).1 }

unfoldable pub act : Action → System → System
unfolding read write release_at update_at close abandon_write bump_with
act read_action s = after_read s (read s.manager)
act write_action s = after_write s (s.waiting + 1) (write s.manager)
act wake_writer s = if ltb 0 s.waiting then after_write s s.waiting (try_write s.manager) else s
act abandon_writer s =
    if ltb 0 s.waiting
    then record s { manager = abandon_write s.manager; waiting = s.waiting - 1 }
    else s
act close_action s = record s { manager = close s.manager }
act (release_action i) s = release_at i (get_elem? s.leases i) s
act (update_action i root) s = update_at root (get_elem? s.leases i) s
act bump_action s = after_bump s (write s.manager)

-- An attempt of `read` or of `write`.
abbrev pub attempt : Bool → WorkspaceLeaseManager → Attempt
attempt to_write m = if to_write then (try_write m).0 else (read m).0

-- The `finally` block of `write` notifies all that wait, however the loop ends.
abbrev pub write_notifies : Attempt → Bool
write_notifies waits = false
write_notifies _ = true

-- So does `_release`, unless the lease was released before or it raises.
abbrev pub release_notifies : Released → Bool
release_notifies (returned done) = done
release_notifies raised = false

lease_notifies : Option WorkspaceLease → WorkspaceLeaseManager → Bool
unfolding release
lease_notifies none m = false
lease_notifies (some l) m = release_notifies (release l m).0

-- Whether `notify_all` runs in an action.
unfoldable pub notifies : Action → System → Bool
unfolding try_write write lease_notifies
notifies read_action s = false
notifies write_action s = write_notifies (write s.manager).0
notifies wake_writer s = ltb 0 s.waiting && write_notifies (try_write s.manager).0
notifies abandon_writer s = ltb 0 s.waiting
notifies close_action s = true
notifies (release_action i) s = lease_notifies (get_elem? s.leases i) s.manager
notifies (update_action i root) s = false
notifies bump_action s = write_notifies (write s.manager).0

unfoldable pub notified : List Action → System → Bool
unfolding notifies
notified [] s = false
notified (a ∷ as') s = let later = notified as' (act a s) in notifies a s || later

unfoldable pub run : List Action → System → System
run [] s = s
run (a ∷ as') s = run as' (act a s)

abbrev pub new_system : String → ℕ → System
new_system root revision = record { manager = new_manager root revision; leases = []; waiting = 0 }
