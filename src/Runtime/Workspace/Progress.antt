-- ===== src/Runtime/Workspace/Progress.antt =====
-- No task sleeps through what it waits for.
use py_tui_kairo.Common.{
  ℕ, ◌+◌, ◌≡◌, ◌⊎◌, inl, inr, refl, sym, subst, Bool, true, false, ◌&&◌, Option, none, some, List,
  [], ◌∷◌, String, arith, ltb, Bool-cases, get_elem?, if◌then◌else◌,
}
use py_tui_kairo.Runtime.Workspace.{
  WorkspaceLease, WorkspaceLeaseManager, System, waits, read, try_write, write, update, release,
  release_at, update_at, attempt, write_notifies, release_notifies, lease_notifies, notifies,
  notified, Action, read_action, write_action, wake_writer, abandon_writer, close_action,
  release_action, update_action, bump_action, after_read, after_write, act, run,
}

-- What an attempt of `read` or of `write` waits for.
abbrev Blocked : Bool → WorkspaceLeaseManager → Type 0
Blocked w m = attempt w m ≡ waits

read_quiet :
    (w : Bool) (s : System)
    → Blocked w s.manager
    → Blocked w (after_read s (read s.manager)).manager
unfolding read try_write
read_quiet w s h = ground arith

try_write_quiet :
    (m : WorkspaceLeaseManager) → write_notifies (try_write m).0 ≡ false → try_write m ≡ (waits, m)
unfolding try_write
try_write_quiet m q = ground arith

waiter_added :
    (w : Bool) (m : WorkspaceLeaseManager)
    → Blocked w m
    → Blocked w (record m { waiting_writers = m.waiting_writers + 1 })
unfolding read try_write
waiter_added w m h = ground arith

update_quiet :
    (w : Bool) (l : WorkspaceLease) (root : String) (m : WorkspaceLeaseManager)
    → Blocked w m
    → Blocked w (update l root m).1
unfolding read try_write update
update_quiet w l root m h = ground arith

release_quiet :
    (l : WorkspaceLease) (m : WorkspaceLeaseManager)
    → release_notifies (release l m).0 ≡ false
    → (release l m).2 ≡ m
unfolding release
release_quiet l m q = ground arith

write_quiet :
    (m : WorkspaceLeaseManager)
    → write_notifies (write m).0 ≡ false
    → write m ≡ (waits, record m { waiting_writers = m.waiting_writers + 1 })
unfolding write
write_quiet m q = try_write_quiet (record m { waiting_writers = m.waiting_writers + 1 }) q

wake_quiet :
    (w : Bool) (s : System)
    → Blocked w s.manager
    → (ltb 0 s.waiting && write_notifies (try_write s.manager).0) ≡ false
    → Blocked w
        (if ltb 0 s.waiting then after_write s s.waiting (try_write s.manager) else s).manager
wake_quiet w s h q = elim (Bool-cases (ltb 0 s.waiting)) [
  | inl e ↦
      let quiet : write_notifies (try_write s.manager).0 ≡ false = ground arith in
      rw (e, try_write_quiet s.manager quiet) h
  | inr e ↦ rw e h
]

release_at_quiet :
    (w : Bool) (i : ℕ) (o : Option WorkspaceLease) (s : System)
    → Blocked w s.manager
    → lease_notifies o s.manager ≡ false
    → Blocked w (release_at i o s).manager
unfolding release_at lease_notifies
release_at_quiet w i none s h q = h
release_at_quiet w i (some l) s h q = subst (Blocked w) (sym (release_quiet l s.manager q)) h

update_at_quiet :
    (w : Bool) (root : String) (o : Option WorkspaceLease) (s : System)
    → Blocked w s.manager
    → Blocked w (update_at root o s).manager
unfolding update_at
update_at_quiet w root none s h = h
update_at_quiet w root (some l) s h = update_quiet w l root s.manager h

-- An action that notifies nobody leaves a blocked attempt blocked.
act_quiet :
    (w : Bool) (a : Action) (s : System)
    → Blocked w s.manager
    → notifies a s ≡ false
    → Blocked w (act a s).manager
unfolding act notifies
act_quiet w read_action s h q = read_quiet w s h
act_quiet w write_action s h q = rw (write_quiet s.manager q) (waiter_added w s.manager h)
act_quiet w wake_writer s h q = wake_quiet w s h q
act_quiet w abandon_writer s h q = ground arith
act_quiet w close_action s h q = cc
act_quiet w (release_action i) s h q = release_at_quiet w i (get_elem? s.leases i) s h q
act_quiet w (update_action i root) s h q = update_at_quiet w root (get_elem? s.leases i) s h
act_quiet w bump_action s h q = rw (write_quiet s.manager q) (waiter_added w s.manager h)

-- A task that waits in `read` or in `write` waits with good reason until it is woken: whatever the other tasks do, either
-- `notify_all` runs in one of their actions, or an attempt of the waiting task would still wait after them.
pub no_lost_wakeup :
    (to_write : Bool) (as' : List Action) (s : System)
    → attempt to_write s.manager ≡ waits
    → (notified as' s ≡ true) ⊎ (attempt to_write (run as' s).manager ≡ waits)
unfolding notified run
no_lost_wakeup w [] s h = inr h
no_lost_wakeup w (a ∷ as') s h = elim (Bool-cases (notifies a s)) [
  | inl n ↦ inl (rw n refl)
  | inr q ↦ rw q (no_lost_wakeup w as' (act a s) (act_quiet w a s h q))
]
