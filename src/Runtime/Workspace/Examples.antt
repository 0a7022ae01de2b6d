-- ===== src/Runtime/Workspace/Examples.antt =====
-- Two readers, a writer that waits and is woken, and a bump.
use py_tui_kairo.Common.{
  ◌<◌, ◌≤◌, ◌≡◌, ◌≢◌, ◌↔◌, ◌⊎◌, refl, true, false, some, List, [], ◌∷◌, get_elem?,
}
use py_tui_kairo.Runtime.Workspace.{
  WorkspaceLease, release, raised, returned, System, new_system, waits, read, write, try_write,
  attempt, notified, Action, read_action, write_action, wake_writer, update_action, release_action,
  bump_action, act, run,
}
use py_tui_kairo.Runtime.Workspace.Leases.{held}
use py_tui_kairo.Runtime.Workspace.Exclusion.{run-IsConsistent, new-IsConsistent, writers_exclude}
use py_tui_kairo.Runtime.Workspace.Stability.{reader_snapshot_stable, release_never_raises}
use py_tui_kairo.Runtime.Workspace.Progress.{no_lost_wakeup}
use py_tui_kairo.Runtime.Workspace.Revision.{revision_names_root}

abbrev script : List Action
script =
    read_action
    ∷ write_action
    ∷ read_action
    ∷ release_action 0
    ∷ wake_writer
    ∷ update_action 1 "/b"
    ∷ []

abbrev after_script : System
after_script = run script (new_system "/a" 1)

script_result :
    (after_script.manager.snapshot.revision ≡ 2)
    × (held true after_script.leases ≡ 1)
    × (held false after_script.leases ≡ 0)
    × (after_script.waiting ≡ 0)
unfolding run act
script_result = (refl, refl, refl, refl)

writers_exclude_example :
    (held true after_script.leases ≤ 1)
    × (0 < held true after_script.leases → held false after_script.leases ≡ 0)
writers_exclude_example = writers_exclude script "/a" 1

abbrev reading : System
reading = run (read_action ∷ []) (new_system "/a" 1)

abbrev read_lease : WorkspaceLease
read_lease = record {
  write = false;
  snapshot = record { root = "/a"; revision = 1 };
  released = false;
}

reading_lease : get_elem? reading.leases 0 ≡ some read_lease
unfolding run act
reading_lease = refl

reader_snapshot_stable_example :
    ((run (write_action ∷ bump_action ∷ wake_writer ∷ []) reading).manager.snapshot
      ≡ read_lease.snapshot)
    × (reading.manager.snapshot ≡ read_lease.snapshot)
reader_snapshot_stable_example =
    reader_snapshot_stable 0 (write_action ∷ bump_action ∷ wake_writer ∷ []) reading read_lease
      (run-IsConsistent (read_action ∷ []) (new-IsConsistent "/a" 1)) reading_lease refl refl
      (tt, (tt, (tt, tt)))

-- A writer waits for the reader, which leaves.
abbrev one_reader : System
one_reader = run (read_action ∷ write_action ∷ []) (new_system "/a" 1)

writer_waits : attempt true one_reader.manager ≡ waits
unfolding run act read write try_write
writer_waits = refl

abbrev written : WorkspaceLease
written = record { write = true; snapshot = record { root = "/a"; revision = 1 }; released = false }

written_given : get_elem? after_script.leases 1 ≡ some written
unfolding run act
written_given = refl

release_never_raises_example :
    ((release written after_script.manager).0 ≢ raised)
    × (((release written after_script.manager).0 ≡ returned true) ↔ (written.released ≡ false))
release_never_raises_example = release_never_raises script "/a" 1 1 written written_given

no_lost_wakeup_example :
    (notified (read_action ∷ release_action 0 ∷ []) one_reader ≡ true)
    ⊎ (attempt true (run (read_action ∷ release_action 0 ∷ []) one_reader).manager ≡ waits)
no_lost_wakeup_example =
    no_lost_wakeup true (read_action ∷ release_action 0 ∷ []) one_reader writer_waits

revision_names_root_example :
    (1 ≤ (run script (new_system "/a" 1)).manager.snapshot.revision)
    × ((run script (new_system "/a" 1)).manager.snapshot.revision ≡ 1
        → (run script (new_system "/a" 1)).manager.snapshot.root
          ≡ (new_system "/a" 1).manager.snapshot.root)
revision_names_root_example = revision_names_root script (new_system "/a" 1)
