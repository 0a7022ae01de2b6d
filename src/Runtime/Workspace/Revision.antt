-- ===== src/Runtime/Workspace/Revision.antt =====
-- How the revision moves.
use py_tui_kairo.Common.{
  ℕ, ◌+◌, ◌≤◌, ◌<◌, ◌≡◌, ◌⊎◌, inl, inr, refl, sym, ap, ◌∙◌, Option, none, some, List, [], ◌∷◌,
  String, arith, get_elem?, Bool-cases, ltb,
}
use py_tui_kairo.Runtime.Workspace.{
  WorkspaceSnapshot, WorkspaceLease, WorkspaceLeaseManager, System, read, try_write, write,
  abandon_write, update, release, release_at, update_at, Action, read_action, write_action,
  wake_writer, abandon_writer, close_action, release_action, update_action, bump_action,
  after_write, act, run,
}
use py_tui_kairo.Runtime.Workspace.Exclusion.{bump_cases}

snapshot-release :
    (l : WorkspaceLease) (m : WorkspaceLeaseManager) → (release l m).2.snapshot ≡ m.snapshot
unfolding release
snapshot-release l m = ground arith

-- The manager moved on to a later revision, or shows the same snapshot.
abbrev MovesOn : WorkspaceSnapshot → WorkspaceSnapshot → Type 0
MovesOn n k = (n.revision < k.revision) ⊎ (k ≡ n)

update-MovesOn :
    (l : WorkspaceLease) (root : String) (m : WorkspaceLeaseManager)
    → MovesOn m.snapshot (update l root m).1.snapshot
unfolding update
update-MovesOn l root m = ground arith

after_write-MovesOn :
    (m : WorkspaceLeaseManager) (n : ℕ) (s : System)
    → MovesOn m.snapshot (after_write s n (try_write m)).manager.snapshot
unfolding try_write
after_write-MovesOn m n s = ground arith

release_at-MovesOn :
    (i : ℕ) (o : Option WorkspaceLease) (s : System)
    → MovesOn s.manager.snapshot (release_at i o s).manager.snapshot
unfolding release_at
release_at-MovesOn i none s = inr refl
release_at-MovesOn i (some l) s = inr (snapshot-release l s.manager)

update_at-MovesOn :
    (root : String) (o : Option WorkspaceLease) (s : System)
    → MovesOn s.manager.snapshot (update_at root o s).manager.snapshot
unfolding update_at
update_at-MovesOn root none s = inr refl
update_at-MovesOn root (some l) s = update-MovesOn l root s.manager

act-MovesOn : (a : Action) (s : System) → MovesOn s.manager.snapshot (act a s).manager.snapshot
unfolding act
act-MovesOn read_action s = unfold read in ground arith
act-MovesOn write_action s =
    unfold write in
    after_write-MovesOn (record s.manager { waiting_writers = s.manager.waiting_writers + 1 })
      (s.waiting + 1) s
act-MovesOn wake_writer s = elim (Bool-cases (ltb 0 s.waiting)) [
  | inl e ↦ rw e (after_write-MovesOn s.manager s.waiting s)
  | inr e ↦ rw e (inr refl)
]
act-MovesOn abandon_writer s = unfold abandon_write in ground arith
act-MovesOn close_action s = inr refl
act-MovesOn (release_action i) s = release_at-MovesOn i (get_elem? s.leases i) s
act-MovesOn (update_action i root) s = update_at-MovesOn root (get_elem? s.leases i) s
act-MovesOn bump_action s = elim (bump_cases s.manager s refl) [
  | inl e ↦ inr (rw e)
  | inr (inl e) ↦ inr (rw e)
  | inr (inr (w, r, e)) ↦ rw e (inl (omega arith))
]

-- The revision names the workspace: however the tasks act, the revision never falls, and as long as it
-- is the same the root is the same.
pub revision_names_root :
    (as' : List Action) (s : System)
    → (s.manager.snapshot.revision ≤ (run as' s).manager.snapshot.revision)
      × ((run as' s).manager.snapshot.revision ≡ s.manager.snapshot.revision
          → (run as' s).manager.snapshot.root ≡ s.manager.snapshot.root)
unfolding run
revision_names_root [] s = (omega arith, λ e. refl)
revision_names_root (a ∷ as') s =
    let (up, same) = revision_names_root as' (act a s) in
    elim (act-MovesOn a s) [
      | inl more ↦ (omega arith, λ e. absurd (omega arith))
      | inr e ↦ (
        omega (arith, up, ap (λ (n : WorkspaceSnapshot). n.revision) e),
        λ h.
            same (h ∙ sym (ap (λ (n : WorkspaceSnapshot). n.revision) e))
            ∙ ap (λ (n : WorkspaceSnapshot). n.root) e,
      )
    ]
