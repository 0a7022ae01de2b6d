-- ===== src/Runtime/Workspace/Stability.antt =====
-- What a held lease guarantees: the identity of the workspace, and a release that returns.
use py_tui_kairo.Common.{
  ℕ, ◌+◌, ◌≡◌, ◌≢◌, ◌↔◌, ◌⊎◌, inl, inr, refl, sym, ◌∙◌, true, false, Option, none, some, List, [],
  ◌∷◌, ◌++◌, String, arith, get_elem?, get_elem?-append, get_elem?-set_ne, All, Bool-cases, ltb,
}
use py_tui_kairo.Runtime.Workspace.{
  WorkspaceLease, WorkspaceLeaseManager, System, new_system, read, try_write, write, release,
  release_at, update_at, raised, returned, Action, read_action, write_action, wake_writer,
  abandon_writer, close_action, release_action, update_action, bump_action, after_read, after_write,
  after_bump, act, run,
}
use py_tui_kairo.Runtime.Workspace.Leases.{Shows-get}
use py_tui_kairo.Runtime.Workspace.Exclusion.{
  IsConsistent, read_cases, try_write_cases, bump_cases, release_outcome, run-IsConsistent,
  new-IsConsistent,
}

-- The action is not the release of lease `i`.
abbrev pub Keeps : ℕ → Action → Type 0
Keeps i (release_action j) = j ≢ i
Keeps i _ = Unit

leases-write :
    (m : WorkspaceLeaseManager) (n : ℕ) (s : System)
    → ((after_write s n (try_write m)).leases ≡ s.leases)
      ⊎ ((l : WorkspaceLease) × ((after_write s n (try_write m)).leases ≡ s.leases ++ l ∷ []))
leases-write m n s = elim (try_write_cases m) [
  | inl e ↦ inl (rw e)
  | inr (inl e) ↦ inl (rw e)
  | inr (inr (w, r, o, e)) ↦
      inr (record { write = true; snapshot = m.snapshot; released = false }, rw e refl)
]

leases-read :
    (s : System)
    → ((after_read s (read s.manager)).leases ≡ s.leases)
      ⊎ ((l : WorkspaceLease) × ((after_read s (read s.manager)).leases ≡ s.leases ++ l ∷ []))
leases-read s = elim (read_cases s.manager) [
  | inl e ↦ inl (rw e)
  | inr (inl e) ↦ inl (rw e)
  | inr (inr (w, o, e)) ↦
      inr (record { write = false; snapshot = s.manager.snapshot; released = false }, rw e refl)
]

leases-bump : (s : System) → (after_bump s (write s.manager)).leases ≡ s.leases
leases-bump s = elim (bump_cases s.manager s refl) [
  | inl e ↦ rw e
  | inr (inl e) ↦ rw e
  | inr (inr (w, r, e)) ↦ rw e
]

grown :
    (ls ks : List WorkspaceLease) (i : ℕ) (l : WorkspaceLease)
    → get_elem? ls i ≡ some l
    → (ks ≡ ls) ⊎ ((k : WorkspaceLease) × (ks ≡ ls ++ k ∷ []))
    → get_elem? ks i ≡ some l
grown ls ks i l g (inl e) = rw e g
grown ls ks i l g (inr (k, e)) = rw e (get_elem?-append ls (k ∷ []) i l g)

release-Keeps :
    (i j : ℕ) (s : System) (o : Option WorkspaceLease) (l : WorkspaceLease)
    → j ≢ i
    → get_elem? s.leases i ≡ some l
    → get_elem? (release_at j o s).leases i ≡ some l
unfolding release_at
release-Keeps i j s none l n g = g
release-Keeps i j s (some k) l n g = get_elem?-set_ne s.leases j i (release k s.manager).1 n ∙ g

update-Keeps :
    (i : ℕ) (root : String) (s : System) (o : Option WorkspaceLease) (l : WorkspaceLease)
    → get_elem? s.leases i ≡ some l
    → get_elem? (update_at root o s).leases i ≡ some l
unfolding update_at
update-Keeps i root s none l g = g
update-Keeps i root s (some k) l g = g

act-Keeps :
    (i : ℕ) (a : Action) (s : System) (l : WorkspaceLease)
    → Keeps i a
    → get_elem? s.leases i ≡ some l
    → get_elem? (act a s).leases i ≡ some l
unfolding act
act-Keeps i read_action s l k g =
    grown s.leases (after_read s (read s.manager)).leases i l g (leases-read s)
act-Keeps i write_action s l k g =
    let m : WorkspaceLeaseManager = record s.manager {
      waiting_writers = s.manager.waiting_writers + 1;
    } in
    grown s.leases (after_write s (s.waiting + 1) (write s.manager)).leases i l g
      (unfold write in leases-write m (s.waiting + 1) s)
act-Keeps i wake_writer s l k g = elim (Bool-cases (ltb 0 s.waiting)) [
  | inl e ↦ rw e (
      grown s.leases (after_write s s.waiting (try_write s.manager)).leases i l g
        (leases-write s.manager s.waiting s))
  | inr e ↦ rw e g
]
act-Keeps i abandon_writer s l k g = ground arith
act-Keeps i close_action s l k g = g
act-Keeps i (release_action j) s l k g = release-Keeps i j s (get_elem? s.leases j) l k g
act-Keeps i (update_action j root) s l k g = update-Keeps i root s (get_elem? s.leases j) l g
act-Keeps i bump_action s l k g = rw (leases-bump s) g

run-Keeps :
    (i : ℕ) (as' : List Action) (s : System) (l : WorkspaceLease)
    → All (Keeps i) as'
    → get_elem? s.leases i ≡ some l
    → get_elem? (run as' s).leases i ≡ some l
unfolding run
run-Keeps i [] s l k g = g
run-Keeps i (a ∷ as') s l k g = run-Keeps i as' (act a s) l k.1 (act-Keeps i a s l k.0 g)

-- While a read lease is held the workspace keeps its identity: after any actions of any tasks, short
-- of the release of that very lease, the root and the revision of the manager are what the lease shows.
pub reader_snapshot_stable :
    (i : ℕ) (as' : List Action) (s : System) (l : WorkspaceLease)
    → IsConsistent s
    → get_elem? s.leases i ≡ some l
    → l.write ≡ false
    → l.released ≡ false
    → All (Keeps i) as'
    → ((run as' s).manager.snapshot ≡ l.snapshot) × (s.manager.snapshot ≡ l.snapshot)
reader_snapshot_stable i as' s l c g w r k =
    let c' = run-IsConsistent as' c in
    (
      sym (
          Shows-get (run as' s).manager.snapshot (run as' s).leases i l c'.shown
            (run-Keeps i as' s l k g) w r),
      sym (Shows-get s.manager.snapshot s.leases i l c.shown g w r),
    )

-- The two RuntimeErrors of `_release` are never raised: whatever the tasks do, releasing any of the leases that
-- were given returns, with True exactly for the first release of that lease.
pub release_never_raises :
    (as' : List Action) (root : String) (revision i : ℕ) (l : WorkspaceLease)
    → get_elem? (run as' (new_system root revision)).leases i ≡ some l
    → let m = (run as' (new_system root revision)).manager in
      ((release l m).0 ≢ raised) × (((release l m).0 ≡ returned true) ↔ (l.released ≡ false))
release_never_raises as' root revision i l g =
    let s = run as' (new_system root revision) in
    let c = run-IsConsistent as' (new-IsConsistent root revision) in
    elim (release_outcome i l s c g) [
      | inl (r, e) ↦ rw e ((λ x. cc), ((λ x. cc), (λ x. cc)))
      | inr (inl (r, w, h, e)) ↦ rw e ((λ x. cc), ((λ x. r), (λ x. refl)))
      | inr (inr (r, w, h, e)) ↦ rw e ((λ x. cc), ((λ x. r), (λ x. refl)))
    ]
