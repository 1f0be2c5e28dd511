-- ===== src/Snapshots/Deleted.antt =====
-- backend/internal/api/router.go: the snapshot manager with the workload manager as its resolver, and what
-- that makes of the snapshots of a workload that is deleted.
use mystic_hypervisor.Prelude.Maps.{get}
use mystic_hypervisor.Prelude.{
  ℕ, ◌≡◌, inl, inr, refl, ap, ◌∙◌, Option, none, some, String, Bool, ◌==◌, string_eq, if_elim,
  Option-cases, if◌then◌else◌,
}
use mystic_hypervisor.Snapshots.Manager.Book.{book}
use mystic_hypervisor.Snapshots.Manager.Changes.{create_snapshot, delete_snapshot, restore_snapshot}
use mystic_hypervisor.Snapshots.Manager.{
  Manager, SnapshotError, ok, err, checked, get_snapshot, invalid_snapshot_name, list_snapshots,
  resolve_instance_name, resolved, workload_not_found,
}
use mystic_hypervisor.Snapshots.Name.{validate_snapshot_name}
use mystic_hypervisor.Snapshots.{Snapshot}
use mystic_hypervisor.Text.{trim_space}
use mystic_hypervisor.Workloads.Manager as Workloads
use mystic_hypervisor.Workloads.Manager.Deletion.{delete_workload}
use mystic_hypervisor.Workloads.Manager.Removal.{IsFiled, delete_workload-Outcome}
use mystic_hypervisor.Workloads.Manager.{Provider, World, resolve_workload_instance}
use mystic_hypervisor.Workloads.Workload.{Workload}

-- The workload manager as a resolver.
unfoldable pub resolver_of : Workloads.Manager → String → Option String
resolver_of m id = elim (resolve_workload_instance id m) [
  | Workloads.ok name ↦ some name
  | Workloads.err e ↦ none
]

unresolved :
    (id : String) (w : Workloads.Manager) (s : Manager)
    → get id w.workloads ≡ none
    → trim_space id ≡ id
    → s.resolver ≡ some (resolver_of w)
    → resolve_instance_name id s ≡ err workload_not_found
unfolding resolve_instance_name resolver_of resolve_workload_instance
unresolved id w s gone plain wired =
    if_elim (λ r. r ≡ err workload_not_found) (trim_space id == "") _ _ (λ _. refl)
      (λ _.
        ap (λ r. resolved r (trim_space id)) wired
        ∙ ap (λ x. resolved (some (resolver_of w)) x) plain
        ∙ ap
            (λ (o : Option String). elim o [
              | none ↦ err workload_not_found
              | some name ↦ ok (if name == "" then id else name)
            ])
            unknown)
  where
    unknown : resolver_of w id ≡ none
    unknown = rw (resolver_of, resolve_workload_instance, gone) refl

-- A method of the snapshot manager on a workload that does not resolve.
pub record Refused (saved : Bool) (id name : String) (s : Manager) : Type 0 where
  pub error : SnapshotError
  pub create :
      (now : ℕ) (stateful : Bool) (description : String)
      → create_snapshot now saved id name stateful description s ≡ (err error, s)
  pub restore : restore_snapshot saved id name s ≡ (err error, s)
  pub delete : delete_snapshot saved id name s ≡ (err error, s)
  pub list : list_snapshots id s ≡ err workload_not_found

refused :
    (saved : Bool) (id name : String) (s : Manager)
    → resolve_instance_name id s ≡ err workload_not_found
    → Refused saved id name s
unfolding checked create_snapshot restore_snapshot delete_snapshot list_snapshots
refused saved id name s lost = elim (Option-cases (validate_snapshot_name name)) [
  | inl v ↦ record {
    error = workload_not_found;
    create = λ now stateful description. rw (create_snapshot, checked, v, lost) refl;
    restore = rw (restore_snapshot, checked, v, lost) refl;
    delete = rw (delete_snapshot, checked, v, lost) refl;
    list = rw (list_snapshots, lost) refl;
  }
  | inr (f, v) ↦ record {
    error = invalid_snapshot_name f;
    create = λ now stateful description. rw (create_snapshot, checked, v) refl;
    restore = rw (restore_snapshot, checked, v) refl;
    delete = rw (delete_snapshot, checked, v) refl;
    list = rw (list_snapshots, lost) refl;
  }
]

-- The snapshot manager resolves its workloads with the workload manager, and a workload, whose identity
-- has no white space at its ends and whose exposures stand under their ids, is deleted without an
-- error. Then its snapshots can no more be created, restored, listed or deleted: the methods fail and
-- change nothing. But a record that was kept of one stays, and GetSnapshot still returns it.
pub delete_workload-Refused :
    (world : World) (p : Provider) (id : String) (w : Workload) (m : Workloads.Manager)
    (saved : Bool) (name : String) (kept : Snapshot) (s : Manager)
    → IsFiled m.attached.exposures.exposures
    → get id m.workloads ≡ some w
    → (delete_workload world p id m).0 ≡ none
    → trim_space id ≡ id
    → s.resolver ≡ some (resolver_of (delete_workload world p id m).1)
    → validate_snapshot_name name ≡ none
    → book s.snapshots id name ≡ some kept
    → Refused saved id name s × (get_snapshot id name s ≡ ok kept)
unfolding get_snapshot checked
delete_workload-Refused world p id w m saved name kept s filed here gone plain wired valid there = (
  refused saved id name s (unresolved id _ s removed plain wired),
  rw (get_snapshot, checked, valid, there) refl,
)
  where
    removed : get id (delete_workload world p id m).1.workloads ≡ none
    removed = elim (delete_workload-Outcome world p id w m filed here) [
      | inl (_, e, _) ↦ cc (e, gone)
      | inr (inl (_, _, _, e, _)) ↦ cc (e, gone)
      | inr (inr (_, _, _, r)) ↦ r.workload
    ]
