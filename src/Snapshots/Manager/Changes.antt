-- ===== src/Snapshots/Manager/Changes.antt =====
-- backend/internal/snapshots/manager.go: CreateSnapshot, RestoreSnapshot and DeleteSnapshot.
use mystic_hypervisor.Prelude.Int.{pos}
use mystic_hypervisor.Prelude.Maps.{GoMap, get, put, delete}
use mystic_hypervisor.Prelude.{
  ℕ, Option, none, some, String, Bool, ◌==◌, nat_eq, string_eq, ◌∷◌, if◌then◌else◌,
}
use mystic_hypervisor.Snapshots.Manager.{
  Manager, ProviderSnapshot, Request, Result, SnapshotProvider, ok, err, provider_failed,
  snapshot_exists, checked, creates, deletes, restores, get_snapshot, get_snapshot_provider,
  given_in, resolve_instance_name,
}
use mystic_hypervisor.Snapshots.Name.{make_snapshot_id}
use mystic_hypervisor.Snapshots.{Snapshot}
use mystic_hypervisor.Store.{save}

abbrev pub asked : Request → Manager → Manager
asked r m = record m { requests = r ∷ m.requests }

-- The map is changed and saved; an error of the store is only logged.
abbrev pub keep_snapshots : Bool → GoMap String Snapshot → Manager → Manager
keep_snapshots saved snapshots m = record m {
  snapshots = snapshots;
  store = save saved snapshots m.store;
}

-- The time of the provider's snapshot, or else the present.
abbrev pub creation_time : ℕ → Option ProviderSnapshot → ℕ
creation_time now none = now
creation_time now (some ps) = if ps.created_at == 0 then now else ps.created_at

unfoldable pub new_snapshot :
    ℕ → String → String → String → Bool → String → Option ProviderSnapshot → Snapshot
new_snapshot now workload_id inst name stateful description made = record {
  id = make_snapshot_id workload_id name;
  name = name;
  workload_id = workload_id;
  workload_name = inst;
  stateful = stateful;
  size_bytes = pos 0;
  created_at = creation_time now made;
  status = "ACTIVE";
  description = description;
}

-- The end of CreateSnapshot, by the provider's answer.
unfoldable pub after_creation :
    ℕ
    → Bool
    → String
    → String
    → String
    → Bool
    → String
    → Option (Option ProviderSnapshot)
    → Manager
    → Result Snapshot × Manager
after_creation now saved workload_id inst name stateful description none m =
    (err provider_failed, m)
after_creation now saved workload_id inst name stateful description (some made) m =
    let s = new_snapshot now workload_id inst name stateful description made in
    (ok s, keep_snapshots saved (put s.id s m.snapshots) m)

unfoldable pub create_vacant :
    ℕ → Bool → String → String → String → Bool → String → Manager → Result Snapshot × Manager
create_vacant now saved workload_id inst name stateful description m =
    given_in m (get_snapshot_provider m) (λ p.
      after_creation now saved workload_id inst name stateful description
        (p.create_snapshot inst name stateful) (asked (creates inst name) m))

-- `now` is the clock, and `saved` says whether the store's Save succeeds.
unfoldable pub create_snapshot :
    ℕ → Bool → String → String → Bool → String → Manager → Result Snapshot × Manager
create_snapshot now saved workload_id name stateful description m = given_in m (checked name) (λ _.
    given_in m (resolve_instance_name workload_id m) (λ inst.
      elim (get (make_snapshot_id workload_id name) m.snapshots) [
        | some _ ↦ (err snapshot_exists, m)
        | none ↦ create_vacant now saved workload_id inst name stateful description m
      ]))

-- The record of a restored snapshot, where there is one, has the status ACTIVE.
unfoldable pub mark_active : Bool → String → Manager → Manager
mark_active saved id m = elim (get id m.snapshots) [
  | none ↦ m
  | some s ↦ keep_snapshots saved (put id (record s { status = "ACTIVE" }) m.snapshots) m
]

unfoldable pub restore_with :
    Bool → String → String → Snapshot → SnapshotProvider → Manager → Result Snapshot × Manager
restore_with saved inst name s p m =
    if p.restore_snapshot inst name
    then (ok s, mark_active saved s.id (asked (restores inst name) m))
    else (err provider_failed, asked (restores inst name) m)

unfoldable pub restore_snapshot : Bool → String → String → Manager → Result Snapshot × Manager
restore_snapshot saved workload_id name m = given_in m (checked name) (λ _.
    given_in m (resolve_instance_name workload_id m) (λ inst.
      given_in m (get_snapshot workload_id name m)
        (λ s. given_in m (get_snapshot_provider m) (λ p. restore_with saved inst name s p m))))

unfoldable pub delete_with :
    Bool → String → String → String → SnapshotProvider → Manager → Result String × Manager
delete_with saved id inst name p m =
    let n = asked (deletes inst name) m in
    if p.delete_snapshot inst name
    then (ok id, keep_snapshots saved (delete id n.snapshots) n)
    else (err provider_failed, n)

-- The result of the success is the key, where the code returns nothing.
unfoldable pub delete_snapshot : Bool → String → String → Manager → Result String × Manager
delete_snapshot saved workload_id name m = given_in m (checked name) (λ _.
    given_in m (resolve_instance_name workload_id m) (λ inst.
      given_in m (get_snapshot_provider m)
        (λ p. delete_with saved (make_snapshot_id workload_id name) inst name p m)))
