-- ===== src/Workloads/Manager/Reconciliation.antt =====
-- backend/internal/workloads/manager.go: ReconcileWorkload, ReconcileAll and the start-up.
use mystic_hypervisor.Instances.Reconciler.{
  InstanceMetadata, ReconciledInstance, gibibyte, mebibyte, reconcile,
}
use mystic_hypervisor.Instances.{SyncStatus, out_of_sync, provider_missing}
use mystic_hypervisor.Networking.Exposure.{or_text}
use mystic_hypervisor.Networking.ExposureManager as ExposureManager
use mystic_hypervisor.Networking.ExposureManager.{migrate_forwarding_rules}
use mystic_hypervisor.Networking.SshAllocator.Discovery.{reconcile_from_provider_instances}
use mystic_hypervisor.Prelude.Int.{mul_int}
use mystic_hypervisor.Prelude.Maps.{GoMap, get, put, values}
use mystic_hypervisor.Prelude.{
  ℕ, Option, none, some, String, Bool, ◌||◌, string_eq, List, [], ◌∷◌, if◌then◌else◌,
}
use mystic_hypervisor.Providers.{Instance, InstanceState, InstanceType}
use mystic_hypervisor.Store.{Store}
use mystic_hypervisor.Workloads.Execution.{OwnershipStatus, check_ownership}
use mystic_hypervisor.Workloads.Manager.Access.{reconcile_ssh_access_info}
use mystic_hypervisor.Workloads.Manager.{
  Attached, Manager, Provider, Result, World, WorkloadError, ok, err, instance_of, listing_failed,
  workload_not_found, save_store, set_workload,
}
use mystic_hypervisor.Workloads.Workload.{
  ErrorDetails, Workload, WorkloadStatus, is_draft, is_provisioning, is_unknown, type_text,
}

-- The metadata that the reconciler compares with the instance; the other fields are zero.
unfoldable pub metadata_of : Workload → InstanceMetadata
metadata_of w = record {
  id = w.id;
  name = w.name;
  type = InstanceType.other (type_text w.type);
  desired_state = w.desired_state;
  cpu_cores = w.cpu;
  memory_bytes = mul_int w.memory_mb mebibyte;
  disk_bytes = mul_int w.storage_gb gibibyte;
  owner_id = "";
  node = "";
  tags = [];
  created_at = none;
  updated_at = none;
}

-- The status that follows from a reconciliation; with another state it stays.
abbrev pub settled : SyncStatus → InstanceState → WorkloadStatus → WorkloadStatus
settled out_of_sync state old = WorkloadStatus.drifted
settled provider_missing state old = WorkloadStatus.orphaned
settled _ InstanceState.running old = WorkloadStatus.running
settled _ InstanceState.stopped old = WorkloadStatus.stopped
settled _ _ old = old

-- `if inst.IPAddress != "" { w.NetworkConfig.PrivateIPv4 = inst.IPAddress }`, for an instance that is
-- there.
abbrev pub readdressed : Option Instance → Workload → Workload
readdressed none w = w
readdressed (some inst) w = record w {
  network_config = record (w.network_config) {
    private_ipv4 = or_text inst.ip_address w.network_config.private_ipv4;
  };
}

-- What the reconciler's answer makes of the workload. A reconciliation of metadata always answers.
abbrev pub synced : World → Option ReconciledInstance → Workload → Workload
synced world none w = w
synced world (some r) w = record w {
  actual_state = r.authoritative_state;
  sync_status = r.sync_status;
  last_provider_sync = world.stamp;
  status = settled r.sync_status r.authoritative_state w.status;
}

unfoldable pub observed : World → Option Instance → Workload → Workload
observed world live w = readdressed live (synced world (reconcile (some (metadata_of w)) live) w)

-- `if liveInst.State == StateRunning { … } else { … }`
abbrev pub running_or_stopped : InstanceState → WorkloadStatus
running_or_stopped InstanceState.running = WorkloadStatus.running
running_or_stopped _ = WorkloadStatus.stopped

-- The recovery of a workload that has an instance, by who owns that.
unfoldable pub recovered_as : OwnershipStatus → Instance → Workload → Workload
recovered_as OwnershipStatus.mystic_owned inst w =
    readdressed (some inst)
      (record w { actual_state = inst.state; status = running_or_stopped inst.state })
recovered_as OwnershipStatus.external inst w = record w {
  status = WorkloadStatus.failed;
  error_details = ErrorDetails.belongs_to_external;
}
recovered_as OwnershipStatus.unknown inst w = w

-- The recovery of a workload whose provisioning is under way or of unknown outcome.
unfoldable pub recovered : Option Instance → Workload → Workload
recovered none w = record w {
  status = WorkloadStatus.failed;
  error_details = ErrorDetails.confirmed_absent;
}
recovered (some inst) w = recovered_as (check_ownership (some inst) w.id) inst w

-- ReconcileWorkload, with what the provider answered.
unfoldable pub reconcile_with : World → Option Instance → String → Workload → Manager → Manager
reconcile_with world live id w m =
    if is_unknown w.status || is_provisioning w.status
    then save_store world.saved
        (set_workload id (record (recovered live w) { last_provider_sync = world.stamp }) m)
    else let (v, at) = reconcile_ssh_access_info world (observed world live w) m.attached in
      save_store world.saved (set_workload id v (record m { attached = at }))

-- An error of GetInstance counts as no instance.
abbrev pub live_instance : Provider → String → Option Instance
live_instance p name = if p.attached then instance_of (p.get_instance name) else none

-- The result of the success is the object in the map.
unfoldable pub reconcile_workload : World → Provider → String → Manager → Result Workload × Manager
reconcile_workload world p id m = elim (get id m.workloads) [
  | none ↦ (err workload_not_found, m)
  | some w ↦
      let n = reconcile_with world (live_instance p w.name) id w m in
      (elim (get id n.workloads) [ none ↦ err workload_not_found | some v ↦ ok v ], n)
]

-- `liveMap[inst.Name] = inst`
unfoldable pub live_map : List Instance → GoMap String Instance → GoMap String Instance
live_map [] live = live
live_map (inst ∷ insts) live = live_map insts (put inst.name inst live)

abbrev pub orphan : World → Workload → Workload
orphan world w = record w {
  actual_state = InstanceState.unknown;
  status = WorkloadStatus.orphaned;
  sync_status = provider_missing;
  last_provider_sync = world.stamp;
}

-- One round of ReconcileAll.
unfoldable pub reconcile_one :
    World → GoMap String Instance → Workload → Attached → Workload × Attached
reconcile_one world live w at =
    if is_draft w.status
    then (w, at)
    else reconcile_ssh_access_info world
        (elim (get (or_text w.provider_instance_id w.name) live) [
          | none ↦ orphan world w
          | some inst ↦ observed world (some inst) w
        ])
        at

unfoldable pub reconcile_each :
    World
    → GoMap String Instance
    → GoMap String Workload
    → Attached
    → GoMap String Workload × Attached
reconcile_each world live [] at = ([], at)
reconcile_each world live ((k, w) ∷ ws) at =
    let (v, at') = reconcile_one world live w at in
    let (vs, last) = reconcile_each world live ws at' in ((k, v) ∷ vs, last)

-- ReconcileAll, with the list that the provider answered.
unfoldable pub reconcile_listed : World → List Instance → Manager → Manager
reconcile_listed world insts m =
    let at = record (m.attached) {
      allocator =
          reconcile_from_provider_instances world.discovered world.env world.now insts
            m.attached.allocator;
    } in
    let (ws, last) = reconcile_each world (live_map insts []) m.workloads at in
    save_store world.saved (record m { workloads = ws; attached = last })

-- The success returns nothing: it is `none` here.
unfoldable pub reconcile_all : World → Provider → Manager → Option WorkloadError × Manager
reconcile_all world p m =
    if p.attached
    then elim p.list_instances [
      | none ↦ (some listing_failed, m)
      | some insts ↦ (none, reconcile_listed world insts m)
    ]
    else (none, m)

-- The loop of the start-up over the workloads that were loaded. `saved` says which Saves succeed.
unfoldable pub migrate_each :
    ℕ → (String → Bool) → List Workload → ExposureManager.Manager → ExposureManager.Manager
migrate_each now saved [] em = em
migrate_each now saved (w ∷ ws) em =
    migrate_each now saved ws
      (migrate_forwarding_rules (saved w.id) now w.id w.name w.network_config.exposure_mode
        w.network_config.forwarding_rules em).1

-- NewManagerWithProviderAndStore, with the managers that it makes. `loads` says whether Load succeeds:
-- if it fails, nothing is reconciled and nothing is saved.
unfoldable pub new_manager :
    World → (String → Bool) → Provider → Bool → Store Workload → Attached → Manager
new_manager world migrated p loads store at =
    let empty : Manager = record {
      workloads = [];
      plans = [];
      guard = [];
      store = store;
      attached = at;
      requests = [];
    } in
    elim store [
      | none ↦ (reconcile_all world p empty).1
      | some stored ↦
          if loads
          then (reconcile_all world p (record empty {
            workloads = stored;
            attached = record at {
              exposures = migrate_each world.now migrated (values stored) at.exposures;
            };
          })).1
          else empty
    ]
