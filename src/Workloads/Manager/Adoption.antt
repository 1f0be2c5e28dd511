-- ===== src/Workloads/Manager/Adoption.antt =====
-- backend/internal/workloads/manager.go: AdoptWorkload and GetAdoptionPreview.
use mystic_hypervisor.Hosts.{ExposureMode}
use mystic_hypervisor.Instances.Reconciler.{quotient, gibibyte, mebibyte}
use mystic_hypervisor.Instances.{in_sync}
use mystic_hypervisor.Networking.Exposure.{or_text}
use mystic_hypervisor.Prelude.Int.{ℤ, pos, lez}
use mystic_hypervisor.Prelude.Maps.{GoMap, delete}
use mystic_hypervisor.Prelude.{
  none, some, String, Bool, not, ◌==◌, ◌||◌, string_eq, List, [], ◌∷◌, if◌then◌else◌,
}
use mystic_hypervisor.Providers.{Instance, InstanceState, InstanceType}
use mystic_hypervisor.Providers.Preflight.{InstanceOwnership}
use mystic_hypervisor.Store.{saves}
use mystic_hypervisor.Text.{trim_space}
use mystic_hypervisor.Workloads.Execution.{lookup}
use mystic_hypervisor.Workloads.Manager.Creation.{
  file_workload, hashed, network_config, no_request, workload_id,
}
use mystic_hypervisor.Workloads.Manager.{
  Manager, Provider, Result, World, ok, err, name_empty, already_managed, provider_unavailable,
  instance_not_found, query_failed, tagging_failed, found, missing, failing, tags, asked,
  is_managed, save_store,
}
use mystic_hypervisor.Workloads.Workload.{ErrorDetails, Workload, WorkloadStatus, WorkloadType}

-- The identity that the labels keep, or a new one.
unfoldable pub adopted_id : World → GoMap String String → String
adopted_id world labels =
    or_text (lookup "user.mystic.workload_id" labels)
      (or_text (lookup "mystic.workload_id" labels) (workload_id world.nanos))

abbrev pub adopted_status : InstanceState → WorkloadStatus
adopted_status InstanceState.running = WorkloadStatus.running
adopted_status InstanceState.error = WorkloadStatus.failed
adopted_status _ = WorkloadStatus.stopped

abbrev pub adopted_type : InstanceType → WorkloadType
adopted_type InstanceType.vm = WorkloadType.incus_vm
adopted_type _ = WorkloadType.incus_container

-- `if x <= 0 { x = d }`
abbrev pub positive_or : ℤ → ℤ → ℤ
positive_or d x = if lez x (pos 0) then d else x

-- The workload that AdoptWorkload makes of an instance, before its hash is set.
unfoldable pub adopted : World → String → Instance → Workload
adopted world provider inst =
    let id = adopted_id world inst.labels in
    record {
      id = id;
      name = inst.name;
      host_id = "host-local";
      provider = provider;
      provider_instance_id = inst.name;
      type = adopted_type inst.type;
      status = adopted_status inst.state;
      desired_state = inst.state;
      actual_state = inst.state;
      sync_status = in_sync;
      cpu = positive_or (pos 1) inst.limits.cpu_cores;
      memory_mb = positive_or (pos 512) (quotient inst.limits.memory_bytes mebibyte);
      storage_gb = positive_or (pos 10) (quotient inst.limits.disk_bytes gibibyte);
      image = or_text (lookup "image" inst.labels) "adopted-external";
      project = "default";
      profile = "default";
      network_config =
          network_config id inst.name "host-local" "incusbr0" inst.ip_address
            ExposureMode.private_only "";
      port_request = no_request;
      plan_hash = "";
      ssh_access_info = none;
      created_at = world.stamp;
      updated_at = world.stamp;
      last_provider_sync = world.stamp;
      error_details = ErrorDetails.empty;
    }

-- Steps 2 and 3 of the adoption: the instance is tagged, if the provider can, and the store saved again.
-- If the tagging fails the workload is taken out of the map.
unfoldable pub tag_adopted :
    World → Provider → String → Workload → Manager → Result Workload × Manager
tag_adopted world p name w m = elim p.adopts [
  | none ↦ (ok w, save_store world.saved_again m)
  | some tagged ↦
      let n = asked (tags name w.id) m in
      if tagged name w.id then (ok w, save_store world.saved_again n) else (
        err tagging_failed,
        save_store world.saved_again (record n { workloads = delete w.id n.workloads }),
      )
]

-- Step 1: the workload is filed and saved before the instance is touched.
unfoldable pub adopt_instance :
    (String → String) → World → Provider → String → Instance → Manager → Result Workload × Manager
adopt_instance digest world p name inst m =
    let w = hashed digest (adopted world p.name inst) in
    let (r, n) = file_workload world.saved w m in
    if saves world.saved m.store then tag_adopted world p name w n else (r, n)

-- AdoptWorkload of the trimmed name, with the mutex taken.
unfoldable pub adopt_locked :
    (String → String) → World → Provider → String → Manager → Result Workload × Manager
adopt_locked digest world p name m =
    if is_managed name m
    then (err already_managed, m)
    else if not p.attached
    then (err provider_unavailable, m)
    else elim (p.get_instance name) [
      | found inst ↦ adopt_instance digest world p name inst m
      | missing ↦ (err instance_not_found, m)
      | failing ↦ (err query_failed, m)
    ]

unfoldable pub adopt_workload :
    (String → String) → World → Provider → String → Manager → Result Workload × Manager
adopt_workload digest world p given m =
    if trim_space given == ""
    then (err name_empty, m)
    else adopt_locked digest world p (trim_space given) m

pub record AdoptionPreview : Type 0 where
  pub instance_name : String
  pub provider : String
  pub type : InstanceType
  pub state : InstanceState
  pub ip_address : String
  pub cpu_cores : ℤ
  pub memory_bytes : ℤ
  pub storage_gb : ℤ
  pub image : String
  pub network : String
  pub ownership : InstanceOwnership
  pub already_managed : Bool
  pub can_adopt : Bool
  pub blockers : List String
  pub warnings : List String

-- A blocker and a warning are the name of the instance: each list has one text at most.
unfoldable pub preview : Provider → String → Bool → Instance → AdoptionPreview
preview p name managed inst = record {
  instance_name = inst.name;
  provider = p.name;
  type = inst.type;
  state = inst.state;
  ip_address = inst.ip_address;
  cpu_cores = positive_or (pos 1) inst.limits.cpu_cores;
  memory_bytes = positive_or (pos 536870912) inst.limits.memory_bytes;
  storage_gb = positive_or (pos 10) (quotient inst.limits.disk_bytes gibibyte);
  image = or_text (lookup "image" inst.labels) "adopted-external";
  network = "incusbr0";
  ownership = if managed then InstanceOwnership.mystic_owned else InstanceOwnership.external;
  already_managed = managed;
  can_adopt = not managed;
  blockers = if managed then name ∷ [] else [];
  warnings =
      if managed
      then []
      else if lookup "user.mystic.owned" inst.labels == "true"
          || lookup "mystic.owned" inst.labels == "true"
      then name ∷ []
      else [];
}

unfoldable pub get_adoption_preview : Provider → String → Manager → Result AdoptionPreview
get_adoption_preview p given m =
    let name = trim_space given in
    if name == ""
    then err name_empty
    else if not p.attached
    then err provider_unavailable
    else elim (p.get_instance name) [
      | found inst ↦ ok (preview p name (is_managed name m) inst)
      | missing ↦ err instance_not_found
      | failing ↦ err query_failed
    ]
