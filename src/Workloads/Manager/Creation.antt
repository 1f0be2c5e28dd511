-- ===== src/Workloads/Manager/Creation.antt =====
-- backend/internal/workloads/manager.go: CreateWorkload, and ComputePlanHash of execution.go. The hash
-- of a text, SHA-256 cut to eight bytes and printed, is a parameter.
use mystic_hypervisor.Hosts.{ExposureMode, ExposureState, Protocol}
use mystic_hypervisor.Instances.{provider_missing}
use mystic_hypervisor.Networking.Exposure.{or_text}
use mystic_hypervisor.Networking.Requests.{
  AllocationMode, PortAllocationRequest, WorkloadNetworkConfig,
}
use mystic_hypervisor.Prelude.Int.{pos}
use mystic_hypervisor.Prelude.Maps.{delete, values}
use mystic_hypervisor.Prelude.{ℕ, none, String, Bool, ◌==◌, string_eq, [], ◌∷◌, any, if◌then◌else◌}
use mystic_hypervisor.Providers.{InstanceState}
use mystic_hypervisor.Store.{saves}
use mystic_hypervisor.Text.Decimal.{format, itoa}
use mystic_hypervisor.Text.{sprint, trim_space}
use mystic_hypervisor.Workloads.Manager.{
  Manager, Result, World, ok, err, name_empty, name_exists, persist_failed, save_store,
  set_workload,
}
use mystic_hypervisor.Workloads.Workload.{
  ErrorDetails, Workload, WorkloadSpec, WorkloadStatus, WorkloadType, type_text,
}

-- What ComputePlanHash hashes: `%s:%s:%s:%s:%d:%d:%d:%s:%s`.
unfoldable pub plan_text : Workload → String
plan_text w = sprint (
    w.name
    ∷ ":"
    ∷ w.provider
    ∷ ":"
    ∷ type_text w.type
    ∷ ":"
    ∷ w.image
    ∷ ":"
    ∷ itoa w.cpu
    ∷ ":"
    ∷ itoa w.memory_mb
    ∷ ":"
    ∷ itoa w.storage_gb
    ∷ ":"
    ∷ w.host_id
    ∷ ":"
    ∷ w.network_config.network_name
    ∷ [])

unfoldable pub compute_plan_hash : (String → String) → Workload → String
compute_plan_hash digest w = digest (plan_text w)

-- `wl-%d`
unfoldable pub workload_id : ℕ → String
workload_id nanos = sprint ("wl-" ∷ format nanos ∷ [])

-- The zero value of PortAllocationRequest.
abbrev pub no_request : PortAllocationRequest
no_request = record {
  workload_id = "";
  host_id = "";
  gateway_id = "";
  mode = AllocationMode.other "";
  external_start_port = pos 0;
  external_end_port = pos 0;
  internal_start_port = pos 0;
  internal_end_port = pos 0;
  protocol = Protocol.unset;
  public_ip = "";
  destination_ip = "";
  explicit_rules = [];
}

-- The fields of a network configuration that the manager sets; the others have their zero values.
abbrev pub network_config :
    String → String → String → String → String → ExposureMode → String → WorkloadNetworkConfig
network_config id name host_id network_name private_ip mode gateway_id = record {
  id = id;
  workload_id = id;
  workload_name = name;
  host_id = host_id;
  network_id = "";
  network_name = network_name;
  interface = "";
  private_ipv4 = private_ip;
  private_ipv6 = "";
  public_ipv4 = "";
  public_ipv6 = "";
  exposure_mode = mode;
  gateway_id = gateway_id;
  forwarding_rules = [];
  allocation_state = ExposureState.unset;
  verification_state = "";
}

-- `if wType == "" { wType = TypeIncusContainer }`
abbrev pub type_or_container : WorkloadType → WorkloadType
type_or_container WorkloadType.unset = WorkloadType.incus_container
type_or_container t = t

-- The workload that CreateWorkload makes, before its hash is set.
unfoldable pub drafted : World → WorkloadSpec → Workload
drafted world spec =
    let id = workload_id world.nanos in
    record {
      id = id;
      name = spec.name;
      host_id = spec.host_id;
      provider = or_text spec.provider "incus";
      provider_instance_id = spec.name;
      type = type_or_container spec.type;
      status = WorkloadStatus.draft;
      desired_state = InstanceState.running;
      actual_state = InstanceState.unknown;
      sync_status = provider_missing;
      cpu = spec.cpu;
      memory_mb = spec.memory_mb;
      storage_gb = spec.storage_gb;
      image = spec.image;
      project = spec.project;
      profile = spec.profile;
      network_config =
          network_config id spec.name spec.host_id spec.network_name spec.private_ip
            spec.exposure_mode spec.gateway_id;
      port_request = spec.port_request;
      plan_hash = "";
      ssh_access_info = none;
      created_at = world.stamp;
      updated_at = world.stamp;
      last_provider_sync = "never";
      error_details = ErrorDetails.empty;
    }

-- `w.PlanHash = ComputePlanHash(w)`
abbrev pub hashed : (String → String) → Workload → Workload
hashed digest w = record w { plan_hash = compute_plan_hash digest w }

abbrev pub has_name : String → Manager → Bool
has_name name m = any (λ (w : Workload). w.name == name) (values m.workloads)

-- `m.workloads[id] = w`, a Save, and `delete(m.workloads, id)` if it fails.
unfoldable pub file_workload : Bool → Workload → Manager → Result Workload × Manager
file_workload saved w m =
    let n = save_store saved (set_workload w.id w m) in
    if saves saved m.store
    then (ok w, n)
    else (err persist_failed, record n { workloads = delete w.id n.workloads })

unfoldable pub create_workload :
    (String → String) → World → WorkloadSpec → Manager → Result Workload × Manager
create_workload digest world spec m =
    if trim_space spec.name == ""
    then (err name_empty, m)
    else if has_name spec.name m
    then (err name_exists, m)
    else file_workload world.saved (hashed digest (drafted world spec)) m
