-- ===== src/Workloads/Manager/Planning.antt =====
-- backend/internal/workloads/manager.go: ValidateWorkload, GeneratePlan and ApprovePlan.
use mystic_hypervisor.Hosts.{ExposureMode, ExposureState, protocol_is_unset}
use mystic_hypervisor.Networking.AllocatorEngine.Conflicts.{validate_allocation}
use mystic_hypervisor.Networking.Exposure.{or_text}
use mystic_hypervisor.Networking.Requests.{
  AllocationMode, ConflictStatus, PortAllocationRequest, ValidationResult, no_allocation_needed,
}
use mystic_hypervisor.Prelude.Maps.{get, put, values}
use mystic_hypervisor.Prelude.{
  none, some, String, Bool, true, false, not, ◌==◌, ◌&&◌, string_eq, List, [], ◌∷◌, map,
  if◌then◌else◌,
}
use mystic_hypervisor.Workloads.Manager.Creation.{compute_plan_hash}
use mystic_hypervisor.Workloads.Manager.{
  Manager, Result, World, ok, err, workload_not_found, plan_not_approved, plan_invalid,
  plan_invalidated, save_store, set_workload,
}
use mystic_hypervisor.Workloads.Workload.{
  ProvisioningPlan, Risk, Workload, WorkloadStatus, validate_provider, create_from_image,
  configure_limits, apply_network, start_and_verify, external_gateway_unmanaged,
}

abbrev pub is_mode_empty : AllocationMode → Bool
is_mode_empty (AllocationMode.other s) = s == ""
is_mode_empty _ = false

abbrev pub is_private : ExposureMode → Bool
is_private ExposureMode.private_only = true
is_private ExposureMode.unconfigured = true
is_private _ = false

-- No port is asked for, and the workload is not to be exposed.
abbrev pub needs_no_port : Workload → Bool
needs_no_port w =
    protocol_is_unset w.port_request.protocol
    && is_mode_empty w.port_request.mode
    && is_private w.network_config.exposure_mode

abbrev pub private_result : ValidationResult
private_result = record {
  is_valid = true;
  status = ConflictStatus.available;
  conflicts = [];
  warnings = [];
  blockers = [];
  normalized_mappings = [];
  allocation_state = ExposureState.configured;
  message = no_allocation_needed;
}

-- The workload's request, with what its configuration says where it is silent.
abbrev pub request_of : Workload → PortAllocationRequest
request_of w = record (w.port_request) {
  workload_id = w.id;
  host_id = w.host_id;
  gateway_id = or_text w.port_request.gateway_id w.network_config.gateway_id;
  destination_ip = or_text w.port_request.destination_ip w.network_config.private_ipv4;
}

-- validateWorkloadUnlocked, of a workload of the map.
unfoldable pub validated : Workload → Manager → ValidationResult
validated w m =
    if needs_no_port w
    then private_result
    else validate_allocation (request_of w) none []
        (map (λ (x : Workload). x.network_config) (values m.workloads)) [] none

unfoldable pub validate_workload : String → Manager → Result ValidationResult
validate_workload id m = elim (get id m.workloads) [
  | none ↦ err workload_not_found
  | some w ↦ ok (validated w m)
]

abbrev pub risks_of : ExposureMode → List Risk
risks_of ExposureMode.external_gateway = external_gateway_unmanaged ∷ []
risks_of _ = []

-- The plan that GeneratePlan makes.
unfoldable pub plan_of : (String → String) → World → Workload → Manager → ProvisioningPlan
plan_of digest world w m = record {
  workload_id = w.id;
  workload_name = w.name;
  provider = w.provider;
  type = w.type;
  image = w.image;
  cpu = w.cpu;
  memory_mb = w.memory_mb;
  storage_gb = w.storage_gb;
  network_name = w.network_config.network_name;
  private_ip = w.network_config.private_ipv4;
  mode = w.network_config.exposure_mode;
  gateway_id = w.network_config.gateway_id;
  actions =
      validate_provider w.provider
      ∷ create_from_image w.type w.name w.image
      ∷ configure_limits w.cpu w.memory_mb
      ∷ apply_network w.network_config.exposure_mode
      ∷ start_and_verify
      ∷ [];
  risks = risks_of w.network_config.exposure_mode;
  is_valid = (validated w m).is_valid;
  validation_result = validated w m;
  plan_hash = compute_plan_hash digest w;
  approved = false;
  created_at = world.stamp;
}

abbrev pub set_plan : String → ProvisioningPlan → Manager → Manager
set_plan id plan m = record m { plans = put id plan m.plans }

unfoldable pub generate_plan :
    (String → String) → World → String → Manager → Result ProvisioningPlan × Manager
generate_plan digest world id m = elim (get id m.workloads) [
  | none ↦ (err workload_not_found, m)
  | some w ↦
      let plan = plan_of digest world w m in
      let planned = record w {
        plan_hash = compute_plan_hash digest w;
        status = WorkloadStatus.planned;
        updated_at = world.stamp;
      } in
      (ok plan, set_workload id planned (set_plan id plan m))
]

-- `w.Status = StatusDraft; plan.Approved = false`
abbrev pub invalidate : String → Workload → ProvisioningPlan → Manager → Manager
invalidate id w plan m =
    set_workload id (record w { status = WorkloadStatus.draft })
      (set_plan id (record plan { approved = false }) m)

-- ApprovePlan of a plan that there is, for a workload that there is.
unfoldable pub approve_matching :
    (String → String)
    → World
    → String
    → Workload
    → ProvisioningPlan
    → Manager
    → Result ProvisioningPlan × Manager
approve_matching digest world id w plan m =
    let approved = record plan { approved = true } in
    if compute_plan_hash digest w == plan.plan_hash
    then (
      ok approved,
      save_store world.saved (
          set_workload id (record w { status = WorkloadStatus.approved; updated_at = world.stamp })
            (set_plan id approved m)),
    )
    else (err plan_invalidated, invalidate id w plan m)

-- The result of the success is the plan, where the code returns nothing.
unfoldable pub approve_plan :
    (String → String) → World → String → Manager → Result ProvisioningPlan × Manager
approve_plan digest world id m = elim (get id m.plans) [
  | none ↦ (err plan_not_approved, m)
  | some plan ↦
      if not plan.is_valid
      then (err (plan_invalid plan.validation_result.message), m)
      else elim (get id m.workloads) [
        | none ↦ (err workload_not_found, m)
        | some w ↦ approve_matching digest world id w plan m
      ]
]
