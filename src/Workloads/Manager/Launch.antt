-- ===== src/Workloads/Manager/Launch.antt =====
-- backend/internal/workloads/manager.go: the end of ProvisionWorkload, in which the instance is asked for,
-- started and given its SSH endpoint.
use mystic_hypervisor.Networking.SshAllocation.{SshAllocation}
use mystic_hypervisor.Networking.SshAllocator.{release_port}
use mystic_hypervisor.Instances.Reconciler.{mebibyte}
use mystic_hypervisor.Prelude.Int.{pos, mul_int, int_eq}
use mystic_hypervisor.Prelude.{none, some, String, ◌==◌, string_eq, [], ◌∷◌, if◌then◌else◌}
use mystic_hypervisor.Providers.{Instance, InstanceState, InstanceType}
use mystic_hypervisor.Workloads.Execution.{
  ResultClassification, compute_operation_key, record_operation,
}
use mystic_hypervisor.Workloads.Manager.Access.{access_info, activate, open_exposure}
use mystic_hypervisor.Workloads.Manager.Reconciliation.{readdressed}
use mystic_hypervisor.Workloads.Manager.{
  CreateAnswer, Manager, Provider, Result, World, ok, err, provisioning_failed, timed_out, created,
  deadline, refused, creates, starts, asked, instance_of, save_store, set_workload,
}
use mystic_hypervisor.Workloads.Workload.{
  ErrorDetails, ProvisioningPlan, Workload, WorkloadStatus, is_vm,
}

-- The operation's key.
abbrev pub provision_key : Workload → ProvisioningPlan → String
provision_key w plan = compute_operation_key w.id "PROVISION" plan.plan_hash

-- The instance that is asked for, with the labels that mark it as Mystic's.
unfoldable pub new_instance : Workload → Instance
new_instance w = record {
  id = "";
  name = w.name;
  type = if is_vm w.type then InstanceType.vm else InstanceType.container;
  state = InstanceState.unset;
  provider = "";
  node = "";
  ip_address = "";
  limits = record {
    cpu_cores = w.cpu;
    memory_bytes = mul_int w.memory_mb mebibyte;
    disk_bytes = pos 0;
  };
  labels =
      ("image", w.image)
      ∷ ("user.mystic.owned", "true")
      ∷ ("user.mystic.workload_id", w.id)
      ∷ ("user.mystic.host_id", w.host_id)
      ∷ ("mystic.owned", "true")
      ∷ ("mystic.workload_id", w.id)
      ∷ [];
  devices = [];
  created_at = none;
  updated_at = none;
}

abbrev pub recorded : World → Workload → ProvisioningPlan → ResultClassification → Manager → Manager
recorded world w plan result m = record m {
  guard =
      record_operation world.now (provision_key w plan) w.id "PROVISION" plan.plan_hash result
        m.guard;
}

abbrev pub failed_with : ErrorDetails → Workload → Workload
failed_with details w = record w { status = WorkloadStatus.failed; error_details = details }

-- The end of a provisioning: the workload runs, and has an endpoint.
unfoldable pub provision_started :
    World
    → Provider
    → String
    → Workload
    → ProvisioningPlan
    → SshAllocation
    → Instance
    → Manager
    → Result Workload × Manager
provision_started world p id w plan alloc inst m =
    let live = instance_of (p.get_created inst.name) in
    let private_ip : String = elim live [ none ↦ "" | some i ↦ i.ip_address ] in
    let active = activate world w.id private_ip m.attached in
    let opened = record active {
      exposures = open_exposure world w alloc.public_port private_ip active.exposures;
    } in
    let n = record m { attached = if private_ip == "" then m.attached else opened } in
    let v = readdressed live (record w {
      ssh_access_info = some (access_info world.env alloc private_ip);
      actual_state = elim live [ none ↦ InstanceState.running | some i ↦ i.state ];
      status = WorkloadStatus.running;
      last_provider_sync = world.stamp;
      updated_at = world.stamp;
    }) in
    (
      ok v,
      recorded world w plan ResultClassification.success
          (save_store world.saved (set_workload id v (asked (starts inst.name) n))),
    )

-- The port is given back when no instance was created.
abbrev pub released : World → Workload → Manager → Manager
released world w m = record m {
  attached = record (m.attached) {
    allocator = release_port (world.saves_of w.id).release world.now w.id m.attached.allocator;
  };
}

-- What the provider's answer to the creation makes of the workload.
unfoldable pub after_creation :
    World
    → Provider
    → String
    → Workload
    → ProvisioningPlan
    → SshAllocation
    → CreateAnswer
    → Manager
    → Result Workload × Manager
after_creation world p id w plan alloc (created inst) m =
    provision_started world p id w plan alloc inst m
after_creation world p id w plan alloc (deadline e) m = (
  err timed_out,
  recorded world w plan ResultClassification.unknown (
      set_workload id
        (record w { status = WorkloadStatus.unknown; error_details = ErrorDetails.timed_out e })
        (released world w m)),
)
after_creation world p id w plan alloc (refused e) m = (
  err provisioning_failed,
  recorded world w plan ResultClassification.failed (
      set_workload id
        (record (failed_with (ErrorDetails.execution_failed e) w) { updated_at = world.stamp })
        (released world w m)),
)

-- The instance is asked for, with its port allocated.
unfoldable pub provision_create :
    World
    → Provider
    → String
    → Workload
    → ProvisioningPlan
    → SshAllocation
    → Manager
    → Result Workload × Manager
provision_create world p id w plan alloc m =
    after_creation world p id w plan alloc (p.create_instance (new_instance w))
      (asked (creates (new_instance w)) m)
