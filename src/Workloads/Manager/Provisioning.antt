-- ===== src/Workloads/Manager/Provisioning.antt =====
-- backend/internal/workloads/manager.go: ProvisionWorkload, from its gate to the allocation of the SSH port.
use mystic_hypervisor.Workloads.Manager.Launch.{
  provision_key, recorded, failed_with, provision_create,
}
use mystic_hypervisor.Networking.SshAllocator as SshAllocator
use mystic_hypervisor.Networking.SshAllocator.{allocate_port, release_port}
use mystic_hypervisor.Prelude.Int.{int_eq}
use mystic_hypervisor.Prelude.Maps.{get}
use mystic_hypervisor.Prelude.{
  ℕ, Option, none, some, String, Bool, true, false, not, ◌==◌, ◌&&◌, string_eq, if◌then◌else◌,
}
use mystic_hypervisor.Providers.{Instance}
use mystic_hypervisor.Workloads.Execution.{
  ExecutionGuard, OperationRecord, OwnershipStatus, ResultClassification, check_ownership,
  get_operation_record,
}
use mystic_hypervisor.Workloads.Manager.Creation.{compute_plan_hash}
use mystic_hypervisor.Workloads.Manager.Planning.{invalidate}
use mystic_hypervisor.Workloads.Manager.{
  Answer, Manager, Provider, Result, World, ok, err, allocation, capability_missing,
  config_conflict, ownership_conflict, plan_invalidated, plan_not_approved, provider_unavailable,
  workload_not_found, found, missing, failing, set_workload,
}
use mystic_hypervisor.Workloads.Workload.{
  ErrorDetails, ProvisioningPlan, Workload, WorkloadStatus, is_running, is_vm,
}

abbrev pub is_success : Option OperationRecord → Bool
is_success none = false
is_success (some r) = elim r.result [ ResultClassification.success ↦ true | _ ↦ false ]

-- Whether the operation has run with success.
abbrev pub is_done : ExecutionGuard → Workload → ProvisioningPlan → Bool
is_done guard w plan =
    is_success (get_operation_record (provision_key w plan) guard) && is_running w.status

-- `requiredCap`, and whether the provider has it.
abbrev pub has_capability : Provider → Workload → Bool
has_capability p w = if is_vm w.type then p.vms else p.containers

-- What an instance that has the workload's name means.
pub data Existing : Type 0 where
  vacant foreign different : Existing
  same : Instance → Existing

unfoldable pub existing : Answer → Workload → Existing
existing (found inst) w = elim (check_ownership (some inst) w.id) [
  | OwnershipStatus.mystic_owned ↦ if inst.limits.cpu_cores == w.cpu then same inst else different
  | OwnershipStatus.external ↦ foreign
  | OwnershipStatus.unknown ↦ vacant
]
existing missing w = vacant
existing failing w = vacant

-- What AllocatePort's answer makes of the workload.
unfoldable pub after_allocation :
    World
    → Provider
    → String
    → Workload
    → ProvisioningPlan
    → SshAllocator.Result ℕ
    → Manager
    → Result Workload × Manager
after_allocation world p id w plan (SshAllocator.ok c) m =
    provision_create world p id w plan (m.attached.allocator.cells c) m
after_allocation world p id w plan (SshAllocator.err e) m = (
  err (allocation e),
  set_workload id
      (record (failed_with (ErrorDetails.allocation_failed e) w) { updated_at = world.stamp }) m,
)

-- No instance stands in the way: a port is allocated.
unfoldable pub provision_vacant :
    World → Provider → String → Workload → ProvisioningPlan → Manager → Result Workload × Manager
provision_vacant world p id w plan m =
    let (r, a) =
      allocate_port (world.saves_of w.id).allocation world.env world.now
        (some m.attached.exposures.exposures) w.id w.name m.attached.allocator in
    after_allocation world p id w plan r
      (record m { attached = record (m.attached) { allocator = a } })

-- What an instance of the workload's name makes of the provisioning.
unfoldable pub after_inspection :
    World
    → Provider
    → String
    → Workload
    → ProvisioningPlan
    → Existing
    → Manager
    → Result Workload × Manager
after_inspection world p id w plan vacant m = provision_vacant world p id w plan m
after_inspection world p id w plan foreign m =
    (err ownership_conflict, set_workload id (failed_with ErrorDetails.ownership_conflict w) m)
after_inspection world p id w plan different m = (
  err config_conflict,
  set_workload id
      (record w { status = WorkloadStatus.drifted; error_details = ErrorDetails.config_differs }) m,
)
after_inspection world p id w plan (same inst) m =
    let v = record w {
      actual_state = inst.state;
      status = WorkloadStatus.running;
      last_provider_sync = world.stamp;
    } in
    (ok v, recorded world w plan ResultClassification.success (set_workload id v m))

-- The provider is asked whether the name is taken.
unfoldable pub provision_attached :
    World → Provider → String → Workload → ProvisioningPlan → Manager → Result Workload × Manager
provision_attached world p id w plan m =
    after_inspection world p id w plan (existing (p.get_instance w.name) w) m

-- Behind the gate: the workload is being provisioned.
unfoldable pub provision_running :
    World → Provider → String → Workload → ProvisioningPlan → Manager → Result Workload × Manager
provision_running world p id w plan m =
    if not (has_capability p w)
    then (
      err capability_missing,
      set_workload id
          (record (failed_with ErrorDetails.provider_lacks_capability w) {
            updated_at = world.stamp;
          })
          m,
    )
    else if not p.attached
    then (
      err provider_unavailable,
      set_workload id (failed_with ErrorDetails.driver_unattached w) m,
    )
    else provision_attached world p id w plan m

abbrev pub provisioning : World → Workload → Workload
provisioning world w = record w { status = WorkloadStatus.provisioning; updated_at = world.stamp }

-- The gate, for a plan that there is: it must be approved and of the workload as it is now.
unfoldable pub provision_planned :
    (String → String)
    → World
    → Provider
    → String
    → Workload
    → ProvisioningPlan
    → Manager
    → Result Workload × Manager
provision_planned digest world p id w plan m =
    if not plan.approved
    then (err plan_not_approved, m)
    else if not (compute_plan_hash digest w == plan.plan_hash)
    then (err plan_invalidated, invalidate id w plan m)
    else if is_done m.guard w plan
    then (ok w, m)
    else provision_running world p id (provisioning world w) plan
        (set_workload id (provisioning world w) m)

unfoldable pub provision_workload :
    (String → String) → World → Provider → String → Manager → Result Workload × Manager
provision_workload digest world p id m = elim (get id m.workloads) [
  | none ↦ (err workload_not_found, m)
  | some w ↦ elim (get id m.plans) [
    | none ↦ (err plan_not_approved, m)
    | some plan ↦ provision_planned digest world p id w plan m
  ]
]
