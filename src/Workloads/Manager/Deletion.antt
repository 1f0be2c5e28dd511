-- ===== src/Workloads/Manager/Deletion.antt =====
-- backend/internal/workloads/manager.go: DeleteWorkload.
use mystic_hypervisor.Networking.Exposure.{NetworkExposure}
use mystic_hypervisor.Networking.ExposureManager as ExposureManager
use mystic_hypervisor.Networking.ExposureManager.{delete_network_exposure, list_workload_exposures}
use mystic_hypervisor.Networking.SshAllocator.{release_port}
use mystic_hypervisor.Prelude.Maps.{get, delete}
use mystic_hypervisor.Prelude.{
  Option, none, some, String, Bool, true, false, string_eq, List, [], ◌∷◌, if◌then◌else◌,
}
use mystic_hypervisor.Workloads.Execution.{OwnershipStatus, check_ownership}
use mystic_hypervisor.Workloads.Manager.Access.{ssh_exposure_id}
use mystic_hypervisor.Workloads.Manager.{
  Answer, Attached, Manager, Provider, World, WorkloadError, delete_failed, ownership_conflict,
  workload_not_found, not_deleted, deletes, asked, instance_of, save_store,
}
use mystic_hypervisor.Workloads.Workload.{Workload}

unfoldable pub delete_each :
    (String → Bool) → List NetworkExposure → ExposureManager.Manager → ExposureManager.Manager
delete_each saved [] em = em
delete_each saved (x ∷ xs) em =
    delete_each saved xs (delete_network_exposure (saved x.id) x.id em).1

-- The SSH exposure, the other exposures of the workload, and its SSH port; errors are dropped.
unfoldable pub detach : World → Workload → Attached → Attached
detach world w at =
    let s = world.saves_of w.id in
    let closed =
      (delete_network_exposure (s.deleted_exposure (ssh_exposure_id w.id)) (ssh_exposure_id w.id)
        at.exposures).1 in
    record {
      exposures = delete_each s.deleted_exposure (list_workload_exposures w.id closed) closed;
      allocator = release_port s.release world.now w.id at.allocator;
    }

-- The end of DeleteWorkload; `none` is the return without an error.
unfoldable pub remove_workload :
    World → String → Workload → Manager → Option WorkloadError × Manager
remove_workload world id w m = (
  none,
  save_store world.saved (record m {
    attached = detach world w m.attached;
    workloads = delete id m.workloads;
    plans = delete id m.plans;
  }),
)

-- An instance that the provider shows and that is not the workload's.
abbrev pub is_foreign : Answer → Workload → Bool
is_foreign answer w = elim (check_ownership (instance_of answer) w.id) [
  | OwnershipStatus.external ↦ true
  | _ ↦ false
]

unfoldable pub delete_attached :
    World → Provider → String → Workload → Manager → Option WorkloadError × Manager
delete_attached world p id w m =
    if is_foreign (p.get_instance w.name) w
    then (some ownership_conflict, m)
    else elim (p.delete_instance w.name) [
      | not_deleted ↦ (some delete_failed, asked (deletes w.name) m)
      | _ ↦ remove_workload world id w (asked (deletes w.name) m)
    ]

unfoldable pub delete_workload :
    World → Provider → String → Manager → Option WorkloadError × Manager
delete_workload world p id m = elim (get id m.workloads) [
  | none ↦ (some workload_not_found, m)
  | some w ↦ if p.attached then delete_attached world p id w m else remove_workload world id w m
]
