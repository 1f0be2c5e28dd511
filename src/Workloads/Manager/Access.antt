-- ===== src/Workloads/Manager/Access.antt =====
-- backend/internal/workloads/manager.go: the SSH endpoint of a workload, which ProvisionWorkload opens
-- and reconcileSSHAccessInfoUnlocked keeps up to date.
use mystic_hypervisor.Hosts.{ExposureMode, ExposureState, Protocol, exposure_state_beq}
use mystic_hypervisor.Instances.{in_sync}
use mystic_hypervisor.Networking.Exposure.{NetworkExposure}
use mystic_hypervisor.Networking.ExposureManager as ExposureManager
use mystic_hypervisor.Networking.ExposureManager.{
  ExposureError, already_exists, conflict, create_network_exposure, get_network_exposure,
  update_network_exposure, apply_exposure,
}
use mystic_hypervisor.Networking.SshAllocation.{
  Env, SshAccessInfo, SshAllocation, SshAllocationStatus, generate_ssh_connection_command,
}
use mystic_hypervisor.Networking.SshAllocator as SshAllocator
use mystic_hypervisor.Networking.SshAllocator.{get_allocation, update_allocation_status}
use mystic_hypervisor.Prelude.Int.{ℤ, pos}
use mystic_hypervisor.Prelude.{
  none, some, String, Bool, true, false, ◌==◌, ◌&&◌, string_eq, [], ◌∷◌, if◌then◌else◌,
}
use mystic_hypervisor.Text.{sprint}
use mystic_hypervisor.Workloads.Manager.{Attached, World}
use mystic_hypervisor.Workloads.Workload.{Workload}

-- `exp-%s-ssh`
unfoldable pub ssh_exposure_id : String → String
ssh_exposure_id id = sprint ("exp-" ∷ id ∷ "-ssh" ∷ [])

-- The exposure of the SSH port. A description is printed with the workload's name.
unfoldable pub ssh_exposure : Workload → ℤ → String → NetworkExposure
ssh_exposure w port private_ip = record {
  id = ssh_exposure_id w.id;
  workload_id = w.id;
  workload_name = w.name;
  gateway_id = "";
  public_ip = "";
  public_port = port;
  internal_port = pos 22;
  internal_ip = private_ip;
  protocol = Protocol.tcp;
  exposure_mode = ExposureMode.nat_forwarded;
  desired_state = ExposureState.unset;
  actual_state = ExposureState.unset;
  sync_status = in_sync;
  description = sprint ("SSH Proxy for " ∷ w.name ∷ []);
  last_sync = none;
  created_at = none;
  updated_at = none;
}

-- `expErr == nil || errors.Is(expErr, ErrExposureConflict)`
abbrev pub may_apply : ExposureManager.Result NetworkExposure → Bool
may_apply (ExposureManager.ok exp) = true
may_apply (ExposureManager.err already_exists) = true
may_apply (ExposureManager.err (conflict message)) = true
may_apply (ExposureManager.err _) = false

-- The exposure is created, and applied if it is there then; the errors are dropped.
unfoldable pub open_exposure :
    World → Workload → ℤ → String → ExposureManager.Manager → ExposureManager.Manager
open_exposure world w port private_ip em =
    let s = world.saves_of w.id in
    let (r, n) =
      create_network_exposure s.new_exposure world.now (some (ssh_exposure w port private_ip)) em in
    if may_apply r
    then (apply_exposure s.applied_exposure world.now (ssh_exposure_id w.id) n).1
    else n

-- The exposure that there is follows the workload's address, and is applied again.
unfoldable pub refresh_exposure :
    World → Workload → NetworkExposure → String → ExposureManager.Manager → ExposureManager.Manager
refresh_exposure world w exp private_ip em =
    let s = world.saves_of w.id in
    let id = ssh_exposure_id w.id in
    if exp.internal_ip == private_ip && exposure_state_beq exp.actual_state ExposureState.applied
    then em
    else (apply_exposure s.applied_exposure world.now id
        (update_network_exposure s.updated_exposure world.now id
          (record exp { internal_ip = private_ip }) em).1).1

unfoldable pub keep_exposure :
    World → Workload → ℤ → String → ExposureManager.Manager → ExposureManager.Manager
keep_exposure world w port private_ip em = elim (get_network_exposure (ssh_exposure_id w.id) em) [
  | ExposureManager.ok exp ↦ refresh_exposure world w exp private_ip em
  | ExposureManager.err e ↦ open_exposure world w port private_ip em
]

-- The allocation of the workload becomes active, with its address.
unfoldable pub activate : World → String → String → Attached → Attached
activate world id private_ip at = record at {
  allocator =
      (update_allocation_status (world.saves_of id).allocation_status world.now id
        SshAllocationStatus.active private_ip at.allocator).1;
}

-- With no address the endpoint is not open yet.
abbrev pub access_status : String → SshAllocationStatus
access_status private_ip =
    if private_ip == "" then SshAllocationStatus.provisioning else SshAllocationStatus.active

unfoldable pub access_info : Env → SshAllocation → String → SshAccessInfo
access_info env alloc private_ip = record {
  host = alloc.public_ssh_host;
  port = alloc.public_port;
  username = "root";
  protocol = "TCP";
  status = access_status private_ip;
  allocation_id = alloc.id;
  incus_host_id = alloc.incus_host_id;
  connection_command =
      generate_ssh_connection_command env alloc.public_ssh_host alloc.public_port "root";
}

-- The exposure manager and the allocator after the endpoint is brought up to date.
unfoldable pub keep_endpoint : World → Workload → SshAllocation → Attached → Attached
keep_endpoint world w alloc at =
    let private_ip = w.network_config.private_ipv4 in
    let n = activate world w.id private_ip at in
    if private_ip == ""
    then at
    else record n { exposures = keep_exposure world w alloc.public_port private_ip n.exposures }

-- reconcileSSHAccessInfoUnlocked
unfoldable pub reconcile_ssh_access_info : World → Workload → Attached → Workload × Attached
reconcile_ssh_access_info world w at = elim (get_allocation w.id at.allocator) [
  | SshAllocator.err e ↦ (w, at)
  | SshAllocator.ok alloc ↦ (
    record w { ssh_access_info = some (access_info world.env alloc w.network_config.private_ipv4) },
    keep_endpoint world w alloc at,
  )
]
