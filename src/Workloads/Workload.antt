-- ===== src/Workloads/Workload.antt =====
-- backend/internal/workloads/workloads.go: a workload, what it is asked for with, and the plan for its
-- provisioning. A time that the code formats as text is a text.
use mystic_hypervisor.Hosts.{ExposureMode}
use mystic_hypervisor.Instances.{SyncStatus}
use mystic_hypervisor.Networking.Requests.{
  PortAllocationRequest, ValidationResult, WorkloadNetworkConfig,
}
use mystic_hypervisor.Networking.SshAllocation.{SshAccessInfo}
use mystic_hypervisor.Networking.SshAllocator.{SshError}
use mystic_hypervisor.Prelude.Int.{ℤ}
use mystic_hypervisor.Prelude.{Option, String, Bool, true, false, List}
use mystic_hypervisor.Providers.{InstanceState}

pub data WorkloadType : Type 0 where
  incus_container incus_vm kvm_vm lxc_container unset : WorkloadType
  other : String → WorkloadType

pub data WorkloadStatus : Type 0 where
  draft validated planned approved provisioning running stopped : WorkloadStatus
  failed drifted orphaned unknown : WorkloadStatus
  other : String → WorkloadStatus

-- ErrorDetails: the texts that the code writes, with the error that is printed into them.
pub data ErrorDetails : Type 0 where
  empty provider_lacks_capability driver_unattached ownership_conflict config_differs : ErrorDetails
  belongs_to_external confirmed_absent : ErrorDetails
  allocation_failed : SshError → ErrorDetails
  timed_out execution_failed : String → ErrorDetails
  other : String → ErrorDetails

pub record Workload : Type 0 where
  pub id : String
  pub name : String
  pub host_id : String
  pub provider : String
  pub provider_instance_id : String
  pub type : WorkloadType
  pub status : WorkloadStatus
  pub desired_state : InstanceState
  pub actual_state : InstanceState
  pub sync_status : SyncStatus
  pub cpu : ℤ
  pub memory_mb : ℤ
  pub storage_gb : ℤ
  pub image : String
  pub project : String
  pub profile : String
  pub network_config : WorkloadNetworkConfig
  pub port_request : PortAllocationRequest
  pub plan_hash : String
  pub ssh_access_info : Option SshAccessInfo
  pub created_at : String
  pub updated_at : String
  pub last_provider_sync : String
  pub error_details : ErrorDetails

pub record WorkloadSpec : Type 0 where
  pub name : String
  pub provider : String
  pub type : WorkloadType
  pub image : String
  pub project : String
  pub profile : String
  pub cpu : ℤ
  pub memory_mb : ℤ
  pub storage_gb : ℤ
  pub host_id : String
  pub network_name : String
  pub private_ip : String
  pub exposure_mode : ExposureMode
  pub gateway_id : String
  pub port_request : PortAllocationRequest

-- The lines of a plan's Actions.
pub data Action : Type 0 where
  validate_provider : String → Action
  create_from_image : WorkloadType → String → String → Action
  configure_limits : ℤ → ℤ → Action
  apply_network : ExposureMode → Action
  start_and_verify : Action

-- The one line that a plan's Risks can hold.
pub data Risk : Type 0 where
  external_gateway_unmanaged : Risk

-- The maps Resources, Network and Exposure have fixed keys, which are fields here.
pub record ProvisioningPlan : Type 0 where
  pub workload_id : String
  pub workload_name : String
  pub provider : String
  pub type : WorkloadType
  pub image : String
  pub cpu : ℤ
  pub memory_mb : ℤ
  pub storage_gb : ℤ
  pub network_name : String
  pub private_ip : String
  pub mode : ExposureMode
  pub gateway_id : String
  pub actions : List Action
  pub risks : List Risk
  pub is_valid : Bool
  pub validation_result : ValidationResult
  pub plan_hash : String
  pub approved : Bool
  pub created_at : String

-- `w.Type == TypeIncusVM || w.Type == TypeKVMVM`
abbrev pub is_vm : WorkloadType → Bool
is_vm WorkloadType.incus_vm = true
is_vm WorkloadType.kvm_vm = true
is_vm _ = false

abbrev pub type_text : WorkloadType → String
type_text WorkloadType.incus_container = "INCUS_CONTAINER"
type_text WorkloadType.incus_vm = "INCUS_VM"
type_text WorkloadType.kvm_vm = "KVM_VM"
type_text WorkloadType.lxc_container = "LXC_CONTAINER"
type_text WorkloadType.unset = ""
type_text (WorkloadType.other s) = s

abbrev pub is_draft : WorkloadStatus → Bool
is_draft WorkloadStatus.draft = true
is_draft _ = false

abbrev pub is_running : WorkloadStatus → Bool
is_running WorkloadStatus.running = true
is_running _ = false

abbrev pub is_stopped : WorkloadStatus → Bool
is_stopped WorkloadStatus.stopped = true
is_stopped _ = false

abbrev pub is_provisioning : WorkloadStatus → Bool
is_provisioning WorkloadStatus.provisioning = true
is_provisioning _ = false

abbrev pub is_unknown : WorkloadStatus → Bool
is_unknown WorkloadStatus.unknown = true
is_unknown _ = false
