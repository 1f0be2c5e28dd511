-- ===== src/Workloads/Manager.antt =====
-- backend/internal/workloads/manager.go: the state of Manager, what a method reads from outside, and
-- the methods that only read the state. The other methods are in the modules below. A workload is the
-- object behind one pointer of the map, so the map holds the workloads themselves. A method that gives
-- the mutex up while it asks the provider is still one step here: no other method runs in between.
-- The service and connection managers, which no method asks, are left out, and so is the audit log.
pub mod Creation
pub mod Adoption
pub mod Planning
pub mod Access
pub mod Reconciliation
pub mod Launch
pub mod Provisioning
pub mod Lifecycle
pub mod Preflight
pub mod Deletion
pub mod Removal
pub mod Outcomes
pub mod Consistent
pub mod Tameness
pub mod Growth
pub mod Histories
mod Tests
use mystic_hypervisor.Networking.Exposure.{NetworkExposure}
use mystic_hypervisor.Networking.ExposureManager as ExposureManager
use mystic_hypervisor.Networking.Requests.{Message}
use mystic_hypervisor.Networking.SshAllocation.{Env}
use mystic_hypervisor.Networking.SshAllocator.{Allocator, SshError}
use mystic_hypervisor.Prelude.Maps.{GoMap, get, put, delete, values}
use mystic_hypervisor.Prelude.{
  ℕ, Option, none, some, String, Bool, true, false, ◌==◌, ◌||◌, string_eq, List, [], ◌∷◌, any,
  if◌then◌else◌,
}
use mystic_hypervisor.Providers.{Instance}
use mystic_hypervisor.Store.{Store, save, saves}
use mystic_hypervisor.Workloads.Execution.{ExecutionGuard}
use mystic_hypervisor.Workloads.Workload.{Workload, WorkloadStatus, ProvisioningPlan}

-- What GetInstance answers: an instance, ErrInstanceNotFound, or any other error. A provider that
-- returns no error returns an instance.
pub data Answer : Type 0 where
  found : Instance → Answer
  missing failing : Answer

-- What CreateInstance answers: the instance, an error that is a deadline or a cancellation, or any
-- other error.
pub data CreateAnswer : Type 0 where
  created : Instance → CreateAnswer
  deadline refused : String → CreateAnswer

pub data DeleteAnswer : Type 0 where
  deleted absent not_deleted : DeleteAnswer

-- What the provider answers in the course of one method. `attached` says whether it has an
-- InstanceProvider; `get_created` is GetInstance after a creation; `adopts` is there if the provider
-- is an InstanceAdopter.
pub record Provider : Type 0 where
  pub name : String
  pub attached : Bool
  pub containers : Bool
  pub vms : Bool
  pub get_instance : String → Answer
  pub create_instance : Instance → CreateAnswer
  pub get_created : String → Answer
  pub starts : String → Bool
  pub stops : String → Bool
  pub restarts : String → Bool
  pub delete_instance : String → DeleteAnswer
  pub adopts : Option (String → String → Bool)
  pub list_instances : Option (List Instance)

-- Which calls of the exposure manager's and the allocator's stores succeed, for one workload.
pub record Saves : Type 0 where
  pub allocation : Bool
  pub allocation_status : Bool
  pub release : Bool
  pub new_exposure : Bool
  pub updated_exposure : Bool
  pub applied_exposure : Bool
  pub deleted_exposure : String → Bool

-- What a method reads from outside: the time as a number, as a text of RFC 3339 and in nanoseconds, the
-- environment variables, and which Saves succeed; `saved_again` is of the workload store's second.
pub record World : Type 0 where
  pub now : ℕ
  pub stamp : String
  pub nanos : ℕ
  pub env : Env
  pub saved : Bool
  pub saved_again : Bool
  pub discovered : Bool
  pub saves_of : String → Saves

-- The requests by which the manager changes what the provider has.
pub data Request : Type 0 where
  creates : Instance → Request
  starts stops restarts deletes : String → Request
  tags : String → String → Request

-- The exposure manager and the SSH port allocator that is attached to it.
pub record Attached : Type 0 where
  pub exposures : ExposureManager.Manager
  pub allocator : Allocator

-- `requests` is what the provider was asked to do, the last request first.
pub record Manager : Type 0 where
  pub workloads : GoMap String Workload
  pub plans : GoMap String ProvisioningPlan
  pub guard : ExecutionGuard
  pub store : Store Workload
  pub attached : Attached
  pub requests : List Request

pub data WorkloadError : Type 0 where
  name_empty name_exists already_managed provider_unavailable instance_not_found : WorkloadError
  query_failed persist_failed tagging_failed workload_not_found plan_not_approved : WorkloadError
  plan_invalidated capability_missing ownership_conflict config_conflict : WorkloadError
  timed_out provisioning_failed start_failed stop_failed restart_failed delete_failed :
      WorkloadError
  listing_failed : WorkloadError
  plan_invalid : Message → WorkloadError
  allocation : SshError → WorkloadError
  illegal_transition : WorkloadStatus → WorkloadError

pub data Result (A : Type 0) : Type 0 where
  ok : A → Result A
  err : WorkloadError → Result A

-- saveStoreUnlocked
abbrev pub save_store : Bool → Manager → Manager
save_store saved m = record m { store = save saved m.workloads m.store }

-- A write to the object behind the pointer.
abbrev pub set_workload : String → Workload → Manager → Manager
set_workload id w m = record m { workloads = put id w m.workloads }

abbrev pub asked : Request → Manager → Manager
asked r m = record m { requests = r ∷ m.requests }

abbrev pub instance_of : Answer → Option Instance
instance_of (found inst) = some inst
instance_of missing = none
instance_of failing = none

unfoldable pub get_workload : String → Manager → Result Workload
get_workload id m = elim (get id m.workloads) [ none ↦ err workload_not_found | some w ↦ ok w ]

-- ResolveWorkloadInstance
unfoldable pub resolve_workload_instance : String → Manager → Result String
resolve_workload_instance id m = elim (get id m.workloads) [
  | none ↦ err workload_not_found
  | some w ↦ ok (if w.name == "" then w.id else w.name)
]

unfoldable pub list_workloads : Manager → List Workload
list_workloads m = values m.workloads

-- Whether a workload has the name, or is the one of the provider's instance of this name.
unfoldable pub is_managed : String → Manager → Bool
is_managed name m =
    any (λ (w : Workload). w.name == name || w.provider_instance_id == name) (values m.workloads)
