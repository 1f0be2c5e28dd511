-- ===== src/Networking/SshAllocator.antt =====
-- backend/internal/networking/ssh_allocator.go: SSHPortAllocator. The two maps of the allocator hold
-- pointers to shared objects, so the objects stand in cells with addresses. Each method runs under
-- the allocator's mutex and is one step. The methods that read devices are in `Discovery`.
pub mod Search
pub mod Used
pub mod Discovery
pub mod Calls
pub mod WellFormed
pub mod Safety
pub mod Exclusive
pub mod Histories
pub mod Allocate
pub mod Release
pub mod Faults
mod Tests
use mystic_hypervisor.Networking.Exposure.{NetworkExposure}
use mystic_hypervisor.Networking.SshAllocation.{
  SshAllocation, SshAllocationStatus, Env, is_released, in_range, ssh_port_min, ssh_port_max,
  ssh_total_ports, allocation_id, get_public_ssh_host, get_incus_host_address,
}
use mystic_hypervisor.Prelude.Int.{ℤ, pos, int_eq}
use mystic_hypervisor.Prelude.Maps.{GoMap, get, put, delete, values}
use mystic_hypervisor.Prelude.{
  ℕ, zero, suc, Option, none, some, String, Bool, true, false, not, ◌&&◌, ◌||◌, ◌==◌, string_eq,
  nat_eq, List, [], ◌∷◌, map, keep, any, if◌then◌else◌,
}
use mystic_hypervisor.Store.{Store, save, saves}
use mystic_hypervisor.Text.{trim_space}

pub data SshError : Type 0 where
  no_ssh_ports_available ssh_allocation_not_found workload_id_required persist_failed : SshError

pub data Result (A : Type 0) : Type 0 where
  ok : A → Result A
  err : SshError → Result A

-- The fields of SSHPortAllocator, but for the mutex and the exposure manager, which is an argument
-- of the method that asks it. `next` is the first address that is not in use.
pub record Allocator : Type 0 where
  pub cells : ℕ → SshAllocation
  pub next : ℕ
  pub allocations : GoMap String ℕ
  pub port_map : GoMap ℤ ℕ
  pub store : Store SshAllocation

abbrev pub write : ℕ → SshAllocation → (ℕ → SshAllocation) → ℕ → SshAllocation
write r x cells q = if r == q then x else cells q

-- `&SSHAllocation{…}`
abbrev pub new_cell : SshAllocation → Allocator → Allocator
new_cell x a = record a { cells = write a.next x a.cells; next = suc a.next }

-- What is encoded into the store: the objects behind the pointers.
abbrev pub contents : Allocator → GoMap String SshAllocation
contents a = map (λ e. (e.0, a.cells e.1)) a.allocations

-- saveStoreUnlocked
unfoldable pub save_store : Bool → Allocator → Allocator
save_store saved a = record a { store = save saved (contents a) a.store }

-- The object that the allocator makes for a port.
abbrev pub new_allocation :
    Env → ℕ → String → ℤ → String → String → String → ℤ → SshAllocationStatus → SshAllocation
new_allocation env now protocol port workload_id instance private_ip destination_port status =
    record {
      id = allocation_id port;
      public_port = port;
      protocol = protocol;
      purpose = "SSH";
      workload_id = workload_id;
      instance_id = instance;
      instance_name = instance;
      incus_host_id = "host-local";
      incus_host_address = get_incus_host_address env;
      public_ssh_host = get_public_ssh_host env;
      private_ip = private_ip;
      destination_port = destination_port;
      status = status;
      created_at = now;
      updated_at = now;
      released_at = none;
    }

-- `a.allocations[workloadID] = alloc; a.portMap[port] = alloc`, for a new object.
unfoldable pub register : SshAllocation → Allocator → Allocator
register x a = record (new_cell x a) {
  allocations = put x.workload_id a.next a.allocations;
  port_map = put x.public_port a.next a.port_map;
}

-- One entry of the loop of NewSSHPortAllocator. It is filed under the workload that it names.
unfoldable pub add_loaded : SshAllocation → Allocator → Allocator
add_loaded x a =
    let b = record (new_cell x a) { allocations = put x.workload_id a.next a.allocations } in
    if not (is_released x.status) && in_range x.public_port
    then record b { port_map = put x.public_port a.next a.port_map }
    else b

unfoldable pub add_all_loaded : List SshAllocation → Allocator → Allocator
add_all_loaded [] a = a
add_all_loaded (x ∷ xs) a = add_all_loaded xs (add_loaded x a)

abbrev pub blank : SshAllocation
blank = record {
  id = "";
  public_port = pos 0;
  protocol = "";
  purpose = "";
  workload_id = "";
  instance_id = "";
  instance_name = "";
  incus_host_id = "";
  incus_host_address = "";
  public_ssh_host = "";
  private_ip = "";
  destination_port = pos 0;
  status = SshAllocationStatus.other "";
  created_at = 0;
  updated_at = 0;
  released_at = none;
}

abbrev pub empty_allocator : Store SshAllocation → Allocator
empty_allocator store = record {
  cells = λ r. blank;
  next = 0;
  allocations = [];
  port_map = [];
  store = store;
}

abbrev pub stored : Store SshAllocation → List SshAllocation
stored none = []
stored (some d) = values d

-- NewSSHPortAllocator; `loads` says whether the store's Load succeeds.
unfoldable pub new_ssh_port_allocator : Bool → Store SshAllocation → Allocator
new_ssh_port_allocator loads store =
    if loads then add_all_loaded (stored store) (empty_allocator store) else empty_allocator store

unfoldable pub register_external_port_reservation :
    Bool → Env → ℕ → String → String → ℤ → String → Allocator → Allocator
register_external_port_reservation saved env now workload_id instance_name port private_ip a =
    if not (in_range port)
    then a
    else save_store saved (
        register
          (new_allocation env now "TCP" port workload_id instance_name private_ip (pos 22)
            SshAllocationStatus.active)
          a)

-- IsPublicPortInUse of the exposure manager, and of the nil pointer.
unfoldable pub is_public_port_in_use : Option (GoMap String NetworkExposure) → ℤ → Bool
is_public_port_in_use none port = false
is_public_port_in_use (some exposures) port =
    any (λ (x : NetworkExposure). x.public_port == port) (values exposures)

abbrev pub has_key : ℤ → GoMap ℤ ℕ → Bool
has_key p m = elim (get p m) [ none ↦ false | some r ↦ true ]

-- The loop's test on a port: it is taken here, or an exposure uses it.
unfoldable pub is_busy : Option (GoMap String NetworkExposure) → GoMap ℤ ℕ → ℕ → Bool
is_busy em port_map port = has_key (pos port) port_map || is_public_port_in_use em (pos port)

-- `for port := SSHPortMin; port <= SSHPortMax; port++`, with the rounds that are left; 0 if no port
-- was found.
unfoldable pub find_port : (ℕ → Bool) → ℕ → ℕ → ℕ
find_port busy zero port = 0
find_port busy (suc rounds) port =
    let rest = find_port busy rounds (suc port) in if busy port then rest else port

-- The allocation of a workload, if it has one that is not released.
unfoldable pub live_allocation : String → Allocator → Option ℕ
live_allocation workload_id a = elim (get workload_id a.allocations) [
  | none ↦ none
  | some r ↦ if is_released (a.cells r).status then none else some r
]

-- The end of AllocatePort: the maps are filled, and emptied again if the store fails.
unfoldable pub commit_allocation : Bool → SshAllocation → Allocator → Result ℕ × Allocator
commit_allocation saved x a =
    let b = save_store saved (register x a) in
    if saves saved a.store then (ok a.next, b) else (
      err persist_failed,
      record b {
        allocations = delete x.workload_id b.allocations;
        port_map = delete x.public_port b.port_map;
      },
    )

-- The middle of AllocatePort: a port that was found, or 0, is turned into an allocation.
unfoldable pub reserve_port :
    Bool → Env → ℕ → String → String → ℕ → Allocator → Result ℕ × Allocator
reserve_port saved env now workload_id instance_name port a =
    if port == 0
    then (err no_ssh_ports_available, a)
    else commit_allocation saved
        (new_allocation env now "TCP" (pos port) workload_id instance_name "" (pos 22)
          SshAllocationStatus.allocated)
        a

-- AllocatePort behind its checks: an allocation that is live is returned as it is.
unfoldable pub allocate_for :
    Bool
    → Env
    → ℕ
    → Option (GoMap String NetworkExposure)
    → String
    → String
    → Allocator
    → Result ℕ × Allocator
allocate_for saved env now em workload_id instance_name a = elim (live_allocation workload_id a) [
  | some r ↦ (ok r, a)
  | none ↦
      reserve_port saved env now workload_id instance_name
        (find_port (is_busy em a.port_map) ssh_total_ports ssh_port_min) a
]

unfoldable pub allocate_port :
    Bool
    → Env
    → ℕ
    → Option (GoMap String NetworkExposure)
    → String
    → String
    → Allocator
    → Result ℕ × Allocator
allocate_port saved env now em id name a =
    let workload_id = trim_space id in
    let trimmed = trim_space name in
    if workload_id == ""
    then (err workload_id_required, a)
    else allocate_for saved env now em workload_id (if trimmed == "" then workload_id else trimmed)
        a

-- `!exists || alloc.Status == SSHStatusReleased` is the error; the result is a copy.
unfoldable pub visible : Allocator → Option ℕ → Result SshAllocation
visible a none = err ssh_allocation_not_found
visible a (some r) =
    if is_released (a.cells r).status then err ssh_allocation_not_found else ok (a.cells r)

unfoldable pub get_allocation : String → Allocator → Result SshAllocation
unfolding visible
get_allocation workload_id a = visible a (get workload_id a.allocations)

unfoldable pub get_allocation_by_port : ℤ → Allocator → Result SshAllocation
unfolding visible
get_allocation_by_port port a = visible a (get port a.port_map)

unfoldable pub list_allocations : Allocator → List SshAllocation
list_allocations a = keep (λ (x : SshAllocation). not (is_released x.status)) (values (contents a))

unfoldable pub update_allocation_status :
    Bool → ℕ → String → SshAllocationStatus → String → Allocator → Result SshAllocation × Allocator
update_allocation_status saved now workload_id status private_ip a =
    elim (get workload_id a.allocations) [
      | none ↦ (err ssh_allocation_not_found, a)
      | some r ↦
          let old = a.cells r in
          let x = record old {
            status = status;
            private_ip = if private_ip == "" then old.private_ip else private_ip;
            updated_at = now;
          } in
          let b = save_store saved (record a { cells = write r x a.cells }) in
          if saves saved a.store then (ok x, b) else (err persist_failed, b)
    ]

-- ReleasePort. A failing store is logged and the method returns no error.
unfoldable pub release_port : Bool → ℕ → String → Allocator → Allocator
release_port saved now workload_id a = elim (get workload_id a.allocations) [
  | none ↦ a
  | some r ↦
      let old = a.cells r in
      let x = record old {
        status = SshAllocationStatus.released;
        released_at = some now;
        updated_at = now;
      } in
      save_store saved
        (record a { cells = write r x a.cells; port_map = delete old.public_port a.port_map })
]
