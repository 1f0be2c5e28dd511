-- ===== src/Workloads/Tests.antt =====
-- backend/internal/workloads/execution.go, run on an instance and on a record of an operation.
use mystic_hypervisor.Prelude.Int.{pos}
use mystic_hypervisor.Prelude.Maps.{get}
use mystic_hypervisor.Prelude.{◌≡◌, ◌↔◌, refl, none, some, [], ◌∷◌, string_eq}
use mystic_hypervisor.Providers.{Instance, InstanceState, InstanceType}
use mystic_hypervisor.Text.{sprint}
use mystic_hypervisor.Workloads.Execution.{
  OwnershipStatus, check_ownership, compute_operation_key, label, lookup,
}
use mystic_hypervisor.Workloads.Ownership.{IsOwned, check_ownership_iff}

-- An owned instance, with one label under the key with the prefix and one under the plain key.
abbrev web_1 : Instance
web_1 = record {
  id = "web-1";
  name = "web-1";
  type = InstanceType.container;
  state = InstanceState.running;
  provider = "incus";
  node = "local";
  ip_address = "10.0.0.5";
  limits = record { cpu_cores = pos 2; memory_bytes = pos 1024; disk_bytes = pos 0 };
  labels = ("user.mystic.owned", "true") ∷ ("mystic.workload_id", "w-1") ∷ [];
  devices = [];
  created_at = none;
  updated_at = none;
}

test_owned : check_ownership (some web_1) "w-1" ≡ OwnershipStatus.mystic_owned
unfolding check_ownership label lookup get
test_owned = refl

test_external : check_ownership (some web_1) "w-2" ≡ OwnershipStatus.external
unfolding check_ownership label lookup get
test_external = refl

test_key : compute_operation_key "w-1" "START" "" ≡ "op:w-1:START:noplan"
unfolding compute_operation_key sprint
test_key = refl

check_ownership_iff_example :
    ((check_ownership (some web_1) "w-1" ≡ OwnershipStatus.mystic_owned)
      ↔ IsOwned (some web_1) "w-1")
    × ((check_ownership (some web_1) "w-1" ≡ OwnershipStatus.unknown) ↔ (some web_1 ≡ none))
check_ownership_iff_example = check_ownership_iff (some web_1) "w-1"
