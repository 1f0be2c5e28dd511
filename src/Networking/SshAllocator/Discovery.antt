-- ===== src/Networking/SshAllocator/Discovery.antt =====
-- backend/internal/networking/ssh_allocator.go: ParseSSHProxyDevice, and the two methods that
-- reserve the SSH ports which exposures and the provider's instances are found to use.
use mystic_hypervisor.Networking.Exposure.{NetworkExposure, or_text}
use mystic_hypervisor.Networking.SshAllocation.{SshAllocationStatus, Env, in_range}
use mystic_hypervisor.Networking.SshAllocator.{
  Allocator, new_allocation, register, save_store, has_key,
}
use mystic_hypervisor.Prelude.Int.{ℤ, pos, int_eq}
use mystic_hypervisor.Prelude.Maps.{GoMap, get, values}
use mystic_hypervisor.Prelude.{
  ℕ, Option, none, some, String, Bool, false, not, ◌&&◌, ◌||◌, ◌==◌, string_eq, List, [], ◌∷◌,
  if◌then◌else◌,
}
use mystic_hypervisor.Providers.{Instance}
use mystic_hypervisor.Text.Decimal.{atoi, itoa}
use mystic_hypervisor.Text.Parts.{split}
use mystic_hypervisor.Text.{sprint, trim_space, upper_is, lower_is}

pub record DiscoveredSshProxyInfo : Type 0 where
  pub device_name : String
  pub public_port : ℤ
  pub public_ip : String
  pub private_ip : String
  pub destination_port : ℤ
  pub protocol : String

-- `m[k]`, which is the empty string for a key that is missing.
unfoldable pub property : String → GoMap String String → String
property k dev = elim (get k dev) [ none ↦ "" | some v ↦ v ]

abbrev pub last : String → List String → String
last x [] = x
last x (y ∷ ys) = last y ys

-- The listen address: the port, and the address between two colons if there is one.
unfoldable pub listen_ip : List String → String
listen_ip (p ∷ ip ∷ q ∷ []) = if ip == "" then "0.0.0.0" else ip
listen_ip parts = "0.0.0.0"

unfoldable pub valid_listen_port : Option ℤ → Option ℤ
valid_listen_port none = none
valid_listen_port (some port) = if in_range port then some port else none

unfoldable pub listen_port : List String → Option ℤ
unfolding valid_listen_port
listen_port [] = none
listen_port (p ∷ []) = none
listen_port (p ∷ q ∷ qs) = if upper_is p "TCP" then valid_listen_port (atoi (last q qs)) else none

-- The connect address leads to port 22, or the device is not taken.
unfoldable pub is_ssh_port : Option ℤ → Bool
is_ssh_port none = false
is_ssh_port (some port) = port == pos 22

unfoldable pub connects_to_ssh : List String → Bool
unfolding is_ssh_port
connects_to_ssh [] = false
connects_to_ssh (p ∷ []) = false
connects_to_ssh (p ∷ q ∷ qs) = is_ssh_port (atoi (last q qs))

unfoldable pub connect_ip : List String → String
connect_ip (p ∷ ip ∷ q ∷ []) = ip
connect_ip (ip ∷ q ∷ []) = ip
connect_ip parts = ""

unfoldable pub parse_ssh_proxy_device : String → GoMap String String → Option DiscoveredSshProxyInfo
unfolding property
parse_ssh_proxy_device device_name dev =
    let type = property "type" dev in
    let listen = trim_space (property "listen" dev) in
    let connect = trim_space (property "connect" dev) in
    if not (type == "") && not (lower_is type "proxy")
    then none
    else if listen == "" || connect == ""
    then none
    else elim (listen_port (split b':' listen)) [
      | none ↦ none
      | some port ↦
          if connects_to_ssh (split b':' connect)
          then some (record {
            device_name = device_name;
            public_port = port;
            public_ip = listen_ip (split b':' listen);
            private_ip = connect_ip (split b':' connect);
            destination_port = pos 22;
            protocol = "TCP";
          })
          else none
    ]

-- The workload that an exposure is filed under.
unfoldable pub exposure_workload : NetworkExposure → String
exposure_workload exp =
    let named = or_text exp.workload_id exp.workload_name in
    if named == "" then sprint ("workload-port-" ∷ itoa exp.public_port ∷ []) else named

-- One exposure of ReconcileJeskoAndExistingInfrastructure.
unfoldable pub reconcile_exposure : Env → ℕ → NetworkExposure → Allocator → Allocator
reconcile_exposure env now exp a =
    if in_range exp.public_port && not (has_key exp.public_port a.port_map)
    then register
        (new_allocation env now "TCP" exp.public_port (exposure_workload exp) exp.workload_name
          exp.internal_ip exp.internal_port SshAllocationStatus.active)
        a
    else a

unfoldable pub reconcile_exposures : Env → ℕ → List NetworkExposure → Allocator → Allocator
reconcile_exposures env now [] a = a
reconcile_exposures env now (exp ∷ exps) a =
    reconcile_exposures env now exps (reconcile_exposure env now exp a)

unfoldable pub reconcile_jesko_and_existing_infrastructure :
    Bool → Env → ℕ → GoMap String NetworkExposure → Allocator → Allocator
reconcile_jesko_and_existing_infrastructure saved env now exposures a =
    save_store saved (reconcile_exposures env now (values exposures) a)

-- One device of an instance in ReconcileFromProviderInstances.
unfoldable pub reconcile_info :
    Env → ℕ → Instance → Option DiscoveredSshProxyInfo → Allocator → Allocator
reconcile_info env now inst none a = a
reconcile_info env now inst (some info) a =
    if has_key info.public_port a.port_map
    then a
    else register
        (new_allocation env now info.protocol info.public_port (or_text inst.id inst.name) inst.name
          info.private_ip info.destination_port SshAllocationStatus.active)
        a

unfoldable pub reconcile_devices :
    Env → ℕ → Instance → GoMap String (GoMap String String) → Allocator → Allocator
reconcile_devices env now inst [] a = a
reconcile_devices env now inst ((name, dev) ∷ devs) a =
    reconcile_devices env now inst devs
      (reconcile_info env now inst (parse_ssh_proxy_device name dev) a)

unfoldable pub reconcile_instances : Env → ℕ → List Instance → Allocator → Allocator
reconcile_instances env now [] a = a
reconcile_instances env now (inst ∷ insts) a =
    reconcile_instances env now insts (reconcile_devices env now inst inst.devices a)

unfoldable pub reconcile_from_provider_instances :
    Bool → Env → ℕ → List Instance → Allocator → Allocator
reconcile_from_provider_instances saved env now insts a =
    save_store saved (reconcile_instances env now insts a)
