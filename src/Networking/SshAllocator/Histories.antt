-- ===== src/Networking/SshAllocator/Histories.antt =====
-- Histories in which each call respects what the callers are meant to respect keep the ports exclusive.
use mystic_hypervisor.Networking.Exposure.{NetworkExposure, or_text}
use mystic_hypervisor.Networking.SshAllocation.{SshAllocation, Env, in_range, is_released}
use mystic_hypervisor.Networking.SshAllocator.Calls.{
  Call, allocates, registers, updates, releases, reconciles_exposures, reconciles_instances, step,
  run,
}
use mystic_hypervisor.Networking.SshAllocator.Discovery.{
  DiscoveredSshProxyInfo, exposure_workload, reconcile_exposure, reconcile_exposures,
  reconcile_info, reconcile_devices, reconcile_instances,
  reconcile_jesko_and_existing_infrastructure, reconcile_from_provider_instances,
  parse_ssh_proxy_device,
}
use mystic_hypervisor.Networking.SshAllocator.Exclusive.{
  Exclusive, IsLive, register-Exclusive, save_store-Exclusive, allocate_port-Exclusive,
  update_allocation_status-Exclusive, release_port-Exclusive,
}
use mystic_hypervisor.Networking.SshAllocator.{
  Allocator, live_allocation, has_key, register_external_port_reservation, new_ssh_port_allocator,
  empty_allocator,
}
use mystic_hypervisor.Prelude.Int.{ℤ, int_eq}
use mystic_hypervisor.Prelude.Maps.{GoMap, get, values}
use mystic_hypervisor.Prelude.{
  ℕ, ◌≡◌, refl, Option, none, some, String, Bool, false, not, ◌&&◌, arith, List, [], ◌∷◌,
  Bool-cases, inl, inr, string_eq,
}
use mystic_hypervisor.Providers.{Instance}
use mystic_hypervisor.Store.{Store}

-- A reservation that is found or registered is for a workload that has none.
abbrev pub OrderlyExposures : Env → ℕ → List NetworkExposure → Allocator → Type 0
OrderlyExposures env now [] a = Unit {0}
OrderlyExposures env now (exp ∷ exps) a =
    (get exp.public_port a.port_map ≡ none → live_allocation (exposure_workload exp) a ≡ none)
    × OrderlyExposures env now exps (reconcile_exposure env now exp a)

abbrev pub OrderlyDevices :
    Env → ℕ → Instance → GoMap String (GoMap String String) → Allocator → Type 0
OrderlyDevices env now inst [] a = Unit {0}
OrderlyDevices env now inst ((name, dev) ∷ devs) a =
    ((info : DiscoveredSshProxyInfo)
      → parse_ssh_proxy_device name dev ≡ some info
      → get info.public_port a.port_map ≡ none
      → live_allocation (or_text inst.id inst.name) a ≡ none)
    × OrderlyDevices env now inst devs
        (reconcile_info env now inst (parse_ssh_proxy_device name dev) a)

abbrev pub OrderlyInstances : Env → ℕ → List Instance → Allocator → Type 0
OrderlyInstances env now [] a = Unit {0}
OrderlyInstances env now (inst ∷ insts) a =
    OrderlyDevices env now inst inst.devices a
    × OrderlyInstances env now insts (reconcile_devices env now inst inst.devices a)

-- What the caller of each method has to respect.
abbrev pub OrderlyCall : Env → ℕ × Call → Allocator → Type 0
OrderlyCall env (now, allocates saved em id name) a = Unit {0}
OrderlyCall env (now, registers saved id name port ip) a =
    (get port a.port_map ≡ none) × (live_allocation id a ≡ none)
OrderlyCall env (now, updates saved id status ip) a =
    (is_released status ≡ false) × ((r : ℕ) → get id a.allocations ≡ some r → IsLive (a.cells r))
OrderlyCall env (now, releases saved id) a =
    (r : ℕ) → get id a.allocations ≡ some r → IsLive (a.cells r)
OrderlyCall env (now, reconciles_exposures saved exposures) a =
    OrderlyExposures env now (values exposures) a
OrderlyCall env (now, reconciles_instances saved insts) a = OrderlyInstances env now insts a

abbrev pub OrderlyRun : Env → List (ℕ × Call) → Allocator → Type 0
OrderlyRun env [] a = Unit {0}
OrderlyRun env (c ∷ cs) a = OrderlyCall env c a × OrderlyRun env cs (step env c a)

none_of_no_key : (p : ℤ) (m : GoMap ℤ ℕ) → has_key p m ≡ false → get p m ≡ none
none_of_no_key p m h = ground arith

register_external-Exclusive :
    (saved : Bool) (env : Env) (now : ℕ) (id name : String) (port : ℤ) (ip : String) {a : Allocator}
    → get port a.port_map ≡ none
    → live_allocation id a ≡ none
    → Exclusive a
    → Exclusive (register_external_port_reservation saved env now id name port ip a)
unfolding register_external_port_reservation
register_external-Exclusive saved env now id name port ip unused gone ex =
    elim (Bool-cases (in_range port)) [
      | inl e ↦ rw e (save_store-Exclusive saved (register-Exclusive _ refl unused gone ex))
      | inr e ↦ rw e ex
    ]

reconcile_exposures-Exclusive :
    (env : Env) (now : ℕ) (exps : List NetworkExposure) {a : Allocator}
    → OrderlyExposures env now exps a
    → Exclusive a
    → Exclusive (reconcile_exposures env now exps a)
unfolding reconcile_exposures reconcile_exposure
reconcile_exposures-Exclusive env now [] o ex = ex
reconcile_exposures-Exclusive env now (exp ∷ exps) {a} o ex =
    reconcile_exposures-Exclusive env now exps o.1 (one (o.0))
  where
    one :
        (get exp.public_port a.port_map ≡ none → live_allocation (exposure_workload exp) a ≡ none)
        → Exclusive (reconcile_exposure env now exp a)
    one gone =
        elim (Bool-cases (in_range exp.public_port && not (has_key exp.public_port a.port_map))) [
          | inl e ↦
              let unused = none_of_no_key exp.public_port a.port_map (ground arith) in
              rw (e, reconcile_exposure) (register-Exclusive _ refl unused (gone unused) ex)
          | inr e ↦ rw (e, reconcile_exposure) ex
        ]

reconcile_info-Exclusive :
    (env : Env) (now : ℕ) (inst : Instance) (found : Option DiscoveredSshProxyInfo) {a : Allocator}
    → ((info : DiscoveredSshProxyInfo)
        → found ≡ some info
        → get info.public_port a.port_map ≡ none
        → live_allocation (or_text inst.id inst.name) a ≡ none)
    → Exclusive a
    → Exclusive (reconcile_info env now inst found a)
unfolding reconcile_info
reconcile_info-Exclusive env now inst none gone ex = ex
reconcile_info-Exclusive env now inst (some info) {a} gone ex =
    elim (Bool-cases (has_key info.public_port a.port_map)) [
      | inl e ↦ rw e ex
      | inr e ↦
          let unused = none_of_no_key info.public_port a.port_map e in
          rw e (register-Exclusive _ refl unused (gone info refl unused) ex)
    ]

reconcile_devices-Exclusive :
    (env : Env) (now : ℕ) (inst : Instance) (devs : GoMap String (GoMap String String))
    {a : Allocator}
    → OrderlyDevices env now inst devs a
    → Exclusive a
    → Exclusive (reconcile_devices env now inst devs a)
unfolding reconcile_devices
reconcile_devices-Exclusive env now inst [] o ex = ex
reconcile_devices-Exclusive env now inst ((name, dev) ∷ devs) o ex =
    reconcile_devices-Exclusive env now inst devs o.1
      (reconcile_info-Exclusive env now inst (parse_ssh_proxy_device name dev) o.0 ex)

reconcile_instances-Exclusive :
    (env : Env) (now : ℕ) (insts : List Instance) {a : Allocator}
    → OrderlyInstances env now insts a
    → Exclusive a
    → Exclusive (reconcile_instances env now insts a)
unfolding reconcile_instances
reconcile_instances-Exclusive env now [] o ex = ex
reconcile_instances-Exclusive env now (inst ∷ insts) o ex =
    reconcile_instances-Exclusive env now insts o.1
      (reconcile_devices-Exclusive env now inst inst.devices o.0 ex)

step-Exclusive :
    (env : Env) (c : ℕ × Call) {a : Allocator}
    → OrderlyCall env c a
    → Exclusive a
    → Exclusive (step env c a)
unfolding step reconcile_jesko_and_existing_infrastructure reconcile_from_provider_instances
step-Exclusive env (now, allocates saved em id name) o ex =
    allocate_port-Exclusive saved env now em id name ex
step-Exclusive env (now, registers saved id name port ip) o ex =
    register_external-Exclusive saved env now id name port ip o.0 o.1 ex
step-Exclusive env (now, updates saved id status ip) o ex =
    update_allocation_status-Exclusive saved now id status ip o.0 o.1 ex
step-Exclusive env (now, releases saved id) o ex = release_port-Exclusive saved now id o ex
step-Exclusive env (now, reconciles_exposures saved exposures) o ex =
    save_store-Exclusive saved (reconcile_exposures-Exclusive env now (values exposures) o ex)
step-Exclusive env (now, reconciles_instances saved insts) o ex =
    save_store-Exclusive saved (reconcile_instances-Exclusive env now insts o ex)

run-Exclusive :
    (env : Env) (cs : List (ℕ × Call)) {a : Allocator}
    → OrderlyRun env cs a
    → Exclusive a
    → Exclusive (run env cs a)
unfolding run
run-Exclusive env [] o ex = ex
run-Exclusive env (c ∷ cs) o ex = run-Exclusive env cs o.1 (step-Exclusive env c o.0 ex)

empty-Exclusive : (store : Store SshAllocation) → Exclusive (empty_allocator store)
unfolding get
empty-Exclusive store = record { mapped = λ p r e. cc; owned = λ w r e. cc; kept = λ w r e l. cc }

-- In every history of orderly calls on a new allocator, of any length, no two workloads hold one port:
-- the port map holds exactly the ports of the live allocations.
pub orderly-Exclusive :
    (env : Env) (store : Store SshAllocation) (cs : List (ℕ × Call))
    → OrderlyRun env cs (new_ssh_port_allocator false store)
    → Exclusive (run env cs (new_ssh_port_allocator false store))
unfolding new_ssh_port_allocator
orderly-Exclusive env store cs o = run-Exclusive env cs o (empty-Exclusive store)
