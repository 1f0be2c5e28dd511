-- ===== src/Networking/SshAllocator/Safety.antt =====
-- The methods keep the allocator well formed.
use mystic_hypervisor.Networking.Exposure.{NetworkExposure}
use mystic_hypervisor.Networking.SshAllocation.{SshAllocation, SshAllocationStatus, Env, in_range}
use mystic_hypervisor.Networking.SshAllocator.Calls.{
  Call, allocates, registers, updates, releases, reconciles_exposures, reconciles_instances, step,
  run, fresh, allocate_cases,
}
use mystic_hypervisor.Networking.SshAllocator.Discovery.{
  DiscoveredSshProxyInfo, reconcile_exposure, reconcile_exposures, reconcile_info,
  reconcile_devices, reconcile_instances, reconcile_jesko_and_existing_infrastructure,
  reconcile_from_provider_instances, parse_ssh_proxy_device, listen_port, property,
}
use mystic_hypervisor.Networking.SshAllocator.Search.{IsLowest-in_range}
use mystic_hypervisor.Networking.SshAllocator.WellFormed.{
  WellFormed, save_store-WellFormed, register-WellFormed, write-WellFormed, delete_port-WellFormed,
  delete_workload-WellFormed, new_ssh_port_allocator-WellFormed,
}
use mystic_hypervisor.Networking.SshAllocator.{
  Allocator, commit_allocation, allocate_port, update_allocation_status, release_port, save_store,
  register, register_external_port_reservation, has_key, new_ssh_port_allocator,
}
use mystic_hypervisor.Prelude.Int.{ℤ}
use mystic_hypervisor.Prelude.Maps.{GoMap, get, values}
use mystic_hypervisor.Prelude.{
  ℕ, ◌≡◌, refl, Option, none, some, String, Bool, true, not, ◌&&◌, arith, List, [], ◌∷◌, Bool-cases,
  Option-cases, inl, inr, string_eq,
}
use mystic_hypervisor.Providers.{Instance}
use mystic_hypervisor.Store.{Store, saves}
use mystic_hypervisor.Text.Parts.{split}
use mystic_hypervisor.Text.{trim_space}

commit_allocation-WellFormed :
    (saved : Bool) (x : SshAllocation) {a : Allocator}
    → in_range x.public_port ≡ true
    → WellFormed a
    → WellFormed (commit_allocation saved x a).1
unfolding commit_allocation
commit_allocation-WellFormed saved x {a} h wf = elim (Bool-cases (saves saved a.store)) [
  | inl e ↦ rw e filled
  | inr e ↦
      rw e (delete_port-WellFormed x.public_port (delete_workload-WellFormed x.workload_id filled))
]
  where
    filled : WellFormed (save_store saved (register x a))
    filled = save_store-WellFormed saved (register-WellFormed x h wf)

pub allocate_port-WellFormed :
    (saved : Bool) (env : Env) (now : ℕ) (em : Option (GoMap String NetworkExposure))
    (id name : String) {a : Allocator}
    → WellFormed a
    → WellFormed (allocate_port saved env now em id name a).1
allocate_port-WellFormed saved env now em id name {a} wf =
    allocate_cases saved env now em id name a (λ r. WellFormed r.1) (λ _. wf) (λ _ _ _. wf)
      (λ _ _ _. wf)
      (λ _ _ q l.
        commit_allocation-WellFormed saved (fresh env now id name q) (IsLowest-in_range _ q l) wf)

pub register_external-WellFormed :
    (saved : Bool) (env : Env) (now : ℕ) (id name : String) (port : ℤ) (ip : String) {a : Allocator}
    → WellFormed a
    → WellFormed (register_external_port_reservation saved env now id name port ip a)
unfolding register_external_port_reservation
register_external-WellFormed saved env now id name port ip {a} wf =
    elim (Bool-cases (in_range port)) [
      | inl e ↦ rw e (save_store-WellFormed saved (register-WellFormed _ e wf))
      | inr e ↦ rw e wf
    ]

pub update_allocation_status-WellFormed :
    (saved : Bool) (now : ℕ) (id : String) (status : SshAllocationStatus) (ip : String)
    {a : Allocator}
    → WellFormed a
    → WellFormed (update_allocation_status saved now id status ip a).1
unfolding update_allocation_status
update_allocation_status-WellFormed saved now id status ip {a} wf =
    elim (Option-cases (get id a.allocations)) [
      | inl e ↦ rw (e, update_allocation_status) wf
      | inr (r, e) ↦
          let kept = save_store-WellFormed saved (write-WellFormed r _ refl refl wf) in
          elim (Bool-cases (saves saved a.store)) [
            | inl s ↦ rw (e, update_allocation_status, s) kept
            | inr s ↦ rw (e, update_allocation_status, s) kept
          ]
    ]

pub release_port-WellFormed :
    (saved : Bool) (now : ℕ) (id : String) {a : Allocator}
    → WellFormed a
    → WellFormed (release_port saved now id a)
unfolding release_port
release_port-WellFormed saved now id {a} wf = elim (Option-cases (get id a.allocations)) [
  | inl e ↦ rw (e, release_port) wf
  | inr (r, e) ↦
      rw (e, release_port)
        (save_store-WellFormed saved
          (delete_port-WellFormed (a.cells r).public_port (write-WellFormed r _ refl refl wf)))
]

reconcile_exposure-WellFormed :
    (env : Env) (now : ℕ) (exp : NetworkExposure) {a : Allocator}
    → WellFormed a
    → WellFormed (reconcile_exposure env now exp a)
unfolding reconcile_exposure
reconcile_exposure-WellFormed env now exp {a} wf =
    elim (Bool-cases (in_range exp.public_port && not (has_key exp.public_port a.port_map))) [
      | inl e ↦ rw e (register-WellFormed _ (ground arith) wf)
      | inr e ↦ rw e wf
    ]

reconcile_exposures-WellFormed :
    (env : Env) (now : ℕ) (exps : List NetworkExposure) {a : Allocator}
    → WellFormed a
    → WellFormed (reconcile_exposures env now exps a)
unfolding reconcile_exposures
reconcile_exposures-WellFormed env now [] wf = wf
reconcile_exposures-WellFormed env now (exp ∷ exps) wf =
    reconcile_exposures-WellFormed env now exps (reconcile_exposure-WellFormed env now exp wf)

listen_port-in_range :
    (parts : List String) (p : ℤ) → listen_port parts ≡ some p → in_range p ≡ true
unfolding listen_port
listen_port-in_range [] p h = cc
listen_port-in_range (x ∷ []) p h = cc
listen_port-in_range (x ∷ y ∷ ys) p h = ground arith

-- A device that is recognised has an SSH port.
pub parse_ssh_proxy_device-in_range :
    (name : String) (dev : GoMap String String) (info : DiscoveredSshProxyInfo)
    → parse_ssh_proxy_device name dev ≡ some info
    → in_range info.public_port ≡ true
unfolding parse_ssh_proxy_device
parse_ssh_proxy_device-in_range name dev info h =
    ground (
      arith,
      listen_port-in_range (split b':' (trim_space (property "listen" dev))) info.public_port,
    )

reconcile_info-WellFormed :
    (env : Env) (now : ℕ) (inst : Instance) (found : Option DiscoveredSshProxyInfo) {a : Allocator}
    → ((info : DiscoveredSshProxyInfo) → found ≡ some info → in_range info.public_port ≡ true)
    → WellFormed a
    → WellFormed (reconcile_info env now inst found a)
unfolding reconcile_info
reconcile_info-WellFormed env now inst none h wf = wf
reconcile_info-WellFormed env now inst (some info) {a} h wf =
    elim (Bool-cases (has_key info.public_port a.port_map)) [
      | inl e ↦ rw e wf
      | inr e ↦ rw e (register-WellFormed _ (h info refl) wf)
    ]

reconcile_devices-WellFormed :
    (env : Env) (now : ℕ) (inst : Instance) (devs : GoMap String (GoMap String String))
    {a : Allocator}
    → WellFormed a
    → WellFormed (reconcile_devices env now inst devs a)
unfolding reconcile_devices
reconcile_devices-WellFormed env now inst [] wf = wf
reconcile_devices-WellFormed env now inst ((name, dev) ∷ devs) wf =
    reconcile_devices-WellFormed env now inst devs (
      reconcile_info-WellFormed env now inst (parse_ssh_proxy_device name dev)
        (parse_ssh_proxy_device-in_range name dev) wf)

reconcile_instances-WellFormed :
    (env : Env) (now : ℕ) (insts : List Instance) {a : Allocator}
    → WellFormed a
    → WellFormed (reconcile_instances env now insts a)
unfolding reconcile_instances
reconcile_instances-WellFormed env now [] wf = wf
reconcile_instances-WellFormed env now (inst ∷ insts) wf =
    reconcile_instances-WellFormed env now insts
      (reconcile_devices-WellFormed env now inst inst.devices wf)

-- Each call keeps the allocator well formed, whatever its arguments and whether or not it fails.
pub step-WellFormed :
    (env : Env) (c : ℕ × Call) {a : Allocator} → WellFormed a → WellFormed (step env c a)
unfolding step reconcile_jesko_and_existing_infrastructure reconcile_from_provider_instances
step-WellFormed env (now, allocates saved em id name) wf =
    allocate_port-WellFormed saved env now em id name wf
step-WellFormed env (now, registers saved id name port ip) wf =
    register_external-WellFormed saved env now id name port ip wf
step-WellFormed env (now, updates saved id status ip) wf =
    update_allocation_status-WellFormed saved now id status ip wf
step-WellFormed env (now, releases saved id) wf = release_port-WellFormed saved now id wf
step-WellFormed env (now, reconciles_exposures saved exposures) wf =
    save_store-WellFormed saved (reconcile_exposures-WellFormed env now (values exposures) wf)
step-WellFormed env (now, reconciles_instances saved insts) wf =
    save_store-WellFormed saved (reconcile_instances-WellFormed env now insts wf)

run-WellFormed :
    (env : Env) (cs : List (ℕ × Call)) {a : Allocator} → WellFormed a → WellFormed (run env cs a)
unfolding run
run-WellFormed env [] wf = wf
run-WellFormed env (c ∷ cs) wf = run-WellFormed env cs (step-WellFormed env c wf)

-- After any calls on an allocator that was made from any store, each port of the port map is an SSH
-- port and leads to an object that has this port, and each workload leads to an object that names it.
pub reachable-WellFormed :
    (env : Env) (loads : Bool) (store : Store SshAllocation) (cs : List (ℕ × Call))
    → WellFormed (run env cs (new_ssh_port_allocator loads store))
reachable-WellFormed env loads store cs =
    run-WellFormed env cs (new_ssh_port_allocator-WellFormed loads store)
