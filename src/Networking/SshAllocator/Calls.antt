-- ===== src/Networking/SshAllocator/Calls.antt =====
-- The calls that change the allocator, in any order, and the branches of AllocatePort.
use mystic_hypervisor.Networking.Exposure.{NetworkExposure}
use mystic_hypervisor.Networking.SshAllocation.{
  SshAllocation, SshAllocationStatus, Env, ssh_port_min, ssh_total_ports,
}
use mystic_hypervisor.Networking.SshAllocator.Discovery.{
  reconcile_jesko_and_existing_infrastructure, reconcile_from_provider_instances,
}
use mystic_hypervisor.Networking.SshAllocator.Search.{IsLowest, AllBusy, find_port_cases}
use mystic_hypervisor.Networking.SshAllocator.{
  Allocator, Result, ok, err, workload_id_required, no_ssh_ports_available, new_allocation, is_busy,
  find_port, live_allocation, commit_allocation, allocate_port, allocate_for, reserve_port,
  update_allocation_status, release_port, register_external_port_reservation,
}
use mystic_hypervisor.Prelude.Int.{ℤ, pos}
use mystic_hypervisor.Prelude.Maps.{GoMap}
use mystic_hypervisor.Prelude.{
  ℕ, ◌+◌, ◌≡◌, ◌≢◌, ◌⊎◌, inl, inr, Option, none, some, String, Bool, arith, ◌==◌, string_eq, nat_eq,
  List, [], ◌∷◌, if◌then◌else◌, ==_ne, Bool-cases, Option-cases,
}
use mystic_hypervisor.Providers.{Instance}
use mystic_hypervisor.Text.{trim_space}

-- The Boolean of a call says whether the store's Save would succeed.
pub data Call : Type 0 where
  allocates : Bool → Option (GoMap String NetworkExposure) → String → String → Call
  registers : Bool → String → String → ℤ → String → Call
  updates : Bool → String → SshAllocationStatus → String → Call
  releases : Bool → String → Call
  reconciles_exposures : Bool → GoMap String NetworkExposure → Call
  reconciles_instances : Bool → List Instance → Call

unfoldable pub step : Env → ℕ × Call → Allocator → Allocator
step env (now, allocates saved em id name) a = (allocate_port saved env now em id name a).1
step env (now, registers saved id name port ip) a =
    register_external_port_reservation saved env now id name port ip a
step env (now, updates saved id status ip) a = (update_allocation_status saved now id status ip a).1
step env (now, releases saved id) a = release_port saved now id a
step env (now, reconciles_exposures saved exposures) a =
    reconcile_jesko_and_existing_infrastructure saved env now exposures a
step env (now, reconciles_instances saved insts) a =
    reconcile_from_provider_instances saved env now insts a

unfoldable pub run : Env → List (ℕ × Call) → Allocator → Allocator
run env [] a = a
run env (c ∷ cs) a = run env cs (step env c a)

-- The object that AllocatePort makes for a port.
abbrev pub fresh : Env → ℕ → String → String → ℕ → SshAllocation
fresh env now id name port =
    let trimmed = trim_space name in
    new_allocation env now "TCP" (pos port) (trim_space id)
      (if trimmed == "" then trim_space id else trimmed) "" (pos 22) SshAllocationStatus.allocated

module _ (saved : Bool) (env : Env) (now : ℕ) (em : Option (GoMap String NetworkExposure))
    (id name : String) (a : Allocator) where
  abbrev pub lowest : ℕ
  lowest = find_port (is_busy em a.port_map) ssh_total_ports ssh_port_min

  -- What holds of every outcome of AllocatePort holds of its result.
  pub allocate_cases {ℓ} :
      (P : Result ℕ × Allocator → Type ℓ)
      → (trim_space id ≡ "" → P (err workload_id_required, a))
      → (trim_space id ≢ "" → (r : ℕ) → live_allocation (trim_space id) a ≡ some r → P (ok r, a))
      → (trim_space id ≢ ""
          → live_allocation (trim_space id) a ≡ none
          → AllBusy (is_busy em a.port_map) ssh_port_min 22201
          → P (err no_ssh_ports_available, a))
      → (trim_space id ≢ ""
          → live_allocation (trim_space id) a ≡ none
          → (q : ℕ) → IsLowest (is_busy em a.port_map) ssh_port_min 22201 q
          → P (commit_allocation saved (fresh env now id name q) a))
      → P (allocate_port saved env now em id name a)
  unfolding allocate_port allocate_for reserve_port
  allocate_cases P missing known full found = elim (Bool-cases (trim_space id == "")) [
    | inl e ↦ rw e (missing ((string_eq.same_iff (trim_space id) "").0 e))
    | inr e ↦ rw e (identified (λ p. cc ((string_eq.same_iff (trim_space id) "").1 p)))
  ]
    where
      instance_name : String
      instance_name = if trim_space name == "" then trim_space id else trim_space name

      searched :
          trim_space id ≢ ""
          → live_allocation (trim_space id) a ≡ none
          → ((lowest ≡ 0)
              × AllBusy (is_busy em a.port_map) ssh_port_min (ssh_port_min + ssh_total_ports))
            ⊎ IsLowest (is_busy em a.port_map) ssh_port_min (ssh_port_min + ssh_total_ports) lowest
          → P (reserve_port saved env now (trim_space id) instance_name lowest a)
      searched ne gone (inl (z, all)) = rw (z, reserve_port) (full ne gone all)
      searched ne gone (inr l) =
          rw (reserve_port, ==_ne lowest 0 (λ z. absurd (omega (arith, l.above))))
            (found ne gone lowest l)

      identified :
          trim_space id ≢ "" → P (allocate_for saved env now em (trim_space id) instance_name a)
      identified ne = elim (Option-cases (live_allocation (trim_space id) a)) [
        | inl e ↦
            rw (e, allocate_for)
              (searched ne e (find_port_cases _ ssh_total_ports ssh_port_min (omega arith)))
        | inr (r, e) ↦ rw (e, allocate_for) (known ne r e)
      ]
