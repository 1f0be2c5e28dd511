-- ===== src/Networking/SshAllocator/Faults.antt =====
-- Two ways in which the allocator's callers can break its books: ReleasePort asks only for the
-- workload's entry, which stays after a release, and ReconcileFromProviderInstances asks only for the
-- port, and files a second port of a workload over the first.
use mystic_hypervisor.Networking.Exposure.{or_text}
use mystic_hypervisor.Networking.SshAllocation.{Env, SshAllocation, SshAllocationStatus}
use mystic_hypervisor.Networking.SshAllocator.Discovery.{DiscoveredSshProxyInfo, reconcile_info}
use mystic_hypervisor.Networking.SshAllocator.Exclusive.{IsLive, Exclusive}
use mystic_hypervisor.Networking.SshAllocator.Release.{release_port-Released}
use mystic_hypervisor.Networking.SshAllocator.{Allocator, release_port, register, new_allocation}
use mystic_hypervisor.Prelude.Int.{int_eq}
use mystic_hypervisor.Prelude.Maps.{get, get-put, get-put_self}
use mystic_hypervisor.Prelude.{
  ℕ, ◌≡◌, ◌≢◌, refl, sym, ap, subst, ◌∙◌, none, some, String, Bool, arith, ==_refl, Option-cases,
  inl, inr, string_eq,
}
use mystic_hypervisor.Providers.{Instance}

-- ReleasePort, called for a workload `v` whose object has a port that has since been given to
-- another workload `w`, takes the port from `w`: its allocation is still live, and the port is free.
pub release_port-steals :
    (saved : Bool) (now : ℕ) (v w : String) (s r : ℕ) (a : Allocator)
    → get v a.allocations ≡ some s
    → get w a.allocations ≡ some r
    → r ≢ s
    → IsLive (a.cells r)
    → (a.cells r).public_port ≡ (a.cells s).public_port
    → (let b = release_port saved now v a in
        (get w b.allocations ≡ some r)
        × IsLive (b.cells r)
        × (get (b.cells r).public_port b.port_map ≡ none))
release_port-steals saved now v w s r a hv hw ne live same =
    let d = release_port-Released saved now v s a hv in
    let kept = d.others r ne in
    let freed = d.by_port (a.cells r).public_port in
    (
      ap (get w) d.by_workload ∙ hw,
      rw kept live,
      rw kept (rw freed (rw same (rw (==_refl (a.cells s).public_port) refl))),
    )

module _ (saved : Bool) (now : ℕ) (x : SshAllocation) (r : ℕ) (a : Allocator) (ex : Exclusive a)
    (here : get x.workload_id a.allocations ≡ some r) (live : IsLive (a.cells r))
    (unused : get x.public_port a.port_map ≡ none) (v : String)
    (orderly : (s : ℕ) → get v a.allocations ≡ some s → IsLive (a.cells s)) where
  kept_in_register : get (a.cells r).public_port (register x a).port_map ≡ some r
  unfolding register
  kept_in_register = ground (
    arith,
    get-put x.public_port (a.cells r).public_port a.next a.port_map,
    int_eq.same_iff x.public_port (a.cells r).public_port,
    ex.kept x.workload_id r here live,
    unused,
  )

  -- No workload's object has the first port any more.
  lost :
      (s : ℕ)
      → get v (register x a).allocations ≡ some s
      → ((register x a).cells s).public_port ≢ (a.cells r).public_port
  unfolding register
  lost s e same = ground (
    arith,
    e,
    same,
    get-put x.workload_id v a.next a.allocations,
    string_eq.same_iff x.workload_id v,
    ex.kept x.workload_id r here live,
    ex.owned x.workload_id r here,
    ex.owned v s,
    ex.kept v s,
    orderly s,
    unused,
  )

  register-leaks :
      get (a.cells r).public_port (release_port saved now v (register x a)).port_map ≡ some r
  unfolding release_port
  register-leaks = elim (Option-cases (get v (register x a).allocations)) [
    | inl e ↦ rw (e, release_port) kept_in_register
    | inr (s, e) ↦
        let d = release_port-Released saved now v s (register x a) e in
        ground (
          arith,
          d.by_port (a.cells r).public_port,
          kept_in_register,
          lost s e,
          int_eq.same_iff ((register x a).cells s).public_port (a.cells r).public_port,
        )
  ]

abbrev found : Env → ℕ → Instance → DiscoveredSshProxyInfo → SshAllocation
found env now inst info =
    new_allocation env now info.protocol info.public_port (or_text inst.id inst.name) inst.name
      info.private_ip info.destination_port SshAllocationStatus.active

new_cell : (x : SshAllocation) (a : Allocator) → (register x a).cells a.next ≡ x
unfolding register
new_cell x a = ground arith

reconcile_info_new :
    (env : Env) (now : ℕ) (inst : Instance) (info : DiscoveredSshProxyInfo) (a : Allocator)
    → get info.public_port a.port_map ≡ none
    → reconcile_info env now inst (some info) a ≡ register (found env now inst info) a
unfolding reconcile_info
reconcile_info_new env now inst info a unused = ground (arith, unused)

pub reconcile_info-leaks :
    (saved : Bool) (env : Env) (now : ℕ) (inst : Instance) (info : DiscoveredSshProxyInfo) (r : ℕ)
    (a : Allocator)
    → Exclusive a
    → get (or_text inst.id inst.name) a.allocations ≡ some r
    → IsLive (a.cells r)
    → get info.public_port a.port_map ≡ none
    → (v : String) → ((s : ℕ) → get v a.allocations ≡ some s → IsLive (a.cells s))
    → (let b = reconcile_info env now inst (some info) a in
        (get (or_text inst.id inst.name) b.allocations ≡ some a.next)
        × ((b.cells a.next).public_port ≡ info.public_port)
        × (get (a.cells r).public_port (release_port saved now v b).port_map ≡ some r))
unfolding register
reconcile_info-leaks saved env now inst info r a ex here live unused v orderly =
    subst
      (λ (b : Allocator).
        (get (or_text inst.id inst.name) b.allocations ≡ some a.next)
        × ((b.cells a.next).public_port ≡ info.public_port)
        × (get (a.cells r).public_port (release_port saved now v b).port_map ≡ some r))
      (sym (reconcile_info_new env now inst info a unused))
      (
        get-put_self (or_text inst.id inst.name) a.next a.allocations,
        ap (λ (y : SshAllocation). y.public_port) (new_cell (found env now inst info) a),
        register-leaks saved now _ r a ex here live unused v orderly,
      )
