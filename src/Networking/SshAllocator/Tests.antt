-- ===== src/Networking/SshAllocator/Tests.antt =====
-- The allocator's theorems at concrete allocators, and runs of the allocator.
use mystic_hypervisor.Networking.Exposure.{or_text}
use mystic_hypervisor.Networking.SshAllocation.{Env}
use mystic_hypervisor.Networking.SshAllocator.Allocate.{
  Reserved, RolledBack, allocate_port-Reserved, allocate_port-allocate_port,
}
use mystic_hypervisor.Networking.SshAllocator.Calls.{Call, allocates, releases, run, step}
use mystic_hypervisor.Networking.SshAllocator.Discovery.{DiscoveredSshProxyInfo, reconcile_info}
use mystic_hypervisor.Networking.SshAllocator.Exclusive.{Exclusive, IsLive}
use mystic_hypervisor.Networking.SshAllocator.Faults.{release_port-steals, reconcile_info-leaks}
use mystic_hypervisor.Networking.SshAllocator.Histories.{orderly-Exclusive}
use mystic_hypervisor.Networking.SshAllocator.Release.{
  get_allocation-release_port, allocate_port-release_port,
}
use mystic_hypervisor.Networking.SshAllocator.Safety.{reachable-WellFormed}
use mystic_hypervisor.Networking.SshAllocator.Used.{AllUsed}
use mystic_hypervisor.Networking.SshAllocator.WellFormed.{WellFormed}
use mystic_hypervisor.Networking.SshAllocator.{
  Allocator, ok, err, no_ssh_ports_available, persist_failed, ssh_allocation_not_found,
  allocate_port, find_port, get_allocation, get_allocation_by_port, is_busy, live_allocation,
  new_ssh_port_allocator, release_port, allocate_for, reserve_port, is_public_port_in_use,
  commit_allocation, save_store, register,
}
use mystic_hypervisor.Prelude.Int.{ℤ, pos, int_eq}
use mystic_hypervisor.Prelude.Maps.{get, put, delete}
use mystic_hypervisor.Prelude.{
  ℕ, ◌≤◌, ◌≡◌, ◌≢◌, refl, sym, subst, ◌∙◌, ◌⊎◌, none, some, String, true, false, List, [], ◌∷◌,
  ◌==◌, nat_eq, string_eq, arith,
}
use mystic_hypervisor.Providers.{Instance, InstanceState, InstanceType}
use mystic_hypervisor.Store.{saves}
use mystic_hypervisor.Text.{trim_space}

abbrev env0 : Env
env0 = record { public_ssh_host = ""; incus_host_address = "" }

abbrev two_calls : List (ℕ × Call)
two_calls = (1, allocates true none "a" "") ∷ (2, allocates true none " b " "web") ∷ []

abbrev new : Allocator
new = new_ssh_port_allocator false none

abbrev two : Allocator
two = run env0 two_calls new

blank_ne : (s : String) → (s == "") ≡ false → s ≢ ""
blank_ne s h e = cc (h, (string_eq.same_iff s "").1 e)

test_two :
    (get "a" two.allocations ≡ some 0)
    × (get "b" two.allocations ≡ some 1)
    × ((two.cells 0).public_port ≡ pos 22100)
    × ((two.cells 1).public_port ≡ pos 22101)
unfolding run step allocate_port release_port new_ssh_port_allocator get trim_space allocate_for
    live_allocation reserve_port find_port is_busy is_public_port_in_use commit_allocation
    save_store register put delete
test_two = (refl, refl, refl, refl)

orderly-Exclusive_example : Exclusive (run env0 two_calls (new_ssh_port_allocator false none))
orderly-Exclusive_example = orderly-Exclusive env0 none two_calls (_, (_, _))

reachable-WellFormed_example :
    WellFormed (run env0 two_calls (new_ssh_port_allocator true (some [])))
reachable-WellFormed_example = reachable-WellFormed env0 true (some []) two_calls

not_blank : trim_space "c" ≢ ""
unfolding trim_space
not_blank = blank_ne (trim_space "c") refl

no_c : live_allocation (trim_space "c") two ≡ none
unfolding run step allocate_port release_port new_ssh_port_allocator get trim_space allocate_for
    live_allocation reserve_port find_port is_busy is_public_port_in_use commit_allocation
    save_store register put delete
no_c = refl

allocate_port-Reserved_example :
    (let (r, b) = allocate_port true env0 3 none "c" "" two in
      ((r ≡ err no_ssh_ports_available) × (b ≡ two) × AllUsed none two.port_map)
      ⊎ ((r ≡ ok two.next) × (saves true two.store ≡ true) × Reserved env0 3 none "c" "" two b)
      ⊎ ((r ≡ err persist_failed) × (saves true two.store ≡ false) × RolledBack "c" two b))
allocate_port-Reserved_example = allocate_port-Reserved env0 3 none "c" "" two true not_blank no_c

has_a : get "a" two.allocations ≡ some 0
has_a = test_two.0

has_b : get "b" two.allocations ≡ some 1
has_b = test_two.1

IsLive-a : IsLive (two.cells 0)
unfolding run step allocate_port release_port new_ssh_port_allocator get trim_space allocate_for
    live_allocation reserve_port find_port is_busy is_public_port_in_use commit_allocation
    save_store register put delete
IsLive-a = refl

IsLive-b : IsLive (two.cells 1)
unfolding run step allocate_port release_port new_ssh_port_allocator get trim_space allocate_for
    live_allocation reserve_port find_port is_busy is_public_port_in_use commit_allocation
    save_store register put delete
IsLive-b = refl

gives_c : (allocate_port true env0 3 none "c" "" two).0 ≡ ok 2
unfolding run step allocate_port release_port new_ssh_port_allocator get trim_space allocate_for
    live_allocation reserve_port find_port is_busy is_public_port_in_use commit_allocation
    save_store register put delete
gives_c = refl

allocate_port-allocate_port_example :
    (let b = (allocate_port true env0 3 none "c" "" two).1 in
      allocate_port false env0 4 none "c" "other" b ≡ (ok 2, b))
allocate_port-allocate_port_example =
    allocate_port-allocate_port true false env0 env0 3 4 none none "c" "" "other" two 2 gives_c

get_allocation-release_port_example :
    (get_allocation "a" (release_port true 3 "a" two) ≡ err ssh_allocation_not_found)
    × (get_allocation_by_port (two.cells 0).public_port (release_port true 3 "a" two)
        ≡ err ssh_allocation_not_found)
    × ((p : ℤ)
        → p ≢ (two.cells 0).public_port
        → get p (release_port true 3 "a" two).port_map ≡ get p two.port_map)
get_allocation-release_port_example = get_allocation-release_port true 3 "a" 0 two has_a

port_a : (two.cells 0).public_port ≡ pos 22100
port_a = test_two.2

no_c_after : live_allocation (trim_space "c") (release_port true 3 "a" two) ≡ none
unfolding run step allocate_port release_port new_ssh_port_allocator get trim_space allocate_for
    live_allocation reserve_port find_port is_busy is_public_port_in_use commit_allocation
    save_store register put delete
no_c_after = refl

allocate_port-release_port_example :
    (let (x, b) = allocate_port true env0 4 none "c" "" (release_port true 3 "a" two) in
      (x ≡ ok (release_port true 3 "a" two).next)
      × (w : Reserved env0 4 none "c" "" (release_port true 3 "a" two) b) × (w.port ≤ 22100))
unfolding run step allocate_port release_port new_ssh_port_allocator get trim_space allocate_for
    live_allocation reserve_port find_port is_busy is_public_port_in_use commit_allocation
    save_store register put delete
allocate_port-release_port_example =
    allocate_port-release_port true 3 "a" 0 two has_a true env0 4 none "c" "" 22100 port_a
      (omega arith) (omega arith) refl not_blank no_c_after refl

-- The port of `a` is given back and goes to `b`.
abbrev reused : Allocator
reused =
    run env0
      ((1, allocates true none "a" "")
        ∷ (2, releases true "a")
        ∷ (3, allocates true none "b" "")
        ∷ [])
      new

test_reused :
    (get "a" reused.allocations ≡ some 0)
    × (get "b" reused.allocations ≡ some 1)
    × ((reused.cells 1).public_port ≡ (reused.cells 0).public_port)
    × IsLive (reused.cells 1)
unfolding run step allocate_port release_port new_ssh_port_allocator get trim_space allocate_for
    live_allocation reserve_port find_port is_busy is_public_port_in_use commit_allocation
    save_store register put delete
test_reused = (refl, refl, refl, refl)

release_port-steals_example :
    (let b = release_port true 4 "a" reused in
      (get "b" b.allocations ≡ some 1)
      × IsLive (b.cells 1)
      × (get (b.cells 1).public_port b.port_map ≡ none))
release_port-steals_example =
    release_port-steals true 4 "a" "b" 0 1 reused test_reused.0 test_reused.1
      (λ e. absurd (omega (arith, e))) test_reused.3 test_reused.2

abbrev found : DiscoveredSshProxyInfo
found = record {
  device_name = "ssh-proxy";
  public_port = pos 22150;
  public_ip = "0.0.0.0";
  private_ip = "10.0.0.5";
  destination_port = pos 22;
  protocol = "TCP";
}

abbrev inst_a : Instance
inst_a = record {
  id = "";
  name = "a";
  type = InstanceType.container;
  state = InstanceState.running;
  provider = "incus";
  node = "";
  ip_address = "10.0.0.5";
  limits = record { cpu_cores = pos 1; memory_bytes = pos 0; disk_bytes = pos 0 };
  labels = [];
  devices = [];
  created_at = none;
  updated_at = none;
}

unused_port : get (pos 22150) two.port_map ≡ none
unfolding run step allocate_port release_port new_ssh_port_allocator get trim_space allocate_for
    live_allocation reserve_port find_port is_busy is_public_port_in_use commit_allocation
    save_store register put delete
unused_port = refl

some_inj : {m n : ℕ} → some m ≡ some n → m ≡ n
some_inj e = cc

IsLive-of_a : (s : ℕ) → get "a" two.allocations ≡ some s → IsLive (two.cells s)
IsLive-of_a s e =
    let q : 0 ≡ s = some_inj (sym has_a ∙ e) in subst (λ r. IsLive (two.cells r)) q IsLive-a

reconcile_info-leaks_example :
    (let b = reconcile_info env0 4 inst_a (some found) two in
      (get (or_text inst_a.id inst_a.name) b.allocations ≡ some two.next)
      × ((b.cells two.next).public_port ≡ found.public_port)
      × (get (two.cells 0).public_port (release_port true 4 "a" b).port_map ≡ some 0))
reconcile_info-leaks_example =
    reconcile_info-leaks true env0 4 inst_a found 0 two orderly-Exclusive_example has_a IsLive-a
      unused_port "a" IsLive-of_a
