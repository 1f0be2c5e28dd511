-- ===== src/Networking/AllocatorEngine/Pool.antt =====
-- backend/internal/networking/allocator.go: findFreePoolRange.
use mystic_hypervisor.Hosts.{Protocol, ForwardingRule}
use mystic_hypervisor.Networking.AllocatorEngine.{HostInfo, is_port_free}
use mystic_hypervisor.Networking.Requests.{AllocationPool}
use mystic_hypervisor.Prelude.Int.{ℤ, pos, pos_part, int_eq, lez, ltz, add_int, ◌+ℤ◌, ◌-ℤ◌}
use mystic_hypervisor.Prelude.{
  ℕ, zero, suc, Option, none, some, Bool, true, false, ◌||◌, ◌==◌, List, if◌then◌else◌,
}

-- The loop: `count` ports up to `p` are free one after the other, the first of them is `candidate`.
unfoldable pub scan_pool : (ℤ → Bool) → ℤ → ℕ → ℤ → ℤ → ℤ → ℤ
scan_pool free size zero p count candidate = pos 0
scan_pool free size (suc rounds) p count candidate =
    let first = if count == pos 0 then p else candidate in
    let more = add_int count (pos 1) in
    elim (free p) [
      | true ↦ elim (more == size) [
        | true ↦ first
        | false ↦ scan_pool free size rounds (add_int p (pos 1)) more first
      ]
      | false ↦ scan_pool free size rounds (add_int p (pos 1)) (pos 0) (pos 0)
    ]

-- How often `for p := pool.StartPort; p <= pool.EndPort; p++` goes round.
unfoldable pub pool_rounds : ℤ → ℤ → ℕ
unfolding ◌+ℤ◌ ◌-ℤ◌
pool_rounds start_port end_port = pos_part (end_port -ℤ start_port +ℤ pos 1)

unfoldable pub find_free_pool_range :
    Option AllocationPool → ℤ → Protocol → List ForwardingRule → Option HostInfo → ℤ
find_free_pool_range none size proto rules host_info = pos 0
find_free_pool_range (some pool) size proto rules host_info =
    if lez pool.start_port (pos 0) || ltz pool.end_port pool.start_port
    then pos 0
    else scan_pool (λ p. is_port_free p proto rules host_info) size
        (pool_rounds pool.start_port pool.end_port) pool.start_port (pos 0) (pos 0)
