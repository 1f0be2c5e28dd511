-- ===== src/Networking/SshAllocator/WellFormed.antt =====
-- What holds of the allocator's maps after any sequence of calls, whatever their order, arguments and
-- failures. The invariant and the loading of a store are here, the methods in `Steps`.
use mystic_hypervisor.Networking.SshAllocation.{SshAllocation, in_range}
use mystic_hypervisor.Networking.SshAllocator.{
  Allocator, register, add_loaded, add_all_loaded, empty_allocator, new_ssh_port_allocator, stored,
  write, save_store,
}
use mystic_hypervisor.Prelude.Int.{ℤ, int_eq}
use mystic_hypervisor.Prelude.Maps.{get, delete, get-put, get-delete}
use mystic_hypervisor.Prelude.{
  ℕ, ◌<◌, ◌≡◌, some, String, Bool, true, false, arith, string_eq, List, [], ◌∷◌,
}
use mystic_hypervisor.Store.{Store}

-- A port of the map is an SSH port, and leads to an object that has this port. A workload leads to an
-- object that names this workload.
pub record WellFormed (a : Allocator) : Type 0 where
  pub mapped :
      (p : ℤ) (r : ℕ)
      → get p a.port_map ≡ some r
      → (r < a.next) × ((a.cells r).public_port ≡ p) × (in_range p ≡ true)
  pub owned :
      (w : String) (r : ℕ)
      → get w a.allocations ≡ some r
      → (r < a.next) × ((a.cells r).workload_id ≡ w)

pub save_store-WellFormed :
    (saved : Bool) {a : Allocator} → WellFormed a → WellFormed (save_store saved a)
unfolding save_store
save_store-WellFormed saved wf = record { mapped = wf.mapped; owned = wf.owned }

pub register-WellFormed :
    (x : SshAllocation) {a : Allocator}
    → in_range x.public_port ≡ true
    → WellFormed a
    → WellFormed (register x a)
unfolding register
register-WellFormed x {a} h wf = record {
  mapped = λ p r e. ground (
    arith,
    get-put x.public_port p a.next a.port_map,
    int_eq.same_iff x.public_port p,
    wf.mapped p r,
    e,
  );
  owned = λ w r e. ground (
    arith,
    get-put x.workload_id w a.next a.allocations,
    string_eq.same_iff x.workload_id w,
    wf.owned w r,
    e,
  );
}

add_loaded-WellFormed :
    (x : SshAllocation) {a : Allocator} → WellFormed a → WellFormed (add_loaded x a)
unfolding add_loaded
add_loaded-WellFormed x {a} wf = record {
  mapped = λ p r e. ground (
    arith,
    get-put x.public_port p a.next a.port_map,
    int_eq.same_iff x.public_port p,
    wf.mapped p r,
    e,
  );
  owned = λ w r e. ground (
    arith,
    get-put x.workload_id w a.next a.allocations,
    string_eq.same_iff x.workload_id w,
    wf.owned w r,
    e,
  );
}

add_all_loaded-WellFormed :
    (xs : List SshAllocation) {a : Allocator} → WellFormed a → WellFormed (add_all_loaded xs a)
unfolding add_all_loaded
add_all_loaded-WellFormed [] wf = wf
add_all_loaded-WellFormed (x ∷ xs) wf = add_all_loaded-WellFormed xs (add_loaded-WellFormed x wf)

empty-WellFormed : (store : Store SshAllocation) → WellFormed (empty_allocator store)
unfolding get
empty-WellFormed store = record { mapped = λ p r e. cc; owned = λ w r e. cc }

-- An allocator that is made from any store is well formed.
pub new_ssh_port_allocator-WellFormed :
    (loads : Bool) (store : Store SshAllocation) → WellFormed (new_ssh_port_allocator loads store)
unfolding new_ssh_port_allocator
new_ssh_port_allocator-WellFormed true store =
    add_all_loaded-WellFormed (stored store) (empty-WellFormed store)
new_ssh_port_allocator-WellFormed false store = empty-WellFormed store

-- An object may change, but for its port and its workload.
pub write-WellFormed :
    (r : ℕ) (x : SshAllocation) {a : Allocator}
    → x.public_port ≡ (a.cells r).public_port
    → x.workload_id ≡ (a.cells r).workload_id
    → WellFormed a
    → WellFormed (record a { cells = write r x a.cells })
write-WellFormed r x {a} h k wf = record {
  mapped = λ p q e. ground (arith, wf.mapped p q, e);
  owned = λ w q e. ground (arith, wf.owned w q, e);
}

-- Entries may go.
pub delete_port-WellFormed :
    (p : ℤ) {a : Allocator}
    → WellFormed a
    → WellFormed (record a { port_map = delete p a.port_map })
delete_port-WellFormed p {a} wf = record {
  mapped = λ q r e. ground (arith, get-delete p q a.port_map, wf.mapped q r, e);
  owned = wf.owned;
}

pub delete_workload-WellFormed :
    (w : String) {a : Allocator}
    → WellFormed a
    → WellFormed (record a { allocations = delete w a.allocations })
delete_workload-WellFormed w {a} wf = record {
  mapped = wf.mapped;
  owned = λ v r e. ground (arith, get-delete w v a.allocations, wf.owned v r, e);
}
