-- ===== src/Networking/SshAllocator/Release.antt =====
-- What ReleasePort does, and what becomes of the port.
use mystic_hypervisor.Networking.SshAllocator.Used.{IsLowestUnused-le, is_busy_iff}
use mystic_hypervisor.Networking.Exposure.{NetworkExposure}
use mystic_hypervisor.Networking.SshAllocation.{SshAllocationStatus, Env, ssh_port_min}
use mystic_hypervisor.Networking.SshAllocator.Allocate.{Reserved, allocate_port-Reserved}
use mystic_hypervisor.Networking.SshAllocator.{
  Allocator, ok, err, ssh_allocation_not_found, allocate_port, release_port, save_store,
  live_allocation, is_busy, is_public_port_in_use, get_allocation, get_allocation_by_port, visible,
}
use mystic_hypervisor.Prelude.Int.{ℤ, pos, int_eq}
use mystic_hypervisor.Prelude.Maps.{GoMap, get, get-delete}
use mystic_hypervisor.Prelude.{
  ℕ, ◌≤◌, ◌<◌, ◌≡◌, ◌≢◌, refl, sym, Option, none, some, String, Bool, true, false, arith, ==_ne,
  ==_refl, ◌==◌, inl, inr, if◌then◌else◌, string_eq, nat_eq,
}
use mystic_hypervisor.Store.{saves}
use mystic_hypervisor.Text.{trim_space}

-- `b` is `a` with the workload's object released and its port given back.
pub record Released (now : ℕ) (id : String) (r : ℕ) (a b : Allocator) : Type 0 where
  pub status : (b.cells r).status ≡ SshAllocationStatus.released
  pub stamped : (b.cells r).released_at ≡ some now
  pub others : (s : ℕ) → s ≢ r → b.cells s ≡ a.cells s
  pub by_workload : b.allocations ≡ a.allocations
  pub by_port :
      (p : ℤ) → get p b.port_map ≡ (if (a.cells r).public_port == p then none else get p a.port_map)
  pub same_port : (b.cells r).public_port ≡ (a.cells r).public_port
  pub same_next : b.next ≡ a.next

pub release_port-Released :
    (saved : Bool) (now : ℕ) (id : String) (r : ℕ) (a : Allocator)
    → get id a.allocations ≡ some r
    → Released now id r a (release_port saved now id a)
unfolding release_port save_store
release_port-Released saved now id r a e =
    rw (e, release_port)
      (record {
        status = ground arith;
        stamped = ground arith;
        others = λ s ne. ground arith;
        by_workload = refl;
        by_port = λ p. get-delete (a.cells r).public_port p a.port_map;
        same_port = ground arith;
        same_next = refl;
      })

is_busy_free :
    (em : Option (GoMap String NetworkExposure)) (m : GoMap ℤ ℕ) (q : ℕ)
    → get (pos q) m ≡ none
    → is_public_port_in_use em (pos q) ≡ false
    → is_busy em m q ≡ false
unfolding is_busy
is_busy_free em m q e f = ground (arith, e, f)

module _ (saved : Bool) (now : ℕ) (id : String) (r : ℕ) (a : Allocator)
    (here : get id a.allocations ≡ some r) where
  abbrev after : Allocator
  after = release_port saved now id a

  -- After a release neither the workload nor its port leads to an allocation, and no other port has
  -- changed.
  pub get_allocation-release_port :
      (get_allocation id after ≡ err ssh_allocation_not_found)
      × (get_allocation_by_port (a.cells r).public_port after ≡ err ssh_allocation_not_found)
      × ((p : ℤ) → p ≢ (a.cells r).public_port → get p after.port_map ≡ get p a.port_map)
  unfolding get_allocation get_allocation_by_port visible
  get_allocation-release_port =
      let d = release_port-Released saved now id r a here in
      (
        rw (d.by_workload) (rw (here, visible) (rw (d.status) refl)),
        rw (d.by_port (a.cells r).public_port) (rw (==_refl (a.cells r).public_port, visible) refl),
        λ p ne. ground (arith, d.by_port p, ne, ==_ne (a.cells r).public_port p (λ e. ne (sym e))),
      )

  -- A port in the pool that is given back is given out again: unless an exposure uses it, the next
  -- allocation for a workload that has none, if the store takes it, is of that port or a lower one.
  pub allocate_port-release_port :
      (saved' : Bool) (env : Env) (now' : ℕ) (em : Option (GoMap String NetworkExposure))
      (id' name : String) (q : ℕ)
      → (a.cells r).public_port ≡ pos q
      → ssh_port_min ≤ q
      → q < 22201
      → is_public_port_in_use em (pos q) ≡ false
      → trim_space id' ≢ ""
      → live_allocation (trim_space id') after ≡ none
      → saves saved' after.store ≡ true
      → (let (x, b) = allocate_port saved' env now' em id' name after in
          (x ≡ ok after.next) × (w : Reserved env now' em id' name after b) × (w.port ≤ q))
  allocate_port-release_port saved' env now' em id' name q e lo hi unused ne gone s =
      let d = release_port-Released saved now id r a here in
      let gave = d.by_port (pos q) in
      let free = is_busy_free em after.port_map q (rw (gave) (rw (e) (ground arith))) unused in
      elim (allocate_port-Reserved env now' em id' name after saved' ne gone) [
        | inl (_, _, all) ↦ absurd (cc ((is_busy_iff em after.port_map q).1 (all q lo hi), free))
        | inr (inl (x, _, w)) ↦
            (x, w, IsLowestUnused-le em after.port_map w.port q w.lowest lo free)
        | inr (inr (_, t, _)) ↦ absurd (cc)
      ]
