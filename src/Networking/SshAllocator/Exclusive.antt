-- ===== src/Networking/SshAllocator/Exclusive.antt =====
-- Ports that are held by one workload each. This needs more of the caller than `WellFormed`: no
-- release of what is released already, and no reservation on top of another.
use mystic_hypervisor.Networking.Exposure.{NetworkExposure}
use mystic_hypervisor.Networking.SshAllocation.{
  SshAllocation, SshAllocationStatus, Env, is_released,
}
use mystic_hypervisor.Networking.SshAllocator.Calls.{fresh, allocate_cases}
use mystic_hypervisor.Networking.SshAllocator.{
  Allocator, commit_allocation, allocate_port, update_allocation_status, release_port, save_store,
  register, live_allocation, write, is_busy,
}
use mystic_hypervisor.Prelude.Int.{ℤ, pos, int_eq}
use mystic_hypervisor.Prelude.Maps.{GoMap, get, put, delete, get-put, get-delete}
use mystic_hypervisor.Prelude.{
  ℕ, ◌<◌, ◌≡◌, refl, Option, none, some, String, Bool, true, false, arith, Bool-cases, Option-cases,
  inl, inr, string_eq,
}
use mystic_hypervisor.Store.{saves}

abbrev pub IsLive : SshAllocation → Type 0
IsLive x = is_released x.status ≡ false

-- The port map holds exactly the ports of the live allocations: each of its ports leads to the
-- current allocation of some workload, which is live, and each live allocation has its port there.
pub record Exclusive (a : Allocator) : Type 0 where
  pub mapped :
      (p : ℤ) (r : ℕ)
      → get p a.port_map ≡ some r
      → (r < a.next)
        × ((a.cells r).public_port ≡ p)
        × IsLive (a.cells r)
        × (get (a.cells r).workload_id a.allocations ≡ some r)
  pub owned :
      (w : String) (r : ℕ)
      → get w a.allocations ≡ some r
      → (r < a.next) × ((a.cells r).workload_id ≡ w)
  pub kept :
      (w : String) (r : ℕ)
      → get w a.allocations ≡ some r
      → IsLive (a.cells r)
      → get (a.cells r).public_port a.port_map ≡ some r

pub save_store-Exclusive :
    (saved : Bool) {a : Allocator} → Exclusive a → Exclusive (save_store saved a)
unfolding save_store
save_store-Exclusive saved ex = record { mapped = ex.mapped; owned = ex.owned; kept = ex.kept }

pub register-Exclusive :
    (x : SshAllocation) {a : Allocator}
    → IsLive x
    → get x.public_port a.port_map ≡ none
    → live_allocation x.workload_id a ≡ none
    → Exclusive a
    → Exclusive (register x a)
unfolding register live_allocation
register-Exclusive x {a} live unused gone ex = record {
  mapped = λ p r e. ground (
    arith,
    get-put x.public_port p a.next a.port_map,
    int_eq.same_iff x.public_port p,
    ex.mapped p r,
    e,
    get-put x.workload_id (a.cells r).workload_id a.next a.allocations,
    get-put x.workload_id x.workload_id a.next a.allocations,
    string_eq.same_iff x.workload_id (a.cells r).workload_id,
    string_eq.same_iff x.workload_id x.workload_id,
  );
  owned = λ w r e. ground (
    arith,
    get-put x.workload_id w a.next a.allocations,
    string_eq.same_iff x.workload_id w,
    ex.owned w r,
    e,
  );
  kept = λ w r e l. ground (
    arith,
    get-put x.workload_id w a.next a.allocations,
    string_eq.same_iff x.workload_id w,
    ex.owned w r,
    ex.kept w r,
    e,
    get-put x.public_port x.public_port a.next a.port_map,
    get-put x.public_port (a.cells r).public_port a.next a.port_map,
    int_eq.same_iff x.public_port x.public_port,
    int_eq.same_iff x.public_port (a.cells r).public_port,
  );
}

-- The removal of a workload and its port, after they were registered, leaves the others as they were.
withdraw-Exclusive :
    (x : SshAllocation) {a : Allocator}
    → get x.public_port a.port_map ≡ none
    → live_allocation x.workload_id a ≡ none
    → Exclusive a
    → Exclusive (record (register x a) {
      allocations = delete x.workload_id (put x.workload_id a.next a.allocations);
      port_map = delete x.public_port (put x.public_port a.next a.port_map);
    })
unfolding register live_allocation
withdraw-Exclusive x {a} unused gone ex = record {
  mapped = λ p r e. ground (
    arith,
    get-delete x.public_port p (put x.public_port a.next a.port_map),
    get-put x.public_port p a.next a.port_map,
    ex.mapped p r,
    e,
    get-delete x.workload_id (a.cells r).workload_id (put x.workload_id a.next a.allocations),
    get-put x.workload_id (a.cells r).workload_id a.next a.allocations,
    string_eq.same_iff x.workload_id (a.cells r).workload_id,
  );
  owned = λ w r e. ground (
    arith,
    get-delete x.workload_id w (put x.workload_id a.next a.allocations),
    get-put x.workload_id w a.next a.allocations,
    ex.owned w r,
    e,
  );
  kept = λ w r e l. ground (
    arith,
    get-delete x.workload_id w (put x.workload_id a.next a.allocations),
    get-put x.workload_id w a.next a.allocations,
    ex.owned w r,
    ex.kept w r,
    e,
    get-delete x.public_port (a.cells r).public_port (put x.public_port a.next a.port_map),
    get-put x.public_port (a.cells r).public_port a.next a.port_map,
    int_eq.same_iff x.public_port (a.cells r).public_port,
  );
}

commit_allocation-Exclusive :
    (saved : Bool) (x : SshAllocation) {a : Allocator}
    → IsLive x
    → get x.public_port a.port_map ≡ none
    → live_allocation x.workload_id a ≡ none
    → Exclusive a
    → Exclusive (commit_allocation saved x a).1
unfolding commit_allocation register save_store
commit_allocation-Exclusive saved x {a} live unused gone ex =
    elim (Bool-cases (saves saved a.store)) [
      | inl e ↦ rw e (save_store-Exclusive saved (register-Exclusive x live unused gone ex))
      | inr e ↦
          let w = withdraw-Exclusive x unused gone ex in
          rw e (record { mapped = w.mapped; owned = w.owned; kept = w.kept })
    ]

-- A port that is not busy is not in the map.
unused_of_free :
    (em : Option (GoMap String NetworkExposure)) (q : ℕ) (a : Allocator)
    → is_busy em a.port_map q ≡ false
    → get (pos q) a.port_map ≡ none
unfolding is_busy
unused_of_free em q a h = ground arith

-- AllocatePort keeps the ports exclusive, with no condition.
pub allocate_port-Exclusive :
    (saved : Bool) (env : Env) (now : ℕ) (em : Option (GoMap String NetworkExposure))
    (id name : String) {a : Allocator}
    → Exclusive a
    → Exclusive (allocate_port saved env now em id name a).1
allocate_port-Exclusive saved env now em id name {a} ex =
    allocate_cases saved env now em id name a (λ r. Exclusive r.1) (λ _. ex) (λ _ _ _. ex)
      (λ _ _ _. ex)
      (λ _ gone q l.
        commit_allocation-Exclusive saved (fresh env now id name q) refl
          (unused_of_free em q a l.free) gone ex)

-- A change of an object's status, to one that is live, and of what else is not read here.
write-Exclusive :
    (r : ℕ) (x : SshAllocation) {a : Allocator}
    → x.public_port ≡ (a.cells r).public_port
    → x.workload_id ≡ (a.cells r).workload_id
    → IsLive x
    → IsLive (a.cells r)
    → Exclusive a
    → Exclusive (record a { cells = write r x a.cells })
write-Exclusive r x {a} same_port same_id live was ex = record {
  mapped = λ p q e. ground (arith, ex.mapped p q, e);
  owned = λ w q e. ground (arith, ex.owned w q, e);
  kept = λ w q e l. ground (arith, ex.kept w q, e);
}

-- UpdateAllocationStatus keeps the ports exclusive if neither the old nor the new status is RELEASED.
pub update_allocation_status-Exclusive :
    (saved : Bool) (now : ℕ) (id : String) (status : SshAllocationStatus) (ip : String)
    {a : Allocator}
    → is_released status ≡ false
    → ((r : ℕ) → get id a.allocations ≡ some r → IsLive (a.cells r))
    → Exclusive a
    → Exclusive (update_allocation_status saved now id status ip a).1
unfolding update_allocation_status
update_allocation_status-Exclusive saved now id status ip {a} h live ex =
    elim (Option-cases (get id a.allocations)) [
      | inl e ↦ rw (e, update_allocation_status) ex
      | inr (r, e) ↦
          let after = save_store-Exclusive saved (write-Exclusive r _ refl refl h (live r e) ex) in
          elim (Bool-cases (saves saved a.store)) [
            | inl s ↦ rw (e, update_allocation_status, s) after
            | inr s ↦ rw (e, update_allocation_status, s) after
          ]
    ]

free-Exclusive :
    (w : String) (r : ℕ) (x : SshAllocation) {a : Allocator}
    → get w a.allocations ≡ some r
    → x.public_port ≡ (a.cells r).public_port
    → x.workload_id ≡ (a.cells r).workload_id
    → is_released x.status ≡ true
    → IsLive (a.cells r)
    → Exclusive a
    → Exclusive (record a {
      cells = write r x a.cells;
      port_map = delete (a.cells r).public_port a.port_map;
    })
free-Exclusive w r x {a} here same_port same_id dead was ex = record {
  mapped = λ p q e. ground (
    arith,
    get-delete (a.cells r).public_port p a.port_map,
    int_eq.same_iff (a.cells r).public_port p,
    ex.mapped p q,
    ex.kept w r here was,
    ex.owned w r here,
    e,
  );
  owned = λ v q e. ground (arith, ex.owned v q, e);
  kept = λ v q e l. ground (
    arith,
    get-delete (a.cells r).public_port (a.cells q).public_port a.port_map,
    int_eq.same_iff (a.cells r).public_port (a.cells q).public_port,
    ex.kept v q e,
    ex.kept w r here was,
    e,
  );
}

-- ReleasePort keeps the ports exclusive if what it releases is not released already.
pub release_port-Exclusive :
    (saved : Bool) (now : ℕ) (id : String) {a : Allocator}
    → ((r : ℕ) → get id a.allocations ≡ some r → IsLive (a.cells r))
    → Exclusive a
    → Exclusive (release_port saved now id a)
unfolding release_port
release_port-Exclusive saved now id {a} live ex = elim (Option-cases (get id a.allocations)) [
  | inl e ↦ rw (e, release_port) ex
  | inr (r, e) ↦
      rw (e, release_port)
        (save_store-Exclusive saved (free-Exclusive id r _ e refl refl refl (live r e) ex))
]
