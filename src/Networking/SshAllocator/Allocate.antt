-- ===== src/Networking/SshAllocator/Allocate.antt =====
-- What AllocatePort does on each of its branches.
use mystic_hypervisor.Networking.Exposure.{NetworkExposure}
use mystic_hypervisor.Networking.SshAllocation.{Env, ssh_port_min}
use mystic_hypervisor.Networking.SshAllocator.Calls.{fresh, allocate_cases}
use mystic_hypervisor.Networking.SshAllocator.Search.{IsLowest}
use mystic_hypervisor.Networking.SshAllocator.Used.{
  AllBusy-AllUsed, AllUsed, IsLowest-IsLowestUnused, IsLowestUnused,
}
use mystic_hypervisor.Networking.SshAllocator.{
  Allocator, ok, err, no_ssh_ports_available, persist_failed, contents, commit_allocation,
  allocate_port, allocate_for, save_store, register, live_allocation, is_busy,
}
use mystic_hypervisor.Prelude.Int.{ℤ, pos, int_eq}
use mystic_hypervisor.Prelude.Maps.{GoMap, get, put, get-put, get-delete}
use mystic_hypervisor.Prelude.{
  ℕ, ◌≡◌, ◌≢◌, refl, ap, ◌∙◌, ==_refl, ◌⊎◌, Option, none, some, String, Bool, true, false, arith,
  ==_ne, ◌==◌, Bool-cases, inl, inr, if◌then◌else◌, string_eq, nat_eq,
}
use mystic_hypervisor.Store.{save, saves, save_of_saves, save_of_fails}
use mystic_hypervisor.Text.{trim_space}

-- `b` is `a` with the lowest free port given to the workload: what AllocatePort promises.
pub record Reserved (env : Env) (now : ℕ) (em : Option (GoMap String NetworkExposure))
    (id name : String) (a b : Allocator) : Type 0 where
  pub port : ℕ
  pub lowest : IsLowestUnused em a.port_map port
  pub object : b.cells a.next ≡ fresh env now id name port
  pub others : (r : ℕ) → r ≢ a.next → b.cells r ≡ a.cells r
  pub by_workload :
      (v : String)
      → get v b.allocations ≡ (if trim_space id == v then some a.next else get v a.allocations)
  pub by_port :
      (p : ℤ) → get p b.port_map ≡ (if pos port == p then some a.next else get p a.port_map)
  pub persisted : b.store ≡ save true (contents b) a.store

-- `b` has no trace of the workload, and is otherwise `a`.
pub record RolledBack (id : String) (a b : Allocator) : Type 0 where
  pub by_workload :
      (v : String)
      → get v b.allocations ≡ (if trim_space id == v then none else get v a.allocations)
  pub by_port : (p : ℤ) → get p b.port_map ≡ get p a.port_map
  pub persisted : b.store ≡ a.store

module _ (env : Env) (now : ℕ) (em : Option (GoMap String NetworkExposure)) (id name : String)
    (a : Allocator) where
  commit-Reserved :
      (saved : Bool) (q : ℕ)
      → saves saved a.store ≡ true
      → IsLowest (is_busy em a.port_map) ssh_port_min 22201 q
      → ((commit_allocation saved (fresh env now id name q) a).0 ≡ ok a.next)
        × Reserved env now em id name a (commit_allocation saved (fresh env now id name q) a).1
  unfolding commit_allocation register save_store
  commit-Reserved saved q s l = rw s (
    refl,
    record {
      port = q;
      lowest = IsLowest-IsLowestUnused em a.port_map q l;
      object = ground arith;
      others = λ r ne. ground arith;
      by_workload = λ v. get-put (trim_space id) v a.next a.allocations;
      by_port = λ p. get-put (pos q) p a.next a.port_map;
      persisted = save_of_saves saved _ a.store s;
    },
  )

  commit-RolledBack :
      (saved : Bool) (q : ℕ)
      → saves saved a.store ≡ false
      → IsLowest (is_busy em a.port_map) ssh_port_min 22201 q
      → ((commit_allocation saved (fresh env now id name q) a).0 ≡ err persist_failed)
        × RolledBack id a (commit_allocation saved (fresh env now id name q) a).1
  unfolding commit_allocation register save_store is_busy
  commit-RolledBack saved q s l = rw s (
    refl,
    record {
      by_workload = λ v. ground (
        arith,
        get-delete (trim_space id) v (put (trim_space id) a.next a.allocations),
        get-put (trim_space id) v a.next a.allocations,
      );
      by_port = λ p. ground (
        arith,
        get-delete (pos q) p (put (pos q) a.next a.port_map),
        get-put (pos q) p a.next a.port_map,
        int_eq.same_iff (pos q) p,
        l.free,
      );
      persisted = save_of_fails saved _ a.store s;
    },
  )

  -- For a workload with an id and no live allocation, AllocatePort either finds all 101 ports used,
  -- and returns the error and changes nothing; or it reserves the lowest port at which the allocator
  -- has no allocation and which no exposure has as its public port, in memory and in the store; or the store fails, and it returns
  -- the error and leaves no trace of the workload in memory, every port as it was, and the store too.
  pub allocate_port-Reserved :
      (saved : Bool)
      → trim_space id ≢ ""
      → live_allocation (trim_space id) a ≡ none
      → (let (r, b) = allocate_port saved env now em id name a in
          ((r ≡ err no_ssh_ports_available) × (b ≡ a) × AllUsed em a.port_map)
          ⊎ ((r ≡ ok a.next) × (saves saved a.store ≡ true) × Reserved env now em id name a b)
          ⊎ ((r ≡ err persist_failed) × (saves saved a.store ≡ false) × RolledBack id a b))
  allocate_port-Reserved saved ne gone =
      allocate_cases saved env now em id name a
        (λ (r, b).
          ((r ≡ err no_ssh_ports_available) × (b ≡ a) × AllUsed em a.port_map)
          ⊎ ((r ≡ ok a.next) × (saves saved a.store ≡ true) × Reserved env now em id name a b)
          ⊎ ((r ≡ err persist_failed) × (saves saved a.store ≡ false) × RolledBack id a b))
        (λ e. absurd (ne e)) (λ _ r e. cc)
        (λ _ _ all. inl (refl, refl, AllBusy-AllUsed em a.port_map all))
        (λ _ _ q l. elim (Bool-cases (saves saved a.store)) [
          | inl s ↦ let (e, w) = commit-Reserved saved q s l in inr (inl (e, s, w))
          | inr s ↦ let (e, w) = commit-RolledBack saved q s l in inr (inr (e, s, w))
        ])

  again :
      (saved : Bool) (r : ℕ)
      → trim_space id ≢ ""
      → live_allocation (trim_space id) a ≡ some r
      → allocate_port saved env now em id name a ≡ (ok r, a)
  unfolding allocate_port allocate_for
  again saved r ne e = rw (==_ne (trim_space id) "" ne) (rw (e, allocate_for))

  -- A port that was just committed is the workload's live allocation.
  live_allocation-commit_allocation :
      (saved : Bool) (q : ℕ)
      → saves saved a.store ≡ true
      → IsLowest (is_busy em a.port_map) ssh_port_min 22201 q
      → live_allocation (trim_space id) (commit_allocation saved (fresh env now id name q) a).1
        ≡ some a.next
  unfolding live_allocation
  live_allocation-commit_allocation saved q s l =
      let (e, w) = commit-Reserved saved q s l in
      rw
        (
          w.by_workload (trim_space id)
              ∙ ap (λ t. if t then some a.next else get (trim_space id) a.allocations)
                  (==_refl (trim_space id)),
          live_allocation,
        )
        (rw (w.object) refl)

  -- What AllocatePort returns is a live allocation of the workload.
  live_after :
      (saved : Bool) (r : ℕ)
      → (allocate_port saved env now em id name a).0 ≡ ok r
      → (trim_space id ≢ "")
        × (live_allocation (trim_space id) (allocate_port saved env now em id name a).1 ≡ some r)
  live_after saved r =
      allocate_cases saved env now em id name a
        (λ (x, b). x ≡ ok r → (trim_space id ≢ "") × (live_allocation (trim_space id) b ≡ some r))
        (λ _ h. cc) (λ ne s e h. (ne, ground (arith, e, h))) (λ _ _ _ h. cc)
        (λ ne gone q l h. (ne, committed saved q l h))
    where
      committed :
          (saved : Bool) (q : ℕ)
          → IsLowest (is_busy em a.port_map) ssh_port_min 22201 q
          → (commit_allocation saved (fresh env now id name q) a).0 ≡ ok r
          → live_allocation (trim_space id) (commit_allocation saved (fresh env now id name q) a).1
            ≡ some r
      committed saved q l h = elim (Bool-cases (saves saved a.store)) [
        | inl s ↦
            let e = (commit-Reserved saved q s l).0 in
            let t = live_allocation-commit_allocation saved q s l in ground (arith, e, h, t)
        | inr s ↦ let e = (commit-RolledBack saved q s l).0 in cc
      ]

-- An allocation that AllocatePort has given is given again: a second call for the workload, at any
-- later time and whatever the exposures are, returns the same object and changes nothing.
pub allocate_port-allocate_port :
    (saved saved' : Bool) (env env' : Env) (now now' : ℕ)
    (em em' : Option (GoMap String NetworkExposure)) (id name name' : String) (a : Allocator)
    (r : ℕ)
    → (allocate_port saved env now em id name a).0 ≡ ok r
    → (let b = (allocate_port saved env now em id name a).1 in
        allocate_port saved' env' now' em' id name' b ≡ (ok r, b))
allocate_port-allocate_port saved saved' env env' now now' em em' id name name' a r h =
    let (ne, live) = live_after env now em id name a saved r h in
    again env' now' em' id name' (allocate_port saved env now em id name a).1 saved' r ne live
