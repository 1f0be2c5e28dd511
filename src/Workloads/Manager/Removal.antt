-- ===== src/Workloads/Manager/Removal.antt =====
-- What DeleteWorkload takes away, and what it does not touch.
use mystic_hypervisor.Networking.Exposure.{NetworkExposure}
use mystic_hypervisor.Networking.ExposureManager as ExposureManager
use mystic_hypervisor.Networking.ExposureManager.{delete_network_exposure, list_workload_exposures}
use mystic_hypervisor.Networking.SshAllocator as SshAllocator
use mystic_hypervisor.Networking.SshAllocator.{
  get_allocation, release_port, ssh_allocation_not_found, visible,
}
use mystic_hypervisor.Networking.SshAllocator.Release.{get_allocation-release_port}
use mystic_hypervisor.Prelude.Maps.{
  GoMap, get, delete, values, get-delete, get-delete_self, get-delete_ne,
}
use mystic_hypervisor.Prelude.{
  ◌≡◌, ◌≢◌, ◌↔◌, ◌⊎◌, inl, inr, refl, sym, ap, ◌∙◌, subst, Option, none, some, String, Bool, true,
  false, ◌==◌, List, [], ◌∷◌, All, keep, arith, Bool-cases, Option-cases, string_eq, if◌then◌else◌,
}
use mystic_hypervisor.Providers.{Instance}
use mystic_hypervisor.Store.{save}
use mystic_hypervisor.Workloads.Execution.{OwnershipStatus, check_ownership}
use mystic_hypervisor.Workloads.Manager.Deletion.{
  delete_attached, delete_each, delete_workload, detach, is_foreign, remove_workload,
}
use mystic_hypervisor.Workloads.Manager.{
  Answer, Attached, DeleteAnswer, Manager, Provider, World, WorkloadError, absent, asked,
  delete_failed, deleted, deletes, failing, found, missing, not_deleted, ownership_conflict,
}
use mystic_hypervisor.Workloads.Ownership.{IsOwned, check_ownership_iff}
use mystic_hypervisor.Workloads.Workload.{Workload}

-- The exposures that are found are those that were found before, but for one id.
delete_network_exposure_lem :
    (saved : Bool) (id k : String) (em : ExposureManager.Manager)
    → get k (delete_network_exposure saved id em).1.exposures
      ≡ (if id == k then none else get k em.exposures)
unfolding delete_network_exposure
delete_network_exposure_lem saved id k em = elim (Option-cases (get id em.exposures)) [
  | inl e ↦
      rw (e, delete_network_exposure)
        (elim (Bool-cases (id == k)) [
          | inl t ↦ rw t (subst (λ j. get j em.exposures ≡ none) ((string_eq.same_iff id k).0 t) e)
          | inr t ↦ rw t refl
        ])
  | inr (x, e) ↦ rw (e, delete_network_exposure) (get-delete id k em.exposures)
]

delete_network_exposure-kept :
    (saved : Bool) (id k : String) (x : NetworkExposure) (em : ExposureManager.Manager)
    → get k (delete_network_exposure saved id em).1.exposures ≡ some x
    → (k ≢ id) × (get k em.exposures ≡ some x)
delete_network_exposure-kept saved id k x em h = (
  λ q. ground (arith, h, delete_network_exposure_lem saved id k em, string_eq.same_iff id k, sym q),
  ground (arith, h, delete_network_exposure_lem saved id k em),
)

-- Of the exposures of a list, none is found after the loop.
delete_each_lem :
    (saved : String → Bool) (xs : List NetworkExposure) (em : ExposureManager.Manager) (k : String)
    (x : NetworkExposure)
    → get k (delete_each saved xs em).exposures ≡ some x
    → (get k em.exposures ≡ some x) × All (λ (y : NetworkExposure). k ≢ y.id) xs
unfolding delete_each
delete_each_lem saved [] em k x h = (h, _)
delete_each_lem saved (y ∷ ys) em k x h =
    let (g, others) =
      delete_each_lem saved ys (delete_network_exposure (saved y.id) y.id em).1 k x h in
    let (ne, before) = delete_network_exposure-kept (saved y.id) y.id k x em g in
    (before, (ne, others))

-- Every exposure stands under its id.
abbrev pub IsFiled : GoMap String NetworkExposure → Type 0
IsFiled m = (k : String) (x : NetworkExposure) → get k m ≡ some x → x.id ≡ k

-- An exposure that is found is listed with its workload.
listed :
    (id k : String) (m : GoMap String NetworkExposure) (x : NetworkExposure)
    (P : NetworkExposure → Type 0)
    → All P (keep (λ (y : NetworkExposure). y.workload_id == id) (values m))
    → get k m ≡ some x
    → x.workload_id ≡ id
    → P x
unfolding get
listed id k [] x P all e w = cc
listed id k ((j, y) ∷ m) x P all e w = elim (Bool-cases (j == k)) [
  | inl t ↦
      let same : y ≡ x = ground (arith, e, t) in
      first (y.workload_id == id) all
        ((string_eq.same_iff y.workload_id id).1
          (ap (λ (z : NetworkExposure). z.workload_id) same ∙ w))
        same
  | inr t ↦
      let found : get k m ≡ some x = ground (arith, e, t) in
      listed id k m x P (rest (y.workload_id == id) all) found w
]
  where
    others : List NetworkExposure
    others = keep (λ (z : NetworkExposure). z.workload_id == id) (values m)

    first :
        (b : Bool) → All P (elim b [ true ↦ y ∷ others | false ↦ others ]) → b ≡ true → y ≡ x → P x
    first true all t same = subst P same all.0
    first false all t same = cc

    rest : (b : Bool) → All P (elim b [ true ↦ y ∷ others | false ↦ others ]) → All P others
    rest true all = all.1
    rest false all = all

-- What is left after a deletion: nothing of the workload.
pub record Removed (world : World) (id : String) (w : Workload) (m n : Manager) : Type 0 where
  pub workload : get id n.workloads ≡ none
  pub plan : get id n.plans ≡ none
  pub others :
      (k : String)
      → k ≢ id
      → (get k n.workloads ≡ get k m.workloads) × (get k n.plans ≡ get k m.plans)
  pub exposures :
      (k : String) (x : NetworkExposure)
      → get k n.attached.exposures.exposures ≡ some x
      → (x.workload_id ≢ w.id) × (get k m.attached.exposures.exposures ≡ some x)
  pub port : get_allocation w.id n.attached.allocator ≡ SshAllocator.err ssh_allocation_not_found
  pub stored : n.store ≡ save world.saved n.workloads m.store

-- The provider shows an instance of the workload's name whose labels do not name the workload.
abbrev pub IsForeign : Provider → Workload → Type 0
IsForeign p w =
    (p.attached ≡ true)
    × (inst : Instance) × (p.get_instance w.name ≡ found inst)
    × ¬ IsOwned (some inst) w.id

-- The provider, where there is one, was asked to delete the instance, and deleted it or had none.
abbrev pub Obeyed : Provider → Workload → Manager → Manager → Type 0
Obeyed p w m n =
    ((p.attached ≡ true)
      × (n.requests ≡ deletes w.name ∷ m.requests)
      × (p.delete_instance w.name ≢ not_deleted))
    ⊎ (p.attached ≡ false) × (n.requests ≡ m.requests)

abbrev pub DeleteOutcome :
    World → Provider → String → Workload → Manager → Option WorkloadError × Manager → Type 0
DeleteOutcome world p id w m (r, n) =
    (IsForeign p w × (r ≡ some ownership_conflict) × (n ≡ m))
    ⊎ (¬ IsForeign p w
        × (p.attached ≡ true)
        × (p.delete_instance w.name ≡ not_deleted)
        × (r ≡ some delete_failed)
        × (n ≡ asked (deletes w.name) m))
    ⊎ (¬ IsForeign p w × (r ≡ none) × Obeyed p w m n × Removed world id w m n)

none_is_known : (w : Workload) → (is_foreign missing w ≡ true) → ⊥
unfolding check_ownership
none_is_known w h = cc

foreign_iff :
    (w : Workload) (a : Answer)
    → (is_foreign a w ≡ true) ↔ ((inst : Instance) × (a ≡ found inst) × ¬ IsOwned (some inst) w.id)
foreign_iff w (found inst) = (
  λ h. (inst, refl, λ o. absurd (mystic _ ((check_ownership_iff (some inst) w.id).0.1 o) h)),
  λ (i, e, n). elim (status_cases (check_ownership (some inst) w.id)) [
    | inl q ↦
        let same : inst ≡ i = cc e in
        absurd (
          n (
            subst (λ j. IsOwned (some j) w.id) same ((check_ownership_iff (some inst) w.id).0.0 q)))
    | inr (inl q) ↦ rw (q, is_foreign) refl
    | inr (inr q) ↦ cc ((check_ownership_iff (some inst) w.id).1.0 q)
  ],
)
  where
    mystic :
        (s : OwnershipStatus)
        → s ≡ OwnershipStatus.mystic_owned
        → (elim s [ OwnershipStatus.external ↦ true | _ ↦ false ]) ≡ true
        → ⊥
    mystic s e h = ground (arith, e, h)

    status_cases :
        (s : OwnershipStatus)
        → (s ≡ OwnershipStatus.mystic_owned)
          ⊎ (s ≡ OwnershipStatus.external)
          ⊎ (s ≡ OwnershipStatus.unknown)
    status_cases OwnershipStatus.mystic_owned = inl refl
    status_cases OwnershipStatus.external = inr (inl refl)
    status_cases OwnershipStatus.unknown = inr (inr refl)
foreign_iff w missing = (λ h. absurd (none_is_known w h), λ (i, e, n). cc)
foreign_iff w failing = (λ h. absurd (none_is_known w h), λ (i, e, n). cc)

pub released_lem :
    (saved : Bool) (world : World) (id : String) (a : SshAllocator.Allocator)
    → get_allocation id (release_port saved world.now id a)
      ≡ SshAllocator.err ssh_allocation_not_found
unfolding get_allocation visible release_port
released_lem saved world id a = elim (Option-cases (get id a.allocations)) [
  | inl e ↦ rw (e, release_port) (rw (e, visible) refl)
  | inr (r, e) ↦ (get_allocation-release_port saved world.now id r a e).0
]

module _ (world : World) (p : Provider) (id : String) (w : Workload) (m : Manager)
    (filed : IsFiled m.attached.exposures.exposures) where
  remove_workload-Removed :
      (n : Manager)
      → n.workloads ≡ m.workloads
      → n.plans ≡ m.plans
      → n.attached ≡ m.attached
      → n.store ≡ m.store
      → ((remove_workload world id w n).0 ≡ none)
        × Removed world id w m (remove_workload world id w n).1
  unfolding remove_workload detach list_workload_exposures
  remove_workload-Removed n sw sp sa ss = (
    refl,
    record {
      workload = get-delete_self id n.workloads;
      plan = get-delete_self id n.plans;
      others = λ k ne. (
        get-delete_ne id k n.workloads (λ q. ne (sym q)) ∙ ap (get k) sw,
        get-delete_ne id k n.plans (λ q. ne (sym q)) ∙ ap (get k) sp,
      );
      exposures = λ k x h.
          let e : n.attached.exposures ≡ m.attached.exposures =
            ap (λ (a : Attached). a.exposures) sa in
          let (after, none_listed) = delete_each_lem _ _ _ k x h in
          let (_, before) = delete_network_exposure-kept _ _ k x _ after in
          let here = sym (ap (λ (a : ExposureManager.Manager). get k a.exposures) e) ∙ before in
          (
            λ q.
                listed w.id k _ x (λ (y : NetworkExposure). k ≢ y.id) none_listed after q
                  (sym (filed k x here)),
            here,
          );
      port = released_lem _ world w.id n.attached.allocator;
      stored = ap (save world.saved (delete id n.workloads)) ss;
    },
  )

  is_foreign-IsForeign :
      p.attached ≡ true → is_foreign (p.get_instance w.name) w ≡ true → IsForeign p w
  is_foreign-IsForeign at h =
      let (i, e, n) = (foreign_iff w (p.get_instance w.name)).0 h in (at, i, e, n)

  not-IsForeign : is_foreign (p.get_instance w.name) w ≡ false → ¬ IsForeign p w
  not-IsForeign h (at, i, e, n) = cc (h, (foreign_iff w (p.get_instance w.name)).1 (i, e, n))

  delete_attached-Outcome :
      p.attached ≡ true → DeleteOutcome world p id w m (delete_attached world p id w m)
  unfolding delete_attached remove_workload
  delete_attached-Outcome at = elim (Bool-cases (is_foreign (p.get_instance w.name) w)) [
    | inl f ↦ rw f (inl (is_foreign-IsForeign at f, refl, refl))
    | inr f ↦ rw f (asked_lem (p.delete_instance w.name) refl (not-IsForeign f))
  ]
    where
      asked_lem :
          (a : DeleteAnswer)
          → p.delete_instance w.name ≡ a
          → ¬ IsForeign p w
          → DeleteOutcome world p id w m (elim a [
            | not_deleted ↦ (some delete_failed, asked (deletes w.name) m)
            | _ ↦ remove_workload world id w (asked (deletes w.name) m)
          ])
      asked_lem deleted e n =
          let (r, gone) = remove_workload-Removed (asked (deletes w.name) m) refl refl refl refl in
          inr (inr (n, r, inl (at, refl, λ q. cc), gone))
      asked_lem absent e n =
          let (r, gone) = remove_workload-Removed (asked (deletes w.name) m) refl refl refl refl in
          inr (inr (n, r, inl (at, refl, λ q. cc), gone))
      asked_lem not_deleted e n = inr (inl (n, at, e, refl, refl))

  -- DeleteWorkload of a workload that there is, where every exposure stands under its id. If the
  -- provider shows an instance of its name that Mystic does not own for it, it is refused and nothing
  -- is asked or changed. Else the provider, if there is one, is asked to delete the instance. If it
  -- fails, DeleteWorkload fails and nothing else changes. If it does not, or there is no provider, then
  -- the workload, its plan, every exposure of it and its SSH port are gone, the other workloads and
  -- plans are as they were, and the map is saved.
  pub delete_workload-Outcome :
      get id m.workloads ≡ some w → DeleteOutcome world p id w m (delete_workload world p id m)
  unfolding delete_workload remove_workload delete_attached
  delete_workload-Outcome here =
      subst (DeleteOutcome world p id w m) (sym step) (elim (Bool-cases p.attached) [
        | inl at ↦
            subst (λ b. DeleteOutcome world p id w m (branch b)) (sym at)
              (delete_attached-Outcome at)
        | inr off ↦
            subst (λ b. DeleteOutcome world p id w m (branch b)) (sym off)
              (let (r, gone) = remove_workload-Removed m refl refl refl refl in
                inr (inr (λ f. cc (off, f.0), r, inr (off, refl), gone)))
      ])
    where
      branch : Bool → Option WorkloadError × Manager
      branch b = if b then delete_attached world p id w m else remove_workload world id w m

      step : delete_workload world p id m ≡ branch p.attached
      step = rw (here, delete_workload) refl
