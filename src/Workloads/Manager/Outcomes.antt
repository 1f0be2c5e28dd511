-- ===== src/Workloads/Manager/Outcomes.antt =====
-- What ProvisionWorkload does, on every branch: what it asks the provider for, and what it leaves.
use mystic_hypervisor.Networking.SshAllocation.{SshAllocation}
use mystic_hypervisor.Networking.SshAllocator as SshAllocator
use mystic_hypervisor.Networking.SshAllocator.{
  Allocator, allocate_port, get_allocation, live_allocation, release_port, ssh_allocation_not_found,
  visible,
}
use mystic_hypervisor.Prelude.Int.{int_eq}
use mystic_hypervisor.Prelude.Maps.{get, get-put_self}
use mystic_hypervisor.Prelude.{
  ℕ, ◌≡◌, ◌≢◌, ◌⊎◌, inl, inr, refl, sym, ap, ◌∙◌, subst, Bool, Option, none, some, String, true,
  not, ◌==◌, ◌∷◌, arith, string_eq, if◌then◌else◌, if_elim, option_elim,
}
use mystic_hypervisor.Providers.{Instance}
use mystic_hypervisor.Workloads.Execution.{OwnershipStatus, check_ownership}
use mystic_hypervisor.Workloads.Manager.Creation.{compute_plan_hash}
use mystic_hypervisor.Workloads.Manager.Launch.{
  new_instance, after_creation, provision_create, provision_started,
}
use mystic_hypervisor.Workloads.Manager.Provisioning.{
  Existing, existing, foreign, different, same, vacant, has_capability, is_done, after_allocation,
  after_inspection, provision_attached, provision_planned, provision_running, provision_vacant,
  provision_workload, provisioning,
}
use mystic_hypervisor.Workloads.Manager.Reconciliation.{readdressed}
use mystic_hypervisor.Workloads.Manager.Removal.{released_lem}
use mystic_hypervisor.Workloads.Manager.{
  Answer, allocation, CreateAnswer, Manager, Provider, Result, World, WorkloadError, ok, err,
  created, creates, deadline, failing, found, missing, plan_not_approved, provisioning_failed,
  refused, starts, timed_out,
}
use mystic_hypervisor.Workloads.Ownership.{check_ownership_iff}
use mystic_hypervisor.Workloads.Workload.{ProvisioningPlan, Workload, WorkloadStatus}

-- What must hold before the provider is asked for an instance: the workload has a plan that was approved
-- and is of the workload as it is; the provider has the capability; and it shows no instance of the
-- workload's name.
pub record Justified (digest : String → String) (p : Provider) (id : String) (w : Workload)
    (m : Manager) : Type 0 where
  pub plan : ProvisioningPlan
  pub planned : get id m.plans ≡ some plan
  pub approved : plan.approved ≡ true
  pub unchanged : compute_plan_hash digest w ≡ plan.plan_hash
  pub capable : has_capability p w ≡ true
  pub attached : p.attached ≡ true
  pub vacant : (inst : Instance) → p.get_instance w.name ≢ found inst

-- The provider was asked for the instance of the workload, and to start the one that it made.
abbrev pub Started : Provider → Workload → Manager → Workload → Manager → Type 0
Started p w m v n =
    (inst : Instance) × (p.create_instance (new_instance w) ≡ created inst)
    × (n.requests ≡ starts inst.name ∷ creates (new_instance w) ∷ m.requests)
    × (v.status ≡ WorkloadStatus.running)

-- The provider was asked for it and made none: the workload has no SSH port, and its status is that of a
-- failure if the provider refused, and of an unknown outcome if the time was up.
pub record Undone (p : Provider) (id : String) (w : Workload) (m : Manager) (e : WorkloadError)
    (n : Manager) : Type 0 where
  pub asked : n.requests ≡ creates (new_instance w) ∷ m.requests
  pub port : get_allocation w.id n.attached.allocator ≡ SshAllocator.err ssh_allocation_not_found
  pub cause :
      (v : Workload) × (get id n.workloads ≡ some v)
      × (((d : String) × (p.create_instance (new_instance w) ≡ deadline d)
            × (e ≡ timed_out)
            × (v.status ≡ WorkloadStatus.unknown))
          ⊎ (d : String) × (p.create_instance (new_instance w) ≡ refused d)
            × (e ≡ provisioning_failed)
            × (v.status ≡ WorkloadStatus.failed))

-- Why ProvisionWorkload fails before it asks the provider: what must hold does not, or no SSH port can be
-- allocated.
abbrev pub Withheld :
    (String → String) → Provider → String → Workload → Manager → WorkloadError → Type 0
Withheld digest p id w m e =
    ¬ Justified digest p id w m ⊎ ((x : SshAllocator.SshError) × (e ≡ allocation x))

-- The outcomes of ProvisionWorkload: nothing is asked of the provider; or an instance was asked for, with
-- justification, and runs; or none was made.
abbrev pub ProvisionOutcome :
    (String → String) → Provider → String → Workload → Manager → Result Workload × Manager → Type 0
ProvisionOutcome digest p id w m (r, n) =
    (((e : WorkloadError) × (r ≡ err e) × (n.requests ≡ m.requests) × Withheld digest p id w m e)
      ⊎ (v : Workload) × (r ≡ ok v)
        × (v.status ≡ WorkloadStatus.running)
        × (n.requests ≡ m.requests))
    ⊎ (Justified digest p id w m
        × (v : Workload) × (r ≡ ok v)
        × (get id n.workloads ≡ some v)
        × Started p w m v n)
    ⊎ Justified digest p id w m × (e : WorkloadError) × (r ≡ err e) × Undone p id w m e n

module _ (digest : String → String) (world : World) (p : Provider) (id : String) (w : Workload)
    (m : Manager) where
  abbrev Outcome : Result Workload × Manager → Type 0
  Outcome = ProvisionOutcome digest p id w m

  abbrev begun : Workload
  begun = provisioning world w

  readdressed_status :
      (live : Option Instance) (v : Workload) → (readdressed live v).status ≡ v.status
  readdressed_status none v = refl
  readdressed_status (some inst) v = refl

  after_creation_lem :
      Justified digest p id w m
      → (plan : ProvisioningPlan) (alloc : SshAllocation) (a : CreateAnswer) (n : Manager)
      → p.create_instance (new_instance w) ≡ a
      → n.requests ≡ creates (new_instance w) ∷ m.requests
      → Outcome (after_creation world p id begun plan alloc a n)
  unfolding after_creation provision_started
  after_creation_lem j plan alloc (created inst) n answer e = inr (
      inl (
        j,
        _,
        refl,
        get-put_self id _ n.workloads,
        (inst, answer, ap (λ rs. starts inst.name ∷ rs) e, readdressed_status _ _),
      ))
  after_creation_lem j plan alloc (deadline d) n answer e = inr (
      inr (
        j,
        timed_out,
        refl,
        record {
          asked = e;
          port = released_lem _ world w.id n.attached.allocator;
          cause = (_, get-put_self id _ n.workloads, inl (d, answer, refl, refl));
        },
      ))
  after_creation_lem j plan alloc (refused d) n answer e = inr (
      inr (
        j,
        provisioning_failed,
        refl,
        record {
          asked = e;
          port = released_lem _ world w.id n.attached.allocator;
          cause = (_, get-put_self id _ n.workloads, inr (d, answer, refl, refl));
        },
      ))

  after_allocation_lem :
      Justified digest p id w m
      → (plan : ProvisioningPlan) (r : SshAllocator.Result ℕ) (n : Manager)
      → n.requests ≡ m.requests
      → Outcome (after_allocation world p id begun plan r n)
  unfolding after_allocation provision_create new_instance
  after_allocation_lem j plan (SshAllocator.ok c) n e =
      after_creation_lem j plan _ _ _ refl (ap (λ rs. creates (new_instance w) ∷ rs) e)
  after_allocation_lem j plan (SshAllocator.err x) n e = inl (inl (_, refl, e, inr (x, refl)))

  -- An answer that leaves the name vacant shows no instance.
  existing-vacant : (a : Answer) → existing a begun ≡ vacant → (inst : Instance) → a ≢ found inst
  unfolding existing
  existing-vacant missing h inst e = cc
  existing-vacant failing h inst e = cc
  existing-vacant (found i) h inst e = never (check_ownership (some i) w.id) h known
    where
      known : check_ownership (some i) w.id ≢ OwnershipStatus.unknown
      known q = cc ((check_ownership_iff (some i) w.id).1.0 q)

      never :
          (s : OwnershipStatus)
          → (elim s [
            | OwnershipStatus.mystic_owned ↦
                if i.limits.cpu_cores == w.cpu then same i else different
            | OwnershipStatus.external ↦ foreign
            | OwnershipStatus.unknown ↦ vacant
          ])
            ≡ vacant
          → s ≢ OwnershipStatus.unknown
          → ⊥
      never OwnershipStatus.mystic_owned h ne = ground (arith, h)
      never OwnershipStatus.external h ne = cc
      never OwnershipStatus.unknown h ne = ne refl

  -- An answer that does not leave the name vacant shows an instance.
  existing-found : (a : Answer) → existing a begun ≢ vacant → (inst : Instance) × (a ≡ found inst)
  unfolding existing
  existing-found missing h = absurd (h refl)
  existing-found failing h = absurd (h refl)
  existing-found (found i) h = (i, refl)

  after_inspection_lem :
      (plan : ProvisioningPlan) (x : Existing) (n : Manager)
      → (x ≡ vacant → Justified digest p id w m)
      → (x ≢ vacant → ¬ Justified digest p id w m)
      → n.requests ≡ m.requests
      → Outcome (after_inspection world p id begun plan x n)
  unfolding after_inspection provision_vacant
  after_inspection_lem plan vacant n j unless e = after_allocation_lem (j refl) plan _ _ e
  after_inspection_lem plan foreign n j unless e = inl (inl (_, refl, e, inl (unless (λ q. cc))))
  after_inspection_lem plan different n j unless e = inl (inl (_, refl, e, inl (unless (λ q. cc))))
  after_inspection_lem plan (same inst) n j unless e = inl (inr (_, refl, refl, e))

  provision_running_lem :
      (plan : ProvisioningPlan)
      → get id m.plans ≡ some plan
      → plan.approved ≡ true
      → compute_plan_hash digest w ≡ plan.plan_hash
      → (n : Manager) → n.requests ≡ m.requests
      → Outcome (provision_running world p id begun plan n)
  unfolding provision_running provision_attached
  provision_running_lem plan planned approved same_hash n e =
      if_elim Outcome (not (has_capability p begun)) _ _
        (λ incapable. inl (inl (_, refl, e, inl (λ j. ground (arith, incapable, j.capable)))))
        (λ capable.
          if_elim Outcome (not p.attached) _ _
            (λ detached. inl (inl (_, refl, e, inl (λ j. ground (arith, detached, j.attached)))))
            (λ attached.
              after_inspection_lem plan (existing (p.get_instance w.name) begun) n
                (λ v. record {
                  plan = plan;
                  planned = planned;
                  approved = approved;
                  unchanged = same_hash;
                  capable = ground (arith, capable);
                  attached = ground (arith, attached);
                  vacant = existing-vacant (p.get_instance w.name) v;
                })
                (λ v j. let (inst, f) = existing-found (p.get_instance w.name) v in j.vacant inst f)
                e))

  provision_planned_lem :
      (plan : ProvisioningPlan)
      → get id m.plans ≡ some plan
      → Outcome (provision_planned digest world p id w plan m)
  unfolding provision_planned
  provision_planned_lem plan planned =
      if_elim Outcome (not plan.approved) _ _
        (λ unapproved. inl (
          inl (
            _,
            refl,
            refl,
            inl (λ j. ground (arith, unapproved, j.approved, ap approval (its j))),
          )))
        (λ approved.
          if_elim Outcome (not (compute_plan_hash digest w == plan.plan_hash)) _ _
            (λ differs. inl (
              inl (
                _,
                refl,
                refl,
                inl (λ j.
                    let e = j.unchanged ∙ ap hash (its j) in
                    ground (
                      arith,
                      differs,
                      (string_eq.same_iff (compute_plan_hash digest w) plan.plan_hash).1 e,
                    )),
              )))
            (λ matches.
              if_elim Outcome (is_done m.guard w plan) _ _
                (λ finished. inl (inr (w, refl, running_of finished, refl)))
                (λ _.
                  provision_running_lem plan planned (ground (arith, approved))
                    ((string_eq.same_iff (compute_plan_hash digest w) plan.plan_hash).0
                      (ground (arith, matches)))
                    _ refl)))
    where
      -- The plan is the one of the map.
      its : (j : Justified digest p id w m) → j.plan ≡ plan
      its j = let e = sym j.planned ∙ planned in cc e

      approval : ProvisioningPlan → Bool
      approval q = q.approved

      hash : ProvisioningPlan → String
      hash q = q.plan_hash

      running_of : is_done m.guard w plan ≡ true → w.status ≡ WorkloadStatus.running
      running_of h = ground (arith, h)

  pub provision_workload-Outcome :
      get id m.workloads ≡ some w
      → ProvisionOutcome digest p id w m (provision_workload digest world p id m)
  unfolding provision_workload
  provision_workload-Outcome here =
      option_elim Outcome (get id m.workloads) _ _ (λ e. cc) (λ v e. planned v (cc))
    where
      planned :
          (v : Workload)
          → w ≡ v
          → Outcome (elim (get id m.plans) [
            | none ↦ (err plan_not_approved, m)
            | some plan ↦ provision_planned digest world p id v plan m
          ])
      planned v e =
          subst
            (λ x. Outcome (elim (get id m.plans) [
              | none ↦ (err plan_not_approved, m)
              | some plan ↦ provision_planned digest world p id x plan m
            ]))
            e
            (option_elim Outcome (get id m.plans) _ _
              (λ lost. inl (inl (_, refl, refl, inl (λ j. cc (lost, j.planned)))))
              provision_planned_lem)
