-- ===== src/Workloads/Manager/Tameness/Provisioning.antt =====
-- Planning and provisioning add and rename no workload and approve no plan.
use mystic_hypervisor.Networking.SshAllocator as SshAllocator
use mystic_hypervisor.Networking.SshAllocator.{allocate_port}
use mystic_hypervisor.Networking.SshAllocation.{SshAllocation}
use mystic_hypervisor.Prelude.Int.{int_eq}
use mystic_hypervisor.Prelude.Maps.{GoMap, get, get-put_self}
use mystic_hypervisor.Prelude.{
  ℕ, ◌≡◌, refl, inl, inr, true, Bool-cases, some, String, false, arith, not, ◌==◌, string_eq,
  if_elim, option_elim,
}
use mystic_hypervisor.Workloads.Manager.Consistent.{
  Passed, Tame, Tame-same, Tame-set, Tame-set_plan, Tame-trans,
}
use mystic_hypervisor.Workloads.Manager.Creation.{compute_plan_hash}
use mystic_hypervisor.Workloads.Manager.Planning.{
  generate_plan, invalidate, needs_no_port, plan_of, set_plan, validated,
}
use mystic_hypervisor.Workloads.Manager.Launch.{
  new_instance, after_creation, provision_create, provision_started,
}
use mystic_hypervisor.Workloads.Manager.Provisioning.{
  Existing, foreign, different, same, vacant, after_allocation, after_inspection, has_capability,
  is_done, provision_attached, provision_planned, provision_running, provision_vacant,
  provision_workload, provisioning,
}
use mystic_hypervisor.Workloads.Manager.{
  CreateAnswer, Manager, Provider, World, asked, created, creates, deadline, refused, set_workload,
}
use mystic_hypervisor.Workloads.Workload.{ProvisioningPlan, Workload}
use mystic_hypervisor.Workloads.Manager.Tameness.{Keeps, after, kept, readdressed-Same, written}

plan_of-Passed :
    (digest : String → String) (Seen : GoMap String Workload → Type 0) (world : World)
    (w : Workload) (m : Manager)
    → Seen m.workloads
    → (plan_of digest world w m).is_valid ≡ true
    → Passed digest Seen (plan_of digest world w m)
unfolding plan_of validated
plan_of-Passed digest Seen world w m now h = record {
  seen = now;
  workload = w;
  among = m.workloads;
  id_of = refl;
  hash_of = refl;
  passes = elim (Bool-cases (needs_no_port w)) [
    | inl t ↦ inl t
    | inr t ↦ inr (ground (arith, t, h))
  ];
}

module _ (digest : String → String) {Seen : GoMap String Workload → Type 0} (world : World)
    (id : String) where
  pub generate_plan-Tame :
      (m : Manager) → Seen m.workloads → Keeps digest Seen m (generate_plan digest world id m)
  unfolding generate_plan plan_of
  generate_plan-Tame m now =
      option_elim (Keeps digest Seen m) (get id m.workloads) _ _ (λ _. kept refl refl)
        (λ w here.
          after
            (Tame-set_plan id (plan_of digest world w m) m
              (set_plan id (plan_of digest world w m) m)
              (λ _. plan_of-Passed digest Seen world w m now) refl refl refl)
            (written id _ w here (refl, refl) refl refl))

pub invalidate-Tame :
    {digest : String → String} {Seen : GoMap String Workload → Type 0} (id : String) (w : Workload)
    (plan : ProvisioningPlan) (m : Manager)
    → get id m.workloads ≡ some w
    → get id m.plans ≡ some plan
    → Tame digest Seen m (invalidate id w plan m)
invalidate-Tame id w plan m here planned =
    Tame-trans m (set_plan id (record plan { approved = false }) m) _
      (Tame-set_plan id _ m _ (λ all. all id plan planned) refl refl refl)
      (Tame-set id _ w _ _ here (refl, refl) refl refl)

module _ (digest : String → String) {Seen : GoMap String Workload → Type 0} (world : World)
    (p : Provider) (id : String) where
  after_creation-Tame :
      (w : Workload) (plan : ProvisioningPlan) (alloc : SshAllocation) (a : CreateAnswer)
      (m : Manager)
      → get id m.workloads ≡ some w
      → Keeps digest Seen m (after_creation world p id w plan alloc a m)
  unfolding after_creation provision_started
  after_creation-Tame w plan alloc (created inst) m here =
      written id _ w here (readdressed-Same _ _) refl refl
  after_creation-Tame w plan alloc (deadline d) m here = written id _ w here (refl, refl) refl refl
  after_creation-Tame w plan alloc (refused d) m here = written id _ w here (refl, refl) refl refl

  after_allocation-Tame :
      (w : Workload) (plan : ProvisioningPlan) (r : SshAllocator.Result ℕ) (m : Manager)
      → get id m.workloads ≡ some w
      → Keeps digest Seen m (after_allocation world p id w plan r m)
  unfolding after_allocation provision_create
  after_allocation-Tame w plan (SshAllocator.ok c) m here =
      after (Tame-same m (asked (creates (new_instance w)) m) refl refl)
        (after_creation-Tame w plan _ _ (asked (creates (new_instance w)) m) here)
  after_allocation-Tame w plan (SshAllocator.err e) m here =
      written id _ w here (refl, refl) refl refl

  after_inspection-Tame :
      (w : Workload) (plan : ProvisioningPlan) (x : Existing) (m : Manager)
      → get id m.workloads ≡ some w
      → Keeps digest Seen m (after_inspection world p id w plan x m)
  unfolding after_inspection provision_vacant
  after_inspection-Tame w plan vacant m here =
      after
        (Tame-same m
          (record m {
            attached = record (m.attached) {
              allocator =
                  (allocate_port (world.saves_of w.id).allocation world.env world.now
                    (some m.attached.exposures.exposures) w.id w.name m.attached.allocator).1;
            };
          })
          refl refl)
        (after_allocation-Tame w plan _ _ here)
  after_inspection-Tame w plan foreign m here = written id _ w here (refl, refl) refl refl
  after_inspection-Tame w plan different m here = written id _ w here (refl, refl) refl refl
  after_inspection-Tame w plan (same inst) m here = written id _ w here (refl, refl) refl refl

  provision_running-Tame :
      (w : Workload) (plan : ProvisioningPlan) (m : Manager)
      → get id m.workloads ≡ some w
      → Keeps digest Seen m (provision_running world p id w plan m)
  unfolding provision_running provision_attached
  provision_running-Tame w plan m here =
      if_elim (Keeps digest Seen m) (not (has_capability p w)) _ _
        (λ _. written id _ w here (refl, refl) refl refl)
        (λ _.
          if_elim (Keeps digest Seen m) (not p.attached) _ _
            (λ _. written id _ w here (refl, refl) refl refl)
            (λ _. after_inspection-Tame w plan _ m here))

  provision_planned-Tame :
      (w : Workload) (plan : ProvisioningPlan) (m : Manager)
      → get id m.workloads ≡ some w
      → get id m.plans ≡ some plan
      → Keeps digest Seen m (provision_planned digest world p id w plan m)
  unfolding provision_planned
  provision_planned-Tame w plan m here planned =
      if_elim (Keeps digest Seen m) (not plan.approved) _ _ (λ _. kept refl refl)
        (λ _.
          if_elim (Keeps digest Seen m) (not (compute_plan_hash digest w == plan.plan_hash)) _ _
            (λ _. record { tame = invalidate-Tame id w plan m here planned })
            (λ _.
              if_elim (Keeps digest Seen m) (is_done m.guard w plan) _ _ (λ _. kept refl refl)
                (λ _.
                  after
                    (Tame-set id (provisioning world w) w m
                      (set_workload id (provisioning world w) m) here (refl, refl) refl refl)
                    (provision_running-Tame (provisioning world w) plan
                      (set_workload id (provisioning world w) m) (get-put_self id _ m.workloads)))))

  pub provision_workload-Tame :
      (m : Manager) → Keeps digest Seen m (provision_workload digest world p id m)
  unfolding provision_workload
  provision_workload-Tame m =
      option_elim (Keeps digest Seen m) (get id m.workloads) _ _ (λ _. kept refl refl)
        (λ w here.
          option_elim (Keeps digest Seen m) (get id m.plans) _ _ (λ _. kept refl refl)
            (λ plan planned. provision_planned-Tame w plan m here planned))
