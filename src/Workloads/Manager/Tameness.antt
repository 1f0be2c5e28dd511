-- ===== src/Workloads/Manager/Tameness.antt =====
-- The operations that add and rename no workload and approve no plan.
pub mod Provisioning
use mystic_hypervisor.Instances.Reconciler.{ReconciledInstance, reconcile}
use mystic_hypervisor.Networking.Exposure.{or_text}
use mystic_hypervisor.Networking.SshAllocator as SshAllocator
use mystic_hypervisor.Networking.SshAllocator.{allocate_port}
use mystic_hypervisor.Networking.SshAllocation.{SshAllocation}
use mystic_hypervisor.Prelude.Int.{int_eq}
use mystic_hypervisor.Prelude.Maps.{GoMap, get, put, get-put_self}
use mystic_hypervisor.Prelude.{
  ℕ, ◌≡◌, refl, ◌∙◌, subst, Option, none, some, String, Bool, false, not, ◌==◌, ◌||◌, [], ◌∷◌,
  arith, string_eq, if_elim, option_elim, inl, inr, Bool-cases,
}
use mystic_hypervisor.Providers.{Instance}
use mystic_hypervisor.Workloads.Execution.{OwnershipStatus, check_ownership}
use mystic_hypervisor.Workloads.Manager.Access.{reconcile_ssh_access_info}
use mystic_hypervisor.Workloads.Manager.Consistent.{
  Same, Tame, Tame-delete, Tame-same, Tame-set, Tame-set_plan, Tame-trans,
}
use mystic_hypervisor.Workloads.Manager.Creation.{compute_plan_hash}
use mystic_hypervisor.Workloads.Manager.Deletion.{
  delete_attached, delete_workload, is_foreign, remove_workload,
}
use mystic_hypervisor.Workloads.Manager.Lifecycle.{
  ask_and_reconcile, restart_workload, start_workload, stop_workload,
}
use mystic_hypervisor.Workloads.Manager.Planning.{generate_plan, invalidate, plan_of, set_plan}
use mystic_hypervisor.Workloads.Manager.Launch.{
  new_instance, after_creation, provision_create, provision_started,
}
use mystic_hypervisor.Workloads.Manager.Provisioning.{
  Existing, foreign, different, same, vacant, after_allocation, after_inspection, has_capability,
  is_done, provision_attached, provision_planned, provision_running, provision_vacant,
  provision_workload, provisioning,
}
use mystic_hypervisor.Workloads.Manager.Reconciliation.{
  live_instance, live_map, observed, orphan, readdressed, reconcile_all, reconcile_each,
  reconcile_listed, reconcile_one, reconcile_with, reconcile_workload, recovered, recovered_as,
  synced, metadata_of,
}
use mystic_hypervisor.Workloads.Manager.{
  Attached, CreateAnswer, DeleteAnswer, Manager, Provider, Request, World, WorkloadError, absent,
  asked, created, creates, deadline, delete_failed, deleted, deletes, not_deleted, refused,
  set_workload,
}
use mystic_hypervisor.Workloads.Workload.{
  ProvisioningPlan, Workload, is_draft, is_provisioning, is_running, is_stopped, is_unknown,
}

readdressed-Same : (live : Option Instance) (w : Workload) → Same (readdressed live w) w
readdressed-Same none w = (refl, refl)
readdressed-Same (some inst) w = (refl, refl)

synced-Same :
    (world : World) (r : Option ReconciledInstance) (w : Workload) → Same (synced world r w) w
synced-Same world none w = (refl, refl)
synced-Same world (some r) w = (refl, refl)

Same-trans : (u v w : Workload) → Same u v → Same v w → Same u w
Same-trans u v w (a, b) (c, d) = (a ∙ c, b ∙ d)

observed-Same :
    (world : World) (live : Option Instance) (w : Workload) → Same (observed world live w) w
unfolding observed
observed-Same world live w =
    let v = synced world (reconcile (some (metadata_of w)) live) w in
    Same-trans (readdressed live v) v w (readdressed-Same live v) (synced-Same world _ w)

recovered_as-Same :
    (s : OwnershipStatus) (inst : Instance) (w : Workload) → Same (recovered_as s inst w) w
unfolding recovered_as
recovered_as-Same OwnershipStatus.mystic_owned inst w = (refl, refl)
recovered_as-Same OwnershipStatus.external inst w = (refl, refl)
recovered_as-Same OwnershipStatus.unknown inst w = (refl, refl)

recovered-Same : (live : Option Instance) (w : Workload) → Same (recovered live w) w
unfolding recovered
recovered-Same none w = (refl, refl)
recovered-Same (some inst) w = recovered_as-Same (check_ownership (some inst) w.id) inst w

reconcile_ssh_access_info-Same :
    (world : World) (w : Workload) (at : Attached) → Same (reconcile_ssh_access_info world w at).0 w
unfolding reconcile_ssh_access_info
reconcile_ssh_access_info-Same world w at = ground arith

-- An answer and what the operation leaves.
pub record Keeps {A : Type 0} (digest : String → String) (Seen : GoMap String Workload → Type 0)
    (m : Manager) (answer : A × Manager) : Type 0 where
  pub tame : Tame digest Seen m answer.1

-- The operation changes nothing that the invariant reads.
kept :
    {digest : String → String} {Seen : GoMap String Workload → Type 0} {A : Type 0} {m n : Manager}
    {a : A}
    → n.workloads ≡ m.workloads
    → n.plans ≡ m.plans
    → Keeps digest Seen m (a, n)
kept p q = record { tame = Tame-same _ _ p q }

-- It is a change that is tame, and then an operation.
after :
    {digest : String → String} {Seen : GoMap String Workload → Type 0} {A : Type 0} {m n : Manager}
    {answer : A × Manager}
    → Tame digest Seen m n
    → Keeps digest Seen n answer
    → Keeps digest Seen m answer
after s k = record { tame = Tame-trans _ _ _ s k.tame }

-- It writes to a workload that there is.
written :
    {digest : String → String} {Seen : GoMap String Workload → Type 0} {A : Type 0} {m n : Manager}
    {a : A} (id : String) (v w : Workload)
    → get id m.workloads ≡ some w
    → Same v w
    → n.workloads ≡ put id v m.workloads
    → n.plans ≡ m.plans
    → Keeps digest Seen m (a, n)
written id v w here alike p q = record { tame = Tame-set id v w _ _ here alike p q }

module _ {digest : String → String} {Seen : GoMap String Workload → Type 0} (world : World)
    (p : Provider) (id : String) where
  reconcile_with-Tame :
      (live : Option Instance) (w : Workload) (m : Manager)
      → get id m.workloads ≡ some w
      → Tame digest Seen m (reconcile_with world live id w m)
  unfolding reconcile_with
  reconcile_with-Tame live w m here =
      if_elim (Tame digest Seen m) (is_unknown w.status || is_provisioning w.status) _ _
        (λ _. Tame-set id _ w m _ here (recovered-Same live w) refl refl)
        (λ _.
          Tame-set id _ w m _ here
            (Same-trans (reconcile_ssh_access_info world (observed world live w) m.attached).0
              (observed world live w) w
              (reconcile_ssh_access_info-Same world (observed world live w) m.attached)
              (observed-Same world live w))
            refl refl)

  pub reconcile_workload-Tame :
      (m : Manager) → Keeps digest Seen m (reconcile_workload world p id m)
  unfolding reconcile_workload
  reconcile_workload-Tame m =
      option_elim (Keeps digest Seen m) (get id m.workloads) _ _ (λ _. kept refl refl)
        (λ w here. record { tame = reconcile_with-Tame (live_instance p w.name) w m here })

  ask_and_reconcile-Tame :
      (request : Request) (obeyed : Bool) (failure : WorkloadError) (m : Manager)
      → Keeps digest Seen m (ask_and_reconcile world p request obeyed failure id m)
  unfolding ask_and_reconcile
  ask_and_reconcile-Tame request obeyed failure m =
      if_elim (Keeps digest Seen m) p.attached _ _
        (λ _.
          if_elim (Keeps digest Seen m) obeyed _ _
            (λ _.
              after (Tame-same m (asked request m) refl refl)
                (reconcile_workload-Tame (asked request m)))
            (λ _. kept refl refl))
        (λ _. reconcile_workload-Tame m)

  pub start_workload-Tame : (m : Manager) → Keeps digest Seen m (start_workload world p id m)
  unfolding start_workload
  start_workload-Tame m =
      option_elim (Keeps digest Seen m) (get id m.workloads) _ _ (λ _. kept refl refl)
        (λ w here.
          if_elim (Keeps digest Seen m) (is_running w.status) _ _ (λ _. kept refl refl)
            (λ _.
              if_elim (Keeps digest Seen m) (is_provisioning w.status || is_unknown w.status) _ _
                (λ _. kept refl refl)
                (λ _.
                  after (Tame-set id _ w m _ here (refl, refl) refl refl)
                    (ask_and_reconcile-Tame _ _ _ _))))

  pub stop_workload-Tame : (m : Manager) → Keeps digest Seen m (stop_workload world p id m)
  unfolding stop_workload
  stop_workload-Tame m =
      option_elim (Keeps digest Seen m) (get id m.workloads) _ _ (λ _. kept refl refl)
        (λ w here.
          if_elim (Keeps digest Seen m) (is_stopped w.status) _ _ (λ _. kept refl refl)
            (λ _.
              if_elim (Keeps digest Seen m) (is_provisioning w.status) _ _ (λ _. kept refl refl)
                (λ _.
                  after (Tame-set id _ w m _ here (refl, refl) refl refl)
                    (ask_and_reconcile-Tame _ _ _ _))))

  pub restart_workload-Tame : (m : Manager) → Keeps digest Seen m (restart_workload world p id m)
  unfolding restart_workload
  restart_workload-Tame m =
      option_elim (Keeps digest Seen m) (get id m.workloads) _ _ (λ _. kept refl refl)
        (λ w here.
          if_elim (Keeps digest Seen m) (is_provisioning w.status || is_unknown w.status) _ _
            (λ _. kept refl refl) (λ _. ask_and_reconcile-Tame _ _ _ m))

  remove_workload-Tame :
      (w : Workload) (m : Manager) → Keeps digest Seen m (remove_workload world id w m)
  unfolding remove_workload
  remove_workload-Tame w m = record { tame = Tame-delete id m _ refl refl }

  pub delete_workload-Tame : (m : Manager) → Keeps digest Seen m (delete_workload world p id m)
  unfolding delete_workload delete_attached
  delete_workload-Tame m =
      option_elim (Keeps {A = Option WorkloadError} digest Seen m) (get id m.workloads) _ _
        (λ _. kept refl refl)
        (λ w _.
          if_elim (Keeps {A = Option WorkloadError} digest Seen m) p.attached _ _
            (λ _.
              if_elim (Keeps {A = Option WorkloadError} digest Seen m)
                (is_foreign (p.get_instance w.name) w) _ _ (λ _. kept refl refl)
                (λ _. by_answer w (p.delete_instance w.name)))
            (λ _. remove_workload-Tame w m))
    where
      by_answer :
          (w : Workload) (a : DeleteAnswer)
          → Keeps {A = Option WorkloadError} digest Seen m (elim a [
            | not_deleted ↦ (some delete_failed, asked (deletes w.name) m)
            | _ ↦ remove_workload world id w (asked (deletes w.name) m)
          ])
      by_answer w deleted =
          after (Tame-same m (asked (deletes w.name) m) refl refl)
            (remove_workload-Tame w (asked (deletes w.name) m))
      by_answer w absent =
          after (Tame-same m (asked (deletes w.name) m) refl refl)
            (remove_workload-Tame w (asked (deletes w.name) m))
      by_answer w not_deleted = kept refl refl

reconcile_one-Same :
    (world : World) (live : GoMap String Instance) (w : Workload) (at : Attached)
    → Same (reconcile_one world live w at).0 w
unfolding reconcile_one
reconcile_one-Same world live w at =
    if_elim (λ (v, _). Same v w) (is_draft w.status) _ _ (λ _. (refl, refl))
      (λ _.
        Same-trans (reconcile_ssh_access_info world shown at).0 shown w
          (reconcile_ssh_access_info-Same world shown at)
          (option_elim (λ v. Same v w) (get (or_text w.provider_instance_id w.name) live) _ _
            (λ _. (refl, refl)) (λ inst _. observed-Same world (some inst) w)))
  where
    shown : Workload
    shown = elim (get (or_text w.provider_instance_id w.name) live) [
      | none ↦ orphan world w
      | some inst ↦ observed world (some inst) w
    ]

reconcile_each-Same :
    (world : World) (live : GoMap String Instance) (ws : GoMap String Workload) (at : Attached)
    (k : String) (v : Workload)
    → get k (reconcile_each world live ws at).0 ≡ some v
    → (w : Workload) × (get k ws ≡ some w) × Same v w
unfolding reconcile_each get
reconcile_each-Same world live [] at k v e = cc
reconcile_each-Same world live ((j, w) ∷ ws) at k v e = elim (Bool-cases (j == k)) [
  | inl t ↦
      let same : (reconcile_one world live w at).0 ≡ v = ground (arith, e, t) in
      (w, ground (arith, t), subst (λ x. Same x w) same (reconcile_one-Same world live w at))
  | inr t ↦
      let (x, f, s) =
        reconcile_each-Same world live ws (reconcile_one world live w at).1 k v
          (ground (arith, e, t)) in
      (x, ground (arith, f, t), s)
]

pub reconcile_all-Tame :
    {digest : String → String} {Seen : GoMap String Workload → Type 0} (world : World)
    (p : Provider) (m : Manager)
    → Keeps digest Seen m (reconcile_all world p m)
unfolding reconcile_all reconcile_listed
reconcile_all-Tame {digest} {Seen} world p m =
    if_elim (Keeps digest Seen m) p.attached _ _
      (λ _.
        option_elim (Keeps digest Seen m) p.list_instances _ _ (λ _. kept refl refl)
          (λ insts _. record {
            tame = record {
              passed = λ all. all;
              workloads =
                  λ k v e. reconcile_each-Same world (live_map insts []) m.workloads _ k v e;
              plans = λ k plan e h. (plan, e, h, refl);
            };
          }))
      (λ _. kept refl refl)
