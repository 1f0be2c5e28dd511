-- ===== src/Workloads/Manager/Histories.antt =====
-- Histories of a workload manager: any methods in any order, each with its own answers from outside.
use mystic_hypervisor.Prelude.Maps.{GoMap, get}
use mystic_hypervisor.Prelude.{
  ◌≡◌, ◌≢◌, string_eq, subst, sym, inl, inr, refl, ap, ◌++◌, none, some, String, Bool, true, List,
  [], ◌∷◌, All, if_elim,
}
use mystic_hypervisor.Store.{Store}
use mystic_hypervisor.Workloads.Manager.Adoption.{adopt_workload}
use mystic_hypervisor.Workloads.Manager.Consistent.{Consistent, HasPassed, Tame-Consistent}
use mystic_hypervisor.Workloads.Manager.Creation.{compute_plan_hash, create_workload}
use mystic_hypervisor.Workloads.Manager.Deletion.{delete_workload}
use mystic_hypervisor.Workloads.Manager.Growth.{
  IsHonest, adopt_workload-Consistent, approve_plan-Consistent, create_workload-Consistent,
}
use mystic_hypervisor.Workloads.Manager.Lifecycle.{restart_workload, start_workload, stop_workload}
use mystic_hypervisor.Workloads.Manager.Outcomes.{Justified, provision_workload-Outcome}
use mystic_hypervisor.Workloads.Manager.Planning.{approve_plan, generate_plan}
use mystic_hypervisor.Workloads.Manager.Provisioning.{provision_workload}
use mystic_hypervisor.Workloads.Manager.Reconciliation.{
  new_manager, reconcile_all, reconcile_workload,
}
use mystic_hypervisor.Workloads.Manager.Tameness.Provisioning.{
  generate_plan-Tame, provision_workload-Tame,
}
use mystic_hypervisor.Workloads.Manager.Tameness.{
  delete_workload-Tame, reconcile_all-Tame, reconcile_workload-Tame, restart_workload-Tame,
  start_workload-Tame, stop_workload-Tame,
}
use mystic_hypervisor.Workloads.Manager.{Attached, Manager, Provider, World}
use mystic_hypervisor.Workloads.Workload.{ProvisioningPlan, Workload, WorkloadSpec}

-- A call of a method that changes the manager.
pub data Call : Type 0 where
  create : WorkloadSpec → Call
  adopt generate approve provision start stop restart delete reconcile : String → Call
  reconcile_every : Call

-- A call, and what the provider and the rest of the world answer to it.
pub record Moment : Type 0 where
  pub world : World
  pub provider : Provider
  pub call : Call

unfoldable pub called : (String → String) → World → Provider → Call → Manager → Manager
called digest world p (Call.create spec) m = (create_workload digest world spec m).1
called digest world p (Call.adopt name) m = (adopt_workload digest world p name m).1
called digest world p (Call.generate id) m = (generate_plan digest world id m).1
called digest world p (Call.approve id) m = (approve_plan digest world id m).1
called digest world p (Call.provision id) m = (provision_workload digest world p id m).1
called digest world p (Call.start id) m = (start_workload world p id m).1
called digest world p (Call.stop id) m = (stop_workload world p id m).1
called digest world p (Call.restart id) m = (restart_workload world p id m).1
called digest world p (Call.delete id) m = (delete_workload world p id m).1
called digest world p (Call.reconcile id) m = (reconcile_workload world p id m).1
called digest world p Call.reconcile_every m = (reconcile_all world p m).1

unfoldable pub run : (String → String) → List Moment → Manager → Manager
run digest [] m = m
run digest (x ∷ xs) m = run digest xs (called digest x.world x.provider x.call m)

-- Stored workloads: each under its id, and no two with one name.
pub record IsSound (stored : GoMap String Workload) : Type 0 where
  pub filed : (k : String) (w : Workload) → get k stored ≡ some w → w.id ≡ k
  pub names :
      (k j : String) (v w : Workload)
      → get k stored ≡ some v
      → get j stored ≡ some w
      → v.name ≡ w.name
      → k ≡ j

module _ (digest : String → String) {Seen : GoMap String Workload → Type 0} where
  called-Consistent :
      (world : World) (p : Provider) (c : Call) (m : Manager)
      → Seen m.workloads
      → IsHonest p
      → Consistent digest Seen m
      → Consistent digest Seen (called digest world p c m)
  unfolding called
  called-Consistent world p (Call.create spec) m now honest c =
      (create_workload-Consistent digest world spec m c).consistent
  called-Consistent world p (Call.adopt name) m now honest c =
      (adopt_workload-Consistent digest world p name m honest c).consistent
  called-Consistent world p (Call.generate id) m now honest c =
      Tame-Consistent m _ (generate_plan-Tame digest world id m now).tame c
  called-Consistent world p (Call.approve id) m now honest c =
      (approve_plan-Consistent digest world id m c).consistent
  called-Consistent world p (Call.provision id) m now honest c =
      Tame-Consistent m _ (provision_workload-Tame digest world p id m).tame c
  called-Consistent world p (Call.start id) m now honest c =
      Tame-Consistent m _ (start_workload-Tame world p id m).tame c
  called-Consistent world p (Call.stop id) m now honest c =
      Tame-Consistent m _ (stop_workload-Tame world p id m).tame c
  called-Consistent world p (Call.restart id) m now honest c =
      Tame-Consistent m _ (restart_workload-Tame world p id m).tame c
  called-Consistent world p (Call.delete id) m now honest c =
      Tame-Consistent m _ (delete_workload-Tame world p id m).tame c
  called-Consistent world p (Call.reconcile id) m now honest c =
      Tame-Consistent m _ (reconcile_workload-Tame world p id m).tame c
  called-Consistent world p Call.reconcile_every m now honest c =
      Tame-Consistent m _ (reconcile_all-Tame world p m).tame c

  pub run-Consistent :
      (xs : List Moment) (m : Manager)
      → ((before after : List Moment) → before ++ after ≡ xs → Seen (run digest before m).workloads)
      → All (λ (x : Moment). IsHonest x.provider) xs
      → Consistent digest Seen m
      → Consistent digest Seen (run digest xs m)
  unfolding run
  run-Consistent [] m shown _ c = c
  run-Consistent (x ∷ xs) m shown (honest, all) c =
      run-Consistent xs _ (λ before after e. shown (x ∷ before) after (ap (λ l. x ∷ l) e)) all
        (called-Consistent x.world x.provider x.call m (shown [] (x ∷ xs) refl) honest c)

  pub new_manager-Consistent :
      (world : World) (migrated : String → Bool) (p : Provider) (loads : Bool)
      (stored : Store Workload) (at : Attached)
      → ((ws : GoMap String Workload) → stored ≡ some ws → IsSound ws)
      → Consistent digest Seen (new_manager world migrated p loads stored at)
  unfolding new_manager get
  new_manager-Consistent world migrated p loads none at sound =
      Tame-Consistent _ _ (reconcile_all-Tame world p _).tame (record {
        passed = λ k plan e _. cc;
        valid = λ k plan e _. cc;
        filed = λ k w e. cc;
        names = λ k j v w e f _. cc;
      })
  new_manager-Consistent world migrated p loads (some ws) at sound =
      if_elim (Consistent digest Seen) loads _ _
        (λ _. Tame-Consistent _ _ (reconcile_all-Tame world p _).tame (record {
          passed = λ k plan e _. cc;
          valid = λ k plan e _. cc;
          filed = (sound ws refl).filed;
          names = (sound ws refl).names;
        }))
        (λ _. record {
          passed = λ k plan e _. cc;
          valid = λ k plan e _. cc;
          filed = λ k w e. cc;
          names = λ k j v w e f _. cc;
        })

-- A map of workloads that the manager has had in the course of the history.
abbrev pub HasHad : (String → String) → List Moment → Manager → GoMap String Workload → Type 0
HasHad digest xs m ws =
    (before : List Moment) × (after : List Moment) × (before ++ after ≡ xs)
    × ((run digest before m).workloads ≡ ws)

-- The workload has a plan that was approved and is of the workload as it is, by the hash; and a workload
-- of the id that the plan is for, with that same hash, passed the validation.
pub record IsCleared (digest : String → String) (Seen : GoMap String Workload → Type 0)
    (id : String) (w : Workload) (m : Manager) : Type 0 where
  pub plan : ProvisioningPlan
  pub planned : get id m.plans ≡ some plan
  pub passed : HasPassed digest Seen plan.workload_id (compute_plan_hash digest w)
  pub approved : plan.approved ≡ true
  pub unchanged : compute_plan_hash digest w ≡ plan.plan_hash

pub run-IsCleared :
    (digest : String → String) (first : World) (migrated : String → Bool) (q : Provider)
    (loads : Bool) (stored : Store Workload) (at : Attached) (xs : List Moment) (world : World)
    (p : Provider) (id : String) (w : Workload) (m : Manager)
    → ((ws : GoMap String Workload) → stored ≡ some ws → IsSound ws)
    → All (λ (x : Moment). IsHonest x.provider) xs
    → run digest xs (new_manager first migrated q loads stored at) ≡ m
    → get id m.workloads ≡ some w
    → (provision_workload digest world p id m).1.requests ≢ m.requests
    → IsCleared digest (HasHad digest xs (new_manager first migrated q loads stored at)) id w m
run-IsCleared digest first migrated q loads stored at xs world p id w m sound honest ends here
      moved =
    elim (provision_workload-Outcome digest world p id w m here) [
      | inl (inl (_, _, same, _)) ↦ absurd (moved same)
      | inl (inr (_, _, _, same)) ↦ absurd (moved same)
      | inr (inl (j, _, _, _, _)) ↦ cleared j
      | inr (inr (j, _, _, _)) ↦ cleared j
    ]
  where
    fine : Consistent digest (HasHad digest xs (new_manager first migrated q loads stored at)) m
    fine = subst (Consistent digest _) ends (
        run-Consistent digest xs _ (λ before after e. (before, after, e, refl)) honest
          (new_manager-Consistent digest first migrated q loads stored at sound))

    cleared :
        Justified digest p id w m
        → IsCleared digest (HasHad digest xs (new_manager first migrated q loads stored at)) id w m
    cleared j = record {
      plan = j.plan;
      planned = j.planned;
      passed =
          subst (HasPassed digest _ j.plan.workload_id) (sym j.unchanged)
            (fine.passed id j.plan j.planned (fine.valid id j.plan j.planned j.approved));
      approved = j.approved;
      unchanged = j.unchanged;
    }
