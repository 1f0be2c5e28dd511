-- ===== src/Workloads/Manager/Growth.antt =====
-- The operations that add a workload or approve a plan, and the invariant of the manager.
use mystic_hypervisor.Prelude.Maps.{GoMap, get, delete, values, get-put_cases, get-delete_cases}
use mystic_hypervisor.Prelude.{
  ◌≡◌, ◌≢◌, inl, inr, refl, sym, ap, ◌∙◌, subst, some, String, Bool, true, false, not, ◌==◌, ◌||◌,
  [], ◌∷◌, any, arith, string_eq, Bool-cases, if_elim, option_elim,
}
use mystic_hypervisor.Providers.{Instance}
use mystic_hypervisor.Store.{saves}
use mystic_hypervisor.Text.{trim_space}
use mystic_hypervisor.Workloads.Manager.Adoption.{
  adopt_instance, adopt_locked, adopt_workload, adopted, tag_adopted,
}
use mystic_hypervisor.Workloads.Manager.Consistent.{
  AllPassed, Consistent, put-AllPassed, Tame-Consistent, Tame-set, Tame-same, put-Consistent,
}
use mystic_hypervisor.Workloads.Manager.Creation.{
  compute_plan_hash, create_workload, drafted, file_workload, has_name, hashed,
}
use mystic_hypervisor.Workloads.Manager.Planning.{approve_matching, approve_plan, set_plan}
use mystic_hypervisor.Workloads.Manager.Tameness.Provisioning.{invalidate-Tame}
use mystic_hypervisor.Workloads.Manager.{
  Answer, Manager, Provider, Result, World, err, instance_not_found, query_failed, failing, found,
  is_managed, missing, save_store, set_workload,
}
use mystic_hypervisor.Workloads.Workload.{ProvisioningPlan, Workload, WorkloadSpec}

-- A provider that answers with the instance that it was asked about.
abbrev pub IsHonest : Provider → Type 0
IsHonest p = (name : String) (inst : Instance) → p.get_instance name ≡ found inst → inst.name ≡ name

-- An answer, and a manager that satisfies the invariant.
pub record Leaves {A : Type 0} (digest : String → String) (Seen : GoMap String Workload → Type 0)
    (answer : A × Manager) : Type 0 where
  pub consistent : Consistent digest Seen answer.1

any-get :
    (test : Workload → Bool) (k : String) (w : Workload) (m : GoMap String Workload)
    → any test (values m) ≡ false
    → get k m ≡ some w
    → test w ≡ false
unfolding get
any-get test k w [] nothing e = cc
any-get test k w ((j, v) ∷ m) nothing e = elim (Bool-cases (j == k)) [
  | inl t ↦ let same : v ≡ w = ground (arith, e, t) in ap test (sym same) ∙ ground (arith, nothing)
  | inr t ↦ any-get test k w m (ground (arith, nothing)) (ground (arith, e, t))
]

-- No workload has the name.
abbrev IsNew : String → Manager → Type 0
IsNew name m = (k : String) (v : Workload) → get k m.workloads ≡ some v → v.name ≢ name

has_name-IsNew : (name : String) (m : Manager) → has_name name m ≡ false → IsNew name m
has_name-IsNew name m nothing k v e q =
    cc (
      any-get (λ v. v.name == name) k v m.workloads nothing e,
      (string_eq.same_iff v.name name).1 q,
    )

is_managed-IsNew : (name : String) (m : Manager) → is_managed name m ≡ false → IsNew name m
unfolding is_managed
is_managed-IsNew name m nothing k v e q =
    let neither =
      any-get (λ v. v.name == name || v.provider_instance_id == name) k v m.workloads nothing e in
    let here = (string_eq.same_iff v.name name).1 q in ground (arith, neither, here)

filed-Consistent :
    {digest : String → String} {Seen : GoMap String Workload → Type 0} (w : Workload) (m : Manager)
    → Consistent digest Seen m
    → IsNew w.name m
    → (saved : Bool) → Consistent digest Seen (save_store saved (set_workload w.id w m))
filed-Consistent w m c new saved =
    put-Consistent w m (save_store saved (set_workload w.id w m)) c new refl refl

-- A workload that is taken out of the map, its plan kept.
delete-Consistent :
    {digest : String → String} {Seen : GoMap String Workload → Type 0} (id : String) (m n : Manager)
    → Consistent digest Seen m
    → n.workloads ≡ delete id m.workloads
    → n.plans ≡ m.plans
    → Consistent digest Seen n
delete-Consistent id m n c a b =
    Tame-Consistent m n
      (record {
        passed = subst (AllPassed _ _) (sym b);
        workloads = λ k v e.
            (v, (get-delete_cases id k v m.workloads (sym (ap (get k) a) ∙ e)).1, (refl, refl));
        plans = λ k plan e h. (plan, sym (ap (get k) b) ∙ e, h, refl);
      })
      c

file_workload-Consistent :
    {digest : String → String} {Seen : GoMap String Workload → Type 0} (saved : Bool) (w : Workload)
    (m : Manager)
    → Consistent digest Seen m
    → IsNew w.name m
    → Leaves digest Seen (file_workload saved w m)
unfolding file_workload
file_workload-Consistent {digest} {Seen} saved w m c new =
    if_elim (Leaves digest Seen) (saves saved m.store) _ _
      (λ _. record { consistent = filed-Consistent w m c new saved })
      (λ _. record {
        consistent = delete-Consistent w.id _ _ (filed-Consistent w m c new saved) refl refl;
      })

module _ (digest : String → String) {Seen : GoMap String Workload → Type 0} (world : World) where
  pub create_workload-Consistent :
      (spec : WorkloadSpec) (m : Manager)
      → Consistent digest Seen m
      → Leaves digest Seen (create_workload digest world spec m)
  unfolding create_workload drafted
  create_workload-Consistent spec m c =
      if_elim (Leaves digest Seen) (trim_space spec.name == "") _ _ (λ _. record { consistent = c })
        (λ _.
          if_elim (Leaves digest Seen) (has_name spec.name m) _ _ (λ _. record { consistent = c })
            (λ nothing.
              file_workload-Consistent world.saved (hashed digest (drafted world spec)) m c
                (has_name-IsNew spec.name m nothing)))

  approve_matching-Consistent :
      (id : String) (w : Workload) (plan : ProvisioningPlan) (m : Manager)
      → get id m.workloads ≡ some w
      → get id m.plans ≡ some plan
      → plan.is_valid ≡ true
      → Consistent digest Seen m
      → Leaves digest Seen (approve_matching digest world id w plan m)
  unfolding approve_matching
  approve_matching-Consistent id w plan m here there valid c =
      if_elim (Leaves digest Seen) (compute_plan_hash digest w == plan.plan_hash) _ _
        (λ _. record {
          consistent =
              Tame-Consistent (set_plan id approved m) _
                (Tame-set id _ w (set_plan id approved m) _ here (refl, refl) refl refl) planned;
        })
        (λ _. record {
          consistent = Tame-Consistent m _ (invalidate-Tame id w plan m here there) c;
        })
    where
      approved : ProvisioningPlan
      approved = record plan { approved = true }

      planned : Consistent digest Seen (set_plan id approved m)
      planned = record {
        passed = put-AllPassed digest Seen id approved m.plans (c.passed id plan there) c.passed;
        valid = λ k q e a. elim (get-put_cases id k approved q m.plans e) [
          | inl (_, same) ↦ sym (ap (λ (x : ProvisioningPlan). x.is_valid) same) ∙ valid
          | inr (_, before) ↦ c.valid k q before a
        ];
        filed = c.filed;
        names = c.names;
      }

  pub approve_plan-Consistent :
      (id : String) (m : Manager)
      → Consistent digest Seen m
      → Leaves digest Seen (approve_plan digest world id m)
  unfolding approve_plan
  approve_plan-Consistent id m c =
      option_elim (Leaves digest Seen) (get id m.plans) _ _ (λ _. record { consistent = c })
        (λ plan there.
          if_elim (Leaves digest Seen) (not plan.is_valid) _ _ (λ _. record { consistent = c })
            (λ valid.
              option_elim (Leaves digest Seen) (get id m.workloads) _ _
                (λ _. record { consistent = c })
                (λ w here.
                  approve_matching-Consistent id w plan m here there (ground (arith, valid)) c)))

  module _ (p : Provider) where
    tag_adopted-Consistent :
        (name : String) (w : Workload) (m : Manager)
        → Consistent digest Seen m
        → Leaves digest Seen (tag_adopted world p name w m)
    unfolding tag_adopted
    tag_adopted-Consistent name w m c =
        option_elim (Leaves digest Seen) p.adopts _ _
          (λ _. record { consistent = Tame-Consistent m _ (Tame-same m _ refl refl) c })
          (λ tagged _.
            if_elim (Leaves digest Seen) (tagged name w.id) _ _
              (λ _. record { consistent = Tame-Consistent m _ (Tame-same m _ refl refl) c })
              (λ _. record { consistent = delete-Consistent w.id m _ c refl refl }))

    adopt_instance-Consistent :
        (name : String) (inst : Instance) (m : Manager)
        → inst.name ≡ name
        → IsNew name m
        → Consistent digest Seen m
        → Leaves digest Seen (adopt_instance digest world p name inst m)
    unfolding adopt_instance adopted
    adopt_instance-Consistent name inst m same new c =
        let w = hashed digest (adopted world p.name inst) in
        let filed = file_workload-Consistent world.saved w m c (λ k v e q. new k v e (q ∙ same)) in
        if_elim (Leaves digest Seen) (saves world.saved m.store) _ _
          (λ _. tag_adopted-Consistent name w (file_workload world.saved w m).1 filed.consistent)
          (λ _. filed)

    pub adopt_workload-Consistent :
        (given : String) (m : Manager)
        → IsHonest p
        → Consistent digest Seen m
        → Leaves digest Seen (adopt_workload digest world p given m)
    unfolding adopt_workload adopt_locked
    adopt_workload-Consistent given m honest c =
        if_elim (Leaves digest Seen) (trim_space given == "") _ _ (λ _. record { consistent = c })
          (λ _.
            if_elim (Leaves digest Seen) (is_managed (trim_space given) m) _ _
              (λ _. record { consistent = c })
              (λ nothing.
                if_elim (Leaves digest Seen) (not p.attached) _ _ (λ _. record { consistent = c })
                  (λ _. by_answer nothing (p.get_instance (trim_space given)) refl)))
      where
        by_answer :
            is_managed (trim_space given) m ≡ false
            → (a : Answer) → p.get_instance (trim_space given) ≡ a
            → Leaves {A = Result Workload} digest Seen (elim a [
              | found inst ↦ adopt_instance digest world p (trim_space given) inst m
              | missing ↦ (err instance_not_found, m)
              | failing ↦ (err query_failed, m)
            ])
        by_answer nothing (found inst) e =
            adopt_instance-Consistent _ inst m (honest _ inst e) (is_managed-IsNew _ m nothing) c
        by_answer nothing missing e = record { consistent = c }
        by_answer nothing failing e = record { consistent = c }
