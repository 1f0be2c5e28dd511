-- ===== src/Workloads/Manager/Consistent.antt =====
-- The invariant of the workload manager: which workloads and plans there can be at all.
use mystic_hypervisor.Prelude.Maps.{
  GoMap, get, put, delete, values, get-put_cases, get-delete_cases,
}
use mystic_hypervisor.Prelude.{
  ◌≡◌, ◌≢◌, ◌⊎◌, inl, inr, refl, sym, ap, ◌∙◌, subst, none, some, String, [], map, true, false,
  string_eq,
}
use mystic_hypervisor.Networking.AllocatorEngine.Conflicts.{validate_allocation}
use mystic_hypervisor.Workloads.Manager.Creation.{compute_plan_hash}
use mystic_hypervisor.Workloads.Manager.Planning.{needs_no_port, request_of}
use mystic_hypervisor.Workloads.Manager.{Manager}
use mystic_hypervisor.Workloads.Workload.{ProvisioningPlan, Workload}

-- The validation of a workload against the workloads of a map finds nothing against it: it needs no
-- port, or the engine, given its request and the network configurations, finds the request valid.
abbrev pub Passes : Workload → GoMap String Workload → Type 0
Passes v ws =
    (needs_no_port v ≡ true)
    ⊎ ((validate_allocation (request_of v) none []
          (map (λ (x : Workload). x.network_config) (values ws)) [] none).is_valid
        ≡ true)

-- A workload with this id and this plan hash passed the validation, against a map of workloads that
-- was seen.
pub record HasPassed (digest : String → String) (Seen : GoMap String Workload → Type 0)
    (id hash : String) : Type 0 where
  pub workload : Workload
  pub among : GoMap String Workload
  pub seen : Seen among
  pub id_of : id ≡ workload.id
  pub hash_of : hash ≡ compute_plan_hash digest workload
  pub passes : Passes workload among

abbrev pub Passed : (String → String) → (GoMap String Workload → Type 0) → ProvisioningPlan → Type 0
Passed digest Seen plan = HasPassed digest Seen plan.workload_id plan.plan_hash

-- The plans that are marked as valid are those of workloads that passed the validation.
abbrev pub AllPassed :
    (String → String) → (GoMap String Workload → Type 0) → GoMap String ProvisioningPlan → Type 0
AllPassed digest Seen plans =
    (k : String) (plan : ProvisioningPlan)
    → get k plans ≡ some plan
    → plan.is_valid ≡ true
    → Passed digest Seen plan

-- A plan that is marked as valid is of a workload that passed the validation; an approved plan is marked
-- as valid; every workload stands under its id; and no two workloads have one name.
pub record Consistent (digest : String → String) (Seen : GoMap String Workload → Type 0)
    (m : Manager) : Type 0 where
  pub passed : AllPassed digest Seen m.plans
  pub valid :
      (k : String) (plan : ProvisioningPlan)
      → get k m.plans ≡ some plan
      → plan.approved ≡ true
      → plan.is_valid ≡ true
  pub filed : (k : String) (w : Workload) → get k m.workloads ≡ some w → w.id ≡ k
  pub names :
      (k j : String) (v w : Workload)
      → get k m.workloads ≡ some v
      → get j m.workloads ≡ some w
      → v.name ≡ w.name
      → k ≡ j

-- The same workload, by what the invariant reads of it.
abbrev pub Same : Workload → Workload → Type 0
Same v w = (v.id ≡ w.id) × (v.name ≡ w.name)

-- The plan was there, approved, and with the same result.
abbrev pub WasApproved : GoMap String ProvisioningPlan → String → ProvisioningPlan → Type 0
WasApproved plans k plan =
    (q : ProvisioningPlan) × (get k plans ≡ some q)
    × (q.approved ≡ true)
    × (q.is_valid ≡ plan.is_valid)

-- The change adds and renames no workload, approves no plan, and marks none as valid that is not.
pub record Tame (digest : String → String) (Seen : GoMap String Workload → Type 0) (m n : Manager)
    : Type 0 where
  pub passed : AllPassed digest Seen m.plans → AllPassed digest Seen n.plans
  pub workloads :
      (k : String) (v : Workload)
      → get k n.workloads ≡ some v
      → (w : Workload) × (get k m.workloads ≡ some w) × Same v w
  pub plans :
      (k : String) (plan : ProvisioningPlan)
      → get k n.plans ≡ some plan
      → plan.approved ≡ true
      → WasApproved m.plans k plan

pub Tame-Consistent :
    {digest : String → String} {Seen : GoMap String Workload → Type 0} (m n : Manager)
    → Tame digest Seen m n
    → Consistent digest Seen m
    → Consistent digest Seen n
Tame-Consistent m n t c = record {
  passed = t.passed c.passed;
  valid = λ k plan e a. let (q, f, b, s) = t.plans k plan e a in sym s ∙ c.valid k q f b;
  filed = λ k v e. let (w, f, (i, _)) = t.workloads k v e in i ∙ c.filed k w f;
  names = λ k j v w e f s.
      let (v', e', (_, a)) = t.workloads k v e in
      let (w', f', (_, b)) = t.workloads j w f in c.names k j v' w' e' f' (sym a ∙ s ∙ b);
}

-- The fields that the invariant reads are as they were.
pub Tame-same :
    {digest : String → String} {Seen : GoMap String Workload → Type 0} (m n : Manager)
    → n.workloads ≡ m.workloads
    → n.plans ≡ m.plans
    → Tame digest Seen m n
Tame-same {digest} {Seen} m n a b = record {
  passed = subst (AllPassed digest Seen) (sym b);
  workloads = λ k v e. (v, sym (ap (get k) a) ∙ e, (refl, refl));
  plans = λ k plan e h. (plan, sym (ap (get k) b) ∙ e, h, refl);
}

pub Tame-trans :
    {digest : String → String} {Seen : GoMap String Workload → Type 0} (l m n : Manager)
    → Tame digest Seen l m
    → Tame digest Seen m n
    → Tame digest Seen l n
Tame-trans l m n s t = record {
  passed = λ all. t.passed (s.passed all);
  workloads = λ k v e.
      let (w, f, (a, b)) = t.workloads k v e in
      let (u, g, (c, d)) = s.workloads k w f in (u, g, (a ∙ c, b ∙ d));
  plans = λ k plan e h.
      let (q, f, a, r) = t.plans k plan e h in
      let (p, g, b, u) = s.plans k q f a in (p, g, b, u ∙ r);
}

-- A write to a workload that there is.
pub Tame-set :
    {digest : String → String} {Seen : GoMap String Workload → Type 0} (id : String)
    (v w : Workload) (m n : Manager)
    → get id m.workloads ≡ some w
    → Same v w
    → n.workloads ≡ put id v m.workloads
    → n.plans ≡ m.plans
    → Tame digest Seen m n
Tame-set {digest} {Seen} id v w m n here same a b = record {
  passed = subst (AllPassed digest Seen) (sym b);
  workloads = λ k x e. elim (get-put_cases id k v x m.workloads (sym (ap (get k) a) ∙ e)) [
    | inl (q, r) ↦ (
      w,
      subst (λ j. get j m.workloads ≡ some w) q here,
      (
        sym (ap (λ (y : Workload). y.id) r) ∙ same.0,
        sym (ap (λ (y : Workload). y.name) r) ∙ same.1,
      ),
    )
    | inr (_, f) ↦ (x, f, (refl, refl))
  ];
  plans = λ k plan e h. (plan, sym (ap (get k) b) ∙ e, h, refl);
}

pub put-AllPassed :
    (digest : String → String) (Seen : GoMap String Workload → Type 0) (id : String)
    (q : ProvisioningPlan) (plans : GoMap String ProvisioningPlan)
    → (q.is_valid ≡ true → Passed digest Seen q)
    → AllPassed digest Seen plans
    → AllPassed digest Seen (put id q plans)
put-AllPassed digest Seen id q plans new all k plan e h = elim (get-put_cases id k q plan plans e) [
  | inl (_, r) ↦
      subst (Passed digest Seen) r (new (ap (λ (y : ProvisioningPlan). y.is_valid) r ∙ h))
  | inr (_, f) ↦ all k plan f h
]

-- A plan that is filed unapproved.
pub Tame-set_plan :
    {digest : String → String} {Seen : GoMap String Workload → Type 0} (id : String)
    (q : ProvisioningPlan) (m n : Manager)
    → (AllPassed digest Seen m.plans → q.is_valid ≡ true → Passed digest Seen q)
    → q.approved ≡ false
    → n.plans ≡ put id q m.plans
    → n.workloads ≡ m.workloads
    → Tame digest Seen m n
Tame-set_plan {digest} {Seen} id q m n new no_approval b a = record {
  passed = λ all.
      subst (AllPassed digest Seen) (sym b) (put-AllPassed digest Seen id q m.plans (new all) all);
  workloads = λ k v e. (v, sym (ap (get k) a) ∙ e, (refl, refl));
  plans = λ k plan e h. elim (get-put_cases id k q plan m.plans (sym (ap (get k) b) ∙ e)) [
    | inl (_, r) ↦ cc (no_approval, h, ap (λ (y : ProvisioningPlan). y.approved) r)
    | inr (_, f) ↦ (plan, f, h, refl)
  ];
}

pub Tame-delete :
    {digest : String → String} {Seen : GoMap String Workload → Type 0} (id : String) (m n : Manager)
    → n.workloads ≡ delete id m.workloads
    → n.plans ≡ delete id m.plans
    → Tame digest Seen m n
Tame-delete {digest} {Seen} id m n a b = record {
  passed =
      λ all k plan e. all k plan (get-delete_cases id k plan m.plans (sym (ap (get k) b) ∙ e)).1;
  workloads =
      λ k v e. (v, (get-delete_cases id k v m.workloads (sym (ap (get k) a) ∙ e)).1, (refl, refl));
  plans = λ k plan e h.
      (plan, (get-delete_cases id k plan m.plans (sym (ap (get k) b) ∙ e)).1, h, refl);
}

-- A workload with a name that is not in use comes under its id.
pub put-Consistent :
    {digest : String → String} {Seen : GoMap String Workload → Type 0} (w : Workload)
    (m n : Manager)
    → Consistent digest Seen m
    → ((k : String) (v : Workload) → get k m.workloads ≡ some v → v.name ≢ w.name)
    → n.workloads ≡ put w.id w m.workloads
    → n.plans ≡ m.plans
    → Consistent digest Seen n
put-Consistent {digest} {Seen} w m n c new a b = record {
  passed = subst (AllPassed digest Seen) (sym b) c.passed;
  valid = λ k plan e h. c.valid k plan (sym (ap (get k) b) ∙ e) h;
  filed = λ k v e. elim (cases k v e) [
    | inl (q, r) ↦ sym (ap (λ (y : Workload). y.id) r) ∙ q
    | inr (_, f) ↦ c.filed k v f
  ];
  names = λ k j u v e f s. elim (cases k u e) [
    | inl (q, r) ↦ elim (cases j v f) [
      | inl (t, _) ↦ sym q ∙ t
      | inr (_, g) ↦ absurd (new j v g (sym s ∙ sym (ap (λ (y : Workload). y.name) r)))
    ]
    | inr (_, g) ↦ elim (cases j v f) [
      | inl (_, r) ↦ absurd (new k u g (s ∙ sym (ap (λ (y : Workload). y.name) r)))
      | inr (_, h) ↦ c.names k j u v g h s
    ]
  ];
}
  where
    cases :
        (k : String) (v : Workload)
        → get k n.workloads ≡ some v
        → ((w.id ≡ k) × (w ≡ v)) ⊎ (k ≢ w.id) × (get k m.workloads ≡ some v)
    cases k v e = get-put_cases w.id k w v m.workloads (sym (ap (get k) a) ∙ e)
