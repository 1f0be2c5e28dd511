-- ===== src/Workloads/Manager/Preflight.antt =====
-- backend/internal/workloads/manager.go: GetProviderPreflight.
use mystic_hypervisor.Prelude.Maps.{GoMap, values}
use mystic_hypervisor.Prelude.Membership.{In, any_iff}
use mystic_hypervisor.Prelude.{
  ◌≡◌, ◌↔◌, ◌⊎◌, inl, inr, ◌||◌, arith, Bool-cases, refl, subst, Option, none, some, String, Bool,
  true, false, not, ◌==◌, ◌&&◌, string_eq, List, [], ◌∷◌, ◌++◌, All, if◌then◌else◌,
}
use mystic_hypervisor.Providers.Preflight.{
  InstanceOwnership, Notice, PreflightInstance, ProviderPreflightResult, ProviderServerInfo,
  available, external, mystic_owned, unavailable, unknown, missing_from_database, provider_down,
}
use mystic_hypervisor.Providers.Registry.{CapabilitySet, get_provider, slice}
use mystic_hypervisor.Workloads.Manager.{Manager, is_managed}
use mystic_hypervisor.Workloads.Workload.{Workload}

-- A provider, as far as the method asks it. `checks` is there if it is a ProviderPreflightChecker, and
-- answers `none` for an error; `ping` is the error of Ping.
pub record Checked : Type 0 where
  pub name : String
  pub capabilities : CapabilitySet
  pub checks : Option (Option ProviderPreflightResult)
  pub ping : Option String

-- The driver, or the registered provider of another name, if there is one.
unfoldable pub asked_provider : String → Checked → GoMap String Checked → Checked
asked_provider name driver registry =
    if not (name == "") && not (driver.name == name)
    then elim (get_provider name registry) [ none ↦ driver | some p ↦ p ]
    else driver

abbrev pub no_server_info : ProviderServerInfo
no_server_info = record {
  server_version = "";
  os = "";
  kernel = "";
  architecture = "";
  kvm_supported = false;
}

-- The result for a provider that answers a ping only.
unfoldable pub pinged : String → Checked → ProviderPreflightResult
pinged name p =
    let up : Bool = elim p.ping [ none ↦ true | some _ ↦ false ] in
    record {
      provider = name;
      availability = if up then available else unavailable;
      health_status = record { installed = up; reachable = up; operational = up; capable = up };
      server_info = no_server_info;
      capabilities = slice p.capabilities;
      existing_instances = [];
      networks = [];
      storage_pools = [];
      images = [];
      warnings = [];
      blockers = elim p.ping [ none ↦ [] | some e ↦ provider_down name e ∷ [] ];
    }

-- Who an instance belongs to, by the provider's labels and by whether a workload has its name.
unfoldable pub corrected : Bool → InstanceOwnership → InstanceOwnership
corrected has_workload mystic_owned = if has_workload then mystic_owned else unknown
corrected has_workload external = if has_workload then mystic_owned else external
corrected has_workload unknown = if has_workload then mystic_owned else unknown

abbrev pub is_owned : InstanceOwnership → Bool
is_owned mystic_owned = true
is_owned external = false
is_owned unknown = false

unfoldable pub correct_each : Manager → List PreflightInstance → List PreflightInstance
correct_each m [] = []
correct_each m (x ∷ xs) =
    record x { ownership = corrected (is_managed x.name m) x.ownership } ∷ correct_each m xs

-- The warnings that the loop adds, in its order.
unfoldable pub missing_each : Manager → List PreflightInstance → List Notice
missing_each m [] = []
missing_each m (x ∷ xs) =
    let rest = missing_each m xs in
    if is_owned x.ownership && not (is_managed x.name m)
    then missing_from_database x.name ∷ rest
    else rest

unfoldable pub correct : Manager → ProviderPreflightResult → ProviderPreflightResult
correct m r = record r {
  existing_instances = correct_each m r.existing_instances;
  warnings = r.warnings ++ missing_each m r.existing_instances;
}

-- `none` is the error of the provider's own check.
unfoldable pub get_provider_preflight :
    String → Checked → GoMap String Checked → Manager → Option ProviderPreflightResult
get_provider_preflight name driver registry m =
    let p = asked_provider name driver registry in
    elim p.checks [
      | none ↦ some (pinged name p)
      | some none ↦ none
      | some (some r) ↦ some (correct m r)
    ]

-- A workload has the name, or keeps it as the identity of its instance.
abbrev pub IsKnown : String → Manager → Type 0
IsKnown name m =
    (w : Workload) × In w (values m.workloads) × ((w.name ≡ name) ⊎ (w.provider_instance_id ≡ name))

-- An instance counts as Mystic's exactly if a workload is known by its name.
abbrev pub IsCorrect : Manager → PreflightInstance → Type 0
IsCorrect m x = (x.ownership ≡ mystic_owned) ↔ IsKnown x.name m

is_managed_iff : (name : String) (m : Manager) → (is_managed name m ≡ true) ↔ IsKnown name m
unfolding is_managed
is_managed_iff name m = (
  λ h. let (w, i, e) = (any_iff test (values m.workloads)).0 h in (w, i, by_test w e),
  λ (w, i, u). (any_iff test (values m.workloads)).1 (w, i, to_test w u),
)
  where
    test : Workload → Bool
    test w = w.name == name || w.provider_instance_id == name

    by_test :
        (w : Workload)
        → (w.name == name || w.provider_instance_id == name) ≡ true
        → (w.name ≡ name) ⊎ (w.provider_instance_id ≡ name)
    by_test w e = elim (Bool-cases (w.name == name)) [
      | inl t ↦ inl ((string_eq.same_iff w.name name).0 t)
      | inr t ↦ inr ((string_eq.same_iff w.provider_instance_id name).0 (ground (arith, e, t)))
    ]

    to_test :
        (w : Workload)
        → (w.name ≡ name) ⊎ (w.provider_instance_id ≡ name)
        → (w.name == name || w.provider_instance_id == name) ≡ true
    to_test w (inl e) = ground (arith, (string_eq.same_iff w.name name).1 e)
    to_test w (inr e) = ground (arith, (string_eq.same_iff w.provider_instance_id name).1 e)

corrected-IsCorrect :
    (b : Bool) (o : InstanceOwnership) → (corrected b o ≡ mystic_owned) ↔ (b ≡ true)
unfolding corrected
corrected-IsCorrect true mystic_owned = (λ _. refl, λ _. refl)
corrected-IsCorrect true external = (λ _. refl, λ _. refl)
corrected-IsCorrect true unknown = (λ _. refl, λ _. refl)
corrected-IsCorrect false mystic_owned = (λ e. cc, λ e. cc)
corrected-IsCorrect false external = (λ e. cc, λ e. cc)
corrected-IsCorrect false unknown = (λ e. cc, λ e. cc)

correct_each-IsCorrect :
    (m : Manager) (xs : List PreflightInstance) → All (IsCorrect m) (correct_each m xs)
unfolding correct_each
correct_each-IsCorrect m [] = _
correct_each-IsCorrect m (x ∷ xs) =
    let by_flag = corrected-IsCorrect (is_managed x.name m) x.ownership in
    let known = is_managed_iff x.name m in
    ((λ e. known.0 (by_flag.0 e), λ k. by_flag.1 (known.1 k)), correct_each-IsCorrect m xs)

-- Whatever the provider's labels say, of the instances that a preflight returns exactly those are shown
-- as Mystic's whose name is a workload's name, or the identity that a workload keeps of its instance.
pub get_provider_preflight-IsCorrect :
    (name : String) (driver : Checked) (registry : GoMap String Checked) (m : Manager)
    (r : ProviderPreflightResult)
    → get_provider_preflight name driver registry m ≡ some r
    → All (IsCorrect m) r.existing_instances
unfolding get_provider_preflight correct pinged
get_provider_preflight-IsCorrect name driver registry m r e =
    by_check (asked_provider name driver registry).checks e
  where
    shown :
        (q : ProviderPreflightResult)
        → All (IsCorrect m) q.existing_instances
        → ◌≡◌ {A = Option ProviderPreflightResult} (some q) (some r)
        → All (IsCorrect m) r.existing_instances
    shown q all e =
        let same : q ≡ r = cc e in
        subst (λ (x : ProviderPreflightResult). All (IsCorrect m) x.existing_instances) same all

    by_check :
        (c : Option (Option ProviderPreflightResult))
        → (elim c [
          | none ↦ some (pinged name (asked_provider name driver registry))
          | some none ↦ none
          | some (some q) ↦ some (correct m q)
        ])
          ≡ some r
        → All (IsCorrect m) r.existing_instances
    by_check none e = shown _ _ e
    by_check (some none) e = cc
    by_check (some (some q)) e =
        shown (correct m q) (correct_each-IsCorrect m q.existing_instances) e
