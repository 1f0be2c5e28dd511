-- ===== src/Tests.antt =====
-- The theorems on the stores, the services, the connections, the reconciler, the roles and the
-- configuration at concrete inputs.
use mystic_hypervisor.Config.{Environment, Sensible, load_from_env, load_from_env_iff}
use mystic_hypervisor.Connections.Creation.{create_connection_profile_lem}
use mystic_hypervisor.Connections.Generation.{
  Describes, check_profile-generate_connection_profile, generate_connection_profile-Describes,
}
use mystic_hypervisor.Connections.{
  ConnectionError, ConnectionProfile, check_endpoint, check_profile, connect,
  create_connection_profile, endpoint, endpoint_host_required, filed, generate_at,
  generate_connection_profile, profile_of,
}
use mystic_hypervisor.Hosts.{Protocol}
use mystic_hypervisor.Instances.Reconciler.{
  Agree, AgreeCores, InstanceMetadata, ReconciledInstance, gibibyte, mebibyte, metadata_of,
  reconcile, reconcile_authoritative, resolve, resolve_in_sync_iff,
}
use mystic_hypervisor.Instances.{in_sync, orphaned}
use mystic_hypervisor.Prelude.Int.{pos}
use mystic_hypervisor.Prelude.Maps.{GoMap, get}
use mystic_hypervisor.Prelude.{
  ◌≡◌, ◌≢◌, ◌↔◌, ◌⊎◌, inl, inr, refl, sym, ap, subst, not, Bool, ◌∙◌, Option, none, some, String,
  true, false, ◌&&◌, ◌==◌, [], ◌∷◌, Bool-cases, string_eq, arith, if◌then◌else◌,
}
use mystic_hypervisor.Providers.{Instance, InstanceState, InstanceType, instance_state_eq}
use mystic_hypervisor.Rbac.{has_permission}
use mystic_hypervisor.Services.Creation.{Extends, Valid, create_service_lem}
use mystic_hypervisor.Services.Refusal.{delete_service-update_service}
use mystic_hypervisor.Services.{
  delete_service, is_supported, Service, ServiceError, ServiceType, create_service, identified,
  is_console, stamped, unsupported_type, update_service, updated_by, validate_service_config,
  check_fields,
}
use mystic_hypervisor.Store.FileStore.Atomic.{held, save-held}
use mystic_hypervisor.Store.FileStore.RoundTrip.{load-save, load_workloads-save, Yields, readable}
use mystic_hypervisor.Store.FileStore.{
  MapCodec, SameEntries, Files, SaveCalls, load, load_workloads, save,
}
use mystic_hypervisor.Store.Registry.{Inserted, Kept, Registry}
use mystic_hypervisor.Text.{sprint, trim_space}
use mystic_hypervisor.Text.Decimal.{emit, itoa}

-- The maps with the entries `a` and `b` that a toy encoder takes, in either order; the keys of its output
-- are sorted.
abbrev sorted : GoMap String Bool
sorted = ("a", true) ∷ ("b", false) ∷ []

abbrev unsorted : GoMap String Bool
unsorted = ("b", false) ∷ ("a", true) ∷ []

abbrev encoded : String
encoded = "{a:true,b:false}"

toy_marshal : GoMap String Bool → Option String
toy_marshal [] = some "{}"
toy_marshal ((k, v) ∷ (l, w) ∷ []) =
    if (k == "a" && v) && (l == "b" && not w)
    then some encoded
    else if (k == "b" && not v) && (l == "a" && w)
    then some encoded
    else none
toy_marshal _ = none

abbrev toy_unmarshal : String → Option (GoMap String Bool)
toy_unmarshal s = if s == "{}" then some [] else if s == encoded then some sorted else none

-- The order does not count.
swapped : SameEntries sorted unsorted
unfolding get
swapped j = elim (Bool-cases ("a" == j)) [
  | inl t ↦ subst (λ x. get x sorted ≡ get x unsorted) ((string_eq.same_iff "a" j).0 t) refl
  | inr t ↦ elim (Bool-cases ("b" == j)) [
    | inl u ↦ subst (λ x. get x sorted ≡ get x unsorted) ((string_eq.same_iff "b" j).0 u) refl
    | inr u ↦ ground (arith, t, u)
  ]
]

toy_pair :
    (k l : String) (v w : Bool) (s : String)
    → toy_marshal ((k, v) ∷ (l, w) ∷ []) ≡ some s
    → (s ≡ encoded) × SameEntries sorted ((k, v) ∷ (l, w) ∷ [])
unfolding toy_marshal
toy_pair k l v w s h = elim (Bool-cases ((k == "a" && v) && (l == "b" && not w))) [
  | inl t ↦
      let p = (string_eq.same_iff k "a").0 (ground (arith, t)) in
      let q = (string_eq.same_iff l "b").0 (ground (arith, t)) in
      let x : v ≡ true = ground (arith, t) in
      let y : w ≡ false = ground (arith, t) in
      let same : sorted ≡ ((k, v) ∷ (l, w) ∷ []) = cc (p, q, x, y) in
      (ground (arith, h, t), subst (SameEntries sorted) same (λ j. refl))
  | inr t ↦
      let p = (string_eq.same_iff k "b").0 (ground (arith, h, t)) in
      let q = (string_eq.same_iff l "a").0 (ground (arith, h, t)) in
      let x : v ≡ false = ground (arith, h, t) in
      let y : w ≡ true = ground (arith, h, t) in
      let same : unsorted ≡ ((k, v) ∷ (l, w) ∷ []) = cc (p, q, x, y) in
      (ground (arith, h, t), subst (SameEntries sorted) same swapped)
]

toy_unmarshal-marshal :
    (m : GoMap String Bool) (s : String)
    → toy_marshal m ≡ some s
    → (n : GoMap String Bool) × (toy_unmarshal s ≡ some n) × SameEntries n m
unfolding toy_marshal
toy_unmarshal-marshal [] s h =
    let q : "{}" ≡ s = cc h in ([], subst (λ t. toy_unmarshal t ≡ some []) q refl, λ k. refl)
toy_unmarshal-marshal ((k, v) ∷ []) s h = cc
toy_unmarshal-marshal ((k, v) ∷ (l, w) ∷ []) s h =
    let (q, same) = toy_pair k l v w s h in
    (sorted, subst (λ t. toy_unmarshal t ≡ some sorted) (sym q) refl, same)
toy_unmarshal-marshal (x ∷ y ∷ z ∷ r) s h = cc

toy_not_blank : (m : GoMap String Bool) (s : String) → toy_marshal m ≡ some s → trim_space s ≢ ""
unfolding toy_marshal trim_space
toy_not_blank [] s h e =
    let q : "{}" ≡ s = cc h in
    cc ((string_eq.same_iff (trim_space "{}") "").1 (ap trim_space q ∙ e))
toy_not_blank ((k, v) ∷ []) s h e = cc
toy_not_blank ((k, v) ∷ (l, w) ∷ []) s h e =
    let q = (toy_pair k l v w s h).0 in
    cc ((string_eq.same_iff (trim_space encoded) "").1 (ap trim_space (sym q) ∙ e))
toy_not_blank (x ∷ y ∷ z ∷ r) s h e = cc

abbrev toy_codec : MapCodec Bool
toy_codec = record {
  marshal = toy_marshal;
  unmarshal = toy_unmarshal;
  unmarshal-marshal = toy_unmarshal-marshal;
  marshal_not_blank = toy_not_blank;
}

abbrev all_succeed : SaveCalls
all_succeed = record {
  mkdir = true;
  open_tmp = true;
  write = true;
  partial = "";
  sync = true;
  close = true;
  rename = true;
  remove = true;
}

abbrev disk_full : SaveCalls
disk_full = record {
  mkdir = true;
  open_tmp = true;
  write = false;
  partial = "{";
  sync = true;
  close = true;
  rename = true;
  remove = false;
}

abbrev files : Files
files = ("s.json", "old") ∷ []

save-held_example :
    get "s.json" (save toy_codec disk_full "s.json" unsorted files).0
    ≡ held
        (save toy_codec disk_full "s.json" unsorted files).1
        (get "s.json" files)
        (toy_marshal unsorted)
save-held_example = save-held disk_full "s.json" files toy_codec unsorted

load-save_example :
    Yields
      (save toy_codec all_succeed "s.json" unsorted files).1
      (load toy_codec readable "s.json" [] files)
      unsorted
      (load toy_codec readable "s.json" [] (save toy_codec all_succeed "s.json" unsorted files).0)
load-save_example = load-save toy_codec [] unsorted all_succeed "s.json" files

load_workloads-save_example :
    Yields
      (save toy_codec all_succeed "s.json" unsorted files).1
      (load_workloads toy_codec readable "s.json" [] files)
      unsorted
      (load_workloads toy_codec readable "s.json" []
        (save toy_codec all_succeed "s.json" unsorted files).0)
load_workloads-save_example = load_workloads-save toy_codec [] unsorted all_succeed "s.json" files

-- The Save of the witnesses writes the file.
test_save : (save toy_codec all_succeed "s.json" unsorted files).1 ≡ none
unfolding save toy_marshal
test_save = refl

abbrev web : Service
web = record {
  id = "";
  workload_id = "w1";
  workload_name = "";
  name = "web";
  type = ServiceType.http;
  internal_ip = "10.0.0.5";
  internal_port = pos 8080;
  protocol = Protocol.unset;
  exposure_id = "";
  desired_state = "";
  actual_state = "";
  sync_status = none;
  is_public = false;
  description = "";
  created_at = none;
  updated_at = none;
}

abbrev no_services : Registry Service
no_services = record { entries = []; store = none }

create_service_example :
    (let (r, n) = create_service none true 1 (some web) no_services in
      ((v : Service) × (r ≡ mystic_hypervisor.Services.ok (stamped 1 (identified v)))
        × Valid none v
        × Extends web v
        × (get (identified v).id no_services.entries ≡ none)
        × Inserted (identified v).id (stamped 1 (identified v)) no_services n)
      ⊎ ((e : ServiceError) × (r ≡ mystic_hypervisor.Services.err e) × Kept no_services n))
create_service_example = create_service_lem none true 1 web no_services

-- The first of two services is given a type that there is not, and the second is deleted.
abbrev wrong : Service
wrong = record web { name = "other"; type = ServiceType.other "FTP" }

abbrev s_before : Service
s_before = record web { id = "s" }

abbrev t_before : Service
t_before = record web { id = "t" }

abbrev services : GoMap String Service
services = ("s", s_before) ∷ ("t", t_before) ∷ []

abbrev two_services : Registry Service
two_services = record { entries = services; store = some services }

has_services : (get "s" services ≡ some s_before) × (get "t" services ≡ some t_before)
unfolding get
has_services = (refl, refl)

still_wrong : is_supported (validate_service_config none (updated_by wrong s_before)).1.type ≡ false
unfolding validate_service_config check_fields trim_space
still_wrong = refl

t_ne_s : ◌≢◌ {A = String} "t" "s"
t_ne_s e = cc ((string_eq.same_iff "t" "s").1 e)

delete_service-update_service_example :
    (let (r, n) = update_service none true 2 "s" wrong two_services in
      ((e : ServiceError) × (r ≡ mystic_hypervisor.Services.err e))
      × (contents : GoMap String Service) × ((delete_service true "t" n).1.store ≡ some contents)
      × (get "s" contents ≡ some (validate_service_config none (updated_by wrong s_before)).1))
delete_service-update_service_example =
    delete_service-update_service none true 2 "s" wrong s_before two_services "t" t_before services
      has_services.0 (λ v. cc (v.supported, still_wrong)) refl has_services.1 t_ne_s

abbrev shell : Service
shell = record web { id = "svc-1"; type = ServiceType.ssh; internal_port = pos 22 }

abbrev shell_profile : ConnectionProfile
shell_profile =
    profile_of 1 shell "root" "" "10.0.0.5" (pos 22) ("ssh://root@10.0.0.5", "ssh root@10.0.0.5")

generated :
    generate_connection_profile 1 (some shell) none "root" ""
    ≡ mystic_hypervisor.Connections.ok shell_profile
unfolding generate_connection_profile generate_at endpoint check_endpoint connect trim_space sprint
    itoa emit
generated = refl

generate_connection_profile-Describes_example : Describes shell none shell_profile
generate_connection_profile-Describes_example =
    generate_connection_profile-Describes 1 shell none "root" "" shell_profile generated

text_ne : (s t : String) → (s == t) ≡ false → s ≢ t
text_ne s t h e = cc (h, (string_eq.same_iff s t).1 e)

check_profile-generate_connection_profile_example : check_profile shell_profile ≡ (
    if is_console shell.type && trim_space shell_profile.endpoint_host == ""
    then some endpoint_host_required
    else none)
check_profile-generate_connection_profile_example =
    check_profile-generate_connection_profile 1 shell none "root" "" shell_profile generated
      (text_ne "svc-1" "" refl) (text_ne "w1" "" refl)

abbrev no_profiles : Registry ConnectionProfile
no_profiles = record { entries = []; store = none }

create_connection_profile_example :
    (let (r, n) = create_connection_profile true 1 7 (some shell_profile) no_profiles in
      ((r ≡ mystic_hypervisor.Connections.ok (filed 1 7 shell_profile))
        × (check_profile shell_profile ≡ none)
        × (get (filed 1 7 shell_profile).id no_profiles.entries ≡ none)
        × Inserted (filed 1 7 shell_profile).id (filed 1 7 shell_profile) no_profiles n)
      ⊎ ((e : ConnectionError) × (r ≡ mystic_hypervisor.Connections.err e) × Kept no_profiles n))
create_connection_profile_example = create_connection_profile_lem true 1 7 shell_profile no_profiles

abbrev inst : Instance
inst = record {
  id = "i";
  name = "i";
  type = InstanceType.container;
  state = InstanceState.running;
  provider = "incus";
  node = "n";
  ip_address = "10.0.0.7";
  limits = record { cpu_cores = pos 2; memory_bytes = pos 1048577; disk_bytes = pos 0 };
  labels = [];
  devices = [];
  created_at = none;
  updated_at = none;
}

abbrev meta : InstanceMetadata
meta = record (metadata_of inst) { desired_state = InstanceState.stopped; cpu_cores = pos 2 }

resolve_in_sync_iff_example :
    (resolve meta inst ≡ in_sync)
    ↔ ((meta.desired_state ≡ InstanceState.unset) ⊎ (meta.desired_state ≡ inst.state))
      × Agree mebibyte meta.memory_bytes inst.limits.memory_bytes
      × Agree gibibyte meta.disk_bytes inst.limits.disk_bytes
      × AgreeCores meta.cpu_cores inst.limits.cpu_cores
resolve_in_sync_iff_example = resolve_in_sync_iff meta inst

abbrev shown : ReconciledInstance
shown = record {
  metadata = metadata_of inst;
  authoritative_state = InstanceState.running;
  sync_status = orphaned;
  live_ip_address = "10.0.0.7";
}

is_shown : reconcile none (some inst) ≡ some shown
unfolding reconcile
is_shown = refl

reconcile_authoritative_example :
    (shown.authoritative_state ≡ inst.state) × (shown.live_ip_address ≡ inst.ip_address)
reconcile_authoritative_example = reconcile_authoritative none inst shown is_shown

may_start : has_permission "operator" "instance.start" ≡ true
unfolding has_permission
may_start = refl

abbrev environment : Environment
environment = record {
  server_host = "";
  server_port = "70000";
  db_driver = "";
  db_path = "";
  workload_store_path = "";
  jwt_secret = "";
  default_provider = "lxc";
  log_level = "";
}

load_from_env_iff_example : ((load_from_env environment).1 ≡ none) ↔ Sensible environment
load_from_env_iff_example = load_from_env_iff environment
