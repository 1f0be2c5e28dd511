-- ===== src/Workloads/Manager/Tests.antt =====
-- backend/internal/workloads/manager.go, run from an empty manager to a running workload, and the uses
-- of the theorems there.
use mystic_hypervisor.Hosts.{ExposureMode}
use mystic_hypervisor.Networking.SshAllocator.{
  allocate_for, allocate_port, commit_allocation, empty_allocator, find_port, is_busy,
  is_public_port_in_use, live_allocation, reserve_port, save_store,
}
use mystic_hypervisor.Networking.SshAllocator.Discovery.{
  reconcile_from_provider_instances, reconcile_instances,
}
use mystic_hypervisor.Prelude.Int.{pos}
use mystic_hypervisor.Prelude.Maps.{delete, get, put}
use mystic_hypervisor.Prelude.{
  ◌≡◌, ◌≢◌, refl, sym, ◌∙◌, All, none, some, String, true, false, List, [], ◌∷◌, string_eq,
}
use mystic_hypervisor.Providers.{Instance, InstanceState, InstanceType}
use mystic_hypervisor.Workloads.Manager.Consistent.{Consistent}
use mystic_hypervisor.Workloads.Manager.Creation.{
  compute_plan_hash, create_workload, drafted, file_workload, no_request, plan_text, workload_id,
}
use mystic_hypervisor.Workloads.Manager.Histories.{
  Call, HasHad, IsCleared, Moment, called, new_manager-Consistent, run, run-Consistent,
  run-IsCleared,
}
use mystic_hypervisor.Workloads.Manager.Outcomes.{ProvisionOutcome, provision_workload-Outcome}
use mystic_hypervisor.Providers.Preflight.{
  InstanceOwnership, PreflightInstance, ProviderPreflightResult, available,
}
use mystic_hypervisor.Providers.Registry.{get_provider}
use mystic_hypervisor.Workloads.Manager.Preflight.{
  Checked, IsCorrect, asked_provider, correct, get_provider_preflight,
  get_provider_preflight-IsCorrect, no_server_info,
}
use mystic_hypervisor.Snapshots.Deleted.{Refused, delete_workload-Refused, resolver_of}
use mystic_hypervisor.Snapshots.Manager as Snapshots
use mystic_hypervisor.Snapshots.Manager.{get_snapshot}
use mystic_hypervisor.Snapshots.Name.{
  byte_length, is_alphanumeric, is_name_character, make_snapshot_id, matches_name, matches_rest,
  name_fault, validate_snapshot_name, width,
}
use mystic_hypervisor.Snapshots.{Snapshot}
use mystic_hypervisor.Workloads.Manager.Launch.{
  after_creation, new_instance, provision_create, provision_started,
}
use mystic_hypervisor.Workloads.Manager.Provisioning.{
  after_allocation, after_inspection, existing, provision_attached, provision_planned,
  provision_running, provision_vacant, provision_workload,
}
use mystic_hypervisor.Workloads.Manager.Reconciliation.{
  live_map, new_manager, reconcile_all, reconcile_each, reconcile_listed,
}
use mystic_hypervisor.Workloads.Manager.Removal.{IsFiled, DeleteOutcome, delete_workload-Outcome}
use mystic_hypervisor.Text.Decimal.{emit, format, itoa}
use mystic_hypervisor.Text.{sprint, trim_space}
use mystic_hypervisor.Workloads.Execution.{check_ownership, get_operation_record}
use mystic_hypervisor.Workloads.Manager.Growth.{IsHonest}
use mystic_hypervisor.Workloads.Manager.Planning.{
  approve_matching, approve_plan, generate_plan, plan_of, validated,
}
use mystic_hypervisor.Workloads.Manager.Deletion.{delete_attached, delete_workload, remove_workload}
use mystic_hypervisor.Workloads.Manager.{
  Attached, Manager, Provider, Saves, World, created, creates, deleted, missing, starts,
}
use mystic_hypervisor.Workloads.Workload.{Workload, WorkloadSpec, WorkloadStatus, WorkloadType}

abbrev web : Instance
web = record {
  id = "web";
  name = "web";
  type = InstanceType.container;
  state = InstanceState.running;
  provider = "incus";
  node = "local";
  ip_address = "10.0.0.5";
  limits = record { cpu_cores = pos 2; memory_bytes = pos 1024; disk_bytes = pos 0 };
  labels = [];
  devices = [];
  created_at = none;
  updated_at = none;
}

-- A provider that has no instances and makes every one that it is asked for.
abbrev fresh : Provider
fresh = record {
  name = "incus";
  attached = true;
  containers = true;
  vms = true;
  get_instance = λ _. missing;
  create_instance = λ _. created web;
  get_created = λ _. missing;
  starts = λ _. true;
  stops = λ _. true;
  restarts = λ _. true;
  delete_instance = λ _. deleted;
  adopts = none;
  list_instances = some [];
}

abbrev everything_saved : Saves
everything_saved = record {
  allocation = true;
  allocation_status = true;
  release = true;
  new_exposure = true;
  updated_exposure = true;
  applied_exposure = true;
  deleted_exposure = λ _. true;
}

abbrev world : World
world = record {
  now = 1;
  stamp = "2025-01-01T00:00:00Z";
  nanos = 1;
  env = record { public_ssh_host = ""; incus_host_address = "" };
  saved = true;
  saved_again = true;
  discovered = true;
  saves_of = λ _. everything_saved;
}

abbrev attached : Attached
attached = record {
  exposures = record { exposures = []; store = none; driver = none };
  allocator = empty_allocator none;
}

abbrev spec : WorkloadSpec
spec = record {
  name = "web";
  provider = "incus";
  type = WorkloadType.incus_container;
  image = "debian/12";
  project = "default";
  profile = "default";
  cpu = pos 2;
  memory_mb = pos 512;
  storage_gb = pos 10;
  host_id = "host-local";
  network_name = "incusbr0";
  private_ip = "";
  exposure_mode = ExposureMode.private_only;
  gateway_id = "";
  port_request = no_request;
}

abbrev at : Call → Moment
at c = record { world = world; provider = fresh; call = c }

abbrev calls : List Moment
calls = at (Call.create spec) ∷ at (Call.generate "wl-1") ∷ at (Call.approve "wl-1") ∷ []

abbrev same : String → String
same s = s

abbrev start : Manager
start = new_manager world (λ _. true) fresh true none attached

abbrev ready : Manager
ready = run same calls start

-- The workload after its plan was approved.
abbrev prepared : Workload
prepared = record (drafted world spec) {
  status = WorkloadStatus.approved;
  plan_hash = "web:incus:INCUS_CONTAINER:debian/12:2:512:10:host-local:incusbr0";
}

prepared_lem : get "wl-1" ready.workloads ≡ some prepared
unfolding run called create_workload generate_plan approve_plan approve_matching new_manager
    reconcile_all reconcile_listed live_map reconcile_each drafted file_workload plan_text
    compute_plan_hash workload_id plan_of validated get put delete sprint trim_space itoa format
    emit
prepared_lem = refl

test_provision :
    (provision_workload same world fresh "wl-1" ready).1.requests
    ≡ starts "web" ∷ creates (new_instance prepared) ∷ []
unfolding run called create_workload generate_plan approve_plan approve_matching new_manager
    reconcile_all reconcile_listed live_map reconcile_each drafted file_workload plan_text
    compute_plan_hash workload_id plan_of validated get put delete sprint trim_space itoa format
    emit provision_workload provision_planned provision_running provision_attached after_inspection
    provision_vacant after_allocation provision_create after_creation provision_started new_instance
    allocate_port existing check_ownership get_operation_record allocate_for live_allocation
    reconcile_from_provider_instances save_store reconcile_instances reserve_port find_port is_busy
    is_public_port_in_use commit_allocation
test_provision = refl

nothing_asked : ready.requests ≡ []
unfolding run called create_workload generate_plan approve_plan approve_matching new_manager
    reconcile_all reconcile_listed live_map reconcile_each drafted file_workload plan_text
    compute_plan_hash workload_id plan_of validated get put delete sprint trim_space itoa format
    emit
nothing_asked = refl

-- The provider was asked for something.
moved : (provision_workload same world fresh "wl-1" ready).1.requests ≢ ready.requests
moved e = cc (sym test_provision ∙ e ∙ nothing_asked)

honest : All (λ (x : Moment). IsHonest x.provider) calls
honest = (λ name inst e. cc, (λ name inst e. cc, (λ name inst e. cc, _)))

start-Consistent : Consistent same (HasHad same calls start) start
start-Consistent =
    new_manager-Consistent same world (λ _. true) fresh true none attached (λ ws e. cc)

no_exposures : IsFiled ready.attached.exposures.exposures
unfolding run called create_workload generate_plan approve_plan approve_matching new_manager
    reconcile_all reconcile_listed live_map reconcile_each drafted file_workload plan_text
    compute_plan_hash workload_id plan_of validated get put delete sprint trim_space itoa format
    emit
no_exposures k x e = cc

run-Consistent_example : Consistent same (HasHad same calls start) ready
run-Consistent_example =
    run-Consistent same calls start (λ before after e. (before, after, e, refl)) honest
      start-Consistent

run-IsCleared_example : IsCleared same (HasHad same calls start) "wl-1" prepared ready
run-IsCleared_example =
    run-IsCleared same world (λ _. true) fresh true none attached calls world fresh "wl-1" prepared
      ready (λ ws e. cc) honest refl prepared_lem moved

provision_workload-Outcome_example :
    ProvisionOutcome same fresh "wl-1" prepared ready
      (provision_workload same world fresh "wl-1" ready)
provision_workload-Outcome_example =
    provision_workload-Outcome same world fresh "wl-1" prepared ready prepared_lem

delete_workload-Outcome_example :
    DeleteOutcome world fresh "wl-1" prepared ready (delete_workload world fresh "wl-1" ready)
delete_workload-Outcome_example =
    delete_workload-Outcome world fresh "wl-1" prepared ready no_exposures prepared_lem

-- A provider whose labels say that an instance is Mystic's, which no workload has, and that the one of
-- the prepared workload is not.
abbrev seen : String → InstanceOwnership → PreflightInstance
seen name ownership = record {
  name = name;
  type = "container";
  state = "running";
  ownership = ownership;
  ip_address = "";
}

abbrev report : ProviderPreflightResult
report = record {
  provider = "incus";
  availability = available;
  health_status = record { installed = true; reachable = true; operational = true; capable = true };
  server_info = no_server_info;
  capabilities = "container" ∷ [];
  existing_instances =
      seen "lost" InstanceOwnership.mystic_owned ∷ seen "web" InstanceOwnership.external ∷ [];
  networks = [];
  storage_pools = [];
  images = [];
  warnings = [];
  blockers = [];
}

abbrev checker : Checked
checker = record {
  name = "incus";
  capabilities = ("container", true) ∷ [];
  checks = some (some report);
  ping = none;
}

preflight_lem : get_provider_preflight "incus" checker [] ready ≡ some (correct ready report)
unfolding get_provider_preflight asked_provider get_provider get
preflight_lem = refl

get_provider_preflight-IsCorrect_example :
    All (IsCorrect ready) (correct ready report).existing_instances
get_provider_preflight-IsCorrect_example =
    get_provider_preflight-IsCorrect "incus" checker [] ready (correct ready report) preflight_lem

-- A snapshot of the prepared workload, and a snapshot manager that asks the workload manager after the
-- deletion.
abbrev before : Snapshot
before = record {
  id = "wl-1/before";
  name = "before";
  workload_id = "wl-1";
  workload_name = "web";
  stateful = false;
  size_bytes = pos 0;
  created_at = 1;
  status = "ACTIVE";
  description = "";
}

abbrev left : Snapshots.Manager
left = record {
  snapshots = ("wl-1/before", before) ∷ [];
  store = none;
  provider = none;
  resolver = some (resolver_of (delete_workload world fresh "wl-1" ready).1);
  requests = [];
}

deleted_web : (delete_workload world fresh "wl-1" ready).0 ≡ none
unfolding run called create_workload generate_plan approve_plan approve_matching new_manager
    reconcile_all reconcile_listed live_map reconcile_each drafted file_workload plan_text
    compute_plan_hash workload_id plan_of validated get put delete sprint trim_space itoa format
    emit delete_workload delete_attached remove_workload check_ownership
deleted_web = refl

no_space : trim_space "wl-1" ≡ "wl-1"
unfolding trim_space
no_space = refl

before_is_accepted : validate_snapshot_name "before" ≡ none
unfolding validate_snapshot_name name_fault trim_space byte_length width matches_name matches_rest
    is_alphanumeric is_name_character
before_is_accepted = refl

before_is_kept : get (make_snapshot_id "wl-1" "before") left.snapshots ≡ some before
unfolding make_snapshot_id sprint get
before_is_kept = refl

delete_workload-Refused_example :
    Refused true "wl-1" "before" left × (get_snapshot "wl-1" "before" left ≡ Snapshots.ok before)
delete_workload-Refused_example =
    delete_workload-Refused world fresh "wl-1" prepared ready true "before" before left no_exposures
      prepared_lem deleted_web no_space refl before_is_accepted before_is_kept
