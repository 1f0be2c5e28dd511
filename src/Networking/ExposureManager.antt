-- ===== src/Networking/ExposureManager.antt =====
-- backend/internal/networking/exposure_manager.go: ExposureManager. Every exposure is the object
-- behind one pointer of the map, so the map holds the exposures themselves. Each method holds the
-- manager's mutex and is one step. The provider's driver is a parameter: what it answers.
pub mod Validation
pub mod Unique
pub mod Creation
pub mod Changes
pub mod Histories
mod Tests
use mystic_hypervisor.Hosts.{
  Protocol, ExposureMode, ExposureState, ForwardingRule, exposure_state_beq, protocol_is_unset,
  mode_is_unset, state_is_unset,
}
use mystic_hypervisor.Instances.{SyncStatus, in_sync, out_of_sync}
use mystic_hypervisor.Networking.AllocatorEngine.Conflicts.{validate_allocation, is_available}
use mystic_hypervisor.Networking.AllocatorEngine.Normalize.{bad_port}
use mystic_hypervisor.Networking.AllocatorEngine.{is_known_protocol}
use mystic_hypervisor.Networking.Exposure.{
  NetworkExposure, or_text, exposure_id, convert_forwarding_rule_to_exposure, to_forwarding_rule,
}
use mystic_hypervisor.Networking.Requests.{
  AllocationMode, ConflictDetail, ConflictStatus, Message, PortAllocationRequest, ValidationResult,
}
use mystic_hypervisor.Networking.SshAllocation.{Env, SshAllocation}
use mystic_hypervisor.Networking.SshAllocator.Discovery.{
  reconcile_jesko_and_existing_infrastructure,
}
use mystic_hypervisor.Networking.SshAllocator.{Allocator, new_ssh_port_allocator}
use mystic_hypervisor.Prelude.Int.{ℤ, pos, int_eq, ltz}
use mystic_hypervisor.Prelude.Maps.{GoMap, get, put, delete, values}
use mystic_hypervisor.Prelude.{
  ℕ, zero, suc, Option, none, some, String, Bool, true, false, not, ◌&&◌, ◌||◌, ◌==◌, string_eq,
  nat_eq, List, [], ◌∷◌, map, keep, if◌then◌else◌, ltb,
}
use mystic_hypervisor.Store.{Store, save, saves}
use mystic_hypervisor.Text.Ip.{is_ip}

-- ProviderExposureDriver: whether CreateExposure succeeds, and what GetExposure says of an exposure's
-- being active, `none` if it fails or has no status.
pub record Driver : Type 0 where
  pub creates : NetworkExposure → Bool
  pub active : NetworkExposure → Option Bool

pub record Manager : Type 0 where
  pub exposures : GoMap String NetworkExposure
  pub store : Store NetworkExposure
  pub driver : Option Driver

pub data ExposureError : Type 0 where
  exposure_nil workload_id_required public_port_invalid internal_port_invalid internal_ip_invalid :
      ExposureError
  protocol_invalid already_exists exposure_not_found no_driver provider_failed persist_failed :
      ExposureError
  conflict : Message → ExposureError

pub data Result (A : Type 0) : Type 0 where
  ok : A → Result A
  err : ExposureError → Result A

abbrev pub stored : Store NetworkExposure → GoMap String NetworkExposure
stored none = []
stored (some d) = d

-- The manager that NewExposureManagerWithSSHStore makes; `loads` says whether Load succeeds.
unfoldable pub new_exposure_manager : Bool → Store NetworkExposure → Option Driver → Manager
new_exposure_manager loads store driver = record {
  exposures = if loads then stored store else [];
  store = store;
  driver = driver;
}

-- The allocator that it attaches, which reserves the SSH ports of the exposures.
unfoldable pub attached_allocator :
    Bool → Bool → Env → ℕ → Store SshAllocation → Manager → Allocator
attached_allocator loads saved env now ssh_store m =
    reconcile_jesko_and_existing_infrastructure saved env now m.exposures
      (new_ssh_port_allocator loads ssh_store)

-- saveStoreUnlocked
abbrev pub save_store : Bool → Manager → Manager
save_store saved m = record m { store = save saved m.exposures m.store }

-- The rules of the exposures with another id.
unfoldable pub other_rules : String → List NetworkExposure → List ForwardingRule
other_rules id [] = []
other_rules id (x ∷ xs) =
    let rest = other_rules id xs in if x.id == id then rest else to_forwarding_rule x ∷ rest

abbrev pub exposure_request : NetworkExposure → PortAllocationRequest
exposure_request exp = record {
  workload_id = exp.workload_id;
  host_id = "host-main";
  gateway_id = exp.gateway_id;
  mode = AllocationMode.single;
  external_start_port = exp.public_port;
  external_end_port = exp.public_port;
  internal_start_port = exp.internal_port;
  internal_end_port = exp.internal_port;
  protocol = exp.protocol;
  public_ip = exp.public_ip;
  destination_ip = exp.internal_ip;
  explicit_rules = [];
}

-- validateExposureUnlocked, and ValidateNetworkExposure.
unfoldable pub validate_exposure : NetworkExposure → GoMap String NetworkExposure → ValidationResult
validate_exposure exp exposures =
    validate_allocation (exposure_request exp) none (other_rules exp.id (values exposures)) [] []
      none

-- `valRes.IsValid && valRes.Status == ConflictAvailable`
abbrev pub accepts : ValidationResult → Bool
accepts r = r.is_valid && is_available r.status

-- The message that a refusal carries.
abbrev pub refusal : ValidationResult → Message
refusal r = elim r.conflicts [ [] ↦ r.message | ◌∷◌ c cs ↦ c.message ]

-- The fields that CreateNetworkExposure fills in before it validates.
abbrev pub with_defaults : NetworkExposure → NetworkExposure
with_defaults exp = record exp {
  protocol = if protocol_is_unset exp.protocol then Protocol.tcp else exp.protocol;
  id = or_text exp.id (exposure_id exp.workload_id exp.public_port);
}

abbrev pub stamped : ℕ → NetworkExposure → NetworkExposure
stamped now exp = record exp {
  desired_state =
      if state_is_unset exp.desired_state then ExposureState.configured else exp.desired_state;
  actual_state = ExposureState.configured;
  sync_status = in_sync;
  created_at = some now;
  updated_at = some now;
}

-- The checks of CreateNetworkExposure before it takes the lock.
unfoldable pub check_new : NetworkExposure → Option ExposureError
check_new exp =
    if exp.workload_id == ""
    then some workload_id_required
    else if bad_port exp.public_port
    then some public_port_invalid
    else if bad_port exp.internal_port
    then some internal_port_invalid
    else if not (exp.internal_ip == "") && not (is_ip exp.internal_ip)
    then some internal_ip_invalid
    else if not (protocol_is_unset exp.protocol) && not (is_known_protocol exp.protocol)
    then some protocol_invalid
    else none

-- The end of CreateNetworkExposure.
unfoldable pub insert : Bool → NetworkExposure → Manager → Result NetworkExposure × Manager
insert saved exp m =
    let n = save_store saved (record m { exposures = put exp.id exp m.exposures }) in
    if saves saved m.store
    then (ok exp, n)
    else (err persist_failed, record n { exposures = delete exp.id n.exposures })

-- CreateNetworkExposure with the lock taken.
unfoldable pub create_locked :
    Bool → ℕ → NetworkExposure → Manager → Result NetworkExposure × Manager
create_locked saved now exp m = elim (get exp.id m.exposures) [
  | some old ↦ (err already_exists, m)
  | none ↦
      if accepts (validate_exposure exp m.exposures)
      then insert saved (stamped now exp) m
      else (err (conflict (refusal (validate_exposure exp m.exposures))), m)
]

unfoldable pub create_network_exposure :
    Bool → ℕ → Option NetworkExposure → Manager → Result NetworkExposure × Manager
create_network_exposure saved now none m = (err exposure_nil, m)
create_network_exposure saved now (some exp) m = elim (check_new exp) [
  | some e ↦ (err e, m)
  | none ↦ create_locked saved now (with_defaults exp) m
]

unfoldable pub get_network_exposure : String → Manager → Result NetworkExposure
get_network_exposure id m = elim (get id m.exposures) [
  | none ↦ err exposure_not_found
  | some exp ↦ ok exp
]

unfoldable pub list_network_exposures : Manager → List NetworkExposure
list_network_exposures m = values m.exposures

unfoldable pub list_workload_exposures : String → Manager → List NetworkExposure
list_workload_exposures workload_id m =
    keep (λ (x : NetworkExposure). x.workload_id == workload_id) (values m.exposures)

-- What UpdateNetworkExposure writes into the object before it validates.
abbrev pub updated_by : NetworkExposure → NetworkExposure → NetworkExposure
updated_by updated old = record old {
  public_port = if ltz (pos 0) updated.public_port then updated.public_port else old.public_port;
  internal_port =
      if ltz (pos 0) updated.internal_port then updated.internal_port else old.internal_port;
  internal_ip = or_text updated.internal_ip old.internal_ip;
  public_ip = or_text updated.public_ip old.public_ip;
  protocol = if protocol_is_unset updated.protocol then old.protocol else updated.protocol;
  exposure_mode =
      if mode_is_unset updated.exposure_mode then old.exposure_mode else updated.exposure_mode;
  description = or_text updated.description old.description;
}

abbrev pub set_exposure : String → NetworkExposure → Manager → Manager
set_exposure id exp m = record m { exposures = put id exp m.exposures }

-- The object is changed in place, so a refused update stays in the map, and is saved with the next
-- Save. The result of the success is the object itself.
unfoldable pub update_network_exposure :
    Bool → ℕ → String → NetworkExposure → Manager → Result NetworkExposure × Manager
update_network_exposure saved now id updated m = elim (get id m.exposures) [
  | none ↦ (err exposure_not_found, m)
  | some old ↦
      let exp = updated_by updated old in
      let written = set_exposure id exp m in
      let done = record exp { updated_at = some now } in
      if accepts (validate_exposure exp written.exposures)
      then (
        if saves saved m.store then ok done else err persist_failed,
        save_store saved (set_exposure id done written),
      )
      else (err (conflict (refusal (validate_exposure exp written.exposures))), written)
]

-- DeleteNetworkExposure; what the driver answers is dropped. `none` is the error-free return.
unfoldable pub delete_network_exposure : Bool → String → Manager → Option ExposureError × Manager
delete_network_exposure saved id m = elim (get id m.exposures) [
  | none ↦ (some exposure_not_found, m)
  | some exp ↦ (
    if saves saved m.store then none else some persist_failed,
    save_store saved (record m { exposures = delete id m.exposures }),
  )
]

unfoldable pub apply_exposure : Bool → ℕ → String → Manager → Result NetworkExposure × Manager
apply_exposure saved now id m = elim (get id m.exposures) [
  | none ↦ (err exposure_not_found, m)
  | some exp ↦ elim m.driver [
    | none ↦ (err no_driver, m)
    | some driver ↦
        let asked = record exp { desired_state = ExposureState.applied; updated_at = some now } in
        let failed = record asked {
          actual_state = ExposureState.unconfigured;
          sync_status = out_of_sync;
        } in
        let applied = record asked {
          actual_state = ExposureState.applied;
          sync_status = in_sync;
          last_sync = some now;
        } in
        if driver.creates asked
        then (
          if saves saved m.store then ok applied else err persist_failed,
          save_store saved (set_exposure id applied m),
        )
        else (err provider_failed, save_store saved (set_exposure id failed m))
  ]
]

abbrev pub observed : Bool → NetworkExposure → NetworkExposure
observed active exp =
    let actual = if active then ExposureState.applied else ExposureState.unconfigured in
    record exp {
      actual_state = actual;
      sync_status = if exposure_state_beq exp.desired_state actual then in_sync else out_of_sync;
    }

-- What the driver's answer makes of an exposure; with no answer it is left as it is.
abbrev pub observe : Driver → NetworkExposure → NetworkExposure
observe driver exp = elim (driver.active exp) [ none ↦ exp | some active ↦ observed active exp ]

-- ReconcileExposure of one object; without a driver it is taken to be in sync.
unfoldable pub reconciled : Option Driver → ℕ → NetworkExposure → NetworkExposure
reconciled none now exp = record exp { last_sync = some now; sync_status = in_sync }
reconciled (some driver) now exp = observe driver (record exp { last_sync = some now })

unfoldable pub reconcile_exposure : Bool → ℕ → String → Manager → Result NetworkExposure × Manager
reconcile_exposure saved now id m = elim (get id m.exposures) [
  | none ↦ (err exposure_not_found, m)
  | some exp ↦ let r = reconciled m.driver now exp in (ok r, save_store saved (set_exposure id r m))
]

-- One round of ReconcileAllExposures, where no driver changes nothing but the time.
unfoldable pub reconciled_in_all : Option Driver → ℕ → NetworkExposure → NetworkExposure
reconciled_in_all none now exp = record exp { last_sync = some now }
reconciled_in_all (some driver) now exp = observe driver (record exp { last_sync = some now })

unfoldable pub reconcile_all_exposures : Bool → ℕ → Manager → Manager
reconcile_all_exposures saved now m =
    save_store saved
      (record m { exposures = map (λ e. (e.0, reconciled_in_all m.driver now e.1)) m.exposures })

-- GetProviderExposureStatus: whether the exposure is active; with no driver it is not.
unfoldable pub get_provider_exposure_status : String → Manager → Result (Option Bool)
get_provider_exposure_status id m = elim (get id m.exposures) [
  | none ↦ err exposure_not_found
  | some exp ↦ elim m.driver [ none ↦ ok (some false) | some driver ↦ ok (driver.active exp) ]
]

-- One round of MigrateForwardingRules, and how many were migrated before it.
unfoldable pub migrate_rule :
    ℕ
    → String
    → String
    → ExposureMode
    → ForwardingRule
    → ℕ × GoMap String NetworkExposure
    → ℕ × GoMap String NetworkExposure
migrate_rule now workload_id workload_name mode rule (count, exposures) =
    let exp = convert_forwarding_rule_to_exposure now rule workload_id workload_name mode in
    elim (get exp.id exposures) [
      | some old ↦ (count, exposures)
      | none ↦ (suc count, put exp.id exp exposures)
    ]

unfoldable pub migrate_rules :
    ℕ
    → String
    → String
    → ExposureMode
    → List ForwardingRule
    → ℕ × GoMap String NetworkExposure
    → ℕ × GoMap String NetworkExposure
migrate_rules now workload_id workload_name mode [] s = s
migrate_rules now workload_id workload_name mode (rule ∷ rules) s =
    migrate_rules now workload_id workload_name mode rules
      (migrate_rule now workload_id workload_name mode rule s)

unfoldable pub migrate_forwarding_rules :
    Bool → ℕ → String → String → ExposureMode → List ForwardingRule → Manager → ℕ × Manager
migrate_forwarding_rules saved now workload_id workload_name mode rules m =
    let (count, exposures) =
      migrate_rules now workload_id workload_name mode rules (0, m.exposures) in
    let n = record m { exposures = exposures } in
    (count, if ltb 0 count then save_store saved n else n)
